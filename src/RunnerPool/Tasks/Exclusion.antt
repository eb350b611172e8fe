-- ===== src/RunnerPool/Tasks/Exclusion.antt =====
-- The lock of a `RunnerProcess` in sandbox/runner_pool.py over the tasks that use the runner.
use otari_sandbox_container.Base.{
  ℕ, ◌≡◌, ◌≢◌, refl, ap, sym, ◌∙◌, Bool, true, false, ◌⊎◌, inl, inr, arith, nat_beq, Bool-cases,
  nat_beq_iff, if_true, if_false,
}
use otari_sandbox_container.RunnerPool.Tasks.{
  idle, call, keep, spawn, broken_pipe, sent, line, eof, eof_early, waited, chunk, drained, sigterm,
  kill, spawn_failed, unencodable, sent_none, line_none, done_line, overrun, eof_none, waited_none,
  stop_none, stop_ended, sigterm_gone, exited, kill_gone, kill_none, killed, deadline,
  deadline_ended, in_readline, in_exit_wait, in_sigterm_wait, in_kill_wait, IsTimed, acquire,
  spawn_done, goes, leaves, Goes, Leaves, Move, Role, executes, stops, starts, Shared, Pc, entered,
  spawning, sending, reading, exiting, draining, before_stop, stopping, killing, update, System,
  Step, pick, ends, init, Reach, here, later,
}

-- A call of `execute` between the lock and its release.
abbrev pub inside : Role → Pc → Bool
inside executes entered = true
inside executes spawning = true
inside executes sending = true
inside executes reading = true
inside executes exiting = true
inside executes draining = true
inside executes (before_stop b) = true
inside executes (stopping b p) = true
inside executes (killing b p) = true
inside executes p = false
inside stops p = false
inside starts p = false

IsTimed-inside : {p : Pc} → IsTimed p → inside executes p ≡ true
IsTimed-inside in_readline = refl
IsTimed-inside in_exit_wait = refl
IsTimed-inside in_sigterm_wait = refl
IsTimed-inside in_kill_wait = refl

Goes-inside :
    {m : Shared} {p p' : Pc} → Goes executes m p p' → inside executes p ≡ inside executes p'
Goes-inside call = refl
Goes-inside (keep _) = refl
Goes-inside (spawn _) = refl
Goes-inside broken_pipe = refl
Goes-inside (sent _) = refl
Goes-inside (line _) = refl
Goes-inside (eof _ _) = refl
Goes-inside (eof_early _) = refl
Goes-inside (waited _) = refl
Goes-inside (deadline t _) = IsTimed-inside t
Goes-inside (deadline_ended t _) = IsTimed-inside t
Goes-inside chunk = refl
Goes-inside drained = refl
Goes-inside (sigterm _) = refl
Goes-inside (kill _) = refl

pub Leaves-inside :
    {m m' : Shared} {p p' : Pc}
    → Leaves m p m' p'
    → (inside executes p ≡ true) × (inside executes p' ≡ false)
Leaves-inside spawn_failed = (refl, refl)
Leaves-inside unencodable = (refl, refl)
Leaves-inside (sent_none _) = (refl, refl)
Leaves-inside (line_none _) = (refl, refl)
Leaves-inside done_line = (refl, refl)
Leaves-inside overrun = (refl, refl)
Leaves-inside (eof_none _) = (refl, refl)
Leaves-inside (waited_none _) = (refl, refl)
Leaves-inside (stop_none _) = (refl, refl)
Leaves-inside (stop_ended _ _) = (refl, refl)
Leaves-inside (sigterm_gone _ _) = (refl, refl)
Leaves-inside (exited _) = (refl, refl)
Leaves-inside (kill_gone _ _) = (refl, refl)
Leaves-inside (kill_none _) = (refl, refl)
Leaves-inside (killed _) = (refl, refl)

-- What a move does to the lock.
pub data Lock (r : Role) (m m' : Shared) (p p' : Pc) : Type 0 where
  stays : inside r p ≡ inside r p' → m'.locked ≡ m.locked → Lock r m m' p p'
  takes : m.locked ≡ false → m'.locked ≡ true → inside r p' ≡ true → Lock r m m' p p'
  frees : inside r p ≡ true → inside r p' ≡ false → m'.locked ≡ false → Lock r m m' p p'

Leaves-locked : {m m' : Shared} {p p' : Pc} → Leaves m p m' p' → m'.locked ≡ m.locked
Leaves-locked spawn_failed = refl
Leaves-locked unencodable = refl
Leaves-locked (sent_none _) = refl
Leaves-locked (line_none _) = refl
Leaves-locked done_line = refl
Leaves-locked overrun = refl
Leaves-locked (eof_none _) = refl
Leaves-locked (waited_none _) = refl
Leaves-locked (stop_none _) = refl
Leaves-locked (stop_ended _ _) = refl
Leaves-locked (sigterm_gone _ _) = refl
Leaves-locked (exited _) = refl
Leaves-locked (kill_gone _ _) = refl
Leaves-locked (kill_none _) = refl
Leaves-locked (killed _) = refl

pub Move-Lock : (r : Role) {m m' : Shared} {p p' : Pc} → Move r m p m' p' → Lock r m m' p p'
Move-Lock r (acquire e free) = takes free refl (ap (λ r. inside r entered) e)
Move-Lock executes spawn_done = stays refl refl
Move-Lock stops spawn_done = stays refl refl
Move-Lock starts spawn_done = stays refl refl
Move-Lock executes (goes g) = stays (Goes-inside g) refl
Move-Lock stops (goes g) = stays refl refl
Move-Lock starts (goes g) = stays refl refl
Move-Lock executes (leaves l) = frees (Leaves-inside l).0 (Leaves-inside l).1 refl
Move-Lock stops (leaves l) = stays refl (Leaves-locked l)
Move-Lock starts (leaves l) = stays refl (Leaves-locked l)

-- A task and the others, after a move.
pub update-cases :
    {A : Type 0} (f : ℕ → A) (i : ℕ) (a : A) (j : ℕ)
    → ((i ≡ j) × (update f i a j ≡ a)) ⊎ ((i ≢ j) × (update f i a j ≡ f j))
update-cases f i a j = elim (Bool-cases (nat_beq j i)) [
  | inl same ↦ inl (sym ((nat_beq_iff j i).0 same), if_true _ _ same)
  | inr other ↦ inr (grind arith, if_false _ _ other)
]

-- Each call inside has the lock, there is one at most, and there is one if the lock is taken.
pub record IsExclusive (role : ℕ → Role) (s : System) : Type 0 where
  pub held : (i : ℕ) → inside (role i) (s.pc i) ≡ true → s.mem.locked ≡ true
  pub alone : (i j : ℕ) → inside (role i) (s.pc i) ≡ true → inside (role j) (s.pc j) ≡ true → i ≡ j
  pub owner : s.mem.locked ≡ true → (i : ℕ) × (inside (role i) (s.pc i) ≡ true)

module _ (role : ℕ → Role) (s : System) (v : IsExclusive role s) (i : ℕ) (m : Shared) (p : Pc) where
  open v use {held, alone, owner}

  abbrev pc' : ℕ → Pc
  pc' = update s.pc i p

  abbrev Inside : ℕ → Type 0
  Inside j = inside (role j) (s.pc j) ≡ true

  abbrev Inside' : ℕ → Type 0
  Inside' j = inside (role j) (pc' j) ≡ true

  -- A task that is inside afterwards is the one that moved, or was inside before.
  moved : (j : ℕ) → Inside' j → ((i ≡ j) × (inside (role i) p ≡ true)) ⊎ ((i ≢ j) × Inside j)
  moved j h = elim (update-cases s.pc i p j) [
    | inl (e, q) ↦ inl (e, ap (λ k. inside (role k) p) e ∙ ap (inside (role j)) (sym q) ∙ h)
    | inr (n, q) ↦ inr (n, sym (ap (inside (role j)) q) ∙ h)
  ]

  locked-IsExclusive :
      Lock (role i) s.mem m (s.pc i) p → IsExclusive role (record { mem = m; pc = pc' })
  locked-IsExclusive (stays same lock) = record {
    held = λ j h. lock ∙ held j (before j h);
    alone = λ j k h g. alone j k (before j h) (before k g);
    owner = λ taken. still (owner (sym lock ∙ taken));
  }
    where
      still : (k : ℕ) × Inside k → (k : ℕ) × Inside' k
      still (k, h) = elim (update-cases s.pc i p k) [
        | inl (e, u) ↦ (
          k,
          ap (inside (role k)) u
              ∙ ap (λ k. inside (role k) p) (sym e)
              ∙ sym same
              ∙ ap (λ k. inside (role k) (s.pc k)) e
              ∙ h,
        )
        | inr (n, u) ↦ (k, ap (inside (role k)) u ∙ h)
      ]

      before : (j : ℕ) → Inside' j → Inside j
      before j h = elim (moved j h) [
        | inl (e, q) ↦ ap (λ k. inside (role k) (s.pc k)) (sym e) ∙ same ∙ q
        | inr (n, q) ↦ q
      ]
  locked-IsExclusive (takes free taken inside') = record {
    held = λ j h. taken;
    alone = λ j k h g. sym (only j h) ∙ only k g;
    owner = λ taken. (i, mine);
  }
    where
      mine : Inside' i
      mine = elim (update-cases s.pc i p i) [
        | inl (e, u) ↦ ap (inside (role i)) u ∙ inside'
        | inr (n, u) ↦ absurd (n refl)
      ]

      only : (j : ℕ) → Inside' j → i ≡ j
      only j h = elim (moved j h) [
        | inl (e, q) ↦ e
        | inr (n, q) ↦ absurd (ground (arith, held j q))
      ]
  locked-IsExclusive (frees was not free) = record {
    held = λ j h. absurd (none j h);
    alone = λ j k h g. absurd (none j h);
    owner = λ taken. cc;
  }
    where
      none : (j : ℕ) → ¬ Inside' j
      none j h = elim (moved j h) [ inl (e, q) ↦ ground arith | inr (n, q) ↦ n (alone i j was q) ]

pub Step-IsExclusive :
    (role : ℕ → Role) {s t : System} → Step role s t → IsExclusive role s → IsExclusive role t
Step-IsExclusive role {s} (pick i mv) v = locked-IsExclusive role s v i _ _ (Move-Lock (role i) mv)
Step-IsExclusive role (ends p code c h) v = record {
  held = v.held;
  alone = v.alone;
  owner = v.owner;
}

pub Reach-IsExclusive :
    (role : ℕ → Role) {s t : System} → Reach role s t → IsExclusive role s → IsExclusive role t
Reach-IsExclusive role here v = v
Reach-IsExclusive role (later r st) v = Step-IsExclusive role st (Reach-IsExclusive role r v)

idle-outside : (r : Role) → inside r idle ≡ false
idle-outside executes = refl
idle-outside stops = refl
idle-outside starts = refl

pub init-IsExclusive : (role : ℕ → Role) → IsExclusive role init
init-IsExclusive role = record {
  held = λ i h. absurd (ground (arith, h, idle-outside (role i)));
  alone = λ i j h g. absurd (ground (arith, h, idle-outside (role i)));
  owner = λ taken. absurd (ground (arith, taken));
}
