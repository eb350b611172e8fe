-- ===== src/RunnerPool/Tasks/Calls.antt =====
-- A runner of sandbox/runner_pool.py that is used by calls of `execute` alone.
use otari_sandbox_container.Base.{
  ℕ, ◌+◌, ◌<◌, ◌≡◌, ◌≢◌, refl, ap, sym, ◌∙◌, true, false, Option, none, some, ℤ, inl, inr, arith,
  Bool-cases,
}
use mathlib.Core.Path.{subst}
use otari_sandbox_container.RunnerPool.Tasks.{
  Role, executes, no_process, other, Shared, Pc, idle, queued, entered, spawning, sending, reading,
  exiting, draining, before_stop, stopping, killing, finished, raised, update, Goes, call, keep,
  spawn, broken_pipe, sent, line, eof, eof_early, waited, deadline, deadline_ended, chunk, drained,
  sigterm, kill, Leaves, spawn_failed, unencodable, sent_none, line_none, done_line, overrun,
  eof_none, waited_none, stop_none, stop_ended, sigterm_gone, exited, kill_gone, kill_none, killed,
  Move, acquire, spawn_done, goes, leaves, System, Step, pick, ends, init, Reach, here, later,
}
use otari_sandbox_container.RunnerPool.Tasks.Exclusion.{
  inside, Leaves-inside, update-cases, IsExclusive, Step-IsExclusive, init-IsExclusive,
}

abbrev pub calls : ℕ → Role
calls i = executes

abbrev Codes : Type 0
Codes = ℕ → Option ℤ

-- What a place says of `self._proc` and the exit codes.
abbrev pub Fits : Option ℕ → Codes → Pc → Type 0
Fits proc codes spawning = (p : ℕ) → proc ≡ some p → codes p ≢ none
Fits proc codes sending = (p : ℕ) × (proc ≡ some p)
Fits proc codes reading = (p : ℕ) × (proc ≡ some p)
Fits proc codes exiting = (p : ℕ) × (proc ≡ some p)
Fits proc codes (stopping b p) = proc ≡ some p
Fits proc codes (killing b p) = proc ≡ some p
Fits proc codes (raised no_process) = ⊥
Fits proc codes p = Unit

-- Each process that runs is `self._proc`.
abbrev pub Owns : Option ℕ → Codes → ℕ → Type 0
Owns proc codes count = (p : ℕ) → p < count → codes p ≡ none → proc ≡ some p

Goes-Fits :
    {m : Shared} {p p' : Pc}
    → Goes executes m p p'
    → Fits m.proc m.returncode p
    → Fits m.proc m.returncode p'
Goes-Fits call f = tt
Goes-Fits (keep (h, r)) f = (_, h)
Goes-Fits (spawn h) f = h
Goes-Fits broken_pipe f = tt
Goes-Fits (sent h) f = f
Goes-Fits (line h) f = f
Goes-Fits (eof h r) f = tt
Goes-Fits (eof_early h) f = f
Goes-Fits (waited h) f = tt
Goes-Fits (deadline t h) f = tt
Goes-Fits (deadline_ended t h) f = tt
Goes-Fits chunk f = tt
Goes-Fits drained f = tt
Goes-Fits (sigterm (h, r)) f = h
Goes-Fits (kill h) f = h

some-injective : {a b : ℕ} → some a ≡ some b → a ≡ b
some-injective h = cc

-- `self._proc = None` where its process has ended.
drop-Owns :
    {proc : Option ℕ} {codes : Codes} {count : ℕ} (p : ℕ)
    → Owns proc codes count
    → proc ≡ some p
    → codes p ≢ none
    → Owns none codes count
drop-Owns {codes} p o h e q lt run =
    absurd (e (ap codes (some-injective (sym h ∙ o q lt run)) ∙ run))

update-running :
    (codes : Codes) (p : ℕ) (code : ℤ) (q : ℕ)
    → update codes p (some code) q ≡ none
    → codes q ≡ none
update-running codes p code q h = elim (update-cases codes p (some code) q) [
  | inl (e, u) ↦ cc (u, h)
  | inr (n, u) ↦ sym u ∙ h
]

pub ended_self : (codes : Codes) (p : ℕ) (code : ℤ) → update codes p (some code) p ≢ none
ended_self codes p code h = elim (update-cases codes p (some code) p) [
  | inl (e, u) ↦ cc (u, h)
  | inr (n, u) ↦ n refl
]

ended-Owns :
    {proc : Option ℕ} {codes : Codes} {count : ℕ} (p : ℕ) (code : ℤ)
    → Owns proc codes count
    → Owns proc (update codes p (some code)) count
ended-Owns {codes} p code o q lt run = o q lt (update-running codes p code q run)

Leaves-Fits :
    {m m' : Shared} {p p' : Pc}
    → Leaves m p m' p'
    → Fits m.proc m.returncode p
    → Owns m.proc m.returncode m.count
    → Fits m'.proc m'.returncode p' × Owns m'.proc m'.returncode m'.count
Leaves-Fits spawn_failed f o = (tt, o)
Leaves-Fits unencodable f o = (tt, o)
Leaves-Fits (sent_none h) (p, e) o = absurd (ground arith)
Leaves-Fits (line_none h) (p, e) o = absurd (ground arith)
Leaves-Fits done_line f o = (tt, o)
Leaves-Fits overrun f o = (tt, o)
Leaves-Fits (eof_none h) (p, e) o = absurd (ground arith)
Leaves-Fits (waited_none h) (p, e) o = absurd (ground arith)
Leaves-Fits (stop_none h) f o = (tt, o)
Leaves-Fits (stop_ended {p} h e) f o = (tt, drop-Owns p o h e)
Leaves-Fits {m} (sigterm_gone {p} code (h, r)) f o =
    (tt, drop-Owns p (ended-Owns p code o) h (ended_self m.returncode p code))
Leaves-Fits (exited {p} e) f o = (tt, drop-Owns p o f e)
Leaves-Fits (kill_gone {p} {q} h e) f o = (tt, drop-Owns q o h e)
Leaves-Fits (kill_none h) f o = absurd (ground arith)
Leaves-Fits (killed {p} e) f o = (tt, drop-Owns p o f e)

outside-Fits :
    (proc proc' : Option ℕ) (codes codes' : Codes) (q : Pc)
    → inside executes q ≡ false
    → Fits proc codes q
    → Fits proc' codes' q
outside-Fits o o' c c' idle h f = tt
outside-Fits o o' c c' queued h f = tt
outside-Fits o o' c c' entered h f = tt
outside-Fits o o' c c' spawning h f = absurd (ground arith)
outside-Fits o o' c c' sending h f = absurd (ground arith)
outside-Fits o o' c c' reading h f = absurd (ground arith)
outside-Fits o o' c c' exiting h f = absurd (ground arith)
outside-Fits o o' c c' draining h f = tt
outside-Fits o o' c c' (before_stop b) h f = tt
outside-Fits o o' c c' (stopping b p) h f = absurd (ground arith)
outside-Fits o o' c c' (killing b p) h f = absurd (ground arith)
outside-Fits o o' c c' finished h f = tt
outside-Fits o o' c c' (raised no_process) h f = f
outside-Fits o o' c c' (raised other) h f = tt

ended-Fits :
    (proc : Option ℕ) (codes : Codes) (p : ℕ) (code : ℤ) (q : Pc)
    → Fits proc codes q
    → Fits proc (update codes p (some code)) q
ended-Fits o codes p code idle f = f
ended-Fits o codes p code queued f = f
ended-Fits o codes p code entered f = f
ended-Fits o codes p code spawning f = λ q h run. f q h (update-running codes p code q run)
ended-Fits o codes p code sending f = f
ended-Fits o codes p code reading f = f
ended-Fits o codes p code exiting f = f
ended-Fits o codes p code draining f = f
ended-Fits o codes p code (before_stop b) f = f
ended-Fits o codes p code (stopping b q) f = f
ended-Fits o codes p code (killing b q) f = f
ended-Fits o codes p code finished f = f
ended-Fits o codes p code (raised no_process) f = f
ended-Fits o codes p code (raised other) f = f

-- A new process, where the one before has ended.
spawned-Owns :
    {proc : Option ℕ} {codes : Codes} (count : ℕ)
    → Owns proc codes count
    → ((p : ℕ) → proc ≡ some p → codes p ≢ none)
    → Owns (some count) (update codes count none) (count + 1)
spawned-Owns {codes} count o h q lt run = elim (update-cases codes count none q) [
  | inl (e, u) ↦ ap some e
  | inr (n, u) ↦ let runs = sym u ∙ run in absurd (h q (o q (grind arith) runs) runs)
]

-- What the calls keep.
pub record IsSound (s : System) : Type 0 where
  pub exclusive : IsExclusive calls s
  pub fits : (i : ℕ) → Fits s.mem.proc s.mem.returncode (s.pc i)
  pub owns : Owns s.mem.proc s.mem.returncode s.mem.count

module _ (s : System) (v : IsSound s) (i : ℕ) where
  -- After a move from inside, all others are outside.
  others :
      (p : Pc) (proc : Option ℕ) (codes : Codes)
      → inside executes (s.pc i) ≡ true
      → Fits proc codes p
      → (j : ℕ) → Fits proc codes (update s.pc i p j)
  others p proc codes within f j = elim (update-cases s.pc i p j) [
    | inl (e, u) ↦ subst (Fits proc codes) (sym u) f
    | inr (n, u) ↦ subst (Fits proc codes) (sym u) (elim (Bool-cases (inside executes (s.pc j))) [
      | inl also ↦ absurd (n (v.exclusive.alone i j within also))
      | inr out ↦ outside-Fits _ proc _ codes (s.pc j) out (v.fits j)
    ])
  ]

  kept :
      (p : Pc)
      → Fits s.mem.proc s.mem.returncode p
      → (j : ℕ) → Fits s.mem.proc s.mem.returncode (update s.pc i p j)
  kept p f j = elim (update-cases s.pc i p j) [
    | inl (e, u) ↦ subst (Fits s.mem.proc s.mem.returncode) (sym u) f
    | inr (n, u) ↦ subst (Fits s.mem.proc s.mem.returncode) (sym u) (v.fits j)
  ]

  pick-IsSound :
      {m : Shared} {p p₀ : Pc}
      → s.pc i ≡ p₀
      → Move executes s.mem p₀ m p
      → IsExclusive calls (record { mem = m; pc = update s.pc i p })
      → IsSound (record { mem = m; pc = update s.pc i p })
  pick-IsSound at (acquire e free) x = record {
    exclusive = x;
    fits = kept entered tt;
    owns = v.owns;
  }
  pick-IsSound at spawn_done x =
      let f = subst (Fits s.mem.proc s.mem.returncode) at (v.fits i) in
      record {
        exclusive = x;
        fits = others sending _ _ (ap (inside executes) at) (s.mem.count, refl);
        owns = spawned-Owns s.mem.count v.owns f;
      }
  pick-IsSound at (goes g) x = record {
    exclusive = x;
    fits = kept _ (Goes-Fits g (subst (Fits s.mem.proc s.mem.returncode) at (v.fits i)));
    owns = v.owns;
  }
  pick-IsSound at (leaves l) x =
      let f = subst (Fits s.mem.proc s.mem.returncode) at (v.fits i) in
      let (f', o') = Leaves-Fits l f v.owns in
      record {
        exclusive = x;
        fits = others _ _ _ (ap (inside executes) at ∙ (Leaves-inside l).0) f';
        owns = o';
      }

Step-IsSound : {s t : System} → Step calls s t → IsSound s → IsSound t
Step-IsSound {s} (pick i mv) v =
    pick-IsSound s v i refl mv (Step-IsExclusive calls (pick i mv) v.exclusive)
Step-IsSound {s} (ends p code lt h) v = record {
  exclusive = Step-IsExclusive calls {s = s} (ends p code lt h) v.exclusive;
  fits = λ i. ended-Fits s.mem.proc s.mem.returncode p code (s.pc i) (v.fits i);
  owns = ended-Owns p code v.owns;
}

pub Reach-IsSound : {s t : System} → Reach calls s t → IsSound s → IsSound t
Reach-IsSound here v = v
Reach-IsSound (later r st) v = Step-IsSound st (Reach-IsSound r v)

pub init-IsSound : IsSound init
init-IsSound = record {
  exclusive = init-IsExclusive calls;
  fits = λ i. tt;
  owns = λ p lt run. absurd (omega arith);
}
