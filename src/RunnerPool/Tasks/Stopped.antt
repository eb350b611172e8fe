-- ===== src/RunnerPool/Tasks/Stopped.antt =====
-- A `stop` of sandbox/runner_pool.py while a call of `execute` reads.
use otari_sandbox_container.Base.{
  ℕ, ◌<◌, ◌≡◌, ◌≢◌, refl, ap, sym, ◌∙◌, false, some, none, negsuc, inl, inr,
}
use mathlib.Core.Path.{subst}
use otari_sandbox_container.RunnerPool.Tasks.{
  Role, executes, stops, no_process, Shared, Pc, idle, reading, raised, before_stop, stopping,
  finished, update, without_proc, released, ended, Move, goes, leaves, call, sigterm, exited,
  eof_none, System, Step, pick, ends, Reach, here, later,
}
use otari_sandbox_container.RunnerPool.Tasks.Exclusion.{update-cases}
use otari_sandbox_container.RunnerPool.Tasks.Calls.{ended_self}

abbrev moved : System → ℕ → Shared → Pc → System
moved s i m p = record { mem = m; pc = update s.pc i p }

pick_at :
    (role : ℕ → Role) (s : System) (i : ℕ) (r : Role) (p₀ : Pc) (m : Shared) (p : Pc)
    → role i ≡ r
    → s.pc i ≡ p₀
    → Move r s.mem p₀ m p
    → Step role s (moved s i m p)
pick_at role s i r p₀ m p er ep mv =
    pick i (
      subst (λ q. Move (role i) s.mem q m p) (sym ep)
        (subst (λ r. Move r s.mem p₀ m p) (sym er) mv))

update-same : (f : ℕ → Pc) (i : ℕ) (p : Pc) → update f i p i ≡ p
update-same f i p = elim (update-cases f i p i) [ inl (e, u) ↦ u | inr (n, u) ↦ absurd (n refl) ]

update-other : (f : ℕ → Pc) (i : ℕ) (p : Pc) (j : ℕ) → i ≢ j → update f i p j ≡ f j
update-other f i p j n = elim (update-cases f i p j) [ inl (e, u) ↦ absurd (n e) | inr (k, u) ↦ u ]

-- Where one task waits in `readline` of a call and another one calls `stop`, while the process runs:
-- there is a schedule in which the process ends by SIGTERM, `stop` returns first, and the call is
-- left by the exception of an attribute of None.
pub stopped_while_reading :
    (role : ℕ → Role) (s : System) (i j p : ℕ)
    → role i ≡ executes
    → role j ≡ stops
    → s.pc i ≡ reading
    → s.pc j ≡ idle
    → s.mem.proc ≡ some p
    → p < s.mem.count
    → s.mem.returncode p ≡ none
    → (t : System) × Reach role s t × (t.pc j ≡ finished) × (t.pc i ≡ raised no_process)
stopped_while_reading role s i j p ri rj pi pj proc lt run =
    let n : j ≢ i = λ e. cc (sym pj ∙ ap s.pc e ∙ pi) in
    let s1 = moved s j s.mem (before_stop false) in
    let s2 = moved s1 j s.mem (stopping false p) in
    let s3 : System = record s2 { mem = ended s.mem p (negsuc 14) } in
    let s4 = moved s3 j (without_proc s3.mem) finished in
    let s5 = moved s4 i (released executes s4.mem) (raised no_process) in
    let at4 : s4.pc i ≡ reading =
      update-other s3.pc j finished i n
      ∙ update-other s1.pc j (stopping false p) i n
      ∙ update-other s.pc j (before_stop false) i n
      ∙ pi in
    (
      s5,
      later
          (later
            (later
              (later
                (later here
                  (pick_at role s j stops idle s.mem (before_stop false) rj pj (goes call)))
                (pick_at role s1 j stops (before_stop false) s.mem (stopping false p) rj
                  (update-same s.pc j _) (goes (sigterm (proc, run)))))
              (ends p (negsuc 14) lt run))
            (pick_at role s3 j stops (stopping false p) (without_proc s3.mem) finished rj
              (update-same s1.pc j _)
              (leaves (exited (ended_self s.mem.returncode p (negsuc 14))))))
          (pick_at role s4 i executes reading (released executes s4.mem) (raised no_process) ri at4
            (leaves (eof_none refl))),
      update-other s4.pc i _ j (λ e. n (sym e)) ∙ update-same s3.pc j _,
      update-same s4.pc i _,
    )
