-- ===== src/RunnerPool/Tasks/Turns.antt =====
-- Calls of `execute` in sandbox/runner_pool.py that overlap: the lock, and what it protects.
use otari_sandbox_container.Base.{ℕ, ◌<◌, ◌≡◌, ◌≢◌, ◌↔◌, refl, true, some, none, arith}
use mathlib.Core.Path.{subst}
use otari_sandbox_container.RunnerPool.Tasks.{
  Role, executes, no_process, Shared, Pc, raised, Move, acquire, spawn_done, goes, leaves, System,
  init, Reach,
}
use otari_sandbox_container.RunnerPool.Tasks.Exclusion.{
  inside, Leaves-inside, Reach-IsExclusive, init-IsExclusive,
}
use otari_sandbox_container.RunnerPool.Tasks.Calls.{calls, Fits, Reach-IsSound, init-IsSound}

-- Tasks that call `execute`, `stop` and `start` of one runner, any number of them in any order, with
-- processes that end at any time: two calls of `execute` are never between the lock and its release
-- together, and the lock is taken only while one is, so that no exception leaves it taken.
pub lock_held_iff :
    (role : ℕ → Role) (s : System)
    → Reach role init s
    → ((i j : ℕ) → inside (role i) (s.pc i) ≡ true → inside (role j) (s.pc j) ≡ true → i ≡ j)
      × ((s.mem.locked ≡ true) ↔ ((i : ℕ) × (inside (role i) (s.pc i) ≡ true)))
lock_held_iff role s r =
    let v = Reach-IsExclusive role r (init-IsExclusive role) in
    (v.alone, (v.owner, λ h. v.held h.0 h.1))

-- Tasks that call `execute` alone, any number of them in any order, with processes that end at any
-- time: no call meets `self._proc` where it is None, each process that runs is `self._proc`, so
-- that two never run at once, and while one call is between the lock and its release, a move of
-- another one leaves the shared state as it is.
pub calls_take_turns :
    (s : System)
    → Reach calls init s
    → ((i : ℕ) → s.pc i ≢ raised no_process)
      × ((p : ℕ) → p < s.mem.count → s.mem.returncode p ≡ none → s.mem.proc ≡ some p)
      × ((i j : ℕ) (m : Shared) (p : Pc)
          → i ≢ j
          → inside executes (s.pc i) ≡ true
          → Move executes s.mem (s.pc j) m p
          → m ≡ s.mem)
calls_take_turns s r =
    let v = Reach-IsSound r init-IsSound in
    (
      λ i e. subst (Fits s.mem.proc s.mem.returncode) e (v.fits i),
      v.owns,
      λ i j m p n within mv.
          unmoved mv (v.exclusive.held i within) (λ also. n (v.exclusive.alone i j within also)),
    )
  where
    unmoved :
        {m : Shared} {p p' : Pc}
        → Move executes s.mem p m p'
        → s.mem.locked ≡ true
        → inside executes p ≢ true
        → m ≡ s.mem
    unmoved (acquire e free) taken out = absurd (ground arith)
    unmoved spawn_done taken out = absurd (out refl)
    unmoved (goes g) taken out = refl
    unmoved (leaves l) taken out = absurd (out (Leaves-inside l).0)
