-- ===== src/Tests/TasksTests.antt =====
-- Schedules of the tasks that use one runner of sandbox/runner_pool.py.
use otari_sandbox_container.Base.{
  ℕ, ◌<◌, ◌≡◌, ◌≢◌, ◌↔◌, refl, true, some, none, arith, nat_beq, if◌then◌else◌,
}
use otari_sandbox_container.RunnerPool.Tasks.{
  Role, executes, stops, no_process, Shared, Pc, idle, queued, entered, spawning, reading, finished,
  raised, update, Move, acquire, goes, call, spawn, System, pick, init, Reach, here, later,
}
use otari_sandbox_container.RunnerPool.Tasks.Exclusion.{inside}
use otari_sandbox_container.RunnerPool.Tasks.Calls.{calls}
use otari_sandbox_container.RunnerPool.Tasks.Turns.{lock_held_iff, calls_take_turns}
use otari_sandbox_container.RunnerPool.Tasks.Stopped.{stopped_while_reading}

-- Task 0 has taken the lock and spawns, task 1 waits for the lock.
abbrev spawning_first : System
spawning_first = record {
  mem = record { proc = none; returncode = λ p. none; count = 0; locked = true };
  pc = update (update (update (update (λ i. idle) 0 queued) 0 entered) 0 spawning) 1 queued;
}

spawning_first_reached : Reach calls init spawning_first
spawning_first_reached =
    later
      (later (later (later here (pick 0 (goes call))) (pick 0 (acquire refl refl)))
        (pick 0 (goes (spawn (λ p h. cc)))))
      (pick 1 (goes call))

calls_take_turns_example :
    ((i : ℕ) → spawning_first.pc i ≢ raised no_process)
    × ((p : ℕ) → p < 0 → spawning_first.mem.returncode p ≡ none → spawning_first.mem.proc ≡ some p)
    × ((i j : ℕ) (m : Shared) (p : Pc)
        → i ≢ j
        → inside executes (spawning_first.pc i) ≡ true
        → Move executes spawning_first.mem (spawning_first.pc j) m p
        → m ≡ spawning_first.mem)
calls_take_turns_example = calls_take_turns spawning_first spawning_first_reached

lock_held_iff_example :
    ((i j : ℕ)
      → inside executes (spawning_first.pc i) ≡ true
      → inside executes (spawning_first.pc j) ≡ true
      → i ≡ j)
    × ((true ≡ true) ↔ ((i : ℕ) × (inside executes (spawning_first.pc i) ≡ true)))
lock_held_iff_example = lock_held_iff calls spawning_first spawning_first_reached

abbrev one_call : ℕ → Role
one_call i = if nat_beq i 0 then executes else stops

-- Task 0 reads from process 0.
abbrev first_reads : System
first_reads = record {
  mem = record { proc = some 0; returncode = λ p. none; count = 1; locked = true };
  pc = λ i. if nat_beq i 0 then reading else idle;
}

stopped_while_reading_example :
    (t : System) × Reach one_call first_reads t × (t.pc 1 ≡ finished) × (t.pc 0 ≡ raised no_process)
stopped_while_reading_example =
    stopped_while_reading one_call first_reads 0 1 0 refl refl refl refl refl (omega arith) refl
