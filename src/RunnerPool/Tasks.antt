-- ===== src/RunnerPool/Tasks.antt =====
-- The coroutines of one `RunnerProcess` in sandbox/runner_pool.py, from one `await` to the next: what
-- they read of `self._proc` and of the lock, and where an exception leaves them. What is read from the
-- pipes is left open.
pub mod Exclusion
pub mod Calls
pub mod Turns
pub mod Stopped
use otari_sandbox_container.Base.{
  ℕ, ◌+◌, ◌<◌, ◌≡◌, ◌≢◌, Bool, true, false, Option, none, some, ℤ, if◌then◌else◌, nat_beq,
}

-- What a task does: it calls `execute`, `stop` or `start`.
pub data Role : Type 0 where
  executes stops starts : Role

pub data Raised : Type 0 where
  no_process : Raised  -- an attribute of `self._proc`, or its assertion, where it is None
  other : Raised

-- `self._proc`, the exit codes of the processes that were spawned (there are `count` of them), and
-- whether the lock is taken.
pub record Shared : Type 0 where
  pub proc : Option ℕ
  pub returncode : ℕ → Option ℤ
  pub count : ℕ
  pub locked : Bool

-- Where a task stands.
pub data Pc : Type 0 where
  idle : Pc
  queued : Pc  -- at `async with self._lock`
  entered : Pc  -- before `start`, with the lock
  spawning : Pc  -- in `create_subprocess_exec`
  sending : Pc  -- before the payload, or in `drain`
  reading : Pc  -- in `readline`
  exiting : Pc  -- in `wait`, after the end of the stream
  draining : Pc  -- in `_drain_partial_stdout`
  before_stop : Bool → Pc  -- at the call of `stop`; true where `_read_until_done` calls it
  stopping : Bool → ℕ → Pc  -- in `wait` of that process, after SIGTERM
  killing : Bool → ℕ → Pc  -- in `wait` of that process, after SIGKILL
  finished : Pc
  raised : Raised → Pc

abbrev pub update {ℓ} : {A : Type ℓ} → (ℕ → A) → ℕ → A → ℕ → A
update f i a j = if nat_beq j i then a else f j

-- `self._proc is not None and self._proc.returncode is None`
abbrev pub Running : Shared → ℕ → Type 0
Running m p = (m.proc ≡ some p) × (m.returncode p ≡ none)

abbrev pub Idle : Shared → Type 0
Idle m = (p : ℕ) → m.proc ≡ some p → m.returncode p ≢ none

-- A task that ends, with or without an exception; `execute` leaves its lock.
abbrev pub released : Role → Shared → Shared
released executes m = record m { locked = false }
released stops m = m
released starts m = m

-- `self._proc = None`
abbrev pub without_proc : Shared → Shared
without_proc m = record m { proc = none }

-- `self._proc = await asyncio.create_subprocess_exec(...)`
abbrev pub with_spawned : Shared → Shared
with_spawned m = record m {
  proc = some m.count;
  returncode = update m.returncode m.count none;
  count = m.count + 1;
}

-- What follows a `start` that has a process.
abbrev pub after_start : Role → Pc
after_start executes = sending
after_start stops = finished
after_start starts = finished

abbrev pub first : Role → Pc
first executes = queued
first stops = before_stop false
first starts = entered

-- A process ends with its exit code.
abbrev pub ended : Shared → ℕ → ℤ → Shared
ended m p code = record m { returncode = update m.returncode p (some code) }

-- The places where the deadline of `execute` can find `_read_until_done`.
pub data IsTimed : Pc → Type 0 where
  in_readline : IsTimed reading
  in_exit_wait : IsTimed exiting
  in_sigterm_wait : {p : ℕ} → IsTimed (stopping true p)
  in_kill_wait : {p : ℕ} → IsTimed (killing true p)

-- What a task does without a change of the shared state.
pub data Goes (r : Role) (m : Shared) : Pc → Pc → Type 0 where
  call : Goes r m idle (first r)
  -- `start`
  keep : {p : ℕ} → Running m p → Goes r m entered (after_start r)
  spawn : Idle m → Goes r m entered spawning
  -- `execute`
  broken_pipe : Goes r m sending (before_stop false)
  sent : {p : ℕ} → m.proc ≡ some p → Goes r m sending reading
  line : {p : ℕ} → m.proc ≡ some p → Goes r m reading reading
  eof : {p : ℕ} → m.proc ≡ some p → m.returncode p ≢ none → Goes r m reading (before_stop true)
  eof_early : {p : ℕ} → Running m p → Goes r m reading exiting
  waited : {p : ℕ} → m.proc ≡ some p → Goes r m exiting (before_stop true)
  -- The deadline of `execute`, wherever `_read_until_done` waits, and the drain.
  deadline : {p : ℕ} {from : Pc} → IsTimed from → Running m p → Goes r m from draining
  deadline_ended : {from : Pc} → IsTimed from → Idle m → Goes r m from (before_stop false)
  chunk : Goes r m draining draining
  drained : Goes r m draining (before_stop false)
  -- `stop`
  sigterm : {b : Bool} {p : ℕ} → Running m p → Goes r m (before_stop b) (stopping b p)
  kill : {b : Bool} {p q : ℕ} → m.proc ≡ some q → Goes r m (stopping b p) (killing b q)

-- How a task ends, with the shared state but for the lock.
pub data Leaves (m : Shared) : Pc → Shared → Pc → Type 0 where
  spawn_failed : Leaves m spawning m (raised other)
  unencodable : Leaves m sending m (raised other)
  sent_none : m.proc ≡ none → Leaves m sending m (raised no_process)
  line_none : m.proc ≡ none → Leaves m reading m (raised no_process)
  done_line : Leaves m reading m finished
  overrun : Leaves m reading m (raised other)
  eof_none : m.proc ≡ none → Leaves m reading m (raised no_process)
  waited_none : m.proc ≡ none → Leaves m exiting m (raised no_process)
  stop_none : {b : Bool} → m.proc ≡ none → Leaves m (before_stop b) m finished
  stop_ended :
      {b : Bool} {p : ℕ}
      → m.proc ≡ some p
      → m.returncode p ≢ none
      → Leaves m (before_stop b) (without_proc m) finished
  sigterm_gone :
      {b : Bool} {p : ℕ} (code : ℤ)
      → Running m p
      → Leaves m (before_stop b) (without_proc (ended m p code)) finished
  exited :
      {b : Bool} {p : ℕ} → m.returncode p ≢ none → Leaves m (stopping b p) (without_proc m) finished
  kill_gone :
      {b : Bool} {p q : ℕ}
      → m.proc ≡ some q
      → m.returncode q ≢ none
      → Leaves m (stopping b p) (without_proc m) finished
  kill_none : {b : Bool} {p : ℕ} → m.proc ≡ none → Leaves m (stopping b p) m (raised no_process)
  killed :
      {b : Bool} {p : ℕ} → m.returncode p ≢ none → Leaves m (killing b p) (without_proc m) finished

-- One task, from one point to the next.
pub data Move (r : Role) (m : Shared) : Pc → Shared → Pc → Type 0 where
  acquire : r ≡ executes → m.locked ≡ false → Move r m queued (record m { locked = true }) entered
  spawn_done : Move r m spawning (with_spawned m) (after_start r)
  goes : {p p' : Pc} → Goes r m p p' → Move r m p m p'
  leaves : {p p' : Pc} {m' : Shared} → Leaves m p m' p' → Move r m p (released r m') p'

pub record System : Type 0 where
  pub mem : Shared
  pub pc : ℕ → Pc

-- A step: a task moves, or a process ends.
pub data Step (role : ℕ → Role) (s : System) : System → Type 0 where
  pick :
      (i : ℕ) {m : Shared} {p : Pc}
      → Move (role i) s.mem (s.pc i) m p
      → Step role s (record { mem = m; pc = update s.pc i p })
  ends :
      (p : ℕ) (code : ℤ)
      → p < s.mem.count
      → s.mem.returncode p ≡ none
      → Step role s (record s { mem = ended s.mem p code })

abbrev pub init : System
init = record {
  mem = record { proc = none; returncode = λ p. none; count = 0; locked = false };
  pc = λ i. idle;
}

pub data Reach (role : ℕ → Role) (s : System) : System → Type 0 where
  here : Reach role s s
  later : {t u : System} → Reach role s t → Step role t u → Reach role s u
