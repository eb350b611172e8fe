-- ===== src/RunnerPool/Execute.antt =====
-- `RunnerProcess.execute` of sandbox/runner_pool.py, with `_drain_partial_stdout`.
pub mod Bounds
pub mod Encodable
pub mod Lifecycle
pub mod EndToEnd
pub mod Hazards
use otari_sandbox_container.Base.{
  ℕ, ◌≡◌, Bool, true, false, ◌&&◌, ◌||◌, Option, none, some, List, [], ◌∷◌, ◌++◌, if◌then◌else◌,
  Text, Bytes, codes, ℤ, pos, negsuc, ltb_ℤ, length, join, ◌==◌, nat_eq,
}
use otari_sandbox_container.Decimal.{show_nat}
use otari_sandbox_container.Utf8.Codec.{encode, decode_replace}
use otari_sandbox_container.Limits.{LimitKind, output_bytes, wall_clock, truncate_output}
use otari_sandbox_container.RunnerPool.{
  ExecOutcome, plain_outcome, initial_read, ReadEvent, ReadEnd, done, died, overran, pending,
  read_until_done, died_outcome, Proc, RunnerProcess, running, start,
}

-- What one read of the drain gives: bytes (none at the end of the stream), or an exception, the
-- 50 ms timeout included.
pub data DrainEvent : Type 0 where
  chunk : Bytes → DrainEvent
  no_data : DrainEvent

-- The loop of `_drain_partial_stdout`; `none` where it is still reading after the events given.
unfoldable pub drain_loop : Bytes → List DrainEvent → Option Text
drain_loop got [] = none
drain_loop got (no_data ∷ es) = some (decode_replace got)
drain_loop got (chunk bytes ∷ es) =
    let rest = drain_loop (got ++ bytes) es in
    if length bytes == 0 then some (decode_replace got) else rest

-- `_drain_partial_stdout`
unfoldable pub drain_partial_stdout : Option Proc → List DrainEvent → Option Text
drain_partial_stdout proc es = if running proc then drain_loop [] es else some []

-- What the outside does during one call: the process that is spawned if one is needed, whether it takes
-- the input, the lines that arrive before the deadline, the reads of the drain, and the exit code that
-- is seen at the end of the stream.
pub record Exchange : Type 0 where
  pub spawned : Proc
  pub send_ok : Bool
  pub events : List ReadEvent
  pub drained : List DrainEvent
  pub exit_code : Option ℤ

pub data Result : Type 0 where
  returned : ExecOutcome → Result
  unicode_error : Result
  value_error : Result
  hanging : Result

abbrev merged : ExecOutcome → Text × ℤ → Text × ℤ → ExecOutcome
merged o (out, out_dropped) (err, err_dropped) = record {
  stdout = out;
  stderr = err;
  return_code = o.return_code;
  timed_out = o.timed_out;
  limit_exceeded = elim o.limit_exceeded [
    | none ↦
        if ltb_ℤ (pos 0) out_dropped || ltb_ℤ (pos 0) err_dropped then some output_bytes else none
    | some k ↦ some k
  ];
  stdout_dropped_bytes = out_dropped;
  stderr_dropped_bytes = err_dropped;
}

-- The outcome of a response that was read: each stream truncated, and the kind of limit.
unfoldable pub truncated_outcome : ℤ → ExecOutcome → Result
truncated_outcome max_bytes o = elim (truncate_output o.stdout max_bytes) [
  | none ↦ unicode_error
  | some out ↦ elim (truncate_output o.stderr max_bytes) [
    | none ↦ unicode_error
    | some err ↦ returned (merged o out err)
  ]
]

-- The outcome after the deadline, from the text that the drain got.
unfoldable pub timeout_outcome : ℤ → ℕ → Text → Result
timeout_outcome max_bytes timeout_seconds partial_stdout =
    elim (truncate_output partial_stdout max_bytes) [
      | none ↦ unicode_error
      | some (out, dropped) ↦ returned (record {
        stdout = out;
        stderr =
            codes "runner: execution timed out after " ++ (show_nat timeout_seconds ++ codes "s\n");
        return_code = negsuc 0;
        timed_out = true;
        limit_exceeded = some wall_clock;
        stdout_dropped_bytes = dropped;
        stderr_dropped_bytes = pos 0;
      })
    ]

-- The runner without a process, as `stop` leaves it.
abbrev pub stopped : RunnerProcess → RunnerProcess
stopped r = record r { proc = none }

-- What follows the reading.
unfoldable pub conclude : RunnerProcess → ℕ → Exchange → ReadEnd → Result × RunnerProcess
conclude r timeout_seconds x (done o) = (truncated_outcome r.limits.max_output_bytes o, r)
conclude r timeout_seconds x (died out err) =
    (truncated_outcome r.limits.max_output_bytes (died_outcome out err x.exit_code), stopped r)
conclude r timeout_seconds x overran = (value_error, r)
conclude r timeout_seconds x pending = elim (drain_partial_stdout r.proc x.drained) [
  | none ↦ (hanging, r)
  | some text ↦ (timeout_outcome r.limits.max_output_bytes timeout_seconds text, stopped r)
]

abbrev exchange_code : RunnerProcess → ℕ → Exchange → Result × RunnerProcess × List ReadEvent
exchange_code r timeout_seconds x =
    let (ending, left) = read_until_done initial_read x.events in
    let (result, r') = conclude r timeout_seconds x ending in (result, r', left)

-- `execute`: the result, the runner, and the events of its stream that were not read.
unfoldable pub execute :
    RunnerProcess → Text → ℕ → Exchange → Result × RunnerProcess × List ReadEvent
execute r₀ code timeout_seconds x =
    let r = start r₀ x.spawned in
    elim (encode code) [
      | none ↦ (unicode_error, r, x.events)
      | some payload ↦ if x.send_ok then exchange_code r timeout_seconds x else (
        returned (plain_outcome [] (codes "runner: pipe closed before send\n") (negsuc 0)),
        stopped r,
        x.events,
      )
    ]
