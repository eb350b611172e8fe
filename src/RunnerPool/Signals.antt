-- ===== src/RunnerPool/Signals.antt =====
-- `_classify_signal_exit` of sandbox/runner_pool.py as a table.
use otari_sandbox_container.Base.{◌≡◌, ◌↔◌, Option, none, some, ℤ, pos, negsuc, arith}
use otari_sandbox_container.Limits.{LimitKind, memory, cpu, file_size, output_bytes, wall_clock}
use otari_sandbox_container.RunnerPool.{classify_signal_exit}

-- The exit code that stands for a limit, if a signal does.
abbrev pub exit_code_of : LimitKind → Option ℤ
exit_code_of memory = some (negsuc 8)
exit_code_of cpu = some (negsuc 23)
exit_code_of file_size = some (negsuc 24)
exit_code_of output_bytes = none
exit_code_of wall_clock = none

-- An exit code is attributed to the memory limit exactly if it is -9, to the CPU limit exactly if it is
-- -24, to the file size limit exactly if it is -25, and to no other kind of limit.
pub classify_signal_exit_iff :
    (code : ℤ) (kind : LimitKind)
    → (classify_signal_exit (some code) ≡ some kind) ↔ (exit_code_of kind ≡ some code)
unfolding classify_signal_exit
classify_signal_exit_iff (pos n) memory = ground arith
classify_signal_exit_iff (pos n) _ = ground arith
classify_signal_exit_iff (negsuc n) memory = ground arith
classify_signal_exit_iff (negsuc n) _ = ground arith
