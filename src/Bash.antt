-- ===== src/Bash.antt =====
-- sandbox/bash.py, and the handler of sandbox/exec_server.py that calls it. The shell is the argument:
-- what its two streams hold and when.
pub mod Workdir
pub mod Outcome
use otari_sandbox_container.Base.{
  ℕ, ◌≡◌, true, Option, none, some, List, [], ◌∷◌, ◌++◌, Text, Bytes, codes, ℤ, pos, negsuc,
  text_eq,
}
use otari_sandbox_container.Base.Dict.{lookup, insert, erase}
use otari_sandbox_container.Decimal.{show_nat}
use otari_sandbox_container.Utf8.Codec.{decode_replace}
use otari_sandbox_container.Limits.{Environ}
use otari_sandbox_container.RunnerPool.{ExecOutcome, plain_outcome}

abbrev pub workspace_variable : Text
workspace_variable = codes "SANDBOX_WORKSPACE"

-- The directory that the shell starts in.
unfoldable pub workdir : Environ → Text
workdir environ = elim (lookup workspace_variable environ) [
  | none ↦ codes "/workspace"
  | some d ↦ d
]

-- `communicate` after the kill: both streams, an exception, or no end, where a child of the shell keeps
-- the pipes open.
pub data AfterKill : Type 0 where
  collected : Bytes → Bytes → AfterKill
  lost : AfterKill
  pipes_open : AfterKill

-- The shell cannot be started (a directory that is missing, a command that is too long or has a NUL
-- character), or `communicate` ends before the deadline, or not.
pub data Communicated : Type 0 where
  not_started : Communicated
  finished : Bytes → Bytes → Option ℤ → Communicated
  timed_out : AfterKill → Communicated

abbrev timeout_outcome : ℕ → Bytes → Bytes → ExecOutcome
timeout_outcome timeout_seconds out err =
    record (plain_outcome (decode_replace out)
      (decode_replace err
        ++ (codes "bash: command timed out after " ++ (show_nat timeout_seconds ++ codes "s\n")))
      (negsuc 0)) { timed_out = true }

-- How `run_bash` ends: with an outcome, with an exception, or not at all.
pub data BashEnd : Type 0 where
  bash_returned : ExecOutcome → BashEnd
  bash_raised : BashEnd
  bash_waits : BashEnd

-- `run_bash`
unfoldable pub run_bash : ℕ → Communicated → BashEnd
run_bash timeout_seconds not_started = bash_raised
run_bash timeout_seconds (finished out err returncode) = bash_returned (
    plain_outcome (decode_replace out) (decode_replace err)
      (elim returncode [ none ↦ negsuc 0 | some code ↦ code ]))
run_bash timeout_seconds (timed_out (collected out err)) =
    bash_returned (timeout_outcome timeout_seconds out err)
run_bash timeout_seconds (timed_out lost) = bash_returned (timeout_outcome timeout_seconds [] [])
run_bash timeout_seconds (timed_out pipes_open) = bash_waits

-- `_run_bash_execution` up to the call: the value that it keeps, and the environment of the server.
unfoldable pub enter : Text → Environ → Option Text × Environ
enter workspace_dir environ =
    (lookup workspace_variable environ, insert workspace_variable workspace_dir environ)

-- The `finally` of `_run_bash_execution`.
unfoldable pub leave : Option Text → Environ → Environ
leave none environ = erase workspace_variable environ
leave (some prev) environ = insert workspace_variable prev environ
