-- ===== src/Bash/Outcome.antt =====
-- What `run_bash` of sandbox/bash.py returns.
use otari_sandbox_container.Base.{ℕ, ◌≡◌, ◌≢◌, refl, true, [], ◌++◌, codes, pos}
use otari_sandbox_container.Decimal.{show_nat, show_int}
use otari_sandbox_container.Utf8.Codec.{decode_replace, is_scalar_text}
use otari_sandbox_container.Utf8.Scalar.{decode_replace-scalar}
use otari_sandbox_container.Runner.Frames.{scalar-append, show_int-scalar}
use otari_sandbox_container.RunnerPool.{ExecOutcome}
use otari_sandbox_container.Bash.{
  Communicated, not_started, bash_returned, finished, timed_out, collected, lost, pipes_open,
  run_bash, timeout_outcome,
}

suffix-scalar :
    (n : ℕ)
    → is_scalar_text (codes "bash: command timed out after " ++ (show_nat n ++ codes "s\n")) ≡ true
suffix-scalar n =
    scalar-append (codes "bash: command timed out after ") (show_nat n ++ codes "s\n") refl
      (scalar-append (show_nat n) (codes "s\n") (unfold show_int in show_int-scalar (pos n)) refl)

-- Where the shell is started, and unless a child of the shell keeps its pipes open after the deadline, there is an outcome, and whatever
-- bytes the shell wrote, both of its texts can be encoded.
pub run_bash-scalar :
    (timeout : ℕ) (c : Communicated)
    → c ≢ not_started
    → c ≢ timed_out pipes_open
    → (o : ExecOutcome) × (run_bash timeout c ≡ bash_returned o)
      × (is_scalar_text o.stdout ≡ true)
      × (is_scalar_text o.stderr ≡ true)
unfolding run_bash
run_bash-scalar n not_started g h = absurd (g refl)
run_bash-scalar n (finished out err code) g h =
    (_, refl, decode_replace-scalar out, decode_replace-scalar err)
run_bash-scalar n (timed_out (collected out err)) g h = (
  timeout_outcome n out err,
  refl,
  decode_replace-scalar out,
  scalar-append (decode_replace err) _ (decode_replace-scalar err) (suffix-scalar n),
)
run_bash-scalar n (timed_out lost) g h = (
  timeout_outcome n [] [],
  refl,
  decode_replace-scalar [],
  scalar-append (decode_replace []) _ (decode_replace-scalar []) (suffix-scalar n),
)
run_bash-scalar n (timed_out pipes_open) g h = absurd (h refl)
