-- ===== src/RunnerPool/Execute/EndToEnd.antt =====
-- A code block sent by `execute` of sandbox/runner_pool.py and run by `run` of sandbox/runner.py.
use otari_sandbox_container.Base.{
  ℕ, ◌≡◌, refl, ap, sym, ◌∙◌, Bool, true, List, [], ◌∷◌, ◌++◌, map, Text, Bytes, ends_with_newline,
  All, append-nil, inl, inr, ◌⊎◌,
}
use otari_sandbox_container.Utf8.Codec.{encode_chars, is_scalar_text}
use otari_sandbox_container.Runner.{
  Streams, Executed, BlockRun, block_ended, Round, go_on, run_one, return_code, stderr_value,
}
use otari_sandbox_container.Runner.Frames.{response, terminated}
use otari_sandbox_container.Runner.Block.{run_one-request}
use otari_sandbox_container.RunnerPool.{
  request, RunnerProcess, ExecOutcome, plain_outcome, initial_read, ReadEvent, line, done,
  read_until_done, start,
}
use otari_sandbox_container.RunnerPool.Lines.{split_lines, split_lines-terminated}
use otari_sandbox_container.RunnerPool.Reader.{IsPlain, IsIgnored}
use otari_sandbox_container.RunnerPool.RoundTrip.{unframed, stream_events, read-response}
use otari_sandbox_container.RunnerPool.Execute.{Exchange, truncated_outcome, conclude, execute}

-- Bytes that are whole lines.
abbrev pub IsComplete : Bytes → Type 0
IsComplete raw = (raw ≡ []) ⊎ (ends_with_newline raw ≡ true)

stream_events-append :
    (raw rest : Bytes)
    → IsComplete raw
    → stream_events (raw ++ rest) ≡ map line (split_lines raw) ++ stream_events rest
stream_events-append raw rest (inl e) = rw e (unfold split_lines in refl)
stream_events-append raw rest (inr e) =
    ap (map line) (split_lines-terminated raw rest e)
    ∙ map-append_line (split_lines raw) (split_lines rest)
  where
    map-append_line : (ls ms : List Bytes) → map line (ls ++ ms) ≡ map line ls ++ map line ms
    map-append_line [] ms = refl
    map-append_line (l ∷ ls) ms = ap (λ r. line l ∷ r) (map-append_line ls ms)

-- A response that is read to its done line.
pub execute-done :
    (r₀ : RunnerProcess) (code : Text) (timeout : ℕ) (x : Exchange) (o : ExecOutcome)
    (left : List ReadEvent)
    → is_scalar_text code ≡ true
    → x.send_ok ≡ true
    → read_until_done initial_read x.events ≡ (done o, left)
    → execute r₀ code timeout x
      ≡ (truncated_outcome (start r₀ x.spawned).limits.max_output_bytes o, start r₀ x.spawned, left)
unfolding execute conclude
execute-done r₀ code timeout x o left scalar sent h = rw (scalar, sent, h, execute) refl

module _ {G : Type 0} (printable : ℕ → Bool) (exec_block : G → Text → BlockRun G) where
  abbrev pub written : Round G → Bytes
  written (go_on g s) = s.out
  written (Round.stop s e) = s.out

  -- From the call of `execute` to its result: the runner reads exactly the request for `code` and has
  -- written nothing before; the block ends; the exec server reads what the runner writes in that round.
  -- Then the outcome
  -- is that of the block, with one newline less at the end of each stream, truncated; the runner is
  -- kept; and nothing is left in its stream. The bytes that the block wrote to the file descriptor
  -- itself must be whole lines, and no line before or inside the frames may be a sentinel line.
  pub execute-run_one :
      (g : G) (s : Streams) (r₀ : RunnerProcess) (code : Text) (timeout : ℕ) (x : Exchange)
      (r : Executed G)
      → let err = stderr_value r.stderr r.ending in
        exec_block g code ≡ block_ended r
        → is_scalar_text code ≡ true
        → s.input.bytes ≡ request code
        → s.out ≡ []
        → is_scalar_text r.stdout ≡ true
        → is_scalar_text err ≡ true
        → IsComplete r.raw
        → All IsIgnored (split_lines r.raw)
        → All IsPlain (split_lines (terminated r.stdout))
        → All IsPlain (split_lines (terminated err))
        → x.send_ok ≡ true
        → x.events ≡ stream_events (written (run_one printable exec_block g s))
        → execute r₀ code timeout x ≡ (
          truncated_outcome
              (start r₀ x.spawned).limits.max_output_bytes
              (plain_outcome (unframed r.stdout) (unframed err) (return_code r.ending)),
          start r₀ x.spawned,
          [],
        )
  execute-run_one g s r₀ code timeout x r ends scalar input fresh a b complete noise plain plain'
        sent evs =
      let err = stderr_value r.stderr r.ending in
      let answer = encode_chars (response r.stdout err (return_code r.ending)) in
      let (s', round, left, out, same) =
        run_one-request printable exec_block g s code [] r ends scalar
          (input ∙ sym (append-nil (request code))) a b in
      execute-done r₀ code timeout x _ [] scalar sent (
        ap (read_until_done initial_read) (
          evs
          ∙ ap (λ w. stream_events (written w)) round
          ∙ ap stream_events (out ∙ ap (λ o. (o ++ r.raw) ++ answer) fresh)
          ∙ stream_events-append r.raw answer complete
          ∙ ap (λ e. map line (split_lines r.raw) ++ e) (sym (append-nil (stream_events answer))))
        ∙ read-response (split_lines r.raw) r.stdout err (return_code r.ending) [] noise plain
            plain')
