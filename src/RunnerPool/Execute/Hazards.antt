-- ===== src/RunnerPool/Execute/Hazards.antt =====
-- Calls of `execute` in sandbox/runner_pool.py that go wrong.
use otari_sandbox_container.Base.{
  ℕ, ◌<◌, ◌≡◌, refl, ap, ◌∙◌, true, Option, none, some, List, [], ◌∷◌, ◌++◌, All, Text, Bytes,
  codes, length, ℤ, negsuc, arith, nat_eq, text_eq, starts_with, if_true,
}
use otari_sandbox_container.Utf8.Codec.{decode_replace, is_scalar_text}
use otari_sandbox_container.Runner.{sentinel_stdout}
use otari_sandbox_container.Runner.Frames.{done_line, done_line-scalar}
use otari_sandbox_container.RunnerPool.{
  ExecOutcome, plain_outcome, in_stdout, ReadState, LineResult, next, outcome, read_step, ReadEvent,
  line, eof, overrun, ReadEnd, done, overran, pending, read_until_done, initial_read, RunnerProcess,
  is_alive, start, on_stripped,
}
use otari_sandbox_container.RunnerPool.Reader.{
  IsPlain, events, inside, read_next, read_outcome, read_section, opens_stdout, rstrip-done_line,
}
use otari_sandbox_container.RunnerPool.RoundTrip.{events-append}
use otari_sandbox_container.Decimal.{parse_int-show_int}
use otari_sandbox_container.RunnerPool.Execute.Lifecycle.{execute-sent}
use otari_sandbox_container.RunnerPool.Execute.EndToEnd.{execute-done}
use otari_sandbox_container.RunnerPool.Execute.{
  Exchange, Result, hanging, value_error, truncated_outcome, timeout_outcome, conclude, execute,
  DrainEvent, chunk, no_data, drain_loop, drain_partial_stdout,
}

-- Reads that all give bytes.
abbrev pub IsFlood : DrainEvent → Type 0
IsFlood (chunk bytes) = 0 < length bytes
IsFlood no_data = ⊥

drain_loop-flood : (got : Bytes) (es : List DrainEvent) → All IsFlood es → drain_loop got es ≡ none
unfolding drain_loop
drain_loop-flood got [] h = refl
drain_loop-flood got (chunk bytes ∷ es) h = ground (arith, drain_loop-flood (got ++ bytes) es h.1)
drain_loop-flood got (no_data ∷ es) h = absurd h.0

-- A call with a running process whose response is not read before the deadline, while every read of the
-- drain gives bytes, has not returned after these reads, however many they are.
pub execute_flooded :
    (r₀ : RunnerProcess) (code : Text) (timeout : ℕ) (x : Exchange)
    → is_scalar_text code ≡ true
    → x.send_ok ≡ true
    → is_alive (start r₀ x.spawned) ≡ true
    → (read_until_done initial_read x.events).0 ≡ pending
    → All IsFlood x.drained
    → (execute r₀ code timeout x).0 ≡ hanging
unfolding conclude is_alive drain_partial_stdout
execute_flooded r₀ code timeout x scalar sent alive late flood =
    let r = start r₀ x.spawned in
    ap (λ (z : Result × RunnerProcess × List ReadEvent). z.0)
      (execute-sent r₀ code timeout x scalar sent)
    ∙ ap (λ e. (conclude r timeout x e).0) late
    ∙ ap
        (λ (o : Option Text).
          let z : Result × RunnerProcess = elim o [
            | none ↦ (hanging, r)
            | some t ↦
                (timeout_outcome r.limits.max_output_bytes timeout t, record r { proc = none })
          ] in
          z.0)
        (if_true _ _ alive ∙ drain_loop-flood [] x.drained flood)

read_until_done-append :
    (s : ReadState) (es new : List ReadEvent) (o : ExecOutcome) (left : List ReadEvent)
    → read_until_done s es ≡ (done o, left)
    → read_until_done s (es ++ new) ≡ (done o, left ++ new)
unfolding read_until_done
read_until_done-append s [] new o left h = cc
read_until_done-append s (eof ∷ es) new o left h = cc
read_until_done-append s (overrun ∷ es) new o left h = cc
read_until_done-append s (line raw ∷ es) new o left h =
    on (read_step s (decode_replace raw)) (λ s'. read_until_done-append s' es new o left) h
  where
    on :
        (r : LineResult)
        → ((s' : ReadState)
            → read_until_done s' es ≡ (done o, left)
            → read_until_done s' (es ++ new) ≡ (done o, left ++ new))
        → ◌≡◌ {A = ReadEnd × List ReadEvent}
            (elim r [ next s' ↦ read_until_done s' es | outcome o' ↦ (done o', es) ])
            (done o, left)
        → ◌≡◌ {A = ReadEnd × List ReadEvent}
            (elim r [
              | next s' ↦ read_until_done s' (es ++ new)
              | outcome o' ↦ (done o', es ++ new)
            ])
            (done o, left ++ new)
    on (next s') ih k = ih s' k
    on (outcome o') ih k = λ i. ((k i).0, (k i).1 ++ new)

-- A call whose response is interrupted by a line that is longer than the buffer limit raises, keeps the
-- process, and leaves the rest of the response in its stream. If that rest still holds a done line, the
-- next call on the runner returns the rest of the old response as its own outcome, and everything that
-- belongs to its own code block stays unread.
pub overrun_desync :
    (r₀ : RunnerProcess) (code₁ code₂ : Text) (n₁ n₂ : ℕ) (x₁ x₂ : Exchange)
    (late new left : List ReadEvent) (old : ExecOutcome)
    → is_scalar_text code₁ ≡ true
    → is_scalar_text code₂ ≡ true
    → x₁.send_ok ≡ true
    → x₂.send_ok ≡ true
    → read_until_done initial_read x₁.events ≡ (overran, late)
    → read_until_done initial_read late ≡ (done old, left)
    → x₂.events ≡ late ++ new
    → let r = start r₀ x₁.spawned in
      (execute r₀ code₁ n₁ x₁ ≡ (value_error, r, late))
      × (execute r code₂ n₂ x₂ ≡ (
        truncated_outcome (start r x₂.spawned).limits.max_output_bytes old,
        start r x₂.spawned,
        left ++ new,
      ))
overrun_desync r₀ code₁ code₂ n₁ n₂ x₁ x₂ late new left old c₁ c₂ s₁ s₂ long rest evs =
    let r = start r₀ x₁.spawned in
    (
      execute-sent r₀ code₁ n₁ x₁ c₁ s₁
          ∙ unfold conclude in
            ap
              (λ (e : ReadEnd × List ReadEvent).
                ((conclude r n₁ x₁ e.0).0, (conclude r n₁ x₁ e.0).1, e.1))
              long,
      execute-done r code₂ n₂ x₂ old (left ++ new) c₂ s₂ (
          ap (read_until_done initial_read) evs
          ∙ read_until_done-append initial_read late new old left rest),
    )

-- A line in the output of a block that reads like the done line ends the reading: the outcome has its
-- code and no output, and the true rest of the response stays in the stream.
pub forged_done_line :
    (ls : List Text) (code : ℤ) (rest : List ReadEvent)
    → All IsPlain ls
    → read_until_done initial_read
        (events ((sentinel_stdout ++ codes "\n") ∷ (ls ++ done_line code ∷ [])) ++ rest)
      ≡ (done (plain_outcome [] [] code), rest)
forged_done_line ls code rest h =
    read_next initial_read (inside [] [] in_stdout []) _ _ refl (opens_stdout [] [] [])
    ∙ ap (read_until_done (inside [] [] in_stdout [])) (events-append ls (done_line code ∷ []) rest)
    ∙ read_section [] [] in_stdout [] ls _ h
    ∙ read_outcome (inside [] [] in_stdout ls) (plain_outcome [] [] code) (done_line code) rest
        (done_line-scalar code) (reads_done_inside ls code)
  where
    reads_done_inside :
        (buf : List Text) (code : ℤ)
        → read_step (inside [] [] in_stdout buf) (done_line code)
          ≡ outcome (plain_outcome [] [] code)
    reads_done_inside buf code =
        unfold read_step in
        (ap (on_stripped (inside [] [] in_stdout buf) (done_line code)) (rstrip-done_line code)
          ∙ unfold text_eq starts_with in
            ap
              (λ (r : Option ℤ).
                outcome (plain_outcome [] [] (elim r [ none ↦ negsuc 0 | some n ↦ n ])))
              (parse_int-show_int code))
