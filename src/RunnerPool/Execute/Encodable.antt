-- ===== src/RunnerPool/Execute/Encodable.antt =====
-- Nothing that a runner sends makes `execute` of sandbox/runner_pool.py fail in an encoding.
use otari_sandbox_container.Base.{
  ℕ, ◌≡◌, ◌≢◌, refl, ap, ◌∙◌, Bool, true, false, Option, none, some, List, [], ◌∷◌, ◌++◌,
  if◌then◌else◌, Text, Bytes, ◌==◌, text_eq, starts_with, ends_with_newline, drop_last, join, All,
  ℤ, negsuc, codes, arith, inl, inr, Bool-cases,
}
use otari_sandbox_container.Utf8.Codec.{is_scalar_text, decode_replace}
use otari_sandbox_container.Utf8.Scalar.{decode_replace-scalar}
use otari_sandbox_container.Limits.{
  LimitKind, memory, cpu, file_size, output_bytes, wall_clock, truncate_output, value,
}
use otari_sandbox_container.Runner.Frames.{scalar-append}
use otari_sandbox_container.RunnerPool.{
  ExecOutcome, ReadState, LineResult, next, outcome, read_step, section_text, rstrip_newlines,
  done_prefix, plain_outcome, Section, died_outcome, classify_signal_exit, Proc, RunnerProcess,
  start, ReadEvent, line, eof, overrun, ReadEnd, done, died, overran, pending, read_until_done,
  initial_read,
}
use otari_sandbox_container.RunnerPool.Execute.{
  hanging, exchange_code, DrainEvent, chunk, no_data, drain_loop, drain_partial_stdout,
  timeout_outcome, Exchange, Result, returned, unicode_error, truncated_outcome, conclude, execute,
}
use otari_sandbox_container.Runner.{
  sentinel_stdout, sentinel_stdout_end, sentinel_stderr, sentinel_stderr_end,
}

-- The texts that have been read so far can be encoded.
record IsEncodable (s : ReadState) : Type 0 where
  out : is_scalar_text s.stdout_text ≡ true
  err : is_scalar_text s.stderr_text ≡ true
  buf : All (λ l. is_scalar_text l ≡ true) s.section_buf

join-scalar :
    (ls : List Text) → All (λ l. is_scalar_text l ≡ true) ls → is_scalar_text (join ls) ≡ true
join-scalar [] h = refl
join-scalar (l ∷ ls) h = scalar-append l (join ls) h.0 (join-scalar ls h.1)

drop_last-scalar : (t : Text) → is_scalar_text t ≡ true → is_scalar_text (drop_last t) ≡ true
drop_last-scalar [] h = refl
drop_last-scalar (c ∷ []) h = refl
drop_last-scalar (c ∷ d ∷ t) h = ground (arith, drop_last-scalar (d ∷ t))

section_text-scalar :
    (ls : List Text)
    → All (λ l. is_scalar_text l ≡ true) ls
    → is_scalar_text (section_text ls) ≡ true
unfolding section_text
section_text-scalar ls h = elim (Bool-cases (ends_with_newline (join ls))) [
  | inl e ↦ rw e (drop_last-scalar (join ls) (join-scalar ls h))
  | inr e ↦ rw e (join-scalar ls h)
]

snoc-scalar :
    (ls : List Text) (l : Text)
    → All (λ l. is_scalar_text l ≡ true) ls
    → is_scalar_text l ≡ true
    → All (λ l. is_scalar_text l ≡ true) (ls ++ l ∷ [])
snoc-scalar [] l h k = (k, tt)
snoc-scalar (m ∷ ls) l h k = (h.0, snoc-scalar ls l h.1 k)

abbrev EncodableResult : LineResult → Type 0
EncodableResult (next s) = IsEncodable s
EncodableResult (outcome o) = (is_scalar_text o.stdout ≡ true) × (is_scalar_text o.stderr ≡ true)

either :
    (b : Bool) (x y : LineResult)
    → EncodableResult x
    → EncodableResult y
    → EncodableResult (if b then x else y)
either true x y h k = h
either false x y h k = k

read_step-EncodableResult :
    (s : ReadState) (l : Text)
    → IsEncodable s
    → is_scalar_text l ≡ true
    → EncodableResult (read_step s l)
unfolding read_step
read_step-EncodableResult s l h k =
    let stripped = rstrip_newlines l in
    either (stripped == sentinel_stdout) (next _) _ (record { out = h.out; err = h.err; buf = tt })
      (either (stripped == sentinel_stdout_end) (next _) _
        (record { out = section_text-scalar s.section_buf h.buf; err = h.err; buf = h.buf })
        (either (stripped == sentinel_stderr) (next _) _
          (record { out = h.out; err = h.err; buf = tt })
          (either (stripped == sentinel_stderr_end) (next _) _
            (record { out = h.out; err = section_text-scalar s.section_buf h.buf; buf = h.buf })
            (either (starts_with stripped done_prefix)
              (outcome (plain_outcome s.stdout_text s.stderr_text _)) _ (h.out, h.err)
              (kept s.in_section)))))
  where
    kept :
        (k' : Option Section)
        → EncodableResult (elim k' [
          | none ↦ next s
          | some _ ↦ next (record s { section_buf = s.section_buf ++ l ∷ [] })
        ])
    kept none = h
    kept (some k') = record { out = h.out; err = h.err; buf = snoc-scalar s.section_buf l h.buf k }

abbrev EncodableEnd : ReadEnd → Type 0
EncodableEnd (done o) = (is_scalar_text o.stdout ≡ true) × (is_scalar_text o.stderr ≡ true)
EncodableEnd (died out err) = (is_scalar_text out ≡ true) × (is_scalar_text err ≡ true)
EncodableEnd overran = Unit
EncodableEnd pending = Unit

read_until_done-EncodableEnd :
    (s : ReadState) (es : List ReadEvent) → IsEncodable s → EncodableEnd (read_until_done s es).0
unfolding read_until_done
read_until_done-EncodableEnd s [] h = tt
read_until_done-EncodableEnd s (eof ∷ es) h = (h.out, h.err)
read_until_done-EncodableEnd s (overrun ∷ es) h = tt
read_until_done-EncodableEnd s (line raw ∷ es) h =
    on (read_step s (decode_replace raw)) (λ s'. read_until_done-EncodableEnd s' es)
      (read_step-EncodableResult s (decode_replace raw) h (decode_replace-scalar raw))
  where
    on :
        (r : LineResult)
        → ((s' : ReadState) → IsEncodable s' → EncodableEnd (read_until_done s' es).0)
        → EncodableResult r
        → EncodableEnd (
            let z : ReadEnd × List ReadEvent = elim r [
              | next s' ↦ read_until_done s' es
              | outcome o ↦ (done o, es)
            ] in
            z.0)
    on (next s') ih k = ih s' k
    on (outcome o) ih k = k

truncate_output-scalar :
    (s : Text) (max_bytes : ℤ) → is_scalar_text s ≡ true → truncate_output s max_bytes ≢ none
unfolding truncate_output
truncate_output-scalar s max_bytes h e = ground arith

truncated_outcome-ne :
    (max_bytes : ℤ) (o : ExecOutcome)
    → is_scalar_text o.stdout ≡ true
    → is_scalar_text o.stderr ≡ true
    → truncated_outcome max_bytes o ≢ unicode_error
unfolding truncated_outcome
truncated_outcome-ne max_bytes o a b e = ground (
  arith,
  truncate_output-scalar o.stdout max_bytes a,
  truncate_output-scalar o.stderr max_bytes b,
)

timeout_outcome-ne :
    (max_bytes : ℤ) (n : ℕ) (t : Text)
    → is_scalar_text t ≡ true
    → timeout_outcome max_bytes n t ≢ unicode_error
unfolding timeout_outcome
timeout_outcome-ne max_bytes n t h e = ground (arith, truncate_output-scalar t max_bytes h)

drain_loop-scalar :
    (got : Bytes) (es : List DrainEvent) (t : Text)
    → drain_loop got es ≡ some t
    → is_scalar_text t ≡ true
unfolding drain_loop
drain_loop-scalar got [] t e = cc
drain_loop-scalar got (no_data ∷ es) t e = ground (arith, decode_replace-scalar got)
drain_loop-scalar got (chunk bytes ∷ es) t e =
    ground (arith, decode_replace-scalar got, drain_loop-scalar (got ++ bytes) es t)

drained-scalar :
    (proc : Option Proc) (es : List DrainEvent) (t : Text)
    → drain_partial_stdout proc es ≡ some t
    → is_scalar_text t ≡ true
unfolding drain_partial_stdout
drained-scalar proc es t e = ground (arith, drain_loop-scalar [] es t)

abbrev suffix : Option LimitKind → Text
suffix none = codes "runner: process exited unexpectedly\n"
suffix (some k) = codes "runner: killed by sandbox limit (" ++ (value k ++ codes ")\n")

suffix-scalar : (k : Option LimitKind) → is_scalar_text (suffix k) ≡ true
unfolding value
suffix-scalar none = refl
suffix-scalar (some memory) = refl
suffix-scalar (some cpu) = refl
suffix-scalar (some file_size) = refl
suffix-scalar (some output_bytes) = refl
suffix-scalar (some wall_clock) = refl

died_outcome-stderr :
    (out err : Text) (code : Option ℤ)
    → (died_outcome out err code).stderr ≡ err ++ suffix (classify_signal_exit code)
unfolding died_outcome
died_outcome-stderr out err code = ground arith

died_outcome-stdout : (out err : Text) (code : Option ℤ) → (died_outcome out err code).stdout ≡ out
unfolding died_outcome
died_outcome-stdout out err code = refl

drained_result :
    (r : RunnerProcess) (n : ℕ) (o : Option Text)
    → ((t : Text) → o ≡ some t → is_scalar_text t ≡ true)
    → (let z : Result × RunnerProcess = elim o [
      | none ↦ (hanging, r)
      | some t ↦ (timeout_outcome r.limits.max_output_bytes n t, record r { proc = none })
    ] in
        z.0)
      ≢ unicode_error
drained_result r n none h = λ e. cc
drained_result r n (some t) h = timeout_outcome-ne r.limits.max_output_bytes n t (h t refl)

conclude-ne :
    (r : RunnerProcess) (n : ℕ) (x : Exchange) (e : ReadEnd)
    → EncodableEnd e
    → (conclude r n x e).0 ≢ unicode_error
unfolding conclude
conclude-ne r n x (done o) h = truncated_outcome-ne r.limits.max_output_bytes o h.0 h.1
conclude-ne r n x (died out err) h =
    truncated_outcome-ne r.limits.max_output_bytes (died_outcome out err x.exit_code)
      (ap is_scalar_text (died_outcome-stdout out err x.exit_code) ∙ h.0)
      (ap is_scalar_text (died_outcome-stderr out err x.exit_code)
        ∙ scalar-append err (suffix (classify_signal_exit x.exit_code)) h.1
            (suffix-scalar (classify_signal_exit x.exit_code)))
conclude-ne r n x overran h = λ e. cc
conclude-ne r n x pending h =
    drained_result r n (drain_partial_stdout r.proc x.drained) (drained-scalar r.proc x.drained)

initial-IsEncodable : IsEncodable initial_read
initial-IsEncodable = record { out = refl; err = refl; buf = tt }

-- A call of `execute` with a code block that can be encoded never ends in an encoding error, whatever
-- bytes the runner sends and however the call ends.
pub execute_no_unicode_error :
    (r₀ : RunnerProcess) (code : Text) (timeout : ℕ) (x : Exchange)
    → is_scalar_text code ≡ true
    → (execute r₀ code timeout x).0 ≢ unicode_error
unfolding execute
execute_no_unicode_error r₀ code timeout x scalar =
    rw (scalar, execute)
      (sending x.send_ok (
        conclude-ne (start r₀ x.spawned) timeout x (read_until_done initial_read x.events).0
          (read_until_done-EncodableEnd initial_read x.events initial-IsEncodable)))
  where
    sending :
        (b : Bool)
        → (conclude (start r₀ x.spawned) timeout x (read_until_done initial_read x.events).0).0
          ≢ unicode_error
        → (let z : Result × RunnerProcess × List ReadEvent =
              if b then exchange_code (start r₀ x.spawned) timeout x else (
                returned (plain_outcome [] (codes "runner: pipe closed before send\n") (negsuc 0)),
                record (start r₀ x.spawned) { proc = none },
                x.events,
              ) in
            z.0)
          ≢ unicode_error
    sending true h = h
    sending false h = λ e. cc
