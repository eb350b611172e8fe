-- ===== src/RunnerPool/Execute/Bounds.antt =====
-- What `execute` of sandbox/runner_pool.py returns is bounded, and it does not fail on what a runner
-- sends.
use otari_sandbox_container.Base.{
  ℕ, ◌+◌, ◌≤◌, ◌-◌, Bool-cases, inl, inr, leb→le, ◌≡◌, refl, ap, ◌∙◌, Bool, true, false, ◌||◌,
  Option, none, some, ◌++◌, if◌then◌else◌, ltb, leb, ltb_ℤ, Text, ℤ, pos, arith,
}
use otari_sandbox_container.Utf8.Codec.{is_scalar_text}
use otari_sandbox_container.Utf8.Clip.{byte_length, byte_length-append, byte_length-clip}
use otari_sandbox_container.Utf8.Cut.{clip}
use otari_sandbox_container.Limits.{output_bytes, truncate_output, truncation_marker}
use otari_sandbox_container.Limits.Truncation.{truncate_output-clip}
use otari_sandbox_container.RunnerPool.{ExecOutcome}
use otari_sandbox_container.RunnerPool.Execute.{Result, returned, truncated_outcome}

-- a stream as it is returned, and the number of its bytes that were dropped
abbrev pub shortened : Text → ℕ → Text
shortened s n =
    if leb (byte_length s) n then s else clip n s ++ truncation_marker (pos (byte_length s - n))

abbrev pub dropped : Text → ℕ → ℤ
dropped s n = if leb (byte_length s) n then pos 0 else pos (byte_length s - n)

truncate_output-shortened :
    (s : Text) (n : ℕ)
    → is_scalar_text s ≡ true
    → truncate_output s (pos n) ≡ some (shortened s n, dropped s n)
truncate_output-shortened s n h = truncate_output-clip s n h ∙ pairs (leb (byte_length s) n)
  where
    long : Text × ℤ
    long = (clip n s ++ truncation_marker (pos (byte_length s - n)), pos (byte_length s - n))

    pairs :
        (b : Bool)
        → ◌≡◌ {A = Option (Text × ℤ)}
            (some (if b then (s, pos 0) else long))
            (some ((if b then s else long.0), (if b then pos 0 else long.1)))
    pairs true = refl
    pairs false = refl

dropped_pos : (s : Text) (n : ℕ) → ltb_ℤ (pos 0) (dropped s n) ≡ ltb n (byte_length s)
dropped_pos s n = ground arith

-- The most bytes that a stream has when it is returned: those of the bound, or where it was cut two more
-- for the replacement of a character that the cut falls in, and those of the marker.
abbrev pub room : Text → ℕ → ℕ
room s n =
    if leb (byte_length s) n
    then n
    else (n + 2) + byte_length (truncation_marker (pos (byte_length s - n)))

byte_length-shortened : (s : Text) (n : ℕ) → byte_length (shortened s n) ≤ room s n
byte_length-shortened s n = elim (Bool-cases (leb (byte_length s) n)) [
  | inl fits ↦ rw fits (leb→le (byte_length s) n fits)
  | inr cut ↦
      let marker = truncation_marker (pos (byte_length s - n)) in
      rw cut (omega (arith, byte_length-append (clip n s) marker, byte_length-clip n s))
]

-- Where both streams can be encoded and the bound is `n` bytes, the outcome is returned with each stream
-- cut at `n` bytes on its own if it has more, and then with the marker behind it, the numbers of dropped
-- bytes, the same return code and time-out flag, and the limit that was already reported; if none was,
-- `output_bytes` exactly if one of the two streams has more than `n` bytes. As returned a stream has at
-- most `n` bytes, or where it was cut at most `n + 2` and those of the marker.
pub truncated_outcome-bounded :
    (n : ℕ) (o : ExecOutcome)
    → is_scalar_text o.stdout ≡ true
    → is_scalar_text o.stderr ≡ true
    → (truncated_outcome (pos n) o
        ≡ returned (record {
          stdout = shortened o.stdout n;
          stderr = shortened o.stderr n;
          return_code = o.return_code;
          timed_out = o.timed_out;
          limit_exceeded = elim o.limit_exceeded [
            | none ↦
                if ltb n (byte_length o.stdout) || ltb n (byte_length o.stderr)
                then some output_bytes
                else none
            | some k ↦ some k
          ];
          stdout_dropped_bytes = dropped o.stdout n;
          stderr_dropped_bytes = dropped o.stderr n;
        }))
      × (byte_length (shortened o.stdout n) ≤ room o.stdout n)
      × (byte_length (shortened o.stderr n) ≤ room o.stderr n)
unfolding truncated_outcome
truncated_outcome-bounded n o a b = (
  rw
      (
        truncate_output-shortened o.stdout n a,
        truncate_output-shortened o.stderr n b,
        truncated_outcome,
      )
      (ap with_limit (
        ap (λ p. p || ltb_ℤ (pos 0) (dropped o.stderr n)) (dropped_pos o.stdout n)
        ∙ ap (λ q. ltb n (byte_length o.stdout) || q) (dropped_pos o.stderr n))),
  byte_length-shortened o.stdout n,
  byte_length-shortened o.stderr n,
)
  where
    with_limit : Bool → Result
    with_limit some_dropped = returned (record {
      stdout = shortened o.stdout n;
      stderr = shortened o.stderr n;
      return_code = o.return_code;
      timed_out = o.timed_out;
      limit_exceeded = elim o.limit_exceeded [
        | none ↦ if some_dropped then some output_bytes else none
        | some k ↦ some k
      ];
      stdout_dropped_bytes = dropped o.stdout n;
      stderr_dropped_bytes = dropped o.stderr n;
    })
