-- ===== src/Runner/Input.antt =====
-- Reading file descriptor 0 in sandbox/runner.py: what `_read_line` and `_read_exact` return does not
-- depend on how the bytes are split among the calls of `os.read`.
use otari_sandbox_container.Base.{
  ℕ, zero, suc, ◌-◌, ◌<◌, ◌≤◌, ◌≡◌, refl, ap, sym, ◌∙◌, true, false, List, [], ◌∷◌, ◌++◌, Text,
  Bytes, pos, length, take, drop, append-nil, all_of, ◌≢◌, append_assoc, ◌==◌, nat_eq, arith,
  Bool-cases, inl, inr, take-append-drop, take-append_ge, drop-append_ge, length-take,
}
use otari_sandbox_container.Decimal.{is_digit}
use otari_sandbox_container.Utf8.Codec.{decode_replace}
use otari_sandbox_container.Utf8.RoundTrip.{decode_replace-encode_chars, encode_chars-ascii}
use otari_sandbox_container.Runner.{Stdin, granted, os_read, read_line, read_loop, read_exact}

module _ (m : ℕ) (i : Stdin) where
  -- One read takes a beginning of the input, at most what was asked for.
  os_read-append : (os_read m i).0 ++ (os_read m i).1.bytes ≡ i.bytes
  unfolding os_read
  os_read-append = take-append-drop (granted m i.grants) i.bytes

  granted_le : (gs : List ℕ) → granted m gs ≤ m
  granted_le [] = omega arith
  granted_le (g ∷ gs) = omega arith

  length-os_read : length (os_read m i).0 ≤ m
  unfolding os_read
  length-os_read = omega (arith, length-take (granted m i.grants) i.bytes, granted_le i.grants)

  granted_pos : (gs : List ℕ) → 0 < m → 0 < granted m gs
  granted_pos [] h = h
  granted_pos (g ∷ gs) h = omega arith

  -- A read of nothing is the end of the file.
  os_read-nil : 0 < m → length (os_read m i).0 ≡ 0 → length i.bytes ≡ 0
  unfolding os_read
  os_read-nil h e = omega (arith, length-take (granted m i.grants) i.bytes, granted_pos i.grants h)

length-zero : (bs : Bytes) → length bs ≡ 0 → bs ≡ []
length-zero [] h = refl
length-zero (b ∷ bs) h = absurd (omega arith)

take-nil : (m : ℕ) (bs : Bytes) → length bs ≡ 0 → take m bs ≡ []
take-nil zero bs h = refl
take-nil (suc m) [] h = refl
take-nil (suc m) (b ∷ bs) h = absurd (omega arith)

drop-nil : (m : ℕ) (bs : Bytes) → length bs ≡ 0 → drop m bs ≡ bs
drop-nil zero bs h = refl
drop-nil (suc m) [] h = refl
drop-nil (suc m) (b ∷ bs) h = absurd (omega arith)

abbrev Reads : ℕ → Bytes → Stdin → Bytes × Stdin → Type 0
Reads m buf i r = (r.0 ≡ buf ++ take m i.bytes) × (r.1.bytes ≡ drop m i.bytes)

module _ (m : ℕ) (buf : Bytes) (i : Stdin) where
  -- The rest of a loop that has read one chunk.
  after_chunk :
      (r : Bytes × Stdin)
      → Reads (m - length (os_read m i).0) (buf ++ (os_read m i).0) (os_read m i).1 r
      → Reads m buf i r
  after_chunk r (same, rest) =
      let chunk = (os_read m i).0 in
      let i' = (os_read m i).1 in
      (
        same
            ∙ append_assoc buf chunk _
            ∙ ap (λ t. buf ++ t)
                (sym (take-append_ge m chunk i'.bytes (length-os_read m i))
                  ∙ ap (take m) (os_read-append m i)),
        rest
            ∙ sym (drop-append_ge m chunk i'.bytes (length-os_read m i))
            ∙ ap (drop m) (os_read-append m i),
      )

  -- A loop that meets the end of the file.
  at_eof : 0 < m → length (os_read m i).0 ≡ 0 → Reads m buf i (buf, (os_read m i).1)
  at_eof h e =
      let empty = os_read-nil m i h e in
      (
        sym (append-nil buf) ∙ ap (λ t. buf ++ t) (sym (take-nil m i.bytes empty)),
        sym (ap (λ c. c ++ (os_read m i).1.bytes) (length-zero (os_read m i).0 e))
            ∙ os_read-append m i
            ∙ sym (drop-nil m i.bytes empty),
      )

suc_ne_zero : (m : ℕ) → (suc m == 0) ≡ false
suc_ne_zero m = ground arith

read_loop-take :
    (fuel m : ℕ) (buf : Bytes) (i : Stdin) → m ≤ fuel → Reads m buf i (read_loop fuel m buf i)
unfolding read_loop
read_loop-take zero zero buf i h = (sym (append-nil buf), refl)
read_loop-take zero (suc m) buf i h = absurd (omega arith)
read_loop-take (suc fuel) zero buf i h = (sym (append-nil buf), refl)
read_loop-take (suc fuel) (suc m) buf i h = elim (Bool-cases (length (os_read (suc m) i).0 == 0)) [
  | inl e ↦ rw (e, suc_ne_zero m) (at_eof (suc m) buf i (omega arith) (ground arith))
  | inr e ↦
      rw (e, suc_ne_zero m)
        (after_chunk (suc m) buf i
          (read_loop fuel (suc m - length (os_read (suc m) i).0) (buf ++ (os_read (suc m) i).0)
            (os_read (suc m) i).1)
          (read_loop-take fuel (suc m - length (os_read (suc m) i).0) (buf ++ (os_read (suc m) i).0)
            (os_read (suc m) i).1 (ground arith)))
]

-- However `os.read` splits the input, `_read_exact(n)` returns the first `n` bytes that are there, all
-- of them if there are fewer, and leaves the bytes behind them.
pub read_exact-take :
    (n : ℕ) (i : Stdin)
    → ((read_exact (pos n) i).0 ≡ take n i.bytes)
      × ((read_exact (pos n) i).1.bytes ≡ drop n i.bytes)
unfolding read_exact
read_exact-take n i = read_loop-take n n [] i (omega arith)

decode_replace-digit : (d : ℕ) → is_digit d ≡ true → decode_replace (d ∷ []) ≡ d ∷ []
decode_replace-digit d h =
    ap decode_replace (sym (encode_chars-ascii (d ∷ []) (ground arith)))
    ∙ decode_replace-encode_chars (d ∷ []) (ground arith)

-- A line of digits is read up to its newline.
pub read_line-digits :
    (ds : Text) (rest : Bytes)
    → all_of is_digit ds ≡ true
    → read_line (ds ++ 10 ∷ rest) ≡ (ds, rest)
unfolding read_line
read_line-digits [] rest h = refl
read_line-digits (d ∷ ds) rest h = ground (arith, decode_replace-digit d, read_line-digits ds rest)

-- What `_read_line` leaves is shorter, unless there was nothing.
pub read_line_shorter :
    (bs : Bytes) → length (read_line bs).0 ≢ 0 → length (read_line bs).1 < length bs
unfolding read_line
read_line_shorter [] h = absurd (h refl)
read_line_shorter (b ∷ bs) h = ground (arith, read_line_le bs)
  where
    read_line_le : (bs : Bytes) → length (read_line bs).1 ≤ length bs
    read_line_le [] = omega arith
    read_line_le (c ∷ cs) = ground (arith, read_line_le cs)
