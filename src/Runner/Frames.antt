-- ===== src/Runner/Frames.antt =====
-- What sandbox/runner.py writes for one block: the text of the frames, and that it can be encoded.
use otari_sandbox_container.Base.{
  suc, ◌≡◌, refl, ap, sym, ◌∙◌, true, List, [], ◌∷◌, ◌++◌, if◌then◌else◌, Text, Bytes, codes, All,
  ℤ, pos, negsuc, append-nil, append_assoc, nat_eq, int_eq, arith, Bool-cases, inl, inr, join,
  all_of, ends_with_newline,
}
use otari_sandbox_container.Decimal.{is_digit, show_int, show_nat, show_nat-IsDigits}
use otari_sandbox_container.Utf8.Codec.{encode_chars, is_scalar_text}
use otari_sandbox_container.Utf8.RoundTrip.{encode_chars-append}
use otari_sandbox_container.Runner.{
  write_all, block_writes, frame_writes, done_writes, sentinel_done, sentinel_stdout,
  sentinel_stdout_end, sentinel_stderr, sentinel_stderr_end,
}

-- Writing texts that can all be encoded writes the encoding of their concatenation.
pub write_all-scalar :
    (ts : List Text) (out : Bytes)
    → All (λ t. is_scalar_text t ≡ true) ts
    → write_all ts out ≡ (out ++ encode_chars (join ts), true)
unfolding write_all
write_all-scalar [] out h = unfold encode_chars in ap (λ o. (o, true)) (sym (append-nil out))
write_all-scalar (t ∷ ts) out h =
    rw (h.0, write_all)
      (write_all-scalar ts (out ++ encode_chars t) h.1
        ∙ ap (λ o. (o, true))
            (append_assoc out (encode_chars t) (encode_chars (join ts))
              ∙ ap (λ e. out ++ e) (sym (encode_chars-append t (join ts)))))

-- The text of one frame: the tag line, the data ended by a newline, the end line.
abbrev pub terminated : Text → Text
terminated text = if ends_with_newline text then text else text ++ codes "\n"

abbrev pub frame : Text → Text → Text → Text
frame tag end_tag text = (tag ++ codes "\n") ++ (terminated text ++ (end_tag ++ codes "\n"))

abbrev pub done_line : ℤ → Text
done_line code = sentinel_done ++ (codes " " ++ (show_int code ++ codes "\n"))

-- What the runner answers: the stdout frame, the stderr frame and the done line.
unfoldable pub response : Text → Text → ℤ → Text
response stdout stderr code =
    frame sentinel_stdout sentinel_stdout_end stdout
    ++ (frame sentinel_stderr sentinel_stderr_end stderr ++ done_line code)

join-append : (xs ys : List Text) → join (xs ++ ys) ≡ join xs ++ join ys
join-append [] ys = refl
join-append (x ∷ xs) ys =
    ap (λ r. x ++ r) (join-append xs ys) ∙ sym (append_assoc x (join xs) (join ys))

join-frame_writes :
    (tag end_tag text : Text) → join (frame_writes tag end_tag text) ≡ frame tag end_tag text
unfolding frame_writes
join-frame_writes tag end_tag text = elim (Bool-cases (ends_with_newline text)) [
  | inl e ↦ rw e (ap (λ r. (tag ++ codes "\n") ++ (text ++ r)) (append-nil (end_tag ++ codes "\n")))
  | inr e ↦ rw e (
      ap (λ r. (tag ++ codes "\n") ++ r)
        (ap (λ r. text ++ (codes "\n" ++ r)) (append-nil (end_tag ++ codes "\n"))
          ∙ sym (append_assoc text (codes "\n") (end_tag ++ codes "\n"))))
]

pub join-block_writes :
    (stdout stderr : Text) (code : ℤ)
    → join (block_writes stdout stderr code) ≡ response stdout stderr code
unfolding block_writes response
join-block_writes stdout stderr code =
    join-append (frame_writes sentinel_stdout sentinel_stdout_end stdout) _
    ∙ ap
        (λ r.
          r ++ join (frame_writes sentinel_stderr sentinel_stderr_end stderr ++ done_writes code))
        (join-frame_writes sentinel_stdout sentinel_stdout_end stdout)
    ∙ ap (λ r. frame sentinel_stdout sentinel_stdout_end stdout ++ r)
        (join-append (frame_writes sentinel_stderr sentinel_stderr_end stderr) (done_writes code)
          ∙ ap (λ r. r ++ join (done_writes code))
              (join-frame_writes sentinel_stderr sentinel_stderr_end stderr)
          ∙ ap (λ r. frame sentinel_stderr sentinel_stderr_end stderr ++ r)
              (append-nil (done_line code)))

pub digits_scalar : (s : Text) → all_of is_digit s ≡ true → is_scalar_text s ≡ true
digits_scalar [] h = refl
digits_scalar (c ∷ s) h = ground (arith, digits_scalar s)

pub scalar-append :
    (s t : Text)
    → is_scalar_text s ≡ true
    → is_scalar_text t ≡ true
    → is_scalar_text (s ++ t) ≡ true
scalar-append [] t h k = k
scalar-append (c ∷ s) t h k = ground (arith, scalar-append s t)

pub show_int-scalar : (n : ℤ) → is_scalar_text (show_int n) ≡ true
unfolding show_int
show_int-scalar (pos n) = digits_scalar (show_nat n) (show_nat-IsDigits n)
show_int-scalar (negsuc n) = digits_scalar (show_nat (suc n)) (show_nat-IsDigits (suc n))

abbrev pub Encodable : List Text → Type 0
Encodable = All (λ t. is_scalar_text t ≡ true)

Encodable-append : (ts us : List Text) → Encodable ts → Encodable us → Encodable (ts ++ us)
Encodable-append [] us h k = k
Encodable-append (t ∷ ts) us h k = (h.0, Encodable-append ts us h.1 k)

frame_writes-Encodable :
    (tag end_tag text : Text)
    → is_scalar_text tag ≡ true
    → is_scalar_text end_tag ≡ true
    → is_scalar_text text ≡ true
    → Encodable (frame_writes tag end_tag text)
unfolding frame_writes
frame_writes-Encodable tag end_tag text a b c = elim (Bool-cases (ends_with_newline text)) [
  | inl e ↦
      rw e (
        scalar-append tag (codes "\n") a refl,
        (c, (scalar-append end_tag (codes "\n") b refl, tt)),
      )
  | inr e ↦ rw e (
    scalar-append tag (codes "\n") a refl,
    (c, (refl, (scalar-append end_tag (codes "\n") b refl, tt))),
  )
]

pub block_writes-Encodable :
    (stdout stderr : Text) (code : ℤ)
    → is_scalar_text stdout ≡ true
    → is_scalar_text stderr ≡ true
    → Encodable (block_writes stdout stderr code)
unfolding block_writes
block_writes-Encodable stdout stderr code a b =
    Encodable-append (frame_writes sentinel_stdout sentinel_stdout_end stdout) _
      (frame_writes-Encodable sentinel_stdout sentinel_stdout_end stdout refl refl a)
      (Encodable-append (frame_writes sentinel_stderr sentinel_stderr_end stderr) (done_writes code)
        (frame_writes-Encodable sentinel_stderr sentinel_stderr_end stderr refl refl b)
        (
          scalar-append sentinel_done (codes " " ++ (show_int code ++ codes "\n")) refl (
              scalar-append (codes " ") (show_int code ++ codes "\n") refl
                (scalar-append (show_int code) (codes "\n") (show_int-scalar code) refl)),
          tt,
        ))

pub done_line-scalar : (code : ℤ) → is_scalar_text (done_line code) ≡ true
done_line-scalar code =
    scalar-append sentinel_done (codes " " ++ (show_int code ++ codes "\n")) refl (
      scalar-append (codes " ") (show_int code ++ codes "\n") refl
        (scalar-append (show_int code) (codes "\n") (show_int-scalar code) refl))
