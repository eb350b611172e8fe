-- ===== src/Utf8/RoundTrip.antt =====
-- Decoding what was encoded gives the text back, with either error handler.
use otari_sandbox_container.Base.{
  ℕ, suc, ◌+◌, ◌-◌, ◌*◌, ◌/◌, ◌%◌, ◌<◌, ◌≤◌, ◌≡◌, refl, ap, true, some, [], ◌∷◌, ◌++◌, ltb,
  if◌then◌else◌, Text, Bytes, all_of, arith, append_assoc, sym, map, ◌∙◌, Bool-cases, inl, inr,
  nat_eq, ◌==◌, le→leb, ltb→lt, lt→ltb,
}
use otari_sandbox_container.Utf8.Codec.{
  strict, is_scalar, is_scalar_text, encode_char, encode_chars, Decoder, start, more, Emits,
  decode_first, decode_next, decode_from, replaced, decode_replace, decode,
}

-- What a first byte of each class leaves the decoder waiting for.
pub first_of_two :
    (a : ℕ) → 0xC2 ≤ a → a < 0xE0 → decode_first a ≡ ([], more 0 (a - 0xC0) 0x80 0xBF)
unfolding decode_first
first_of_two a h k = ground arith

pub first_of_three :
    (a : ℕ) (lo hi : ℕ)
    → 0xE0 ≤ a
    → a < 0xF0
    → lo ≡ (if a == 0xE0 then 0xA0 else 0x80)
    → hi ≡ (if a == 0xED then 0x9F else 0xBF)
    → decode_first a ≡ ([], more 1 (a - 0xE0) lo hi)
unfolding decode_first
first_of_three a lo hi h k p q = ground arith

pub first_of_four :
    (a : ℕ) (lo hi : ℕ)
    → 0xF0 ≤ a
    → a < 0xF5
    → lo ≡ (if a == 0xF0 then 0x90 else 0x80)
    → hi ≡ (if a == 0xF4 then 0x8F else 0xBF)
    → decode_first a ≡ ([], more 2 (a - 0xF0) lo hi)
unfolding decode_first
first_of_four a lo hi h k p q = ground arith

-- A byte in the range that is waited for.
pub next_last :
    (acc lo hi b : ℕ)
    → lo ≤ b
    → b ≤ hi
    → decode_next (more 0 acc lo hi) b ≡ (some (acc * 64 + (b - 0x80)) ∷ [], start)
unfolding decode_next
next_last acc lo hi b h k = rw (le→leb lo b h, le→leb b hi k) refl

pub next_more :
    (n acc lo hi b : ℕ)
    → lo ≤ b
    → b ≤ hi
    → decode_next (more (suc n) acc lo hi) b ≡ ([], more n (acc * 64 + (b - 0x80)) 0x80 0xBF)
unfolding decode_next
next_more n acc lo hi b h k = rw (le→leb lo b h, le→leb b hi k) refl

pub decode_from-step :
    (d d' : Decoder) (b : ℕ) (bs : Bytes) (out : Emits)
    → decode_next d b ≡ (out, d')
    → decode_from d (b ∷ bs) ≡ out ++ decode_from d' bs
unfolding decode_from
decode_from-step d d' b bs out h = ap (λ (r : Emits × Decoder). r.0 ++ decode_from r.1 bs) h

pub first_as_next : (b : ℕ) (r : Emits × Decoder) → decode_first b ≡ r → decode_next start b ≡ r
unfolding decode_next
first_as_next b r h = h

pub after_one :
    (c : ℕ) (bs : Bytes) → c < 0x80 → decode_from start (c ∷ bs) ≡ some c ∷ decode_from start bs
after_one c bs h = decode_from-step start start c bs (some c ∷ []) (ascii c h)
  where
    ascii : (b : ℕ) → b < 0x80 → decode_next start b ≡ (some b ∷ [], start)
    ascii b k = unfold decode_next decode_first in rw (lt→ltb b 0x80 k) refl

-- The range of the second byte excludes overlong forms, surrogates and what lies past 0x10FFFF.
pub second_of_three :
    (c : ℕ)
    → is_scalar c ≡ true
    → 0x800 ≤ c
    → c < 0x10000
    → ((if (0xE0 + c / 4096) == 0xE0 then 0xA0 else 0x80) ≤ 0x80 + c / 64 % 64)
      × (0x80 + c / 64 % 64 ≤ (if (0xE0 + c / 4096) == 0xED then 0x9F else 0xBF))
second_of_three c s h k = ground arith

pub second_of_four :
    (c : ℕ)
    → is_scalar c ≡ true
    → 0x10000 ≤ c
    → ((if (0xF0 + c / 262144) == 0xF0 then 0x90 else 0x80) ≤ 0x80 + c / 4096 % 64)
      × (0x80 + c / 4096 % 64 ≤ (if (0xF0 + c / 262144) == 0xF4 then 0x8F else 0xBF))
second_of_four c s h = ground arith

module _ (c : ℕ) (bs : Bytes) (scalar : is_scalar c ≡ true) where
  two_bytes :
      0x80 ≤ c
      → c < 0x800
      → decode_from start ((0xC0 + c / 64) ∷ (0x80 + c % 64) ∷ bs) ≡ some c ∷ decode_from start bs
  two_bytes h k =
      decode_from-step start _ (0xC0 + c / 64) ((0x80 + c % 64) ∷ bs) []
        (first_as_next _ _ (first_of_two (0xC0 + c / 64) (omega arith) (omega arith)))
      ∙ decode_from-step _ _ (0x80 + c % 64) bs _
          (next_last (0xC0 + c / 64 - 0xC0) 0x80 0xBF (0x80 + c % 64) (omega arith) (omega arith))
      ∙ ap (λ x. some x ∷ decode_from start bs) (omega arith)

  three_bytes :
      0x800 ≤ c
      → c < 0x10000
      → decode_from start ((0xE0 + c / 4096) ∷ (0x80 + c / 64 % 64) ∷ (0x80 + c % 64) ∷ bs)
        ≡ some c ∷ decode_from start bs
  three_bytes h k =
      let r = second_of_three c scalar h k in
      decode_from-step start _ (0xE0 + c / 4096) ((0x80 + c / 64 % 64) ∷ (0x80 + c % 64) ∷ bs) [] (
        first_as_next _ _
          (first_of_three (0xE0 + c / 4096) _ _ (omega arith) (omega arith) refl refl))
      ∙ decode_from-step _ _ (0x80 + c / 64 % 64) ((0x80 + c % 64) ∷ bs) []
          (next_more 0 (0xE0 + c / 4096 - 0xE0) _ _ (0x80 + c / 64 % 64) r.0 r.1)
      ∙ decode_from-step _ _ (0x80 + c % 64) bs _
          (next_last _ 0x80 0xBF (0x80 + c % 64) (omega arith) (omega arith))
      ∙ ap (λ x. some x ∷ decode_from start bs) (omega arith)

  four_bytes :
      0x10000 ≤ c
      → decode_from start (
          (0xF0 + c / 262144)
          ∷ (0x80 + c / 4096 % 64)
          ∷ (0x80 + c / 64 % 64)
          ∷ (0x80 + c % 64)
          ∷ bs)
        ≡ some c ∷ decode_from start bs
  four_bytes h =
      let r = second_of_four c scalar h in
      let below : c < 0x110000 = ground arith in
      decode_from-step start _ (0xF0 + c / 262144)
        ((0x80 + c / 4096 % 64) ∷ (0x80 + c / 64 % 64) ∷ (0x80 + c % 64) ∷ bs) []
        (first_as_next _ _
          (first_of_four (0xF0 + c / 262144) _ _ (omega arith) (omega arith) refl refl))
      ∙ decode_from-step _ _ (0x80 + c / 4096 % 64) ((0x80 + c / 64 % 64) ∷ (0x80 + c % 64) ∷ bs) []
          (next_more 1 (0xF0 + c / 262144 - 0xF0) _ _ (0x80 + c / 4096 % 64) r.0 r.1)
      ∙ decode_from-step _ _ (0x80 + c / 64 % 64) ((0x80 + c % 64) ∷ bs) []
          (next_more 0 _ 0x80 0xBF (0x80 + c / 64 % 64) (omega arith) (omega arith))
      ∙ decode_from-step _ _ (0x80 + c % 64) bs _
          (next_last _ 0x80 0xBF (0x80 + c % 64) (omega arith) (omega arith))
      ∙ ap (λ x. some x ∷ decode_from start bs) (omega arith)

  pub decode_from-encode_char :
      decode_from start (encode_char c ++ bs) ≡ some c ∷ decode_from start bs
  unfolding encode_char
  decode_from-encode_char = elim (Bool-cases (ltb c 0x80)) [
    | inl a ↦ rw a (after_one c bs (ltb→lt c 0x80 a))
    | inr a ↦ elim (Bool-cases (ltb c 0x800)) [
      | inl b ↦ rw (a, b) (two_bytes (ground arith) (ltb→lt c 0x800 b))
      | inr b ↦ elim (Bool-cases (ltb c 0x10000)) [
        | inl d ↦ rw (a, b, d) (three_bytes (ground arith) (ltb→lt c 0x10000 d))
        | inr d ↦ rw (a, b, d) (four_bytes (ground arith))
      ]
    ]
  ]

-- Every text that encodes decodes to itself.
pub decode_from-encode_chars :
    (s : Text) → is_scalar_text s ≡ true → decode_from start (encode_chars s) ≡ map (λ c. some c) s
unfolding encode_chars
decode_from-encode_chars [] h = unfold decode_from in refl
decode_from-encode_chars (c ∷ s) h =
    decode_from-encode_char c (encode_chars s) (ground arith)
    ∙ ap (λ r. some c ∷ r) (decode_from-encode_chars s (ground arith))

replaced-map : (s : Text) → replaced (map (λ c. some c) s) ≡ s
unfolding replaced
replaced-map [] = refl
replaced-map (c ∷ s) = ap (λ r. c ∷ r) (replaced-map s)

pub decode_replace-encode_chars :
    (s : Text) → is_scalar_text s ≡ true → decode_replace (encode_chars s) ≡ s
unfolding decode_replace
decode_replace-encode_chars s h = ap replaced (decode_from-encode_chars s h) ∙ replaced-map s

strict-map : (s : Text) → strict (map (λ c. some c) s) ≡ some s
strict-map [] = refl
strict-map (c ∷ s) = rw (strict-map s) refl

pub decode-encode_chars : (s : Text) → is_scalar_text s ≡ true → decode (encode_chars s) ≡ some s
unfolding decode
decode-encode_chars s h = ap strict (decode_from-encode_chars s h) ∙ strict-map s

-- ASCII is its own encoding.
pub encode_chars-ascii : (s : Text) → all_of (λ c. ltb c 0x80) s ≡ true → encode_chars s ≡ s
unfolding encode_chars encode_char
encode_chars-ascii [] h = refl
encode_chars-ascii (c ∷ s) h = ground (arith, encode_chars-ascii s)

pub encode_chars-append : (s t : Text) → encode_chars (s ++ t) ≡ encode_chars s ++ encode_chars t
unfolding encode_chars
encode_chars-append [] t = refl
encode_chars-append (c ∷ s) t =
    ap (λ r. encode_char c ++ r) (encode_chars-append s t)
    ∙ sym (append_assoc (encode_char c) (encode_chars s) (encode_chars t))
