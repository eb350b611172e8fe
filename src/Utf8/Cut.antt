-- ===== src/Utf8/Cut.antt =====
-- Decoding the first bytes of an encoded text, the step that sandbox/limits.py takes when it clips.
use otari_sandbox_container.Base.{
  ℕ, zero, suc, ◌+◌, ◌-◌, ◌/◌, ◌%◌, ◌<◌, ◌≤◌, ◌≡◌, refl, ap, true, none, some, [], ◌∷◌, ◌++◌, ltb,
  leb, if◌then◌else◌, Text, Bytes, arith, sym, ◌∙◌, Bool-cases, inl, inr, nat_eq, ◌==◌, ltb→lt,
  length, take, take-append_ge, leb→le,
}
use otari_sandbox_container.Utf8.Codec.{
  is_scalar, is_scalar_text, encode_char, encode_chars, start, more, decode_from, replaced,
  decode_replace, replacement,
}
use otari_sandbox_container.Utf8.RoundTrip.{
  decode_from-step, decode_from-encode_char, first_of_two, first_of_three, first_of_four, next_more,
  first_as_next, second_of_three, second_of_four,
}

-- The number of bytes of a code point.
unfoldable pub width : ℕ → ℕ
width c = if ltb c 0x80 then 1 else if ltb c 0x800 then 2 else if ltb c 0x10000 then 3 else 4

pub length-encode_char : (c : ℕ) → length (encode_char c) ≡ width c
unfolding encode_char width
length-encode_char c = ground arith

pub length-encode_char_pos : (c : ℕ) → 0 < length (encode_char c)
unfolding encode_char
length-encode_char_pos c = ground arith

-- The whole code points that fit in `n` bytes, and one replacement character if the cut falls
-- inside a code point.
unfoldable pub clip : ℕ → Text → Text
clip n [] = []
clip n (c ∷ s) =
    let rest = clip (n - width c) s in
    if n == 0 then [] else if leb (width c) n then c ∷ rest else replacement ∷ []

decode_nothing : decode_from start [] ≡ []
unfolding decode_from
decode_nothing = refl

decode_unfinished : (n acc lo hi : ℕ) → decode_from (more n acc lo hi) [] ≡ none ∷ []
unfolding decode_from
decode_unfinished n acc lo hi = refl

module _ (c : ℕ) (scalar : is_scalar c ≡ true) where
  cut_two : 0x80 ≤ c → c < 0x800 → decode_from start ((0xC0 + c / 64) ∷ []) ≡ none ∷ []
  cut_two h k =
      decode_from-step start _ (0xC0 + c / 64) [] []
        (first_as_next _ _ (first_of_two (0xC0 + c / 64) (omega arith) (omega arith)))
      ∙ decode_unfinished _ _ _ _

  cut_three_first : 0x800 ≤ c → c < 0x10000 → decode_from start ((0xE0 + c / 4096) ∷ []) ≡ none ∷ []
  cut_three_first h k =
      decode_from-step start _ (0xE0 + c / 4096) [] [] (
        first_as_next _ _
          (first_of_three (0xE0 + c / 4096) _ _ (omega arith) (omega arith) refl refl))
      ∙ decode_unfinished _ _ _ _

  cut_three_second :
      0x800 ≤ c
      → c < 0x10000
      → decode_from start ((0xE0 + c / 4096) ∷ (0x80 + c / 64 % 64) ∷ []) ≡ none ∷ []
  cut_three_second h k =
      let r = second_of_three c scalar h k in
      decode_from-step start _ (0xE0 + c / 4096) ((0x80 + c / 64 % 64) ∷ []) [] (
        first_as_next _ _
          (first_of_three (0xE0 + c / 4096) _ _ (omega arith) (omega arith) refl refl))
      ∙ decode_from-step _ _ (0x80 + c / 64 % 64) [] []
          (next_more 0 (0xE0 + c / 4096 - 0xE0) _ _ (0x80 + c / 64 % 64) r.0 r.1)
      ∙ decode_unfinished _ _ _ _

  -- The first byte of four, followed by what the decoder reads next.
  four_first :
      0x10000 ≤ c
      → (bs : Bytes)
      → decode_from start ((0xF0 + c / 262144) ∷ bs)
        ≡ decode_from
            (more 2
              (0xF0 + c / 262144 - 0xF0)
              (if (0xF0 + c / 262144) == 0xF0 then 0x90 else 0x80)
              (if (0xF0 + c / 262144) == 0xF4 then 0x8F else 0xBF))
            bs
  four_first h bs =
      let below : c < 0x110000 = ground arith in
      decode_from-step start _ (0xF0 + c / 262144) bs [] (
        first_as_next _ _
          (first_of_four (0xF0 + c / 262144) _ _ (omega arith) (omega arith) refl refl))

  cut_four_second :
      0x10000 ≤ c
      → decode_from start ((0xF0 + c / 262144) ∷ (0x80 + c / 4096 % 64) ∷ []) ≡ none ∷ []
  cut_four_second h =
      let r = second_of_four c scalar h in
      four_first h _
      ∙ decode_from-step _ _ (0x80 + c / 4096 % 64) [] []
          (next_more 1 (0xF0 + c / 262144 - 0xF0) _ _ (0x80 + c / 4096 % 64) r.0 r.1)
      ∙ decode_unfinished _ _ _ _

  cut_four_third :
      0x10000 ≤ c
      → decode_from start ((0xF0 + c / 262144) ∷ (0x80 + c / 4096 % 64) ∷ (0x80 + c / 64 % 64) ∷ [])
        ≡ none ∷ []
  cut_four_third h =
      let r = second_of_four c scalar h in
      four_first h _
      ∙ decode_from-step _ _ (0x80 + c / 4096 % 64) ((0x80 + c / 64 % 64) ∷ []) []
          (next_more 1 (0xF0 + c / 262144 - 0xF0) _ _ (0x80 + c / 4096 % 64) r.0 r.1)
      ∙ decode_from-step _ _ (0x80 + c / 64 % 64) [] []
          (next_more 0 _ 0x80 0xBF (0x80 + c / 64 % 64) (omega arith) (omega arith))
      ∙ decode_unfinished _ _ _ _

  cut_of_two :
      0x80 ≤ c
      → c < 0x800
      → (n : ℕ) (bs : Bytes) → suc n < 2
      → decode_from start (take (suc n) ((0xC0 + c / 64) ∷ (0x80 + c % 64) ∷ bs)) ≡ none ∷ []
  cut_of_two h k zero bs l = cut_two h k
  cut_of_two h k (suc n) bs l = absurd (omega arith)

  cut_of_three :
      0x800 ≤ c
      → c < 0x10000
      → (n : ℕ) (bs : Bytes) → suc n < 3
      → decode_from start
          (take (suc n) ((0xE0 + c / 4096) ∷ (0x80 + c / 64 % 64) ∷ (0x80 + c % 64) ∷ bs))
        ≡ none ∷ []
  cut_of_three h k zero bs l = cut_three_first h k
  cut_of_three h k (suc zero) bs l = cut_three_second h k
  cut_of_three h k (suc (suc n)) bs l = absurd (omega arith)

  cut_of_four :
      0x10000 ≤ c
      → (n : ℕ) (bs : Bytes) → suc n < 4
      → decode_from start (
          take (suc n) (
            (0xF0 + c / 262144)
            ∷ (0x80 + c / 4096 % 64)
            ∷ (0x80 + c / 64 % 64)
            ∷ (0x80 + c % 64)
            ∷ bs))
        ≡ none ∷ []
  cut_of_four h zero bs l = four_first h [] ∙ decode_unfinished _ _ _ _
  cut_of_four h (suc zero) bs l = cut_four_second h
  cut_of_four h (suc (suc zero)) bs l = cut_four_third h
  cut_of_four h (suc (suc (suc n))) bs l = absurd (omega arith)

  -- A cut inside a code point decodes to one error.
  decode_cut :
      (n : ℕ) (bs : Bytes)
      → suc n < width c
      → decode_from start (take (suc n) (encode_char c ++ bs)) ≡ none ∷ []
  unfolding encode_char width
  decode_cut n bs h = elim (Bool-cases (ltb c 0x80)) [
    | inl a ↦ absurd (ground arith)
    | inr a ↦ elim (Bool-cases (ltb c 0x800)) [
      | inl b ↦ rw (a, b) (cut_of_two (ground arith) (ltb→lt c 0x800 b) n bs (ground arith))
      | inr b ↦ elim (Bool-cases (ltb c 0x10000)) [
        | inl d ↦
            rw (a, b, d) (cut_of_three (ground arith) (ltb→lt c 0x10000 d) n bs (ground arith))
        | inr d ↦ rw (a, b, d) (cut_of_four (ground arith) n bs (ground arith))
      ]
    ]
  ]

  -- A cut behind a code point.
  decode_whole :
      (n : ℕ) (bs : Bytes)
      → width c ≤ n
      → decode_from start (take n (encode_char c ++ bs))
        ≡ some c ∷ decode_from start (take (n - width c) bs)
  decode_whole n bs h =
      ap (decode_from start) (
        take-append_ge n (encode_char c) bs (rw (length-encode_char c) h)
        ∙ ap (λ k. encode_char c ++ take (n - k) bs) (length-encode_char c))
      ∙ decode_from-encode_char c _ scalar

pub width_pos : (c : ℕ) → 0 < width c
unfolding width
width_pos c = ground arith

pub clip-cons_whole : (n c : ℕ) (s : Text) → width c ≤ n → clip n (c ∷ s) ≡ c ∷ clip (n - width c) s
unfolding clip
clip-cons_whole n c s h = ground (arith, width_pos c)

pub clip-cons_cut : (n c : ℕ) (s : Text) → suc n < width c → clip (suc n) (c ∷ s) ≡ replacement ∷ []
unfolding clip
clip-cons_cut n c s h = ground arith

-- Decoding the first `n` bytes of a text gives its clip to `n` bytes.
pub decode_replace-take :
    (n : ℕ) (s : Text)
    → is_scalar_text s ≡ true
    → decode_replace (take n (encode_chars s)) ≡ clip n s
unfolding decode_replace encode_chars
decode_replace-take zero [] h = unfold clip in refl
decode_replace-take zero (c ∷ s) h = unfold clip in refl
decode_replace-take (suc n) [] h = unfold clip in refl
decode_replace-take (suc n) (c ∷ s) h = elim (Bool-cases (leb (width c) (suc n))) [
  | inl fits ↦
      ap replaced (decode_whole c (ground arith) (suc n) (encode_chars s) (leb→le _ _ fits))
      ∙ ap (λ r. c ∷ r) (decode_replace-take (suc n - width c) s (ground arith))
      ∙ sym (clip-cons_whole (suc n) c s (leb→le _ _ fits))
  | inr cut ↦
      ap replaced (decode_cut c (ground arith) n (encode_chars s) (ground arith))
      ∙ sym (clip-cons_cut n c s (ground arith))
]
