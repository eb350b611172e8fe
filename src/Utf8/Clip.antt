-- ===== src/Utf8/Clip.antt =====
-- What a clipped text looks like: whole code points of the text, then at most one replacement.
use otari_sandbox_container.Base.{
  ℕ, ◌+◌, ◌-◌, ◌<◌, ◌≤◌, ◌≡◌, refl, ap, [], ◌∷◌, ◌++◌, leb, if◌then◌else◌, Text, arith, ◌∙◌,
  Bool-cases, inl, inr, ◌⊎◌, ◌==◌, nat_eq, leb→le, length, length-append,
}
use otari_sandbox_container.Utf8.Codec.{encode_chars, replacement}
use otari_sandbox_container.Utf8.Cut.{
  width, clip, length-encode_char, width_pos, clip-cons_whole, clip-cons_cut,
}

-- The code points that fit in `n` bytes.
pub kept : ℕ → Text → Text
kept n [] = []
kept n (c ∷ s) = let rest = kept (n - width c) s in if leb (width c) n then c ∷ rest else []

pub left_out : ℕ → Text → Text
left_out n [] = []
left_out n (c ∷ s) = let rest = left_out (n - width c) s in if leb (width c) n then rest else c ∷ s

-- Empty, or the one character that stands for a code point that the cut falls in.
pub patch : ℕ → Text → Text
patch n [] = []
patch n (c ∷ s) =
    let rest = patch (n - width c) s in
    if n == 0 then [] else if leb (width c) n then rest else replacement ∷ []

pub clip-eq-kept : (n : ℕ) (s : Text) → clip n s ≡ kept n s ++ patch n s
unfolding clip kept patch
clip-eq-kept n [] = refl
clip-eq-kept n (c ∷ s) = ground (arith, clip-eq-kept (n - width c) s, width_pos c)

pub kept-left_out : (n : ℕ) (s : Text) → kept n s ++ left_out n s ≡ s
unfolding kept left_out
kept-left_out n [] = refl
kept-left_out n (c ∷ s) = ground (arith, kept-left_out (n - width c) s)

pub patch_cases : (n : ℕ) (s : Text) → (patch n s ≡ []) ⊎ (patch n s ≡ replacement ∷ [])
unfolding patch
patch_cases n [] = inl refl
patch_cases n (c ∷ s) = ground (arith, patch_cases (n - width c) s)

-- The number of bytes of a text.
abbrev pub byte_length : Text → ℕ
byte_length s = length (encode_chars s)

pub byte_length-cons : (c : ℕ) (s : Text) → byte_length (c ∷ s) ≡ width c + byte_length s
unfolding encode_chars
byte_length-cons c s =
    length-append _ (encode_chars s) ∙ ap (λ k. k + byte_length s) (length-encode_char c)

byte_length-nil : byte_length [] ≡ 0
unfolding encode_chars
byte_length-nil = refl

width-replacement : width replacement ≡ 3
unfolding width
width-replacement = refl

width_le : (c : ℕ) → width c ≤ 4
unfolding width
width_le c = ground arith

byte_length-replacement : byte_length (replacement ∷ []) ≡ 3
byte_length-replacement =
    omega (arith, byte_length-cons replacement [], width-replacement, byte_length-nil)

-- The kept part fits, and less than a code point of room is left where something was cut.
pub byte_length-kept : (n : ℕ) (s : Text) → byte_length (kept n s) ≤ n
unfolding kept
byte_length-kept n [] = omega (arith, byte_length-nil)
byte_length-kept n (c ∷ s) = elim (Bool-cases (leb (width c) n)) [
  | inl e ↦ rw e (
      omega (
        arith,
        byte_length-cons c (kept (n - width c) s),
        byte_length-kept (n - width c) s,
        leb→le (width c) n e,
      ))
  | inr e ↦ rw e (omega (arith, byte_length-nil))
]

pub kept_room : (n : ℕ) (s : Text) → n < byte_length s → n < byte_length (kept n s) + 4
unfolding kept
kept_room n [] h = absurd (omega (arith, byte_length-nil))
kept_room n (c ∷ s) h = elim (Bool-cases (leb (width c) n)) [
  | inl e ↦
      let fits = leb→le (width c) n e in
      let room = kept_room (n - width c) s (omega (arith, byte_length-cons c s)) in
      rw e (omega (arith, byte_length-cons c (kept (n - width c) s)))
  | inr e ↦ rw e (ground (arith, byte_length-nil, width_le c))
]

-- A replacement takes three bytes for at least one that was there.
pub byte_length-clip : (n : ℕ) (s : Text) → byte_length (clip n s) ≤ n + 2
unfolding clip
byte_length-clip n [] = omega (arith, byte_length-nil)
byte_length-clip n (c ∷ s) = elim (Bool-cases (n == 0)) [
  | inl z ↦ rw z (omega (arith, byte_length-nil))
  | inr z ↦ elim (Bool-cases (leb (width c) n)) [
    | inl e ↦
        rw (z, e)
          (omega (
            arith,
            byte_length-cons c (clip (n - width c) s),
            byte_length-clip (n - width c) s,
            leb→le (width c) n e,
          ))
    | inr e ↦ rw (z, e) (ground (arith, byte_length-replacement))
  ]
]

-- A text that fits is not changed.
pub clip_fits :
    (p q : Text) (n : ℕ) → byte_length p ≤ n → clip n (p ++ q) ≡ p ++ clip (n - byte_length p) q
clip_fits [] q n h = ap (λ k. clip k q) (omega (arith, byte_length-nil))
clip_fits (c ∷ p) q n h =
    clip-cons_whole n c (p ++ q) (omega (arith, byte_length-cons c p))
    ∙ ap (λ r. c ∷ r)
        (clip_fits p q (n - width c) (omega (arith, byte_length-cons c p))
          ∙ ap (λ k. p ++ clip k q) (omega (arith, byte_length-cons c p)))

pub byte_length-append : (p q : Text) → byte_length (p ++ q) ≡ byte_length p + byte_length q
byte_length-append [] q = omega (arith, byte_length-nil)
byte_length-append (c ∷ p) q =
    omega (arith, byte_length-cons c (p ++ q), byte_length-cons c p, byte_length-append p q)

-- The bound of `byte_length-clip` is reached: a cut one byte into a code point of two bytes or more
-- gives a clip that is two bytes longer than the cut.
pub clip_overshoot :
    (p : Text) (c : ℕ) (s : Text)
    → 0x80 ≤ c
    → byte_length (clip (byte_length p + 1) (p ++ c ∷ s)) ≡ byte_length p + 1 + 2
clip_overshoot p c s h =
    ap byte_length (
      clip_fits p (c ∷ s) (byte_length p + 1) (omega arith)
      ∙ ap (λ k. p ++ clip k (c ∷ s)) (omega arith)
      ∙ ap (λ r. p ++ r) (clip-cons_cut 0 c s (wide c h)))
    ∙ byte_length-append p (replacement ∷ [])
    ∙ omega (arith, byte_length-replacement)
  where
    wide : (c : ℕ) → 0x80 ≤ c → 1 < width c
    wide c k = unfold width in ground arith
