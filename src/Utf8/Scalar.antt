-- ===== src/Utf8/Scalar.antt =====
-- What the replacing decoder returns can always be encoded again, so that
-- `truncate_output` in sandbox/limits.py never meets a surrogate in decoded output.
use otari_sandbox_container.Base.{
  ℕ, zero, suc, ◌+◌, ◌-◌, ◌*◌, ◌<◌, ◌≤◌, ◌≡◌, refl, true, ◌&&◌, none, some, [], ◌∷◌, ◌++◌, ltb, leb,
  Bytes, arith, Bool-cases, inl, inr, ◌⊎◌, nat_eq,
}
use otari_sandbox_container.Utf8.Codec.{
  is_scalar, is_scalar_text, Decoder, start, more, Emits, after_error, decode_first, decode_next,
  decode_from, replaced, decode_replace,
}

-- The values from which the bytes still expected can only complete a scalar.
pub data OnTrack : Decoder → Type 0 where
  ready : OnTrack start
  one_left :
      {acc lo hi : ℕ}
      → (acc < 0x360) ⊎ ((0x380 ≤ acc) × (acc < 0x4400))
      → 0x80 ≤ lo
      → hi ≤ 0xBF
      → OnTrack (more 0 acc lo hi)
  two_left :
      {acc lo hi : ℕ}
      → (acc < 13) ⊎ ((acc ≡ 13) × (hi ≤ 0x9F)) ⊎ ((14 ≤ acc) × (acc < 0x110))
      → 0x80 ≤ lo
      → hi ≤ 0xBF
      → OnTrack (more 1 acc lo hi)
  three_left :
      {acc lo hi : ℕ}
      → acc ≤ 4
      → (acc ≡ 0 → 0x90 ≤ lo)
      → (acc ≡ 4 → hi ≤ 0x8F)
      → 0x80 ≤ lo
      → hi ≤ 0xBF
      → OnTrack (more 2 acc lo hi)

abbrev Scalars : Emits → Type 0
Scalars [] = Unit
Scalars (none ∷ es) = Scalars es
Scalars (some c ∷ es) = (is_scalar c ≡ true) × Scalars es

Scalars-append : (es fs : Emits) → Scalars es → Scalars fs → Scalars (es ++ fs)
Scalars-append [] fs h k = k
Scalars-append (none ∷ es) fs h k = Scalars-append es fs h k
Scalars-append (some c ∷ es) fs h k = (h.0, Scalars-append es fs h.1 k)

abbrev Fine : Emits × Decoder → Type 0
Fine r = Scalars r.0 × OnTrack r.1

decode_first-Fine : (b : ℕ) → Fine (decode_first b)
unfolding decode_first
decode_first-Fine b = elim (Bool-cases (ltb b 0x80)) [
  | inl p ↦ rw p ((ground arith, tt), ready)
  | inr p ↦ elim (Bool-cases (ltb b 0xC2)) [
    | inl q ↦ rw (p, q) (tt, ready)
    | inr q ↦ elim (Bool-cases (ltb b 0xE0)) [
      | inl r ↦ rw (p, q, r) (tt, one_left (inl (ground arith)) (omega arith) (omega arith))
      | inr r ↦ elim (Bool-cases (ltb b 0xF0)) [
        | inl s ↦ rw (p, q, r, s) (tt, two_left (ground arith) (ground arith) (ground arith))
        | inr s ↦ elim (Bool-cases (ltb b 0xF5)) [
          | inl t ↦
              rw (p, q, r, s, t)
                (
                  tt,
                  three_left (ground arith) (λ e. ground arith) (λ e. ground arith) (ground arith)
                      (ground arith),
                )
          | inr t ↦ rw (p, q, r, s, t) (tt, ready)
        ]
      ]
    ]
  ]
]

after_error-Fine : (r : Emits × Decoder) → Fine r → Fine (after_error r)
after_error-Fine r h = h

from_first :
    (acc lo hi b : ℕ)
    → acc ≤ 4
    → (acc ≡ 0 → 0x90 ≤ lo)
    → (acc ≡ 4 → hi ≤ 0x8F)
    → 0x80 ≤ lo
    → hi ≤ 0xBF
    → (leb lo b && leb b hi) ≡ true
    → (acc * 64 + (b - 0x80) < 13)
      ⊎ ((acc * 64 + (b - 0x80) ≡ 13) × (0xBF ≤ 0x9F))
      ⊎ ((14 ≤ acc * 64 + (b - 0x80)) × (acc * 64 + (b - 0x80) < 0x110))
from_first zero lo hi b v z f l h e = inr (inr (ground (arith, z refl)))
from_first (suc zero) lo hi b v z f l h e = inr (inr (ground arith))
from_first (suc (suc zero)) lo hi b v z f l h e = inr (inr (ground arith))
from_first (suc (suc (suc zero))) lo hi b v z f l h e = inr (inr (ground arith))
from_first (suc (suc (suc (suc zero)))) lo hi b v z f l h e = inr (inr (ground (arith, f refl)))
from_first (suc (suc (suc (suc (suc n))))) lo hi b v z f l h e = absurd (omega arith)

decode_next-Fine : (d : Decoder) (b : ℕ) → OnTrack d → Fine (decode_next d b)
unfolding decode_next
decode_next-Fine start b t = decode_first-Fine b
decode_next-Fine (more zero acc lo hi) b (one_left v l h) =
    elim (Bool-cases (leb lo b && leb b hi)) [
      | inl e ↦ rw e ((ground arith, tt), ready)
      | inr e ↦ rw e (after_error-Fine (decode_first b) (decode_first-Fine b))
    ]
decode_next-Fine (more (suc zero) acc lo hi) b (two_left v l h) =
    elim (Bool-cases (leb lo b && leb b hi)) [
      | inl e ↦ rw e (tt, one_left (ground arith) (omega arith) (omega arith))
      | inr e ↦ rw e (after_error-Fine (decode_first b) (decode_first-Fine b))
    ]
decode_next-Fine (more (suc (suc zero)) acc lo hi) b (three_left v z f l h) =
    elim (Bool-cases (leb lo b && leb b hi)) [
      | inl e ↦ rw e (tt, two_left (from_first acc lo hi b v z f l h e) (omega arith) (omega arith))
      | inr e ↦ rw e (after_error-Fine (decode_first b) (decode_first-Fine b))
    ]
decode_next-Fine (more (suc (suc (suc n))) acc lo hi) b t = elim t [ ]

decode_from_fine : (d : Decoder) (bs : Bytes) → OnTrack d → Scalars (decode_from d bs)
unfolding decode_from
decode_from_fine start [] t = tt
decode_from_fine (more n acc lo hi) [] t = tt
decode_from_fine d (b ∷ bs) t =
    Scalars-append (decode_next d b).0 (decode_from (decode_next d b).1 bs)
      (decode_next-Fine d b t).0
      (decode_from_fine (decode_next d b).1 bs (decode_next-Fine d b t).1)

replaced-scalar : (es : Emits) → Scalars es → is_scalar_text (replaced es) ≡ true
unfolding replaced
replaced-scalar [] h = refl
replaced-scalar (none ∷ es) h = replaced-scalar es h
replaced-scalar (some c ∷ es) h = rw h.0 (replaced-scalar es h.1)

-- Whatever the bytes, the text that replaces errors can be encoded.
pub decode_replace-scalar : (bs : Bytes) → is_scalar_text (decode_replace bs) ≡ true
unfolding decode_replace
decode_replace-scalar bs = replaced-scalar (decode_from start bs) (decode_from_fine start bs ready)
