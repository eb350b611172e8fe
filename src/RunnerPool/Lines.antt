-- ===== src/RunnerPool/Lines.antt =====
-- The lines that `readline` cuts a stream into, for the reader in sandbox/runner_pool.py; each keeps
-- its newline.
use otari_sandbox_container.Base.{
  ℕ, ◌≡◌, ◌≢◌, nat_beq_iff, refl, ap, sym, ◌∙◌, Bool, true, false, not, List, [], ◌∷◌, ◌++◌, map,
  if◌then◌else◌, Text, ends_with_newline, join, all_of, ◌==◌, nat_eq, arith, append-nil, Bool-cases,
  inl, inr,
}
use otari_sandbox_container.Utf8.Codec.{encode_char, encode_chars}

abbrev pub onto_first : Text → List Text → List Text
onto_first [] ls = ls
onto_first (c ∷ p) [] = (c ∷ p) ∷ []
onto_first (c ∷ p) (l ∷ ls) = ((c ∷ p) ++ l) ∷ ls

-- The lines of a text, or of bytes.
unfoldable pub split_lines : Text → List Text
split_lines [] = []
split_lines (c ∷ s) =
    let rest = split_lines s in if c == 10 then (c ∷ []) ∷ rest else onto_first (c ∷ []) rest

abbrev pub no_newline : Text → Bool
no_newline = all_of (λ c. not (c == 10))

onto_first-cons :
    (c : ℕ) (p : Text) (ls : List Text)
    → onto_first (c ∷ []) (onto_first p ls) ≡ onto_first (c ∷ p) ls
onto_first-cons c [] [] = refl
onto_first-cons c [] (l ∷ ls) = refl
onto_first-cons c (d ∷ p) [] = refl
onto_first-cons c (d ∷ p) (l ∷ ls) = refl

-- Text without a newline goes in front of the first line.
pub split_lines-append :
    (p r : Text) → no_newline p ≡ true → split_lines (p ++ r) ≡ onto_first p (split_lines r)
unfolding split_lines
split_lines-append [] r h = refl
split_lines-append (c ∷ p) r h = elim (Bool-cases (c == 10)) [
  | inl e ↦ ground arith
  | inr e ↦ rw e (
      ap (onto_first (c ∷ [])) (split_lines-append p r (ground arith))
      ∙ onto_first-cons c p (split_lines r))
]

-- A line by itself.
pub split_lines-line :
    (p r : Text) → no_newline p ≡ true → split_lines (p ++ 10 ∷ r) ≡ (p ++ 10 ∷ []) ∷ split_lines r
split_lines-line p r h = split_lines-append p (10 ∷ r) h ∙ first p
  where
    first : (p : Text) → onto_first p (split_lines (10 ∷ r)) ≡ (p ++ 10 ∷ []) ∷ split_lines r
    first [] = unfold split_lines in refl
    first (c ∷ p) = unfold split_lines in refl

onto_first-append :
    (c : ℕ) (ls ms : List Text)
    → ls ≢ []
    → onto_first (c ∷ []) (ls ++ ms) ≡ onto_first (c ∷ []) ls ++ ms
onto_first-append c [] ms h = absurd (h refl)
onto_first-append c (l ∷ ls) ms h = refl

split_lines-ne : (c : ℕ) (s : Text) → split_lines (c ∷ s) ≢ []
unfolding split_lines
split_lines-ne c s = elim (Bool-cases (c == 10)) [
  | inl e ↦ rw e (λ h. cc)
  | inr e ↦ rw e (other (split_lines s))
]
  where
    other : (ls : List Text) → onto_first (c ∷ []) ls ≢ []
    other [] h = cc
    other (l ∷ ls) h = cc

split_lines-cons :
    (c : ℕ) (s : Text)
    → (c == 10) ≡ false
    → split_lines (c ∷ s) ≡ onto_first (c ∷ []) (split_lines s)
unfolding split_lines
split_lines-cons c s h = rw h refl

split_lines-newline : (s : Text) → split_lines (10 ∷ s) ≡ (10 ∷ []) ∷ split_lines s
unfolding split_lines
split_lines-newline s = refl

-- Behind a text that ends with a newline a new line begins.
pub split_lines-terminated :
    (t r : Text)
    → ends_with_newline t ≡ true
    → split_lines (t ++ r) ≡ split_lines t ++ split_lines r
split_lines-terminated [] r h = cc
split_lines-terminated (c ∷ []) r h =
    let newline : c ≡ 10 = (nat_beq_iff c 10).0 h in rw newline (unfold split_lines in refl)
split_lines-terminated (c ∷ d ∷ t) r h = elim (Bool-cases (c == 10)) [
  | inl e ↦
      let newline : c ≡ 10 = (nat_beq_iff c 10).0 e in
      rw newline (
        split_lines-newline (d ∷ t ++ r)
        ∙ ap (λ ls. (10 ∷ []) ∷ ls) (split_lines-terminated (d ∷ t) r h)
        ∙ ap (λ ls. ls ++ split_lines r) (sym (split_lines-newline (d ∷ t))))
  | inr e ↦
      split_lines-cons c (d ∷ t ++ r) e
      ∙ ap (onto_first (c ∷ [])) (split_lines-terminated (d ∷ t) r h)
      ∙ onto_first-append c (split_lines (d ∷ t)) (split_lines r) (split_lines-ne d t)
      ∙ ap (λ ls. ls ++ split_lines r) (sym (split_lines-cons c (d ∷ t) e))
]

join-onto_first : (c : ℕ) (ls : List Text) → join (onto_first (c ∷ []) ls) ≡ c ∷ join ls
join-onto_first c [] = refl
join-onto_first c (l ∷ ls) = refl

pub join-split_lines : (t : Text) → join (split_lines t) ≡ t
unfolding split_lines
join-split_lines [] = refl
join-split_lines (c ∷ s) = elim (Bool-cases (c == 10)) [
  | inl e ↦ rw e (ap (λ r. c ∷ r) (join-split_lines s))
  | inr e ↦ rw e (join-onto_first c (split_lines s) ∙ ap (λ r. c ∷ r) (join-split_lines s))
]

-- A newline byte is the encoding of a newline and part of no other.
encode_char-no_newline : (c : ℕ) → (c == 10) ≡ false → no_newline (encode_char c) ≡ true
unfolding encode_char
encode_char-no_newline c h = ground arith

encode_char-ne : (c : ℕ) → encode_char c ≢ []
unfolding encode_char
encode_char-ne c = ground arith

onto_first-single : (p : Text) → p ≢ [] → onto_first p [] ≡ p ∷ []
onto_first-single [] h = absurd (h refl)
onto_first-single (c ∷ p) h = refl

onto_first-lines : (p l : Text) (ls : List Text) → onto_first p (l ∷ ls) ≡ (p ++ l) ∷ ls
onto_first-lines [] l ls = refl
onto_first-lines (c ∷ p) l ls = refl

map-onto_first :
    (c : ℕ) (ls : List Text)
    → onto_first (encode_char c) (map encode_chars ls) ≡ map encode_chars (onto_first (c ∷ []) ls)
unfolding encode_chars
map-onto_first c [] =
    onto_first-single (encode_char c) (encode_char-ne c)
    ∙ ap (λ p. p ∷ []) (sym (append-nil (encode_char c)))
map-onto_first c (l ∷ ls) = onto_first-lines (encode_char c) (encode_chars l) (map encode_chars ls)

encode_chars-newline : (s : Text) → encode_chars (10 ∷ s) ≡ 10 ∷ encode_chars s
unfolding encode_chars encode_char
encode_chars-newline s = refl

encode_chars-cons : (c : ℕ) (s : Text) → encode_chars (c ∷ s) ≡ encode_char c ++ encode_chars s
unfolding encode_chars
encode_chars-cons c s = refl

-- The lines of an encoded text are the encoded lines of the text.
pub split_lines-encode_chars :
    (s : Text) → split_lines (encode_chars s) ≡ map encode_chars (split_lines s)
split_lines-encode_chars [] = unfold split_lines encode_chars in refl
split_lines-encode_chars (c ∷ s) = elim (Bool-cases (c == 10)) [
  | inl e ↦
      let newline : c ≡ 10 = (nat_beq_iff c 10).0 e in
      rw newline (
        ap split_lines (encode_chars-newline s)
        ∙ split_lines-newline (encode_chars s)
        ∙ ap (λ ls. (10 ∷ []) ∷ ls) (split_lines-encode_chars s)
        ∙ ap (λ l. l ∷ map encode_chars (split_lines s))
            (sym (encode_chars-newline [] ∙ unfold encode_chars in refl))
        ∙ ap (map encode_chars) (sym (split_lines-newline s)))
  | inr e ↦
      ap split_lines (encode_chars-cons c s)
      ∙ split_lines-append (encode_char c) (encode_chars s) (encode_char-no_newline c e)
      ∙ ap (onto_first (encode_char c)) (split_lines-encode_chars s)
      ∙ map-onto_first c (split_lines s)
      ∙ ap (map encode_chars) (sym (split_lines-cons c s e))
]
