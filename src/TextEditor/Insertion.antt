-- ===== src/TextEditor/Insertion.antt =====
-- The text that `insert` of sandbox/text_editor.py makes: its lines, and what it is made of.
use otari_sandbox_container.Base.{
  ℕ, ◌<◌, ◌≤◌, ◌≡◌, refl, ap, sym, ◌∙◌, Bool, true, false, ◌&&◌, ◌||◌, List, [], ◌∷◌, ◌++◌, Text,
  codes, ends_with_newline, length, take, drop, join, arith, nat_eq, text_eq, Bool-cases, ◌⊎◌, inl,
  inr, all_of, take-append-drop,
}
use otari_sandbox_container.Repr.{has_char}
use otari_sandbox_container.Utf8.Codec.{is_scalar, is_scalar_text}
use otari_sandbox_container.TextEditor.{inserted, payload_of}
use otari_sandbox_container.TextEditor.Strings.{splitlines_keepends}
use otari_sandbox_container.TextEditor.Replace.{join-splitlines_keepends, join-append}
use otari_sandbox_container.TextEditor.Lines.{join-drop, lines-append, lines-take}

-- A place behind `n` of the lines of a text where a line begins: the last line must end with a newline
-- for something behind it to be a line of its own.
abbrev pub BeginsLine : ℕ → Text → Type 0
BeginsLine n s =
    (n ≡ 0)
    ⊎ ((n < length (splitlines_keepends s))
        ⊎ ((n ≡ length (splitlines_keepends s)) × (ends_with_newline s ≡ true)))

take-all : {n : ℕ} (xs : List Text) → n ≡ length xs → take n xs ≡ xs
take-all {n} xs h = ap (λ k. take k xs) h ∙ all xs
  where
    all : (xs : List Text) → take (length xs) xs ≡ xs
    all [] = refl
    all (x ∷ xs) = ap (λ r. x ∷ r) (all xs)

module _ (s : Text) (plain : has_char 13 s ≡ false) where
  lines-front :
      (n : ℕ) (y : Text)
      → BeginsLine n s
      → splitlines_keepends (join (take n (splitlines_keepends s)) ++ y)
        ≡ take n (splitlines_keepends s) ++ splitlines_keepends y
  lines-front n y (inl z) = rw z refl
  lines-front n y (inr (inl less)) = lines-take n s y plain less
  lines-front n y (inr (inr (all, ends))) =
      let e = take-all (splitlines_keepends s) all in
      ap (λ ls. splitlines_keepends (join ls ++ y)) e
      ∙ ap (λ r. splitlines_keepends (r ++ y)) (join-splitlines_keepends s)
      ∙ lines-append s y ends
      ∙ ap (λ ls. ls ++ splitlines_keepends y) (sym e)

  -- The lines of the text with a payload that ends with a newline.
  pub lines-inserted :
      (n : ℕ) (p : Text)
      → BeginsLine n s
      → ends_with_newline p ≡ true
      → splitlines_keepends (inserted n p (splitlines_keepends s))
        ≡ take n (splitlines_keepends s)
          ++ (splitlines_keepends p ++ drop n (splitlines_keepends s))
  lines-inserted n p b ends =
      let ls = splitlines_keepends s in
      ap splitlines_keepends (join-append (take n ls) (p ∷ drop n ls))
      ∙ lines-front n (p ++ join (drop n ls)) b
      ∙ ap (λ r. take n ls ++ r) (lines-append p (join (drop n ls)) ends)
      ∙ ap (λ r. take n ls ++ (splitlines_keepends p ++ r)) (join-drop n s)

pub payload_of-ends : (new : Text) → ends_with_newline (payload_of new) ≡ true
payload_of-ends new = elim (Bool-cases (ends_with_newline new)) [
  | inl newline ↦ rw newline newline
  | inr other ↦ rw other (last new)
]
  where
    last : (s : Text) → ends_with_newline (s ++ codes "\n") ≡ true
    last [] = refl
    last (c ∷ []) = refl
    last (c ∷ d ∷ s) = last (d ∷ s)

append-all : (q : ℕ → Bool) (x y : Text) → all_of q (x ++ y) ≡ (all_of q x && all_of q y)
append-all q [] y = refl
append-all q (c ∷ x) y = ground (arith, append-all q x y)

append-has_char : (c : ℕ) (x y : Text) → has_char c (x ++ y) ≡ (has_char c x || has_char c y)
unfolding has_char
append-has_char c [] y = refl
append-has_char c (d ∷ x) y = ground (arith, append-has_char c x y)

and-middle : (a b c : Bool) → (a && b) ≡ true → c ≡ true → (a && (c && b)) ≡ true
and-middle a b c h g = ground arith

or-middle : (a b c : Bool) → (a || b) ≡ false → c ≡ false → (a || (c || b)) ≡ false
or-middle a b c h g = ground arith

-- The text is that before and that behind the payload.
module _ (s p : Text) (n : ℕ) where
  abbrev text : Text
  text = inserted n p (splitlines_keepends s)

  abbrev front : Text
  front = join (take n (splitlines_keepends s))

  abbrev back : Text
  back = join (drop n (splitlines_keepends s))

  text-parts : text ≡ front ++ (p ++ back)
  text-parts = join-append (take n (splitlines_keepends s)) (p ∷ drop n (splitlines_keepends s))

  parts-text : front ++ back ≡ s
  parts-text =
      let ls = splitlines_keepends s in
      sym (join-append (take n ls) (drop n ls))
      ∙ ap join (take-append-drop n ls)
      ∙ join-splitlines_keepends s

  pub inserted-scalar :
      is_scalar_text s ≡ true → is_scalar_text p ≡ true → is_scalar_text text ≡ true
  inserted-scalar h g =
      let all = all_of is_scalar in
      let outer : (all front && all back) ≡ true =
        sym (append-all is_scalar front back) ∙ ap all parts-text ∙ h in
      ap all text-parts
      ∙ append-all is_scalar front (p ++ back)
      ∙ ap (λ b. all front && b) (append-all is_scalar p back)
      ∙ and-middle (all front) (all back) (all p) outer g

  pub inserted-has_char : has_char 13 s ≡ false → has_char 13 p ≡ false → has_char 13 text ≡ false
  inserted-has_char h g =
      let has = has_char 13 in
      let outer : (has front || has back) ≡ false =
        sym (append-has_char 13 front back) ∙ ap has parts-text ∙ h in
      ap has text-parts
      ∙ append-has_char 13 front (p ++ back)
      ∙ ap (λ b. has front || b) (append-has_char 13 p back)
      ∙ or-middle (has front) (has back) (has p) outer g

pub payload_of-scalar :
    (new : Text) → is_scalar_text new ≡ true → is_scalar_text (payload_of new) ≡ true
payload_of-scalar new h = elim (Bool-cases (ends_with_newline new)) [
  | inl newline ↦ rw newline h
  | inr other ↦ rw other (append-all is_scalar new (codes "\n") ∙ rw h refl)
]

pub payload_of-plain : (new : Text) → has_char 13 new ≡ false → has_char 13 (payload_of new) ≡ false
unfolding has_char
payload_of-plain new h = elim (Bool-cases (ends_with_newline new)) [
  | inl newline ↦ rw newline h
  | inr other ↦ rw other (append-has_char 13 new (codes "\n") ∙ rw h refl)
]

pub BeginsLine-le : (n : ℕ) (s : Text) → BeginsLine n s → n ≤ length (splitlines_keepends s)
BeginsLine-le n s (inl z) = omega arith
BeginsLine-le n s (inr (inl less)) = omega arith
BeginsLine-le n s (inr (inr (all, ends))) = omega arith
