-- ===== src/TextEditor/Lines.antt =====
-- The lines of a text, with their ends, as sandbox/text_editor.py splits it, cuts it and joins it again.
use otari_sandbox_container.Base.{
  ℕ, zero, suc, ◌<◌, ◌≡◌, refl, ap, sym, ◌∙◌, Bool, true, false, ◌&&◌, not, List, [], ◌∷◌, ◌++◌,
  Text, codes, starts_with, ends_with_newline, length, take, drop, join, nat_beq, nat_eq, ◌==◌,
  arith, Bool-cases, inl, inr, if_true, if_false,
}
use otari_sandbox_container.Repr.{has_char}
use otari_sandbox_container.TextEditor.Strings.{splitlines_keepends, onto_line, is_line_break}
use otari_sandbox_container.TextEditor.Replace.{join-splitlines_keepends}

-- Whether a line ends at `c` where `s` follows.
abbrev is_end : ℕ → Text → Bool
is_end c s = is_line_break c && not (nat_beq c 13 && starts_with s (codes "\n"))

lines-end :
    (c : ℕ) (s : Text)
    → is_end c s ≡ true
    → splitlines_keepends (c ∷ s) ≡ (c ∷ []) ∷ splitlines_keepends s
unfolding splitlines_keepends
lines-end c s h = if_true _ _ h

lines-onto :
    (c : ℕ) (s : Text)
    → is_end c s ≡ false
    → splitlines_keepends (c ∷ s) ≡ onto_line c (splitlines_keepends s)
unfolding splitlines_keepends
lines-onto c s h = if_false _ _ h

lines-cons :
    (c : ℕ) (s : Text) → (l : Text) × (ls : List Text) × (splitlines_keepends (c ∷ s) ≡ l ∷ ls)
lines-cons c s = elim (Bool-cases (is_end c s)) [
  | inl end ↦ (c ∷ [], splitlines_keepends s, lines-end c s end)
  | inr mid ↦ let (l, ls, e) = first (splitlines_keepends s) in (l, ls, lines-onto c s mid ∙ e)
]
  where
    first : (ls : List Text) → (l : Text) × (ls' : List Text) × (onto_line c ls ≡ l ∷ ls')
    first [] = (c ∷ [], [], refl)
    first (l ∷ ls) = (c ∷ l, ls, refl)

drop-nil : (n : ℕ) → drop {A = Text} n [] ≡ []
drop-nil zero = refl
drop-nil (suc n) = refl

-- The lines behind some lines are the lines of the rest of the text.
lines-drop :
    (n : ℕ) (s : Text) → (rest : Text) × (drop n (splitlines_keepends s) ≡ splitlines_keepends rest)
lines-drop zero s = (s, refl)
lines-drop (suc n) [] = ([], unfold splitlines_keepends in refl)
lines-drop (suc n) (c ∷ s) = elim (Bool-cases (is_end c s)) [
  | inl end ↦ let (rest, e) = lines-drop n s in (rest, ap (drop (suc n)) (lines-end c s end) ∙ e)
  | inr mid ↦
      let (rest, e) = lines-drop (suc n) s in
      (rest, ap (drop (suc n)) (lines-onto c s mid) ∙ dropped (splitlines_keepends s) ∙ e)
]
  where
    dropped : (ls : List Text) → drop (suc n) (onto_line c ls) ≡ drop (suc n) ls
    dropped [] = drop-nil n
    dropped (l ∷ ls) = refl

pub join-drop :
    (n : ℕ) (s : Text)
    → splitlines_keepends (join (drop n (splitlines_keepends s))) ≡ drop n (splitlines_keepends s)
join-drop n s =
    let (rest, e) = lines-drop n s in
    ap (λ ls. splitlines_keepends (join ls)) e
    ∙ ap splitlines_keepends (join-splitlines_keepends rest)
    ∙ sym e

-- What follows a text that ends with a newline begins a line.
pub lines-append :
    (p y : Text)
    → ends_with_newline p ≡ true
    → splitlines_keepends (p ++ y) ≡ splitlines_keepends p ++ splitlines_keepends y
unfolding starts_with
lines-append [] y h = absurd (ground arith)
lines-append (c ∷ []) y h =
    let c_is : c ≡ 10 = ground arith in rw c_is (unfold splitlines_keepends in refl)
lines-append (c ∷ d ∷ p) y h = elim (Bool-cases (is_end c (d ∷ p))) [
  | inl end ↦
      lines-end c ((d ∷ p) ++ y) end
      ∙ ap (λ r. (c ∷ []) ∷ r) (lines-append (d ∷ p) y h)
      ∙ ap (λ r. r ++ splitlines_keepends y) (sym (lines-end c (d ∷ p) end))
  | inr mid ↦
      let (l, ls, e) = lines-cons d p in
      lines-onto c ((d ∷ p) ++ y) mid
      ∙ ap (onto_line c) (lines-append (d ∷ p) y h)
      ∙ ap (λ r. onto_line c (r ++ splitlines_keepends y)) e
      ∙ ap (λ r. onto_line c r ++ splitlines_keepends y) (sym e)
      ∙ ap (λ r. r ++ splitlines_keepends y) (sym (lines-onto c (d ∷ p) mid))
]

onto-take :
    (n c : ℕ) (ls ys : List Text)
    → suc n < length (onto_line c ls)
    → onto_line c (take (suc n) ls ++ ys) ≡ take (suc n) (onto_line c ls) ++ ys
onto-take n c [] ys h = absurd (omega arith)
onto-take n c (l ∷ ls) ys h = refl

length-onto : (n c : ℕ) (ls : List Text) → suc n < length (onto_line c ls) → suc n < length ls
length-onto n c [] h = absurd (omega arith)
length-onto n c (l ∷ ls) h = h

join-onto-take :
    (n c : ℕ) (ls : List Text)
    → suc n < length (onto_line c ls)
    → join (take (suc n) (onto_line c ls)) ≡ c ∷ join (take (suc n) ls)
join-onto-take n c [] h = absurd (omega arith)
join-onto-take n c (l ∷ ls) h = refl

-- A character other than a carriage return ends a line whatever follows it, or none.
is_end-plain : (c : ℕ) (s t : Text) → (c == 13) ≡ false → is_end c s ≡ is_end c t
is_end-plain c s t h = let no_cr : nat_beq c 13 ≡ false = h in rw no_cr refl

-- In a text without carriage returns, each line that is not the last ends where it ends, whatever
-- follows.
pub lines-take :
    (n : ℕ) (s y : Text)
    → has_char 13 s ≡ false
    → n < length (splitlines_keepends s)
    → splitlines_keepends (join (take n (splitlines_keepends s)) ++ y)
      ≡ take n (splitlines_keepends s) ++ splitlines_keepends y
unfolding has_char
lines-take zero s y plain h = refl
lines-take (suc n) [] y plain h = absurd (unfold splitlines_keepends in omega arith)
lines-take (suc n) (c ∷ s) y plain h =
    let other : (c == 13) ≡ false = ground arith in
    let rest : has_char 13 s ≡ false = ground arith in
    elim (Bool-cases (is_end c s)) [
      | inl end ↦
          let e = lines-end c s end in
          let len = ap length e in
          let less : n < length (splitlines_keepends s) = omega arith in
          let z = join (take n (splitlines_keepends s)) ++ y in
          ap (λ ls. splitlines_keepends (join (take (suc n) ls) ++ y)) e
          ∙ lines-end c z (is_end-plain c z s other ∙ end)
          ∙ ap (λ r. (c ∷ []) ∷ r) (lines-take n s y rest less)
          ∙ ap (λ ls. take (suc n) ls ++ splitlines_keepends y) (sym e)
      | inr mid ↦
          let e = lines-onto c s mid in
          let len = ap length e in
          let more : suc n < length (onto_line c (splitlines_keepends s)) = omega arith in
          let z = join (take (suc n) (splitlines_keepends s)) ++ y in
          ap (λ ls. splitlines_keepends (join (take (suc n) ls) ++ y)) e
          ∙ ap (λ r. splitlines_keepends (r ++ y)) (join-onto-take n c (splitlines_keepends s) more)
          ∙ lines-onto c z (is_end-plain c z s other ∙ mid)
          ∙ ap (onto_line c)
              (lines-take (suc n) s y rest (length-onto n c (splitlines_keepends s) more))
          ∙ onto-take n c (splitlines_keepends s) (splitlines_keepends y) more
          ∙ ap (λ ls. take (suc n) ls ++ splitlines_keepends y) (sym e)
    ]
