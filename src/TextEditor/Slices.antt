-- ===== src/TextEditor/Slices.antt =====
-- The lines that `view` of sandbox/text_editor.py takes for a range.
use otari_sandbox_container.Base.{
  ℕ, zero, suc, ◌+◌, ◌-◌, ◌≤◌, ◌≡◌, refl, ap, sym, ◌∙◌, some, List, [], ◌∷◌, ◌++◌, map, Text, codes,
  length, take, drop, pos, arith, nat_eq, text_eq, Bool-cases, leb, inl, inr, if◌then◌else◌,
}
use otari_sandbox_container.TextEditor.{in_view_range}
use otari_sandbox_container.TextEditor.Strings.{
  splitlines_keepends, splitlines, join_with, without_end,
}

module _ {X Y : Type 0} (f : X → Y) where
  length-map : (xs : List X) → length (map f xs) ≡ length xs
  length-map [] = refl
  length-map (x ∷ xs) = ap suc (length-map xs)

  take-front : (bs cs : List X) → take (length bs) (map f (bs ++ cs)) ≡ map f bs
  take-front [] cs = refl
  take-front (b ∷ bs) cs = ap (λ r. f b ∷ r) (take-front bs cs)

  slice :
      (m : ℕ) (xs bs cs : List X)
      → m ≡ length xs + length bs
      → drop (length xs) (take m (map f (xs ++ (bs ++ cs)))) ≡ map f bs
  slice m [] bs cs h =
      let same : m ≡ length bs = omega arith in
      ap (λ k. take k (map f (bs ++ cs))) same ∙ take-front bs cs
  slice zero (x ∷ xs) bs cs h = absurd (omega arith)
  slice (suc m) (x ∷ xs) bs cs h = slice m xs bs cs (omega arith)

take-over : {X : Type 0} (m : ℕ) (xs : List X) → length xs ≤ m → take m xs ≡ xs
take-over zero [] h = refl
take-over zero (x ∷ xs) h = absurd (omega arith)
take-over (suc m) [] h = refl
take-over (suc m) (x ∷ xs) h = ap (λ r. x ∷ r) (take-over m xs (omega arith))

take-clamped :
    (m : ℕ) (xs : List Text) → take (if leb (length xs) m then length xs else m) xs ≡ take m xs
take-clamped m xs = elim (Bool-cases (leb (length xs) m)) [
  | inl fits ↦
      rw fits (take-over (length xs) xs (omega arith) ∙ sym (take-over m xs (ground arith)))
  | inr longer ↦ rw longer refl
]

pub length-take : (n : ℕ) (xs : List Text) → n ≤ length xs → length (take n xs) ≡ n
length-take zero xs h = refl
length-take (suc n) [] h = absurd (omega arith)
length-take (suc n) (x ∷ xs) h = ap suc (length-take n xs (omega arith))

-- The view of the lines of the payload.
pub view-inserted :
    (n : ℕ) (p text : Text) (front back : List Text)
    → length front ≡ n
    → splitlines_keepends text ≡ front ++ (splitlines_keepends p ++ back)
    → in_view_range (some (pos (n + 1) ∷ pos (n + length (splitlines p)) ∷ [])) text
      ≡ join_with (codes "\n") (splitlines p)
unfolding in_view_range splitlines
view-inserted n p text front back len e =
    let lines = splitlines text in
    let m = n + length (splitlines p) in
    let first : n + 1 - 1 ≡ length front = omega arith in
    let size : m ≡ length front + length (splitlines_keepends p) =
      ap (λ k. n + k) (length-map without_end (splitlines_keepends p))
      ∙ ap (λ k. k + length (splitlines_keepends p)) (sym len) in
    ap (join_with (codes "\n")) (
      ap (drop (n + 1 - 1)) (take-clamped m lines)
      ∙ ap (λ k. drop k (take m lines)) first
      ∙ ap (λ ls. drop (length front) (take m (map without_end ls))) e
      ∙ slice without_end m front (splitlines_keepends p) back size)
