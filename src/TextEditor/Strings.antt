-- ===== src/TextEditor/Strings.antt =====
-- The methods of `str` that sandbox/text_editor.py uses.
use otari_sandbox_container.Base.{
  ℕ, zero, suc, ◌+◌, ◌-◌, Bool, ◌&&◌, ◌||◌, not, List, [], ◌∷◌, ◌++◌, map, if◌then◌else◌, leb, Text,
  codes, starts_with, length, ◌==◌, nat_eq, nat_beq, text_eq,
}

-- The characters that `splitlines` ends a line at.
abbrev pub is_line_break : ℕ → Bool
is_line_break c =
    (leb 10 c && leb c 13)
    || (leb 0x1C c && leb c 0x1E)
    || nat_beq c 0x85
    || (leb 0x2028 c && leb c 0x2029)

abbrev pub onto_line : ℕ → List Text → List Text
onto_line c [] = (c ∷ []) ∷ []
onto_line c (l ∷ ls) = (c ∷ l) ∷ ls

-- `s.splitlines(keepends=True)`; "\r\n" is one end.
unfoldable pub splitlines_keepends : Text → List Text
splitlines_keepends [] = []
splitlines_keepends (c ∷ s) =
    let rest = splitlines_keepends s in
    if is_line_break c && not (nat_beq c 13 && starts_with s (codes "\n"))
    then (c ∷ []) ∷ rest
    else onto_line c rest

abbrev pub without_end : Text → Text
without_end [] = []
without_end (c ∷ s) = let rest = without_end s in if is_line_break c then rest else c ∷ rest

-- `s.splitlines()`: a line has no line break but at its end.
unfoldable pub splitlines : Text → List Text
unfolding splitlines_keepends
splitlines s = map without_end (splitlines_keepends s)

-- `sep.join(parts)`
unfoldable pub join_with : Text → List Text → Text
join_with sep [] = []
join_with sep (p ∷ []) = p
join_with sep (p ∷ q ∷ ps) = p ++ (sep ++ join_with sep (q ∷ ps))

-- The occurrences from left to right, where `skip` characters belong to the last one.
unfoldable pub count_from : Text → ℕ → Text → ℕ
count_from old skip [] = 0
count_from old (suc skip) (c ∷ s) = count_from old skip s
count_from old zero (c ∷ s) =
    let hit = starts_with (c ∷ s) old in
    let rest = count_from old (if hit then length old - 1 else 0) s in
    if hit then suc rest else rest

-- `s.count(old)`
unfoldable pub count : Text → Text → ℕ
count s old = if length old == 0 then length s + 1 else count_from old 0 s

unfoldable pub replace_from : Text → Text → ℕ → Text → Text
replace_from old new skip [] = []
replace_from old new (suc skip) (c ∷ s) = replace_from old new skip s
replace_from old new zero (c ∷ s) =
    let hit = starts_with (c ∷ s) old in
    let rest = replace_from old new (if hit then length old - 1 else 0) s in
    if hit then new ++ rest else c ∷ rest

abbrev between : Text → Text → Text
between new [] = new
between new (c ∷ s) = new ++ c ∷ between new s

-- `s.replace(old, new)`
unfoldable pub replace : Text → Text → Text → Text
replace s old new = if length old == 0 then between new s else replace_from old new 0 s
