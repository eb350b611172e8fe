-- ===== src/TextEditor/Replace.antt =====
-- What `str_replace` of sandbox/text_editor.py does to a text that holds `old_str` once, and what
-- `insert` does behind the last line.
use otari_sandbox_container.Base.{
  starts_with-drop, ℕ, zero, suc, ◌-◌, ◌<◌, ◌≡◌, refl, ap, sym, ◌∙◌, true, false, List, [], ◌∷◌,
  ◌++◌, Text, starts_with, length, take, drop, join, ◌==◌, nat_eq, arith, Bool-cases, inl, inr,
  append_assoc, append-nil, if_false, some, codes,
}
use otari_sandbox_container.Workspace.{Host, ok, ◌>>=◌, resolve, exists, read_text}
use otari_sandbox_container.TextEditor.{
  TextEditorInput, Editor, inserted, commit, str_replace_edit, handle_str_replace,
}
use otari_sandbox_container.TextEditor.Strings.{
  count_from, count, replace_from, replace, splitlines_keepends, onto_line,
}

drop-pred : (n c : ℕ) (s : Text) → 0 < n → drop n (c ∷ s) ≡ drop (n - 1) s
drop-pred zero c s h = absurd (omega arith)
drop-pred (suc n) c s h = ap (λ k. drop k s) (omega arith)

module _ (old new : Text) where
  count_from-drop : (k : ℕ) (s : Text) → count_from old k s ≡ count_from old 0 (drop k s)
  unfolding count_from
  count_from-drop zero s = refl
  count_from-drop (suc k) [] = refl
  count_from-drop (suc k) (c ∷ s) = count_from-drop k s

  replace_from-drop :
      (k : ℕ) (s : Text) → replace_from old new k s ≡ replace_from old new 0 (drop k s)
  unfolding replace_from
  replace_from-drop zero s = refl
  replace_from-drop (suc k) [] = refl
  replace_from-drop (suc k) (c ∷ s) = replace_from-drop k s

  replace_from-none : (s : Text) → count_from old 0 s ≡ 0 → replace_from old new 0 s ≡ s
  unfolding count_from replace_from
  replace_from-none [] h = refl
  replace_from-none (c ∷ s) h = elim (Bool-cases (starts_with (c ∷ s) old)) [
    | inl hit ↦ absurd (ground arith)
    | inr miss ↦ rw miss (ap (λ r. c ∷ r) (replace_from-none s (ground arith)))
  ]

  abbrev Once : Text → Type 0
  Once s =
      (pre : Text) × (post : Text) × (s ≡ pre ++ (old ++ post))
      × (replace_from old new 0 s ≡ pre ++ (new ++ post))

  replace_from-Once : (s : Text) → 0 < length old → count_from old 0 s ≡ 1 → Once s
  unfolding count_from replace_from
  replace_from-Once [] pos h = absurd (omega arith)
  replace_from-Once (c ∷ s) pos h = elim (Bool-cases (starts_with (c ∷ s) old)) [
    | inl hit ↦
        let k = length old - 1 in
        let rest : count_from old k s ≡ 0 = ground arith in
        let kept : replace_from old new k s ≡ drop k s =
          replace_from-drop k s ∙ replace_from-none (drop k s) (sym (count_from-drop k s) ∙ rest) in
        (
          [],
          drop k s,
          starts_with-drop (c ∷ s) old hit ∙ ap (λ r. old ++ r) (drop-pred (length old) c s pos),
          rw hit (ap (λ r. new ++ r) kept),
        )
    | inr miss ↦
        let once : count_from old 0 s ≡ 1 = ground arith in
        let (pre, post, e, r) = replace_from-Once s pos once in
        (c ∷ pre, post, ap (λ x. c ∷ x) e, rw miss (ap (λ x. c ∷ x) r))
  ]

-- Where the text `old`, which is not empty, occurs exactly once, the rest of the text before and behind
-- it is kept, and `new` stands in its place.
pub replace-once :
    (s old new : Text)
    → 0 < length old
    → count s old ≡ 1
    → (pre : Text) × (post : Text) × (s ≡ pre ++ (old ++ post))
      × (replace s old new ≡ pre ++ (new ++ post))
unfolding count replace
replace-once s old new pos h =
    let nonempty : (length old == 0) ≡ false = ground arith in
    let (pre, post, e, r) = replace_from-Once old new s pos (sym (if_false _ _ nonempty) ∙ h) in
    (pre, post, e, if_false _ _ nonempty ∙ r)

-- Where both texts are given, the old one is not empty, the path resolves to a file that can be read,
-- and the old text occurs in it exactly once, the command commits the text with the new one in its
-- place: everything before and behind it is kept.
pub handle_str_replace-once :
    (host : Host) (root : Text) (req : TextEditorInput) (e : Editor) (old new t s : Text)
    → req.old_str ≡ some old
    → req.new_str ≡ some new
    → resolve host req.path root ≡ ok t
    → exists e.disk t ≡ true
    → read_text host t e.disk ≡ ok s
    → 0 < length old
    → count s old ≡ 1
    → (pre : Text) × (post : Text) × (s ≡ pre ++ (old ++ post))
      × (handle_str_replace host root req e
          ≡ commit host
              (codes "Edited " ++ (req.path ++ codes "\n"))
              e
              (record { target = t; previous = s; text = pre ++ (new ++ post) }))
unfolding handle_str_replace str_replace_edit ◌>>=◌
handle_str_replace-once host root req e old new t s o n r x rd pos once =
    let (pre, post, split, replaced) = replace-once s old new pos once in
    (pre, post, split, rw (o, n, r, x, rd, once, replaced) refl)

join-onto_line : (c : ℕ) (ls : List Text) → join (onto_line c ls) ≡ c ∷ join ls
join-onto_line c [] = refl
join-onto_line c (l ∷ ls) = refl

-- The lines of a text, with their ends, are the text.
pub join-splitlines_keepends : (s : Text) → join (splitlines_keepends s) ≡ s
unfolding splitlines_keepends
join-splitlines_keepends [] = refl
join-splitlines_keepends (c ∷ s) =
    ground (arith, join-splitlines_keepends s, join-onto_line c (splitlines_keepends s))

pub join-append : (xs ys : List Text) → join (xs ++ ys) ≡ join xs ++ join ys
join-append [] ys = refl
join-append (x ∷ xs) ys =
    ap (λ r. x ++ r) (join-append xs ys) ∙ sym (append_assoc x (join xs) (join ys))

take-all : {A : Type 0} (xs : List A) → take (length xs) xs ≡ xs
take-all [] = refl
take-all (x ∷ xs) = ap (λ r. x ∷ r) (take-all xs)

drop-all : {A : Type 0} (xs : List A) → drop (length xs) xs ≡ []
drop-all [] = refl
drop-all (x ∷ xs) = drop-all xs

-- Whether or not the text ends with a newline, an insertion behind its last line puts the payload
-- directly behind its last character: a last line that has no newline is joined with the new one.
pub inserted-last :
    (s payload : Text)
    → inserted (length (splitlines_keepends s)) payload (splitlines_keepends s) ≡ s ++ payload
inserted-last s payload =
    let ls = splitlines_keepends s in
    join-append (take (length ls) ls) (payload ∷ drop (length ls) ls)
    ∙ ap (λ r. join r ++ (payload ++ join (drop (length ls) ls))) (take-all ls)
    ∙ ap (λ r. join ls ++ (payload ++ join r)) (drop-all ls)
    ∙ ap (λ r. join ls ++ r) (append-nil payload)
    ∙ ap (λ r. r ++ payload) (join-splitlines_keepends s)
