-- ===== src/PlatformTools/Names.antt =====
-- Which lists of tools sandbox/platform_tools.py accepts.
use otari_sandbox_container.Base.{
  ℕ, ◌≡◌, ◌↔◌, ◌⊎◌, ◌≢◌, refl, ap, sym, Bool, true, false, ◌&&◌, none, List, [], ◌∷◌, ◌++◌, All,
  all_of, Text, codes, ◌==◌, nat_eq, text_eq, arith, Bool-cases, inl, inr,
}
use otari_sandbox_container.PlatformTools.{
  ProgrammaticTool, is_first, is_word, matches_rest, is_valid_name, is_in, validate_from,
  validate_tool_names,
}

-- A name of word characters that does not begin with a digit, with or without a newline at its end.
abbrev pub IsName : Text → Type 0
IsName [] = ⊥
IsName (c ∷ s) =
    (is_first c ≡ true)
    × ((w : Text) × (all_of is_word w ≡ true) × ((s ≡ w) ⊎ (s ≡ w ++ codes "\n")))

matches_rest-word : (w : Text) → all_of is_word w ≡ true → matches_rest w ≡ true
unfolding matches_rest
matches_rest-word [] h = refl
matches_rest-word (c ∷ w) h = ground (arith, matches_rest-word w)

matches_rest-newline : (w : Text) → all_of is_word w ≡ true → matches_rest (w ++ codes "\n") ≡ true
unfolding matches_rest
matches_rest-newline [] h = refl
matches_rest-newline (c ∷ w) h = ground (arith, matches_rest-newline w)

matches_rest-split :
    (s : Text)
    → matches_rest s ≡ true
    → (w : Text) × (all_of is_word w ≡ true) × ((s ≡ w) ⊎ (s ≡ w ++ codes "\n"))
unfolding matches_rest
matches_rest-split [] h = ([], refl, inl refl)
matches_rest-split (c ∷ s) h = elim (Bool-cases (is_word c)) [
  | inl e ↦
      let (w, a, split) = matches_rest-split s (ground arith) in
      (
        c ∷ w,
        rw e a,
        elim split [ inl p ↦ inl (ap (λ r. c ∷ r) p) | inr p ↦ inr (ap (λ r. c ∷ r) p) ],
      )
  | inr e ↦ ([], refl, inr (ground arith))
]

-- The pattern accepts exactly the names of word characters that do not begin with a digit, and each of
-- these with one newline behind it.
pub is_valid_name_iff : (s : Text) → (is_valid_name s ≡ true) ↔ IsName s
unfolding is_valid_name
is_valid_name_iff [] = (λ h. cc, λ h. absurd h)
is_valid_name_iff (c ∷ s) = (
  λ h. (ground arith, matches_rest-split s (ground arith)),
  λ n. accepted n.0 (elim n.1.2 [
    | inl p ↦ rw p (matches_rest-word n.1.0 n.1.1)
    | inr p ↦ rw p (matches_rest-newline n.1.0 n.1.1)
  ]),
)
  where
    accepted : is_first c ≡ true → matches_rest s ≡ true → (is_first c && matches_rest s) ≡ true
    accepted f m = ground arith

abbrev pub Distinct : List ProgrammaticTool → Type 0
Distinct [] = Unit
Distinct (t ∷ tools) = All (λ u. u.name ≢ t.name) tools × Distinct tools

abbrev Unseen : List Text → List ProgrammaticTool → Type 0
Unseen seen tools = All (λ t. is_in t.name seen ≡ false) tools

Unseen-cons :
    (n : Text) (seen : List Text) (tools : List ProgrammaticTool)
    → Unseen (n ∷ seen) tools ↔ (All (λ u. u.name ≢ n) tools × Unseen seen tools)
Unseen-cons n seen [] = (λ h. (tt, tt), λ h. tt)
Unseen-cons n seen (u ∷ tools) = (
  λ h.
      let rest = (Unseen-cons n seen tools).0 h.1 in
      (((λ e. cc ((text_eq.decides n u.name).1 (sym e), apart h.0)), rest.0), (kept h.0, rest.1)),
  λ h. (
    both (λ e. h.0.0 (sym ((text_eq.decides n u.name).0 e))) h.1.0,
    (Unseen-cons n seen tools).1 (h.0.1, h.1.1),
  ),
)
  where
    apart : is_in u.name (n ∷ seen) ≡ false → (n == u.name) ≡ false
    apart h = ground arith

    kept : is_in u.name (n ∷ seen) ≡ false → is_in u.name seen ≡ false
    kept h = ground arith

    both : (n == u.name) ≢ true → is_in u.name seen ≡ false → is_in u.name (n ∷ seen) ≡ false
    both a h = ground arith

module _ (printable : ℕ → Bool) (is_keyword : Text → Bool) where
  abbrev IsUsable : ProgrammaticTool → Type 0
  IsUsable t = IsName t.name × (is_keyword t.name ≡ false)

  -- The check passes a tool and goes on, or it ends with an error.
  passes :
      (seen : List Text) (t : ProgrammaticTool) (tools : List ProgrammaticTool)
      → (validate_from printable is_keyword seen (t ∷ tools) ≡ none) ↔ (
          (is_valid_name t.name ≡ true)
          × (is_keyword t.name ≡ false)
          × (is_in t.name seen ≡ false)
          × (validate_from printable is_keyword (t.name ∷ seen) tools ≡ none))
  unfolding validate_from
  passes seen t tools = ground arith

  validate_from_iff :
      (seen : List Text) (tools : List ProgrammaticTool)
      → (validate_from printable is_keyword seen tools ≡ none)
        ↔ (All IsUsable tools × Distinct tools × Unseen seen tools)
  validate_from_iff seen [] = (λ h. (tt, tt, tt), λ h. unfold validate_from in refl)
  validate_from_iff seen (t ∷ tools) = (
    λ h.
        let p = (passes seen t tools).0 h in
        let rest = (validate_from_iff (t.name ∷ seen) tools).0 p.3 in
        let fresh = (Unseen-cons t.name seen tools).0 rest.2 in
        ((((is_valid_name_iff t.name).0 p.0, p.1), rest.0), (fresh.0, rest.1), (p.2, fresh.1)),
    λ h. (passes seen t tools).1 (
      (is_valid_name_iff t.name).1 h.0.0.0,
      h.0.0.1,
      h.2.0,
      (validate_from_iff (t.name ∷ seen) tools).1
          (h.0.1, h.1.1, (Unseen-cons t.name seen tools).1 (h.1.0, h.2.1)),
    ),
  )

  Unseen-nil : (tools : List ProgrammaticTool) → Unseen [] tools
  Unseen-nil [] = tt
  Unseen-nil (t ∷ tools) = (refl, Unseen-nil tools)

  -- The tools are accepted exactly if each has a name of word characters that does not begin with a
  -- digit, with or without a newline at its end, no name is a keyword, and no two names are equal.
  pub validate_tool_names_iff :
      (tools : List ProgrammaticTool)
      → (validate_tool_names printable is_keyword tools ≡ none)
        ↔ (All (λ t. IsName t.name × (is_keyword t.name ≡ false)) tools × Distinct tools)
  unfolding validate_tool_names
  validate_tool_names_iff tools = (
    λ h. let r = (validate_from_iff [] tools).0 h in (r.0, r.1),
    λ h. (validate_from_iff [] tools).1 (h.0, h.1, Unseen-nil tools),
  )
