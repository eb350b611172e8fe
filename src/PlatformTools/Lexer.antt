-- ===== src/PlatformTools/Lexer.antt =====
-- A reader of the double-quoted Python string literals in the source that sandbox/platform_tools.py makes.
use otari_sandbox_container.Base.{
  ℕ, zero, suc, ◌+◌, ◌-◌, ◌*◌, ◌≡◌, refl, ap, sym, ◌∙◌, ◌&&◌, ◌||◌, Option, none, some, [], ◌∷◌,
  ◌++◌, if◌then◌else◌, leb, nat_beq, Text, append_assoc,
}

-- Where the reader of a double-quoted literal stands: between characters, behind a backslash, or before
-- the given number of further hexadecimal digits.
pub data Lexer : Type 0 where
  plain escaped : Lexer
  digits : ℕ → ℕ → Lexer

pub data Step : Type 0 where
  emit : Text → Lexer → Step
  close : Step
  bad : Step

abbrev pub hex_value : ℕ → Option ℕ
hex_value c =
    if leb 48 c && leb c 57
    then some (c - 48)
    else if leb 97 c && leb c 102
    then some (c - 87)
    else none

abbrev pub digit_step : ℕ → ℕ → Option ℕ → Step
digit_step n acc none = bad
digit_step zero acc (some v) = emit ((acc * 16 + v) ∷ []) plain
digit_step (suc n) acc (some v) = emit [] (digits n (acc * 16 + v))

unfoldable pub step : Lexer → ℕ → Step
step plain c =
    if nat_beq c 34
    then close
    else if nat_beq c 92
    then emit [] escaped
    else if nat_beq c 10
    then bad
    else emit (c ∷ []) plain
step escaped c =
    if nat_beq c 34 || nat_beq c 92
    then emit (c ∷ []) plain
    else if nat_beq c b'n'
    then emit (10 ∷ []) plain
    else if nat_beq c b'r'
    then emit (13 ∷ []) plain
    else if nat_beq c b't'
    then emit (9 ∷ []) plain
    else if nat_beq c b'b'
    then emit (8 ∷ []) plain
    else if nat_beq c b'f'
    then emit (12 ∷ []) plain
    else if nat_beq c b'u'
    then emit [] (digits 3 0)
    else bad
step (digits n acc) c = digit_step n acc (hex_value c)

abbrev pub prepend : Text → Option (Text × Text) → Option (Text × Text)
prepend out none = none
prepend out (some (s, rest)) = some (out ++ s, rest)

-- The value of the literal and what follows its closing quote.
unfoldable pub read_from : Lexer → Text → Option (Text × Text)
read_from d [] = none
read_from d (c ∷ s) = elim (step d c) [
  | emit out d' ↦ prepend out (read_from d' s)
  | close ↦ some ([], s)
  | bad ↦ none
]

-- A double-quoted literal at the beginning of a text.
unfoldable pub read_literal : Text → Option (Text × Text)
unfolding read_from
read_literal [] = none
read_literal (c ∷ s) = if nat_beq c 34 then read_from plain s else none

abbrev pub Runs : Lexer → Text → Text → Lexer → Type 0
Runs d t out d' = (r : Text) → read_from d (t ++ r) ≡ prepend out (read_from d' r)

pub prepend-append :
    (a b : Text) (o : Option (Text × Text)) → prepend a (prepend b o) ≡ prepend (a ++ b) o
prepend-append a b none = refl
prepend-append a b (some (s, r)) = ap (λ x. some (x, r)) (sym (append_assoc a b s))

pub prepend-nil : (o : Option (Text × Text)) → prepend [] o ≡ o
prepend-nil none = refl
prepend-nil (some p) = refl

pub one : (d d' : Lexer) (c : ℕ) (out : Text) → step d c ≡ emit out d' → Runs d (c ∷ []) out d'
unfolding read_from
one d d' c out h r = rw (h, read_from) refl

pub then_ :
    (d d' d'' : Lexer) (t t' out out' : Text)
    → Runs d t out d'
    → Runs d' t' out' d''
    → Runs d (t ++ t') (out ++ out') d''
then_ d d' d'' t t' out out' f g r =
    ap (read_from d) (append_assoc t t' r)
    ∙ f (t' ++ r)
    ∙ ap (prepend out) (g r)
    ∙ prepend-append out out' (read_from d'' r)
