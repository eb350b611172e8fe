-- ===== src/Decimal.antt =====
-- Python's decimal integers: `str(n)`, which the f-strings of the sources call, and `int(s)`, with the
-- white space, sign and underscores that it accepts. Digits are ASCII.
use otari_sandbox_container.Base.{
  ℕ, zero, suc, ◌+◌, ◌-◌, ◌*◌, ◌/◌, ◌%◌, ◌<◌, ◌≡◌, refl, ap, Bool, true, false, ◌&&◌, ◌||◌, Option,
  none, some, [], ◌∷◌, ◌++◌, ltb, leb, if◌then◌else◌, Text, all_of, arith, sym, append_assoc,
  append-nil, length, length-append, ◌∙◌, Bool-cases, inl, inr, ◌==◌, nat_eq, ℤ, pos, negsuc, neg_ℤ,
}

digits_fuel : ℕ → ℕ → Text
digits_fuel zero n = []
digits_fuel (suc f) n =
    let rest = digits_fuel f (n / 10) ++ ((48 + n % 10) ∷ []) in
    if ltb n 10 then (48 + n) ∷ [] else rest

-- `str(n)` of a natural number. Each round drops a digit, so `n + 1` rounds are enough.
unfoldable pub show_nat : ℕ → Text
unfolding digits_fuel
show_nat n = digits_fuel (suc n) n

-- `str(n)`
unfoldable pub show_int : ℤ → Text
unfolding show_nat
show_int (pos n) = show_nat n
show_int (negsuc n) = 45 ∷ show_nat (suc n)

abbrev pub is_digit : ℕ → Bool
is_digit c = leb 48 c && leb c 57

-- `str.isspace` of one character.
abbrev pub is_space : ℕ → Bool
is_space c =
    (leb 9 c && leb c 13)
    || (leb 28 c && leb c 32)
    || c == 0x85
    || c == 0xA0
    || c == 0x1680
    || (leb 0x2000 c && leb c 0x200A)
    || c == 0x2028
    || c == 0x2029
    || c == 0x202F
    || c == 0x205F
    || c == 0x3000

unfoldable pub lstrip : Text → Text
lstrip [] = []
lstrip (c ∷ s) = let rest = lstrip s in if is_space c then rest else c ∷ s

abbrev trim_end : ℕ → Text → Text
trim_end c [] = if is_space c then [] else c ∷ []
trim_end c (d ∷ s) = c ∷ d ∷ s

unfoldable pub rstrip : Text → Text
rstrip [] = []
rstrip (c ∷ s) = trim_end c (rstrip s)

-- `s.strip()`
unfoldable pub strip : Text → Text
unfolding lstrip rstrip
strip s = rstrip (lstrip s)

-- The digits of `int(s)`: at least one, with single underscores between them.
unfoldable pub scan_digits : Bool → ℕ → Text → Option ℕ
scan_digits after_digit acc [] = if after_digit then some acc else none
scan_digits after_digit acc (c ∷ s) =
    let on = scan_digits true (acc * 10 + (c - 48)) s in
    let gap = scan_digits false acc s in
    if is_digit c then on else if c == b'_' && after_digit then gap else none

abbrev pub scan_signed : Text → Option ℤ
scan_signed [] = none
scan_signed (c ∷ s) =
    if c == b'-'
    then elim (scan_digits false 0 s) [ none ↦ none | some n ↦ some (neg_ℤ (pos n)) ]
    else if c == b'+'
    then elim (scan_digits false 0 s) [ none ↦ none | some n ↦ some (pos n) ]
    else elim (scan_digits false 0 (c ∷ s)) [ none ↦ none | some n ↦ some (pos n) ]

-- `int(s)`; `none` is the `ValueError`.
unfoldable pub parse_int : Text → Option ℤ
unfolding scan_digits strip
parse_int s = scan_signed (strip s)

scan-digit :
    (p : Bool) (acc d : ℕ) (s : Text)
    → d < 10
    → scan_digits p acc ((48 + d) ∷ s) ≡ scan_digits true (acc * 10 + d) s
unfolding scan_digits
scan-digit p acc d s h = ground arith

scan-digits_fuel :
    (f n : ℕ) (p : Bool) (rest : Text)
    → n < f
    → scan_digits p 0 (digits_fuel f n ++ rest) ≡ scan_digits true n rest
unfolding digits_fuel
scan-digits_fuel zero n p rest h = absurd (omega arith)
scan-digits_fuel (suc f) n p rest h = elim (Bool-cases (ltb n 10)) [
  | inl e ↦
      rw e (scan-digit p 0 n rest (ground arith) ∙ ap (λ m. scan_digits true m rest) (omega arith))
  | inr e ↦
      rw (e, append_assoc (digits_fuel f (n / 10)) ((48 + n % 10) ∷ []) rest)
        (scan-digits_fuel f (n / 10) p ((48 + n % 10) ∷ rest) (ground arith)
          ∙ scan-digit true (n / 10) (n % 10) rest (omega arith)
          ∙ ap (λ m. scan_digits true m rest) (omega arith))
]

abbrev pub IsDigits : Text → Type 0
IsDigits s = all_of is_digit s ≡ true

all_of-append : (s t : Text) → IsDigits s → IsDigits t → IsDigits (s ++ t)
all_of-append [] t h k = k
all_of-append (c ∷ s) t h k = ground (arith, all_of-append s t)

digits_fuel-IsDigits : (f n : ℕ) → IsDigits (digits_fuel f n)
unfolding digits_fuel
digits_fuel-IsDigits zero n = refl
digits_fuel-IsDigits (suc f) n = elim (Bool-cases (ltb n 10)) [
  | inl e ↦ rw e (ground arith)
  | inr e ↦ rw e (
      all_of-append (digits_fuel f (n / 10)) ((48 + n % 10) ∷ []) (digits_fuel-IsDigits f (n / 10))
        (ground arith))
]

trim_end-digit : (c : ℕ) (s : Text) → is_digit c ≡ true → trim_end c s ≡ c ∷ s
trim_end-digit c [] k = ground arith
trim_end-digit c (d ∷ s) k = refl

rstrip-IsDigits : (s : Text) → IsDigits s → rstrip s ≡ s
unfolding rstrip
rstrip-IsDigits [] h = refl
rstrip-IsDigits (c ∷ s) h =
    ap (trim_end c) (rstrip-IsDigits s (ground arith)) ∙ trim_end-digit c s (ground arith)

pub strip-IsDigits : (s : Text) → IsDigits s → strip s ≡ s
unfolding strip
strip-IsDigits [] h = refl
strip-IsDigits (c ∷ s) h = ap rstrip first ∙ rstrip-IsDigits (c ∷ s) h
  where
    first : lstrip (c ∷ s) ≡ c ∷ s
    first = ground arith

strip-minus : (s : Text) → IsDigits s → strip (45 ∷ s) ≡ 45 ∷ s
unfolding strip
strip-minus s h = ap (trim_end 45) (rstrip-IsDigits s h) ∙ kept s
  where
    kept : (s : Text) → trim_end 45 s ≡ 45 ∷ s
    kept [] = refl
    kept (d ∷ t) = refl

scan_signed-IsDigits :
    (s : Text) (n : ℕ) → IsDigits s → scan_digits false 0 s ≡ some n → scan_signed s ≡ some (pos n)
scan_signed-IsDigits [] n h e = unfold scan_digits in cc
scan_signed-IsDigits (c ∷ s) n h e = ground arith

scan_digits-show_nat : (n : ℕ) → scan_digits false 0 (show_nat n) ≡ some n
unfolding show_nat scan_digits
scan_digits-show_nat n =
    ap (scan_digits false 0) (sym (append-nil (digits_fuel (suc n) n)))
    ∙ scan-digits_fuel (suc n) n false [] (omega arith)

pub show_nat-IsDigits : (n : ℕ) → IsDigits (show_nat n)
unfolding show_nat
show_nat-IsDigits n = digits_fuel-IsDigits (suc n) n

-- `int(str(n))` is `n`.
pub parse_int-show_int : (n : ℤ) → parse_int (show_int n) ≡ some n
unfolding parse_int show_int
parse_int-show_int (pos n) =
    ap scan_signed (strip-IsDigits (show_nat n) (show_nat-IsDigits n))
    ∙ scan_signed-IsDigits (show_nat n) n (show_nat-IsDigits n) (scan_digits-show_nat n)
parse_int-show_int (negsuc n) =
    ap scan_signed (strip-minus (show_nat (suc n)) (show_nat-IsDigits (suc n)))
    ∙ negated (scan_digits-show_nat (suc n))
  where
    negated :
        scan_digits false 0 (show_nat (suc n)) ≡ some (suc n)
        → scan_signed (45 ∷ show_nat (suc n)) ≡ some (negsuc n)
    negated e = rw e (ground arith)

-- A number has at least one digit.
pub show_nat_pos : (n : ℕ) → 0 < length (show_nat n)
unfolding show_nat
show_nat_pos n = elim (Bool-cases (ltb n 10)) [
  | inl e ↦ rw e (omega arith)
  | inr e ↦ rw e (omega (arith, length-append (digits_fuel n (n / 10)) ((48 + n % 10) ∷ [])))
]
