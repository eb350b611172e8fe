-- ===== src/PlatformTools/Literals.antt =====
-- The literals that sandbox/platform_tools.py writes with `json.dumps`, read as Python string literals.
use otari_sandbox_container.Base.{
  ℕ, ◌+◌, ◌-◌, ◌*◌, ◌/◌, ◌%◌, ◌<◌, ◌≤◌, ◌≡◌, refl, ap, sym, ◌∙◌, true, not, ◌&&◌, ◌||◌, some, [],
  ◌∷◌, ◌++◌, all_of, if◌then◌else◌, leb, ltb, nat_beq, Text, codes, arith, append_assoc, append-nil,
  Bool-cases, inl, inr,
}
use otari_sandbox_container.Repr.{hex, hex_digit}
use otari_sandbox_container.PlatformTools.Lexer.{
  hex_value, digit_step, step, prepend, read_from, read_literal, Runs, prepend-nil, one, then_,
  plain, escaped, digits, emit,
}

-- The escape of a UTF-16 unit.
abbrev pub unit_escape : ℕ → Text
unit_escape n = codes "\\u" ++ hex 4 n

abbrev pub escape : ℕ → Text
escape c =
    if leb 32 c && leb c 126 && not (nat_beq c 34 || nat_beq c 92)
    then c ∷ []
    else if nat_beq c 34
    then codes "\\\""
    else if nat_beq c 92
    then codes "\\\\"
    else if nat_beq c 10
    then codes "\\n"
    else if nat_beq c 13
    then codes "\\r"
    else if nat_beq c 9
    then codes "\\t"
    else if nat_beq c 8
    then codes "\\b"
    else if nat_beq c 12
    then codes "\\f"
    else if ltb c 0x10000
    then unit_escape c
    else unit_escape (0xD800 + (c - 0x10000) / 1024) ++ unit_escape (0xDC00 + (c - 0x10000) % 1024)

abbrev escapes : Text → Text
escapes [] = []
escapes (c ∷ s) = escape c ++ escapes s

-- `json.dumps(s)` for a string.
unfoldable pub json_dumps : Text → Text
unfolding hex
json_dumps s = 34 ∷ (escapes s ++ 34 ∷ [])

hex_value-hex_digit : (d : ℕ) → d < 16 → hex_value (hex_digit d) ≡ some d
hex_value-hex_digit d h = ground arith

digit_of : (n acc d : ℕ) → d < 16 → step (digits n acc) (hex_digit d) ≡ digit_step n acc (some d)
unfolding step
digit_of n acc d h = ap (digit_step n acc) (hex_value-hex_digit d h)

backslash : Runs plain (92 ∷ []) [] escaped
backslash = one plain escaped 92 [] (unfold step in refl)

-- A backslash and a letter.
short : (x k : ℕ) → step escaped x ≡ emit (k ∷ []) plain → Runs plain (92 ∷ x ∷ []) (k ∷ []) plain
short x k h =
    then_ plain escaped plain (92 ∷ []) (x ∷ []) [] (k ∷ []) backslash
      (one escaped plain x (k ∷ []) h)

unit_value :
    (n : ℕ)
    → n < 0x10000
    → (((0 * 16 + n / 4096 % 16) * 16 + n / 256 % 16) * 16 + n / 16 % 16) * 16 + n / 1 % 16 ≡ n
unit_value n h = omega arith

four_digits :
    (a b c d : ℕ)
    → a < 16
    → b < 16
    → c < 16
    → d < 16
    → Runs
        (digits 3 0)
        (hex_digit a ∷ hex_digit b ∷ hex_digit c ∷ hex_digit d ∷ [])
        (((((0 * 16 + a) * 16 + b) * 16 + c) * 16 + d) ∷ [])
        plain
four_digits a b c d ha hb hc hd =
    let p = 0 * 16 + a in
    let q = p * 16 + b in
    let s = q * 16 + c in
    let out = (s * 16 + d) ∷ [] in
    then_ (digits 3 0) (digits 2 p) plain (hex_digit a ∷ [])
      (hex_digit b ∷ hex_digit c ∷ hex_digit d ∷ []) [] out
      (one (digits 3 0) (digits 2 p) (hex_digit a) [] (digit_of 3 0 a ha))
      (then_ (digits 2 p) (digits 1 q) plain (hex_digit b ∷ []) (hex_digit c ∷ hex_digit d ∷ []) []
        out (one (digits 2 p) (digits 1 q) (hex_digit b) [] (digit_of 2 p b hb))
        (then_ (digits 1 q) (digits 0 s) plain (hex_digit c ∷ []) (hex_digit d ∷ []) [] out
          (one (digits 1 q) (digits 0 s) (hex_digit c) [] (digit_of 1 q c hc))
          (one (digits 0 s) plain (hex_digit d) out (digit_of 0 s d hd))))

unit_escape-Runs : (n : ℕ) → n < 0x10000 → Runs plain (unit_escape n) (n ∷ []) plain
unfolding hex
unit_escape-Runs n h =
    let a = n / 4096 % 16 in
    let b = n / 256 % 16 in
    let c = n / 16 % 16 in
    let d = n / 1 % 16 in
    let ds : Text = hex_digit a ∷ hex_digit b ∷ hex_digit c ∷ hex_digit d ∷ [] in
    let value = (((0 * 16 + a) * 16 + b) * 16 + c) * 16 + d in
    let head : Runs plain (92 ∷ 117 ∷ []) [] (digits 3 0) =
      then_ plain escaped (digits 3 0) (92 ∷ []) (117 ∷ []) [] [] backslash
        (one escaped (digits 3 0) 117 [] (unfold step in refl)) in
    let all : Runs plain (92 ∷ 117 ∷ ds) (value ∷ []) plain =
      then_ plain (digits 3 0) plain (92 ∷ 117 ∷ []) ds [] (value ∷ []) head
        (four_digits a b c d (omega arith) (omega arith) (omega arith) (omega arith)) in
    λ r. all r ∙ ap (λ v. prepend (v ∷ []) (read_from plain r)) (unit_value n h)

as_short :
    (c x k : ℕ)
    → c ≡ k
    → step escaped x ≡ emit (k ∷ []) plain
    → escape k ≡ 92 ∷ x ∷ []
    → Runs plain (escape c) (c ∷ []) plain
as_short c x k p h e = rw (p, e) (short x k h)

pub escape-Runs : (c : ℕ) → c < 0x10000 → Runs plain (escape c) (c ∷ []) plain
unfolding step
escape-Runs c bmp =
    elim (Bool-cases (leb 32 c && leb c 126 && not (nat_beq c 34 || nat_beq c 92))) [
      | inl e ↦ rw e (one plain plain c (c ∷ []) (ground arith))
      | inr e ↦ elim (Bool-cases (nat_beq c 34)) [
        | inl p ↦ as_short c 34 34 (ground arith) refl refl
        | inr n34 ↦ elim (Bool-cases (nat_beq c 92)) [
          | inl p ↦ as_short c 92 92 (ground arith) refl refl
          | inr n92 ↦ elim (Bool-cases (nat_beq c 10)) [
            | inl p ↦ as_short c b'n' 10 (ground arith) refl refl
            | inr n10 ↦ elim (Bool-cases (nat_beq c 13)) [
              | inl p ↦ as_short c b'r' 13 (ground arith) refl refl
              | inr n13 ↦ elim (Bool-cases (nat_beq c 9)) [
                | inl p ↦ as_short c b't' 9 (ground arith) refl refl
                | inr n9 ↦ elim (Bool-cases (nat_beq c 8)) [
                  | inl p ↦ as_short c b'b' 8 (ground arith) refl refl
                  | inr n8 ↦ elim (Bool-cases (nat_beq c 12)) [
                    | inl p ↦ as_short c b'f' 12 (ground arith) refl refl
                    | inr n12 ↦
                        let small : ltb c 0x10000 ≡ true = ground arith in
                        rw (e, n34, n92, n10, n13, n9, n8, n12) (rw small (unit_escape-Runs c bmp))
                  ]
                ]
              ]
            ]
          ]
        ]
      ]
    ]

escapes-Runs : (s : Text) → all_of (λ c. ltb c 0x10000) s ≡ true → Runs plain (escapes s) s plain
escapes-Runs [] h = λ r. sym (prepend-nil (read_from plain r))
escapes-Runs (c ∷ s) h =
    then_ plain plain plain (escape c) (escapes s) (c ∷ []) s (escape-Runs c (ground arith))
      (escapes-Runs s (ground arith))

closing : (rest : Text) → read_from plain (34 ∷ rest) ≡ some ([], rest)
unfolding read_from step
closing rest = refl

ended : (s rest : Text) → prepend s (read_from plain (34 ∷ rest)) ≡ some (s, rest)
ended s rest = ap (prepend s) (closing rest) ∙ ap (λ x. some (x, rest)) (append-nil s)

-- A character that stands for itself.
pub kept-Runs :
    (c : ℕ)
    → (leb 32 c && not (nat_beq c 34 || nat_beq c 92)) ≡ true
    → Runs plain (c ∷ []) (c ∷ []) plain
unfolding step
kept-Runs c h = one plain plain c (c ∷ []) (ground arith)

-- A literal whose characters are read as a text.
pub read_literal-Runs :
    (t s rest : Text) → Runs plain t s plain → read_literal (34 ∷ (t ++ 34 ∷ rest)) ≡ some (s, rest)
unfolding read_literal
read_literal-Runs t s rest h = h (34 ∷ rest) ∙ ended s rest

-- For a text of code points below 0x10000, the literal that `json.dumps` writes is read as one Python
-- string literal with that text as its value, and what follows it is left: no character of the text,
-- a quote, a backslash or a newline included, ends the literal.
pub read_literal-json_dumps :
    (s rest : Text)
    → all_of (λ c. ltb c 0x10000) s ≡ true
    → read_literal (json_dumps s ++ rest) ≡ some (s, rest)
unfolding read_literal json_dumps
read_literal-json_dumps s rest h =
    ap (read_from plain) (append_assoc (escapes s) (34 ∷ []) rest)
    ∙ escapes-Runs s h (34 ∷ rest)
    ∙ ended s rest

astral :
    (c : ℕ)
    → 0x10000 ≤ c
    → escape c
      ≡ unit_escape (0xD800 + (c - 0x10000) / 1024) ++ unit_escape (0xDC00 + (c - 0x10000) % 1024)
astral c lo = ground arith

-- A character past 0xFFFF is written as two escapes, for the halves of its UTF-16 pair, and the Python
-- literal has these two code points as its value instead of the character.
pub read_literal-json_dumps_astral :
    (c : ℕ) (rest : Text)
    → 0x10000 ≤ c
    → c < 0x110000
    → read_literal (json_dumps (c ∷ []) ++ rest)
      ≡ some ((0xD800 + (c - 0x10000) / 1024) ∷ (0xDC00 + (c - 0x10000) % 1024) ∷ [], rest)
unfolding read_literal json_dumps
read_literal-json_dumps_astral c rest lo hi =
    let high = 0xD800 + (c - 0x10000) / 1024 in
    let low = 0xDC00 + (c - 0x10000) % 1024 in
    let both : Runs plain (escape c) (high ∷ low ∷ []) plain = rw (astral c lo) (
      then_ plain plain plain (unit_escape high) (unit_escape low) (high ∷ []) (low ∷ [])
        (unit_escape-Runs high (omega arith)) (unit_escape-Runs low (omega arith))) in
    ap (λ t. read_from plain ((t ++ 34 ∷ []) ++ rest)) (append-nil (escape c))
    ∙ ap (read_from plain) (append_assoc (escape c) (34 ∷ []) rest)
    ∙ both (34 ∷ rest)
    ∙ ended (high ∷ low ∷ []) rest
