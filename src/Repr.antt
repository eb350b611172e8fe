-- ===== src/Repr.antt =====
-- Python's `repr` of a string, as the `!r` of the f-strings in sandbox/runner.py and
-- sandbox/platform_tools.py calls it. Which characters past ASCII are printable is a parameter.
use otari_sandbox_container.Base.{
  ℕ, zero, suc, ◌+◌, ◌/◌, ◌%◌, ◌^◌, Bool, false, not, ◌&&◌, ◌||◌, [], ◌∷◌, ◌++◌, ltb, leb,
  if◌then◌else◌, Text, ◌==◌, nat_eq,
}

-- A digit of base 16 in lower case.
abbrev pub hex_digit : ℕ → ℕ
hex_digit d = if ltb d 10 then 48 + d else 87 + d

-- `n` with `k` digits of base 16.
unfoldable pub hex : ℕ → ℕ → Text
hex zero n = []
hex (suc k) n = hex_digit (n / 16 ^ k % 16) ∷ hex k n

unfoldable pub has_char : ℕ → Text → Bool
has_char c [] = false
has_char c (d ∷ s) = d == c || has_char c s

module _ (printable : ℕ → Bool) where
  repr_char : ℕ → ℕ → Text
  unfolding hex
  repr_char quote c =
      if c == quote || c == 92
      then 92 ∷ c ∷ []
      else if c == 9
      then 92 ∷ b't' ∷ []
      else if c == 10
      then 92 ∷ b'n' ∷ []
      else if c == 13
      then 92 ∷ b'r' ∷ []
      else if (leb 32 c && ltb c 127) || (leb 128 c && printable c)
      then c ∷ []
      else if ltb c 0x100
      then 92 ∷ b'x' ∷ hex 2 c
      else if ltb c 0x10000
      then 92 ∷ b'u' ∷ hex 4 c
      else 92 ∷ b'U' ∷ hex 8 c

  repr_chars : ℕ → Text → Text
  unfolding repr_char
  repr_chars quote [] = quote ∷ []
  repr_chars quote (c ∷ s) = repr_char quote c ++ repr_chars quote s

  -- Single quotes, unless the text has one and no double quote.
  unfoldable pub repr : Text → Text
  unfolding has_char repr_chars
  repr s =
      let quote : ℕ = if has_char 39 s && not (has_char 34 s) then 34 else 39 in
      quote ∷ repr_chars quote s
