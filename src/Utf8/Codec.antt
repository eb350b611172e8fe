-- ===== src/Utf8/Codec.antt =====
-- The UTF-8 codec: `str.encode("utf-8")`, `bytes.decode("utf-8")` and the decoder with
-- `errors="replace"`, which sandbox/limits.py, runner.py, runner_pool.py and bash.py call.
use otari_sandbox_container.Base.{
  ℕ, zero, suc, ◌+◌, ◌-◌, ◌*◌, ◌/◌, ◌%◌, Bool, ◌&&◌, ◌||◌, Option, none, some, List, [], ◌∷◌, ◌++◌,
  ltb, leb, if◌then◌else◌, Text, Bytes, all_of, ◌==◌, nat_eq,
}

-- A code point that a UTF-8 text can hold: no surrogate, and below 0x110000.
abbrev pub is_scalar : ℕ → Bool
is_scalar c = ltb c 0xD800 || (leb 0xE000 c && ltb c 0x110000)

abbrev pub is_scalar_text : Text → Bool
is_scalar_text = all_of is_scalar

unfoldable pub encode_char : ℕ → Bytes
encode_char c =
    if ltb c 0x80
    then c ∷ []
    else if ltb c 0x800
    then (0xC0 + c / 64) ∷ (0x80 + c % 64) ∷ []
    else if ltb c 0x10000
    then (0xE0 + c / 4096) ∷ (0x80 + c / 64 % 64) ∷ (0x80 + c % 64) ∷ []
    else (0xF0 + c / 262144) ∷ (0x80 + c / 4096 % 64) ∷ (0x80 + c / 64 % 64) ∷ (0x80 + c % 64) ∷ []

unfoldable pub encode_chars : Text → Bytes
encode_chars [] = []
encode_chars (c ∷ s) = encode_char c ++ encode_chars s

-- `s.encode("utf-8")`; `none` is the `UnicodeEncodeError` of a surrogate.
abbrev pub encode : Text → Option Bytes
encode s = if is_scalar_text s then some (encode_chars s) else none

-- What the decoder waits for: a first byte, or, after a valid beginning, a byte from `lo` to `hi`
-- with `left` more to follow it.
pub data Decoder : Type 0 where
  start : Decoder
  more : (left acc lo hi : ℕ) → Decoder

-- A decoded code point, or `none` for one decoding error.
abbrev pub Emits : Type 0
Emits = List (Option ℕ)

unfoldable pub decode_first : ℕ → Emits × Decoder
decode_first b =
    if ltb b 0x80
    then (some b ∷ [], start)
    else if ltb b 0xC2
    then (none ∷ [], start)
    else if ltb b 0xE0
    then ([], more 0 (b - 0xC0) 0x80 0xBF)
    else if ltb b 0xF0
    then (
      [],
      more 1 (b - 0xE0) (if b == 0xE0 then 0xA0 else 0x80) (if b == 0xED then 0x9F else 0xBF),
    )
    else if ltb b 0xF5
    then (
      [],
      more 2 (b - 0xF0) (if b == 0xF0 then 0x90 else 0x80) (if b == 0xF4 then 0x8F else 0xBF),
    )
    else (none ∷ [], start)

abbrev pub after_error : Emits × Decoder → Emits × Decoder
after_error (out, d) = (none ∷ out, d)

-- A byte that cannot go on ends the sequence with one error and is read again as a first byte.
unfoldable pub decode_next : Decoder → ℕ → Emits × Decoder
unfolding decode_first
decode_next start b = decode_first b
decode_next (more zero acc lo hi) b =
    if leb lo b && leb b hi
    then (some (acc * 64 + (b - 0x80)) ∷ [], start)
    else after_error (decode_first b)
decode_next (more (suc n) acc lo hi) b =
    if leb lo b && leb b hi
    then ([], more n (acc * 64 + (b - 0x80)) 0x80 0xBF)
    else after_error (decode_first b)

abbrev pub decode_end : Decoder → Emits
decode_end start = []
decode_end (more n acc lo hi) = none ∷ []

unfoldable pub decode_from : Decoder → Bytes → Emits
unfolding decode_next
decode_from d [] = decode_end d
decode_from d (b ∷ bs) = (decode_next d b).0 ++ decode_from (decode_next d b).1 bs

abbrev pub replacement : ℕ
replacement = 0xFFFD

unfoldable pub replaced : Emits → Text
replaced [] = []
replaced (none ∷ es) = replacement ∷ replaced es
replaced (some c ∷ es) = c ∷ replaced es

-- `b.decode("utf-8", errors="replace")`
unfoldable pub decode_replace : Bytes → Text
unfolding decode_from replaced
decode_replace bs = replaced (decode_from start bs)

abbrev pub strict : Emits → Option Text
strict [] = some []
strict (none ∷ es) = none
strict (some c ∷ es) = elim (strict es) [ none ↦ none | some s ↦ some (c ∷ s) ]

-- `b.decode("utf-8")`; `none` is the `UnicodeDecodeError`.
unfoldable pub decode : Bytes → Option Text
unfolding decode_from
decode bs = strict (decode_from start bs)
