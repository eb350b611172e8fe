-- ===== src/Logging/Lines.antt =====
-- The JSON lines of sandbox/logging_config.py, read back.
use otari_sandbox_container.Base.{
  ℕ, zero, suc, ◌+◌, ◌<◌, ◌≤◌, ◌≡◌, refl, ap, sym, ◌∙◌, Bool, true, not, ◌&&◌, ◌||◌, Option, none,
  some, [], ◌∷◌, ◌++◌, if◌then◌else◌, all_of, leb, ltb, nat_beq, Text, codes, length, text_eq,
  arith, Bool-cases, if_both, ◌-◌, ◌/◌, ◌%◌, inl, inr,
}
use otari_sandbox_container.Base.Dict.{Dict, insert}
use otari_sandbox_container.Repr.{hex, hex_digit}
use otari_sandbox_container.PlatformTools.Lexer.{
  plain, Runs, then_, prepend-nil, read_from, read_literal,
}
use otari_sandbox_container.PlatformTools.Literals.{
  unit_escape, escape-Runs, kept-Runs, read_literal-Runs,
}
use otari_sandbox_container.Logging.{
  LogRecord, JsonLogFormatter, base_event, event_of, with_text, json_char, json_chars, json_members,
  format,
}

json_char-Runs : (c : ℕ) → Runs plain (json_char c) (c ∷ []) plain
json_char-Runs c = elim (Bool-cases (leb 32 c && not (nat_beq c 34 || nat_beq c 92))) [
  | inl e ↦ rw e (kept-Runs c e)
  | inr e ↦ rw e (escape-Runs c (ground arith))
]

json_chars-Runs : (s : Text) → Runs plain (json_chars s) s plain
json_chars-Runs [] = λ r. sym (prepend-nil (read_from plain r))
json_chars-Runs (c ∷ s) =
    then_ plain plain plain (json_char c) (json_chars s) (c ∷ []) s (json_char-Runs c)
      (json_chars-Runs s)

-- A string literal behind a character that introduces it, and what follows.
abbrev on_literal : {A : Type 0} → Option (Text × Text) → (Text → Text → Option A) → Option A
on_literal none f = none
on_literal (some (s, rest)) f = f s rest

abbrev expect : {A : Type 0} → ℕ → Text → (Text → Option A) → Option A
expect c [] f = none
expect c (d ∷ s) f = if nat_beq d c then f s else none

abbrev add_pair : Text → Text → Option (Dict Text Text) → Option (Dict Text Text)
add_pair k v none = none
add_pair k v (some d) = some ((k, v) ∷ d)

-- Behind a member: a comma and further members, or the closing brace at the end of the text.
abbrev finish : (Text → Option (Dict Text Text)) → Text → Option (Dict Text Text)
finish more [] = none
finish more (c ∷ t) =
    if nat_beq c 44 then more t else if nat_beq c 125 && nat_beq (length t) 0 then some [] else none

-- A reader of flat objects of strings, behind the opening brace, for at most so many members.
unfoldable pub read_members : ℕ → Text → Option (Dict Text Text)
read_members zero s = none
read_members (suc n) s = on_literal (read_literal s) (λ k t.
    expect 58 t
      (λ t. on_literal (read_literal t) (λ v t. add_pair k v (finish (read_members n) t))))

-- One line of the log, as an object with at most so many members.
unfoldable pub read_event : ℕ → Text → Option (Dict Text Text)
read_event n [] = none
read_event n (c ∷ s) = if nat_beq c 123 then read_members n s else none

-- A member, and what stands behind its value.
abbrev member : Text → Text → Text → Text
member k v t = 34 ∷ (json_chars k ++ 34 ∷ 58 ∷ 34 ∷ (json_chars v ++ 34 ∷ t))

read_members-member :
    (n : ℕ) (k v t : Text) (event : Dict Text Text)
    → finish (read_members n) t ≡ some event
    → read_members (suc n) (member k v t) ≡ some ((k, v) ∷ event)
unfolding read_members
read_members-member n k v t event h =
    ap
      (λ o. on_literal o (λ k t.
        expect 58 t
          (λ t. on_literal (read_literal t) (λ v t. add_pair k v (finish (read_members n) t)))))
      (read_literal-Runs (json_chars k) k (58 ∷ 34 ∷ (json_chars v ++ 34 ∷ t)) (json_chars-Runs k))
    ∙ ap (λ o. on_literal o (λ v t. add_pair k v (finish (read_members n) t)))
        (read_literal-Runs (json_chars v) v t (json_chars-Runs v))
    ∙ ap (add_pair k v) h

read_members-json_members :
    (n : ℕ) (p : Text × Text) (event : Dict Text Text)
    → length event < n
    → read_members n (json_members (p ∷ event)) ≡ some (p ∷ event)
unfolding json_members
read_members-json_members zero p event h = absurd (omega arith)
read_members-json_members (suc n) (k, v) [] h = read_members-member n k v (codes "}") [] refl
read_members-json_members (suc n) (k, v) (q ∷ event) h =
    read_members-member n k v (44 ∷ json_members (q ∷ event)) (q ∷ event)
      (read_members-json_members n q event (omega arith))

-- No character below U+0020. DEL and the control characters from U+0080 on, the line break U+0085 among
-- them, are not escaped by `json.dumps` with `ensure_ascii=False`, and may be in it.
abbrev pub without_c0 : Text → Bool
without_c0 s = all_of (λ c. leb 32 c) s

without_c0-append :
    (s t : Text) → without_c0 s ≡ true → without_c0 t ≡ true → without_c0 (s ++ t) ≡ true
without_c0-append [] t h k = k
without_c0-append (c ∷ s) t h k = ground (arith, without_c0-append s t)

hex_digit-without_c0 : (d : ℕ) → leb 32 (hex_digit d) ≡ true
hex_digit-without_c0 d = ground arith

unit_escape-without_c0 : (n : ℕ) → without_c0 (unit_escape n) ≡ true
unfolding hex
unit_escape-without_c0 n =
    rw
      (
        hex_digit-without_c0 (n / 4096 % 16),
        hex_digit-without_c0 (n / 256 % 16),
        hex_digit-without_c0 (n / 16 % 16),
        hex_digit-without_c0 (n / 1 % 16),
      )
      refl

json_char-without_c0 : (c : ℕ) → without_c0 (json_char c) ≡ true
json_char-without_c0 c =
    if_both P (leb 32 c && not (nat_beq c 34 || nat_beq c 92)) _ _ (λ e. ground arith)
      (λ e.
        if_both P (leb 32 c && leb c 126 && not (nat_beq c 34 || nat_beq c 92)) _ _
          (λ e. ground arith)
          (λ e.
            if_both P (nat_beq c 34) _ _ (λ e. refl)
              (λ e.
                if_both P (nat_beq c 92) _ _ (λ e. refl)
                  (λ e.
                    if_both P (nat_beq c 10) _ _ (λ e. refl)
                      (λ e.
                        if_both P (nat_beq c 13) _ _ (λ e. refl)
                          (λ e.
                            if_both P (nat_beq c 9) _ _ (λ e. refl)
                              (λ e.
                                if_both P (nat_beq c 8) _ _ (λ e. refl)
                                  (λ e.
                                    if_both P (nat_beq c 12) _ _ (λ e. refl)
                                      (λ e.
                                        if_both P (ltb c 0x10000) _ _
                                          (λ e. unit_escape-without_c0 c)
                                          (λ e.
                                            without_c0-append
                                              (unit_escape (0xD800 + (c - 0x10000) / 1024))
                                              (unit_escape (0xDC00 + (c - 0x10000) % 1024))
                                              (unit_escape-without_c0
                                                (0xD800 + (c - 0x10000) / 1024))
                                              (unit_escape-without_c0
                                                (0xDC00 + (c - 0x10000) % 1024))))))))))))
  where
    P : Text → Type 0
    P t = without_c0 t ≡ true

json_chars-without_c0 : (s : Text) → without_c0 (json_chars s) ≡ true
json_chars-without_c0 [] = refl
json_chars-without_c0 (c ∷ s) =
    without_c0-append (json_char c) (json_chars s) (json_char-without_c0 c)
      (json_chars-without_c0 s)

member-without_c0 : (k v t : Text) → without_c0 t ≡ true → without_c0 (member k v t) ≡ true
member-without_c0 k v t h =
    without_c0-append (json_chars k) (34 ∷ 58 ∷ 34 ∷ (json_chars v ++ 34 ∷ t))
      (json_chars-without_c0 k)
      (without_c0-append (json_chars v) (34 ∷ t) (json_chars-without_c0 v) h)

json_members-without_c0 : (event : Dict Text Text) → without_c0 (json_members event) ≡ true
unfolding json_members
json_members-without_c0 [] = refl
json_members-without_c0 ((k, v) ∷ []) = member-without_c0 k v (codes "}") refl
json_members-without_c0 ((k, v) ∷ q ∷ event) =
    member-without_c0 k v (44 ∷ json_members (q ∷ event)) (json_members-without_c0 (q ∷ event))

insert-positive : (k v : Text) (d : Dict Text Text) → 0 < length (insert k v d)
unfolding insert
insert-positive k v [] = omega arith
insert-positive k v ((j, w) ∷ d) = ground arith

with_text-positive :
    (k : Text) (o : Option Text) (d : Dict Text Text) → 0 < length d → 0 < length (with_text k o d)
unfolding with_text
with_text-positive k none d h = h
with_text-positive k (some t) d h = insert-positive k t d

event_of-positive : (f : JsonLogFormatter) (r : LogRecord) → 0 < length (event_of f r)
unfolding event_of
event_of-positive f r =
    let base : 0 < length (base_event f r) = omega arith in
    with_text-positive (codes "exception") r.exception _ (
      with_text-positive (codes "trace_flags") _ _
        (with_text-positive (codes "span_id") _ _ (with_text-positive (codes "trace_id") _ _ base)))

read_members-event :
    (n : ℕ) (event : Dict Text Text)
    → 0 < length event
    → length event ≤ n
    → read_members n (json_members event) ≡ some event
read_members-event n [] p h = absurd (omega arith)
read_members-event n (q ∷ event) p h = read_members-json_members n q event (omega arith)

-- Whatever the record and the formatter: each character of the line is U+0020 or above, so it has no
-- newline and no carriage return, also where a text of the record has one; and a reader of JSON objects
-- gets the event back, each text as it was. The reader
-- is given at least as many rounds as the event has members.
pub read_event-format :
    (f : JsonLogFormatter) (r : LogRecord) (n : ℕ)
    → length (event_of f r) ≤ n
    → (without_c0 (format f r) ≡ true) × (read_event n (format f r) ≡ some (event_of f r))
unfolding format read_event
read_event-format f r n h = (
  json_members-without_c0 (event_of f r),
  read_members-event n (event_of f r) (event_of-positive f r) h,
)
