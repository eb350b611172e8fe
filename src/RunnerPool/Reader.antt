-- ===== src/RunnerPool/Reader.antt =====
-- `_read_until_done` of sandbox/runner_pool.py reads back the response that sandbox/runner.py writes.
use otari_sandbox_container.Base.{
  ℕ, suc, ◌≡◌, refl, ap, sym, ◌∙◌, Bool, true, false, ◌||◌, Option, none, some, List, [], ◌∷◌, ◌++◌,
  map, Text, Bytes, codes, starts_with, all_of, All, ◌==◌, nat_eq, text_eq, ℤ, pos, negsuc, arith,
  append_assoc, append-nil,
}
use otari_sandbox_container.Utf8.Codec.{encode_chars, decode_replace, is_scalar_text}
use otari_sandbox_container.Utf8.RoundTrip.{decode_replace-encode_chars}
use otari_sandbox_container.Decimal.{
  is_digit, show_nat, show_nat-IsDigits, show_int, parse_int-show_int,
}
use otari_sandbox_container.Runner.{
  sentinel_stdout, sentinel_stdout_end, sentinel_stderr, sentinel_stderr_end,
}
use otari_sandbox_container.Runner.Frames.{done_line}
use otari_sandbox_container.RunnerPool.{
  ExecOutcome, plain_outcome, Section, in_stdout, in_stderr, ReadState, rstrip_newlines,
  section_text, next, outcome, read_step, ReadEvent, line, done, read_until_done, done_prefix,
  on_stripped, trim_newline,
}
use otari_sandbox_container.RunnerPool.Lines.{no_newline}

-- The lines that end a section or begin one, and the done line.
unfoldable pub is_sentinel : Text → Bool
is_sentinel l =
    let stripped = rstrip_newlines l in
    stripped == sentinel_stdout
    || stripped == sentinel_stdout_end
    || stripped == sentinel_stderr
    || stripped == sentinel_stderr_end
    || starts_with stripped done_prefix

abbrev pub IsPlain : Text → Type 0
IsPlain l = (is_sentinel l ≡ false) × (is_scalar_text l ≡ true)

-- A line that is dropped outside a section.
abbrev pub IsIgnored : Bytes → Type 0
IsIgnored l = is_sentinel (decode_replace l) ≡ false

-- The events of a stream that brings these lines.
abbrev pub events : List Text → List ReadEvent
events = map (λ l. line (encode_chars l))

read_step-plain :
    (s : ReadState) (l : Text)
    → is_sentinel l ≡ false
    → read_step s l ≡ elim s.in_section [
      | none ↦ next s
      | some _ ↦ next (record s { section_buf = s.section_buf ++ l ∷ [] })
    ]
unfolding read_step is_sentinel
read_step-plain s l h = ground arith

-- One line that leads to another state.
pub read_next :
    (s s' : ReadState) (l : Text) (es : List ReadEvent)
    → is_scalar_text l ≡ true
    → read_step s l ≡ next s'
    → read_until_done s (line (encode_chars l) ∷ es) ≡ read_until_done s' es
unfolding read_until_done
read_next s s' l es scalar h = rw (decode_replace-encode_chars l scalar, h, read_until_done) refl

pub read_outcome :
    (s : ReadState) (o : ExecOutcome) (l : Text) (es : List ReadEvent)
    → is_scalar_text l ≡ true
    → read_step s l ≡ outcome o
    → read_until_done s (line (encode_chars l) ∷ es) ≡ (done o, es)
unfolding read_until_done
read_outcome s o l es scalar h = rw (decode_replace-encode_chars l scalar, h, read_until_done) refl

rstrip-newline : (t : Text) → no_newline t ≡ true → rstrip_newlines (t ++ 10 ∷ []) ≡ t
unfolding rstrip_newlines
rstrip-newline [] h = refl
rstrip-newline (c ∷ t) h =
    ap (trim_newline c) (rstrip-newline t (ground arith)) ∙ kept c t (ground arith)
  where
    kept : (c : ℕ) (t : Text) → (c == 10) ≡ false → trim_newline c t ≡ c ∷ t
    kept c [] e = rw e refl
    kept c (d ∷ t) e = refl

digits-no_newline : (s : Text) → all_of is_digit s ≡ true → no_newline s ≡ true
digits-no_newline [] h = refl
digits-no_newline (c ∷ s) h = ground (arith, digits-no_newline s)

pub show_int-no_newline : (n : ℤ) → no_newline (show_int n) ≡ true
unfolding show_int
show_int-no_newline (pos n) = digits-no_newline (show_nat n) (show_nat-IsDigits n)
show_int-no_newline (negsuc n) = digits-no_newline (show_nat (suc n)) (show_nat-IsDigits (suc n))

pub rstrip-done_line : (code : ℤ) → rstrip_newlines (done_line code) ≡ done_prefix ++ show_int code
rstrip-done_line code = rstrip-newline (done_prefix ++ show_int code) (show_int-no_newline code)

module _ (out err : Text) where
  abbrev pub outside : List Text → ReadState
  outside buf = record {
    stdout_text = out;
    stderr_text = err;
    in_section = none;
    section_buf = buf;
  }

  abbrev pub inside : Section → List Text → ReadState
  inside k buf = record {
    stdout_text = out;
    stderr_text = err;
    in_section = some k;
    section_buf = buf;
  }

  -- Lines outside a section are dropped.
  pub read_noise :
      (buf : List Text) (ls : List Bytes) (es : List ReadEvent)
      → All IsIgnored ls
      → read_until_done (outside buf) (map line ls ++ es) ≡ read_until_done (outside buf) es
  unfolding read_until_done
  read_noise buf [] es h = refl
  read_noise buf (l ∷ ls) es h =
      rw (read_step-plain (outside buf) (decode_replace l) h.0, read_until_done)
        (read_noise buf ls es h.1)

  -- Lines inside a section are kept.
  pub read_section :
      (k : Section) (buf ls : List Text) (es : List ReadEvent)
      → All IsPlain ls
      → read_until_done (inside k buf) (events ls ++ es) ≡ read_until_done (inside k (buf ++ ls)) es
  read_section k buf [] es h = ap (λ b. read_until_done (inside k b) es) (sym (append-nil buf))
  read_section k buf (l ∷ ls) es h =
      read_next (inside k buf) (inside k (buf ++ l ∷ [])) l (events ls ++ es) h.0.1
        (read_step-plain (inside k buf) l h.0.0)
      ∙ read_section k (buf ++ l ∷ []) ls es h.1
      ∙ ap (λ b. read_until_done (inside k b) es) (append_assoc buf (l ∷ []) ls)

  pub opens_stdout :
      (buf : List Text)
      → read_step (outside buf) (sentinel_stdout ++ codes "\n") ≡ next (inside in_stdout [])
  unfolding read_step rstrip_newlines text_eq starts_with
  opens_stdout buf = refl

  pub closes_stdout :
      (buf : List Text)
      → read_step (inside in_stdout buf) (sentinel_stdout_end ++ codes "\n")
        ≡ next (record (outside buf) { stdout_text = section_text buf })
  unfolding read_step rstrip_newlines text_eq starts_with
  closes_stdout buf = refl

  pub opens_stderr :
      (buf : List Text)
      → read_step (outside buf) (sentinel_stderr ++ codes "\n") ≡ next (inside in_stderr [])
  unfolding read_step rstrip_newlines text_eq starts_with
  opens_stderr buf = refl

  pub closes_stderr :
      (buf : List Text)
      → read_step (inside in_stderr buf) (sentinel_stderr_end ++ codes "\n")
        ≡ next (record (outside buf) { stderr_text = section_text buf })
  unfolding read_step rstrip_newlines text_eq starts_with
  closes_stderr buf = refl

  pub reads_done :
      (buf : List Text) (code : ℤ)
      → read_step (outside buf) (done_line code) ≡ outcome (plain_outcome out err code)
  unfolding read_step
  reads_done buf code =
      ap (on_stripped (outside buf) (done_line code)) (rstrip-done_line code)
      ∙ unfold text_eq starts_with in
        ap
          (λ (r : Option ℤ).
            outcome (plain_outcome out err (elim r [ none ↦ negsuc 0 | some n ↦ n ])))
          (parse_int-show_int code)
