-- ===== src/RunnerPool/RoundTrip.antt =====
-- A response of sandbox/runner.py, read by sandbox/runner_pool.py.
use otari_sandbox_container.Base.{
  ◌≡◌, refl, ap, ◌∙◌, true, List, [], ◌∷◌, ◌++◌, map, if◌then◌else◌, Text, Bytes, codes,
  ends_with_newline, drop_last, All, nat_eq, ℤ, append_assoc, Bool-cases, inl, inr,
}
use otari_sandbox_container.Utf8.Codec.{encode_chars}
use otari_sandbox_container.Decimal.{show_int}
use otari_sandbox_container.Runner.{
  sentinel_stdout, sentinel_stdout_end, sentinel_stderr, sentinel_stderr_end,
}
use otari_sandbox_container.Runner.Frames.{response, frame, done_line, terminated, done_line-scalar}
use otari_sandbox_container.RunnerPool.{
  plain_outcome, in_stdout, in_stderr, initial_read, section_text, ReadEvent, line, done,
  read_until_done, done_prefix,
}
use otari_sandbox_container.RunnerPool.Lines.{
  split_lines, no_newline, split_lines-line, split_lines-terminated, join-split_lines,
  split_lines-encode_chars,
}
use otari_sandbox_container.RunnerPool.Reader.{
  IsPlain, IsIgnored, events, outside, inside, read_next, read_outcome, read_noise, read_section,
  opens_stdout, closes_stdout, opens_stderr, closes_stderr, reads_done, show_int-no_newline,
}

-- The text without the newline at its end, if it has one.
abbrev pub unframed : Text → Text
unframed t = if ends_with_newline t then drop_last t else t

newline_at_end : (t : Text) → ends_with_newline (t ++ codes "\n") ≡ true
newline_at_end [] = refl
newline_at_end (c ∷ []) = refl
newline_at_end (c ∷ d ∷ t) = newline_at_end (d ∷ t)

drop_last-newline : (t : Text) → drop_last (t ++ codes "\n") ≡ t
drop_last-newline [] = refl
drop_last-newline (c ∷ []) = refl
drop_last-newline (c ∷ d ∷ t) = ap (λ r. c ∷ r) (drop_last-newline (d ∷ t))

terminated-newline : (t : Text) → ends_with_newline (terminated t) ≡ true
terminated-newline t = elim (Bool-cases (ends_with_newline t)) [
  | inl e ↦ rw e e
  | inr e ↦ rw e (newline_at_end t)
]

unframed-terminated : (t : Text) → unframed (terminated t) ≡ unframed t
unframed-terminated t = elim (Bool-cases (ends_with_newline t)) [
  | inl e ↦ rw e (rw e refl)
  | inr e ↦ rw e (rw (newline_at_end t) (drop_last-newline t))
]

section_text-lines : (t : Text) → section_text (split_lines (terminated t)) ≡ unframed t
unfolding section_text
section_text-lines t = ap unframed (join-split_lines (terminated t)) ∙ unframed-terminated t

split_lines-frame :
    (tag end_tag t r : Text)
    → no_newline tag ≡ true
    → no_newline end_tag ≡ true
    → split_lines (frame tag end_tag t ++ r)
      ≡ (tag ++ codes "\n")
        ∷ (split_lines (terminated t) ++ ((end_tag ++ codes "\n") ∷ split_lines r))
split_lines-frame tag end_tag t r a b =
    ap split_lines (
      append_assoc (tag ++ codes "\n") (terminated t ++ (end_tag ++ codes "\n")) r
      ∙ append_assoc tag (codes "\n") _
      ∙ ap (λ x. tag ++ (codes "\n" ++ x)) (append_assoc (terminated t) (end_tag ++ codes "\n") r))
    ∙ split_lines-line tag (terminated t ++ ((end_tag ++ codes "\n") ++ r)) a
    ∙ ap (λ ls. (tag ++ codes "\n") ∷ ls)
        (split_lines-terminated (terminated t) ((end_tag ++ codes "\n") ++ r) (terminated-newline t)
          ∙ ap (λ ls. split_lines (terminated t) ++ ls)
              (ap split_lines (append_assoc end_tag (codes "\n") r) ∙ split_lines-line end_tag r b))

split_lines-done_line : (code : ℤ) → split_lines (done_line code) ≡ done_line code ∷ []
split_lines-done_line code =
    split_lines-line (done_prefix ++ show_int code) [] (show_int-no_newline code)
    ∙ unfold split_lines in refl

-- The lines of a response.
abbrev response_lines : Text → Text → ℤ → List Text
response_lines out err code =
    (sentinel_stdout ++ codes "\n")
    ∷ (split_lines (terminated out)
        ++ ((sentinel_stdout_end ++ codes "\n")
            ∷ (sentinel_stderr ++ codes "\n")
            ∷ (split_lines (terminated err)
                ++ ((sentinel_stderr_end ++ codes "\n") ∷ done_line code ∷ []))))

split_lines-response :
    (out err : Text) (code : ℤ) → split_lines (response out err code) ≡ response_lines out err code
unfolding response
split_lines-response out err code =
    split_lines-frame sentinel_stdout sentinel_stdout_end out
      (frame sentinel_stderr sentinel_stderr_end err ++ done_line code) refl refl
    ∙ ap
        (λ ls.
          (sentinel_stdout ++ codes "\n")
          ∷ (split_lines (terminated out) ++ ((sentinel_stdout_end ++ codes "\n") ∷ ls)))
        (split_lines-frame sentinel_stderr sentinel_stderr_end err (done_line code) refl refl
          ∙ ap
              (λ ls.
                (sentinel_stderr ++ codes "\n")
                ∷ (split_lines (terminated err) ++ ((sentinel_stderr_end ++ codes "\n") ∷ ls)))
              (split_lines-done_line code))

pub events-append :
    (ls ms : List Text) (es : List ReadEvent)
    → events (ls ++ ms) ++ es ≡ events ls ++ (events ms ++ es)
events-append [] ms es = refl
events-append (l ∷ ls) ms es = ap (λ r. line (encode_chars l) ∷ r) (events-append ls ms es)

-- One frame: its section ends up in the text, and the reading goes on behind it.
module _ (es : List ReadEvent) where
  read_stdout :
      (o e : Text) (buf ls ms : List Text)
      → All IsPlain ls
      → read_until_done (outside o e buf) (
          events
            ((sentinel_stdout ++ codes "\n") ∷ (ls ++ ((sentinel_stdout_end ++ codes "\n") ∷ ms)))
          ++ es)
        ≡ read_until_done (outside (section_text ls) e ls) (events ms ++ es)
  read_stdout o e buf ls ms h =
      read_next (outside o e buf) (inside o e in_stdout []) _ _ refl (opens_stdout o e buf)
      ∙ ap (read_until_done (inside o e in_stdout [])) (events-append ls _ es)
      ∙ read_section o e in_stdout [] ls _ h
      ∙ read_next (inside o e in_stdout ls) (outside (section_text ls) e ls) _ _ refl
          (closes_stdout o e ls)

  read_stderr :
      (o e : Text) (buf ls ms : List Text)
      → All IsPlain ls
      → read_until_done (outside o e buf) (
          events
            ((sentinel_stderr ++ codes "\n") ∷ (ls ++ ((sentinel_stderr_end ++ codes "\n") ∷ ms)))
          ++ es)
        ≡ read_until_done (outside o (section_text ls) ls) (events ms ++ es)
  read_stderr o e buf ls ms h =
      read_next (outside o e buf) (inside o e in_stderr []) _ _ refl (opens_stderr o e buf)
      ∙ ap (read_until_done (inside o e in_stderr [])) (events-append ls _ es)
      ∙ read_section o e in_stderr [] ls _ h
      ∙ read_next (inside o e in_stderr ls) (outside o (section_text ls) ls) _ _ refl
          (closes_stderr o e ls)

-- The events of a stream with these bytes, which end with a newline.
abbrev pub stream_events : Bytes → List ReadEvent
stream_events bytes = map line (split_lines bytes)

-- Lines that a block wrote itself are dropped, and the response of the runner is read back: the outcome
-- has both texts, each less one newline at its end, and the return code; nothing behind the done line
-- is read. No line of the texts or before the response may be a sentinel line.
pub read-response :
    (noise : List Bytes) (out err : Text) (code : ℤ) (es : List ReadEvent)
    → All IsIgnored noise
    → All IsPlain (split_lines (terminated out))
    → All IsPlain (split_lines (terminated err))
    → read_until_done initial_read
        (map line noise ++ (stream_events (encode_chars (response out err code)) ++ es))
      ≡ (done (plain_outcome (unframed out) (unframed err) code), es)
read-response noise out err code es n a b =
    let ls = split_lines (terminated out) in
    let ms = split_lines (terminated err) in
    read_noise [] [] [] noise _ n
    ∙ ap (λ evs. read_until_done initial_read (evs ++ es))
        (ap (map line) (split_lines-encode_chars (response out err code))
          ∙ map_map (split_lines (response out err code))
          ∙ ap events (split_lines-response out err code))
    ∙ read_stdout es [] [] [] ls _ a
    ∙ read_stderr es (section_text ls) [] ls ms (done_line code ∷ []) b
    ∙ read_outcome (outside (section_text ls) (section_text ms) ms)
        (plain_outcome (section_text ls) (section_text ms) code) (done_line code) es
        (done_line-scalar code) (reads_done (section_text ls) (section_text ms) ms code)
    ∙ ap (λ o. (done o, es))
        (ap (λ t. plain_outcome t (section_text ms) code) (section_text-lines out)
          ∙ ap (λ t. plain_outcome (unframed out) t code) (section_text-lines err))
  where
    map_map : (ls : List Text) → map line (map encode_chars ls) ≡ events ls
    map_map [] = refl
    map_map (l ∷ ls) = ap (λ r. line (encode_chars l) ∷ r) (map_map ls)
