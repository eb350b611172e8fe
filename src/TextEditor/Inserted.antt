-- ===== src/TextEditor/Inserted.antt =====
-- `insert` of sandbox/text_editor.py, and `view` of the lines that it has inserted.
use otari_sandbox_container.Base.{
  ℕ, ◌+◌, ◌≤◌, ◌≡◌, refl, ap, sym, ◌∙◌, true, false, some, none, [], ◌∷◌, ◌++◌, Text, codes, length,
  take, drop, pos, arith, nat_eq, text_eq, leb, Option, Bytes,
}
use otari_sandbox_container.Base.Dict.{lookup, lookup-insert_same}
use otari_sandbox_container.Repr.{has_char}
use otari_sandbox_container.Utf8.Codec.{is_scalar_text, encode_chars, decode}
use otari_sandbox_container.Workspace.{
  Disk, Host, Reply, ok, raise, ◌>>=◌, is_dir, is_file, exists, resolve, decoded, read_bytes,
  read_text,
}
use otari_sandbox_container.Workspace.Newlines.{
  translate_newlines-has_char, translate_newlines-same,
}
use otari_sandbox_container.Utf8.RoundTrip.{decode_replace-encode_chars}
use otari_sandbox_container.RunnerPool.{ExecOutcome}
use otari_sandbox_container.TextEditor.{
  TextEditorInput, Editor, succeeded, commit, inserted, payload_of, in_view_range, handle_view,
  insert_edit, handle_insert, push_undo,
}
use otari_sandbox_container.TextEditor.Strings.{splitlines_keepends, splitlines, join_with}
use otari_sandbox_container.TextEditor.Undo.{IsWritable, commit-Writable, put}
use otari_sandbox_container.TextEditor.Insertion.{
  BeginsLine, BeginsLine-le, lines-inserted, payload_of-ends, payload_of-scalar, payload_of-plain,
  inserted-scalar, inserted-has_char,
}
use otari_sandbox_container.TextEditor.Slices.{length-take, view-inserted}

decoded-plain :
    (host : Host) (bs : Bytes) (o : Option Text) (s : Text)
    → decoded host bs o ≡ ok s
    → has_char 13 s ≡ false
decoded-plain host bs none s h = absurd (ground arith)
decoded-plain host bs (some raw) s h =
    ap (has_char 13) (sym (ok-injective h)) ∙ translate_newlines-has_char raw
  where
    ok-injective : {a b : Text} → ok a ≡ ok b → a ≡ b
    ok-injective h = cc

bound-plain :
    (host : Host) (r : Reply Bytes) (s : Text)
    → (r >>= λ bs. decoded host bs (decode bs)) ≡ ok s
    → has_char 13 s ≡ false
unfolding ◌>>=◌
bound-plain host (ok bs) s h = decoded-plain host bs (decode bs) s h
bound-plain host (raise x) s h = absurd (ground arith)

read_text-plain :
    (host : Host) (t : Text) (k : Disk) (s : Text)
    → read_text host t k ≡ ok s
    → has_char 13 s ≡ false
unfolding read_text
read_text-plain host t k s h = bound-plain host (read_bytes host t k) s h

handle_insert-commit :
    (host : Host) (root : Text) (req : TextEditorInput) (e : Editor) (new t s : Text) (n : ℕ)
    → req.new_str ≡ some new
    → req.insert_line ≡ some (pos n)
    → resolve host req.path root ≡ ok t
    → exists e.disk t ≡ true
    → read_text host t e.disk ≡ ok s
    → n ≤ length (splitlines_keepends s)
    → handle_insert host root req e
      ≡ commit host (codes "Inserted into " ++ (req.path ++ codes "\n")) e (record {
        target = t;
        previous = s;
        text = inserted n (payload_of new) (splitlines_keepends s);
      })
unfolding handle_insert insert_edit ◌>>=◌
handle_insert-commit host root req e new t s n o i r x rd le =
    let fits : leb n (length (splitlines_keepends s)) ≡ true = ground arith in
    rw (o, i, r, x, rd, fits) refl

-- The view of a file whose text has been written.
handle_view-put :
    (host : Host) (root : Text) (req : TextEditorInput) (e : Editor) (t s : Text)
    → resolve host req.path root ≡ ok t
    → is_dir e.disk t ≡ false
    → is_scalar_text s ≡ true
    → has_char 13 s ≡ false
    → handle_view host root req (put t s e) ≡ ok (succeeded (in_view_range req.view_range s))
unfolding handle_view ◌>>=◌ is_dir is_file read_bytes
handle_view-put host root req e t s r d scalar plain =
    rw
      (
        r,
        d,
        is_file,
        read_bytes,
        lookup-insert_same t (encode_chars s) e.disk.files,
        decode_replace-encode_chars s scalar,
        translate_newlines-same s plain,
      )
      refl

-- An insertion behind `n` lines of a file that can be written, where a line begins, of a text without
-- carriage returns, with both texts encodable: it succeeds; the lines of the file are then the first `n`
-- lines as they were, the lines of the payload, and the other lines as they were; and a view of the
-- lines from n + 1, as many as the payload has, gives the lines of the payload.
pub handle_view-handle_insert :
    (host : Host) (root : Text) (req : TextEditorInput) (e : Editor) (new t s : Text) (n : ℕ)
    → req.new_str ≡ some new
    → req.insert_line ≡ some (pos n)
    → resolve host req.path root ≡ ok t
    → exists e.disk t ≡ true
    → read_text host t e.disk ≡ ok s
    → BeginsLine n s
    → IsWritable e.disk t
    → is_scalar_text s ≡ true
    → is_scalar_text new ≡ true
    → has_char 13 new ≡ false
    → let lines = splitlines (payload_of new) in
      let first = handle_insert host root req e in
      let range = pos (n + 1) ∷ pos (n + length lines) ∷ [] in
      (text : Text) × (first.0
        ≡ ok (succeeded (codes "Inserted into " ++ (req.path ++ codes "\n"))))
      × (lookup t first.1.disk.files ≡ some (encode_chars text))
      × (splitlines_keepends text
          ≡ take n (splitlines_keepends s)
            ++ (splitlines_keepends (payload_of new) ++ drop n (splitlines_keepends s)))
      × (handle_view host root
            (record req { command = codes "view"; view_range = some range })
            first.1
          ≡ ok (succeeded (join_with (codes "\n") lines)))
unfolding push_undo is_dir
handle_view-handle_insert host root req e new t s n o i r x rd b w scalar scalar' plain' =
    let p = payload_of new in
    let ls = splitlines_keepends s in
    let text = inserted n p ls in
    let range = pos (n + 1) ∷ pos (n + length (splitlines p)) ∷ [] in
    let viewed : TextEditorInput = record req { command = codes "view"; view_range = some range } in
    let le = BeginsLine-le n s b in
    let plain = read_text-plain host t e.disk s rd in
    let message = codes "Inserted into " ++ (req.path ++ codes "\n") in
    let text_scalar = inserted-scalar s p n scalar (payload_of-scalar new scalar') in
    let done =
      handle_insert-commit host root req e new t s n o i r x rd le
      ∙ commit-Writable host message e t s text text_scalar w in
    let lines = lines-inserted s plain n p b (payload_of-ends new) in
    (
      text,
      ap (λ (z : Reply ExecOutcome × Editor). z.0) done,
      ap (λ (z : Reply ExecOutcome × Editor). lookup t z.1.disk.files) done
          ∙ lookup-insert_same t (encode_chars text) e.disk.files,
      lines,
      ap (λ (z : Reply ExecOutcome × Editor). handle_view host root viewed z.1) done
          ∙ handle_view-put host root viewed (push_undo t s e) t text r (w.0) text_scalar
              (inserted-has_char s p n plain (payload_of-plain new plain'))
          ∙ ap (λ v. ok (succeeded v))
              (view-inserted n p text (take n ls) (drop n ls) (length-take n ls le) lines),
    )
