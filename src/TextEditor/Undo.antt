-- ===== src/TextEditor/Undo.antt =====
-- `undo_edit` of sandbox/text_editor.py after an edit.
use otari_sandbox_container.Base.{
  ◌≡◌, ◌≢◌, refl, ap, sym, ◌∙◌, true, false, Option, none, some, List, [], ◌∷◌, ◌++◌, Text, codes,
  Bytes, text_eq, arith,
}
use otari_sandbox_container.Base.Dict.{lookup, insert, lookup-insert, lookup-insert_same}
use otari_sandbox_container.Utf8.Codec.{decode, encode_chars, is_scalar_text}
use otari_sandbox_container.Utf8.RoundTrip.{decode-encode_chars}
use otari_sandbox_container.Repr.{has_char}
use otari_sandbox_container.Workspace.Newlines.{translate_newlines-has_char}
use otari_sandbox_container.Sessions.{parent}
use otari_sandbox_container.Workspace.{
  Disk, Host, Reply, ok, ◌>>=◌, is_dir, resolve, translate_newlines, decoded, read_bytes, read_text,
  write_bytes, write_text,
}
use otari_sandbox_container.RunnerPool.{ExecOutcome}
use otari_sandbox_container.TextEditor.{
  TextEditorInput, Editor, Edit, written, succeeded, push_undo, commit, pop_last, history_of,
  handle_undo,
}

pop_last-append : (h : List Text) (s : Text) → pop_last (h ++ s ∷ []) ≡ some (s, h)
unfolding pop_last
pop_last-append [] s = refl
pop_last-append (x ∷ h) s = rw (pop_last-append h s, pop_last) refl

-- A place where a file can be written.
abbrev pub IsWritable : Disk → Text → Type 0
IsWritable k t = (is_dir k t ≡ false) × (is_dir k (parent t) ≡ true)

pub written-Writable :
    (host : Host) (t s message : Text) (e : Editor)
    → is_scalar_text s ≡ true
    → IsWritable e.disk t
    → written host t s message e ≡ (
      ok (succeeded message),
      record e { disk = record e.disk { files = insert t (encode_chars s) e.disk.files } },
    )
unfolding written write_text write_bytes ◌>>=◌
written-Writable host t s message e scalar (d, p) = rw (scalar, d, p, written, write_text) refl

history_of-push_undo :
    (t s : Text) (e : Editor) → history_of t (push_undo t s e) ≡ history_of t e ++ s ∷ []
unfolding push_undo is_dir
history_of-push_undo t s e =
    ground (arith, lookup-insert t t (history_of t e ++ s ∷ []) e.undo_stack, text_eq.decides t t)

abbrev pub put : Text → Text → Editor → Editor
put t s e = record e { disk = record e.disk { files = insert t (encode_chars s) e.disk.files } }

pub commit-Writable :
    (host : Host) (message : Text) (e : Editor) (t s s' : Text)
    → is_scalar_text s' ≡ true
    → IsWritable e.disk t
    → commit host message e (record { target = t; previous = s; text = s' })
      ≡ (ok (succeeded message), put t s' (push_undo t s e))
unfolding commit push_undo
commit-Writable host message e t s s' new w =
    written-Writable host t s' message (push_undo t s e) new w

-- The undo of a file with a history takes its last text.
handle_undo-last :
    (host : Host) (root : Text) (req : TextEditorInput) (e : Editor) (t s : Text) (h : List Text)
    → resolve host req.path root ≡ ok t
    → is_scalar_text s ≡ true
    → IsWritable e.disk t
    → history_of t e ≡ h ++ s ∷ []
    → handle_undo host root req e ≡ (
      ok (succeeded (codes "Reverted " ++ (req.path ++ codes "\n"))),
      put t s (record e { undo_stack = insert t h e.undo_stack }),
    )
unfolding handle_undo ◌>>=◌
handle_undo-last host root req e t s h r scalar w last =
    rw (r, last, pop_last-append h s)
      (written-Writable host t s (codes "Reverted " ++ (req.path ++ codes "\n"))
        (record e { undo_stack = insert t h e.undo_stack }) scalar w)

-- An edit of a file of a writable place whose old and new text can both be encoded, and then an undo of
-- the same path: both succeed, the file has the encoding of the old text, and the history of the file is
-- what it was before the edit.
pub undo-commit :
    (host : Host) (root message : Text) (req : TextEditorInput) (e : Editor) (t s s' : Text)
    → resolve host req.path root ≡ ok t
    → is_scalar_text s ≡ true
    → is_scalar_text s' ≡ true
    → IsWritable e.disk t
    → let p : Edit = record { target = t; previous = s; text = s' } in
      let first = commit host message e p in
      let second = handle_undo host root req first.1 in
      (first.0 ≡ ok (succeeded message))
      × (second.0 ≡ ok (succeeded (codes "Reverted " ++ (req.path ++ codes "\n"))))
      × (lookup t second.1.disk.files ≡ some (encode_chars s))
      × (history_of t second.1 ≡ history_of t e)
unfolding push_undo is_dir
undo-commit host root message req e t s s' r old new w =
    let h = history_of t e in
    let e₁ = put t s' (push_undo t s e) in
    let first = commit-Writable host message e t s s' new w in
    let second = handle_undo-last host root req e₁ t s h r old w (history_of-push_undo t s e) in
    let both =
      ap (λ (z : Reply ExecOutcome × Editor). handle_undo host root req z.1) first ∙ second in
    (
      ap (λ (z : Reply ExecOutcome × Editor). z.0) first,
      ap (λ (z : Reply ExecOutcome × Editor). z.0) both,
      ap (λ (z : Reply ExecOutcome × Editor). lookup t z.1.disk.files) both
          ∙ lookup-insert_same t (encode_chars s) e₁.disk.files,
      ap (λ (z : Reply ExecOutcome × Editor). history_of t z.1) both
          ∙ ap (λ (o : Option (List Text)). elim o [ none ↦ [] | some h ↦ h ])
              (lookup-insert_same t h e₁.undo_stack),
    )

read_text-decoded :
    (host : Host) (t : Text) (k : Disk) (bs : Bytes) (raw : Text)
    → lookup t k.files ≡ some bs
    → decode bs ≡ some raw
    → read_text host t k ≡ ok (translate_newlines raw)
unfolding read_text read_bytes ◌>>=◌
read_text-decoded host t k bs raw file dec =
    rw (file, read_text, read_bytes) (ap (decoded host bs) dec)

-- An edit and its undo do not give back a file that holds a carriage return: where the bytes of the file
-- decode to such a text, and the edit read its text from the file, the file has other bytes after both.
pub undo_carriage_return :
    (host : Host) (root message : Text) (req : TextEditorInput) (e : Editor) (t raw s s' : Text)
    (bs : Bytes)
    → resolve host req.path root ≡ ok t
    → lookup t e.disk.files ≡ some bs
    → decode bs ≡ some raw
    → has_char 13 raw ≡ true
    → read_text host t e.disk ≡ ok s
    → is_scalar_text s ≡ true
    → is_scalar_text s' ≡ true
    → IsWritable e.disk t
    → lookup t
        (handle_undo host root req
          (commit host message e (record { target = t; previous = s; text = s' })).1).1.disk.files
      ≢ some bs
undo_carriage_return host root message req e t raw s s' bs r file dec cr rd old new w same =
    let undone = (undo-commit host root message req e t s s' r old new w).2 in
    let bytes : encode_chars s ≡ bs = some-injective (sym undone ∙ same) in
    let read : translate_newlines raw ≡ s =
      ok-injective (sym (read_text-decoded host t e.disk bs raw file dec) ∙ rd) in
    let raw_is : raw ≡ s =
      some-injective (sym dec ∙ ap decode (sym bytes) ∙ decode-encode_chars s old) in
    cc (ap (has_char 13) (raw_is ∙ sym read), translate_newlines-has_char raw, cr)
  where
    some-injective : {A : Type 0} {a b : A} → some a ≡ some b → a ≡ b
    some-injective h = cc

    ok-injective : {a b : Text} → ok a ≡ ok b → a ≡ b
    ok-injective h = cc
