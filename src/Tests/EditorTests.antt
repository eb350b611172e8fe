-- ===== src/Tests/EditorTests.antt =====
-- Runs of the definitions for sandbox/text_editor.py and sandbox/files.py.
use otari_sandbox_container.Base.{
  ◌≡◌, refl, none, some, [], ◌∷◌, ◌++◌, Text, codes, starts_with, text_eq, arith, pos, inr,
}
use otari_sandbox_container.Base.Dict.{lookup}
use otari_sandbox_container.Utf8.Codec.{
  encode_chars, decode, decode_from, decode_next, decode_first,
}
use otari_sandbox_container.Repr.{has_char}
use otari_sandbox_container.Sessions.{parent}
use otari_sandbox_container.Workspace.{
  Disk, Host, ok, ◌>>=◌, is_dir, is_file, is_under, resolve, translate_newlines, read_bytes,
  read_text,
}
use otari_sandbox_container.TextEditor.{
  TextEditorInput, Editor, succeeded, commit, history_of, handle_str_replace, handle_undo,
  handle_insert, handle_view,
}
use otari_sandbox_container.TextEditor.Strings.{
  count, count_from, splitlines_keepends, splitlines, join_with,
}
use otari_sandbox_container.TextEditor.Confined.{IsOutside}
use otari_sandbox_container.TextEditor.Replace.{handle_str_replace-once}
use otari_sandbox_container.TextEditor.Inserted.{handle_view-handle_insert}
use otari_sandbox_container.TextEditor.Undo.{undo-commit}
use otari_sandbox_container.Files.{UploadResult}

-- a host where every path is resolved already
abbrev pub plain_host : Host
plain_host = record {
  realpath = λ p. p;
  unresolved = λ p. none;
  os_message = λ p. p;
  encode_message = λ s. s;
  decode_message = λ bs. codes "bad bytes";
  rglob = λ k p. [];
  iterdir = λ k p. [];
  guess_type = λ p. none;
  modified_at = λ k p. 0;
}

abbrev workspace : Disk
workspace = record {
  files =
      (codes "/w/a", codes "one two\n")
      ∷ (codes "/w/b", codes "x\r\ny")
      ∷ (codes "/etc/f", codes "z")
      ∷ [];
  dirs = codes "/w" ∷ [];
}

abbrev editor : Editor
editor = record { disk = workspace; undo_stack = [] }

abbrev replace_two : Text → TextEditorInput
replace_two path = record {
  command = codes "str_replace";
  path = path;
  file_text = none;
  old_str = some (codes "two");
  new_str = some (codes "2");
  insert_line = none;
  view_range = none;
}

etc-IsOutside : IsOutside (codes "/w") (codes "/etc/f")
etc-IsOutside = ((λ h. ground (arith, h)), (λ q h. ground (arith, h)))

handle_str_replace-once_example :
    (pre : Text) × (post : Text) × (codes "one two\n" ≡ pre ++ (codes "two" ++ post))
    × (handle_str_replace plain_host (codes "/w") (replace_two (codes "a")) editor
        ≡ commit plain_host (codes "Edited a\n") editor (record {
          target = codes "/w/a";
          previous = codes "one two\n";
          text = pre ++ (codes "2" ++ post);
        }))
unfolding resolve is_under text_eq starts_with is_dir is_file read_text read_bytes ◌>>=◌ lookup
    decode decode_from decode_next decode_first translate_newlines count count_from
handle_str_replace-once_example =
    handle_str_replace-once plain_host (codes "/w") (replace_two (codes "a")) editor (codes "two")
      (codes "2") (codes "/w/a") (codes "one two\n") refl refl refl refl refl (omega arith) refl

abbrev insert_behind_one : TextEditorInput
insert_behind_one = record {
  command = codes "insert";
  path = codes "a";
  file_text = none;
  old_str = none;
  new_str = some (codes "x\ny");
  insert_line = some (pos 1);
  view_range = none;
}

handle_view-handle_insert_example :
    let first = handle_insert plain_host (codes "/w") insert_behind_one editor in
    (text : Text) × (first.0 ≡ ok (succeeded (codes "Inserted into a\n")))
    × (lookup (codes "/w/a") first.1.disk.files ≡ some (encode_chars text))
    × (splitlines_keepends text ≡ codes "one two\n" ∷ codes "x\n" ∷ codes "y\n" ∷ [])
    × (handle_view plain_host
          (codes "/w")
          (record insert_behind_one {
            command = codes "view";
            view_range = some (pos 2 ∷ pos 3 ∷ []);
          })
          first.1
        ≡ ok (succeeded (codes "x\ny")))
unfolding resolve is_under text_eq starts_with is_dir is_file read_text read_bytes ◌>>=◌ lookup
    decode decode_from decode_next decode_first translate_newlines parent splitlines_keepends
    splitlines has_char join_with
handle_view-handle_insert_example =
    handle_view-handle_insert plain_host (codes "/w") insert_behind_one editor (codes "x\ny")
      (codes "/w/a") (codes "one two\n") 1 refl refl refl refl refl (inr (inr (refl, refl)))
      (refl, refl) refl refl refl

undo-commit_example :
    let first =
      commit plain_host
        (codes "ok")
        editor
        (record { target = codes "/w/a"; previous = codes "p"; text = codes "q" }) in
    let second = handle_undo plain_host (codes "/w") (replace_two (codes "a")) first.1 in
    (first.0 ≡ ok (succeeded (codes "ok")))
    × (second.0 ≡ ok (succeeded (codes "Reverted a\n")))
    × (lookup (codes "/w/a") second.1.disk.files ≡ some (encode_chars (codes "p")))
    × (history_of (codes "/w/a") second.1 ≡ history_of (codes "/w/a") editor)
unfolding resolve is_under text_eq starts_with is_dir parent ◌>>=◌
undo-commit_example =
    undo-commit plain_host (codes "/w") (codes "ok") (replace_two (codes "a")) editor (codes "/w/a")
      (codes "p") (codes "q") refl refl refl (refl, refl)

abbrev uploaded : UploadResult
uploaded = record { path = codes "d/n"; size_bytes = 2 }
