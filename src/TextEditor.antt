-- ===== src/TextEditor.antt =====
-- sandbox/text_editor.py: the commands of the text editor, over a workspace and the undo stack of a
-- session. The request is that of sandbox/models.py.
pub mod Strings
pub mod Replace
pub mod Undo
pub mod Lines
pub mod Insertion
pub mod Slices
pub mod Inserted
pub mod Confined
use otari_sandbox_container.Base.{
  ℕ, zero, suc, ◌+◌, ◌-◌, ◌≡◌, Bool, true, false, ◌||◌, Option, none, some, List, [], ◌∷◌, ◌++◌,
  map, if◌then◌else◌, leb, ltb, ltb_ℤ, Text, codes, ends_with_newline, ℤ, pos, negsuc, length, take,
  drop, join, ◌==◌, nat_eq, text_eq,
}
use otari_sandbox_container.Base.Dict.{Dict, lookup, insert}
use otari_sandbox_container.Decimal.{show_nat, show_int}
use otari_sandbox_container.Utf8.Codec.{decode_replace}
use otari_sandbox_container.RunnerPool.{ExecOutcome, plain_outcome}
use otari_sandbox_container.Workspace.{
  Disk, Host, Exception, permission_error, file_not_found_error, file_exists_error, value_error,
  is_a_directory_error, not_a_directory_error, Reply, ok, raise, ◌>>=◌, check, given, is_dir,
  exists, resolve, make_parents, translate_newlines, read_bytes, read_text, write_text,
}
use otari_sandbox_container.TextEditor.Strings.{
  splitlines, splitlines_keepends, join_with, count, replace,
}

pub record TextEditorInput : Type 0 where
  pub command : Text
  pub path : Text
  pub file_text : Option Text
  pub old_str : Option Text
  pub new_str : Option Text
  pub insert_line : Option ℤ
  pub view_range : Option (List ℤ)

-- What the commands change: the files, and the undo stack of the session.
pub record Editor : Type 0 where
  pub disk : Disk
  pub undo_stack : Dict Text (List Text)

abbrev pub succeeded : Text → ExecOutcome
succeeded stdout = plain_outcome stdout [] (pos 0)

abbrev two_levels : List (List Text) → List Text
two_levels [] = []
two_levels (parts ∷ children) =
    let rest = two_levels children in
    if ltb 2 (length parts) then rest else join_with (codes "/") parts ∷ rest

-- `max(1, start) - 1`
abbrev first_index : ℤ → ℕ
first_index (pos n) = n - 1
first_index (negsuc n) = 0

-- How many lines there are before the end of the slice: a negative number other than -1 counts from the
-- last line.
abbrev end_index : ℕ → ℤ → ℕ
end_index size (pos n) = if leb size n then size else n
end_index size (negsuc zero) = size
end_index size (negsuc (suc n)) = size - (n + 2)

unfoldable pub in_view_range : Option (List ℤ) → Text → Text
in_view_range (some (start ∷ end ∷ [])) text =
    let lines = splitlines text in
    join_with (codes "\n") (drop (first_index start) (take (end_index (length lines) end) lines))
in_view_range _ text = text

abbrev view_file : Host → TextEditorInput → Text → Disk → Reply ExecOutcome
view_file host req target k = do
  u ← check (exists k target) (file_not_found_error (codes "file not found: " ++ req.path))
  bs ← read_bytes host target k
  ok (succeeded (in_view_range req.view_range (translate_newlines (decode_replace bs))))

-- `_handle_view`
unfoldable pub handle_view : Host → Text → TextEditorInput → Editor → Reply ExecOutcome
handle_view host workspace_root req e = resolve host req.path workspace_root >>= λ target.
    if is_dir e.disk target
    then ok
        (succeeded (join_with (codes "\n") (two_levels (host.rglob e.disk target)) ++ codes "\n"))
    else view_file host req target e.disk

-- `target.write_text(text, encoding="utf-8")` and the reply after it.
unfoldable pub written : Host → Text → Text → Text → Editor → Reply ExecOutcome × Editor
written host target text message e =
    let (r, k) = write_text host target text e.disk in
    ((r >>= λ u. ok (succeeded message)), record e { disk = k })

abbrev pub attempt :
    {A : Type 0} → Reply A → (A → Reply ExecOutcome × Editor) → Editor → Reply ExecOutcome × Editor
attempt (ok a) f e = f a
attempt (raise x) f e = (raise x, e)

-- `_handle_create`
unfoldable pub handle_create : Host → Text → TextEditorInput → Editor → Reply ExecOutcome × Editor
handle_create host workspace_root req e =
    attempt {A = Text × Text × Disk}
      (do
        text ← given req.file_text (codes "create requires file_text")
        target ← resolve host req.path workspace_root
        u ←
            check (if exists e.disk target then false else true)
              (file_exists_error (codes "already exists: " ++ req.path))
        k ← make_parents host target e.disk
        ok (text, target, k))
      (λ p.
        written host p.1 p.0 (codes "File created: " ++ (req.path ++ codes "\n"))
          (record e { disk = p.2 }))
      e

-- `_push_undo`
unfoldable pub push_undo : Text → Text → Editor → Editor
push_undo target previous_text e =
    let history : List Text = elim (lookup target e.undo_stack) [ none ↦ [] | some h ↦ h ] in
    record e { undo_stack = insert target (history ++ previous_text ∷ []) e.undo_stack }

-- What an edit is: the file, its text and the text that replaces it.
pub record Edit : Type 0 where
  pub target : Text
  pub previous : Text
  pub text : Text

-- The end of the two handlers that edit a file.
unfoldable pub commit : Host → Text → Editor → Edit → Reply ExecOutcome × Editor
commit host message e p = written host p.target p.text message (push_undo p.target p.previous e)

-- `_handle_str_replace` up to the undo stack.
unfoldable pub str_replace_edit : Host → Text → TextEditorInput → Disk → Reply Edit
str_replace_edit host workspace_root req k = do
  old_str ← given req.old_str (codes "str_replace requires old_str and new_str")
  new_str ← given req.new_str (codes "str_replace requires old_str and new_str")
  target ← resolve host req.path workspace_root
  u ← check (exists k target) (file_not_found_error (codes "file not found: " ++ req.path))
  text ← read_text host target k
  u ← check (ltb 0 (count text old_str)) (value_error (codes "old_str not found in " ++ req.path))
  u ← check (leb (count text old_str) 1) (
      value_error (
        codes "old_str matched "
        ++ (show_nat (count text old_str)
            ++ (codes " times in " ++ (req.path ++ codes "; must be unique")))))
  ok (record { target = target; previous = text; text = replace text old_str new_str })

-- `_handle_str_replace`
unfoldable pub handle_str_replace :
    Host → Text → TextEditorInput → Editor → Reply ExecOutcome × Editor
handle_str_replace host workspace_root req e =
    attempt (str_replace_edit host workspace_root req e.disk)
      (commit host (codes "Edited " ++ (req.path ++ codes "\n")) e) e

abbrev pub payload_of : Text → Text
payload_of new_str = if ends_with_newline new_str then new_str else new_str ++ codes "\n"

abbrev in_range : ℤ → ℕ → Option ℕ
in_range (pos n) size = if leb n size then some n else none
in_range (negsuc n) size = none

-- `lines.insert(n, payload)`, joined.
abbrev pub inserted : ℕ → Text → List Text → Text
inserted n payload lines = join (take n lines ++ payload ∷ drop n lines)

-- `_handle_insert` up to the undo stack.
unfoldable pub insert_edit : Host → Text → TextEditorInput → Disk → Reply Edit
insert_edit host workspace_root req k = do
  new_str ← given req.new_str (codes "insert requires new_str and insert_line")
  insert_line ← given req.insert_line (codes "insert requires new_str and insert_line")
  target ← resolve host req.path workspace_root
  u ← check (exists k target) (file_not_found_error (codes "file not found: " ++ req.path))
  text ← read_text host target k
  n ←
      given (in_range insert_line (length (splitlines_keepends text)))
        (codes "insert_line " ++ (show_int insert_line ++ (codes " out of range for " ++ req.path)))
  ok (record {
    target = target;
    previous = text;
    text = inserted n (payload_of new_str) (splitlines_keepends text);
  })

-- `_handle_insert`
unfoldable pub handle_insert : Host → Text → TextEditorInput → Editor → Reply ExecOutcome × Editor
handle_insert host workspace_root req e =
    attempt (insert_edit host workspace_root req e.disk)
      (commit host (codes "Inserted into " ++ (req.path ++ codes "\n")) e) e

-- `history.pop()`: the last text and those before it.
unfoldable pub pop_last : List Text → Option (Text × List Text)
pop_last [] = none
pop_last (h ∷ hs) = elim (pop_last hs) [
  | none ↦ some (h, [])
  | some (last, front) ↦ some (last, h ∷ front)
]

abbrev pub history_of : Text → Editor → List Text
history_of target e = elim (lookup target e.undo_stack) [ none ↦ [] | some h ↦ h ]

-- `_handle_undo`
unfoldable pub handle_undo : Host → Text → TextEditorInput → Editor → Reply ExecOutcome × Editor
handle_undo host workspace_root req e =
    attempt {A = Text × Text × List Text}
      (do
        target ← resolve host req.path workspace_root
        popped ← given (pop_last (history_of target e)) (codes "no edits to undo for " ++ req.path)
        ok (target, popped.0, popped.1))
      (λ p.
        written host p.0 p.1 (codes "Reverted " ++ (req.path ++ codes "\n"))
          (record e { undo_stack = insert p.0 p.2 e.undo_stack }))
      e

-- The handlers of `run_text_editor`.
abbrev pub dispatch : Host → Text → TextEditorInput → Editor → Option (Reply ExecOutcome × Editor)
dispatch host workspace_root req e =
    if req.command == codes "view"
    then some (handle_view host workspace_root req e, e)
    else if req.command == codes "create"
    then some (handle_create host workspace_root req e)
    else if req.command == codes "str_replace"
    then some (handle_str_replace host workspace_root req e)
    else if req.command == codes "insert"
    then some (handle_insert host workspace_root req e)
    else if req.command == codes "undo_edit"
    then some (handle_undo host workspace_root req e)
    else none

abbrev pub failed : Text → ExecOutcome
failed message = plain_outcome [] (codes "text_editor: " ++ (message ++ codes "\n")) (pos 1)

-- The four classes of exceptions that become an outcome; the others leave `run_text_editor`.
abbrev pub caught : Reply ExecOutcome → Reply ExecOutcome
caught (ok o) = ok o
caught (raise (permission_error m)) = ok (failed m)
caught (raise (file_not_found_error m)) = ok (failed m)
caught (raise (file_exists_error m)) = ok (failed m)
caught (raise (value_error m)) = ok (failed m)
caught (raise x) = raise x

-- `run_text_editor`
unfoldable pub run_text_editor : Host → Text → TextEditorInput → Editor → Reply ExecOutcome × Editor
run_text_editor host workspace_root req e = elim (dispatch host workspace_root req e) [
  | none ↦ (ok (failed (codes "unknown command " ++ req.command)), e)
  | some (r, e') ↦ (caught r, e')
]
