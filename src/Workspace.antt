-- ===== src/Workspace.antt =====
-- The file system of a session's workspace, for sandbox/text_editor.py and sandbox/files.py, which share
-- the path check: resolved paths, whole files, and Python's `read_text` and `write_text` on Linux.
pub mod Newlines
use otari_sandbox_container.Base.{
  ℕ, ◌≡◌, Bool, true, false, ◌||◌, not, Option, none, some, List, [], ◌∷◌, ◌++◌, if◌then◌else◌,
  Text, Bytes, codes, starts_with, length, ◌==◌, nat_eq, nat_beq, text_eq,
}
use otari_sandbox_container.Base.Dict.{Dict, lookup, insert}
use otari_sandbox_container.Utf8.Codec.{encode, decode}
use otari_sandbox_container.Sessions.{path_join, parent}

-- The files and the directories, by resolved path.
pub record Disk : Type 0 where
  pub files : Dict Text Bytes
  pub dirs : List Text

-- Why `resolve` raises: a NUL character (the text is that of the error), or a loop of links.
pub data Unresolved : Type 0 where
  null_character : Text → Unresolved
  link_loop : Unresolved

-- What comes from outside: the path that a path resolves to, the exception where `resolve` raises one,
-- the texts of errors, the entries of a directory in order (below it, as parts; or in it, as paths), and
-- the type and the time of a file.
pub record Host : Type 0 where
  pub realpath : Text → Text
  pub unresolved : Text → Option Unresolved
  pub os_message : Text → Text
  pub encode_message : Text → Text
  pub decode_message : Bytes → Text
  pub rglob : Disk → Text → List (List Text)
  pub iterdir : Disk → Text → List Text
  pub guess_type : Text → Option Text
  pub modified_at : Disk → Text → ℕ

-- The exceptions, with `str(exc)` where it is shown.
pub data Exception : Type 0 where
  permission_error file_not_found_error file_exists_error value_error : Text → Exception
  is_a_directory_error : Text → Exception
  not_a_directory_error runtime_error : Exception

pub data Reply (A : Type 0) : Type 0 where
  ok : A → Reply A
  raise : Exception → Reply A

infixl 5 ◌>>=◌
unfoldable pub ◌>>=◌ : {A B : Type 0} → Reply A → (A → Reply B) → Reply B
ok a >>= f = f a
raise x >>= f = raise x

abbrev pub check : Bool → Exception → Reply Unit
check b x = if b then ok tt else raise x

-- an argument of a command that must not be `None`
abbrev pub given : {A : Type 0} → Option A → Text → Reply A
given none message = raise (value_error message)
given (some a) message = ok a

abbrev among : Text → List Text → Bool
among p [] = false
among p (d ∷ ds) = d == p || among p ds

unfoldable pub is_dir : Disk → Text → Bool
is_dir k p = among p k.dirs

unfoldable pub is_file : Disk → Text → Bool
is_file k p = elim (lookup p k.files) [ none ↦ false | some _ ↦ true ]

abbrev pub exists : Disk → Text → Bool
exists k p = is_file k p || is_dir k p

-- `candidate.relative_to(root)` succeeds, for resolved paths other than "/".
unfoldable pub is_under : Text → Text → Bool
is_under root p = p == root || starts_with p (root ++ codes "/")

abbrev lstrip_slashes : Text → Text
lstrip_slashes [] = []
lstrip_slashes (c ∷ s) = let rest = lstrip_slashes s in if c == 47 then rest else c ∷ s

-- `path.resolve()`
abbrev pub resolved : Host → Text → Reply Text
resolved host path = elim (host.unresolved path) [
  | none ↦ ok (host.realpath path)
  | some (null_character message) ↦ raise (value_error message)
  | some link_loop ↦ raise runtime_error
]

-- The path in `_resolve`, where the workspace resolves to `root`.
abbrev pub joined : Text → Text → Text
joined root path =
    if starts_with path (codes "/") then path else path_join root (lstrip_slashes path)

abbrev pub contained : Text → Text → Text → Reply Text
contained path root candidate =
    if is_under root candidate
    then ok candidate
    else raise (permission_error (codes "path escapes workspace: " ++ path))

-- `_resolve(path, workspace_root)`
unfoldable pub resolve : Host → Text → Text → Reply Text
resolve host path workspace_root = do
  root ← resolved host workspace_root
  candidate ← resolved host (joined root path)
  contained path root candidate

-- The directories above an absolute path, from the top; `before` is the path so far.
abbrev pub ancestors : Text → Text → List Text
ancestors before [] = []
ancestors before (c ∷ s) =
    let rest = ancestors (before ++ c ∷ []) s in
    if c == 47 then (if length before == 0 then rest else before ∷ rest) else rest

abbrev pub any_file : Disk → List Text → Bool
any_file k [] = false
any_file k (p ∷ ps) = is_file k p || any_file k ps

abbrev pub add_dirs : List Text → Disk → Disk
add_dirs [] k = k
add_dirs (d ∷ ds) k =
    let rest = add_dirs ds k in if is_dir k d then rest else record rest { dirs = d ∷ rest.dirs }

-- `target.parent.mkdir(parents=True, exist_ok=True)`
unfoldable pub make_parents : Host → Text → Disk → Reply Disk
make_parents host target k =
    if is_file k (parent target)
    then raise (file_exists_error (host.os_message (parent target)))
    else if any_file k (ancestors [] target)
    then raise not_a_directory_error
    else ok (add_dirs (ancestors [] target) k)

-- Universal newlines: each of "\r\n" and "\r" is read as "\n".
unfoldable pub translate_newlines : Text → Text
translate_newlines [] = []
translate_newlines (c ∷ s) =
    let rest = translate_newlines s in
    if c == 13 then (if starts_with s (codes "\n") then rest else 10 ∷ rest) else c ∷ rest

-- `target.read_bytes()`
unfoldable pub read_bytes : Host → Text → Disk → Reply Bytes
read_bytes host target k = elim (lookup target k.files) [
  | some bs ↦ ok bs
  | none ↦
      if is_dir k target
      then raise (is_a_directory_error (host.os_message target))
      else raise (file_not_found_error (host.os_message target))
]

-- The text that is read, from the decoded bytes.
abbrev pub decoded : Host → Bytes → Option Text → Reply Text
decoded host bs none = raise (value_error (host.decode_message bs))
decoded host bs (some s) = ok (translate_newlines s)

-- `target.read_text(encoding="utf-8")`
unfoldable pub read_text : Host → Text → Disk → Reply Text
read_text host target k = do bs ← read_bytes host target k; decoded host bs (decode bs)

-- `target.write_bytes(bs)`, and what precedes the first byte in `target.write_text`.
unfoldable pub write_bytes : Host → Text → Bytes → Disk → Reply Unit × Disk
write_bytes host target bs k =
    if is_dir k target
    then (raise (is_a_directory_error (host.os_message target)), k)
    else if is_dir k (parent target)
    then (ok tt, record k { files = insert target bs k.files })
    else if any_file k (ancestors [] target)
    then (raise not_a_directory_error, k)
    else (raise (file_not_found_error (host.os_message target)), k)

-- `target.write_text(s, encoding="utf-8")`: the file is emptied before the text is encoded.
unfoldable pub write_text : Host → Text → Text → Disk → Reply Unit × Disk
write_text host target s k = elim (encode s) [
  | some bs ↦ write_bytes host target bs k
  | none ↦
      let (r, k') = write_bytes host target [] k in
      ((r >>= λ u. raise (value_error (host.encode_message s))), k')
]
