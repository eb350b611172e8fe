-- ===== src/Files.antt =====
-- sandbox/files.py: upload, download and listing of the files of a workspace.
pub mod RoundTrip
use otari_sandbox_container.Base.{
  ℕ, ◌+◌, ◌*◌, ◌/◌, ◌≡◌, Bool, true, false, Option, none, some, List, [], ◌∷◌, ◌++◌, if◌then◌else◌,
  ltb, Text, Bytes, codes, length, drop, ◌==◌, nat_beq, nat_eq, text_eq,
}
use otari_sandbox_container.Base.Dict.{lookup}
use otari_sandbox_container.Decimal.{show_nat}
use otari_sandbox_container.Workspace.{
  Disk, Host, Exception, file_not_found_error, value_error, is_a_directory_error, Reply, ok, raise,
  ◌>>=◌, check, is_dir, is_file, exists, resolve, make_parents, read_bytes, write_bytes,
}

abbrev pub max_file_bytes : ℕ
max_file_bytes = 100 * 1024 * 1024

pub record FileMetadata : Type 0 where
  pub path : Text
  pub size_bytes : ℕ
  pub mime_type : Option Text
  pub modified_at : ℕ

pub record UploadResult : Type 0 where
  pub path : Text
  pub size_bytes : ℕ

-- `str(target.relative_to(root))`, for a path under the root.
unfoldable pub relative_to : Text → Text → Text
relative_to root target = if target == root then codes "." else drop (length root + 1) target

-- `path.name`
unfoldable pub name_of : Text → Text
name_of [] = []
name_of (c ∷ s) = if nat_beq c 47 then name_of s else name_from (c ∷ []) s
  where
    name_from : Text → Text → Text
    name_from part [] = part
    name_from part (d ∷ r) = if nat_beq d 47 then name_from [] r else name_from (part ++ d ∷ []) r

abbrev pub stored : Host → Bytes → Text → Text × Disk → Reply UploadResult × Disk
stored host content workspace_root (target, k) =
    let (r, k') = write_bytes host target content k in
    (
      (r >>= λ u. ok (record {
        path = relative_to (host.realpath workspace_root) target;
        size_bytes = length content;
      })),
      k',
    )

abbrev pub upload_to : Host → Text → Text → Disk → Reply (Text × Disk)
upload_to host dest_path workspace_root k = resolve host dest_path workspace_root >>= λ target.
    make_parents host target k >>= λ k'. ok (target, k')

abbrev pub attempt :
    Disk
    → Reply (Text × Disk)
    → (Text × Disk → Reply UploadResult × Disk)
    → Reply UploadResult × Disk
attempt k (ok p) f = f p
attempt k (raise x) f = (raise x, k)

-- `upload_file`
unfoldable pub upload_file : Host → Bytes → Text → Text → Disk → Reply UploadResult × Disk
upload_file host content dest_path workspace_root k =
    if ltb max_file_bytes (length content)
    then (
      raise (
          value_error (
            codes "file exceeds "
            ++ (show_nat (max_file_bytes / (1024 * 1024))
                ++ (codes " MB limit (" ++ (show_nat (length content) ++ codes " bytes)"))))),
      k,
    )
    else attempt k (upload_to host dest_path workspace_root k) (stored host content workspace_root)

abbrev pub mime_or_default : Option Text → Text
mime_or_default none = codes "application/octet-stream"
mime_or_default (some mime) = if length mime == 0 then codes "application/octet-stream" else mime

-- `read_file`
unfoldable pub read_file : Host → Text → Text → Disk → Reply (Bytes × Text)
read_file host path workspace_root k = do
  target ← resolve host path workspace_root
  u ← check (exists k target) (file_not_found_error (codes "file not found: " ++ path))
  u ←
      check (if is_dir k target then false else true)
        (is_a_directory_error (codes "is a directory: " ++ path))
  bs ← read_bytes host target k
  ok (bs, mime_or_default (host.guess_type (name_of target)))

abbrev size_of : Disk → Text → ℕ
size_of k p = elim (lookup p k.files) [ none ↦ 0 | some bs ↦ length bs ]

-- `_metadata_for`
unfoldable pub metadata_for : Host → Text → Text → Disk → FileMetadata
metadata_for host target workspace_root k = record {
  path = relative_to (host.realpath workspace_root) target;
  size_bytes = size_of k (host.realpath target);
  mime_type = host.guess_type (name_of target);
  modified_at = host.modified_at k target;
}

abbrev files_among : Host → Text → Disk → List Text → List FileMetadata
files_among host workspace_root k [] = []
files_among host workspace_root k (child ∷ children) =
    let rest = files_among host workspace_root k children in
    if is_file k (host.realpath child)
    then metadata_for host child workspace_root k ∷ rest
    else rest

-- `list_workspace`
unfoldable pub list_workspace : Host → Text → Text → Disk → Reply (List FileMetadata)
list_workspace host path workspace_root k = resolve host path workspace_root >>= λ target.
    check (exists k target) (file_not_found_error (codes "path not found: " ++ path)) >>= λ u.
    if is_file k target
    then ok (metadata_for host target workspace_root k ∷ [])
    else ok (files_among host workspace_root k (host.iterdir k target))
