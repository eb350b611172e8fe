-- ===== src/Files/RoundTrip.antt =====
-- Uploads of sandbox/files.py: what they store, and what they leave alone.
use otari_sandbox_container.Base.{
  ◌≡◌, refl, ap, sym, ◌∙◌, true, false, some, [], ltb, Text, Bytes, length, text_eq, Bool-cases,
  inl, inr,
}
use otari_sandbox_container.Base.Dict.{lookup, lookup-insert_same}
use otari_sandbox_container.Sessions.{parent}
use otari_sandbox_container.Workspace.{
  Disk, Host, Reply, ok, raise, ◌>>=◌, is_dir, is_file, is_under, resolve, read_bytes, write_bytes,
  any_file, ancestors,
}
use otari_sandbox_container.TextEditor.Confined.{
  IsOutside, inside-other, Yields, bind-Yields, resolve-IsUnder, make_parents-files,
  write_bytes-other,
}
use otari_sandbox_container.Files.{
  UploadResult, relative_to, max_file_bytes, stored, attempt, upload_to, upload_file, read_file,
  mime_or_default, name_of,
}

-- A write that succeeds: the file has the bytes, and its path is no directory.
abbrev Stored : Text → Bytes → Reply Unit × Disk → Type 0
Stored t bs (ok u, k) = (lookup t k.files ≡ some bs) × (is_dir k t ≡ false)
Stored t bs (raise x, k) = Unit

write_bytes-Stored :
    (host : Host) (t : Text) (bs : Bytes) (k : Disk) → Stored t bs (write_bytes host t bs k)
unfolding write_bytes is_dir
write_bytes-Stored host t bs k = elim (Bool-cases (is_dir k t)) [
  | inl d ↦ rw (d, write_bytes) tt
  | inr d ↦ elim (Bool-cases (is_dir k (parent t))) [
    | inl p ↦ rw (d, p, write_bytes) (lookup-insert_same t bs k.files, d)
    | inr p ↦ elim (Bool-cases (any_file k (ancestors [] t))) [
      | inl f ↦ rw (d, p, f, write_bytes) tt
      | inr f ↦ rw (d, p, f, write_bytes) tt
    ]
  ]
]

read_file-stored :
    (host : Host) (path root t : Text) (bs : Bytes) (k : Disk)
    → resolve host path root ≡ ok t
    → lookup t k.files ≡ some bs
    → is_dir k t ≡ false
    → read_file host path root k ≡ ok (bs, mime_or_default (host.guess_type (name_of t)))
unfolding read_file read_bytes is_file ◌>>=◌
read_file-stored host path root t bs k r file d =
    rw (r, read_file) (rw (file, d, read_bytes, is_file) refl)

module _ (host : Host) (content : Bytes) (path root : Text) where
  -- If it succeeds, reading the same path gives the content.
  abbrev Reads : Reply UploadResult × Disk → Type 0
  Reads z =
      (u : UploadResult)
      → z.0 ≡ ok u
      → (u.size_bytes ≡ length content)
        × ((t : Text) × (resolve host path root ≡ ok t)
            × (read_file host path root z.1
                ≡ ok (content, mime_or_default (host.guess_type (name_of t)))))

  stored-Reads :
      (t : Text) (k : Disk)
      → resolve host path root ≡ ok t
      → Reads (stored host content root (t, k))
  unfolding ◌>>=◌
  stored-Reads t k r = of_write (write_bytes host t content k) (write_bytes-Stored host t content k)
    where
      of_write :
          (z : Reply Unit × Disk)
          → Stored t content z
          → Reads (
            (z.0 >>= λ u. ok (record {
              path = relative_to (host.realpath root) t;
              size_bytes = length content;
            })),
            z.1,
          )
      of_write (ok u, k) s = λ v h. (
        sym (
            ap
              (λ (r : Reply UploadResult). elim r [
                | ok w ↦ w.size_bytes
                | raise x ↦ length content
              ])
              h),
        (t, r, read_file-stored host path root t content k r s.0 s.1),
      )
      of_write (raise x, k) s = λ v h. cc

  attempt-Reads :
      (k : Disk) (p : Reply (Text × Disk))
      → Yields (λ (q : Text × Disk). resolve host path root ≡ ok q.0) p
      → Reads (attempt k p (stored host content root))
  attempt-Reads k (ok q) h = stored-Reads q.0 q.1 h
  attempt-Reads k (raise x) h = λ u e. cc

  upload_to-resolve :
      (k : Disk)
      → Yields (λ (q : Text × Disk). resolve host path root ≡ ok q.0) (upload_to host path root k)
  upload_to-resolve k = bind-Yields _ _ _ (λ t r. bind-Yields _ _ _ (λ k' h. r))

  -- Where an upload succeeds, it reports the size of the content, the path resolves to a file of the
  -- workspace, and reading that path then gives the content, byte for byte, with the type that its name
  -- suggests.
  pub read_file-upload_file :
      (k : Disk) (u : UploadResult)
      → (upload_file host content path root k).0 ≡ ok u
      → (u.size_bytes ≡ length content)
        × ((t : Text) × (resolve host path root ≡ ok t)
            × (read_file host path root (upload_file host content path root k).1
                ≡ ok (content, mime_or_default (host.guess_type (name_of t)))))
  unfolding upload_file
  read_file-upload_file k = elim (Bool-cases (ltb max_file_bytes (length content))) [
    | inl e ↦ rw (e, upload_file) (λ u h. cc)
    | inr e ↦
        rw (e, upload_file) (attempt-Reads k (upload_to host path root k) (upload_to-resolve k))
  ]

-- Whatever the upload and its result: a file that is neither the resolved
-- workspace nor below it is as it was.
pub lookup-upload_file :
    (host : Host) (content : Bytes) (path root j : Text) (k : Disk)
    → IsOutside (host.realpath root) j
    → lookup j (upload_file host content path root k).1.files ≡ lookup j k.files
unfolding upload_file
lookup-upload_file host content path root j k outside =
    elim (Bool-cases (ltb max_file_bytes (length content))) [
      | inl e ↦ rw (e, upload_file) refl
      | inr e ↦ rw (e, upload_file) (of_attempt (upload_to host path root k) upload_to-inside)
    ]
  where
    Inside : Text × Disk → Type 0
    Inside q = (is_under (host.realpath root) q.0 ≡ true) × (q.1.files ≡ k.files)

    upload_to-inside : Yields Inside (upload_to host path root k)
    upload_to-inside = bind-Yields _ _ _ (λ t r.
        bind-Yields _ _ _
          (λ k' h. (resolve-IsUnder host path root t r, make_parents-files host t k k' h)))

    of_attempt :
        (p : Reply (Text × Disk))
        → Yields Inside p
        → lookup j (attempt k p (stored host content root)).1.files ≡ lookup j k.files
    of_attempt (raise x) h = refl
    of_attempt (ok (t, k')) h =
        write_bytes-other host t j content k' (inside-other (host.realpath root) t j outside h.0)
        ∙ ap (lookup j) h.1
