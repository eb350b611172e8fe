-- ===== src/Server/RoundTrip.antt =====
-- Uploads and downloads over the requests of sandbox/exec_server.py.
use otari_sandbox_container.Base.{
  ℕ, ◌≡◌, refl, ap, sym, ◌∙◌, true, false, Option, some, List, [], ◌∷◌, ◌≢◌, Bool-cases, inl, inr,
  if_false, if_true, if_both, arith, ◌++◌, ltb, Text, Bytes, codes, length, text_eq,
}
use otari_sandbox_container.Sessions.{Session, touch, parent, get}
use otari_sandbox_container.Workspace.{
  Reply, ok, raise, resolve, Disk, Host, is_dir, permission_error, value_error,
  file_not_found_error, file_exists_error, is_a_directory_error, not_a_directory_error,
  runtime_error, ◌>>=◌, add_dirs, ancestors, make_parents, write_bytes, is_file, any_file,
}
use otari_sandbox_container.Files.{
  UploadResult, max_file_bytes, relative_to, stored, attempt, upload_file, read_file,
  mime_or_default, name_of,
}
use otari_sandbox_container.Files.RoundTrip.{read_file-upload_file}
use otari_sandbox_container.Server.{
  Server, Outside, Response, success, uncaught, status, upload_body, content_body, with_session,
}
use otari_sandbox_container.Server.Transfer.{
  answer, upload_failure, download_failure, destination, files_upload, files_download,
}
use otari_sandbox_container.Server.Local.{touched, get-touched}

-- The upload of a known session, whose content is not too large.
files_upload-known :
    (o : Outside) (sid : Text) (content : Bytes) (filename path : Option Text) (s : Server)
    (x : Session)
    → get sid s.manager ≡ some x
    → ltb max_file_bytes (length content) ≡ false
    → files_upload o sid content filename path s ≡ (
        let (r, k) =
          upload_file o.host content (destination path filename) x.workspace_dir s.disk in
        (answer 201 upload_body upload_failure r, record (touched o sid s) { disk = k }))
unfolding files_upload with_session touch
files_upload-known o sid content filename path s x found small =
    rw (found, files_upload, with_session) (if_false _ _ small)

files_download-known :
    (o : Outside) (sid path : Text) (s : Server) (x : Session)
    → get sid s.manager ≡ some x
    → files_download o sid path s ≡ (
      answer 200
          (λ (c : Bytes × Text). content_body c.0 c.1)
          download_failure
          (read_file o.host path x.workspace_dir s.disk),
      touched o sid s,
    )
unfolding files_download with_session touch
files_download-known o sid path s x found = rw (found, files_download, with_session) refl

-- The upload of a content that is too large.
files_upload-large :
    (o : Outside) (sid : Text) (content : Bytes) (filename path : Option Text) (s : Server)
    (x : Session) (u : UploadResult)
    → get sid s.manager ≡ some x
    → ltb max_file_bytes (length content) ≡ true
    → (files_upload o sid content filename path s).0 ≢ success 201 (upload_body u)
unfolding files_upload with_session
files_upload-large o sid content filename path s x u found large =
    rw (found, files_upload, with_session) (rw large (λ h. cc))

pub answer-ok :
    (r : Reply UploadResult) (u : UploadResult)
    → answer 201 upload_body upload_failure r ≡ success 201 (upload_body u)
    → r ≡ ok u
answer-ok (ok v) u h = cc
answer-ok (raise (permission_error m)) u h = cc
answer-ok (raise (file_not_found_error m)) u h = cc
answer-ok (raise (file_exists_error m)) u h = cc
answer-ok (raise (value_error m)) u h = cc
answer-ok (raise (is_a_directory_error m)) u h = cc
answer-ok (raise not_a_directory_error) u h = cc
answer-ok (raise runtime_error) u h = cc

-- Where an upload to a known session is answered with 201, it reports the size of the content, and a
-- download of the destination, at any later time, is answered with 200 and the content, byte for byte. The
-- destination is the path of the form, or else the name of the file, or else upload.bin.
pub files_download-files_upload :
    (o : Outside) (later : ℕ) (sid : Text) (content : Bytes) (filename path : Option Text)
    (s : Server) (x : Session) (u : UploadResult)
    → get sid s.manager ≡ some x
    → (files_upload o sid content filename path s).0 ≡ success 201 (upload_body u)
    → (u.size_bytes ≡ length content)
      × ((mime : Text) × ((files_download
              (record o { now = later })
              sid
              (destination path filename)
              (files_upload o sid content filename path s).1).0
            ≡ success 200 (content_body content mime)))
unfolding touch
files_download-files_upload o later sid content filename path s x u found h =
    elim (Bool-cases (ltb max_file_bytes (length content))) [
      | inl large ↦ absurd (files_upload-large o sid content filename path s x u found large h)
      | inr small ↦
          let dest = destination path filename in
          let e = files_upload-known o sid content filename path s x found small in
          let stored = upload_file o.host content dest x.workspace_dir s.disk in
          let t : Server = record (touched o sid s) { disk = stored.1 } in
          let good : stored.0 ≡ ok u =
            answer-ok stored.0 u (sym (ap (λ (z : Response × Server). z.0) e) ∙ h) in
          let (size, (target, resolved, read)) =
            read_file-upload_file o.host content dest x.workspace_dir s.disk u good in
          (
            size,
            (
              mime_or_default (o.host.guess_type (name_of target)),
              ap
                    (λ (z : Response × Server).
                      (files_download (record o { now = later }) sid dest z.1).0)
                    e
                  ∙ ap (λ (z : Response × Server). z.0)
                      (files_download-known (record o { now = later }) sid dest t (touch x o.now)
                        (get-touched o sid x s found))
                  ∙ ap (answer 200 (λ (c : Bytes × Text). content_body c.0 c.1) download_failure)
                      read,
            ),
          )
    ]

is_dir-add_dirs :
    (ds : List Text) (t : Text) (k : Disk) → is_dir k t ≡ true → is_dir (add_dirs ds k) t ≡ true
unfolding is_dir
is_dir-add_dirs [] t k h = h
is_dir-add_dirs (d ∷ ds) t k h = ground (arith, is_dir-add_dirs ds t k)

read_file-directory :
    (host : Host) (path root t : Text) (k : Disk)
    → resolve host path root ≡ ok t
    → is_dir k t ≡ true
    → read_file host path root k ≡ raise (is_a_directory_error (codes "is a directory: " ++ path))
unfolding read_file ◌>>=◌
read_file-directory host path root t k resolved dir = elim (Bool-cases (is_file k t)) [
  | inl e ↦ rw (resolved, read_file) (rw (e, dir) refl)
  | inr e ↦ rw (resolved, read_file) (rw (e, dir) refl)
]

module _ (host : Host) (content : Bytes) (root t : Text) (k : Disk) where
  abbrev Fails : Reply Disk → Type 0
  Fails r =
      answer 201 upload_body upload_failure
        (attempt k (r >>= λ k'. ok (t, k')) (stored host content root)).0
      ≡ uncaught

  stored-directory : (k' : Disk) → is_dir k' t ≡ true → Fails (ok k')
  unfolding ◌>>=◌ write_bytes
  stored-directory k' dir =
      ap
        (λ (z : Reply Unit × Disk). answer 201 upload_body upload_failure (
          z.0 >>= λ u.
          ok (record { path = relative_to (host.realpath root) t; size_bytes = length content })))
        (if_true (raise (is_a_directory_error (host.os_message t)), k') _ dir)

  make_parents-directory : is_dir k t ≡ true → Fails (make_parents host t k)
  unfolding make_parents ◌>>=◌
  make_parents-directory dir =
      if_both Fails (is_file k (parent t)) _ _ (λ e. refl)
        (λ e.
          if_both Fails (any_file k (ancestors [] t)) _ _ (λ e. refl)
            (λ e.
              stored-directory (add_dirs (ancestors [] t) k)
                (is_dir-add_dirs (ancestors [] t) t k dir)))

upload_file-directory :
    (host : Host) (content : Bytes) (dest root t : Text) (k : Disk)
    → ltb max_file_bytes (length content) ≡ false
    → resolve host dest root ≡ ok t
    → is_dir k t ≡ true
    → answer 201 upload_body upload_failure (upload_file host content dest root k).0 ≡ uncaught
unfolding upload_file ◌>>=◌
upload_file-directory host content dest root t k small resolved dir =
    ap (λ (z : Reply UploadResult × Disk). answer 201 upload_body upload_failure z.0)
      (if_false _ _ small)
    ∙ ap
        (λ (r : Reply Text).
          answer 201 upload_body upload_failure
            (attempt k (r >>= λ t. make_parents host t k >>= λ k'. ok (t, k'))
              (stored host content root)).0)
        resolved
    ∙ make_parents-directory host content root t k dir

-- An upload to a known session, of a content that is not too large, to a destination that resolves to a
-- directory: the exception is one that the handler does not name, and the response has status 500, where
-- a download of the same path is answered with 400.
pub files_upload_directory :
    (o : Outside) (sid : Text) (content : Bytes) (filename path : Option Text) (s : Server)
    (x : Session) (t : Text)
    → get sid s.manager ≡ some x
    → ltb max_file_bytes (length content) ≡ false
    → resolve o.host (destination path filename) x.workspace_dir ≡ ok t
    → is_dir s.disk t ≡ true
    → (status (files_upload o sid content filename path s).0 ≡ some 500)
      × (status (files_download o sid (destination path filename) s).0 ≡ some 400)
files_upload_directory o sid content filename path s x t found small resolved dir =
    let dest = destination path filename in
    (
      ap (λ (z : Response × Server). status z.0)
            (files_upload-known o sid content filename path s x found small)
          ∙ ap status (
              upload_file-directory o.host content dest x.workspace_dir t s.disk small resolved
                dir),
      ap (λ (z : Response × Server). status z.0) (files_download-known o sid dest s x found)
          ∙ ap
              (λ (r : Reply (Bytes × Text)).
                status (answer 200 (λ (c : Bytes × Text). content_body c.0 c.1) download_failure r))
              (read_file-directory o.host dest x.workspace_dir t s.disk resolved dir),
    )
