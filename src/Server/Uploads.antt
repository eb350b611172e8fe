-- ===== src/Server/Uploads.antt =====
-- An upload of sandbox/exec_server.py in its two parts, with other requests between them.
use otari_sandbox_container.Base.{
  ◌≡◌, refl, ap, ◌∙◌, Option, none, if_true, Bool-cases, inl, inr, ltb, Text, Bytes, length,
  text_eq, Option-cases, Bool,
}
use otari_sandbox_container.Sessions.{Session, get}
use otari_sandbox_container.Sessions.Lookup.{get-destroy}
use otari_sandbox_container.Workspace.{ok}
use otari_sandbox_container.Files.{UploadResult, max_file_bytes, upload_file, read_file}
use otari_sandbox_container.Files.RoundTrip.{read_file-upload_file}
use otari_sandbox_container.Server.{
  Server, Outside, Response, success, upload_body, with_session, destroyed, destroyed_disk,
}
use otari_sandbox_container.Server.Transfer.{
  destination, UploadBegun, refused, receiving, begin_upload, finish_upload, files_upload,
}
use otari_sandbox_container.Server.Locality.{finish_upload-manager}
use otari_sandbox_container.Server.RoundTrip.{answer-ok}

abbrev continued :
    Outside → Bytes → Option Text → Option Text → UploadBegun × Server → Response × Server
continued o content filename path (refused r, s) = (r, s)
continued o content filename path (receiving x, s) = finish_upload o x content filename path s

-- The two parts, one directly after the other, are the upload.
pub files_upload-parts :
    (o : Outside) (sid : Text) (content : Bytes) (filename path : Option Text) (s : Server)
    → files_upload o sid content filename path s
      ≡ continued o content filename path (begin_upload o sid s)
unfolding files_upload begin_upload with_session
files_upload-parts o sid content filename path s = elim (Option-cases (get sid s.manager)) [
  | inl gone ↦ rw (gone, files_upload, begin_upload, with_session) refl
  | inr (x, found) ↦ rw (found, files_upload, begin_upload, with_session) refl
]

-- What is answered with 201 has been stored, whatever the session.
finish_upload-stored :
    (o : Outside) (x : Session) (content : Bytes) (filename path : Option Text) (s : Server)
    (u : UploadResult)
    → (finish_upload o x content filename path s).0 ≡ success 201 (upload_body u)
    → (mime : Text) × (read_file o.host
          (destination path filename)
          x.workspace_dir
          (finish_upload o x content filename path s).1.disk
        ≡ ok (content, mime))
finish_upload-stored o x content filename path s u =
    elim (Bool-cases (ltb max_file_bytes (length content))) [
      | inl large ↦ rw large (λ h. cc)
      | inr small ↦
          let dest = destination path filename in
          rw small (λ h.
            let good = answer-ok (upload_file o.host content dest x.workspace_dir s.disk).0 u h in
            let (size, (target, resolved, read)) =
              read_file-upload_file o.host content dest x.workspace_dir s.disk u good in
            (_, read))
    ]

destroyed-gone :
    (removable : Text → Bool) (sid : Text) (s : Server)
    → get sid (destroyed removable sid s).manager ≡ none
destroyed-gone removable sid s =
    get-destroy removable sid sid s.manager
    ∙ if_true none (get sid s.manager) ((text_eq.decides sid sid).1 refl)

destroyed-absent :
    (removable : Text → Bool) (sid : Text) (s : Server)
    → get sid s.manager ≡ none
    → (destroyed removable sid s).disk ≡ s.disk
unfolding destroyed_disk
destroyed-absent removable sid s gone = rw (gone, destroyed_disk) refl

-- An upload whose session is destroyed while its content is read: where it is answered with 201, the
-- content is on the disk, under a workspace that no session has, and the deletion of the session does not
-- remove it.
pub finish_upload-destroyed :
    (o later : Outside) (removable removable' : Text → Bool) (sid : Text) (content : Bytes)
    (filename path : Option Text) (s : Server) (x : Session) (u : UploadResult)
    → let z =
        finish_upload later x content filename path
          (destroyed removable sid (begin_upload o sid s).1) in
      (begin_upload o sid s).0 ≡ receiving x
      → z.0 ≡ success 201 (upload_body u)
      → (get sid z.1.manager ≡ none)
        × ((mime : Text) × (read_file later.host
                (destination path filename)
                x.workspace_dir
                z.1.disk
              ≡ ok (content, mime)))
        × ((destroyed removable' sid z.1).disk ≡ z.1.disk)
finish_upload-destroyed o later removable removable' sid content filename path s x u begun h =
    let t = destroyed removable sid (begin_upload o sid s).1 in
    let gone =
      ap (get sid) (finish_upload-manager later x content filename path t)
      ∙ destroyed-gone removable sid (begin_upload o sid s).1 in
    (
      gone,
      finish_upload-stored later x content filename path t u h,
      destroyed-absent removable' sid (finish_upload later x content filename path t).1 gone,
    )
