-- ===== src/Server/Transfer.antt =====
-- The handlers of sandbox/exec_server.py for files and for the stub module of a session.
use otari_sandbox_container.Base.{
  ℕ, ◌*◌, ◌/◌, Option, none, some, List, [], ◌∷◌, ◌++◌, if◌then◌else◌, ltb, Text, Bytes, codes, pos,
  length, ◌==◌, nat_eq,
}
use otari_sandbox_container.Base.Dict.{Dict}
use otari_sandbox_container.Decimal.{show_nat}
use otari_sandbox_container.Sessions.{Session}
use otari_sandbox_container.Workspace.{
  Exception, permission_error, file_not_found_error, is_a_directory_error, value_error, Reply, ok,
  raise,
}
use otari_sandbox_container.Files.{max_file_bytes, upload_file, read_file, list_workspace}
use otari_sandbox_container.PlatformTools.{ProgrammaticTool}
use otari_sandbox_container.PlatformTools.Render.{StubConfig}
use otari_sandbox_container.PlatformTools.Install.{install_stubs}
use otari_sandbox_container.Models.{
  Json, array, Items, no_items, item, Pydantic, ◌>>=◌, as_dict, required, defaulted, in_bounds,
}
use otari_sandbox_container.Server.{
  Server, Outside, Response, success, http_error, uncaught, Body, upload_body, content_body,
  list_body, registered_body, message, with_session,
}

-- A response for the result of a call: the status and the body of a success, and for each class of
-- exception that the handler names its status.
abbrev pub answer : {A : Type 0} → ℕ → (A → Body) → (Exception → Response) → Reply A → Response
answer code body failure (ok a) = success code (body a)
answer code body failure (raise x) = failure x

abbrev pub upload_failure : Exception → Response
upload_failure (permission_error m) = http_error 403 (message m)
upload_failure (value_error m) = http_error 413 (message m)
upload_failure x = uncaught

abbrev pub download_failure : Exception → Response
download_failure (permission_error m) = http_error 403 (message m)
download_failure (file_not_found_error m) = http_error 404 (message m)
download_failure (is_a_directory_error m) = http_error 400 (message m)
download_failure x = uncaught

abbrev pub list_failure : Exception → Response
list_failure (permission_error m) = http_error 403 (message m)
list_failure (file_not_found_error m) = http_error 404 (message m)
list_failure x = uncaught

abbrev pub register_failure : Exception → Response
register_failure (value_error m) = http_error 422 (message m)
register_failure x = uncaught

-- The text, or none where it is absent or empty.
abbrev non_empty : Option Text → Option Text
non_empty none = none
non_empty (some s) = if length s == 0 then none else some s

-- `path or file.filename or "upload.bin"`
abbrev pub destination : Option Text → Option Text → Text
destination path filename = elim (non_empty path) [
  | some p ↦ p
  | none ↦ elim (non_empty filename) [ some f ↦ f | none ↦ codes "upload.bin" ]
]

-- `files_upload` with the session object that it holds, once the content has been read.
abbrev pub finish_upload :
    Outside → Session → Bytes → Option Text → Option Text → Server → Response × Server
finish_upload o x content filename path s =
    if ltb max_file_bytes (length content)
    then (
      http_error 413 (
          message (
            codes "file exceeds "
            ++ (show_nat (max_file_bytes / (1024 * 1024)) ++ codes " MB limit"))),
      s,
    )
    else let (r, k) =
        upload_file o.host content (destination path filename) x.workspace_dir s.disk in
      (answer 201 upload_body upload_failure r, record s { disk = k })

-- What `files_upload` does until it waits for the content of the file.
pub data UploadBegun : Type 0 where
  refused : Response → UploadBegun
  receiving : Session → UploadBegun

unfoldable pub begin_upload : Outside → Text → Server → UploadBegun × Server
begin_upload o sid s = with_session refused o sid (λ x s. (receiving x, s)) s

-- `files_upload`, where nothing else runs while it waits.
unfoldable pub files_upload :
    Outside → Text → Bytes → Option Text → Option Text → Server → Response × Server
files_upload o sid content filename path s =
    with_session (λ r. r) o sid (λ x s. finish_upload o x content filename path s) s

-- `files_download`
unfoldable pub files_download : Outside → Text → Text → Server → Response × Server
files_download o sid path s =
    with_session (λ r. r) o sid
      (λ x s. (
        answer 200 (λ (c : Bytes × Text). content_body c.0 c.1) download_failure
            (read_file o.host path x.workspace_dir s.disk),
        s,
      ))
      s

-- `files_list`
unfoldable pub files_list : Outside → Text → Text → Server → Response × Server
files_list o sid path s =
    with_session (λ r. r) o sid
      (λ x s.
        (answer 200 list_body list_failure (list_workspace o.host path x.workspace_dir s.disk), s))
      s

pub record RegisterProgrammaticToolsRequest : Type 0 where
  pub callback_url : Text
  pub token : Text
  pub tools : List ProgrammaticTool
  pub timeout_seconds : ℕ

abbrev tool_descriptor : Pydantic → Json → Option ProgrammaticTool
tool_descriptor p v = do
  d ← as_dict v
  name ← required p.as_str (codes "name") d
  doc ← defaulted p.as_str [] (codes "doc") d
  some (record { name = name; doc = doc })

abbrev descriptors_of : Pydantic → Items → Option (List ProgrammaticTool)
descriptors_of p no_items = some []
descriptors_of p (item v items) =
    let rest = descriptors_of p items in tool_descriptor p v >>= λ t. rest >>= λ ts. some (t ∷ ts)

abbrev tool_descriptors : Pydantic → Json → Option (List ProgrammaticTool)
tool_descriptors p (array items) = descriptors_of p items
tool_descriptors p v = none

-- The body of the request.
unfoldable pub register_request :
    Pydantic → Dict Text Json → Option RegisterProgrammaticToolsRequest
register_request p d = do
  callback_url ← required p.as_str (codes "callback_url") d
  token ← required p.as_str (codes "token") d
  tools ← defaulted (tool_descriptors p) [] (codes "tools") d
  timeout ← defaulted p.as_int (pos 300) (codes "timeout_seconds") d
  timeout_seconds ← in_bounds 1 3600 timeout
  some (record {
    callback_url = callback_url;
    token = token;
    tools = tools;
    timeout_seconds = timeout_seconds;
  })

abbrev pub config_of : RegisterProgrammaticToolsRequest → StubConfig
config_of req = record {
  callback_url = req.callback_url;
  token = req.token;
  tools = req.tools;
  timeout_seconds = pos req.timeout_seconds;
}

-- `register_programmatic_tools`
unfoldable pub register_programmatic_tools :
    Outside → Text → RegisterProgrammaticToolsRequest → Server → Response × Server
register_programmatic_tools o sid req s =
    with_session (λ r. r) o sid
      (λ x s.
        let (r, k) =
          install_stubs o.printable o.is_keyword o.host (config_of req) x.stub_dir s.disk in
        (
          answer 200 (λ path. registered_body path (length req.tools)) register_failure r,
          record s { disk = k },
        ))
      s
