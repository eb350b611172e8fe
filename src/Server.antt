-- ===== src/Server.antt =====
-- sandbox/exec_server.py: the state of the exec server, its responses, and the handlers that read, make
-- and destroy sessions.
pub mod Exec
pub mod Transfer
pub mod Routes
pub mod Local
pub mod Locality
pub mod Requests
pub mod Confined
pub mod Spared
pub mod Execution
pub mod Orphans
pub mod Lifecycle
pub mod RoundTrip
pub mod Ends
pub mod Shell
pub mod Uploads
pub mod Declared
pub mod Typed
use otari_sandbox_container.Base.{
  ℕ, ◌≡◌, Bool, true, false, ◌||◌, Option, none, some, List, [], ◌∷◌, ◌++◌, if◌then◌else◌, leb,
  Text, Bytes, codes, ℤ, pos, length, text_eq,
}
use otari_sandbox_container.Base.Dict.{Dict, lookup, insert}
use otari_sandbox_container.Limits.{Environ}
use otari_sandbox_container.RunnerPool.{Proc, RunnerProcess, start, is_alive}
use otari_sandbox_container.RunnerPool.Execute.{Exchange}
use otari_sandbox_container.Bash.{Communicated}
use otari_sandbox_container.Sessions.{
  Session, SessionManager, touch, parent, Fresh, Created, created, limit_exceeded, os_error,
  value_error, Lifetimes, create, destroy, get, count, touch_session, path_join, id_of,
}
use otari_sandbox_container.Workspace.{Disk, Host, is_under, add_dirs, ancestors}
use otari_sandbox_container.Files.{FileMetadata, UploadResult}
use otari_sandbox_container.Models.{
  Json, Pydantic, ◌>>=◌, optional, nullable, defaulted, in_bounds, ExecResponse,
}

-- The manager, the disk, the environment of the process, and the runners that a call has used after
-- their session had left the manager.
pub record Server : Type 0 where
  pub manager : SessionManager
  pub disk : Disk
  pub environ : Environ
  pub orphans : List RunnerProcess

-- What comes from outside during one request: the clock, the file system, the libraries, the process
-- that is spawned (none where that fails), what the runner or the shell does, and the disk as it leaves it.
pub record Outside : Type 0 where
  pub now : ℕ
  pub host : Host
  pub pydantic : Pydantic
  pub printable : ℕ → Bool
  pub is_keyword : Text → Bool
  pub lifetimes : Lifetimes
  pub fresh : Fresh
  pub removable : Text → Bool
  pub spawned : Option Proc
  pub exchange : Exchange
  pub shell : Communicated
  pub disk_after : Disk
  pub uuid_hex : Text
  pub elapsed_ms : ℕ

pub record SessionPublic : Type 0 where
  pub session_id : Text
  pub created_at : ℕ
  pub last_activity_at : ℕ
  pub idle_timeout_seconds : ℤ
  pub max_lifetime_seconds : ℤ

-- `_to_public`
unfoldable pub to_public : Session → SessionPublic
to_public s = record {
  session_id = s.session_id;
  created_at = s.created_at;
  last_activity_at = s.last_activity_at;
  idle_timeout_seconds = s.idle_timeout_seconds;
  max_lifetime_seconds = s.max_lifetime_seconds;
}

pub data Body : Type 0 where
  health_body : ℕ → ℕ → Body
  session_body : SessionPublic → Body
  empty_body : Body
  exec_body : ExecResponse → Body
  upload_body : UploadResult → Body
  content_body : Bytes → Text → Body
  list_body : List FileMetadata → Body
  registered_body : Text → ℕ → Body

-- The detail of an `HTTPException`: a text, or the errors that the validation finds in a dict.
pub data Detail : Type 0 where
  message : Text → Detail
  errors : Dict Text Json → Detail

-- What a handler ends with: a response, an `HTTPException`, another exception, or nothing yet.
pub data Response : Type 0 where
  success : ℕ → Body → Response
  http_error : ℕ → Detail → Response
  uncaught : Response
  no_reply : Response

-- The status that the client sees; the framework answers 500 for an exception of another class.
abbrev pub status : Response → Option ℕ
status (success code body) = some code
status (http_error code detail) = some code
status uncaught = some 500
status no_reply = none

-- `health`
unfoldable pub health : Server → Response
health s = success 200 (health_body (count s.manager) s.manager.max_sessions)

-- `get_session`
unfoldable pub get_session : Text → Server → Response
get_session sid s = elim (get sid s.manager) [
  | none ↦ http_error 404 (message sid)
  | some x ↦ success 200 (session_body (to_public x))
]

-- `path.mkdir(parents=True, exist_ok=True)` where it succeeds.
abbrev pub made : Text → Disk → Disk
made path k = add_dirs (ancestors [] (path ++ codes "/")) k

-- What `create` of sandbox/sessions.py makes on the disk.
unfoldable pub created_disk : SessionManager → Fresh → Disk → Disk
created_disk m f k =
    let dir = path_join m.root (id_of f) in
    if leb m.max_sessions (length m.sessions)
    then k
    else if f.workspace_made
    then (if f.stub_made
        then made (path_join dir (codes "lib")) (made (path_join dir (codes "workspace")) k)
        else made (path_join dir (codes "workspace")) k)
    else k

pub record CreateSessionRequest : Type 0 where
  pub idle_timeout_seconds : Option ℤ
  pub max_lifetime_seconds : Option ℤ

-- A field of `CreateSessionRequest`, with `DEFAULT_MAX_LIFETIME_SECONDS` as its upper bound.
abbrev lifetime_field : Pydantic → ℕ → Text → Dict Text Json → Option (Option ℤ)
lifetime_field p high name d =
    defaulted (nullable (λ v. p.as_int v >>= λ n. in_bounds 1 high n >>= λ m. some (pos m))) none
      name d

unfoldable pub create_session_request : Pydantic → ℕ → Dict Text Json → Option CreateSessionRequest
create_session_request p high d = do
  idle ← lifetime_field p high (codes "idle_timeout_seconds") d
  life ← lifetime_field p high (codes "max_lifetime_seconds") d
  some (record { idle_timeout_seconds = idle; max_lifetime_seconds = life })

-- `session` under its key, after a change.
abbrev pub put_session : Text → Session → Server → Server
put_session sid x s = record s {
  manager = record s.manager { sessions = insert sid x s.manager.sessions };
}

-- A process that runs without a session that holds it.
abbrev pub abandoned : RunnerProcess → List RunnerProcess → List RunnerProcess
abandoned r orphans = if is_alive r then r ∷ orphans else orphans

abbrev pub given_process : Session → Proc → Session
given_process x p = record x { runner = record x.runner { proc = some p } }

-- The end of `await session.runner.start()`, which found no process when it began, and the response. The
-- process replaces one that a call has started in the meantime; a session that was destroyed in the
-- meantime has left the manager.
abbrev pub started : Outside → Session → Server → Response × Server
started o x s = elim o.spawned [
  | none ↦ (uncaught, s)
  | some p ↦ elim (get x.session_id s.manager) [
    | none ↦ (
      success 201 (session_body (to_public x)),
      record s { orphans = (given_process x p).runner ∷ s.orphans },
    )
    | some y ↦ (
      success 201 (session_body (to_public y)),
      put_session x.session_id (given_process y p)
          (record s { orphans = abandoned y.runner s.orphans }),
    )
  ]
]

-- `create_session` from the end of `create` on.
abbrev pub after_create : Outside → Created → Server → Response × Server
after_create o (created x) s = started o x s
after_create o (limit_exceeded detail) s = (http_error 503 (message detail), s)
after_create o os_error s = (uncaught, s)
after_create o value_error s = (uncaught, s)

-- `create_session` until it waits for the runner.
unfoldable pub begin_create : Outside → CreateSessionRequest → Server → Created × Server
begin_create o req s =
    let (result, manager) =
      create s.manager o.lifetimes req.idle_timeout_seconds req.max_lifetime_seconds o.fresh in
    (result, record s { manager = manager; disk = created_disk s.manager o.fresh s.disk })

-- `create_session`, where nothing else runs while it waits.
unfoldable pub create_session : Outside → CreateSessionRequest → Server → Response × Server
create_session o req s = let (result, t) = begin_create o req s in after_create o result t

abbrev pub files_outside : Text → Dict Text Bytes → Dict Text Bytes
files_outside dir [] = []
files_outside dir ((path, bs) ∷ files) =
    let rest = files_outside dir files in if is_under dir path then rest else (path, bs) ∷ rest

abbrev dirs_outside : Text → List Text → List Text
dirs_outside dir [] = []
dirs_outside dir (path ∷ paths) =
    let rest = dirs_outside dir paths in if is_under dir path then rest else path ∷ rest

-- `shutil.rmtree(dir)`
unfoldable pub remove_tree : Text → Disk → Disk
remove_tree dir k = record { files = files_outside dir k.files; dirs = dirs_outside dir k.dirs }

-- What `destroy` of sandbox/sessions.py removes from the disk.
unfoldable pub destroyed_disk : (Text → Bool) → Text → SessionManager → Disk → Disk
destroyed_disk removable sid m k = elim (get sid m) [
  | none ↦ k
  | some x ↦
      if removable (parent x.workspace_dir) then remove_tree (parent x.workspace_dir) k else k
]

abbrev pub destroyed : (Text → Bool) → Text → Server → Server
destroyed removable sid s = record s {
  manager = destroy removable sid s.manager;
  disk = destroyed_disk removable sid s.manager s.disk;
}

-- `destroy_session`
unfoldable pub destroy_session : Outside → Text → Server → Response × Server
destroy_session o sid s = (success 204 empty_body, destroyed o.removable sid s)

-- `_require_session` and `session.touch()`, which the handlers of a session begin with; `absent` is what
-- the exception becomes.
unfoldable pub with_session :
    {A : Type 0}
    → (Response → A)
    → Outside
    → Text
    → (Session → Server → A × Server)
    → Server
    → A × Server
with_session absent o sid body s = elim (get sid s.manager) [
  | none ↦ (absent (http_error 404 (message sid)), s)
  | some x ↦ body (touch x o.now) (record s { manager = touch_session sid o.now s.manager })
]
