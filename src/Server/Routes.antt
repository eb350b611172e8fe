-- ===== src/Server/Routes.antt =====
-- The requests of sandbox/exec_server.py, with the validation that the framework does before a handler, and
-- what the server does by itself: the collector and the end of the process.
use otari_sandbox_container.Base.{
  ℕ, ◌≡◌, Option, none, some, List, [], ◌∷◌, Text, Bytes, codes, pos_part, Bool, length,
}
use otari_sandbox_container.Base.Dict.{Dict}
use otari_sandbox_container.Sessions.{Session, Created, overdue, list_ids}
use otari_sandbox_container.Workspace.{Disk}
use otari_sandbox_container.Limits.{Environ}
use otari_sandbox_container.Models.{Json, has_length, ExecRequest, exec_request}
use otari_sandbox_container.Server.{
  Server, Outside, Response, http_error, errors, health, get_session, create_session_request,
  CreateSessionRequest, begin_create, after_create, create_session, destroyed, destroy_session,
}
use otari_sandbox_container.Server.Exec.{Pending, begin_exec, finish_exec, exec_tool}
use otari_sandbox_container.Server.Transfer.{
  begin_upload, finish_upload, files_upload, files_download, files_list, register_request,
  register_programmatic_tools,
}

-- A request, with its body as a dict where it is JSON. An upload has its content, the name of the file and
-- the path; a listing may have no path.
pub data Request : Type 0 where
  health_check : Request
  create_request : Option (Dict Text Json) → Request
  get_request : Text → Request
  delete_request : Text → Request
  exec : Text → Dict Text Json → Request
  upload : Text → Bytes → Option Text → Option Text → Request
  download : Text → Text → Request
  list : Text → Option Text → Request
  register : Text → Dict Text Json → Request

-- The body of a request of which the validation finds errors.
abbrev pub rejected : Dict Text Json → Server → Response × Server
rejected d s = (http_error 422 (errors d), s)

-- A parsed body, or the errors.
unfoldable pub on_body :
    {A : Type 0}
    → Dict Text Json
    → Option A
    → (A → Server → Response × Server)
    → Server
    → Response × Server
on_body d none f s = rejected d s
on_body d (some a) f s = f a s

-- `Path(min_length=1, max_length=64)`
unfoldable pub on_id : Text → (Server → Response × Server) → Server → Response × Server
on_id sid f s = elim (has_length 1 64 sid) [ none ↦ rejected [] s | some _ ↦ f s ]

abbrev body_or_empty : Option (Dict Text Json) → Dict Text Json
body_or_empty none = []
body_or_empty (some d) = d

-- The handler of a request.
unfoldable pub handle : Outside → Request → Server → Response × Server
handle o health_check s = (health s, s)
handle o (create_request body) s =
    let d = body_or_empty body in
    on_body d (create_session_request o.pydantic (pos_part o.lifetimes.max_lifetime_seconds) d)
      (create_session o) s
handle o (get_request sid) s = on_id sid (λ s. (get_session sid s, s)) s
handle o (delete_request sid) s = on_id sid (destroy_session o sid) s
handle o (exec sid d) s = on_id sid (on_body d (exec_request o.pydantic d) (exec_tool o sid)) s
handle o (upload sid content filename path) s =
    on_id sid (files_upload o sid content filename path) s
handle o (download sid path) s = on_id sid (files_download o sid path) s
handle o (list sid none) s = on_id sid (files_list o sid (codes ".")) s
handle o (list sid (some path)) s = on_id sid (files_list o sid path) s
handle o (register sid d) s =
    on_id sid (on_body d (register_request o.pydantic d) (register_programmatic_tools o sid)) s

-- The sessions are destroyed one by one.
unfoldable pub destroyed_all : (Text → Bool) → List Text → Server → Server
destroyed_all removable [] s = s
destroyed_all removable (sid ∷ sids) s = destroyed_all removable sids (destroyed removable sid s)

-- A round of `_gc_loop`, where nothing else runs during it.
unfoldable pub collect : ℕ → (Text → Bool) → ℕ → Server → Server
collect tick removable now s = destroyed_all removable (overdue tick now s.manager.sessions) s

-- `_gc_loop` over the times at which it wakes.
unfoldable pub gc_loop : ℕ → (Text → Bool) → List ℕ → Server → Server
gc_loop tick removable [] s = s
gc_loop tick removable (now ∷ times) s = gc_loop tick removable times (collect tick removable now s)

-- The shutdown of the manager at the end of `lifespan`.
unfoldable pub teardown : (Text → Bool) → Server → Server
teardown removable s = destroyed_all removable (list_ids s.manager) s

-- A history of the server: handlers in any order, with the two parts of a call, those of an upload and
-- those of a creation apart from one another and anything between them, the destruction of sessions by
-- the collector, and programs that change the disk.
pub data Serves (root : Text) (max_sessions : ℕ) : Server → Type 0 where
  at_start :
      (disk : Disk) (environ : Environ)
      → Serves root max_sessions (record {
        manager = record { root = root; max_sessions = max_sessions; sessions = []; dirs = [] };
        disk = disk;
        environ = environ;
        orphans = [];
      })
  after_request :
      (s : Server) (o : Outside) (req : Request)
      → length o.fresh.uuid_hex ≡ 32
      → Serves root max_sessions s
      → Serves root max_sessions (handle o req s).1
  after_create_begins :
      (s : Server) (o : Outside) (req : CreateSessionRequest)
      → length o.fresh.uuid_hex ≡ 32
      → Serves root max_sessions s
      → Serves root max_sessions (begin_create o req s).1
  after_create_ends :
      (s : Server) (o : Outside) (result : Created)
      → Serves root max_sessions s
      → Serves root max_sessions (after_create o result s).1
  after_begin :
      (s : Server) (o : Outside) (sid : Text) (req : ExecRequest)
      → Serves root max_sessions s
      → Serves root max_sessions (begin_exec o sid req s).1
  after_finish :
      (s : Server) (o : Outside) (p : Pending)
      → Serves root max_sessions s
      → Serves root max_sessions (finish_exec o p s).1
  after_upload_begins :
      (s : Server) (o : Outside) (sid : Text)
      → Serves root max_sessions s
      → Serves root max_sessions (begin_upload o sid s).1
  after_upload_ends :
      (s : Server) (o : Outside) (x : Session) (content : Bytes) (filename path : Option Text)
      → Serves root max_sessions s
      → Serves root max_sessions (finish_upload o x content filename path s).1
  after_destroy :
      (s : Server) (removable : Text → Bool) (sid : Text)
      → Serves root max_sessions s
      → Serves root max_sessions (destroyed removable sid s)
  after_change :
      (s : Server) (disk : Disk)
      → Serves root max_sessions s
      → Serves root max_sessions (record s { disk = disk })
