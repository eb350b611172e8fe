-- ===== src/Tests/ServerTests.antt =====
-- Runs of the definitions for sandbox/exec_server.py: the sessions and their files.
use otari_sandbox_container.Base.{
  ◌≡◌, refl, inl, true, false, Option, none, some, [], ◌∷◌, ◌++◌, Text, codes, ℤ, pos, arith,
  text_eq, text_beq, starts_with,
}
use otari_sandbox_container.Base.Dict.{lookup, insert}
use otari_sandbox_container.Decimal.{parse_int}
use otari_sandbox_container.Limits.{builtin_limits}
use otari_sandbox_container.Bash.{finished}
use otari_sandbox_container.Sessions.{
  Session, builtin_lifetimes, id_of, get, create, touch, touch_session, parent, is_idle, is_expired,
}
use otari_sandbox_container.Sessions.Invariant.{IsValid}
use otari_sandbox_container.Sessions.Specification.{
  create_call, get_call, shutdown_call, perform_all, AllowsAll, view,
}
use otari_sandbox_container.Runner.{enter_workspace}
use otari_sandbox_container.RunnerPool.{runner_environ}
use otari_sandbox_container.Sessions.Startup.{BeginsWith, enter_workspace-runner_environ}
use otari_sandbox_container.Sessions.Refinement.{perform_all-AllowsAll}
use otari_sandbox_container.Workspace.{
  Disk, ok, resolve, is_under, is_dir, is_file, make_parents, write_bytes, ◌>>=◌,
}
use otari_sandbox_container.RunnerPool.{start}
use otari_sandbox_container.Files.{UploadResult, upload_file, relative_to, read_file}
use otari_sandbox_container.Models.{Json, string, number, Pydantic, has_length}
use otari_sandbox_container.Server.{
  Server, Outside, success, uncaught, status, session_body, content_body, to_public, get_session,
  begin_create, after_create, create_session, CreateSessionRequest, create_session_request,
  created_disk, with_session, destroy_session, empty_body, destroyed, destroyed_disk, remove_tree,
}
use otari_sandbox_container.Server.Transfer.{
  files_upload, files_download, begin_upload, finish_upload,
}
use otari_sandbox_container.Server.Declared.{IsDeclared}
use otari_sandbox_container.Server.Typed.{handle-IsDeclared}
use otari_sandbox_container.Server.Routes.{
  upload, download, delete_request, handle, Serves, at_start, after_request, create_request,
  on_body, gc_loop, teardown,
}
use otari_sandbox_container.Server.Requests.{handle-others, Serves-IsValid}
use otari_sandbox_container.Server.Spared.{files_apart}
use otari_sandbox_container.Server.Lifecycle.{
  IsRefused, handle_unknown, made_session, get_session-create_session, create_session_unstarted,
}
use otari_sandbox_container.Server.Ends.{gc_loop-get, destroy_session_lem}
use otari_sandbox_container.Server.Orphans.{after_create-destroyed}
use otari_sandbox_container.Server.Uploads.{finish_upload-destroyed}
use otari_sandbox_container.Server.RoundTrip.{files_download-files_upload}
use otari_sandbox_container.Tests.RunnerTests.{ascii_printable}
use otari_sandbox_container.Tests.PoolTests.{fresh, exchange}
use otari_sandbox_container.Tests.SessionsTests.{empty, fresh_a, fresh_b, session_a, one}
use otari_sandbox_container.Tests.EditorTests.{plain_host}

-- a reading of JSON values without conversions
abbrev as_str : Json → Option Text
as_str (string s) = some s
as_str v = none

abbrev as_int : Json → Option ℤ
as_int (number s) = parse_int s
as_int v = none

abbrev pub plain_pydantic : Pydantic
plain_pydantic = record { as_str = as_str; as_int = as_int }

abbrev pub empty_disk : Disk
empty_disk = record { files = []; dirs = [] }

abbrev pub outside : Outside
outside = record {
  now = 5;
  host = plain_host;
  pydantic = plain_pydantic;
  printable = ascii_printable;
  is_keyword = λ s. false;
  lifetimes = builtin_lifetimes;
  fresh = fresh_b;
  removable = λ d. true;
  spawned = some fresh;
  exchange = exchange [];
  shell = finished [] [] (some (pos 0));
  disk_after = empty_disk;
  uuid_hex = codes "cccccccccccccccccccccccccccccccc";
  elapsed_ms = 3;
}

abbrev pub a : Text
a = id_of fresh_a

abbrev pub b : Text
b = id_of fresh_b

-- the directory of the first session, with its workspace
abbrev workspace_a : Text
workspace_a = codes "/s/sbx_aaaaaaaaaaaaaaaaaaaaaaaa/workspace"

abbrev disk_a : Disk
disk_a = record { files = (workspace_a ++ codes "/f", codes "kept") ∷ []; dirs = workspace_a ∷ [] }

abbrev pub server : Server
server = record { manager = one; disk = disk_a; environ = []; orphans = [] }

pub one-IsValid : IsValid one
unfolding lookup
one-IsValid = record {
  nodup = (refl, tt);
  bounded = omega arith;
  owned = (
    record {
      named = refl;
      workspace = refl;
      stubs = refl;
      runs_in = refl;
      imports_from = refl;
      short = refl;
    },
    tt,
  );
}

perform_all-AllowsAll_example :
    AllowsAll 2
      (view one)
      (create_call builtin_lifetimes none none fresh_b
        ∷ get_call a
        ∷ shutdown_call (λ d. false)
        ∷ [])
      (perform_all
        (create_call builtin_lifetimes none none fresh_b
          ∷ get_call a
          ∷ shutdown_call (λ d. false)
          ∷ [])
        one)
perform_all-AllowsAll_example =
    perform_all-AllowsAll
      (create_call builtin_lifetimes none none fresh_b
        ∷ get_call a
        ∷ shutdown_call (λ d. false)
        ∷ [])
      one one-IsValid (refl, (tt, (tt, tt)))

handle-others_example :
    get a (handle outside (delete_request b) server).1.manager ≡ get a server.manager
unfolding text_eq text_beq
handle-others_example =
    handle-others outside (delete_request b) server a refl (λ h. ground (arith, h))

handle_unknown_example :
    ((handle outside (download b (codes "f")) server).1 ≡ server)
    × IsRefused b (handle outside (download b (codes "f")) server).0
unfolding get lookup text_eq text_beq
handle_unknown_example = handle_unknown outside server (download b (codes "f")) refl refl

abbrev no_overrides : CreateSessionRequest
no_overrides = record { idle_timeout_seconds = none; max_lifetime_seconds = none }

get_session-create_session_example :
    ((create_session outside no_overrides server).0
      ≡ success 201
          (session_body (to_public (made_session outside no_overrides server builtin_limits))))
    × (get_session b (create_session outside no_overrides server).1
        ≡ success 200
            (session_body (to_public (made_session outside no_overrides server builtin_limits))))
get_session-create_session_example =
    get_session-create_session outside no_overrides server builtin_limits fresh (omega arith) refl
      refl refl refl

abbrev without_processes : Outside
without_processes = record outside { spawned = none }

create_session_unstarted_example :
    ((create_session without_processes no_overrides server).0 ≡ uncaught)
    × (status (create_session without_processes no_overrides server).0 ≡ some 500)
    × (get b (create_session without_processes no_overrides server).1.manager
        ≡ some (made_session without_processes no_overrides server builtin_limits))
create_session_unstarted_example =
    create_session_unstarted without_processes no_overrides server builtin_limits (omega arith) refl
      refl refl refl

after_create-destroyed_example :
    let x = made_session outside no_overrides server builtin_limits in
    let (result, t) = begin_create outside no_overrides server in
    let (response, u) = after_create outside result (destroyed (λ d. true) b t) in
    (get b t.manager ≡ some x)
    × (response ≡ success 201 (session_body (to_public x)))
    × (get b u.manager ≡ none)
    × ((teardown (λ d. true) u).orphans ≡ record x.runner { proc = some fresh } ∷ [])
after_create-destroyed_example =
    after_create-destroyed outside outside no_overrides server builtin_limits (λ d. true)
      (λ d. true) fresh (omega arith) refl refl refl refl

-- the server after the first session was made
abbrev made_outside : Outside
made_outside = record outside { fresh = fresh_a }

abbrev before_first : Server
before_first = record { manager = empty; disk = disk_a; environ = []; orphans = [] }

abbrev first : Server
first = (handle made_outside (create_request none) before_first).1

abbrev second : Server
second = (handle outside (create_request none) first).1

second-Serves : Serves (codes "/s") 2 second
second-Serves =
    after_request first outside (create_request none) refl
      (after_request before_first made_outside (create_request none) refl (at_start disk_a []))

Serves-IsValid_example : IsValid second.manager
Serves-IsValid_example = Serves-IsValid second-Serves

abbrev running_a : Session
running_a = record session_a { runner = record session_a.runner { proc = some fresh } }

files_apart_example :
    lookup
      (workspace_a ++ codes "/f")
      (handle outside (upload b (codes "new") none (some (codes "g"))) second).1.disk.files
    ≡ lookup (workspace_a ++ codes "/f") second.disk.files
unfolding handle on_body create_session_request lookup create_session create get insert text_eq
    text_beq otari_sandbox_container.Models.◌>>=◌ start begin_create created_disk
files_apart_example =
    files_apart (codes "/s") 2 second outside (upload b (codes "new") none (some (codes "g"))) a
      workspace_a (codes "/f") running_a second-Serves tt (λ x e. (refl, refl)) refl
      (λ h. ground (arith, h)) (inl refl)

abbrev uploaded : UploadResult
uploaded = record { path = codes "d/n"; size_bytes = 2 }

files_download-files_upload_example :
    (uploaded.size_bytes ≡ 2)
    × ((mime : Text) × ((files_download
            (record outside { now = 9 })
            a
            (codes "d/n")
            (files_upload outside a (0 ∷ 255 ∷ []) none (some (codes "d/n")) server).1).0
          ≡ success 200 (content_body (0 ∷ 255 ∷ []) mime)))
unfolding files_upload with_session upload_file resolve is_under text_eq text_beq starts_with is_dir
    is_file parent lookup get make_parents write_bytes relative_to ◌>>=◌ touch
files_download-files_upload_example =
    files_download-files_upload outside 9 a (0 ∷ 255 ∷ []) none (some (codes "d/n")) server
      session_a uploaded refl refl

finish_upload-destroyed_example :
    let z =
      finish_upload outside
        (touch session_a 5)
        (0 ∷ 255 ∷ [])
        none
        (some (codes "d/n"))
        (destroyed (λ d. true) a (begin_upload outside a server).1) in
    (get a z.1.manager ≡ none)
    × ((mime : Text) × (read_file plain_host (codes "d/n") workspace_a z.1.disk
          ≡ ok (0 ∷ 255 ∷ [], mime)))
    × ((destroyed (λ d. true) a z.1).disk ≡ z.1.disk)
unfolding begin_upload with_session upload_file resolve is_under text_eq text_beq starts_with is_dir
    is_file parent lookup get make_parents write_bytes relative_to ◌>>=◌ touch destroyed_disk
    remove_tree touch_session insert
finish_upload-destroyed_example =
    finish_upload-destroyed outside outside (λ d. true) (λ d. true) a (0 ∷ 255 ∷ []) none
      (some (codes "d/n")) server (touch session_a 5) uploaded refl refl

gc_loop-get_example :
    get a (gc_loop 1000 (λ d. true) (30000 ∷ 900000 ∷ 930001 ∷ []) server).manager ≡ none
unfolding get lookup text_eq text_beq is_idle is_expired
gc_loop-get_example =
    gc_loop-get 1000 (λ d. true) (30000 ∷ 900000 ∷ 930001 ∷ []) a server session_a one-IsValid refl

destroy_session_example :
    ((destroy_session outside a server).0 ≡ success 204 empty_body)
    × (get a (destroy_session outside a server).1.manager ≡ none)
    × (lookup (workspace_a ++ codes "/f") (destroy_session outside a server).1.disk.files ≡ none)
unfolding get lookup text_eq text_beq
destroy_session_example =
    destroy_session_lem outside a workspace_a (codes "/f") server session_a one-IsValid refl refl
      (inl refl)

handle-IsDeclared_example :
    IsDeclared outside
      (upload a (codes "x") none none)
      (handle outside (upload a (codes "x") none none) server).0
handle-IsDeclared_example = handle-IsDeclared outside server (upload a (codes "x") none none)

enter_workspace-runner_environ_example :
    let env =
      runner_environ session_a.runner ((codes "SANDBOX_WORKSPACE", codes "/x/workspace") ∷ []) in
    (enter_workspace (λ d. true) (λ d. false) env session_a.runner.workspace ≡ some workspace_a)
    × ((path : Text) × (lookup (codes "PYTHONPATH") env ≡ some path)
        × BeginsWith (codes "/s/sbx_aaaaaaaaaaaaaaaaaaaaaaaa/lib") path)
unfolding get lookup text_eq text_beq
enter_workspace-runner_environ_example =
    enter_workspace-runner_environ a one session_a
      ((codes "SANDBOX_WORKSPACE", codes "/x/workspace") ∷ []) (λ d. true) (λ d. false) one-IsValid
      refl refl
