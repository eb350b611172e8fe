-- ===== src/Server/Spared.antt =====
-- The files of a session under the requests of sandbox/exec_server.py for another one.
use otari_sandbox_container.Base.{
  ℕ, ◌≡◌, ◌≢◌, refl, ap, sym, ◌∙◌, Option, none, some, [], ◌++◌, append-nil, if_both, option_both,
  ltb, Text, Bytes, codes, length, ◌==◌, text_eq,
}
use mathlib.Core.Path.{subst}
use otari_sandbox_container.Base.Dict.{Dict, lookup}
use otari_sandbox_container.Sessions.{
  Session, touch, parent, path_join, Created, created, limit_exceeded, os_error, value_error,
  create, get,
}
use otari_sandbox_container.Sessions.Invariant.{Owned, IsValid, lookup-Owned}
use otari_sandbox_container.Sessions.Isolation.{IsDirOf, valid_apart}
use otari_sandbox_container.Workspace.{Disk}
use otari_sandbox_container.TextEditor.Confined.{IsOutside, run_text_editor-Keeps}
use otari_sandbox_container.Files.{max_file_bytes}
use otari_sandbox_container.Files.RoundTrip.{lookup-upload_file}
use otari_sandbox_container.PlatformTools.Install.{stub_path}
use otari_sandbox_container.Models.{
  Json, has_length, ToolKind, code_execution, bash_code_execution, text_editor_code_execution,
  text_editor_input, ExecRequest, exec_request,
}
use otari_sandbox_container.Server.{
  Server, Outside, Response, uncaught, started, after_create, CreateSessionRequest, begin_create,
  create_session, created_disk, destroyed_disk, destroy_session,
}
use otari_sandbox_container.Server.Exec.{
  Begun, answered, run_text_editor_execution, dispatch, begin_exec, continued, exec_tool,
}
use otari_sandbox_container.Server.Transfer.{
  files_upload, files_download, files_list, register_programmatic_tools, config_of,
  RegisterProgrammaticToolsRequest,
}
use otari_sandbox_container.Server.Routes.{
  Request, health_check, create_request, get_request, delete_request, exec, upload, download, list,
  register, on_body, on_id, handle, Serves,
}
use otari_sandbox_container.Server.Local.{touched, with_session_both}
use otari_sandbox_container.Server.Requests.{target, Serves-IsValid}
use otari_sandbox_container.Server.Confined.{
  far-workspace, far-stub, far-tree, install_stubs-other, created_disk-files, remove_tree-other,
}

-- A request that runs no code and no command: whatever it is, an exec request is one for the editor.
abbrev pub RunsNothing : Outside → Request → Type 0
RunsNothing o (exec sid d) =
    (r : ExecRequest) → exec_request o.pydantic d ≡ some r → r.tool ≡ text_editor_code_execution
RunsNothing o req = Unit

-- The workspace of the session and the stub module in its stub directory are what their paths resolve to.
abbrev pub IsResolved : Outside → Text → Server → Type 0
IsResolved o sid s =
    (x : Session)
    → get sid s.manager ≡ some x
    → (o.host.realpath x.workspace_dir ≡ x.workspace_dir)
      × (o.host.realpath (stub_path x.stub_dir) ≡ stub_path x.stub_dir)

get-Owned :
    (sid : Text) (s : Server)
    → IsValid s.manager
    → (x : Session) → get sid s.manager ≡ some x
    → Owned s.manager.root sid x
unfolding get
get-Owned sid s v x e = lookup-Owned s.manager.root sid x s.manager.sessions v.owned e

module _ (o : Outside) (p : Text) (s : Server) where
  abbrev Spares : Response × Server → Type 0
  Spares z = lookup p z.1.disk.files ≡ lookup p s.disk.files

  started-Spares :
      (x : Session) (t : Server)
      → lookup p t.disk.files ≡ lookup p s.disk.files
      → Spares (started o x t)
  started-Spares x t h =
      option_both Spares o.spawned (uncaught, t) _ (λ e. h)
        (λ q e. option_both Spares (get x.session_id t.manager) _ _ (λ e. h) (λ y e. h))

  create-Spares : (req : CreateSessionRequest) → Spares (create_session o req s)
  unfolding create_session begin_create
  create-Spares req =
      let z =
        create s.manager o.lifetimes req.idle_timeout_seconds req.max_lifetime_seconds o.fresh in
      of_created z.0 (record s { manager = z.1; disk = created_disk s.manager o.fresh s.disk })
        (ap (lookup p) (created_disk-files s.manager o.fresh s.disk))
    where
      of_created :
          (c : Created) (t : Server)
          → lookup p t.disk.files ≡ lookup p s.disk.files
          → Spares (after_create o c t)
      of_created (created x) t h = started-Spares x t h
      of_created (limit_exceeded m) t h = h
      of_created os_error t h = h
      of_created value_error t h = h

  module _ (sid : Text) (v : IsValid s.manager) (real : IsResolved o sid s)
      (far : (x : Session)
        → get sid s.manager ≡ some x
        → IsOutside (path_join s.manager.root sid) p) where
    owned : (x : Session) → get sid s.manager ≡ some x → Owned s.manager.root sid x
    owned = get-Owned sid s v

    outside :
        (x : Session) → get sid s.manager ≡ some x → IsOutside (o.host.realpath x.workspace_dir) p
    outside x e =
        subst (λ w. IsOutside w p) (sym (real x e).0)
          (far-workspace s.manager.root sid p x (owned x e) (far x e))

    edit-Spares :
        (req : ExecRequest) → req.tool ≡ text_editor_code_execution → Spares (exec_tool o sid req s)
    unfolding exec_tool begin_exec touch run_text_editor_execution
    edit-Spares req editor =
        with_session_both Q answered o sid (dispatch o sid req) s (λ e. refl)
          (λ x e. of_tool x e req.tool editor)
      where
        Q : Begun × Server → Type 0
        Q z = Spares (continued o z)

        of_tool :
            (x : Session)
            → get sid s.manager ≡ some x
            → (tool : ToolKind) → tool ≡ text_editor_code_execution
            → Q (dispatch o sid (record req { tool = tool }) (touch x o.now) (touched o sid s))
        of_tool x e code_execution h = cc
        of_tool x e bash_code_execution h = cc
        of_tool x e text_editor_code_execution h =
            option_both Q (text_editor_input o.pydantic req.input) _ _ (λ n. refl)
              (λ parsed n.
                run_text_editor-Keeps o.host x.workspace_dir p (outside x e) parsed
                  (record { disk = s.disk; undo_stack = x.undo_stack }))

    upload-Spares :
        (content : Bytes) (filename path : Option Text)
        → Spares (files_upload o sid content filename path s)
    unfolding files_upload touch
    upload-Spares content filename path =
        with_session_both Spares (λ r. r) o sid _ s (λ e. refl)
          (λ x e.
            if_both Spares (ltb max_file_bytes (length content)) _ _ (λ h. refl)
              (λ h. lookup-upload_file o.host content _ x.workspace_dir p s.disk (outside x e)))

    download-Spares : (path : Text) → Spares (files_download o sid path s)
    unfolding files_download
    download-Spares path = with_session_both Spares (λ r. r) o sid _ s (λ e. refl) (λ x e. refl)

    list-Spares : (path : Text) → Spares (files_list o sid path s)
    unfolding files_list
    list-Spares path = with_session_both Spares (λ r. r) o sid _ s (λ e. refl) (λ x e. refl)

    register-Spares :
        (req : RegisterProgrammaticToolsRequest) → Spares (register_programmatic_tools o sid req s)
    unfolding register_programmatic_tools touch
    register-Spares req =
        with_session_both Spares (λ r. r) o sid _ s (λ e. refl)
          (λ x e.
            install_stubs-other o.printable o.is_keyword o.host (config_of req) x.stub_dir p s.disk
              (ap (λ w. w == p) (real x e).1
                ∙ far-stub s.manager.root sid p x (owned x e) (far x e)))

    destroy-Spares : Spares (destroy_session o sid s)
    unfolding destroy_session destroyed_disk
    destroy-Spares =
        option_both (λ (k : Disk). lookup p k.files ≡ lookup p s.disk.files) (get sid s.manager)
          s.disk _ (λ e. refl)
          (λ x e.
            if_both (λ (k : Disk). lookup p k.files ≡ lookup p s.disk.files)
              (o.removable (parent x.workspace_dir)) _ _
              (λ h.
                remove_tree-other (parent x.workspace_dir) p s.disk
                  (far-tree s.manager.root sid p x (owned x e) (far x e)))
              (λ h. refl))

  on_id-Spares :
      (sid : Text) (f : Server → Response × Server) → Spares (f s) → Spares (on_id sid f s)
  unfolding on_id
  on_id-Spares sid f h = option_both Spares (has_length 1 64 sid) _ _ (λ e. refl) (λ a e. h)

  on_body-Spares :
      {A : Type 0} (d : Dict Text Json) (parsed : Option A) (f : A → Server → Response × Server)
      → ((a : A) → parsed ≡ some a → Spares (f a s))
      → Spares (on_body d parsed f s)
  unfolding on_body
  on_body-Spares d none f h = refl
  on_body-Spares d (some a) f h = h a refl

  handle-Spares :
      (req : Request)
      → IsValid s.manager
      → RunsNothing o req
      → IsResolved o (target o req) s
      → ((x : Session)
          → get (target o req) s.manager ≡ some x
          → IsOutside (path_join s.manager.root (target o req)) p)
      → Spares (handle o req s)
  unfolding handle
  handle-Spares health_check v n real far = refl
  handle-Spares (create_request body) v n real far =
      on_body-Spares _ _ (create_session o) (λ req e. create-Spares req)
  handle-Spares (get_request sid) v n real far = on_id-Spares sid _ refl
  handle-Spares (delete_request sid) v n real far =
      on_id-Spares sid _ (destroy-Spares sid v real far)
  handle-Spares (exec sid d) v n real far =
      on_id-Spares sid _
        (on_body-Spares d _ (exec_tool o sid) (λ r e. edit-Spares sid v real far r (n r e)))
  handle-Spares (upload sid content filename path) v n real far =
      on_id-Spares sid _ (upload-Spares sid v real far content filename path)
  handle-Spares (download sid path) v n real far =
      on_id-Spares sid _ (download-Spares sid v real far path)
  handle-Spares (list sid none) v n real far =
      on_id-Spares sid _ (list-Spares sid v real far (codes "."))
  handle-Spares (list sid (some path)) v n real far =
      on_id-Spares sid _ (list-Spares sid v real far path)
  handle-Spares (register sid d) v n real far = on_id-Spares sid _ (
      on_body-Spares d _ (register_programmatic_tools o sid)
        (λ req e. register-Spares sid v real far req))

-- In any history of the server, a request that runs no code and no command (one for the text editor, the
-- files, the stub module, or the life of a session) leaves every file in the workspace and in the stub
-- directory of every other session as it is, the response and the arguments being what they may. The
-- workspace of the session that it is for and the path of the stub module in its stub directory must
-- resolve to themselves: no program has put a link there.
pub files_apart :
    (root : Text) (max_sessions : ℕ) (s : Server) (o : Outside) (req : Request) (j d q : Text)
    (y : Session)
    → Serves root max_sessions s
    → RunsNothing o req
    → IsResolved o (target o req) s
    → get j s.manager ≡ some y
    → target o req ≢ j
    → IsDirOf d y
    → lookup (d ++ q) (handle o req s).1.disk.files ≡ lookup (d ++ q) s.disk.files
files_apart root max_sessions s o req j d q y r n real found apart dir =
    handle-Spares o (d ++ q) s req v n real far
  where
    v : IsValid s.manager
    v = Serves-IsValid r

    sid : Text
    sid = target o req

    far :
        (x : Session)
        → get sid s.manager ≡ some x
        → IsOutside (path_join s.manager.root sid) (d ++ q)
    far x e =
        let short = (get-Owned sid s v x e).short in
        (
          (λ h.
              valid_apart s.manager sid j d [] q y v short found apart dir
                (append-nil (path_join s.manager.root sid) ∙ sym h)),
          (λ t h.
              valid_apart s.manager sid j d (codes "/" ++ t) q y v short found apart dir (sym h)),
        )
