-- ===== src/Server/Typed.antt =====
-- The response of each handler of sandbox/exec_server.py against what its route declares.
use otari_sandbox_container.Base.{
  ◌≡◌, refl, Option, none, some, Text, Bytes, option_both, Bool-cases, inl, inr, ltb, length,
}
use otari_sandbox_container.Base.Dict.{Dict}
use otari_sandbox_container.Models.{
  Json, ToolKind, code_execution, bash_code_execution, text_editor_code_execution, ExecRequest,
  exec_request, code_execution_input, bash_execution_input, text_editor_input,
}
use otari_sandbox_container.Workspace.{Reply, ok, raise}
use otari_sandbox_container.RunnerPool.Execute.{Result, returned, hanging}
use otari_sandbox_container.Sessions.{Created, created, limit_exceeded, Session, get, create}
use otari_sandbox_container.Bash.{BashEnd, bash_returned, bash_raised, bash_waits, run_bash}
use otari_sandbox_container.Files.{max_file_bytes}
use otari_sandbox_container.RunnerPool.{ExecOutcome}
use otari_sandbox_container.Server.{
  Server, Outside, upload_body, content_body, list_body, registered_body, Response, health,
  get_session, begin_create, create_session, after_create, destroy_session,
}
use otari_sandbox_container.Server.Exec.{
  Begun, answered, waiting, Pending, Call, code_call, bash_call, dispatch, begin_exec, shell_end,
  finish_exec, continued, exec_tool, execute_in, runner_of, code_response,
  run_text_editor_execution, edit_response, tool_use_id_of,
}
use otari_sandbox_container.Server.Transfer.{
  files_upload, files_download, files_list, register_programmatic_tools, upload_failure,
  download_failure, list_failure, register_failure,
}
use otari_sandbox_container.Server.Routes.{
  Request, health_check, create_request, get_request, delete_request, exec, upload, download, list,
  register, handle,
}
use otari_sandbox_container.Server.Local.{with_session_both}
use otari_sandbox_container.Server.Declared.{
  IsDeclared, on_id-both, on_body-both, answer-both, upload_failure-IsDeclared,
  download_failure-IsDeclared, list_failure-IsDeclared, register_failure-IsDeclared,
}

module _ (o : Outside) where
  -- The response to a call that ended, for a block of the tool of the call.
  module _ (sid : Text) (d : Dict Text Json) (req : ExecRequest)
      (parsed : exec_request o.pydantic d ≡ some req) where
    abbrev Fits : Response → Type 0
    Fits r = IsDeclared o (exec sid d) r

    code_response-Fits :
        (id : Text) (result : Result) → req.tool ≡ code_execution → Fits (code_response o id result)
    code_response-Fits id (returned outcome) e = (refl, req, parsed, rw e refl)
    code_response-Fits id Result.unicode_error e = refl
    code_response-Fits id Result.value_error e = refl
    code_response-Fits id hanging e = tt

    edit_response-Fits :
        (id : Text) (r : Reply ExecOutcome)
        → req.tool ≡ text_editor_code_execution
        → Fits (edit_response o id r)
    edit_response-Fits id (ok outcome) e = (refl, req, parsed, rw e refl)
    edit_response-Fits id (raise x) e = refl

    -- What has begun is answered, or waits in a call of the tool.
    abbrev IsCallOf : ToolKind → Call → Type 0
    IsCallOf code_execution (code_call code timeout_seconds) = Unit
    IsCallOf bash_code_execution (bash_call prev timeout_seconds) = Unit
    IsCallOf tool call = ⊥

    abbrev IsBegun : Begun × Server → Type 0
    IsBegun (answered r, s) = Fits r
    IsBegun (waiting p, s) = IsCallOf req.tool p.call

    finish_exec-Fits :
        (p : Pending) (s : Server) → IsCallOf req.tool p.call → Fits (finish_exec o p s).0
    unfolding finish_exec
    finish_exec-Fits p s h = of_call req.tool refl p.call h
      where
        of_shell :
            req.tool ≡ bash_code_execution
            → (prev : Option Text) (end : BashEnd) → Fits (shell_end o p prev end s).0
        of_shell e prev (bash_returned outcome) = (refl, req, parsed, rw e refl)
        of_shell e prev bash_raised = refl
        of_shell e prev bash_waits = tt

        of_call :
            (tool : ToolKind)
            → req.tool ≡ tool
            → (c : Call) → IsCallOf tool c
            → Fits (finish_exec o (record p { call = c }) s).0
        of_call code_execution e (code_call code timeout_seconds) h =
            option_both (λ (z : Response × Server). Fits z.0)
              (execute_in o (runner_of p s) code timeout_seconds) _ _ (λ q. refl)
              (λ a q. code_response-Fits p.tool_use_id a.0 e)
        of_call bash_code_execution e (bash_call prev timeout_seconds) h =
            of_shell e prev (run_bash timeout_seconds o.shell)
        of_call code_execution e (bash_call prev timeout_seconds) h = absurd h
        of_call bash_code_execution e (code_call code timeout_seconds) h = absurd h
        of_call text_editor_code_execution e c h = absurd h

    dispatch-IsBegun : (x : Session) (s : Server) → IsBegun (dispatch o sid req x s)
    unfolding run_text_editor_execution
    dispatch-IsBegun x s = of_tool req.tool refl
      where
        of_tool :
            (tool : ToolKind)
            → req.tool ≡ tool
            → IsBegun (dispatch o sid (record req { tool = tool }) x s)
        of_tool code_execution e =
            option_both IsBegun (code_execution_input o.pydantic req.input) _ _ (λ q. refl)
              (λ a q. rw e tt)
        of_tool bash_code_execution e =
            option_both IsBegun (bash_execution_input o.pydantic req.input) _ _ (λ q. refl)
              (λ a q. rw e tt)
        of_tool text_editor_code_execution e =
            option_both IsBegun (text_editor_input o.pydantic req.input) _ _ (λ q. refl)
              (λ a q. edit_response-Fits (tool_use_id_of o req) _ e)

    exec_tool-Fits : (s : Server) → Fits (exec_tool o sid req s).0
    unfolding exec_tool begin_exec
    exec_tool-Fits s = ended (begin_exec o sid req s) begun
      where
        begun : IsBegun (begin_exec o sid req s)
        begun =
            with_session_both IsBegun answered o sid (dispatch o sid req) s (λ e. refl)
              (λ x e. dispatch-IsBegun _ _)

        ended : (z : Begun × Server) → IsBegun z → Fits (continued o z).0
        ended (answered r, s) h = h
        ended (waiting p, s) h = finish_exec-Fits p s h

module _ (o : Outside) (s : Server) where
  abbrev Declared : Request → Response × Server → Type 0
  Declared req z = IsDeclared o req z.0

  listed :
      (sid : Text) (path : Option Text) (p : Text) → Declared (list sid path) (files_list o sid p s)
  unfolding files_list
  listed sid path p =
      with_session_both (Declared (list sid path)) _ o sid _ s (λ e. refl)
        (λ x e.
          answer-both (IsDeclared o (list sid path)) 200 list_body list_failure _ (λ a. refl)
            (list_failure-IsDeclared o sid path))

  -- Whatever the request and the server: the response is the success that the route declares, with its
  -- status and its model, for an exec request the block of its tool with the identifier of the response; or
  -- an error with one of the statuses that the route has, which are 422 where the validation finds errors,
  -- 404 for an unknown session, and those that its handler names; or, but for the health check and the
  -- reading and the deletion of a session, an uncaught exception; only an exec request may get no reply.
  pub handle-IsDeclared : (req : Request) → IsDeclared o req (handle o req s).0
  unfolding handle health get_session create_session begin_create files_upload files_download
      register_programmatic_tools
  handle-IsDeclared health_check = refl
  handle-IsDeclared (create_request body) =
      on_body-both (Declared (create_request body)) _ _ (create_session o) s refl (λ req e.
        made _
          (create s.manager o.lifetimes req.idle_timeout_seconds req.max_lifetime_seconds
            o.fresh).0)
    where
      made : (t : Server) (c : Created) → Declared (create_request body) (after_create o c t)
      made t (created x) =
          option_both (Declared (create_request body)) o.spawned _ _ (λ e. refl)
            (λ p e.
              option_both (Declared (create_request body)) (get x.session_id t.manager) _ _
                (λ q. refl) (λ y q. refl))
      made t (limit_exceeded m) = refl
      made t Created.os_error = refl
      made t Created.value_error = refl
  handle-IsDeclared (get_request sid) = on_id-both (Declared (get_request sid)) sid _ s refl (
      option_both (λ r. IsDeclared o (get_request sid) r) (get sid s.manager) _ _ (λ e. refl)
        (λ x e. refl))
  handle-IsDeclared (delete_request sid) =
      on_id-both (Declared (delete_request sid)) sid _ s refl (unfold destroy_session in refl)
  handle-IsDeclared (exec sid d) = on_id-both (Declared (exec sid d)) sid _ s refl (
      on_body-both (Declared (exec sid d)) d _ (exec_tool o sid) s refl
        (λ req e. exec_tool-Fits o sid d req e s))
  handle-IsDeclared (upload sid content filename path) =
      on_id-both (Declared (upload sid content filename path)) sid _ s refl (
        with_session_both (Declared (upload sid content filename path)) _ o sid _ s (λ e. refl)
          (λ x e. elim (Bool-cases (ltb max_file_bytes (length content))) [
            | inl large ↦ rw large refl
            | inr small ↦ rw small (
                answer-both (IsDeclared o (upload sid content filename path)) 201 upload_body
                  upload_failure _ (λ a. refl)
                  (upload_failure-IsDeclared o sid content filename path))
          ]))
  handle-IsDeclared (download sid path) = on_id-both (Declared (download sid path)) sid _ s refl (
      with_session_both (Declared (download sid path)) _ o sid _ s (λ e. refl)
        (λ x e.
          answer-both (IsDeclared o (download sid path)) 200
            (λ (c : Bytes × Text). content_body c.0 c.1) download_failure _ (λ a. refl)
            (download_failure-IsDeclared o sid path)))
  handle-IsDeclared (list sid none) =
      on_id-both (Declared (list sid none)) sid _ s refl (listed sid none _)
  handle-IsDeclared (list sid (some path)) =
      on_id-both (Declared (list sid (some path))) sid _ s refl (listed sid (some path) _)
  handle-IsDeclared (register sid d) = on_id-both (Declared (register sid d)) sid _ s refl (
      on_body-both (Declared (register sid d)) d _ (register_programmatic_tools o sid) s refl
        (λ req e.
          with_session_both (Declared (register sid d)) _ o sid _ s (λ e. refl)
            (λ x e.
              answer-both (IsDeclared o (register sid d)) 200
                (λ path. registered_body path (length req.tools)) register_failure _ (λ a. refl)
                (register_failure-IsDeclared o sid d))))
