-- ===== src/Server/Shell.antt =====
-- Commands of `exec_tool` in sandbox/exec_server.py.
use otari_sandbox_container.Base.{◌≡◌, refl, ap, ◌∙◌, some, Text, text_eq}
use otari_sandbox_container.Base.Dict.{lookup}
use otari_sandbox_container.RunnerPool.{ExecOutcome}
use otari_sandbox_container.Bash.{bash_returned, run_bash, workdir, enter, leave}
use otari_sandbox_container.Bash.Workdir.{leave-enter}
use otari_sandbox_container.Sessions.{Session, touch, get}
use otari_sandbox_container.Models.{
  ToolKind, code_execution, bash_code_execution, text_editor_code_execution, BashExecutionInput,
  bash_execution_input, bash_execution_block, ExecRequest,
}
use otari_sandbox_container.Server.{Server, Outside, Response, with_session}
use otari_sandbox_container.Server.Exec.{
  bash_call, Pending, Begun, waiting, dispatch, begin_exec, finish_bash, finish_exec, continued,
  exec_tool, outcome_to_content, replied, tool_use_id_of,
}
use otari_sandbox_container.Server.Local.{touched}

module _ (o : Outside) (sid : Text) (req : ExecRequest) (s : Server) (x : Session)
    (parsed : BashExecutionInput) where
  pending_bash : Pending
  pending_bash = record {
    session_id = sid;
    session = touch x o.now;
    tool_use_id = tool_use_id_of o req;
    call = bash_call (enter x.workspace_dir s.environ).0 req.timeout_seconds;
  }

  abbrev entered : Server
  entered = record (touched o sid s) { environ = (enter x.workspace_dir s.environ).1 }

  begin_exec-bash :
      get sid s.manager ≡ some x
      → req.tool ≡ bash_code_execution
      → bash_execution_input o.pydantic req.input ≡ some parsed
      → begin_exec o sid req s ≡ (waiting pending_bash, entered)
  unfolding begin_exec with_session touch pending_bash
  begin_exec-bash found tool valid = rw (found, begin_exec, with_session) (of_tool req.tool tool)
    where
      of_tool :
          (t : ToolKind)
          → t ≡ bash_code_execution
          → dispatch o sid (record req { tool = t }) (touch x o.now) (touched o sid s)
            ≡ (waiting pending_bash, entered)
      of_tool code_execution h = cc
      of_tool bash_code_execution h = rw (valid, dispatch) refl
      of_tool text_editor_code_execution h = cc

  -- A command for a known session, with nothing else running while it waits: while the shell runs, the
  -- directory that it starts in is the workspace of the session; where the shell returns, the response is
  -- a block with what it returned, and every variable of the server's environment has the value that it
  -- had before the request.
  pub exec_tool-bash :
      (outcome : ExecOutcome) (name : Text)
      → get sid s.manager ≡ some x
      → req.tool ≡ bash_code_execution
      → bash_execution_input o.pydantic req.input ≡ some parsed
      → run_bash req.timeout_seconds o.shell ≡ bash_returned outcome
      → let (response, t) = exec_tool o sid req s in
        (workdir (begin_exec o sid req s).1.environ ≡ x.workspace_dir)
        × (response
            ≡ replied o
                (tool_use_id_of o req)
                (bash_execution_block (tool_use_id_of o req) (outcome_to_content outcome)))
        × (lookup name t.environ ≡ lookup name s.environ)
  unfolding exec_tool finish_exec pending_bash
  exec_tool-bash outcome name found tool valid run =
      let e = begin_exec-bash found tool valid in
      let (dir, same) = leave-enter x.workspace_dir name s.environ in
      let f : finish_bash o pending_bash (enter x.workspace_dir s.environ).0 req.timeout_seconds
            entered
          ≡ (
            replied o (tool_use_id_of o req)
                (bash_execution_block (tool_use_id_of o req) (outcome_to_content outcome)),
            record entered {
              environ = leave (enter x.workspace_dir s.environ).0 entered.environ;
              disk = o.disk_after;
            },
          ) =
        rw (run, finish_bash) refl in
      let whole = ap (continued o) e ∙ f in
      (
        ap (λ (z : Begun × Server). workdir z.1.environ) e ∙ dir,
        ap (λ (z : Response × Server). z.0) whole,
        ap (λ (z : Response × Server). lookup name z.1.environ) whole ∙ same,
      )
