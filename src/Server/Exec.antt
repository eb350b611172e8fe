-- ===== src/Server/Exec.antt =====
-- `exec_tool` of sandbox/exec_server.py. A call is in two parts, since other requests run while it waits
-- for the runner's lock or for the shell; the text editor does not wait.
use otari_sandbox_container.Base.{
  ℕ, Option, none, some, [], ◌∷◌, ◌++◌, if◌then◌else◌, Text, codes, length, take, ◌==◌, nat_eq,
}
use otari_sandbox_container.RunnerPool.{ExecOutcome, RunnerProcess, is_alive}
use otari_sandbox_container.RunnerPool.Execute.{
  Exchange, Result, returned, unicode_error, value_error, hanging, stopped, execute,
}
use otari_sandbox_container.Bash.{
  BashEnd, bash_returned, bash_raised, bash_waits, run_bash, enter, leave,
}
use otari_sandbox_container.Sessions.{Session, get}
use otari_sandbox_container.Workspace.{Reply, ok, raise}
use otari_sandbox_container.TextEditor.{TextEditorInput, run_text_editor}
use otari_sandbox_container.Models.{
  code_execution, bash_code_execution, text_editor_code_execution, code_execution_input,
  bash_execution_input, text_editor_input, ExecRequest, CodeExecutionResultContent, ResultBlock,
  code_execution_block, bash_execution_block, text_editor_block,
}
use otari_sandbox_container.Server.{
  Server, Outside, Response, success, http_error, uncaught, no_reply, exec_body, errors,
  put_session, with_session,
}

-- `_outcome_to_content`
unfoldable pub outcome_to_content : ExecOutcome → CodeExecutionResultContent
outcome_to_content o = record {
  stdout = o.stdout;
  stderr = o.stderr;
  return_code = o.return_code;
  content = [];
}

-- `request.tool_use_id or f"srvtoolu_{uuid.uuid4().hex[:24]}"`
abbrev pub tool_use_id_of : Outside → ExecRequest → Text
tool_use_id_of o req =
    let generated : Text = codes "srvtoolu_" ++ take 24 o.uuid_hex in
    elim req.tool_use_id [
      | none ↦ generated
      | some name ↦ if length name == 0 then generated else name
    ]

-- The response, from the block with its identifier.
abbrev pub replied : Outside → Text → ResultBlock → Response
replied o tool_use_id block = success 200 (
    exec_body (record {
      tool_use_id = tool_use_id;
      result_block = block;
      execution_time_ms = o.elapsed_ms;
    }))

-- A call that waits: a code block, or a command with the value that is put back after it.
pub data Call : Type 0 where
  code_call : Text → ℕ → Call
  bash_call : Option Text → ℕ → Call

-- A handler that waits, with the session object that it holds.
pub record Pending : Type 0 where
  pub session_id : Text
  pub session : Session
  pub tool_use_id : Text
  pub call : Call

pub data Begun : Type 0 where
  answered : Response → Begun
  waiting : Pending → Begun

abbrev pub edit_response : Outside → Text → Reply ExecOutcome → Response
edit_response o tool_use_id (ok outcome) =
    replied o tool_use_id (text_editor_block tool_use_id (outcome_to_content outcome))
edit_response o tool_use_id (raise x) = uncaught

-- `_run_text_editor_execution`, and the response.
unfoldable pub run_text_editor_execution :
    Outside → Text → Text → Session → TextEditorInput → Server → Response × Server
run_text_editor_execution o sid tool_use_id x parsed s =
    let (r, e) =
      run_text_editor o.host x.workspace_dir parsed
        (record { disk = s.disk; undo_stack = x.undo_stack }) in
    (
      edit_response o tool_use_id r,
      put_session sid (record x { undo_stack = e.undo_stack }) (record s { disk = e.disk }),
    )

-- The branches of `exec_tool` and the validation of their input, up to the call that waits.
abbrev pub dispatch : Outside → Text → ExecRequest → Session → Server → Begun × Server
dispatch o sid req x s =
    let wait : Call → Pending = λ call. record {
      session_id = sid;
      session = x;
      tool_use_id = tool_use_id_of o req;
      call = call;
    } in
    let invalid : Begun × Server = (answered (http_error 422 (errors req.input)), s) in
    elim req.tool [
      | code_execution ↦ elim (code_execution_input o.pydantic req.input) [
        | none ↦ invalid
        | some parsed ↦ (waiting (wait (code_call parsed.code req.timeout_seconds)), s)
      ]
      | bash_code_execution ↦ elim (bash_execution_input o.pydantic req.input) [
        | none ↦ invalid
        | some parsed ↦
            let (prev, environ) = enter x.workspace_dir s.environ in
            (waiting (wait (bash_call prev req.timeout_seconds)), record s { environ = environ })
      ]
      | text_editor_code_execution ↦ elim (text_editor_input o.pydantic req.input) [
        | none ↦ invalid
        | some parsed ↦
            let (r, s') = run_text_editor_execution o sid (tool_use_id_of o req) x parsed s in
            (answered r, s')
      ]
    ]

-- `exec_tool` until it waits.
unfoldable pub begin_exec : Outside → Text → ExecRequest → Server → Begun × Server
begin_exec o sid req s = with_session answered o sid (dispatch o sid req) s

-- The runner of the session that a call holds. A session that was destroyed has left the manager, and
-- its runner was stopped.
abbrev pub runner_of : Pending → Server → RunnerProcess
runner_of p s = elim (get p.session_id s.manager) [
  | none ↦ stopped p.session.runner
  | some x ↦ x.runner
]

-- `session.runner.execute(...)`; none where a process is needed and cannot be spawned.
unfoldable pub execute_in : Outside → RunnerProcess → Text → ℕ → Option (Result × RunnerProcess)
execute_in o r code timeout_seconds =
    let run : Exchange → Result × RunnerProcess = λ exchange.
      let (result, r', left) = execute r code timeout_seconds exchange in (result, r') in
    if is_alive r then some (run o.exchange) else elim o.spawned [
      | none ↦ none
      | some proc ↦ some (run (record o.exchange { spawned = proc }))
    ]

abbrev pub store_runner : Text → RunnerProcess → Server → Server
store_runner sid r s = elim (get sid s.manager) [
  | none ↦ record s { orphans = r ∷ s.orphans }
  | some x ↦ put_session sid (record x { runner = r }) s
]

abbrev pub code_response : Outside → Text → Result → Response
code_response o tool_use_id (returned outcome) =
    replied o tool_use_id (code_execution_block tool_use_id (outcome_to_content outcome))
code_response o tool_use_id unicode_error = uncaught
code_response o tool_use_id value_error = uncaught
code_response o tool_use_id hanging = no_reply

abbrev pub finish_code : Outside → Pending → Text → ℕ → Server → Response × Server
finish_code o p code timeout_seconds s = elim (execute_in o (runner_of p s) code timeout_seconds) [
  | none ↦ (uncaught, s)
  | some (result, r) ↦ (
    code_response o p.tool_use_id result,
    store_runner p.session_id r (record s { disk = o.disk_after }),
  )
]

-- The end of `_run_bash_execution`: the variable is put back, also after an exception. A command that
-- does not end keeps it set.
abbrev pub shell_end : Outside → Pending → Option Text → BashEnd → Server → Response × Server
shell_end o p prev bash_waits s = (no_reply, record s { disk = o.disk_after })
shell_end o p prev bash_raised s =
    (uncaught, record s { environ = leave prev s.environ; disk = o.disk_after })
shell_end o p prev (bash_returned outcome) s = (
  replied o p.tool_use_id (bash_execution_block p.tool_use_id (outcome_to_content outcome)),
  record s { environ = leave prev s.environ; disk = o.disk_after },
)

abbrev pub finish_bash : Outside → Pending → Option Text → ℕ → Server → Response × Server
finish_bash o p prev timeout_seconds s = shell_end o p prev (run_bash timeout_seconds o.shell) s

-- The rest of `exec_tool`, once the call has its turn.
unfoldable pub finish_exec : Outside → Pending → Server → Response × Server
finish_exec o p s = elim p.call [
  | code_call code timeout_seconds ↦ finish_code o p code timeout_seconds s
  | bash_call prev timeout_seconds ↦ finish_bash o p prev timeout_seconds s
]

abbrev pub continued : Outside → Begun × Server → Response × Server
continued o (answered r, s) = (r, s)
continued o (waiting p, s) = finish_exec o p s

-- `exec_tool`, where nothing else runs while it waits.
unfoldable pub exec_tool : Outside → Text → ExecRequest → Server → Response × Server
exec_tool o sid req s = continued o (begin_exec o sid req s)
