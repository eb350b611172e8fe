-- ===== src/Server/Execution.antt =====
-- Code blocks of `exec_tool` in sandbox/exec_server.py, from the request to the response.
use otari_sandbox_container.Base.{
  ℕ, ◌≤◌, ◌≡◌, refl, ap, ◌∙◌, Bool, true, some, List, [], if_true, option_both, Text, length,
  text_eq, All,
}
use otari_sandbox_container.Base.Dict.{Dict}
use otari_sandbox_container.Utf8.Codec.{is_scalar_text}
use otari_sandbox_container.Runner.{
  Streams, Executed, BlockRun, block_ended, run_one, return_code, stderr_value,
}
use otari_sandbox_container.Runner.Frames.{terminated}
use otari_sandbox_container.RunnerPool.{
  request, RunnerProcess, ReadEvent, plain_outcome, is_alive, start, Proc,
}
use otari_sandbox_container.RunnerPool.Lines.{split_lines}
use otari_sandbox_container.RunnerPool.Reader.{IsPlain, IsIgnored}
use otari_sandbox_container.RunnerPool.RoundTrip.{unframed, stream_events}
use otari_sandbox_container.RunnerPool.Execute.{Result, truncated_outcome, execute}
use otari_sandbox_container.Models.Validation.{code_execution_input-length, exec_request-timeout}
use otari_sandbox_container.RunnerPool.Execute.EndToEnd.{IsComplete, written, execute-run_one}
use otari_sandbox_container.Sessions.{Session, touch, get}
use otari_sandbox_container.Models.{
  Json, ToolKind, code_execution, bash_code_execution, text_editor_code_execution,
  CodeExecutionInput, code_execution_input, bash_execution_input, text_editor_input, ExecRequest,
  exec_request,
}
use otari_sandbox_container.Server.{Server, Outside, put_session, with_session}
use otari_sandbox_container.Server.Exec.{
  code_call, bash_call, Pending, Begun, answered, waiting, dispatch, begin_exec, runner_of,
  execute_in, store_runner, code_response, finish_code, finish_exec, continued, exec_tool,
  tool_use_id_of,
}
use otari_sandbox_container.Server.Local.{touched, get-touched, with_session_both}
use otari_sandbox_container.Server.Locality.{runner_of-found}

-- The session that waits for its code block.
abbrev pub pending_code : Outside → Text → ExecRequest → Session → Text → Pending
pending_code o sid req x code = record {
  session_id = sid;
  session = touch x o.now;
  tool_use_id = tool_use_id_of o req;
  call = code_call code req.timeout_seconds;
}

finish_code-run :
    (o : Outside) (p : Pending) (code : Text) (timeout_seconds : ℕ) (s : Server) (y : Session)
    (result : Result) (r : RunnerProcess)
    → get p.session_id s.manager ≡ some y
    → execute_in o y.runner code timeout_seconds ≡ some (result, r)
    → finish_code o p code timeout_seconds s ≡ (
      code_response o p.tool_use_id result,
      put_session p.session_id (record y { runner = r }) (record s { disk = o.disk_after }),
    )
finish_code-run o p code timeout_seconds s y result r found run =
    let run' : execute_in o (runner_of p s) code timeout_seconds ≡ some (result, r) =
      ap (λ q. execute_in o q code timeout_seconds) (runner_of-found p s y found) ∙ run in
    rw (run', finish_code) (rw (found, store_runner) refl)

module _ (o : Outside) (sid : Text) (req : ExecRequest) (s : Server) (x : Session)
    (parsed : CodeExecutionInput) where
  pub begin_exec-code :
      get sid s.manager ≡ some x
      → req.tool ≡ code_execution
      → code_execution_input o.pydantic req.input ≡ some parsed
      → begin_exec o sid req s ≡ (waiting (pending_code o sid req x parsed.code), touched o sid s)
  unfolding begin_exec with_session
  begin_exec-code found tool valid = rw (found, begin_exec, with_session) (of_tool req.tool tool)
    where
      of_tool :
          (t : ToolKind)
          → t ≡ code_execution
          → dispatch o sid (record req { tool = t }) (touch x o.now) (touched o sid s)
            ≡ (waiting (pending_code o sid req x parsed.code), touched o sid s)
      of_tool code_execution h = rw (valid, dispatch) refl
      of_tool bash_code_execution h = cc
      of_tool text_editor_code_execution h = cc

  -- The server after a code block: the session is touched, with the runner as the call leaves it.
  abbrev pub after_code : RunnerProcess → Server
  after_code r =
      put_session sid (record (touch x o.now) { runner = r })
        (record (touched o sid s) { disk = o.disk_after })

  exec_tool-code :
      (result : Result) (r : RunnerProcess)
      → get sid s.manager ≡ some x
      → req.tool ≡ code_execution
      → code_execution_input o.pydantic req.input ≡ some parsed
      → execute_in o x.runner parsed.code req.timeout_seconds ≡ some (result, r)
      → exec_tool o sid req s ≡ (code_response o (tool_use_id_of o req) result, after_code r)
  unfolding exec_tool finish_exec touch
  exec_tool-code result r found tool valid run =
      ap (continued o) (begin_exec-code found tool valid)
      ∙ finish_code-run o (pending_code o sid req x parsed.code) parsed.code req.timeout_seconds
          (touched o sid s) (touch x o.now) result r (get-touched o sid x s found) run

execute_in-alive :
    (o : Outside) (r : RunnerProcess) (code : Text) (timeout_seconds : ℕ)
    (z : Result × RunnerProcess × List ReadEvent)
    → is_alive r ≡ true
    → execute r code timeout_seconds o.exchange ≡ z
    → execute_in o r code timeout_seconds ≡ some (z.0, z.1)
unfolding execute_in
execute_in-alive o r code timeout_seconds z alive e =
    if_true _ _ alive ∙ ap (λ (y : Result × RunnerProcess × List ReadEvent). some (y.0, y.1)) e

start-alive : (r : RunnerProcess) (p : Proc) → is_alive r ≡ true → start r p ≡ r
unfolding is_alive start
start-alive r p alive = if_true r (record r { proc = some p }) alive

module _ {G : Type 0} (printable : ℕ → Bool) (exec_block : G → Text → BlockRun G) where
  -- A code block that ends, from the request to the response: the session is known, its runner is alive, reads
  -- exactly what the server sends for the code of the input and has written nothing before, and the server
  -- reads what the runner writes in that round. Then the response is a block with the output and the code
  -- of the block, with one newline less at the end of each stream, truncated to the limits of the runner;
  -- the session is touched, keeps its runner, and the disk is as the block leaves it. The bytes that the
  -- block wrote to the file descriptor itself must be whole lines, no line before or inside the frames may
  -- be a sentinel line, and the texts must be encodable.
  pub exec_tool-run_one :
      (g : G) (st : Streams) (o : Outside) (sid : Text) (req : ExecRequest) (s : Server)
      (x : Session) (parsed : CodeExecutionInput) (r : Executed G)
      → let err = stderr_value r.stderr r.ending in
        exec_block g parsed.code ≡ block_ended r
        → get sid s.manager ≡ some x
        → req.tool ≡ code_execution
        → code_execution_input o.pydantic req.input ≡ some parsed
        → is_alive x.runner ≡ true
        → is_scalar_text parsed.code ≡ true
        → st.input.bytes ≡ request parsed.code
        → st.out ≡ []
        → is_scalar_text r.stdout ≡ true
        → is_scalar_text err ≡ true
        → IsComplete r.raw
        → All IsIgnored (split_lines r.raw)
        → All IsPlain (split_lines (terminated r.stdout))
        → All IsPlain (split_lines (terminated err))
        → o.exchange.send_ok ≡ true
        → o.exchange.events
          ≡ stream_events (written printable exec_block (run_one printable exec_block g st))
        → exec_tool o sid req s ≡ (
          code_response o (tool_use_id_of o req) (
              truncated_outcome x.runner.limits.max_output_bytes
                (plain_outcome (unframed r.stdout) (unframed err) (return_code r.ending))),
          after_code o sid req s x parsed x.runner,
        )
  exec_tool-run_one g st o sid req s x parsed r ends found tool valid alive scalar input fresh a b
        complete noise plain plain' sent evs =
      let run =
        execute-run_one printable exec_block g st x.runner parsed.code req.timeout_seconds
          o.exchange r ends scalar input fresh a b complete noise plain plain' sent evs in
      let kept = start-alive x.runner o.exchange.spawned alive in
      let run' = execute_in-alive o x.runner parsed.code req.timeout_seconds _ alive run in
      exec_tool-code o sid req s x parsed _ _ found tool valid run'
      ∙ ap
          (λ q. (
            code_response o (tool_use_id_of o req) (
                truncated_outcome q.limits.max_output_bytes (
                  plain_outcome (unframed r.stdout) (unframed (stderr_value r.stderr r.ending))
                    (return_code r.ending))),
            after_code o sid req s x parsed q,
          ))
          kept

-- A call that waits: a code block that is neither empty nor too long, and a timeout in its bounds.
abbrev pub IsBounded : Begun → Type 0
IsBounded (answered r) = Unit
IsBounded (waiting p) = elim p.call [
  | code_call code timeout_seconds ↦
      (1 ≤ length code) × (length code ≤ 200000) × (1 ≤ timeout_seconds) × (timeout_seconds ≤ 120)
  | bash_call prev timeout_seconds ↦ (1 ≤ timeout_seconds) × (timeout_seconds ≤ 120)
]

-- Whatever the body of an exec request that the validation accepts: a code block that is sent to a runner
-- has between 1 and 200000 characters, and a call, of a code block or of a command, has a timeout between 1
-- and 120 seconds.
pub begin_exec-IsBounded :
    (o : Outside) (sid : Text) (d : Dict Text Json) (req : ExecRequest) (s : Server)
    → exec_request o.pydantic d ≡ some req
    → IsBounded (begin_exec o sid req s).0
unfolding begin_exec
begin_exec-IsBounded o sid d req s h =
    with_session_both P answered o sid (dispatch o sid req) s (λ e. tt)
      (λ x e. of_tool (touch x o.now) (touched o sid s) req.tool)
  where
    P : Begun × Server → Type 0
    P z = IsBounded z.0

    timeout : (1 ≤ req.timeout_seconds) × (req.timeout_seconds ≤ 120)
    timeout = exec_request-timeout o.pydantic d req h

    of_tool :
        (x : Session) (t : Server) (tool : ToolKind)
        → P (dispatch o sid (record req { tool = tool }) x t)
    of_tool x t code_execution =
        option_both P (code_execution_input o.pydantic req.input) _ _ (λ e. tt)
          (λ parsed e.
            let (low, high) = code_execution_input-length o.pydantic req.input parsed e in
            (low, high, timeout.0, timeout.1))
    of_tool x t bash_code_execution =
        option_both P (bash_execution_input o.pydantic req.input) _ _ (λ e. tt)
          (λ parsed e. timeout)
    of_tool x t text_editor_code_execution =
        option_both P (text_editor_input o.pydantic req.input) _ _ (λ e. tt) (λ parsed e. tt)
