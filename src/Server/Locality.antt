-- ===== src/Server/Locality.antt =====
-- Each request of sandbox/exec_server.py: the invariant of the manager, and the sessions that it leaves.
use otari_sandbox_container.Base.{
  ℕ, ◌≡◌, refl, Option, none, some, List, ltb, Text, Bytes, text_eq, if_both, option_both, length,
}
use mathlib.Core.Path.{subst}
use otari_sandbox_container.Base.Dict.{Dict}
use otari_sandbox_container.RunnerPool.{RunnerProcess, is_alive}
use otari_sandbox_container.RunnerPool.Execute.{Result, execute}
use otari_sandbox_container.Bash.{BashEnd, bash_returned, bash_raised, bash_waits, run_bash}
use otari_sandbox_container.Sessions.{Session, touch, get}
use otari_sandbox_container.Files.{max_file_bytes}
use otari_sandbox_container.Workspace.{Disk}
use otari_sandbox_container.Models.{
  ToolKind, code_execution, bash_code_execution, text_editor_code_execution, code_execution_input,
  bash_execution_input, text_editor_input, ExecRequest,
}
use otari_sandbox_container.Server.{Server, Outside, Response, uncaught, put_session, with_session}
use otari_sandbox_container.Server.Exec.{
  Call, code_call, bash_call, Pending, Begun, answered, waiting, run_text_editor_execution,
  dispatch, begin_exec, runner_of, execute_in, store_runner, code_response, finish_code,
  finish_bash, shell_end, finish_exec, continued, exec_tool,
}
use otari_sandbox_container.Server.Transfer.{files_upload, begin_upload, finish_upload, refused}
use otari_sandbox_container.Server.Local.{
  IsLocal, touched, touched-IsLocal, get-touched, with_session_both, IsLocal-same, IsLocal-then,
  put_session-IsLocal, with_session-IsLocal, SameRunner, execute-SameRunner, with_runner-SameHome,
}

store_runner-IsLocal :
    (sid : Text) (r r' : RunnerProcess) (s : Server)
    → ((x : Session) → get sid s.manager ≡ some x → r ≡ x.runner)
    → SameRunner r r'
    → IsLocal sid s (store_runner sid r' s)
store_runner-IsLocal sid r r' s mine same =
    option_both (IsLocal sid s) (get sid s.manager) _ _ (λ e. IsLocal-same sid s _ refl)
      (λ x e.
        put_session-IsLocal sid x (record x { runner = r' }) s e
          (with_runner-SameHome x r' (subst (λ q. SameRunner q r') (mine x e) same)))

-- A call keeps the directories of its runner.
abbrev Runs : RunnerProcess → Option (Result × RunnerProcess) → Type 0
Runs r none = Unit
Runs r (some z) = SameRunner r z.1

execute_in-Runs :
    (o : Outside) (r : RunnerProcess) (code : Text) (timeout_seconds : ℕ)
    → Runs r (execute_in o r code timeout_seconds)
unfolding execute_in
execute_in-Runs o r code timeout_seconds =
    if_both (Runs r) (is_alive r) _ _ (λ e. execute-SameRunner r code timeout_seconds o.exchange)
      (λ e.
        option_both (Runs r) o.spawned none
          (λ p. some (
            let (result, r', left) =
              execute r code timeout_seconds (record o.exchange { spawned = p }) in
            (result, r')))
          (λ e. tt)
          (λ p e. execute-SameRunner r code timeout_seconds (record o.exchange { spawned = p })))

pub runner_of-found :
    (p : Pending) (s : Server) (x : Session)
    → get p.session_id s.manager ≡ some x
    → runner_of p s ≡ x.runner
runner_of-found p s x e = rw (e, runner_of) refl

pub finish_exec-IsLocal :
    (o : Outside) (p : Pending) (s : Server) → IsLocal p.session_id s (finish_exec o p s).1
unfolding finish_exec
finish_exec-IsLocal o p s = of_call p.call
  where
    P : Response × Server → Type 0
    P z = IsLocal p.session_id s z.1

    of_run :
        (code : Text) (timeout_seconds : ℕ) (z : Option (Result × RunnerProcess))
        → z ≡ execute_in o (runner_of p s) code timeout_seconds
        → Runs (runner_of p s) z
        → P (elim z [
          | none ↦ (uncaught, s)
          | some (result, r) ↦ (
            code_response o p.tool_use_id result,
            store_runner p.session_id r (record s { disk = o.disk_after }),
          )
        ])
    of_run code timeout_seconds none e h = IsLocal-same p.session_id s s refl
    of_run code timeout_seconds (some (result, r)) e h =
        let t : Server = record s { disk = o.disk_after } in
        IsLocal-then p.session_id s t _ (IsLocal-same p.session_id s t refl)
          (store_runner-IsLocal p.session_id (runner_of p s) r t (runner_of-found p s) h)

    of_shell : (prev : Option Text) (end : BashEnd) → P (shell_end o p prev end s)
    of_shell prev (bash_returned outcome) = IsLocal-same p.session_id s _ refl
    of_shell prev bash_raised = IsLocal-same p.session_id s _ refl
    of_shell prev bash_waits = IsLocal-same p.session_id s _ refl

    of_call :
        (call : Call)
        → P (elim call [
          | code_call code timeout_seconds ↦ finish_code o p code timeout_seconds s
          | bash_call prev timeout_seconds ↦ finish_bash o p prev timeout_seconds s
        ])
    of_call (code_call code timeout_seconds) =
        of_run code timeout_seconds (execute_in o (runner_of p s) code timeout_seconds) refl
          (execute_in-Runs o (runner_of p s) code timeout_seconds)
    of_call (bash_call prev timeout_seconds) = of_shell prev (run_bash timeout_seconds o.shell)

-- A pending call is one for the session.
abbrev IsFor : Text → Begun → Type 0
IsFor sid (answered r) = Unit
IsFor sid (waiting p) = p.session_id ≡ sid

dispatch-IsLocal :
    (o : Outside) (sid : Text) (req : ExecRequest) (x : Session) (s : Server)
    → get sid s.manager ≡ some x
    → IsLocal sid s (dispatch o sid req x s).1 × IsFor sid (dispatch o sid req x s).0
unfolding run_text_editor_execution
dispatch-IsLocal o sid req x s found = of_tool req.tool
  where
    P : Begun × Server → Type 0
    P z = IsLocal sid s z.1 × IsFor sid z.0

    edited :
        (u : Dict Text (List Text)) (k : Disk)
        → IsLocal sid s (put_session sid (record x { undo_stack = u }) (record s { disk = k }))
    edited u k =
        let t : Server = record s { disk = k } in
        IsLocal-then sid s t _ (IsLocal-same sid s t refl) (
          put_session-IsLocal sid x (record x { undo_stack = u }) t found
            (record {
              session_id = refl;
              workspace_dir = refl;
              stub_dir = refl;
              runs_in = refl;
              imports_from = refl;
            }))

    of_tool : (tool : ToolKind) → P (dispatch o sid (record req { tool = tool }) x s)
    of_tool code_execution =
        option_both P (code_execution_input o.pydantic req.input) _ _
          (λ e. (IsLocal-same sid s s refl, tt)) (λ a e. (IsLocal-same sid s s refl, refl))
    of_tool bash_code_execution =
        option_both P (bash_execution_input o.pydantic req.input) _ _
          (λ e. (IsLocal-same sid s s refl, tt)) (λ a e. (IsLocal-same sid s _ refl, refl))
    of_tool text_editor_code_execution =
        option_both P (text_editor_input o.pydantic req.input) _ _
          (λ e. (IsLocal-same sid s s refl, tt)) (λ a e. (edited _ _, tt))

pub begin_exec-IsLocal :
    (o : Outside) (sid : Text) (req : ExecRequest) (s : Server)
    → IsLocal sid s (begin_exec o sid req s).1 × IsFor sid (begin_exec o sid req s).0
unfolding begin_exec
begin_exec-IsLocal o sid req s =
    with_session_both (λ z. IsLocal sid s z.1 × IsFor sid z.0) answered o sid (dispatch o sid req) s
      (λ e. (IsLocal-same sid s s refl, tt))
      (λ x e.
        let t = touched o sid s in
        let (l, f) = dispatch-IsLocal o sid req (touch x o.now) t (get-touched o sid x s e) in
        (IsLocal-then sid s t _ (touched-IsLocal o sid s) l, f))

pub exec_tool-IsLocal :
    (o : Outside) (sid : Text) (req : ExecRequest) (s : Server)
    → IsLocal sid s (exec_tool o sid req s).1
unfolding exec_tool
exec_tool-IsLocal o sid req s = of_begun (begin_exec o sid req s) (begin_exec-IsLocal o sid req s)
  where
    of_begun :
        (z : Begun × Server) → IsLocal sid s z.1 × IsFor sid z.0 → IsLocal sid s (continued o z).1
    of_begun (answered r, t) h = h.0
    of_begun (waiting p, t) h =
        IsLocal-then sid s t _ h.0
          (subst (λ i. IsLocal i t (finish_exec o p t).1) h.1 (finish_exec-IsLocal o p t))

pub transfer-IsLocal :
    (o : Outside) (sid : Text) (body : Session → Server → Response × Server) (s : Server)
    → ((x : Session) (t : Server) → (body x t).1.manager ≡ t.manager)
    → IsLocal sid s (with_session (λ r. r) o sid body s).1
transfer-IsLocal o sid body s h =
    with_session-IsLocal (λ r. r) o sid body s (λ x t e. IsLocal-same sid t _ (h x t))

pub finish_upload-manager :
    (o : Outside) (x : Session) (content : Bytes) (filename path : Option Text) (s : Server)
    → (finish_upload o x content filename path s).1.manager ≡ s.manager
finish_upload-manager o x content filename path s =
    if_both (λ (z : Response × Server). z.1.manager ≡ s.manager)
      (ltb max_file_bytes (length content)) _ _ (λ e. refl) (λ e. refl)

pub begin_upload-IsLocal :
    (o : Outside) (sid : Text) (s : Server) → IsLocal sid s (begin_upload o sid s).1
unfolding begin_upload
begin_upload-IsLocal o sid s =
    with_session-IsLocal refused o sid _ s (λ x t e. IsLocal-same sid t t refl)

pub files_upload-IsLocal :
    (o : Outside) (sid : Text) (content : Bytes) (filename path : Option Text) (s : Server)
    → IsLocal sid s (files_upload o sid content filename path s).1
unfolding files_upload
files_upload-IsLocal o sid content filename path s =
    transfer-IsLocal o sid _ s (λ x t. finish_upload-manager o x content filename path t)
