-- ===== src/Tests/ExecTests.antt =====
-- Runs of the definitions for the exec requests of sandbox/exec_server.py.
use otari_sandbox_container.Base.{
  ◌≡◌, refl, inl, true, false, none, some, [], ◌∷◌, Text, codes, pos, text_eq, text_beq,
  starts_with,
}
use otari_sandbox_container.Base.Dict.{Dict, lookup, insert}
use otari_sandbox_container.Runner.{run_one, stderr_value, return_code}
use otari_sandbox_container.RunnerPool.{
  plain_outcome, request, is_alive, read_until_done, read_step, rstrip_newlines,
}
use otari_sandbox_container.RunnerPool.Lines.{split_lines}
use otari_sandbox_container.RunnerPool.Reader.{is_sentinel, events}
use otari_sandbox_container.RunnerPool.RoundTrip.{stream_events}
use otari_sandbox_container.RunnerPool.Execute.{truncated_outcome}
use otari_sandbox_container.RunnerPool.Execute.EndToEnd.{written}
use otari_sandbox_container.Runner.Frames.{done_line}
use otari_sandbox_container.Utf8.Codec.{
  encode_chars, encode_char, decode_replace, decode_from, decode_next, decode_first,
}
use otari_sandbox_container.Decimal.{show_int, parse_int}
use otari_sandbox_container.Sessions.{Session, get, touch}
use otari_sandbox_container.Models.{
  Json, string, object, member, no_members, code_execution, CodeExecutionInput,
  code_execution_input, ExecRequest, exec_request, has_length, as_dict, in_bounds, ◌>>=◌,
  bash_code_execution, bash_execution_input, bash_execution_block,
}
use otari_sandbox_container.Server.{Server, Outside, destroyed}
use otari_sandbox_container.Server.Exec.{
  Pending, begin_exec, exec_tool, code_response, tool_use_id_of, finish_exec, replied,
  outcome_to_content,
}
use otari_sandbox_container.Server.Routes.{collect, teardown}
use otari_sandbox_container.Server.Execution.{
  after_code, exec_tool-run_one, IsBounded, begin_exec-IsBounded, pending_code,
}
use otari_sandbox_container.Server.Orphans.{finish_exec-orphan}
use otari_sandbox_container.Server.Shell.{exec_tool-bash}
use otari_sandbox_container.Bash.{finished, run_bash, workdir, workspace_variable}
use otari_sandbox_container.Server.Lifecycle.{collect-begin_exec}
use otari_sandbox_container.Tests.RunnerTests.{ascii_printable, echo, echoed, streams}
use otari_sandbox_container.Tests.PoolTests.{fresh, exchange}
use otari_sandbox_container.Tests.SessionsTests.{session_a, one}
use otari_sandbox_container.Tests.ServerTests.{outside, server, a, one-IsValid}

abbrev code : Text
code = codes "hé"

abbrev input : Dict Text Json
input = (codes "code", string code) ∷ []

abbrev parsed : CodeExecutionInput
parsed = record { code = code }

abbrev req : ExecRequest
req = record { tool = code_execution; input = input; timeout_seconds = 30; tool_use_id = none }

abbrev running_a : Session
running_a = record session_a { runner = record session_a.runner { proc = some fresh } }

abbrev running : Server
running = record server { manager = record one { sessions = (a, running_a) ∷ [] } }

abbrev answering : Outside
answering = record outside {
  exchange = exchange (
      stream_events
        (written ascii_printable echo (run_one ascii_printable echo 0 (streams (request code)))));
}

exec_tool-run_one_example : exec_tool answering a req running ≡ (
  code_response answering
      (tool_use_id_of answering req)
      (truncated_outcome (pos 1048576) (plain_outcome (codes "hé") (codes "wE") (pos 1))),
  after_code answering a req running running_a parsed running_a.runner,
)
unfolding split_lines is_sentinel rstrip_newlines starts_with text_eq text_beq stderr_value
    return_code get lookup code_execution_input has_length is_alive ◌>>=◌
exec_tool-run_one_example =
    exec_tool-run_one ascii_printable echo 0 (streams (request code)) answering a req running
      running_a parsed (echoed 0 code) refl refl refl refl refl refl refl refl refl refl (inl refl)
      tt ((refl, refl), tt) ((refl, refl), tt) refl refl

abbrev body : Dict Text Json
body =
    (codes "tool", string (codes "code_execution"))
    ∷ (codes "input", object (member (codes "code") (string code) no_members))
    ∷ []

begin_exec-IsBounded_example : IsBounded (begin_exec outside a req server).0
unfolding exec_request lookup text_eq text_beq as_dict insert in_bounds ◌>>=◌
begin_exec-IsBounded_example = begin_exec-IsBounded outside a body req server refl

collect-begin_exec_example :
    get a (collect 1000 (λ d. true) 900006 (begin_exec outside a req server).1).manager ≡ none
unfolding get lookup text_eq text_beq code_execution_input has_length ◌>>=◌
collect-begin_exec_example =
    collect-begin_exec 1000 900006 900 7200 (λ d. true) outside a req server session_a parsed
      one-IsValid refl refl refl refl refl

abbrev late : Outside
late = record outside { exchange = exchange (events (done_line (pos 0) ∷ [])) }

abbrev waiting_call : Pending
waiting_call = pending_code outside a req session_a code

abbrev gone : Server
gone = destroyed (λ d. false) a server

finish_exec-orphan_example :
    ((finish_exec late waiting_call gone).0
      ≡ code_response late waiting_call.tool_use_id
          (truncated_outcome (pos 1048576) (plain_outcome [] [] (pos 0))))
    × (get a (finish_exec late waiting_call gone).1.manager ≡ none)
    × ((teardown (λ d. true) (finish_exec late waiting_call gone).1).orphans
        ≡ record session_a.runner { proc = some fresh } ∷ [])
unfolding read_until_done read_step text_eq text_beq starts_with rstrip_newlines decode_replace
    decode_from decode_next decode_first encode_chars encode_char show_int parse_int touch
finish_exec-orphan_example =
    finish_exec-orphan late waiting_call code 30 server (λ d. false) (λ d. true) fresh
      (plain_outcome [] [] (pos 0)) [] refl refl refl refl refl

abbrev command : ExecRequest
command = record {
  tool = bash_code_execution;
  input = (codes "command", string (codes "ls")) ∷ [];
  timeout_seconds = 30;
  tool_use_id = some (codes "t");
}

abbrev listing : Outside
listing = record outside { shell = finished (codes "f\n") [] (some (pos 0)) }

exec_tool-bash_example :
    (workdir (begin_exec listing a command server).1.environ ≡ session_a.workspace_dir)
    × ((exec_tool listing a command server).0
        ≡ replied listing (codes "t") (
            bash_execution_block
              (codes "t")
              (outcome_to_content (plain_outcome (codes "f\n") [] (pos 0)))))
    × (lookup workspace_variable (exec_tool listing a command server).1.environ ≡ none)
unfolding get lookup text_eq text_beq bash_execution_input has_length ◌>>=◌ run_bash decode_replace
    decode_from decode_next decode_first
exec_tool-bash_example =
    exec_tool-bash listing a command server session_a (record { command = codes "ls" })
      (plain_outcome (codes "f\n") [] (pos 0)) workspace_variable refl refl refl refl
