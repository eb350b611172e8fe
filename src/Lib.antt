-- ===== src/Lib.antt =====
-- The code sandbox of sandbox/: an exec server holds sessions, each with a runner subprocess that
-- runs Python code blocks, and reads their output back from a pipe. The files here model the
-- requests of that server with their validation and status codes, the path of a code block from
-- the request to its outcome, the life of the sessions, the tools that work in a session's
-- directories (the text editor, the files interface, the shell and the stub module for platform
-- tools), and the logs and their export.
--
--   sandbox/runner.py: Runner and its children. run_one is one round of the loop of run, Runner.run
--     the loop; read_line, read_exact, frame_writes and done_writes are _read_line, _read_exact,
--     _write_frame and _write_done. What a block does is the parameter exec_block; a block that loops
--     or ends the process itself is one that does not end, and Runner.run stops in it.
--   sandbox/runner_pool.py: RunnerPool and its children. start, stop and is_alive are the methods of
--     those names; read_until_done is _read_until_done over the lines that arrive, read_step one of
--     its rounds; execute, in RunnerPool/Execute, is the method with its drain and truncation.
--     RunnerPool/Tasks has the same methods as tasks of the event loop that share self._proc and the
--     lock: a move is what a task does from one await to the next (Goes, or Leaves where it ends), a
--     history is moves of any tasks in any order.
--   sandbox/limits.py: Limits and its children: default_limits, apply_runner_rlimits,
--     truncate_output.
--   sandbox/sessions.py: Sessions and its children: the manager with create, destroy, get, reap_idle
--     and shutdown. A history is a row of calls in any order (Sessions/Isolation), the two halves of
--     reap_idle included, since the second half is a row of calls of destroy. Sessions/Specification
--     states what the manager promises over the sessions that can be found.
--   sandbox/text_editor.py, sandbox/files.py: Workspace (the file system, _resolve, read_text and
--     write_text), TextEditor and its children (one definition for each handler; a handler that edits
--     a file is an edit, up to the undo stack, and its commit), Files and its children.
--   sandbox/bash.py: Bash and its children, with the environment variable that
--     sandbox/exec_server.py sets around a call.
--   sandbox/platform_tools.py: PlatformTools and its children: the validation of the tool names, the
--     literals of json.dumps with a reader of Python string literals, the generated source, and its
--     installation.
--   sandbox/models.py: Models, one function for the validation of each request body, and
--     Models/Validation.
--   sandbox/exec_server.py: Server and its children. Server.antt has the state, the responses and
--     the handlers for sessions (a creation in its two parts, before and after the process is
--     spawned), Server/Exec the exec handler in its two parts, Server/Transfer those for files and the
--     stub module, Server/Routes the requests, the collector, the end of the process and the histories
--     of a server; the other children are proofs.
--   sandbox/logging_config.py: Logging, with Logging/Lines (the JSON lines, read back) and
--     Logging/Delivery (which handlers a record reaches).
--   sandbox/telemetry.py, and the settings at the top of sandbox/exec_server.py: Telemetry and
--     Telemetry/Setup.
--   Python itself: Utf8 (the codec, with errors="replace" as CPython replaces), Decimal (str and int
--     of a number), Repr (repr of a text), Base (integers, texts, dictionaries).
--
-- The parts meet as they do in the source: execute sends what run_one reads, and reads what
-- run_one writes; a session holds the RunnerProcess of its runner; execute bounds its output by
-- the limits of that process. The text editor and the files interface work in the workspace of a
-- session, and both return or raise what their Reply says. A handler of the server finds a session
-- in the manager, touches it, calls the tool with the directories of the session, stores what the
-- tool leaves, and answers with a status for each exception; what comes from outside during a
-- request is its Outside.
--
-- A str is the list of its code points and bytes are a list of numbers below 256. int() knows
-- ASCII digits only and no limit on their number. A time is a number of ticks. The operating
-- system appears as arguments: how os.read splits the input, the events of a pipe (lines, the end,
-- an overrun of the buffer), the exit code, the outcome of setrlimit, mkdir and rmtree, the clock
-- and the random number of an identifier. On the disk, paths are resolved ones: what a path
-- resolves to, and whether resolve raises for it (a NUL character, a loop of links), are
-- arguments, and a link that leads nowhere in place of a directory, permissions and a full disk do
-- not occur. A deadline is the end of the list of events: what is not in it came too late.
--
-- Bounds: read_exact gives its loop one round for each byte that is asked for, and a round reads
-- at least one byte. Runner.run takes a number of rounds; more rounds than the input has bytes are
-- enough, since each round that goes on consumes at least its header line.
--
-- Not modelled: the web framework (routing, the parsing of bodies and forms, the encoding of
-- responses) and how the validation library converts values; what the stub module does when it
-- runs; the log lines of the parts other than their format; the export itself; in the histories of
-- the server, what happens to a call while it holds the lock (RunnerPool/Tasks has that for one
-- runner, without the text that is read); tests and packaging.
pub mod Base
pub mod Utf8
pub mod Decimal
pub mod Limits
pub mod Repr
pub mod Runner
pub mod RunnerPool
pub mod Sessions
pub mod Workspace
pub mod TextEditor
pub mod Files
pub mod Bash
pub mod PlatformTools
pub mod Models
pub mod Server
pub mod Logging
pub mod Telemetry
pub mod Tests
