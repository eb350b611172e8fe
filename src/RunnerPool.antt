-- ===== src/RunnerPool.antt =====
-- sandbox/runner_pool.py: the exec server's side of one runner process. The subprocess, its pipes and
-- the clock are the arguments of the definitions: the events of a read, the outcome of a send.
pub mod Lines
pub mod Signals
pub mod Reader
pub mod RoundTrip
pub mod Execute
pub mod Tasks
use otari_sandbox_container.Base.{
  ℕ, zero, suc, ◌+◌, ◌-◌, ◌≡◌, Bool, true, false, ◌&&◌, ◌||◌, Option, none, some, List, [], ◌∷◌,
  ◌++◌, if◌then◌else◌, ltb, Text, Bytes, codes, ends_with_newline, drop_last, starts_with, ℤ, pos,
  negsuc, leb_ℤ, ltb_ℤ, neg_ℤ, length, take, drop, join, ◌==◌, nat_eq, int_eq, text_eq,
}
use otari_sandbox_container.Base.Dict.{lookup, insert}
use otari_sandbox_container.Decimal.{show_int, show_nat, parse_int}
use otari_sandbox_container.Utf8.Codec.{encode_chars, encode, decode_replace}
use otari_sandbox_container.Limits.{
  LimitKind, memory, cpu, file_size, output_bytes, wall_clock, value, ResourceLimits, Environ,
  truncate_output,
}
use otari_sandbox_container.Runner.{
  sentinel_done, sentinel_stdout, sentinel_stdout_end, sentinel_stderr, sentinel_stderr_end,
}

-- `signal.SIGKILL`, `signal.SIGXCPU` and `signal.SIGXFSZ` on Linux.
abbrev sigkill : ℤ
sigkill = pos 9

abbrev sigxcpu : ℤ
sigxcpu = pos 24

abbrev sigxfsz : ℤ
sigxfsz = pos 25

abbrev signal_kind : ℤ → Option LimitKind
signal_kind sig =
    if sig == sigkill
    then some memory
    else if sig == sigxcpu
    then some cpu
    else if sig == sigxfsz
    then some file_size
    else none

-- `_classify_signal_exit`
unfoldable pub classify_signal_exit : Option ℤ → Option LimitKind
classify_signal_exit none = none
classify_signal_exit (some exit_code) =
    if leb_ℤ (pos 0) exit_code then none else signal_kind (neg_ℤ exit_code)

pub record ExecOutcome : Type 0 where
  pub stdout : Text
  pub stderr : Text
  pub return_code : ℤ
  pub timed_out : Bool
  pub limit_exceeded : Option LimitKind
  pub stdout_dropped_bytes : ℤ
  pub stderr_dropped_bytes : ℤ

-- An outcome with the defaults of the dataclass in its last four fields.
abbrev pub plain_outcome : Text → Text → ℤ → ExecOutcome
plain_outcome stdout stderr return_code = record {
  stdout = stdout;
  stderr = stderr;
  return_code = return_code;
  timed_out = false;
  limit_exceeded = none;
  stdout_dropped_bytes = pos 0;
  stderr_dropped_bytes = pos 0;
}

pub data Section : Type 0 where
  in_stdout in_stderr : Section

-- The local variables of `_read_until_done`.
pub record ReadState : Type 0 where
  pub stdout_text : Text
  pub stderr_text : Text
  pub in_section : Option Section
  pub section_buf : List Text

abbrev pub initial_read : ReadState
initial_read = record { stdout_text = []; stderr_text = []; in_section = none; section_buf = [] }

abbrev trim_newline : ℕ → Text → Text
trim_newline c [] = if c == 10 then [] else c ∷ []
trim_newline c (d ∷ s) = c ∷ d ∷ s

-- `line.rstrip("\n")`
unfoldable pub rstrip_newlines : Text → Text
rstrip_newlines [] = []
rstrip_newlines (c ∷ s) = trim_newline c (rstrip_newlines s)

-- `"".join(section_buf)` less one newline at its end.
unfoldable pub section_text : List Text → Text
section_text buf = let text = join buf in if ends_with_newline text then drop_last text else text

-- What a line leads to: the next state, or the outcome.
pub data LineResult : Type 0 where
  next : ReadState → LineResult
  outcome : ExecOutcome → LineResult

abbrev done_prefix : Text
done_prefix = sentinel_done ++ codes " "

abbrev return_code_of : Text → ℤ
return_code_of s = elim (parse_int s) [ none ↦ negsuc 0 | some n ↦ n ]

-- What follows in a round from the line and the line less its newline.
abbrev on_stripped : ReadState → Text → Text → LineResult
on_stripped s line stripped =
    if stripped == sentinel_stdout
    then next (record s { in_section = some in_stdout; section_buf = [] })
    else if stripped == sentinel_stdout_end
    then next (record s { stdout_text = section_text s.section_buf; in_section = none })
    else if stripped == sentinel_stderr
    then next (record s { in_section = some in_stderr; section_buf = [] })
    else if stripped == sentinel_stderr_end
    then next (record s { stderr_text = section_text s.section_buf; in_section = none })
    else if starts_with stripped done_prefix
    then outcome (
        plain_outcome s.stdout_text s.stderr_text
          (return_code_of (drop (length done_prefix) stripped)))
    else elim s.in_section [
      | none ↦ next s
      | some _ ↦ next (record s { section_buf = s.section_buf ++ line ∷ [] })
    ]

-- One round of the loop of `_read_until_done`, for a line that was read.
unfoldable pub read_step : ReadState → Text → LineResult
read_step s line = on_stripped s line (rstrip_newlines line)

-- What `execute` sends: the header line with the number of bytes, then the payload.
unfoldable pub request : Text → Bytes
request code =
    encode_chars (show_int (pos (length (encode_chars code))) ++ codes "\n") ++ encode_chars code

-- What `readline` gives: a line with its newline (or the last bytes without one), the end of the
-- stream, or the `ValueError` of a line that is longer than the buffer limit of the stream.
pub data ReadEvent : Type 0 where
  line : Bytes → ReadEvent
  eof : ReadEvent
  overrun : ReadEvent

-- How the reading ends: with an outcome, at the end of the stream with the texts so far, with a
-- `ValueError`, or not before the deadline.
pub data ReadEnd : Type 0 where
  done : ExecOutcome → ReadEnd
  died : Text → Text → ReadEnd
  overran : ReadEnd
  pending : ReadEnd

-- `_read_until_done` over the events before the deadline, and the events that it leaves.
unfoldable pub read_until_done : ReadState → List ReadEvent → ReadEnd × List ReadEvent
read_until_done s [] = (pending, [])
read_until_done s (eof ∷ es) = (died s.stdout_text s.stderr_text, es)
read_until_done s (overrun ∷ es) = (overran, es)
read_until_done s (line raw ∷ es) = elim (read_step s (decode_replace raw)) [
  | next s' ↦ read_until_done s' es
  | outcome o ↦ (done o, es)
]

-- The end of the stream before the done line: the outcome, by the exit code of the process.
unfoldable pub died_outcome : Text → Text → Option ℤ → ExecOutcome
died_outcome stdout_text stderr_text exit_code =
    let limit_kind = classify_signal_exit exit_code in
    let suffix : Text = elim limit_kind [
      | none ↦ codes "runner: process exited unexpectedly\n"
      | some k ↦ codes "runner: killed by sandbox limit (" ++ (value k ++ codes ")\n")
    ] in
    record (plain_outcome stdout_text (stderr_text ++ suffix) (negsuc 0)) {
      limit_exceeded = limit_kind;
    }

-- A subprocess: its number and its exit code once it has ended.
pub record Proc : Type 0 where
  pub pid : ℕ
  pub returncode : Option ℤ

pub record RunnerProcess : Type 0 where
  pub workspace : Text
  pub extra_python_path : Option Text
  pub proc : Option Proc
  pub limits : ResourceLimits

abbrev running : Option Proc → Bool
running none = false
running (some p) = elim p.returncode [ none ↦ true | some _ ↦ false ]

-- `is_alive`
unfoldable pub is_alive : RunnerProcess → Bool
is_alive r = running r.proc

-- `start`: a process that is running is kept, otherwise `spawned` is the new one.
unfoldable pub start : RunnerProcess → Proc → RunnerProcess
start r spawned = if running r.proc then r else record r { proc = some spawned }

abbrev pub python_path : Option Text → Environ → Environ
python_path none env = env
python_path (some []) env = env
python_path (some (c ∷ path)) env =
    let existing : Text = elim (lookup (codes "PYTHONPATH") env) [ none ↦ [] | some p ↦ p ] in
    insert (codes "PYTHONPATH")
      (if length existing == 0 then c ∷ path else (c ∷ path) ++ (codes ":" ++ existing)) env

-- The environment that `start` gives to the subprocess.
unfoldable pub runner_environ : RunnerProcess → Environ → Environ
unfolding insert lookup text_eq
runner_environ r environ =
    python_path r.extra_python_path (insert (codes "SANDBOX_WORKSPACE") r.workspace environ)

-- What a running process does when it is to be stopped.
pub data Stopping : Type 0 where
  exits : Stopping
  ignores_sigterm : Stopping
  already_gone : Stopping

pub data Signal : Type 0 where
  sigterm kill : Signal

-- `stop`: the runner without its process, and the signals that were sent.
unfoldable pub stop : RunnerProcess → Stopping → RunnerProcess × List Signal
stop r how = (
  record r { proc = none },
  (if running r.proc
      then elim how [
        | exits ↦ sigterm ∷ []
        | ignores_sigterm ↦ sigterm ∷ kill ∷ []
        | already_gone ↦ sigterm ∷ []
      ]
      else []),
)
