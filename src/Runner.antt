-- ===== src/Runner.antt =====
-- sandbox/runner.py: the REPL process. It reads framed code blocks from file descriptor 0, runs each
-- in one namespace, and writes the captured streams as frames to file descriptor 1. What a block does
-- is a parameter, `exec_block`.
pub mod Input
pub mod Frames
pub mod Block
pub mod Loop
use otari_sandbox_container.Base.{
  ℕ, zero, suc, ◌-◌, ◌≡◌, min, Bool, true, false, not, Option, none, some, List, [], ◌∷◌, ◌++◌, map,
  if◌then◌else◌, ltb, Text, Bytes, codes, ends_with_newline, ℤ, pos, negsuc, length, take, drop,
  join, ◌==◌, nat_eq, int_eq, text_eq,
}
use otari_sandbox_container.Base.Dict.{Dict, lookup}
use otari_sandbox_container.Decimal.{show_int, parse_int, strip}
use otari_sandbox_container.Repr.{repr}
use otari_sandbox_container.Utf8.Codec.{encode, decode_replace}

abbrev pub sentinel_done : Text
sentinel_done = codes "---SBX_DONE---"

abbrev pub sentinel_stdout : Text
sentinel_stdout = codes "---SBX_STDOUT---"

abbrev pub sentinel_stdout_end : Text
sentinel_stdout_end = codes "---SBX_STDOUT_END---"

abbrev pub sentinel_stderr : Text
sentinel_stderr = codes "---SBX_STDERR---"

abbrev pub sentinel_stderr_end : Text
sentinel_stderr_end = codes "---SBX_STDERR_END---"

-- File descriptor 0: the bytes up to the end of the file, and how many of the bytes asked for each
-- further `os.read` hands over beyond the first one.
pub record Stdin : Type 0 where
  pub bytes : Bytes
  pub grants : List ℕ

abbrev granted : ℕ → List ℕ → ℕ
granted n [] = n
granted n (g ∷ gs) = min n (suc g)

abbrev later : List ℕ → List ℕ
later [] = []
later (g ∷ gs) = gs

-- `os.read(0, n)`: between one and `n` bytes, or none at the end of the file.
unfoldable pub os_read : ℕ → Stdin → Bytes × Stdin
os_read n i =
    let k = granted n i.grants in
    (take k i.bytes, record { bytes = drop k i.bytes; grants = later i.grants })

-- `_read_line`: one byte at a time up to a newline or the end of the file; each byte is decoded on its
-- own.
unfoldable pub read_line : Bytes → Text × Bytes
unfolding decode_replace
read_line [] = ([], [])
read_line (b ∷ bs) =
    let rest = read_line bs in
    if b == 10 then ([], bs) else (decode_replace (b ∷ []) ++ rest.0, rest.1)

-- The loop of `_read_exact`, with the number of bytes that are still missing.
unfoldable pub read_loop : ℕ → ℕ → Bytes → Stdin → Bytes × Stdin
read_loop zero missing buf i = (buf, i)
read_loop (suc fuel) missing buf i =
    let chunk = (os_read missing i).0 in
    let i' = (os_read missing i).1 in
    let rest = read_loop fuel (missing - length chunk) (buf ++ chunk) i' in
    if missing == 0 then (buf, i) else if length chunk == 0 then (buf, i') else rest

-- `_read_exact(n)`: a round reads at least one byte, so `n` rounds are enough. Nothing is read for a
-- negative `n`.
unfoldable pub read_exact : ℤ → Stdin → Bytes × Stdin
unfolding read_loop os_read
read_exact (pos n) i = read_loop n n [] i
read_exact (negsuc n) i = ([], i)

-- The texts that `_write_frame` writes, in order.
unfoldable pub frame_writes : Text → Text → Text → List Text
frame_writes tag end_tag text =
    (tag ++ codes "\n")
    ∷ text
    ∷ (if ends_with_newline text
        then (end_tag ++ codes "\n") ∷ []
        else codes "\n" ∷ (end_tag ++ codes "\n") ∷ [])

-- `_write_done`
unfoldable pub done_writes : ℤ → List Text
done_writes return_code =
    (sentinel_done ++ (codes " " ++ (show_int return_code ++ codes "\n"))) ∷ []

-- `_write_out` of each text, up to the first that cannot be encoded: what has been written then, and
-- whether all of it was.
unfoldable pub write_all : List Text → Bytes → Bytes × Bool
write_all [] out = (out, true)
write_all (t ∷ ts) out = elim (encode t) [
  | none ↦ (out, false)
  | some bs ↦ write_all ts (out ++ bs)
]

-- The argument of `SystemExit`, by what `int` makes of it.
pub data ExitCode : Type 0 where
  code_none : ExitCode
  code_int : ℤ → ExitCode
  code_text : Text → ExitCode
  code_other : ExitCode

-- How the code of a block ends.
pub data Ending : Type 0 where
  finished : Ending
  system_exit : ExitCode → Ending
  raised : (traceback : Text) → Ending

-- What a block did: the globals that it leaves, the contents of the two buffers, the bytes that it or
-- its children wrote to file descriptor 1 themselves, and how it ended.
pub record Executed (G : Type 0) : Type 0 where
  pub globals : G
  pub stdout : Text
  pub stderr : Text
  pub raw : Bytes
  pub ending : Ending

-- A block that ends; or one that does not, since it loops for ever or ends the process itself, and the
-- bytes that were written to file descriptor 1 meanwhile.
pub data BlockRun (G : Type 0) : Type 0 where
  block_ended : Executed G → BlockRun G
  block_unended : Bytes → BlockRun G

unfoldable pub return_code : Ending → ℤ
return_code finished = pos 0
return_code (system_exit code_none) = pos 0
return_code (system_exit (code_int n)) = n
return_code (system_exit (code_text s)) = elim (parse_int s) [ none ↦ pos 1 | some n ↦ n ]
return_code (system_exit code_other) = pos 1
return_code (raised traceback) = pos 1

-- The contents of the stderr buffer at the end.
unfoldable pub stderr_value : Text → Ending → Text
stderr_value stderr (raised traceback) = stderr ++ traceback
stderr_value stderr _ = stderr

-- What is written after a block.
unfoldable pub block_writes : Text → Text → ℤ → List Text
unfolding frame_writes done_writes
block_writes stdout stderr code =
    frame_writes sentinel_stdout sentinel_stdout_end stdout
    ++ (frame_writes sentinel_stderr sentinel_stderr_end stderr ++ done_writes code)

pub record Streams : Type 0 where
  pub input : Stdin
  pub out : Bytes
  pub err : Bytes

-- `return 0`, `return 2`, an exception that leaves `run`, or a block that `run` does not come back from.
pub data Exit : Type 0 where
  clean_eof protocol_error crashed in_block : Exit

pub data Round (G : Type 0) : Type 0 where
  go_on : G → Streams → Round G
  stop : Streams → Exit → Round G

module _ {G : Type 0} (printable : ℕ → Bool) (exec_block : G → Text → BlockRun G) where
  -- `_write_err`; the messages are ASCII or printable, so they encode.
  abbrev complain : Streams → Text → Streams
  complain s message = elim (encode message) [ none ↦ s | some bs ↦ record s { err = s.err ++ bs } ]

  abbrev respond : Streams → Executed G → Round G
  respond s r =
      let (out, ok) =
        write_all (block_writes r.stdout (stderr_value r.stderr r.ending) (return_code r.ending))
          (s.out ++ r.raw) in
      if ok then go_on r.globals (record s { out = out }) else stop (record s { out = out }) crashed

  abbrev after_block : Streams → BlockRun G → Round G
  after_block s (block_ended r) = respond s r
  after_block s (block_unended raw) = stop (record s { out = s.out ++ raw }) in_block

  abbrev run_code : G → Streams → ℤ → Round G
  run_code g s byte_length =
      let code_bytes = (read_exact byte_length s.input).0 in
      let s' : Streams = record s { input = (read_exact byte_length s.input).1 } in
      if pos (length code_bytes) == byte_length
      then after_block s' (exec_block g (decode_replace code_bytes))
      else stop
          (complain s' (
            codes "runner: short read ("
            ++ (show_int (pos (length code_bytes))
                ++ (codes "/" ++ (show_int byte_length ++ codes ")\n")))))
          protocol_error

  -- The round, from the header and the input behind it.
  abbrev on_header : G → Streams → Text → Bytes → Round G
  on_header g s header left =
      let s' : Streams = record s { input = record s.input { bytes = left } } in
      if length header == 0
      then stop s' clean_eof
      else if length (strip header) == 0
      then go_on g s'
      else elim (parse_int (strip header)) [
        | none ↦
            stop
              (complain s'
                (codes "runner: bad header " ++ (repr printable (strip header) ++ codes "\n")))
              protocol_error
        | some byte_length ↦ run_code g s' byte_length
      ]

  -- One round of the loop of `run`.
  unfoldable pub run_one : G → Streams → Round G
  run_one g s = let line = read_line s.input.bytes in on_header g s line.0 line.1

  -- The loop of `run`; it goes on where the fuel ran out.
  unfoldable pub run : ℕ → G → Streams → Round G
  run zero g s = go_on g s
  run (suc fuel) g s = elim (run_one g s) [ go_on g' s' ↦ run fuel g' s' | stop s' e ↦ stop s' e ]

-- `run` before its loop: the directory that the first code block runs in, from the one that the process
-- starts in; none where `os.makedirs` raises. A failure of `os.chdir` is suppressed.
unfoldable pub enter_workspace : (Text → Bool) → (Text → Bool) → Dict Text Text → Text → Option Text
enter_workspace can_make can_enter environ cwd =
    let workspace : Text = elim (lookup (codes "SANDBOX_WORKSPACE") environ) [
      | none ↦ codes "/workspace"
      | some w ↦ w
    ] in
    if can_make workspace then some (if can_enter workspace then workspace else cwd) else none
