-- ===== src/Tests/PoolTests.antt =====
-- Runs of the definitions for sandbox/runner_pool.py.
use otari_sandbox_container.Base.{
  ◌≡◌, ◌≤◌, ◌≢◌, refl, ap, ◌∙◌, true, false, none, some, List, [], ◌∷◌, ◌++◌, codes, pos, negsuc,
  starts_with, text_eq,
}
use otari_sandbox_container.Utf8.Codec.{
  encode_chars, encode_char, decode_replace, decode_from, decode_next, decode_first,
}
use otari_sandbox_container.Decimal.{show_int, parse_int}
use otari_sandbox_container.Limits.{builtin_limits, output_bytes}
use otari_sandbox_container.Runner.Frames.{done_line}
use otari_sandbox_container.RunnerPool.{
  ExecOutcome, plain_outcome, ReadEvent, line, eof, overrun, done, initial_read, read_until_done,
  read_step, Proc, RunnerProcess, start, is_alive, rstrip_newlines,
}
use otari_sandbox_container.RunnerPool.Reader.{events}
use otari_sandbox_container.RunnerPool.Execute.{
  Exchange, returned, unicode_error, value_error, truncated_outcome, chunk, execute,
}
use otari_sandbox_container.Utf8.Clip.{byte_length}
use otari_sandbox_container.RunnerPool.Execute.Bounds.{
  truncated_outcome-bounded, shortened, dropped, room,
}
use otari_sandbox_container.RunnerPool.Execute.Encodable.{execute_no_unicode_error}
use otari_sandbox_container.RunnerPool.Execute.Lifecycle.{execute_in_sync}
use otari_sandbox_container.RunnerPool.Execute.EndToEnd.{execute-done}
use otari_sandbox_container.RunnerPool.Execute.Hazards.{overrun_desync}

abbrev idle : RunnerProcess
idle = record {
  workspace = codes "/w";
  extra_python_path = none;
  proc = none;
  limits = builtin_limits;
}

abbrev pub fresh : Proc
fresh = record { pid = 7; returncode = none }

abbrev pub exchange : List ReadEvent → Exchange
exchange es = record {
  spawned = fresh;
  send_ok = true;
  events = es;
  drained = chunk (codes "x") ∷ [];
  exit_code = some (negsuc 8);
}

abbrev long_outcome : ExecOutcome
long_outcome = plain_outcome (codes "naïve") (codes "e") (pos 3)

truncated_outcome-bounded_example :
    (truncated_outcome (pos 3) long_outcome
      ≡ returned (record {
        stdout = shortened (codes "naïve") 3;
        stderr = shortened (codes "e") 3;
        return_code = pos 3;
        timed_out = false;
        limit_exceeded = some output_bytes;
        stdout_dropped_bytes = dropped (codes "naïve") 3;
        stderr_dropped_bytes = dropped (codes "e") 3;
      }))
    × (byte_length (shortened (codes "naïve") 3) ≤ room (codes "naïve") 3)
    × (byte_length (shortened (codes "e") 3) ≤ room (codes "e") 3)
unfolding encode_chars encode_char
truncated_outcome-bounded_example = truncated_outcome-bounded 3 long_outcome refl refl

execute_no_unicode_error_example :
    (execute idle (codes "f()") 5 (exchange (line (0xFF ∷ 10 ∷ []) ∷ eof ∷ []))).0 ≢ unicode_error
execute_no_unicode_error_example =
    execute_no_unicode_error idle (codes "f()") 5 (exchange (line (0xFF ∷ 10 ∷ []) ∷ eof ∷ [])) refl

abbrev rest_of_old : List ReadEvent
rest_of_old = events (done_line (pos 0) ∷ [])

rest_of_old_read :
    read_until_done initial_read rest_of_old ≡ (done (plain_outcome [] [] (pos 0)), [])
unfolding read_until_done read_step text_eq starts_with rstrip_newlines decode_replace decode_from
    decode_next decode_first encode_chars encode_char show_int parse_int
rest_of_old_read = refl

overrun_desync_example :
    (execute idle (codes "a") 5 (exchange (overrun ∷ rest_of_old))
      ≡ (value_error, record idle { proc = some fresh }, rest_of_old))
    × (execute
          (record idle { proc = some fresh })
          (codes "b")
          5
          (exchange (rest_of_old ++ eof ∷ []))
        ≡ (
          truncated_outcome (pos 1048576) (plain_outcome [] [] (pos 0)),
          record idle { proc = some fresh },
          eof ∷ [],
        ))
unfolding start read_until_done
overrun_desync_example =
    overrun_desync idle (codes "a") (codes "b") 5 5 (exchange (overrun ∷ rest_of_old))
      (exchange (rest_of_old ++ eof ∷ [])) rest_of_old (eof ∷ []) [] (plain_outcome [] [] (pos 0))
      refl refl refl refl refl rest_of_old_read refl

returned_at_once :
    execute idle (codes "a") 5 (exchange rest_of_old)
    ≡ (returned (plain_outcome [] [] (pos 0)), record idle { proc = some fresh }, [])
unfolding start encode_chars
returned_at_once =
    execute-done idle (codes "a") 5 (exchange rest_of_old) (plain_outcome [] [] (pos 0)) [] refl
      refl rest_of_old_read
    ∙ ap (λ r. (r, record idle { proc = some fresh }, []))
        (truncated_outcome-bounded 1048576 (plain_outcome [] [] (pos 0)) refl refl).0

execute_in_sync_example :
    (e : ExecOutcome) × (read_until_done initial_read (exchange rest_of_old).events ≡ (done e, []))
    × (truncated_outcome (pos 1048576) e ≡ returned (plain_outcome [] [] (pos 0)))
    × (record idle { proc = some fresh } ≡ start idle fresh)
unfolding is_alive start
execute_in_sync_example =
    execute_in_sync idle (codes "a") 5 (exchange rest_of_old) (plain_outcome [] [] (pos 0))
      (record idle { proc = some fresh }) [] returned_at_once refl
