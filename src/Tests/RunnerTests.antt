-- ===== src/Tests/RunnerTests.antt =====
-- Runs of the definitions for sandbox/runner.py.
use otari_sandbox_container.Base.{
  ℕ, ◌+◌, ◌≡◌, ◌≢◌, refl, Bool, ◌&&◌, [], ◌∷◌, ◌++◌, ltb, leb, Text, Bytes, codes, pos, arith,
}
use otari_sandbox_container.Utf8.Codec.{encode_chars}
use otari_sandbox_container.RunnerPool.{request}
use otari_sandbox_container.Runner.{
  Executed, BlockRun, block_ended, finished, raised, Streams, Exit, go_on, stop, in_block, run_one,
  run, return_code, stderr_value,
}
use otari_sandbox_container.Runner.Frames.{response}
use otari_sandbox_container.Runner.Block.{run_one-request}
use otari_sandbox_container.Runner.Loop.{run_ends}

abbrev pub ascii_printable : ℕ → Bool
ascii_printable c = leb 32 c && ltb c 127

-- a block prints its own text and the number of blocks before it
-- what a block of the echo prints and leaves
abbrev pub echoed : ℕ → Text → Executed ℕ
echoed n code = record {
  globals = n + 1;
  stdout = code ++ codes "\n";
  stderr = codes "w";
  raw = [];
  ending = raised (codes "E\n");
}

abbrev pub echo : ℕ → Text → BlockRun ℕ
echo n code = block_ended (echoed n code)

-- a block that prints a lone surrogate
abbrev surrogate : ℕ → Text → Executed ℕ
surrogate n code = record {
  globals = n;
  stdout = 0xD800 ∷ [];
  stderr = [];
  raw = codes "x";
  ending = finished;
}

abbrev pub streams : Bytes → Streams
streams bs = record { input = record { bytes = bs; grants = 0 ∷ 1 ∷ [] }; out = []; err = [] }

run_one-request_example :
    (s' : Streams) × (run_one ascii_printable echo 0 (streams (request (codes "hé") ++ codes "7\n"))
      ≡ go_on 1 s')
    × (s'.input.bytes ≡ codes "7\n")
    × (s'.out ≡ encode_chars (response (codes "hé\n") (codes "wE\n") (pos 1)))
    × (s'.err ≡ [])
unfolding stderr_value return_code
run_one-request_example =
    run_one-request ascii_printable echo 0 (streams (request (codes "hé") ++ codes "7\n"))
      (codes "hé") (codes "7\n") (echoed 0 (codes "hé")) refl refl refl refl refl

run_ends_example :
    (s' : Streams) × (e : Exit) × (run ascii_printable echo 5 0 (streams (codes "\n\n2\n"))
      ≡ stop s' e)
    × (e ≢ in_block)
run_ends_example =
    run_ends ascii_printable echo (λ g code. (echoed g code, refl)) 5 0 (streams (codes "\n\n2\n"))
      (omega arith)
