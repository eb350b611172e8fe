-- ===== src/Utf8.antt =====
-- The UTF-8 codec as the program calls it: `str.encode("utf-8")`, `bytes.decode("utf-8")` and
-- `bytes.decode("utf-8", errors="replace")`. The codec is the one of the language; the calls stand in
-- sandbox/limits.py, sandbox/runner.py, sandbox/runner_pool.py and sandbox/bash.py.
pub mod Codec
pub mod RoundTrip
pub mod Cut
pub mod Clip
pub mod Scalar
