-- ===== src/Limits.antt =====
-- sandbox/limits.py: the kinds of limit, the configured limits, the rlimits of a runner and the
-- truncation of its output.
pub mod Truncation
pub mod Rlimits
pub mod Environment
use otari_sandbox_container.Base.{
  ℕ, Bool, true, false, ◌-◌, ◌*◌, Option, none, some, ◌++◌, List, [], ◌∷◌, if◌then◌else◌, Text,
  Bytes, codes, ℤ, pos, negsuc, leb_ℤ, ◌-ℤ◌, length, take, starts_with, text_eq, ◌==◌,
}
use otari_sandbox_container.Base.Dict.{Dict, lookup}
use otari_sandbox_container.Decimal.{show_int, parse_int}
use otari_sandbox_container.Utf8.Codec.{encode, decode_replace}

pub data LimitKind : Type 0 where
  memory cpu file_size output_bytes wall_clock : LimitKind

-- The text of each kind.
unfoldable pub value : LimitKind → Text
value memory = codes "memory"
value cpu = codes "cpu"
value file_size = codes "file_size"
value output_bytes = codes "output_bytes"
value wall_clock = codes "wall_clock"

pub record ResourceLimits : Type 0 where
  pub memory_mb : ℤ
  pub cpu_seconds : ℤ
  pub fsize_mb : ℤ
  pub open_files : ℤ
  pub max_output_bytes : ℤ
  pub wall_clock_seconds : ℤ

-- The environment variables of the process.
abbrev pub Environ : Type 0
Environ = Dict Text Text

-- `int(os.environ.get(name, str(default)))`; `none` is the `ValueError`.
unfoldable pub env_int : Environ → Text → ℤ → Option ℤ
env_int environ name default = elim (lookup name environ) [
  | none ↦ parse_int (show_int default)
  | some s ↦ parse_int s
]

infixl 5 ◌>>=◌
abbrev ◌>>=◌ : {A B : Type 0} → Option A → (A → Option B) → Option B
none >>= f = none
some a >>= f = f a

-- The limits as the environment gives them now, over those that it gave at import time.
unfoldable pub default_limits : Environ → ResourceLimits → Option ResourceLimits
unfolding env_int
default_limits environ defaults = do
  memory_mb ← env_int environ (codes "SANDBOX_RUNNER_MEMORY_MB") defaults.memory_mb
  cpu_seconds ← env_int environ (codes "SANDBOX_RUNNER_CPU_SECONDS") defaults.cpu_seconds
  fsize_mb ← env_int environ (codes "SANDBOX_RUNNER_FSIZE_MB") defaults.fsize_mb
  open_files ← env_int environ (codes "SANDBOX_RUNNER_NOFILE") defaults.open_files
  max_output_bytes ←
      env_int environ (codes "SANDBOX_RUNNER_MAX_OUTPUT_BYTES") defaults.max_output_bytes
  wall_clock_seconds ←
      env_int environ (codes "SANDBOX_RUNNER_WALL_CLOCK_SECONDS") defaults.wall_clock_seconds
  some (record {
    memory_mb = memory_mb;
    cpu_seconds = cpu_seconds;
    fsize_mb = fsize_mb;
    open_files = open_files;
    max_output_bytes = max_output_bytes;
    wall_clock_seconds = wall_clock_seconds;
  })

-- The literals of the module's `DEFAULT_` constants.
abbrev pub builtin_limits : ResourceLimits
builtin_limits = record {
  memory_mb = pos 1536;
  cpu_seconds = pos 120;
  fsize_mb = pos 256;
  open_files = pos 256;
  max_output_bytes = pos (1 * 1024 * 1024);
  wall_clock_seconds = pos 60;
}

-- `is_rlimit_supported`, of `sys.platform`.
unfoldable pub is_rlimit_supported : Text → Bool
unfolding starts_with
is_rlimit_supported platform = starts_with platform (codes "linux")

-- `TRUNCATION_MARKER.format(dropped=dropped)`
unfoldable pub truncation_marker : ℤ → Text
truncation_marker dropped =
    codes "\n... [output truncated by sandbox: " ++ (show_int dropped ++ codes " bytes elided]")

-- `encoded[:n]`: a negative bound counts from the end.
abbrev pub slice_to : ℤ → Bytes → Bytes
slice_to (pos n) bs = take n bs
slice_to (negsuc n) bs = take (length bs - n - 1) bs

abbrev clipped : Text → Bytes → ℤ → Text × ℤ
clipped text encoded max_bytes =
    let dropped = pos (length encoded) -ℤ max_bytes in
    if leb_ℤ (pos (length encoded)) max_bytes
    then (text, pos 0)
    else (decode_replace (slice_to max_bytes encoded) ++ truncation_marker dropped, dropped)

-- The clipped text and the number of bytes dropped; `none` is the `UnicodeEncodeError` of `encode`.
unfoldable pub truncate_output : Text → ℤ → Option (Text × ℤ)
truncate_output text max_bytes = elim (encode text) [
  | none ↦ none
  | some encoded ↦ some (clipped text encoded max_bytes)
]
