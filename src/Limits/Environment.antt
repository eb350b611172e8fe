-- ===== src/Limits/Environment.antt =====
-- `default_limits` of sandbox/limits.py: what the environment variables set.
use otari_sandbox_container.Base.{◌≡◌, none, some, Text, codes, ℤ, arith, List, [], ◌∷◌, All}
use otari_sandbox_container.Base.Dict.{lookup}
use otari_sandbox_container.Base.{text_eq}
use otari_sandbox_container.Decimal.{parse_int-show_int}
use otari_sandbox_container.Limits.{ResourceLimits, Environ, env_int, default_limits}

abbrev pub variables : List Text
variables =
    codes "SANDBOX_RUNNER_MEMORY_MB"
    ∷ codes "SANDBOX_RUNNER_CPU_SECONDS"
    ∷ codes "SANDBOX_RUNNER_FSIZE_MB"
    ∷ codes "SANDBOX_RUNNER_NOFILE"
    ∷ codes "SANDBOX_RUNNER_MAX_OUTPUT_BYTES"
    ∷ codes "SANDBOX_RUNNER_WALL_CLOCK_SECONDS"
    ∷ []

env_int_unset :
    (environ : Environ) (name : Text) (d : ℤ)
    → lookup name environ ≡ none
    → env_int environ name d ≡ some d
unfolding env_int
env_int_unset environ name d h = rw (h, env_int) (parse_int-show_int d)

-- Where none of the six variables is set, the limits are the defaults of the module: each default is
-- printed and read back unchanged.
pub default_limits_unset :
    (environ : Environ) (d : ResourceLimits)
    → All (λ name. lookup name environ ≡ none) variables
    → default_limits environ d ≡ some d
unfolding default_limits
default_limits_unset environ d h = ground (
  arith,
  env_int_unset environ (codes "SANDBOX_RUNNER_MEMORY_MB") d.memory_mb h.0,
  env_int_unset environ (codes "SANDBOX_RUNNER_CPU_SECONDS") d.cpu_seconds h.1.0,
  env_int_unset environ (codes "SANDBOX_RUNNER_FSIZE_MB") d.fsize_mb h.1.1.0,
  env_int_unset environ (codes "SANDBOX_RUNNER_NOFILE") d.open_files h.1.1.1.0,
  env_int_unset environ (codes "SANDBOX_RUNNER_MAX_OUTPUT_BYTES") d.max_output_bytes h.1.1.1.1.0,
  env_int_unset environ (codes "SANDBOX_RUNNER_WALL_CLOCK_SECONDS") d.wall_clock_seconds
      h.1.1.1.1.1.0,
)
