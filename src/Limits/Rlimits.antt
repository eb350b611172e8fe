-- ===== src/Limits/Rlimits.antt =====
-- `apply_runner_rlimits` of sandbox/limits.py, over a kernel that accepts or refuses each request.
use otari_sandbox_container.Base.{
  ℕ, suc, ◌*◌, ◌≡◌, refl, Bool, true, false, if◌then◌else◌, Text, codes, ℤ, pos, negsuc, neg_ℤ,
  text_eq, ◌==◌,
}
use otari_sandbox_container.Limits.{ResourceLimits}

pub data Rlimit : Type 0 where
  rlimit_as rlimit_cpu rlimit_fsize rlimit_nofile : Rlimit

abbrev same : Rlimit → Rlimit → Bool
same rlimit_as rlimit_as = true
same rlimit_cpu rlimit_cpu = true
same rlimit_fsize rlimit_fsize = true
same rlimit_nofile rlimit_nofile = true
same _ _ = false

-- The soft and the hard limit of each resource.
abbrev pub Table : Type 0
Table = Rlimit → ℤ × ℤ

-- Whether `setrlimit` takes a new pair in place of the present one, or raises.
abbrev pub Kernel : Type 0
Kernel = Rlimit → ℤ × ℤ → ℤ × ℤ → Bool

abbrev pub scale : ℤ → ℕ → ℤ
scale (pos n) k = pos (n * k)
scale (negsuc n) k = neg_ℤ (pos (suc n * k))

-- what is asked for each resource
abbrev pub requested : ResourceLimits → Rlimit → ℤ
requested limits rlimit_as = scale (scale limits.memory_mb 1024) 1024
requested limits rlimit_cpu = limits.cpu_seconds
requested limits rlimit_fsize = scale (scale limits.fsize_mb 1024) 1024
requested limits rlimit_nofile = limits.open_files

module _ (accepts : Kernel) where
  -- `_set(name, soft)`: an error is logged and leaves the limit as it was.
  unfoldable pub set_limit : Rlimit → ℤ → Table → Table
  set_limit name soft table r =
      if same name r
      then (if accepts name (table name) (soft, soft) then (soft, soft) else table r)
      else table r

  -- For `sys.platform` and whether the `resource` module can be imported.
  unfoldable pub apply_runner_rlimits : Text → Bool → ResourceLimits → Table → Table
  unfolding set_limit
  apply_runner_rlimits platform has_resource limits table =
      if platform == codes "win32"
      then table
      else if has_resource
      then set_limit rlimit_nofile limits.open_files (
          set_limit rlimit_fsize (scale (scale limits.fsize_mb 1024) 1024) (
            set_limit rlimit_cpu limits.cpu_seconds
              (set_limit rlimit_as (scale (scale limits.memory_mb 1024) 1024) table)))
      else table

  -- On a platform other than win32 that has `resource`, each of the four resources ends with its own
  -- request as soft and hard limit if the kernel accepts that, and as it was if the kernel refuses;
  -- a refusal for one resource changes nothing for the others.
  pub apply_runner_rlimits_each :
      (platform : Text) (limits : ResourceLimits) (table : Table) (r : Rlimit)
      → (platform == codes "win32") ≡ false
      → let wanted = requested limits r in
        apply_runner_rlimits platform true limits table r
        ≡ (if accepts r (table r) (wanted, wanted) then (wanted, wanted) else table r)
  unfolding apply_runner_rlimits
  apply_runner_rlimits_each platform limits table rlimit_as h = rw h refl
  apply_runner_rlimits_each platform limits table rlimit_cpu h = rw h refl
  apply_runner_rlimits_each platform limits table rlimit_fsize h = rw h refl
  apply_runner_rlimits_each platform limits table rlimit_nofile h = rw h refl
