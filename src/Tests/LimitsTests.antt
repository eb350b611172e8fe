-- ===== src/Tests/LimitsTests.antt =====
-- Runs of the definitions for sandbox/limits.py.
use otari_sandbox_container.Base.{
  ◌-◌, false, ◌≡◌, refl, true, some, ◌++◌, if◌then◌else◌, leb, Text, codes, pos, negsuc, text_eq,
}
use otari_sandbox_container.Utf8.Cut.{clip}
use otari_sandbox_container.Utf8.Clip.{byte_length}
use otari_sandbox_container.Limits.{truncate_output, truncation_marker}
use otari_sandbox_container.Limits.Truncation.{truncate_output-clip}
use otari_sandbox_container.Limits.Rlimits.{Kernel, Table, rlimit_as}

-- "naïve", six bytes long
abbrev naive : Text
naive = codes "naïve"

truncate_output-clip_example :
    truncate_output naive (pos 3)
    ≡ some (
        if leb (byte_length naive) 3 then (naive, pos 0) else (
          clip 3 naive ++ truncation_marker (pos (byte_length naive - 3)),
          pos (byte_length naive - 3),
        ))
truncate_output-clip_example = truncate_output-clip naive 3 refl

-- a kernel that takes everything but a limit on the address space
abbrev no_memory_limit : Kernel
no_memory_limit rlimit_as old new = false
no_memory_limit _ old new = true

abbrev unlimited : Table
unlimited r = (negsuc 0, negsuc 0)
