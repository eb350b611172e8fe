-- ===== src/Tests/BashTests.antt =====
-- Runs of the definitions for sandbox/bash.py.
use otari_sandbox_container.Base.{◌≡◌, some, [], codes, text_eq}
use otari_sandbox_container.Base.Dict.{lookup}
use otari_sandbox_container.Bash.{workspace_variable, workdir, enter, leave}
use otari_sandbox_container.Bash.Workdir.{overlapping_calls}

overlapping_calls_example :
    let a = enter (codes "/a") [] in
    let b = enter (codes "/b") a.1 in
    (workdir a.1 ≡ codes "/a")
    × (workdir b.1 ≡ codes "/b")
    × (lookup workspace_variable (leave b.0 (leave a.0 b.1)) ≡ some (codes "/a"))
overlapping_calls_example = overlapping_calls (codes "/a") (codes "/b") []
