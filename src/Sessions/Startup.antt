-- ===== src/Sessions/Startup.antt =====
-- How the runner of a session starts: the environment that sandbox/runner_pool.py gives it, and what
-- `run` of sandbox/runner.py makes of it.
use otari_sandbox_container.Base.{
  ℕ, ◌≡◌, refl, ap, sym, ◌∙◌, Bool, true, false, Option, none, some, [], ◌∷◌, ◌++◌, Text, codes,
  length, ◌==◌, nat_eq, text_eq, ◌⊎◌, inl, inr, Bool-cases, if_false,
}
use mathlib.Core.Path.{subst}
use otari_sandbox_container.Base.Dict.{lookup, insert, lookup-insert, lookup-insert_same}
use otari_sandbox_container.Limits.{Environ}
use otari_sandbox_container.Runner.{enter_workspace}
use otari_sandbox_container.RunnerPool.{runner_environ, python_path}
use otari_sandbox_container.Sessions.{Session, SessionManager, path_join, get}
use otari_sandbox_container.Sessions.Invariant.{IsValid, lookup-Owned}

abbrev workspace_name : Text
workspace_name = codes "SANDBOX_WORKSPACE"

abbrev path_name : Text
path_name = codes "PYTHONPATH"

workspace_kept :
    (extra : Option Text) (w : Text) (environ : Environ)
    → lookup workspace_name environ ≡ some w
    → lookup workspace_name (python_path extra environ) ≡ some w
workspace_kept none w environ h = h
workspace_kept (some []) w environ h = h
workspace_kept (some (c ∷ path)) w environ h =
    let apart : (path_name == workspace_name) ≡ false = unfold text_eq in refl in
    lookup-insert workspace_name path_name _ environ ∙ if_false _ _ apart ∙ h

entered :
    (can_make can_enter : Text → Bool) (environ : Environ) (w : Text)
    → lookup workspace_name environ ≡ some w
    → can_make w ≡ true
    → enter_workspace can_make can_enter environ w ≡ some w
unfolding enter_workspace
entered can_make can_enter environ w h made = elim (Bool-cases (can_enter w)) [
  | inl can ↦ rw (h, enter_workspace) (rw (made, can) refl)
  | inr cannot ↦ rw (h, enter_workspace) (rw (made, cannot) refl)
]

-- The path of modules: the directory alone, or before what was there.
abbrev pub BeginsWith : Text → Text → Type 0
BeginsWith dir path = (path ≡ dir) ⊎ ((rest : Text) × (path ≡ dir ++ (codes ":" ++ rest)))

abbrev Imports : Text → Environ → Type 0
Imports dir environ = (path : Text) × (lookup path_name environ ≡ some path) × BeginsWith dir path

python_path-Imports :
    (c : ℕ) (dir : Text) (environ : Environ)
    → Imports (c ∷ dir) (python_path (some (c ∷ dir)) environ)
python_path-Imports c dir environ =
    let existing : Text = elim (lookup path_name environ) [ none ↦ [] | some p ↦ p ] in
    elim (Bool-cases (length existing == 0)) [
      | inl empty ↦ (c ∷ dir, rw empty (lookup-insert_same path_name (c ∷ dir) environ), inl refl)
      | inr some_path ↦ (
        (c ∷ dir) ++ (codes ":" ++ existing),
        rw some_path (lookup-insert_same path_name ((c ∷ dir) ++ (codes ":" ++ existing)) environ),
        inr (existing, refl),
      )
    ]

non_empty : (a b : Text) → (c : ℕ) × (d : Text) × (a ++ (47 ∷ b) ≡ c ∷ d)
non_empty [] b = (47, b, refl)
non_empty (c ∷ a) b = (c, a ++ (47 ∷ b), refl)

path_join-Imports :
    (dir name : Text) (environ : Environ)
    → Imports (path_join dir name) (python_path (some (path_join dir name)) environ)
path_join-Imports dir name environ =
    let (c, d, e) = non_empty dir name in
    subst (λ p. Imports p (python_path (some p) environ)) (sym e) (python_path-Imports c d environ)

-- The runner of a session of a manager that keeps the invariant, whatever the environment of the server
-- is when the process is spawned, and where its workspace can be made: the first code block runs in the
-- workspace of the session, even if the change of the directory fails, and `PYTHONPATH` has the stub
-- directory of the session, alone or first and with a separator behind it.
pub enter_workspace-runner_environ :
    (sid : Text) (m : SessionManager) (x : Session) (environ : Environ)
    (can_make can_enter : Text → Bool)
    → IsValid m
    → get sid m ≡ some x
    → can_make x.workspace_dir ≡ true
    → let env = runner_environ x.runner environ in
      (enter_workspace can_make can_enter env x.runner.workspace ≡ some x.workspace_dir)
      × ((path : Text) × (lookup path_name env ≡ some path) × BeginsWith x.stub_dir path)
unfolding get runner_environ
enter_workspace-runner_environ sid m x environ can_make can_enter v found made =
    let own = lookup-Owned m.root sid x m.sessions v.owned found in
    let env = insert workspace_name x.runner.workspace environ in
    let kept =
      workspace_kept x.runner.extra_python_path x.runner.workspace env
        (lookup-insert_same workspace_name x.runner.workspace environ) in
    let started : Environ = python_path x.runner.extra_python_path env in
    let imports : x.runner.extra_python_path
        ≡ some (path_join (path_join m.root sid) (codes "lib")) =
      own.imports_from ∙ ap some own.stubs in
    (
      ap (enter_workspace can_make can_enter started) own.runs_in
          ∙ entered can_make can_enter started x.workspace_dir (kept ∙ ap some own.runs_in) made,
      subst (λ d. Imports d started) (sym own.stubs)
          (subst (λ p. Imports (path_join (path_join m.root sid) (codes "lib")) (python_path p env))
            (sym imports) (path_join-Imports (path_join m.root sid) (codes "lib") env)),
    )
