-- ===== src/Bash/Workdir.antt =====
-- The working directory of the bash tool, which sandbox/exec_server.py passes through the environment of
-- the server.
use otari_sandbox_container.Base.{
  ◌≡◌, refl, ap, ◌∙◌, Option, none, some, Text, codes, text_eq, arith,
}
use otari_sandbox_container.Base.Dict.{
  lookup, insert, lookup-insert, lookup-erase, lookup-insert_same,
}
use otari_sandbox_container.Limits.{Environ}
use otari_sandbox_container.Bash.{workspace_variable, workdir, enter, leave}

-- A call by itself: its shell starts in the workspace of its session, and afterwards every variable has
-- the value that it had before.
pub leave-enter :
    (dir name : Text) (environ : Environ)
    → let (prev, during) = enter dir environ in
      (workdir during ≡ dir) × (lookup name (leave prev during) ≡ lookup name environ)
unfolding enter workdir
leave-enter dir name environ = (
  ap (λ (o : Option Text). elim o [ none ↦ codes "/workspace" | some d ↦ d ])
      (lookup-insert_same workspace_variable dir environ),
  restored (lookup workspace_variable environ) refl,
)
  where
    during : Environ
    during = insert workspace_variable dir environ

    restored :
        (prev : Option Text)
        → prev ≡ lookup workspace_variable environ
        → lookup name (leave prev during) ≡ lookup name environ
    restored none h =
        unfold leave in
        ground (
          arith,
          lookup-erase name workspace_variable during,
          lookup-insert name workspace_variable dir environ,
          text_eq.decides workspace_variable name,
        )
    restored (some p) h =
        unfold leave in
        ground (
          arith,
          lookup-insert name workspace_variable p during,
          lookup-insert name workspace_variable dir environ,
          text_eq.decides workspace_variable name,
        )

-- Two calls that overlap, where the one that began first also ends first: both shells start in their own
-- workspace, but afterwards the variable of the server names the workspace of the first call, whatever it
-- was before.
pub overlapping_calls :
    (dir₁ dir₂ : Text) (environ : Environ)
    → let (prev₁, during₁) = enter dir₁ environ in
      let (prev₂, during₂) = enter dir₂ during₁ in
      (workdir during₁ ≡ dir₁)
      × (workdir during₂ ≡ dir₂)
      × (lookup workspace_variable (leave prev₂ (leave prev₁ during₂)) ≡ some dir₁)
unfolding enter
overlapping_calls dir₁ dir₂ environ =
    let during₁ = insert workspace_variable dir₁ environ in
    let kept = lookup-insert_same workspace_variable dir₁ environ in
    (
      (leave-enter dir₁ workspace_variable environ).0,
      (leave-enter dir₂ workspace_variable during₁).0,
      ap
            (λ p. lookup workspace_variable (
              leave p (
                leave (lookup workspace_variable environ)
                  (insert workspace_variable dir₂ during₁))))
            kept
          ∙ (unfold leave in
              lookup-insert_same workspace_variable dir₁ (
                leave (lookup workspace_variable environ)
                  (insert workspace_variable dir₂ during₁))),
    )
