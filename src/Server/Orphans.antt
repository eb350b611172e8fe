-- ===== src/Server/Orphans.antt =====
-- A call of exec_tool, and a creation, in sandbox/exec_server.py whose session is destroyed while it waits.
use otari_sandbox_container.Base.{
  ℕ, ◌<◌, length, ◌≡◌, refl, ap, ◌∙◌, Bool, true, none, some, List, [], ◌∷◌, Text, text_eq, arith,
}
use otari_sandbox_container.Utf8.Codec.{is_scalar_text}
use otari_sandbox_container.RunnerPool.{
  RunnerProcess, ExecOutcome, ReadEvent, done, initial_read, read_until_done, is_alive, start, Proc,
}
use otari_sandbox_container.RunnerPool.Execute.{Result, truncated_outcome, stopped}
use otari_sandbox_container.RunnerPool.Execute.EndToEnd.{execute-done}
use otari_sandbox_container.Limits.{ResourceLimits}
use otari_sandbox_container.Sessions.{id_of, Created, created, get}
use otari_sandbox_container.Sessions.Lookup.{get-destroy}
use otari_sandbox_container.Server.{
  Server, Outside, Response, success, session_body, to_public, CreateSessionRequest, begin_create,
  given_process, started, after_create, destroyed,
}
use otari_sandbox_container.Server.Lifecycle.{
  made_session, registered, begin_create-made, found_registered,
}
use otari_sandbox_container.Server.Exec.{
  Call, code_call, bash_call, Pending, runner_of, execute_in, store_runner, code_response,
  finish_code, finish_bash, finish_exec,
}
use otari_sandbox_container.Server.Routes.{destroyed_all, teardown}

destroyed_all-orphans :
    (removable : Text → Bool) (sids : List Text) (s : Server)
    → (destroyed_all removable sids s).orphans ≡ s.orphans
unfolding destroyed_all
destroyed_all-orphans removable [] s = refl
destroyed_all-orphans removable (sid ∷ sids) s =
    destroyed_all-orphans removable sids (destroyed removable sid s)

finish_code-orphan :
    (o : Outside) (p : Pending) (code : Text) (timeout_seconds : ℕ) (s : Server) (result : Result)
    (r : RunnerProcess)
    → get p.session_id s.manager ≡ none
    → execute_in o (stopped p.session.runner) code timeout_seconds ≡ some (result, r)
    → finish_code o p code timeout_seconds s ≡ (
      code_response o p.tool_use_id result,
      record s { orphans = r ∷ s.orphans; disk = o.disk_after },
    )
finish_code-orphan o p code timeout_seconds s result r gone run =
    let run' : execute_in o (runner_of p s) code timeout_seconds ≡ some (result, r) =
      rw (gone, runner_of) run in
    rw (run', finish_code) (rw (gone, store_runner) refl)

-- A call whose session is destroyed while it waits for the runner's lock: where a process can still be
-- spawned, which takes the code and answers, the call is answered like any other, in a process that no
-- session holds; and after the shutdown of the server that process still stands, not stopped.
pub finish_exec-orphan :
    (o : Outside) (p : Pending) (code : Text) (timeout_seconds : ℕ) (s : Server)
    (removable removable' : Text → Bool) (proc : Proc) (outcome : ExecOutcome)
    (left : List ReadEvent)
    → p.call ≡ code_call code timeout_seconds
    → o.spawned ≡ some proc
    → is_scalar_text code ≡ true
    → o.exchange.send_ok ≡ true
    → read_until_done initial_read o.exchange.events ≡ (done outcome, left)
    → let s' = destroyed removable p.session_id s in
      let (response, t) = finish_exec o p s' in
      (response
        ≡ code_response o p.tool_use_id
            (truncated_outcome p.session.runner.limits.max_output_bytes outcome))
      × (get p.session_id t.manager ≡ none)
      × ((teardown removable' t).orphans ≡ record p.session.runner { proc = some proc } ∷ s.orphans)
unfolding finish_exec teardown execute_in is_alive start
finish_exec-orphan o p code timeout_seconds s removable removable' proc outcome left call spawned
      scalar sent reading =
    let s' = destroyed removable p.session_id s in
    let gone : get p.session_id s'.manager ≡ none = ground (
      arith,
      get-destroy removable p.session_id p.session_id s.manager,
      text_eq.decides p.session_id p.session_id,
    ) in
    let run =
      execute-done (stopped p.session.runner) code timeout_seconds
        (record o.exchange { spawned = proc }) outcome left scalar sent reading in
    let run' : execute_in o (stopped p.session.runner) code timeout_seconds
        ≡ some (
          truncated_outcome p.session.runner.limits.max_output_bytes outcome,
          record p.session.runner { proc = some proc },
        ) =
      rw (spawned, execute_in)
        (ap (λ (y : Result × RunnerProcess × List ReadEvent). some (y.0, y.1)) run) in
    let end = finish_code-orphan o p code timeout_seconds s' _ _ gone run' in
    let e : finish_exec o p s' ≡ (
      code_response o p.tool_use_id
          (truncated_outcome p.session.runner.limits.max_output_bytes outcome),
      record s' {
        orphans = record p.session.runner { proc = some proc } ∷ s.orphans;
        disk = o.disk_after;
      },
    ) =
      ap
        (λ (c : Call). elim c [
          | code_call code timeout_seconds ↦ finish_code o p code timeout_seconds s'
          | bash_call prev timeout_seconds ↦ finish_bash o p prev timeout_seconds s'
        ])
        call
      ∙ end in
    (
      ap (λ (z : Response × Server). z.0) e,
      ap (λ (z : Response × Server). get p.session_id z.1.manager) e ∙ gone,
      ap (λ (z : Response × Server). (teardown removable' z.1).orphans) e
          ∙ destroyed_all-orphans removable' _ _,
    )

module _ (o later : Outside) (req : CreateSessionRequest) (s : Server) (limits : ResourceLimits)
    (removable removable' : Text → Bool) (proc : Proc) where
  abbrev deleted : Server
  deleted = destroyed removable (id_of o.fresh) (registered o req s limits)

  deleted-gone : get (id_of o.fresh) deleted.manager ≡ none
  deleted-gone = ground (
    arith,
    get-destroy removable (id_of o.fresh) (id_of o.fresh) (registered o req s limits).manager,
    text_eq.decides (id_of o.fresh) (id_of o.fresh),
  )

  after_create-deleted :
      later.spawned ≡ some proc
      → after_create later (created (made_session o req s limits)) deleted ≡ (
        success 201 (session_body (to_public (made_session o req s limits))),
        record deleted {
          orphans = (given_process (made_session o req s limits) proc).runner ∷ s.orphans;
        },
      )
  after_create-deleted spawned = rw (spawned, started) (rw deleted-gone refl)

  -- A creation whose session is destroyed while its process is being spawned, where there is room, the
  -- directories can be made, the limits can be read and the process can be spawned: the session was found
  -- before, the client gets 201 with its public data all the same, no session has the identifier, and
  -- after the shutdown of the server the process still stands, not stopped.
  pub after_create-destroyed :
      length s.manager.sessions < s.manager.max_sessions
      → o.fresh.workspace_made ≡ true
      → o.fresh.stub_made ≡ true
      → o.fresh.limits ≡ some limits
      → later.spawned ≡ some proc
      → let x = made_session o req s limits in
        let (result, t) = begin_create o req s in
        let (response, u) = after_create later result (destroyed removable (id_of o.fresh) t) in
        (get (id_of o.fresh) t.manager ≡ some x)
        × (response ≡ success 201 (session_body (to_public x)))
        × (get (id_of o.fresh) u.manager ≡ none)
        × ((teardown removable' u).orphans ≡ record x.runner { proc = some proc } ∷ s.orphans)
  unfolding teardown
  after_create-destroyed room ws st lim spawned =
      let begun = begin_create-made o req s limits room ws st lim in
      let e =
        ap
          (λ (z : Created × Server).
            after_create later z.0 (destroyed removable (id_of o.fresh) z.1))
          begun
        ∙ after_create-deleted spawned in
      (
        ap (λ (z : Created × Server). get (id_of o.fresh) z.1.manager) begun
            ∙ found_registered o req s limits room ws st lim,
        ap (λ (z : Response × Server). z.0) e,
        ap (λ (z : Response × Server). get (id_of o.fresh) z.1.manager) e ∙ deleted-gone,
        ap (λ (z : Response × Server). (teardown removable' z.1).orphans) e
            ∙ destroyed_all-orphans removable' _ _,
      )
