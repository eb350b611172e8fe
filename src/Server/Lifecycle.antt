-- ===== src/Server/Lifecycle.antt =====
-- The life of a session over the requests of sandbox/exec_server.py.
use otari_sandbox_container.Base.{
  ℕ, ◌+◌, ◌*◌, ◌<◌, ◌≡◌, refl, ap, ◌∙◌, Bool, true, false, ◌||◌, ◌⊎◌, inl, inr, Option, none, some,
  List, [], ◌∷◌, if◌then◌else◌, option_both, if_true, ltb, Text, ℤ, pos, length, ltb_ℤ, ◌-ℤ◌,
  text_eq, arith,
}
use otari_sandbox_container.Base.Dict.{Dict, lookup-insert_same}
use otari_sandbox_container.Limits.{ResourceLimits}
use otari_sandbox_container.Limits.Rlimits.{scale}
use otari_sandbox_container.RunnerPool.{Proc, is_alive}
use otari_sandbox_container.Sessions.{
  Session, touch, is_idle, is_expired, id_of, Created, created, new_session, create, get,
  destroy_all, overdue, reap_idle,
}
use otari_sandbox_container.Sessions.Invariant.{IsValid}
use otari_sandbox_container.Sessions.Lookup.{get-create}
use otari_sandbox_container.Sessions.Collector.{is_overdue, reap_idle_lem}
use otari_sandbox_container.Models.{
  Json, code_execution, CodeExecutionInput, code_execution_input, ExecRequest, has_length,
}
use otari_sandbox_container.Server.{
  Server, Outside, put_session, status, message, errors, Response, success, http_error, uncaught,
  session_body, to_public, get_session, CreateSessionRequest, begin_create, create_session,
  created_disk, started, given_process, after_create, destroyed, with_session,
}
use otari_sandbox_container.Server.Exec.{Begun, begin_exec, exec_tool}
use otari_sandbox_container.Server.Transfer.{
  files_upload, files_download, files_list, register_programmatic_tools,
}
use otari_sandbox_container.Server.Routes.{
  Request, health_check, create_request, get_request, delete_request, exec, upload, download, list,
  register, on_body, on_id, handle, destroyed_all, collect,
}
use otari_sandbox_container.Server.Local.{touched, touched-IsLocal, get-touched}
use otari_sandbox_container.Server.Requests.{target}
use otari_sandbox_container.Server.Execution.{begin_exec-code}

-- The requests that only a known session can answer.
abbrev pub needs_session : Request → Bool
needs_session health_check = false
needs_session (create_request body) = false
needs_session (delete_request sid) = false
needs_session req = true

-- A 404 with the identifier, or the errors of the validation.
abbrev pub IsRefused : Text → Response → Type 0
IsRefused sid r =
    (r ≡ http_error 404 (message sid)) ⊎ ((d : Dict Text Json) × (r ≡ http_error 422 (errors d)))

module _ (o : Outside) (s : Server) where
  abbrev Refused : Text → Response × Server → Type 0
  Refused sid z = (z.1 ≡ s) × IsRefused sid z.0

  on_id-Refused :
      (sid : Text) (f : Server → Response × Server)
      → Refused sid (f s)
      → Refused sid (on_id sid f s)
  unfolding on_id
  on_id-Refused sid f h =
      option_both (Refused sid) (has_length 1 64 sid) _ _ (λ e. (refl, inr ([], refl))) (λ a e. h)

  on_body-Refused :
      {A : Type 0} (sid : Text) (d : Dict Text Json) (parsed : Option A)
      (f : A → Server → Response × Server)
      → ((a : A) → Refused sid (f a s))
      → Refused sid (on_body d parsed f s)
  unfolding on_body
  on_body-Refused sid d none f h = (refl, inr (d, refl))
  on_body-Refused sid d (some a) f h = h a

  unknown :
      (sid : Text) (body : Session → Server → Response × Server)
      → get sid s.manager ≡ none
      → Refused sid (with_session (λ r. r) o sid body s)
  unfolding with_session
  unknown sid body gone = rw (gone, with_session) (refl, inl refl)

  unknown_exec :
      (sid : Text) (req : ExecRequest)
      → get sid s.manager ≡ none
      → Refused sid (exec_tool o sid req s)
  unfolding exec_tool begin_exec with_session
  unknown_exec sid req gone = rw (gone, exec_tool, begin_exec, with_session) (refl, inl refl)

  unknown_get : (sid : Text) → get sid s.manager ≡ none → IsRefused sid (get_session sid s)
  unfolding get_session
  unknown_get sid gone = rw (gone, get_session) (inl refl)

  -- A request for a session that is not known, other than its deletion: the server is as it was, and the
  -- response is 404 with the identifier, or 422 where the validation finds errors in the request.
  pub handle_unknown :
      (req : Request)
      → needs_session req ≡ true
      → get (target o req) s.manager ≡ none
      → ((handle o req s).1 ≡ s) × IsRefused (target o req) (handle o req s).0
  unfolding handle files_upload files_download files_list register_programmatic_tools
  handle_unknown health_check n gone = cc
  handle_unknown (create_request body) n gone = cc
  handle_unknown (delete_request sid) n gone = cc
  handle_unknown (get_request sid) n gone = on_id-Refused sid _ (refl, unknown_get sid gone)
  handle_unknown (exec sid d) n gone =
      on_id-Refused sid _
        (on_body-Refused sid d _ (exec_tool o sid) (λ req. unknown_exec sid req gone))
  handle_unknown (upload sid content filename path) n gone =
      on_id-Refused sid _ (unknown sid _ gone)
  handle_unknown (download sid path) n gone = on_id-Refused sid _ (unknown sid _ gone)
  handle_unknown (list sid none) n gone = on_id-Refused sid _ (unknown sid _ gone)
  handle_unknown (list sid (some path)) n gone = on_id-Refused sid _ (unknown sid _ gone)
  handle_unknown (register sid d) n gone =
      on_id-Refused sid _
        (on_body-Refused sid d _ (register_programmatic_tools o sid) (λ req. unknown sid _ gone))

module _ (o : Outside) (req : CreateSessionRequest) (s : Server) (limits : ResourceLimits) where
  abbrev pub made_session : Session
  made_session =
      new_session s.manager o.lifetimes req.idle_timeout_seconds req.max_lifetime_seconds o.fresh
        limits

  abbrev pub registered : Server
  registered = record s {
    manager =
        (create s.manager o.lifetimes req.idle_timeout_seconds req.max_lifetime_seconds o.fresh).1;
    disk = created_disk s.manager o.fresh s.disk;
  }

  pub begin_create-made :
      length s.manager.sessions < s.manager.max_sessions
      → o.fresh.workspace_made ≡ true
      → o.fresh.stub_made ≡ true
      → o.fresh.limits ≡ some limits
      → begin_create o req s ≡ (created made_session, registered)
  unfolding begin_create
  begin_create-made room ws st lim =
      let (made, found) =
        get-create s.manager o.lifetimes req.idle_timeout_seconds req.max_lifetime_seconds o.fresh
          limits (id_of o.fresh) room ws st lim in
      ap (λ c. (c, registered)) made

  create_session-started :
      length s.manager.sessions < s.manager.max_sessions
      → o.fresh.workspace_made ≡ true
      → o.fresh.stub_made ≡ true
      → o.fresh.limits ≡ some limits
      → create_session o req s ≡ started o made_session registered
  unfolding create_session
  create_session-started room ws st lim =
      ap (λ (z : Created × Server). after_create o z.0 z.1) (begin_create-made room ws st lim)

  pub found_registered :
      length s.manager.sessions < s.manager.max_sessions
      → o.fresh.workspace_made ≡ true
      → o.fresh.stub_made ≡ true
      → o.fresh.limits ≡ some limits
      → get (id_of o.fresh) registered.manager ≡ some made_session
  found_registered room ws st lim =
      (get-create s.manager o.lifetimes req.idle_timeout_seconds req.max_lifetime_seconds o.fresh
        limits (id_of o.fresh) room ws st lim).1
      ∙ if_true _ _ ((text_eq.decides (id_of o.fresh) (id_of o.fresh)).1 refl)

  -- Where there is room, the directories can be made, the limits can be read and the runner can be
  -- started, a creation answers 201 with the public data of the new session, which a request for that
  -- identifier then gives with 200.
  pub get_session-create_session :
      (proc : Proc)
      → length s.manager.sessions < s.manager.max_sessions
      → o.fresh.workspace_made ≡ true
      → o.fresh.stub_made ≡ true
      → o.fresh.limits ≡ some limits
      → o.spawned ≡ some proc
      → let (response, t) = create_session o req s in
        (response ≡ success 201 (session_body (to_public made_session)))
        × (get_session (id_of o.fresh) t ≡ success 200 (session_body (to_public made_session)))
  unfolding get get_session to_public is_alive
  get_session-create_session proc room ws st lim spawned =
      let x : Session = given_process made_session proc in
      let e : create_session o req s
          ≡ (success 201 (session_body (to_public x)), put_session (id_of o.fresh) x registered) =
        create_session-started room ws st lim
        ∙ rw (spawned, started) (rw (found_registered room ws st lim) refl) in
      let found : get (id_of o.fresh) (put_session (id_of o.fresh) x registered).manager ≡ some x =
        lookup-insert_same (id_of o.fresh) x registered.manager.sessions in
      (
        ap (λ (z : Response × Server). z.0) e,
        ap (λ (z : Response × Server). get_session (id_of o.fresh) z.1) e
            ∙ rw (found, get_session) refl,
      )

  -- Where all is as before but the runner cannot be started, the response is that of an uncaught exception,
  -- status 500, and the session has been registered all the same: its identifier, which the client is not
  -- told, is found.
  pub create_session_unstarted :
      length s.manager.sessions < s.manager.max_sessions
      → o.fresh.workspace_made ≡ true
      → o.fresh.stub_made ≡ true
      → o.fresh.limits ≡ some limits
      → o.spawned ≡ none
      → let (response, t) = create_session o req s in
        (response ≡ uncaught)
        × (status response ≡ some 500)
        × (get (id_of o.fresh) t.manager ≡ some made_session)
  create_session_unstarted room ws st lim spawned =
      let e : create_session o req s ≡ (uncaught, registered) =
        create_session-started room ws st lim ∙ rw (spawned, started) refl in
      (
        ap (λ (z : Response × Server). z.0) e,
        ap (λ (z : Response × Server). status z.0) e,
        ap (λ (z : Response × Server). get (id_of o.fresh) z.1.manager) e
            ∙ found_registered room ws st lim,
      )

pub destroyed_all-manager :
    (removable : Text → Bool) (sids : List Text) (s : Server)
    → (destroyed_all removable sids s).manager ≡ destroy_all removable sids s.manager
unfolding destroyed_all destroy_all
destroyed_all-manager removable [] s = refl
destroyed_all-manager removable (sid ∷ sids) s =
    destroyed_all-manager removable sids (destroyed removable sid s)

past : (m a b : ℕ) → ltb_ℤ (pos m) (pos a -ℤ pos b) ≡ ltb (b + m) a
past m a b = ground arith

elapsed :
    (tick later since n : ℕ) (z : ℤ)
    → z ≡ pos n
    → ltb_ℤ (scale z tick) (pos later -ℤ pos since) ≡ ltb (since + n * tick) later
elapsed tick later since n z h =
    ap (λ z. ltb_ℤ (scale z tick) (pos later -ℤ pos since)) h ∙ past (n * tick) later since

is_overdue-touch :
    (tick now later idle life : ℕ) (x : Session)
    → x.idle_timeout_seconds ≡ pos idle
    → x.max_lifetime_seconds ≡ pos life
    → is_overdue tick later (touch x now)
      ≡ (ltb (now + idle * tick) later || ltb (x.created_at + life * tick) later)
unfolding touch is_idle is_expired
is_overdue-touch tick now later idle life x i l =
    ap (λ b. b || ltb_ℤ (scale x.max_lifetime_seconds tick) (pos later -ℤ pos x.created_at))
      (elapsed tick later now idle x.idle_timeout_seconds i)
    ∙ ap (λ b. ltb (now + idle * tick) later || b)
        (elapsed tick later x.created_at life x.max_lifetime_seconds l)

-- A code block that waits, in a server that keeps the invariant: a round of the collector during the call
-- removes its session if more time than the idle timeout has passed since the request began, or more than
-- the lifetime since the session was made, and otherwise leaves the session, touched. That the call still
-- runs makes no difference.
pub collect-begin_exec :
    (tick later idle life : ℕ) (removable : Text → Bool) (o : Outside) (sid : Text)
    (req : ExecRequest) (s : Server) (x : Session) (parsed : CodeExecutionInput)
    → IsValid s.manager
    → get sid s.manager ≡ some x
    → req.tool ≡ code_execution
    → code_execution_input o.pydantic req.input ≡ some parsed
    → x.idle_timeout_seconds ≡ pos idle
    → x.max_lifetime_seconds ≡ pos life
    → get sid (collect tick removable later (begin_exec o sid req s).1).manager ≡ (
        if ltb (o.now + idle * tick) later || ltb (x.created_at + life * tick) later
        then none
        else some (touch x o.now))
unfolding collect reap_idle
collect-begin_exec tick later idle life removable o sid req s x parsed v found tool valid i l =
    let t = touched o sid s in
    let v' : IsValid t.manager = (touched-IsLocal o sid s).valid v in
    ap (λ (z : Begun × Server). get sid (collect tick removable later z.1).manager)
      (begin_exec-code o sid req s x parsed found tool valid)
    ∙ ap (get sid) (destroyed_all-manager removable (overdue tick later t.manager.sessions) t)
    ∙ reap_idle_lem tick later removable sid t.manager v'.nodup
    ∙ (rw (get-touched o sid x s found) (
        ap (λ b. if b then none else some (touch x o.now))
          (is_overdue-touch tick o.now later idle life x i l)))
