-- ===== src/Server/Requests.antt =====
-- All requests of sandbox/exec_server.py: which sessions they leave as they are, and the invariant over the
-- histories of the server.
use otari_sandbox_container.Base.{
  ℕ, ◌≢◌, ◌≡◌, refl, sym, false, Option, none, some, [], leb, Text, ℤ, ◌==◌, text_eq, arith,
  option_both, length, Bool-cases, Option-cases, inl, inr,
}
use mathlib.Core.Path.{subst}
use otari_sandbox_container.Base.Dict.{Dict, lookup-insert, lookup-insert_same}
use otari_sandbox_container.Sessions.{
  SessionManager, Fresh, Created, created, limit_exceeded, os_error, value_error, Lifetimes, id_of,
  new_session, create, get,
}
use otari_sandbox_container.Sessions.Invariant.{IsValid, create-IsValid}
use otari_sandbox_container.Models.{Json, has_length}
use otari_sandbox_container.Server.{
  Server, Outside, Response, begin_create, started, after_create, create_session, created_disk,
  CreateSessionRequest, destroy_session,
}
use otari_sandbox_container.Server.Exec.{exec_tool}
use otari_sandbox_container.Server.Transfer.{
  files_download, files_list, register_programmatic_tools,
}
use otari_sandbox_container.Server.Routes.{
  Request, health_check, create_request, get_request, delete_request, exec, upload, download, list,
  register, on_body, on_id, handle, Serves, at_start, after_request, after_create_begins,
  after_create_ends, after_begin, after_finish, after_upload_begins, after_upload_ends,
  after_destroy, after_change,
}
use otari_sandbox_container.Server.Local.{
  IsLocal, IsLocal-same, IsLocal-then, started-IsLocal, destroyed-IsLocal,
}
use otari_sandbox_container.Server.Locality.{
  begin_exec-IsLocal, finish_exec-IsLocal, exec_tool-IsLocal, transfer-IsLocal,
  files_upload-IsLocal, begin_upload-IsLocal, finish_upload-manager,
}

-- What a creation gives: the new session under its identifier, or no session.
abbrev Registers : Text → Created × SessionManager → Type 0
Registers sid (created x, m) = (x.session_id ≡ sid) × (get sid m ≡ some x)
Registers sid (c, m) = Unit

create-Registers :
    (m : SessionManager) (defaults : Lifetimes) (idle life : Option ℤ) (f : Fresh)
    → Registers (id_of f) (create m defaults idle life f)
unfolding create get
create-Registers m defaults idle life f =
    elim (Bool-cases (leb m.max_sessions (length m.sessions))) [
      | inl full ↦ rw (full, create) tt
      | inr room ↦ elim (Bool-cases f.workspace_made) [
        | inr ws ↦ rw (room, ws, create) tt
        | inl ws ↦ elim (Bool-cases f.stub_made) [
          | inr st ↦ rw (room, ws, st, create) tt
          | inl st ↦ elim (Option-cases f.limits) [
            | inl lim ↦ rw (room, ws, st, lim, create) tt
            | inr (limits, lim) ↦
                rw (room, ws, st, lim, create)
                  (
                    refl,
                    lookup-insert_same (id_of f) (new_session m defaults idle life f limits)
                        m.sessions,
                  )
          ]
        ]
      ]
    ]

create-others :
    (m : SessionManager) (defaults : Lifetimes) (idle life : Option ℤ) (f : Fresh) (j : Text)
    → (id_of f == j) ≡ false
    → get j (create m defaults idle life f).1 ≡ get j m
unfolding create get
create-others m defaults idle life f j h =
    elim (Bool-cases (leb m.max_sessions (length m.sessions))) [
      | inl full ↦ rw (full, create) refl
      | inr room ↦ elim (Bool-cases f.workspace_made) [
        | inr ws ↦ rw (room, ws, create) refl
        | inl ws ↦ elim (Bool-cases f.stub_made) [
          | inr st ↦ rw (room, ws, st, create) refl
          | inl st ↦ elim (Option-cases f.limits) [
            | inl lim ↦ rw (room, ws, st, lim, create) refl
            | inr (limits, lim) ↦
                rw (room, ws, st, lim, create)
                  (ground (
                    arith,
                    lookup-insert j (id_of f) (new_session m defaults idle life f limits)
                        m.sessions,
                  ))
          ]
        ]
      ]
    ]

create_session-IsLocal :
    (o : Outside) (req : CreateSessionRequest) (s : Server)
    → length o.fresh.uuid_hex ≡ 32
    → IsLocal (id_of o.fresh) s (create_session o req s).1
unfolding create_session begin_create
create_session-IsLocal o req s h =
    let z =
      create s.manager o.lifetimes req.idle_timeout_seconds req.max_lifetime_seconds o.fresh in
    of_created z.0 z.1
      (create-Registers s.manager o.lifetimes req.idle_timeout_seconds req.max_lifetime_seconds
        o.fresh)
      (record {
        valid = λ v.
            create-IsValid s.manager o.lifetimes req.idle_timeout_seconds req.max_lifetime_seconds
              o.fresh h v;
        others =
            create-others s.manager o.lifetimes req.idle_timeout_seconds req.max_lifetime_seconds
              o.fresh;
      })
  where
    sid : Text
    sid = id_of o.fresh

    after : SessionManager → Server
    after m = record s { manager = m; disk = created_disk s.manager o.fresh s.disk }

    of_created :
        (c : Created) (m : SessionManager)
        → Registers sid (c, m)
        → IsLocal sid s (after m)
        → IsLocal sid s (after_create o c (after m)).1
    of_created (created x) m r l = IsLocal-then sid s (after m) _ l (
        subst (λ i. IsLocal i (after m) (started o x (after m)).1) r.0
          (started-IsLocal o x (after m)))
    of_created (limit_exceeded detail) m r l = l
    of_created os_error m r l = l
    of_created value_error m r l = l

-- The session that a request is for; a creation is for the one that it makes.
abbrev pub target : Outside → Request → Text
target o health_check = []
target o (create_request body) = id_of o.fresh
target o (get_request sid) = sid
target o (delete_request sid) = sid
target o (exec sid d) = sid
target o (upload sid content filename path) = sid
target o (download sid path) = sid
target o (list sid path) = sid
target o (register sid d) = sid

on_id-IsLocal :
    (sid : Text) (f : Server → Response × Server) (s : Server)
    → IsLocal sid s (f s).1
    → IsLocal sid s (on_id sid f s).1
unfolding on_id
on_id-IsLocal sid f s h =
    option_both (λ (z : Response × Server). IsLocal sid s z.1) (has_length 1 64 sid) _ _
      (λ e. IsLocal-same sid s s refl) (λ a e. h)

on_body-IsLocal :
    {A : Type 0} (sid : Text) (d : Dict Text Json) (parsed : Option A)
    (f : A → Server → Response × Server) (s : Server)
    → ((a : A) → IsLocal sid s (f a s).1)
    → IsLocal sid s (on_body d parsed f s).1
unfolding on_body
on_body-IsLocal sid d none f s h = IsLocal-same sid s s refl
on_body-IsLocal sid d (some a) f s h = h a

pub handle-IsLocal :
    (o : Outside) (req : Request) (s : Server)
    → length o.fresh.uuid_hex ≡ 32
    → IsLocal (target o req) s (handle o req s).1
unfolding handle files_download files_list register_programmatic_tools
handle-IsLocal o health_check s h = IsLocal-same [] s s refl
handle-IsLocal o (create_request body) s h =
    on_body-IsLocal (id_of o.fresh) _ _ (create_session o) s
      (λ req. create_session-IsLocal o req s h)
handle-IsLocal o (get_request sid) s h = on_id-IsLocal sid _ s (IsLocal-same sid s s refl)
handle-IsLocal o (delete_request sid) s h =
    on_id-IsLocal sid (destroy_session o sid) s
      (unfold destroy_session in destroyed-IsLocal o.removable sid s)
handle-IsLocal o (exec sid d) s h =
    on_id-IsLocal sid _ s
      (on_body-IsLocal sid d _ (exec_tool o sid) s (λ req. exec_tool-IsLocal o sid req s))
handle-IsLocal o (upload sid content filename path) s h =
    on_id-IsLocal sid _ s (files_upload-IsLocal o sid content filename path s)
handle-IsLocal o (download sid path) s h =
    on_id-IsLocal sid _ s (transfer-IsLocal o sid _ s (λ x t. refl))
handle-IsLocal o (list sid none) s h =
    on_id-IsLocal sid _ s (transfer-IsLocal o sid _ s (λ x t. refl))
handle-IsLocal o (list sid (some path)) s h =
    on_id-IsLocal sid _ s (transfer-IsLocal o sid _ s (λ x t. refl))
handle-IsLocal o (register sid d) s h = on_id-IsLocal sid _ s (
    on_body-IsLocal sid d _ (register_programmatic_tools o sid) s
      (λ req. transfer-IsLocal o sid _ s (λ x t. refl)))

-- A request that is for another session leaves a session as it is: it is found as before, or not found as
-- before, whatever the request, what comes from outside and the response. The random number of a new
-- session must have 32 digits.
pub handle-others :
    (o : Outside) (req : Request) (s : Server) (j : Text)
    → length o.fresh.uuid_hex ≡ 32
    → target o req ≢ j
    → get j (handle o req s).1.manager ≡ get j s.manager
handle-others o req s j h apart =
    (handle-IsLocal o req s h).others j (ground (arith, text_eq.decides (target o req) j))

-- In any history of the server, with requests in any order, other requests between the two parts of a
-- call, of an upload or of the creation of a session, sessions destroyed at any time and programs that change the disk, each identifier has one entry,
-- the number of sessions is at most the maximum, and each session stands under its own identifier of 28
-- characters, with its two directories in the directory of that identifier, and a runner that works in
-- the one and imports from the other.
pub Serves-IsValid :
    {root : Text} {max_sessions : ℕ} {s : Server} → Serves root max_sessions s → IsValid s.manager
unfolding begin_create
Serves-IsValid (at_start disk environ) = record { nodup = tt; bounded = omega arith; owned = tt }
Serves-IsValid (after_request s o req h r) = (handle-IsLocal o req s h).valid (Serves-IsValid r)
Serves-IsValid (after_create_begins s o req h r) =
    create-IsValid s.manager o.lifetimes req.idle_timeout_seconds req.max_lifetime_seconds o.fresh h
      (Serves-IsValid r)
Serves-IsValid (after_create_ends s o (created x) r) =
    (started-IsLocal o x s).valid (Serves-IsValid r)
Serves-IsValid (after_create_ends s o (limit_exceeded detail) r) = Serves-IsValid r
Serves-IsValid (after_create_ends s o os_error r) = Serves-IsValid r
Serves-IsValid (after_create_ends s o value_error r) = Serves-IsValid r
Serves-IsValid (after_begin s o sid req r) =
    (begin_exec-IsLocal o sid req s).0.valid (Serves-IsValid r)
Serves-IsValid (after_finish s o p r) = (finish_exec-IsLocal o p s).valid (Serves-IsValid r)
Serves-IsValid (after_upload_begins s o sid r) =
    (begin_upload-IsLocal o sid s).valid (Serves-IsValid r)
Serves-IsValid (after_upload_ends s o x content filename path r) =
    subst IsValid (sym (finish_upload-manager o x content filename path s)) (Serves-IsValid r)
Serves-IsValid (after_destroy s removable sid r) =
    (destroyed-IsLocal removable sid s).valid (Serves-IsValid r)
Serves-IsValid (after_change s disk r) = Serves-IsValid r
