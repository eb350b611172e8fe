-- ===== src/Tests/SessionsTests.antt =====
-- Runs of the definitions for sandbox/sessions.py.
use otari_sandbox_container.Base.{◌≡◌, refl, true, none, some, [], ◌∷◌, codes, text_eq}
use otari_sandbox_container.Base.Dict.{lookup}
use otari_sandbox_container.Limits.{builtin_limits}
use otari_sandbox_container.Sessions.{
  is_idle, Session, SessionManager, Fresh, builtin_lifetimes, id_of, new_session, create, get,
  touch_session, overdue, destroy_all,
}
use otari_sandbox_container.Sessions.Collector.{reaped_despite_touch}
use otari_sandbox_container.Sessions.Isolation.{Reachable, initial, after_create}

abbrev pub empty : SessionManager
empty = record { root = codes "/s"; max_sessions = 2; sessions = []; dirs = [] }

abbrev pub fresh_a : Fresh
fresh_a = record {
  uuid_hex = codes "aaaaaaaaaaaaaaaaaaaaaaaaaaaaaaaa";
  workspace_made = true;
  stub_made = true;
  limits = some builtin_limits;
  created_at = 0;
  last_activity_at = 0;
}

abbrev pub fresh_b : Fresh
fresh_b = record fresh_a { uuid_hex = codes "bbbbbbbbbbbbbbbbbbbbbbbbbbbbbbbb" }

abbrev pub session_a : Session
session_a = new_session empty builtin_lifetimes none none fresh_a builtin_limits

-- a manager with one session
abbrev pub one : SessionManager
one = record empty {
  sessions = (id_of fresh_a, session_a) ∷ [];
  dirs = codes "/s/sbx_aaaaaaaaaaaaaaaaaaaaaaaa" ∷ [];
}

abbrev full : SessionManager
full = record one { max_sessions = 1 }

reaped_despite_touch_example :
    get (id_of fresh_a) (
      destroy_all
        (λ d. true)
        (overdue 1000 900001 one.sessions)
        (touch_session (id_of fresh_a) 900002 one))
    ≡ none
unfolding get lookup text_eq is_idle
reaped_despite_touch_example =
    reaped_despite_touch 1000 900001 900002 (λ d. true) (id_of fresh_a) session_a one (refl, tt)
      refl refl

abbrev two : SessionManager
two =
    (create (create empty builtin_lifetimes none none fresh_a).1 builtin_lifetimes none none
      fresh_b).1

two-Reachable : Reachable (codes "/s") 2 two
two-Reachable =
    after_create _ builtin_lifetimes none none fresh_b refl
      (after_create _ builtin_lifetimes none none fresh_a refl initial)
