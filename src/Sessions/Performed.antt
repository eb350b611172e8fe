-- ===== src/Sessions/Performed.antt =====
-- What each call of the manager of sandbox/sessions.py keeps.
use otari_sandbox_container.Base.{
  ℕ, ◌≡◌, refl, ◌∙◌, Bool, Option, List, [], ◌∷◌, Text, ℤ, text_eq, arith,
}
use otari_sandbox_container.Sessions.{
  SessionManager, Fresh, Lifetimes, create, destroy, list_ids, touch_session, destroy_all, overdue,
  reap_idle, shutdown,
}
use otari_sandbox_container.Sessions.Invariant.{
  IsValid, create-IsValid, destroy-IsValid, destroy_all-IsValid, touch_session-IsValid,
}
use otari_sandbox_container.Sessions.Specification.{
  Call, perform, IsGiven, create_call, destroy_call, get_call, touch_call, reap_call, shutdown_call,
}

pub perform-IsValid :
    (c : Call) (m : SessionManager) → IsGiven c → IsValid m → IsValid (perform c m).1
unfolding perform reap_idle shutdown
perform-IsValid (create_call defaults idle life f) m g v = create-IsValid m defaults idle life f g v
perform-IsValid (destroy_call removable sid) m g v = destroy-IsValid removable sid m v
perform-IsValid (get_call sid) m g v = v
perform-IsValid (touch_call sid now) m g v = touch_session-IsValid sid now m v
perform-IsValid (reap_call tick removable now) m g v =
    destroy_all-IsValid removable (overdue tick now m.sessions) m v
perform-IsValid (shutdown_call removable) m g v = destroy_all-IsValid removable (list_ids m) m v

-- The maximum and the root are fixed.
abbrev pub SameSetup : SessionManager → SessionManager → Type 0
SameSetup m m' = (m'.max_sessions ≡ m.max_sessions) × (m'.root ≡ m.root)

create-SameSetup :
    (m : SessionManager) (defaults : Lifetimes) (idle life : Option ℤ) (f : Fresh)
    → SameSetup m (create m defaults idle life f).1
unfolding create
create-SameSetup m defaults idle life f = ground arith

destroy-SameSetup :
    (removable : Text → Bool) (sid : Text) (m : SessionManager)
    → SameSetup m (destroy removable sid m)
unfolding destroy
destroy-SameSetup removable sid m = ground arith

destroy_all-SameSetup :
    (removable : Text → Bool) (sids : List Text) (m : SessionManager)
    → SameSetup m (destroy_all removable sids m)
unfolding destroy_all
destroy_all-SameSetup removable [] m = (refl, refl)
destroy_all-SameSetup removable (sid ∷ sids) m =
    let rest = destroy_all-SameSetup removable sids (destroy removable sid m) in
    let one = destroy-SameSetup removable sid m in (rest.0 ∙ one.0, rest.1 ∙ one.1)

touch_session-SameSetup :
    (sid : Text) (now : ℕ) (m : SessionManager) → SameSetup m (touch_session sid now m)
unfolding touch_session
touch_session-SameSetup sid now m = ground arith

pub perform-SameSetup : (c : Call) (m : SessionManager) → SameSetup m (perform c m).1
unfolding perform reap_idle shutdown
perform-SameSetup (create_call defaults idle life f) m = create-SameSetup m defaults idle life f
perform-SameSetup (destroy_call removable sid) m = destroy-SameSetup removable sid m
perform-SameSetup (get_call sid) m = (refl, refl)
perform-SameSetup (touch_call sid now) m = touch_session-SameSetup sid now m
perform-SameSetup (reap_call tick removable now) m =
    destroy_all-SameSetup removable (overdue tick now m.sessions) m
perform-SameSetup (shutdown_call removable) m = destroy_all-SameSetup removable (list_ids m) m
