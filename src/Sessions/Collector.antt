-- ===== src/Sessions/Collector.antt =====
-- The collector of sandbox/sessions.py: which sessions `reap_idle` and `shutdown` remove.
use otari_sandbox_container.Base.{
  ℕ, ◌≡◌, refl, Bool, true, false, ◌||◌, ◌∙◌, none, some, [], ◌∷◌, map, if◌then◌else◌, Text,
  text_eq, arith, Bool-cases, Option-cases, inl, inr, if_true,
}
use otari_sandbox_container.Base.Dict.{Dict, lookup, NodupKeys}
use otari_sandbox_container.Sessions.{
  Session, SessionManager, is_idle, is_expired, overdue, get, touch_session, destroy_all, reap_idle,
  shutdown, list_ids,
}
use otari_sandbox_container.Sessions.Lookup.{is_among, get-destroy_all}

-- whether the collector takes the session at `now`
abbrev pub is_overdue : ℕ → ℕ → Session → Bool
is_overdue tick now s = is_idle tick s (some now) now || is_expired tick s (some now) now

pub is_among-overdue_absent :
    (tick now : ℕ) (j : Text) (d : Dict Text Session)
    → lookup j d ≡ none
    → is_among j (overdue tick now d) ≡ false
unfolding overdue lookup
is_among-overdue_absent tick now j [] h = refl
is_among-overdue_absent tick now j ((sid, s) ∷ d) h =
    ground (arith, is_among-overdue_absent tick now j d, text_eq.decides sid j)

pub is_among-overdue :
    (tick now : ℕ) (j : Text) (s : Session) (d : Dict Text Session)
    → NodupKeys d
    → lookup j d ≡ some s
    → is_among j (overdue tick now d) ≡ is_overdue tick now s
unfolding overdue lookup
is_among-overdue tick now j s [] u h = cc
is_among-overdue tick now j s ((sid, t) ∷ d) (fresh, u) h = ground (
  arith,
  is_among-overdue tick now j s d u,
  is_among-overdue_absent tick now j d,
  text_eq.decides sid j,
)

-- With one entry for each identifier, the collector removes the sessions that are idle or expired at
-- `now`; every other identifier is found as before.
pub reap_idle_lem :
    (tick now : ℕ) (removable : Text → Bool) (j : Text) (m : SessionManager)
    → NodupKeys m.sessions
    → get j (reap_idle tick removable now m).1
      ≡ elim (get j m) [ none ↦ none | some s ↦ if is_overdue tick now s then none else some s ]
unfolding reap_idle get
reap_idle_lem tick now removable j m u =
    get-destroy_all removable j (overdue tick now m.sessions) m
    ∙ elim (Option-cases (lookup j m.sessions)) [
      | inl e ↦ rw e ground arith
      | inr (s, e) ↦ rw (e, is_among-overdue tick now j s m.sessions u e) refl
    ]

is_among-keys :
    (j : Text) (d : Dict Text Session)
    → is_among j (map (λ (e : Text × Session). e.0) d) ≡ false
    → lookup j d ≡ none
unfolding lookup
is_among-keys j [] h = refl
is_among-keys j ((sid, s) ∷ d) h = ground (arith, is_among-keys j d, text_eq.decides sid j)

-- After `shutdown` no identifier is found, whatever directories can be removed.
pub get-shutdown :
    (removable : Text → Bool) (j : Text) (m : SessionManager) → get j (shutdown removable m) ≡ none
unfolding shutdown get list_ids
get-shutdown removable j m =
    get-destroy_all removable j (list_ids m) m ∙ elim (Bool-cases (is_among j (list_ids m))) [
      | inl e ↦ rw e refl
      | inr e ↦ rw e (is_among-keys j m.sessions e)
    ]

-- With one entry for each identifier, a session that is overdue when the collector selects, and is
-- touched before the collector destroys what it selected, is gone afterwards, whatever the time of the
-- touch.
pub reaped_despite_touch :
    (tick now later : ℕ) (removable : Text → Bool) (sid : Text) (s : Session) (m : SessionManager)
    → NodupKeys m.sessions
    → get sid m ≡ some s
    → is_overdue tick now s ≡ true
    → get sid (destroy_all removable (overdue tick now m.sessions) (touch_session sid later m))
      ≡ none
unfolding get
reaped_despite_touch tick now later removable sid s m u found late =
    get-destroy_all removable sid (overdue tick now m.sessions) (touch_session sid later m)
    ∙ if_true none (get sid (touch_session sid later m))
        (is_among-overdue tick now sid s m.sessions u found ∙ late)
