-- ===== src/Sessions/Refinement.antt =====
-- The manager of sandbox/sessions.py keeps its specification.
use otari_sandbox_container.Base.{
  ℕ, suc, ◌≡◌, ◌≢◌, refl, ap, true, false, Option, none, some, List, [], ◌∷◌, map, leb, Text, ℤ,
  length, text_eq, arith, Bool-cases, Option-cases, inl, inr, All,
}
use mathlib.Core.Path.{subst}
use otari_sandbox_container.Base.Dict.{Dict, lookup, insert, NodupKeys, lookup-insert}
use otari_sandbox_container.Sessions.{
  Session, SessionManager, Fresh, Lifetimes, id_of, new_session, create, get, overdue, reap_idle,
}
use otari_sandbox_container.Sessions.Lookup.{
  is_among, get-destroy, get-touch_session, get-destroy_all,
}
use otari_sandbox_container.Sessions.Collector.{
  is_overdue, is_among-overdue, is_among-overdue_absent, get-shutdown,
}
use otari_sandbox_container.Sessions.Invariant.{IsValid}
use otari_sandbox_container.Sessions.Specification.{
  Call, answer_of, perform, View, view, Distinct, IsFull, Allows, IsGiven, perform_all, AllowsAll,
  create_call, destroy_call, get_call, touch_call, reap_call, shutdown_call, made, refused, failed,
  allows_made, allows_refused, allows_failed, allows_destroyed, allows_found, allows_touched,
  allows_reaped, allows_shut_down, no_calls, next_call,
}
use otari_sandbox_container.Sessions.Performed.{perform-IsValid, perform-SameSetup}

abbrev ids_of : Dict Text Session → List Text
ids_of d = map (λ (e : Text × Session). e.0) d

is_among-ids :
    (j : Text) (d : Dict Text Session) → lookup j d ≡ none → is_among j (ids_of d) ≡ false
unfolding lookup
is_among-ids j [] h = refl
is_among-ids j ((sid, s) ∷ d) h = ground (arith, is_among-ids j d, text_eq.decides sid j)

ids-Distinct : (d : Dict Text Session) → NodupKeys d → Distinct (ids_of d)
ids-Distinct [] h = tt
ids-Distinct ((sid, s) ∷ d) (fresh, h) = (is_among-ids sid d fresh, ids-Distinct d h)

All-weaken :
    {P Q : Text → Type 0} (sids : List Text) → ((j : Text) → P j → Q j) → All P sids → All Q sids
All-weaken [] f h = tt
All-weaken (sid ∷ sids) f h = (f sid h.0, All-weaken sids f h.1)

ids-known : (d : Dict Text Session) → All (λ sid. lookup sid d ≢ none) (ids_of d)
unfolding lookup
ids-known [] = tt
ids-known ((sid, s) ∷ d) = (
  (λ h. ground (arith, text_eq.decides sid sid)),
  All-weaken (ids_of d) (λ j h e. ground (arith, h)) (ids-known d),
)

length-ids : (d : Dict Text Session) → length (ids_of d) ≡ length d
length-ids [] = refl
length-ids (e ∷ d) = ap suc (length-ids d)

full :
    (m : SessionManager)
    → IsValid m
    → leb m.max_sessions (length m.sessions) ≡ true
    → IsFull m.max_sessions (view m)
unfolding get
full m v h = record {
  ids = ids_of m.sessions;
  different = ids-Distinct m.sessions v.nodup;
  known = ids-known m.sessions;
  many = ground (arith, length-ids m.sessions);
}

-- The call is a variable here, so that rewriting by what `f` holds leaves it as it is.
create-Allows :
    (defaults : Lifetimes) (idle life : Option ℤ) (f : Fresh) (m : SessionManager) (call : Call)
    → create_call defaults idle life f ≡ call
    → IsValid m
    → let (c, m') = create m defaults idle life f in
      Allows m.max_sessions (view m) (view m') call (answer_of c)
unfolding create get
create-Allows defaults idle life f m call h v =
    let unmade : Allows m.max_sessions (view m) (view m) call failed =
      subst (λ c. Allows m.max_sessions (view m) (view m) c failed) h
        (allows_failed defaults idle life f (λ j. refl)) in
    elim (Bool-cases (leb m.max_sessions (length m.sessions))) [
      | inl e ↦
          rw (e, create)
            (subst (λ c. Allows m.max_sessions (view m) (view m) c refused) h
              (allows_refused defaults idle life f (full m v e) (λ j. refl)))
      | inr room ↦ elim (Bool-cases f.workspace_made) [
        | inr ws ↦ rw (room, ws, create) unmade
        | inl ws ↦ elim (Bool-cases f.stub_made) [
          | inr st ↦ rw (room, ws, st, create) unmade
          | inl st ↦ elim (Option-cases f.limits) [
            | inl lim ↦ rw (room, ws, st, lim, create) unmade
            | inr (limits, lim) ↦
                let s = new_session m defaults idle life f limits in
                let w : View = λ j. lookup j (insert (id_of f) s m.sessions) in
                rw (room, ws, st, lim, create)
                  (subst (λ c. Allows m.max_sessions (view m) w c (made s)) h
                    (allows_made defaults idle life f s refl refl refl
                      (λ j. lookup-insert j (id_of f) s m.sessions)))
          ]
        ]
      ]
    ]

pub overdue-selects :
    (tick now : ℕ) (m : SessionManager) (j : Text)
    → IsValid m
    → is_among j (overdue tick now m.sessions)
      ≡ elim (get j m) [ none ↦ false | some s ↦ is_overdue tick now s ]
unfolding get
overdue-selects tick now m j v = elim (Option-cases (lookup j m.sessions)) [
  | inl e ↦ rw e (is_among-overdue_absent tick now j m.sessions e)
  | inr (s, e) ↦ rw e (is_among-overdue tick now j s m.sessions v.nodup e)
]

perform-Allows :
    (c : Call) (m : SessionManager)
    → IsValid m
    → Allows m.max_sessions (view m) (view (perform c m).1) c (perform c m).0
unfolding perform reap_idle
perform-Allows (create_call defaults idle life f) m v =
    create-Allows defaults idle life f m _ refl v
perform-Allows (destroy_call removable sid) m v =
    allows_destroyed removable sid (λ j. get-destroy removable sid j m)
perform-Allows (get_call sid) m v = allows_found sid (λ j. refl)
perform-Allows (touch_call sid now) m v =
    allows_touched sid now (λ j. get-touch_session sid j now m)
perform-Allows (reap_call tick removable now) m v =
    allows_reaped tick removable now (overdue tick now m.sessions)
      (λ j. overdue-selects tick now m j v)
      (λ j. get-destroy_all removable j (overdue tick now m.sessions) m)
perform-Allows (shutdown_call removable) m v =
    allows_shut_down removable (λ j. get-shutdown removable j m)

-- The manager refines the specification: from a manager that keeps the invariant, each row of calls has
-- answers that the specification allows from the sessions that can be found. There, a creation makes the
-- session with its identifier and lifetimes, is refused only where the maximum of sessions can be found, or
-- fails and changes nothing; a destruction forgets the one session; a touch changes its time only; the
-- collector forgets the overdue sessions and no other and answers with their identifiers; a shutdown forgets
-- all. The random number of each new session must have 32 digits.
pub perform_all-AllowsAll :
    (calls : List Call) (m : SessionManager)
    → IsValid m
    → All IsGiven calls
    → AllowsAll m.max_sessions (view m) calls (perform_all calls m)
unfolding perform_all
perform_all-AllowsAll [] m v g = no_calls (view m)
perform_all-AllowsAll (c ∷ calls) m v g =
    next_call (view m) (view (perform c m).1) c (perform c m).0 calls
      (perform_all calls (perform c m).1) (perform-Allows c m v)
      (subst (λ n. AllowsAll n (view (perform c m).1) calls (perform_all calls (perform c m).1))
        (perform-SameSetup c m).0
        (perform_all-AllowsAll calls (perform c m).1 (perform-IsValid c m g.0 v) g.1))
