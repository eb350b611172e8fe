-- ===== src/Sessions/Specification.antt =====
-- What the manager of sandbox/sessions.py promises, as a specification over the sessions that can be found.
use otari_sandbox_container.Base.{
  ℕ, ◌≤◌, ◌≡◌, ◌≢◌, Bool, false, Option, none, some, List, [], ◌∷◌, if◌then◌else◌, Text, ℤ, length,
  ◌==◌, text_eq, All,
}
use otari_sandbox_container.Sessions.{
  Session, SessionManager, touch, or_default, Fresh, Created, created, limit_exceeded, os_error,
  value_error, Lifetimes, id_of, create, destroy, get, touch_session, reap_idle, shutdown,
}
use otari_sandbox_container.Sessions.Lookup.{is_among}
use otari_sandbox_container.Sessions.Collector.{is_overdue}

-- The calls of the manager, with what they read from outside.
pub data Call : Type 0 where
  create_call : Lifetimes → Option ℤ → Option ℤ → Fresh → Call
  destroy_call : (Text → Bool) → Text → Call
  get_call : Text → Call
  touch_call : Text → ℕ → Call
  reap_call : ℕ → (Text → Bool) → ℕ → Call
  shutdown_call : (Text → Bool) → Call

pub data Answer : Type 0 where
  made : Session → Answer
  refused : Answer
  failed : Answer
  found : Option Session → Answer
  reaped : List Text → Answer
  finished : Answer

abbrev pub answer_of : Created → Answer
answer_of (created s) = made s
answer_of (limit_exceeded m) = refused
answer_of os_error = failed
answer_of value_error = failed

-- The manager's own answer and next state.
unfoldable pub perform : Call → SessionManager → Answer × SessionManager
perform (create_call defaults idle life f) m =
    let (c, m') = create m defaults idle life f in (answer_of c, m')
perform (destroy_call removable sid) m = (finished, destroy removable sid m)
perform (get_call sid) m = (found (get sid m), m)
perform (touch_call sid now) m = (finished, touch_session sid now m)
perform (reap_call tick removable now) m =
    let (sids, m') = reap_idle tick removable now m in (reaped sids, m')
perform (shutdown_call removable) m = (finished, shutdown removable m)

-- The abstract state: which sessions can be found. It forgets their order and the directories.
abbrev pub View : Type 0
View = Text → Option Session

abbrev pub view : SessionManager → View
view m sid = get sid m

abbrev pub Distinct : List Text → Type 0
Distinct [] = Unit
Distinct (sid ∷ sids) = (is_among sid sids ≡ false) × Distinct sids

-- At least so many sessions can be found, under different identifiers.
pub record IsFull (max_sessions : ℕ) (v : View) : Type 0 where
  pub ids : List Text
  pub different : Distinct ids
  pub known : All (λ sid. v sid ≢ none) ids
  pub many : max_sessions ≤ length ids

-- The specification: the answers that a call may have in a state, and the state after it.
pub data Allows (max_sessions : ℕ) (v w : View) : Call → Answer → Type 0 where
  allows_made :
      (defaults : Lifetimes) (idle life : Option ℤ) (f : Fresh) (s : Session)
      → s.session_id ≡ id_of f
      → s.idle_timeout_seconds ≡ or_default idle defaults.idle_timeout_seconds
      → s.max_lifetime_seconds ≡ or_default life defaults.max_lifetime_seconds
      → ((j : Text) → w j ≡ (if id_of f == j then some s else v j))
      → Allows max_sessions v w (create_call defaults idle life f) (made s)
  allows_refused :
      (defaults : Lifetimes) (idle life : Option ℤ) (f : Fresh)
      → IsFull max_sessions v
      → ((j : Text) → w j ≡ v j)
      → Allows max_sessions v w (create_call defaults idle life f) refused
  allows_failed :
      (defaults : Lifetimes) (idle life : Option ℤ) (f : Fresh)
      → ((j : Text) → w j ≡ v j)
      → Allows max_sessions v w (create_call defaults idle life f) failed
  allows_destroyed :
      (removable : Text → Bool) (sid : Text)
      → ((j : Text) → w j ≡ (if sid == j then none else v j))
      → Allows max_sessions v w (destroy_call removable sid) finished
  allows_found :
      (sid : Text)
      → ((j : Text) → w j ≡ v j)
      → Allows max_sessions v w (get_call sid) (found (v sid))
  allows_touched :
      (sid : Text) (now : ℕ)
      → ((j : Text)
          → w j
            ≡ (if sid == j then elim (v j) [ none ↦ none | some s ↦ some (touch s now) ] else v j))
      → Allows max_sessions v w (touch_call sid now) finished
  allows_reaped :
      (tick : ℕ) (removable : Text → Bool) (now : ℕ) (sids : List Text)
      → ((j : Text)
          → is_among j sids ≡ elim (v j) [ none ↦ false | some s ↦ is_overdue tick now s ])
      → ((j : Text) → w j ≡ (if is_among j sids then none else v j))
      → Allows max_sessions v w (reap_call tick removable now) (reaped sids)
  allows_shut_down :
      (removable : Text → Bool)
      → ((j : Text) → w j ≡ none)
      → Allows max_sessions v w (shutdown_call removable) finished

-- What a call must be given: the random number of a new session has 32 digits.
abbrev pub IsGiven : Call → Type 0
IsGiven (create_call defaults idle life f) = length f.uuid_hex ≡ 32
IsGiven c = Unit

-- A run of calls: the answers in their order.
unfoldable pub perform_all : List Call → SessionManager → List Answer
perform_all [] m = []
perform_all (c ∷ cs) m = let rest = perform_all cs (perform c m).1 in (perform c m).0 ∷ rest

-- Answers that the specification allows, call by call, from a state on.
pub data AllowsAll (max_sessions : ℕ) : View → List Call → List Answer → Type 0 where
  no_calls : (v : View) → AllowsAll max_sessions v [] []
  next_call :
      (v w : View) (c : Call) (a : Answer) (cs : List Call) (answers : List Answer)
      → Allows max_sessions v w c a
      → AllowsAll max_sessions w cs answers
      → AllowsAll max_sessions v (c ∷ cs) (a ∷ answers)
