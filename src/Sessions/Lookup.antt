-- ===== src/Sessions/Lookup.antt =====
-- What `get` of sandbox/sessions.py finds after each operation.
use otari_sandbox_container.Base.{
  ℕ, ◌≤◌, ◌<◌, ◌≡◌, refl, Bool, true, false, ◌||◌, Option, none, some, List, [], ◌∷◌, if◌then◌else◌,
  leb, Text, ℤ, length, ◌==◌, text_eq, arith, Bool-cases, Option-cases, inl, inr, ◌≢◌, ◌⊎◌,
  lt→leb_false,
}
use otari_sandbox_container.Base.Dict.{lookup, lookup-insert, lookup-erase}
use otari_sandbox_container.Limits.{ResourceLimits}
use otari_sandbox_container.Sessions.{
  Session, SessionManager, touch, Fresh, created, Lifetimes, id_of, new_session, create, destroy,
  get, touch_session, destroy_all,
}

-- `sid in sids`
abbrev pub is_among : Text → List Text → Bool
is_among sid [] = false
is_among sid (j ∷ sids) = j == sid || is_among sid sids

-- After the destruction of `sid`, `sid` is not found, and every other identifier is found as before.
pub get-destroy :
    (removable : Text → Bool) (sid j : Text) (m : SessionManager)
    → get j (destroy removable sid m) ≡ (if sid == j then none else get j m)
unfolding destroy get
get-destroy removable sid j m = elim (Option-cases (lookup sid m.sessions)) [
  | inl e ↦ rw (e, destroy) ground (arith, text_eq.decides sid j)
  | inr (s, e) ↦ rw (e, destroy) (lookup-erase j sid m.sessions)
]

pub get-destroy_all :
    (removable : Text → Bool) (j : Text) (sids : List Text) (m : SessionManager)
    → get j (destroy_all removable sids m) ≡ (if is_among j sids then none else get j m)
unfolding destroy_all
get-destroy_all removable j [] m = refl
get-destroy_all removable j (sid ∷ sids) m = ground (
  arith,
  get-destroy_all removable j sids (destroy removable sid m),
  get-destroy removable sid j m,
)

pub get-touch_session :
    (sid j : Text) (now : ℕ) (m : SessionManager)
    → get j (touch_session sid now m)
      ≡ (if sid == j then elim (get j m) [ none ↦ none | some s ↦ some (touch s now) ] else get j m)
unfolding touch_session get
get-touch_session sid j now m = elim (Option-cases (lookup sid m.sessions)) [
  | inl e ↦ rw (e, touch_session) ground (arith, text_eq.decides sid j)
  | inr (s, e) ↦
      rw (e, touch_session) ground
        (arith, lookup-insert j sid (touch s now) m.sessions, text_eq.decides sid j)
]

-- Where there is room, both directories can be made and the limits can be read, creation returns the new
-- session; its identifier is found with it, and every other identifier is found as before.
pub get-create :
    (m : SessionManager) (defaults : Lifetimes) (idle life : Option ℤ) (f : Fresh)
    (limits : ResourceLimits) (j : Text)
    → length m.sessions < m.max_sessions
    → f.workspace_made ≡ true
    → f.stub_made ≡ true
    → f.limits ≡ some limits
    → ((create m defaults idle life f).0 ≡ created (new_session m defaults idle life f limits))
      × (get j (create m defaults idle life f).1
          ≡ (if id_of f == j then some (new_session m defaults idle life f limits) else get j m))
unfolding create get
get-create m defaults idle life f limits j room ws st lim =
    rw (ws, st, lim, lt→leb_false m.max_sessions (length m.sessions) room)
      (refl, lookup-insert j (id_of f) (new_session m defaults idle life f limits) m.sessions)

-- Where the manager is full, a directory cannot be made or the limits cannot be read, creation returns no
-- session, and every identifier is found as before.
pub get-create_failed :
    (m : SessionManager) (defaults : Lifetimes) (idle life : Option ℤ) (f : Fresh) (j : Text)
    → (m.max_sessions ≤ length m.sessions)
      ⊎ ((f.workspace_made ≡ false) ⊎ ((f.stub_made ≡ false) ⊎ (f.limits ≡ none)))
    → ((s : Session) → (create m defaults idle life f).0 ≢ created s)
      × (get j (create m defaults idle life f).1 ≡ get j m)
unfolding create get
get-create_failed m defaults idle life f j why =
    elim (Bool-cases (leb m.max_sessions (length m.sessions))) [
      | inl full ↦ rw (full, create) ((λ s h. cc), refl)
      | inr room ↦ elim (Bool-cases f.workspace_made) [
        | inr ws ↦ rw (room, ws, create) ((λ s h. cc), refl)
        | inl ws ↦ elim (Bool-cases f.stub_made) [
          | inr st ↦ rw (room, ws, st, create) ((λ s h. cc), refl)
          | inl st ↦ elim (Option-cases f.limits) [
            | inl lim ↦ rw (room, ws, st, lim, create) ((λ s h. cc), refl)
            | inr (limits, lim) ↦ absurd (ground arith)
          ]
        ]
      ]
    ]
