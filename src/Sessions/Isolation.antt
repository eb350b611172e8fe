-- ===== src/Sessions/Isolation.antt =====
-- The histories of a manager of sandbox/sessions.py, and that no two sessions share a path.
use otari_sandbox_container.Base.{
  ℕ, ◌≡◌, ◌≢◌, Bool, refl, sym, ap, ◌∙◌, Option, some, [], ◌∷◌, ◌++◌, append_assoc, Text, ◌⊎◌, inl,
  inr, codes, ℤ, length, arith,
}
use otari_sandbox_container.Sessions.{
  Session, SessionManager, path_join, Fresh, Lifetimes, create, destroy, get, touch_session,
}
use otari_sandbox_container.Sessions.Invariant.{
  IsValid, Owned, lookup-Owned, create-IsValid, destroy-IsValid, touch_session-IsValid,
}

-- A history: from the manager that `__init__` makes, any handlers and the collector in any order. The
-- collector and `shutdown` are rows of `destroy`.
pub data Reachable (root : Text) (max_sessions : ℕ) : SessionManager → Type 0 where
  initial :
      Reachable root max_sessions
        (record { root = root; max_sessions = max_sessions; sessions = []; dirs = [] })
  after_create :
      (m : SessionManager) (defaults : Lifetimes) (idle life : Option ℤ) (f : Fresh)
      → length f.uuid_hex ≡ 32
      → Reachable root max_sessions m
      → Reachable root max_sessions (create m defaults idle life f).1
  after_destroy :
      (m : SessionManager) (removable : Text → Bool) (sid : Text)
      → Reachable root max_sessions m
      → Reachable root max_sessions (destroy removable sid m)
  after_touch :
      (m : SessionManager) (sid : Text) (now : ℕ)
      → Reachable root max_sessions m
      → Reachable root max_sessions (touch_session sid now m)

-- In any history, each identifier has one entry, the number of sessions is at most the maximum, and each
-- session stands under its own identifier of 28 characters, with its two directories in the directory of
-- that identifier, and a runner that works in the one and imports from the other.
pub Reachable-IsValid :
    {root : Text} {max_sessions : ℕ} {m : SessionManager}
    → Reachable root max_sessions m
    → IsValid m
Reachable-IsValid initial = record { nodup = tt; bounded = omega arith; owned = tt }
Reachable-IsValid (after_create m defaults idle life f h r) =
    create-IsValid m defaults idle life f h (Reachable-IsValid r)
Reachable-IsValid (after_destroy m removable sid r) =
    destroy-IsValid removable sid m (Reachable-IsValid r)
Reachable-IsValid (after_touch m sid now r) = touch_session-IsValid sid now m (Reachable-IsValid r)

append-cancel_left : (a x y : Text) → a ++ x ≡ a ++ y → x ≡ y
append-cancel_left [] x y h = h
append-cancel_left (c ∷ a) x y h =
    append-cancel_left a x y (ap (λ t. elim t [ [] ↦ [] | _ ∷ r ↦ r ]) h)

append-same_length : (a b x y : Text) → length a ≡ length b → a ++ x ≡ b ++ y → a ≡ b
append-same_length [] [] x y n h = refl
append-same_length [] (d ∷ b) x y n h = absurd (omega arith)
append-same_length (c ∷ a) [] x y n h = absurd (omega arith)
append-same_length (c ∷ a) (d ∷ b) x y n h = ground (arith, append-same_length a b x y)

session_dirs-apart :
    (root i j p q : Text)
    → length i ≡ length j
    → path_join root i ++ p ≡ path_join root j ++ q
    → i ≡ j
session_dirs-apart root i j p q n h = append-same_length i j p q n (
    append-cancel_left (codes "/") (i ++ p) (j ++ q) (
      append-cancel_left root (codes "/" ++ (i ++ p)) (codes "/" ++ (j ++ q))
        (sym (append_assoc root (codes "/" ++ i) p) ∙ h ∙ append_assoc root (codes "/" ++ j) q)))

-- a directory of a session, and a path under it
inside :
    (root sid name p : Text)
    → path_join (path_join root sid) name ++ p ≡ path_join root sid ++ ((codes "/" ++ name) ++ p)
inside root sid name p = append_assoc (path_join root sid) (codes "/" ++ name) p

abbrev pub IsDirOf : Text → Session → Type 0
IsDirOf d s = (d ≡ s.workspace_dir) ⊎ (d ≡ s.stub_dir)

dir-inside :
    (root sid d p : Text) (s : Session)
    → Owned root sid s
    → IsDirOf d s
    → (q : Text) × (d ++ p ≡ path_join root sid ++ q)
dir-inside root sid d p s o (inl e) = (
  (codes "/" ++ codes "workspace") ++ p,
  rw (e, o.workspace) (inside root sid (codes "workspace") p),
)
dir-inside root sid d p s o (inr e) =
    ((codes "/" ++ codes "lib") ++ p, rw (e, o.stubs) (inside root sid (codes "lib") p))

-- A path in the directory of an identifier is none under a directory of the session of another one.
pub valid_apart :
    (m : SessionManager) (i j e q q' : Text) (t : Session)
    → IsValid m
    → length i ≡ 28
    → get j m ≡ some t
    → i ≢ j
    → IsDirOf e t
    → path_join m.root i ++ q ≢ e ++ q'
unfolding get
valid_apart m i j e q q' t v short tj apart et same =
    let o = lookup-Owned m.root j t m.sessions v.owned tj in
    let (r, l) = dir-inside m.root j e q' t o et in
    apart (session_dirs-apart m.root i j q r (short ∙ sym o.short) (same ∙ l))

-- In any history, no path lies under a directory of one session and under a directory of another:
-- neither the two workspaces nor the two stub directories, nor one of each, share a file.
pub sessions_apart :
    (root : Text) (max_sessions : ℕ) (m : SessionManager) (i j d e p q : Text) (s t : Session)
    → Reachable root max_sessions m
    → get i m ≡ some s
    → get j m ≡ some t
    → i ≢ j
    → IsDirOf d s
    → IsDirOf e t
    → d ++ p ≢ e ++ q
unfolding get
sessions_apart root max_sessions m i j d e p q s t r si tj apart ds et same =
    let v = Reachable-IsValid r in
    let o = lookup-Owned m.root i s m.sessions v.owned si in
    let (p', l) = dir-inside m.root i d p s o ds in
    valid_apart m i j e p' q t v o.short tj apart et (sym l ∙ same)
