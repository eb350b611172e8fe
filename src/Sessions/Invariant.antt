-- ===== src/Sessions/Invariant.antt =====
-- The invariant of the manager in sandbox/sessions.py, kept by every operation.
use otari_sandbox_container.Base.{
  ℕ, ◌≤◌, ◌≡◌, refl, sym, Bool, Option, some, List, [], ◌∷◌, leb, Text, codes, ℤ, length,
  length-take, ◌==◌, text_eq, arith, Bool-cases, Option-cases, inl, inr, All,
}
use otari_sandbox_container.Base.Dict.{
  Dict, lookup, insert, erase, NodupKeys, insert-NodupKeys, erase-NodupKeys, length-insert,
  length-erase, length-insert_known,
}
use otari_sandbox_container.Limits.{ResourceLimits}
use otari_sandbox_container.Sessions.{
  Session, SessionManager, touch, path_join, Fresh, Lifetimes, id_of, new_session, create, destroy,
  get, touch_session, destroy_all,
}

-- A session under its key: its directories are those of its own identifier, under the root.
pub record Owned (root : Text) (sid : Text) (s : Session) : Type 0 where
  pub named : s.session_id ≡ sid
  pub workspace : s.workspace_dir ≡ path_join (path_join root sid) (codes "workspace")
  pub stubs : s.stub_dir ≡ path_join (path_join root sid) (codes "lib")
  pub runs_in : s.runner.workspace ≡ s.workspace_dir
  pub imports_from : s.runner.extra_python_path ≡ some s.stub_dir
  pub short : length sid ≡ 28

abbrev pub AllOwned : Text → Dict Text Session → Type 0
AllOwned root d = All (λ (e : Text × Session). Owned root e.0 e.1) d

pub record IsValid (m : SessionManager) : Type 0 where
  pub nodup : NodupKeys m.sessions
  pub bounded : length m.sessions ≤ m.max_sessions
  pub owned : AllOwned m.root m.sessions

insert-AllOwned :
    (root sid : Text) (s : Session) (d : Dict Text Session)
    → Owned root sid s
    → AllOwned root d
    → AllOwned root (insert sid s d)
unfolding insert
insert-AllOwned root sid s [] o h = (o, tt)
insert-AllOwned root sid s ((j, t) ∷ d) o h = elim (Bool-cases (j == sid)) [
  | inl e ↦ rw e (o, h.1)
  | inr e ↦ rw e (h.0, insert-AllOwned root sid s d o h.1)
]

erase-AllOwned :
    (root sid : Text) (d : Dict Text Session) → AllOwned root d → AllOwned root (erase sid d)
unfolding erase
erase-AllOwned root sid [] h = tt
erase-AllOwned root sid ((j, t) ∷ d) h = elim (Bool-cases (j == sid)) [
  | inl e ↦ rw e (erase-AllOwned root sid d h.1)
  | inr e ↦ rw e (h.0, erase-AllOwned root sid d h.1)
]

pub lookup-Owned :
    (root sid : Text) (s : Session) (d : Dict Text Session)
    → AllOwned root d
    → lookup sid d ≡ some s
    → Owned root sid s
unfolding lookup
lookup-Owned root sid s [] h e = cc
lookup-Owned root sid s ((j, t) ∷ d) h e = elim (Bool-cases (j == sid)) [
  | inl k ↦
      let same : t ≡ s = ground arith in
      let here : j ≡ sid = (text_eq.decides j sid).0 k in rw (sym here, sym same) h.0
  | inr k ↦ lookup-Owned root sid s d h.1 (ground arith)
]

new_session-Owned :
    (m : SessionManager) (defaults : Lifetimes) (idle life : Option ℤ) (f : Fresh)
    (limits : ResourceLimits)
    → length f.uuid_hex ≡ 32
    → Owned m.root (id_of f) (new_session m defaults idle life f limits)
new_session-Owned m defaults idle life f limits h = record {
  named = refl;
  workspace = refl;
  stubs = refl;
  runs_in = refl;
  imports_from = refl;
  short = omega (arith, length-take 24 f.uuid_hex);
}

-- `touch` keeps the identifier and the directories.
pub touch-Owned :
    (root sid : Text) (s : Session) (now : ℕ) → Owned root sid s → Owned root sid (touch s now)
unfolding touch
touch-Owned root sid s now o = record {
  named = o.named;
  workspace = o.workspace;
  stubs = o.stubs;
  runs_in = o.runs_in;
  imports_from = o.imports_from;
  short = o.short;
}

pub create-IsValid :
    (m : SessionManager) (defaults : Lifetimes) (idle life : Option ℤ) (f : Fresh)
    → length f.uuid_hex ≡ 32
    → IsValid m
    → IsValid (create m defaults idle life f).1
unfolding create
create-IsValid m defaults idle life f h v =
    elim (Bool-cases (leb m.max_sessions (length m.sessions))) [
      | inl full ↦ rw full v
      | inr room ↦ elim (Bool-cases f.workspace_made) [
        | inr ws ↦ rw (room, ws) v
        | inl ws ↦ elim (Bool-cases f.stub_made) [
          | inr st ↦
              rw (room, ws, st) record { nodup = v.nodup; bounded = v.bounded; owned = v.owned }
          | inl st ↦ elim (Option-cases f.limits) [
            | inl lim ↦
                rw (room, ws, st, lim)
                  record { nodup = v.nodup; bounded = v.bounded; owned = v.owned }
            | inr (limits, lim) ↦
                let s = new_session m defaults idle life f limits in
                rw (room, ws, st, lim)
                  record {
                    nodup = insert-NodupKeys (id_of f) s m.sessions v.nodup;
                    bounded = ground (arith, length-insert (id_of f) s m.sessions);
                    owned =
                        insert-AllOwned m.root (id_of f) s m.sessions
                          (new_session-Owned m defaults idle life f limits h) v.owned;
                  }
          ]
        ]
      ]
    ]

pub destroy-IsValid :
    (removable : Text → Bool) (sid : Text) (m : SessionManager)
    → IsValid m
    → IsValid (destroy removable sid m)
unfolding destroy
destroy-IsValid removable sid m v = elim (Option-cases (lookup sid m.sessions)) [
  | inl e ↦ rw (e, destroy) v
  | inr (s, e) ↦
      rw (e, destroy)
        record {
          nodup = erase-NodupKeys sid m.sessions v.nodup;
          bounded = omega (arith, v.bounded, length-erase sid m.sessions);
          owned = erase-AllOwned m.root sid m.sessions v.owned;
        }
]

pub destroy_all-IsValid :
    (removable : Text → Bool) (sids : List Text) (m : SessionManager)
    → IsValid m
    → IsValid (destroy_all removable sids m)
unfolding destroy_all
destroy_all-IsValid removable [] m v = v
destroy_all-IsValid removable (sid ∷ sids) m v =
    destroy_all-IsValid removable sids (destroy removable sid m) (destroy-IsValid removable sid m v)

-- A session of the manager that takes the place of another under its key.
pub insert-IsValid :
    (sid : Text) (s t : Session) (m : SessionManager)
    → lookup sid m.sessions ≡ some s
    → Owned m.root sid t
    → IsValid m
    → IsValid (record m { sessions = insert sid t m.sessions })
insert-IsValid sid s t m e o v = record {
  nodup = insert-NodupKeys sid t m.sessions v.nodup;
  bounded = omega (arith, v.bounded, length-insert_known sid t s m.sessions e);
  owned = insert-AllOwned m.root sid t m.sessions o v.owned;
}

pub touch_session-IsValid :
    (sid : Text) (now : ℕ) (m : SessionManager) → IsValid m → IsValid (touch_session sid now m)
unfolding touch_session get
touch_session-IsValid sid now m v = elim (Option-cases (lookup sid m.sessions)) [
  | inl e ↦ rw (e, touch_session) v
  | inr (s, e) ↦
      rw (e, touch_session)
        (insert-IsValid sid s (touch s now) m e
          (touch-Owned m.root sid s now (lookup-Owned m.root sid s m.sessions v.owned e)) v)
]
