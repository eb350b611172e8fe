-- ===== src/Server/Ends.antt =====
-- The ends of a session in sandbox/exec_server.py: the rounds of the collector, and the deletion.
use otari_sandbox_container.Base.{
  ℕ, ◌≡◌, refl, ap, sym, ◌∙◌, Bool, true, false, ◌||◌, Option, none, some, List, [], ◌∷◌, ◌++◌,
  if◌then◌else◌, if_true, if_false, Bool-cases, inl, inr, Text, Bytes, codes, ◌==◌, text_eq, arith,
  append_assoc, starts_with,
}
use mathlib.Core.Path.{subst}
use otari_sandbox_container.Base.Dict.{Dict, lookup}
use otari_sandbox_container.Sessions.{Session, overdue, get, reap_idle, parent, path_join}
use otari_sandbox_container.Sessions.Invariant.{IsValid, Owned, lookup-Owned, destroy_all-IsValid}
use otari_sandbox_container.Sessions.Isolation.{IsDirOf}
use otari_sandbox_container.Server.Confined.{parent-join}
use otari_sandbox_container.Sessions.Lookup.{get-destroy}
use otari_sandbox_container.Sessions.Collector.{is_overdue, reap_idle_lem}
use otari_sandbox_container.Workspace.{Disk, is_under}
use otari_sandbox_container.Server.{
  Server, Outside, success, empty_body, files_outside, remove_tree, destroyed_disk, destroy_session,
}
use otari_sandbox_container.Server.Routes.{collect, gc_loop}
use otari_sandbox_container.Server.Lifecycle.{destroyed_all-manager}

collect-IsValid :
    (tick now : ℕ) (removable : Text → Bool) (s : Server)
    → IsValid s.manager
    → IsValid (collect tick removable now s).manager
unfolding collect
collect-IsValid tick now removable s v =
    let sids = overdue tick now s.manager.sessions in
    subst IsValid (sym (destroyed_all-manager removable sids s))
      (destroy_all-IsValid removable sids s.manager v)

pub get-collect :
    (tick now : ℕ) (removable : Text → Bool) (sid : Text) (s : Server)
    → IsValid s.manager
    → get sid (collect tick removable now s).manager ≡ elim (get sid s.manager) [
      | none ↦ none
      | some x ↦ if is_overdue tick now x then none else some x
    ]
unfolding collect reap_idle
get-collect tick now removable sid s v =
    ap (get sid) (destroyed_all-manager removable (overdue tick now s.manager.sessions) s)
    ∙ reap_idle_lem tick now removable sid s.manager v.nodup

-- Whether the session is overdue at one of the times.
abbrev pub ever_overdue : ℕ → Session → List ℕ → Bool
ever_overdue tick x [] = false
ever_overdue tick x (now ∷ times) =
    let rest = ever_overdue tick x times in is_overdue tick now x || rest

gc_loop-gone :
    (tick : ℕ) (removable : Text → Bool) (times : List ℕ) (sid : Text) (s : Server)
    → IsValid s.manager
    → get sid s.manager ≡ none
    → get sid (gc_loop tick removable times s).manager ≡ none
unfolding gc_loop
gc_loop-gone tick removable [] sid s v h = h
gc_loop-gone tick removable (now ∷ times) sid s v h =
    gc_loop-gone tick removable times sid (collect tick removable now s)
      (collect-IsValid tick now removable s v)
      (get-collect tick now removable sid s v
        ∙ ap
            (λ (o : Option Session). elim o [
              | none ↦ none
              | some x ↦ if is_overdue tick now x then none else some x
            ])
            h)

-- The collector over the times at which it wakes, in a server that keeps the invariant and gets no request
-- in between: a session is gone as soon as it is idle or expired at one of these times, and otherwise it is
-- found as it was.
pub gc_loop-get :
    (tick : ℕ) (removable : Text → Bool) (times : List ℕ) (sid : Text) (s : Server) (x : Session)
    → IsValid s.manager
    → get sid s.manager ≡ some x
    → get sid (gc_loop tick removable times s).manager
      ≡ (if ever_overdue tick x times then none else some x)
unfolding gc_loop
gc_loop-get tick removable [] sid s x v h = h
gc_loop-get tick removable (now ∷ times) sid s x v h =
    let t = collect tick removable now s in
    let v' = collect-IsValid tick now removable s v in
    let seen : get sid t.manager ≡ (if is_overdue tick now x then none else some x) =
      get-collect tick now removable sid s v
      ∙ ap
          (λ (o : Option Session). elim o [
            | none ↦ none
            | some x ↦ if is_overdue tick now x then none else some x
          ])
          h in
    elim (Bool-cases (is_overdue tick now x)) [
      | inl e ↦
          gc_loop-gone tick removable times sid t v' (seen ∙ if_true none (some x) e)
          ∙ sym (if_true none (some x) (ap (λ b. b || ever_overdue tick x times) e))
      | inr e ↦
          gc_loop-get tick removable times sid t x v' (seen ∙ if_false none (some x) e)
          ∙ ap (λ b. if b then none else some x) (sym (ap (λ b. b || ever_overdue tick x times) e))
    ]

remove_tree-inside :
    (dir j : Text) (files : Dict Text Bytes)
    → is_under dir j ≡ true
    → lookup j (files_outside dir files) ≡ none
unfolding lookup
remove_tree-inside dir j [] h = refl
remove_tree-inside dir j ((path, bs) ∷ files) h = elim (Bool-cases (path == j)) [
  | inl e ↦
      let same : path ≡ j = (text_eq.decides path j).0 e in
      let inside : is_under dir path ≡ true = ap (is_under dir) same ∙ h in
      ground (arith, remove_tree-inside dir j files)
  | inr e ↦ ground (arith, remove_tree-inside dir j files)
]

starts_with-append : (a b : Text) → starts_with (a ++ b) a ≡ true
unfolding starts_with
starts_with-append [] b = refl
starts_with-append (c ∷ a) b = ground (arith, starts_with-append a b)

is_under-append : (dir p : Text) → is_under dir (dir ++ (47 ∷ p)) ≡ true
unfolding is_under
is_under-append dir p =
    let starts : starts_with (dir ++ (47 ∷ p)) (dir ++ codes "/") ≡ true =
      ap (λ t. starts_with t (dir ++ codes "/")) (sym (append_assoc dir (codes "/") p))
      ∙ starts_with-append (dir ++ codes "/") p in
    ground (arith, starts)

in_tree :
    (root sid d p : Text) (x : Session)
    → Owned root sid x
    → IsDirOf d x
    → is_under (parent x.workspace_dir) (d ++ p) ≡ true
in_tree root sid d p x o dir =
    ap (λ w. is_under w (d ++ p))
      (ap parent o.workspace ∙ parent-join (path_join root sid) (codes "workspace") refl)
    ∙ of_dir dir
  where
    below :
        (name e : Text)
        → d ≡ e
        → e ≡ path_join (path_join root sid) name
        → is_under (path_join root sid) (d ++ p) ≡ true
    below name e h k =
        ap (λ w. is_under (path_join root sid) (w ++ p)) (h ∙ k)
        ∙ ap (is_under (path_join root sid))
            (append_assoc (path_join root sid) (codes "/" ++ name) p)
        ∙ is_under-append (path_join root sid) (name ++ p)

    of_dir : IsDirOf d x → is_under (path_join root sid) (d ++ p) ≡ true
    of_dir (inl h) = below (codes "workspace") x.workspace_dir h o.workspace
    of_dir (inr h) = below (codes "lib") x.stub_dir h o.stubs

-- The deletion of a known session, in a server that keeps the invariant, where the directory of the session
-- can be removed: the response is 204, the identifier is not found afterwards, and no file is left under
-- the workspace or the stub directory of the session.
pub destroy_session_lem :
    (o : Outside) (sid d p : Text) (s : Server) (x : Session)
    → IsValid s.manager
    → get sid s.manager ≡ some x
    → o.removable (parent x.workspace_dir) ≡ true
    → IsDirOf d x
    → let (response, t) = destroy_session o sid s in
      (response ≡ success 204 empty_body)
      × (get sid t.manager ≡ none)
      × (lookup (d ++ p) t.disk.files ≡ none)
unfolding destroy_session destroyed_disk remove_tree get
destroy_session_lem o sid d p s x v found removable dir =
    let own = lookup-Owned s.manager.root sid x s.manager.sessions v.owned found in
    (
      refl,
      get-destroy o.removable sid sid s.manager
          ∙ if_true none (get sid s.manager) ((text_eq.decides sid sid).1 refl),
      ap
            (λ (q : Option Session).
              let k : Disk = elim q [
                | none ↦ s.disk
                | some x ↦
                    if o.removable (parent x.workspace_dir)
                    then remove_tree (parent x.workspace_dir) s.disk
                    else s.disk
              ] in
              lookup (d ++ p) k.files)
            found
          ∙ ap
              (λ b.
                lookup (d ++ p)
                  (if b then remove_tree (parent x.workspace_dir) s.disk else s.disk).files)
              removable
          ∙ remove_tree-inside (parent x.workspace_dir) (d ++ p) s.disk.files
              (in_tree s.manager.root sid d p x own dir),
    )
