-- ===== src/Server/Confined.antt =====
-- Which files the requests of sandbox/exec_server.py leave alone.
use otari_sandbox_container.Base.{
  ℕ, ◌≡◌, ◌≢◌, refl, ap, sym, ◌∙◌, Bool, true, false, [], ◌∷◌, ◌++◌, append_assoc, if◌then◌else◌,
  Bool-cases, inl, inr, leb, Text, Bytes, codes, length, ◌==◌, text_eq, arith,
}
use otari_sandbox_container.Base.Dict.{Dict, lookup}
use otari_sandbox_container.Sessions.{
  Session, SessionManager, has_slash, parent, path_join, Fresh, value_error, id_of,
}
use otari_sandbox_container.Sessions.Invariant.{Owned}
use otari_sandbox_container.Workspace.{
  Disk, Host, Reply, ok, raise, is_under, make_parents, ancestors,
}
use otari_sandbox_container.TextEditor.Confined.{
  IsOutside, outside-is_under, write_text-other, add_dirs-files, make_parents-files,
}
use otari_sandbox_container.PlatformTools.Render.{Generated, source, value_error, StubConfig}
use otari_sandbox_container.PlatformTools.Install.{
  stub_path, entry_path, install_stubs, in_directory,
}
use otari_sandbox_container.Server.{made, created_disk, files_outside, remove_tree}

-- A path that is not in the directory of an identifier.
abbrev pub IsFar : Text → Session → Text → Type 0
IsFar root x p = IsOutside (path_join root x.session_id) p

has_slash-join : (d name : Text) → has_slash (path_join d name) ≡ true
has_slash-join [] name = ground arith
has_slash-join (c ∷ d) name = ground (arith, has_slash-join d name)

pub parent-join : (d name : Text) → has_slash name ≡ false → parent (path_join d name) ≡ d
unfolding parent
parent-join [] name h = rw h refl
parent-join (c ∷ d) name h = rw (has_slash-join d name) (ap (λ r. c ∷ r) (parent-join d name h))

module _ (root sid p : Text) (x : Session) (o : Owned root sid x)
    (far : IsOutside (path_join root sid) p) where
  far-below : (name q : Text) → p ≢ path_join (path_join root sid) name ++ q
  far-below name q e =
      far.1 (name ++ q) (e ∙ append_assoc (path_join root sid) (codes "/" ++ name) q)

  pub far-workspace : IsOutside x.workspace_dir p
  far-workspace = (
    (λ e. far.1 (codes "workspace") (e ∙ o.workspace)),
    (λ q e.
        far-below (codes "workspace") (codes "/" ++ q)
          (e ∙ ap (λ w. w ++ (codes "/" ++ q)) o.workspace)),
  )

  pub far-stub : (stub_path x.stub_dir == p) ≡ false
  far-stub = elim (Bool-cases (stub_path x.stub_dir == p)) [
    | inr e ↦ e
    | inl e ↦ absurd (
        far-below (codes "lib") (codes "/_platform_tools.py") (
          sym ((text_eq.decides (stub_path x.stub_dir) p).0 e)
          ∙ ap (λ w. w ++ codes "/_platform_tools.py") o.stubs))
  ]

  pub far-tree : is_under (parent x.workspace_dir) p ≡ false
  far-tree = elim (Bool-cases (is_under (parent x.workspace_dir) p)) [
    | inr e ↦ e
    | inl e ↦ absurd (
        outside-is_under (path_join root sid) p far (
          ap (λ w. is_under w p)
            (sym
              (ap parent o.workspace ∙ parent-join (path_join root sid) (codes "workspace") refl))
          ∙ e))
  ]

pub install_stubs-other :
    (printable : ℕ → Bool) (is_keyword : Text → Bool) (host : Host) (config : StubConfig)
    (stub_dir j : Text) (k : Disk)
    → (host.realpath (stub_path stub_dir) == j) ≡ false
    → lookup j (install_stubs printable is_keyword host config stub_dir k).1.files
      ≡ lookup j k.files
unfolding install_stubs
install_stubs-other printable is_keyword host config stub_dir j k h = of_parents _ _ refl
  where
    of_parents :
        (g : Generated) (r : Reply Disk)
        → r ≡ make_parents host (entry_path host stub_dir) k
        → lookup j (in_directory host (stub_path stub_dir) k g r).1.files ≡ lookup j k.files
    of_parents g (raise x) e = refl
    of_parents (value_error m) (ok k') e =
        ap (lookup j) (make_parents-files host (entry_path host stub_dir) k k' (sym e))
    of_parents (source text) (ok k') e =
        write_text-other host (host.realpath (stub_path stub_dir)) j text k' h
        ∙ ap (lookup j) (make_parents-files host (entry_path host stub_dir) k k' (sym e))

made-files : (path : Text) (k : Disk) → (made path k).files ≡ k.files
made-files path k = add_dirs-files (ancestors [] (path ++ codes "/")) k

pub created_disk-files :
    (m : SessionManager) (f : Fresh) (k : Disk) → (created_disk m f k).files ≡ k.files
unfolding created_disk
created_disk-files m f k =
    of_tests (leb m.max_sessions (length m.sessions)) f.workspace_made f.stub_made
  where
    workspace : Text
    workspace = path_join (path_join m.root (id_of f)) (codes "workspace")

    lib : Text
    lib = path_join (path_join m.root (id_of f)) (codes "lib")

    of_tests :
        (full ws st : Bool)
        → (if full
            then k
            else if ws
            then (if st then made lib (made workspace k) else made workspace k)
            else k).files
          ≡ k.files
    of_tests true ws st = refl
    of_tests false false st = refl
    of_tests false true false = made-files workspace k
    of_tests false true true = made-files lib (made workspace k) ∙ made-files workspace k

pub remove_tree-other :
    (dir j : Text) (k : Disk)
    → is_under dir j ≡ false
    → lookup j (remove_tree dir k).files ≡ lookup j k.files
unfolding remove_tree lookup
remove_tree-other dir j k h = of_files k.files
  where
    of_files : (files : Dict Text Bytes) → lookup j (files_outside dir files) ≡ lookup j files
    of_files [] = refl
    of_files ((path, bs) ∷ files) = elim (Bool-cases (path == j)) [
      | inl e ↦
          let same : path ≡ j = (text_eq.decides path j).0 e in
          let out : is_under dir path ≡ false = ap (is_under dir) same ∙ h in
          ground (arith, of_files files)
      | inr e ↦ ground (arith, of_files files)
    ]
