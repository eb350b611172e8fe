-- ===== src/TextEditor/Confined.antt =====
-- What the commands of sandbox/text_editor.py can change on the disk.
use otari_sandbox_container.Base.{
  ◌≢◌, starts_with, starts_with-drop, append_assoc, drop, length, ◌≡◌, refl, ap, sym, ◌∙◌, Bool,
  true, false, Option, none, some, List, [], ◌∷◌, ◌++◌, if◌then◌else◌, Text, codes, Bytes, ◌==◌,
  text_eq, arith, Bool-cases, Option-cases, inl, inr,
}
use otari_sandbox_container.Base.Dict.{lookup, insert, lookup-insert}
use otari_sandbox_container.Utf8.Codec.{encode}
use otari_sandbox_container.Sessions.{parent}
use otari_sandbox_container.Workspace.{
  Disk, Host, Exception, Reply, ok, raise, ◌>>=◌, is_file, is_under, resolved, contained, joined,
  Unresolved, null_character, link_loop, value_error, runtime_error, resolve, make_parents,
  add_dirs, ancestors, any_file, write_bytes, write_text,
}
use otari_sandbox_container.RunnerPool.{ExecOutcome}
use otari_sandbox_container.TextEditor.{
  TextEditorInput, Editor, Edit, attempt, written, push_undo, commit, str_replace_edit, insert_edit,
  handle_create, handle_str_replace, handle_insert, handle_undo, run_text_editor, dispatch, failed,
  caught,
}

-- A property of what a step gives, where it does not raise.
abbrev pub Yields : {A : Type 0} → (A → Type 0) → Reply A → Type 0
Yields P (ok a) = P a
Yields P (raise x) = Unit

pub bind-Yields :
    {A B : Type 0} (P : B → Type 0) (r : Reply A) (f : A → Reply B)
    → ((a : A) → r ≡ ok a → Yields P (f a))
    → Yields P (r >>= f)
unfolding ◌>>=◌
bind-Yields P (ok a) f h = h a refl
bind-Yields P (raise x) f h = tt

pub if-ok :
    {A : Type 0} (b : Bool) (a c : A) (x : Exception)
    → (if b then ok a else raise x) ≡ ok c
    → (b ≡ true) × (a ≡ c)
if-ok true a c x h = (refl, cc)
if-ok false a c x h = cc

bind-ok :
    {A B : Type 0} (r : Reply A) (f : A → Reply B) (b : B)
    → (r >>= f) ≡ ok b
    → (a : A) × (r ≡ ok a) × (f a ≡ ok b)
unfolding ◌>>=◌
bind-ok (ok a) f b h = (a, refl, h)
bind-ok (raise x) f b h = cc

resolved-ok : (host : Host) (p t : Text) → resolved host p ≡ ok t → t ≡ host.realpath p
resolved-ok host p t h = of_reason (host.unresolved p) h
  where
    of_reason :
        (u : Option Unresolved)
        → (elim u [
          | none ↦ ok (host.realpath p)
          | some (null_character message) ↦ raise (value_error message)
          | some link_loop ↦ raise runtime_error
        ])
          ≡ ok t
        → t ≡ host.realpath p
    of_reason none h = cc
    of_reason (some (null_character message)) h = cc
    of_reason (some link_loop) h = cc

contained-ok :
    (path root candidate t : Text) → contained path root candidate ≡ ok t → is_under root t ≡ true
contained-ok path root candidate t h =
    let (u, e) = if-ok _ _ t _ h in ap (is_under root) (sym e) ∙ u

pub resolve-IsUnder :
    (host : Host) (path root t : Text)
    → resolve host path root ≡ ok t
    → is_under (host.realpath root) t ≡ true
unfolding resolve
resolve-IsUnder host path root t h =
    let (r, from, rest) = bind-ok (resolved host root) _ t h in
    let (c, joint, last) = bind-ok (resolved host (joined r path)) _ t rest in
    ap (λ q. is_under q t) (sym (resolved-ok host root r from)) ∙ contained-ok path r c t last

pub write_bytes-other :
    (host : Host) (t j : Text) (bs : Bytes) (k : Disk)
    → (t == j) ≡ false
    → lookup j (write_bytes host t bs k).1.files ≡ lookup j k.files
unfolding write_bytes
write_bytes-other host t j bs k h = ground (arith, lookup-insert j t bs k.files)

pub write_text-other :
    (host : Host) (t j s : Text) (k : Disk)
    → (t == j) ≡ false
    → lookup j (write_text host t s k).1.files ≡ lookup j k.files
unfolding write_text
write_text-other host t j s k h = elim (Option-cases (encode s)) [
  | inl e ↦ rw (e, write_text) (write_bytes-other host t j [] k h)
  | inr (bs, e) ↦ rw (e, write_text) (write_bytes-other host t j bs k h)
]

abbrev Keeps : Text → Editor → Reply ExecOutcome × Editor → Type 0
Keeps j e z = lookup j z.1.disk.files ≡ lookup j e.disk.files

attempt-Keeps :
    {A : Type 0} (j : Text) (r : Reply A) (f : A → Reply ExecOutcome × Editor) (e : Editor)
    → Yields (λ a. Keeps j e (f a)) r
    → Keeps j e (attempt r f e)
attempt-Keeps j (ok a) f e h = h
attempt-Keeps j (raise x) f e h = refl

pub add_dirs-files : (ds : List Text) (k : Disk) → (add_dirs ds k).files ≡ k.files
add_dirs-files [] k = refl
add_dirs-files (d ∷ ds) k = ground (arith, add_dirs-files ds k)

pub make_parents-files :
    (host : Host) (t : Text) (k k' : Disk) → make_parents host t k ≡ ok k' → k'.files ≡ k.files
unfolding make_parents
make_parents-files host t k k' h = elim (Bool-cases (is_file k (parent t))) [
  | inl e ↦ absurd (ground arith)
  | inr e ↦ elim (Bool-cases (any_file k (ancestors [] t))) [
    | inl e' ↦ absurd (ground arith)
    | inr e' ↦ ground (arith, add_dirs-files (ancestors [] t) k)
  ]
]

-- The file that an edit writes is one that the path resolves to.
pub str_replace_edit-resolve :
    (host : Host) (root : Text) (req : TextEditorInput) (k : Disk)
    → Yields (λ p. resolve host req.path root ≡ ok p.target) (str_replace_edit host root req k)
unfolding str_replace_edit
str_replace_edit-resolve host root req k =
    let P : Edit → Type 0 = λ p. resolve host req.path root ≡ ok p.target in
    bind-Yields P _ _ (λ old h. bind-Yields P _ _ (λ new h. bind-Yields P _ _ (λ t r.
      bind-Yields P _ _ (λ u h.
        bind-Yields P _ _ (λ text h. bind-Yields P _ _ (λ u h. bind-Yields P _ _ (λ u h. r)))))))

pub insert_edit-resolve :
    (host : Host) (root : Text) (req : TextEditorInput) (k : Disk)
    → Yields (λ p. resolve host req.path root ≡ ok p.target) (insert_edit host root req k)
unfolding insert_edit
insert_edit-resolve host root req k =
    let P : Edit → Type 0 = λ p. resolve host req.path root ≡ ok p.target in
    bind-Yields P _ _ (λ new h. bind-Yields P _ _ (λ line h. bind-Yields P _ _ (λ t r.
      bind-Yields P _ _ (λ u h. bind-Yields P _ _ (λ text h. bind-Yields P _ _ (λ n h. r))))))

pub weaken-Yields :
    {A : Type 0} (P Q : A → Type 0) (r : Reply A) → ((a : A) → P a → Q a) → Yields P r → Yields Q r
weaken-Yields P Q (ok a) f h = f a h
weaken-Yields P Q (raise x) f h = tt

-- A path that is neither the root nor below it.
abbrev pub IsOutside : Text → Text → Type 0
IsOutside root j = (j ≢ root) × ((q : Text) → j ≢ root ++ (codes "/" ++ q))

pub outside-is_under : (root j : Text) → IsOutside root j → is_under root j ≢ true
unfolding is_under
outside-is_under root j (apart, below) inside = elim (Bool-cases (j == root)) [
  | inl e ↦ apart ((text_eq.decides j root).0 e)
  | inr e ↦
      let starts : starts_with j (root ++ codes "/") ≡ true = ground arith in
      let rest = drop (length (root ++ codes "/")) j in
      below rest
        (starts_with-drop j (root ++ codes "/") starts ∙ append_assoc root (codes "/") rest)
]

pub inside-other : (root t j : Text) → IsOutside root j → is_under root t ≡ true → (t == j) ≡ false
inside-other root t j outside inside = elim (Bool-cases (t == j)) [
  | inr e ↦ e
  | inl e ↦ absurd (
      outside-is_under root j outside
        (ap (is_under root) (sym ((text_eq.decides t j).0 e)) ∙ inside))
]

module _ (host : Host) (root : Text) (j : Text) (outside : IsOutside (host.realpath root) j) where
  resolved-other : (path t : Text) → resolve host path root ≡ ok t → (t == j) ≡ false
  resolved-other path t r =
      inside-other (host.realpath root) t j outside (resolve-IsUnder host path root t r)

  written-Keeps :
      (e e₀ : Editor) (path t s message : Text)
      → resolve host path root ≡ ok t
      → e.disk.files ≡ e₀.disk.files
      → Keeps j e₀ (written host t s message e)
  unfolding written
  written-Keeps e e₀ path t s message r same =
      write_text-other host t j s e.disk (resolved-other path t r) ∙ ap (lookup j) same

  commit-Keeps :
      (message : Text) (req : TextEditorInput) (e : Editor) (r : Reply Edit)
      → Yields (λ p. resolve host req.path root ≡ ok p.target) r
      → Keeps j e (attempt r (commit host message e) e)
  unfolding commit push_undo
  commit-Keeps message req e r h = attempt-Keeps j r (commit host message e) e (
      weaken-Yields _ _ r
        (λ p h.
          written-Keeps (push_undo p.target p.previous e) e req.path p.target p.text message h refl)
        h)

  handle_create-Keeps :
      (req : TextEditorInput) (e : Editor) → Keeps j e (handle_create host root req e)
  unfolding handle_create
  handle_create-Keeps req e = attempt-Keeps j _ _ e (
      bind-Yields _ _ _ (λ text h. bind-Yields _ _ _ (λ t r. bind-Yields _ _ _ (λ u h.
        bind-Yields _ _ _ (λ k h.
          written-Keeps (record e { disk = k }) e req.path t text _ r
            (make_parents-files host t e.disk k h))))))

  handle_undo-Keeps : (req : TextEditorInput) (e : Editor) → Keeps j e (handle_undo host root req e)
  unfolding handle_undo
  handle_undo-Keeps req e = attempt-Keeps j _ _ e (
      bind-Yields _ _ _ (λ t r. bind-Yields _ _ _ (λ p h.
        written-Keeps (record e { undo_stack = insert t p.1 e.undo_stack }) e req.path t p.0 _ r
          refl)))

  abbrev KeepsAll : Editor → Option (Reply ExecOutcome × Editor) → Type 0
  KeepsAll e none = Unit
  KeepsAll e (some z) = Keeps j e z

  dispatch-Keeps : (req : TextEditorInput) (e : Editor) → KeepsAll e (dispatch host root req e)
  unfolding handle_str_replace handle_insert
  dispatch-Keeps req e = on (req.command == codes "view") _ _ refl (
      on (req.command == codes "create") _ _ (handle_create-Keeps req e) (
        on (req.command == codes "str_replace") _ _
          (commit-Keeps _ req e _ (str_replace_edit-resolve host root req e.disk))
          (on (req.command == codes "insert") _ _
            (commit-Keeps _ req e _ (insert_edit-resolve host root req e.disk))
            (on (req.command == codes "undo_edit") _ _ (handle_undo-Keeps req e) tt))))
    where
      on :
          (b : Bool) (x y : Option (Reply ExecOutcome × Editor))
          → KeepsAll e x
          → KeepsAll e y
          → KeepsAll e (if b then x else y)
      on true x y p q = p
      on false x y p q = q

  -- Whatever the command, its arguments and its result: a file that is neither the resolved
  -- workspace nor below it is as it was.
  pub run_text_editor-Keeps :
      (req : TextEditorInput) (e : Editor)
      → lookup j (run_text_editor host root req e).1.disk.files ≡ lookup j e.disk.files
  unfolding run_text_editor
  run_text_editor-Keeps req e = of_all (dispatch host root req e) (dispatch-Keeps req e)
    where
      of_all :
          (d : Option (Reply ExecOutcome × Editor))
          → KeepsAll e d
          → (let z : Reply ExecOutcome × Editor = elim d [
            | none ↦ (ok (failed (codes "unknown command " ++ req.command)), e)
            | some (r, e') ↦ (caught r, e')
          ] in
              lookup j z.1.disk.files)
            ≡ lookup j e.disk.files
      of_all none h = refl
      of_all (some z) h = h
