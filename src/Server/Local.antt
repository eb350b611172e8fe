-- ===== src/Server/Local.antt =====
-- What a handler of sandbox/exec_server.py changes in the manager: the session that it is called for.
use otari_sandbox_container.Base.{
  ℕ, ◌≡◌, refl, ap, sym, ◌∙◌, Bool, true, false, Option, none, some, if◌then◌else◌, Text, ◌==◌,
  text_eq, arith, Bool-cases, Option-cases, inl, inr, option_both,
}
use otari_sandbox_container.Base.Dict.{lookup-insert}
use otari_sandbox_container.Utf8.Codec.{encode}
use otari_sandbox_container.RunnerPool.{
  RunnerProcess, Proc, start, ReadEnd, done, died, overran, pending, read_until_done, initial_read,
}
use otari_sandbox_container.RunnerPool.Execute.{Exchange, execute, conclude, drain_partial_stdout}
use otari_sandbox_container.Sessions.{Session, touch, get, touch_session}
use otari_sandbox_container.Sessions.Lookup.{get-touch_session, get-destroy}
use otari_sandbox_container.Sessions.Invariant.{
  Owned, IsValid, lookup-Owned, insert-IsValid, touch_session-IsValid, destroy-IsValid,
}
use otari_sandbox_container.Server.{
  Server, Outside, Response, http_error, message, put_session, with_session, destroyed, abandoned,
  given_process, started,
}

-- The identifier and the directories of a session.
pub record SameHome (x y : Session) : Type 0 where
  pub session_id : y.session_id ≡ x.session_id
  pub workspace_dir : y.workspace_dir ≡ x.workspace_dir
  pub stub_dir : y.stub_dir ≡ x.stub_dir
  pub runs_in : y.runner.workspace ≡ x.runner.workspace
  pub imports_from : y.runner.extra_python_path ≡ x.runner.extra_python_path

SameHome-Owned :
    (root sid : Text) (x y : Session) → SameHome x y → Owned root sid x → Owned root sid y
SameHome-Owned root sid x y h o = record {
  named = h.session_id ∙ o.named;
  workspace = h.workspace_dir ∙ o.workspace;
  stubs = h.stub_dir ∙ o.stubs;
  runs_in = h.runs_in ∙ (o.runs_in ∙ sym h.workspace_dir);
  imports_from = h.imports_from ∙ (o.imports_from ∙ ap some (sym h.stub_dir));
  short = o.short;
}

-- The invariant is kept, and every other session is found as it was.
pub record IsLocal (sid : Text) (s t : Server) : Type 0 where
  pub valid : IsValid s.manager → IsValid t.manager
  pub others : (j : Text) → (sid == j) ≡ false → get j t.manager ≡ get j s.manager

pub IsLocal-same : (sid : Text) (s t : Server) → t.manager ≡ s.manager → IsLocal sid s t
IsLocal-same sid s t e = record { valid = λ v. rw e v; others = λ j h. ap (get j) e }

pub IsLocal-then :
    (sid : Text) (s t u : Server) → IsLocal sid s t → IsLocal sid t u → IsLocal sid s u
IsLocal-then sid s t u a b = record {
  valid = λ v. b.valid (a.valid v);
  others = λ j h. b.others j h ∙ a.others j h;
}

pub put_session-IsLocal :
    (sid : Text) (x y : Session) (s : Server)
    → get sid s.manager ≡ some x
    → SameHome x y
    → IsLocal sid s (put_session sid y s)
unfolding get
put_session-IsLocal sid x y s found same = record {
  valid = λ v.
      insert-IsValid sid x y s.manager found
        (SameHome-Owned s.manager.root sid x y same
          (lookup-Owned s.manager.root sid x s.manager.sessions v.owned found))
        v;
  others = λ j h. ground (arith, lookup-insert j sid y s.manager.sessions);
}

-- The server once `session.touch()` has run.
abbrev pub touched : Outside → Text → Server → Server
touched o sid s = record s { manager = touch_session sid o.now s.manager }

pub touched-IsLocal : (o : Outside) (sid : Text) (s : Server) → IsLocal sid s (touched o sid s)
touched-IsLocal o sid s = record {
  valid = touch_session-IsValid sid o.now s.manager;
  others = λ j h. ground (arith, get-touch_session sid j o.now s.manager);
}

pub get-touched :
    (o : Outside) (sid : Text) (x : Session) (s : Server)
    → get sid s.manager ≡ some x
    → get sid (touched o sid s).manager ≡ some (touch x o.now)
get-touched o sid x s e =
    ground (arith, get-touch_session sid sid o.now s.manager, text_eq.decides sid sid)

pub destroyed-IsLocal :
    (removable : Text → Bool) (sid : Text) (s : Server) → IsLocal sid s (destroyed removable sid s)
destroyed-IsLocal removable sid s = record {
  valid = destroy-IsValid removable sid s.manager;
  others = λ j h. ground (arith, get-destroy removable sid j s.manager);
}

-- The two cases of a handler of a session.
pub with_session_both :
    {A : Type 0} (P : A × Server → Type 0) (absent : Response → A) (o : Outside) (sid : Text)
    (body : Session → Server → A × Server) (s : Server)
    → (get sid s.manager ≡ none → P (absent (http_error 404 (message sid)), s))
    → ((x : Session) → get sid s.manager ≡ some x → P (body (touch x o.now) (touched o sid s)))
    → P (with_session absent o sid body s)
unfolding with_session
with_session_both P absent o sid body s h k = option_both P (get sid s.manager) _ _ h k

-- A handler of a session is given the session that the manager then holds.
pub with_session-IsLocal :
    {A : Type 0} (absent : Response → A) (o : Outside) (sid : Text)
    (body : Session → Server → A × Server) (s : Server)
    → ((x : Session) (t : Server) → get sid t.manager ≡ some x → IsLocal sid t (body x t).1)
    → IsLocal sid s (with_session absent o sid body s).1
with_session-IsLocal absent o sid body s h =
    with_session_both (λ z. IsLocal sid s z.1) absent o sid body s (λ e. IsLocal-same sid s s refl)
      (λ x e.
        IsLocal-then sid s (touched o sid s) _ (touched-IsLocal o sid s)
          (h (touch x o.now) (touched o sid s) (get-touched o sid x s e)))

-- The directories of a runner.
pub record SameRunner (r r' : RunnerProcess) : Type 0 where
  pub workspace : r'.workspace ≡ r.workspace
  pub extra_python_path : r'.extra_python_path ≡ r.extra_python_path

SameRunner-refl : (r : RunnerProcess) → SameRunner r r
SameRunner-refl r = record { workspace = refl; extra_python_path = refl }

with_proc : (r : RunnerProcess) (p : Option Proc) → SameRunner r (record r { proc = p })
with_proc r p = record { workspace = refl; extra_python_path = refl }

if-SameRunner :
    (b : Bool) (r r' : RunnerProcess) → SameRunner r r' → SameRunner r (if b then r else r')
if-SameRunner true r r' h = SameRunner-refl r
if-SameRunner false r r' h = h

start-SameRunner : (r : RunnerProcess) (p : Proc) → SameRunner r (start r p)
unfolding start
start-SameRunner r p = if-SameRunner _ r _ (with_proc r (some p))

conclude-SameRunner :
    (r : RunnerProcess) (timeout_seconds : ℕ) (x : Exchange) (e : ReadEnd)
    → SameRunner r (conclude r timeout_seconds x e).1
unfolding conclude
conclude-SameRunner r timeout_seconds x (done o) = SameRunner-refl r
conclude-SameRunner r timeout_seconds x (died out err) = with_proc r none
conclude-SameRunner r timeout_seconds x overran = SameRunner-refl r
conclude-SameRunner r timeout_seconds x pending =
    elim (Option-cases (drain_partial_stdout r.proc x.drained)) [
      | inl e ↦ rw (e, conclude) (SameRunner-refl r)
      | inr (text, e) ↦ rw (e, conclude) (with_proc r none)
    ]

SameRunner-trans : (a b c : RunnerProcess) → SameRunner a b → SameRunner b c → SameRunner a c
SameRunner-trans a b c h k = record {
  workspace = k.workspace ∙ h.workspace;
  extra_python_path = k.extra_python_path ∙ h.extra_python_path;
}

pub execute-SameRunner :
    (r : RunnerProcess) (code : Text) (timeout_seconds : ℕ) (x : Exchange)
    → SameRunner r (execute r code timeout_seconds x).1
unfolding execute conclude
execute-SameRunner r code timeout_seconds x =
    let r' = start r x.spawned in
    SameRunner-trans r r' _ (start-SameRunner r x.spawned) (elim (Option-cases (encode code)) [
      | inl e ↦ rw (e, execute) (SameRunner-refl r')
      | inr (payload, e) ↦ elim (Bool-cases x.send_ok) [
        | inl ok ↦
            rw (e, ok, execute)
              (conclude-SameRunner r' timeout_seconds x (read_until_done initial_read x.events).0)
        | inr ok ↦ rw (e, ok, execute) (with_proc r' none)
      ]
    ])

pub with_runner-SameHome :
    (x : Session) (r : RunnerProcess) → SameRunner x.runner r → SameHome x (record x { runner = r })
with_runner-SameHome x r h = record {
  session_id = refl;
  workspace_dir = refl;
  stub_dir = refl;
  runs_in = h.workspace;
  imports_from = h.extra_python_path;
}

pub started-IsLocal :
    (o : Outside) (x : Session) (s : Server) → IsLocal x.session_id s (started o x s).1
started-IsLocal o x s =
    option_both P o.spawned _ _ (λ e. IsLocal-same x.session_id s s refl)
      (λ p e.
        option_both P (get x.session_id s.manager) _ _ (λ q. IsLocal-same x.session_id s _ refl)
          (λ y q.
            let t : Server = record s { orphans = abandoned y.runner s.orphans } in
            IsLocal-then x.session_id s t _ (IsLocal-same x.session_id s t refl) (
              put_session-IsLocal x.session_id y (given_process y p) t q
                (with_runner-SameHome y (given_process y p).runner (with_proc y.runner (some p))))))
  where
    P : Response × Server → Type 0
    P z = IsLocal x.session_id s z.1
