-- ===== src/Models/Validation.antt =====
-- What the validation of sandbox/models.py lets through.
use otari_sandbox_container.Base.{
  ℕ, ◌≤◌, ◌≡◌, refl, Option, none, some, Text, ℤ, pos, negsuc, length, arith,
}
use mathlib.Core.Path.{subst}
use otari_sandbox_container.Base.Dict.{Dict}
use otari_sandbox_container.Models.{
  Json, Pydantic, ◌>>=◌, has_length, in_bounds, CodeExecutionInput, code_execution_input,
  ExecRequest, exec_request,
}

-- A property of the value, where there is one.
abbrev Gives : {A : Type 0} → (A → Type 0) → Option A → Type 0
Gives P none = Unit
Gives P (some a) = P a

bind-Gives :
    {A B : Type 0} (P : B → Type 0) (m : Option A) (f : A → Option B)
    → ((a : A) → m ≡ some a → Gives P (f a))
    → Gives P (m >>= f)
unfolding ◌>>=◌
bind-Gives P none f h = tt
bind-Gives P (some a) f h = h a refl

given-some : {A : Type 0} (P : A → Type 0) (m : Option A) (a : A) → Gives P m → m ≡ some a → P a
given-some P m a h e = subst (Gives P) e h

has_length-bounds :
    (low high : ℕ) (s t : Text)
    → has_length low high s ≡ some t
    → (low ≤ length t) × (length t ≤ high)
unfolding has_length
has_length-bounds low high s t h = ground arith

in_bounds_lem :
    (low high : ℕ) (z : ℤ) (n : ℕ) → in_bounds low high z ≡ some n → (low ≤ n) × (n ≤ high)
unfolding in_bounds
in_bounds_lem low high (pos m) n h = ground arith
in_bounds_lem low high (negsuc m) n h = cc

pub code_execution_input-length :
    (p : Pydantic) (d : Dict Text Json) (parsed : CodeExecutionInput)
    → code_execution_input p d ≡ some parsed
    → (1 ≤ length parsed.code) × (length parsed.code ≤ 200000)
unfolding code_execution_input
code_execution_input-length p d parsed =
    given-some P _ parsed
      (bind-Gives P _ _ (λ s h. bind-Gives P _ _ (λ code h. has_length-bounds 1 200000 s code h)))
  where
    P : CodeExecutionInput → Type 0
    P i = (1 ≤ length i.code) × (length i.code ≤ 200000)

pub exec_request-timeout :
    (p : Pydantic) (d : Dict Text Json) (req : ExecRequest)
    → exec_request p d ≡ some req
    → (1 ≤ req.timeout_seconds) × (req.timeout_seconds ≤ 120)
unfolding exec_request
exec_request-timeout p d req = given-some P _ req (
    bind-Gives P _ _ (λ tool h. bind-Gives P _ _ (λ input h. bind-Gives P _ _ (λ z h.
      bind-Gives P _ _ (λ t bounds. bind-Gives P _ _ (λ name h. in_bounds_lem 1 120 z t bounds))))))
  where
    P : ExecRequest → Type 0
    P r = (1 ≤ r.timeout_seconds) × (r.timeout_seconds ≤ 120)
