-- ===== src/Base/Texts.antt =====
-- Python's `str` as the list of its code points, and `bytes` as the list of its bytes.
use Prim.Native.Char.{code}
use Prim.Native.String.{String}
use Prim.Native.Nat.{ℕ}
use mathlib.Core.Path.{◌≡◌, refl}
use mathlib.Core.Logic.{◌↔◌}
use mathlib.Core.Bool.{Bool, true, false, ◌&&◌}
use mathlib.Core.List.{List, [], ◌∷◌, ◌++◌}
use native.Mathlib.Omega.{arith}
use otari_sandbox_container.Base.Tests.{nat_beq, Eq}
use otari_sandbox_container.Base.Lists.{length, drop}

abbrev pub Text : Type 0
Text = List ℕ

abbrev pub Bytes : Type 0
Bytes = List ℕ

-- The code points of a literal of the source.
abbrev pub codes : String → Text
codes String.[] = []
codes (String.◌∷◌ c s) = code c ∷ codes s

unfoldable pub text_beq : Text → Text → Bool
text_beq [] [] = true
text_beq [] (b ∷ t) = false
text_beq (a ∷ s) [] = false
text_beq (a ∷ s) (b ∷ t) = nat_beq a b && text_beq s t

pub text_beq_iff : (s t : Text) → (text_beq s t ≡ true) ↔ (s ≡ t)
unfolding text_beq
text_beq_iff [] [] = (λ h. refl, λ h. refl)
text_beq_iff [] (b ∷ t) = (λ h. cc, λ h. cc)
text_beq_iff (a ∷ s) [] = (λ h. cc, λ h. cc)
text_beq_iff (a ∷ s) (b ∷ t) = ground (arith, text_beq_iff s t)

instance unfoldable pub text_eq : Eq Text
unfolding text_beq
text_eq = record { equal = text_beq; decides = text_beq_iff }

-- `s.endswith("\n")`
abbrev pub ends_with_newline : Text → Bool
ends_with_newline [] = false
ends_with_newline (c ∷ []) = nat_beq c 10
ends_with_newline (c ∷ d ∷ s) = ends_with_newline (d ∷ s)

-- `s[:-1]`
abbrev pub drop_last {ℓ} : {A : Type ℓ} → List A → List A
drop_last [] = []
drop_last (c ∷ []) = []
drop_last (c ∷ d ∷ s) = c ∷ drop_last (d ∷ s)

-- `s.startswith(p)`
unfoldable pub starts_with : Text → Text → Bool
starts_with s [] = true
starts_with [] (b ∷ p) = false
starts_with (a ∷ s) (b ∷ p) = nat_beq a b && starts_with s p

-- A text that starts with another is that and the rest.
pub starts_with-drop : (s old : Text) → starts_with s old ≡ true → s ≡ old ++ drop (length old) s
unfolding starts_with
starts_with-drop s [] h = refl
starts_with-drop [] (b ∷ old) h = cc
starts_with-drop (a ∷ s) (b ∷ old) h = ground (arith, starts_with-drop s old)
