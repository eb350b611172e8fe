-- ===== src/Workspace/Newlines.antt =====
-- Universal newlines in the texts of a workspace.
use otari_sandbox_container.Base.{◌≡◌, refl, false, [], ◌∷◌, Text, nat_eq, arith}
use otari_sandbox_container.Repr.{has_char}
use otari_sandbox_container.Workspace.{translate_newlines}

-- What is read has no carriage return.
pub translate_newlines-has_char : (s : Text) → has_char 13 (translate_newlines s) ≡ false
unfolding translate_newlines has_char
translate_newlines-has_char [] = refl
translate_newlines-has_char (c ∷ s) = ground (arith, translate_newlines-has_char s)

-- A text without one is read as it is.
pub translate_newlines-same : (s : Text) → has_char 13 s ≡ false → translate_newlines s ≡ s
unfolding translate_newlines has_char
translate_newlines-same [] h = refl
translate_newlines-same (c ∷ s) h = ground (arith, translate_newlines-same s)
