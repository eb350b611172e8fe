-- ===== src/PlatformTools.antt =====
-- sandbox/platform_tools.py: the check of the names of the tools that a stub module is made for. Which
-- words Python reserves is the argument `is_keyword`.
pub mod Names
pub mod Lexer
pub mod Literals
pub mod Template
pub mod Render
pub mod Install
use otari_sandbox_container.Base.{
  ℕ, ◌≡◌, Bool, true, false, ◌&&◌, ◌||◌, Option, none, some, List, [], ◌∷◌, ◌++◌, if◌then◌else◌,
  leb, nat_beq, Text, codes, length, ◌==◌, nat_eq, text_eq,
}
use otari_sandbox_container.Repr.{repr}

pub record ProgrammaticTool : Type 0 where
  pub name : Text
  pub doc : Text

-- `[A-Za-z_]` and `[A-Za-z0-9_]`
abbrev pub is_first : ℕ → Bool
is_first c = (leb 65 c && leb c 90) || (leb 97 c && leb c 122) || nat_beq c 95

abbrev pub is_word : ℕ → Bool
is_word c = is_first c || (leb 48 c && leb c 57)

-- `[A-Za-z0-9_]*$`, where `$` is the end of the text, or a newline at its end.
unfoldable pub matches_rest : Text → Bool
matches_rest [] = true
matches_rest (c ∷ s) =
    let rest = matches_rest s in if is_word c then rest else nat_beq c 10 && (length s == 0)

-- `_VALID_NAME.match(name)`
unfoldable pub is_valid_name : Text → Bool
is_valid_name [] = false
is_valid_name (c ∷ s) = is_first c && matches_rest s

-- `name in seen`
abbrev pub is_in : Text → List Text → Bool
is_in name [] = false
is_in name (s ∷ seen) = s == name || is_in name seen

module _ (printable : ℕ → Bool) (is_keyword : Text → Bool) where
  -- The loop of `_validate_tool_names`: the text of the `ValueError`, or none.
  unfoldable pub validate_from : List Text → List ProgrammaticTool → Option Text
  validate_from seen [] = none
  validate_from seen (tool ∷ tools) =
      let rest = validate_from (tool.name ∷ seen) tools in
      if is_valid_name tool.name
      then (if is_keyword tool.name
          then some (codes "tool name shadows Python keyword: " ++ repr printable tool.name)
          else if is_in tool.name seen
          then some (codes "duplicate tool name: " ++ repr printable tool.name)
          else rest)
      else some (codes "invalid tool name: " ++ repr printable tool.name)

  -- `_validate_tool_names`
  unfoldable pub validate_tool_names : List ProgrammaticTool → Option Text
  validate_tool_names tools = validate_from [] tools
