-- ===== src/PlatformTools/Render.antt =====
-- The source of the stub module that sandbox/platform_tools.py generates.
use otari_sandbox_container.Base.{
  ℕ, ◌≡◌, refl, ap, ◌∙◌, Bool, true, false, none, some, List, [], ◌∷◌, ◌++◌, map, all_of,
  if◌then◌else◌, ltb, Text, codes, ℤ, length, drop, drop-append_self, ◌==◌, nat_eq,
}
use otari_sandbox_container.Decimal.{show_int}
use otari_sandbox_container.TextEditor.Strings.{join_with}
use otari_sandbox_container.PlatformTools.{ProgrammaticTool, validate_tool_names}
use otari_sandbox_container.PlatformTools.Lexer.{read_literal}
use otari_sandbox_container.PlatformTools.Literals.{json_dumps, read_literal-json_dumps}
use otari_sandbox_container.PlatformTools.Template.{module_head, module_middle}

-- `tool.doc or f"Programmatic tool {tool.name}."`
abbrev pub doc_of : ProgrammaticTool → Text
doc_of t = if length t.doc == 0 then codes "Programmatic tool " ++ (t.name ++ codes ".") else t.doc

-- `_TOOL_TEMPLATE` up to the documentation, and behind it.
abbrev pub tool_head : Text → Text
tool_head name = codes "def " ++ (name ++ codes "(**kwargs):\n    ")

abbrev pub tool_tail : Text → Text
tool_tail name = codes "\n    return _call(\"" ++ (name ++ codes "\", kwargs)")

-- `_render_tool`
unfoldable pub render_tool : ProgrammaticTool → Text
render_tool t = tool_head t.name ++ (json_dumps (doc_of t) ++ tool_tail t.name)

pub record StubConfig : Type 0 where
  pub callback_url : Text
  pub token : Text
  pub tools : List ProgrammaticTool
  pub timeout_seconds : ℤ

-- The source, or the text of the `ValueError`.
pub data Generated : Type 0 where
  source : Text → Generated
  value_error : Text → Generated

abbrev pub tool_defs : List ProgrammaticTool → Text
tool_defs [] = codes "# No tools registered."
tool_defs (t ∷ tools) = join_with (codes "\n\n") (map render_tool (t ∷ tools))

abbrev pub filled : StubConfig → Text
filled config =
    module_head
    ++ (json_dumps config.callback_url
        ++ (codes "\n_TOKEN = "
            ++ (json_dumps config.token
                ++ (codes "\n_TIMEOUT = "
                    ++ (show_int config.timeout_seconds
                        ++ (module_middle ++ (tool_defs config.tools ++ codes "\n")))))))

-- `generate_module_source`
unfoldable pub generate_module_source : (ℕ → Bool) → (Text → Bool) → StubConfig → Generated
generate_module_source printable is_keyword config =
    if length config.callback_url == 0
    then value_error (codes "callback_url must not be empty")
    else if length config.token == 0
    then value_error (codes "token must not be empty")
    else elim (validate_tool_names printable is_keyword config.tools) [
      | some message ↦ value_error message
      | none ↦ source (filled config)
    ]

-- Where the documentation of a tool has only code points below 0x10000, what stands in its definition
-- between the head and the call is one string literal with the documentation as its value.
pub render_tool-doc :
    (t : ProgrammaticTool)
    → all_of (λ c. ltb c 0x10000) (doc_of t) ≡ true
    → read_literal (drop (length (tool_head t.name)) (render_tool t))
      ≡ some (doc_of t, tool_tail t.name)
unfolding render_tool
render_tool-doc t h =
    ap read_literal
      (drop-append_self (tool_head t.name) (json_dumps (doc_of t) ++ tool_tail t.name))
    ∙ read_literal-json_dumps (doc_of t) (tool_tail t.name) h

-- Where the URL and the token are not empty and have only code points below 0x10000, and the names of
-- the tools are accepted, there is a source; what it assigns to the URL is one string literal with the
-- URL as its value, and what it assigns to the token behind that, one with the token as its value.
pub generate_module_source-literals :
    (printable : ℕ → Bool) (is_keyword : Text → Bool) (config : StubConfig)
    → (length config.callback_url == 0) ≡ false
    → (length config.token == 0) ≡ false
    → validate_tool_names printable is_keyword config.tools ≡ none
    → all_of (λ c. ltb c 0x10000) config.callback_url ≡ true
    → all_of (λ c. ltb c 0x10000) config.token ≡ true
    → (text : Text) × (generate_module_source printable is_keyword config ≡ source text)
      × ((after : Text) × (read_literal (drop (length module_head) text)
            ≡ some (config.callback_url, codes "\n_TOKEN = " ++ after))
          × ((rest : Text) × (read_literal after
                ≡ some (config.token, codes "\n_TIMEOUT = " ++ rest))))
unfolding generate_module_source
generate_module_source-literals printable is_keyword config url token names url_bmp token_bmp =
    let rest : Text =
      show_int config.timeout_seconds
      ++ (module_middle ++ (tool_defs config.tools ++ codes "\n")) in
    let after : Text = json_dumps config.token ++ (codes "\n_TIMEOUT = " ++ rest) in
    (
      filled config,
      rw (url, token, names, generate_module_source) refl,
      (
        after,
        ap read_literal (
              drop-append_self module_head
                (json_dumps config.callback_url ++ (codes "\n_TOKEN = " ++ after)))
            ∙ read_literal-json_dumps config.callback_url (codes "\n_TOKEN = " ++ after) url_bmp,
        (rest, read_literal-json_dumps config.token (codes "\n_TIMEOUT = " ++ rest) token_bmp),
      ),
    )
