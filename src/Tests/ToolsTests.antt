-- ===== src/Tests/ToolsTests.antt =====
-- Runs of the definitions for sandbox/platform_tools.py.
use otari_sandbox_container.Base.{
  ◌++◌, some, pos, drop, length, arith, ◌≡◌, ◌↔◌, refl, Bool, none, [], ◌∷◌, All, false, Text,
  codes, ◌==◌, text_eq,
}
use otari_sandbox_container.PlatformTools.{
  ProgrammaticTool, validate_tool_names, validate_from, is_valid_name, matches_rest,
}
use otari_sandbox_container.PlatformTools.Names.{IsName, Distinct, validate_tool_names_iff}
use otari_sandbox_container.PlatformTools.Lexer.{read_literal}
use otari_sandbox_container.PlatformTools.Literals.{json_dumps, read_literal-json_dumps_astral}
use otari_sandbox_container.PlatformTools.Render.{
  filled, StubConfig, source, generate_module_source, generate_module_source-literals, render_tool,
}
use otari_sandbox_container.Base.Dict.{lookup}
use otari_sandbox_container.Repr.{hex}
use otari_sandbox_container.Decimal.{show_int, show_nat}
use otari_sandbox_container.Utf8.Codec.{encode_chars}
use otari_sandbox_container.Sessions.{parent}
use otari_sandbox_container.Workspace.{Disk, ok, is_dir, is_file, make_parents}
use otari_sandbox_container.TextEditor.Strings.{join_with}
use otari_sandbox_container.PlatformTools.Install.{
  install_stubs, clear_stubs, clear_stubs-install_stubs,
}
use otari_sandbox_container.Tests.EditorTests.{plain_host}
use otari_sandbox_container.PlatformTools.Template.{module_head, module_middle}
use otari_sandbox_container.Tests.RunnerTests.{ascii_printable}

abbrev is_def : Text → Bool
is_def s = s == codes "def"

abbrev tool : Text → ProgrammaticTool
tool name = record { name = name; doc = [] }

validate_tool_names_iff_example :
    (validate_tool_names ascii_printable is_def
        (tool (codes "gmail_list") ∷ tool (codes "post2\n") ∷ [])
      ≡ none)
    ↔ (All
          (λ t. IsName t.name × (is_def t.name ≡ false))
          (tool (codes "gmail_list") ∷ tool (codes "post2\n") ∷ [])
        × Distinct (tool (codes "gmail_list") ∷ tool (codes "post2\n") ∷ []))
validate_tool_names_iff_example =
    validate_tool_names_iff ascii_printable is_def
      (tool (codes "gmail_list") ∷ tool (codes "post2\n") ∷ [])

-- A name with a newline behind it is accepted.
newline_accepted : validate_tool_names ascii_printable is_def (tool (codes "post2\n") ∷ []) ≡ none
unfolding validate_tool_names validate_from is_valid_name matches_rest text_eq
newline_accepted = refl

abbrev documented : ProgrammaticTool
documented = record { name = codes "post"; doc = codes "Say \"hé\"\n" }

abbrev config : StubConfig
config = record {
  callback_url = codes "http://a";
  token = codes "t\"x";
  tools = tool (codes "post") ∷ [];
  timeout_seconds = pos 300;
}

generate_module_source-literals_example :
    (text : Text) × (generate_module_source ascii_printable is_def config ≡ source text)
    × ((after : Text) × (read_literal (drop (length module_head) text)
          ≡ some (codes "http://a", codes "\n_TOKEN = " ++ after))
        × ((rest : Text) × (read_literal after
              ≡ some (codes "t\"x", codes "\n_TIMEOUT = " ++ rest))))
unfolding validate_tool_names validate_from is_valid_name matches_rest text_eq
generate_module_source-literals_example =
    generate_module_source-literals ascii_printable is_def config refl refl refl refl refl

-- A character past 0xFFFF.
smile_literal : read_literal (json_dumps (0x1F600 ∷ []) ++ []) ≡ some (0xD83D ∷ 0xDE00 ∷ [], [])
smile_literal = read_literal-json_dumps_astral 0x1F600 [] (omega arith) (omega arith)

abbrev stub_target : Text
stub_target = codes "/s/lib/_platform_tools.py"

abbrev empty_disk : Disk
empty_disk = record { files = []; dirs = codes "/s/lib" ∷ codes "/s" ∷ [] }

clear_stubs-install_stubs_example :
    let (r, installed) =
      install_stubs ascii_printable is_def plain_host config (codes "/s/lib") empty_disk in
    let (r', cleared) = clear_stubs plain_host (codes "/s/lib") installed in
    (r ≡ ok stub_target)
    × (lookup stub_target installed.files ≡ some (encode_chars (filled config)))
    × (r' ≡ ok tt)
    × (lookup stub_target cleared.files ≡ none)
unfolding generate_module_source validate_tool_names validate_from is_valid_name matches_rest
    text_eq make_parents is_file is_dir parent lookup module_head module_middle render_tool
    json_dumps show_int show_nat join_with hex
clear_stubs-install_stubs_example =
    clear_stubs-install_stubs ascii_printable is_def plain_host config (codes "/s/lib")
      (filled config) stub_target empty_disk empty_disk refl refl refl refl refl refl
