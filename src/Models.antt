-- ===== src/Models.antt =====
-- sandbox/models.py: the bodies of requests and responses. A request body is JSON; how the validation
-- library reads a JSON value as a `str` or an `int` is the argument `Pydantic`.
pub mod Validation
use otari_sandbox_container.Base.{
  ℕ, ◌≡◌, Bool, true, false, ◌&&◌, ◌||◌, Option, none, some, List, [], ◌∷◌, if◌then◌else◌, leb,
  Text, codes, ℤ, pos, negsuc, length, ◌==◌, text_eq,
}
use otari_sandbox_container.Base.Dict.{Dict, lookup, insert}
use otari_sandbox_container.TextEditor.{TextEditorInput}

mutual
  -- A number is the text of its literal.
  pub data Json : Type 0 where
    null : Json
    boolean : Bool → Json
    number : Text → Json
    string : Text → Json
    array : Items → Json
    object : Members → Json

  pub data Items : Type 0 where
    no_items : Items
    item : Json → Items → Items

  pub data Members : Type 0 where
    no_members : Members
    member : Text → Json → Members → Members

abbrev add_members : Dict Text Json → Members → Dict Text Json
add_members d no_members = d
add_members d (member name v rest) = add_members (insert name v d) rest

-- An object as a dict: of equal names the last one counts.
unfoldable pub as_dict : Json → Option (Dict Text Json)
as_dict (object members) = some (add_members [] members)
as_dict v = none

pub record Pydantic : Type 0 where
  pub as_str : Json → Option Text
  pub as_int : Json → Option ℤ

infixl 5 ◌>>=◌
unfoldable pub ◌>>=◌ : {A B : Type 0} → Option A → (A → Option B) → Option B
none >>= f = none
some a >>= f = f a

-- A field without a default.
abbrev pub required : {A : Type 0} → (Json → Option A) → Text → Dict Text Json → Option A
required read name d = lookup name d >>= read

-- A field that may be absent.
abbrev pub defaulted : {A : Type 0} → (Json → Option A) → A → Text → Dict Text Json → Option A
defaulted read default name d = elim (lookup name d) [ none ↦ some default | some v ↦ read v ]

-- A value that may be null.
abbrev pub nullable : {A : Type 0} → (Json → Option A) → Json → Option (Option A)
nullable read null = some none
nullable read v = read v >>= λ a. some (some a)

-- A field that may be absent or null.
abbrev pub optional : {A : Type 0} → (Json → Option A) → Text → Dict Text Json → Option (Option A)
optional read name d = defaulted (nullable read) none name d

-- `min_length` and `max_length`
unfoldable pub has_length : ℕ → ℕ → Text → Option Text
has_length low high s = if leb low (length s) && leb (length s) high then some s else none

-- `ge` and `le`, for bounds that are not negative.
unfoldable pub in_bounds : ℕ → ℕ → ℤ → Option ℕ
in_bounds low high (pos n) = if leb low n && leb n high then some n else none
in_bounds low high (negsuc n) = none

-- `list[int]`
abbrev ints_of : Pydantic → Items → Option (List ℤ)
ints_of p no_items = some []
ints_of p (item v items) =
    let rest = ints_of p items in p.as_int v >>= λ n. rest >>= λ ns. some (n ∷ ns)

abbrev pub as_ints : Pydantic → Json → Option (List ℤ)
as_ints p (array items) = ints_of p items
as_ints p v = none

pub data ToolKind : Type 0 where
  code_execution bash_code_execution text_editor_code_execution : ToolKind

abbrev tool_kind : Json → Option ToolKind
tool_kind (string s) =
    if s == codes "code_execution"
    then some code_execution
    else if s == codes "bash_code_execution"
    then some bash_code_execution
    else if s == codes "text_editor_code_execution"
    then some text_editor_code_execution
    else none
tool_kind v = none

pub record CodeExecutionInput : Type 0 where
  pub code : Text

unfoldable pub code_execution_input : Pydantic → Dict Text Json → Option CodeExecutionInput
code_execution_input p d = do
  s ← required p.as_str (codes "code") d
  code ← has_length 1 200000 s
  some (record { code = code })

pub record BashExecutionInput : Type 0 where
  pub command : Text

unfoldable pub bash_execution_input : Pydantic → Dict Text Json → Option BashExecutionInput
bash_execution_input p d = do
  s ← required p.as_str (codes "command") d
  command ← has_length 1 200000 s
  some (record { command = command })

abbrev editor_command : Json → Option Text
editor_command (string s) =
    if s == codes "view"
      || s == codes "create"
      || s == codes "str_replace"
      || s == codes "insert"
      || s == codes "undo_edit"
    then some s
    else none
editor_command v = none

unfoldable pub text_editor_input : Pydantic → Dict Text Json → Option TextEditorInput
text_editor_input p d = do
  command ← required editor_command (codes "command") d
  path ← required p.as_str (codes "path") d
  file_text ← optional p.as_str (codes "file_text") d
  old_str ← optional p.as_str (codes "old_str") d
  new_str ← optional p.as_str (codes "new_str") d
  insert_line ← optional p.as_int (codes "insert_line") d
  view_range ← optional (as_ints p) (codes "view_range") d
  some (record {
    command = command;
    path = path;
    file_text = file_text;
    old_str = old_str;
    new_str = new_str;
    insert_line = insert_line;
    view_range = view_range;
  })

pub record ExecRequest : Type 0 where
  pub tool : ToolKind
  pub input : Dict Text Json
  pub timeout_seconds : ℕ
  pub tool_use_id : Option Text

-- The body of `POST /exec`.
unfoldable pub exec_request : Pydantic → Dict Text Json → Option ExecRequest
exec_request p d = do
  tool ← required tool_kind (codes "tool") d
  input ← required as_dict (codes "input") d
  timeout ← defaulted p.as_int (pos 30) (codes "timeout_seconds") d
  timeout_seconds ← in_bounds 1 120 timeout
  tool_use_id ← optional p.as_str (codes "tool_use_id") d
  some (record {
    tool = tool;
    input = input;
    timeout_seconds = timeout_seconds;
    tool_use_id = tool_use_id;
  })

pub record CodeExecutionFileRef : Type 0 where
  pub file_id : Text
  pub filename : Text

pub record CodeExecutionResultContent : Type 0 where
  pub stdout : Text
  pub stderr : Text
  pub return_code : ℤ
  pub content : List CodeExecutionFileRef

-- The three kinds of block, each with its `tool_use_id` and its content.
pub data ResultBlock : Type 0 where
  code_execution_block : Text → CodeExecutionResultContent → ResultBlock
  bash_execution_block : Text → CodeExecutionResultContent → ResultBlock
  text_editor_block : Text → CodeExecutionResultContent → ResultBlock

abbrev pub block_type : ResultBlock → Text
block_type (code_execution_block tool_use_id content) = codes "code_execution_tool_result"
block_type (bash_execution_block tool_use_id content) = codes "bash_code_execution_tool_result"
block_type (text_editor_block tool_use_id content) = codes "text_editor_code_execution_tool_result"

pub record ExecResponse : Type 0 where
  pub tool_use_id : Text
  pub result_block : ResultBlock
  pub execution_time_ms : ℕ
