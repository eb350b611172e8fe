-- ===== src/Server/Declared.antt =====
-- The responses that the routes of sandbox/exec_server.py declare: for each request, the status and the
-- model of a success, the statuses of its `HTTPException`s, and whether another exception may leave it.
use otari_sandbox_container.Base.{
  ℕ, ◌≡◌, refl, Bool, true, false, ◌||◌, Option, none, some, List, [], ◌∷◌, Text, Bytes, nat_beq,
  option_both,
}
use otari_sandbox_container.Base.Dict.{Dict}
use otari_sandbox_container.Models.{
  Json, has_length, ToolKind, code_execution, bash_code_execution, text_editor_code_execution,
  ExecRequest, exec_request, ResultBlock, code_execution_block, bash_execution_block,
  text_editor_block,
}
use otari_sandbox_container.Workspace.{
  Reply, ok, raise, permission_error, file_not_found_error, file_exists_error, value_error,
  is_a_directory_error, not_a_directory_error, runtime_error, Exception,
}
use otari_sandbox_container.Server.{
  Server, Outside, Body, health_body, session_body, empty_body, exec_body, upload_body,
  content_body, list_body, registered_body, Response, success, http_error, uncaught, no_reply,
}
use otari_sandbox_container.Server.Transfer.{
  answer, upload_failure, download_failure, list_failure, register_failure,
}
use otari_sandbox_container.Server.Routes.{
  Request, health_check, create_request, get_request, delete_request, exec, upload, download, list,
  register, rejected, on_body, on_id,
}

abbrev pub one_of : ℕ → List ℕ → Bool
one_of code [] = false
one_of code (c ∷ cs) = let rest = one_of code cs in nat_beq code c || rest

abbrev pub error_statuses : Request → List ℕ
error_statuses health_check = []
error_statuses (create_request body) = 422 ∷ 503 ∷ []
error_statuses (get_request sid) = 404 ∷ 422 ∷ []
error_statuses (delete_request sid) = 422 ∷ []
error_statuses (exec sid d) = 404 ∷ 422 ∷ []
error_statuses (upload sid content filename path) = 403 ∷ 404 ∷ 413 ∷ 422 ∷ []
error_statuses (download sid path) = 400 ∷ 403 ∷ 404 ∷ 422 ∷ []
error_statuses (list sid path) = 403 ∷ 404 ∷ 422 ∷ []
error_statuses (register sid d) = 404 ∷ 422 ∷ []

-- The requests whose handler another exception may leave.
abbrev pub may_raise : Request → Bool
may_raise health_check = false
may_raise (get_request sid) = false
may_raise (delete_request sid) = false
may_raise req = true

-- The block of a tool, with the identifier of the response.
abbrev pub IsBlockOf : ToolKind → Text → ResultBlock → Type 0
IsBlockOf code_execution id (code_execution_block id' content) = id' ≡ id
IsBlockOf bash_code_execution id (bash_execution_block id' content) = id' ≡ id
IsBlockOf text_editor_code_execution id (text_editor_block id' content) = id' ≡ id
IsBlockOf tool id block = ⊥

-- A success with its status and its model.
abbrev pub IsModel : Outside → Request → ℕ → Body → Type 0
IsModel o health_check code (health_body n max) = code ≡ 200
IsModel o (create_request body) code (session_body x) = code ≡ 201
IsModel o (get_request sid) code (session_body x) = code ≡ 200
IsModel o (delete_request sid) code empty_body = code ≡ 204
IsModel o (exec sid d) code (exec_body r) =
    (code ≡ 200)
    × (req : ExecRequest) × (exec_request o.pydantic d ≡ some req)
    × IsBlockOf req.tool r.tool_use_id r.result_block
IsModel o (upload sid content filename path) code (upload_body r) = code ≡ 201
IsModel o (download sid path) code (content_body bs mime) = code ≡ 200
IsModel o (list sid path) code (list_body files) = code ≡ 200
IsModel o (register sid d) code (registered_body path n) = code ≡ 200
IsModel o req code body = ⊥

-- A call of `exec_tool` alone may get no reply.
abbrev pub IsDeclared : Outside → Request → Response → Type 0
IsDeclared o req (success code body) = IsModel o req code body
IsDeclared o req (http_error code detail) = one_of code (error_statuses req) ≡ true
IsDeclared o req uncaught = may_raise req ≡ true
IsDeclared o (exec sid d) no_reply = Unit
IsDeclared o req no_reply = ⊥

pub on_id-both :
    (P : Response × Server → Type 0) (sid : Text) (f : Server → Response × Server) (s : Server)
    → P (rejected [] s)
    → P (f s)
    → P (on_id sid f s)
unfolding on_id
on_id-both P sid f s bad good = option_both P (has_length 1 64 sid) _ _ (λ e. bad) (λ a e. good)

pub on_body-both :
    {A : Type 0} (P : Response × Server → Type 0) (d : Dict Text Json) (parsed : Option A)
    (f : A → Server → Response × Server) (s : Server)
    → P (rejected d s)
    → ((a : A) → parsed ≡ some a → P (f a s))
    → P (on_body d parsed f s)
unfolding on_body
on_body-both P d none f s bad each = bad
on_body-both P d (some a) f s bad each = each a refl

pub answer-both :
    {A : Type 0} (Q : Response → Type 0) (code : ℕ) (body : A → Body)
    (failure : Exception → Response) (r : Reply A)
    → ((a : A) → Q (success code (body a)))
    → ((x : Exception) → Q (failure x))
    → Q (answer code body failure r)
answer-both Q code body failure (ok a) good bad = good a
answer-both Q code body failure (raise x) good bad = bad x

module _ (o : Outside) where
  pub upload_failure-IsDeclared :
      (sid : Text) (content : Bytes) (filename path : Option Text) (x : Exception)
      → IsDeclared o (upload sid content filename path) (upload_failure x)
  upload_failure-IsDeclared sid content filename path (permission_error m) = refl
  upload_failure-IsDeclared sid content filename path (file_not_found_error m) = refl
  upload_failure-IsDeclared sid content filename path (file_exists_error m) = refl
  upload_failure-IsDeclared sid content filename path (value_error m) = refl
  upload_failure-IsDeclared sid content filename path (is_a_directory_error m) = refl
  upload_failure-IsDeclared sid content filename path not_a_directory_error = refl
  upload_failure-IsDeclared sid content filename path runtime_error = refl

  pub download_failure-IsDeclared :
      (sid path : Text) (x : Exception) → IsDeclared o (download sid path) (download_failure x)
  download_failure-IsDeclared sid path (permission_error m) = refl
  download_failure-IsDeclared sid path (file_not_found_error m) = refl
  download_failure-IsDeclared sid path (file_exists_error m) = refl
  download_failure-IsDeclared sid path (value_error m) = refl
  download_failure-IsDeclared sid path (is_a_directory_error m) = refl
  download_failure-IsDeclared sid path not_a_directory_error = refl
  download_failure-IsDeclared sid path runtime_error = refl

  pub list_failure-IsDeclared :
      (sid : Text) (path : Option Text) (x : Exception)
      → IsDeclared o (list sid path) (list_failure x)
  list_failure-IsDeclared sid path (permission_error m) = refl
  list_failure-IsDeclared sid path (file_not_found_error m) = refl
  list_failure-IsDeclared sid path (file_exists_error m) = refl
  list_failure-IsDeclared sid path (value_error m) = refl
  list_failure-IsDeclared sid path (is_a_directory_error m) = refl
  list_failure-IsDeclared sid path not_a_directory_error = refl
  list_failure-IsDeclared sid path runtime_error = refl

  pub register_failure-IsDeclared :
      (sid : Text) (d : Dict Text Json) (x : Exception)
      → IsDeclared o (register sid d) (register_failure x)
  register_failure-IsDeclared sid d (permission_error m) = refl
  register_failure-IsDeclared sid d (file_not_found_error m) = refl
  register_failure-IsDeclared sid d (file_exists_error m) = refl
  register_failure-IsDeclared sid d (value_error m) = refl
  register_failure-IsDeclared sid d (is_a_directory_error m) = refl
  register_failure-IsDeclared sid d not_a_directory_error = refl
  register_failure-IsDeclared sid d runtime_error = refl
