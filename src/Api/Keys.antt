-- ===== src/Api/Keys.antt =====
-- openvtld/internal/api/system.go: the management of API keys.
use open_vtl.Prelude.Text.{ascii, parse_int}
use open_vtl.Prelude.{ℕ, not, ◌||◌, Option, none, some, List, [], ◌++◌, length, ltb}
use open_vtl.Exec.{◌>>=◌, ◌>>◌, pure, exit_if, or_exit}
use open_vtl.Store.{Env, User}
use open_vtl.Store.ApiKeys.{create_api_key, list_api_keys, delete_api_key_row}
use open_vtl.Api.{
  NewKey, Request, write_json, bad_request, server_error, sql_text, error_text, ok_body, keys_body,
  new_key_body, Handler, replying, audit,
}
use open_vtl.Api.Login.{are_name_bytes, bad_json, new_token}
use open_vtl.Api.Users.{is_valid_role, bad_role, bad_id}

abbrev pub creator : Option User → List ℕ
creator none = []
creator (some u) = u.username

module _ (env : Env) (trim_space : List ℕ → List ℕ) where
  open env use {hash_token}

  -- strings.TrimSpace is a parameter.
  unfoldable pub create_key : Request → Option User → Option NewKey → Handler env
  create_key req me body = do
    new ← or_exit bad_json body
    let name = trim_space new.name
    exit_if (ltb (length name) 2 || ltb 64 (length name))
        (bad_request "name must be 2-64 characters")
    exit_if (not (are_name_bytes name)) (bad_request "name may contain letters, digits, . _ -")
    exit_if (not (is_valid_role new.role)) bad_role
    raw ← new_token env
    let token = ascii "ovtl_" ++ raw
    id ←
        replying env (λ e. bad_request (sql_text e))
          (create_api_key env name new.role (hash_token token) (creator me))
    audit env req me "apikey.create" name
    pure (write_json 201 (new_key_body id name new.role token))

module _ (env : Env) where
  unfoldable pub list_keys : Handler env
  list_keys = do
    keys ← replying env server_error (list_api_keys env)
    pure (write_json 200 (keys_body keys))

  unfoldable pub delete_key : Request → Option User → List ℕ → Handler env
  delete_key req me segment = do
    id ← or_exit bad_id (parse_int segment)
    name ← replying env (λ e. write_json 404 (error_text "unknown key")) (delete_api_key_row env id)
    audit env req me "apikey.delete" name
    pure (write_json 200 ok_body)
