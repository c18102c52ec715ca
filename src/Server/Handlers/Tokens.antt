-- ===== src/Server/Handlers/Tokens.antt =====
-- internal/server/server.go: /api/tokens with `checkAuth`, `checkAuthNotScoped` and
-- `writeScopedTokensToConfig`. An error of the last is only logged.
pub mod Stored
pub mod Use
mod Tests
use vel.Common.{
  Bool, List, Option, Text, [], false, if◌then◌else◌, lit, none, not, some, true, ℕ, ◌&&◌, ◌==◌,
  ◌||◌, ◌∷◌,
}
use vel.Std.Crypto.{Crypto}
use vel.Auth.Types.{Identity}
use vel.Auth.Request.{Request, get_identity}
use vel.Auth.Tokens.{
  ScopedToken, add_scoped_token, get_scoped_tokens, get_scoped_tokens_full, remove_scoped_token,
}
use vel.Auth.Telegram.{User}
use vel.Auth.Legacy.{Settings, check, is_scoped_user}
use vel.Server.Handlers.{
  Response, answer, done, query, refusal, store_error, token_list, token_made,
}

-- The object at `auth`: `tokens` is the part of it that is written here, the others are raw JSON.
pub record AuthSection : Type 0 where
  pub others : List (Text × Text)
  pub tokens : Option (List ScopedToken)

-- What stands at `auth`: nothing, some other JSON than an object, `null`, which decodes to a nil
-- map without an error, or an object.
pub data AuthJson : Type 0 where
  no_auth no_object null_auth : AuthJson
  section : AuthSection → AuthJson

pub record ConfigFile : Type 0 where
  pub others : List (Text × Text)
  pub auth : AuthJson

-- Without a path, a file or its JSON, there is nothing to write to. A file that is `null` decodes to
-- a nil map.
pub data Config : Type 0 where
  no_path unreadable not_json null_config : Config
  config : ConfigFile → Config

pub record NewToken : Type 0 where
  pub name : Text
  pub scopes : List Text

-- The settings hold the tokens of the process.
pub record TokenState : Type 0 where
  pub settings : Settings
  pub file : Config

abbrev pub written : List ScopedToken → Option (List ScopedToken)
written [] = none
written (t ∷ ts) = some (t ∷ ts)

abbrev pub rewrite_section : List (Text × Text) → List ScopedToken → Option AuthJson
rewrite_section others tokens = some (section (record { others = others; tokens = written tokens }))

-- The section with the tokens, or none where the assignment to a nil map panics; `delete` on a nil
-- map does nothing.
unfoldable pub update_auth : List ScopedToken → AuthJson → Option AuthJson
update_auth tokens no_auth = rewrite_section [] tokens
update_auth tokens no_object = rewrite_section [] tokens
update_auth [] null_auth = some null_auth
update_auth (t ∷ ts) null_auth = none
update_auth tokens (section a) = rewrite_section a.others tokens

abbrev pub write_file : Bool → ConfigFile → Option AuthJson → Option Config
write_file writes f none = none
write_file writes f (some a) = some (config (if writes then record f { auth = a } else f))

-- The file after the call, or none where it panics; `writes` says whether `os.WriteFile` succeeds.
unfoldable pub write_scoped_tokens_to_config : Bool → List ScopedToken → Config → Option Config
write_scoped_tokens_to_config writes tokens no_path = some no_path
write_scoped_tokens_to_config writes tokens unreadable = some unreadable
write_scoped_tokens_to_config writes tokens not_json = some not_json
write_scoped_tokens_to_config writes tokens null_config = none
write_scoped_tokens_to_config writes tokens (config f) =
    write_file writes f (update_auth (get_scoped_tokens_full tokens) f.auth)

-- What a handler does: its response, or none where it panics and the recovery middleware answers.
abbrev pub Handled : Type 0
Handled = Option Response × TokenState

-- The tokens in memory are replaced first.
abbrev pub after_write : Response → TokenState → Option Config → Handled
after_write response s none = (none, s)
after_write response s (some file) = (some response, record s { file = file })

abbrev pub with_tokens : Bool → Response → TokenState → List ScopedToken → Handled
with_tokens writes response s tokens =
    after_write response (record s { settings = record s.settings { scoped_tokens = tokens } })
      (write_scoped_tokens_to_config writes tokens s.file)

abbrev pub lacks_scopes : List Text → Bool
lacks_scopes [] = true
lacks_scopes (x ∷ xs) = false

-- `none` is the error of a name that is taken.
abbrev pub made_token : Bool → TokenState → Text → Option (Text × List ScopedToken) → Handled
made_token writes s name none = (some (answer 409 store_error), s)
made_token writes s name (some (token, tokens)) =
    with_tokens writes (answer 200 (token_made name token)) s tokens

unfoldable pub post_token : Bool → Text → TokenState → Option NewToken → Handled
post_token writes random s none = (some (refusal 400 (lit "Bad request")), s)
post_token writes random s (some b) =
    if b.name == [] || lacks_scopes b.scopes
    then (some (refusal 400 (lit "name and scopes required")), s)
    else made_token writes s b.name
        (add_scoped_token s.settings.scoped_tokens b.name b.scopes random)

unfoldable pub delete_token : Bool → TokenState → Text → Handled
delete_token writes s name =
    let (found, tokens) = remove_scoped_token s.settings.scoped_tokens name in
    if name == []
    then (some (refusal 400 (lit "name required")), s)
    else if found
    then with_tokens writes (answer 200 done) s tokens
    else (some (refusal 404 (lit "token not found")), s)

-- The name in the query, or else that of the body, which is empty where it does not decode.
abbrev pub name_to_delete : Request → Text → Text
name_to_delete r body_name =
    let name = query r (lit "name") in if name == [] then body_name else name

unfoldable pub tokens_admin : Bool → Text → Option NewToken → Text → Request → TokenState → Handled
tokens_admin writes random body body_name r s =
    if r.method == lit "GET"
    then (some (answer 200 (token_list (get_scoped_tokens s.settings.scoped_tokens))), s)
    else if r.method == lit "POST"
    then post_token writes random s body
    else if r.method == lit "DELETE"
    then delete_token writes s (name_to_delete r body_name)
    else (some (refusal 405 (lit "Method not allowed")), s)

unfoldable pub is_full_identity : Option Identity → Bool
is_full_identity none = false
is_full_identity (some id) = not (id.provider == lit "api_key")

abbrev pub is_there : {A : Type 0} → Option A → Bool
is_there none = false
is_there (some x) = true

-- `managed` says whether there is an AuthManager.
module _ (h : Crypto) (decode_user : Text → Option User) where
  unfoldable pub check_auth : Bool → Settings → ℕ → Request → Bool
  check_auth managed s now r =
      if managed then is_there (get_identity r) else is_there (check h decode_user s now r)

  unfoldable pub check_auth_not_scoped : Bool → Settings → ℕ → Request → Bool
  check_auth_not_scoped managed s now r =
      let user = check h decode_user s now r in
      if managed
      then is_full_identity (get_identity r)
      else is_there user && not (is_scoped_user user)

  unfoldable pub tokens_handler :
      Bool → ℕ → Bool → Text → Option NewToken → Text → Request → TokenState → Handled
  tokens_handler managed now writes random body body_name r s =
      if check_auth_not_scoped managed s.settings now r
      then tokens_admin writes random body body_name r s
      else (some (refusal 403 (lit "Unauthorized")), s)
