-- ===== src/Auth/Legacy.antt =====
-- internal/auth/auth.go: the login that does not use sessions, `Check` and what it calls, and the
-- decision of the WebSocket's handshake in internal/server/websocket.go. The package variables and
-- the TEST_MODE of the environment are the fields of a record.
pub mod Evidence
mod Tests
use vel.Common.{
  Bool, List, Option, Text, [], any, false, has_prefix, if◌then◌else◌, int_eqb, lit, none, not, pos,
  some, trim_prefix, true, ℕ, ℤ, ◌&&◌, ◌++◌, ◌==◌, ◌||◌,
}
use vel.Std.Values.{get_value, parse_query}
use vel.Std.Crypto.{Crypto}
use vel.Auth.Request.{Request}
use vel.Auth.Tokens.{ScopedToken, check_scoped_token}
use vel.Auth.Cookie.{verify_cookie}
use vel.Auth.Telegram.{User, validate_init_data}

pub record Settings : Type 0 where
  pub bot_token : Text
  pub allowed_users : List ℤ
  pub cookie_secret : Text
  pub auth_mode : Text
  pub auth_token : Text
  pub scoped_tokens : List ScopedToken
  pub test_mode : Bool

-- `Init` and `InitMode`
unfoldable pub init : Settings → Text → List ℤ → Text → Settings
init s token allowed secret = record s {
  bot_token = token;
  allowed_users = allowed;
  cookie_secret = secret;
}

unfoldable pub init_mode : Settings → Text → Text → Settings
init_mode s mode token = record s { auth_mode = mode; auth_token = token }

unfoldable pub validate_token : Settings → Text → Bool
validate_token s token = not (s.auth_token == []) && (token == s.auth_token)

unfoldable pub is_allowed : Settings → ℤ → Bool
is_allowed s user_id =
    if s.test_mode
    then true
    else if (s.auth_mode == lit "token") || (s.auth_mode == lit "none")
    then true
    else any (int_eqb user_id) s.allowed_users

unfoldable pub check_bot_token : Settings → Text → Bool
check_bot_token s token = not (token == []) && (token == s.bot_token)

abbrev pub test_user : User
test_user = record { id = pos 0; first_name = lit "Test"; username = lit "test" }

abbrev pub admin_user : User
admin_user = record { id = pos 1; first_name = lit "Admin"; username = lit "admin" }

abbrev pub scoped_user : Text → User
scoped_user name = record { id = pos 2; first_name = name; username = lit "scoped:" ++ name }

unfoldable pub is_scoped_user : Option User → Bool
is_scoped_user none = false
is_scoped_user (some u) = has_prefix u.username (lit "scoped:")

-- The first of two results that is there.
abbrev pub or_else : Option User → Option User → Option User
or_else none b = b
or_else (some u) b = some u

-- A user counts if the settings allow the id.
unfoldable pub allowed_only : Settings → Option User → Option User
allowed_only s none = none
allowed_only s (some u) = if is_allowed s u.id then some u else none

module _ (c : Crypto) (decode_user : Text → Option User) (s : Settings) where
  unfoldable pub get_user_from_cookie : Request → Option User
  get_user_from_cookie r = elim (r.cookie (lit "tg_user")) [
    | none ↦ none
    | some signed ↦ elim (verify_cookie c s.cookie_secret signed) [
      | none ↦ none
      | some value ↦ decode_user value
    ]
  ]

  unfoldable pub user_of_bearer : Request → Option User
  user_of_bearer r =
      let bearer = r.header (lit "Authorization") in
      if (s.auth_mode == lit "token")
        && has_prefix bearer (lit "Bearer ")
        && validate_token s (trim_prefix bearer (lit "Bearer "))
      then some admin_user
      else none

  unfoldable pub user_of_query : Request → Option User
  user_of_query r =
      let q_token = get_value (parse_query r.raw_query).1 (lit "token") in
      let name = check_scoped_token s.scoped_tokens q_token r.path in
      if q_token == []
      then none
      else if validate_token s q_token
      then some admin_user
      else if name == []
      then none
      else some (scoped_user name)

  unfoldable pub user_of_init_data : ℕ → Request → Option User
  user_of_init_data now r =
      let init_data = r.header (lit "X-Telegram-Init-Data") in
      if init_data == []
      then none
      else allowed_only s (validate_init_data c s.bot_token decode_user now init_data)

  -- The sources in their order.
  unfoldable pub check : ℕ → Request → Option User
  check now r =
      if s.test_mode
      then some test_user
      else if s.auth_mode == lit "none"
      then some admin_user
      else or_else (allowed_only s (get_user_from_cookie r))
          (or_else (user_of_bearer r) (or_else (user_of_query r) (user_of_init_data now r)))

  -- The handshake behind no AuthManager: the user that the message leads to.
  unfoldable pub handshake_user : ℕ → Text → Bool → Option User → Option User
  handshake_user now init_data cookie_auth message_user =
      let user : Option User =
        if not (init_data == [])
        then validate_init_data c s.bot_token decode_user now init_data
        else if cookie_auth
        then message_user
        else none in
      if s.test_mode
      then some (record { id = pos 0; first_name = lit "Test"; username = [] })
      else elim user [
        | some u ↦ some u
        | none ↦ if s.auth_mode == lit "none" then some admin_user else none
      ]

  unfoldable pub handshake : ℕ → Text → Bool → Option User → Bool
  handshake now init_data cookie_auth message_user =
      elim (handshake_user now init_data cookie_auth message_user) [
        | none ↦ false
        | some u ↦ is_allowed s u.id
      ]
