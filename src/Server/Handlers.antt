-- ===== src/Server/Handlers.antt =====
-- internal/server/server.go: the handlers that log users in and that administer users, keys, tokens
-- and magic links. A handler is a function to its response and the next state of what it changes.
pub mod Admin
pub mod Magic
pub mod Links
pub mod Login
pub mod Tokens
pub mod Crons
use vel.Common.{List, Option, Text, [], if◌then◌else◌, lit, none, some, ℕ, ◌==◌}
use vel.Std.Values.{get_value, parse_query}
use vel.Auth.Types.{Identity}
use vel.Auth.Request.{Request, get_identity}
use vel.Auth.Users.{UserRecord}
use vel.Auth.Tokens.{ScopedToken}
use vel.Server.Middleware.{Cookie}

-- What a key looks like in the list of keys: without its hash.
pub record SafeKey : Type 0 where
  pub id : Text
  pub name : Text
  pub role : Text
  pub scopes : List Text
  pub created_by : Text
  pub created_at : Text

-- The bodies that the handlers write. An error that a store returns is one body whatever its text.
pub data Body : Type 0 where
  no_body login_sent done store_error page_error : Body
  error : Text → Body
  user_list : List UserRecord → Body
  user_made : UserRecord → Body
  key_list : List SafeKey → Body
  key_made : Text → Text → Body
  token_list : List ScopedToken → Body
  token_made : Text → Text → Body
  link_made : Text → Body
  acted : Text → Text → Body

-- `location` is what `http.Redirect` is given.
pub record Response : Type 0 where
  pub status : ℕ
  pub body : Body
  pub location : Option Text
  pub cookies : List Cookie

abbrev pub answer : ℕ → Body → Response
answer status body = record { status = status; body = body; location = none; cookies = [] }

abbrev pub refusal : ℕ → Text → Response
refusal status message = answer status (error message)

abbrev pub redirection : Text → List Cookie → Response
redirection to cookies = record {
  status = 302;
  body = no_body;
  location = some to;
  cookies = cookies;
}

-- `r.URL.Query().Get(key)`
unfoldable pub query : Request → Text → Text
query r key = get_value (parse_query r.raw_query).1 key

-- `id != nil && id.Role == "admin"`
unfoldable pub admin_of : Request → Option Identity
admin_of r = elim (get_identity r) [
  | none ↦ none
  | some id ↦ if id.role == lit "admin" then some id else none
]
