-- ===== src/Server/Middleware.antt =====
-- internal/server/authmiddleware.go: the chain around every handler. A middleware here returns the
-- request that it hands to the next handler, or its own response. The debug log is left out.
pub mod Origin
pub mod Gate
pub mod Login
mod Tests
use vel.Common.{
  Bool, List, Option, Text, [], false, if◌then◌else◌, lit, none, some, true, ℕ, ◌++◌, ◌/◌, ◌==◌,
  ◌∷◌,
}
use vel.Store.{Bucket, Codec}
use vel.Auth.Types.{Identity, Session}
use vel.Auth.Request.{Request, get_identity, set_identity}
use vel.Auth.Scopes.{check_scope}
use vel.Auth.Manager.{AuthManager, authenticate, create_session, get_session, usable_session}
use vel.Server.Paths.{is_browser_request, is_public_path}

-- What the client gets, where the handler is not called: a redirect with status 302, or a status
-- with a JSON body.
pub data Outcome : Type 0 where
  passes : Request → Outcome
  redirects : Text → Outcome
  refuses : ℕ → Text → Outcome

-- `MaxAge` of a cookie in seconds, or -1.
pub data MaxAge : Type 0 where
  seconds : ℕ → MaxAge
  delete_now : MaxAge

pub record Cookie : Type 0 where
  pub name : Text
  pub value : Text
  pub http_only : Bool
  pub secure : Bool
  pub same_site_lax : Bool
  pub path : Text
  pub max_age : MaxAge

unfoldable pub set_session_cookie : {W : Type 0} → AuthManager W → Text → Cookie
set_session_cookie m session_id = record {
  name = m.cookie_name;
  value = session_id;
  http_only = true;
  secure = true;
  same_site_lax = true;
  path = lit "/";
  max_age = seconds (m.max_age / 1_000_000_000);
}

unfoldable pub clear_session_cookie : {W : Type 0} → AuthManager W → Cookie
clear_session_cookie m = record {
  name = m.cookie_name;
  value = [];
  http_only = false;
  secure = false;
  same_site_lax = false;
  path = lit "/";
  max_age = delete_now;
}

-- The readings of the clock, the random bytes and the outcomes of the write transactions of one
-- passage through SessionMiddleware and AuthMiddleware.
pub record Passage : Type 0 where
  pub looked_at : ℕ
  pub tested_at : ℕ
  pub looked_again_at : ℕ
  pub tested_again_at : ℕ
  pub created_at : ℕ
  pub dated_at : ℕ
  pub random : Option Text
  pub drops : Bool
  pub drops_again : Bool
  pub saves : Bool

module _ {V W : Type 0} (b : Bucket V) (c : Codec Session V) (m : AuthManager W) where
  unfoldable pub session_middleware : Passage → b.Db → Request → Request × b.Db
  session_middleware t db r =
      let (got, db') = get_session b c m t.drops t.looked_at db r in
      elim (usable_session t.tested_at got) [
        | none ↦ (r, db')
        | some s ↦ (set_identity r s.identity, db')
      ]

  -- The new session's cookie, for any provider but the one for API keys.
  unfoldable pub login_cookie : Passage → b.Db → Identity → Option Cookie × b.Db
  login_cookie t db identity =
      let (made, db') = create_session b c m t.saves t.random t.created_at t.dated_at db identity in
      if identity.provider == lit "api_key"
      then (none, db)
      else elim made [ none ↦ (none, db') | some s ↦ (some (set_session_cookie m s.id), db') ]

  unfoldable pub auth_middleware : Passage → b.Db → W → Request → Request × Option Cookie × b.Db × W
  auth_middleware t db w r = elim (get_identity r) [
    | some id ↦ (r, none, db, w)
    | none ↦
        let (result, db', w') =
          authenticate b c m t.drops_again t.looked_again_at t.tested_again_at db w r in
        elim result [
          | none ↦ (r, none, db', w')
          | some (identity, session) ↦
              let (cookie, db'') = login_cookie t db' identity in
              (set_identity r identity, cookie, db'', w')
        ]
  ]

-- The login page, with the path and the query of the request behind it.
unfoldable pub login_redirect : Request → Text
login_redirect r =
    let redirect_path = if r.raw_query == [] then r.path else r.path ++ b'?' ∷ r.raw_query in
    lit "/login?redirect=" ++ redirect_path

abbrev pub unauthorized : Outcome
unauthorized = refuses 401 (lit "{\"error\":\"Unauthorized\"}")

unfoldable pub require_auth : Request → Outcome
require_auth r = elim (get_identity r) [
  | none ↦ if is_browser_request r then redirects (login_redirect r) else unauthorized
  | some id ↦ passes r
]

unfoldable pub require_auth_paths : List Text → Request → Outcome
require_auth_paths app_public_prefixes r =
    if is_public_path app_public_prefixes r.path then passes r else elim (get_identity r) [
      | none ↦ if is_browser_request r then redirects (login_redirect r) else unauthorized
      | some id ↦ passes r
    ]

unfoldable pub require_admin : Request → Outcome
require_admin r = elim (get_identity r) [
  | none ↦ refuses 403 (lit "{\"error\":\"Forbidden\"}")
  | some id ↦
      if id.role == lit "admin" then passes r else refuses 403 (lit "{\"error\":\"Forbidden\"}")
]

-- The scope that the middleware is made with is not read.
unfoldable pub require_scope : Text → Request → Outcome
require_scope scope r = elim (get_identity r) [
  | none ↦ unauthorized
  | some id ↦
      if id.role == lit "admin"
      then passes r
      else if check_scope id.scopes r.method r.path
      then passes r
      else refuses 403 (lit "{\"error\":\"Forbidden: insufficient scope\"}")
]

-- The chain that `New` builds around the mux: sessions, then providers, then the gate.
module _ {V W : Type 0} (b : Bucket V) (c : Codec Session V) (m : AuthManager W) where
  unfoldable pub auth_chain :
      List Text → Passage → b.Db → W → Request → Outcome × Option Cookie × b.Db × W
  auth_chain app_public_prefixes t db w r =
      let (r', db') = session_middleware b c m t db r in
      let (r'', cookie, db'', w') = auth_middleware b c m t db' w r' in
      (require_auth_paths app_public_prefixes r'', cookie, db'', w')
