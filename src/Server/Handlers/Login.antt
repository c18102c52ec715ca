-- ===== src/Server/Handlers/Login.antt =====
-- internal/server/server.go: /auth/telegram/callback, /auth/token and /auth/dev.
pub mod Callback
pub mod Cookies
mod Tests
use vel.Common.{
  Option, Text, [], false, if◌then◌else◌, lit, map, none, not, pos, some, true, ℕ, ◌==◌, ◌||◌, ◌∷◌,
}
use vel.Std.Crypto.{Crypto}
use vel.Std.Values.{Values, distinct_keys, get_value, parse_query}
use vel.Store.{Bucket, Codec}
use vel.Auth.Types.{Session}
use vel.Auth.Request.{Request}
use vel.Auth.Users.{UserStore, find_user_by_identity}
use vel.Auth.Cookie.{sign_cookie}
use vel.Auth.Telegram.{User, is_outdated, parse_int, validate_telegram_login}
use vel.Auth.Telegram.Decimal.{format_int}
use vel.Auth.Legacy.{Settings, admin_user, is_allowed, validate_token}
use vel.Auth.Providers.Telegram.{telegram_identity}
use vel.Auth.Manager.{AuthManager, create_session}
use vel.Server.Limits.{RateLimiter, allow}
use vel.Server.Middleware.{Cookie, seconds, set_session_cookie}
use vel.Server.Handlers.{Response, answer, done, redirection, refusal, query}
use vel.Server.Handlers.Magic.{Login, get_client_ip}

-- The parameters of the widget: the first value of each key.
unfoldable pub login_params : Request → Values
login_params r =
    let query = (parse_query r.raw_query).1 in
    map (λ k. (k, get_value query k)) (distinct_keys query)

abbrev pub week : ℕ
week = 604800

-- `SameSite` is `None`, so not `Lax`.
abbrev pub user_cookie : Text → Cookie
user_cookie value = record {
  name = lit "tg_user";
  value = value;
  http_only = true;
  secure = true;
  same_site_lax = false;
  path = lit "/";
  max_age = seconds week;
}

abbrev pub callback_user : Values → User
callback_user params = record {
  id = parse_int (get_value params (lit "id"));
  first_name = get_value params (lit "first_name");
  username = get_value params (lit "username");
}

abbrev pub dev_user : User
dev_user = record { id = pos 0; first_name = lit "Developer"; username = lit "dev" }

-- `json` is the JSON of a user.
module _ (h : Crypto) (json : Codec User Text) (s : Settings) where
  unfoldable pub signed_user : User → Cookie
  signed_user u = user_cookie (sign_cookie h s.cookie_secret (json.marshal u))

  -- The end of the callback behind no AuthManager.
  unfoldable pub legacy_callback : Values → Response
  legacy_callback params =
      let u = callback_user params in
      if is_allowed s u.id
      then redirection (lit "/dashboard") (signed_user u ∷ [])
      else refusal 403 (lit "Access denied")

  -- What the handler refuses before it looks for the user; `now` is in seconds.
  unfoldable pub refuse_callback : ℕ → Values → Option Response
  refuse_callback now params =
      if get_value params (lit "hash") == [] || get_value params (lit "id") == []
      then some (refusal 400 (lit "Invalid login data"))
      else if not (validate_telegram_login h s.bot_token params)
      then some (refusal 401 (lit "Authentication failed"))
      else if is_outdated now (parse_int (get_value params (lit "auth_date")))
      then some (refusal 401 (lit "Login expired"))
      else none

  unfoldable pub auth_token : Text → ℕ → Text → Request → RateLimiter → Response × RateLimiter
  auth_token remote limited_at token r limiter =
      let (allowed, limiter') = allow limiter (get_client_ip remote r) limited_at in
      let logged_in : Response = record (answer 200 done) {
        cookies = signed_user admin_user ∷ [];
      } in
      if not (r.method == lit "POST")
      then (refusal 405 (lit "Method not allowed"), limiter)
      else if not allowed
      then (refusal 429 (lit "Too many requests"), limiter')
      else if validate_token s token
      then (logged_in, limiter')
      else (refusal 401 (lit "Invalid token"), limiter')

  unfoldable pub auth_dev : Response
  auth_dev =
      if s.test_mode
      then redirection (lit "/dashboard") (signed_user dev_user ∷ [])
      else refusal 404 (lit "Not available")

  module _ {V W : Type 0} (b : Bucket V) (c : Codec Session V) where
    -- The session that was made, or none, with the sessions after it.
    abbrev pub answer_session : AuthManager W → Option Session × b.Db → Response × b.Db
    answer_session m (none, db) = (refusal 500 (lit "Session creation failed"), db)
    answer_session m (some session, db) =
        (redirection (lit "/dashboard") (set_session_cookie m session.id ∷ []), db)

    -- The end of the callback behind an AuthManager.
    unfoldable pub session_callback :
        AuthManager W → UserStore → Login → b.Db → Values → Response × b.Db
    session_callback m us e db params =
        let u = callback_user params in
        let provider_id = format_int u.id in
        elim (find_user_by_identity us (lit "telegram") provider_id) [
          | none ↦ (refusal 403 (lit "Access denied"), db)
          | some rec ↦ answer_session m (
              create_session b c m e.saves e.random e.created_at e.dated_at db
                (telegram_identity rec provider_id u.first_name u.username))
        ]

    unfoldable pub finish_callback :
        Option (AuthManager W × UserStore) → Login → b.Db → Values → Response × b.Db
    finish_callback none e db params = (legacy_callback params, db)
    finish_callback (some (m, us)) e db params = session_callback m us e db params

    unfoldable pub telegram_callback :
        Option (AuthManager W × UserStore)
        → Login
        → ℕ
        → Request
        → RateLimiter × b.Db
        → Response × RateLimiter × b.Db
    telegram_callback manager e now r (limiter, db) =
        let (allowed, limiter') = allow limiter (get_client_ip e.remote r) e.limited_at in
        let params = login_params r in
        if not allowed
        then (refusal 429 (lit "Too many requests"), limiter', db)
        else elim (refuse_callback now params) [
          | some response ↦ (response, limiter', db)
          | none ↦
              let (response, db') = finish_callback manager e db params in (response, limiter', db')
        ]
