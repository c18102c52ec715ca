-- ===== src/Server/Handlers/Magic.antt =====
-- internal/server/server.go: /auth/magic, /auth/logout and `getClientIP`.
pub mod Evidence
pub mod Once
mod Tests
use vel.Common.{
  Bool, Option, Text, [], any, contains, cut, eqb, false, has_prefix, if◌then◌else◌, leb, lit, map,
  none, not, some, ℕ, ◌&&◌, ◌==◌, ◌||◌, ◌∷◌,
}
use vel.Store.{Bucket, Codec}
use vel.Auth.Types.{Session, Identity}
use vel.Auth.Request.{Request}
use vel.Auth.Users.{to_lower}
use vel.Auth.Providers.{Provider, magic_link_credentials}
use vel.Auth.Manager.{
  AuthManager, authenticate, create_session, destroy_session, get_provider, get_session, loaded,
  lookup_failed, no_cookie, not_found,
}
use vel.Server.Limits.{RateLimiter, allow}
use vel.Server.Middleware.{Cookie, clear_session_cookie, delete_now, set_session_cookie}
use vel.Server.Handlers.{Response, answer, no_body, page_error, query, redirection, refusal}

-- `strings.TrimSpace` on ASCII bytes.
abbrev pub is_space : ℕ → Bool
is_space c = eqb c 32 || (leb 9 c && leb c 13)

unfoldable pub trim_start : Text → Text
trim_start [] = []
trim_start (c ∷ s) = let rest = trim_start s in if is_space c then rest else c ∷ s

unfoldable pub trim_end : Text → Text
trim_end [] = []
trim_end (c ∷ s) = let rest = trim_end s in if is_space c && rest == [] then [] else c ∷ rest

unfoldable pub trim_space : Text → Text
trim_space s = trim_end (trim_start s)

-- `remote` is `r.RemoteAddr`.
unfoldable pub get_client_ip : Text → Request → Text
get_client_ip remote r =
    let xff = r.header (lit "X-Forwarded-For") in
    let first : Text = elim (cut b',' xff) [ none ↦ xff | some parts ↦ parts.0 ] in
    if xff == [] then remote else trim_space first

-- The clients that fetch links for a preview.
unfoldable pub is_bot : (Text → Text) → Text → Bool
is_bot unicode user_agent =
    let ua = to_lower unicode user_agent in
    any (contains ua) (
      map lit (
        "telegrambot" ∷ "whatsapp" ∷ "slackbot" ∷ "discordbot" ∷ "facebookexternalhit"
        ∷ "twitterbot" ∷ "linkedinbot" ∷ []))
    || (contains ua (lit "bot") && contains ua (lit "http"))

-- Only paths are redirected to.
unfoldable pub safe_redirect : Text → Text
safe_redirect redirect =
    if redirect == [] || not (has_prefix redirect (lit "/")) || has_prefix redirect (lit "//")
    then lit "/dashboard"
    else redirect

-- The address, the clocks, the random bytes and the outcomes of one login; `unicode` is what
-- `strings.ToLower` makes of a text that is not ASCII.
pub record Login : Type 0 where
  pub remote : Text
  pub unicode : Text → Text
  pub limited_at : ℕ
  pub created_at : ℕ
  pub dated_at : ℕ
  pub random : Option Text
  pub saves : Bool

abbrev pub legacy_cookie : Cookie
legacy_cookie = record {
  name = lit "tg_user";
  value = [];
  http_only = false;
  secure = false;
  same_site_lax = false;
  path = lit "/";
  max_age = delete_now;
}

-- What a login changes: the limiter of the login routes, the sessions, and what providers change.
pub record Logins (D : Type 0) (W : Type 0) : Type 0 where
  pub limiter : RateLimiter
  pub sessions : D
  pub providers : W

module _ {V W : Type 0} (b : Bucket V) (c : Codec Session V) where
  -- The session that was made, or none, with the sessions after it.
  unfoldable pub answer_login :
      AuthManager W → Request → Logins b.Db W → Option Session × b.Db → Response × Logins b.Db W
  answer_login m r s (none, db) = (answer 500 page_error, record s { sessions = db })
  answer_login m r s (some session, db) = (
    redirection (safe_redirect (query r (lit "redirect"))) (set_session_cookie m session.id ∷ []),
    record s { sessions = db },
  )

  unfoldable pub log_in :
      AuthManager W → Login → Request → Logins b.Db W → Identity → Response × Logins b.Db W
  log_in m e r s identity =
      answer_login m r s
        (create_session b c m e.saves e.random e.created_at e.dated_at s.sessions identity)

  unfoldable pub after_provider :
      AuthManager W
      → Login
      → Request
      → Logins b.Db W
      → Option Identity × W
      → Response × Logins b.Db W
  after_provider m e r s (none, w) = (answer 401 page_error, record s { providers = w })
  after_provider m e r s (some id, w) = log_in m e r (record s { providers = w }) id

  unfoldable pub use_link :
      AuthManager W → Login → Request → Logins b.Db W → Provider W → Text → Response × Logins b.Db W
  use_link m e r s provider token =
      after_provider m e r s (provider.authenticate s.providers (magic_link_credentials token))

  -- The part of /auth/magic behind the limiter.
  unfoldable pub open_link :
      Option (AuthManager W) → Login → Request → Logins b.Db W → Response × Logins b.Db W
  open_link none e r s = (answer 400 page_error, s)
  open_link (some m) e r s =
      let token = query r (lit "ml_token") in
      if token == [] then (answer 400 page_error, s) else elim (get_provider m (lit "magic_link")) [
        | none ↦ (answer 500 page_error, s)
        | some provider ↦ use_link m e r s provider token
      ]

  unfoldable pub auth_magic :
      Option (AuthManager W) → Login → Request → Logins b.Db W → Response × Logins b.Db W
  auth_magic m e r s =
      let (allowed, limiter) = allow s.limiter (get_client_ip e.remote r) e.limited_at in
      let s' : Logins b.Db W = record s { limiter = limiter } in
      let opened = open_link m e r s' in
      if is_bot e.unicode (r.header (lit "User-Agent"))
      then (answer 204 no_body, s)
      else if allowed
      then opened
      else (refusal 429 (lit "Too many requests"), s')

  -- The session that `GetSession` finds is deleted; an expired one is gone already.
  unfoldable pub logout_session : AuthManager W → Bool → Bool → ℕ → b.Db → Request → b.Db
  logout_session m drops deletes now db r =
      let (got, db') = get_session b c m drops now db r in
      elim got [
        | no_cookie ↦ db'
        | lookup_failed ↦ db'
        | not_found ↦ db'
        | loaded s ↦ destroy_session b c m deletes db' s.id
      ]

  unfoldable pub auth_logout :
      Option (AuthManager W) → Bool → Bool → ℕ → b.Db → Request → Response × b.Db
  auth_logout none drops deletes now db r = (redirection (lit "/") (legacy_cookie ∷ []), db)
  auth_logout (some m) drops deletes now db r = (
    redirection (lit "/") (clear_session_cookie m ∷ legacy_cookie ∷ []),
    logout_session m drops deletes now db r,
  )
