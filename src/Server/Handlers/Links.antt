-- ===== src/Server/Handlers/Links.antt =====
-- internal/server/server.go: /api/auth/magic-link, /api/auth/magic-link/request and `getDomain`. A
-- failure of e-mail is only logged.
pub mod Mail
use vel.Common.{
  Bool, Option, Text, [], cut, eqb, if◌then◌else◌, lit, negsuc, none, not, pos, some, trim_prefix,
  ℕ, ℤ, ◌&&◌, ◌++◌, ◌==◌,
}
use vel.Std.Crypto.{Crypto}
use vel.Store.{Bucket, Codec}
use vel.Limiter.{RateTrack}
use vel.Auth.Request.{Request}
use vel.Auth.Users.{UserStore, find_user_by_email, find_user_by_id}
use vel.Auth.MagicLinks.{Creation, MagicLink, create, err, ok}
use vel.Server.Limits.{RateLimiter, allow}
use vel.Server.Handlers.{Response, admin_of, answer, link_made, refusal, store_error, login_sent}
use vel.Server.Handlers.Magic.{get_client_ip}

-- What `getDomain` reads of the configuration: `authUrl`, and the port in digits.
pub record Site : Type 0 where
  pub auth_url : Option Text
  pub port : Text

-- Everything in front of the first slash, if there is something.
abbrev pub host_of : Text → Text
host_of url = elim (cut b'/' url) [
  | none ↦ url
  | some parts ↦ if parts.0 == [] then url else parts.0
]

unfoldable pub get_domain : Site → Text
get_domain site =
    let local = lit "localhost:" ++ site.port in
    elim site.auth_url [
      | none ↦ local
      | some url ↦
          if url == []
          then local
          else host_of (trim_prefix (trim_prefix url (lit "https://")) (lit "http://"))
    ]

abbrev pub link_url : Site → Text → Text
link_url site token = lit "https://" ++ (get_domain site ++ (lit "/auth/magic?ml_token=" ++ token))

-- The body of the admin's request; a number that is not positive stands for 15 minutes.
pub record LinkRequest : Type 0 where
  pub user_id : Text
  pub expires_minutes : ℤ

abbrev pub minutes_of : ℤ → ℕ
minutes_of (negsuc n) = 15
minutes_of (pos n) = if eqb n 0 then 15 else n

-- Where a request comes from, the clock of the limiter, and what `strings.ToLower` makes of a text
-- that is not ASCII.
pub record Arrival : Type 0 where
  pub remote : Text
  pub unicode : Text → Text
  pub limited_at : ℕ

-- The settings for e-mail: `enabled` is false where there are none; `himalaya` says whether the
-- mailer is installed.
pub record MailConfig : Type 0 where
  pub enabled : Bool
  pub minutes : ℕ
  pub himalaya : Bool

module _ (h : Crypto) {L : Type 0} (l : Bucket L) (j : Codec MagicLink L) where
  -- A store of magic links with its rate limit.
  abbrev pub Links : Type 0
  Links = RateTrack × l.Db

  unfoldable pub make_link_in :
      Site → Creation → LinkRequest → Option Links → Response × Option Links
  make_link_in site e body none = (refusal 500 (lit "magic link store not configured"), none)
  make_link_in site e body (some (r, db)) =
      let (made, r', db') = create h l j r db body.user_id (minutes_of body.expires_minutes) e in
      elim made [
        | err x ↦ (answer 429 store_error, some (r', db'))
        | ok token ↦ (answer 200 (link_made (link_url site token)), some (r', db'))
      ]

  unfoldable pub make_link_for :
      Site → Creation → UserStore → Option Links → LinkRequest → Response × Option Links
  make_link_for site e us links body = elim (find_user_by_id us body.user_id) [
    | none ↦ (refusal 404 (lit "user not found"), links)
    | some u ↦ make_link_in site e body links
  ]

  -- /api/auth/magic-link; `users` is none where there is no AuthManager.
  unfoldable pub magic_link :
      Site
      → Creation
      → Option UserStore
      → Option Links
      → Option LinkRequest
      → Request
      → Response × Option Links
  magic_link site e users links body r =
      if not (r.method == lit "POST")
      then (refusal 405 (lit "Method not allowed"), links)
      else if not (r.path == lit "/api/auth/magic-link")
      then (refusal 404 (lit "404 page not found"), links)
      else elim (admin_of r) [
        | none ↦ (refusal 403 (lit "Forbidden"), links)
        | some id ↦ elim users [
          | none ↦ (refusal 500 (lit "auth not configured"), links)
          | some us ↦ elim body [
            | none ↦ (refusal 400 (lit "invalid request body"), links)
            | some req ↦
                if req.user_id == []
                then (refusal 400 (lit "user_id required"), links)
                else make_link_for site e us links req
          ]
        ]
      ]

  -- Behind the limiter: the link for the user of the address is made, and sent by e-mail. Whatever
  -- comes of it, the response is the same.
  unfoldable pub mail_link : (Text → Text) → ℕ → Creation → UserStore → Links → Text → Links
  mail_link unicode minutes e us (r, db) email = elim (find_user_by_email unicode us email) [
    | none ↦ (r, db)
    | some u ↦ let (made, r', db') = create h l j r db u.id minutes e in (r', db')
  ]

  unfoldable pub request_link :
      Arrival
      → ℕ
      → Creation
      → UserStore
      → Request
      → Option Text
      → RateLimiter × Links
      → Response × RateLimiter × Links
  request_link a minutes e us r none (limiter, links) = (answer 200 login_sent, limiter, links)
  request_link a minutes e us r (some email) (limiter, links) =
      let (allowed, limiter') = allow limiter (get_client_ip a.remote r) a.limited_at in
      let links' = mail_link a.unicode minutes e us links email in
      if email == []
      then (answer 200 login_sent, limiter, links)
      else if allowed
      then (answer 200 login_sent, limiter', links')
      else (answer 200 login_sent, limiter', links)

  abbrev pub unavailable : Response
  unavailable = refusal 200 (lit "Email login not available")

  -- /api/auth/magic-link/request behind the test of the method, with its store.
  unfoldable pub with_store :
      Arrival
      → MailConfig
      → Creation
      → Option UserStore
      → Request
      → Option Text
      → RateLimiter
      → Option Links
      → Response × RateLimiter × Option Links
  with_store a cfg e none r body limiter links = (unavailable, limiter, links)
  with_store a cfg e (some us) r body limiter none = (unavailable, limiter, none)
  with_store a cfg e (some us) r body limiter (some links) =
      let (response, limiter', links') = request_link a cfg.minutes e us r body (limiter, links) in
      if cfg.enabled && cfg.himalaya
      then (response, limiter', some links')
      else (unavailable, limiter, some links)

  unfoldable pub magic_link_request :
      Arrival
      → MailConfig
      → Creation
      → Option UserStore
      → Request
      → Option Text
      → RateLimiter
      → Option Links
      → Response × RateLimiter × Option Links
  magic_link_request a cfg e users r body limiter links =
      if r.method == lit "POST"
      then with_store a cfg e users r body limiter links
      else (refusal 405 (lit "Method not allowed"), limiter, links)
