-- ===== src/Server/Handlers/Links/Mail.antt =====
-- What a request for a link by e-mail tells its sender.
use vel.Common.{Option, Text, arith, if◌then◌else◌, none, refl, some, ℕ, ◌&&◌, ◌≡◌}
use vel.Std.Crypto.{Crypto}
use vel.Store.{Bucket, Codec}
use vel.Auth.Request.{Request}
use vel.Auth.Users.{UserStore, find_user_by_email}
use vel.Auth.MagicLinks.{Creation, MagicLink}
use vel.Server.Limits.{RateLimiter}
use vel.Server.Handlers.{answer, login_sent, Response}
use vel.Server.Handlers.Links.{
  Arrival, mail_link, Links, request_link, MailConfig, magic_link_request, unavailable, with_store,
}

module _ (h : Crypto) {L : Type 0} (l : Bucket L) (j : Codec MagicLink L) where
  request_link-response :
      (a : Arrival) (minutes : ℕ) (e : Creation) (us : UserStore) (r : Request) (body : Option Text)
      (limiter : RateLimiter) (links : Links h l j)
      → (request_link h l j a minutes e us r body (limiter, links)).0 ≡ answer 200 login_sent
  unfolding request_link
  request_link-response a minutes e us r none limiter links = refl
  request_link-response a minutes e us r (some email) limiter links = ground arith

  abbrev answered : MailConfig → Response
  answered cfg = if cfg.enabled && cfg.himalaya then answer 200 login_sent else unavailable h l j

  with_store-response :
      (a : Arrival) (cfg : MailConfig) (e : Creation) (us : UserStore) (r : Request)
      (body : Option Text) (limiter : RateLimiter) (links : Links h l j)
      → (with_store h l j a cfg e (some us) r body limiter (some links)).0 ≡ answered cfg
  unfolding with_store
  with_store-response a cfg e us r body limiter links =
      ground (arith, request_link-response a cfg.minutes e us r body limiter links)

  -- A request for a link by e-mail tells nothing about the users: with the same settings and the
  -- same method, two requests have the same response, whatever the users, the addresses, the
  -- limiter and the links are, and whether or not a link can be made.
  pub responses_tell_nothing :
      (cfg : MailConfig) (a a' : Arrival) (e e' : Creation) (us us' : UserStore) (r r' : Request)
      (body body' : Option Text) (limiter limiter' : RateLimiter) (links links' : Links h l j)
      → r.method ≡ r'.method
      → (magic_link_request h l j a cfg e (some us) r body limiter (some links)).0
        ≡ (magic_link_request h l j a' cfg e' (some us') r' body' limiter' (some links')).0
  unfolding magic_link_request
  responses_tell_nothing cfg a a' e e' us us' r r' body body' limiter limiter' links links' same =
      ground (
        arith,
        with_store-response a cfg e us r body limiter links,
        with_store-response a' cfg e' us' r' body' limiter' links',
      )

  -- No link is made and no store changes for an address that belongs to nobody.
  unknown_address_changes_nothing :
      (cfg : MailConfig) (a : Arrival) (e : Creation) (us : UserStore) (r : Request) (email : Text)
      (limiter : RateLimiter) (links : Links h l j)
      → find_user_by_email a.unicode us email ≡ none
      → (magic_link_request h l j a cfg e (some us) r (some email) limiter (some links)).2
        ≡ some links
  unfolding magic_link_request with_store request_link mail_link
  unknown_address_changes_nothing cfg a e us r email limiter links nobody = ground arith
