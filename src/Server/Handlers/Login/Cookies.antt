-- ===== src/Server/Handlers/Login/Cookies.antt =====
-- The cookie that a login behind no AuthManager sets, and the next request that brings it back.
use vel.Common.{
  ==_iff, All, Bool-cases, Text, [], ap, arith, false, inl, inr, lit, refl, some, subst, sym, true,
  ℕ, ◌==◌, ◌∙◌, ◌∷◌, ◌≡◌, ◌≢◌,
}
use vel.Std.Hex.{IsByte}
use vel.Std.Crypto.{Crypto}
use vel.Store.{Codec}
use vel.Auth.Request.{Request}
use vel.Auth.Cookie.{sign_cookie}
use vel.Auth.Cookie.Laws.{verify_cookie-sign}
use vel.Auth.Telegram.{User}
use vel.Auth.Legacy.{
  Settings, admin_user, allowed_only, check, get_user_from_cookie, is_allowed, validate_token,
}
use vel.Server.Limits.{RateLimiter, allow}
use vel.Server.Middleware.{Cookie}
use vel.Server.Handlers.{Response}
use vel.Server.Handlers.Magic.{Login, get_client_ip}
use vel.Server.Handlers.Login.{auth_token, signed_user}

-- The request brings the only cookie of the response back.
abbrev pub Returns : Request → Response → Type 0
Returns next response =
    (k : Cookie) × (response.cookies ≡ k ∷ []) × (next.cookie k.name ≡ some k.value)

module _ (h : Crypto) (json : Codec User Text) (s : Settings) where
  -- The JSON of the user is bytes.
  abbrev pub IsText : User → Type 0
  IsText u = All IsByte (json.marshal u)

  returned :
      (next : Request) (response : Response) (u : User)
      → response.cookies ≡ signed_user h json s u ∷ []
      → Returns next response
      → next.cookie (lit "tg_user") ≡ some (sign_cookie h s.cookie_secret (json.marshal u))
  unfolding signed_user
  returned next response u e (k, only, back) =
      let same : k ≡ signed_user h json s u = ground arith in
      subst (λ x. next.cookie x.name ≡ some x.value) same back

  user_from_cookie :
      (next : Request) (u : User)
      → IsText u
      → next.cookie (lit "tg_user") ≡ some (sign_cookie h s.cookie_secret (json.marshal u))
      → get_user_from_cookie h json.unmarshal s next ≡ some u
  unfolding get_user_from_cookie
  user_from_cookie next u text brought =
      rw (brought, get_user_from_cookie, verify_cookie-sign h s.cookie_secret (json.marshal u) text)
        (json.unmarshal-marshal u)

  check-signed :
      (next : Request) (response : Response) (u : User) (later : ℕ)
      → s.test_mode ≡ false
      → s.auth_mode ≢ lit "none"
      → IsText u
      → is_allowed s u.id ≡ true
      → response.cookies ≡ signed_user h json s u ∷ []
      → Returns next response
      → check h json.unmarshal s later next ≡ some u
  unfolding check allowed_only
  check-signed next response u later live mode text allowed e back =
      let found = user_from_cookie next u text (returned next response u e back) in
      let other : (s.auth_mode == lit "none") ≡ false =
        ground (arith, ==_iff s.auth_mode (lit "none")) in
      let kept : allowed_only s (get_user_from_cookie h json.unmarshal s next) ≡ some u =
        ap (allowed_only s) found ∙ rw allowed refl in
      ground (arith, kept, other, live)

  token_mode : lit "token" ≢ lit "none"
  token_mode e = ground arith

  validated : (token : Text) → validate_token s token ≡ true → token ≡ s.auth_token
  unfolding validate_token
  validated token h = (==_iff token s.auth_token).0 (ground arith)

  -- The response of /auth/token is a success only for the master token, and then, in the mode
  -- `token`, a request that brings its cookie back is the administrator's.
  token_login_lasts :
      (remote token : Text) (limited_at later : ℕ) (r next : Request)
      (limiter limiter' : RateLimiter) (response : Response)
      → s.test_mode ≡ false
      → s.auth_mode ≡ lit "token"
      → IsText admin_user
      → auth_token h json s remote limited_at token r limiter ≡ (response, limiter')
      → response.status ≡ 200
      → Returns next response
      → (token ≡ s.auth_token) × (check h json.unmarshal s later next ≡ some admin_user)
  unfolding auth_token is_allowed ◌==◌
  token_login_lasts remote token limited_at later r next limiter limiter' response live mode text k
        well back =
      let (allowed, left) = allow limiter (get_client_ip remote r) limited_at in
      elim (Bool-cases (r.method == lit "POST")) [
        | inr other ↦ absurd (ground arith)
        | inl post ↦ elim (Bool-cases allowed) [
          | inr limited ↦ absurd (ground arith)
          | inl passed ↦ elim (Bool-cases (validate_token s token)) [
            | inr wrong ↦ absurd (ground arith)
            | inl right ↦ (
              validated token right,
              check-signed next response admin_user later live (λ e. token_mode (sym mode ∙ e)) text
                  (rw (mode, live, is_allowed) refl) (ground arith) back,
            )
          ]
        ]
      ]
