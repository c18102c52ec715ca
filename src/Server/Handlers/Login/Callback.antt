-- ===== src/Server/Handlers/Login/Callback.antt =====
-- Whom the callback of Telegram's widget logs in.
use vel.Common.{
  Bool-cases, In, Option, Option-cases, Text, [], ap, arith, false, inl, inr, lit, none, refl, some,
  subst, sym, true, ℕ, ◌==◌, ◌||◌, ◌∙◌, ◌∷◌, ◌≡◌,
}
use vel.Std.Hex.{decode}
use vel.Std.Crypto.{Crypto}
use vel.Std.Values.{Values, delete_key, get_value}
use vel.Store.{Bucket, Codec}
use vel.Auth.Types.{Session}
use vel.Auth.Request.{Request}
use vel.Auth.Users.{UserRecord, UserStore, get_all_users, find_user_by_identity}
use vel.Auth.Telegram.{User, data_check_string, is_outdated, parse_int, validate_telegram_login}
use vel.Auth.Telegram.Decimal.{format_int, parse_int-InRange}
use vel.Auth.Telegram.Valid.{hash_holds_iff}
use vel.Auth.Legacy.{Settings, is_allowed}
use vel.Auth.Providers.Telegram.{HasAccount, telegram_identity, found-HasAccount}
use vel.Auth.Manager.{AuthManager, create_session}
use vel.Server.Limits.{RateLimiter, allow}
use vel.Server.Middleware.{set_session_cookie}
use vel.Server.Handlers.{Response}
use vel.Server.Handlers.Magic.{Login, get_client_ip}
use vel.Server.Handlers.Login.{
  answer_session, callback_user, finish_callback, legacy_callback, refuse_callback,
  session_callback, signed_user, login_params, telegram_callback,
}

-- The parameters carry the digest of the others under the bot's token, and are not outdated.
abbrev pub IsSignedLogin : Crypto → Text → ℕ → Values → Type 0
IsSignedLogin h bot_token now params =
    (decode (get_value params (lit "hash"))
      ≡ some
          (h.hmac_sha256 (h.sum256 bot_token) (data_check_string (delete_key params (lit "hash")))))
    × (is_outdated now (parse_int (get_value params (lit "auth_date"))) ≡ false)

module _ (h : Crypto) (json : Codec User Text) (s : Settings) where
  refuse_callback-none :
      (now : ℕ) (params : Values)
      → refuse_callback h json s now params ≡ none
      → IsSignedLogin h s.bot_token now params
  unfolding refuse_callback validate_telegram_login
  refuse_callback-none now params e = ground (
    arith,
    hash_holds_iff (get_value params (lit "hash"))
        (h.hmac_sha256 (h.sum256 s.bot_token) (data_check_string (delete_key params (lit "hash"))))
        (h.hmac_bytes (h.sum256 s.bot_token) (data_check_string (delete_key params (lit "hash")))),
  )

  refuse_callback-nowhere :
      (now : ℕ) (params : Values) (response : Response)
      → refuse_callback h json s now params ≡ some response
      → response.location ≡ none
  unfolding refuse_callback
  refuse_callback-nowhere now params response e =
      elim (Bool-cases (get_value params (lit "hash") == [] || get_value params (lit "id") == [])) [
        | inl missing ↦ ground arith
        | inr full ↦ elim (Bool-cases (validate_telegram_login h s.bot_token params)) [
          | inr forged ↦ ground arith
          | inl valid ↦ ground arith
        ]
      ]

  module _ {V W : Type 0} (b : Bucket V) (c : Codec Session V) where
    -- Behind an AuthManager: a user of the file lists the account, and the session is this user's.
    abbrev pub HasSession :
        AuthManager W → UserStore → Login → b.Db → User → Response → b.Db → Type 0
    HasSession m us e db u response db' =
        (rec : UserRecord) × In rec (get_all_users us)
        × HasAccount u rec
        × ((session : Session) × (create_session b c m e.saves e.random e.created_at e.dated_at db
                (telegram_identity rec (format_int u.id) u.first_name u.username)
              ≡ (some session, db'))
            × (response.cookies ≡ set_session_cookie m session.id ∷ []))

    -- Behind none, the settings allow the account, and the cookie is signed for the user.
    abbrev pub IsLoggedIn :
        Option (AuthManager W × UserStore) → Login → b.Db → User → Response → b.Db → Type 0
    IsLoggedIn none e db u response db' =
        (is_allowed s u.id ≡ true) × (response.cookies ≡ signed_user h json s u ∷ []) × (db' ≡ db)
    IsLoggedIn (some (m, us)) e db u response db' = HasSession m us e db u response db'

    answer_session-location :
        (m : AuthManager W) (p : Option Session × b.Db) (to : Text)
        → (answer_session h json s b c m p).0.location ≡ some to
        → (session : Session) × (p ≡ (some session, (answer_session h json s b c m p).1))
          × ((answer_session h json s b c m p).0.cookies ≡ set_session_cookie m session.id ∷ [])
    answer_session-location m (none, db) to k = absurd (ground arith)
    answer_session-location m (some session, db) to k = (session, refl, refl)

    finish_callback-location :
        (manager : Option (AuthManager W × UserStore)) (e : Login) (db : b.Db) (params : Values)
        (to : Text)
        → (finish_callback h json s b c manager e db params).0.location ≡ some to
        → IsLoggedIn manager e db
            (callback_user params)
            (finish_callback h json s b c manager e db params).0
            (finish_callback h json s b c manager e db params).1
    unfolding finish_callback legacy_callback session_callback
    finish_callback-location none e db params to k =
        elim (Bool-cases (is_allowed s (parse_int (get_value params (lit "id"))))) [
          | inl allowed ↦ (allowed, rw (allowed, legacy_callback) refl, refl)
          | inr denied ↦ absurd (ground arith)
        ]
    finish_callback-location (some (m, us)) e db params to k =
        let u = callback_user params in
        elim (Option-cases (find_user_by_identity us (lit "telegram") (format_int u.id))) [
          | inl nobody ↦ absurd (ground arith)
          | inr (rec, found) ↦
              let (i, account) =
                found-HasAccount us u rec (parse_int-InRange (get_value params (lit "id"))) found in
              let made =
                create_session b c m e.saves e.random e.created_at e.dated_at db
                  (telegram_identity rec (format_int u.id) u.first_name u.username) in
              let same : session_callback h json s b c m us e db params
                  ≡ answer_session h json s b c m made =
                rw (found, session_callback) refl in
              let (session, taken, cookie) =
                answer_session-location m made to (subst (λ x. x.0.location ≡ some to) same k) in
              subst (λ x. HasSession m us e db u x.0 x.1) (sym same)
                (rec, i, account, (session, taken, cookie))
        ]

    -- The callback sends a client on only after a login. Then the parameters carry the digest of
    -- each other under the bot's token and are not outdated. Behind an AuthManager, some user of the
    -- file lists the account with exactly the number of the parameters, and the cookie that is set
    -- is that of a session made for this user; behind none, the settings allow the account, and the
    -- cookie is signed for it.
    pub telegram_callback-location :
        (manager : Option (AuthManager W × UserStore)) (e : Login) (now : ℕ) (r : Request)
        (limiter limiter' : RateLimiter) (db db' : b.Db) (response : Response) (to : Text)
        → telegram_callback h json s b c manager e now r (limiter, db) ≡ (response, limiter', db')
        → response.location ≡ some to
        → IsSignedLogin h s.bot_token now (login_params r)
          × IsLoggedIn manager e db (callback_user (login_params r)) response db'
    unfolding telegram_callback
    telegram_callback-location manager e now r limiter limiter' db db' response to k sends =
        let params = login_params r in
        let (allowed, left) = allow limiter (get_client_ip e.remote r) e.limited_at in
        elim (Bool-cases allowed) [
          | inr limited ↦ absurd (ground arith)
          | inl passed ↦ elim (Option-cases (refuse_callback h json s now params)) [
            | inr (refused, x) ↦
                absurd (ground (arith, refuse_callback-nowhere now params refused x))
            | inl goes ↦
                let finished = finish_callback h json s b c manager e db params in
                let same : finished ≡ (response, db') = ground arith in
                (
                  refuse_callback-none now params goes,
                  subst (λ x. IsLoggedIn manager e db (callback_user params) x.0 x.1) same
                      (finish_callback-location manager e db params to
                        (ap (λ x. x.0.location) same ∙ sends)),
                )
          ]
        ]
