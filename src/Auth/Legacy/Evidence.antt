-- ===== src/Auth/Legacy/Evidence.antt =====
-- What `Check` has seen of a user that it returns, and what the WebSocket's handshake takes on trust.
use vel.Common.{
  ==_iff, ==_refl, Bool-cases, Option, Option-cases, Text, [], ap, arith, false, has_prefix,
  has_prefix_iff, inl, inr, lit, none, refl, some, subst, sym, trim_prefix, trim_prefix-append,
  true, ℕ, ◌++◌, ◌↔◌, ◌∙◌, ◌≡◌, ◌≢◌, ◌⊎◌,
}
use vel.Std.Values.{get_value, parse_query}
use vel.Std.Crypto.{Crypto}
use vel.Auth.Request.{Request}
use vel.Auth.Tokens.{ScopedToken, check_scoped_token}
use vel.Auth.Tokens.Access.{Holds, Reaches, check_scoped_token_iff}
use vel.Auth.Cookie.{verify_cookie}
use vel.Auth.Telegram.{User, validate_init_data}
use vel.Auth.Telegram.Valid.{IsSigned, validate_init_data_iff}
use vel.Auth.Legacy.{
  Settings, admin_user, allowed_only, get_user_from_cookie, is_allowed, scoped_user, user_of_bearer,
  user_of_init_data, user_of_query, validate_token, check, handshake, handshake_user,
}

module _ (c : Crypto) (decode_user : Text → Option User) (s : Settings) where
  -- A cookie that the server signed holds this user.
  abbrev pub HasCookie : Request → User → Type 0
  HasCookie r u =
      (signed : Text) × (value : Text) × (r.cookie (lit "tg_user") ≡ some signed)
      × (verify_cookie c s.cookie_secret signed ≡ some value)
      × (decode_user value ≡ some u)

  -- The request shows the master token, which is set: as a bearer, or in its query.
  abbrev pub HasMasterToken : Request → Type 0
  HasMasterToken r =
      (s.auth_token ≢ [])
      × ((r.header (lit "Authorization") ≡ lit "Bearer " ++ s.auth_token)
          ⊎ (get_value (parse_query r.raw_query).1 (lit "token") ≡ s.auth_token))

  -- The query shows a scoped token that reaches the path.
  abbrev pub HasScopedToken : Request → Text → Type 0
  HasScopedToken r name =
      let q_token = get_value (parse_query r.raw_query).1 (lit "token") in
      (q_token ≢ [])
      × ((t : ScopedToken) × Holds q_token t s.scoped_tokens × Reaches t r.path × (name ≡ t.name))

  abbrev pub Evidence : ℕ → Request → User → Type 0
  Evidence now r u =
      (HasCookie r u × (is_allowed s u.id ≡ true))
      ⊎ (HasMasterToken r × (u ≡ admin_user))
      ⊎ ((name : Text) × HasScopedToken r name × (u ≡ scoped_user name))
      ⊎ (IsSigned c s.bot_token decode_user now (r.header (lit "X-Telegram-Init-Data")) u
          × (is_allowed s u.id ≡ true))

  allowed_only-some :
      (o : Option User) (u : User)
      → allowed_only s o ≡ some u
      → (o ≡ some u) × (is_allowed s u.id ≡ true)
  unfolding allowed_only
  allowed_only-some none u h = absurd (ground arith)
  allowed_only-some (some v) u h = elim (Bool-cases (is_allowed s v.id)) [
    | inl yes_v ↦
        let same : v ≡ u = ground arith in
        (ap some same, subst (λ (x : User). is_allowed s x.id ≡ true) same yes_v)
    | inr no_v ↦ absurd (ground arith)
  ]

  cookie-some :
      (r : Request) (u : User) → get_user_from_cookie c decode_user s r ≡ some u → HasCookie r u
  unfolding get_user_from_cookie
  cookie-some r u h = elim (Option-cases (r.cookie (lit "tg_user"))) [
    | inl e ↦ absurd (ground arith)
    | inr (signed, e) ↦ elim (Option-cases (verify_cookie c s.cookie_secret signed)) [
      | inl k ↦ absurd (ground arith)
      | inr (value, k) ↦ (signed, value, e, k, ground arith)
    ]
  ]

  validate_token_iff :
      (token : Text)
      → (validate_token s token ≡ true) ↔ ((s.auth_token ≢ []) × (token ≡ s.auth_token))
  unfolding validate_token
  validate_token_iff token = ground (arith, ==_iff s.auth_token [], ==_iff token s.auth_token)

  bearer-tests :
      (r : Request) (u : User)
      → user_of_bearer c decode_user s r ≡ some u
      → let bearer = r.header (lit "Authorization") in
        (has_prefix bearer (lit "Bearer ") ≡ true)
        × (validate_token s (trim_prefix bearer (lit "Bearer ")) ≡ true)
        × (u ≡ admin_user)
  unfolding user_of_bearer
  bearer-tests r u h = (ground arith, ground arith, ground arith)

  bearer-some :
      (r : Request) (u : User)
      → user_of_bearer c decode_user s r ≡ some u
      → HasMasterToken r × (u ≡ admin_user)
  bearer-some r u h =
      let bearer = r.header (lit "Authorization") in
      let (hit, valid, who) = bearer-tests r u h in
      let (token, e) = (has_prefix_iff bearer (lit "Bearer ")).0 hit in
      let (is_set, same) = (validate_token_iff (trim_prefix bearer (lit "Bearer "))).0 valid in
      let trimmed : trim_prefix bearer (lit "Bearer ") ≡ token =
        ap (λ x. trim_prefix x (lit "Bearer ")) e ∙ trim_prefix-append (lit "Bearer ") token in
      ((is_set, inl (e ∙ ap (λ x. lit "Bearer " ++ x) (sym trimmed ∙ same))), who)

  query-some :
      (r : Request) (u : User)
      → user_of_query c decode_user s r ≡ some u
      → (HasMasterToken r × (u ≡ admin_user))
        ⊎ ((name : Text) × HasScopedToken r name × (u ≡ scoped_user name))
  unfolding user_of_query
  query-some r u h =
      let q_token = get_value (parse_query r.raw_query).1 (lit "token") in
      let name = check_scoped_token s.scoped_tokens q_token r.path in
      elim (Bool-cases (validate_token s q_token)) [
        | inl valid ↦
            let (is_set, same) = (validate_token_iff q_token).0 valid in
            inl ((is_set, inr same), ground arith)
        | inr other ↦
            let named : name ≢ [] = ground (arith, ==_iff name []) in
            inr (
              name,
              (check_scoped_token_iff s.scoped_tokens q_token r.path name named).0 refl,
              ground arith,
            )
      ]

  init_data-some :
      (now : ℕ) (r : Request) (u : User)
      → user_of_init_data c decode_user s now r ≡ some u
      → IsSigned c s.bot_token decode_user now (r.header (lit "X-Telegram-Init-Data")) u
        × (is_allowed s u.id ≡ true)
  unfolding user_of_init_data
  init_data-some now r u h =
      let init_data = r.header (lit "X-Telegram-Init-Data") in
      let found = validate_init_data c s.bot_token decode_user now init_data in
      let (e, allowed) = allowed_only-some found u (ground arith) in
      ((validate_init_data_iff c s.bot_token decode_user now init_data u).0 e, allowed)

  -- Outside of test mode and of the mode `none`, every user that Check returns is one for whom the
  -- request has shown something: an allowed user from a cookie that the server signed, the
  -- administrator for the master token, the user of a scoped token that reaches the path, or an
  -- allowed user from initial data that Telegram signed.
  pub check-some :
      (now : ℕ) (r : Request) (u : User)
      → s.test_mode ≡ false
      → s.auth_mode ≢ lit "none"
      → check c decode_user s now r ≡ some u
      → Evidence now r u
  unfolding check
  check-some now r u live mode h =
      let cookie = allowed_only s (get_user_from_cookie c decode_user s r) in
      elim (Option-cases cookie) [
        | inr (v, e) ↦
            let (got, allowed) =
              allowed_only-some (get_user_from_cookie c decode_user s r) u
                (ground (arith, ==_iff s.auth_mode (lit "none"))) in
            inl (cookie-some r u got, allowed)
        | inl e ↦ elim (Option-cases (user_of_bearer c decode_user s r)) [
          | inr (v, k) ↦
              inr (inl (bearer-some r u (ground (arith, ==_iff s.auth_mode (lit "none")))))
          | inl k ↦ elim (Option-cases (user_of_query c decode_user s r)) [
            | inr (v, j) ↦ elim (query-some r u (ground (arith, ==_iff s.auth_mode (lit "none")))) [
              | inl master ↦ inr (inl master)
              | inr scoped ↦ inr (inr (inl scoped))
            ]
            | inl j ↦ inr (
                inr
                  (inr (init_data-some now r u (ground (arith, ==_iff s.auth_mode (lit "none"))))))
          ]
        ]
      ]

  -- Behind no AuthManager, the handshake of the WebSocket lets in any client whose message names a
  -- user with an allowed id, sets the cookie flag and leaves the initial data empty: nothing of it
  -- is checked.
  pub handshake_takes_the_clients_word :
      (now : ℕ) (u : User)
      → is_allowed s u.id ≡ true
      → s.test_mode ≡ false
      → handshake c decode_user s now [] true (some u) ≡ true
  unfolding handshake handshake_user
  handshake_takes_the_clients_word now u allowed live = ground (arith, ==_refl [])
