-- ===== src/Server/Handlers/Tokens/Use.antt =====
-- Who administers the tokens, and what a token that was handed out is good for.
use vel.Common.{
  ==_iff, Bool, Bool-cases, In, List, Option, Option-cases, Text, [], ap, ap₂, arith, false,
  has_prefix, inl, inr, lit, none, not, refl, some, subst, true, ℕ, ◌&&◌, ◌++◌, ◌==◌, ◌∙◌, ◌≡◌, ◌≢◌,
}
use vel.Std.Crypto.{Crypto}
use vel.Std.Values.{get_value, parse_query}
use vel.Auth.Request.{Request}
use vel.Auth.Tokens.{ScopedToken, add_scoped_token, check_scoped_token, remove_scoped_token}
use vel.Auth.Tokens.Access.{IsUnheld, added_token_passes}
use vel.Auth.Telegram.{User}
use vel.Auth.Legacy.{
  allowed_only, get_user_from_cookie, scoped_user, user_of_bearer, user_of_query, validate_token,
  Settings, check, is_scoped_user,
}
use vel.Server.Handlers.{Response, done, answer, token_made}
use vel.Server.Handlers.Tokens.{
  Config, after_write, NewToken, made_token, lacks_scopes, TokenState, delete_token, post_token,
  check_auth_not_scoped, name_to_delete, tokens_admin, tokens_handler, is_there,
}

module _ (h : Crypto) (decode_user : Text → Option User) where
  -- Check returns a user who did not come by a scoped token.
  abbrev pub IsFullLogin : Settings → ℕ → Request → Type 0
  IsFullLogin s now r =
      (u : User) × (check h decode_user s now r ≡ some u) × (is_scoped_user (some u) ≡ false)

  check_auth_not_scoped-IsFullLogin :
      (s : Settings) (now : ℕ) (r : Request)
      → check_auth_not_scoped h decode_user false s now r ≡ true
      → IsFullLogin s now r
  unfolding check_auth_not_scoped
  check_auth_not_scoped-IsFullLogin s now r e = elim (Option-cases (check h decode_user s now r)) [
    | inl nobody ↦ absurd (ground arith)
    | inr (u, k) ↦
        let full : (is_there (some u) && not (is_scoped_user (some u))) ≡ true =
          subst (λ o. (is_there o && not (is_scoped_user o)) ≡ true) k e in
        (u, k, ground arith)
  ]

  after_write-some :
      (response answered : Response) (s s' : TokenState) (o : Option Config)
      → after_write response s o ≡ (some answered, s')
      → (response ≡ answered) × (s.settings ≡ s'.settings)
  after_write-some response answered s s' none e = absurd (ground arith)
  after_write-some response answered s s' (some file) e = (ground arith, ap (λ x. x.1.settings) e)

  made_token-made :
      (writes : Bool) (s s' : TokenState) (n name token : Text)
      (p : Option (Text × List ScopedToken))
      → made_token writes s n p ≡ (some (answer 200 (token_made name token)), s')
      → (name ≡ n) × (p ≡ some (token, s'.settings.scoped_tokens))
  made_token-made writes s s' n name token none e = absurd (ground arith)
  made_token-made writes s s' n name token (some (t, ts)) e =
      let (answers, kept) = after_write-some (answer 200 (token_made n t)) _ _ s' _ e in
      let same : t ≡ token = ground arith in
      (ground arith, ap₂ (λ x y. some (x, y)) same (ap (λ x. x.scoped_tokens) kept))

  post_token-made :
      (writes : Bool) (random : Text) (s s' : TokenState) (b : NewToken) (name token : Text)
      → post_token writes random s (some b) ≡ (some (answer 200 (token_made name token)), s')
      → (name ≡ b.name)
        × (b.name ≢ [])
        × (add_scoped_token s.settings.scoped_tokens b.name b.scopes random
            ≡ some (token, s'.settings.scoped_tokens))
  unfolding post_token
  post_token-made writes random s s' b name token e = elim (Bool-cases (b.name == [])) [
    | inl nameless ↦ absurd (ground arith)
    | inr named ↦ elim (Bool-cases (lacks_scopes b.scopes)) [
      | inl none_there ↦ absurd (ground arith)
      | inr listed ↦
          let (same, added) =
            made_token-made writes s s' b.name name token
              (add_scoped_token s.settings.scoped_tokens b.name b.scopes random) (ground arith) in
          let filled : b.name ≢ [] = ground (arith, ==_iff b.name []) in (same, filled, added)
    ]
  ]

  delete_token-made :
      (writes : Bool) (s s' : TokenState) (n name token : Text)
      → ¬ (delete_token writes s n ≡ (some (answer 200 (token_made name token)), s'))
  unfolding delete_token
  delete_token-made writes s s' n name token e = elim (Bool-cases (n == [])) [
    | inl nameless ↦ ground arith
    | inr named ↦ elim (Bool-cases (remove_scoped_token s.settings.scoped_tokens n).0) [
      | inl found ↦
          let wrote =
            after_write-some (answer 200 done) (answer 200 (token_made name token)) _ s' _
              (rw (named, found) at e) in
          ground arith
      | inr missing ↦ ground arith
    ]
  ]

  tokens_admin-made :
      (writes : Bool) (random : Text) (b : NewToken) (body_name : Text) (r : Request)
      (s s' : TokenState) (name token : Text)
      → tokens_admin writes random (some b) body_name r s
        ≡ (some (answer 200 (token_made name token)), s')
      → post_token writes random s (some b) ≡ (some (answer 200 (token_made name token)), s')
  unfolding tokens_admin
  tokens_admin-made writes random b body_name r s s' name token e =
      elim (Bool-cases (r.method == lit "GET")) [
        | inl get ↦ absurd (ground arith)
        | inr no_get ↦ elim (Bool-cases (r.method == lit "POST")) [
          | inl post ↦ ground arith
          | inr no_post ↦ elim (Bool-cases (r.method == lit "DELETE")) [
            | inl delete ↦ absurd (
                delete_token-made writes s s' (name_to_delete r body_name) name token
                  (ground arith))
            | inr no_delete ↦ absurd (ground arith)
          ]
        ]
      ]

  -- The request carries the token in its query, and neither a cookie nor an Authorization header.
  abbrev pub CarriesToken : Request → Text → Type 0
  CarriesToken next token =
      (get_value (parse_query next.raw_query).1 (lit "token") ≡ token)
      × (next.cookie (lit "tg_user") ≡ none)
      × (next.header (lit "Authorization") ≡ [])

  user_from_no_cookie :
      (s : Settings) (next : Request)
      → next.cookie (lit "tg_user") ≡ none
      → get_user_from_cookie h decode_user s next ≡ none
  unfolding get_user_from_cookie
  user_from_no_cookie s next bare = rw (bare, get_user_from_cookie) refl

  user_of_no_bearer :
      (s : Settings) (next : Request)
      → next.header (lit "Authorization") ≡ []
      → user_of_bearer h decode_user s next ≡ none
  unfolding user_of_bearer has_prefix
  user_of_no_bearer s next silent =
      let nothing : has_prefix (next.header (lit "Authorization")) (lit "Bearer ") ≡ false =
        ap (λ x. has_prefix x (lit "Bearer ")) silent in
      ground arith

  other_token :
      (s : Settings) (token : Text) → token ≢ s.auth_token → validate_token s token ≡ false
  unfolding validate_token
  other_token s token other = ground (arith, ==_iff token s.auth_token)

  user_of_query-scoped :
      (s : Settings) (next : Request) (token name : Text)
      → token ≢ s.auth_token
      → token ≢ []
      → name ≢ []
      → get_value (parse_query next.raw_query).1 (lit "token") ≡ token
      → check_scoped_token s.scoped_tokens token next.path ≡ name
      → user_of_query h decode_user s next ≡ some (scoped_user name)
  unfolding user_of_query
  user_of_query-scoped s next token name other full named brings passes =
      let filled : (token == []) ≡ false = ground (arith, ==_iff token []) in
      let called : (name == []) ≡ false = ground (arith, ==_iff name []) in
      rw (brings, filled, other_token s token other, passes, called) refl

  check-token :
      (s : Settings) (later : ℕ) (next : Request) (token name : Text)
      → s.test_mode ≡ false
      → s.auth_mode ≢ lit "none"
      → token ≢ s.auth_token
      → token ≢ []
      → name ≢ []
      → CarriesToken next token
      → check_scoped_token s.scoped_tokens token next.path ≡ name
      → check h decode_user s later next ≡ some (scoped_user name)
  unfolding check allowed_only
  check-token s later next token name live mode other full named (brings, bare, silent) passes =
      let watched : (s.auth_mode == lit "none") ≡ false =
        ground (arith, ==_iff s.auth_mode (lit "none")) in
      let nobody : allowed_only s (get_user_from_cookie h decode_user s next) ≡ none =
        ap (allowed_only s) (user_from_no_cookie s next bare) in
      ground (
        arith,
        watched,
        nobody,
        user_of_no_bearer s next silent,
        user_of_query-scoped s next token name other full named brings passes,
      )

  -- Where there is no AuthManager, a token that the handler hands out was asked for by a full login,
  -- and the settings as the request left them let it in: Check takes a request with this token in
  -- its query, whose path begins with one of the scopes, for the scoped user of the name that was
  -- asked for. Let the token be neither empty nor the master token nor the text of an earlier one,
  -- let the request carry no cookie and no Authorization header, and let neither test mode nor the
  -- mode `none` be on.
  pub handed_out_token_opens :
      (now later : ℕ) (writes : Bool) (random : Text) (b : NewToken) (body_name : Text)
      (r next : Request) (s s' : TokenState) (name token scope rest : Text)
      → tokens_handler h decode_user false now writes random (some b) body_name r s
        ≡ (some (answer 200 (token_made name token)), s')
      → token ≢ []
      → IsUnheld token s.settings.scoped_tokens
      → In scope b.scopes
      → s'.settings.test_mode ≡ false
      → s'.settings.auth_mode ≢ lit "none"
      → token ≢ s'.settings.auth_token
      → CarriesToken next token
      → next.path ≡ scope ++ rest
      → IsFullLogin s.settings now r
        × (name ≡ b.name)
        × (check h decode_user s'.settings later next ≡ some (scoped_user b.name))
  unfolding tokens_handler
  handed_out_token_opens now later writes random b body_name r next s s' name token scope rest e
        full unheld listed live mode other carries below =
      elim (Bool-cases (check_auth_not_scoped h decode_user false s.settings now r)) [
        | inr stranger ↦ absurd (ground arith)
        | inl allowed ↦
            let (same, named, added) =
              post_token-made writes random s s' b name token
                (tokens_admin-made writes random b body_name r s s' name token (ground arith)) in
            let passes =
              added_token_passes s.settings.scoped_tokens b.name b.scopes random token
                s'.settings.scoped_tokens scope rest added full named unheld listed in
            (
              check_auth_not_scoped-IsFullLogin s.settings now r allowed,
              same,
              check-token s'.settings later next token b.name live mode other full named carries
                  (ap (check_scoped_token s'.settings.scoped_tokens token) below ∙ passes),
            )
      ]
