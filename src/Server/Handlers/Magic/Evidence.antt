-- ===== src/Server/Handlers/Magic/Evidence.antt =====
-- What a login by a magic link rests on.
use vel.Common.{
  ==_iff, Bool, Bool-cases, Option, Option-cases, Text, [], ap, arith, false, has_prefix,
  has_prefix_iff, inl, inr, lit, none, not, refl, some, subst, sym, ◌++◌, ◌==◌, ◌||◌, ◌∙◌, ◌∷◌, ◌≡◌,
  ◌≢◌,
}
use vel.Store.{Bucket, Codec}
use vel.Auth.Types.{Identity, Session}
use vel.Auth.Request.{Request}
use vel.Auth.Providers.{Provider, magic_link_credentials}
use vel.Auth.Manager.{AuthManager, create_session, get_provider}
use vel.Server.Middleware.{set_session_cookie}
use vel.Server.Limits.{allow}
use vel.Server.Handlers.{Response, query}
use vel.Server.Handlers.Magic.{
  after_provider, answer_login, Login, Logins, log_in, safe_redirect, open_link, use_link,
  auth_magic, get_client_ip, is_bot,
}

-- A text with a slash in front and no second one behind it. A backslash may follow, so that a
-- browser can read it as the name of another host.
abbrev pub IsRooted : Text → Type 0
IsRooted to = (t : Text) × (to ≡ b'/' ∷ t) × (has_prefix t (lit "/") ≡ false)

abbrev is_away : Text → Bool
is_away redirect =
    redirect == [] || not (has_prefix redirect (lit "/")) || has_prefix redirect (lit "//")

slashes : (t : Text) → has_prefix (b'/' ∷ t) (lit "//") ≡ has_prefix t (lit "/")
unfolding has_prefix
slashes t = refl

no_slash :
    (redirect t : Text)
    → is_away redirect ≡ false
    → redirect ≡ lit "/" ++ t
    → has_prefix t (lit "/") ≡ false
no_slash redirect t h e = sym (slashes t) ∙ ap (λ x. has_prefix x (lit "//")) (sym e) ∙ ground arith

safe_redirect-IsRooted : (redirect : Text) → IsRooted (safe_redirect redirect)
unfolding safe_redirect has_prefix
safe_redirect-IsRooted redirect = elim (Bool-cases (is_away redirect)) [
  | inl away ↦ rw away (lit "dashboard", refl, refl)
  | inr local ↦
      let (t, e) = (has_prefix_iff redirect (lit "/")).0 (ground arith) in
      rw local (t, e, no_slash redirect t local e)
]

module _ {V W : Type 0} (b : Bucket V) (c : Codec Session V) where
  -- The response sends the client on, with the cookie of a session that was made for the identity.
  abbrev pub LogsIn : AuthManager W → Login → b.Db → Response → b.Db → Identity → Text → Type 0
  LogsIn m e before response after id to =
      (session : Session) × (create_session b c m e.saves e.random e.created_at e.dated_at before id
        ≡ (some session, after))
      × (response.cookies ≡ set_session_cookie m session.id ∷ [])
      × IsRooted to

  answer_login-location :
      (m : AuthManager W) (r : Request) (s : Logins b.Db W) (p : Option Session × b.Db) (to : Text)
      → (answer_login b c m r s p).0.location ≡ some to
      → (session : Session) × (p ≡ (some session, (answer_login b c m r s p).1.sessions))
        × ((answer_login b c m r s p).0.cookies ≡ set_session_cookie m session.id ∷ [])
        × IsRooted to
  unfolding answer_login
  answer_login-location m r s (none, db) to h = absurd (ground arith)
  answer_login-location m r s (some session, db) to h = (
    session,
    refl,
    refl,
    subst IsRooted (ground arith) (safe_redirect-IsRooted (query r (lit "redirect"))),
  )

  answer_login-providers :
      (m : AuthManager W) (r : Request) (s : Logins b.Db W) (p : Option Session × b.Db)
      → (answer_login b c m r s p).1.providers ≡ s.providers
  unfolding answer_login
  answer_login-providers m r s (none, db) = refl
  answer_login-providers m r s (some session, db) = refl

  -- The provider took the token and named an identity, for which a session was made.
  abbrev pub TakesLink :
      AuthManager W
      → Login
      → Logins b.Db W
      → Option Identity × W
      → Response
      → Logins b.Db W
      → Text
      → Type 0
  TakesLink m e s p response s' to =
      (id : Identity) × (p ≡ (some id, s'.providers))
      × LogsIn m e s.sessions response s'.sessions id to

  after_provider-location :
      (m : AuthManager W) (e : Login) (r : Request) (s : Logins b.Db W) (p : Option Identity × W)
      (to : Text)
      → (after_provider b c m e r s p).0.location ≡ some to
      → TakesLink m e s p (after_provider b c m e r s p).0 (after_provider b c m e r s p).1 to
  unfolding after_provider log_in
  after_provider-location m e r s (none, w) to h = absurd (ground arith)
  after_provider-location m e r s (some id, w) to h =
      let s' : Logins b.Db W = record s { providers = w } in
      let made = create_session b c m e.saves e.random e.created_at e.dated_at s.sessions id in
      (
        id,
        ap (λ x. (some id, x)) (sym (answer_login-providers m r s' made)),
        answer_login-location m r s' made to h,
      )

  -- What a login by a link rests on: the token of the request, which is not empty, was given to the
  -- provider for magic links.
  abbrev pub RestsOnLink :
      AuthManager W → Login → Request → Logins b.Db W → Response → Logins b.Db W → Text → Type 0
  RestsOnLink m e r s response s' to =
      (provider : Provider W) × (get_provider m (lit "magic_link") ≡ some provider)
      × (query r (lit "ml_token") ≢ [])
      × TakesLink m e s
          (provider.authenticate s.providers (magic_link_credentials (query r (lit "ml_token"))))
          response s' to

  open_link-location :
      (m : AuthManager W) (e : Login) (r : Request) (s : Logins b.Db W) (to : Text)
      → (open_link b c (some m) e r s).0.location ≡ some to
      → RestsOnLink m e r s (open_link b c (some m) e r s).0 (open_link b c (some m) e r s).1 to
  unfolding open_link use_link
  open_link-location m e r s to h =
      let token : Text = query r (lit "ml_token") in
      elim (Bool-cases (token == [])) [
        | inl empty ↦ absurd (ground arith)
        | inr given ↦ elim (Option-cases (get_provider m (lit "magic_link"))) [
          | inl nobody ↦ absurd (ground arith)
          | inr (provider, k) ↦
              let answer = provider.authenticate s.providers (magic_link_credentials token) in
              let same : open_link b c (some m) e r s ≡ after_provider b c m e r s answer =
                rw (given, k, open_link) refl in
              let sends : (after_provider b c m e r s answer).0.location ≡ some to =
                subst (λ x. x.0.location ≡ some to) same h in
              subst (λ x. RestsOnLink m e r s x.0 x.1 to) (sym same)
                (
                  provider,
                  k,
                  (λ e. ground (arith, ==_iff token [])),
                  after_provider-location m e r s answer to sends,
                )
        ]
      ]

  -- A client is sent on only after a login. Then its user agent is not that of a crawler; the token
  -- of the request was given to the provider for magic links, which named an identity; a session
  -- for this identity was made, and its cookie is the one that is set; and the redirect that is
  -- asked for begins with exactly one slash. That it stays on this server is not said: a backslash
  -- may follow the slash.
  pub auth_magic-location :
      (m : AuthManager W) (e : Login) (r : Request) (s s' : Logins b.Db W) (response : Response)
      (to : Text)
      → auth_magic b c (some m) e r s ≡ (response, s')
      → response.location ≡ some to
      → (is_bot e.unicode (r.header (lit "User-Agent")) ≡ false)
        × RestsOnLink m e r
            (record s { limiter = (allow s.limiter (get_client_ip e.remote r) e.limited_at).1 })
            response
            s'
            to
  unfolding auth_magic
  auth_magic-location m e r s s' response to h sends =
      let (allowed, limiter) = allow s.limiter (get_client_ip e.remote r) e.limited_at in
      let s1 : Logins b.Db W = record s { limiter = limiter } in
      elim (Bool-cases (is_bot e.unicode (r.header (lit "User-Agent")))) [
        | inl bot ↦ absurd (ground arith)
        | inr human ↦ elim (Bool-cases allowed) [
          | inr limited ↦ absurd (ground arith)
          | inl passed ↦
              let same : open_link b c (some m) e r s1 ≡ (response, s') = ground arith in
              (
                human,
                subst (λ x. RestsOnLink m e r s1 x.0 x.1 to) same
                    (open_link-location m e r s1 to (ap (λ x. x.0.location) same ∙ sends)),
              )
        ]
      ]
