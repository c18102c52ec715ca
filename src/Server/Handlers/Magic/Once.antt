-- ===== src/Server/Handlers/Magic/Once.antt =====
-- A login link through its handler: the provider for magic links behind /auth/magic.
use vel.Common.{Bool, Option-cases, Text, ap, arith, inl, inr, lit, none, refl, some, subst, ℕ, ◌≡◌}
use vel.Std.Crypto.{Crypto}
use vel.Store.{Bucket, Codec}
use vel.Auth.Types.{Identity, Session}
use vel.Auth.Request.{Request}
use vel.Auth.Users.{UserStore}
use vel.Auth.MagicLinks.{MagicLink, Result, err, ok, validate}
use vel.Auth.MagicLinks.Valid.{IsSole}
use vel.Auth.MagicLinks.Once.{validate_twice}
use vel.Auth.Providers.{
  linked_user, magic_link_authenticate, magic_link_provider, magic_link_credentials,
}
use vel.Auth.Manager.{AuthManager, get_provider}
use vel.Server.Handlers.{Response, query}
use vel.Server.Handlers.Magic.{Login, Logins, auth_magic}
use vel.Server.Handlers.Magic.Evidence.{auth_magic-location}

module _ (h : Crypto) {V L : Type 0} (b : Bucket V) (c : Codec Session V) (l : Bucket L)
    (j : Codec MagicLink L) (us : UserStore) where
  -- The manager's provider for magic links is that of the store, with the clock and the
  -- transaction of one call.
  abbrev pub HasLinks : AuthManager l.Db → Bool → ℕ → Type 0
  HasLinks m commits now =
      get_provider m (lit "magic_link") ≡ some (magic_link_provider h l j us commits now)

  validated :
      (result : Result Text) (id : Identity)
      → linked_user h l j us result ≡ some id
      → (user : Text) × (result ≡ ok user)
  unfolding linked_user
  validated (ok user) id e = (user, refl)
  validated (err x) id e = absurd (ground arith)

  module _ (m : AuthManager l.Db) (commits : Bool) (now : ℕ) (links : HasLinks m commits now) where
    -- A login that sends its client on has validated the token of its request.
    location-validate :
        (e : Login) (r : Request) (s s' : Logins b.Db l.Db) (response : Response) (to : Text)
        → auth_magic b c (some m) e r s ≡ (response, s')
        → response.location ≡ some to
        → (user : Text) × (validate h l j commits now s.providers (query r (lit "ml_token"))
            ≡ (ok user, s'.providers))
    unfolding magic_link_provider magic_link_authenticate
    location-validate e r s s' response to k sends =
        let (human, evidence) = auth_magic-location b c m e r s s' response to k sends in
        let (provider, found, given, takes) = evidence in
        let (id, taken, logs_in) = takes in
        let token : Text = query r (lit "ml_token") in
        let same : provider ≡ magic_link_provider h l j us commits now = ground arith in
        let answered : magic_link_authenticate h l j us commits now s.providers
              (magic_link_credentials token)
            ≡ (some id, s'.providers) =
          subst
            (λ p.
              p.authenticate s.providers (magic_link_credentials token) ≡ (some id, s'.providers))
            same taken in
        let result = validate h l j commits now s.providers token in
        let (user, e) = validated result.0 id (ap (λ x. x.0) answered) in (user, ground arith)

  -- A link logs its user in once: after a request that was sent on with a session, no request
  -- with the same token is sent on, whatever its manager, its client, its clock and its session
  -- are, while the links are as the first request left them. Let the token have one stored link,
  -- and let the managers have the provider for magic links.
  pub one_login_per_link :
      (m m' : AuthManager l.Db) (commits commits' : Bool) (now later : ℕ)
      → HasLinks m commits now
      → HasLinks m' commits' later
      → (e e' : Login) (r r' : Request) (s s' next : Logins b.Db l.Db) (response : Response)
        (to k : Text)
      → IsSole h l j s.providers (query r (lit "ml_token")) k
      → auth_magic b c (some m) e r s ≡ (response, s')
      → response.location ≡ some to
      → query r' (lit "ml_token") ≡ query r (lit "ml_token")
      → next.providers ≡ s'.providers
      → (auth_magic b c (some m') e' r' next).0.location ≡ none
  one_login_per_link m m' commits commits' now later links links' e e' r r' s s' next response to k
        sole first sends token left =
      let answer = auth_magic b c (some m') e' r' next in
      elim (Option-cases answer.0.location) [
        | inl nowhere ↦ nowhere
        | inr (there, again) ↦
            let (user, taken) =
              location-validate m commits now links e r s s' response to first sends in
            let (user', retaken) =
              location-validate m' commits' later links' e' r' next answer.1 answer.0 there refl
                again in
            let refused =
              validate_twice h l j commits commits' now later s.providers s'.providers
                (query r (lit "ml_token")) user k sole taken in
            absurd (ground arith)
      ]
