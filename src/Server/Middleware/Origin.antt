-- ===== src/Server/Middleware/Origin.antt =====
-- Where the identity comes from that the two middlewares attach to a request.
use vel.Common.{
  Bool, In, List, Option-cases, Text, [], arith, inl, inr, none, refl, some, subst, ℕ, ◌∷◌, ◌≡◌,
  ◌≤◌, ◌⊎◌,
}
use vel.Store.{Bucket, Codec, delete_tx}
use vel.Auth.Types.{Identity, Session, is_expired}
use vel.Auth.Request.{Request, get_identity, set_identity}
use vel.Auth.Sessions.{view, drop_expired, get}
use vel.Auth.Providers.{Credentials, Provider}
use vel.Auth.Manager.{
  AuthManager, authenticate, get_session, loaded_from, try_providers, usable_session,
}
use vel.Server.Middleware.{Passage, auth_middleware, session_middleware}

-- Some provider extracts credentials from the request and accepts them as this identity.
abbrev pub Vouches : {W : Type 0} → List (Provider W) → Request → Identity → Type 0
Vouches ps r id =
    (p : Provider _) × (creds : Credentials) × (w : _) × In p ps
    × (p.extract r ≡ some creds)
    × ((p.authenticate w creds).0 ≡ some id)

Vouches-later :
    {W : Type 0} (p : Provider W) (ps : List (Provider W)) (r : Request) (id : Identity)
    → Vouches ps r id
    → Vouches (p ∷ ps) r id
Vouches-later p ps r id (q, creds, w, held, e, k) = (q, creds, w, inr held, e, k)

try_providers-some :
    {W : Type 0} (ps : List (Provider W)) (w : W) (r : Request) (id : Identity)
    → (try_providers ps w r).0 ≡ some id
    → Vouches ps r id
unfolding try_providers
try_providers-some [] w r id h = absurd (ground arith)
try_providers-some (p ∷ ps) w r id h = elim (Option-cases (p.extract r)) [
  | inl e ↦ Vouches-later p ps r id (try_providers-some ps w r id (ground arith))
  | inr (creds, e) ↦ elim (Option-cases (p.authenticate w creds).0) [
    | inl k ↦
        Vouches-later p ps r id
          (try_providers-some ps (p.authenticate w creds).1 r id (ground arith))
    | inr (id', k) ↦ (p, creds, w, inl refl, e, ground arith)
  ]
]

module _ {V W : Type 0} (b : Bucket V) (c : Codec Session V) (m : AuthManager W) where
  -- The database holds an unexpired session of this identity under the request's session cookie.
  abbrev pub HoldsSession : ℕ → b.Db → Request → Identity → Type 0
  HoldsSession now db r id =
      (key : Text) × (v : V) × (s : Session) × (r.cookie m.cookie_name ≡ some key)
      × (b.get db key ≡ some v)
      × (c.unmarshal v ≡ some s)
      × (s.identity ≡ id)
      × (now ≤ s.expires_at)

  get_session-loaded :
      (commits : Bool) (now later : ℕ) (db : b.Db) (r : Request) (s : Session)
      → usable_session later (get_session b c m commits now db r).0 ≡ some s
      → HoldsSession later db r s.identity
  unfolding get_session get view drop_expired loaded_from usable_session is_expired
  get_session-loaded commits now later db r s h = elim (Option-cases (r.cookie m.cookie_name)) [
    | inl e ↦ absurd (ground arith)
    | inr (key, e) ↦ elim (Option-cases (b.get db key)) [
      | inl k ↦ absurd (ground arith)
      | inr (v, k) ↦ elim (Option-cases (c.unmarshal v)) [
        | inl j ↦ absurd (ground arith)
        | inr (s', j) ↦ (key, v, s', e, k, j, ground arith, ground arith)
      ]
    ]
  ]

  get_session-keeps :
      (commits : Bool) (now : ℕ) (db : b.Db) (r : Request) (key : Text) (v : V)
      → b.get (get_session b c m commits now db r).1 key ≡ some v
      → b.get db key ≡ some v
  unfolding get_session get view drop_expired delete_tx
  get_session-keeps commits now db r key v h = elim (Option-cases (r.cookie m.cookie_name)) [
    | inl e ↦ ground arith
    | inr (j, e) ↦ ground (arith, b.get-delete db j key)
  ]

  pub HoldsSession-earlier :
      (now later : ℕ) (db : b.Db) (r : Request) (id : Identity)
      → now ≤ later
      → HoldsSession later db r id
      → HoldsSession now db r id
  HoldsSession-earlier now later db r id le (key, v, s, e, k, j, i, fits) =
      (key, v, s, e, k, j, i, omega arith)

  -- What SessionMiddleware hands on: the request with the identity of its session, or as it was.
  pub session_middleware-cases :
      (t : Passage) (db : b.Db) (r : Request)
      → ((s : Session) × ((session_middleware b c m t db r).0 ≡ set_identity r s.identity)
          × HoldsSession t.tested_at db r s.identity)
        ⊎ ((session_middleware b c m t db r).0 ≡ r)
  unfolding session_middleware
  session_middleware-cases t db r =
      elim (Option-cases
        (usable_session t.tested_at (get_session b c m t.drops t.looked_at db r).0)) [
          | inl e ↦ inr (ground arith)
          | inr (s, e) ↦
              inl (s, ground arith, get_session-loaded t.drops t.looked_at t.tested_at db r s e)
        ]

  pub session_middleware-keeps :
      (t : Passage) (db : b.Db) (r : Request) (key : Text) (v : V)
      → b.get (session_middleware b c m t db r).1 key ≡ some v
      → b.get db key ≡ some v
  unfolding session_middleware
  session_middleware-keeps t db r key v h =
      get_session-keeps t.drops t.looked_at db r key v (ground arith)

  -- Where an identity that AuthMiddleware attaches comes from.
  pub auth_middleware-some :
      (t : Passage) (db : b.Db) (w : W) (r : Request) (id : Identity)
      → r.identity ≡ none
      → (auth_middleware b c m t db w r).0.identity ≡ some id
      → HoldsSession t.tested_again_at db r id ⊎ Vouches m.providers r id
  unfolding auth_middleware authenticate get_identity set_identity
  auth_middleware-some t db w r id none_yet h =
      let got = (get_session b c m t.drops_again t.looked_again_at db r).0 in
      elim (Option-cases (usable_session t.tested_again_at got)) [
        | inl e ↦ inr (try_providers-some m.providers w r id (ground arith))
        | inr (s, e) ↦
            let held =
              get_session-loaded t.drops_again t.looked_again_at t.tested_again_at db r s e in
            let same : s.identity ≡ id = ground arith in
            inl (subst (HoldsSession t.tested_again_at db r) same held)
      ]

  pub auth_middleware-path :
      (t : Passage) (db : b.Db) (w : W) (r : Request)
      → (auth_middleware b c m t db w r).0.path ≡ r.path
  unfolding auth_middleware get_identity set_identity
  auth_middleware-path t db w r = ground arith

  pub auth_middleware-none :
      (t : Passage) (db : b.Db) (w : W) (r : Request)
      → (auth_middleware b c m t db w r).0.identity ≡ none
      → (auth_middleware b c m t db w r).0 ≡ r
  unfolding auth_middleware get_identity set_identity
  auth_middleware-none t db w r h = ground arith

  pub auth_middleware-skips :
      (t : Passage) (db : b.Db) (w : W) (r : Request) (id : Identity)
      → r.identity ≡ some id
      → (auth_middleware b c m t db w r).0 ≡ r
  unfolding auth_middleware get_identity
  auth_middleware-skips t db w r id h = ground arith
