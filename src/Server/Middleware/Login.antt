-- ===== src/Server/Middleware/Login.antt =====
-- What the cookie that AuthMiddleware sets is good for.
use vel.Common.{
  ==_iff, List, Option-cases, Text, ap, ap₂, arith, inl, inr, lit, set, some, subst, sym, ℕ, ◌+◌,
  ◌∙◌, ◌≡◌, ◌≢◌, ◌≤◌,
}
use vel.Store.{Bucket, Codec}
use vel.Auth.Types.{Identity, Session}
use vel.Auth.Request.{Request, get_identity, set_identity}
use vel.Auth.Sessions.Live.{AllBefore, Call, run}
use vel.Auth.Manager.{AuthManager, authenticate, create_session, get_session, usable_session}
use vel.Auth.Manager.Lifetime.{AllSpare, create_session-some, created_session_lasts, usable_loaded}
use vel.Server.Middleware.{
  Cookie, Passage, auth_middleware, login_cookie, set_session_cookie, session_middleware,
}

module _ {V W : Type 0} (b : Bucket V) (c : Codec Session V) (m : AuthManager W) where
  login_cookie-some :
      (t : Passage) (db db' : b.Db) (id : Identity) (ck : Cookie)
      → login_cookie b c m t db id ≡ (some ck, db')
      → (s : Session) × (create_session b c m t.saves t.random t.created_at t.dated_at db id
          ≡ (some s, db'))
        × (ck ≡ set_session_cookie m s.id)
        × (id.provider ≢ lit "api_key")
  unfolding login_cookie
  login_cookie-some t db db' id ck h =
      let made = create_session b c m t.saves t.random t.created_at t.dated_at db id in
      elim (Option-cases made.0) [
        | inl e ↦ absurd (ground arith)
        | inr (s, e) ↦
            let left : made.1 ≡ db' = ground arith in
            (
              s,
              ap₂ (λ x y. (x, y)) e left,
              ground arith,
              ground (arith, ==_iff id.provider (lit "api_key")),
            )
      ]

  -- A cookie is set only together with an identity that a provider has just found.
  auth_middleware-cookie :
      (t : Passage) (db db' : b.Db) (w w' : W) (r r' : Request) (ck : Cookie)
      → auth_middleware b c m t db w r ≡ (r', some ck, db', w')
      → (id : Identity) × (db1 : b.Db) × (r'.identity ≡ some id)
        × (login_cookie b c m t db1 id ≡ (some ck, db'))
  unfolding auth_middleware get_identity set_identity
  auth_middleware-cookie t db db' w w' r r' ck h = elim (Option-cases r.identity) [
    | inl e ↦
        let got = authenticate b c m t.drops_again t.looked_again_at t.tested_again_at db w r in
        elim (Option-cases got.0) [
          | inl k ↦ absurd (ground arith)
          | inr ((id, session), k) ↦
              let set : (login_cookie b c m t got.1 id).0 ≡ some ck = ground arith in
              let left : (login_cookie b c m t got.1 id).1 ≡ db' = ground arith in
              (id, got.1, ground arith, ap₂ (λ x y. (x, y)) set left)
        ]
    | inr (id, e) ↦ absurd (ground arith)
  ]

  session_middleware-usable :
      (t : Passage) (db : b.Db) (r : Request) (s : Session)
      → usable_session t.tested_at (get_session b c m t.drops t.looked_at db r).0 ≡ some s
      → (session_middleware b c m t db r).0 ≡ set_identity r s.identity
  unfolding session_middleware
  session_middleware-usable t db r s h = ground arith

  set_session_cookie-value :
      (ck : Cookie) (id : Text)
      → ck ≡ set_session_cookie m id
      → (ck.name ≡ m.cookie_name) × (ck.value ≡ id)
  unfolding set_session_cookie
  set_session_cookie-value ck id e = (ap (λ x. x.name) e, ap (λ x. x.value) e)

  -- A login lasts. Where AuthMiddleware sets a cookie, it is the session cookie, for an identity
  -- that is not an API key's; and SessionMiddleware gives that same identity to any later request
  -- that brings the cookie back before the maximal age has passed, whatever else the session store
  -- was used for, as long as nobody deletes this session or saves another under its id.
  pub login_lasts :
      (t t' : Passage) (db db' : b.Db) (w w' : W) (r r' next : Request) (ck : Cookie)
      (es : List (ℕ × Call))
      → auth_middleware b c m t db w r ≡ (r', some ck, db', w')
      → AllBefore t'.looked_at es
      → AllSpare ck.value es
      → next.cookie ck.name ≡ some ck.value
      → t'.looked_at ≤ t'.tested_at
      → t'.tested_at ≤ t.dated_at + m.max_age
      → (id : Identity) × (r'.identity ≡ some id)
        × (id.provider ≢ lit "api_key")
        × ((session_middleware b c m t' (run b c db' es) next).0 ≡ set_identity next id)
  login_lasts t t' db db' w w' r r' next ck es h before spare back le fits =
      let (id, db1, known, set) = auth_middleware-cookie t db db' w w' r r' ck h in
      let (s, made, ck_e, human) = login_cookie-some t db1 db' id ck set in
      let (name_e, value_e) = set_session_cookie-value ck s.id ck_e in
      let cookie : next.cookie m.cookie_name ≡ some s.id =
        ap (λ n. next.cookie n) (sym name_e) ∙ back ∙ ap (λ v. some v) value_e in
      let spare' = subst (λ v. AllSpare v es) value_e spare in
      let (_, _, who, expiry) =
        create_session-some b c m t.saves t.random t.created_at t.dated_at db1 db' id s made in
      let opened =
        (created_session_lasts b c m t.saves t'.drops t.random t.created_at t.dated_at t'.looked_at
            db1 db' id s es next made before spare' cookie).1
          (omega arith) in
      let usable =
        ap (usable_session t'.tested_at) opened ∙ usable_loaded t'.tested_at s (omega arith) in
      (
        id,
        known,
        human,
        session_middleware-usable t' (run b c db' es) next s usable ∙ ap (set_identity next) who,
      )
