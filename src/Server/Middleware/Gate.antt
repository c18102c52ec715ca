-- ===== src/Server/Middleware/Gate.antt =====
-- Who gets past the chain of middleware, and past RequireScope.
use vel.Common.{
  ==_iff, Bool-cases, In, List, Option-cases, Text, ap, arith, false, if◌then◌else◌, inl, inr, lit,
  none, some, subst, sym, ℕ, ◌==◌, ◌↔◌, ◌∙◌, ◌≡◌, ◌≤◌, ◌⊎◌,
}
use vel.Store.{Bucket, Codec}
use vel.Auth.Types.{Identity, Session}
use vel.Auth.Request.{Request, get_identity, set_identity}
use vel.Auth.Scopes.Rules.{Grants, check_scope_iff}
use vel.Auth.Sessions.{}
use vel.Auth.Manager.{AuthManager}
use vel.Server.Paths.{is_browser_request, is_public_path}
use vel.Server.Middleware.{
  Passage, auth_chain, auth_middleware, login_redirect, passes, redirects, require_auth_paths,
  require_scope, session_middleware, unauthorized,
}
use vel.Server.Middleware.Origin.{
  HoldsSession, HoldsSession-earlier, Vouches, auth_middleware-none, auth_middleware-path,
  auth_middleware-skips, auth_middleware-some, session_middleware-cases, session_middleware-keeps,
}

require_auth_paths-passes :
    (prefixes : List Text) (r r' : Request)
    → is_public_path prefixes r.path ≡ false
    → require_auth_paths prefixes r ≡ passes r'
    → (r ≡ r') × ((id : Identity) × (r.identity ≡ some id))
unfolding require_auth_paths get_identity
require_auth_paths-passes prefixes r r' closed h = elim (Option-cases r.identity) [
  | inl e ↦ absurd (ground arith)
  | inr (id, e) ↦ (ground arith, (id, e))
]

require_auth_paths-stops :
    (prefixes : List Text) (r : Request)
    → is_public_path prefixes r.path ≡ false
    → (r.identity ≡ none)
    → require_auth_paths prefixes r
      ≡ (if is_browser_request r then redirects (login_redirect r) else unauthorized)
unfolding require_auth_paths get_identity
require_auth_paths-stops prefixes r closed h = ground arith

module _ {V W : Type 0} (b : Bucket V) (c : Codec Session V) (m : AuthManager W) where
  -- What SessionMiddleware may hand on, as above.
  abbrev SessionOutcome : ℕ → b.Db → Request → Request → Type 0
  SessionOutcome now db r r' =
      ((s : Session) × (r' ≡ set_identity r s.identity) × HoldsSession b c m now db r s.identity)
      ⊎ (r' ≡ r)

  SessionOutcome-path :
      (now : ℕ) (db : b.Db) (r r' : Request) → SessionOutcome now db r r' → r'.path ≡ r.path
  unfolding set_identity
  SessionOutcome-path now db r r' (inl (s, e, held)) = ap (λ x. x.path) e
  SessionOutcome-path now db r r' (inr e) = ap (λ x. x.path) e

  HoldsSession-before :
      (now : ℕ) (db db' : b.Db) (r : Request) (id : Identity)
      → ((key : Text) (v : V) → b.get db' key ≡ some v → b.get db key ≡ some v)
      → HoldsSession b c m now db' r id
      → HoldsSession b c m now db r id
  HoldsSession-before now db db' r id keeps (key, v, s, e, k, j, i, fits) =
      (key, v, s, e, keeps key v k, j, i, fits)

  identity_behind :
      (t : Passage) (db db' : b.Db) (w : W) (r r' : Request) (id : Identity)
      → r.identity ≡ none
      → t.tested_at ≤ t.tested_again_at
      → ((key : Text) (v : V) → b.get db' key ≡ some v → b.get db key ≡ some v)
      → SessionOutcome t.tested_at db r r'
      → (auth_middleware b c m t db' w r').0.identity ≡ some id
      → HoldsSession b c m t.tested_at db r id ⊎ Vouches m.providers r id
  unfolding set_identity
  identity_behind t db db' w r r' id none_yet le keeps (inl (s, e, held)) h =
      let known : r'.identity ≡ some s.identity = ap (λ x. x.identity) e in
      let same : some s.identity ≡ some id =
        sym known
        ∙ sym (ap (λ x. x.identity) (auth_middleware-skips b c m t db' w r' s.identity known))
        ∙ h in
      let same' : s.identity ≡ id = ground arith in
      inl (subst (HoldsSession b c m t.tested_at db r) same' held)
  identity_behind t db db' w r r' id none_yet le keeps (inr e) h =
      elim (auth_middleware-some b c m t db' w r' id (ap (λ x. x.identity) e ∙ none_yet) h) [
        | inl held ↦
            let there = subst (λ x. HoldsSession b c m t.tested_again_at db' x id) e held in
            inl (
              HoldsSession-before t.tested_at db db' r id keeps
                (HoldsSession-earlier b c m t.tested_at t.tested_again_at db' r id le there))
        | inr vouched ↦ inr (subst (λ x. Vouches m.providers x id) e vouched)
      ]

  -- The identity that a request has behind both middlewares.
  chain_identity :
      (t : Passage) (db : b.Db) (w : W) (r : Request) (id : Identity)
      → r.identity ≡ none
      → t.tested_at ≤ t.tested_again_at
      → let (r', db') = session_middleware b c m t db r in
        (auth_middleware b c m t db' w r').0.identity ≡ some id
        → HoldsSession b c m t.tested_at db r id ⊎ Vouches m.providers r id
  chain_identity t db w r id none_yet le h =
      let (r', db') = session_middleware b c m t db r in
      identity_behind t db db' w r r' id none_yet le (session_middleware-keeps b c m t db r)
        (session_middleware-cases b c m t db r) h

  chain_path :
      (t : Passage) (db : b.Db) (w : W) (r : Request)
      → let (r', db') = session_middleware b c m t db r in
        (auth_middleware b c m t db' w r').0.path ≡ r.path
  chain_path t db w r =
      let (r', db') = session_middleware b c m t db r in
      auth_middleware-path b c m t db' w r'
      ∙ SessionOutcome-path t.tested_at db r r' (session_middleware-cases b c m t db r)

  chain_unchanged :
      (t : Passage) (db : b.Db) (w : W) (r : Request)
      → r.identity ≡ none
      → t.tested_at ≤ t.tested_again_at
      → ((id : Identity) → ¬ HoldsSession b c m t.tested_at db r id)
      → ((id : Identity) → ¬ Vouches m.providers r id)
      → let (r', db') = session_middleware b c m t db r in (auth_middleware b c m t db' w r').0 ≡ r
  chain_unchanged t db w r none_yet le no_session no_provider =
      let (r1, db1) = session_middleware b c m t db r in
      let r2 = (auth_middleware b c m t db1 w r1).0 in
      let unknown : r2.identity ≡ none = elim (Option-cases r2.identity) [
        | inl e ↦ e
        | inr (id, e) ↦ absurd (elim (chain_identity t db w r id none_yet le e) [
          | inl held ↦ no_session id held
          | inr vouched ↦ no_provider id vouched
        ])
      ] in
      elim (session_middleware-cases b c m t db r) [
        | inl (s, e, held) ↦ absurd (no_session s.identity held)
        | inr e ↦ auth_middleware-none b c m t db1 w r1 unknown ∙ e
      ]

  -- The handler of a path that is not public is called only for a request with an identity, and
  -- that identity is the one of an unexpired session under the request's cookie, or one that a
  -- provider found in the request's own credentials. The request comes without an identity, and
  -- the second reading of the clock is no earlier than the first.
  pub auth_chain-passes :
      (prefixes : List Text) (t : Passage) (db : b.Db) (w : W) (r r' : Request)
      → r.identity ≡ none
      → t.tested_at ≤ t.tested_again_at
      → is_public_path prefixes r.path ≡ false
      → (auth_chain b c m prefixes t db w r).0 ≡ passes r'
      → (id : Identity) × (r'.identity ≡ some id)
        × (HoldsSession b c m t.tested_at db r id ⊎ Vouches m.providers r id)
  unfolding auth_chain
  auth_chain-passes prefixes t db w r r' none_yet le closed h =
      let (r1, db1) = session_middleware b c m t db r in
      let r2 = (auth_middleware b c m t db1 w r1).0 in
      let closed' : is_public_path prefixes r2.path ≡ false =
        ap (is_public_path prefixes) (chain_path t db w r) ∙ closed in
      let (same, (id, known)) = require_auth_paths-passes prefixes r2 r' closed' h in
      (id, sym (ap (λ x. x.identity) same) ∙ known, chain_identity t db w r id none_yet le known)

  -- A request for a path that is not public, with no session in the database and no provider that
  -- vouches for it, does not reach the handler: a browser is sent to the login page, and any other
  -- client gets status 401.
  pub auth_chain-stops :
      (prefixes : List Text) (t : Passage) (db : b.Db) (w : W) (r : Request)
      → r.identity ≡ none
      → t.tested_at ≤ t.tested_again_at
      → is_public_path prefixes r.path ≡ false
      → ((id : Identity) → ¬ HoldsSession b c m t.tested_at db r id)
      → ((id : Identity) → ¬ Vouches m.providers r id)
      → (auth_chain b c m prefixes t db w r).0
        ≡ (if is_browser_request r then redirects (login_redirect r) else unauthorized)
  unfolding auth_chain
  auth_chain-stops prefixes t db w r none_yet le closed no_session no_provider =
      let same = chain_unchanged t db w r none_yet le no_session no_provider in
      ap (require_auth_paths prefixes) same ∙ require_auth_paths-stops prefixes r closed none_yet

-- RequireScope calls its handler exactly for an identity that is an admin, or one of whose scopes
-- grants the method and the path; the scope it was made with plays no part.
require_scope_iff :
    (scope : Text) (r : Request)
    → (require_scope scope r ≡ passes r) ↔ (
        (id : Identity) × (r.identity ≡ some id)
        × ((id.role ≡ lit "admin") ⊎ ((s : Text) × In s id.scopes × Grants r.method r.path s)))
unfolding require_scope get_identity
require_scope_iff scope r = (
  λ h. elim (Option-cases r.identity) [
    | inl e ↦ absurd (ground arith)
    | inr (id, e) ↦ elim (Bool-cases (id.role == lit "admin")) [
      | inl admin ↦ (id, e, inl ((==_iff id.role (lit "admin")).0 admin))
      | inr other ↦ (id, e, inr ((check_scope_iff id.scopes r.method r.path).0 (ground arith)))
    ]
  ],
  λ (id, e, g). elim g [
    | inl admin ↦ ground (arith, ==_iff id.role (lit "admin"))
    | inr granted ↦ ground (arith, (check_scope_iff id.scopes r.method r.path).1 granted)
  ],
)
