-- ===== src/Server/Handlers/Admin/Access.antt =====
-- Who may administer, and what a key that was handed out is good for.
use vel.Common.{
  ==_iff, Bool, Bool-cases, In, List, Option, Option-cases, Text, [], ap, arith, false,
  if◌then◌else◌, inl, inr, lit, none, refl, some, subst, sym, true, ℕ, ◌++◌, ◌==◌, ◌∙◌, ◌∷◌, ◌≡◌,
  ◌⊎◌,
}
use vel.Std.Crypto.{Crypto}
use vel.Std.Hex.{encode}
use vel.Auth.Types.{Identity, Session}
use vel.Auth.Request.{Request, get_identity}
use vel.Auth.Users.{Error, remove_api_key, UserStore, add_api_key, ApiKey, find_api_key}
use vel.Auth.Providers.{Provider, api_key_identity, api_key_provider}
use vel.Auth.Providers.Keys.{Carries, added_key_authenticates, hash_of}
use vel.Auth.Manager.{
  AuthManager, authenticate, get_session, no_cookie, try_providers, usable_session,
}
use vel.Store.{Bucket, Codec}
use vel.Server.Handlers.{admin_of, Response, answer, key_made, query}
use vel.Server.Handlers.Admin.{
  NewUser, users_admin, KeyMaking, NewKey, keys_admin, keys_handler, make_key, new_key, plain_key,
  users_handler, delete_key, post_key, removed, saved,
}

-- An administrator sends a request that may change something.
abbrev pub IsChange : Request → Type 0
IsChange r =
    ((id : Identity) × (get_identity r ≡ some id) × (id.role ≡ lit "admin"))
    × ((r.method ≡ lit "POST") ⊎ (r.method ≡ lit "DELETE"))

admin_of-some :
    (r : Request) (id : Identity)
    → admin_of r ≡ some id
    → (get_identity r ≡ some id) × (id.role ≡ lit "admin")
unfolding admin_of
admin_of-some r id h = elim (Option-cases (get_identity r)) [
  | inl e ↦ absurd (ground arith)
  | inr (found, e) ↦ elim (Bool-cases (found.role == lit "admin")) [
    | inr other ↦ absurd (ground arith)
    | inl admin ↦
        let same : found ≡ id = ground arith in
        (
          ground arith,
          subst (λ i. i.role ≡ lit "admin") same ((==_iff found.role (lit "admin")).0 admin),
        )
  ]
]

-- The handlers branch on the method alike.
by_method :
    {A : Type 0} (method : Text) (before : A) (listed posted deleted other : Response × A)
    → listed.1 ≡ before
    → other.1 ≡ before
    → ((if method == lit "GET"
          then listed
          else if method == lit "POST"
          then posted
          else if method == lit "DELETE"
          then deleted
          else other).1
        ≡ before)
      ⊎ ((method ≡ lit "POST") ⊎ (method ≡ lit "DELETE"))
by_method method before listed posted deleted other h k = elim (Bool-cases (method == lit "GET")) [
  | inl get ↦ rw get (inl h)
  | inr no_get ↦ elim (Bool-cases (method == lit "POST")) [
    | inl post ↦ inr (inl ((==_iff method (lit "POST")).0 post))
    | inr no_post ↦ elim (Bool-cases (method == lit "DELETE")) [
      | inl delete ↦ inr (inr ((==_iff method (lit "DELETE")).0 delete))
      | inr no_delete ↦ rw (no_get, no_post, no_delete) (inl k)
    ]
  ]
]

users_unchanged :
    (writes : Bool) (store : Option UserStore) (body : Option NewUser) (r : Request)
    → ((users_handler writes store body r).1 ≡ store) ⊎ IsChange r
unfolding users_handler users_admin
users_unchanged writes none body r = inl refl
users_unchanged writes (some us) body r = elim (Option-cases (admin_of r)) [
  | inl nobody ↦ rw (nobody, users_handler) (inl refl)
  | inr (id, e) ↦
      let (is, admin) = admin_of-some r id e in
      rw (e, users_handler)
        (elim (by_method r.method us _ _ _ _ refl refl) [
          | inl same ↦ inl (ap some same)
          | inr method ↦ inr ((id, is, admin), method)
        ])
]

keys_unchanged :
    (c : Crypto) (e : KeyMaking) (store : Option UserStore) (body : Option NewKey) (r : Request)
    → ((keys_handler c e store body r).1 ≡ store) ⊎ IsChange r
unfolding keys_handler keys_admin
keys_unchanged c e none body r = inl refl
keys_unchanged c e (some us) body r = elim (Option-cases (admin_of r)) [
  | inl nobody ↦ rw (nobody, keys_handler) (inl refl)
  | inr (id, k) ↦
      let (is, admin) = admin_of-some r id k in
      rw (k, keys_handler)
        (elim (by_method r.method us _ _ _ _ refl refl) [
          | inl same ↦ inl (ap some same)
          | inr method ↦ inr ((id, is, admin), method)
        ])
]

-- Only an administrator changes the users and the keys, and only by a POST or a DELETE: whatever
-- else is asked of the two handlers, the store is as it was.
pub only_admins_write :
    (c : Crypto) (writes : Bool) (e : KeyMaking) (store : Option UserStore) (user : Option NewUser)
    (key : Option NewKey) (r : Request)
    → (((users_handler writes store user r).1 ≡ store) ⊎ IsChange r)
      × (((keys_handler c e store key r).1 ≡ store) ⊎ IsChange r)
only_admins_write c writes e store user key r =
    (users_unchanged writes store user r, keys_unchanged c e store key r)

module _ (us' : UserStore) (key name : Text) where
  abbrev made : Response × UserStore
  made = (answer 200 (key_made key name), us')

  saved-made :
      (k n : Text) (p : Option Error × UserStore)
      → saved (key_made k n) p ≡ made
      → (k ≡ key) × (p ≡ (none, us'))
  saved-made k n (none, us) h = ground arith
  saved-made k n (some e, us) h = absurd (ground arith)

  removed-made :
      (message : Text) (p : (Bool × Option Error) × UserStore) → ¬ (removed message p ≡ made)
  removed-made message ((true, none), us) h = ground arith
  removed-made message ((false, none), us) h = ground arith
  removed-made message ((found, some e), us) h = ground arith

  delete_key-made :
      (writes : Bool) (us : UserStore) (id : Text) → ¬ (delete_key writes us id ≡ made)
  unfolding delete_key
  delete_key-made writes us id h = elim (Bool-cases (id == [])) [
    | inl empty ↦ ground arith
    | inr given ↦
        removed-made (lit "API key not found") (remove_api_key writes us id) (ground arith)
  ]

  -- The key that a POST hands out was made of random bytes and is stored.
  abbrev IsStored : Crypto → KeyMaking → UserStore → Identity → NewKey → Type 0
  IsStored c e us id b =
      (bytes : Text) × (plain_key bytes ≡ key)
      × (add_api_key e.writes us (new_key c id b bytes e.date) ≡ (none, us'))

  make_key-made :
      (c : Crypto) (e : KeyMaking) (us : UserStore) (id : Identity) (b : NewKey)
      → make_key c e us id b ≡ made
      → IsStored c e us id b
  unfolding make_key
  make_key-made c e us id b h = elim (Option-cases e.random) [
    | inl nothing ↦ absurd (ground arith)
    | inr (bytes, random) ↦
        let (same, stored) =
          saved-made (plain_key bytes) b.name
            (add_api_key e.writes us (new_key c id b bytes e.date)) (ground arith) in
        (bytes, same, stored)
  ]

  post_key-made :
      (c : Crypto) (e : KeyMaking) (us : UserStore) (id : Identity) (b : NewKey)
      → post_key c e us id (some b) ≡ made
      → IsStored c e us id b
  unfolding post_key
  post_key-made c e us id b h = elim (Bool-cases (b.name == [])) [
    | inl nameless ↦ absurd (ground arith)
    | inr named ↦ make_key-made c e us id b (ground arith)
  ]

  keys_admin-made :
      (c : Crypto) (e : KeyMaking) (us : UserStore) (id : Identity) (b : NewKey) (r : Request)
      → keys_admin c e us id (some b) r ≡ made
      → IsStored c e us id b
  unfolding keys_admin
  keys_admin-made c e us id b r h = elim (Bool-cases (r.method == lit "GET")) [
    | inl get ↦ absurd (ground arith)
    | inr no_get ↦ elim (Bool-cases (r.method == lit "POST")) [
      | inl post ↦ post_key-made c e us id b (ground arith)
      | inr no_post ↦ elim (Bool-cases (r.method == lit "DELETE")) [
        | inl delete ↦ absurd (delete_key-made e.writes us (query r (lit "id")) (ground arith))
        | inr no_delete ↦ absurd (ground arith)
      ]
    ]
  ]

skip_providers :
    {W : Type 0} (before ps : List (Provider W)) (w : W) (r : Request)
    → ((p : Provider W) → In p before → p.extract r ≡ none)
    → try_providers (before ++ ps) w r ≡ try_providers ps w r
unfolding try_providers
skip_providers [] ps w r h = refl
skip_providers (p ∷ before) ps w r h =
    rw (h p (inl refl)) (skip_providers before ps w r (λ q i. h q (inr i)))

get_session-no_cookie :
    {V W : Type 0} (b : Bucket V) (d : Codec Session V) (m : AuthManager W) (commits : Bool)
    (now : ℕ) (db : b.Db) (r : Request)
    → r.cookie m.cookie_name ≡ none
    → get_session b d m commits now db r ≡ (no_cookie, db)
unfolding get_session
get_session-no_cookie b d m commits now db r cookie = ground arith

-- Without the cookie of a session the providers decide.
authenticate-providers :
    {V W : Type 0} (b : Bucket V) (d : Codec Session V) (m : AuthManager W) (commits : Bool)
    (now later : ℕ) (db : b.Db) (w w' : W) (r : Request) (id : Identity)
    → r.cookie m.cookie_name ≡ none
    → try_providers m.providers w r ≡ (some id, w')
    → authenticate b d m commits now later db w r ≡ (some (id, none), db, w')
unfolding authenticate usable_session
authenticate-providers b d m commits now later db w w' r id cookie h =
    let none_there = get_session-no_cookie b d m commits now db r cookie in ground arith

key_answer :
    (c : Crypto) (e : KeyMaking) (us us' : UserStore) (b : NewKey) (r : Request) (key name : Text)
    → keys_handler c e (some us) (some b) r ≡ (answer 200 (key_made key name), some us')
    → (id : Identity) × (get_identity r ≡ some id)
      × (id.role ≡ lit "admin")
      × IsStored us' key name c e us id b
unfolding keys_handler
key_answer c e us us' b r key name h = elim (Option-cases (admin_of r)) [
  | inl nobody ↦ absurd (ground arith)
  | inr (id, admin) ↦
      let (is, role) = admin_of-some r id admin in
      (id, is, role, keys_admin-made us' key name c e us id b r (ground arith))
]

-- A key that the handler hands out authenticates: the answer is a key only for an administrator,
-- and a manager whose API-key provider has the store as this POST left it gives a request that
-- carries the key, in either header, the identity of a new key with the name, the role and the
-- scopes that were asked for; a role that is left out is `viewer`. The request has no cookie of a
-- session, the providers registered in front of the one for API keys extract nothing from it, and
-- no earlier key has the same hash.
pub handed_out_key_authenticates :
    {V W : Type 0} (bk : Bucket V) (d : Codec Session V) (m : AuthManager W) (commits : Bool)
    (now later : ℕ) (db : bk.Db) (w : W) (before after : List (Provider W)) (c : Crypto)
    (e : KeyMaking) (us us' : UserStore) (b : NewKey) (r next : Request) (key name : Text)
    → keys_handler c e (some us) (some b) r ≡ (answer 200 (key_made key name), some us')
    → find_api_key us (hash_of c key) ≡ none
    → m.providers ≡ before ++ api_key_provider c us' ∷ after
    → ((p : Provider W) → In p before → p.extract next ≡ none)
    → next.cookie m.cookie_name ≡ none
    → Carries next key
    → (id : Identity) × (get_identity r ≡ some id)
      × (id.role ≡ lit "admin")
      × ((k : ApiKey) × (authenticate bk d m commits now later db w next
            ≡ (some (api_key_identity k, none), db, w))
          × (k.name ≡ b.name)
          × (k.role ≡ (if b.role == [] then lit "viewer" else b.role))
          × (k.scopes ≡ b.scopes)
          × (k.created_by ≡ id.user_id))
unfolding new_key plain_key
handed_out_key_authenticates bk d m commits now later db w before after c e us us' b r next key name
      h fresh order skipped cookie carries =
    let (id, is, role, (bytes, same, stored)) = key_answer c e us us' b r key name h in
    let k = new_key c id b bytes e.date in
    let tried =
      added_key_authenticates c after us us' k e.writes w next (lit "live_" ++ encode bytes) refl
        (subst (λ t. find_api_key us (hash_of c t) ≡ none) (sym same) fresh) stored
        (subst (Carries next) (sym same) carries) in
    let found =
      ap (λ ps. try_providers ps w next) order
      ∙ skip_providers before (api_key_provider c us' ∷ after) w next skipped
      ∙ tried in
    (
      id,
      is,
      role,
      (
        k,
        authenticate-providers bk d m commits now later db w w next (api_key_identity k) cookie
            found,
        refl,
        refl,
        refl,
        refl,
      ),
    )
