-- ===== src/Auth/MagicLinks.antt =====
-- internal/auth/magiclink.go: one-time login links in a bbolt bucket, and the rate limit in front
-- of their creation. Each reading of the clock, each read of random bytes and the outcome of each
-- write transaction is an argument.
pub mod Rate
pub mod Valid
pub mod Once
pub mod Cleanup
mod Tests
use vel.Common.{
  Bool, List, Option, Text, [], false, if◌then◌else◌, lit, ltb, none, some, true, ℕ, ◌*◌, ◌++◌, ◌+◌,
  ◌==◌, ◌||◌, ◌∷◌,
}
use vel.Std.Hex.{encode}
use vel.Std.Crypto.{Crypto}
use vel.Store.{Bucket, Codec, put_tx, sweep}
use vel.Limiter.{RateTrack, allow_in_window}
use vel.Auth.Types.{hour, minute}

pub record MagicLink : Type 0 where
  pub id : Text
  pub token_hash : Text
  pub user_id : Text
  pub expires_at : ℕ
  pub used : Bool
  pub created_at : ℕ

-- At most five links in an hour for each user; `r` is the map `rateTrack`.
unfoldable pub allow_creation : RateTrack → Text → ℕ → Bool × RateTrack
allow_creation r user now = allow_in_window 5 hour r user now

pub data Error : Type 0 where
  rate_limited no_random not_saved : Error
  invalid_token already_used link_expired not_marked : Error

pub data Result {ℓ} (A : Type ℓ) : Type ℓ where
  ok : A → Result A
  err : Error → Result A

-- `sha256:` and the digits of the hash.
unfoldable pub hash_token : Crypto → Text → Text
hash_token c token = lit "sha256:" ++ encode (c.sum256 token)

-- The clock, the random bytes and the transaction of one call of `Create`.
pub record Creation : Type 0 where
  pub checked_at : ℕ
  pub token_bytes : Option Text
  pub id_bytes : Option Text
  pub dated_at : ℕ
  pub created_at : ℕ
  pub commits : Bool

-- What `Validate` decides between its two transactions. A link under an empty key counts as none.
unfoldable pub examine : ℕ → Option (Text × MagicLink) → Result (Text × MagicLink)
examine now none = err invalid_token
examine now (some (k, ml)) =
    if k == []
    then err invalid_token
    else if ml.used
    then err already_used
    else if ltb ml.expires_at now
    then err link_expired
    else ok (k, ml)

module _ (c : Crypto) {V : Type 0} (b : Bucket V) (j : Codec MagicLink V) where
  unfoldable pub token_of : Text → Text
  token_of bytes = lit "vel_ml_" ++ encode bytes

  unfoldable pub new_link : Text → ℕ → Creation → Text → Text → MagicLink
  new_link user expiry_minutes e token link_id = record {
    id = link_id;
    token_hash = hash_token c token;
    user_id = user;
    expires_at = e.dated_at + expiry_minutes * minute;
    used = false;
    created_at = e.created_at;
  }

  -- `Create` behind its rate limit.
  unfoldable pub make_link : b.Db → Text → ℕ → Creation → Result Text × b.Db
  make_link db user expiry_minutes e = elim e.token_bytes [
    | none ↦ (err no_random, db)
    | some bytes ↦ elim e.id_bytes [
      | none ↦ (err no_random, db)
      | some id_bytes ↦
          let token = token_of bytes in
          let link_id = encode id_bytes in
          elim (put_tx b e.commits db link_id
            (j.marshal (new_link user expiry_minutes e token link_id))) [
              | none ↦ (err not_saved, db)
              | some db' ↦ (ok token, db')
            ]
    ]
  ]

  unfoldable pub create : RateTrack → b.Db → Text → ℕ → Creation → Result Text × RateTrack × b.Db
  create r db user expiry_minutes e =
      let (allowed, r') = allow_creation r user e.checked_at in
      let made = make_link db user expiry_minutes e in
      if allowed then (made.0, r', made.1) else (err rate_limited, r', db)

  -- One visit of `ForEach` in the read transaction of `Validate`.
  unfoldable pub pick_link : Text → Option (Text × MagicLink) → Text × V → Option (Text × MagicLink)
  pick_link hash o (k, v) = elim (j.unmarshal v) [
    | none ↦ o
    | some ml ↦ if ml.token_hash == hash then some (k, ml) else o
  ]

  -- The last link with this hash in the order of `ForEach`.
  unfoldable pub last_link :
      Text → Option (Text × MagicLink) → List (Text × V) → Option (Text × MagicLink)
  last_link hash o [] = o
  last_link hash o (p ∷ ps) = last_link hash (pick_link hash o p) ps

  unfoldable pub find_link : b.Db → Text → Option (Text × MagicLink)
  find_link db token = last_link (hash_token c token) none (b.pairs db)

  -- The write transaction: the link that was read, marked as used, is stored under its key.
  unfoldable pub mark_used : Bool → b.Db → Text × MagicLink → Result Text × b.Db
  mark_used commits db (k, ml) =
      elim (put_tx b commits db k (j.marshal (record ml { used = true }))) [
        | none ↦ (err not_marked, db)
        | some db' ↦ (ok ml.user_id, db')
      ]

  -- The two transactions with nothing between them.
  unfoldable pub mark_if_ok : Bool → b.Db → Result (Text × MagicLink) → Result Text × b.Db
  mark_if_ok commits db (err e) = (err e, db)
  mark_if_ok commits db (ok found) = mark_used commits db found

  unfoldable pub validate : Bool → ℕ → b.Db → Text → Result Text × b.Db
  validate commits now db token = mark_if_ok commits db (examine now (find_link db token))

  -- `Cleanup` marks an entry for removal if it does not decode, is used or has expired.
  unfoldable pub is_spent : ℕ → V → Bool
  is_spent now v = elim (j.unmarshal v) [ none ↦ true | some ml ↦ ml.used || ltb ml.expires_at now ]

  unfoldable pub cleanup_links : Bool → ℕ → b.Db → b.Db
  cleanup_links commits now db = if commits then sweep b (is_spent now) db else db
