-- ===== src/Auth/Sessions.antt =====
-- internal/auth/session_store.go: sessions in a bbolt bucket. A call reads the clock as `now`, and
-- `commits` says whether its write transaction succeeds. The two transactions of `Get` are functions
-- of their own; `get` is the call in which nothing comes between them.
pub mod Live
mod Tests
use vel.Common.{
  Bool, List, Option, Text, [], eqb, if◌then◌else◌, ltb, none, some, suc, true, ℕ, ◌||◌, ◌∷◌,
}
use vel.Store.{Bucket, Codec, delete_tx, put_tx, sweep}
use vel.Auth.Types.{Session, is_expired}

-- The result of `Get`: a session, `nil, nil`, or the error of a stored value that does not decode.
pub data Lookup : Type 0 where
  found : Session → Lookup
  missing : Lookup
  undecodable : Lookup

pub record Stats : Type 0 where
  pub active : ℕ
  pub oldest : ℕ
  pub newest : ℕ

module _ {V : Type 0} (b : Bucket V) (c : Codec Session V) where
  -- The read transaction of `Get`.
  unfoldable pub view : b.Db → Text → Lookup
  view db id = elim (b.get db id) [
    | none ↦ missing
    | some v ↦ elim (c.unmarshal v) [ none ↦ undecodable | some s ↦ found s ]
  ]

  -- The rest of `Get`, in the database as it then is: an expired session is removed, and the error of
  -- that transaction is dropped.
  unfoldable pub drop_expired : Bool → ℕ → b.Db → Text → Lookup → Lookup × b.Db
  drop_expired commits now db id (found s) =
      if is_expired now s then (missing, delete_tx b commits db id) else (found s, db)
  drop_expired commits now db id missing = (missing, db)
  drop_expired commits now db id undecodable = (undecodable, db)

  unfoldable pub get : Bool → ℕ → b.Db → Text → Lookup × b.Db
  get commits now db id = drop_expired commits now db id (view db id)

  -- `none` is an error of the write transaction.
  unfoldable pub save : Bool → b.Db → Session → Option b.Db
  save commits db s = put_tx b commits db s.id (c.marshal s)

  unfoldable pub delete : Bool → b.Db → Text → b.Db
  delete commits db id = delete_tx b commits db id

  -- `Cleanup` marks an entry for removal if it does not decode or has expired.
  unfoldable pub is_stale : ℕ → V → Bool
  is_stale now v = elim (c.unmarshal v) [ none ↦ true | some s ↦ ltb s.expires_at now ]

  unfoldable pub cleanup : Bool → ℕ → b.Db → b.Db
  cleanup commits now db = if commits then sweep b (is_stale now) db else db

  -- One visit of `Stats`.
  unfoldable pub count_session : ℕ → Stats → Session → Stats
  count_session now r s = if ltb s.expires_at now then r else record {
    active = suc r.active;
    oldest = if eqb r.oldest 0 || ltb s.created_at r.oldest then s.created_at else r.oldest;
    newest = if eqb r.newest 0 || ltb r.newest s.created_at then s.created_at else r.newest;
  }

  unfoldable pub count_from : ℕ → Stats → List (Text × V) → Stats
  count_from now r [] = r
  count_from now r ((k, v) ∷ ps) = elim (c.unmarshal v) [
    | none ↦ count_from now r ps
    | some s ↦ count_from now (count_session now r s) ps
  ]

  unfoldable pub stats : ℕ → b.Db → Stats
  stats now db = count_from now (record { active = 0; oldest = 0; newest = 0 }) (b.pairs db)
