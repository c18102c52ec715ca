-- ===== src/Store.antt =====
-- The bbolt bucket and the JSON codec that the session store and the magic-link store stand on.
-- Neither is code of this repository: a bucket is a record of operations with the documented laws
-- of go.etcd.io/bbolt, and a codec is encoding/json at one struct. The constructors of the stores
-- create their bucket and nothing deletes it, so that a store has its bucket at all times.
pub mod Sweep
pub mod Sample
use vel.Common.{
  Bool, In, List, Option, Text, [], if◌then◌else◌, none, not, some, ◌==◌, ◌||◌, ◌↔◌, ◌∷◌, ◌≡◌,
}

pub record Bucket (V : Type 0) : Type 1 where
  pub Db : Type 0
  pub get : Db → Text → Option V
  pub put : Db → Text → V → Db
  pub delete : Db → Text → Db
  -- The pairs in the order in which `ForEach` visits them.
  pub pairs : Db → List (Text × V)
  pub get-put :
      (db : Db) (k j : Text) (v : V) → get (put db k v) j ≡ (if k == j then some v else get db j)
  pub get-delete :
      (db : Db) (k j : Text) → get (delete db k) j ≡ (if k == j then none else get db j)
  pub pairs-get : (db : Db) (k : Text) (v : V) → In (k, v) (pairs db) ↔ (get db k ≡ some v)

-- `json.Marshal` into the stored bytes, and `json.Unmarshal`, whose error is `none`.
pub record Codec (A : Type 0) (V : Type 0) : Type 0 where
  pub marshal : A → V
  pub unmarshal : V → Option A
  pub unmarshal-marshal : (a : A) → unmarshal (marshal a) ≡ some a

module _ {V : Type 0} (b : Bucket V) where
  -- A write transaction with one `Put`: it fails on an empty key, and where it does not commit.
  unfoldable pub put_tx : Bool → b.Db → Text → V → Option b.Db
  put_tx commits db k v = if not commits || (k == []) then none else some (b.put db k v)

  -- A write transaction with one `Delete`. Where it does not commit the database is as it was.
  unfoldable pub delete_tx : Bool → b.Db → Text → b.Db
  delete_tx commits db k = if commits then b.delete db k else db

  -- `for _, k := range keys { b.Delete(k) }`
  unfoldable pub delete_all : b.Db → List Text → b.Db
  delete_all db [] = db
  delete_all db (k ∷ ks) = delete_all (b.delete db k) ks

  -- The keys of the pairs whose value is to go, in the order of `ForEach`.
  unfoldable pub keys_of : (V → Bool) → List (Text × V) → List Text
  keys_of gone [] = []
  keys_of gone ((k, v) ∷ ps) = if gone v then k ∷ keys_of gone ps else keys_of gone ps

  -- The write transaction of both `Cleanup` methods.
  unfoldable pub sweep : (V → Bool) → b.Db → b.Db
  sweep gone db = delete_all db (keys_of gone (b.pairs db))
