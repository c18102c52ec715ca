-- ===== src/Store/Sample.antt =====
-- A bucket that runs in examples: an association list, newest entry first.
use vel.Common.{
  ==_iff, In, List, Option, Text, [], arith, if◌then◌else◌, none, refl, some, ◌==◌, ◌↔◌, ◌∷◌, ◌≡◌,
  ◌≢◌,
}
use vel.Store.{Bucket, Codec}

module _ {V : Type 0} where
  abbrev pub find_key : List (Text × V) → Text → Option V
  find_key [] j = none
  find_key ((k, v) ∷ m) j = if k == j then some v else find_key m j

  abbrev pub drop_key : List (Text × V) → Text → List (Text × V)
  drop_key [] j = []
  drop_key ((k, v) ∷ m) j = if k == j then drop_key m j else (k, v) ∷ drop_key m j

  -- The newest entry of each key.
  abbrev pub newest : List (Text × V) → List (Text × V)
  newest [] = []
  newest ((k, v) ∷ m) = (k, v) ∷ drop_key (newest m) k

  pub find_key-drop :
      (m : List (Text × V)) (k j : Text)
      → find_key (drop_key m k) j ≡ (if k == j then none else find_key m j)
  find_key-drop [] k j = ground arith
  find_key-drop ((i, v) ∷ m) k j =
      ground (arith, ==_iff i k, ==_iff k j, ==_iff i j, find_key-drop m k j)

  pub find_key-put :
      (m : List (Text × V)) (k j : Text) (v : V)
      → find_key ((k, v) ∷ m) j ≡ (if k == j then some v else find_key m j)
  find_key-put m k j v = refl

  In-drop :
      (m : List (Text × V)) (k j : Text) (v : V)
      → In (j, v) (drop_key m k) ↔ (In (j, v) m × (k ≢ j))
  In-drop [] k j v = ground arith
  In-drop ((i, w) ∷ m) k j v = ground (arith, ==_iff i k, In-drop m k j v)

  pub newest-find_key :
      (m : List (Text × V)) (j : Text) (v : V) → In (j, v) (newest m) ↔ (find_key m j ≡ some v)
  newest-find_key [] j v = ground arith
  newest-find_key ((k, w) ∷ m) j v =
      ground (arith, ==_iff k j, In-drop (newest m) k j v, newest-find_key m j v)

abbrev pub assoc_bucket : (V : Type 0) → Bucket V
assoc_bucket V = record {
  Db = List (Text × V);
  get = find_key;
  put = λ db k v. (k, v) ∷ db;
  delete = drop_key;
  pairs = newest;
  get-put = find_key-put;
  get-delete = find_key-drop;
  pairs-get = newest-find_key;
}

-- The codec that stores the struct itself.
abbrev pub plain_codec : (A : Type 0) → Codec A A
plain_codec A = record { marshal = λ a. a; unmarshal = λ a. some a; unmarshal-marshal = λ a. refl }
