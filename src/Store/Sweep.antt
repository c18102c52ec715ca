-- ===== src/Store/Sweep.antt =====
-- What a sweep leaves: the pairs whose value stays, and no other.
use vel.Common.{
  ==_iff, Bool, Bool-cases, In, List, Option, Option-cases, Text, [], any, ap, arith, if◌then◌else◌,
  inl, inr, none, refl, some, sym, true, ◌==◌, ◌∙◌, ◌∷◌, ◌≡◌,
}
use vel.Store.{Bucket, delete_all, keys_of, sweep}

module _ {V : Type 0} (b : Bucket V) where
  has_key : Text → List Text → Bool
  has_key k ks = any (λ j. j == k) ks

  get-delete_all :
      (db : b.Db) (ks : List Text) (k : Text)
      → b.get (delete_all b db ks) k ≡ (if has_key k ks then none else b.get db k)
  unfolding delete_all has_key
  get-delete_all db [] k = refl
  get-delete_all db (j ∷ ks) k =
      get-delete_all (b.delete db j) ks k ∙ ground (arith, b.get-delete db j k)

  keys_of_sound :
      (gone : V → Bool) (k : Text) (ps : List (Text × V))
      → has_key k (keys_of b gone ps) ≡ true
      → (v : V) × In (k, v) ps × (gone v ≡ true)
  unfolding has_key keys_of
  keys_of_sound gone k [] h = absurd (ground arith)
  keys_of_sound gone k ((j, v) ∷ ps) h = elim (Bool-cases (gone v)) [
    | inl goes ↦ elim (Bool-cases (j == k)) [
      | inl same ↦ (v, inl (ap (λ x. (x, v)) (sym ((==_iff j k).0 same))), goes)
      | inr other ↦ let (w, i, g) = keys_of_sound gone k ps (rw (goes, other) at h) in (w, inr i, g)
    ]
    | inr stays ↦ let (w, i, g) = keys_of_sound gone k ps (rw stays at h) in (w, inr i, g)
  ]

  keys_of_complete :
      (gone : V → Bool) (k : Text) (v : V) (ps : List (Text × V))
      → In (k, v) ps
      → gone v ≡ true
      → has_key k (keys_of b gone ps) ≡ true
  unfolding has_key keys_of
  keys_of_complete gone k v [] h g = absurd h
  keys_of_complete gone k v ((j, w) ∷ ps) (inl e) g =
      let same : (j == k) ≡ true = (==_iff j k).1 (ap (λ p. p.0) (sym e)) in
      let goes : gone w ≡ true = ap (λ p. gone p.1) (sym e) ∙ g in rw (goes, same)
  keys_of_complete gone k v ((j, w) ∷ ps) (inr i) g =
      let ih = keys_of_complete gone k v ps i g in ground (arith, ih)

  -- A value that goes is gone, and a value that stays is as it was.
  abbrev pub kept : (V → Bool) → Option V → Option V
  kept gone none = none
  kept gone (some v) = if gone v then none else some v

  keys_of-kept :
      (gone : V → Bool) (db : b.Db) (k : Text)
      → (if has_key k (keys_of b gone (b.pairs db)) then none else b.get db k)
        ≡ kept gone (b.get db k)
  keys_of-kept gone db k = elim (Option-cases (b.get db k)) [
    | inl e ↦ elim (Bool-cases (has_key k (keys_of b gone (b.pairs db)))) [
      | inl hit ↦ rw (hit, e)
      | inr miss ↦ rw (miss, e)
    ]
    | inr (v, e) ↦ elim (Bool-cases (gone v)) [
      | inl goes ↦
          rw (keys_of_complete gone k v (b.pairs db) ((b.pairs-get db k v).1 e) goes, e, kept, goes)
      | inr stays ↦ elim (Bool-cases (has_key k (keys_of b gone (b.pairs db)))) [
        | inl hit ↦
            let (w, i, g) = keys_of_sound gone k (b.pairs db) hit in
            let same : v ≡ w = cc ((b.pairs-get db k w).0 i, e) in cc (same, g)
        | inr miss ↦ rw (miss, e, kept, stays)
      ]
    ]
  ]

  pub get-sweep :
      (gone : V → Bool) (db : b.Db) (k : Text) → b.get (sweep b gone db) k ≡ kept gone (b.get db k)
  unfolding sweep
  get-sweep gone db k = get-delete_all db (keys_of b gone (b.pairs db)) k ∙ keys_of-kept gone db k
