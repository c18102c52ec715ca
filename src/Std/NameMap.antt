-- ===== src/Std/NameMap.antt =====
-- A Go map whose keys are texts, as the list of its pairs in the order of their first insertion. The
-- order in which `range` visits a map is not specified; this is one of the orders.
use vel.Common.{
  ==_iff, Bool, Bool-cases, In, List, Option, Text, [], ap, ap₂, arith, false, if◌then◌else◌, inl,
  inr, map, none, refl, some, subst, sym, true, ◌==◌, ◌↔◌, ◌∙◌, ◌∷◌, ◌≡◌,
}

module _ {V : Type 0} where
  unfoldable pub get : List (Text × V) → Text → Option V
  get [] k = none
  get ((j, v) ∷ m) k = if j == k then some v else get m k

  unfoldable pub put : Text → V → List (Text × V) → List (Text × V)
  put k v [] = (k, v) ∷ []
  put k v ((j, w) ∷ m) = if j == k then (k, v) ∷ m else (j, w) ∷ put k v m

  -- `for _, v := range vs { m[name(v)] = v }`
  unfoldable pub put_all : (V → Text) → List (Text × V) → List V → List (Text × V)
  put_all name m [] = m
  put_all name m (v ∷ vs) = put_all name (put (name v) v m) vs

  abbrev pub or_else : Option V → Option V → Option V
  or_else none o = o
  or_else (some v) o = some v

  -- The last of the values with a name.
  abbrev pub last_named : (V → Text) → List V → Text → Option V
  last_named name [] k = none
  last_named name (v ∷ vs) k = or_else (last_named name vs k) (if name v == k then some v else none)

  pub get-put :
      (k j : Text) (v : V) (m : List (Text × V))
      → get (put k v m) j ≡ (if k == j then some v else get m j)
  unfolding get put
  get-put k j v [] = refl
  get-put k j v ((i, w) ∷ m) = ground (arith, ==_iff k j, ==_iff i k, ==_iff i j, get-put k j v m)

  or_else_assoc : (a b c : Option V) → or_else (or_else a b) c ≡ or_else a (or_else b c)
  or_else_assoc none b c = refl
  or_else_assoc (some v) b c = refl

  if-or_else :
      (b : Bool) (v : V) (o : Option V)
      → (if b then some v else o) ≡ or_else (if b then some v else none) o
  if-or_else true v o = refl
  if-or_else false v o = refl

  pub get-put_all :
      (name : V → Text) (m : List (Text × V)) (vs : List V) (k : Text)
      → get (put_all name m vs) k ≡ or_else (last_named name vs k) (get m k)
  unfolding put_all
  get-put_all name m [] k = refl
  get-put_all name m (v ∷ vs) k =
      get-put_all name (put (name v) v m) vs k
      ∙ ap (or_else (last_named name vs k))
          (get-put (name v) k v m ∙ if-or_else (name v == k) v (get m k))
      ∙ sym (or_else_assoc (last_named name vs k) _ (get m k))

  or_else-none : (o : Option V) → or_else o none ≡ o
  or_else-none none = refl
  or_else-none (some v) = refl

  get-first :
      (name : V → Text) (vs : List V) (k : Text) → get (put_all name [] vs) k ≡ last_named name vs k
  unfolding get
  get-first name vs k = get-put_all name [] vs k ∙ or_else-none _

  -- Each key stands once.
  abbrev pub HasDistinctKeys : List (Text × V) → Type 0
  HasDistinctKeys [] = Unit
  HasDistinctKeys ((k, v) ∷ m) = (get m k ≡ none) × HasDistinctKeys m

  pub put-HasDistinctKeys :
      (k : Text) (v : V) (m : List (Text × V)) → HasDistinctKeys m → HasDistinctKeys (put k v m)
  unfolding put get
  put-HasDistinctKeys k v [] h = (refl, tt)
  put-HasDistinctKeys k v ((j, w) ∷ m) h = elim (Bool-cases (j == k)) [
    | inl same ↦ rw same (subst (λ i. get m i ≡ none) ((==_iff j k).0 same) h.0, h.1)
    | inr other ↦
        rw other (
          get-put k j v m ∙ (ground (arith, ==_iff j k, ==_iff k j)),
          put-HasDistinctKeys k v m h.1,
        )
  ]

  pub put_all-HasDistinctKeys :
      (name : V → Text) (m : List (Text × V)) (vs : List V)
      → HasDistinctKeys m
      → HasDistinctKeys (put_all name m vs)
  unfolding put_all
  put_all-HasDistinctKeys name m [] h = h
  put_all-HasDistinctKeys name m (v ∷ vs) h =
      put_all-HasDistinctKeys name (put (name v) v m) vs (put-HasDistinctKeys (name v) v m h)

  pub In-get :
      (k : Text) (v : V) (m : List (Text × V))
      → HasDistinctKeys m
      → In (k, v) m ↔ (get m k ≡ some v)
  unfolding get
  In-get k v [] h = ground arith
  In-get k v ((j, w) ∷ m) h = ground (arith, ==_iff j k, In-get k v m h.1)

  abbrev pub values : List (Text × V) → List V
  values = map (λ (k, v). v)

  -- Each value stands under its own name.
  abbrev pub AreNamed : (V → Text) → List (Text × V) → Type 0
  AreNamed name [] = Unit
  AreNamed name ((k, v) ∷ m) = (k ≡ name v) × AreNamed name m

  put-AreNamed :
      (name : V → Text) (v : V) (m : List (Text × V))
      → AreNamed name m
      → AreNamed name (put (name v) v m)
  unfolding put
  put-AreNamed name v [] h = (refl, tt)
  put-AreNamed name v ((j, w) ∷ m) h = elim (Bool-cases (j == name v)) [
    | inl same ↦ rw same (refl, h.1)
    | inr other ↦ rw other (h.0, put-AreNamed name v m h.1)
  ]

  pub put_all-AreNamed :
      (name : V → Text) (m : List (Text × V)) (vs : List V)
      → AreNamed name m
      → AreNamed name (put_all name m vs)
  unfolding put_all
  put_all-AreNamed name m [] h = h
  put_all-AreNamed name m (v ∷ vs) h =
      put_all-AreNamed name (put (name v) v m) vs (put-AreNamed name v m h)

  In-named :
      (name : V → Text) (v : V) (m : List (Text × V))
      → AreNamed name m
      → In v (values m) ↔ In (name v, v) m
  In-named name v [] h = (λ i. i, λ i. i)
  In-named name v ((j, w) ∷ m) h =
      let (to, from) = In-named name v m h.1 in
      (
        λ i. elim i [
          | inl e ↦ inl (ap₂ (λ k u. (k, u)) (ap name e ∙ sym h.0) e)
          | inr later ↦ inr (to later)
        ],
        λ i. elim i [ inl e ↦ inl (ap (λ p. p.1) e) | inr later ↦ inr (from later) ],
      )

  -- The values of a map that two lists were put into, the second one after the first.
  pub In-put_all :
      (name : V → Text) (us vs : List V) (v : V)
      → In v (values (put_all name (put_all name [] us) vs))
        ↔ (or_else (last_named name vs (name v)) (last_named name us (name v)) ≡ some v)
  In-put_all name us vs v =
      let m = put_all name [] us in
      let m' = put_all name m vs in
      let distinct = put_all-HasDistinctKeys name m vs (put_all-HasDistinctKeys name [] us tt) in
      let named = put_all-AreNamed name m vs (put_all-AreNamed name [] us tt) in
      let (to, from) = In-named name v m' named in
      let (held, listed) = In-get (name v) v m' distinct in
      let e =
        get-put_all name m vs (name v)
        ∙ ap (or_else (last_named name vs (name v))) (get-first name us (name v)) in
      (λ i. sym e ∙ held (to i), λ k. from (listed (e ∙ k)))

  key_of_named :
      (name : V → Text) (k : Text) (v : V) (m : List (Text × V))
      → AreNamed name m
      → In (k, v) m
      → k ≡ name v
  key_of_named name k v [] h i = absurd i
  key_of_named name k v ((j, w) ∷ m) h i = elim i [
    | inl e ↦ ap (λ p. p.0) e ∙ h.0 ∙ ap name (sym (ap (λ p. p.1) e))
    | inr later ↦ key_of_named name k v m h.1 later
  ]

  pub get-some_iff :
      (name : V → Text) (m : List (Text × V))
      → AreNamed name m
      → HasDistinctKeys m
      → (k : Text) (v : V) → (get m k ≡ some v) ↔ (In v (values m) × (name v ≡ k))
  get-some_iff name m named distinct k v =
      let (to, from) = In-named name v m named in
      let (held, listed) = In-get k v m distinct in
      (
        λ e.
            let key = key_of_named name k v m named (listed e) in
            (from (subst (λ j. In (j, v) m) key (listed e)), sym key),
        λ (i, key). held (subst (λ j. In (j, v) m) key (to i)),
      )
