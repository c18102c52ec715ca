-- ===== src/Auth/MagicLinks/Valid.antt =====
-- Which link `Validate` finds, and when it lets a token through.
use vel.Common.{
  ==_iff, Bool, Bool-cases, In, List, Option, Option-cases, Text, [], ap, ap₂, arith, false, inl,
  inr, none, refl, some, subst, sym, true, ℕ, ◌==◌, ◌↔◌, ◌∙◌, ◌∷◌, ◌≡◌, ◌≢◌, ◌≤◌, ◌⊎◌,
}
use vel.Std.Crypto.{Crypto}
use vel.Store.{Bucket, Codec, put_tx}
use vel.Auth.MagicLinks.{
  Error, MagicLink, Result, err, examine, find_link, hash_token, last_link, mark_if_ok, mark_used,
  ok, pick_link, validate,
}

module _ (c : Crypto) {V : Type 0} (b : Bucket V) (j : Codec MagicLink V) where
  abbrev pub decoded : Option V → Option MagicLink
  decoded none = none
  decoded (some v) = j.unmarshal v

  -- The link that the bucket holds under a key.
  abbrev pub link_at : b.Db → Text → Option MagicLink
  link_at db k = decoded (b.get db k)

  -- No other key holds a link to this token.
  abbrev pub IsSole : b.Db → Text → Text → Type 0
  IsSole db token k =
      (k' : Text) (ml : MagicLink)
      → link_at db k' ≡ some ml
      → ml.token_hash ≡ hash_token c token
      → k' ≡ k

  abbrev Match : Text → Text → MagicLink → List (Text × V) → Type 0
  Match hash k ml ps = (v : V) × In (k, v) ps × (j.unmarshal v ≡ some ml) × (ml.token_hash ≡ hash)

  pick_link_sound :
      (hash k : Text) (ml : MagicLink) (o : Option (Text × MagicLink)) (i : Text) (v : V)
      → pick_link c b j hash o (i, v) ≡ some (k, ml)
      → (o ≡ some (k, ml)) ⊎ ((i ≡ k) × (j.unmarshal v ≡ some ml) × (ml.token_hash ≡ hash))
  unfolding pick_link
  pick_link_sound hash k ml o i v h = elim (Option-cases (j.unmarshal v)) [
    | inl bad ↦ inl (rw (bad, pick_link) at h)
    | inr (x, good) ↦ elim (Bool-cases (x.token_hash == hash)) [
      | inl same ↦
          let e : ◌≡◌ {A = Option (Text × MagicLink)} (some (i, x)) (some (k, ml)) =
            rw (good, pick_link, same) at h in
          let f : x ≡ ml = cc in
          inr (cc, cc, ap (λ l. l.token_hash) (sym f) ∙ (==_iff x.token_hash hash).0 same)
      | inr other ↦ inl (rw (good, pick_link, other) at h)
    ]
  ]

  last_link_sound :
      (hash k : Text) (ml : MagicLink) (o : Option (Text × MagicLink)) (ps : List (Text × V))
      → last_link c b j hash o ps ≡ some (k, ml)
      → (o ≡ some (k, ml)) ⊎ Match hash k ml ps
  unfolding last_link
  last_link_sound hash k ml o [] h = inl h
  last_link_sound hash k ml o ((i, v) ∷ ps) h =
      elim (last_link_sound hash k ml (pick_link c b j hash o (i, v)) ps h) [
        | inl e ↦ elim (pick_link_sound hash k ml o i v e) [
          | inl f ↦ inl f
          | inr (same, u, t) ↦ inr (v, inl (ap (λ x. (x, v)) (sym same)), u, t)
        ]
        | inr (w, i', u, t) ↦ inr (w, inr i', u, t)
      ]

  abbrev IsFound : Option (Text × MagicLink) → Type 0
  IsFound o = (k : Text) × (ml : MagicLink) × (o ≡ some (k, ml))

  pick_link_keeps :
      (hash : Text) (o : Option (Text × MagicLink)) (i : Text) (v : V)
      → IsFound o
      → IsFound (pick_link c b j hash o (i, v))
  unfolding pick_link
  pick_link_keeps hash o i v (k, ml, e) = elim (Option-cases (j.unmarshal v)) [
    | inl bad ↦ (k, ml, rw (bad, pick_link) e)
    | inr (x, good) ↦ elim (Bool-cases (x.token_hash == hash)) [
      | inl same ↦ (i, x, rw (good, pick_link, same))
      | inr other ↦ (k, ml, rw (good, pick_link, other) e)
    ]
  ]

  pick_link_hit :
      (hash k : Text) (ml : MagicLink) (o : Option (Text × MagicLink)) (v : V)
      → j.unmarshal v ≡ some ml
      → ml.token_hash ≡ hash
      → pick_link c b j hash o (k, v) ≡ some (k, ml)
  unfolding pick_link
  pick_link_hit hash k ml o v u t = rw (u, pick_link, (==_iff ml.token_hash hash).1 t)

  last_link_keeps :
      (hash : Text) (o : Option (Text × MagicLink)) (ps : List (Text × V))
      → IsFound o
      → IsFound (last_link c b j hash o ps)
  unfolding last_link
  last_link_keeps hash o [] f = f
  last_link_keeps hash o ((i, v) ∷ ps) f =
      last_link_keeps hash (pick_link c b j hash o (i, v)) ps (pick_link_keeps hash o i v f)

  last_link_hit :
      (hash k : Text) (ml : MagicLink) (o : Option (Text × MagicLink)) (ps : List (Text × V))
      → Match hash k ml ps
      → IsFound (last_link c b j hash o ps)
  unfolding last_link
  last_link_hit hash k ml o [] (v, i, _, _) = absurd i
  last_link_hit hash k ml o ((i, v) ∷ ps) (w, inl e, u, t) =
      let f : pick_link c b j hash o (i, v) ≡ some (k, ml) =
        subst (λ p. pick_link c b j hash o p ≡ some (k, ml)) e (pick_link_hit hash k ml o w u t) in
      last_link_keeps hash (pick_link c b j hash o (i, v)) ps (k, ml, f)
  last_link_hit hash k ml o ((i, v) ∷ ps) (w, inr h, u, t) =
      last_link_hit hash k ml (pick_link c b j hash o (i, v)) ps (w, h, u, t)

  pub find_link_sound :
      (db : b.Db) (token k : Text) (ml : MagicLink)
      → find_link c b j db token ≡ some (k, ml)
      → (link_at db k ≡ some ml) × (ml.token_hash ≡ hash_token c token)
  unfolding find_link
  find_link_sound db token k ml h =
      elim (last_link_sound (hash_token c token) k ml none (b.pairs db) h) [
        | inl e ↦ absurd (ground arith)
        | inr (v, i, u, t) ↦ (rw ((b.pairs-get db k v).0 i) u, t)
      ]

  decoded-some :
      (o : Option V) (ml : MagicLink)
      → decoded o ≡ some ml
      → (v : V) × (o ≡ some v) × (j.unmarshal v ≡ some ml)
  decoded-some none ml h = absurd (ground arith)
  decoded-some (some v) ml h = (v, refl, h)

  -- The only link to a token is the one that is found.
  pub find_link_complete :
      (db : b.Db) (token k : Text) (ml : MagicLink)
      → link_at db k ≡ some ml
      → ml.token_hash ≡ hash_token c token
      → IsSole db token k
      → find_link c b j db token ≡ some (k, ml)
  unfolding find_link
  find_link_complete db token k ml h t sole =
      let (v, g, u) = decoded-some (b.get db k) ml h in
      let (k', ml', e) =
        last_link_hit (hash_token c token) k ml none (b.pairs db)
          (v, (b.pairs-get db k v).1 g, u, t) in
      let (h', t') = find_link_sound db token k' ml' e in
      let same : k' ≡ k = sole k' ml' h' t' in
      let at_k : link_at db k ≡ some ml' = subst (λ x. link_at db x ≡ some ml') same h' in
      let f : ml' ≡ ml = cc (at_k, h) in e ∙ ap₂ (λ x y. some (x, y)) same f

-- What the checks between the two transactions ask of the link that was read.
abbrev pub IsUsable : ℕ → Text → MagicLink → Type 0
IsUsable now k ml = (k ≢ []) × (ml.used ≡ false) × (now ≤ ml.expires_at)

pub examine_iff :
    (now : ℕ) (o : Option (Text × MagicLink)) (k : Text) (ml : MagicLink)
    → (examine now o ≡ ok (k, ml)) ↔ ((o ≡ some (k, ml)) × IsUsable now k ml)
unfolding examine
examine_iff now none k ml = ground arith
examine_iff now (some (i, x)) k ml = ground (arith, ==_iff i [])

examine_cases :
    (now : ℕ) (o : Option (Text × MagicLink))
    → ((e : Error) × (examine now o ≡ err e))
      ⊎ ((k : Text) × (ml : MagicLink) × (examine now o ≡ ok (k, ml)))
examine_cases now o = go (examine now o) refl
  where
    go :
        (r : Result (Text × MagicLink))
        → examine now o ≡ r
        → ((e : Error) × (examine now o ≡ err e))
          ⊎ ((k : Text) × (ml : MagicLink) × (examine now o ≡ ok (k, ml)))
    go (err e) h = inl (e, h)
    go (ok (k, ml)) h = inr (k, ml, h)

module _ (c : Crypto) {V : Type 0} (b : Bucket V) (j : Codec MagicLink V) where
  -- The database in which the link under this key is marked as used.
  abbrev pub marked : b.Db → Text → MagicLink → b.Db
  marked db k ml = b.put db k (j.marshal (record ml { used = true }))

  pub mark_used-commits :
      (db : b.Db) (k : Text) (ml : MagicLink)
      → k ≢ []
      → mark_used c b j true db (k, ml) ≡ (ok ml.user_id, marked db k ml)
  unfolding mark_used put_tx
  mark_used-commits db k ml h = ground (arith, ==_iff k [])

  mark_used-ok :
      (commits : Bool) (db db' : b.Db) (k user : Text) (ml : MagicLink)
      → mark_used c b j commits db (k, ml) ≡ (ok user, db')
      → (commits ≡ true) × (user ≡ ml.user_id) × (db' ≡ marked db k ml)
  unfolding mark_used put_tx
  mark_used-ok commits db db' k user ml h = ground arith

  -- A token is let through exactly when a link is found for it whose key is not empty, which is
  -- not used and has not expired, and the write transaction commits; the answer is the link's user
  -- and what is stored is that link, marked as used, under its key.
  pub validate-ok_iff :
      (commits : Bool) (now : ℕ) (db db' : b.Db) (token user : Text)
      → (validate c b j commits now db token ≡ (ok user, db')) ↔ (
          (k : Text) × (ml : MagicLink) × (find_link c b j db token ≡ some (k, ml))
          × IsUsable now k ml
          × (commits ≡ true)
          × (user ≡ ml.user_id)
          × (db' ≡ marked db k ml))
  unfolding validate mark_if_ok
  validate-ok_iff commits now db db' token user = (
    λ h. elim (examine_cases now (find_link c b j db token)) [
      | inl (e, f) ↦ let no : (err e, db) ≡ (ok user, db') = rw f at h in absurd (ground arith)
      | inr (k, ml, f) ↦
          let made : mark_used c b j commits db (k, ml) ≡ (ok user, db') = rw f at h in
          let (found, usable) = (examine_iff now (find_link c b j db token) k ml).0 f in
          let (commit, same, db_e) = mark_used-ok commits db db' k user ml made in
          (k, ml, found, usable, commit, same, db_e)
    ],
    λ (k, ml, f, u, commit, user_e, db_e).
        let pass : examine now (find_link c b j db token) ≡ ok (k, ml) =
          (examine_iff now (find_link c b j db token) k ml).1 (f, u) in
        rw (pass, commit, user_e, db_e) (mark_used-commits db k ml u.0),
  )
