-- ===== src/Auth/MagicLinks/Once.antt =====
-- A link from its creation to its use: a fresh token logs its user in, once, as long as calls of
-- `Validate` do not overlap.
use vel.Common.{
  ==_iff, ==_refl, Bool, Bool-cases, Option-cases, Text, [], ap, arith, false, if◌then◌else◌, inl,
  inr, refl, some, subst, sym, true, ℕ, ◌*◌, ◌+◌, ◌==◌, ◌∙◌, ◌≡◌, ◌≢◌, ◌≤◌,
}
use vel.Std.Hex.{encode}
use vel.Std.Crypto.{Crypto}
use vel.Store.{Bucket, Codec, put_tx}
use vel.Auth.Types.{minute}
use vel.Limiter.{RateTrack}
use vel.Auth.MagicLinks.{
  Creation, MagicLink, already_used, create, err, examine, find_link, hash_token, make_link,
  mark_if_ok, new_link, ok, validate,
}
use vel.Auth.MagicLinks.Valid.{
  IsSole, find_link_complete, find_link_sound, link_at, marked, validate-ok_iff, IsUsable,
  examine_iff, mark_used-commits,
}

module _ (c : Crypto) {V : Type 0} (b : Bucket V) (j : Codec MagicLink V) where
  link_at-put :
      (db : b.Db) (k i : Text) (ml : MagicLink)
      → link_at c b j (b.put db k (j.marshal ml)) i
        ≡ (if k == i then some ml else link_at c b j db i)
  link_at-put db k i ml = ground (arith, b.get-put db k i (j.marshal ml), j.unmarshal-marshal ml)

  -- Storing a link under the only key of its token, or under the first, leaves that key the only one.
  IsSole-put :
      (db : b.Db) (token k : Text) (ml : MagicLink)
      → IsSole c b j db token k
      → IsSole c b j (b.put db k (j.marshal ml)) token k
  IsSole-put db token k ml sole i x h t = elim (Bool-cases (k == i)) [
    | inl same ↦ sym ((==_iff k i).0 same)
    | inr other ↦ sole i x (sym (rw other at (link_at-put db k i ml)) ∙ h) t
  ]

  -- A token that was let through is refused from then on, as already used, if it has one link.
  pub validate_twice :
      (commits commits' : Bool) (now later : ℕ) (db db' : b.Db) (token user k : Text)
      → IsSole c b j db token k
      → validate c b j commits now db token ≡ (ok user, db')
      → validate c b j commits' later db' token ≡ (err already_used, db')
  unfolding validate mark_if_ok examine
  validate_twice commits commits' now later db db' token user k sole h =
      let (i, ml, found, usable, _, _, db_e) =
        (validate-ok_iff c b j commits now db db' token user).0 h in
      let (held, hash_e) = find_link_sound c b j db token i ml found in
      let used_ml : MagicLink = record ml { used = true } in
      let sole_i : IsSole c b j db token i =
        subst (IsSole c b j db token) (sym (sole i ml held hash_e)) sole in
      let stored : link_at c b j (marked c b j db i ml) i ≡ some used_ml =
        link_at-put db i i used_ml ∙ rw (==_refl i) in
      let again : find_link c b j (marked c b j db i ml) token ≡ some (i, used_ml) =
        find_link_complete c b j (marked c b j db i ml) token i used_ml stored hash_e
          (IsSole-put db token i used_ml sole_i) in
      let full : (i == []) ≡ false = ground (arith, ==_iff i [], usable.0) in
      rw (db_e, again, examine, full)

  -- No stored link carries the hash of this token.
  abbrev pub IsUnissued : b.Db → Text → Type 0
  IsUnissued db token =
      (k : Text) (ml : MagicLink)
      → link_at c b j db k ≡ some ml
      → ml.token_hash ≢ hash_token c token

  module _ (user : Text) (minutes : ℕ) (e : Creation) (token k : Text) where
    new_link_hash : (new_link c b j user minutes e token k).token_hash ≡ hash_token c token
    unfolding new_link
    new_link_hash = refl

    new_link_user : user ≡ (new_link c b j user minutes e token k).user_id
    unfolding new_link
    new_link_user = refl

    new_link-IsUsable :
        (now : ℕ)
        → k ≢ []
        → now ≤ e.dated_at + minutes * minute
        → IsUsable now k (new_link c b j user minutes e token k)
    unfolding new_link
    new_link-IsUsable now full fits = (full, refl, fits)

  create-ok :
      (r : RateTrack) (db db' : b.Db) (user : Text) (minutes : ℕ) (e : Creation) (token : Text)
      (r' : RateTrack)
      → create c b j r db user minutes e ≡ (ok token, r', db')
      → (link_id : Text) × (link_id ≢ [])
        × (db' ≡ b.put db link_id (j.marshal (new_link c b j user minutes e token link_id)))
  unfolding create make_link put_tx
  create-ok r db db' user minutes e token r' h = elim (Option-cases e.token_bytes) [
    | inl none_t ↦ absurd (ground arith)
    | inr (bytes, some_t) ↦ elim (Option-cases e.id_bytes) [
      | inl none_i ↦ absurd (ground arith)
      | inr (id_bytes, some_i) ↦
          let full : encode id_bytes ≢ [] = ground (arith, ==_iff (encode id_bytes) []) in
          (encode id_bytes, full, ground arith)
    ]
  ]

  -- A token that Create returns logs in the user it was made for, at any time up to its expiry, if
  -- no earlier link had the same hash.
  validate-create :
      (r r' : RateTrack) (db db' : b.Db) (user : Text) (minutes : ℕ) (e : Creation) (token : Text)
      (now : ℕ)
      → create c b j r db user minutes e ≡ (ok token, r', db')
      → IsUnissued db token
      → now ≤ e.dated_at + minutes * minute
      → (validate c b j true now db' token).0 ≡ ok user
  validate-create r r' db db' user minutes e token now h fresh fits =
      let (k, full, db_e) = create-ok r db db' user minutes e token r' h in
      let ml : MagicLink = new_link c b j user minutes e token k in
      let put_db = b.put db k (j.marshal ml) in
      let stored : link_at c b j put_db k ≡ some ml = link_at-put db k k ml ∙ rw (==_refl k) in
      let sole : IsSole c b j put_db token k =
        IsSole-put db token k ml (λ i x held t. absurd (fresh i x held t)) in
      let found : find_link c b j put_db token ≡ some (k, ml) =
        find_link_complete c b j put_db token k ml stored (new_link_hash user minutes e token k)
          sole in
      let pass = (validate-ok_iff c b j true now put_db (marked c b j put_db k ml) token user).1 (
        k,
        ml,
        found,
        new_link-IsUsable user minutes e token k now full fits,
        refl,
        new_link_user user minutes e token k,
        refl,
      ) in
      rw db_e (ap (λ x. x.0) pass)

  -- Two calls of Validate whose read transactions both come before their write transactions: each
  -- reads the link while it is unused, so that one link logs its user in twice.
  pub overlapping_validations :
      (now later : ℕ) (db : b.Db) (token k : Text) (ml : MagicLink)
      → find_link c b j db token ≡ some (k, ml)
      → IsUsable now k ml
      → IsUsable later k ml
      → let first = mark_if_ok c b j true db (examine now (find_link c b j db token)) in
        let second = mark_if_ok c b j true first.1 (examine later (find_link c b j db token)) in
        (first.0 ≡ ok ml.user_id) × (second.0 ≡ ok ml.user_id)
  unfolding mark_if_ok
  overlapping_validations now later db token k ml found usable usable' =
      let pass = (examine_iff now (find_link c b j db token) k ml).1 (found, usable) in
      let pass' = (examine_iff later (find_link c b j db token) k ml).1 (found, usable') in
      let first = mark_used-commits c b j db k ml usable.0 in
      let second = mark_used-commits c b j (marked c b j db k ml) k ml usable.0 in
      rw (pass, pass', first, second) (refl, refl)
