-- ===== src/Auth/MagicLinks/Cleanup.antt =====
-- What a cleanup of the magic links does to the tokens.
use vel.Common.{
  Option, Text, ap, arith, if◌then◌else◌, ltb, none, refl, some, sym, true, ℕ, ◌||◌, ◌↔◌, ◌∙◌, ◌≡◌,
  ◌≤◌,
}
use vel.Std.Crypto.{Crypto}
use vel.Store.{Bucket, Codec}
use vel.Store.Sweep.{get-sweep, kept}
use vel.Auth.MagicLinks.{MagicLink, cleanup_links, examine, find_link, is_spent, ok}
use vel.Auth.MagicLinks.Valid.{
  IsSole, decoded, examine_iff, find_link_complete, find_link_sound, link_at,
}

module _ (c : Crypto) {V : Type 0} (b : Bucket V) (j : Codec MagicLink V) where
  -- A link survives unless it is used or has expired.
  abbrev unspent : ℕ → Option MagicLink → Option MagicLink
  unspent now none = none
  unspent now (some ml) = if ml.used || ltb ml.expires_at now then none else some ml

  decoded-kept :
      (now : ℕ) (o : Option V)
      → decoded c b j (kept b (is_spent c b j now) o) ≡ unspent now (decoded c b j o)
  unfolding is_spent
  decoded-kept now none = refl
  decoded-kept now (some v) = ground arith

  link_at-cleanup :
      (now : ℕ) (db : b.Db) (k : Text)
      → link_at c b j (cleanup_links c b j true now db) k ≡ unspent now (link_at c b j db k)
  unfolding cleanup_links
  link_at-cleanup now db k =
      ap (decoded c b j) (get-sweep b (is_spent c b j now) db k) ∙ decoded-kept now (b.get db k)

  unspent-some :
      (now : ℕ) (o : Option MagicLink) (ml : MagicLink) → unspent now o ≡ some ml → o ≡ some ml
  unspent-some now none ml h = h
  unspent-some now (some x) ml h = ground arith

  IsSole-cleanup :
      (now : ℕ) (db : b.Db) (token k : Text)
      → IsSole c b j db token k
      → IsSole c b j (cleanup_links c b j true now db) token k
  IsSole-cleanup now db token k sole i ml h t =
      sole i ml (unspent-some now (link_at c b j db i) ml (sym (link_at-cleanup now db i) ∙ h)) t

  -- A cleanup takes no usable token away and brings none back: for a token with one link, the link
  -- passes the checks of Validate after the cleanup exactly when it does before, at the time of the
  -- cleanup or later.
  usable-cleanup_iff :
      (now later : ℕ) (db : b.Db) (token k : Text) (ml : MagicLink)
      → now ≤ later
      → IsSole c b j db token k
      → (examine later (find_link c b j (cleanup_links c b j true now db) token) ≡ ok (k, ml))
        ↔ (examine later (find_link c b j db token) ≡ ok (k, ml))
  usable-cleanup_iff now later db token k ml le sole = (
    λ h.
        let swept = cleanup_links c b j true now db in
        let (found, usable) = (examine_iff later (find_link c b j swept token) k ml).0 h in
        let (held, hash_e) = find_link_sound c b j swept token k ml found in
        let held' =
          unspent-some now (link_at c b j db k) ml (sym (link_at-cleanup now db k) ∙ held) in
        (examine_iff later (find_link c b j db token) k ml).1
          (find_link_complete c b j db token k ml held' hash_e sole, usable),
    λ h.
        let swept = cleanup_links c b j true now db in
        let (found, usable) = (examine_iff later (find_link c b j db token) k ml).0 h in
        let (held, hash_e) = find_link_sound c b j db token k ml found in
        let stays : unspent now (some ml) ≡ some ml = ground arith in
        let held' = link_at-cleanup now db k ∙ ap (unspent now) held ∙ stays in
        (examine_iff later (find_link c b j swept token) k ml).1 (
          find_link_complete c b j swept token k ml held' hash_e
              (IsSole-cleanup now db token k sole),
          usable,
        ),
  )
