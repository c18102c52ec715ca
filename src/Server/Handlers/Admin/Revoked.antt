-- ===== src/Server/Handlers/Admin/Revoked.antt =====
-- Two keys of one name: what a DELETE of the name leaves.
use vel.Common.{
  ==_iff, ==_refl, Bool, List, Option, Text, [], any, ap, arith, false, find_first, none, refl,
  some, true, ℕ, ◌++◌, ◌==◌, ◌∷◌, ◌≡◌, ◌≢◌,
}
use vel.Std.Crypto.{Crypto}
use vel.Auth.Types.{Identity}
use vel.Auth.Users.{
  ApiKey, UserStore, UsersFile, add_api_key, find_api_key, remove_api_key, remove_first, save_users,
}
use vel.Server.Handlers.{answer, done, key_made}
use vel.Server.Handlers.Admin.{NewKey, delete_key, make_key, new_key, plain_key}

any-append :
    (p : ApiKey → Bool) (ks : List ApiKey) (k : ApiKey) → p k ≡ true → any p (ks ++ k ∷ []) ≡ true
any-append p [] k h = ground arith
any-append p (x ∷ ks) k h = ground (arith, any-append p ks k h)

remove_first-append :
    (p : ApiKey → Bool) (ks : List ApiKey) (k k' : ApiKey)
    → any p ks ≡ false
    → p k ≡ true
    → remove_first p ((ks ++ k ∷ []) ++ k' ∷ []) ≡ ks ++ k' ∷ []
unfolding remove_first
remove_first-append p [] k k' h e = rw e
remove_first-append p (x ∷ ks) k k' h e =
    let other : p x ≡ false = ground arith in
    rw other (ap (λ t. x ∷ t) (remove_first-append p ks k k' (ground arith) e))

find_first-append :
    (p : ApiKey → Bool) (ks : List ApiKey) (k : ApiKey)
    → find_first p ks ≡ none
    → p k ≡ true
    → find_first p (ks ++ k ∷ []) ≡ some k
find_first-append p [] k h e = rw e
find_first-append p (x ∷ ks) k h e = ground (arith, find_first-append p ks k)

-- A name can be given to two keys, and a DELETE of the name takes only the first of them away: the
-- second is still found by its hash. The answers of the handler are those of a success. Let no
-- earlier key have this name or the hash of the second key, and let all writes succeed.
pub reused_name_survives :
    (c : Crypto) (uf : UsersFile) (last_mod : ℕ) (disk : Option UsersFile) (id id' : Identity)
    (b b' : NewKey) (bytes bytes' date date' : Text)
    → b'.name ≡ b.name
    → b.name ≢ []
    → any (λ k. k.id == b.name) uf.api_keys ≡ false
    → find_first (λ k. k.key_hash == (new_key c id' b' bytes' date').key_hash) uf.api_keys ≡ none
    → let us : UserStore = record { contents = some uf; last_mod = last_mod; on_disk = disk } in
      let first = make_key c (record { writes = true; random = some bytes; date = date }) us id b in
      let second =
        make_key c (record { writes = true; random = some bytes'; date = date' }) first.1 id' b' in
      let third = delete_key true second.1 b.name in
      (first.0 ≡ answer 200 (key_made (plain_key bytes) b.name))
      × (second.0 ≡ answer 200 (key_made (plain_key bytes') b.name))
      × (third.0 ≡ answer 200 done)
      × (find_api_key third.1 (new_key c id' b' bytes' date').key_hash
          ≡ some (new_key c id' b' bytes' date'))
unfolding make_key delete_key add_api_key remove_api_key save_users find_api_key new_key
reused_name_survives c uf last_mod disk id id' b b' bytes bytes' date date' same named fresh
      unheld =
    let p : ApiKey → Bool = λ k. k.id == b.name in
    let k : ApiKey = new_key c id b bytes date in
    let k' : ApiKey = new_key c id' b' bytes' date' in
    let keys : List ApiKey = (uf.api_keys ++ k ∷ []) ++ k' ∷ [] in
    let given : (b.name == []) ≡ false = ground (arith, ==_iff b.name []) in
    let there : any p keys ≡ true =
      any-append p (uf.api_keys ++ k ∷ []) k' ((==_iff b'.name b.name).1 same) in
    let left : remove_first p keys ≡ uf.api_keys ++ k' ∷ [] =
      remove_first-append p uf.api_keys k k' fresh (==_refl b.name) in
    (
      refl,
      ap (λ n. answer 200 (key_made (plain_key bytes') n)) same,
      rw (given, there) refl,
      rw (given, there)
          (rw left (
            find_first-append (λ x. x.key_hash == k'.key_hash) uf.api_keys k' unheld
              (==_refl k'.key_hash))),
    )
