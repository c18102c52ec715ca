-- ===== src/Auth/Users/Keys.antt =====
-- The API keys of the users file: what a lookup by hash finds after an addition or a removal.
use vel.Common.{
  ==_iff, Bool, Bool-cases, List, Option, Option-cases, Text, [], ap, arith, find_first,
  if◌then◌else◌, inl, inr, none, refl, some, subst, sym, true, ◌++◌, ◌==◌, ◌∙◌, ◌∷◌, ◌≡◌, ◌≢◌,
}
use vel.Auth.Users.{
  ApiKey, UserStore, UsersFile, add_api_key, find_api_key, get_all_api_keys, remove_api_key,
  remove_first, save_users,
}

-- No key of the list has this id or this hash.
abbrev pub IsNewKey : Text → Text → List ApiKey → Type 0
IsNewKey id hash [] = Unit
IsNewKey id hash (k ∷ ks) = (k.id ≢ id) × (k.key_hash ≢ hash) × IsNewKey id hash ks

abbrev pub HasUniqueKeys : List ApiKey → Type 0
HasUniqueKeys [] = Unit
HasUniqueKeys (k ∷ ks) = IsNewKey k.id k.key_hash ks × HasUniqueKeys ks

-- A lookup that must not see the key of an id.
abbrev pub hide : Text → Option ApiKey → Option ApiKey
hide gone none = none
hide gone (some k) = if k.id == gone then none else some k

find_hash-append :
    (h : Text) (ks : List ApiKey) (k : ApiKey)
    → find_first (λ x. x.key_hash == h) (ks ++ k ∷ [])
      ≡ elim (find_first (λ x. x.key_hash == h) ks) [
        | none ↦ if k.key_hash == h then some k else none
        | some x ↦ some x
      ]
find_hash-append h [] k = refl
find_hash-append h (x ∷ ks) k = ground (arith, find_hash-append h ks k)

find_hash-new :
    (id h : Text) (ks : List ApiKey)
    → IsNewKey id h ks
    → find_first (λ x. x.key_hash == h) ks ≡ none
find_hash-new id h [] n = refl
find_hash-new id h (k ∷ ks) (p, q, n) = ground (arith, ==_iff k.key_hash h, find_hash-new id h ks n)

hide-new :
    (id hash h : Text) (ks : List ApiKey)
    → IsNewKey id hash ks
    → hide id (find_first (λ x. x.key_hash == h) ks) ≡ find_first (λ x. x.key_hash == h) ks
hide-new id hash h [] n = refl
hide-new id hash h (k ∷ ks) (p, q, n) = ground (arith, ==_iff k.id id, hide-new id hash h ks n)

find_hash-remove :
    (h gone : Text) (ks : List ApiKey)
    → HasUniqueKeys ks
    → find_first (λ x. x.key_hash == h) (remove_first (λ x. x.id == gone) ks)
      ≡ hide gone (find_first (λ x. x.key_hash == h) ks)
unfolding remove_first
find_hash-remove h gone [] u = refl
find_hash-remove h gone (k ∷ ks) (n, u) = elim (Bool-cases (k.id == gone)) [
  | inl hit ↦
      let same : k.id ≡ gone = (==_iff k.id gone).0 hit in
      let rest =
        subst
          (λ x.
            hide x (find_first (λ y. y.key_hash == h) ks) ≡ find_first (λ y. y.key_hash == h) ks)
          same (hide-new k.id k.key_hash h ks n) in
      let none_left : k.key_hash ≡ h → find_first (λ y. y.key_hash == h) ks ≡ none =
        λ e. find_hash-new k.id h ks (subst (λ x. IsNewKey k.id x ks) e n) in
      rw hit (ground (arith, ==_iff k.key_hash h, rest, none_left))
  | inr miss ↦ rw miss (ground (arith, find_hash-remove h gone ks u))
]

find_api_key-some :
    (us : UserStore) (uf : UsersFile) (h : Text)
    → us.contents ≡ some uf
    → find_api_key us h ≡ find_first (λ k. k.key_hash == h) uf.api_keys
unfolding find_api_key
find_api_key-some us uf h e = ap (in_file h) e
  where
    in_file : Text → Option UsersFile → Option ApiKey
    in_file h' none = none
    in_file h' (some f) = find_first (λ k. k.key_hash == h') f.api_keys

get_all_api_keys-some :
    (us : UserStore) (uf : UsersFile) → us.contents ≡ some uf → get_all_api_keys us ≡ uf.api_keys
unfolding get_all_api_keys
get_all_api_keys-some us uf h = ground arith

-- The file after a change of the keys, in memory and on disk.
abbrev pub WroteKeys : UserStore → UsersFile → List ApiKey → Type 0
WroteKeys us uf ks = (us.contents ≡ some (record uf { api_keys = ks })) × (us.on_disk ≡ us.contents)

add_api_key-eq_none :
    (us us' : UserStore) (k : ApiKey) (writes : Bool)
    → add_api_key writes us k ≡ (none, us')
    → (uf : UsersFile) × (us.contents ≡ some uf) × WroteKeys us' uf (uf.api_keys ++ k ∷ [])
unfolding add_api_key save_users
add_api_key-eq_none us us' k writes h = elim (Option-cases us.contents) [
  | inl e ↦ absurd (ground arith)
  | inr (uf, e) ↦ (uf, e, (ground arith, ground arith))
]

remove_api_key-eq_found :
    (us us' : UserStore) (gone : Text) (writes : Bool)
    → remove_api_key writes us gone ≡ ((true, none), us')
    → (uf : UsersFile) × (us.contents ≡ some uf)
      × WroteKeys us' uf (remove_first (λ k. k.id == gone) uf.api_keys)
unfolding remove_api_key save_users
remove_api_key-eq_found us us' gone writes h = elim (Option-cases us.contents) [
  | inl e ↦ absurd (ground arith)
  | inr (uf, e) ↦ (uf, e, (ground arith, ground arith))
]

-- After an AddAPIKey that succeeds, a hash finds the key that it found before, and if there was
-- none, the new key if it has this hash.
pub add_api_key_success :
    (us us' : UserStore) (k : ApiKey) (writes : Bool) (h : Text)
    → add_api_key writes us k ≡ (none, us')
    → (find_api_key us' h ≡ elim (find_api_key us h) [
      | none ↦ if k.key_hash == h then some k else none
      | some x ↦ some x
    ])
      × (us'.on_disk ≡ us'.contents)
add_api_key_success us us' k writes h e =
    let (uf, old, (new, disk)) = add_api_key-eq_none us us' k writes e in
    let before = find_api_key-some us uf h old in
    let after = find_api_key-some us' _ h new in
    (after ∙ find_hash-append h uf.api_keys k ∙ rw before refl, disk)

-- After a RemoveAPIKey that finds its key and succeeds, no hash finds a key of that id, and any
-- other key is found as before: where no two keys share an id or a hash.
pub remove_api_key_success :
    (us us' : UserStore) (gone : Text) (writes : Bool) (h : Text)
    → HasUniqueKeys (get_all_api_keys us)
    → remove_api_key writes us gone ≡ ((true, none), us')
    → (find_api_key us' h ≡ hide gone (find_api_key us h)) × (us'.on_disk ≡ us'.contents)
remove_api_key_success us us' gone writes h unique e =
    let (uf, old, (new, disk)) = remove_api_key-eq_found us us' gone writes e in
    let unique' : HasUniqueKeys uf.api_keys =
      subst HasUniqueKeys (get_all_api_keys-some us uf old) unique in
    let before = find_api_key-some us uf h old in
    let after = find_api_key-some us' _ h new in
    (after ∙ find_hash-remove h gone uf.api_keys unique' ∙ ap (hide gone) (sym before), disk)
