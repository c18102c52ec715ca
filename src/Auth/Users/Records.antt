-- ===== src/Auth/Users/Records.antt =====
-- The user records: unique ids under every call, and what a lookup finds after an addition or a
-- removal.
use vel.Common.{
  ==_iff, ==_refl, Bool, Bool-cases, List, Option, Option-cases, Text, [], any, ap, arith, false,
  find_first, if◌then◌else◌, inl, inr, none, refl, some, subst, sym, true, ◌++◌, ◌==◌, ◌∙◌, ◌∷◌,
  ◌≡◌, ◌≢◌,
}
use vel.Auth.Users.{
  UserRecord, UserStore, add_user, find_user_by_id, get_all_users, remove_first, save_users,
  UsersFile, remove_user, write_failed,
}

abbrev pub IsNewId : Text → List UserRecord → Type 0
IsNewId id [] = Unit
IsNewId id (u ∷ us) = (u.id ≢ id) × IsNewId id us

abbrev pub HasUniqueIds : List UserRecord → Type 0
HasUniqueIds [] = Unit
HasUniqueIds (u ∷ us) = IsNewId u.id us × HasUniqueIds us

IsNewId-of_any :
    (id : Text) (us : List UserRecord) → any (λ u. u.id == id) us ≡ false → IsNewId id us
IsNewId-of_any id [] h = tt
IsNewId-of_any id (u ∷ us) h = ground (arith, ==_iff u.id id, IsNewId-of_any id us)

any_of_IsNewId :
    (id : Text) (us : List UserRecord) → IsNewId id us → any (λ u. u.id == id) us ≡ false
any_of_IsNewId id [] h = refl
any_of_IsNewId id (u ∷ us) (n, h) = ground (arith, ==_iff u.id id, any_of_IsNewId id us h)

IsNewId-append :
    (id : Text) (us : List UserRecord) (u : UserRecord)
    → IsNewId id us
    → u.id ≢ id
    → IsNewId id (us ++ u ∷ [])
IsNewId-append id [] u h k = (k, tt)
IsNewId-append id (x ∷ us) u (n, h) k = (n, IsNewId-append id us u h k)

HasUniqueIds-append :
    (us : List UserRecord) (u : UserRecord)
    → HasUniqueIds us
    → IsNewId u.id us
    → HasUniqueIds (us ++ u ∷ [])
HasUniqueIds-append [] u h k = (tt, tt)
HasUniqueIds-append (x ∷ us) u (n, h) (m, k) =
    (IsNewId-append x.id us u n (λ e. m (sym e)), HasUniqueIds-append us u h k)

IsNewId-remove :
    (id gone : Text) (us : List UserRecord)
    → IsNewId id us
    → IsNewId id (remove_first (λ u. u.id == gone) us)
unfolding remove_first
IsNewId-remove id gone [] h = tt
IsNewId-remove id gone (u ∷ us) h = ground (arith, IsNewId-remove id gone us h.1)

HasUniqueIds-remove :
    (gone : Text) (us : List UserRecord)
    → HasUniqueIds us
    → HasUniqueIds (remove_first (λ u. u.id == gone) us)
unfolding remove_first
HasUniqueIds-remove gone [] h = tt
HasUniqueIds-remove gone (u ∷ us) (n, h) = elim (Bool-cases (u.id == gone)) [
  | inl hit ↦ rw hit h
  | inr miss ↦ rw miss (IsNewId-remove u.id gone us n, HasUniqueIds-remove gone us h)
]

find-append_new :
    (id : Text) (us : List UserRecord) (u : UserRecord)
    → IsNewId u.id us
    → find_first (λ x. x.id == id) (us ++ u ∷ [])
      ≡ (if u.id == id then some u else find_first (λ x. x.id == id) us)
find-append_new id [] u h = refl
find-append_new id (x ∷ us) u (n, h) =
    ground (arith, ==_iff x.id id, ==_iff u.id id, find-append_new id us u h)

find-new :
    (id : Text) (us : List UserRecord) → IsNewId id us → find_first (λ x. x.id == id) us ≡ none
find-new id [] h = refl
find-new id (u ∷ us) (n, h) = ground (arith, ==_iff u.id id, find-new id us h)

find-remove :
    (id gone : Text) (us : List UserRecord)
    → HasUniqueIds us
    → find_first (λ x. x.id == id) (remove_first (λ x. x.id == gone) us)
      ≡ (if gone == id then none else find_first (λ x. x.id == id) us)
unfolding remove_first
find-remove id gone [] h = ground arith
find-remove id gone (u ∷ us) (n, h) = elim (Bool-cases (u.id == gone)) [
  | inl hit ↦
      let same : u.id ≡ gone = (==_iff u.id gone).0 hit in
      let rest : gone ≡ id → find_first (λ x. x.id == id) us ≡ none =
        λ e. find-new id us (subst (λ x. IsNewId x us) (same ∙ e) n) in
      rw hit (ground (arith, ==_iff gone id, ==_iff u.id id, rest))
  | inr miss ↦
      rw miss
        (ground (arith, ==_iff gone id, ==_iff u.id id, ==_iff u.id gone, find-remove id gone us h))
]

-- The ids of a loaded store are unique.
abbrev pub IsKeyed : UserStore → Type 0
IsKeyed us = HasUniqueIds (get_all_users us)

find_user_by_id-some :
    (us : UserStore) (uf : UsersFile) (id : Text)
    → us.contents ≡ some uf
    → find_user_by_id us id ≡ find_first (λ u. u.id == id) uf.users
unfolding find_user_by_id
find_user_by_id-some us uf id h = ap (in_file id) h
  where
    in_file : Text → Option UsersFile → Option UserRecord
    in_file id' none = none
    in_file id' (some f) = find_first (λ u. u.id == id') f.users

get_all_users-some :
    (us : UserStore) (uf : UsersFile) → us.contents ≡ some uf → get_all_users us ≡ uf.users
unfolding get_all_users
get_all_users-some us uf h = ground arith

-- The store after a change that was written: the new file, in memory and on disk.
abbrev pub Wrote : UserStore → UsersFile → Type 0
Wrote us uf = (us.contents ≡ some uf) × (us.on_disk ≡ some uf)

add_user-eq_none :
    (us us' : UserStore) (user : UserRecord) (writes : Bool)
    → add_user writes us user ≡ (none, us')
    → (uf : UsersFile) × (us.contents ≡ some uf)
      × IsNewId user.id uf.users
      × Wrote us' (record uf { users = uf.users ++ user ∷ [] })
unfolding add_user save_users
add_user-eq_none us us' user writes h = elim (Option-cases us.contents) [
  | inl e ↦ absurd (ground arith)
  | inr (uf, e) ↦ elim (Bool-cases (any (λ u. u.id == user.id) uf.users)) [
    | inl taken ↦ absurd (ground arith)
    | inr free ↦ (uf, e, IsNewId-of_any user.id uf.users free, (ground arith, ground arith))
  ]
]

remove_user-eq_found :
    (us us' : UserStore) (gone : Text) (writes : Bool)
    → remove_user writes us gone ≡ ((true, none), us')
    → (uf : UsersFile) × (us.contents ≡ some uf)
      × Wrote us' (record uf { users = remove_first (λ u. u.id == gone) uf.users })
unfolding remove_user save_users
remove_user-eq_found us us' gone writes h = elim (Option-cases us.contents) [
  | inl e ↦ absurd (ground arith)
  | inr (uf, e) ↦ (uf, e, (ground arith, ground arith))
]

-- An AddUser that succeeds is seen by every later lookup by id: the new user under its id, and
-- under any other id what was there before. The ids stay unique, and the file on disk is the one
-- in memory.
add_user_success :
    (us us' : UserStore) (user : UserRecord) (writes : Bool) (id : Text)
    → IsKeyed us
    → add_user writes us user ≡ (none, us')
    → (find_user_by_id us' id ≡ (if user.id == id then some user else find_user_by_id us id))
      × IsKeyed us'
      × (us'.on_disk ≡ us'.contents)
add_user_success us us' user writes id keyed h =
    let (uf, e, fresh, wrote) = add_user-eq_none us us' user writes h in
    let unique : HasUniqueIds uf.users = subst HasUniqueIds (get_all_users-some us uf e) keyed in
    (
      find_user_by_id-some us' _ id wrote.0
          ∙ find-append_new id uf.users user fresh
          ∙ ap (λ o. if user.id == id then some user else o)
              (sym (find_user_by_id-some us uf id e)),
      subst HasUniqueIds (sym (get_all_users-some us' _ wrote.0))
          (HasUniqueIds-append uf.users user unique fresh),
      wrote.1 ∙ sym wrote.0,
    )

-- A RemoveUser that finds its user and succeeds leaves no user under the id and the others as they
-- were, if the ids were unique; they stay so, and the file on disk is the one in memory.
remove_user_success :
    (us us' : UserStore) (gone : Text) (writes : Bool) (id : Text)
    → IsKeyed us
    → remove_user writes us gone ≡ ((true, none), us')
    → (find_user_by_id us' id ≡ (if gone == id then none else find_user_by_id us id))
      × IsKeyed us'
      × (us'.on_disk ≡ us'.contents)
remove_user_success us us' gone writes id keyed h =
    let (uf, e, wrote) = remove_user-eq_found us us' gone writes h in
    let unique : HasUniqueIds uf.users = subst HasUniqueIds (get_all_users-some us uf e) keyed in
    (
      find_user_by_id-some us' _ id wrote.0
          ∙ find-remove id gone uf.users unique
          ∙ ap (λ o. if gone == id then none else o) (sym (find_user_by_id-some us uf id e)),
      subst HasUniqueIds (sym (get_all_users-some us' _ wrote.0))
          (HasUniqueIds-remove gone uf.users unique),
      wrote.1 ∙ sym wrote.0,
    )

-- An AddUser whose write fails answers with an error and yet the user is there: a later lookup by
-- its id finds it, while the file on disk is as it was.
add_user_write_failure :
    (us : UserStore) (uf : UsersFile) (user : UserRecord)
    → us.contents ≡ some uf
    → IsNewId user.id uf.users
    → let (error, us') = add_user false us user in
      (error ≡ some write_failed)
      × (find_user_by_id us' user.id ≡ some user)
      × (us'.on_disk ≡ us.on_disk)
unfolding add_user save_users
add_user_write_failure us uf user e fresh =
    let free : any (λ u. u.id == user.id) uf.users ≡ false =
      any_of_IsNewId user.id uf.users fresh in
    let held : (add_user false us user).1.contents
        ≡ some (record uf { users = uf.users ++ user ∷ [] }) =
      ground arith in
    (
      ground arith,
      find_user_by_id-some (add_user false us user).1 _ user.id held
          ∙ find-append_new user.id uf.users user fresh
          ∙ rw (==_refl user.id),
      ground arith,
    )
