-- ===== src/Auth/Users.antt =====
-- internal/auth/users.go: the users file in memory and on disk. A method that takes the lock is one
-- step on the record. Each call of `os.Stat`, `os.ReadFile` and `os.WriteFile` has its outcome as
-- an argument. A lookup returns the record as it is at the call, where the code returns a pointer
-- into the list. JSON is the identity on the file's structure, with `none` for a parse error.
pub mod Keys
pub mod Records
mod Tests
use vel.Common.{
  Bool, List, Option, Text, [], any, false, find_first, if◌then◌else◌, leb, ltb, map, none, some,
  true, ℕ, ◌&&◌, ◌++◌, ◌+◌, ◌==◌, ◌∷◌,
}

pub record UserIdentity : Type 0 where
  pub provider : Text
  pub provider_id : Text

pub record UserRecord : Type 0 where
  pub id : Text
  pub name : Text
  pub email : Text
  pub role : Text
  pub identities : List UserIdentity

pub record ApiKey : Type 0 where
  pub id : Text
  pub name : Text
  pub key_hash : Text
  pub role : Text
  pub scopes : List Text
  pub created_by : Text
  pub created_at : Text

pub record UsersFile : Type 0 where
  pub users : List UserRecord
  pub api_keys : List ApiKey

-- `on_disk` is what the last successful write left, or what somebody else put there.
pub record UserStore : Type 0 where
  pub contents : Option UsersFile
  pub last_mod : ℕ
  pub on_disk : Option UsersFile

pub data Error : Type 0 where
  not_loaded duplicate_user write_failed stat_failed read_failed parse_failed : Error

-- The first user of the list that passes a test.
abbrev pub first_user : (UserRecord → Bool) → UserStore → Option UserRecord
first_user p us = elim us.contents [ none ↦ none | some uf ↦ find_first p uf.users ]

abbrev pub has_identity : Text → Text → UserRecord → Bool
has_identity provider provider_id u =
    any (λ ident. (ident.provider == provider) && (ident.provider_id == provider_id)) u.identities

unfoldable pub find_user_by_identity : UserStore → Text → Text → Option UserRecord
find_user_by_identity us provider provider_id = first_user (has_identity provider provider_id) us

unfoldable pub find_api_key : UserStore → Text → Option ApiKey
find_api_key us key_hash = elim us.contents [
  | none ↦ none
  | some uf ↦ find_first (λ k. k.key_hash == key_hash) uf.api_keys
]

abbrev pub lower_byte : ℕ → ℕ
lower_byte c = if leb b'A' c && leb c b'Z' then c + 32 else c

-- `strings.ToLower`; `unicode` is what it makes of a text with a byte that is not ASCII.
unfoldable pub to_lower : (Text → Text) → Text → Text
to_lower unicode s = if any (leb 128) s then unicode s else map lower_byte s

unfoldable pub find_user_by_email : (Text → Text) → UserStore → Text → Option UserRecord
find_user_by_email unicode us email =
    let email_lower = to_lower unicode email in
    first_user (λ u. to_lower unicode u.email == email_lower) us

unfoldable pub find_user_by_id : UserStore → Text → Option UserRecord
find_user_by_id us id = first_user (λ u. u.id == id) us

unfoldable pub get_data : UserStore → Option UsersFile
get_data us = us.contents

unfoldable pub get_all_users : UserStore → List UserRecord
get_all_users us = elim us.contents [ none ↦ [] | some uf ↦ uf.users ]

unfoldable pub get_all_api_keys : UserStore → List ApiKey
get_all_api_keys us = elim us.contents [ none ↦ [] | some uf ↦ uf.api_keys ]

-- `us.data` is the new file and `SaveUsers` writes it; where the write fails, memory is ahead.
unfoldable pub save_users : Bool → UserStore → UsersFile → Option Error × UserStore
save_users writes us uf =
    if writes
    then (none, record us { contents = some uf; on_disk = some uf })
    else (some write_failed, record us { contents = some uf })

unfoldable pub add_api_key : Bool → UserStore → ApiKey → Option Error × UserStore
add_api_key writes us key = elim us.contents [
  | none ↦ (some not_loaded, us)
  | some uf ↦ save_users writes us (record uf { api_keys = uf.api_keys ++ key ∷ [] })
]

-- The list without the first entry that passes, which is there.
unfoldable pub remove_first {ℓ} : {A : Type ℓ} → (A → Bool) → List A → List A
remove_first p [] = []
remove_first p (x ∷ xs) = if p x then xs else x ∷ remove_first p xs

-- `return true, SaveUsers(…)`
abbrev pub found_and : Option Error × UserStore → (Bool × Option Error) × UserStore
found_and (e, us) = ((true, e), us)

-- The result is the flag with the error.
unfoldable pub remove_api_key : Bool → UserStore → Text → (Bool × Option Error) × UserStore
remove_api_key writes us id = elim us.contents [
  | none ↦ ((false, some not_loaded), us)
  | some uf ↦
      if any (λ k. k.id == id) uf.api_keys
      then found_and (
          save_users writes us
            (record uf { api_keys = remove_first (λ k. k.id == id) uf.api_keys }))
      else ((false, none), us)
]

unfoldable pub add_user : Bool → UserStore → UserRecord → Option Error × UserStore
add_user writes us user = elim us.contents [
  | none ↦ (some not_loaded, us)
  | some uf ↦
      if any (λ u. u.id == user.id) uf.users
      then (some duplicate_user, us)
      else save_users writes us (record uf { users = uf.users ++ user ∷ [] })
]

unfoldable pub remove_user : Bool → UserStore → Text → (Bool × Option Error) × UserStore
remove_user writes us id = elim us.contents [
  | none ↦ ((false, some not_loaded), us)
  | some uf ↦
      if any (λ u. u.id == id) uf.users
      then found_and
          (save_users writes us (record uf { users = remove_first (λ u. u.id == id) uf.users }))
      else ((false, none), us)
]

-- What the file system answers to `load`: the modification time, then the bytes, then their parse.
pub record FileReading : Type 0 where
  pub mod_time : Option ℕ
  pub readable : Bool
  pub parsed : Option UsersFile

unfoldable pub load : UserStore → FileReading → Option Error × UserStore
load us f = elim f.mod_time [
  | none ↦ (some stat_failed, us)
  | some mod_time ↦
      if f.readable
      then elim f.parsed [
        | none ↦ (some parse_failed, us)
        | some uf ↦ (none, record us { contents = some uf; last_mod = mod_time })
      ]
      else (some read_failed, us)
]

-- One tick of `watch`: `stat` is the time that its own call of `os.Stat` gives.
unfoldable pub watch_tick : UserStore → Option ℕ → FileReading → UserStore
watch_tick us stat f = elim stat [
  | none ↦ us
  | some mod_time ↦ if ltb us.last_mod mod_time then (load us f).1 else us
]
