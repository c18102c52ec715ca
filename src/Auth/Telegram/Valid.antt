-- ===== src/Auth/Telegram/Valid.antt =====
-- When initial data of Telegram is accepted.
use vel.Common.{
  ==_iff, ==_refl, All, Bool-cases, In, In-keep, List, Option, Option-cases, Text, [], ap, ap₂,
  arith, false, inl, inr, lit, map, negsuc, not, pos, refl, some, subst, suc, sym, true, ℕ, ℤ, ◌++◌,
  ◌+◌, ◌==◌, ◌↔◌, ◌∙◌, ◌∷◌, ◌≡◌, ◌≢◌, ◌≤◌, ◌⊎◌,
}
use vel.Std.Hex.{IsByte, decode, decode-encode, encode}
use vel.Std.Values.{distinct_keys, sorted_keys, join, Values, delete_key, get_value, parse_query}
use vel.Std.Crypto.{Crypto}
use vel.Std.Sort.{
  IsSorted, In-sort, sort-IsSorted, sorted_unique, text_ltb, text_ltb_irrefl, text_ltb_trans,
}
use vel.Auth.Telegram.Order.{In-distinct_keys, distinct_keys-AreOrdered}
use vel.Auth.Telegram.Decimal.{InRange, format_int, parse_int-format}
use vel.Auth.Telegram.{
  User, data_check_string, hash_holds, init_data_digest, is_outdated, parse_int, read_user,
  validate_init_data, validate_params,
}

-- The sorted keys of the parameters other than `hash`.
abbrev pub IsKeyList : Values → List Text → Type 0
IsKeyList ps ks =
    IsSorted text_ltb ks × ((k : Text) → In k ks ↔ ((k ≢ lit "hash") × ((v : Text) × In (k, v) ps)))

-- The text that is signed: a line `key=value` for each of these keys.
abbrev pub check_text : Values → List Text → Text
check_text ps ks = join (b'\n' ∷ []) (map (λ k. k ++ b'=' ∷ get_value ps k) ks)

-- The hash is the digest of that text in hex, under the key that Telegram derives from the token.
abbrev pub HasDigest : Crypto → Text → Values → Type 0
HasDigest c bot_token ps =
    (ks : List Text) × IsKeyList ps ks
    × (decode (get_value ps (lit "hash"))
        ≡ some (c.hmac_sha256 (c.hmac_sha256 (lit "WebAppData") bot_token) (check_text ps ks)))

-- No more than 86,400 seconds before `now`; a difference of 2^63 or more wraps round.
abbrev pub IsFresh : ℕ → ℤ → Type 0
IsFresh now (pos n) = now ≤ n + 86400
IsFresh now (negsuc n) = (now + suc n ≤ 86400) ⊎ (9223372036854775808 ≤ now + suc n)

-- The data parses, its hash is the digest of its other parameters, it is not outdated, and its user
-- decodes to this one.
abbrev pub IsSigned : Crypto → Text → (Text → Option User) → ℕ → Text → User → Type 0
IsSigned c bot_token decode_user now init_data u =
    let ps = (parse_query init_data).1 in
    ((parse_query init_data).0 ≡ true)
    × (get_value ps (lit "hash") ≢ [])
    × HasDigest c bot_token ps
    × IsFresh now (parse_int (get_value ps (lit "auth_date")))
    × (get_value ps (lit "user") ≢ [])
    × (decode_user (get_value ps (lit "user")) ≡ some u)

pub hash_holds_iff :
    (hash digest : Text)
    → All IsByte digest
    → (hash_holds hash digest ≡ true) ↔ (decode hash ≡ some digest)
unfolding hash_holds
hash_holds_iff hash digest h =
    let back : decode (encode digest) ≡ some digest = decode-encode digest h in
    (
      λ e. elim (Option-cases (decode hash)) [
        | inl k ↦ absurd (ground arith)
        | inr (bytes, k) ↦ ground (arith, ==_iff bytes digest, back)
      ],
      λ e. ground (arith, ==_refl digest, back),
    )

is_outdated_iff : (now : ℕ) (d : ℤ) → (is_outdated now d ≡ false) ↔ IsFresh now d
unfolding is_outdated
is_outdated_iff now (pos n) = ground arith
is_outdated_iff now (negsuc n) = ground arith

get_value-delete :
    (ps : Values) (h k : Text) → k ≢ h → get_value (delete_key ps h) k ≡ get_value ps k
unfolding get_value delete_key
get_value-delete [] h k n = refl
get_value-delete ((j, v) ∷ ps) h k n = elim (Bool-cases (j == h)) [
  | inl gone ↦
      let other : (j == k) ≡ false = ground (arith, ==_iff j k, ==_iff j h) in
      rw (gone, other) (get_value-delete ps h k n)
  | inr stays ↦ elim (Bool-cases (j == k)) [
    | inl hit ↦ rw (stays, hit) refl
    | inr miss ↦ rw (stays, miss) (get_value-delete ps h k n)
  ]
]

In-delete :
    (ps : Values) (h k : Text)
    → ((v : Text) × In (k, v) (delete_key ps h)) ↔ ((k ≢ h) × ((v : Text) × In (k, v) ps))
unfolding delete_key
In-delete ps h k = (
  λ (v, l).
      let (i, e) = (In-keep (λ (j, x). not (j == h)) (k, v) ps).0 l in
      ((λ same. ground (arith, ==_iff k h)), (v, i)),
  λ (n, (v, i)).
      (v, (In-keep (λ (j, x). not (j == h)) (k, v) ps).1 (i, ground (arith, ==_iff k h))),
)

sorted_keys-IsKeyList : (ps : Values) → IsKeyList ps (sorted_keys (delete_key ps (lit "hash")))
unfolding sorted_keys
sorted_keys-IsKeyList ps =
    let rest = delete_key ps (lit "hash") in
    (
      sort-IsSorted text_ltb text_ltb_trans (distinct_keys rest) (distinct_keys-AreOrdered rest),
      λ k. ground (
        arith,
        In-sort text_ltb k (distinct_keys rest),
        In-distinct_keys k rest,
        In-delete ps (lit "hash") k,
      ),
    )

IsKeyList-unique : (ps : Values) (ks js : List Text) → IsKeyList ps ks → IsKeyList ps js → ks ≡ js
IsKeyList-unique ps ks js (sorted, held) (sorted', held') =
    sorted_unique text_ltb text_ltb_irrefl text_ltb_trans ks js sorted sorted'
      (λ z. ((λ l. (held' z).1 ((held z).0 l)), (λ l. (held z).1 ((held' z).0 l))))

map-same_on :
    (f g : Text → Text) (ks : List Text) → ((k : Text) → In k ks → f k ≡ g k) → map f ks ≡ map g ks
map-same_on f g [] h = refl
map-same_on f g (k ∷ ks) h =
    ap₂ (λ x xs. x ∷ xs) (h k (inl refl)) (map-same_on f g ks (λ j l. h j (inr l)))

check_text-sorted :
    (ps : Values)
    → data_check_string (delete_key ps (lit "hash"))
      ≡ check_text ps (sorted_keys (delete_key ps (lit "hash")))
unfolding data_check_string
check_text-sorted ps =
    let rest = delete_key ps (lit "hash") in
    ap (join (b'\n' ∷ [])) (
      map-same_on (λ k. k ++ b'=' ∷ get_value rest k) (λ k. k ++ b'=' ∷ get_value ps k)
        (sorted_keys rest)
        (λ k l.
          ap (λ v. k ++ b'=' ∷ v)
            (get_value-delete ps (lit "hash") k (((sorted_keys-IsKeyList ps).1 k).0 l).0)))

hash_holds-HasDigest :
    (c : Crypto) (bot_token : Text) (ps : Values)
    → (hash_holds
          (get_value ps (lit "hash"))
          (init_data_digest c bot_token (delete_key ps (lit "hash")))
        ≡ true)
      ↔ HasDigest c bot_token ps
unfolding init_data_digest
hash_holds-HasDigest c bot_token ps =
    let key = c.hmac_sha256 (lit "WebAppData") bot_token in
    let rest = delete_key ps (lit "hash") in
    let digest =
      hash_holds_iff (get_value ps (lit "hash")) (c.hmac_sha256 key (data_check_string rest))
        (c.hmac_bytes key (data_check_string rest)) in
    (
      λ e. (
        sorted_keys rest,
        sorted_keys-IsKeyList ps,
        digest.0 e ∙ ap (λ t. some (c.hmac_sha256 key t)) (check_text-sorted ps),
      ),
      λ (ks, keys, e). digest.1 (
          e
          ∙ ap (λ t. some (c.hmac_sha256 key t))
              (ap (check_text ps)
                  (IsKeyList-unique ps ks (sorted_keys rest) keys (sorted_keys-IsKeyList ps))
                ∙ sym (check_text-sorted ps))),
    )

read_user_iff :
    (c : Crypto) (bot_token : Text) (decode_user : Text → Option User) (now : ℕ) (ps : Values)
    (u : User)
    → (read_user c bot_token decode_user now ps ≡ some u) ↔ (
        IsFresh now (parse_int (get_value ps (lit "auth_date")))
        × (get_value ps (lit "user") ≢ [])
        × (decode_user (get_value ps (lit "user")) ≡ some u))
unfolding read_user
read_user_iff c bot_token decode_user now ps u = ground (
  arith,
  ==_iff (get_value ps (lit "user")) [],
  is_outdated_iff now (parse_int (get_value ps (lit "auth_date"))),
)

date_hash : lit "auth_date" ≢ lit "hash"
date_hash e = ground arith

user_hash : lit "user" ≢ lit "hash"
user_hash e = ground arith

-- ValidateInitData gives a user exactly when the data is signed for the bot and fresh, and the user
-- stands in it.
pub validate_init_data_iff :
    (c : Crypto) (bot_token : Text) (decode_user : Text → Option User) (now : ℕ) (init_data : Text)
    (u : User)
    → (validate_init_data c bot_token decode_user now init_data ≡ some u)
      ↔ IsSigned c bot_token decode_user now init_data u
unfolding validate_init_data validate_params
validate_init_data_iff c bot_token decode_user now init_data u =
    let ps = (parse_query init_data).1 in
    let date = get_value-delete ps (lit "hash") (lit "auth_date") date_hash in
    let user = get_value-delete ps (lit "hash") (lit "user") user_hash in
    let read = read_user_iff c bot_token decode_user now (delete_key ps (lit "hash")) u in
    let read' = rw (date, user) at read in
    ground
      (arith, ==_iff (get_value ps (lit "hash")) [], hash_holds-HasDigest c bot_token ps, read')

-- Let the date of the data be a number of 64 bits in decimal digits. Then ValidateInitData gives a
-- user exactly when the query parses; its hash is hex for the HMAC of the lines `key=value` of its
-- other parameters, sorted by key and each key once, under the HMAC of the bot token; the date is
-- not more than 86,400 seconds before the clock (or so far that 64 bits wrap round); and the user
-- is there and decodes to this one.
pub dated_data_iff :
    (c : Crypto) (bot_token : Text) (decode_user : Text → Option User) (now : ℕ) (init_data : Text)
    (u : User) (date : ℤ)
    → InRange date
    → get_value (parse_query init_data).1 (lit "auth_date") ≡ format_int date
    → (validate_init_data c bot_token decode_user now init_data ≡ some u) ↔ (
        ((parse_query init_data).0 ≡ true)
        × (get_value (parse_query init_data).1 (lit "hash") ≢ [])
        × HasDigest c bot_token (parse_query init_data).1
        × IsFresh now date
        × (get_value (parse_query init_data).1 (lit "user") ≢ [])
        × (decode_user (get_value (parse_query init_data).1 (lit "user")) ≡ some u))
dated_data_iff c bot_token decode_user now init_data u date range stated =
    let ps = (parse_query init_data).1 in
    let dated : parse_int (get_value ps (lit "auth_date")) ≡ date =
      ap parse_int stated ∙ parse_int-format date range in
    subst
      (λ d. (validate_init_data c bot_token decode_user now init_data ≡ some u) ↔ (
        ((parse_query init_data).0 ≡ true)
        × (get_value ps (lit "hash") ≢ [])
        × HasDigest c bot_token ps
        × IsFresh now d
        × (get_value ps (lit "user") ≢ [])
        × (decode_user (get_value ps (lit "user")) ≡ some u)))
      dated (validate_init_data_iff c bot_token decode_user now init_data u)
