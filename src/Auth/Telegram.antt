-- ===== src/Auth/Telegram.antt =====
-- internal/auth/auth.go: `ValidateInitData` and `ValidateTelegramLogin`.
-- `decode_user` is the JSON of a user.
pub mod Decimal
pub mod Order
pub mod Valid
mod Tests
use vel.Common.{
  Bool, Option, Text, [], any, eqb, false, if◌then◌else◌, leb, lit, ltb, map, negsuc, none, pos,
  some, suc, true, ℕ, ℤ, ◌&&◌, ◌*◌, ◌++◌, ◌+◌, ◌-◌, ◌==◌, ◌∷◌,
}
use vel.Std.Hex.{decode, encode}
use vel.Std.Values.{Values, delete_key, get_value, join, parse_query, sorted_keys}
use vel.Std.Crypto.{Crypto}

pub record User : Type 0 where
  pub id : ℤ
  pub first_name : Text
  pub username : Text

-- The lines `key=value` of the sorted keys.
unfoldable pub data_check_string : Values → Text
data_check_string params =
    join (b'\n' ∷ []) (map (λ k. k ++ b'=' ∷ get_value params k) (sorted_keys params))

-- The largest number of 64 bits without a sign.
abbrev pub max_uint : ℕ
max_uint = 18446744073709551615

-- `ParseUint`: none where a byte is no digit, and the largest number as soon as the digits are out of
-- range, whatever follows them.
unfoldable pub digits_value : ℕ → Text → Option ℕ
digits_value n [] = some n
digits_value n (c ∷ s) =
    let n' = 10 * n + (c - b'0') in
    let rest = digits_value n' s in
    if leb b'0' c && leb c b'9' then (if ltb max_uint n' then some max_uint else rest) else none

abbrev pub two_63 : ℕ
two_63 = 9223372036854775808

-- `strconv.ParseInt(s, 10, 64)` with its error dropped: 0 on bad syntax, the
-- nearest bound out of range.
unfoldable pub parse_magnitude : Bool → Text → ℤ
parse_magnitude negative [] = pos 0
parse_magnitude negative (c ∷ s) = elim (digits_value 0 (c ∷ s)) [
  | none ↦ pos 0
  | some n ↦
      if negative
      then (if eqb n 0 then pos 0 else negsuc (if ltb two_63 n then two_63 - 1 else n - 1))
      else pos (if leb two_63 n then two_63 - 1 else n)
]

unfoldable pub parse_int : Text → ℤ
parse_int [] = pos 0
parse_int (c ∷ s) =
    if eqb c b'-'
    then parse_magnitude true s
    else if eqb c b'+'
    then parse_magnitude false s
    else parse_magnitude false (c ∷ s)

-- `time.Now().Unix()-authDate > 86400` in 64 bits: a difference of 2^63 or more wraps round.
unfoldable pub is_outdated : ℕ → ℤ → Bool
is_outdated now (pos n) = ltb (n + 86400) now
is_outdated now (negsuc n) = ltb 86400 (now + suc n) && ltb (now + suc n) two_63

-- The comparison of the decoded digests.
unfoldable pub hash_holds : Text → Text → Bool
hash_holds hash digest = elim (decode hash) [
  | none ↦ false
  | some hash_bytes ↦ elim (decode (encode digest)) [
    | none ↦ false
    | some computed_bytes ↦ hash_bytes == computed_bytes
  ]
]

module _ (c : Crypto) (bot_token : Text) where
  unfoldable pub init_data_digest : Values → Text
  init_data_digest params =
      c.hmac_sha256 (c.hmac_sha256 (lit "WebAppData") bot_token) (data_check_string params)

  -- What follows the comparison: the date and the user.
  unfoldable pub read_user : (Text → Option User) → ℕ → Values → Option User
  read_user decode_user now params =
      if is_outdated now (parse_int (get_value params (lit "auth_date")))
      then none
      else if get_value params (lit "user") == []
      then none
      else decode_user (get_value params (lit "user"))

  unfoldable pub validate_params : (Text → Option User) → ℕ → Values → Option User
  validate_params decode_user now params =
      let hash = get_value params (lit "hash") in
      let rest = delete_key params (lit "hash") in
      if hash == []
      then none
      else if hash_holds hash (init_data_digest rest)
      then read_user decode_user now rest
      else none

  unfoldable pub validate_init_data : (Text → Option User) → ℕ → Text → Option User
  validate_init_data decode_user now init_data =
      let (no_error, params) = parse_query init_data in
      if no_error then validate_params decode_user now params else none

  -- The parameters are a map with one value for each key; `has_key` looks for `hash`.
  unfoldable pub validate_telegram_login : Values → Bool
  validate_telegram_login params =
      if any (λ (k, v). k == lit "hash") params
      then hash_holds (get_value params (lit "hash"))
          (c.hmac_sha256 (c.sum256 bot_token) (data_check_string (delete_key params (lit "hash"))))
      else false
