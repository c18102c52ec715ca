-- ===== src/Auth/Telegram/Tests.antt =====
-- Runs of the Telegram signatures, with the digest of the samples.
use vel.Common.{
  Option, Text, [], ap, arith, cut, false, inl, inr, lit, negsuc, pos, refl, some, true, ◌++◌, ◌==◌,
  ◌↔◌, ◌∷◌, ◌≡◌, ◌≢◌,
}
use vel.Std.Hex.{decode, encode, digit, byte, digit_value}
use vel.Std.Query.{query_unescape}
use vel.Std.Sort.{insert, sort_slice, text_ltb}
use vel.Std.Values.{
  delete_key, Values, distinct_keys, get_value, join, parse_part, parse_parts, parse_query,
  sorted_keys, split,
}
use vel.Std.Sample.{checksum}
use vel.Auth.Telegram.Decimal.{digits, format_int, format_nat}
use vel.Auth.Telegram.{
  hash_holds, init_data_digest, is_outdated, read_user, validate_params, User, data_check_string,
  digits_value, parse_int, parse_magnitude, validate_init_data, validate_telegram_login,
}
use vel.Auth.Telegram.Order.{IsMap, SameEntries, validate_telegram_login-iteration}
use vel.Auth.Telegram.Valid.{HasDigest, IsFresh, dated_data_iff}

abbrev karthi : User
karthi = record { id = pos 7; first_name = lit "K"; username = [] }

-- It reads any text as the same user.
abbrev json : Text → Option User
json t = some karthi

sorted :
    data_check_string ((lit "b", lit "1") ∷ (lit "a", lit "2") ∷ (lit "b", lit "3") ∷ [])
    ≡ lit "a=2" ++ b'\n' ∷ lit "b=1"
unfolding data_check_string sorted_keys distinct_keys sort_slice insert text_ltb get_value join ◌==◌
sorted = refl

parsed : parse_query (lit "a=%41+b&c;&=d") ≡ (false, (lit "a", lit "A b") ∷ ([], lit "d") ∷ [])
unfolding parse_query parse_parts parse_part split cut query_unescape byte digit_value ◌==◌
parsed = refl

numbers :
    (parse_int (lit "-12") ≡ negsuc 11)
    × (parse_int (lit "12x") ≡ pos 0)
    × (parse_int (lit "9223372036854775808") ≡ pos 9223372036854775807)
    × (parse_int (lit "18446744073709551616x") ≡ pos 9223372036854775807)
unfolding parse_int parse_magnitude digits_value
numbers = (refl, refl, refl, refl)

abbrev params : Values
params = (lit "id", lit "7") ∷ (lit "hash", lit "00") ∷ []

abbrev swapped : Values
swapped = (lit "hash", lit "00") ∷ (lit "id", lit "7") ∷ []

id_hash : lit "id" ≢ lit "hash"
id_hash e = ground arith

hash_id : lit "hash" ≢ lit "id"
hash_id e = ground arith

IsMap-params : IsMap params
IsMap-params = ((λ w h. elim h [ inl e ↦ id_hash (ap (λ p. p.0) e) | inr k ↦ k ]), ((λ w h. h), tt))

IsMap-swapped : IsMap swapped
IsMap-swapped =
    ((λ w h. elim h [ inl e ↦ hash_id (ap (λ p. p.0) e) | inr k ↦ k ]), ((λ w h. h), tt))

same_pairs : SameEntries params swapped
same_pairs k v = (
  λ h. elim h [ inl e ↦ inr (inl e) | inr i ↦ elim i [ inl e ↦ inl e | inr l ↦ absurd l ] ],
  λ h. elim h [ inl e ↦ inr (inl e) | inr i ↦ elim i [ inl e ↦ inl e | inr l ↦ absurd l ] ],
)

validate_telegram_login-iteration_example :
    validate_telegram_login checksum (lit "bot") params
    ≡ validate_telegram_login checksum (lit "bot") swapped
validate_telegram_login-iteration_example =
    validate_telegram_login-iteration checksum (lit "bot") params swapped IsMap-params IsMap-swapped
      same_pairs

abbrev signed : Text
signed = lit "user=k&auth_date=90&hash=c4"

let_in : validate_init_data checksum (lit "bot") json 100 signed ≡ some karthi
unfolding validate_init_data validate_params init_data_digest hash_holds read_user is_outdated
    parse_int parse_magnitude digits_value data_check_string join sorted_keys distinct_keys
    sort_slice insert text_ltb delete_key get_value parse_query parse_parts parse_part split
    query_unescape cut decode encode byte digit digit_value ◌==◌
let_in = refl

dated : get_value (parse_query signed).1 (lit "auth_date") ≡ format_int (pos 90)
unfolding get_value parse_query parse_parts parse_part split query_unescape cut format_int
    format_nat digits ◌==◌
dated = refl

dated_data_iff_example : (validate_init_data checksum (lit "bot") json 100 signed ≡ some karthi) ↔ (
    ((parse_query signed).0 ≡ true)
    × (get_value (parse_query signed).1 (lit "hash") ≢ [])
    × HasDigest checksum (lit "bot") (parse_query signed).1
    × IsFresh 100 (pos 90)
    × (get_value (parse_query signed).1 (lit "user") ≢ [])
    × (json (get_value (parse_query signed).1 (lit "user")) ≡ some karthi))
dated_data_iff_example =
    dated_data_iff checksum (lit "bot") json 100 signed karthi (pos 90) (omega arith) dated
