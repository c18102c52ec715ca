-- ===== src/Auth/MagicLinks/Tests.antt =====
-- Runs of the magic-link store over an association list.
use vel.Common.{
  ==_iff, Bool-cases, List, Text, [], arith, false, inl, inr, lit, refl, some, sym, true, ℕ, ◌*◌,
  ◌+◌, ◌==◌, ◌∷◌, ◌≡◌, ◌≤◌,
}
use vel.Std.Hex.{digit, encode}
use vel.Std.Sample.{checksum}
use vel.Store.{Bucket, Codec, put_tx}
use vel.Store.Sample.{assoc_bucket, plain_codec}
use vel.Auth.Types.{minute}
use vel.Auth.MagicLinks.{
  Creation, MagicLink, allow_creation, create, err, examine, find_link, hash_token, last_link,
  link_expired, make_link, mark_if_ok, mark_used, new_link, ok, pick_link, token_of, validate,
}
use vel.Limiter.{RateTrack, is_recent, track, allow_in_window}
use vel.Auth.MagicLinks.Valid.{IsSole, IsUsable, marked}
use vel.Auth.MagicLinks.Once.{overlapping_validations}

abbrev links : Bucket MagicLink
links = assoc_bucket MagicLink

abbrev json : Codec MagicLink MagicLink
json = plain_codec MagicLink

-- The token of the one random byte 171, and its hash: the sum of its bytes is 929.
abbrev token : Text
token = lit "vel_ml_ab"

abbrev link : MagicLink
link = record {
  id = lit "01";
  token_hash = lit "sha256:a1";
  user_id = lit "karthi";
  expires_at = 100 + 15 * minute;
  used = false;
  created_at = 101;
}

abbrev one_link : List (Text × MagicLink)
one_link = (lit "01", link) ∷ []

abbrev creation : Creation
creation = record {
  checked_at = 99;
  token_bytes = some (171 ∷ []);
  id_bytes = some (1 ∷ []);
  dated_at = 100;
  created_at = 101;
  commits = true;
}

abbrev no_record : RateTrack
no_record user = []

abbrev one_record : RateTrack
one_record = track no_record (lit "karthi") (99 ∷ [])

created :
    create checksum links json no_record [] (lit "karthi") 15 creation
    ≡ (ok token, one_record, one_link)
unfolding create make_link put_tx allow_creation allow_in_window is_recent token_of new_link
    hash_token encode digit ◌==◌
created = refl

found_link : find_link checksum links json one_link token ≡ some (lit "01", link)
unfolding find_link last_link pick_link hash_token encode digit ◌==◌
found_link = refl

used_link : MagicLink
used_link = record link { used = true }

let_in :
    validate checksum links json true 200 one_link token
    ≡ (ok (lit "karthi"), marked checksum links json one_link (lit "01") link)
unfolding validate mark_if_ok mark_used examine find_link last_link pick_link put_tx hash_token
    encode digit ◌==◌
let_in = refl

too_late :
    (validate checksum links json true (100 + 16 * minute) one_link token).0 ≡ err link_expired
unfolding validate mark_if_ok examine find_link last_link pick_link hash_token encode digit ◌==◌
too_late = refl

IsSole-link : IsSole checksum links json one_link token (lit "01")
IsSole-link k ml h t = elim (Bool-cases (lit "01" == k)) [
  | inl same ↦ sym ((==_iff (lit "01") k).0 same)
  | inr other ↦ absurd (ground arith)
]

IsUsable-link : (now : ℕ) → now ≤ 300 → IsUsable now (lit "01") link
IsUsable-link now h = ((λ e. ground arith), refl, omega arith)

abbrev calls : List (Text × ℕ)
calls = (lit "a", 1) ∷ (lit "b", 2) ∷ (lit "a", 3) ∷ []

overlapping_validations_example :
    let first =
      mark_if_ok checksum links json true one_link
        (examine 200 (find_link checksum links json one_link token)) in
    let second =
      mark_if_ok checksum links json true first.1
        (examine 201 (find_link checksum links json one_link token)) in
    (first.0 ≡ ok (lit "karthi")) × (second.0 ≡ ok (lit "karthi"))
overlapping_validations_example =
    overlapping_validations checksum links json 200 201 one_link token (lit "01") link found_link
      (IsUsable-link 200 (omega arith)) (IsUsable-link 201 (omega arith))
