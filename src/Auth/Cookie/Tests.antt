-- ===== src/Auth/Cookie/Tests.antt =====
-- Runs of the cookie calls.
use vel.Common.{Text, cut_last, has_prefix, lit, none, refl, some, ◌++◌, ◌==◌, ◌↔◌, ◌∷◌, ◌≡◌}
use vel.Std.Hex.{byte, decode, digit, digit_value, encode}
use vel.Std.Query.{is_unreserved, query_escape, query_unescape}
use vel.Std.Sample.{checksum}
use vel.Auth.Cookie.{
  open_signed, raw_cookie, sign_cookie, signature_holds, unescaped, verify_cookie, verify_decoded,
}
use vel.Auth.Cookie.Laws.{verify_cookie_iff}

abbrev secret : Text
secret = lit "k"

signed_hi : sign_cookie checksum secret (lit "h i") ≡ lit "s%3Ah+i.5c"
unfolding sign_cookie raw_cookie encode digit query_escape is_unreserved
signed_hi = refl

tampered : verify_cookie checksum secret (lit "s%3Ah+j.5c") ≡ none
unfolding verify_cookie unescaped query_unescape byte digit_value verify_decoded open_signed
    signature_holds cut_last encode decode digit has_prefix ◌==◌
tampered = refl

verify_cookie_iff_example :
    (verify_cookie checksum secret (lit "s%3Ah+i.5c") ≡ some (lit "h i")) ↔ (
      (sig : Text) × (unescaped (lit "s%3Ah+i.5c") ≡ lit "s:" ++ (lit "h i" ++ b'.' ∷ sig))
      × (decode sig ≡ some (checksum.hmac_sha256 secret (lit "h i"))))
verify_cookie_iff_example = verify_cookie_iff checksum secret (lit "s%3Ah+i.5c") (lit "h i")
