-- ===== src/Auth/Cookie.antt =====
-- internal/auth/auth.go: `SignCookie` and `VerifyCookie`.
pub mod Laws
mod Tests
use vel.Common.{
  Bool, Option, Text, cut_last, drop, false, has_prefix, if◌then◌else◌, lit, none, some, ◌++◌, ◌==◌,
  ◌∷◌,
}
use vel.Std.Hex.{decode, encode}
use vel.Std.Query.{query_escape, query_unescape}
use vel.Std.Crypto.{Crypto}

module _ (c : Crypto) (cookie_secret : Text) where
  -- `s:value.sig`, before the escape.
  unfoldable pub raw_cookie : Text → Text
  raw_cookie value =
      let sig = encode (c.hmac_sha256 cookie_secret value) in lit "s:" ++ (value ++ b'.' ∷ sig)

  unfoldable pub sign_cookie : Text → Text
  sign_cookie value = query_escape (raw_cookie value)

  -- The comparison of the signature's bytes with those of the expected one, both decoded.
  unfoldable pub signature_holds : Text → Text → Bool
  signature_holds value sig = elim (decode sig) [
    | none ↦ false
    | some sig_bytes ↦ elim (decode (encode (c.hmac_sha256 cookie_secret value))) [
      | none ↦ false
      | some expected_bytes ↦ sig_bytes == expected_bytes
    ]
  ]

  -- What follows `s:` is the value, the last dot and the signature.
  unfoldable pub open_signed : Text → Option Text
  open_signed rest = elim (cut_last b'.' rest) [
    | none ↦ none
    | some (value, sig) ↦ if signature_holds value sig then some value else none
  ]

  unfoldable pub verify_decoded : Text → Option Text
  verify_decoded decoded =
      if has_prefix decoded (lit "s:") then open_signed (drop 2 decoded) else none

-- A text that does not unescape is taken as it is.
unfoldable pub unescaped : Text → Text
unescaped signed = elim (query_unescape signed) [ none ↦ signed | some decoded ↦ decoded ]

unfoldable pub verify_cookie : Crypto → Text → Text → Option Text
verify_cookie c cookie_secret signed = verify_decoded c cookie_secret (unescaped signed)
