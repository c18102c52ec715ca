-- ===== src/Auth/Cookie/Laws.antt =====
-- Signing and verifying a cookie.
use vel.Common.{
  ==_iff, All, All-append, Bool-cases, Option-cases, Text, ap, arith, cut_last, cut_last-append,
  cut_last_sound, false, has_prefix, has_prefix_iff, inl, inr, lit, refl, some, sym, true, ◌++◌,
  ◌↔◌, ◌∙◌, ◌∷◌, ◌≡◌, ◌≢◌,
}
use vel.Std.Hex.{decode, decode-encode, encode, IsByte, encode-IsByte, decode-Lacks}
use vel.Std.Query.{query_unescape-escape}
use vel.Std.Crypto.{Crypto}
use vel.Auth.Cookie.{
  raw_cookie, signature_holds, verify_decoded, sign_cookie, unescaped, verify_cookie, open_signed,
}

module _ (c : Crypto) (secret : Text) where
  decode-expected :
      (value : Text)
      → decode (encode (c.hmac_sha256 secret value)) ≡ some (c.hmac_sha256 secret value)
  decode-expected value = decode-encode _ (c.hmac_bytes secret value)

  -- The signature check accepts the digits of the HMAC of the value, in either case.
  signature_holds_iff :
      (value sig : Text)
      → (signature_holds c secret value sig ≡ true)
        ↔ (decode sig ≡ some (c.hmac_sha256 secret value))
  unfolding signature_holds
  signature_holds_iff value sig = elim (Option-cases (decode sig)) [
    | inl e ↦ rw (e, signature_holds) ((λ h. cc), (λ h. cc))
    | inr (bytes, e) ↦
        rw (e, signature_holds, decode-expected value)
          (
            λ h. ap some ((==_iff bytes (c.hmac_sha256 secret value)).0 h),
            λ h. (==_iff bytes (c.hmac_sha256 secret value)).1 (cc),
          )
  ]

  open_signed_complete :
      (value sig : Text)
      → decode sig ≡ some (c.hmac_sha256 secret value)
      → open_signed c secret (value ++ b'.' ∷ sig) ≡ some value
  unfolding open_signed
  open_signed_complete value sig h = rw (
    cut_last-append b'.' value sig (decode-Lacks b'.' sig (omega arith) h),
    open_signed,
    (signature_holds_iff value sig).1 h,
  )

  open_signed_sound :
      (rest value : Text)
      → open_signed c secret rest ≡ some value
      → (sig : Text) × (rest ≡ value ++ b'.' ∷ sig)
        × (decode sig ≡ some (c.hmac_sha256 secret value))
  unfolding open_signed
  open_signed_sound rest value h = elim (Option-cases (cut_last b'.' rest)) [
    | inl e ↦ absurd (ground arith)
    | inr ((v, sig), e) ↦ elim (Bool-cases (signature_holds c secret v sig)) [
      | inl good ↦
          let same : v ≡ value = ground arith in
          (
            sig,
            cut_last_sound b'.' rest e ∙ ap (λ x. x ++ b'.' ∷ sig) same,
            (signature_holds_iff v sig).0 good ∙ ap (λ x. some (c.hmac_sha256 secret x)) same,
          )
      | inr bad ↦ absurd (ground arith)
    ]
  ]

  verify_decoded-marked :
      (rest : Text) → verify_decoded c secret (lit "s:" ++ rest) ≡ open_signed c secret rest
  unfolding verify_decoded has_prefix
  verify_decoded-marked rest = refl

  verify_decoded-unmarked :
      (decoded value : Text)
      → has_prefix decoded (lit "s:") ≡ false
      → verify_decoded c secret decoded ≢ some value
  unfolding verify_decoded
  verify_decoded-unmarked decoded value h k = ground arith

  raw_cookie-IsByte : (value : Text) → All IsByte value → All IsByte (raw_cookie c secret value)
  unfolding raw_cookie
  raw_cookie-IsByte value h =
      let sig = encode-IsByte _ (c.hmac_bytes secret value) in
      let tail : All IsByte (b'.' ∷ encode (c.hmac_sha256 secret value)) = (omega arith, sig) in
      (omega arith, (omega arith, All-append IsByte value _ h tail))

  unescaped-sign :
      (value : Text)
      → All IsByte value
      → unescaped (sign_cookie c secret value) ≡ raw_cookie c secret value
  unfolding unescaped sign_cookie
  unescaped-sign value h =
      rw (query_unescape-escape (raw_cookie c secret value) (raw_cookie-IsByte value h), unescaped)

  -- A cookie that was signed verifies under the same secret, and gives its value back.
  pub verify_cookie-sign :
      (value : Text)
      → All IsByte value
      → verify_cookie c secret (sign_cookie c secret value) ≡ some value
  unfolding verify_cookie raw_cookie
  verify_cookie-sign value h =
      ap (verify_decoded c secret) (unescaped-sign value h)
      ∙ verify_decoded-marked _
      ∙ open_signed_complete value _ (decode-expected value)

  -- A cookie verifies to a value exactly when, unescaped where that is possible, it is `s:`, the
  -- value, a dot and hexadecimal digits of the HMAC of the value under the secret.
  pub verify_cookie_iff :
      (signed value : Text)
      → (verify_cookie c secret signed ≡ some value) ↔ (
          (sig : Text) × (unescaped signed ≡ lit "s:" ++ (value ++ b'.' ∷ sig))
          × (decode sig ≡ some (c.hmac_sha256 secret value)))
  unfolding verify_cookie
  verify_cookie_iff signed value = (
    λ h. elim (Bool-cases (has_prefix (unescaped signed) (lit "s:"))) [
      | inl marked ↦
          let (rest, e) = (has_prefix_iff (unescaped signed) (lit "s:")).0 marked in
          let k : open_signed c secret rest ≡ some value =
            sym (verify_decoded-marked rest) ∙ ap (verify_decoded c secret) (sym e) ∙ h in
          let (sig, f, good) = open_signed_sound rest value k in
          (sig, e ∙ ap (λ x. lit "s:" ++ x) f, good)
      | inr plain ↦ absurd (verify_decoded-unmarked (unescaped signed) value plain h)
    ],
    λ (sig, e, good).
        ap (verify_decoded c secret) e
        ∙ verify_decoded-marked (value ++ b'.' ∷ sig)
        ∙ open_signed_complete value sig good,
  )
