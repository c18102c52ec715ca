-- ===== src/Std/Hex.antt =====
-- encoding/hex: `EncodeToString` writes two lower-case digits for a byte, and `DecodeString`
-- accepts digits of either case and refuses an odd length.
use vel.Common.{
  All, Lacks, Option, Option-cases, Text, [], arith, if◌then◌else◌, inl, inr, leb, length, ltb,
  none, refl, some, ℕ, ◌%◌, ◌&&◌, ◌*◌, ◌+◌, ◌-◌, ◌/◌, ◌<◌, ◌∷◌, ◌≡◌, ◌≢◌,
}

-- The digit of a value below 16.
unfoldable pub digit : ℕ → ℕ
digit n = if ltb n 10 then b'0' + n else b'a' + n - 10

unfoldable pub digit_value : ℕ → Option ℕ
digit_value c =
    if leb b'0' c && leb c b'9'
    then some (c - b'0')
    else if leb b'a' c && leb c b'f'
    then some (c - b'a' + 10)
    else if leb b'A' c && leb c b'F'
    then some (c - b'A' + 10)
    else none

unfoldable pub encode : Text → Text
encode [] = []
encode (b ∷ bs) = digit (b / 16) ∷ digit (b % 16) ∷ encode bs

-- One byte from its two digits.
unfoldable pub byte : ℕ → ℕ → Option ℕ
byte c d = elim (digit_value c) [
  | none ↦ none
  | some hi ↦ elim (digit_value d) [ none ↦ none | some lo ↦ some (16 * hi + lo) ]
]

abbrev pub cons? : Option ℕ → Option Text → Option Text
cons? none r = none
cons? (some b) none = none
cons? (some b) (some bs) = some (b ∷ bs)

unfoldable pub decode : Text → Option Text
decode [] = some []
decode (c ∷ []) = none
decode (c ∷ d ∷ s) = cons? (byte c d) (decode s)

abbrev pub IsByte : ℕ → Type 0
IsByte b = b < 256

digit_value-digit : (n : ℕ) → n < 16 → digit_value (digit n) ≡ some n
unfolding digit_value digit
digit_value-digit n h = ground arith

byte-digits : (b : ℕ) → b < 256 → byte (digit (b / 16)) (digit (b % 16)) ≡ some b
unfolding byte
byte-digits b h =
    rw (digit_value-digit (b / 16) (omega arith), byte, digit_value-digit (b % 16) (omega arith))
      (ground arith)

-- Decoding undoes encoding.
pub decode-encode : (bs : Text) → All IsByte bs → decode (encode bs) ≡ some bs
unfolding encode decode
decode-encode [] h = refl
decode-encode (b ∷ bs) (p, h) = rw (byte-digits b p, decode-encode bs h)

-- An encoded text holds hexadecimal digits only.
digit-ne : (n b : ℕ) → n < 16 → b < b'0' → digit n ≢ b
unfolding digit
digit-ne n b h k = ground arith

pub encode-Lacks : (b : ℕ) (bs : Text) → b < b'0' → All IsByte bs → Lacks b (encode bs)
unfolding encode
encode-Lacks b [] k h = tt
encode-Lacks b (x ∷ bs) k (p, h) = (
  digit-ne (x / 16) b (omega arith) k,
  (digit-ne (x % 16) b (omega arith) k, encode-Lacks b bs k h),
)

pub length-encode : (bs : Text) → length (encode bs) ≡ 2 * length bs
unfolding encode
length-encode [] = refl
length-encode (b ∷ bs) = omega (arith, length-encode bs)

-- So do all texts that decode.
digit_value-ne : (c b : ℕ) {n : ℕ} → digit_value c ≡ some n → b < b'0' → c ≢ b
unfolding digit_value
digit_value-ne c b h k = ground arith

byte-ne : (c d b : ℕ) {n : ℕ} → byte c d ≡ some n → b < b'0' → (c ≢ b) × (d ≢ b)
unfolding byte
byte-ne c d b h k = elim (Option-cases (digit_value c)) [
  | inl e ↦ absurd (ground arith)
  | inr (hi, e) ↦ elim (Option-cases (digit_value d)) [
    | inl f ↦ absurd (ground arith)
    | inr (lo, f) ↦ (digit_value-ne c b e k, digit_value-ne d b f k)
  ]
]

pub decode-Lacks : (b : ℕ) (s : Text) {bs : Text} → b < b'0' → decode s ≡ some bs → Lacks b s
unfolding decode
decode-Lacks b [] k h = tt
decode-Lacks b (c ∷ []) k h = absurd (ground arith)
decode-Lacks b (c ∷ d ∷ s) k h = elim (Option-cases (byte c d)) [
  | inl e ↦ absurd (ground arith)
  | inr (n, e) ↦ elim (Option-cases (decode s)) [
    | inl f ↦ absurd (ground arith)
    | inr (bs, f) ↦ let (p, q) = byte-ne c d b e k in (p, (q, decode-Lacks b s {bs = bs} k f))
  ]
]

digit-IsByte : (n : ℕ) → n < 16 → IsByte (digit n)
unfolding digit
digit-IsByte n h = ground arith

pub encode-IsByte : (bs : Text) → All IsByte bs → All IsByte (encode bs)
unfolding encode
encode-IsByte [] h = tt
encode-IsByte (b ∷ bs) (p, h) =
    (digit-IsByte (b / 16) (omega arith), (digit-IsByte (b % 16) (omega arith), encode-IsByte bs h))
