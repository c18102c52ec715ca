-- ===== src/Std/Sample.antt =====
-- A digest that runs in examples: the sum of the bytes, as one byte.
use vel.Common.{All, Text, [], arith, ℕ, ◌%◌, ◌++◌, ◌+◌, ◌∷◌}
use vel.Std.Hex.{IsByte}
use vel.Std.Crypto.{Crypto}

abbrev pub sum : Text → ℕ
sum [] = 0
sum (b ∷ s) = b + sum s

pub checksum-IsByte : (s : Text) → All IsByte ((sum s % 256) ∷ [])
checksum-IsByte s = (omega arith, tt)

abbrev pub checksum : Crypto
checksum = record {
  hmac_sha256 = λ key message. (sum (key ++ message) % 256) ∷ [];
  sum256 = λ message. (sum message % 256) ∷ [];
  hmac_bytes = λ key message. checksum-IsByte (key ++ message);
  sum_bytes = λ message. checksum-IsByte message;
}
