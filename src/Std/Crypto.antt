-- ===== src/Std/Crypto.antt =====
-- crypto/hmac and crypto/sha256 as the program calls them: two functions from bytes to bytes, of
-- which nothing is assumed but that a digest is made of bytes. `hmac.Equal` compares all bytes.
use vel.Common.{All, Text}
use vel.Std.Hex.{IsByte}

pub record Crypto : Type 0 where
  pub hmac_sha256 : Text → Text → Text
  pub sum256 : Text → Text
  pub hmac_bytes : (key message : Text) → All IsByte (hmac_sha256 key message)
  pub sum_bytes : (message : Text) → All IsByte (sum256 message)
