-- ===== src/Std.antt =====
-- What the program uses of Go's standard library: encoding/hex and the escapes of net/url.
pub mod NameMap
pub mod Hex
pub mod Query
pub mod Crypto
pub mod Sample
pub mod Sort
pub mod Values
