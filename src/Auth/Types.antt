-- ===== src/Auth/Types.antt =====
-- internal/auth/types.go. An instant counts nanoseconds since Go's zero time, the 1st of January of
-- year 1, which is 0 here; instants and durations do not wrap.
use vel.Common.{Bool, List, Text, ltb, ℕ}

pub record Identity : Type 0 where
  pub user_id : Text
  pub name : Text
  pub provider : Text
  pub role : Text
  pub scopes : List Text
  pub meta : List (Text × Text)

pub record Session : Type 0 where
  pub id : Text
  pub identity : Identity
  pub created_at : ℕ
  pub expires_at : ℕ
  pub values : List (Text × Text)

-- `time.Now().After(s.ExpiresAt)`
unfoldable pub is_expired : ℕ → Session → Bool
is_expired now s = ltb s.expires_at now

-- One second, one minute and one hour, in nanoseconds.
abbrev pub one_second : ℕ
one_second = 1_000_000_000

abbrev pub minute : ℕ
minute = 60_000_000_000

abbrev pub hour : ℕ
hour = 3_600_000_000_000
