-- ===== src/Server/Limits.antt =====
-- internal/server/server.go: the rate limiter of the API and of the login routes, for each client
-- address. `skipOK` is kept and never read.
pub mod Bound
mod Tests
use vel.Common.{Bool, Text, [], ℕ}
use vel.Limiter.{RateTrack, allow_in_window}

pub record RateLimiter : Type 0 where
  pub requests : RateTrack
  pub max : ℕ
  pub window : ℕ
  pub skip_ok : Bool

unfoldable pub new_rate_limiter : ℕ → ℕ → Bool → RateLimiter
new_rate_limiter max window skip_ok = record {
  requests = λ ip. [];
  max = max;
  window = window;
  skip_ok = skip_ok;
}

unfoldable pub allow : RateLimiter → Text → ℕ → Bool × RateLimiter
allow rl ip now =
    let (allowed, requests) = allow_in_window rl.max rl.window rl.requests ip now in
    (allowed, record rl { requests = requests })
