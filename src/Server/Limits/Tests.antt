-- ===== src/Server/Limits/Tests.antt =====
-- Runs of the rate limiter.
use vel.Common.{List, Text, [], arith, keep, length, lit, refl, true, ℕ, ◌==◌, ◌∷◌, ◌≡◌, ◌≤◌}
use vel.Limiter.{allow_in_window, is_recent, track}
use vel.Limiter.Window.{in_window}
use vel.Server.Limits.{allow, new_rate_limiter}
use vel.Server.Limits.Bound.{allow_bound, requests_passed}

abbrev calls : List (Text × ℕ)
calls = (lit "a", 1) ∷ (lit "a", 2) ∷ (lit "b", 3) ∷ (lit "a", 4) ∷ (lit "a", 20) ∷ []

passed : requests_passed (lit "a") (new_rate_limiter 2 10 true) calls ≡ 1 ∷ 2 ∷ 20 ∷ []
unfolding requests_passed new_rate_limiter allow allow_in_window track is_recent ◌==◌
passed = refl

allow_bound_example :
    length (keep (in_window 2 10 9) (requests_passed (lit "a") (new_rate_limiter 2 10 true) calls))
    ≤ 2
allow_bound_example =
    allow_bound 2 10 true (lit "a") 0 calls 9
      (omega arith, (omega arith, (omega arith, (omega arith, (omega arith, tt)))))
