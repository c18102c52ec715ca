-- ===== src/Limiter.antt =====
-- The sliding window that `allowCreation` of internal/auth/magiclink.go and `allow` of the rate
-- limiter in internal/server/server.go both keep, in the same words: for each key the times of the
-- calls that were let through.
pub mod Window
use vel.Common.{
  Bool, List, Text, [], false, if◌then◌else◌, keep, leb, length, ltb, true, ℕ, ◌++◌, ◌+◌, ◌==◌, ◌∷◌,
}

-- The map from a key to its times.
abbrev pub RateTrack : Type 0
RateTrack = Text → List ℕ

unfoldable pub track : RateTrack → Text → List ℕ → RateTrack
track r key times other = if other == key then times else r other

-- `t.After(now.Add(-window))`
unfoldable pub is_recent : ℕ → ℕ → ℕ → Bool
is_recent window now t = ltb now (t + window)

unfoldable pub allow_in_window : ℕ → ℕ → RateTrack → Text → ℕ → Bool × RateTrack
allow_in_window max window r key now =
    let valid = keep (is_recent window now) (r key) in
    if leb max (length valid)
    then (false, track r key valid)
    else (true, track r key (valid ++ now ∷ []))
