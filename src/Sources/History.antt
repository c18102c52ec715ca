-- ===== src/Sources/History.antt =====
-- What the state of a source says about the readings of its file.
use vel.Common.{
  Bool, List, Option, Text, [], arith, false, none, refl, some, true, ℕ, ◌<◌, ◌∷◌, ◌≡◌,
}
use vel.Sources.{FileSource, Reading, SourceState, failed, good, state_of, store_reading}

-- The readings of a file with their times, newest first.
abbrev pub Readings : Type 0
Readings = List (ℕ × Reading)

-- The newest reading that was good.
unfoldable pub newest_good : Readings → Option (ℕ × Text)
newest_good [] = none
newest_good ((now, good d) ∷ rs) = some (now, d)
newest_good ((now, failed e) ∷ rs) = newest_good rs

-- The time at which the failures began that reach up to the newest reading.
unfoldable pub failing_since : Readings → Option ℕ
failing_since [] = none
failing_since ((now, good d) ∷ rs) = none
failing_since ((now, failed e) ∷ rs) = elim (failing_since rs) [ none ↦ some now | some t ↦ some t ]

abbrev pub newest_error : Readings → Text
newest_error [] = []
newest_error ((now, good d) ∷ rs) = []
newest_error ((now, failed e) ∷ rs) = e

abbrev pub newest_is_good : Readings → Bool
newest_is_good [] = false
newest_is_good ((now, good d) ∷ rs) = true
newest_is_good ((now, failed e) ∷ rs) = false

-- The clock does not stand at Go's zero time.
abbrev pub AllDated : Readings → Type 0
AllDated [] = Unit
AllDated ((now, r) ∷ rs) = (0 < now) × AllDated rs

-- A source after the readings of its file.
unfoldable pub after : FileSource → Readings → FileSource
after src [] = src
after src ((now, r) ∷ rs) = store_reading (after src rs) now r

abbrev pub IsFresh : FileSource → Type 0
IsFresh src =
    (src.last_data ≡ [])
    × (src.last_ok ≡ false)
    × (src.last_err ≡ [])
    × (src.last_good ≡ 0)
    × (src.stale ≡ false)

-- What a summary of the readings has to say: the data and the time of the newest good one, whether
-- the newest was good, its error, and since when the file has been failing.
abbrev pub Summarises : SourceState → Readings → Type 0
Summarises s rs =
    (s.is_ok ≡ newest_is_good rs)
    × (s.error ≡ newest_error rs)
    × (s.stale_since ≡ failing_since rs)
    × (s.last_update ≡ elim (newest_good rs) [ none ↦ none | some (t, d) ↦ some t ])
    × (s.contents ≡ elim (newest_good rs) [ none ↦ [] | some (t, d) ↦ d ])

pub state-after :
    (src : FileSource) (rs : Readings)
    → IsFresh src
    → AllDated rs
    → Summarises (state_of (after src rs)) rs
unfolding state_of after store_reading newest_good failing_since
state-after src [] (a, b, c, d, e) h = (b, c, ground arith, ground arith, a)
state-after src ((now, good d) ∷ rs) fresh (p, h) = (refl, refl, refl, ground arith, refl)
state-after src ((now, failed m) ∷ rs) fresh (p, h) =
    let (a, b, c, d, e) = state-after src rs fresh h in (refl, refl, ground (arith, c), d, e)
