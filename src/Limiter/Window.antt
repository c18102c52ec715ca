-- ===== src/Limiter/Window.antt =====
-- At most `max` calls are let through for a key in any window.
use vel.Common.{
  ==_iff, ==_refl, Bool, Bool-cases, List, Text, [], ap, arith, false, if◌then◌else◌, inl, inr,
  keep, leb, length, length-append, length-keep-le, ltb, refl, subst, sym, true, ℕ, ◌&&◌, ◌++◌, ◌+◌,
  ◌<◌, ◌==◌, ◌∙◌, ◌∷◌, ◌≡◌, ◌≢◌, ◌≤◌,
}
use mathlib.Core.List.{append-nil, append_assoc}
use vel.Limiter.{RateTrack, allow_in_window, is_recent, track}

-- The times never fall, from the given one on.
abbrev pub Rises : ℕ → List (Text × ℕ) → Type 0
Rises start [] = Unit
Rises start ((user, now) ∷ es) = (start ≤ now) × Rises now es

keep-append : (p : ℕ → Bool) (xs ys : List ℕ) → keep p (xs ++ ys) ≡ keep p xs ++ keep p ys
keep-append p [] ys = refl
keep-append p (x ∷ xs) ys = ground (arith, keep-append p xs ys)

module _ (max window : ℕ) where
  -- The calls, each with its key and its time, and the times at which those of one key were let
  -- through.
  unfoldable pub let_through : Text → RateTrack → List (Text × ℕ) → List ℕ
  let_through u r [] = []
  let_through u r ((user, now) ∷ es) =
      let rest = let_through u (allow_in_window max window r user now).1 es in
      if (user == u) && (allow_in_window max window r user now).0 then now ∷ rest else rest

  -- In the window that ends at `end`.
  abbrev pub in_window : ℕ → ℕ → Bool
  in_window end t = leb t end && ltb end (t + window)

  -- A later cutoff keeps what an earlier one kept, or less.
  keep-keep :
      (now later : ℕ) (xs : List ℕ)
      → now ≤ later
      → keep (is_recent window later) (keep (is_recent window now) xs)
        ≡ keep (is_recent window later) xs
  unfolding is_recent
  keep-keep now later [] h = refl
  keep-keep now later (x ∷ xs) h = ground (arith, keep-keep now later xs h)

  in_window-le-recent :
      (now end : ℕ) (xs : List ℕ)
      → now ≤ end
      → length (keep (in_window end) xs) ≤ length (keep (is_recent window now) xs)
  unfolding is_recent
  in_window-le-recent now end [] h = omega arith
  in_window-le-recent now end (x ∷ xs) h = ground (arith, in_window-le-recent now end xs h)

  -- `past` are the times let through so far, `tracked` the user's list, `now` the last call's time.
  record Inv (now : ℕ) (past tracked : List ℕ) : Type 0 where
    agree : keep (is_recent window now) tracked ≡ keep (is_recent window now) past
    bounded : (end : ℕ) → length (keep (in_window end) past) ≤ max

  module _ (r : RateTrack) (user : Text) (past : List ℕ) (now later : ℕ) (le : now ≤ later)
      (i : Inv now past (r user)) where
    recent-agree : keep (is_recent window later) (r user) ≡ keep (is_recent window later) past
    recent-agree =
        sym (keep-keep now later (r user) le)
        ∙ ap (keep (is_recent window later)) i.agree
        ∙ keep-keep now later past le

    refused-Inv : Inv later past (keep (is_recent window later) (r user))
    refused-Inv = record {
      agree = keep-keep later later (r user) (omega arith) ∙ recent-agree;
      bounded = i.bounded;
    }

    allowed-bounded :
        length (keep (is_recent window later) (r user)) < max
        → (end : ℕ) → length (keep (in_window end) (past ++ later ∷ [])) ≤ max
    allowed-bounded few end =
        let split = ap length (keep-append (in_window end) past (later ∷ [])) in
        let sizes = length-append (keep (in_window end) past) (keep (in_window end) (later ∷ [])) in
        let fit : length (keep (is_recent window later) past) < max =
          subst (λ x. length x < max) recent-agree few in
        elim (Bool-cases (leb later end)) [
          | inl after ↦
              let small = in_window-le-recent later end past (ground arith) in
              let one : length (keep (in_window end) (later ∷ [])) ≤ 1 =
                length-keep-le (in_window end) (later ∷ []) in
              omega (arith, split, sizes, small, one, fit)
          | inr before ↦
              let none_new : length (keep (in_window end) (later ∷ [])) ≡ 0 = ground arith in
              omega (arith, split, sizes, none_new, i.bounded end)
        ]

    allowed-Inv :
        length (keep (is_recent window later) (r user)) < max
        → Inv later (past ++ later ∷ []) (keep (is_recent window later) (r user) ++ later ∷ [])
    allowed-Inv few = record {
      agree =
          keep-append (is_recent window later) (keep (is_recent window later) (r user)) (later ∷ [])
          ∙ ap (λ x. x ++ keep (is_recent window later) (later ∷ [])) refused-Inv.agree
          ∙ sym (keep-append (is_recent window later) past (later ∷ []));
      bounded = allowed-bounded few;
    }

  -- What one call does to the times of one user.
  later-Inv :
      (tracked past : List ℕ) (now later : ℕ)
      → now ≤ later
      → Inv now past tracked
      → Inv later past tracked
  later-Inv tracked past now later le i = record {
    agree = recent-agree (λ _. tracked) [] past now later le i;
    bounded = i.bounded;
  }

  valid_times : RateTrack → Text → ℕ → List ℕ
  valid_times r user later = keep (is_recent window later) (r user)

  let_through-refused :
      (u : Text) (r : RateTrack) (later : ℕ) (es : List (Text × ℕ))
      → leb max (length (valid_times r u later)) ≡ true
      → let_through u r ((u, later) ∷ es) ≡ let_through u (track r u (valid_times r u later)) es
  unfolding let_through allow_in_window valid_times
  let_through-refused u r later es full = rw (full, ==_refl u)

  let_through-allowed :
      (u : Text) (r : RateTrack) (later : ℕ) (es : List (Text × ℕ))
      → leb max (length (valid_times r u later)) ≡ false
      → let_through u r ((u, later) ∷ es)
        ≡ later ∷ let_through u (track r u (valid_times r u later ++ later ∷ [])) es
  unfolding let_through allow_in_window valid_times
  let_through-allowed u r later es free = rw (free, ==_refl u)

  track_self : (r : RateTrack) (u : Text) (times : List ℕ) → track r u times u ≡ times
  unfolding track
  track_self r u times = rw (==_refl u)

  allow_other :
      (u user : Text) (r : RateTrack) (later : ℕ)
      → user ≢ u
      → (allow_in_window max window r user later).1 u ≡ r u
  unfolding allow_in_window track
  allow_other u user r later h = ground (arith, ==_iff u user)

  through-bounded :
      (u : Text) (r : RateTrack) (past : List ℕ) (now : ℕ) (es : List (Text × ℕ)) (end : ℕ)
      → Inv now past (r u)
      → Rises now es
      → length (keep (in_window end) (past ++ let_through u r es)) ≤ max
  unfolding let_through valid_times
  through-bounded u r past now [] end i h = rw (append-nil past) (i.bounded end)
  through-bounded u r past now ((user, later) ∷ es) end i (le, h) = elim (Bool-cases (user == u)) [
    | inl same ↦
        rw ((==_iff user u).0 same) (elim (Bool-cases (leb max (length (valid_times r u later)))) [
          | inl full ↦
              let next = track r u (valid_times r u later) in
              rw (let_through-refused u r later es full) (
                through-bounded u next past later es end
                  (rw (track_self r u (valid_times r u later))
                    (refused-Inv r u past now later le i))
                  h)
          | inr free ↦
              let times = valid_times r u later ++ later ∷ [] in
              let rest = let_through u (track r u times) es in
              let later_i : Inv later (past ++ later ∷ []) (track r u times u) =
                rw (track_self r u times) (allowed-Inv r u past now later le i (ground arith)) in
              rw (let_through-allowed u r later es free) (
                subst (λ l. length (keep (in_window end) l) ≤ max)
                  (append_assoc past (later ∷ []) rest)
                  (through-bounded u (track r u times) (past ++ later ∷ []) later es end later_i h))
        ])
    | inr other ↦
        let differs : user ≢ u = λ e. cc (other, (==_iff user u).1 e) in
        let next = (allow_in_window max window r user later).1 in
        rw other (
          through-bounded u next past later es end
            (rw (allow_other u user r later differs) (later-Inv (r u) past now later le i)) h)
  ]

  -- Whatever calls come for whatever keys at times that never fall, starting with no record, at most
  -- `max` calls for any one key are let through in any window.
  pub max_per_window :
      (u : Text) (start : ℕ) (es : List (Text × ℕ)) (end : ℕ)
      → Rises start es
      → length (keep (in_window end) (let_through u (λ _. []) es)) ≤ max
  max_per_window u start es end h =
      through-bounded u (λ _. []) [] start es end
        (record { agree = refl; bounded = λ _. omega arith }) h
