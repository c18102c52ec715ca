-- ===== src/Debug/RingBuffer/Reads.antt =====
-- The reads of the ring buffer answer from the kept logs.
use vel.Common.{
  Bool-cases, List, Text, ap, arith, find_first, inl, inr, keep, leb, ltb, refl, suc, sym, take,
  take_all, zero, ℕ, ◌+◌, ◌==◌, ◌∙◌, ◌∷◌, ◌≡◌,
}
use vel.Debug.RingBuffer.{
  RequestLog, RingBuffer, entry, errors_from, get, get_from, new_ring_buffer, recent, recent_errors,
  recent_from,
}
use vel.Debug.RingBuffer.View.{
  add_all, kept_logs, length-recent_from, take-recent_from, view, view-history,
}

module _ (rb : RingBuffer) where
  recent-view : (n : ℕ) → recent rb n ≡ take n (view rb)
  unfolding recent
  recent-view n = elim (Bool-cases (ltb rb.count n)) [
    | inl more ↦
        rw more (sym (take_all n (view rb) (ground (arith, length-recent_from rb rb.count 0))))
    | inr fewer ↦ rw fewer (sym (take-recent_from rb n rb.count 0 (ground arith)))
  ]

  get_from-view :
      (request_id : Text) (rounds i : ℕ)
      → get_from rb request_id rounds i
        ≡ find_first (λ log. log.request_id == request_id) (recent_from rb rounds i)
  unfolding get_from recent_from
  get_from-view request_id zero i = refl
  get_from-view request_id (suc rounds) i = ground (arith, get_from-view request_id rounds (i + 1))

  errors_from-view :
      (wanted rounds i : ℕ)
      → errors_from rb wanted rounds i
        ≡ take wanted (keep (λ log. leb 400 log.status) (recent_from rb rounds i))
  unfolding errors_from recent_from
  errors_from-view zero zero i = refl
  errors_from-view zero (suc rounds) i = refl
  errors_from-view (suc wanted) zero i = refl
  errors_from-view (suc wanted) (suc rounds) i = elim (Bool-cases (leb 400 (entry rb i).status)) [
    | inl hit ↦ rw hit (ap (◌∷◌ (entry rb i)) (errors_from-view wanted rounds (i + 1)))
    | inr miss ↦ rw miss (errors_from-view (suc wanted) rounds (i + 1))
  ]

-- The three reads answer from the kept logs: Recent gives the first n of them, Get the newest with
-- the id, and RecentErrors the first n whose status is at least 400.
pub reads-history :
    (requested n : ℕ) (request_id : Text) (logs : List RequestLog)
    → let rb = add_all (new_ring_buffer requested) logs in
      let kept = kept_logs requested logs in
      (recent rb n ≡ take n kept)
      × (get rb request_id ≡ find_first (λ log. log.request_id == request_id) kept)
      × (recent_errors rb n ≡ take n (keep (λ log. leb 400 log.status) kept))
unfolding get recent_errors
reads-history requested n request_id logs =
    let rb = add_all (new_ring_buffer requested) logs in
    let h = view-history requested logs in
    (
      recent-view rb n ∙ ap (take n) h,
      get_from-view rb request_id rb.count 0
          ∙ ap (find_first (λ log. log.request_id == request_id)) h,
      errors_from-view rb n rb.count 0 ∙ ap (λ v. take n (keep (λ log. leb 400 log.status) v)) h,
    )
