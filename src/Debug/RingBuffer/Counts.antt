-- ===== src/Debug/RingBuffer/Counts.antt =====
-- The statistics count the kept logs.
use vel.Common.{
  ==_iff, Bool, List, Text, [], ap, arith, eqb, if◌then◌else◌, length, refl, suc, sym, zero, ℕ, ◌+◌,
  ◌==◌, ◌∙◌, ◌∷◌, ◌≡◌, ◌≢◌,
}
use vel.Debug.RingBuffer.{
  BufferStats, RequestLog, RingBuffer, count_entry, entry, new_ring_buffer, recent_from, stats,
  stats_from,
}
use vel.Debug.RingBuffer.View.{add_all, kept_logs, length-recent_from, view-history}

-- How many logs pass a test.
abbrev pub count_if : (RequestLog → Bool) → List RequestLog → ℕ
count_if p [] = 0
count_if p (log ∷ logs) = if p log then suc (count_if p logs) else count_if p logs

stats_from-view :
    (rb : RingBuffer) (s : BufferStats) (rounds i status : ℕ)
    → (stats_from rb s rounds i).by_status status
      ≡ count_if (λ log. eqb log.status status) (recent_from rb rounds i) + s.by_status status
unfolding stats_from recent_from count_entry
stats_from-view rb s zero i status = omega arith
stats_from-view rb s (suc rounds) i status =
    ground (arith, stats_from-view rb (count_entry s (entry rb i)) rounds (i + 1) status)

-- An error code is counted unless it is empty.
stats_from-codes :
    (rb : RingBuffer) (s : BufferStats) (rounds i : ℕ) (code : Text)
    → code ≢ []
    → (stats_from rb s rounds i).by_error_code code
      ≡ count_if (λ log. log.error == code) (recent_from rb rounds i) + s.by_error_code code
unfolding stats_from recent_from count_entry
stats_from-codes rb s zero i code n = omega arith
stats_from-codes rb s (suc rounds) i code n = ground (
  arith,
  ==_iff (entry rb i).error [],
  ==_iff (entry rb i).error code,
  stats_from-codes rb (count_entry s (entry rb i)) rounds (i + 1) code n,
)

stats_from-total :
    (rb : RingBuffer) (s : BufferStats) (rounds i : ℕ) → (stats_from rb s rounds i).total ≡ s.total
unfolding stats_from count_entry
stats_from-total rb s zero i = refl
stats_from-total rb s (suc rounds) i =
    stats_from-total rb (count_entry s (entry rb i)) rounds (i + 1)

-- After any logs, Stats gives how many are kept, how many of these have each status, and how many
-- each error code that is not empty.
stats-history :
    (requested status : ℕ) (code : Text) (logs : List RequestLog)
    → code ≢ []
    → let s = stats (add_all (new_ring_buffer requested) logs) in
      let kept = kept_logs requested logs in
      (s.total ≡ length kept)
      × (s.by_status status ≡ count_if (λ log. eqb log.status status) kept)
      × (s.by_error_code code ≡ count_if (λ log. log.error == code) kept)
unfolding stats
stats-history requested status code logs n =
    let rb = add_all (new_ring_buffer requested) logs in
    let start : BufferStats = record {
      total = rb.count;
      by_status = λ _. 0;
      by_error_code = λ _. 0;
    } in
    let h = view-history requested logs in
    let size : rb.count ≡ length (kept_logs requested logs) =
      sym (length-recent_from rb rb.count 0) ∙ ap length h in
    let statuses = stats_from-view rb start rb.count 0 status in
    let codes = stats_from-codes rb start rb.count 0 code n in
    (
      stats_from-total rb start rb.count 0 ∙ size,
      statuses ∙ omega (arith, ap (count_if (λ log. eqb log.status status)) h),
      codes ∙ omega (arith, ap (count_if (λ log. log.error == code)) h),
    )
