-- ===== src/Debug/RingBuffer/Tests.antt =====
-- Runs of the ring buffer.
use vel.Common.{List, Text, [], find_first, keep, leb, lit, refl, take, ℕ, ◌==◌, ◌∷◌, ◌≡◌}
use vel.Debug.RingBuffer.{
  RequestLog, add, entry, get, new_ring_buffer, recent, recent_errors, recent_from,
}
use vel.Debug.RingBuffer.View.{add_all, kept_logs}
use vel.Debug.RingBuffer.Reads.{reads-history}

abbrev request : Text → ℕ → Text → RequestLog
request id status error = record { request_id = id; status = status; error = error; rest = [] }

abbrev three : List RequestLog
three = request (lit "a") 200 [] ∷ request (lit "b") 404 (lit "E1") ∷ request (lit "c") 500 [] ∷ []

oldest_dropped :
    recent (add_all (new_ring_buffer 2) three) 9
    ≡ request (lit "c") 500 [] ∷ request (lit "b") 404 (lit "E1") ∷ []
unfolding recent recent_from entry add_all add new_ring_buffer
oldest_dropped = refl

reads-history_example :
    let rb = add_all (new_ring_buffer 2) three in
    let kept = kept_logs 2 three in
    (recent rb 1 ≡ take 1 kept)
    × (get rb (lit "a") ≡ find_first (λ log. log.request_id == lit "a") kept)
    × (recent_errors rb 1 ≡ take 1 (keep (λ log. leb 400 log.status) kept))
reads-history_example = reads-history 2 1 (lit "a") three
