-- ===== src/Debug/RingBuffer.antt =====
-- internal/debug/buffer.go: a ring buffer of request logs. A method that takes the lock is one
-- step on the record. An index that Go would refuse does not occur (`IsSound` in Ring).
pub mod Ring
pub mod View
pub mod Reads
pub mod Counts
mod Tests
use vel.Common.{
  List, Option, Text, [], eqb, get_elem?, if◌then◌else◌, leb, ltb, none, replicate, set, some, suc,
  zero, ℕ, ◌%◌, ◌+◌, ◌-◌, ◌==◌, ◌∷◌,
}

-- Of a request log, the fields that the buffer itself reads; the others travel along in `rest`.
pub record RequestLog : Type 0 where
  pub request_id : Text
  pub status : ℕ
  pub error : Text
  pub rest : List Text

pub record RingBuffer : Type 0 where
  pub entries : List RequestLog
  pub capacity : ℕ
  pub head : ℕ
  pub count : ℕ

-- The zero value that `make` fills the slice with.
abbrev pub zero_log : RequestLog
zero_log = record { request_id = []; status = 0; error = []; rest = [] }

-- A requested capacity is an `int`; zero and the negative ones are 0 here.
unfoldable pub new_ring_buffer : ℕ → RingBuffer
new_ring_buffer requested =
    let capacity = if eqb requested 0 then 1000 else requested in
    record { entries = replicate capacity zero_log; capacity = capacity; head = 0; count = 0 }

unfoldable pub add : RingBuffer → RequestLog → RingBuffer
add rb log = record {
  entries = set rb.entries rb.head log;
  capacity = rb.capacity;
  head = (rb.head + 1) % rb.capacity;
  count = if ltb rb.count rb.capacity then rb.count + 1 else rb.count;
}

-- `(rb.head - 1 - i + rb.capacity) % rb.capacity`, with the additions first.
abbrev pub index : RingBuffer → ℕ → ℕ
index rb i = (rb.head + rb.capacity - 1 - i) % rb.capacity

unfoldable pub slot : List RequestLog → ℕ → RequestLog
slot entries idx = elim (get_elem? entries idx) [ none ↦ zero_log | some log ↦ log ]

-- `rb.entries[idx]`
unfoldable pub entry : RingBuffer → ℕ → RequestLog
unfolding slot
entry rb i = slot rb.entries (index rb i)

-- The loop `for i := …; i < count; i++`, on the rounds left.
unfoldable pub get_from : RingBuffer → Text → ℕ → ℕ → Option RequestLog
get_from rb request_id zero i = none
get_from rb request_id (suc rounds) i =
    let later = get_from rb request_id rounds (i + 1) in
    if (entry rb i).request_id == request_id then some (entry rb i) else later

unfoldable pub get : RingBuffer → Text → Option RequestLog
get rb request_id = get_from rb request_id rb.count 0

unfoldable pub recent_from : RingBuffer → ℕ → ℕ → List RequestLog
recent_from rb zero i = []
recent_from rb (suc rounds) i = entry rb i ∷ recent_from rb rounds (i + 1)

unfoldable pub recent : RingBuffer → ℕ → List RequestLog
recent rb n = recent_from rb (if ltb rb.count n then rb.count else n) 0

-- `wanted` is `n - len(result)`.
unfoldable pub errors_from : RingBuffer → ℕ → ℕ → ℕ → List RequestLog
errors_from rb wanted zero i = []
errors_from rb zero (suc rounds) i = []
errors_from rb (suc wanted) (suc rounds) i =
    let hit = errors_from rb wanted rounds (i + 1) in
    let miss = errors_from rb (suc wanted) rounds (i + 1) in
    if leb 400 (entry rb i).status then entry rb i ∷ hit else miss

unfoldable pub recent_errors : RingBuffer → ℕ → List RequestLog
recent_errors rb n = errors_from rb n rb.count 0

-- The two maps of `Stats`, as functions that are 0 at a missing key.
pub record BufferStats : Type 0 where
  pub total : ℕ
  pub by_status : ℕ → ℕ
  pub by_error_code : Text → ℕ

unfoldable pub count_entry : BufferStats → RequestLog → BufferStats
count_entry s log = record {
  total = s.total;
  by_status = λ k. if eqb log.status k then suc (s.by_status k) else s.by_status k;
  by_error_code = if log.error == [] then s.by_error_code else λ k.
      if log.error == k then suc (s.by_error_code k) else s.by_error_code k;
}

unfoldable pub stats_from : RingBuffer → BufferStats → ℕ → ℕ → BufferStats
stats_from rb s zero i = s
stats_from rb s (suc rounds) i = stats_from rb (count_entry s (entry rb i)) rounds (i + 1)

unfoldable pub stats : RingBuffer → BufferStats
stats rb =
    stats_from rb (record { total = rb.count; by_status = λ _. 0; by_error_code = λ _. 0 }) rb.count
      0
