-- ===== src/Debug/RingBuffer/View.antt =====
-- The ring buffer refines a bounded history: the last `capacity` logs, newest first.
use vel.Common.{
  Bool-cases, List, [], ap, ap₂, arith, eqb, if◌then◌else◌, inl, inr, length, ltb, refl, suc, sym,
  take, take-take, take_all, zero, ℕ, ◌+◌, ◌-◌, ◌∙◌, ◌∷◌, ◌≡◌, ◌≤◌,
}
use mathlib.Core.List.{reverse_aux, reverse}
use vel.Debug.RingBuffer.Ring.{
  IsSound, add-IsSound, add-count, entry-add_zero, new_ring_buffer-IsSound, recent_from-add,
}
use vel.Debug.RingBuffer.{RequestLog, RingBuffer, add, new_ring_buffer, recent_from, entry}

-- The abstract view: the logs that the buffer holds, newest first.
abbrev pub view : RingBuffer → List RequestLog
view rb = recent_from rb rb.count 0

pub take-recent_from :
    (rb : RingBuffer) (k n i : ℕ) → k ≤ n → take k (recent_from rb n i) ≡ recent_from rb k i
unfolding recent_from
take-recent_from rb zero n i h = refl
take-recent_from rb (suc k) zero i h = absurd (omega (arith, h))
take-recent_from rb (suc k) (suc n) i h =
    ap (◌∷◌ (entry rb i)) (take-recent_from rb k n (i + 1) (omega (arith, h)))

pub length-recent_from : (rb : RingBuffer) (n i : ℕ) → length (recent_from rb n i) ≡ n
unfolding recent_from
length-recent_from rb zero i = refl
length-recent_from rb (suc n) i = ap suc (length-recent_from rb n (i + 1))

view-add-suc :
    (rb : RingBuffer) (log : RequestLog) (m k : ℕ)
    → IsSound rb
    → (add rb log).count ≡ suc m
    → rb.capacity ≡ suc k
    → m ≤ k
    → take k (view rb) ≡ recent_from rb m 0
    → view (add rb log) ≡ take rb.capacity (log ∷ view rb)
unfolding recent_from
view-add-suc rb log m k s c e le h =
    ap (λ n. recent_from (add rb log) n 0) c
    ∙ ap₂ ◌∷◌ (entry-add_zero rb log s) (recent_from-add rb log s m 0 (omega (arith, e, le)))
    ∙ ap (◌∷◌ log) (sym h)
    ∙ ap (λ n. take n (log ∷ view rb)) (sym e)

-- Adding a log puts it in front and drops what no longer fits.
view-add :
    (rb : RingBuffer) (log : RequestLog)
    → IsSound rb
    → view (add rb log) ≡ take rb.capacity (log ∷ view rb)
view-add rb log s =
    let k = rb.capacity - 1 in
    let e : rb.capacity ≡ suc k = omega (arith, s.room) in
    elim (Bool-cases (ltb rb.count rb.capacity)) [
      | inl below ↦
          let c : (add rb log).count ≡ suc rb.count = add-count rb log s ∙ rw below (omega arith) in
          let size = length-recent_from rb rb.count 0 in
          let fits : rb.count ≤ k = ground (arith, s.room) in
          view-add-suc rb log rb.count k s c e fits
            (take_all k (view rb) (omega (arith, size, fits)))
      | inr full ↦
          let c : (add rb log).count ≡ suc k =
            add-count rb log s ∙ rw full (ground (arith, s.counted, s.room)) in
          view-add-suc rb log k k s c e (omega arith)
            (take-recent_from rb k rb.count 0 (ground (arith, s.counted)))
    ]

-- `add` on each of the logs, the first one first.
unfoldable pub add_all : RingBuffer → List RequestLog → RingBuffer
add_all rb [] = rb
add_all rb (log ∷ logs) = add_all (add rb log) logs

add-capacity : (rb : RingBuffer) (log : RequestLog) → (add rb log).capacity ≡ rb.capacity
unfolding add
add-capacity rb log = refl

take-cons_take :
    (n : ℕ) (log : RequestLog) (past : List RequestLog)
    → take n (log ∷ take n past) ≡ take n (log ∷ past)
take-cons_take zero log past = refl
take-cons_take (suc n) log past = ap (◌∷◌ log) (take-take n (suc n) past (omega arith))

view-add_all :
    (logs : List RequestLog) (rb : RingBuffer) (past : List RequestLog) (n : ℕ)
    → IsSound rb
    → rb.capacity ≡ n
    → view rb ≡ take n past
    → view (add_all rb logs) ≡ take n (reverse_aux logs past)
unfolding add_all
view-add_all [] rb past n s e h = h
view-add_all (log ∷ logs) rb past n s e h =
    view-add_all logs (add rb log) (log ∷ past) n (add-IsSound rb log s) (add-capacity rb log ∙ e)
      (view-add rb log s ∙ ap₂ (λ k v. take k (log ∷ v)) e h ∙ take-cons_take n log past)

-- The capacity that a new buffer gets.
abbrev pub capacity_of : ℕ → ℕ
capacity_of requested = if eqb requested 0 then 1000 else requested

-- What is kept of the logs: the last ones, as many as fit, the newest first.
abbrev pub kept_logs : ℕ → List RequestLog → List RequestLog
kept_logs requested logs = take (capacity_of requested) (reverse logs)

-- After any logs, a buffer holds the last of them that fit, newest first.
pub view-history :
    (requested : ℕ) (logs : List RequestLog)
    → view (add_all (new_ring_buffer requested) logs) ≡ kept_logs requested logs
unfolding new_ring_buffer recent_from
view-history requested logs =
    view-add_all logs (new_ring_buffer requested) [] (capacity_of requested)
      (new_ring_buffer-IsSound requested) refl
      (sym (take_all (capacity_of requested) [] (omega arith)))
