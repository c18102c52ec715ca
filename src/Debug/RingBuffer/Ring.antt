-- ===== src/Debug/RingBuffer/Ring.antt =====
-- The indices of the ring: what a new log does to the entry behind each index.
use vel.Common.{
  Bool-cases, List, Option, ap, ap₂, arith, get_elem?-set_ne, get_elem?-set_self, if◌then◌else◌,
  inl, inr, length, length-replicate, length-set, ltb, none, refl, set, some, suc, sym, zero, ℕ,
  ◌%◌, ◌+◌, ◌-◌, ◌<◌, ◌∙◌, ◌∷◌, ◌≡◌, ◌≢◌, ◌≤◌,
}
use native.Mathlib.Nat.{mod-lt, mod-add-mod, add-mod_right, mod-eq_of_lt, mod-eq-sub-mod}
use vel.Debug.RingBuffer.{
  RequestLog, RingBuffer, add, entry, index, new_ring_buffer, recent_from, slot, zero_log,
}

-- What the indices need: room for at least one log, and a write position inside.
pub record IsSound (rb : RingBuffer) : Type 0 where
  pub room : 0 < rb.capacity
  pub filled : length rb.entries ≡ rb.capacity
  pub inside : rb.head < rb.capacity
  pub counted : rb.count ≤ rb.capacity

pub new_ring_buffer-IsSound : (n : ℕ) → IsSound (new_ring_buffer n)
unfolding new_ring_buffer
new_ring_buffer-IsSound n = record {
  room = ground arith;
  filled = length-replicate _ zero_log;
  inside = ground arith;
  counted = omega arith;
}

pub add-IsSound : (rb : RingBuffer) (log : RequestLog) → IsSound rb → IsSound (add rb log)
unfolding add
add-IsSound rb log s = record {
  room = s.room;
  filled = length-set rb.entries rb.head log ∙ s.filled;
  inside = mod-lt (rb.head + 1) s.room;
  counted = ground arith;
}

-- A step round the ring by less than its size ends elsewhere.
ring_step-ne : (h d n : ℕ) → h < n → 0 < d → d < n → (h + d) % n ≢ h
ring_step-ne h d n hn d0 dn e = elim (Bool-cases (ltb (h + d) n)) [
  | inl below ↦ absurd (omega (arith, mod-eq_of_lt {n = h + d} {m = n} (ground arith), e))
  | inr past ↦
      let le : n ≤ h + d = ground arith in
      absurd (
        omega (
          arith,
          mod-eq-sub-mod {n = h + d} {m = n} le,
          mod-eq_of_lt {n = h + d - n} {m = n} (omega arith),
          e,
        ))
]

abbrev from_slot : Option RequestLog → RequestLog
from_slot none = zero_log
from_slot (some log) = log

slot-set_self :
    (entries : List RequestLog) (i : ℕ) (log : RequestLog)
    → i < length entries
    → slot (set entries i log) i ≡ log
unfolding slot
slot-set_self entries i log h = ap from_slot (get_elem?-set_self entries i log h)

slot-set_ne :
    (entries : List RequestLog) (i j : ℕ) (log : RequestLog)
    → i ≢ j
    → slot (set entries i log) j ≡ slot entries j
unfolding slot
slot-set_ne entries i j log h = ap from_slot (get_elem?-set_ne entries i j log h)

module _ (rb : RingBuffer) (log : RequestLog) (s : IsSound rb) where
  index-add_zero : index (add rb log) 0 ≡ rb.head
  unfolding add
  index-add_zero =
      let h = rb.head in
      let n = rb.capacity in
      let shift : (h + 1) % n + n - 1 - 0 ≡ (h + 1) % n + (n - 1) = omega (arith, s.room) in
      let whole : h + 1 + (n - 1) ≡ h + n = omega (arith, s.room) in
      ap (λ x. x % n) shift
      ∙ mod-add-mod (h + 1) n (n - 1)
      ∙ ap (λ x. x % n) whole
      ∙ add-mod_right h n
      ∙ mod-eq_of_lt s.inside

  index-add_suc : (i : ℕ) → i + 1 < rb.capacity → index (add rb log) (i + 1) ≡ index rb i
  unfolding add
  index-add_suc i le =
      let h = rb.head in
      let n = rb.capacity in
      let shift : (h + 1) % n + n - 1 - (i + 1) ≡ (h + 1) % n + (n - 1 - (i + 1)) =
        omega (arith, le) in
      let whole : h + 1 + (n - 1 - (i + 1)) ≡ h + n - 1 - i = omega (arith, le) in
      ap (λ x. x % n) shift ∙ mod-add-mod (h + 1) n (n - 1 - (i + 1)) ∙ ap (λ x. x % n) whole

  index-ne_head : (i : ℕ) → i + 1 < rb.capacity → index rb i ≢ rb.head
  index-ne_head i le e =
      let split : rb.head + rb.capacity - 1 - i ≡ rb.head + (rb.capacity - 1 - i) =
        omega (arith, le) in
      ring_step-ne rb.head (rb.capacity - 1 - i) rb.capacity s.inside (omega (arith, le))
        (omega (arith, s.room)) (sym (ap (λ x. x % rb.capacity) split) ∙ e)

  -- The entry just written is the newest, and the others are one step older.
  pub entry-add_zero : entry (add rb log) 0 ≡ log
  unfolding entry add
  entry-add_zero =
      ap (slot (set rb.entries rb.head log)) (unfold add in index-add_zero)
      ∙ slot-set_self rb.entries rb.head log (omega (arith, s.filled, s.inside))

  entry-add_suc : (i : ℕ) → i + 1 < rb.capacity → entry (add rb log) (i + 1) ≡ entry rb i
  unfolding entry add
  entry-add_suc i le =
      ap (slot (set rb.entries rb.head log)) (index-add_suc i le)
      ∙ slot-set_ne rb.entries rb.head (index rb i) log (λ e. index-ne_head i le (sym e))

  pub recent_from-add :
      (rounds i : ℕ)
      → i + rounds < rb.capacity
      → recent_from (add rb log) rounds (i + 1) ≡ recent_from rb rounds i
  unfolding recent_from
  recent_from-add zero i h = refl
  recent_from-add (suc rounds) i h =
      ap₂ ◌∷◌ (entry-add_suc i (omega (arith, h)))
        (recent_from-add rounds (i + 1) (omega (arith, h)))

  pub add-count : (add rb log).count ≡ (if ltb rb.count rb.capacity then rb.count + 1 else rb.count)
  unfolding add
  add-count = refl
