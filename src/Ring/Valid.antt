-- ===== src/Ring/Valid.antt =====
-- The invariant of the ring: each cached index is behind the index that it copies, and the slots
-- between the consumer and the producer are at most the capacity, which is a power of two.
use low_latency_orderbook.Prelude.{ℕ, true, ◌≡◌, ◌+◌, ◌^◌, ◌≤◌, ◌<◌, arith}
use low_latency_orderbook.Ring.{Ring, is_power_of_two, init, try_push, try_pop, try_pop_batch}

pub record IsValid {A : Type 0} (r : Ring A) : Type 0 where
  pub some_slots : 0 < r.capacity
  pub power_of_two : is_power_of_two 64 r.capacity ≡ true
  pub head_stale : r.head_cache ≤ r.head
  pub head_behind : r.head ≤ r.tail_cache
  pub tail_stale : r.tail_cache ≤ r.tail
  pub fits : r.tail ≤ r.head_cache + r.capacity
  pub small : r.tail < 2 ^ 64
  pub small_capacity : r.capacity < 2 ^ 64
  pub water : r.high_water ≤ r.capacity
  pub water_above : r.tail ≤ r.head_cache + r.high_water

module _ {A : Type 0} where
  pub init-IsValid :
      (capacity : ℕ) (slots : ℕ → A)
      → 0 < capacity
      → is_power_of_two 64 capacity ≡ true
      → capacity < 2 ^ 64
      → IsValid (init capacity slots)
  unfolding init
  init-IsValid capacity slots h p k = ground arith

  -- A push keeps the invariant, as long as the index has not counted through 64 bits.
  pub try_push-IsValid :
      (x : A) (r : Ring A) → IsValid r → r.tail + 1 < 2 ^ 64 → IsValid (try_push x r).1
  unfolding try_push
  try_push-IsValid x r v k = ground arith

  pub try_pop-IsValid : (r : Ring A) → IsValid r → IsValid (try_pop r).1
  unfolding try_pop
  try_pop-IsValid r v = ground arith

  -- A pop of a batch of any size keeps the invariant.
  pub try_pop_batch-IsValid : (n : ℕ) (r : Ring A) → IsValid r → IsValid (try_pop_batch n r).1
  unfolding try_pop_batch
  try_pop_batch-IsValid n r v = ground arith
