-- ===== src/Ring.antt =====
-- include/lob/spsc_queue.h: `SPSCQueue<T>`, the ring between one producer and one consumer. The
-- fields of both threads stand in one record, each thread's stale copy of the other's index among
-- them; an operation is one step of its thread. Indices are 64-bit numbers that only grow. With a
-- power of two as the capacity, `index & mask_` is the remainder by the capacity (see Ring/Mask).
pub mod Valid
pub mod Refine
pub mod Batch
pub mod Produce
pub mod Mask
mod Tests
use low_latency_orderbook.Prelude.{
  ℕ, zero, suc, ◌+◌, ◌-◌, ◌%◌, ◌/◌, ◌^◌, Bool, true, false, Option, none, some, List, [], ◌∷◌, ◌==◌,
  ltb, if◌then◌else◌, update,
}

pub record Ring (A : Type 0) : Type 0 where
  pub slots : ℕ → A
  pub capacity : ℕ
  pub tail : ℕ
  pub head_cache : ℕ
  pub high_water : ℕ
  pub head : ℕ
  pub tail_cache : ℕ

-- unsigned 64-bit subtraction
abbrev pub sub64 : ℕ → ℕ → ℕ
sub64 a b = (a + 2 ^ 64 - b) % 2 ^ 64

-- What the constructor asserts of the capacity: halved while it is even, it comes down to one.
unfoldable pub is_power_of_two : ℕ → ℕ → Bool
is_power_of_two zero n = false
is_power_of_two (suc fuel) n =
    let rest = is_power_of_two fuel (n / 2) in
    if n == 1 then true else if n % 2 == 0 then rest else false

module _ {A : Type 0} where
  -- The constructor, over whatever the slots hold at first.
  unfoldable pub init : ℕ → (ℕ → A) → Ring A
  init capacity slots = record {
    slots = slots;
    capacity = capacity;
    tail = 0;
    head_cache = 0;
    high_water = 0;
    head = 0;
    tail_cache = 0;
  }

  unfoldable pub update_high_water : ℕ → Ring A → Ring A
  update_high_water occupancy r =
      if ltb r.high_water occupancy then record r { high_water = occupancy } else r

  -- `head_cache_ = head_.load(…)`, which happens only where the cached index says full
  unfoldable pub refresh_head : Ring A → Ring A
  refresh_head r =
      if sub64 r.tail r.head_cache == r.capacity then record r { head_cache = r.head } else r

  -- the write of the slot, the high-water mark and the new tail
  unfoldable pub publish : A → Ring A → Ring A
  publish value r =
      let r' =
        update_high_water (sub64 ((r.tail + 1) % 2 ^ 64) r.head_cache)
          (record r { slots = update r.slots (r.tail % r.capacity) value }) in
      record r' { tail = (r.tail + 1) % 2 ^ 64 }

  unfoldable pub try_push : A → Ring A → Bool × Ring A
  unfolding update_high_water refresh_head publish
  try_push value r =
      let r' = refresh_head r in
      if sub64 r'.tail r'.head_cache == r'.capacity
      then (false, update_high_water r'.capacity r')
      else (true, publish value r')

  -- `tail_cache_ = tail_.load(…)`, which happens only where the cached index says empty
  unfoldable pub refresh_tail : Ring A → Ring A
  refresh_tail r = if r.head == r.tail_cache then record r { tail_cache = r.tail } else r

  unfoldable pub try_pop : Ring A → Option A × Ring A
  unfolding refresh_tail
  try_pop r =
      let r' = refresh_tail r in
      if r'.head == r'.tail_cache
      then (none, r')
      else (some (r'.slots (r'.head % r'.capacity)), record r' { head = (r'.head + 1) % 2 ^ 64 })

  -- the copy loop of `try_pop_batch`: `n` slots from the index `head` on
  unfoldable pub copy_out : (ℕ → A) → ℕ → ℕ → ℕ → List A
  copy_out slots capacity head zero = []
  copy_out slots capacity head (suc n) =
      slots (head % capacity) ∷ copy_out slots capacity (suc head) n

  unfoldable pub try_pop_batch : ℕ → Ring A → List A × Ring A
  unfolding refresh_tail
  try_pop_batch max_items r =
      let r' = refresh_tail r in
      let available = sub64 r'.tail_cache r'.head in
      if available == 0
      then ([], r')
      else (let n = if ltb available max_items then available else max_items in
          (copy_out r'.slots r'.capacity r'.head n, record r' { head = (r'.head + n) % 2 ^ 64 }))

  unfoldable pub size : Ring A → ℕ
  size r = sub64 r.tail r.head

  unfoldable pub is_empty : Ring A → Bool
  unfolding size
  is_empty r = size r == 0
