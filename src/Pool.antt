-- ===== src/Pool.antt =====
-- include/lob/order_pool.h: order ids, the `Order` slot and the arena `OrderPool` with its free
-- list. `slots_` is the array of its `capacity` slots, a function of the index; an operation that
-- changes `*this` returns the new pool. A link field is `kNullIdx` (`none`) or an index.
pub mod Ids
pub mod Valid
pub mod Find
pub mod Alloc
pub mod Free
pub mod Frame
mod Tests
use low_latency_orderbook.Prelude.{
  ℕ, ℤ, pos, ◌+◌, ◌-◌, ◌*◌, ◌/◌, ◌%◌, ◌^◌, Bool, Option, none, some, ◌==◌, ltb, leb, ◌||◌,
  if◌then◌else◌, update,
}
use low_latency_orderbook.Types.{Side, OrderType, buy, limit, invalid_order_id}

-- an intrusive pool-index link
abbrev pub Link : Type 0
Link = Option ℕ

-- `Order::level_idx`: `kNullIdx`, `kOverflowIdx` or the offset of a band level
pub data LevelIdx : Type 0 where
  unset overflow : LevelIdx
  band : ℕ → LevelIdx

-- The shifted generation has a zero low half, so `|` with an index below 2^32 is `+`.
unfoldable pub make_order_id : ℕ → ℕ → ℕ
make_order_id generation index = (generation * 2 ^ 32 + index) % 2 ^ 64

unfoldable pub index_of : ℕ → ℕ
index_of id = id % 2 ^ 32

unfoldable pub generation_of : ℕ → ℕ
generation_of id = (id / 2 ^ 32) % 2 ^ 32

pub record Order : Type 0 where
  pub order_id : ℕ
  pub price_ticks : ℤ
  pub qty : ℕ
  pub remaining : ℕ
  pub side : Side
  pub type : OrderType
  pub flags : ℕ
  pub prev_idx : Link
  pub next_idx : Link
  pub level_idx : LevelIdx
  pub generation : ℕ

pub record OrderPool : Type 0 where
  pub slots : ℕ → Order
  pub capacity : ℕ
  pub free_head : Link
  pub live_count : ℕ

abbrev pub set_slot : OrderPool → ℕ → Order → OrderPool
set_slot p i o = record p { slots = update p.slots i o }

-- a value-initialised slot: every field is zero
abbrev pub zero_order : Order
zero_order = record {
  order_id = 0;
  price_ticks = pos 0;
  qty = 0;
  remaining = 0;
  side = buy;
  type = limit;
  flags = 0;
  prev_idx = some 0;
  next_idx = some 0;
  level_idx = band 0;
  generation = 0;
}

-- The constructor: the loop over `i` writes each slot once, from its index alone.
unfoldable pub init : ℕ → OrderPool
init capacity = record {
  slots = λ i. record zero_order { next_idx = if ltb (i + 1) capacity then some (i + 1) else none };
  capacity = capacity;
  free_head = if ltb 0 capacity then some 0 else none;
  live_count = 0;
}

-- the generation after `g`, which skips 0 on wrap
unfoldable pub next_generation : ℕ → ℕ
next_generation g = if g == 2 ^ 32 - 1 then 1 else (g + 1) % 2 ^ 32

-- the slot that `alloc` leaves at `index`
unfoldable pub minted : Order → ℕ → Order
minted slot index = record slot {
  generation = next_generation slot.generation;
  order_id = make_order_id (next_generation slot.generation) index;
  prev_idx = none;
  next_idx = none;
  level_idx = unset;
}

unfoldable pub alloc : OrderPool → ℕ × OrderPool
alloc p = elim p.free_head [
  | none ↦ (invalid_order_id, p)
  | some index ↦
      let slot = p.slots index in
      let slot' = minted slot index in
      (
        slot'.order_id,
        record p {
          slots = update p.slots index slot';
          free_head = slot.next_idx;
          live_count = (p.live_count + 1) % 2 ^ 32;
        },
      )
]

unfoldable pub free : OrderPool → ℕ → OrderPool
free p index = record p {
  slots =
      update p.slots index
        (record (p.slots index) { order_id = invalid_order_id; next_idx = p.free_head });
  free_head = some index;
  live_count = (p.live_count + 2 ^ 32 - 1) % 2 ^ 32;
}

-- `find` returns the slot's index for its pointer.
unfoldable pub find : OrderPool → ℕ → Option ℕ
find p id =
    let index = index_of id in
    if (id == invalid_order_id) || leb p.capacity index
    then none
    else if (p.slots index).order_id == id
    then some index
    else none
