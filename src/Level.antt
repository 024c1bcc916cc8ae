-- ===== src/Level.antt =====
-- include/lob/price_ladder.h, `PriceLevel`: the FIFO of one price as a doubly linked list of slot
-- indices. A level uses the pool by `operator[]` alone, so its operations take the array of slots
-- and return it beside the new level. A write through a link that is `kNullIdx` does not happen.
pub mod Seg
pub mod Fifo
pub mod PushBack
pub mod Unlink
mod Tests
use low_latency_orderbook.Prelude.{ℕ, ◌+◌, ◌-◌, ◌%◌, ◌^◌, Bool, true, false, none, some, update}
use low_latency_orderbook.Pool.{Link, LevelIdx, Order}

-- the contents of `slots_`
abbrev pub Slots : Type 0
Slots = ℕ → Order

pub record PriceLevel : Type 0 where
  pub head_idx : Link
  pub tail_idx : Link
  pub order_count : ℕ
  pub total_qty : ℕ

abbrev pub empty_level : PriceLevel
empty_level = record { head_idx = none; tail_idx = none; order_count = 0; total_qty = 0 }

abbrev pub is_null : Link → Bool
is_null none = true
is_null (some _) = false

-- `PriceLevel::empty`
abbrev pub is_empty : PriceLevel → Bool
is_empty level = is_null level.head_idx

-- `pool[j].next_idx = v`, where the link `j` is not null
abbrev pub set_next : Link → Link → Slots → Slots
set_next none v s = s
set_next (some j) v s = update s j (record (s j) { next_idx = v })

-- `pool[j].prev_idx = v`, where the link `j` is not null
abbrev pub set_prev : Link → Link → Slots → Slots
set_prev none v s = s
set_prev (some j) v s = update s j (record (s j) { prev_idx = v })

-- `order.level_idx = v`
abbrev pub set_level_idx : ℕ → LevelIdx → Slots → Slots
set_level_idx i v s = update s i (record (s i) { level_idx = v })

-- the first link if it is null, else the second: which end of the level a neighbour's absence moves
abbrev pub if_null : Link → Link → Link → Link
if_null none moved kept = moved
if_null (some _) moved kept = kept

unfoldable pub push_back : PriceLevel → Slots → ℕ → PriceLevel × Slots
push_back level s i =
    let s' = set_next level.tail_idx (some i) (set_prev (some i) level.tail_idx s) in
    (
      record {
        head_idx = if_null level.tail_idx (some i) level.head_idx;
        tail_idx = some i;
        order_count = (level.order_count + 1) % 2 ^ 32;
        total_qty = (level.total_qty + (s' i).remaining) % 2 ^ 64;
      },
      s',
    )

-- The second neighbour is read after the first one's link is written, as in the source.
unfoldable pub unlink : PriceLevel → Slots → ℕ → PriceLevel × Slots
unlink level s i =
    let s1 = set_next (s i).prev_idx (s i).next_idx s in
    let s2 = set_prev (s1 i).next_idx (s1 i).prev_idx s1 in
    let s3 = set_prev (some i) none (set_next (some i) none s2) in
    (
      record {
        head_idx = if_null (s i).prev_idx (s i).next_idx level.head_idx;
        tail_idx = if_null (s1 i).next_idx (s1 i).prev_idx level.tail_idx;
        order_count = (level.order_count + 2 ^ 32 - 1) % 2 ^ 32;
        total_qty = (level.total_qty + 2 ^ 64 - (s3 i).remaining) % 2 ^ 64;
      },
      s3,
    )
