-- ===== src/Ladder.antt =====
-- include/lob/price_ladder.h, `PriceLadder`: one side of the book, as an array of levels round the
-- anchor with a cursor to the best one, and a map of the levels outside that band. Operations that
-- take the pool use it by `operator[]` alone and so take and return its slots. Where an assertion
-- of the source would fail, the state stays as it is.
pub mod Price
pub mod Scan
pub mod Holds
pub mod Best
pub mod Touched
pub mod Push
pub mod PushOrder
pub mod Unlinked
pub mod Advance
pub mod RemoveBand
pub mod RemoveOrder
pub mod Fill
pub mod Start
mod Tests
use low_latency_orderbook.Prelude.{
  ℕ, zero, suc, ℤ, pos, negsuc, pos_part, ◌+ℤ◌, ◌-ℤ◌, leb_ℤ, ltb_ℤ, ◌+◌, ◌-◌, ◌*◌, ◌%◌, ◌^◌, Bool,
  true, false, not, ◌&&◌, Option, none, some, ◌==◌, ltb, if◌then◌else◌, update, [],
}
use low_latency_orderbook.Types.{Side, buy, sell, is_buy}
use low_latency_orderbook.Pool.{Link, LevelIdx, unset, overflow, band}
use low_latency_orderbook.Level.{
  Slots, PriceLevel, empty_level, is_null, is_empty, set_level_idx, push_back, unlink,
}
use low_latency_orderbook.Map.{PriceMap, before, lookup, put, remove, first_key, last_key, is_nil}

-- `levels_` is the array of its `size` levels.
pub record PriceLadder : Type 0 where
  pub side : Side
  pub low_price : ℤ
  pub best_offset : Link
  pub band_orders : ℕ
  pub size : ℕ
  pub levels : ℕ → PriceLevel
  pub overflow_levels : PriceMap PriceLevel

unfoldable pub init : Side → ℤ → ℕ → PriceLadder
init side anchor_price band_radius = record {
  side = side;
  low_price = anchor_price -ℤ pos band_radius;
  best_offset = none;
  band_orders = 0;
  size = (2 * band_radius + 1) % 2 ^ 32;
  levels = λ _. empty_level;
  overflow_levels = [];
}

unfoldable pub in_band : PriceLadder → ℤ → Bool
in_band ld price = leb_ℤ ld.low_price price && ltb_ℤ price (ld.low_price +ℤ pos ld.size)

-- `price - low_price_`, for a price in the band; the constructor bounds the band's size by 2^25 + 1,
-- so the cast of an offset to 32 bits keeps it
unfoldable pub offset_of : PriceLadder → ℤ → ℕ
offset_of ld price = pos_part (price -ℤ ld.low_price)

unfoldable pub find_level : PriceLadder → ℤ → Option PriceLevel
find_level ld price =
    if in_band ld price
    then some (ld.levels (offset_of ld price))
    else lookup price ld.overflow_levels

-- `IsBetter`: higher for bids, lower for asks
unfoldable pub is_better : Side → ℕ → ℕ → Bool
is_better buy lhs rhs = ltb rhs lhs
is_better sell lhs rhs = ltb lhs rhs

abbrev pub level_or_empty : Option PriceLevel → PriceLevel
level_or_empty none = empty_level
level_or_empty (some level) = level

-- the cursor after an order came to the level at `offset`
unfoldable pub improve_best : Side → Link → ℕ → Link
improve_best side none offset = some offset
improve_best side (some best) offset = if is_better side offset best then some offset else some best

unfoldable pub push_order : PriceLadder → Slots → ℕ → PriceLadder × Slots
push_order ld s i =
    let price = (s i).price_ticks in
    if not (in_band ld price)
    then (let (level, s') = push_back (level_or_empty (lookup price ld.overflow_levels)) s i in
        (
          record ld { overflow_levels = put (before sell) price level ld.overflow_levels },
          set_level_idx i overflow s',
        ))
    else (let offset = offset_of ld price in
        let (level, s') = push_back (ld.levels offset) s i in
        (
          record ld {
            levels = update ld.levels offset level;
            band_orders = (ld.band_orders + 1) % 2 ^ 32;
            best_offset = improve_best ld.side ld.best_offset offset;
          },
          set_level_idx i (band offset) s',
        ))

-- The loop of `AdvanceBest` for bids, which steps down: `off` is one above the next offset tried.
unfoldable pub scan_down : (ℕ → PriceLevel) → ℕ → Link
scan_down levels zero = none
scan_down levels (suc off) = elim (is_empty (levels off)) [
  | true ↦ scan_down levels off
  | false ↦ some off
]

-- The loop for asks, which steps up from `off` through the given number of levels.
unfoldable pub scan_up : (ℕ → PriceLevel) → ℕ → ℕ → Link
scan_up levels off zero = none
scan_up levels off (suc left) = elim (is_empty (levels off)) [
  | true ↦ scan_up levels (suc off) left
  | false ↦ some off
]

-- `AdvanceBest`, from the best offset `best`
unfoldable pub advance_best : Side → (ℕ → PriceLevel) → ℕ → ℕ → Link
advance_best buy levels size best = scan_down levels best
advance_best sell levels size best = scan_up levels (suc best) (size - suc best)

-- `offset == best_offset_`
abbrev pub is_at : Link → ℕ → Bool
is_at none offset = false
is_at (some best) offset = offset == best

unfoldable pub remove_in_band : PriceLadder → Slots → ℕ → ℕ → PriceLadder × Slots
remove_in_band ld s i offset =
    let (level, s') = unlink (ld.levels offset) s i in
    let levels' = update ld.levels offset level in
    let band_orders' = (ld.band_orders + 2 ^ 32 - 1) % 2 ^ 32 in
    (
      record ld {
        levels = levels';
        band_orders = band_orders';
        best_offset =
            if is_empty level && is_at ld.best_offset offset
            then (if band_orders' == 0 then none else advance_best ld.side levels' ld.size offset)
            else ld.best_offset;
      },
      set_level_idx i unset s',
    )

unfoldable pub remove_overflow : PriceLadder → Slots → ℕ → PriceLadder × Slots
remove_overflow ld s i =
    let price = (s i).price_ticks in
    elim (lookup price ld.overflow_levels) [
      | none ↦ (ld, s)
      | some found ↦
          let (level, s') = unlink found s i in
          (
            record ld {
              overflow_levels =
                  if is_empty level
                  then remove price ld.overflow_levels
                  else put (before sell) price level ld.overflow_levels;
            },
            set_level_idx i unset s',
          )
    ]

unfoldable pub remove_order : PriceLadder → Slots → ℕ → PriceLadder × Slots
unfolding remove_in_band remove_overflow
remove_order ld s i = elim (s i).level_idx [
  | unset ↦ (ld, s)
  | overflow ↦ remove_overflow ld s i
  | band offset ↦ remove_in_band ld s i offset
]

-- `PriceLadder::empty`
unfoldable pub is_side_empty : PriceLadder → Bool
is_side_empty ld = is_null ld.best_offset && is_nil ld.overflow_levels

-- `low_price_ + best_offset_`, with `kNullIdx` as -1
abbrev pub band_price : PriceLadder → Link → ℤ
band_price ld none = ld.low_price +ℤ negsuc 0
band_price ld (some offset) = ld.low_price +ℤ pos offset

-- `std::max`, `std::min` of the side
abbrev pub better_price : Side → ℤ → ℤ → ℤ
better_price buy a b = if ltb_ℤ a b then b else a
better_price sell a b = if ltb_ℤ b a then b else a

abbrev pub overflow_best : Side → PriceMap PriceLevel → ℤ
overflow_best buy m = last_key (pos 0) m
overflow_best sell m = first_key (pos 0) m

unfoldable pub best_price : PriceLadder → ℤ
best_price ld =
    if is_nil ld.overflow_levels
    then band_price ld ld.best_offset
    else if is_null ld.best_offset
    then overflow_best ld.side ld.overflow_levels
    else better_price ld.side (band_price ld ld.best_offset)
        (overflow_best ld.side ld.overflow_levels)

-- `level_at` returns a reference: its read, and the write through it.
unfoldable pub level_at : PriceLadder → ℤ → PriceLevel
level_at ld price =
    if in_band ld price
    then ld.levels (offset_of ld price)
    else level_or_empty (lookup price ld.overflow_levels)

unfoldable pub set_level_at : PriceLadder → ℤ → PriceLevel → PriceLadder
set_level_at ld price level =
    if in_band ld price
    then record ld { levels = update ld.levels (offset_of ld price) level }
    else record ld { overflow_levels = put (before sell) price level ld.overflow_levels }
