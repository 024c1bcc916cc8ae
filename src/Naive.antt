-- ===== src/Naive.antt =====
-- include/lob/naive_book.h: `NaiveBook`, the reference book. A side is an ordered map from prices
-- to FIFO lists of orders, best price first; `index_` locates the open orders by id. A list
-- iterator is the id of the order it points to, since ids are unique. The sweep runs on fuel.
pub mod Queries
use low_latency_orderbook.Prelude.{
  ℕ, zero, suc, ℤ, pos, leb_ℤ, ◌+◌, ◌-◌, Bool, true, false, not, ◌&&◌, ◌||◌, Option, none, some,
  List, [], ◌∷◌, ◌++◌, ◌==◌, ltb, if◌then◌else◌, min, length,
}
use low_latency_orderbook.Types.{
  Side, buy, sell, opposite, OrderType, is_market, is_limit, RejectReason, Event,
}
use low_latency_orderbook.Event.{
  rejected_event, accepted_event, traded_event, canceled_event, order_price,
}
use low_latency_orderbook.Map.{PriceMap, before, lookup, put, remove, lookup_id, remove_id, emplace}

pub record NaiveOrder : Type 0 where
  pub id : ℕ
  pub price : ℤ
  pub qty : ℕ
  pub remaining : ℕ
  pub side : Side

abbrev pub Level : Type 0
Level = List NaiveOrder

pub record Locator : Type 0 where
  pub side : Side
  pub price : ℤ
  pub it : ℕ

pub record NaiveBook : Type 0 where
  pub bids : PriceMap Level
  pub asks : PriceMap Level
  pub index : List (ℕ × Locator)

abbrev pub init : NaiveBook
init = record { bids = []; asks = []; index = [] }

abbrev pub levels : NaiveBook → Side → PriceMap Level
levels b buy = b.bids
levels b sell = b.asks

abbrev pub set_levels : NaiveBook → Side → PriceMap Level → NaiveBook
set_levels b buy m = record b { bids = m }
set_levels b sell m = record b { asks = m }

abbrev pub level_or_nil : Option Level → Level
level_or_nil none = []
level_or_nil (some level) = level

unfoldable pub rest : NaiveBook → ℕ → Side → ℤ → ℕ → ℕ → NaiveBook
rest b id side price qty remaining =
    let order : NaiveOrder = record {
      id = id;
      price = price;
      qty = qty;
      remaining = remaining;
      side = side;
    } in
    let level = level_or_nil (lookup price (levels b side)) ++ (order ∷ []) in
    record (set_levels b side (put (before side) price level (levels b side))) {
      index = emplace id (record { side = side; price = price; it = id }) b.index;
    }

-- the state of a sweep of one side: its map, and the index
abbrev pub Swept : Type 0
Swept = PriceMap Level × List (ℕ × Locator)

abbrev pub SweepOutcome : Type 0
SweepOutcome = Option (ℕ × Swept × List Event)

abbrev pub prepend : List Event → SweepOutcome → SweepOutcome
prepend events none = none
prepend events (some (remaining, swept, rest)) = some (remaining, swept, events ++ rest)

-- `pop_front` of a filled maker; the level goes with its last order.
abbrev pub pop_front : ℤ → Level → PriceMap Level → PriceMap Level
pop_front px [] m = m
pop_front px (order ∷ level) m = (px, order ∷ level) ∷ m

-- the map and the index after a fill that left the maker `left`
abbrev pub settle : ℤ → NaiveOrder → Level → PriceMap Level → List (ℕ × Locator) → ℕ → Swept
settle px maker level m index left =
    if left == 0
    then (pop_front px level m, remove_id maker.id index)
    else ((px, record maker { remaining = left } ∷ level) ∷ m, index)

unfoldable pub fill_events : NaiveOrder → Side → ℕ → ℕ → ℕ → List Event
fill_events maker taker_side fill remaining taker_id =
    traded_event maker.side fill (maker.remaining - fill) maker.price maker.id
    ∷ traded_event taker_side fill remaining maker.price taker_id
    ∷ []

-- `Match`. `none` also stands for a level without orders, whose front the source would read; a level
-- goes with its last order.
unfoldable pub match_loop :
    ℕ → (ℤ → Bool) → PriceMap Level → List (ℕ × Locator) → ℕ → Side → ℕ → SweepOutcome
match_loop zero crosses m index taker_id taker_side remaining = none
match_loop (suc fuel) crosses [] index taker_id taker_side remaining =
    some (remaining, ([], index), [])
match_loop (suc fuel) crosses ((px, []) ∷ m) index taker_id taker_side remaining = none
match_loop (suc fuel) crosses ((px, maker ∷ level) ∷ m) index taker_id taker_side remaining =
    elim (ltb 0 remaining && crosses px) [
      | false ↦ some (remaining, ((px, maker ∷ level) ∷ m, index), [])
      | true ↦
          let fill = min remaining maker.remaining in
          let (m', index') = settle px maker level m index (maker.remaining - fill) in
          prepend (fill_events maker taker_side fill (remaining - fill) taker_id)
            (match_loop fuel crosses m' index' taker_id taker_side (remaining - fill))
    ]

-- the number of orders on a side, which bounds the fills that remove a maker
unfoldable pub order_count : PriceMap Level → ℕ
order_count [] = 0
order_count ((px, level) ∷ m) = length level + order_count m

-- the argument `crosses` of `Match` in `add`
unfoldable pub crosses : Side → OrderType → ℤ → ℤ → Bool
crosses buy type price level_px = is_market type || leb_ℤ level_px price
crosses sell type price level_px = is_market type || leb_ℤ price level_px

unfoldable pub match : NaiveBook → ℕ → Side → OrderType → ℤ → ℕ → SweepOutcome
match b id side type price qty =
    let m = levels b (opposite side) in
    match_loop (order_count m + 1) (crosses side type price) m b.index id side qty

-- `add` after `Match`
unfoldable pub finish : NaiveBook → ℕ → Side → OrderType → ℤ → ℕ → ℕ → NaiveBook × List Event
finish b id side type price qty remaining =
    if ltb 0 remaining
    then (if is_limit type
        then (rest b id side price qty remaining, [])
        else (b, canceled_event side remaining (order_price type price) id ∷ []))
    else (b, [])

abbrev pub Outcome : Type 0
Outcome = Option (Bool × NaiveBook × List Event)

abbrev pub is_listed : Option Locator → Bool
is_listed none = false
is_listed (some loc) = true

-- `none` where an assertion on the id fails, or where the sweep runs out of fuel
unfoldable pub add : NaiveBook → ℕ → Side → OrderType → ℤ → ℕ → Outcome
add b id side type price qty =
    if (id == 0) || is_listed (lookup_id id b.index)
    then none
    else if qty == 0
    then some (false, b, rejected_event side RejectReason.invalid_qty qty price id ∷ [])
    else if not (is_market type) && leb_ℤ price (pos 0)
    then some (false, b, rejected_event side RejectReason.invalid_price qty price id ∷ [])
    else elim (match b id side type price qty) [
      | none ↦ none
      | some (remaining, swept, events) ↦
          let b' = record (set_levels b (opposite side) swept.0) { index = swept.1 } in
          let (b'', last) = finish b' id side type price qty remaining in
          some (true, b'', accepted_event side qty (order_price type price) id ∷ (events ++ last))
    ]

unfoldable pub add_limit : NaiveBook → ℕ → Side → ℤ → ℕ → Bool × NaiveBook × List Event
add_limit b id side price qty =
    if qty == 0
    then (false, b, rejected_event side RejectReason.invalid_qty qty price id ∷ [])
    else if leb_ℤ price (pos 0)
    then (false, b, rejected_event side RejectReason.invalid_price qty price id ∷ [])
    else (true, rest b id side price qty qty, accepted_event side qty price id ∷ [])

-- the order that an iterator points to
unfoldable pub order_at : ℕ → Level → Option NaiveOrder
order_at it [] = none
order_at it (order ∷ level) = if it == order.id then some order else order_at it level

-- `level.erase(it)`
unfoldable pub erase_at : ℕ → Level → Level
erase_at it [] = []
erase_at it (order ∷ level) = if it == order.id then level else order ∷ erase_at it level

abbrev pub put_or_remove : Side → ℤ → Level → PriceMap Level → PriceMap Level
put_or_remove side price [] m = remove price m
put_or_remove side price (order ∷ level) m = put (before side) price (order ∷ level) m

-- `EraseOrder`; the level is there for a locator of the index.
unfoldable pub erase_order : Side → Locator → PriceMap Level → PriceMap Level
erase_order side loc m = elim (lookup loc.price m) [
  | none ↦ m
  | some level ↦ put_or_remove side loc.price (erase_at loc.it level) m
]

abbrev pub open_qty : Option NaiveOrder → ℕ
open_qty none = 0
open_qty (some order) = order.remaining

unfoldable pub cancel : NaiveBook → ℕ → Bool × NaiveBook × List Event
cancel b id = elim (lookup_id id b.index) [
  | none ↦ (false, b, rejected_event buy RejectReason.unknown_order 0 (pos 0) id ∷ [])
  | some loc ↦
      let m = levels b loc.side in
      let qty = open_qty (order_at loc.it (level_or_nil (lookup loc.price m))) in
      let b' = record b { index = remove_id id b.index } in
      (
        true,
        set_levels b' loc.side (erase_order loc.side loc m),
        canceled_event loc.side qty loc.price id ∷ [],
      )
]
