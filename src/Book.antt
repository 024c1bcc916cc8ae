-- ===== src/Book.antt =====
-- include/lob/order_book.h: `OrderBook`, an `OrderPool` and a `PriceLadder` for each side. An
-- operation returns its result, the new book and the events that it gives to `sink`, in order.
-- The sweep of `Match` runs on fuel; `none` means that the fuel ran out, or that the best level of a
-- side that is not empty has no head, which the source asserts never happens.
pub mod Queries
pub mod Valid
pub mod Assemble
pub mod Remove
pub mod Flight
pub mod Rest
pub mod Push
pub mod Maker
pub mod Sweep
pub mod Uncrossed
pub mod Add
pub mod AddReturns
pub mod Rests
mod Tests
use low_latency_orderbook.Prelude.{
  ℕ, zero, suc, ℤ, pos, negsuc, leb_ℤ, ltb_ℤ, ◌+◌, ◌-◌, ◌%◌, ◌^◌, Bool, true, false, not, ◌&&◌,
  ◌||◌, Option, none, some, List, [], ◌∷◌, ◌++◌, ◌==◌, ltb, if◌then◌else◌, update, min,
}
use low_latency_orderbook.Types.{
  Side, buy, sell, is_buy, opposite, OrderType, limit, is_market, is_limit, RejectReason, Event,
  invalid_order_id,
}
use low_latency_orderbook.Event.{
  rejected_event, accepted_event, traded_event, canceled_event, order_price,
}
use low_latency_orderbook.Pool.{Order, OrderPool, index_of, alloc, free, find}
use low_latency_orderbook.Pool
use low_latency_orderbook.Level.{Slots, PriceLevel}
use low_latency_orderbook.Ladder.{
  PriceLadder, push_order, remove_order, is_side_empty, best_price, level_at, set_level_at,
}
use low_latency_orderbook.Ladder

pub record OrderBook : Type 0 where
  pub pool : OrderPool
  pub bids : PriceLadder
  pub asks : PriceLadder

unfoldable pub init : ℤ → ℕ → ℕ → OrderBook
init anchor_price band_radius pool_capacity = record {
  pool = Pool.init pool_capacity;
  bids = Ladder.init buy anchor_price band_radius;
  asks = Ladder.init sell anchor_price band_radius;
}

abbrev pub ladder : OrderBook → Side → PriceLadder
ladder b buy = b.bids
ladder b sell = b.asks

abbrev pub set_ladder : OrderBook → Side → PriceLadder → OrderBook
set_ladder b buy ld = record b { bids = ld }
set_ladder b sell ld = record b { asks = ld }

abbrev pub set_slots : OrderBook → Slots → OrderBook
set_slots b s = record b { pool = record (b.pool) { slots = s } }

-- the state after an operation on one side's ladder
abbrev pub with_ladder : OrderBook → Side → PriceLadder × Slots → OrderBook
with_ladder b side (ld, s) = set_ladder (set_slots b s) side ld

abbrev pub free_slot : OrderBook → ℕ → OrderBook
free_slot b i = record b { pool = free b.pool i }

unfoldable pub crosses : Side → ℤ → ℤ → Bool
crosses buy limit_price level_price = leb_ℤ level_price limit_price
crosses sell limit_price level_price = leb_ℤ limit_price level_price

-- the limit that a market order sweeps with
unfoldable pub sweep_limit : Side → OrderType → ℤ → ℤ
sweep_limit side type price =
    if not (is_market type)
    then price
    else elim side [ buy ↦ pos (2 ^ 63 - 1) | sell ↦ negsuc (2 ^ 63 - 1) ]

-- The last branch of a fill: a maker that is filled leaves the book, any other keeps its place with
-- less remaining.
unfoldable pub settle : OrderBook → Side → ℤ → ℕ → ℕ → ℕ → OrderBook
settle b side level_px maker_idx fill maker_left =
    if maker_left == 0
    then free_slot (with_ladder b side (remove_order (ladder b side) b.pool.slots maker_idx))
        maker_idx
    else (let ld = ladder b side in
        let level = level_at ld level_px in
        let slots' =
          update b.pool.slots maker_idx
            (record (b.pool.slots maker_idx) { remaining = maker_left }) in
        let level' = record level { total_qty = (level.total_qty + 2 ^ 64 - fill) % 2 ^ 64 } in
        with_ladder b side (set_level_at ld level_px level', slots'))

-- what a sweep or an `add` gives: its result, the book after it, and its events
abbrev pub Outcome : Type 0 → Type 0
Outcome A = Option (A × OrderBook × List Event)

abbrev pub prepend {ℓ} :
    {A : Type ℓ} {B : Type 0}
    → List Event
    → Option (A × B × List Event)
    → Option (A × B × List Event)
prepend events none = none
prepend events (some (a, b, rest)) = some (a, b, events ++ rest)

-- the negation of the loop's condition and the `break` that follows it
unfoldable pub stops : PriceLadder → Side → ℤ → ℕ → Bool
stops ld taker_side limit_price remaining =
    (remaining == 0) || is_side_empty ld || not (crosses taker_side limit_price (best_price ld))

-- The maker-then-taker pair of a fill of `fill` against `maker`.
unfoldable pub fill_events : Order → Side → ℕ → ℕ → ℕ → List Event
fill_events maker taker_side fill remaining taker_id =
    traded_event maker.side fill (maker.remaining - fill) maker.price_ticks maker.order_id
    ∷ traded_event taker_side fill remaining maker.price_ticks taker_id
    ∷ []

-- `Match`. A fill is at most what the taker and the maker have left, so neither subtraction wraps.
unfoldable pub match_loop : ℕ → OrderBook → Side → ℤ → ℕ → ℕ → Outcome ℕ
match_loop zero b taker_side limit_price remaining taker_id = none
match_loop (suc fuel) b taker_side limit_price remaining taker_id =
    let ld = ladder b (opposite taker_side) in
    let level_px = best_price ld in
    elim (stops ld taker_side limit_price remaining) [
      | true ↦ some (remaining, b, [])
      | false ↦ elim ((level_at ld level_px).head_idx) [
        | none ↦ none
        | some maker_idx ↦
            let maker = b.pool.slots maker_idx in
            let fill = min remaining maker.remaining in
            prepend (fill_events maker taker_side fill (remaining - fill) taker_id) (
              match_loop fuel
                (settle b (opposite taker_side) level_px maker_idx fill (maker.remaining - fill))
                taker_side limit_price (remaining - fill) taker_id)
      ]
    ]

-- Every fill but the last removes a live order, so this fuel is enough.
unfoldable pub match : OrderBook → Side → ℤ → ℕ → ℕ → Outcome ℕ
match b taker_side limit_price qty taker_id =
    match_loop (b.pool.live_count + 1) b taker_side limit_price qty taker_id

-- the fields that `add` writes into the minted slot before it rests
unfoldable pub filled_order : Order → Side → OrderType → ℤ → ℕ → ℕ → Order
filled_order o side type price qty remaining = record o {
  price_ticks = price;
  qty = qty;
  remaining = remaining;
  side = side;
  type = type;
  flags = 0;
}

unfoldable pub rest : OrderBook → ℕ → Side → OrderType → ℤ → ℕ → ℕ → OrderBook
rest b index side type price qty remaining =
    let s = b.pool.slots in
    let s' = update s index (filled_order (s index) side type price qty remaining) in
    with_ladder b side (push_order (ladder b side) s' index)

-- `add` after `Match`: the remainder rests, or it is canceled and the slot is given back.
unfoldable pub finish : OrderBook → Side → OrderType → ℤ → ℕ → ℕ → ℕ → ℕ × OrderBook × List Event
finish b side type price qty remaining id =
    if (remaining == 0) || not (is_limit type)
    then (
      id,
      free_slot b (index_of id),
      if ltb 0 remaining
          then canceled_event side remaining (order_price type price) id ∷ []
          else [],
    )
    else (id, rest b (index_of id) side type price qty remaining, [])

-- `add` after `alloc`, which gave `id`
unfoldable pub add_minted : OrderBook → Side → OrderType → ℤ → ℕ → ℕ → Outcome ℕ
add_minted b side type price qty id = elim (match b side (sweep_limit side type price) qty id) [
  | none ↦ none
  | some (remaining, b', events) ↦
      prepend (accepted_event side qty (order_price type price) id ∷ events)
        (some (finish b' side type price qty remaining id))
]

-- a reject: one event, no id, no change
abbrev pub reject : OrderBook → Side → RejectReason → ℕ → ℤ → Outcome ℕ
reject b side reason qty price =
    some (invalid_order_id, b, rejected_event side reason qty price invalid_order_id ∷ [])

unfoldable pub add : OrderBook → Side → OrderType → ℤ → ℕ → Outcome ℕ
add b side type price qty =
    let (id, pool') = alloc b.pool in
    if qty == 0
    then reject b side RejectReason.invalid_qty qty price
    else if not (is_market type) && leb_ℤ price (pos 0)
    then reject b side RejectReason.invalid_price qty price
    else if id == invalid_order_id
    then reject (record b { pool = pool' }) side RejectReason.pool_exhausted qty price
    else add_minted (record b { pool = pool' }) side type price qty id

unfoldable pub add_limit : OrderBook → Side → ℤ → ℕ → ℕ × OrderBook
add_limit b side price qty =
    let (id, pool') = alloc b.pool in
    if (qty == 0) || leb_ℤ price (pos 0)
    then (invalid_order_id, b)
    else if id == invalid_order_id
    then (invalid_order_id, record b { pool = pool' })
    else (id, rest (record b { pool = pool' }) (index_of id) side limit price qty qty)

unfoldable pub cancel : OrderBook → ℕ → Bool × OrderBook × List Event
cancel b id = elim (find b.pool id) [
  | none ↦ (false, b, rejected_event buy RejectReason.unknown_order 0 (pos 0) id ∷ [])
  | some index ↦
      let order = b.pool.slots index in
      (
        true,
        free_slot (with_ladder b order.side (remove_order (ladder b order.side) b.pool.slots index))
            index,
        canceled_event order.side order.remaining order.price_ticks id ∷ [],
      )
]
