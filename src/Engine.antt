-- ===== src/Engine.antt =====
-- include/lob/matching_engine.h: `MatchingEngine`, a book and its counters. The sink that `submit`
-- and `cancel` hand to the book counts each event and passes it on, so an operation returns the
-- events of the book, counted. `none` means that a sweep ran out of fuel.
pub mod Run
pub mod Drain
pub mod Steps
pub mod Valid
use low_latency_orderbook.Prelude.{ℕ, ℤ, Bool, Option, none, some, List, [], ◌∷◌, ◌++◌}
use low_latency_orderbook.Types.{Side, OrderType, CommandType, Command, Event}
use low_latency_orderbook.Stats.{EngineStats, zero_stats, on_new, on_cancel_request, on_event}
use low_latency_orderbook.Book
use low_latency_orderbook.Book.{OrderBook}

pub record EngineConfig : Type 0 where
  pub anchor_price : ℤ
  pub band_radius : ℕ
  pub pool_capacity : ℕ

pub record MatchingEngine : Type 0 where
  pub book : OrderBook
  pub stats : EngineStats

unfoldable pub init : EngineConfig → MatchingEngine
init cfg = record {
  book = Book.init cfg.anchor_price cfg.band_radius cfg.pool_capacity;
  stats = zero_stats;
}

-- the counting half of the sink, over the events of one operation
unfoldable pub count_events : EngineStats → List Event → EngineStats
count_events s [] = s
count_events s (e ∷ es) = count_events (on_event s e) es

abbrev pub Outcome : Type 0 → Type 0
Outcome A = Option (A × MatchingEngine × List Event)

abbrev pub counted {ℓ} :
    {A : Type ℓ}
    → EngineStats
    → Option (A × OrderBook × List Event)
    → Option (A × MatchingEngine × List Event)
counted s none = none
counted s (some (a, b, events)) =
    some (a, record { book = b; stats = count_events s events }, events)

unfoldable pub submit : MatchingEngine → Side → OrderType → ℤ → ℕ → Outcome ℕ
submit m side type price qty = counted (on_new m.stats) (Book.add m.book side type price qty)

unfoldable pub cancel : MatchingEngine → ℕ → Outcome Bool
cancel m id = counted (on_cancel_request m.stats) (some (Book.cancel m.book id))

abbrev pub drop_result {ℓ} :
    {A : Type ℓ} → Option (A × MatchingEngine × List Event) → Option (MatchingEngine × List Event)
drop_result none = none
drop_result (some (a, m, events)) = some (m, events)

abbrev pub dispatch : CommandType → MatchingEngine → Command → Option (MatchingEngine × List Event)
dispatch CommandType.new m cmd = drop_result (submit m cmd.side cmd.type cmd.price_ticks cmd.qty)
dispatch CommandType.cancel m cmd = drop_result (cancel m cmd.order_id)

unfoldable pub process : MatchingEngine → Command → Option (MatchingEngine × List Event)
process m cmd = dispatch cmd.kind m cmd

-- the commands of a script in order, with all their events
unfoldable pub process_all : MatchingEngine → List Command → Option (MatchingEngine × List Event)
process_all m [] = some (m, [])
process_all m (cmd ∷ cmds) = elim (process m cmd) [
  | none ↦ none
  | some (m', events) ↦ elim (process_all m' cmds) [
    | none ↦ none
    | some (m'', rest) ↦ some (m'', events ++ rest)
  ]
]

unfoldable pub reset_stats : MatchingEngine → MatchingEngine
reset_stats m = record m { stats = zero_stats }
