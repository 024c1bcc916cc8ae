-- ===== src/Tests.antt =====
-- Runs of whole scripts, in the engine and in the reference book.
use low_latency_orderbook.Ring
use low_latency_orderbook.Ring.{Ring, copy_out, is_power_of_two}
use low_latency_orderbook.Book.Valid.{Sides}
use low_latency_orderbook.Book.Add.{Represents}
use low_latency_orderbook.Ring.Valid.{IsValid, init-IsValid}
use low_latency_orderbook.Ring.Refine.{contents}
use low_latency_orderbook.Engine.Run.{Schedule, arrivals, run}
use low_latency_orderbook.Engine.Drain.{run-drains}
use low_latency_orderbook.Engine.Valid.{Processed, process_all-Processed}
use low_latency_orderbook.Book.Rests.{init-Represents}
use mathlib.Core.Bool.{false≢true}
use low_latency_orderbook.Prelude.{
  true, refl, false, ◌≡◌, ◌++◌, length, arith, ℕ, pos, ◌+◌, ◌*◌, ◌^◌, Option, none, some, List, [],
  ◌∷◌,
}
use low_latency_orderbook.Types.{
  Side, buy, sell, OrderType, limit, market, CommandType, Command, Event,
}
use low_latency_orderbook.Engine
use low_latency_orderbook.Engine.{MatchingEngine, process_all}

abbrev new_order : Side → OrderType → ℕ → ℕ → Command
new_order side type price qty = record {
  kind = CommandType.new;
  side = side;
  type = type;
  qty = qty;
  price_ticks = pos price;
  order_id = 0;
}

abbrev cancel_order : ℕ → ℕ → Command
cancel_order generation index = record {
  kind = CommandType.cancel;
  side = buy;
  type = limit;
  qty = 0;
  price_ticks = pos 0;
  order_id = generation * 2 ^ 32 + index;
}

abbrev engine : MatchingEngine
engine = Engine.init (record { anchor_price = pos 1000; band_radius = 4; pool_capacity = 8 })

abbrev script : List Command
script =
    new_order sell limit 1001 5
    ∷ new_order sell limit 1001 3
    ∷ new_order sell limit 1002 4
    ∷ new_order sell limit 1100 6
    ∷ new_order buy limit 1002 10
    ∷ cancel_order 1 2
    ∷ cancel_order 1 0
    ∷ new_order buy market 0 9
    ∷ []

run_script : Option (MatchingEngine × List Event)
run_script = Engine.process_all engine script

events : Option (List Event)
events = elim run_script [ none ↦ none | some (m, es) ↦ some es ]

abbrev commands : Ring Command
commands = Ring.init 4 (λ i. new_order buy limit 1 1)

power_of_two : is_power_of_two 64 4 ≡ true
unfolding is_power_of_two
power_of_two = refl

commands-IsValid : IsValid commands
commands-IsValid =
    init-IsValid 4 (λ i. new_order buy limit 1 1) (omega arith) power_of_two (omega arith)

-- a sale before the first pop, a buy between that pop and the load of `stop`
abbrev schedule : Schedule
schedule = (new_order sell limit 1001 5 ∷ [], new_order buy limit 1001 2 ∷ []) ∷ []

run-drains_example :
    (m' : MatchingEngine) × (events : List Event) × (lists : Sides) × (run 5 engine commands false
        schedule
      ≡ some (length (contents commands ++ arrivals schedule), m', events))
    × (process_all engine (contents commands ++ arrivals schedule) ≡ some (m', events))
    × Represents m'.book lists
unfolding Ring.init copy_out Engine.init
run-drains_example =
    run-drains 5 engine commands false schedule (init-Represents (pos 1000) 4 8 (omega arith))
      commands-IsValid (omega arith) (omega arith) (λ e. absurd (false≢true e)) (omega arith)
      (omega arith)

process_all-Processed_example : Processed (process_all engine script)
unfolding Engine.init
process_all-Processed_example =
    process_all-Processed engine (init-Represents (pos 1000) 4 8 (omega arith)) script (omega arith)
