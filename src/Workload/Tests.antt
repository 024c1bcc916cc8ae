-- ===== src/Workload/Tests.antt =====
-- A generator with the default mix of orders, around the price 1000.
use low_latency_orderbook.Prelude.{pos, leb_ℤ, ◌+ℤ◌, ◌-ℤ◌, ◌≤◌, ◌^◌, ◌≡◌, refl, true, arith}
use low_latency_orderbook.Types.{limit}
use low_latency_orderbook.Pool.{alloc, minted, make_order_id, next_generation}
use low_latency_orderbook.Pool
use low_latency_orderbook.Book.{OrderBook}
use low_latency_orderbook.Book
use low_latency_orderbook.Book.Rests.{init-Represents}
use low_latency_orderbook.Workload.{
  WorkloadConfig, WorkloadGenerator, init, make_add, maybe_step_mid,
}
use low_latency_orderbook.Workload.Draws.{Accepted, make_add-acceptable, maybe_step_mid_bounds}

abbrev config : WorkloadConfig
config = record {
  engine = record { anchor_price = pos 1000; band_radius = 4; pool_capacity = 8 };
  seed = 1;
  limit_weight = 60;
  market_weight = 5;
  ioc_weight = 15;
  cancel_weight = 20;
  min_qty = 1;
  max_qty = 100;
  max_price_offset = 4;
  cross_one_in = 4;
  walk_one_in = 4;
  max_walk_step = 2;
  walk_radius = 4;
}

abbrev generator : WorkloadGenerator
generator = init config

abbrev book : OrderBook
book = Book.init (pos 1000) 4 8

slot_free : (alloc book.pool).0 ≡ 2 ^ 32
unfolding Book.init alloc minted make_order_id next_generation Pool.init
slot_free = refl

make_add-acceptable_example :
    let (cmd, g') = make_add generator limit in (1 ≤ cmd.qty) × (cmd.qty ≤ 100) × Accepted book cmd
unfolding init
make_add-acceptable_example =
    make_add-acceptable generator limit (init-Represents (pos 1000) 4 8 (omega arith))
      (omega (arith, slot_free)) (omega arith) (omega arith) (omega arith)

maybe_step_mid_bounds_example :
    (leb_ℤ generator.walk_lo (maybe_step_mid generator).mid ≡ true)
    × (leb_ℤ (maybe_step_mid generator).mid generator.walk_hi ≡ true)
unfolding init ◌+ℤ◌ ◌-ℤ◌
maybe_step_mid_bounds_example = maybe_step_mid_bounds generator refl refl refl
