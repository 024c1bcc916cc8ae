-- ===== src/Ladder/Tests.antt =====
-- The price ladder of a sell side on concrete orders: two of them in one level of the band, and one
-- in the overflow map.
use low_latency_orderbook.Prelude.{
  pos, ◌-ℤ◌, ◌+ℤ◌, has, true, ◌+◌, ◌*◌, ◌/◌, ◌≡◌, refl, none, [], ◌∷◌, arith,
}
use low_latency_orderbook.Types.{sell}
use low_latency_orderbook.Pool.{zero_order}
use low_latency_orderbook.Level.{Slots, push_back}
use low_latency_orderbook.Level.Fifo.{IsWide}
use low_latency_orderbook.Ladder.{
  PriceLadder, init, in_band, offset_of, is_better, improve_best, push_order, remove_order,
  is_side_empty, best_price,
}
use low_latency_orderbook.Ladder.Holds.{Contents, Holds, put_at, IsBest}
use low_latency_orderbook.Ladder.Start.{no_orders, init-Holds}
use low_latency_orderbook.Ladder.Push.{IsNew}
use low_latency_orderbook.Ladder.Touched.{Touched-IsWide}
use low_latency_orderbook.Ladder.Best.{best_price-IsBest}
use low_latency_orderbook.Ladder.RemoveOrder.{remove_order-Holds}
use low_latency_orderbook.Ladder.PushOrder.{push_order-Holds, push_order-Touched}

-- slots 0 and 1 at 1000, 2 and 3 at 1003, 4 and 5 at 1006
abbrev slots : Slots
slots i = record zero_order {
  price_ticks = pos (1000 + 3 * (i / 2));
  qty = 5;
  remaining = 5;
  side = sell;
  prev_idx = none;
  next_idx = none;
}

wide : IsWide slots
wide i = omega arith

abbrev start : PriceLadder
start = init sell (pos 1000) 4

start-Holds : Holds start slots no_orders []
start-Holds = init-Holds sell (pos 1000) 4 slots

first-IsNew : IsNew start slots no_orders 0
unfolding init
first-IsNew = record {
  absent = λ p. refl;
  unlinked = refl;
  side = refl;
  open_qty = omega arith;
  within_qty = omega arith;
  index = omega arith;
}

abbrev one : PriceLadder
one = (push_order start slots 0).0

abbrev one_slots : Slots
one_slots = (push_order start slots 0).1

abbrev one_order : Contents
one_order = put_at no_orders (pos 1000) (0 ∷ [])

one-Holds : Holds one one_slots one_order (0 ∷ [])
unfolding in_band init ◌-ℤ◌ ◌+ℤ◌
one-Holds = push_order-Holds start-Holds wide 0 first-IsNew

one-wide : IsWide one_slots
one-wide = Touched-IsWide (push_order-Touched start-Holds wide 0 first-IsNew) wide

second-IsNew : IsNew one one_slots one_order 1
unfolding push_order in_band init ◌-ℤ◌ ◌+ℤ◌ push_back
second-IsNew = record {
  absent = λ p. ground arith;
  unlinked = refl;
  side = refl;
  open_qty = omega arith;
  within_qty = omega arith;
  index = omega arith;
}

abbrev two : PriceLadder
two = (push_order one one_slots 1).0

abbrev two_slots : Slots
two_slots = (push_order one one_slots 1).1

abbrev two_orders : Contents
two_orders = put_at one_order (pos 1000) (0 ∷ 1 ∷ [])

two-Holds : Holds two two_slots two_orders (1 ∷ 0 ∷ [])
unfolding push_order in_band init ◌-ℤ◌ ◌+ℤ◌ push_back
two-Holds = push_order-Holds one-Holds one-wide 1 second-IsNew

two-wide : IsWide two_slots
two-wide = Touched-IsWide (push_order-Touched one-Holds one-wide 1 second-IsNew) one-wide

push_order-Holds_example :
    Holds
      (push_order one one_slots 1).0
      (push_order one one_slots 1).1
      (put_at one_order (pos 1000) (0 ∷ 1 ∷ []))
      (1 ∷ 0 ∷ [])
unfolding push_order in_band init ◌-ℤ◌ ◌+ℤ◌ push_back
push_order-Holds_example = push_order-Holds one-Holds one-wide 1 second-IsNew

first_rests : has 0 (two_orders (pos 1000)) ≡ true
first_rests = refl

-- the first order leaves, and the second stays
remove_order-Holds_example :
    Holds
      (remove_order two two_slots 0).0
      (remove_order two two_slots 0).1
      (put_at two_orders (pos 1000) (1 ∷ []))
      (1 ∷ [])
unfolding push_order in_band init offset_of ◌-ℤ◌ ◌+ℤ◌ push_back
remove_order-Holds_example = remove_order-Holds two-Holds two-wide 0 refl

best_price-IsBest_example : IsBest sell two_orders (best_price two)
unfolding push_order in_band init offset_of improve_best is_better is_side_empty ◌-ℤ◌ ◌+ℤ◌ push_back
best_price-IsBest_example = best_price-IsBest two-Holds refl
