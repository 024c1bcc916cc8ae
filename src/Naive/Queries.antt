-- ===== src/Naive/Queries.antt =====
-- The query surface of include/lob/naive_book.h. A quantity is a 32-bit number.
use low_latency_orderbook.Prelude.{
  ℕ, ℤ, ◌+◌, ◌%◌, ◌^◌, Bool, true, false, Option, none, some, [], ◌∷◌, length,
}
use low_latency_orderbook.Types.{Side}
use low_latency_orderbook.Map.{PriceMap, lookup, lookup_id}
use low_latency_orderbook.Naive.{NaiveBook, Level, levels, level_or_nil}

abbrev pub first_price : PriceMap Level → Option ℤ
first_price [] = none
first_price ((price, level) ∷ m) = some price

unfoldable pub best_bid : NaiveBook → Option ℤ
best_bid b = first_price b.bids

unfoldable pub best_ask : NaiveBook → Option ℤ
best_ask b = first_price b.asks

-- `LevelQty`, from the sum `total` on
unfoldable pub level_qty : Level → ℕ → ℕ
level_qty [] total = total
level_qty (order ∷ level) total = level_qty level ((total + order.remaining) % 2 ^ 32)

unfoldable pub qty_at : NaiveBook → Side → ℤ → ℕ
qty_at b side price = level_qty (level_or_nil (lookup price (levels b side))) 0

unfoldable pub orders_at : NaiveBook → Side → ℤ → ℕ
orders_at b side price = length (level_or_nil (lookup price (levels b side)))

unfoldable pub open_orders : NaiveBook → ℕ
open_orders b = length b.index

unfoldable pub contains : NaiveBook → ℕ → Bool
contains b id = elim (lookup_id id b.index) [ none ↦ false | some loc ↦ true ]
