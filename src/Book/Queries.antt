-- ===== src/Book/Queries.antt =====
-- The query surface of include/lob/order_book.h.
use low_latency_orderbook.Prelude.{ℕ, ℤ, Bool, true, false, Option, none, some, if◌then◌else◌}
use low_latency_orderbook.Types.{Side}
use low_latency_orderbook.Pool.{find}
use low_latency_orderbook.Level.{PriceLevel}
use low_latency_orderbook.Ladder.{find_level, is_side_empty, best_price}
use low_latency_orderbook.Book.{OrderBook, ladder}

unfoldable pub best_bid : OrderBook → Option ℤ
best_bid b = if is_side_empty b.bids then none else some (best_price b.bids)

unfoldable pub best_ask : OrderBook → Option ℤ
best_ask b = if is_side_empty b.asks then none else some (best_price b.asks)

abbrev pub qty_of : Option PriceLevel → ℕ
qty_of none = 0
qty_of (some level) = level.total_qty

abbrev pub count_of : Option PriceLevel → ℕ
count_of none = 0
count_of (some level) = level.order_count

unfoldable pub qty_at : OrderBook → Side → ℤ → ℕ
qty_at b side price = qty_of (find_level (ladder b side) price)

unfoldable pub orders_at : OrderBook → Side → ℤ → ℕ
orders_at b side price = count_of (find_level (ladder b side) price)

unfoldable pub open_orders : OrderBook → ℕ
open_orders b = b.pool.live_count

unfoldable pub contains : OrderBook → ℕ → Bool
contains b id = elim (find b.pool id) [ none ↦ false | some _ ↦ true ]
