-- ===== src/Event.antt =====
-- `MakeEvent` of include/lob/order_book.h and include/lob/naive_book.h, which are the same, and the
-- shapes of events that both books emit.
use low_latency_orderbook.Prelude.{ℕ, ℤ, pos, if◌then◌else◌}
use low_latency_orderbook.Types.{
  Side, OrderType, is_market, EventType, accepted, rejected, traded, canceled, RejectReason, Event,
}

abbrev pub make_event : EventType → Side → RejectReason → ℕ → ℕ → ℤ → ℕ → Event
make_event kind side reason qty remaining price id = record {
  kind = kind;
  side = side;
  reason = reason;
  qty = qty;
  remaining = remaining;
  price_ticks = price;
  order_id = id;
}

abbrev pub rejected_event : Side → RejectReason → ℕ → ℤ → ℕ → Event
rejected_event side reason qty price id = make_event rejected side reason qty 0 price id

abbrev pub accepted_event : Side → ℕ → ℤ → ℕ → Event
accepted_event side qty price id = make_event accepted side RejectReason.none qty qty price id

abbrev pub traded_event : Side → ℕ → ℕ → ℤ → ℕ → Event
traded_event side fill left price id = make_event traded side RejectReason.none fill left price id

abbrev pub canceled_event : Side → ℕ → ℤ → ℕ → Event
canceled_event side qty price id = make_event canceled side RejectReason.none qty 0 price id

-- `order_px`: the events of a market order carry price 0
abbrev pub order_price : OrderType → ℤ → ℤ
order_price type price = if is_market type then pos 0 else price
