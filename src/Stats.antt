-- ===== src/Stats.antt =====
-- include/lob/stats.h: `EngineStats`, the counters of the engine. Every counter is a 64-bit number.
pub mod Identities
mod Tests
use low_latency_orderbook.Prelude.{ℕ, ◌+◌, ◌/◌, ◌%◌, ◌^◌}
use low_latency_orderbook.Types.{
  EventType, accepted, rejected, traded, canceled, RejectReason, none, invalid_qty, invalid_price,
  pool_exhausted, unknown_order, Event,
}

pub record EngineStats : Type 0 where
  pub news : ℕ
  pub cancel_requests : ℕ
  pub events : ℕ
  pub accepted : ℕ
  pub rejected : ℕ
  pub rejected_unknown_order : ℕ
  pub rejected_invalid : ℕ
  pub rejected_pool_exhausted : ℕ
  pub traded_events : ℕ
  pub traded_qty_both_sides : ℕ
  pub canceled : ℕ

-- a fresh block, which `reset` assigns
abbrev pub zero_stats : EngineStats
zero_stats = record {
  news = 0;
  cancel_requests = 0;
  events = 0;
  accepted = 0;
  rejected = 0;
  rejected_unknown_order = 0;
  rejected_invalid = 0;
  rejected_pool_exhausted = 0;
  traded_events = 0;
  traded_qty_both_sides = 0;
  canceled = 0;
}

unfoldable pub reset : EngineStats → EngineStats
reset s = zero_stats

-- `++counter`
abbrev pub inc : ℕ → ℕ
inc n = (n + 1) % 2 ^ 64

unfoldable pub on_new : EngineStats → EngineStats
on_new s = record s { news = inc s.news }

unfoldable pub on_cancel_request : EngineStats → EngineStats
on_cancel_request s = record s { cancel_requests = inc s.cancel_requests }

-- the inner `switch`, on the reason of a reject
unfoldable pub on_reject : RejectReason → EngineStats → EngineStats
on_reject unknown_order s = record s { rejected_unknown_order = inc s.rejected_unknown_order }
on_reject invalid_qty s = record s { rejected_invalid = inc s.rejected_invalid }
on_reject invalid_price s = record s { rejected_invalid = inc s.rejected_invalid }
on_reject pool_exhausted s = record s { rejected_pool_exhausted = inc s.rejected_pool_exhausted }
on_reject none s = s

-- the outer `switch`, on the kind
unfoldable pub on_kind : EventType → Event → EngineStats → EngineStats
on_kind accepted e s = record s { accepted = inc s.accepted }
on_kind rejected e s = on_reject e.reason (record s { rejected = inc s.rejected })
on_kind traded e s = record s {
  traded_events = inc s.traded_events;
  traded_qty_both_sides = (s.traded_qty_both_sides + e.qty) % 2 ^ 64;
}
on_kind canceled e s = record s { canceled = inc s.canceled }

unfoldable pub on_event : EngineStats → Event → EngineStats
unfolding on_kind on_reject
on_event s e = on_kind e.kind e (record s { events = inc s.events })

unfoldable pub commands : EngineStats → ℕ
commands s = (s.news + s.cancel_requests) % 2 ^ 64

unfoldable pub fills : EngineStats → ℕ
fills s = s.traded_events / 2

unfoldable pub traded_qty : EngineStats → ℕ
traded_qty s = s.traded_qty_both_sides / 2
