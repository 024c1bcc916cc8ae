-- ===== src/Stats/Identities.antt =====
-- The identities that `EngineStats` states of its counters, over any sequence of events.
use low_latency_orderbook.Prelude.{◌+◌, ◌%◌, ◌^◌, ◌≡◌, List, [], ◌∷◌, arith}
use low_latency_orderbook.Types.{
  Event, RejectReason, EventType, accepted, rejected, traded, canceled, unknown_order, invalid_qty,
  invalid_price, pool_exhausted, none,
}
use low_latency_orderbook.Engine.{count_events}
use low_latency_orderbook.Stats.{EngineStats, inc, on_event, on_kind, on_reject}

-- `events == accepted + rejected + traded_events + canceled`, modulo the counters' width
unfoldable pub IsBalanced : EngineStats → Type 0
IsBalanced s = s.events ≡ (s.accepted + s.rejected + s.traded_events + s.canceled) % 2 ^ 64

on_reject-IsBalanced :
    (k : RejectReason) (s : EngineStats) → IsBalanced s → IsBalanced (on_reject k s)
unfolding on_reject IsBalanced
on_reject-IsBalanced unknown_order s v = v
on_reject-IsBalanced invalid_qty s v = v
on_reject-IsBalanced invalid_price s v = v
on_reject-IsBalanced pool_exhausted s v = v
on_reject-IsBalanced none s v = v

-- the counter of the kind follows the counter of all events
on_kind-IsBalanced :
    (k : EventType) (e : Event) (s : EngineStats)
    → s.events ≡ (s.accepted + s.rejected + s.traded_events + s.canceled + 1) % 2 ^ 64
    → IsBalanced (on_kind k e s)
unfolding on_kind IsBalanced
on_kind-IsBalanced accepted e s v = omega (arith, v)
on_kind-IsBalanced rejected e s v =
    on_reject-IsBalanced e.reason (record s { rejected = inc s.rejected }) (omega (arith, v))
on_kind-IsBalanced traded e s v = omega (arith, v)
on_kind-IsBalanced canceled e s v = omega (arith, v)

-- `events == accepted + rejected + traded_events + canceled` is kept by every event.
pub on_event-IsBalanced : (s : EngineStats) (e : Event) → IsBalanced s → IsBalanced (on_event s e)
unfolding on_event IsBalanced
on_event-IsBalanced s e v =
    on_kind-IsBalanced e.kind e (record s { events = inc s.events }) (omega (arith, v))

-- The counters stay balanced over any run of events.
pub count_events-IsBalanced :
    (s : EngineStats) (events : List Event) → IsBalanced s → IsBalanced (count_events s events)
unfolding count_events
count_events-IsBalanced s [] v = v
count_events-IsBalanced s (e ∷ events) v =
    count_events-IsBalanced (on_event s e) events (on_event-IsBalanced s e v)
