-- ===== src/Stats/Tests.antt =====
-- The counters on concrete events.
use low_latency_orderbook.Prelude.{pos, refl, List, [], ◌∷◌}
use low_latency_orderbook.Types.{Event, buy, RejectReason}
use low_latency_orderbook.Event.{accepted_event, rejected_event, traded_event}
use low_latency_orderbook.Stats.{zero_stats}
use low_latency_orderbook.Engine.{count_events}
use low_latency_orderbook.Stats.Identities.{IsBalanced, count_events-IsBalanced}

abbrev some_events : List Event
some_events =
    accepted_event buy 5 (pos 10) 1
    ∷ traded_event buy 2 3 (pos 10) 1
    ∷ rejected_event buy RejectReason.invalid_qty 0 (pos 10) 0
    ∷ []

count_events-IsBalanced_example : IsBalanced (count_events zero_stats some_events)
unfolding IsBalanced
count_events-IsBalanced_example = count_events-IsBalanced zero_stats some_events refl
