-- ===== src/Engine/Valid.antt =====
-- The engine on a valid book: every command is processed, and the book stays valid.
use low_latency_orderbook.Prelude.{◌^◌, ◌<◌, ◌≡◌, refl, Option, some, List, [], ◌∷◌, ◌++◌}
use low_latency_orderbook.Types.{CommandType, Command, Event}
use low_latency_orderbook.Stats.{EngineStats}
use low_latency_orderbook.Stats
use low_latency_orderbook.Book
use low_latency_orderbook.Book.Valid.{Sides}
use low_latency_orderbook.Book.Add.{Represents}
use low_latency_orderbook.Book.AddReturns.{add-Represents}
use low_latency_orderbook.Book.Rests.{cancel-Represents}
use low_latency_orderbook.Engine.Steps.{process_all-cons}
use low_latency_orderbook.Engine.{
  MatchingEngine, submit, cancel, process, process_all, count_events, dispatch,
}

-- commands or events were processed, and the engine's book is valid
abbrev pub Processed : Option (MatchingEngine × List Event) → Type 0
Processed out =
    (m : MatchingEngine) × (events : List Event) × (lists : Sides) × (out ≡ some (m, events))
    × Represents m.book lists

abbrev pub AreNarrow : List Command → Type 0
AreNarrow [] = Unit
AreNarrow (cmd ∷ cmds) = (cmd.qty < 2 ^ 32) × AreNarrow cmds

dispatch-Processed :
    (kind : CommandType) (m : MatchingEngine) {c : Sides} (r : Represents m.book c) (cmd : Command)
    → cmd.qty < 2 ^ 32
    → Processed (dispatch kind m cmd)
unfolding submit cancel
dispatch-Processed CommandType.new m r cmd narrow =
    let (id, b', events, returns, (lists, after)) =
      add-Represents r cmd.side cmd.type cmd.price_ticks cmd.qty narrow in
    (
      record m { book = b'; stats = count_events (Stats.on_new m.stats) events },
      events,
      lists,
      rw returns refl,
      after,
    )
dispatch-Processed CommandType.cancel m r cmd narrow =
    let (ok, b', events) = Book.cancel m.book cmd.order_id in
    (
      record m { book = b'; stats = count_events (Stats.on_cancel_request m.stats) events },
      events,
      _,
      refl,
      (cancel-Represents r cmd.order_id).0,
    )

-- An engine with a valid book processes any commands of 32-bit quantities: none of them gets stuck in
-- a sweep, and the book is valid afterwards.
pub process_all-Processed :
    (m : MatchingEngine) {c : Sides} (r : Represents m.book c) (cmds : List Command)
    → AreNarrow cmds
    → Processed (process_all m cmds)
unfolding process_all process
process_all-Processed m {c} r [] narrow = (m, [], c, refl, r)
process_all-Processed m r (cmd ∷ cmds) narrow =
    let (m', events, lists, e, r') = dispatch-Processed cmd.kind m r cmd narrow.0 in
    let (m'', rest, lists', e', r'') = process_all-Processed m' r' cmds narrow.1 in
    (m'', events ++ rest, lists', process_all-cons m cmd cmds e e', r'')
