-- ===== src/Engine/Run.antt =====
-- `MatchingEngine::run`, beside a producer. A schedule gives the commands that the producer pushes
-- before each pop of the loop, and those it pushes between that pop and the load of `stop`. The
-- producer sets `stop` after its last push, so the flag is up where nothing of the schedule is left.
use low_latency_orderbook.Prelude.{
  ℕ, zero, suc, Bool, true, false, ◌+◌, Option, none, some, List, [], ◌∷◌, ◌++◌, length,
}
use low_latency_orderbook.Types.{Command, Event}
use low_latency_orderbook.Map.{is_nil}
use low_latency_orderbook.Ring.{Ring, try_pop_batch}
use low_latency_orderbook.Ring.Produce.{push_all}
use low_latency_orderbook.Engine.{MatchingEngine, process_all}

abbrev pub engine_batch_size : ℕ
engine_batch_size = 256

abbrev pub Schedule : Type 0
Schedule = List (List Command × List Command)

abbrev pub before_pop : Schedule → List Command
before_pop [] = []
before_pop ((before, mid) ∷ rest) = before

abbrev pub after_pop : Schedule → List Command
after_pop [] = []
after_pop ((before, mid) ∷ rest) = mid

abbrev pub later : Schedule → Schedule
later [] = []
later (pass ∷ rest) = rest

abbrev pub arrivals : Schedule → List Command
arrivals [] = []
arrivals ((before, mid) ∷ rest) = before ++ (mid ++ arrivals rest)

-- the number of commands processed, the engine after them, and their events
abbrev pub RunOutcome : Type 0
RunOutcome = Option (ℕ × MatchingEngine × List Event)

abbrev pub add_batch : ℕ → List Event → RunOutcome → RunOutcome
add_batch n events none = none
add_batch n events (some (processed, m, rest)) = some (n + processed, m, events ++ rest)

-- The loop, from a pop on; a pass is one unit of fuel, since an idle loop spins on.
unfoldable pub run : ℕ → MatchingEngine → Ring Command → Bool → Schedule → RunOutcome
run zero m commands stopping s = none
run (suc fuel) m commands stopping s =
    let (batch, r) = try_pop_batch engine_batch_size (push_all (before_pop s) commands) in
    let commands' = push_all (after_pop s) r in
    elim (process_all m batch) [
      | none ↦ none
      | some (m', events) ↦ add_batch (length batch) events (elim (is_nil batch) [
        | false ↦ run fuel m' commands' stopping (later s)
        | true ↦ elim stopping [
          | true ↦ some (0, m', [])
          | false ↦ run fuel m' commands' (is_nil (later s)) (later s)
        ]
      ])
    ]
