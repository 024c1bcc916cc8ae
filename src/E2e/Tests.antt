-- ===== src/E2e/Tests.antt =====
-- A file with two commands, and a run that warms up with the first of them.
use low_latency_orderbook.Prelude.{
  pos, ◌≡◌, refl, true, false, none, some, List, [], ◌∷◌, if◌then◌else◌, arith,
}
use low_latency_orderbook.Types.{
  buy, sell, OrderType, CommandType, Command, EventType, RejectReason, Event,
}
use low_latency_orderbook.Engine.{MatchingEngine, process_all, reset_stats}
use low_latency_orderbook.Engine
use low_latency_orderbook.Latency.{new_recorder}
use low_latency_orderbook.Book.Rests.{init-Represents}
use low_latency_orderbook.Logger
use low_latency_orderbook.Workload.{WorkloadConfig}
use low_latency_orderbook.ReplayFormat.{default_config, no_error}
use low_latency_orderbook.ReplayFormat.{RawCommand, ReplayReadResult}
use low_latency_orderbook.Cli.{raw_of, validate_engine_config}
use low_latency_orderbook.E2e.{
  OpClass, E2eOptions, EngineRun, accepted, validate_commands, measure_batches,
}
use low_latency_orderbook.E2e.Commands.{all_known, known_in_front, validate_commands-first, verdict}
use low_latency_orderbook.E2e.Window.{measured, count_of, measure_batches-window}

abbrev ask : Command
ask = record {
  kind = CommandType.new;
  side = sell;
  type = OrderType.limit;
  qty = 5;
  price_ticks = pos 1001;
  order_id = 0;
}

abbrev unknown_cancel : Command
unknown_cancel = record ask { kind = CommandType.cancel; order_id = 7 }

abbrev bad : RawCommand
bad = record (raw_of ask) { type = 9 }

-- the second command is bad
validate_commands-first_example : validate_commands (raw_of ask ∷ bad ∷ []) ≡ (
    if all_known (raw_of ask ∷ bad ∷ [])
    then none
    else some (known_in_front (raw_of ask ∷ bad ∷ [])))
validate_commands-first_example = validate_commands-first (raw_of ask ∷ bad ∷ [])

abbrev start : EngineRun
start = record {
  recorders = λ i. new_recorder;
  processed = 0;
  engine = Engine.init (record { anchor_price = pos 1000; band_radius = 4; pool_capacity = 8 });
  logger = Logger.init 4 (λ i. record {
    timestamp = 0;
    order_id = 0;
    price_ticks = pos 0;
    qty = 0;
    kind = EventType.accepted;
    side = buy;
    reason = RejectReason.none;
  });
  readings = 0;
}

measure_batches-window_example :
    (m1 : MatchingEngine) × (events1 : List Event) × (run' : EngineRun) × (events2 : List Event)
    × (process_all start.engine (ask ∷ []) ≡ some (m1, events1))
    × (measure_batches (λ i. i) 1 start ((ask ∷ unknown_cancel ∷ []) ∷ []) ≡ some run')
    × (process_all (reset_stats m1) (unknown_cancel ∷ []) ≡ some (run'.engine, events2))
    × (run'.processed ≡ 2)
    × ((k : OpClass) → measured run'.recorders k ≡ count_of k (unknown_cancel ∷ []))
unfolding Engine.init
measure_batches-window_example =
    measure_batches-window (λ i. i) start (ask ∷ []) unknown_cancel []
      ((ask ∷ unknown_cancel ∷ []) ∷ []) refl (init-Represents (pos 1000) 4 8 (omega arith))
      (omega arith) (omega arith) refl (λ k. refl) (omega arith)

abbrev options : E2eOptions
options = record {
  file = 102 ∷ [];
  log_path = [];
  warmup = 1;
  warmup_given = true;
  pin_cpu = pos 0;
  csv = false;
}

abbrev config : WorkloadConfig
config = record default_config {
  engine = record (default_config.engine) { anchor_price = pos 1000 };
}

abbrev loaded : ReplayReadResult
loaded = record { error = no_error; config = config; commands = raw_of ask ∷ raw_of ask ∷ [] }

valid_config : validate_engine_config config.engine ≡ true
unfolding validate_engine_config
valid_config = refl

starts : verdict options config loaded.commands ≡ accepted loaded 1
starts = rw valid_config refl
