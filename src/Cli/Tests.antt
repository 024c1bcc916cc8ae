-- ===== src/Cli/Tests.antt =====
-- One command is generated and replayed.
use low_latency_orderbook.Prelude.{
  ℕ, pos, ◌+◌, ◌*◌, ◌^◌, ◌≡◌, true, Option, some, List, [], ◌∷◌, ◌++◌,
}
use low_latency_orderbook.Types.{buy, limit, CommandType, Command}
use low_latency_orderbook.Engine
use low_latency_orderbook.Book
use low_latency_orderbook.Ladder
use low_latency_orderbook.Level
use low_latency_orderbook.Map
use low_latency_orderbook.Pool
use low_latency_orderbook.Stats
use low_latency_orderbook.Workload
use low_latency_orderbook.ReplayFormat.{Ostream}
use low_latency_orderbook.ReplayFormat.RoundTrip.{file_of}
use low_latency_orderbook.Cli.Config.{set_flag-wraps}
use low_latency_orderbook.Cli.{
  Str, GenerateOptions, default_options, set_flag, band_flag, pool_flag, out_flag, ops_flag, raw_of,
}

-- "--out" "f" "--ops" "1" "--band" "4" "--pool" "8"
abbrev args : List Str
args =
    out_flag
    ∷ (102 ∷ [])
    ∷ ops_flag
    ∷ (49 ∷ [])
    ∷ band_flag
    ∷ (52 ∷ [])
    ∷ pool_flag
    ∷ (56 ∷ [])
    ∷ []

abbrev options : GenerateOptions
options = record default_options {
  out_path = 102 ∷ [];
  ops = 1;
  cfg = record (default_options.cfg) {
    engine = record (default_options.cfg.engine) { band_radius = 4; pool_capacity = 8 };
    walk_radius = 4;
  };
}

abbrev order : Command
order = record {
  kind = CommandType.new;
  side = buy;
  type = limit;
  qty = 36;
  price_ticks = pos 10013;
  order_id = 0;
}

-- a device that never fails
abbrev device : Ostream (List ℕ)
device = record { write = λ s bytes. s ++ bytes; flush = λ s. s; good = λ s. true }

abbrev create : Str → Option (List ℕ)
create path = some []

abbrev file : List ℕ
file = file_of options.cfg (raw_of order ∷ [])

set_flag-wraps_example :
    (set_flag band_flag (1 + 2 ^ 32 * 1) options ≡ set_flag band_flag 1 options)
    × (set_flag pool_flag (1 + 2 ^ 32 * 1) options ≡ set_flag pool_flag 1 options)
set_flag-wraps_example = set_flag-wraps 1 1 options
