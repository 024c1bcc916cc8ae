-- ===== src/Cli.antt =====
-- tools/lob_replay_lib.h: the command line tool that generates and runs replay files. A string is its
-- bytes. The file system is a parameter; the texts that are printed are left out, and a run is its
-- exit code with what it made. `none` means that a sweep ran out of fuel, or that a command has an
-- enumerator that the source does not have.
pub mod Config
pub mod Generate
mod Tests
use low_latency_orderbook.Prelude.{
  ℕ, zero, suc, ℤ, pos, leb_ℤ, ◌+◌, ◌-◌, ◌*◌, ◌%◌, ◌^◌, Bool, true, false, not, ◌&&◌, ◌||◌, Option,
  none, some, List, [], ◌∷◌, map, ◌==◌, ltb, leb, if◌then◌else◌, ◌>>=◌,
}
use low_latency_orderbook.Types.{
  Side, buy, sell, OrderType, limit, market, ioc, CommandType, Command,
}
use low_latency_orderbook.Engine.{EngineConfig, MatchingEngine, process_all}
use low_latency_orderbook.Engine
use low_latency_orderbook.Workload.{WorkloadConfig, generate}
use low_latency_orderbook.Workload
use low_latency_orderbook.ReplayFormat.{
  of_u64, same_bytes, RawCommand, Ostream, write_replay, no_error, ReplayReadError,
  ReplayReadResult, default_config, read_replay,
}

-- `std::string`
abbrev pub Str : Type 0
Str = List ℕ

abbrev pub is_empty : Str → Bool
is_empty [] = true
is_empty (x ∷ s) = false

-- the exit codes `kExitOk`, `kExitRuntime` and `kExitUsage`
abbrev pub exit_ok : ℕ
exit_ok = 0

abbrev pub exit_runtime : ℕ
exit_runtime = 1

abbrev pub exit_usage : ℕ
exit_usage = 2

-- `std::from_chars`: the number of the digits in front, and what follows them
unfoldable pub from_chars : Str → ℕ → ℕ × Str
from_chars [] value = (value, [])
from_chars (x ∷ s) value =
    let rest = from_chars s (value * 10 + (x - 48)) in
    if leb 48 x && leb x 57 then rest else (value, x ∷ s)

-- the number for `out`, if `parse_u64` returns true
unfoldable pub parse_u64 : Str → Option ℕ
parse_u64 s =
    let (value, rest) = from_chars s 0 in
    if is_empty s || not (is_empty rest) || leb (2 ^ 64) value then none else some value

abbrev pub max_band_radius : ℕ
max_band_radius = 2 ^ 20

abbrev pub max_pool_capacity : ℕ
max_pool_capacity = 2 ^ 24

unfoldable pub validate_engine_config : EngineConfig → Bool
validate_engine_config cfg =
    if leb_ℤ cfg.anchor_price (pos 0)
    then false
    else if (cfg.band_radius == 0) || ltb max_band_radius cfg.band_radius
    then false
    else if (cfg.pool_capacity == 0) || ltb max_pool_capacity cfg.pool_capacity
    then false
    else true

-- the locals of `run_generate`
pub record GenerateOptions : Type 0 where
  pub out_path : Str
  pub ops : ℕ
  pub cfg : WorkloadConfig

abbrev pub default_options : GenerateOptions
default_options = record {
  out_path = [];
  ops = 100000;
  cfg = record default_config {
    engine = record (default_config.engine) { anchor_price = pos 10000 };
  };
}

-- "--out", "--ops", "--seed", "--anchor", "--band" and "--pool"
abbrev pub out_flag : Str
out_flag = 45 ∷ 45 ∷ 111 ∷ 117 ∷ 116 ∷ []

abbrev pub ops_flag : Str
ops_flag = 45 ∷ 45 ∷ 111 ∷ 112 ∷ 115 ∷ []

abbrev pub seed_flag : Str
seed_flag = 45 ∷ 45 ∷ 115 ∷ 101 ∷ 101 ∷ 100 ∷ []

abbrev pub anchor_flag : Str
anchor_flag = 45 ∷ 45 ∷ 97 ∷ 110 ∷ 99 ∷ 104 ∷ 111 ∷ 114 ∷ []

abbrev pub band_flag : Str
band_flag = 45 ∷ 45 ∷ 98 ∷ 97 ∷ 110 ∷ 100 ∷ []

abbrev pub pool_flag : Str
pool_flag = 45 ∷ 45 ∷ 112 ∷ 111 ∷ 111 ∷ 108 ∷ []

-- a numeric flag; the casts to 32 bits drop the high bits
unfoldable pub set_flag : Str → ℕ → GenerateOptions → Option GenerateOptions
set_flag flag parsed o =
    if same_bytes flag ops_flag
    then some (record o { ops = parsed })
    else if same_bytes flag seed_flag
    then some (record o { cfg = record (o.cfg) { seed = parsed } })
    else if same_bytes flag anchor_flag
    then some (record o {
      cfg = record (o.cfg) { engine = record (o.cfg.engine) { anchor_price = of_u64 parsed } };
    })
    else if same_bytes flag band_flag
    then some (record o {
      cfg = record (o.cfg) {
        engine = record (o.cfg.engine) { band_radius = parsed % 2 ^ 32 };
        walk_radius = parsed % 2 ^ 32;
      };
    })
    else if same_bytes flag pool_flag
    then some (record o {
      cfg = record (o.cfg) { engine = record (o.cfg.engine) { pool_capacity = parsed % 2 ^ 32 } };
    })
    else none

-- a flag and its value
unfoldable pub set_option : Str → Str → GenerateOptions → Option GenerateOptions
set_option flag value o =
    if same_bytes flag out_flag
    then some (record o { out_path = value })
    else elim (parse_u64 value) [ none ↦ none | some parsed ↦ set_flag flag parsed o ]

-- the loop over the arguments; `none` is a usage error
unfoldable pub parse_generate : List Str → GenerateOptions → Option GenerateOptions
parse_generate [] o = some o
parse_generate (flag ∷ []) o = none
parse_generate (flag ∷ value ∷ args) o = elim (set_option flag value o) [
  | none ↦ none
  | some o' ↦ parse_generate args o'
]

-- a command on disk
abbrev pub side_byte : Side → ℕ
side_byte buy = 0
side_byte sell = 1

abbrev pub type_byte : OrderType → ℕ
type_byte limit = 0
type_byte market = 1
type_byte ioc = 2

abbrev pub kind_byte : CommandType → ℕ
kind_byte CommandType.new = 0
kind_byte CommandType.cancel = 1

abbrev pub raw_of : Command → RawCommand
raw_of c = record {
  kind = kind_byte c.kind;
  side = side_byte c.side;
  type = type_byte c.type;
  pad0 = 0;
  qty = c.qty;
  price_ticks = c.price_ticks;
  order_id = c.order_id;
}

abbrev pub side_of : ℕ → Option Side
side_of zero = some buy
side_of (suc zero) = some sell
side_of _ = none

abbrev pub type_of : ℕ → Option OrderType
type_of zero = some limit
type_of (suc zero) = some market
type_of (suc (suc zero)) = some ioc
type_of _ = none

abbrev pub kind_of : ℕ → Option CommandType
kind_of zero = some CommandType.new
kind_of (suc zero) = some CommandType.cancel
kind_of _ = none

-- the command of bytes that are enumerators
unfoldable pub command_of : RawCommand → Option Command
command_of c = do
  kind ← kind_of c.kind
  side ← side_of c.side
  type ← type_of c.type
  some (record {
    kind = kind;
    side = side;
    type = type;
    qty = c.qty;
    price_ticks = c.price_ticks;
    order_id = c.order_id;
  })

unfoldable pub commands_of : List RawCommand → Option (List Command)
commands_of [] = some []
commands_of (c ∷ cs) = do cmd ← command_of c; cmds ← commands_of cs; some (cmd ∷ cmds)

-- `run_generate`, with the streams that the file system makes: the exit code, and the stream after
-- `write_replay`, if one was opened
unfoldable pub run_generate :
    {S : Type 0} → Ostream S → (Str → Option S) → List Str → Option (ℕ × Option S)
run_generate os create args = elim (parse_generate args default_options) [
  | none ↦ some (exit_usage, none)
  | some o ↦
      if is_empty o.out_path || not (validate_engine_config o.cfg.engine)
      then some (exit_usage, none)
      else elim (generate o.ops (Workload.init o.cfg)) [
        | none ↦ none
        | some cmds ↦ elim (create o.out_path) [
          | none ↦ some (exit_runtime, none)
          | some file ↦
              let (ok, file') = write_replay os file o.cfg (map raw_of cmds) in
              some (if ok then exit_ok else exit_runtime, some file')
        ]
      ]
]

abbrev pub is_ok : ReplayReadError → Bool
is_ok no_error = true
is_ok _ = false

-- the engine after the commands of a file
unfoldable pub replay_commands : ReplayReadResult → Option (ℕ × Option MatchingEngine)
replay_commands res = do
  cmds ← commands_of res.commands
  r ← process_all (Engine.init res.config.engine) cmds
  some (exit_ok, some r.0)

-- `run_replay`, with the bytes of the files: the exit code, and the engine after the run
unfoldable pub run_replay : (Str → Option (List ℕ)) → Str → Option (ℕ × Option MatchingEngine)
run_replay read_file path = elim (read_file path) [
  | none ↦ some (exit_runtime, none)
  | some bytes ↦ elim (read_replay bytes) [
    | none ↦ none
    | some res ↦
        if not (is_ok res.error) || not (validate_engine_config res.config.engine)
        then some (exit_runtime, none)
        else replay_commands res
  ]
]

-- "--help", "-h", "generate" and "run"
abbrev pub help_word : Str
help_word = 45 ∷ 45 ∷ 104 ∷ 101 ∷ 108 ∷ 112 ∷ []

abbrev pub short_help_word : Str
short_help_word = 45 ∷ 104 ∷ []

abbrev pub generate_word : Str
generate_word = 103 ∷ 101 ∷ 110 ∷ 101 ∷ 114 ∷ 97 ∷ 116 ∷ 101 ∷ []

abbrev pub run_word : Str
run_word = 114 ∷ 117 ∷ 110 ∷ []

abbrev pub exit_code : {A : Type 0} → Option (ℕ × A) → Option ℕ
exit_code none = none
exit_code (some (code, a)) = some code

-- the one argument of `run`
abbrev pub run_file : (Str → Option (List ℕ)) → List Str → Option ℕ
run_file read_file (path ∷ []) = exit_code (run_replay read_file path)
run_file read_file _ = some exit_usage

-- `run_cli`: the exit code
unfoldable pub run_cli :
    {S : Type 0} → Ostream S → (Str → Option S) → (Str → Option (List ℕ)) → List Str → Option ℕ
run_cli os create read_file [] = some exit_usage
run_cli os create read_file (word ∷ args) =
    if same_bytes word help_word || same_bytes word short_help_word
    then some exit_ok
    else if same_bytes word generate_word
    then exit_code (run_generate os create args)
    else if same_bytes word run_word
    then run_file read_file args
    else some exit_usage
