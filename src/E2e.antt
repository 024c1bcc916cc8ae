-- ===== src/E2e.antt =====
-- bench/e2e_bench_lib.h: the end-to-end benchmark. The checks before the pipeline starts, the
-- arguments, and what the engine thread does with the batches that it pops: it measures every command
-- and discards what it measured at the end of the warm-up. The readings of the clock are a parameter.
-- A command that is measured has the enumerators of the source. The threads, the pinning, the opening
-- of the log and the texts that are printed are left out. `none` means that a sweep ran out of fuel.
pub mod Commands
pub mod Window
mod Tests
use low_latency_orderbook.Prelude.{
  ℕ, zero, suc, ℤ, pos, negsuc, ◌+◌, ◌-◌, ◌*◌, ◌/◌, ◌%◌, ◌^◌, Bool, true, false, not, ◌&&◌, ◌||◌,
  Option, none, some, List, [], ◌∷◌, ◌++◌, length, ◌==◌, ltb, leb, if◌then◌else◌, ◌>>=◌, update,
}
use low_latency_orderbook.Types.{OrderType, CommandType, Command, Event}
use low_latency_orderbook.Engine.{MatchingEngine, process, reset_stats}
use low_latency_orderbook.Latency.{LatencyRecorder, new_recorder, record_ticks, merge, reset}
use low_latency_orderbook.Logger.{AsyncLogger, log_event}
use low_latency_orderbook.ReplayFormat.{RawCommand, ReplayReadResult, same_bytes, read_replay}
use low_latency_orderbook.Cli.{
  Str, is_empty, is_ok, exit_ok, exit_runtime, exit_usage, parse_u64, validate_engine_config,
}

-- The four classes of operations, in report order.
pub data OpClass : Type 0 where
  limit market ioc cancel : OpClass

abbrev pub class_of : OrderType → OpClass
class_of OrderType.limit = OpClass.limit
class_of OrderType.market = OpClass.market
class_of OrderType.ioc = OpClass.ioc

abbrev pub class_of_kind : CommandType → OrderType → OpClass
class_of_kind CommandType.cancel type = OpClass.cancel
class_of_kind CommandType.new type = class_of type

unfoldable pub classify : Command → OpClass
classify cmd = class_of_kind cmd.kind cmd.type

-- the index of a class in the array of recorders
abbrev pub class_index : OpClass → ℕ
class_index OpClass.limit = 0
class_index OpClass.market = 1
class_index OpClass.ioc = 2
class_index OpClass.cancel = 3

-- `validate_commands` from the index `i` on: the index of the first bad command, or `none` for
-- `kAllCommandsValid`
unfoldable pub validate_from : ℕ → List RawCommand → Option ℕ
validate_from i [] = none
validate_from i (c ∷ cs) =
    let rest = validate_from (suc i) cs in
    if not (c.kind == 0) && not (c.kind == 1)
    then some i
    else if (c.kind == 0) && not (c.type == 0) && not (c.type == 1) && not (c.type == 2)
    then some i
    else rest

abbrev pub validate_commands : List RawCommand → Option ℕ
validate_commands = validate_from 0

pub record E2eOptions : Type 0 where
  pub file : Str
  pub log_path : Str
  pub warmup : ℕ
  pub warmup_given : Bool
  pub pin_cpu : ℤ
  pub csv : Bool

-- "--csv", "--warmup", "--pin" and "--log"
abbrev pub csv_flag : Str
csv_flag = 45 ∷ 45 ∷ 99 ∷ 115 ∷ 118 ∷ []

abbrev pub warmup_flag : Str
warmup_flag = 45 ∷ 45 ∷ 119 ∷ 97 ∷ 114 ∷ 109 ∷ 117 ∷ 112 ∷ []

abbrev pub pin_flag : Str
pin_flag = 45 ∷ 45 ∷ 112 ∷ 105 ∷ 110 ∷ []

abbrev pub log_flag : Str
log_flag = 45 ∷ 45 ∷ 108 ∷ 111 ∷ 103 ∷ []

abbrev pub starts_with_dash : Str → Bool
starts_with_dash [] = false
starts_with_dash (x ∷ s) = x == 45

-- a flag with a number; a CPU above the largest `int` is refused
unfoldable pub set_number : Str → ℕ → E2eOptions → Option E2eOptions
set_number arg parsed opt =
    if same_bytes arg warmup_flag
    then some (record opt { warmup = parsed; warmup_given = true })
    else if ltb (2 ^ 31 - 1) parsed
    then none
    else some (record opt { pin_cpu = pos parsed })

-- a flag with its value
unfoldable pub set_value : Str → Str → E2eOptions → Option E2eOptions
set_value arg value opt =
    if same_bytes arg log_flag
    then some (record opt { log_path = value })
    else (parse_u64 value >>= (λ parsed. set_number arg parsed opt))

abbrev pub needs_value : Str → Bool
needs_value arg = same_bytes arg warmup_flag || same_bytes arg pin_flag || same_bytes arg log_flag

-- The loop of `parse_args`, which has seen the file if `have_file` holds; `none` is a usage error. On
-- a flag that needs a value the next argument is that value.
unfoldable pub parse_from : List Str → Bool → E2eOptions → Option E2eOptions
parse_from [] have_file opt = if have_file then some opt else none
parse_from (arg ∷ []) have_file opt =
    if same_bytes arg csv_flag
    then (if have_file then some (record opt { csv = true }) else none)
    else if needs_value arg
    then none
    else if starts_with_dash arg
    then none
    else if have_file
    then none
    else some (record opt { file = arg })
parse_from (arg ∷ value ∷ args) have_file opt =
    let after_csv = parse_from (value ∷ args) have_file (record opt { csv = true }) in
    let after_value = set_value arg value opt >>= (λ opt'. parse_from args have_file opt') in
    let after_file = parse_from (value ∷ args) true (record opt { file = arg }) in
    if same_bytes arg csv_flag
    then after_csv
    else if needs_value arg
    then after_value
    else if starts_with_dash arg
    then none
    else if have_file
    then none
    else after_file

unfoldable pub parse_args : List Str → E2eOptions → Option E2eOptions
parse_args args opt = parse_from args false opt

-- how the checks of `run_e2e` end: an exit code, or a file to be measured after a warm-up
pub data Checked : Type 0 where
  refused : ℕ → Checked
  accepted : ReplayReadResult → ℕ → Checked

abbrev pub is_none : Option ℕ → Bool
is_none none = true
is_none (some i) = false

-- the number of commands to warm up with
abbrev pub warmup_of : E2eOptions → ℕ → ℕ
warmup_of opt ops = if opt.warmup_given then opt.warmup else ops / 10

-- the checks on a file that was read
unfoldable pub check_result : E2eOptions → ReplayReadResult → Checked
check_result opt res =
    let ops = length res.commands in
    let warmup = warmup_of opt ops in
    if not (is_ok res.error)
    then refused exit_runtime
    else if not (validate_engine_config res.config.engine)
    then refused exit_runtime
    else if ops == 0
    then refused exit_runtime
    else if not (is_none (validate_commands res.commands))
    then refused exit_runtime
    else if leb ops warmup
    then refused exit_usage
    else accepted res warmup

-- `run_e2e` up to the opening of the log, with the bytes of the files
unfoldable pub check_file : (Str → Option (List ℕ)) → E2eOptions → Option Checked
check_file read_file opt = elim (read_file opt.file) [
  | none ↦ some (refused exit_runtime)
  | some bytes ↦ elim (read_replay bytes) [ none ↦ none | some res ↦ some (check_result opt res) ]
]

-- The engine thread: `EngineRun`, the engine, the logger and the number of readings of the clock.
pub record EngineRun : Type 0 where
  pub recorders : ℕ → LatencyRecorder
  pub processed : ℕ
  pub engine : MatchingEngine
  pub logger : AsyncLogger
  pub readings : ℕ

unfoldable pub log_events : AsyncLogger → ℕ → List Event → AsyncLogger
log_events l timestamp [] = l
log_events l timestamp (e ∷ es) = log_events (log_event l timestamp e) timestamp es

-- what is measured so far is discarded when the warm-up ends
unfoldable pub open_window : ℕ → EngineRun → EngineRun
open_window warmup run =
    if run.processed == warmup
    then record run { recorders = λ i. reset (run.recorders i); engine = reset_stats run.engine }
    else run

-- one command, between two readings of the clock
unfoldable pub measure : (ℕ → ℕ) → ℕ → EngineRun → Command → Option EngineRun
measure clock warmup run cmd =
    let run' = open_window warmup run in
    let cmd_ts = clock run.readings in
    let i = class_index (classify cmd) in
    elim (process run'.engine cmd) [
      | none ↦ none
      | some (engine', events) ↦ some (record {
        recorders = update run'.recorders i (
            record_ticks (run'.recorders i)
              ((clock (run.readings + 1) + 2 ^ 64 - cmd_ts) % 2 ^ 64));
        processed = (run.processed + 1) % 2 ^ 64;
        engine = engine';
        logger = log_events run.logger cmd_ts events;
        readings = run.readings + 2;
      })
    ]

-- the commands of one batch
unfoldable pub measure_batch : (ℕ → ℕ) → ℕ → EngineRun → List Command → Option EngineRun
measure_batch clock warmup run [] = some run
measure_batch clock warmup run (cmd ∷ cmds) = elim (measure clock warmup run cmd) [
  | none ↦ none
  | some run' ↦ measure_batch clock warmup run' cmds
]

-- the batches that are popped, in order
unfoldable pub measure_batches : (ℕ → ℕ) → ℕ → EngineRun → List (List Command) → Option EngineRun
measure_batches clock warmup run [] = some run
measure_batches clock warmup run (batch ∷ batches) = elim (measure_batch clock warmup run batch) [
  | none ↦ none
  | some run' ↦ measure_batches clock warmup run' batches
]

-- the recorders of all classes, merged
unfoldable pub merged_recorders : (ℕ → LatencyRecorder) → LatencyRecorder
merged_recorders recorders =
    merge (merge (merge (merge new_recorder (recorders 0)) (recorders 1)) (recorders 2))
      (recorders 3)
