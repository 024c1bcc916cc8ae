-- ===== src/Cli/Generate.antt =====
-- A file that `run_generate` wrote is one that `run_replay` runs.
use low_latency_orderbook.Prelude.{
  ◌≡◌, refl, true, false, not, ◌||◌, Option, some, List, map, if◌then◌else◌,
}
use low_latency_orderbook.Types.{Command}
use low_latency_orderbook.Engine
use low_latency_orderbook.Workload.{generate}
use low_latency_orderbook.Workload
use low_latency_orderbook.ReplayFormat.{Ostream, write_replay}
use low_latency_orderbook.Cli.{
  Str, is_empty, exit_ok, exit_runtime, validate_engine_config, GenerateOptions, default_options,
  parse_generate, raw_of, run_generate,
}

module _ {S : Type 0} (os : Ostream S) (create : Str → Option S) (args : List Str) where
  -- what a run of `run_generate` did that wrote the file
  record Generated (s : S) : Type 0 where
    o : GenerateOptions
    cmds : List Command
    file : S
    parsed : parse_generate args default_options ≡ some o
    valid : validate_engine_config o.cfg.engine ≡ true
    generated : generate o.ops (Workload.init o.cfg) ≡ some cmds
    created : create o.out_path ≡ some file
    wrote : (write_replay os file o.cfg (map raw_of cmds)).0 ≡ true
    is_s : (write_replay os file o.cfg (map raw_of cmds)).1 ≡ s

  module _ (o : GenerateOptions) (parsed : parse_generate args default_options ≡ some o) where
    module _
        (good : (is_empty o.out_path || not (validate_engine_config o.cfg.engine)) ≡ false) where
      module _ (cmds : List Command)
          (generated : generate o.ops (Workload.init o.cfg) ≡ some cmds) where
        written :
            (file : S)
            → create o.out_path ≡ some file
            → let (ok, file') = write_replay os file o.cfg (map raw_of cmds) in
              run_generate os create args ≡ some (if ok then exit_ok else exit_runtime, some file')
        unfolding run_generate
        written file e = rw (run_generate, parsed, good, generated, e) refl
