-- ===== src/E2e/Commands.antt =====
-- What a file must be for the pipeline to start.
use low_latency_orderbook.Prelude.{
  ℕ, ltb, suc, ◌+◌, ◌≡◌, refl, ap, ◌∙◌, Bool, true, ◌&&◌, ◌||◌, Bool-cases, inl, inr, none, some,
  List, [], ◌∷◌, length, ◌==◌, if◌then◌else◌, arith,
}
use low_latency_orderbook.ReplayFormat.{RawCommand}
use low_latency_orderbook.Cli.{exit_runtime, exit_usage, validate_engine_config}
use low_latency_orderbook.Workload.{WorkloadConfig}
use low_latency_orderbook.ReplayFormat.{no_error}
use low_latency_orderbook.E2e.{
  validate_from, validate_commands, E2eOptions, Checked, refused, accepted, warmup_of,
}

-- a cancel, or a new order of one of the three types
abbrev pub is_known : RawCommand → Bool
is_known c = (c.kind == 1) || ((c.kind == 0) && ((c.type == 0) || (c.type == 1) || (c.type == 2)))

abbrev pub all_known : List RawCommand → Bool
all_known [] = true
all_known (c ∷ cs) = is_known c && all_known cs

-- the number of commands in front of the first one that is not known
abbrev pub known_in_front : List RawCommand → ℕ
known_in_front [] = 0
known_in_front (c ∷ cs) = if is_known c then suc (known_in_front cs) else 0

validate_from-step :
    (i : ℕ) (c : RawCommand) (cs : List RawCommand)
    → validate_from i (c ∷ cs) ≡ (if is_known c then validate_from (suc i) cs else some i)
unfolding validate_from
validate_from-step i c cs = ground arith

validate_from-first :
    (i : ℕ) (cs : List RawCommand)
    → validate_from i cs ≡ (if all_known cs then none else some (i + known_in_front cs))
unfolding validate_from
validate_from-first i [] = refl
validate_from-first i (c ∷ cs) = validate_from-step i c cs ∙ elim (Bool-cases (is_known c)) [
  | inl known ↦
      rw (known, validate_from-first (suc i) cs)
        (ap (λ k. if all_known cs then none else some k) (omega arith))
  | inr bad ↦ rw bad (ap (λ k. some k) (omega arith))
]

-- `validate_commands` gives the index of the first command with an unknown kind, or of a new order
-- with an unknown type, and none if there is no such command.
pub validate_commands-first :
    (cs : List RawCommand)
    → validate_commands cs ≡ (if all_known cs then none else some (known_in_front cs))
validate_commands-first cs =
    validate_from-first 0 cs ∙ ap (λ k. if all_known cs then none else some k) (omega arith)

-- how the checks end on a file with this configuration and these commands
abbrev pub verdict : E2eOptions → WorkloadConfig → List RawCommand → Checked
verdict opt config cs =
    if validate_engine_config config.engine && ltb 0 (length cs) && all_known cs
    then (if ltb (warmup_of opt (length cs)) (length cs)
        then accepted (record { error = no_error; config = config; commands = cs })
            (warmup_of opt (length cs))
        else refused exit_usage)
    else refused exit_runtime
