-- ===== src/ReplayFormat/Tests.antt =====
-- A file of two commands: one new order, and a command whose enumerators are not those of the
-- source.
use low_latency_orderbook.Prelude.{
  ℕ, pos, negsuc, ◌^◌, ◌≡◌, refl, Bool, true, ◌&&◌, ◌⊎◌, some, List, [], ◌∷◌, ◌++◌, arith, length,
  take, leb,
}
use low_latency_orderbook.Workload.{WorkloadConfig}
use low_latency_orderbook.ReplayFormat.{
  le, to_u64, RawCommand, encode_command, encode_config, encode_header, encode_commands, header_of,
  Ostream, write_replay, ReplayReadError, no_error, truncated_header, truncated_body,
  default_config, refusal, read_replay,
}
use low_latency_orderbook.ReplayFormat.Layout.{ConfigFits}
use low_latency_orderbook.ReplayFormat.Read.{result_of, read_replay_lem}
use low_latency_orderbook.ReplayFormat.RoundTrip.{AllFit, file_of, read_replay-cut}
use low_latency_orderbook.ReplayFormat.Write.{IsFaithful, write_replay-read_replay}

abbrev two : List RawCommand
two =
    record { kind = 0; side = 1; type = 0; pad0 = 0; qty = 5; price_ticks = pos 1001; order_id = 0 }
    ∷ record {
      kind = 9;
      side = 1;
      type = 7;
      pad0 = 0;
      qty = 5;
      price_ticks = negsuc 3;
      order_id = 2 ^ 32;
    }
    ∷ []

config_fits : ConfigFits default_config
config_fits = record {
  anchor_price = refl;
  band_radius = omega arith;
  pool_capacity = omega arith;
  seed = omega arith;
  limit_weight = omega arith;
  market_weight = omega arith;
  ioc_weight = omega arith;
  cancel_weight = omega arith;
  min_qty = omega arith;
  max_qty = omega arith;
  max_price_offset = omega arith;
  cross_one_in = omega arith;
  walk_one_in = omega arith;
  max_walk_step = omega arith;
  walk_radius = omega arith;
}

two_fit : AllFit two
two_fit = (
  record {
    kind = omega arith;
    side = omega arith;
    type = omega arith;
    pad0 = omega arith;
    qty = omega arith;
    price_ticks = refl;
    order_id = omega arith;
  },
  (
    record {
      kind = omega arith;
      side = omega arith;
      type = omega arith;
      pad0 = omega arith;
      qty = omega arith;
      price_ticks = refl;
      order_id = omega arith;
    },
    tt,
  ),
)

-- a device with room for 200 bytes
abbrev device : Ostream (List ℕ × Bool)
device = record {
  write = λ s bytes. (s.0 ++ bytes, s.1 && leb (length (s.0 ++ bytes)) 200);
  flush = λ s. s;
  good = λ s. s.1;
}

both_true : (a b : Bool) → (a && b) ≡ true → a ≡ true
both_true a b e = ground arith

device-IsFaithful : IsFaithful device (λ s. s.0)
device-IsFaithful = record {
  write_good = λ s bytes e. (both_true s.1 _ e, refl);
  flush_good = λ s e. (e, refl);
}

written : (write_replay device ([], true) default_config two).0 ≡ true
unfolding write_replay encode_commands encode_command encode_header encode_config header_of le
    to_u64
written = refl

size : length (file_of default_config two) ≡ 144
unfolding encode_commands encode_command encode_header encode_config header_of le
size = refl

read_replay_lem_example :
    read_replay (take 100 (file_of default_config two))
    ≡ some (result_of (take 100 (file_of default_config two)))
read_replay_lem_example = read_replay_lem (take 100 (file_of default_config two))

read_replay-cut_example :
    (error : ReplayReadError) × (config' : WorkloadConfig) × (read_replay
        (take 100 (file_of default_config two))
      ≡ some (refusal error config'))
    × ((error ≡ truncated_header) ⊎ (error ≡ truncated_body))
read_replay-cut_example =
    read_replay-cut default_config two config_fits (omega arith) 100 (omega (arith, size))

write_replay-read_replay_example :
    read_replay (write_replay device ([], true) default_config two).1.0
    ≡ some (record { error = no_error; config = default_config; commands = two })
write_replay-read_replay_example =
    write_replay-read_replay device (λ s. s.0) device-IsFaithful ([], true) default_config two
      config_fits (omega arith) two_fit refl written
