-- ===== src/ReplayFormat/Layout.antt =====
-- A struct that is written at its offsets is read back from them.
use low_latency_orderbook.Prelude.{◌^◌, ◌<◌, ◌≡◌, refl, ap, ◌∙◌, true, List, length}
use low_latency_orderbook.Workload.{WorkloadConfig}
use low_latency_orderbook.ReplayFormat.{
  le, of_le, to_u64, of_u64, field, RawCommand, encode_command, decode_command, encode_config,
  decode_config, encode_header, decode_header, header_of,
}
use low_latency_orderbook.ReplayFormat.Bytes.{of_le-le, of_u64-to_u64, to_u64_bound}
use low_latency_orderbook.Types.{is_int64}

-- a command whose fields fit their types
pub record CommandFits (c : RawCommand) : Type 0 where
  pub kind : c.kind < 2 ^ 8
  pub side : c.side < 2 ^ 8
  pub type : c.type < 2 ^ 8
  pub pad0 : c.pad0 < 2 ^ 8
  pub qty : c.qty < 2 ^ 32
  pub price_ticks : is_int64 c.price_ticks ≡ true
  pub order_id : c.order_id < 2 ^ 64

pub length-encode_command : (c : RawCommand) → length (encode_command c) ≡ 24
unfolding encode_command le
length-encode_command c = refl

raw_eq :
    (c d : RawCommand)
    → c.kind ≡ d.kind
    → c.side ≡ d.side
    → c.type ≡ d.type
    → c.pad0 ≡ d.pad0
    → c.qty ≡ d.qty
    → c.price_ticks ≡ d.price_ticks
    → c.order_id ≡ d.order_id
    → c ≡ d
raw_eq c d e0 e1 e2 e3 e4 e5 e6 = cc

read_kind : (c : RawCommand) → field 4 4 (encode_command c) ≡ of_le (le 4 c.qty)
unfolding field encode_command le
read_kind c = refl

pub decode_command-encode_command :
    (c : RawCommand) → CommandFits c → decode_command (encode_command c) ≡ c
unfolding decode_command field encode_command le
decode_command-encode_command c f =
    raw_eq _ c (of_le-le 1 c.kind f.kind) (of_le-le 1 c.side f.side) (of_le-le 1 c.type f.type)
      (of_le-le 1 c.pad0 f.pad0) (of_le-le 4 c.qty f.qty)
      (ap of_u64 (of_le-le 8 (to_u64 c.price_ticks) (to_u64_bound c.price_ticks f.price_ticks))
        ∙ of_u64-to_u64 c.price_ticks f.price_ticks)
      (of_le-le 8 c.order_id f.order_id)

-- a configuration whose fields fit their types
pub record ConfigFits (c : WorkloadConfig) : Type 0 where
  pub anchor_price : is_int64 c.engine.anchor_price ≡ true
  pub band_radius : c.engine.band_radius < 2 ^ 32
  pub pool_capacity : c.engine.pool_capacity < 2 ^ 32
  pub seed : c.seed < 2 ^ 64
  pub limit_weight : c.limit_weight < 2 ^ 32
  pub market_weight : c.market_weight < 2 ^ 32
  pub ioc_weight : c.ioc_weight < 2 ^ 32
  pub cancel_weight : c.cancel_weight < 2 ^ 32
  pub min_qty : c.min_qty < 2 ^ 32
  pub max_qty : c.max_qty < 2 ^ 32
  pub max_price_offset : c.max_price_offset < 2 ^ 32
  pub cross_one_in : c.cross_one_in < 2 ^ 32
  pub walk_one_in : c.walk_one_in < 2 ^ 32
  pub max_walk_step : c.max_walk_step < 2 ^ 32
  pub walk_radius : c.walk_radius < 2 ^ 32

pub length-encode_header :
    (config : WorkloadConfig) (commands : List RawCommand)
    → length (encode_header (header_of config commands)) ≡ 96
unfolding encode_header encode_config le header_of
length-encode_header config commands = refl

pub decode_header-encode_header :
    (config : WorkloadConfig) (commands : List RawCommand)
    → ConfigFits config
    → length commands < 2 ^ 64
    → decode_header (encode_header (header_of config commands)) ≡ header_of config commands
unfolding decode_header decode_config field encode_header encode_config le header_of of_le
decode_header-encode_header config commands f small =
    let anchor =
      ap of_u64 (
        of_le-le 8 (to_u64 config.engine.anchor_price)
          (to_u64_bound config.engine.anchor_price f.anchor_price))
      ∙ of_u64-to_u64 config.engine.anchor_price f.anchor_price in
    rw
      (
        anchor,
        of_le-le 4 config.engine.band_radius f.band_radius,
        of_le-le 4 config.engine.pool_capacity f.pool_capacity,
        of_le-le 8 config.seed f.seed,
        of_le-le 4 config.limit_weight f.limit_weight,
        of_le-le 4 config.market_weight f.market_weight,
        of_le-le 4 config.ioc_weight f.ioc_weight,
        of_le-le 4 config.cancel_weight f.cancel_weight,
        of_le-le 4 config.min_qty f.min_qty,
        of_le-le 4 config.max_qty f.max_qty,
        of_le-le 4 config.max_price_offset f.max_price_offset,
        of_le-le 4 config.cross_one_in f.cross_one_in,
        of_le-le 4 config.walk_one_in f.walk_one_in,
        of_le-le 4 config.max_walk_step f.max_walk_step,
        of_le-le 4 config.walk_radius f.walk_radius,
        of_le-le 8 (length commands) small,
      )
      refl
