-- ===== src/ReplayFormat.antt =====
-- include/lob/replay_format.h: the replay file, a header and packed commands. A byte is a number
-- below 256 and a struct on disk is its fields, little-endian, at the offsets that the source
-- asserts. An input stream is the bytes still to come: `in.read` of n bytes takes the first n, or as
-- many as there are, and `in.peek` meets the end exactly if none are left. An output stream is a
-- parameter. The reader's loop runs on fuel; `none` means that it ran out.
pub mod Bytes
pub mod Layout
pub mod Read
pub mod RoundTrip
pub mod Write
mod Tests
use low_latency_orderbook.Prelude.{
  ℕ, zero, suc, ℤ, pos, negsuc, ◌+◌, ◌-◌, ◌*◌, ◌/◌, ◌%◌, ◌^◌, Bool, true, false, not, ◌&&◌, Option,
  none, some, List, [], ◌∷◌, ◌++◌, length, take, drop, ◌==◌, ltb, if◌then◌else◌, min,
}
use low_latency_orderbook.Engine.{EngineConfig}
use low_latency_orderbook.Workload.{WorkloadConfig}

-- the `width` bytes of a number, least significant first
unfoldable pub le : ℕ → ℕ → List ℕ
le zero x = []
le (suc width) x = x % 256 ∷ le width (x / 256)

unfoldable pub of_le : List ℕ → ℕ
of_le [] = 0
of_le (x ∷ xs) = x + 256 * of_le xs

-- two's complement on 64 bits
unfoldable pub to_u64 : ℤ → ℕ
to_u64 (pos n) = n
to_u64 (negsuc n) = 2 ^ 64 - 1 - n

unfoldable pub of_u64 : ℕ → ℤ
of_u64 x = if ltb x (2 ^ 63) then pos x else negsuc (2 ^ 64 - 1 - x)

-- the number of `width` bytes at an offset
unfoldable pub field : ℕ → ℕ → List ℕ → ℕ
field offset width bytes = of_le (take width (drop offset bytes))

-- `Command` as it stands on disk: its enumerators are any bytes.
pub record RawCommand : Type 0 where
  pub kind : ℕ
  pub side : ℕ
  pub type : ℕ
  pub pad0 : ℕ
  pub qty : ℕ
  pub price_ticks : ℤ
  pub order_id : ℕ

unfoldable pub encode_command : RawCommand → List ℕ
encode_command c =
    le 1 c.kind
    ++ (le 1 c.side
        ++ (le 1 c.type
            ++ (le 1 c.pad0 ++ (le 4 c.qty ++ (le 8 (to_u64 c.price_ticks) ++ le 8 c.order_id)))))

unfoldable pub decode_command : List ℕ → RawCommand
decode_command bytes = record {
  kind = field 0 1 bytes;
  side = field 1 1 bytes;
  type = field 2 1 bytes;
  pad0 = field 3 1 bytes;
  qty = field 4 4 bytes;
  price_ticks = of_u64 (field 8 8 bytes);
  order_id = field 16 8 bytes;
}

-- The padding of the configuration is always zero, and is left out.
unfoldable pub encode_config : WorkloadConfig → List ℕ
encode_config c =
    le 8 (to_u64 c.engine.anchor_price)
    ++ (le 4 c.engine.band_radius
        ++ (le 4 c.engine.pool_capacity
            ++ (le 8 c.seed
                ++ (le 4 c.limit_weight
                    ++ (le 4 c.market_weight
                        ++ (le 4 c.ioc_weight
                            ++ (le 4 c.cancel_weight
                                ++ (le 4 c.min_qty
                                    ++ (le 4 c.max_qty
                                        ++ (le 4 c.max_price_offset
                                            ++ (le 4 c.cross_one_in
                                                ++ (le 4 c.walk_one_in
                                                    ++ (le 4 c.max_walk_step
                                                        ++ (le 4 c.walk_radius
                                                            ++ le 4 0))))))))))))))

unfoldable pub decode_config : List ℕ → WorkloadConfig
decode_config bytes = record {
  engine = record {
    anchor_price = of_u64 (field 0 8 bytes);
    band_radius = field 8 4 bytes;
    pool_capacity = field 12 4 bytes;
  };
  seed = field 16 8 bytes;
  limit_weight = field 24 4 bytes;
  market_weight = field 28 4 bytes;
  ioc_weight = field 32 4 bytes;
  cancel_weight = field 36 4 bytes;
  min_qty = field 40 4 bytes;
  max_qty = field 44 4 bytes;
  max_price_offset = field 48 4 bytes;
  cross_one_in = field 52 4 bytes;
  walk_one_in = field 56 4 bytes;
  max_walk_step = field 60 4 bytes;
  walk_radius = field 64 4 bytes;
}

pub record ReplayHeader : Type 0 where
  pub magic : List ℕ
  pub version : ℕ
  pub pad0 : ℕ
  pub command_count : ℕ
  pub config : WorkloadConfig

-- `kReplayMagic`: "LOBRPLY" and a zero byte
abbrev pub replay_magic : List ℕ
replay_magic = 76 ∷ 79 ∷ 66 ∷ 82 ∷ 80 ∷ 76 ∷ 89 ∷ 0 ∷ []

abbrev pub replay_format_version : ℕ
replay_format_version = 1

unfoldable pub encode_header : ReplayHeader → List ℕ
encode_header h =
    h.magic ++ (le 4 h.version ++ (le 4 h.pad0 ++ (le 8 h.command_count ++ encode_config h.config)))

unfoldable pub decode_header : List ℕ → ReplayHeader
decode_header bytes = record {
  magic = take 8 bytes;
  version = field 8 4 bytes;
  pad0 = field 12 4 bytes;
  command_count = field 16 8 bytes;
  config = decode_config (drop 24 bytes);
}

-- `no_error` is `kNone`.
pub data ReplayReadError : Type 0 where
  no_error truncated_header bad_magic unsupported_version truncated_body trailing_bytes :
      ReplayReadError

unfoldable pub encode_commands : List RawCommand → List ℕ
encode_commands [] = []
encode_commands (c ∷ cs) = encode_command c ++ encode_commands cs

-- the header that `write_replay` gives to a file
unfoldable pub header_of : WorkloadConfig → List RawCommand → ReplayHeader
header_of config commands = record {
  magic = replay_magic;
  version = replay_format_version;
  pad0 = 0;
  command_count = length commands;
  config = config;
}

-- a stream to which bytes are written
pub record Ostream (S : Type 0) : Type 0 where
  pub write : S → List ℕ → S
  pub flush : S → S
  pub good : S → Bool

unfoldable pub write_replay :
    {S : Type 0} → Ostream S → S → WorkloadConfig → List RawCommand → Bool × S
write_replay os out config commands =
    let out' = os.write out (encode_header (header_of config commands)) in
    let out'' =
      if ltb 0 (length commands) then os.write out' (encode_commands commands) else out' in
    let out''' = os.flush out'' in (os.good out''', out''')

pub record ReplayReadResult : Type 0 where
  pub error : ReplayReadError
  pub config : WorkloadConfig
  pub commands : List RawCommand

-- the value-initialised configuration of a result
abbrev pub default_config : WorkloadConfig
default_config = record {
  engine = record { anchor_price = pos 0; band_radius = 4096; pool_capacity = 2 ^ 20 };
  seed = 1;
  limit_weight = 60;
  market_weight = 5;
  ioc_weight = 15;
  cancel_weight = 20;
  min_qty = 1;
  max_qty = 100;
  max_price_offset = 256;
  cross_one_in = 4;
  walk_one_in = 4;
  max_walk_step = 2;
  walk_radius = 4096;
}

-- `count` packed commands
unfoldable pub decode_commands : ℕ → List ℕ → List RawCommand
decode_commands zero bytes = []
decode_commands (suc count) bytes =
    decode_command (take 24 bytes) ∷ decode_commands count (drop 24 bytes)

-- how the loop over the chunks ends: short of bytes, or with the commands and the bytes behind them
pub data Body : Type 0 where
  short : Body
  whole : List RawCommand → List ℕ → Body

-- The loop over the chunks of `kChunkCommands`, with the commands read so far.
unfoldable pub read_chunks : ℕ → List ℕ → ℕ → List RawCommand → Option Body
read_chunks zero bytes remaining commands = none
read_chunks (suc fuel) bytes remaining commands =
    let count = min remaining 4096 in
    let chunk = take (count * 24) bytes in
    let rest =
      read_chunks fuel (drop (count * 24) bytes) (remaining - count)
        (commands ++ decode_commands count chunk) in
    if remaining == 0
    then some (whole commands bytes)
    else if length chunk == count * 24
    then rest
    else some short

-- a result without commands
abbrev pub refusal : ReplayReadError → WorkloadConfig → ReplayReadResult
refusal error config = record { error = error; config = config; commands = [] }

abbrev pub refuse : ReplayReadError → WorkloadConfig → Option ReplayReadResult
refuse error config = some (refusal error config)

abbrev pub at_end : WorkloadConfig → List RawCommand → List ℕ → ReplayReadResult
at_end config commands [] = record { error = no_error; config = config; commands = commands }
at_end config commands (x ∷ bytes) = refusal trailing_bytes config

abbrev pub after_body : WorkloadConfig → Option Body → Option ReplayReadResult
after_body config none = none
after_body config (some short) = refuse truncated_body config
after_body config (some (whole commands bytes)) = some (at_end config commands bytes)

abbrev pub same_bytes : List ℕ → List ℕ → Bool
same_bytes [] [] = true
same_bytes [] (y ∷ ys) = false
same_bytes (x ∷ xs) [] = false
same_bytes (x ∷ xs) (y ∷ ys) = (x == y) && same_bytes xs ys

-- Every chunk has a command, so this fuel is enough.
unfoldable pub read_replay : List ℕ → Option ReplayReadResult
read_replay bytes =
    let raw = take 96 bytes in
    let hdr = decode_header raw in
    if not (length raw == 96)
    then refuse truncated_header default_config
    else if not (same_bytes hdr.magic replay_magic)
    then refuse bad_magic default_config
    else if not (hdr.version == replay_format_version)
    then refuse unsupported_version default_config
    else after_body hdr.config
        (read_chunks (hdr.command_count + 1) (drop 96 bytes) hdr.command_count [])
