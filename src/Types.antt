-- ===== src/Types.antt =====
-- include/lob/types.h: the scalar types, enumerations and wire records. Quantities and ids are
-- numbers (below 2^32 and 2^64), prices are signed integers. The explicit padding fields, always
-- zero, are left out, and so are the diagnostic strings.
use low_latency_orderbook.Prelude.{ℕ, ℤ, pos, negsuc, leb_ℤ, Bool, true, false, ◌&&◌, ◌-◌, ◌^◌}

-- `Side::kBuy`, `Side::kSell`
pub data Side : Type 0 where
  buy sell : Side

pub data OrderType : Type 0 where
  limit market ioc : OrderType

pub data CommandType : Type 0 where
  new cancel : CommandType

pub data EventType : Type 0 where
  accepted rejected traded canceled : EventType

pub data RejectReason : Type 0 where
  none invalid_qty invalid_price pool_exhausted unknown_order : RejectReason

-- `kInvalidOrderId`
abbrev pub invalid_order_id : ℕ
invalid_order_id = 0

-- One instruction to the engine.
pub record Command : Type 0 where
  pub kind : CommandType
  pub side : Side
  pub type : OrderType
  pub qty : ℕ
  pub price_ticks : ℤ
  pub order_id : ℕ

-- One engine outcome.
pub record Event : Type 0 where
  pub kind : EventType
  pub side : Side
  pub reason : RejectReason
  pub qty : ℕ
  pub remaining : ℕ
  pub price_ticks : ℤ
  pub order_id : ℕ

-- the tests `side == Side::kBuy`, `type == OrderType::kMarket` and `type == OrderType::kLimit`
abbrev pub is_buy : Side → Bool
is_buy buy = true
is_buy sell = false

abbrev pub is_market : OrderType → Bool
is_market market = true
is_market _ = false

abbrev pub is_limit : OrderType → Bool
is_limit limit = true
is_limit _ = false

-- the other side of the book
abbrev pub opposite : Side → Side
opposite buy = sell
opposite sell = buy

-- the values of `PriceTicks`, a 64-bit integer
abbrev pub is_int64 : ℤ → Bool
is_int64 q = leb_ℤ (negsuc (2 ^ 63 - 1)) q && leb_ℤ q (pos (2 ^ 63 - 1))
