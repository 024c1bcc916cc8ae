-- ===== src/Workload.antt =====
-- include/lob/workload_gen.h: `WorkloadGenerator`, a stream of commands drawn from a 64-bit generator
-- of pseudorandom numbers, beside a shadow engine whose events say which orders are live. `none`
-- means that a sweep of that engine ran out of fuel.
pub mod Fits
pub mod Emitted
pub mod Draws
pub mod Shadow
mod Tests
use low_latency_orderbook.Prelude.{
  ℕ, zero, suc, ℤ, pos, ltb_ℤ, ◌+ℤ◌, ◌-ℤ◌, ◌+◌, ◌-◌, ◌*◌, ◌/◌, ◌%◌, ◌^◌, Bool, true, false, not,
  Option, none, some, List, [], ◌∷◌, ◌++◌, length, ◌==◌, ltb, if◌then◌else◌, get_or, set, take,
}
use low_latency_orderbook.Types.{
  Side, buy, sell, is_buy, OrderType, limit, market, ioc, is_market, CommandType, Command,
  EventType, accepted, rejected, traded, canceled, Event, invalid_order_id,
}
use low_latency_orderbook.Map.{lookup_id, remove_id, emplace}
use low_latency_orderbook.Engine.{EngineConfig, MatchingEngine, process}
use low_latency_orderbook.Engine

pub record WorkloadCounts : Type 0 where
  pub limits : ℕ
  pub markets : ℕ
  pub iocs : ℕ
  pub cancels : ℕ
  pub degraded_cancels : ℕ

pub record WorkloadConfig : Type 0 where
  pub engine : EngineConfig
  pub seed : ℕ
  pub limit_weight : ℕ
  pub market_weight : ℕ
  pub ioc_weight : ℕ
  pub cancel_weight : ℕ
  pub min_qty : ℕ
  pub max_qty : ℕ
  pub max_price_offset : ℕ
  pub cross_one_in : ℕ
  pub walk_one_in : ℕ
  pub max_walk_step : ℕ
  pub walk_radius : ℕ

pub record WorkloadGenerator : Type 0 where
  pub cfg : WorkloadConfig
  pub total_weight : ℕ
  pub rng_state : ℕ
  pub mid : ℤ
  pub walk_lo : ℤ
  pub walk_hi : ℤ
  pub zipf_cdf : List ℕ
  pub engine : MatchingEngine
  pub live_ids : List ℕ
  pub live_pos : List (ℕ × ℕ)
  pub counts : WorkloadCounts

abbrev pub max_ℤ : ℤ → ℤ → ℤ
max_ℤ a b = if ltb_ℤ a b then b else a

-- the loop that fills `zipf_cdf_`, from the offset `k` on with the sum `acc`
unfoldable pub harmonic_cdf : ℕ → ℕ → ℕ → List ℕ
harmonic_cdf zero k acc = []
harmonic_cdf (suc left) k acc =
    let acc' = (acc + 2 ^ 20 / (k + 1) + 1) % 2 ^ 64 in acc' ∷ harmonic_cdf left (suc k) acc'

unfoldable pub init : WorkloadConfig → WorkloadGenerator
init cfg = record {
  cfg = cfg;
  total_weight = cfg.limit_weight + cfg.market_weight + cfg.ioc_weight + cfg.cancel_weight;
  rng_state = cfg.seed;
  mid = cfg.engine.anchor_price;
  walk_lo = max_ℤ (pos 1) (cfg.engine.anchor_price -ℤ pos cfg.walk_radius);
  walk_hi = cfg.engine.anchor_price +ℤ pos cfg.walk_radius;
  zipf_cdf = harmonic_cdf (cfg.max_price_offset + 1) 0 0;
  engine = Engine.init cfg.engine;
  live_ids = [];
  live_pos = [];
  counts = record { limits = 0; markets = 0; iocs = 0; cancels = 0; degraded_cancels = 0 };
}

-- `a ^ b` on the given number of bits
unfoldable pub xor : ℕ → ℕ → ℕ → ℕ
xor zero a b = 0
xor (suc bits) a b = (a % 2 + b % 2) % 2 + 2 * xor bits (a / 2) (b / 2)

-- `NextU64`: the next state, and the number that it is mixed to
unfoldable pub next_u64 : ℕ → ℕ × ℕ
next_u64 state =
    let z0 = (state + 11400714819323198485) % 2 ^ 64 in
    let z1 = (xor 64 z0 (z0 / 2 ^ 30) * 13787848793156543929) % 2 ^ 64 in
    let z2 = (xor 64 z1 (z1 / 2 ^ 27) * 10723151780598845931) % 2 ^ 64 in
    (z0, xor 64 z2 (z2 / 2 ^ 31))

unfoldable pub bounded_rand : WorkloadGenerator → ℕ → ℕ × WorkloadGenerator
bounded_rand g n = let (state, z) = next_u64 g.rng_state in (z % n, record g { rng_state = state })

unfoldable pub one_in : WorkloadGenerator → ℕ → Bool × WorkloadGenerator
one_in g n = let (r, g') = bounded_rand g n in (r == 0, g')

-- `std::clamp`
abbrev pub clamp : ℤ → ℤ → ℤ → ℤ
clamp v lo hi = if ltb_ℤ v lo then lo else if ltb_ℤ hi v then hi else v

unfoldable pub maybe_step_mid : WorkloadGenerator → WorkloadGenerator
maybe_step_mid g =
    let (walks, g1) = one_in g g.cfg.walk_one_in in
    elim walks [
      | false ↦ g1
      | true ↦
          let (r, g2) = bounded_rand g1 g.cfg.max_walk_step in
          let (up, g3) = one_in g2 2 in
          let step = pos (1 + r) in
          let mid' = if up then g.mid +ℤ step else g.mid -ℤ step in
          record g3 { mid = clamp mid' g.walk_lo g.walk_hi }
    ]

-- `std::upper_bound`: the number of entries before the first one above `r`
unfoldable pub upper_bound : List ℕ → ℕ → ℕ
upper_bound [] r = 0
upper_bound (x ∷ xs) r = let rest = upper_bound xs r in if ltb r x then 0 else suc rest

abbrev pub last_of : List ℕ → ℕ
last_of [] = 0
last_of (x ∷ []) = x
last_of (x ∷ y ∷ xs) = last_of (y ∷ xs)

unfoldable pub sample_zipf_offset : WorkloadGenerator → ℕ × WorkloadGenerator
sample_zipf_offset g =
    let (r, g') = bounded_rand g (last_of g.zipf_cdf) in (upper_bound g.zipf_cdf r, g')

-- the price of an order that is not a market order
unfoldable pub make_price : WorkloadGenerator → Side → ℤ × WorkloadGenerator
make_price g side =
    let (offset, g1) = sample_zipf_offset g in
    let (aggressive, g2) = one_in g1 g.cfg.cross_one_in in
    let above_mid = if is_buy side then aggressive else not aggressive in
    (max_ℤ (pos 1) (if above_mid then g.mid +ℤ pos offset else g.mid -ℤ pos offset), g2)

-- a market order ignores its price, which is 0
abbrev pub price_for : Bool → WorkloadGenerator → Side → ℤ × WorkloadGenerator
price_for true g side = (pos 0, g)
price_for false g side = make_price g side

unfoldable pub make_add : WorkloadGenerator → OrderType → Command × WorkloadGenerator
make_add g type =
    let (s, g1) = bounded_rand g 2 in
    let side = if s == 0 then buy else sell in
    let (q, g2) = bounded_rand g1 (g.cfg.max_qty - g.cfg.min_qty + 1) in
    let (price, g3) = price_for (is_market type) g2 side in
    (
      record {
        kind = CommandType.new;
        side = side;
        type = type;
        qty = (g.cfg.min_qty + q) % 2 ^ 32;
        price_ticks = price;
        order_id = invalid_order_id;
      },
      g3,
    )

unfoldable pub make_cancel : WorkloadGenerator → Command × WorkloadGenerator
make_cancel g =
    let (r, g') = bounded_rand g (length g.live_ids) in
    (
      record {
        kind = CommandType.cancel;
        side = buy;
        type = limit;
        qty = 0;
        price_ticks = pos 0;
        order_id = get_or g.live_ids r 0;
      },
      g',
    )

unfoldable pub add_live : ℕ → WorkloadGenerator → WorkloadGenerator
add_live id g = record g {
  live_pos = emplace id (length g.live_ids) g.live_pos;
  live_ids = g.live_ids ++ id ∷ [];
}

-- `live_pos_[k] = v`
abbrev pub assign_id : ℕ → ℕ → List (ℕ × ℕ) → List (ℕ × ℕ)
assign_id k v m = (k, v) ∷ remove_id k m

unfoldable pub remove_live : ℕ → WorkloadGenerator → WorkloadGenerator
remove_live id g = elim (lookup_id id g.live_pos) [
  | none ↦ g
  | some at ↦
      let last = last_of g.live_ids in
      record g {
        live_ids = take (length g.live_ids - 1) (set g.live_ids at last);
        live_pos = remove_id id (assign_id last at g.live_pos);
      }
]

-- the sink of `Apply`
abbrev pub track_kind : EventType → Event → WorkloadGenerator → WorkloadGenerator
track_kind accepted e g = add_live e.order_id g
track_kind traded e g = if e.remaining == 0 then remove_live e.order_id g else g
track_kind canceled e g = remove_live e.order_id g
track_kind rejected e g = g

unfoldable pub track : List Event → WorkloadGenerator → WorkloadGenerator
track [] g = g
track (e ∷ es) g = track es (track_kind e.kind e g)

unfoldable pub apply : WorkloadGenerator → Command → Option WorkloadGenerator
apply g cmd = elim (process g.engine cmd) [
  | none ↦ none
  | some (engine', events) ↦ some (track events (record g { engine = engine' }))
]

abbrev pub counted_add : OrderType → WorkloadGenerator → WorkloadGenerator
counted_add limit g = record g {
  counts = record (g.counts) { limits = (g.counts.limits + 1) % 2 ^ 64 };
}
counted_add market g = record g {
  counts = record (g.counts) { markets = (g.counts.markets + 1) % 2 ^ 64 };
}
counted_add ioc g = record g { counts = record (g.counts) { iocs = (g.counts.iocs + 1) % 2 ^ 64 } }

abbrev pub emit_add : WorkloadGenerator → OrderType → Command × WorkloadGenerator
emit_add g type = let (cmd, g') = make_add g type in (cmd, counted_add type g')

abbrev pub emit_cancel : WorkloadGenerator → Command × WorkloadGenerator
emit_cancel g =
    let (cmd, g') = make_cancel g in
    (cmd, record g' { counts = record (g'.counts) { cancels = (g'.counts.cancels + 1) % 2 ^ 64 } })

-- a cancel without a live order to target becomes a limit order, which is counted
abbrev pub emit_degraded : WorkloadGenerator → Command × WorkloadGenerator
emit_degraded g =
    let (cmd, g') = emit_add g limit in
    (
      cmd,
      record g' {
        counts = record (g'.counts) {
          degraded_cancels = (g'.counts.degraded_cancels + 1) % 2 ^ 64;
        };
      },
    )

-- the command that the draw `r` selects
unfoldable pub choose : WorkloadGenerator → ℕ → Command × WorkloadGenerator
choose g r =
    if ltb r g.cfg.cancel_weight
    then (if length g.live_ids == 0 then emit_degraded g else emit_cancel g)
    else (let r' = r - g.cfg.cancel_weight in
        if ltb r' g.cfg.limit_weight
        then emit_add g limit
        else if ltb r' (g.cfg.limit_weight + g.cfg.market_weight)
        then emit_add g market
        else emit_add g ioc)

unfoldable pub next : WorkloadGenerator → Option (Command × WorkloadGenerator)
next g =
    let g1 = maybe_step_mid g in
    let (r, g2) = bounded_rand g1 g.total_weight in
    let (cmd, g3) = choose g2 r in elim (apply g3 cmd) [ none ↦ none | some g4 ↦ some (cmd, g4) ]

-- `generate_workload`: the first `n` commands
unfoldable pub generate : ℕ → WorkloadGenerator → Option (List Command)
generate zero g = some []
generate (suc n) g = elim (next g) [
  | none ↦ none
  | some (cmd, g') ↦ elim (generate n g') [ none ↦ none | some cmds ↦ some (cmd ∷ cmds) ]
]
