-- ===== src/Cli/Config.antt =====
-- The configuration that `run_generate` reads from its arguments.
use low_latency_orderbook.Prelude.{
  ℕ, ◌+◌, ◌*◌, ◌%◌, ◌^◌, ◌<◌, ◌≡◌, refl, subst, Bool, true, false, Option, none, some, List, [],
  ◌∷◌, arith, if◌then◌else◌, Option-cases, inl, inr,
}
use low_latency_orderbook.Types.{is_int64}
use low_latency_orderbook.ReplayFormat.{of_u64, same_bytes}
use low_latency_orderbook.ReplayFormat.Layout.{ConfigFits}
use low_latency_orderbook.Cli.{
  Str, parse_u64, GenerateOptions, set_flag, set_option, parse_generate, band_flag, pool_flag,
  out_flag, ops_flag, seed_flag, anchor_flag,
}

-- A number that is read fits 64 bits.
parse_u64_bound : (s : Str) (n : ℕ) → parse_u64 s ≡ some n → n < 2 ^ 64
unfolding parse_u64
parse_u64_bound s n e = ground arith

of_u64-is_int64 : (n : ℕ) → n < 2 ^ 64 → is_int64 (of_u64 n) ≡ true
unfolding of_u64
of_u64-is_int64 n h = ground arith

abbrev Fits : Option GenerateOptions → Type 0
Fits none = Unit {0}
Fits (some o) = ConfigFits o.cfg × (o.ops < 2 ^ 64)

Fits-if : (b : Bool) (x y : Option GenerateOptions) → Fits x → Fits y → Fits (if b then x else y)
Fits-if true x y h k = h
Fits-if false x y h k = k

narrow : (n : ℕ) → n % 2 ^ 32 < 2 ^ 32
narrow n = omega arith

set_flag-Fits :
    (flag : Str) (parsed : ℕ) (o : GenerateOptions)
    → parsed < 2 ^ 64
    → ConfigFits o.cfg
    → o.ops < 2 ^ 64
    → Fits (set_flag flag parsed o)
unfolding set_flag
set_flag-Fits flag parsed o h f k =
    Fits-if (same_bytes flag ops_flag) _ _ (f, h)
      (Fits-if (same_bytes flag seed_flag) _ _
        (
          record {
            anchor_price = f.anchor_price;
            band_radius = f.band_radius;
            pool_capacity = f.pool_capacity;
            seed = h;
            limit_weight = f.limit_weight;
            market_weight = f.market_weight;
            ioc_weight = f.ioc_weight;
            cancel_weight = f.cancel_weight;
            min_qty = f.min_qty;
            max_qty = f.max_qty;
            max_price_offset = f.max_price_offset;
            cross_one_in = f.cross_one_in;
            walk_one_in = f.walk_one_in;
            max_walk_step = f.max_walk_step;
            walk_radius = f.walk_radius;
          },
          k,
        )
        (Fits-if (same_bytes flag anchor_flag) _ _
          (
            record {
              anchor_price = of_u64-is_int64 parsed h;
              band_radius = f.band_radius;
              pool_capacity = f.pool_capacity;
              seed = f.seed;
              limit_weight = f.limit_weight;
              market_weight = f.market_weight;
              ioc_weight = f.ioc_weight;
              cancel_weight = f.cancel_weight;
              min_qty = f.min_qty;
              max_qty = f.max_qty;
              max_price_offset = f.max_price_offset;
              cross_one_in = f.cross_one_in;
              walk_one_in = f.walk_one_in;
              max_walk_step = f.max_walk_step;
              walk_radius = f.walk_radius;
            },
            k,
          )
          (Fits-if (same_bytes flag band_flag) _ _
            (
              record {
                anchor_price = f.anchor_price;
                band_radius = narrow parsed;
                pool_capacity = f.pool_capacity;
                seed = f.seed;
                limit_weight = f.limit_weight;
                market_weight = f.market_weight;
                ioc_weight = f.ioc_weight;
                cancel_weight = f.cancel_weight;
                min_qty = f.min_qty;
                max_qty = f.max_qty;
                max_price_offset = f.max_price_offset;
                cross_one_in = f.cross_one_in;
                walk_one_in = f.walk_one_in;
                max_walk_step = f.max_walk_step;
                walk_radius = narrow parsed;
              },
              k,
            )
            (Fits-if (same_bytes flag pool_flag) _ _
              (
                record {
                  anchor_price = f.anchor_price;
                  band_radius = f.band_radius;
                  pool_capacity = narrow parsed;
                  seed = f.seed;
                  limit_weight = f.limit_weight;
                  market_weight = f.market_weight;
                  ioc_weight = f.ioc_weight;
                  cancel_weight = f.cancel_weight;
                  min_qty = f.min_qty;
                  max_qty = f.max_qty;
                  max_price_offset = f.max_price_offset;
                  cross_one_in = f.cross_one_in;
                  walk_one_in = f.walk_one_in;
                  max_walk_step = f.max_walk_step;
                  walk_radius = f.walk_radius;
                },
                k,
              )
              tt))))

set_option-Fits :
    (flag value : Str) (o : GenerateOptions)
    → ConfigFits o.cfg
    → o.ops < 2 ^ 64
    → Fits (set_option flag value o)
unfolding set_option
set_option-Fits flag value o f k =
    Fits-if (same_bytes flag out_flag) _ _ (f, k)
      (elim (Option-cases (parse_u64 value)) [
        | inl e ↦ rw e tt
        | inr (n, e) ↦ rw e (set_flag-Fits flag n o (parse_u64_bound value n e) f k)
      ])

parse-Fits :
    (args : List Str) (o : GenerateOptions)
    → ConfigFits o.cfg
    → o.ops < 2 ^ 64
    → Fits (parse_generate args o)
unfolding parse_generate
parse-Fits [] o f k = (f, k)
parse-Fits (flag ∷ []) o f k = tt
parse-Fits (flag ∷ value ∷ args) o f k = elim (Option-cases (set_option flag value o)) [
  | inl e ↦ rw (Fits, parse_generate, e) tt
  | inr (o', e) ↦
      let next = subst Fits e (set_option-Fits flag value o f k) in
      rw (Fits, parse_generate, e) (parse-Fits args o' next.0 next.1)
]

-- Whatever the arguments, the configuration fits the types of its fields.
pub parse_generate-Fits :
    (args : List Str) (o o' : GenerateOptions)
    → ConfigFits o.cfg
    → o.ops < 2 ^ 64
    → parse_generate args o ≡ some o'
    → ConfigFits o'.cfg × (o'.ops < 2 ^ 64)
parse_generate-Fits args o o' f k e = subst Fits e (parse-Fits args o f k)

-- A value of `--band` or `--pool` counts modulo 2^32: it is cast to 32 bits before any check, so one
-- that does not fit is taken for another one.
pub set_flag-wraps :
    (parsed k : ℕ) (o : GenerateOptions)
    → (set_flag band_flag (parsed + 2 ^ 32 * k) o ≡ set_flag band_flag parsed o)
      × (set_flag pool_flag (parsed + 2 ^ 32 * k) o ≡ set_flag pool_flag parsed o)
unfolding set_flag
set_flag-wraps parsed k o = (rw (wraps parsed k) refl, rw (wraps parsed k) refl)
  where
    wraps : (parsed k : ℕ) → (parsed + 2 ^ 32 * k) % 2 ^ 32 ≡ parsed % 2 ^ 32
    wraps parsed k = omega arith
