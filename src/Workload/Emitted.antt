-- ===== src/Workload/Emitted.antt =====
-- What the generator keeps, and that the commands that it emits fit the fields of their types.
use low_latency_orderbook.Prelude.{
  ℕ, zero, suc, ℤ, pos, leb_ℤ, ◌+ℤ◌, ◌-ℤ◌, +ℤ_parts, -ℤ_parts, ◌+◌, ◌-◌, ◌^◌, ◌<◌, ◌≤◌, ◌≡◌, refl,
  ap, subst, ◌∙◌, Bool, true, false, not, Bool-cases, Option-cases, inl, inr, Option, none, some,
  List, [], ◌∷◌, length, ◌==◌, ltb, arith, if◌then◌else◌,
}
use low_latency_orderbook.Types.{
  is_int64, Side, is_buy, is_market, OrderType, limit, market, ioc, Command, Event, EventType,
  accepted, rejected, traded, canceled,
}
use low_latency_orderbook.Map.{lookup_id}
use low_latency_orderbook.Engine.{process}
use low_latency_orderbook.Workload.{
  WorkloadGenerator, bounded_rand, maybe_step_mid, sample_zipf_offset, upper_bound, make_price,
  make_add, make_cancel, track, track_kind, add_live, remove_live, apply, counted_add, emit_add,
  emit_cancel, emit_degraded, choose, next, generate, max_ℤ, last_of, price_for, one_in, init,
  harmonic_cdf, WorkloadConfig,
}
use low_latency_orderbook.Workload.Draws.{maybe_step_mid_bounds}
use low_latency_orderbook.Workload.Fits.{AllSmall, get_or-small, process-IdsFit, track-AllSmall}

-- The mid price is in its range, no price above it by an offset is above the 64-bit prices, and the
-- kept ids are 64-bit numbers.
pub record Fits (g : WorkloadGenerator) : Type 0 where
  pub ordered : leb_ℤ g.walk_lo g.walk_hi ≡ true
  pub low : leb_ℤ g.walk_lo g.mid ≡ true
  pub high : leb_ℤ g.mid g.walk_hi ≡ true
  pub room : leb_ℤ (g.walk_hi +ℤ pos (length g.zipf_cdf)) (pos (2 ^ 63 - 1)) ≡ true
  pub ids : AllSmall g.live_ids

pub record CommandInRange (cmd : Command) : Type 0 where
  pub qty : cmd.qty < 2 ^ 32
  pub price_ticks : is_int64 cmd.price_ticks ≡ true
  pub order_id : cmd.order_id < 2 ^ 64

upper_bound-length : (xs : List ℕ) (r : ℕ) → upper_bound xs r ≤ length xs
unfolding upper_bound
upper_bound-length [] r = omega arith
upper_bound-length (x ∷ xs) r = ground (arith, upper_bound-length xs r)

price_int64 :
    (b : Bool) (mid hi : ℤ) (offset len : ℕ)
    → leb_ℤ mid hi ≡ true
    → leb_ℤ (hi +ℤ pos len) (pos (2 ^ 63 - 1)) ≡ true
    → offset ≤ len
    → is_int64 (max_ℤ (pos 1) (if b then mid +ℤ pos offset else mid -ℤ pos offset)) ≡ true
price_int64 true mid hi offset len h room o =
    ground (arith, +ℤ_parts mid (pos offset), +ℤ_parts hi (pos len))
price_int64 false mid hi offset len h room o =
    ground (arith, -ℤ_parts mid (pos offset), +ℤ_parts hi (pos len))

-- a command that was emitted, and the generator after it
abbrev Good : Command × WorkloadGenerator → Type 0
Good (cmd, g) = CommandInRange cmd × Fits g

Good-if :
    (b : Bool) (x y : Command × WorkloadGenerator)
    → (b ≡ true → Good x)
    → (b ≡ false → Good y)
    → Good (if b then x else y)
Good-if true x y h k = h refl
Good-if false x y h k = k refl

counted_add-Fits : (type : OrderType) (g : WorkloadGenerator) → Fits g → Fits (counted_add type g)
counted_add-Fits limit g f = record {
  ordered = f.ordered;
  low = f.low;
  high = f.high;
  room = f.room;
  ids = f.ids;
}
counted_add-Fits market g f = record {
  ordered = f.ordered;
  low = f.low;
  high = f.high;
  room = f.room;
  ids = f.ids;
}
counted_add-Fits ioc g f = record {
  ordered = f.ordered;
  low = f.low;
  high = f.high;
  room = f.room;
  ids = f.ids;
}

make_price_int64 :
    (g : WorkloadGenerator) (side : Side) → Fits g → is_int64 (make_price g side).0 ≡ true
unfolding make_price sample_zipf_offset one_in bounded_rand
make_price_int64 g side f =
    price_int64
      (if is_buy side
        then (one_in (sample_zipf_offset g).1 g.cfg.cross_one_in).0
        else not (one_in (sample_zipf_offset g).1 g.cfg.cross_one_in).0)
      g.mid g.walk_hi (sample_zipf_offset g).0 (length g.zipf_cdf) f.high f.room
      (upper_bound-length g.zipf_cdf (bounded_rand g (last_of g.zipf_cdf)).0)

-- only the random numbers are drawn
drawn-Fits : (g : WorkloadGenerator) (n : ℕ) → Fits g → Fits (bounded_rand g n).1
unfolding bounded_rand
drawn-Fits g n f = record {
  ordered = f.ordered;
  low = f.low;
  high = f.high;
  room = f.room;
  ids = f.ids;
}

make_price-Fits : (g : WorkloadGenerator) (side : Side) → Fits g → Fits (make_price g side).1
unfolding make_price sample_zipf_offset one_in bounded_rand
make_price-Fits g side f = record {
  ordered = f.ordered;
  low = f.low;
  high = f.high;
  room = f.room;
  ids = f.ids;
}

price_for-Fits :
    (is_free : Bool) (g : WorkloadGenerator) (side : Side)
    → Fits g
    → (is_int64 (price_for is_free g side).0 ≡ true) × Fits (price_for is_free g side).1
price_for-Fits true g side f = (refl, f)
price_for-Fits false g side f = (make_price_int64 g side f, make_price-Fits g side f)

make_add-Good : (type : OrderType) (g : WorkloadGenerator) → Fits g → Good (make_add g type)
unfolding make_add
make_add-Good type g f =
    let g1 = (bounded_rand g 2).1 in
    let n = g.cfg.max_qty - g.cfg.min_qty + 1 in
    let (price, fits) =
      price_for-Fits (is_market type) (bounded_rand g1 n).1 (make_add g type).0.side
        (drawn-Fits g1 n (drawn-Fits g 2 f)) in
    (record { qty = omega arith; price_ticks = price; order_id = omega arith }, fits)

emit_add-Good : (type : OrderType) (g : WorkloadGenerator) → Fits g → Good (emit_add g type)
emit_add-Good type g f =
    let k = make_add-Good type g f in (k.0, counted_add-Fits type (make_add g type).1 k.1)

emit_degraded-Good : (g : WorkloadGenerator) → Fits g → Good (emit_degraded g)
emit_degraded-Good g f =
    let (c, k) = emit_add-Good limit g f in
    (c, record { ordered = k.ordered; low = k.low; high = k.high; room = k.room; ids = k.ids })

emit_cancel-Good : (g : WorkloadGenerator) → Fits g → Good (emit_cancel g)
unfolding make_cancel bounded_rand
emit_cancel-Good g f = (
  record { qty = omega arith; price_ticks = refl; order_id = get_or-small g.live_ids _ f.ids },
  record { ordered = f.ordered; low = f.low; high = f.high; room = f.room; ids = f.ids },
)

choose-Good : (g : WorkloadGenerator) (r : ℕ) → Fits g → Good (choose g r)
unfolding choose
choose-Good g r f =
    Good-if (ltb r g.cfg.cancel_weight) _ _
      (λ e.
        Good-if (length g.live_ids == 0) _ _ (λ e. emit_degraded-Good g f)
          (λ e. emit_cancel-Good g f))
      (λ e.
        Good-if (ltb (r - g.cfg.cancel_weight) g.cfg.limit_weight) _ _
          (λ e. emit_add-Good limit g f)
          (λ e.
            Good-if (ltb (r - g.cfg.cancel_weight) (g.cfg.limit_weight + g.cfg.market_weight)) _ _
              (λ e. emit_add-Good market g f) (λ e. emit_add-Good ioc g f)))

-- A step of the mid price changes nothing else that is kept.
stepped :
    (g : WorkloadGenerator)
    → ((maybe_step_mid g).walk_lo ≡ g.walk_lo)
      × ((maybe_step_mid g).walk_hi ≡ g.walk_hi)
      × ((maybe_step_mid g).zipf_cdf ≡ g.zipf_cdf)
      × ((maybe_step_mid g).live_ids ≡ g.live_ids)
unfolding maybe_step_mid one_in bounded_rand
stepped g = elim (Bool-cases (one_in g g.cfg.walk_one_in).0) [
  | inl e ↦ rw (maybe_step_mid, e) (refl, refl, refl, refl)
  | inr e ↦ rw (maybe_step_mid, e) (refl, refl, refl, refl)
]

step-Fits : (g : WorkloadGenerator) → Fits g → Fits (maybe_step_mid g)
step-Fits g f =
    let (lo, hi, cdf, ids) = stepped g in
    let bounds = maybe_step_mid_bounds g f.ordered f.low f.high in
    record {
      ordered = rw (lo, hi) f.ordered;
      low = rw lo bounds.0;
      high = rw hi bounds.1;
      room = rw (hi, cdf) f.room;
      ids = rw ids f.ids;
    }

kept_by_remove :
    (id : ℕ) (g : WorkloadGenerator)
    → ((remove_live id g).walk_lo ≡ g.walk_lo)
      × ((remove_live id g).walk_hi ≡ g.walk_hi)
      × ((remove_live id g).zipf_cdf ≡ g.zipf_cdf)
      × ((remove_live id g).mid ≡ g.mid)
unfolding remove_live
kept_by_remove id g = elim (Option-cases (lookup_id id g.live_pos)) [
  | inl e ↦ rw (remove_live, e) (refl, refl, refl, refl)
  | inr (at, e) ↦ rw (remove_live, e) (refl, refl, refl, refl)
]

tracked_kind :
    (k : EventType) (e : Event) (g : WorkloadGenerator)
    → ((track_kind k e g).walk_lo ≡ g.walk_lo)
      × ((track_kind k e g).walk_hi ≡ g.walk_hi)
      × ((track_kind k e g).zipf_cdf ≡ g.zipf_cdf)
      × ((track_kind k e g).mid ≡ g.mid)
unfolding add_live
tracked_kind accepted e g = (refl, refl, refl, refl)
tracked_kind traded e g = elim (Bool-cases (e.remaining == 0)) [
  | inl z ↦ rw z (kept_by_remove e.order_id g)
  | inr n ↦ rw n (refl, refl, refl, refl)
]
tracked_kind canceled e g = kept_by_remove e.order_id g
tracked_kind rejected e g = (refl, refl, refl, refl)

tracked :
    (es : List Event) (g : WorkloadGenerator)
    → ((track es g).walk_lo ≡ g.walk_lo)
      × ((track es g).walk_hi ≡ g.walk_hi)
      × ((track es g).zipf_cdf ≡ g.zipf_cdf)
      × ((track es g).mid ≡ g.mid)
unfolding track
tracked [] g = (refl, refl, refl, refl)
tracked (e ∷ es) g =
    let k = tracked es (track_kind e.kind e g) in
    let l = tracked_kind e.kind e g in (k.0 ∙ l.0, k.1 ∙ l.1, k.2 ∙ l.2, k.3 ∙ l.3)

track-Fits :
    (es : List Event) (g : WorkloadGenerator)
    → AllSmall (track es g).live_ids
    → Fits g
    → Fits (track es g)
track-Fits es g ids f =
    let (lo, hi, cdf, mid) = tracked es g in
    record {
      ordered = rw (lo, hi) f.ordered;
      low = rw (lo, mid) f.low;
      high = rw (mid, hi) f.high;
      room = rw (hi, cdf) f.room;
      ids = ids;
    }

abbrev ResultFits : Option WorkloadGenerator → Type 0
ResultFits none = Unit {0}
ResultFits (some g) = Fits g

apply-Fits : (g : WorkloadGenerator) (cmd : Command) → Fits g → ResultFits (apply g cmd)
unfolding apply
apply-Fits g cmd f = elim (Option-cases (process g.engine cmd)) [
  | inl e ↦ rw (apply, e) tt
  | inr ((m', events), e) ↦
      rw (apply, e)
        (track-Fits events (record g { engine = m' })
          (track-AllSmall events (record g { engine = m' })
            (process-IdsFit g.engine m' cmd events e) f.ids)
          (record { ordered = f.ordered; low = f.low; high = f.high; room = f.room; ids = f.ids }))
]

abbrev NextFits : Option (Command × WorkloadGenerator) → Type 0
NextFits none = Unit {0}
NextFits (some (cmd, g)) = CommandInRange cmd × Fits g

next-Fits : (g : WorkloadGenerator) → Fits g → NextFits (next g)
unfolding next
next-Fits g f =
    let g1 = maybe_step_mid g in
    let (r, g2) = bounded_rand g1 g.total_weight in
    let (cmd, g3) = choose g2 r in
    let k = choose-Good g2 r (drawn-Fits g1 g.total_weight (step-Fits g f)) in
    elim (Option-cases (apply g3 cmd)) [
      | inl e ↦ rw (next, e) tt
      | inr (g4, e) ↦ rw (next, e) (k.0, subst ResultFits e (apply-Fits g3 cmd k.1))
    ]

abbrev pub AllInRange : List Command → Type 0
AllInRange [] = Unit {0}
AllInRange (cmd ∷ cmds) = CommandInRange cmd × AllInRange cmds

abbrev AllResult : Option (List Command) → Type 0
AllResult none = Unit {0}
AllResult (some cmds) = AllInRange cmds

generate-AllResult : (n : ℕ) (g : WorkloadGenerator) → Fits g → AllResult (generate n g)
unfolding generate
generate-AllResult zero g f = tt
generate-AllResult (suc n) g f = elim (Option-cases (next g)) [
  | inl e ↦ rw (generate, e) tt
  | inr ((cmd, g'), e) ↦
      let k = subst NextFits e (next-Fits g f) in
      elim (Option-cases (generate n g')) [
        | inl e' ↦ rw (generate, e, e') tt
        | inr (cmds, e') ↦
            rw (generate, e, e') (k.0, subst AllResult e' (generate-AllResult n g' k.1))
      ]
]

length-harmonic_cdf : (n k acc : ℕ) → length (harmonic_cdf n k acc) ≡ n
unfolding harmonic_cdf
length-harmonic_cdf zero k acc = refl
length-harmonic_cdf (suc n) k acc = ap suc (length-harmonic_cdf n (suc k) _)

-- no price of the walk, with its offset, is above the 64-bit prices
abbrev pub PricesFit : WorkloadConfig → Type 0
PricesFit cfg =
    (leb_ℤ (pos 1) cfg.engine.anchor_price ≡ true)
    × (leb_ℤ ((cfg.engine.anchor_price +ℤ pos cfg.walk_radius) +ℤ pos (cfg.max_price_offset + 1))
          (pos (2 ^ 63 - 1))
        ≡ true)

lo_below : (a : ℤ) (n : ℕ) → leb_ℤ (pos 1) a ≡ true → leb_ℤ (max_ℤ (pos 1) (a -ℤ pos n)) a ≡ true
lo_below a n h = ground (arith, -ℤ_parts a (pos n))

below_hi : (a : ℤ) (n : ℕ) → leb_ℤ a (a +ℤ pos n) ≡ true
below_hi a n = ground (arith, +ℤ_parts a (pos n))

leb_trans : (a b c : ℤ) → leb_ℤ a b ≡ true → leb_ℤ b c ≡ true → leb_ℤ a c ≡ true
leb_trans a b c h k = ground arith

init-Fits : (cfg : WorkloadConfig) → PricesFit cfg → Fits (init cfg)
unfolding init
init-Fits cfg p =
    let a = cfg.engine.anchor_price in
    record {
      ordered =
          leb_trans (max_ℤ (pos 1) (a -ℤ pos cfg.walk_radius)) a (a +ℤ pos cfg.walk_radius)
            (lo_below a cfg.walk_radius p.0) (below_hi a cfg.walk_radius);
      low = lo_below a cfg.walk_radius p.0;
      high = below_hi a cfg.walk_radius;
      room = rw (length-harmonic_cdf (cfg.max_price_offset + 1) 0 0) p.1;
      ids = tt;
    }

-- The generated commands have 32-bit quantities, 64-bit prices and 64-bit ids.
pub generate-AllInRange :
    (n : ℕ) (cfg : WorkloadConfig) (cmds : List Command)
    → PricesFit cfg
    → generate n (init cfg) ≡ some cmds
    → AllInRange cmds
generate-AllInRange n cfg cmds p e =
    subst AllResult e (generate-AllResult n (init cfg) (init-Fits cfg p))
