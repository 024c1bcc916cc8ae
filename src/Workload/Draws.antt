-- ===== src/Workload/Draws.antt =====
-- What the generator draws stays within its configuration.
use low_latency_orderbook.Prelude.{
  ℕ, List, ◌∷◌, ◌++◌, none, some, none≢some, Option-cases, sym, ap, ◌∙◌, ◌≢◌, ℤ, pos, leb_ℤ, ◌+ℤ◌,
  ◌-ℤ◌, ◌+◌, ◌-◌, ◌^◌, ◌<◌, ◌≤◌, ◌≡◌, refl, not, true, false, Bool-cases, inl, inr, arith,
  if◌then◌else◌,
}
use native.Mathlib.Nat.{mod-lt}
use low_latency_orderbook.Types.{
  Command, Event, Side, is_buy, OrderType, limit, market, ioc, is_market,
}
use low_latency_orderbook.Workload.{
  WorkloadGenerator, bounded_rand, one_in, maybe_step_mid, make_price, make_add, sample_zipf_offset,
  price_for, clamp, max_ℤ, next_u64,
}
use low_latency_orderbook.Event.{accepted_event, order_price}
use low_latency_orderbook.Pool.{alloc}
use low_latency_orderbook.Book.{OrderBook, match, sweep_limit, finish, add_minted}
use low_latency_orderbook.Book
use low_latency_orderbook.Book.Valid.{Sides}
use low_latency_orderbook.Book.Add.{Represents, Added, is_acceptable, add-Added, add-accepted}

bounded_rand_bound : (g : WorkloadGenerator) (n : ℕ) → 0 < n → (bounded_rand g n).0 < n
unfolding bounded_rand
bounded_rand_bound g n h = mod-lt (next_u64 g.rng_state).1 h

clamp_bounds :
    (v lo hi : ℤ)
    → leb_ℤ lo hi ≡ true
    → (leb_ℤ lo (clamp v lo hi) ≡ true) × (leb_ℤ (clamp v lo hi) hi ≡ true)
clamp_bounds v lo hi h = ground arith

one_in-mid : (g : WorkloadGenerator) (n : ℕ) → (one_in g n).1.mid ≡ g.mid
unfolding one_in bounded_rand
one_in-mid g n = refl

-- The mid price stays between the two ends of its walk.
pub maybe_step_mid_bounds :
    (g : WorkloadGenerator)
    → leb_ℤ g.walk_lo g.walk_hi ≡ true
    → leb_ℤ g.walk_lo g.mid ≡ true
    → leb_ℤ g.mid g.walk_hi ≡ true
    → (leb_ℤ g.walk_lo (maybe_step_mid g).mid ≡ true)
      × (leb_ℤ (maybe_step_mid g).mid g.walk_hi ≡ true)
unfolding maybe_step_mid
maybe_step_mid_bounds g h lo hi = elim (Bool-cases (one_in g g.cfg.walk_one_in).0) [
  | inl e ↦
      rw (e, maybe_step_mid)
        (clamp_bounds
          (if (one_in (bounded_rand (one_in g g.cfg.walk_one_in).1 g.cfg.max_walk_step).1 2).0
            then g.mid
              +ℤ pos (1 + (bounded_rand (one_in g g.cfg.walk_one_in).1 g.cfg.max_walk_step).0)
            else g.mid
              -ℤ pos (1 + (bounded_rand (one_in g g.cfg.walk_one_in).1 g.cfg.max_walk_step).0))
          g.walk_lo g.walk_hi h)
  | inr e ↦ rw (e, maybe_step_mid, one_in-mid g g.cfg.walk_one_in) (lo, hi)
]

at_least_one : (x : ℤ) → leb_ℤ (max_ℤ (pos 1) x) (pos 0) ≡ false
at_least_one x = ground arith

price_positive : (g : WorkloadGenerator) (side : Side) → leb_ℤ (make_price g side).0 (pos 0) ≡ false
unfolding make_price
price_positive g side = at_least_one (
    if (if is_buy side
      then (one_in (sample_zipf_offset g).1 g.cfg.cross_one_in).0
      else not (one_in (sample_zipf_offset g).1 g.cfg.cross_one_in).0)
    then g.mid +ℤ pos (sample_zipf_offset g).0
    else g.mid -ℤ pos (sample_zipf_offset g).0)

priced :
    (type : OrderType) (g : WorkloadGenerator) (side : Side) (qty : ℕ)
    → 1 ≤ qty
    → is_acceptable type (price_for (is_market type) g side).0 qty ≡ true
priced limit g side qty h = ground (arith, price_positive g side)
priced market g side qty h = ground arith
priced ioc g side qty h = ground (arith, price_positive g side)

add_minted-stuck :
    (b : OrderBook) (side : Side) (type : OrderType) (price : ℤ) (qty id : ℕ)
    → match b side (sweep_limit side type price) qty id ≡ none
    → add_minted b side type price qty id ≡ none
unfolding add_minted
add_minted-stuck b side type price qty id e = rw (e, add_minted) refl

add_minted-swept :
    (b : OrderBook) (side : Side) (type : OrderType) (price : ℤ) (qty id left : ℕ) (b' : OrderBook)
    (events : List Event)
    → match b side (sweep_limit side type price) qty id ≡ some (left, b', events)
    → let last = finish b' side type price qty left id in
      add_minted b side type price qty id
      ≡ some
          (last.0, last.1, accepted_event side qty (order_price type price) id ∷ (events ++ last.2))
unfolding add_minted
add_minted-swept b side type price qty id left b' events e = rw (e, add_minted) refl

-- an accepted order on a book with a free slot
abbrev pub Accepted : OrderBook → Command → Type 0
Accepted b cmd =
    (b' : OrderBook) × (events : List Event) × (Book.add b cmd.side cmd.type cmd.price_ticks cmd.qty
      ≡ some (
        (alloc b.pool).0,
        b',
        accepted_event cmd.side cmd.qty (order_price cmd.type cmd.price_ticks) (alloc b.pool).0
            ∷ events,
      ))

finish-id :
    (b : OrderBook) (side : Side) (type : OrderType) (price : ℤ) (qty left id : ℕ)
    → (finish b side type price qty left id).0 ≡ id
unfolding finish
finish-id b side type price qty left id = ground arith

Accepted-returns :
    {b : OrderBook} {c : Sides} (r : Represents b c) (cmd : Command)
    → (alloc b.pool).0 ≢ 0
    → cmd.qty < 2 ^ 32
    → is_acceptable cmd.type cmd.price_ticks cmd.qty ≡ true
    → Accepted b cmd
Accepted-returns {b} {c} r cmd free narrow ok = elim (Option-cases swept) [
  | inl stuck ↦ absurd (none≢some (a.id, a.book, a.events) (sym (minted-none stuck) ∙ same))
  | inr ((left, b', events), e) ↦
      let last = finish b' cmd.side cmd.type cmd.price_ticks cmd.qty left id in
      (
        last.1,
        events ++ last.2,
        returns
            ∙ minted-some left b' events e
            ∙ ap
                (λ i. some (
                  i,
                  last.1,
                  accepted_event cmd.side cmd.qty (order_price cmd.type cmd.price_ticks) id
                      ∷ (events ++ last.2),
                ))
                (finish-id b' cmd.side cmd.type cmd.price_ticks cmd.qty left id),
      )
]
  where
    id : ℕ
    id = (alloc b.pool).0

    b1 : OrderBook
    b1 = record b { pool = (alloc b.pool).1 }

    swept : Book.Outcome ℕ
    swept = match b1 cmd.side (sweep_limit cmd.side cmd.type cmd.price_ticks) cmd.qty id

    a : Added c (Book.add b cmd.side cmd.type cmd.price_ticks cmd.qty)
    a = add-Added r cmd.side cmd.type cmd.price_ticks cmd.qty narrow

    returns :
        Book.add b cmd.side cmd.type cmd.price_ticks cmd.qty
        ≡ add_minted b1 cmd.side cmd.type cmd.price_ticks cmd.qty id
    returns = add-accepted b cmd.side cmd.type cmd.price_ticks cmd.qty ok free

    same :
        add_minted b1 cmd.side cmd.type cmd.price_ticks cmd.qty id ≡ some (a.id, a.book, a.events)
    same = sym returns ∙ a.returns

    minted-none : swept ≡ none → add_minted b1 cmd.side cmd.type cmd.price_ticks cmd.qty id ≡ none
    minted-none e = add_minted-stuck b1 cmd.side cmd.type cmd.price_ticks cmd.qty id e

    minted-some :
        (left : ℕ) (b' : OrderBook) (events : List Event)
        → swept ≡ some (left, b', events)
        → let last = finish b' cmd.side cmd.type cmd.price_ticks cmd.qty left id in
          add_minted b1 cmd.side cmd.type cmd.price_ticks cmd.qty id
          ≡ some (
            last.0,
            last.1,
            accepted_event cmd.side cmd.qty (order_price cmd.type cmd.price_ticks) id
                ∷ (events ++ last.2),
          )
    minted-some left b' events e =
        add_minted-swept b1 cmd.side cmd.type cmd.price_ticks cmd.qty id left b' events e

-- An order that the generator draws has a quantity within the configured 32-bit bounds, and `add` on
-- any valid book with a free slot returns and accepts it: its first event is not a reject.
pub make_add-acceptable :
    (g : WorkloadGenerator) (type : OrderType) {b : OrderBook} {c : Sides}
    → Represents b c
    → (alloc b.pool).0 ≢ 0
    → 1 ≤ g.cfg.min_qty
    → g.cfg.min_qty ≤ g.cfg.max_qty
    → g.cfg.max_qty < 2 ^ 32
    → let (cmd, g') = make_add g type in
      (g.cfg.min_qty ≤ cmd.qty) × (cmd.qty ≤ g.cfg.max_qty) × Accepted b cmd
unfolding make_add
make_add-acceptable g type r free least ordered narrow =
    let q =
      bounded_rand_bound (bounded_rand g 2).1 (g.cfg.max_qty - g.cfg.min_qty + 1) (omega arith) in
    (
      omega (arith, q),
      omega (arith, q),
      Accepted-returns r (make_add g type).0 free (omega (arith, q))
          (priced type _ _ _ (omega (arith, q, least))),
    )
