-- ===== src/Book/Push.antt =====
-- A limit order's remainder comes to rest: it stands last at its price, and its slot is no more in
-- flight.
use low_latency_orderbook.Prelude.{
  update_self, ℕ, ℤ, eqb_ℤ_refl, ◌≤◌, ◌<◌, ◌^◌, ◌≡◌, ◌≢◌, refl, sym, ap, subst, ◌∙◌, true, false,
  ◌==◌, Bool-cases, inl, inr, none, some, List, [], ◌∷◌, ◌++◌, arith, has, update,
}
use mathlib.Core.Bool.{false≢true}
use low_latency_orderbook.Types.{Side, buy, sell, opposite, OrderType}
use low_latency_orderbook.Pool.{LevelIdx, OrderPool, set_slot}
use low_latency_orderbook.Pool.Valid.{IsLive}
use low_latency_orderbook.Level.{Slots}
use low_latency_orderbook.Ladder.{PriceLadder, push_order}
use low_latency_orderbook.Ladder.Holds.{put_at, level_ref}
use low_latency_orderbook.Ladder.Push.{IsNew, band_push}
use low_latency_orderbook.Ladder.PushOrder.{push_order-Holds, push_order-Touched, has-after}
use low_latency_orderbook.Ladder.Touched.{Touched, Touched-IsWide, fixed}
use low_latency_orderbook.Book.{OrderBook, ladder, with_ladder, filled_order, rest}
use low_latency_orderbook.Book.Valid.{Sides, at_side, IsValid}
use low_latency_orderbook.Book.Assemble.{assemble, touched_pool, other_Holds}
use low_latency_orderbook.Book.Remove.{has-at_side}
use low_latency_orderbook.Book.Flight.{flight-IsLive, written-IsValid}
use low_latency_orderbook.Book.Rest.{with_ladder_lem}

side-push_order : (ld : PriceLadder) (s : Slots) (i : ℕ) → (push_order ld s i).0.side ≡ ld.side
unfolding push_order
side-push_order ld s i = ground arith

-- the order lists with the slot `i` last at the price `q`
abbrev pub with_last : Sides → Side → ℤ → ℕ → Sides
with_last c side q i = at_side c side (put_at (c side) q (c side q ++ i ∷ []))

module _ {b : OrderBook} {c : Sides} {bs : Side → List ℕ} {fs : List ℕ} {i : ℕ}
    (v : IsValid b c bs fs (some i)) (side : Side) (is_side : (b.pool.slots i).side ≡ side)
    (some_open : 1 ≤ (b.pool.slots i).remaining)
    (within : (b.pool.slots i).remaining ≤ (b.pool.slots i).qty) where
  is_new : IsNew (ladder b side) b.pool.slots (c side) i
  is_new = record {
    absent = λ p. elim (Bool-cases (has i (c side p))) [
      | inl m ↦ absurd (omega (arith, not_self (v.live side p i m).1))
      | inr out ↦ out
    ];
    unlinked = (flight-IsLive v).1;
    side = is_side ∙ sym (v.own_side side);
    open_qty = some_open;
    within_qty = within;
    index = omega (arith, (flight-IsLive v).0, v.pool.small);
  }
    where
      not_self : (i == i) ≡ false → ⊥
      not_self e = ground arith

  slots' : Slots
  slots' = (push_order (ladder b side) b.pool.slots i).1

  ref : LevelIdx
  ref = level_ref (ladder b side) (b.pool.slots i).price_ticks

  touched : Touched b.pool.slots slots' i (c side (b.pool.slots i).price_ticks) ref
  unfolding slots' ref
  touched = push_order-Touched (v.sides side) v.wide i is_new

  -- What stands in the slots, but for links, stays.
  pub pushed_slots :
      (j : ℕ) → fixed ((push_order (ladder b side) b.pool.slots i).1 j) ≡ fixed (b.pool.slots j)
  unfolding slots' ref
  pushed_slots = touched.data_same

  out_of : (sd : Side) (p : ℤ) → has i (c sd p) ≡ false
  out_of sd p = elim (Bool-cases (has i (c sd p))) [
    | inl m ↦ absurd (not_self (v.live sd p i m).1)
    | inr out ↦ out
  ]
    where
      not_self : (i == i) ≡ false → ⊥
      not_self e = ground arith

  ne_of_mem : (sd : Side) (p : ℤ) (j : ℕ) → has j (c sd p) ≡ true → i ≢ j
  ne_of_mem sd p j m e = false≢true (sym (out_of sd p) ∙ rw e m)

  same_id : (j : ℕ) → (slots' j).order_id ≡ (b.pool.slots j).order_id
  same_id j = ap (λ o. o.order_id) (touched.data_same j)

  IsLive-now : (j : ℕ) → IsLive b.pool j → IsLive (record (b.pool) { slots = slots' }) j
  IsLive-now j l = (l.0, rw (same_id j) l.1)

  last_here :
      has i (
        put_at
          (c side)
          (b.pool.slots i).price_ticks
          (c side (b.pool.slots i).price_ticks ++ i ∷ [])
          (b.pool.slots i).price_ticks)
      ≡ true
  last_here =
      has-after (v.sides side) v.wide i is_new i (b.pool.slots i).price_ticks
      ∙ ground (arith, eqb_ℤ_refl (b.pool.slots i).price_ticks)

  still :
      (j : ℕ) (p : ℤ)
      → has j (c side p) ≡ true
      → has j (
          put_at
            (c side)
            (b.pool.slots i).price_ticks
            (c side (b.pool.slots i).price_ticks ++ i ∷ [])
            p)
        ≡ true
  still j p mj = has-after (v.sides side) v.wide i is_new j p ∙ ground arith

  IsLive-after :
      (p : ℤ) (j : ℕ)
      → has j (
          put_at
            (c side)
            (b.pool.slots i).price_ticks
            (c side (b.pool.slots i).price_ticks ++ i ∷ [])
            p)
        ≡ true
      → IsLive b.pool j
  IsLive-after p j mj = elim (Bool-cases (j == i)) [
    | inl same ↦ let e : i ≡ j = ground arith in subst (λ k. IsLive b.pool k) e (flight-IsLive v).0
    | inr other ↦ (v.live side p j (ground (arith, has-after (v.sides side) v.wide i is_new j p))).0
  ]

  rests_now :
      (j : ℕ)
      → IsLive b.pool j
      → has j (
          with_last c side
            (b.pool.slots i).price_ticks
            i
            (b.pool.slots j).side
            (b.pool.slots j).price_ticks)
        ≡ true
  rests_now j l = elim (Bool-cases (i == j)) [
    | inl same ↦
        let e : i ≡ j = ground arith in
        subst
          (λ k.
            has k (
              with_last c side (b.pool.slots i).price_ticks i (b.pool.slots k).side
                (b.pool.slots k).price_ticks)
            ≡ true)
          e
          (has-at_side c side (b.pool.slots i).side _ (b.pool.slots i).price_ticks i
            (λ e. last_here) (λ ne. absurd (ne is_side)))
    | inr other ↦
        let m = v.rests j l (ground arith) in
        has-at_side c side (b.pool.slots j).side _ (b.pool.slots j).price_ticks j
          (λ e. still j (b.pool.slots j).price_ticks (rw e at m)) (λ e. m)
  ]

  -- With the order in flight pushed to its ladder, the book is valid and no order is in flight.
  pub pushed-IsValid :
      IsValid
        (with_ladder b side (push_order (ladder b side) b.pool.slots i))
        (with_last c side (b.pool.slots i).price_ticks i)
        (at_side bs side (band_push (ladder b side) (b.pool.slots i).price_ticks i (bs side)))
        fs
        none
  unfolding slots' ref
  pushed-IsValid = rw (with_ladder_lem b side (push_order (ladder b side) b.pool.slots i)) (
      assemble b c bs side (push_order (ladder b side) b.pool.slots i).0
        (record (b.pool) { slots = slots' })
        (put_at (c side) (b.pool.slots i).price_ticks
          (c side (b.pool.slots i).price_ticks ++ i ∷ []))
        (band_push (ladder b side) (b.pool.slots i).price_ticks i (bs side)) fs none
        (record {
          pool =
              touched_pool v side _ i slots' ref touched (flight-IsLive v).0
                (out_of (opposite side));
          here = push_order-Holds (v.sides side) v.wide i is_new;
          there =
              other_Holds v side _ i slots' ref touched (flight-IsLive v).0
                (out_of (opposite side));
          own_here = side-push_order (ladder b side) b.pool.slots i ∙ v.own_side side;
          own_there = v.own_side (opposite side);
          wide = Touched-IsWide touched v.wide;
          live_here = λ p j mj. (IsLive-now j (IsLive-after p j mj), refl);
          live_there = λ p j mj. (IsLive-now j (v.live (opposite side) p j mj).0, refl);
          rests = λ j l n.
              rw
                (
                  ap (λ o. o.side) (touched.data_same j),
                  ap (λ o. o.price_ticks) (touched.data_same j),
                )
                (rests_now j (l.0, rw (same_id j) at l.1));
          in_flight = λ j n. absurd (false≢true n);
        }))

rest_lem :
    (b : OrderBook) (i : ℕ) (side : Side) (type : OrderType) (price : ℤ) (qty remaining : ℕ)
    → let b' = record b {
      pool = set_slot b.pool i (filled_order (b.pool.slots i) side type price qty remaining);
    } in
      rest b i side type price qty remaining
      ≡ with_ladder b' side (push_order (ladder b' side) b'.pool.slots i)
unfolding rest
rest_lem b i buy type price qty remaining = refl
rest_lem b i sell type price qty remaining = refl

-- the lists of a side's orders in the band, after a push
abbrev pub bands_after : OrderBook → (Side → List ℕ) → Side → ℤ → ℕ → Side → List ℕ
bands_after b bs side q i = at_side bs side (band_push (ladder b side) q i (bs side))

ladder-pool :
    (b : OrderBook) (p : OrderPool) (side : Side)
    → ladder (record b { pool = p }) side ≡ ladder b side
ladder-pool b p buy = refl
ladder-pool b p sell = refl

pub written_fields :
    (s : Slots) (i : ℕ) (side : Side) (type : OrderType) (price : ℤ) (qty remaining : ℕ)
    → let o = update s i (filled_order (s i) side type price qty remaining) i in
      (o.price_ticks ≡ price) × (o.side ≡ side) × (o.remaining ≡ remaining) × (o.qty ≡ qty)
unfolding filled_order
written_fields s i side type price qty remaining = ground arith

-- The order in flight comes to rest with the given fields, last at its price.
pub rest-IsValid :
    {b : OrderBook} {c : Sides} {bs : Side → List ℕ} {fs : List ℕ} {i : ℕ}
    (v : IsValid b c bs fs (some i)) (side : Side) (type : OrderType) (price : ℤ)
    (qty remaining : ℕ)
    → 1 ≤ remaining
    → remaining < 2 ^ 32
    → remaining ≤ qty
    → IsValid
        (rest b i side type price qty remaining)
        (with_last c side price i)
        (bands_after b bs side price i)
        fs
        none
rest-IsValid {b} {c} {bs} {fs} {i} v side type price qty remaining some_open narrow within =
    let b' = record b {
      pool = set_slot b.pool i (filled_order (b.pool.slots i) side type price qty remaining);
    } in
    rw (rest_lem b i side type price qty remaining) (
      subst
        (λ (ld : PriceLadder).
          IsValid (with_ladder b' side (push_order (ladder b' side) b'.pool.slots i))
            (with_last c side price i) (at_side bs side (band_push ld price i (bs side))) fs none)
        (ladder-pool b b'.pool side)
        (let (at_price, at_side', open', whole) =
            written_fields b.pool.slots i side type price qty remaining in
          subst
            (λ (q : ℤ).
              IsValid (with_ladder b' side (push_order (ladder b' side) b'.pool.slots i))
                (with_last c side q i) (at_side bs side (band_push (ladder b' side) q i (bs side)))
                fs none)
            at_price
            (pushed-IsValid (written-IsValid v side type price qty remaining narrow) side at_side'
              (rw open' some_open) (rw (open', whole) within))))

pub rest_pool :
    (b : OrderBook) (i : ℕ) (side : Side) (type : OrderType) (price : ℤ) (qty remaining : ℕ)
    → let b' = record b {
      pool = set_slot b.pool i (filled_order (b.pool.slots i) side type price qty remaining);
    } in
      (rest b i side type price qty remaining).pool
      ≡ record (b'.pool) { slots = (push_order (ladder b' side) b'.pool.slots i).1 }
unfolding rest
rest_pool b i buy type price qty remaining = refl
rest_pool b i sell type price qty remaining = refl

-- The slot of the order that came to rest, but for its links.
pub rest-fixed :
    {b : OrderBook} {c : Sides} {bs : Side → List ℕ} {fs : List ℕ} {i : ℕ}
    (v : IsValid b c bs fs (some i)) (side : Side) (type : OrderType) (price : ℤ)
    (qty remaining : ℕ)
    → 1 ≤ remaining
    → remaining < 2 ^ 32
    → remaining ≤ qty
    → fixed ((rest b i side type price qty remaining).pool.slots i)
      ≡ fixed (filled_order (b.pool.slots i) side type price qty remaining)
rest-fixed {b} {i = i} v side type price qty remaining some_open narrow within =
    let o = filled_order (b.pool.slots i) side type price qty remaining in
    let (at_price, at_side', open', whole) =
      written_fields b.pool.slots i side type price qty remaining in
    rw (rest_pool b i side type price qty remaining) (
      pushed_slots (written-IsValid v side type price qty remaining narrow) side at_side'
        (rw open' some_open) (rw (open', whole) within) i
      ∙ ap fixed (update_self b.pool.slots i o))
