-- ===== src/Book/Flight.antt =====
-- The slot that an order in flight holds: minted before the sweep, filled in before it rests, or
-- given back.
use low_latency_orderbook.Prelude.{
  ℕ, ℤ, ◌<◌, ◌^◌, ◌≡◌, ◌≢◌, refl, sym, ap, subst, ◌∙◌, true, ◌==◌, Bool-cases, inl, inr, none, some,
  List, ◌∷◌, arith, has, if◌then◌else◌,
}
use mathlib.Core.Bool.{false≢true}
use low_latency_orderbook.Types.{Side, buy, sell, OrderType}
use low_latency_orderbook.Pool.{Link, OrderPool, alloc, free, minted, set_slot}
use low_latency_orderbook.Pool.Valid.{IsLive}
use low_latency_orderbook.Pool.Alloc.{alloc_state, alloc-IsValid, minted_bounds}
use low_latency_orderbook.Pool.Ids.{make_order_id-ne_zero}
use low_latency_orderbook.Pool.Free.{free-IsValid}
use low_latency_orderbook.Pool.Frame.{frame-IsValid}
use low_latency_orderbook.Ladder.Holds.{Holds, Holds-frame}
use low_latency_orderbook.Book.{OrderBook, ladder, free_slot, filled_order}
use low_latency_orderbook.Book.Valid.{Sides, IsValid}

module _ {b : OrderBook} {c : Sides} {bs : Side → List ℕ} {fs : List ℕ} where
  -- a change of the pool that spares the slots of resting orders
  sides-frame :
      {flight : Link} (p : OrderPool)
      → IsValid b c bs fs flight
      → ((side : Side) (q : ℤ) (j : ℕ) → has j (c side q) ≡ true → p.slots j ≡ b.pool.slots j)
      → (side : Side) → Holds (ladder (record b { pool = p }) side) p.slots (c side) (bs side)
  sides-frame p v same buy = Holds-frame (v.sides buy) p.slots (same buy)
  sides-frame p v same sell = Holds-frame (v.sides sell) p.slots (same sell)

  own-frame :
      {flight : Link} (p : OrderPool)
      → IsValid b c bs fs flight
      → (side : Side) → (ladder (record b { pool = p }) side).side ≡ side
  own-frame p v buy = v.own_side buy
  own-frame p v sell = v.own_side sell

module _ {b : OrderBook} {c : Sides} {bs : Side → List ℕ} {i : ℕ} {fs : List ℕ}
    (v : IsValid b c bs (i ∷ fs) none) where
  -- the slot is not live before
  pub was_free : IsLive b.pool i → ⊥
  was_free l = l.1 (ground (arith, v.pool.slot i l.0))

  minted_slots :
      (j : ℕ)
      → (alloc b.pool).1.slots j ≡ (if i == j then minted (b.pool.slots i) i else b.pool.slots j)
  minted_slots j = ap (λ (r : ℕ × OrderPool). r.1.slots j) (alloc_state b.pool i v.pool)

  minted_capacity : (alloc b.pool).1.capacity ≡ b.pool.capacity
  minted_capacity = ap (λ (r : ℕ × OrderPool). r.1.capacity) (alloc_state b.pool i v.pool)

  pub others : (j : ℕ) → i ≢ j → (alloc b.pool).1.slots j ≡ b.pool.slots j
  others j ne = ground (arith, minted_slots j)

  pub resting_ne : (side : Side) (q : ℤ) (j : ℕ) → has j (c side q) ≡ true → i ≢ j
  resting_ne side q j m e = was_free (subst (λ k. IsLive b.pool k) (sym e) (v.live side q j m).0)

  minted_fields :
      (((alloc b.pool).1.slots i).order_id ≢ 0)
      × (((alloc b.pool).1.slots i).next_idx ≡ none)
      × (((alloc b.pool).1.slots i).remaining ≡ (b.pool.slots i).remaining)
  unfolding minted
  minted_fields = ground (
    arith,
    minted_slots i,
    minted_bounds b.pool i v.pool,
    make_order_id-ne_zero _ i (minted_bounds b.pool i v.pool).1
        (omega (arith, minted_bounds b.pool i v.pool)) (minted_bounds b.pool i v.pool).0,
  )

  minted-IsLive : (j : ℕ) → i ≢ j → IsLive (alloc b.pool).1 j → IsLive b.pool j
  minted-IsLive j ne l = (rw minted_capacity at l.0, rw (others j ne) at l.1)

  keeps_IsLive : (j : ℕ) → i ≢ j → IsLive b.pool j → IsLive (alloc b.pool).1 j
  keeps_IsLive j ne l = (rw minted_capacity l.0, rw (others j ne) l.1)

  -- After an allocation the minted slot is in flight, and nothing else has changed.
  pub alloc-IsValid_book : IsValid (record b { pool = (alloc b.pool).1 }) c bs fs (some i)
  alloc-IsValid_book = record {
    pool = alloc-IsValid b.pool i v.pool;
    sides = sides-frame (alloc b.pool).1 v (λ side q j m. others j (resting_ne side q j m));
    own_side = own-frame (alloc b.pool).1 v;
    wide = λ j. elim (Bool-cases (i == j)) [
      | inl same ↦
          let e : i ≡ j = ground arith in
          subst (λ k. ((alloc b.pool).1.slots k).remaining < 2 ^ 32) e
            (rw minted_fields.2 (v.wide i))
      | inr other ↦ rw (others j (ground arith)) (v.wide j)
    ];
    live = λ side q j m. (
      keeps_IsLive j (resting_ne side q j m) (v.live side q j m).0,
      ground (arith, resting_ne side q j m),
    );
    rests = λ j l n.
        let ne : i ≢ j = ground arith in rw (others j ne) (v.rests j (minted-IsLive j ne l) refl);
    in_flight = λ j n.
        let e : i ≡ j = ground arith in
        subst (λ k. IsLive (alloc b.pool).1 k × (((alloc b.pool).1.slots k).next_idx ≡ none)) e
          (
            (rw minted_capacity (v.pool.in_range i (ground arith)), minted_fields.0),
            minted_fields.1,
          );
  }

module _ {b : OrderBook} {c : Sides} {bs : Side → List ℕ} {fs : List ℕ} {i : ℕ}
    (v : IsValid b c bs fs (some i)) where
  pub flight_ne : (side : Side) (q : ℤ) (j : ℕ) → has j (c side q) ≡ true → i ≢ j
  flight_ne side q j m = ground (arith, (v.live side q j m).1)

  pub flight-IsLive : IsLive b.pool i × ((b.pool.slots i).next_idx ≡ none)
  flight-IsLive = v.in_flight i (ground arith)

  pub freed_others : (j : ℕ) → i ≢ j → (free b.pool i).slots j ≡ b.pool.slots j
  unfolding free
  freed_others j ne = ground arith

  freed_fields :
      ((free b.pool i).capacity ≡ b.pool.capacity)
      × (((free b.pool i).slots i).order_id ≡ 0)
      × (((free b.pool i).slots i).remaining ≡ (b.pool.slots i).remaining)
  unfolding free
  freed_fields = ground arith

  ne_of_live : (j : ℕ) → IsLive (free b.pool i) j → i ≢ j
  ne_of_live j l e = l.1 (subst (λ k. ((free b.pool i).slots k).order_id ≡ 0) e freed_fields.1)

  -- The slot in flight is given back, and nothing else has changed.
  pub give_back-IsValid : IsValid (free_slot b i) c bs (i ∷ fs) none
  give_back-IsValid = record {
    pool = free-IsValid b.pool v.pool i flight-IsLive.0;
    sides = sides-frame (free b.pool i) v (λ side q j m. freed_others j (flight_ne side q j m));
    own_side = own-frame (free b.pool i) v;
    wide = λ j. elim (Bool-cases (i == j)) [
      | inl same ↦
          let e : i ≡ j = ground arith in
          subst (λ k. ((free b.pool i).slots k).remaining < 2 ^ 32) e (rw freed_fields.2 (v.wide i))
      | inr other ↦ rw (freed_others j (ground arith)) (v.wide j)
    ];
    live = λ side q j m.
        let ne = flight_ne side q j m in
        (
          (
            rw freed_fields.0 (v.live side q j m).0.0,
            rw (freed_others j ne) (v.live side q j m).0.1,
          ),
          refl,
        );
    rests = λ j l n.
        let ne = ne_of_live j l in
        rw (freed_others j ne)
          (v.rests j (rw freed_fields.0 at l.0, rw (freed_others j ne) at l.1) (ground arith));
    in_flight = λ j n. absurd (false≢true n);
  }

  module _ (side : Side) (type : OrderType) (price : ℤ) (qty remaining : ℕ)
      (narrow : remaining < 2 ^ 32) where
    written : OrderPool
    written = set_slot b.pool i (filled_order (b.pool.slots i) side type price qty remaining)

    written_others : (j : ℕ) → i ≢ j → written.slots j ≡ b.pool.slots j
    unfolding written
    written_others j ne = ground arith

    written_same :
        (j : ℕ)
        → ((written.slots j).order_id ≡ (b.pool.slots j).order_id)
          × ((written.slots j).generation ≡ (b.pool.slots j).generation)
          × ((written.slots j).next_idx ≡ (b.pool.slots j).next_idx)
          × ((b.pool.slots j).remaining < 2 ^ 32 → (written.slots j).remaining < 2 ^ 32)
    unfolding written filled_order
    written_same j = ground arith

    -- The fields of the order in flight are written, and nothing else has changed.
    pub written-IsValid :
        IsValid
          (record b {
            pool = set_slot b.pool i (filled_order (b.pool.slots i) side type price qty remaining);
          })
          c
          bs
          fs
          (some i)
    unfolding written
    written-IsValid = record {
      pool =
          frame-IsValid b.pool written.slots v.pool (λ j. ((written_same j).0, (written_same j).1))
            (λ j m. (written_same j).2);
      sides = sides-frame written v (λ side q j m. written_others j (flight_ne side q j m));
      own_side = own-frame written v;
      wide = λ j. (written_same j).3 (v.wide j);
      live = λ side q j m. (
        ((v.live side q j m).0.0, rw (written_same j).0 (v.live side q j m).0.1),
        (v.live side q j m).1,
      );
      rests = λ j l n.
          let ne : i ≢ j = ground arith in
          rw (written_others j ne) (v.rests j (l.0, rw (written_same j).0 at l.1) n);
      in_flight = λ j n. (
        ((v.in_flight j n).0.0, rw (written_same j).0 (v.in_flight j n).0.1),
        (written_same j).2 ∙ (v.in_flight j n).1,
      );
    }
