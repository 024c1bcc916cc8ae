-- ===== src/Book/Assemble.antt =====
-- How the book's invariant is put together again after an operation on one side: `Rebuilt` lists
-- what is to be shown of the new ladder of that side and of the new pool.
use low_latency_orderbook.Prelude.{
  ℕ, ℤ, ◌≡◌, ◌≢◌, sym, ap, ◌∙◌, true, false, Bool-cases, inl, inr, none, List, has,
}
use mathlib.Core.Bool.{false≢true}
use low_latency_orderbook.Types.{Side, buy, sell, opposite}
use low_latency_orderbook.Pool.{Link, LevelIdx, OrderPool}
use low_latency_orderbook.Pool.Valid.{IsLive}
use low_latency_orderbook.Pool.Find.{not_free}
use low_latency_orderbook.Pool.Frame.{SameIds, frame-IsValid}
use low_latency_orderbook.Pool.Valid
use low_latency_orderbook.Level.{Slots}
use low_latency_orderbook.Level.Fifo.{IsWide}
use low_latency_orderbook.Level.Seg.{names}
use low_latency_orderbook.Ladder.{PriceLadder}
use low_latency_orderbook.Ladder.Holds.{Contents, Holds, Holds-frame}
use low_latency_orderbook.Ladder.Touched.{Touched}
use low_latency_orderbook.Book.{OrderBook, ladder, set_ladder}
use low_latency_orderbook.Book.Valid.{Sides, at_side, IsValid}

pub opposite_ne : (side : Side) → opposite side ≢ side
opposite_ne buy e = absurd (cc)
opposite_ne sell e = absurd (cc)

module _ (b : OrderBook) (c : Sides) (bs : Side → List ℕ) (side : Side) (ld' : PriceLadder)
    (pool' : OrderPool) (cs' : Contents) (bs' fs' : List ℕ) (flight' : Link) where
  pub record Rebuilt : Type 0 where
    pub pool : Valid.IsValid pool' fs'
    pub here : Holds ld' pool'.slots cs' bs'
    pub there :
        Holds (ladder b (opposite side)) pool'.slots (c (opposite side)) (bs (opposite side))
    pub own_here : ld'.side ≡ side
    pub own_there : (ladder b (opposite side)).side ≡ opposite side
    pub wide : IsWide pool'.slots
    pub live_here :
        (q : ℤ) (i : ℕ) → has i (cs' q) ≡ true → IsLive pool' i × (names flight' i ≡ false)
    pub live_there :
        (q : ℤ) (i : ℕ)
        → has i (c (opposite side) q) ≡ true
        → IsLive pool' i × (names flight' i ≡ false)
    pub rests :
        (i : ℕ)
        → IsLive pool' i
        → names flight' i ≡ false
        → has i (at_side c side cs' (pool'.slots i).side (pool'.slots i).price_ticks) ≡ true
    pub in_flight :
        (i : ℕ) → names flight' i ≡ true → IsLive pool' i × ((pool'.slots i).next_idx ≡ none)

pub assemble :
    (b : OrderBook) (c : Sides) (bs : Side → List ℕ) (side : Side) (ld' : PriceLadder)
    (pool' : OrderPool) (cs' : Contents) (bs' fs' : List ℕ) (flight' : Link)
    → Rebuilt b c bs side ld' pool' cs' bs' fs' flight'
    → IsValid
        (set_ladder (record b { pool = pool' }) side ld')
        (at_side c side cs')
        (at_side bs side bs')
        fs'
        flight'
assemble b c bs buy ld' pool' cs' bs' fs' flight' r = record {
  pool = r.pool;
  sides = elim [ buy ↦ r.here | sell ↦ r.there ];
  own_side = elim [ buy ↦ r.own_here | sell ↦ r.own_there ];
  wide = r.wide;
  live = elim [ buy ↦ r.live_here | sell ↦ r.live_there ];
  rests = r.rests;
  in_flight = r.in_flight;
}
assemble b c bs sell ld' pool' cs' bs' fs' flight' r = record {
  pool = r.pool;
  sides = elim [ buy ↦ r.there | sell ↦ r.here ];
  own_side = elim [ buy ↦ r.own_there | sell ↦ r.own_here ];
  wide = r.wide;
  live = elim [ buy ↦ r.live_there | sell ↦ r.live_here ];
  rests = r.rests;
  in_flight = r.in_flight;
}

module _ {b : OrderBook} {c : Sides} {bs : Side → List ℕ} {fs : List ℕ} {flight : Link}
    (v : IsValid b c bs fs flight) where
  -- An order rests on one side only.
  pub one_side :
      (side side' : Side) (q q' : ℤ) (i : ℕ)
      → has i (c side q) ≡ true
      → has i (c side' q') ≡ true
      → side ≡ side'
  one_side side side' q q' i m m' =
      sym (v.own_side side)
      ∙ sym ((v.sides side).rests q i m).side
      ∙ ((v.sides side').rests q' i m').side
      ∙ v.own_side side'

  pub not_opposite :
      (side : Side) (q q' : ℤ) (i : ℕ)
      → has i (c (opposite side) q) ≡ true
      → has i (c side q') ≡ false
  not_opposite side q q' i m = elim (Bool-cases (has i (c side q'))) [
    | inl m' ↦ absurd (opposite_ne side (one_side (opposite side) side q q' i m m'))
    | inr out ↦ out
  ]

  -- What one ladder operation on a live slot `i` and the orders at `q` leaves alone.
  module _ (side : Side) (q : ℤ) (i : ℕ) (s' : Slots) (ref : LevelIdx)
      (t : Touched b.pool.slots s' i (c side q) ref) (IsLive-i : IsLive b.pool i)
      (apart : (p : ℤ) → has i (c (opposite side) p) ≡ false) where
    pub touched_ids : SameIds b.pool.slots s'
    touched_ids j = (ap (λ o. o.order_id) (t.data_same j), ap (λ o. o.generation) (t.data_same j))

    free_link : (j : ℕ) → has j fs ≡ true → (s' j).next_idx ≡ (b.pool.slots j).next_idx
    free_link j m =
        ap (λ o. o.next_idx)
          (t.same j out (λ e. false≢true (sym (not_free b.pool v.pool i IsLive-i) ∙ rw e m)))
      where
        out : has j (c side q) ≡ false
        out = elim (Bool-cases (has j (c side q))) [
          | inl m' ↦ absurd (false≢true (sym (not_free b.pool v.pool j (v.live side q j m').0) ∙ m))
          | inr o ↦ o
        ]

    pub touched_pool : Valid.IsValid (record (b.pool) { slots = s' }) fs
    touched_pool = frame-IsValid b.pool s' v.pool touched_ids free_link

    -- The orders of the other side keep their slots.
    pub other_slots : (p : ℤ) (j : ℕ) → has j (c (opposite side) p) ≡ true → s' j ≡ b.pool.slots j
    other_slots p j m =
        t.same j (not_opposite side p q j m) (λ e. false≢true (sym (apart p) ∙ rw e m))

    pub other_Holds : Holds (ladder b (opposite side)) s' (c (opposite side)) (bs (opposite side))
    other_Holds = Holds-frame (v.sides (opposite side)) s' other_slots
