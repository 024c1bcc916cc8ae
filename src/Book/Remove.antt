-- ===== src/Book/Remove.antt =====
-- An order leaves the book: its ladder unlinks it and its slot goes back to the pool.
use low_latency_orderbook.Prelude.{
  ℕ, ℤ, ◌≡◌, ◌≢◌, refl, sym, ap, subst, ◌∙◌, true, false, ◌==◌, Bool-cases, inl, inr, none, List,
  ◌∷◌, arith, has, erase, if◌then◌else◌,
}
use mathlib.Core.Bool.{false≢true}
use low_latency_orderbook.Types.{Side, buy, sell, opposite}
use low_latency_orderbook.Pool.{Link, unset, OrderPool, free, find}
use low_latency_orderbook.Pool.Valid.{IsLive}
use low_latency_orderbook.Pool.Free.{free-IsValid, find-free}
use low_latency_orderbook.Pool.Frame.{find-same}
use low_latency_orderbook.Level.{Slots}
use low_latency_orderbook.Level.Seg.{names}
use low_latency_orderbook.Ladder.{PriceLadder, remove_order}
use low_latency_orderbook.Ladder.Holds.{Contents, Holds-frame, put_at}
use low_latency_orderbook.Ladder.Touched.{Touched, Touched-IsWide, fixed}
use low_latency_orderbook.Ladder.RemoveBand.{has-left}
use low_latency_orderbook.Ladder.RemoveOrder.{bs_left, remove_order-Holds, remove_order-Touched}
use low_latency_orderbook.Book.{OrderBook, ladder, set_ladder, with_ladder, free_slot}
use low_latency_orderbook.Book.Valid.{Sides, at_side, IsValid}
use low_latency_orderbook.Book.Assemble.{
  assemble, not_opposite, touched_ids, touched_pool, other_Holds,
}

side-remove_order : (ld : PriceLadder) (s : Slots) (i : ℕ) → (remove_order ld s i).0.side ≡ ld.side
unfolding remove_order
side-remove_order ld s i = ground arith

-- the order lists without the order of the slot `i`
abbrev pub without : Sides → Side → ℤ → ℕ → Sides
without c side q i = at_side c side (put_at (c side) q (erase i (c side q)))

-- The book without the order of the slot `i`.
unfoldable pub removed : OrderBook → Side → ℕ → OrderBook
removed b side i = free_slot (with_ladder b side (remove_order (ladder b side) b.pool.slots i)) i

removed_lem :
    (b : OrderBook) (side : Side) (i : ℕ)
    → let r = remove_order (ladder b side) b.pool.slots i in
      removed b side i
      ≡ set_ladder (record b { pool = free (record (b.pool) { slots = r.1 }) i }) side r.0
unfolding removed
removed_lem b buy i = refl
removed_lem b sell i = refl

removed_pool :
    (b : OrderBook) (side : Side) (i : ℕ)
    → let r = remove_order (ladder b side) b.pool.slots i in
      (removed b side i).pool ≡ free (record (b.pool) { slots = r.1 }) i
unfolding removed
removed_pool b buy i = refl
removed_pool b sell i = refl

pub has-at_side :
    (c : Sides) (side side' : Side) (cs : Contents) (q : ℤ) (j : ℕ)
    → (side' ≡ side → has j (cs q) ≡ true)
    → (side' ≢ side → has j (c side' q) ≡ true)
    → has j (at_side c side cs side' q) ≡ true
has-at_side c buy buy cs q j h k = h refl
has-at_side c buy sell cs q j h k = k (λ e. absurd (cc))
has-at_side c sell buy cs q j h k = k (λ e. absurd (cc))
has-at_side c sell sell cs q j h k = h refl

module _ {b : OrderBook} {c : Sides} {bs : Side → List ℕ} {fs : List ℕ} {flight : Link}
    (v : IsValid b c bs fs flight) (side : Side) (i : ℕ)
    (m : has i (c side (b.pool.slots i).price_ticks) ≡ true) where
  price : ℤ
  price = (b.pool.slots i).price_ticks

  slots' : Slots
  slots' = (remove_order (ladder b side) b.pool.slots i).1

  touched : Touched b.pool.slots slots' i (c side (b.pool.slots i).price_ticks) unset
  unfolding slots'
  touched = remove_order-Touched (v.sides side) v.wide i m

  pub IsLive-i : IsLive b.pool i
  IsLive-i = (v.live side (b.pool.slots i).price_ticks i m).0

  pub apart : (p : ℤ) → has i (c (opposite side) p) ≡ false
  apart p = elim (Bool-cases (has i (c (opposite side) p))) [
    | inl m' ↦
        absurd (false≢true (sym (not_opposite v side p (b.pool.slots i).price_ticks i m') ∙ m))
    | inr out ↦ out
  ]

  unlinked_pool : OrderPool
  unlinked_pool = record (b.pool) { slots = slots' }

  -- the slots after the slot was given back
  freed_slots : (j : ℕ) → i ≢ j → (free unlinked_pool i).slots j ≡ slots' j
  unfolding free unlinked_pool
  freed_slots j ne = ground arith

  freed_zero : ((free unlinked_pool i).slots i).order_id ≡ 0
  unfolding free
  freed_zero = ground arith

  freed_remaining : (j : ℕ) → ((free unlinked_pool i).slots j).remaining ≡ (slots' j).remaining
  unfolding free unlinked_pool
  freed_remaining j = ground arith

  capacity-freed : (free unlinked_pool i).capacity ≡ b.pool.capacity
  unfolding free unlinked_pool
  capacity-freed = refl

  same_id : (j : ℕ) → (slots' j).order_id ≡ (b.pool.slots j).order_id
  same_id j = ap (λ o. o.order_id) (touched.data_same j)

  still-IsLive : (j : ℕ) → i ≢ j → IsLive b.pool j → IsLive (free unlinked_pool i) j
  still-IsLive j ne l = (rw capacity-freed l.0, rw (freed_slots j ne, same_id j) l.1)

  was-IsLive : (j : ℕ) → IsLive (free unlinked_pool i) j → IsLive b.pool j × (i ≢ j)
  was-IsLive j l =
      ((rw capacity-freed at l.0, λ e. l.1 (gone j e l.1)), λ e. l.1 (rw (← e) freed_zero))
    where
      gone :
          (j : ℕ)
          → (b.pool.slots j).order_id ≡ 0
          → ((free unlinked_pool i).slots j).order_id ≢ 0
          → ((free unlinked_pool i).slots j).order_id ≡ 0
      gone j e n = elim (Bool-cases (i == j)) [
        | inl same ↦
            subst (λ k. ((free unlinked_pool i).slots k).order_id ≡ 0) (ground arith) freed_zero
        | inr other ↦ rw (freed_slots j (ground arith), same_id j) e
      ]

  -- side and price of an order stay
  same_place :
      (j : ℕ)
      → i ≢ j
      → (((free unlinked_pool i).slots j).side ≡ (b.pool.slots j).side)
        × (((free unlinked_pool i).slots j).price_ticks ≡ (b.pool.slots j).price_ticks)
  same_place j ne =
      rw (freed_slots j ne)
        (ap (λ o. o.side) (touched.data_same j), ap (λ o. o.price_ticks) (touched.data_same j))

  stays :
      (j : ℕ) (p : ℤ)
      → i ≢ j
      → has j (c side p) ≡ true
      → has j (
          put_at
            (c side)
            (b.pool.slots i).price_ticks
            (erase i (c side (b.pool.slots i).price_ticks))
            p)
        ≡ true
  stays j p ne mj =
      has-left (v.sides side) v.wide i (b.pool.slots i).price_ticks m j p ∙ ground arith

  pub left_of :
      (j : ℕ) (p : ℤ)
      → has j (
          put_at
            (c side)
            (b.pool.slots i).price_ticks
            (erase i (c side (b.pool.slots i).price_ticks))
            p)
        ≡ true
      → (has j (c side p) ≡ true) × (i ≢ j)
  left_of j p mj =
      ground (arith, has-left (v.sides side) v.wide i (b.pool.slots i).price_ticks m j p)

  rests_left :
      (j : ℕ)
      → IsLive (free unlinked_pool i) j
      → names flight j ≡ false
      → has j (
          without c side
            (b.pool.slots i).price_ticks
            i
            ((free unlinked_pool i).slots j).side
            ((free unlinked_pool i).slots j).price_ticks)
        ≡ true
  rests_left j l n =
      let (l', ne) = was-IsLive j l in
      rw ((same_place j ne).0, (same_place j ne).1)
        (has-at_side c side (b.pool.slots j).side _ (b.pool.slots j).price_ticks j
          (λ e. stays j (b.pool.slots j).price_ticks ne (rw e at (v.rests j l' n)))
          (λ e. v.rests j l' n))

  flight_apart : (j : ℕ) → names flight j ≡ true → i ≢ j
  flight_apart j n e = false≢true (sym (v.live side (b.pool.slots i).price_ticks i m).1 ∙ rw e n)

  flight_out : (j : ℕ) → names flight j ≡ true → has j (c side (b.pool.slots i).price_ticks) ≡ false
  flight_out j n = elim (Bool-cases (has j (c side (b.pool.slots i).price_ticks))) [
    | inl m' ↦ absurd (false≢true (sym (v.live side (b.pool.slots i).price_ticks j m').1 ∙ n))
    | inr out ↦ out
  ]

  -- Without a resting order the book is valid: the order is gone from the list of its price, all
  -- other lists are as before, and its slot heads the free list.
  pub removed-IsValid :
      IsValid
        (removed b side i)
        (without c side (b.pool.slots i).price_ticks i)
        (at_side bs side (bs_left (v.sides side) v.wide i m))
        (i ∷ fs)
        flight
  unfolding slots' unlinked_pool
  removed-IsValid = rw (removed_lem b side i) (
      assemble b c bs side (remove_order (ladder b side) b.pool.slots i).0 (free unlinked_pool i)
        (put_at (c side) (b.pool.slots i).price_ticks
          (erase i (c side (b.pool.slots i).price_ticks)))
        (bs_left (v.sides side) v.wide i m) (i ∷ fs) flight
        (record {
          pool =
              free-IsValid unlinked_pool
                (touched_pool v side _ i slots' unset touched IsLive-i apart) i
                (IsLive-i.0, rw (same_id i) IsLive-i.1);
          here =
              Holds-frame (remove_order-Holds (v.sides side) v.wide i m)
                (free unlinked_pool i).slots (λ p j mj. freed_slots j (left_of j p mj).1);
          there =
              Holds-frame (other_Holds v side _ i slots' unset touched IsLive-i apart)
                (free unlinked_pool i).slots
                (λ p j mj. freed_slots j (λ e. false≢true (sym (apart p) ∙ rw e mj)));
          own_here = side-remove_order (ladder b side) b.pool.slots i ∙ v.own_side side;
          own_there = v.own_side (opposite side);
          wide = λ j. rw (freed_remaining j) (Touched-IsWide touched v.wide j);
          live_here = λ p j mj.
              let (m', ne) = left_of j p mj in
              (still-IsLive j ne (v.live side p j m').0, (v.live side p j m').1);
          live_there = λ p j mj. (
            still-IsLive j (λ e. false≢true (sym (apart p) ∙ rw e mj))
                (v.live (opposite side) p j mj).0,
            (v.live (opposite side) p j mj).1,
          );
          rests = rests_left;
          in_flight = λ j n. (
            still-IsLive j (flight_apart j n) (v.in_flight j n).0,
            rw (freed_slots j (flight_apart j n)) (
                ap (λ o. o.next_idx) (touched.same j (flight_out j n) (flight_apart j n))
                ∙ (v.in_flight j n).1),
          );
        }))

  -- What stands in the slots of the other orders, but for links, stays.
  pub removed_slots :
      (j : ℕ) → i ≢ j → fixed ((removed b side i).pool.slots j) ≡ fixed (b.pool.slots j)
  unfolding slots' unlinked_pool
  removed_slots j ne = rw (removed_pool b side i, freed_slots j ne) (touched.data_same j)

  -- Only the id of the order becomes unknown.
  pub find-removed :
      (id : ℕ)
      → find (removed b side i).pool id
        ≡ (if id == (b.pool.slots i).order_id then none else find b.pool id)
  unfolding slots' unlinked_pool
  find-removed id = rw (removed_pool b side i) (
      find-free unlinked_pool (touched_pool v side _ i slots' unset touched IsLive-i apart) i
        (IsLive-i.0, rw (same_id i) IsLive-i.1) id
      ∙ rw
          (
            same_id i,
            find-same b.pool slots' id (touched_ids v side _ i slots' unset touched IsLive-i apart),
          )
          refl)
