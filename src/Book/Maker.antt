-- ===== src/Book/Maker.antt =====
-- One round of the sweep: while it does not stop, the head of the best opposite level is the order
-- that rests longest at the best price, and the book is valid after the fill.
use low_latency_orderbook.Prelude.{
  ℕ, ℤ, ◌+◌, ◌≤◌, ◌≡◌, refl, subst, true, false, ◌==◌, Bool-cases, inl, inr, some, List, [], ◌∷◌,
  arith, has, if◌then◌else◌,
}
use low_latency_orderbook.Types.{Side}
use low_latency_orderbook.Pool.{Link}
use low_latency_orderbook.Level.Fifo.{IsFifo}
use low_latency_orderbook.Map.{is_nil}
use low_latency_orderbook.Ladder.{PriceLadder, is_side_empty, best_price, level_at, set_level_at}
use low_latency_orderbook.Ladder.Best.{best_price-IsBest}
use low_latency_orderbook.Ladder.Fill.{level_at-IsFifo}
use low_latency_orderbook.Ladder.Holds.{Contents, IsBest, mem_of_ne_nil}
use low_latency_orderbook.Ladder.RemoveOrder.{bs_left}
use low_latency_orderbook.Book.{OrderBook, ladder, stops, crosses, settle}
use low_latency_orderbook.Book.Valid.{Sides, at_side, IsValid}
use low_latency_orderbook.Book.Remove.{without, removed, removed-IsValid}
use low_latency_orderbook.Book.Rest.{filled-IsValid}

-- what holds where the sweep goes on
pub going_on :
    (ld : PriceLadder) (taker_side : Side) (limit_price : ℤ) (remaining : ℕ)
    → stops ld taker_side limit_price remaining ≡ false
    → (1 ≤ remaining)
      × (is_side_empty ld ≡ false)
      × (crosses taker_side limit_price (best_price ld) ≡ true)
unfolding stops
going_on ld taker_side limit_price remaining e = ground arith

-- the order that a round of the sweep fills, and those behind it at the same price
pub record Maker (b : OrderBook) (c : Sides) (side : Side) : Type 0 where
  pub index : ℕ
  pub behind : List ℕ
  pub at_best : c side (best_price (ladder b side)) ≡ index ∷ behind
  pub best : IsBest side (c side) (best_price (ladder b side))
  pub head : (level_at (ladder b side) (best_price (ladder b side))).head_idx ≡ some index
  pub price : (b.pool.slots index).price_ticks ≡ best_price (ladder b side)
  pub open_qty : 1 ≤ (b.pool.slots index).remaining

pub head_mem : (xs : List ℕ) (i : ℕ) (ys : List ℕ) → xs ≡ i ∷ ys → has i xs ≡ true
head_mem xs i ys e = rw e (ground arith)

split_list : (xs : List ℕ) → is_nil xs ≡ false → (i : ℕ) × (ys : List ℕ) × (xs ≡ i ∷ ys)
split_list [] e = absurd (cc)
split_list (i ∷ ys) e = (i, ys, refl)

module _ {b : OrderBook} {c : Sides} {bs : Side → List ℕ} {fs : List ℕ} {flight : Link}
    (v : IsValid b c bs fs flight) (side : Side) where
  -- The head of the best level of a side that is not empty is the first order at the best price.
  pub maker : is_side_empty (ladder b side) ≡ false → Maker b c side
  maker e = record {
    index = parts.0;
    behind = parts.1;
    at_best = parts.2;
    best = best;
    head = head;
    price = (rests.price);
    open_qty = (rests.open_qty);
  }
    where
      best : IsBest side (c side) (best_price (ladder b side))
      best =
          subst (λ sd. IsBest sd (c side) (best_price (ladder b side))) (v.own_side side)
            (best_price-IsBest (v.sides side) e)

      parts : (i : ℕ) × (ys : List ℕ) × (c side (best_price (ladder b side)) ≡ i ∷ ys)
      parts = split_list (c side (best_price (ladder b side))) best.occupied

      mem : has parts.0 (c side (best_price (ladder b side))) ≡ true
      mem = head_mem (c side (best_price (ladder b side))) parts.0 parts.1 parts.2

      rests :
          low_latency_orderbook.Ladder.Holds.Rests
            (ladder b side)
            (b.pool.slots parts.0)
            (best_price (ladder b side))
            parts.0
      rests = (v.sides side).rests (best_price (ladder b side)) parts.0 mem

      fifo :
          IsFifo
            (level_at (ladder b side) (best_price (ladder b side)))
            b.pool.slots
            (parts.0 ∷ parts.1)
      fifo =
          subst (IsFifo (level_at (ladder b side) (best_price (ladder b side))) b.pool.slots)
            parts.2 (level_at-IsFifo (v.sides side) (best_price (ladder b side)) parts.0 mem)

      head : (level_at (ladder b side) (best_price (ladder b side))).head_idx ≡ some parts.0
      head = fifo.links.0

  -- the order lists after a fill that leaves the maker `left`
  abbrev pub lists_after : ℤ → ℕ → ℕ → Sides
  lists_after px i left = if left == 0 then without c side px i else c

  module _ (k : Maker b c side) (fill left : ℕ)
      (parts : left + fill ≡ (b.pool.slots k.index).remaining) where
    maker_mem : has k.index (c side (best_price (ladder b side))) ≡ true
    maker_mem = head_mem (c side (best_price (ladder b side))) k.index k.behind k.at_best

    pub at_own_price : has k.index (c side (b.pool.slots k.index).price_ticks) ≡ true
    at_own_price = rw k.price maker_mem

    abbrev pub bands_left : Side → List ℕ
    bands_left =
        if left == 0
        then at_side bs side (bs_left (v.sides side) v.wide k.index at_own_price)
        else bs

    abbrev pub free_left : List ℕ
    free_left = if left == 0 then k.index ∷ fs else fs

    -- A fill keeps the book valid: a filled maker leaves, any other keeps its place.
    pub settle-IsValid :
        IsValid
          (settle b side (best_price (ladder b side)) k.index fill left)
          (lists_after (best_price (ladder b side)) k.index left)
          bands_left
          free_left
          flight
    unfolding settle removed
    settle-IsValid = elim (Bool-cases (left == 0)) [
      | inl gone ↦ rw gone (
          subst
            (λ (q : ℤ).
              IsValid (removed b side k.index) (without c side q k.index)
                (at_side bs side (bs_left (v.sides side) v.wide k.index at_own_price))
                (k.index ∷ fs) flight)
            k.price (removed-IsValid v side k.index at_own_price))
      | inr stays ↦ rw stays (
          filled-IsValid v side (best_price (ladder b side)) k.index left fill maker_mem
            (ground arith) parts)
    ]
