-- ===== src/Book/Valid.antt =====
-- The invariant of the book, which `OrderBook::check_invariants` asserts beside `uncrossed()`: both
-- ladders hold their lists of orders, the pool is valid, and the live slots are exactly those of
-- resting orders, but for one that a sweep has in flight.
use low_latency_orderbook.Prelude.{ℕ, ℤ, ◌≡◌, true, false, none, List, has}
use low_latency_orderbook.Types.{Side, buy, sell}
use low_latency_orderbook.Pool.{Link}
use low_latency_orderbook.Pool.Valid.{IsLive}
use low_latency_orderbook.Pool.Valid
use low_latency_orderbook.Level.Fifo.{IsWide}
use low_latency_orderbook.Level.Seg.{names}
use low_latency_orderbook.Ladder.Holds.{Contents, Holds}
use low_latency_orderbook.Book.{OrderBook, ladder}

-- the order lists of both sides
abbrev pub Sides : Type 0
Sides = Side → Contents

-- a function of the side with `v` at one side
abbrev pub at_side : {A : Type 0} → (Side → A) → Side → A → Side → A
at_side f buy v buy = v
at_side f buy v sell = f sell
at_side f sell v buy = f buy
at_side f sell v sell = v

pub record IsValid (b : OrderBook) (c : Sides) (bs : Side → List ℕ) (fs : List ℕ) (flight : Link)
    : Type 0 where
  pub pool : Valid.IsValid b.pool fs
  pub sides : (side : Side) → Holds (ladder b side) b.pool.slots (c side) (bs side)
  pub own_side : (side : Side) → (ladder b side).side ≡ side
  pub wide : IsWide b.pool.slots
  pub live :
      (side : Side) (q : ℤ) (i : ℕ)
      → has i (c side q) ≡ true
      → IsLive b.pool i × (names flight i ≡ false)
  pub rests :
      (i : ℕ)
      → IsLive b.pool i
      → names flight i ≡ false
      → has i (c (b.pool.slots i).side (b.pool.slots i).price_ticks) ≡ true
  pub in_flight :
      (i : ℕ) → names flight i ≡ true → IsLive b.pool i × ((b.pool.slots i).next_idx ≡ none)
