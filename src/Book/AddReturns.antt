-- ===== src/Book/AddReturns.antt =====
-- What `OrderBook::add` guarantees on a valid book, for every side, type, price and quantity.
use low_latency_orderbook.Prelude.{ℕ, ℤ, ◌<◌, ◌^◌, ◌≡◌, true, some, List}
use low_latency_orderbook.Types.{Side, OrderType, Event}
use low_latency_orderbook.Book.{OrderBook, Outcome, add}
use low_latency_orderbook.Book.Valid.{Sides}
use low_latency_orderbook.Book.Add.{Represents, Added, add-Added}
use low_latency_orderbook.Book.Uncrossed.{uncrossed, uncrossed_sound, uncrossed_complete}

-- an operation that returned, with the state it left
abbrev pub Returns : Outcome ℕ → (OrderBook → Type 0) → Type 0
Returns out P =
    (id : ℕ) × (b' : OrderBook) × (events : List Event) × (out ≡ some (id, b', events)) × P b'

module _ {b : OrderBook} {c : Sides} (r : Represents b c) (side : Side) (type : OrderType)
    (price : ℤ) (qty : ℕ) (narrow : qty < 2 ^ 32) where
  added : Added c (add b side type price qty)
  added = add-Added r side type price qty narrow

  -- On a valid book and for a 32-bit quantity `add` returns, whatever the order, so its sweep ends.
  -- The book is valid afterwards: some lists of orders are what its ladders hold, and these orders
  -- are exactly the live slots of its pool.
  pub add-Represents :
      Returns (add b side type price qty) (λ b'. (lists : Sides) × Represents b' lists)
  add-Represents = (added.id, added.book, added.events, added.returns, (added.lists, added.after))

  -- On a valid book that is not crossed and for a 32-bit quantity `add` returns, and the book is
  -- not crossed afterwards.
  pub add-uncrossed :
      uncrossed b ≡ true → Returns (add b side type price qty) (λ b'. uncrossed b' ≡ true)
  add-uncrossed u = (
    added.id,
    added.book,
    added.events,
    added.returns,
    uncrossed_complete added.after.valid (added.stays_uncrossed (uncrossed_sound r.valid u)),
  )
