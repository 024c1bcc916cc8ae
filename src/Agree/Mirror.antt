-- ===== src/Agree/Mirror.antt =====
-- When the reference book mirrors the book: each of its levels holds the orders of that price in the
-- same order, its maps are sorted and without empty levels, and its index locates the resting
-- orders by their ids.
use low_latency_orderbook.Prelude.{
  ℕ, ℤ, ◌≡◌, refl, ap, true, false, Option, none, some, List, [], ◌∷◌, ◌++◌, arith, has, Distinct,
  if◌then◌else◌,
}
use mathlib.Core.Path.{ap₂, fun_ext}
use low_latency_orderbook.Types.{Side, buy, sell}
use low_latency_orderbook.Pool.{Link, Order, OrderPool, find}
use low_latency_orderbook.Level.{Slots}
use low_latency_orderbook.Level.Seg.{names}
use low_latency_orderbook.Ladder.Touched.{fixed}
use low_latency_orderbook.Map.{PriceMap, lookup, lookup_id, is_nil}
use low_latency_orderbook.Map.Sorted.{IsSorted}
use low_latency_orderbook.Map.Ids.{keys}
use low_latency_orderbook.Naive.{
  NaiveBook, NaiveOrder, Level, Locator, levels, set_levels, level_or_nil,
}
use low_latency_orderbook.Book.{OrderBook}
use low_latency_orderbook.Book.Valid.{Sides, at_side}

-- what the reference book keeps of an order, and where its index finds it
abbrev pub naive_of : Order → NaiveOrder
naive_of o = record {
  id = o.order_id;
  price = o.price_ticks;
  qty = o.qty;
  remaining = o.remaining;
  side = o.side;
}

abbrev pub locator_of : Order → Locator
locator_of o = record { side = o.side; price = o.price_ticks; it = o.order_id }

abbrev pub orders_of : Slots → List ℕ → Level
orders_of s [] = []
orders_of s (i ∷ is) = naive_of (s i) ∷ orders_of s is

-- the locator of the order that an id was found to name, unless that order is in flight
abbrev pub located : Slots → Link → Option ℕ → Option Locator
located s flight none = none
located s flight (some i) = if names flight i then none else some (locator_of (s i))

pub record Mirrors (p : OrderPool) (c : Sides) (flight : Link) (ms : Side → PriceMap Level)
    (index : List (ℕ × Locator)) : Type 0 where
  pub level :
      (side : Side) (q : ℤ) → level_or_nil (lookup q (ms side)) ≡ orders_of p.slots (c side q)
  pub occupied : (side : Side) (q : ℤ) (l : Level) → lookup q (ms side) ≡ some l → is_nil l ≡ false
  pub sorted : (side : Side) → IsSorted side (ms side)
  pub located_ids : (id : ℕ) → lookup_id id index ≡ located p.slots flight (find p id)
  pub distinct : Distinct (keys index)

-- Slots that agree on what a ladder never writes look the same to the reference book.
pub naive_of-fixed : (o o' : Order) → fixed o' ≡ fixed o → naive_of o' ≡ naive_of o
naive_of-fixed o o' e = ap naive_of e

pub locator_of-fixed : (o o' : Order) → fixed o' ≡ fixed o → locator_of o' ≡ locator_of o
locator_of-fixed o o' e = ap locator_of e

pub orders_of-frame :
    (s s' : Slots) (xs : List ℕ)
    → ((j : ℕ) → has j xs ≡ true → naive_of (s' j) ≡ naive_of (s j))
    → orders_of s' xs ≡ orders_of s xs
orders_of-frame s s' [] same = refl
orders_of-frame s s' (x ∷ xs) same =
    ap₂ ◌∷◌ (same x (ground arith)) (orders_of-frame s s' xs (λ j m. same j (ground arith)))

pub orders_of-append :
    (s : Slots) (xs ys : List ℕ) → orders_of s (xs ++ ys) ≡ orders_of s xs ++ orders_of s ys
orders_of-append s [] ys = refl
orders_of-append s (x ∷ xs) ys = ap (λ l. naive_of (s x) ∷ l) (orders_of-append s xs ys)

pub is_nil-orders_of : (s : Slots) (xs : List ℕ) → is_nil (orders_of s xs) ≡ is_nil xs
is_nil-orders_of s [] = refl
is_nil-orders_of s (x ∷ xs) = refl

-- The reference book mirrors a book at rest.
abbrev pub Agrees : OrderBook → Sides → NaiveBook → Type 0
Agrees b c n = Mirrors b.pool c none (levels n) n.index

pub levels-set_levels :
    (n : NaiveBook) (side : Side) (m : PriceMap Level)
    → levels (set_levels n side m) ≡ at_side (levels n) side m
levels-set_levels n buy m = fun_ext (elim [ buy ↦ refl | sell ↦ refl ])
levels-set_levels n sell m = fun_ext (elim [ buy ↦ refl | sell ↦ refl ])

pub index-set_levels :
    (n : NaiveBook) (side : Side) (m : PriceMap Level) → (set_levels n side m).index ≡ n.index
index-set_levels n buy m = refl
index-set_levels n sell m = refl

pub levels-index :
    (n : NaiveBook) (ids : List (ℕ × Locator)) → levels (record n { index = ids }) ≡ levels n
levels-index n ids = fun_ext (elim [ buy ↦ refl | sell ↦ refl ])
