-- ===== src/Agree/Fill.antt =====
-- The best level of both books, and a partial fill of its first order.
use low_latency_orderbook.Prelude.{ℕ, ℤ, ◌≡◌, refl, sym, ap, subst, ◌∙◌, false, some, List, [], ◌∷◌}
use mathlib.Core.Path.{ap₂}
use low_latency_orderbook.Types.{Side}
use low_latency_orderbook.Pool.{Link, OrderPool}
use low_latency_orderbook.Ladder.{best_price}
use low_latency_orderbook.Map.{PriceMap, lookup, is_nil}
use low_latency_orderbook.Map.Sorted.{IsSorted, before-antisym, first_is_best, lookup-first}
use low_latency_orderbook.Naive.{Level, Locator, level_or_nil}
use low_latency_orderbook.Book.{OrderBook, ladder}
use low_latency_orderbook.Book.Valid.{Sides}
use low_latency_orderbook.Book.Maker.{Maker}
use low_latency_orderbook.Agree.Mirror.{naive_of, orders_of, is_nil-orders_of, Mirrors}
use low_latency_orderbook.Agree.Erase.{found_level}

-- The first entry of a reference map is at a price with orders.
pub entry_occupied :
    {p : OrderPool} {c : Sides} {flight : Link} {ms : Side → PriceMap Level}
    {index : List (ℕ × Locator)} (w : Mirrors p c flight ms index) (side : Side) (q : ℤ) (l : Level)
    (m : PriceMap Level)
    → ms side ≡ (q, l) ∷ m
    → is_nil (c side q) ≡ false
entry_occupied {p} {c} w side q l m e =
    sym (is_nil-orders_of p.slots (c side q))
    ∙ ap is_nil (sym (w.level side q))
    ∙ rw (e, lookup-first q l m)
        (w.occupied side q l
          (subst (λ (x : PriceMap Level). lookup q x ≡ some l) (sym e) (lookup-first q l m)))

module _ {b : OrderBook} {c : Sides} {flight : Link} {ms : Side → PriceMap Level}
    {index : List (ℕ × Locator)} (w : Mirrors b.pool c flight ms index) (side : Side) where
  -- the first entry of the reference map is the best level of the book
  abbrev pub BestEntry : Maker b c side → Type 0
  BestEntry k =
      (m : PriceMap Level) × (ms side
        ≡ (
          best_price (ladder b side),
          naive_of (b.pool.slots k.index) ∷ orders_of b.pool.slots k.behind,
        )
          ∷ m)

  best_orders :
      (k : Maker b c side)
      → level_or_nil (lookup (best_price (ladder b side)) (ms side))
        ≡ naive_of (b.pool.slots k.index) ∷ orders_of b.pool.slots k.behind
  best_orders k = w.level side (best_price (ladder b side)) ∙ ap (orders_of b.pool.slots) k.at_best

  pub best_entry : (k : Maker b c side) → BestEntry k
  best_entry k = go (ms side) refl
    where
      go : (m : PriceMap Level) → ms side ≡ m → BestEntry k
      go [] e = absurd (
          nothing (
            sym
              (ap (λ (m : PriceMap Level). level_or_nil (lookup (best_price (ladder b side)) m)) e)
            ∙ best_orders k))
        where
          nothing :
              level_or_nil (lookup (best_price (ladder b side)) [])
                ≡ naive_of (b.pool.slots k.index) ∷ orders_of b.pool.slots k.behind
              → ⊥
          nothing f = unfold lookup in (cc)
      go ((q, l) ∷ m) e = (m, e ∙ ap₂ (λ (x : ℤ) (y : Level). (x, y) ∷ m) same_price same_level)
        where
          there : (x : Level) × (lookup (best_price (ladder b side)) (ms side) ≡ some x)
          there =
              found_level (lookup (best_price (ladder b side)) (ms side))
                (ap is_nil (best_orders k))

          same_price : q ≡ best_price (ladder b side)
          same_price =
              before-antisym side q (best_price (ladder b side))
                (k.best.no_better q (entry_occupied w side q l m e))
                (first_is_best side q (best_price (ladder b side)) l there.0 m
                  (subst (IsSorted side) e (w.sorted side))
                  (subst
                    (λ (x : PriceMap Level). lookup (best_price (ladder b side)) x ≡ some there.0) e
                    there.1))

          same_level : l ≡ naive_of (b.pool.slots k.index) ∷ orders_of b.pool.slots k.behind
          same_level =
              ap level_or_nil (sym (lookup-first q l m))
              ∙ ap (λ (p : ℤ). level_or_nil (lookup p ((q, l) ∷ m))) same_price
              ∙ ap (λ (x : PriceMap Level). level_or_nil (lookup (best_price (ladder b side)) x))
                  (sym e)
              ∙ best_orders k
