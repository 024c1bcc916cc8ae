-- ===== src/Agree/Queries.antt =====
-- The queries on books that mirror one another.
use low_latency_orderbook.Prelude.{
  ℕ, ◌≡◌, refl, sym, ap, ◌∙◌, true, false, Bool-cases, Option-cases, inl, inr, none, some, [], ◌∷◌,
}
use mathlib.Core.Bool.{false≢true}
use low_latency_orderbook.Types.{Side, buy, sell}
use low_latency_orderbook.Pool.{find}
use low_latency_orderbook.Map.{PriceMap, lookup_id}
use low_latency_orderbook.Ladder.{is_side_empty, best_price}
use low_latency_orderbook.Ladder.Best.{is_side_empty-nil}
use low_latency_orderbook.Naive.{NaiveBook, Level, levels}
use low_latency_orderbook.Naive.Queries.{first_price}
use low_latency_orderbook.Naive.Queries as NaiveQueries
use low_latency_orderbook.Book.{OrderBook, ladder}
use low_latency_orderbook.Book.Queries as BookQueries
use low_latency_orderbook.Book.Valid.{Sides}
use low_latency_orderbook.Book.Maker.{maker}
use low_latency_orderbook.Book.Add.{Represents}
use low_latency_orderbook.Agree.Mirror.{locator_of}
use low_latency_orderbook.Agree.Fill.{best_entry, entry_occupied}
use low_latency_orderbook.Agree.Mirror.{Agrees}

module _ {b : OrderBook} {c : Sides} {n : NaiveBook} (r : Represents b c) (w : Agrees b c n) where
  first_of_empty :
      (side : Side) → is_side_empty (ladder b side) ≡ true → first_price (levels n side) ≡ none
  first_of_empty side e = go (levels n side) refl
    where
      go : (m : PriceMap Level) → levels n side ≡ m → first_price m ≡ none
      go [] e' = refl
      go ((q, l) ∷ m) e' = absurd (
          false≢true
            (sym (entry_occupied w side q l m e') ∙ is_side_empty-nil (r.valid.sides side) e q))

  first_of_some :
      (side : Side)
      → is_side_empty (ladder b side) ≡ false
      → first_price (levels n side) ≡ some (best_price (ladder b side))
  first_of_some side e = ap first_price (best_entry w side (maker r.valid side e)).1

  unlisted : (id : ℕ) → find b.pool id ≡ none → lookup_id id n.index ≡ none
  unlisted id e = w.located_ids id ∙ rw e refl

  listed :
      (id i : ℕ)
      → find b.pool id ≡ some i
      → lookup_id id n.index ≡ some (locator_of (b.pool.slots i))
  listed id i e = w.located_ids id ∙ rw e refl

  -- On books that mirror one another the best bid, the best ask and `contains` are the same.
  pub queries-Agree :
      (id : ℕ)
      → (BookQueries.best_bid b ≡ NaiveQueries.best_bid n)
        × (BookQueries.best_ask b ≡ NaiveQueries.best_ask n)
        × (BookQueries.contains b id ≡ NaiveQueries.contains n id)
  unfolding BookQueries.best_bid BookQueries.best_ask BookQueries.contains NaiveQueries.best_bid
      NaiveQueries.best_ask NaiveQueries.contains
  queries-Agree id = (bid, ask, known)
    where
      bid : BookQueries.best_bid b ≡ NaiveQueries.best_bid n
      bid = elim (Bool-cases (is_side_empty b.bids)) [
        | inl e ↦ rw e (sym (first_of_empty buy e))
        | inr e ↦ rw e (sym (first_of_some buy e))
      ]

      ask : BookQueries.best_ask b ≡ NaiveQueries.best_ask n
      ask = elim (Bool-cases (is_side_empty b.asks)) [
        | inl e ↦ rw e (sym (first_of_empty sell e))
        | inr e ↦ rw e (sym (first_of_some sell e))
      ]

      known : BookQueries.contains b id ≡ NaiveQueries.contains n id
      known = elim (Option-cases (find b.pool id)) [
        | inl e ↦ rw (e, unlisted id e, BookQueries.contains, NaiveQueries.contains) refl
        | inr (i, e) ↦ rw (e, listed id i e, BookQueries.contains, NaiveQueries.contains) refl
      ]
