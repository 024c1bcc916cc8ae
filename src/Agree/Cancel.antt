-- ===== src/Agree/Cancel.antt =====
-- `OrderBook::cancel` and `NaiveBook::cancel` agree.
use low_latency_orderbook.Prelude.{
  ℕ, pos, ◌≡◌, refl, sym, ap, ◌∙◌, true, false, Option-cases, inl, inr, Option, none, some, [], ◌∷◌,
  has,
}
use low_latency_orderbook.Types.{buy, RejectReason}
use low_latency_orderbook.Event.{rejected_event, canceled_event}
use low_latency_orderbook.Pool.{find}
use low_latency_orderbook.Pool.Find.{find_sound, find_complete}
use low_latency_orderbook.Map.{lookup, lookup_id, remove_id}
use low_latency_orderbook.Naive.{
  NaiveBook, Level, Locator, levels, set_levels, level_or_nil, order_at, open_qty, erase_order,
}
use low_latency_orderbook.Naive
use low_latency_orderbook.Book
use low_latency_orderbook.Book.{OrderBook}
use low_latency_orderbook.Book.Valid.{Sides}
use low_latency_orderbook.Book.Add.{Represents}
use low_latency_orderbook.Book.Remove.{without, removed}
use low_latency_orderbook.Book.Rests.{lists_without, cancel-found, found_rests}
use low_latency_orderbook.Agree.Mirror.{
  locator_of, Agrees, levels-set_levels, index-set_levels, levels-index,
}
use low_latency_orderbook.Agree.Remove.{removed-Mirrors}
use low_latency_orderbook.Agree.Erase.{OnlyId, order_at_lem, erase_order-Shrunk}

some_eq : (i j : ℕ) → ◌≡◌ {A = Option ℕ} (some i) (some j) → i ≡ j
some_eq i j e = cc

naive-unknown :
    (n : NaiveBook) (id : ℕ)
    → lookup_id id n.index ≡ none
    → Naive.cancel n id
      ≡ (false, n, rejected_event buy RejectReason.unknown_order 0 (pos 0) id ∷ [])
unfolding Naive.cancel
naive-unknown n id e = rw (e, Naive.cancel) refl

naive-found :
    (n : NaiveBook) (id : ℕ) (loc : Locator)
    → lookup_id id n.index ≡ some loc
    → Naive.cancel n id ≡ (
      true,
      set_levels
          (record n { index = remove_id id n.index })
          loc.side
          (erase_order loc.side loc (levels n loc.side)),
      canceled_event loc.side
            (open_qty (order_at loc.it (level_or_nil (lookup loc.price (levels n loc.side)))))
            loc.price
            id
          ∷ [],
    )
unfolding Naive.cancel
naive-found n id loc e = rw (e, Naive.cancel) refl

book-unknown :
    (b : OrderBook) (id : ℕ)
    → find b.pool id ≡ none
    → Book.cancel b id ≡ (false, b, rejected_event buy RejectReason.unknown_order 0 (pos 0) id ∷ [])
unfolding Book.cancel
book-unknown b id e = rw (e, Book.cancel) refl

module _ {b : OrderBook} {c : Sides} {n : NaiveBook} (r : Represents b c) (w : Agrees b c n)
    (id : ℕ) where
  unknown_in_both : find b.pool id ≡ none → lookup_id id n.index ≡ none
  unknown_in_both e = w.located_ids id ∙ rw e refl

  module _ (i : ℕ) (e : find b.pool id ≡ some i) where
    its_id : (b.pool.slots i).order_id ≡ id
    its_id = (find_sound b.pool id i e).2

    mem : has i (c (b.pool.slots i).side (b.pool.slots i).price_ticks) ≡ true
    mem = found_rests r id i e

    only : OnlyId b.pool.slots i (c (b.pool.slots i).side (b.pool.slots i).price_ticks)
    only j m same = some_eq i j (
        sym e
        ∙ ap (find b.pool) (sym its_id ∙ same)
        ∙ find_complete b.pool r.valid.pool j
            (r.valid.live (b.pool.slots i).side (b.pool.slots i).price_ticks j m).0)

    naive_event :
        open_qty (
          order_at
            (b.pool.slots i).order_id
            (level_or_nil (lookup (b.pool.slots i).price_ticks (levels n (b.pool.slots i).side))))
        ≡ (b.pool.slots i).remaining
    naive_event = ap open_qty (
        ap (order_at (b.pool.slots i).order_id)
          (w.level (b.pool.slots i).side (b.pool.slots i).price_ticks)
        ∙ order_at_lem b.pool.slots i (c (b.pool.slots i).side (b.pool.slots i).price_ticks) mem
            only)

    naive_after : NaiveBook
    naive_after =
        set_levels (record n { index = remove_id id n.index }) (b.pool.slots i).side
          (erase_order (b.pool.slots i).side (locator_of (b.pool.slots i))
            (levels n (b.pool.slots i).side))

    naive_cancel : Naive.cancel n id ≡ (
      true,
      naive_after,
      canceled_event
            (b.pool.slots i).side
            (b.pool.slots i).remaining
            (b.pool.slots i).price_ticks
            id
          ∷ [],
    )
    unfolding naive_after
    naive_cancel =
        naive-found n id (locator_of (b.pool.slots i)) (w.located_ids id ∙ rw e refl)
        ∙ rw naive_event refl

    Agrees-after :
        Agrees
          (removed b (b.pool.slots i).side i)
          (without c (b.pool.slots i).side (b.pool.slots i).price_ticks i)
          naive_after
    unfolding naive_after
    Agrees-after =
        rw
          (
            levels-set_levels (record n { index = remove_id id n.index }) (b.pool.slots i).side
                (erase_order (b.pool.slots i).side (locator_of (b.pool.slots i))
                  (levels n (b.pool.slots i).side)),
            index-set_levels (record n { index = remove_id id n.index }) (b.pool.slots i).side
                (erase_order (b.pool.slots i).side (locator_of (b.pool.slots i))
                  (levels n (b.pool.slots i).side)),
            levels-index n (remove_id id n.index),
            ← its_id,
          )
          (removed-Mirrors r.valid w (b.pool.slots i).side i mem _ (
            erase_order-Shrunk b.pool.slots i (c (b.pool.slots i).side)
              (levels n (b.pool.slots i).side) mem only (w.level (b.pool.slots i).side)
              (w.occupied (b.pool.slots i).side) (w.sorted (b.pool.slots i).side)))

  -- On books that mirror one another, `cancel` of any id has the same result and the same events in
  -- both, and the books mirror one another again.
  pub cancel-Agrees :
      let (ok, b', events) = Book.cancel b id in
      let (ok', n', events') = Naive.cancel n id in
      (ok ≡ ok') × (events ≡ events') × Agrees b' (lists_without b c (find b.pool id)) n'
  cancel-Agrees = elim (Option-cases (find b.pool id)) [
    | inl e ↦ rw (e, book-unknown b id e, naive-unknown n id (unknown_in_both e)) (refl, refl, w)
    | inr (i, e) ↦ rw (e, cancel-found b id i e, naive_cancel i e) (refl, refl, Agrees-after i e)
  ]
