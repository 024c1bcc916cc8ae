-- ===== src/Agree/Settle.antt =====
-- A fill of the best opposite order in both books: a filled maker leaves both, any other keeps its
-- place with less remaining.
use low_latency_orderbook.Prelude.{
  ℕ, ℤ, eqb_ℤ, eqb_ℤ_sound, eqb_ℤ_refl, ◌≡◌, ◌≢◌, refl, sym, ap, subst, ◌∙◌, true, false, ◌==◌,
  Bool-cases, inl, inr, some, List, ◌∷◌, arith, has, erase, update_self, update_ne, if◌then◌else◌,
}
use mathlib.Core.Bool.{false≢true}
use mathlib.Core.Path.{ap₂}
use low_latency_orderbook.Types.{Side, buy, sell, opposite}
use low_latency_orderbook.Pool.{Link, find}
use low_latency_orderbook.Pool.Frame.{SameIds, find-same}
use low_latency_orderbook.Level.{Slots}
use low_latency_orderbook.Level.Fifo.{IsFifo}
use low_latency_orderbook.Level.Seg.{names}
use low_latency_orderbook.Ladder.{best_price, level_at}
use low_latency_orderbook.Ladder.Fill.{filled, level_at-IsFifo}
use low_latency_orderbook.Ladder.Holds.{Contents, one_price}
use low_latency_orderbook.Map.{PriceMap, lookup, remove_id, is_nil}
use low_latency_orderbook.Map.Sorted.{IsSorted}
use low_latency_orderbook.Naive.{NaiveOrder, Level, Locator, level_or_nil, pop_front}
use low_latency_orderbook.Naive
use low_latency_orderbook.Book.{OrderBook, ladder, settle}
use low_latency_orderbook.Book.Assemble.{not_opposite}
use low_latency_orderbook.Book.Valid.{Sides, at_side, IsValid}
use low_latency_orderbook.Book.Maker.{Maker, head_mem, lists_after}
use low_latency_orderbook.Book.Rest.{at_side_self}
use low_latency_orderbook.Book.Remove.{without, removed, removed_slots}
use low_latency_orderbook.Agree.Mirror.{
  naive_of, locator_of, orders_of, orders_of-frame, located, Mirrors,
}
use low_latency_orderbook.Agree.Remove.{on_sides, located-same, Shrunk, removed-Mirrors}
use low_latency_orderbook.Agree.PopFront.{
  lookup-entry, lookup-pop_front, occupied-entry, occupied-pop_front, pop_front-IsSorted,
}

settle_pool-stays :
    (b : OrderBook) (side : Side) (px : ℤ) (i fill left : ℕ)
    → (left == 0) ≡ false
    → (settle b side px i fill left).pool ≡ record (b.pool) { slots = filled b.pool.slots i left }
unfolding settle
settle_pool-stays b buy px i fill left e = rw e refl
settle_pool-stays b sell px i fill left e = rw e refl

settle_pool-gone :
    (b : OrderBook) (side : Side) (px : ℤ) (i fill left : ℕ)
    → (left == 0) ≡ true
    → (settle b side px i fill left).pool ≡ (removed b side i).pool
unfolding settle removed
settle_pool-gone b side px i fill left e = rw e refl

erase_head : (i : ℕ) (is : List ℕ) → erase i (i ∷ is) ≡ is
erase_head i is = ground arith

module _ {b : OrderBook} {c : Sides} {bs : Side → List ℕ} {fs : List ℕ} {flight : Link}
    (v : IsValid b c bs fs flight) {ms : Side → PriceMap Level} {index : List (ℕ × Locator)}
    (w : Mirrors b.pool c flight ms index) (side : Side) (k : Maker b c side) (m : PriceMap Level)
    (entry : ms side
      ≡ (
        best_price (ladder b side),
        naive_of (b.pool.slots k.index) ∷ orders_of b.pool.slots k.behind,
      )
        ∷ m) where
  abbrev px : ℤ
  px = best_price (ladder b side)

  abbrev first : Level
  first = naive_of (b.pool.slots k.index) ∷ orders_of b.pool.slots k.behind

  mem : has k.index (c side px) ≡ true
  mem = head_mem (c side px) k.index k.behind k.at_best

  IsSorted-entry : IsSorted side ((px, first) ∷ m)
  IsSorted-entry = subst (IsSorted side) entry (w.sorted side)

  occupied_entry : (p : ℤ) (l : Level) → lookup p ((px, first) ∷ m) ≡ some l → is_nil l ≡ false
  occupied_entry =
      subst (λ (x : PriceMap Level). (p : ℤ) (l : Level) → lookup p x ≡ some l → is_nil l ≡ false)
        entry (w.occupied side)

  popped : PriceMap Level
  popped = pop_front px (orders_of b.pool.slots k.behind) m

  popped-Shrunk :
      Shrunk b.pool.slots (c side) (b.pool.slots k.index).price_ticks k.index side (ms side) popped
  unfolding popped
  popped-Shrunk = record {
    level = λ p.
        lookup-pop_front side px first m IsSorted-entry (orders_of b.pool.slots k.behind) p
        ∙ rest p;
    occupied =
        occupied-pop_front side px first m IsSorted-entry occupied_entry
          (orders_of b.pool.slots k.behind);
    sorted = pop_front-IsSorted side px first m IsSorted-entry (orders_of b.pool.slots k.behind);
  }
    where
      rest :
          (p : ℤ)
          → (if eqb_ℤ p px
              then orders_of b.pool.slots k.behind
              else level_or_nil (lookup p ((px, first) ∷ m)))
            ≡ (if eqb_ℤ p (b.pool.slots k.index).price_ticks
                then orders_of b.pool.slots
                    (erase k.index (c side (b.pool.slots k.index).price_ticks))
                else level_or_nil (lookup p (ms side)))
      rest p =
          ap
            (λ (x : PriceMap Level).
              if eqb_ℤ p px then orders_of b.pool.slots k.behind else level_or_nil (lookup p x))
            (sym entry)
          ∙ subst
              (λ (q : ℤ).
                (if eqb_ℤ p px
                  then orders_of b.pool.slots k.behind
                  else level_or_nil (lookup p (ms side)))
                ≡ (if eqb_ℤ p q
                    then orders_of b.pool.slots (erase k.index (c side q))
                    else level_or_nil (lookup p (ms side))))
              (sym k.price) (rw (k.at_best, erase_head k.index k.behind) refl)

  own_mem : has k.index (c side (b.pool.slots k.index).price_ticks) ≡ true
  own_mem = rw k.price mem

  gone-Mirrors :
      Mirrors
        (removed b side k.index).pool
        (without c side px k.index)
        flight
        (at_side ms side popped)
        (remove_id (b.pool.slots k.index).order_id index)
  gone-Mirrors =
      subst
        (λ (q : ℤ).
          Mirrors (removed b side k.index).pool (without c side q k.index) flight
            (at_side ms side popped) (remove_id (b.pool.slots k.index).order_id index))
        k.price (removed-Mirrors v w side k.index own_mem popped popped-Shrunk)

  module _ (left : ℕ) where
    slots' : Slots
    slots' = filled b.pool.slots k.index left

    same_naive : (j : ℕ) → k.index ≢ j → naive_of (slots' j) ≡ naive_of (b.pool.slots j)
    unfolding slots'
    same_naive j ne = ap naive_of (update_ne b.pool.slots k.index _ j ne)

    same_locator : (j : ℕ) → locator_of (slots' j) ≡ locator_of (b.pool.slots j)
    unfolding slots'
    same_locator j = ground arith

    same_ids : SameIds b.pool.slots slots'
    unfolding slots'
    same_ids j = ground arith

    same_list :
        (xs : List ℕ)
        → ((j : ℕ) → has j xs ≡ true → k.index ≢ j)
        → orders_of slots' xs ≡ orders_of b.pool.slots xs
    same_list xs ne = orders_of-frame b.pool.slots slots' xs (λ j m'. same_naive j (ne j m'))

    behind_ne : (j : ℕ) → has j k.behind ≡ true → k.index ≢ j
    behind_ne j m' = ground (
      arith,
      (subst (IsFifo (level_at (ladder b side) px) b.pool.slots) k.at_best
          (level_at-IsFifo (v.sides side) px k.index mem)).distinct.0,
    )

    abbrev left_level : Level
    left_level =
        record (naive_of (b.pool.slots k.index)) { remaining = left }
        ∷ orders_of b.pool.slots k.behind

    left_orders : left_level ≡ orders_of slots' (c side px)
    unfolding slots'
    left_orders = rw k.at_best (
        ap₂ ◌∷◌
          (ap naive_of (
            sym (
              update_self b.pool.slots k.index
                (record (b.pool.slots k.index) { remaining = left }))))
          (sym (same_list k.behind behind_ne)))

    level_here :
        (p : ℤ) → level_or_nil (lookup p ((px, left_level) ∷ m)) ≡ orders_of slots' (c side p)
    level_here p = elim (Bool-cases (eqb_ℤ p px)) [
      | inl same ↦ rw (lookup-entry p px left_level m, same, eqb_ℤ_sound p px same) left_orders
      | inr other ↦
          rw (lookup-entry p px left_level m, other, same_list (c side p) (ne p other))
            (rest p other ∙ w.level side p)
    ]
      where
        ne : (p : ℤ) → eqb_ℤ p px ≡ false → (j : ℕ) → has j (c side p) ≡ true → k.index ≢ j
        ne p other j m' e = false≢true (
            sym other
            ∙ ap (λ q. eqb_ℤ q px) (one_price (v.sides side) p px k.index (rw e m') mem)
            ∙ eqb_ℤ_refl px)

        rest :
            (p : ℤ)
            → eqb_ℤ p px ≡ false
            → level_or_nil (lookup p m) ≡ level_or_nil (lookup p (ms side))
        rest p other = rw (entry, lookup-entry p px first m, other) refl

    level_there :
        (sd : Side)
        → sd ≡ opposite side
        → (p : ℤ) → level_or_nil (lookup p (ms sd)) ≡ orders_of slots' (c sd p)
    level_there sd e p = w.level sd p ∙ sym (same_list (c sd p) out)
      where
        out : (j : ℕ) → has j (c sd p) ≡ true → k.index ≢ j
        out j m' same =
            false≢true (sym (not_opposite v side p px j (rw (← e) m')) ∙ rw (← same) mem)

    stays-Mirrors :
        Mirrors
          (record (b.pool) { slots = filled b.pool.slots k.index left })
          c
          flight
          (at_side ms side ((px, left_level) ∷ m))
          index
    unfolding slots'
    stays-Mirrors =
        subst
          (λ (c' : Sides).
            Mirrors (record (b.pool) { slots = slots' }) c' flight
              (at_side ms side ((px, left_level) ∷ m)) index)
          (at_side_self c side)
          (record {
            level = λ sd p.
                on_sides
                  (λ sd' (l : PriceMap Level) (cs : Contents).
                    level_or_nil (lookup p l) ≡ orders_of slots' (cs p))
                  ms c side ((px, left_level) ∷ m) (c side) (level_here p)
                  (λ sd' e. level_there sd' e p) sd;
            occupied = λ sd.
                on_sides
                  (λ sd' (l : PriceMap Level) (cs : Contents).
                    (p : ℤ) (x : Level) → lookup p l ≡ some x → is_nil x ≡ false)
                  ms c side ((px, left_level) ∷ m) (c side)
                  (occupied-entry side px first m IsSorted-entry occupied_entry left_level refl)
                  (λ sd' e. w.occupied sd') sd;
            sorted = λ sd.
                on_sides (λ sd' (l : PriceMap Level) (cs : Contents). IsSorted sd' l) ms c side
                  ((px, left_level) ∷ m) (c side) (IsSorted-entry.0, IsSorted-entry.1)
                  (λ sd' e. w.sorted sd') sd;
            located_ids = λ id.
                w.located_ids id
                ∙ sym (
                    located-same b.pool.slots slots' flight (find b.pool id)
                      (λ j f. same_locator j))
                ∙ ap (located slots' flight) (sym (find-same b.pool slots' id same_ids));
            distinct = w.distinct;
          })

  -- After a fill of the best opposite order in both books, the books mirror each other again.
  pub settle-Mirrors :
      (fill left : ℕ)
      → let next =
          Naive.settle px
            (naive_of (b.pool.slots k.index))
            (orders_of b.pool.slots k.behind)
            m
            index
            left in
        Mirrors
          (settle b side px k.index fill left).pool
          (lists_after v side px k.index left)
          flight
          (at_side ms side next.0)
          next.1
  unfolding popped
  settle-Mirrors fill left = elim (Bool-cases (left == 0)) [
    | inl gone ↦ rw (settle_pool-gone b side px k.index fill left gone) (rw gone gone-Mirrors)
    | inr stays ↦
        rw (settle_pool-stays b side px k.index fill left stays) (rw stays (stays-Mirrors left))
  ]

  -- The slot of an order in flight keeps its id.
  pub settle-id :
      (fill left j : ℕ)
      → names flight j ≡ true
      → ((settle b side px k.index fill left).pool.slots j).order_id ≡ (b.pool.slots j).order_id
  unfolding slots'
  settle-id fill left j n = elim (Bool-cases (left == 0)) [
    | inl gone ↦
        rw (settle_pool-gone b side px k.index fill left gone)
          (ap (λ o. o.order_id) (removed_slots v side k.index own_mem j apart))
    | inr stays ↦ rw (settle_pool-stays b side px k.index fill left stays) (same_ids left j).0
  ]
    where
      apart : k.index ≢ j
      apart e = false≢true (sym (v.live side px k.index mem).1 ∙ ap (names flight) e ∙ n)
