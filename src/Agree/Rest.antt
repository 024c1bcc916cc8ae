-- ===== src/Agree/Rest.antt =====
-- A limit order's remainder comes to rest in both books.
use low_latency_orderbook.Prelude.{
  ℕ, ℤ, eqb_ℤ, ◌≤◌, ◌<◌, ◌^◌, ◌≡◌, ◌≢◌, refl, sym, ap, subst, ◌∙◌, true, false, ◌==◌, Bool-cases,
  inl, inr, Option, none, some, List, [], ◌∷◌, ◌++◌, arith, update_self, update_ne, if◌then◌else◌,
}
use mathlib.Core.Path.{fun_ext}
use low_latency_orderbook.Types.{Side, buy, sell, OrderType}
use low_latency_orderbook.Pool.{Order, OrderPool, set_slot, find}
use low_latency_orderbook.Pool.Find.{find_sound, find_complete}
use low_latency_orderbook.Pool.Frame.{SameIds, find-same}
use low_latency_orderbook.Level.{Slots}
use low_latency_orderbook.Ladder.{push_order}
use low_latency_orderbook.Ladder.Holds.{Contents, put_at}
use low_latency_orderbook.Map.{PriceMap, before, lookup, lookup_id, put, emplace, is_nil}
use low_latency_orderbook.Map.Sorted.{IsSorted, lookup-put, put-IsSorted}
use low_latency_orderbook.Map.Ids.{lookup_id-emplace, emplace-Distinct, absent_of_none}
use low_latency_orderbook.Naive.{NaiveBook, NaiveOrder, Level, Locator, levels, level_or_nil}
use low_latency_orderbook.Naive
use low_latency_orderbook.Book.{OrderBook, ladder, filled_order, rest}
use low_latency_orderbook.Book.Valid.{Sides, at_side, IsValid}
use low_latency_orderbook.Book.Flight.{flight_ne, flight-IsLive, written-IsValid}
use low_latency_orderbook.Book.Push.{rest_pool, with_last, pushed_slots, written_fields}
use low_latency_orderbook.Agree.Mirror.{
  naive_of, locator_of, orders_of, orders_of-frame, orders_of-append, located, Mirrors, Agrees,
}
use low_latency_orderbook.Agree.Remove.{on_sides}
use low_latency_orderbook.Agree.Flight.{Mirrors-frame}

-- the reference map of a side with an order last at its price
abbrev pub put_last : Side → NaiveOrder → PriceMap Level → PriceMap Level
put_last side o m = put (before side) o.price (level_or_nil (lookup o.price m) ++ (o ∷ [])) m

is_nil-append : (l : Level) (o : NaiveOrder) → is_nil (l ++ (o ∷ [])) ≡ false
is_nil-append [] o = refl
is_nil-append (x ∷ l) o = refl

lookup-put_last :
    (side : Side) (o : NaiveOrder) (m : PriceMap Level) (p : ℤ)
    → level_or_nil (lookup p (put_last side o m)) ≡ (
        if eqb_ℤ p o.price
        then level_or_nil (lookup o.price m) ++ (o ∷ [])
        else level_or_nil (lookup p m))
lookup-put_last side o m p = rw (lookup-put side p o.price _ m) (ground arith)

occupied-put_last :
    (side : Side) (o : NaiveOrder) (m : PriceMap Level)
    → ((p : ℤ) (l : Level) → lookup p m ≡ some l → is_nil l ≡ false)
    → (p : ℤ) (l : Level) → lookup p (put_last side o m) ≡ some l
    → is_nil l ≡ false
occupied-put_last side o m h p l e = elim (Bool-cases (eqb_ℤ p o.price)) [
  | inl same ↦ ground (
    arith,
    lookup-put side p o.price (level_or_nil (lookup o.price m) ++ (o ∷ [])) m,
    is_nil-append (level_or_nil (lookup o.price m)) o,
  )
  | inr other ↦
      h p l
        (rw (lookup-put side p o.price (level_or_nil (lookup o.price m) ++ (o ∷ [])) m, other) at e)
]

-- the order in flight is pushed to its ladder
module _ {b : OrderBook} {c : Sides} {bs : Side → List ℕ} {fs : List ℕ} {i : ℕ}
    (v : IsValid b c bs fs (some i)) {ms : Side → PriceMap Level} {index : List (ℕ × Locator)}
    (w : Mirrors b.pool c (some i) ms index) (side : Side) (is_side : (b.pool.slots i).side ≡ side)
    (some_open : 1 ≤ (b.pool.slots i).remaining)
    (within : (b.pool.slots i).remaining ≤ (b.pool.slots i).qty) where
  slots' : Slots
  slots' = (push_order (ladder b side) b.pool.slots i).1

  same_naive : (j : ℕ) → naive_of (slots' j) ≡ naive_of (b.pool.slots j)
  unfolding slots'
  same_naive j = ap naive_of (pushed_slots v side is_side some_open within j)

  same_locator : (j : ℕ) → locator_of (slots' j) ≡ locator_of (b.pool.slots j)
  unfolding slots'
  same_locator j = ap locator_of (pushed_slots v side is_side some_open within j)

  same_ids : SameIds b.pool.slots slots'
  unfolding slots'
  same_ids j = (
    ap (λ o. o.order_id) (pushed_slots v side is_side some_open within j),
    ap (λ o. o.generation) (pushed_slots v side is_side some_open within j),
  )

  same_list : (xs : List ℕ) → orders_of slots' xs ≡ orders_of b.pool.slots xs
  same_list xs = orders_of-frame b.pool.slots slots' xs (λ j m. same_naive j)

  abbrev px : ℤ
  px = (b.pool.slots i).price_ticks

  abbrev order : NaiveOrder
  order = naive_of (b.pool.slots i)

  level_here :
      (p : ℤ)
      → level_or_nil (lookup p (put_last side order (ms side)))
        ≡ orders_of slots' (put_at (c side) px (c side px ++ i ∷ []) p)
  level_here p =
      rw (lookup-put_last side order (ms side) p, same_list)
        (elim (Bool-cases (eqb_ℤ p px)) [
          | inl same ↦
              rw (same, orders_of-append b.pool.slots (c side px) (i ∷ []))
                (ap (λ l. l ++ (order ∷ [])) (w.level side px))
          | inr other ↦ rw other (w.level side p)
        ])

  abbrev own_id : ℕ
  own_id = (b.pool.slots i).order_id

  found : find b.pool own_id ≡ some i
  found = find_complete b.pool v.pool i (flight-IsLive v).0

  absent : lookup_id own_id index ≡ none
  absent = w.located_ids own_id ∙ rw found (ground arith)

  located-kept :
      (o : Option ℕ)
      → ((j : ℕ) → o ≡ some j → i ≢ j)
      → located b.pool.slots (some i) o ≡ located slots' none o
  located-kept none ne = refl
  located-kept (some j) ne = rw (same_locator j) (ground (arith, ne j refl))

  ids :
      (k : ℕ)
      → lookup_id k (emplace own_id (locator_of (b.pool.slots i)) index)
        ≡ located slots' none (find (record (b.pool) { slots = slots' }) k)
  ids k =
      rw
        (
          lookup_id-emplace k own_id (locator_of (b.pool.slots i)) index
              (absent_of_none own_id index absent),
          find-same b.pool slots' k same_ids,
        )
        (elim (Bool-cases (k == own_id)) [
          | inl same ↦ rw (same, is_that k same, found) (ap (λ l. some l) (sym (same_locator i)))
          | inr other ↦ rw other (
              w.located_ids k
              ∙ located-kept (find b.pool k)
                  (λ j e same. ground (arith, same, (find_sound b.pool k j e).2)))
        ])
    where
      is_that : (k : ℕ) → (k == own_id) ≡ true → k ≡ own_id
      is_that k e = ground arith

  pub pushed-Mirrors :
      Mirrors
        (record (b.pool) { slots = (push_order (ladder b side) b.pool.slots i).1 })
        (with_last c side (b.pool.slots i).price_ticks i)
        none
        (at_side ms side (put_last side (naive_of (b.pool.slots i)) (ms side)))
        (emplace (b.pool.slots i).order_id (locator_of (b.pool.slots i)) index)
  unfolding slots'
  pushed-Mirrors = record {
    level = λ sd p.
        on_sides
          (λ sd' (l : PriceMap Level) (cs : Contents).
            level_or_nil (lookup p l) ≡ orders_of slots' (cs p))
          ms c side _ _ (level_here p) (λ sd' e. w.level sd' p ∙ sym (same_list (c sd' p))) sd;
    occupied = λ sd.
        on_sides
          (λ sd' (l : PriceMap Level) (cs : Contents).
            (p : ℤ) (x : Level) → lookup p l ≡ some x → is_nil x ≡ false)
          ms c side _ (c side) (occupied-put_last side order (ms side) (w.occupied side))
          (λ sd' e. w.occupied sd') sd;
    sorted = λ sd.
        on_sides (λ sd' (l : PriceMap Level) (cs : Contents). IsSorted sd' l) ms c side _ (c side)
          (put-IsSorted side px _ (ms side) (w.sorted side)) (λ sd' e. w.sorted sd') sd;
    located_ids = ids;
    distinct =
        emplace-Distinct own_id (locator_of (b.pool.slots i)) index
          (absent_of_none own_id index absent) w.distinct;
  }

rest_levels :
    (n : NaiveBook) (id : ℕ) (side : Side) (price : ℤ) (qty remaining : ℕ)
    → let o : NaiveOrder = record {
      id = id;
      price = price;
      qty = qty;
      remaining = remaining;
      side = side;
    } in
      (levels (Naive.rest n id side price qty remaining)
        ≡ at_side (levels n) side (put_last side o (levels n side)))
      × ((Naive.rest n id side price qty remaining).index
          ≡ emplace id (record { side = side; price = price; it = id }) n.index)
unfolding Naive.rest
rest_levels n id buy price qty remaining = (fun_ext (elim [ buy ↦ refl | sell ↦ refl ]), refl)
rest_levels n id sell price qty remaining = (fun_ext (elim [ buy ↦ refl | sell ↦ refl ]), refl)

module _ {b : OrderBook} {c : Sides} {bs : Side → List ℕ} {fs : List ℕ} {i : ℕ}
    (v : IsValid b c bs fs (some i)) (side : Side) (type : OrderType) (price : ℤ)
    (qty remaining : ℕ) where
  written : OrderPool
  written = set_slot b.pool i (filled_order (b.pool.slots i) side type price qty remaining)

  written_ids : SameIds b.pool.slots written.slots
  unfolding written filled_order
  written_ids j = ground arith

  located-written :
      (o : Option ℕ) → located written.slots (some i) o ≡ located b.pool.slots (some i) o
  unfolding written
  located-written none = refl
  located-written (some j) = ground arith

  written-Mirrors :
      {ms : Side → PriceMap Level} {index : List (ℕ × Locator)}
      → Mirrors b.pool c (some i) ms index
      → Mirrors written c (some i) ms index
  unfolding written
  written-Mirrors w =
      Mirrors-frame w
        (λ sd q j m.
          update_ne b.pool.slots i (filled_order (b.pool.slots i) side type price qty remaining) j
            (flight_ne v sd q j m))
        (λ k.
          ap (located written.slots (some i)) (find-same b.pool written.slots k written_ids)
          ∙ located-written (find b.pool k))

  -- The remainder of the order in flight rests in both books, and the books mirror each other again.
  pub rest-Agrees :
      (n : NaiveBook) (id : ℕ)
      → 1 ≤ remaining
      → remaining < 2 ^ 32
      → remaining ≤ qty
      → (b.pool.slots i).order_id ≡ id
      → Mirrors b.pool c (some i) (levels n) n.index
      → Agrees
          (rest b i side type price qty remaining)
          (with_last c side price i)
          (Naive.rest n id side price qty remaining)
  unfolding filled_order written
  rest-Agrees n id some_open narrow within its_id w =
      let b' = record b { pool = written } in
      let o = filled_order (b.pool.slots i) side type price qty remaining in
      let (at_price, is_side, is_open, whole) =
        written_fields b.pool.slots i side type price qty remaining in
      rw
        (
          rest_pool b i side type price qty remaining,
          (rest_levels n id side price qty remaining).0,
          (rest_levels n id side price qty remaining).1,
          ← its_id,
        )
        (subst
          (λ (o : Order).
            Mirrors (record (b'.pool) { slots = (push_order (ladder b' side) b'.pool.slots i).1 })
              (with_last c side o.price_ticks i) none
              (at_side (levels n) side (put_last side (naive_of o) (levels n side)))
              (emplace o.order_id (locator_of o) n.index))
          (update_self b.pool.slots i o)
          (pushed-Mirrors (written-IsValid v side type price qty remaining narrow)
            (written-Mirrors w) side is_side (rw is_open some_open) (rw (is_open, whole) within)))
