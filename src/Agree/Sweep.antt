-- ===== src/Agree/Sweep.antt =====
-- The sweeps of both books, fill by fill.
use low_latency_orderbook.Prelude.{
  ℕ, zero, suc, ℤ, ◌+◌, ◌-◌, ◌≤◌, ◌<◌, ◌≡◌, refl, sym, ap, subst, ◌∙◌, Bool, true, false, ◌&&◌,
  ◌==◌, ltb, Bool-cases, ◌⊎◌, inl, inr, Option, none, some, List, [], ◌∷◌, ◌++◌, arith, length,
}
use mathlib.Core.Bool.{false≢true}
use mathlib.Core.Path.{fun_ext}
use low_latency_orderbook.Types.{Side, buy, sell, opposite, Event}
use low_latency_orderbook.Pool.{Link}
use low_latency_orderbook.Level.Seg.{names}
use low_latency_orderbook.Map.{PriceMap, is_nil}
use low_latency_orderbook.Ladder.{is_side_empty, best_price}
use low_latency_orderbook.Ladder.Best.{is_side_empty-nil}
use low_latency_orderbook.Naive.{NaiveOrder, Level, Locator, order_count, pop_front}
use low_latency_orderbook.Naive
use low_latency_orderbook.Book
use low_latency_orderbook.Book.{OrderBook, Outcome, ladder, stops, fill_events}
use low_latency_orderbook.Book.Valid.{Sides, at_side, IsValid}
use low_latency_orderbook.Book.Rest.{at_side_self}
use low_latency_orderbook.Book.Maker.{Maker, maker, settle-IsValid}
use low_latency_orderbook.Book.Sweep.{
  Enough, fill_of, left_of, next_book, fill_parts, next-Enough, next_lists, next_free, drops_only,
  drops_only_on, takes_no_slot, match_loop-stops, match_loop-goes,
}
use low_latency_orderbook.Agree.Mirror.{naive_of, orders_of, Mirrors}
use low_latency_orderbook.Agree.Fill.{best_entry, entry_occupied}
use low_latency_orderbook.Agree.Settle.{settle-Mirrors, settle-id}

-- fuel of the reference sweep for every order of the side, or for a taker that is filled
abbrev pub EnoughNaive : ℕ → ℕ → PriceMap Level → Type 0
EnoughNaive fuel remaining m = ((remaining ≡ 0) × (1 ≤ fuel)) ⊎ (order_count m < fuel)

-- both sweeps return the same quantity and events, and the books mirror each other
pub record SameSweep (b : OrderBook) (c : Sides) (fs : List ℕ) (flight : Link) (side : Side)
    (ms : Side → PriceMap Level) (remaining : ℕ) (out : Outcome ℕ) (out' : Naive.SweepOutcome)
    : Type 0 where
  pub left : ℕ
  pub events : List Event
  pub book : OrderBook
  pub lists : Sides
  pub bands : Side → List ℕ
  pub free_list : List ℕ
  pub map : PriceMap Level
  pub index : List (ℕ × Locator)
  pub returns : out ≡ some (left, book, events)
  pub naive_returns : out' ≡ some (left, (map, index), events)
  pub at_most : left ≤ remaining
  pub same_id :
      (j : ℕ) → names flight j ≡ true → (book.pool.slots j).order_id ≡ (b.pool.slots j).order_id
  pub no_new : (s : Side) (q : ℤ) → is_nil (lists s q) ≡ false → is_nil (c s q) ≡ false
  pub takes_no_slot : length fs ≤ length free_list
  pub valid : IsValid book lists bands free_list flight
  pub mirrors : Mirrors book.pool lists flight (at_side ms side map) index

at_side_here : {A : Type 0} (f : Side → A) (side : Side) (a : A) → at_side f side a side ≡ a
at_side_here f buy a = refl
at_side_here f sell a = refl

at_side_twice :
    {A : Type 0} (f : Side → A) (side : Side) (a a' : A)
    → at_side (at_side f side a) side a' ≡ at_side f side a'
at_side_twice f buy a a' = fun_ext (elim [ buy ↦ refl | sell ↦ refl ])
at_side_twice f sell a a' = fun_ext (elim [ buy ↦ refl | sell ↦ refl ])

naive-empty :
    (fuel : ℕ) (crosses : ℤ → Bool) (index : List (ℕ × Locator)) (id : ℕ) (side : Side)
    (remaining : ℕ)
    → Naive.match_loop (suc fuel) crosses [] index id side remaining
      ≡ some (remaining, ([], index), [])
unfolding Naive.match_loop
naive-empty fuel crosses index id side remaining = refl

module _ (fuel : ℕ) (crosses : ℤ → Bool) (px : ℤ) (maker : NaiveOrder) (level : Level)
    (m : PriceMap Level) (index : List (ℕ × Locator)) (id : ℕ) (side : Side) (remaining : ℕ) where
  naive-stops :
      (ltb 0 remaining && crosses px) ≡ false
      → Naive.match_loop (suc fuel) crosses ((px, maker ∷ level) ∷ m) index id side remaining
        ≡ some (remaining, ((px, maker ∷ level) ∷ m, index), [])
  unfolding Naive.match_loop
  naive-stops e = rw (e, Naive.match_loop) refl

  naive-goes :
      (ltb 0 remaining && crosses px) ≡ true
      → let fill = low_latency_orderbook.Prelude.min remaining maker.remaining in
        let next = Naive.settle px maker level m index (maker.remaining - fill) in
        Naive.match_loop (suc fuel) crosses ((px, maker ∷ level) ∷ m) index id side remaining
        ≡ Naive.prepend
            (Naive.fill_events maker side fill (remaining - fill) id)
            (Naive.match_loop fuel crosses next.0 next.1 id side (remaining - fill))
  unfolding Naive.match_loop
  naive-goes e = rw (e, Naive.match_loop) refl

order_count-settle :
    (px : ℤ) (maker : NaiveOrder) (level : Level) (m : PriceMap Level) (index : List (ℕ × Locator))
    (left : ℕ)
    → (left == 0) ≡ true
    → order_count (Naive.settle px maker level m index left).0 + 1
      ≡ order_count ((px, maker ∷ level) ∷ m)
unfolding order_count
order_count-settle px maker [] m index left e = rw e (omega arith)
order_count-settle px maker (x ∷ level) m index left e = rw e (omega arith)

order_count-pos :
    (px : ℤ) (maker : NaiveOrder) (level : Level) (m : PriceMap Level)
    → 1 ≤ order_count ((px, maker ∷ level) ∷ m)
unfolding order_count
order_count-pos px maker level m = omega arith

-- the conditions of both loops
stops-empty :
    (b : OrderBook) (side : Side) (limit_price : ℤ) (remaining : ℕ)
    → is_side_empty (ladder b (opposite side)) ≡ true
    → stops (ladder b (opposite side)) side limit_price remaining ≡ true
unfolding stops
stops-empty b side limit_price remaining e = ground arith

same_condition :
    (b : OrderBook) (side : Side) (limit_price : ℤ) (remaining : ℕ) (crosses : Bool)
    → is_side_empty (ladder b (opposite side)) ≡ false
    → crosses ≡ Book.crosses side limit_price (best_price (ladder b (opposite side)))
    → stops (ladder b (opposite side)) side limit_price remaining
      ≡ low_latency_orderbook.Prelude.not (ltb 0 remaining && crosses)
unfolding stops
same_condition b side limit_price remaining crosses e same = ground arith

module _ (fuel fuel' : ℕ) {b : OrderBook} {c : Sides} {bs : Side → List ℕ} {fs : List ℕ}
    {flight : Link} (v : IsValid b c bs fs flight) {ms : Side → PriceMap Level}
    {index : List (ℕ × Locator)} (w : Mirrors b.pool c flight ms index) (side : Side)
    (limit_price : ℤ) (remaining id : ℕ) (crosses : ℤ → Bool) where
  -- both sweeps stop at once
  both_stop :
      (m : PriceMap Level)
      → ms (opposite side) ≡ m
      → stops (ladder b (opposite side)) side limit_price remaining ≡ true
      → Naive.match_loop (suc fuel') crosses m index id side remaining
        ≡ some (remaining, (m, index), [])
      → SameSweep b c fs flight
          (opposite side)
          ms
          remaining
          (Book.match_loop (suc fuel) b side limit_price remaining id)
          (Naive.match_loop (suc fuel') crosses m index id side remaining)
  both_stop m e done naive_done = record {
    left = remaining;
    events = [];
    book = b;
    lists = c;
    bands = bs;
    free_list = fs;
    map = m;
    index = index;
    returns = match_loop-stops fuel b side limit_price remaining id done;
    naive_returns = naive_done;
    at_most = omega arith;
    same_id = λ j e. refl;
    no_new = λ s q ne. ne;
    takes_no_slot = omega arith;
    valid = v;
    mirrors =
        subst (λ (f : Side → PriceMap Level). Mirrors b.pool c flight f index)
          (sym (ap (at_side ms (opposite side)) (sym e) ∙ at_side_self ms (opposite side))) w;
  }

  -- a side without orders is the empty map
  empty_map : is_side_empty (ladder b (opposite side)) ≡ true → ms (opposite side) ≡ []
  empty_map none_there = go (ms (opposite side)) refl
    where
      go : (m : PriceMap Level) → ms (opposite side) ≡ m → ms (opposite side) ≡ []
      go [] e = e
      go ((q, l) ∷ m) e = absurd (
          false≢true (
            sym (entry_occupied w (opposite side) q l m e)
            ∙ is_side_empty-nil (v.sides (opposite side)) none_there q))

  module _ (k : Maker b c (opposite side)) (m : PriceMap Level)
      (entry : ms (opposite side)
        ≡ (
          best_price (ladder b (opposite side)),
          naive_of (b.pool.slots k.index) ∷ orders_of b.pool.slots k.behind,
        )
          ∷ m) where
    abbrev px : ℤ
    px = best_price (ladder b (opposite side))

    abbrev next : Naive.Swept
    next =
        Naive.settle px (naive_of (b.pool.slots k.index)) (orders_of b.pool.slots k.behind) m index
          (left_of b k.index remaining)

    next-EnoughNaive :
        1 ≤ remaining
        → EnoughNaive (suc fuel') remaining (ms (opposite side))
        → EnoughNaive fuel' (remaining - fill_of b k.index remaining) next.0
    next-EnoughNaive more enough = elim (Bool-cases (left_of b k.index remaining == 0)) [
      | inl gone ↦ inr (
          omega (
            arith,
            enough,
            more,
            ap order_count entry,
            order_count-settle px (naive_of (b.pool.slots k.index))
                (orders_of b.pool.slots k.behind) m index (left_of b k.index remaining) gone,
          ))
      | inr stays ↦ inl (
        ground arith,
        omega (
          arith,
          enough,
          more,
          ap order_count entry,
          order_count-pos px (naive_of (b.pool.slots k.index)) (orders_of b.pool.slots k.behind) m,
        ),
      )
    ]

    -- One more fill before both sweeps.
    same-next :
        stops (ladder b (opposite side)) side limit_price remaining ≡ false
        → (ltb 0 remaining && crosses px) ≡ true
        → SameSweep
            (next_book b side k.index remaining)
            (next_lists v side k limit_price remaining id fuel)
            (next_free v side k limit_price remaining id fuel)
            flight
            (opposite side)
            (at_side ms (opposite side) next.0)
            (remaining - fill_of b k.index remaining)
            (Book.match_loop fuel
              (next_book b side k.index remaining)
              side
              limit_price
              (remaining - fill_of b k.index remaining)
              id)
            (Naive.match_loop fuel' crosses next.0 next.1 id side
              (remaining - fill_of b k.index remaining))
        → SameSweep b c fs flight
            (opposite side)
            ms
            remaining
            (Book.match_loop (suc fuel) b side limit_price remaining id)
            (Naive.match_loop (suc fuel') crosses (ms (opposite side)) index id side remaining)
    unfolding Naive.fill_events fill_events
    same-next more naive_more r = record {
      left = r.left;
      events =
          fill_events (b.pool.slots k.index) side (fill_of b k.index remaining)
            (remaining - fill_of b k.index remaining) id
          ++ r.events;
      book = r.book;
      lists = r.lists;
      bands = r.bands;
      free_list = r.free_list;
      map = r.map;
      index = r.index;
      returns =
          match_loop-goes fuel b side limit_price remaining id k.index more k.head
          ∙ ap
              (Book.prepend (
                fill_events (b.pool.slots k.index) side (fill_of b k.index remaining)
                  (remaining - fill_of b k.index remaining) id))
              r.returns;
      naive_returns =
          ap
            (λ (x : PriceMap Level). Naive.match_loop (suc fuel') crosses x index id side remaining)
            entry
          ∙ naive-goes fuel' crosses px (naive_of (b.pool.slots k.index))
              (orders_of b.pool.slots k.behind) m index id side remaining naive_more
          ∙ ap
              (Naive.prepend (
                fill_events (b.pool.slots k.index) side (fill_of b k.index remaining)
                  (remaining - fill_of b k.index remaining) id))
              r.naive_returns;
      at_most = omega (arith, r.at_most);
      same_id = λ j e.
          r.same_id j e
          ∙ settle-id v w (opposite side) k m entry (fill_of b k.index remaining)
              (left_of b k.index remaining) j e;
      no_new = λ s q ne. drops_only_on v side k limit_price remaining id fuel s q (r.no_new s q ne);
      takes_no_slot =
          omega (arith, r.takes_no_slot, takes_no_slot v side k limit_price remaining id fuel);
      valid = r.valid;
      mirrors =
          subst (λ (f : Side → PriceMap Level). Mirrors r.book.pool r.lists flight f r.index)
            (at_side_twice ms (opposite side) next.0 r.map) r.mirrors;
    }

-- On books that mirror one another, the sweeps of a valid book and of the reference book return the
-- same quantity and the same events in the same order, and the books mirror one another again, if
-- each has the fuel for its orders and both limits cross the same prices of resting orders.
pub match_loop-SameSweep :
    (fuel fuel' : ℕ) {b : OrderBook} {c : Sides} {bs : Side → List ℕ} {fs : List ℕ} {flight : Link}
    (v : IsValid b c bs fs flight) {ms : Side → PriceMap Level} {index : List (ℕ × Locator)}
    (w : Mirrors b.pool c flight ms index) (side : Side) (limit_price : ℤ) (remaining id : ℕ)
    (crosses : ℤ → Bool)
    → Enough fuel remaining b fs
    → EnoughNaive fuel' remaining (ms (opposite side))
    → ((q : ℤ) → is_nil (c (opposite side) q) ≡ false → crosses q ≡ Book.crosses side limit_price q)
    → SameSweep b c fs flight
        (opposite side)
        ms
        remaining
        (Book.match_loop fuel b side limit_price remaining id)
        (Naive.match_loop fuel' crosses (ms (opposite side)) index id side remaining)
match_loop-SameSweep zero fuel' v w side limit_price remaining id crosses enough enough' same =
    absurd (omega (arith, v.pool.count))
match_loop-SameSweep (suc fuel) zero v w side limit_price remaining id crosses enough enough' same =
    absurd (omega arith)
match_loop-SameSweep (suc fuel) (suc fuel') {b} {c} {bs} {fs} {flight} v {ms} {index} w side
      limit_price remaining id crosses enough enough' same =
    elim (Bool-cases (is_side_empty (ladder b (opposite side)))) [
      | inl none_there ↦
          both_stop fuel fuel' v w side limit_price remaining id crosses (ms (opposite side)) refl
            (stops-empty b side limit_price remaining none_there)
            (rw (empty_map fuel fuel' v w side limit_price remaining id crosses none_there)
              (naive-empty fuel' crosses index id side remaining))
      | inr some_there ↦
          let k = maker v (opposite side) some_there in
          let (m, entry) = best_entry w (opposite side) k in
          let px = best_price (ladder b (opposite side)) in
          let condition =
            same_condition b side limit_price remaining (crosses px) some_there
              (same px k.best.occupied) in
          elim (Bool-cases (ltb 0 remaining && crosses px)) [
            | inl go ↦
                same-next fuel fuel' v w side limit_price remaining id crosses k m entry
                  (condition ∙ rw go refl) go
                  (let next' =
                      next fuel fuel' v w side limit_price remaining id crosses k m entry in
                    let more : 1 ≤ remaining = ground arith in
                    subst
                      (λ (x : PriceMap Level).
                        SameSweep (next_book b side k.index remaining)
                          (next_lists v side k limit_price remaining id fuel)
                          (next_free v side k limit_price remaining id fuel) flight (opposite side)
                          (at_side ms (opposite side) next'.0)
                          (remaining - fill_of b k.index remaining)
                          (Book.match_loop fuel (next_book b side k.index remaining) side
                            limit_price (remaining - fill_of b k.index remaining) id)
                          (Naive.match_loop fuel' crosses x next'.1 id side
                            (remaining - fill_of b k.index remaining)))
                      (at_side_here ms (opposite side) next'.0)
                      (match_loop-SameSweep fuel fuel'
                        (settle-IsValid v (opposite side) k (fill_of b k.index remaining)
                          (left_of b k.index remaining) (fill_parts b k.index remaining))
                        (settle-Mirrors v w (opposite side) k m entry (fill_of b k.index remaining)
                          (left_of b k.index remaining))
                        side limit_price (remaining - fill_of b k.index remaining) id crosses
                        (next-Enough v side k limit_price remaining id fuel more enough)
                        (subst (EnoughNaive fuel' (remaining - fill_of b k.index remaining))
                          (sym (at_side_here ms (opposite side) next'.0))
                          (next-EnoughNaive fuel fuel' v w side limit_price remaining id crosses k m
                            entry more enough'))
                        (λ q ne. same q (drops_only v side k limit_price remaining id fuel q ne))))
            | inr stop ↦
                both_stop fuel fuel' v w side limit_price remaining id crosses (ms (opposite side))
                  refl (condition ∙ rw stop refl)
                  (rw entry (
                    naive-stops fuel' crosses px (naive_of (b.pool.slots k.index))
                      (orders_of b.pool.slots k.behind) m index id side remaining stop))
          ]
    ]
