-- ===== src/Agree/Add.antt =====
-- `OrderBook::add` and `NaiveBook::add` agree.
use low_latency_orderbook.Prelude.{
  ℕ, suc, ℤ, pos, leb_ℤ, eqb_ℤ, eqb_ℤ_sound, length, ◌⊎◌, ◌+◌, ◌<◌, ◌≤◌, ◌^◌, ◌≡◌, ◌≢◌, refl, ap,
  ◌∙◌, Bool, true, false, not, ltb, ◌&&◌, ◌||◌, ◌==◌, Bool-cases, inl, inr, none, some, List, [],
  ◌∷◌, ◌++◌, ◌*◌, ◌-◌, map, arith, if◌then◌else◌,
}
use low_latency_orderbook.Types.{
  is_int64, Side, buy, sell, opposite, OrderType, is_market, is_limit, RejectReason, Event,
  invalid_order_id,
}
use low_latency_orderbook.Event.{rejected_event, accepted_event, canceled_event, order_price}
use low_latency_orderbook.Pool.{OrderPool, alloc, find, index_of}
use low_latency_orderbook.Pool.Alloc.{alloc-exhausted, alloc-id_bounds, alloc-slot_id}
use low_latency_orderbook.Map.{PriceMap, lookup_id, is_nil}
use low_latency_orderbook.Naive.{NaiveBook, Level, Locator, levels, set_levels, order_count}
use low_latency_orderbook.Naive
use low_latency_orderbook.Book
use low_latency_orderbook.Book.{
  OrderBook, Outcome, free_slot, prepend, match, sweep_limit, rest, finish, add_minted, reject,
}
use low_latency_orderbook.Book.Valid.{Sides, IsValid}
use low_latency_orderbook.Book.Flight.{alloc-IsValid_book, give_back-IsValid}
use low_latency_orderbook.Book.Push.{with_last, rest-IsValid}
use low_latency_orderbook.Book.Add.{Represents, is_acceptable, add-accepted}
use low_latency_orderbook.Agree.Mirror.{Mirrors, Agrees, levels-set_levels, levels-index}
use low_latency_orderbook.Agree.Flight.{new_unknown, alloc-Mirrors, give_back-Mirrors}
use low_latency_orderbook.Agree.Rest.{rest-Agrees}
use low_latency_orderbook.Agree.Sweep.{SameSweep, match_loop-SameSweep}

-- the id that the reference book is given where the book returns none, and the events that it gives
-- then, with the id that the book's own events carry (`kDummyId` of
-- tests/differential_matching_test.cc)
abbrev pub dummy_id : ℕ
dummy_id = (2 ^ 31 - 1) * 2 ^ 32 + (2 ^ 31 - 1)

abbrev pub naive_id : ℕ → ℕ
naive_id id = if id == 0 then dummy_id else id

abbrev pub normal_event : Event → Event
normal_event e = record e { order_id = if e.order_id == dummy_id then 0 else e.order_id }

abbrev pub normalized : ℕ → List Event → List Event
normalized id es = if id == 0 then map normal_event es else es

-- Both books return, with the same events, and mirror one another afterwards. The reference book is
-- given the id that the book returned, or the dummy. One slot of the free ones is taken at most, and orders rest at
-- no new price but that of the order.
pub record SameAdd (c : Sides) (free_slots : ℕ) (price : ℤ) (accepted : Bool) (out : Outcome ℕ)
    (naive : ℕ → Naive.Outcome) : Type 0 where
  pub id : ℕ
  pub events : List Event
  pub book : OrderBook
  pub lists : Sides
  pub naive_book : NaiveBook
  pub returns : out ≡ some (id, book, events)
  pub naive_events : List Event
  pub naive_returns : naive (naive_id id) ≡ some (accepted, naive_book, naive_events)
  pub same_events : normalized id naive_events ≡ events
  pub after : Represents book lists
  pub agrees : Agrees book lists naive_book
  pub takes_one_slot : free_slots ≤ length after.free_list + 1
  pub named : accepted ≡ not (id == 0)
  pub prices :
      (s : Side) (q : ℤ) → is_nil (lists s q) ≡ false → (is_nil (c s q) ≡ false) ⊎ (q ≡ price)

with_last-prices :
    (c : Sides) (side : Side) (price : ℤ) (i : ℕ) (s : Side) (q : ℤ)
    → is_nil (with_last c side price i s q) ≡ false
    → (is_nil (c s q) ≡ false) ⊎ (q ≡ price)
with_last-prices c side price i s q ne = elim (Bool-cases (eqb_ℤ q price)) [
  | inl same ↦ inr (eqb_ℤ_sound q price same)
  | inr other ↦ inl (go other side s ne)
]
  where
    go :
        eqb_ℤ q price ≡ false
        → (side s : Side) → is_nil (with_last c side price i s q) ≡ false
        → is_nil (c s q) ≡ false
    go other buy buy ne = rw other at ne
    go other buy sell ne = ne
    go other sell buy ne = ne
    go other sell sell ne = rw other at ne

-- the limit of a market order crosses every 64-bit price
same_crosses :
    (side : Side) (type : OrderType) (price q : ℤ)
    → is_int64 q ≡ true
    → Naive.crosses side type price q ≡ Book.crosses side (sweep_limit side type price) q
unfolding Naive.crosses Book.crosses sweep_limit
same_crosses buy type price q e = elim (Bool-cases (is_market type)) [
  | inl m ↦ rw m (ground arith)
  | inr l ↦ rw l refl
]
same_crosses sell type price q e = elim (Bool-cases (is_market type)) [
  | inl m ↦ rw m (ground arith)
  | inr l ↦ rw l refl
]

-- the reference book after its sweep
abbrev after_sweep : NaiveBook → Side → PriceMap Level → List (ℕ × Locator) → NaiveBook
after_sweep n side m index = record (set_levels n (opposite side) m) { index = index }

naive-accepted :
    (n : NaiveBook) (id : ℕ) (side : Side) (type : OrderType) (price : ℤ) (qty left : ℕ)
    (m : PriceMap Level) (index : List (ℕ × Locator)) (events : List Event)
    → (id == 0) ≡ false
    → lookup_id id n.index ≡ none
    → is_acceptable type price qty ≡ true
    → Naive.match n id side type price qty ≡ some (left, (m, index), events)
    → let last = Naive.finish (after_sweep n side m index) id side type price qty left in
      Naive.add n id side type price qty
      ≡ some
          (true, last.0, accepted_event side qty (order_price type price) id ∷ (events ++ last.1))
unfolding Naive.add
naive-accepted n id side type price qty left m index events named fresh ok e =
    rw (named, fresh, qty_ok, price_ok, e, Naive.add) refl
  where
    qty_ok : (qty == 0) ≡ false
    qty_ok = ground arith

    price_ok : (not (is_market type) && leb_ℤ price (pos 0)) ≡ false
    price_ok = ground arith

find-wide : (p : OrderPool) → p.capacity < 2 ^ 31 → find p dummy_id ≡ none
unfolding find index_of
find-wide p small = ground arith

normal-rejected :
    (side : Side) (reason : RejectReason) (qty : ℕ) (price : ℤ)
    → map normal_event (rejected_event side reason qty price dummy_id ∷ [])
      ≡ rejected_event side reason qty price invalid_order_id ∷ []
normal-rejected side reason qty price = refl

module _ {b : OrderBook} {c : Sides} {n : NaiveBook} (r : Represents b c) (w : Agrees b c n)
    (side : Side) (type : OrderType) (price : ℤ) (qty : ℕ) where
  dummy_unlisted : lookup_id dummy_id n.index ≡ none
  dummy_unlisted = w.located_ids dummy_id ∙ rw dummy_unknown refl
    where
      dummy_unknown : find b.pool dummy_id ≡ none
      dummy_unknown = find-wide b.pool r.valid.pool.small

  -- neither book changes on an order that is refused
  refused :
      is_acceptable type price qty ≡ false
      → SameAdd c
          (length r.free_list)
          price
          false
          (Book.add b side type price qty)
          (λ id. Naive.add n id side type price qty)
  unfolding Book.add Naive.add
  refused bad = elim (Bool-cases (qty == 0)) [
    | inl none_wanted ↦ record {
      id = 0;
      events = rejected_event side RejectReason.invalid_qty qty price invalid_order_id ∷ [];
      book = b;
      lists = c;
      naive_book = n;
      returns = rw (none_wanted, Book.add) refl;
      naive_events = rejected_event side RejectReason.invalid_qty qty price dummy_id ∷ [];
      naive_returns = rw (dummy_unlisted, none_wanted, Naive.add) refl;
      same_events = normal-rejected side RejectReason.invalid_qty qty price;
      after = r;
      agrees = w;
      takes_one_slot = omega arith;
      named = refl;
      prices = λ s q ne. inl ne;
    }
    | inr some_wanted ↦
        let bad_price : (not (is_market type) && leb_ℤ price (pos 0)) ≡ true = ground arith in
        record {
          id = 0;
          events = rejected_event side RejectReason.invalid_price qty price invalid_order_id ∷ [];
          book = b;
          lists = c;
          naive_book = n;
          returns = rw (some_wanted, bad_price, Book.add) refl;
          naive_events = rejected_event side RejectReason.invalid_price qty price dummy_id ∷ [];
          naive_returns = rw (dummy_unlisted, some_wanted, bad_price, Naive.add) refl;
          same_events = normal-rejected side RejectReason.invalid_price qty price;
          after = r;
          agrees = w;
          takes_one_slot = omega arith;
          named = refl;
          prices = λ s q ne. inl ne;
        }
  ]

module _ {b : OrderBook} {c : Sides} {bs : Side → List ℕ} {fs : List ℕ} {i : ℕ}
    (v : IsValid b c bs fs (some i)) {n : NaiveBook}
    (w : Mirrors b.pool c (some i) (levels n) n.index) (side : Side) (type : OrderType) (price : ℤ)
    (qty id : ℕ) (narrow : qty < 2 ^ 32) (ok : is_acceptable type price qty ≡ true)
    (names_slot : index_of id ≡ i) (its_id : (b.pool.slots i).order_id ≡ id)
    (fresh : lookup_id id n.index ≡ none) where
  has_name : true ≡ not (id == 0)
  has_name =
      let live : (b.pool.slots i).order_id ≢ 0 = (v.in_flight i (ground arith)).0.1 in
      ground (arith, its_id)

  is_some_id : (id == 0) ≡ false
  is_some_id = ground (arith, has_name)

  -- both books after the sweep of an order in flight
  module _
      (s : SameSweep b c fs
        (some i)
        (opposite side)
        (levels n)
        qty
        (match b side (sweep_limit side type price) qty id)
        (Naive.match n id side type price qty)) where
    abbrev events' : List Event
    events' = accepted_event side qty (order_price type price) id ∷ s.events

    abbrev naive' : NaiveBook
    naive' = after_sweep n side s.map s.index

    mirrors' : Mirrors s.book.pool s.lists (some i) (levels naive') naive'.index
    mirrors' =
        rw
          (
            levels-index (set_levels n (opposite side) s.map) s.index,
            levels-set_levels n (opposite side) s.map,
          )
          s.mirrors

    book-accepted :
        add_minted b side type price qty id
        ≡ prepend events' (some (finish s.book side type price qty s.left id))
    unfolding add_minted
    book-accepted = rw (s.returns, add_minted) refl

    last_events : List Event
    last_events =
        if ltb 0 s.left then canceled_event side s.left (order_price type price) id ∷ [] else []

    naive-gone :
        ((s.left == 0) || not (is_limit type)) ≡ true
        → Naive.finish naive' id side type price qty s.left ≡ (naive', last_events)
    unfolding Naive.finish last_events
    naive-gone e = elim (Bool-cases (ltb 0 s.left)) [
      | inl some_left ↦
          let not_limit : is_limit type ≡ false = ground arith in
          rw (some_left, not_limit, Naive.finish) refl
      | inr none_left ↦ rw (none_left, Naive.finish) refl
    ]

    naive-rests :
        ((s.left == 0) || not (is_limit type)) ≡ false
        → Naive.finish naive' id side type price qty s.left
          ≡ (Naive.rest naive' id side price qty s.left, [])
    unfolding Naive.finish
    naive-rests e =
        let some_left : ltb 0 s.left ≡ true = ground arith in
        let is_limit' : is_limit type ≡ true = ground arith in
        rw (some_left, is_limit', Naive.finish) refl

    -- the remainder is canceled, if any
    same-gone :
        ((s.left == 0) || not (is_limit type)) ≡ true
        → SameAdd c
            (suc (length fs))
            price
            true
            (add_minted b side type price qty id)
            (λ id'. Naive.add n id' side type price qty)
    unfolding finish last_events
    same-gone e = record {
      id = id;
      events = events' ++ last_events;
      book = free_slot s.book i;
      lists = s.lists;
      naive_book = naive';
      returns = rw (book-accepted, e, names_slot) refl;
      naive_events = events' ++ last_events;
      naive_returns = rw is_some_id (
          naive-accepted n id side type price qty s.left s.map s.index s.events is_some_id fresh ok
            s.naive_returns
          ∙ rw (naive-gone e) refl);
      same_events = rw is_some_id refl;
      after = record {
        bands = s.bands;
        free_list = i ∷ s.free_list;
        valid = give_back-IsValid s.valid;
      };
      agrees = give_back-Mirrors s.valid mirrors';
      takes_one_slot = omega (arith, s.takes_no_slot);
      named = has_name;
      prices = λ sd q ne. inl (s.no_new sd q ne);
    }

    -- the remainder rests
    same-rested :
        ((s.left == 0) || not (is_limit type)) ≡ false
        → SameAdd c
            (suc (length fs))
            price
            true
            (add_minted b side type price qty id)
            (λ id'. Naive.add n id' side type price qty)
    unfolding finish
    same-rested e =
        let some_left : 1 ≤ s.left = ground arith in
        let small : s.left < 2 ^ 32 = omega (arith, s.at_most) in
        record {
          id = id;
          events = events' ++ [];
          book = rest s.book i side type price qty s.left;
          lists = with_last s.lists side price i;
          naive_book = Naive.rest naive' id side price qty s.left;
          returns = rw (book-accepted, e, names_slot) refl;
          naive_events = events' ++ [];
          naive_returns = rw is_some_id (
              naive-accepted n id side type price qty s.left s.map s.index s.events is_some_id fresh
                ok s.naive_returns
              ∙ rw (naive-rests e) refl);
          same_events = rw is_some_id refl;
          after = record {
            bands = _;
            free_list = s.free_list;
            valid = rest-IsValid s.valid side type price qty s.left some_left small s.at_most;
          };
          agrees =
              rest-Agrees s.valid side type price qty s.left naive' id some_left small s.at_most
                (s.same_id i (ground arith) ∙ its_id) mirrors';
          takes_one_slot = omega (arith, s.takes_no_slot);
          named = has_name;
          prices = λ sd q ne. elim (with_last-prices s.lists side price i sd q ne) [
            | inl before ↦ inl (s.no_new sd q before)
            | inr here ↦ inr here
          ];
        }

  sweep :
      ((q : ℤ) → is_nil (c (opposite side) q) ≡ false → is_int64 q ≡ true)
      → SameSweep b c fs
          (some i)
          (opposite side)
          (levels n)
          qty
          (match b side (sweep_limit side type price) qty id)
          (Naive.match n id side type price qty)
  unfolding match Naive.match
  sweep int64 =
      match_loop-SameSweep (b.pool.live_count + 1) (order_count (levels n (opposite side)) + 1) v w
        side (sweep_limit side type price) qty id (Naive.crosses side type price)
        (inr (omega (arith, v.pool.count))) (inr (omega arith))
        (λ q ne. same_crosses side type price q (int64 q ne))

  same-minted :
      ((q : ℤ) → is_nil (c (opposite side) q) ≡ false → is_int64 q ≡ true)
      → SameAdd c
          (suc (length fs))
          price
          true
          (add_minted b side type price qty id)
          (λ id'. Naive.add n id' side type price qty)
  same-minted int64 = elim (Bool-cases (((sweep int64).left == 0) || not (is_limit type))) [
    | inl e ↦ same-gone (sweep int64) e
    | inr e ↦ same-rested (sweep int64) e
  ]

-- On books that mirror one another `OrderBook::add` and `NaiveBook::add`, which is given the id that
-- the former returned, or an id that no order has where it returned none, both return and give the
-- same events in the same order, but for that id, whatever the order: accepted or refused, resting
-- or canceled. The id that the reference book is given is not zero and not in use, as it asserts. The
-- books mirror one another afterwards and the book is valid, with one free slot less at most and
-- orders at no new price but that of the order. The quantity is a 32-bit integer, a slot is free, and
-- the opposite side rests at 64-bit prices.
pub add-Agrees :
    {b : OrderBook} {c : Sides} {n : NaiveBook} (r : Represents b c) (w : Agrees b c n)
    (side : Side) (type : OrderType) (price : ℤ) (qty : ℕ)
    → qty < 2 ^ 32
    → (alloc b.pool).0 ≢ 0
    → ((q : ℤ) → is_nil (c (opposite side) q) ≡ false → is_int64 q ≡ true)
    → SameAdd c
        (length r.free_list)
        price
        (is_acceptable type price qty)
        (Book.add b side type price qty)
        (λ id. Naive.add n id side type price qty)
add-Agrees {b} {c} {n} r w side type price qty narrow room int64 =
    elim (Bool-cases (is_acceptable type price qty)) [
      | inl ok ↦ rw ok (go ok r.free_list r.valid)
      | inr bad ↦ rw bad (refused r w side type price qty bad)
    ]
  where
    go :
        is_acceptable type price qty ≡ true
        → (fs : List ℕ) → IsValid b c r.bands fs none
        → SameAdd c
            (length fs)
            price
            true
            (Book.add b side type price qty)
            (λ id. Naive.add n id side type price qty)
    go ok [] v = absurd (
        room (
          ap (λ (x : ℕ × low_latency_orderbook.Pool.OrderPool). x.0)
            (alloc-exhausted b.pool v.pool)))
    go ok (i ∷ fs) v = rw (add-accepted b side type price qty ok room) (
        same-minted (alloc-IsValid_book v) (alloc-Mirrors v w) side type price qty (alloc b.pool).0
          narrow ok (alloc-id_bounds b.pool i v.pool).1 (alloc-slot_id b.pool i v.pool)
          (w.located_ids (alloc b.pool).0 ∙ rw (new_unknown v) refl) int64)
