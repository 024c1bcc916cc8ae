-- ===== src/Book/Rests.antt =====
-- `OrderBook::OrderBook`, `OrderBook::add_limit` and `OrderBook::cancel` on a valid book.
use low_latency_orderbook.Prelude.{
  ℕ, ℤ, pos, leb_ℤ, ◌<◌, ◌≤◌, length, ◌^◌, ◌≡◌, ◌≢◌, refl, sym, subst, ap, ◌∙◌, true, false, ◌==◌,
  ◌||◌, Bool-cases, Option-cases, ◌⊎◌, inl, inr, Option, none, some, List, [], ◌∷◌, arith, has,
}
use low_latency_orderbook.Types.{Side, buy, sell, limit}
use low_latency_orderbook.Event.{canceled_event}
use low_latency_orderbook.Pool.{Order, alloc, find, index_of}
use low_latency_orderbook.Pool
use low_latency_orderbook.Pool.Valid.{IsLive, span, init-IsValid}
use low_latency_orderbook.Pool.Find.{find_sound}
use low_latency_orderbook.Pool.Alloc.{alloc-exhausted, alloc-id_bounds, alloc-slot_id}
use low_latency_orderbook.Ladder
use low_latency_orderbook.Ladder.Start.{init-Holds}
use low_latency_orderbook.Book.{OrderBook, filled_order, init, rest, add_limit, cancel}
use low_latency_orderbook.Book.Valid.{Sides, IsValid}
use low_latency_orderbook.Book.Flight.{alloc-IsValid_book}
use low_latency_orderbook.Book.Push.{with_last, rest-IsValid, rest-fixed}
use low_latency_orderbook.Ladder.Touched.{fixed}
use low_latency_orderbook.Book.Remove.{without, removed, removed-IsValid}
use low_latency_orderbook.Book.Add.{Represents}

no_live : (capacity i : ℕ) → IsLive (Pool.init capacity) i → ⊥
unfolding Pool.init
no_live capacity i l = l.1 refl

-- A new book of fewer than 2^31 slots is valid and holds no orders.
pub init-Represents :
    (anchor_price : ℤ) (band_radius pool_capacity : ℕ)
    → pool_capacity < 2 ^ 31
    → Represents (init anchor_price band_radius pool_capacity) (λ side q. [])
unfolding init
init-Represents anchor_price band_radius pool_capacity small = record {
  bands = λ side. [];
  free_list = span 0 pool_capacity;
  valid = record {
    pool = init-IsValid pool_capacity small;
    sides = elim [
      | buy ↦ init-Holds buy anchor_price band_radius _
      | sell ↦ init-Holds sell anchor_price band_radius _
    ];
    own_side = elim [ buy ↦ own buy | sell ↦ own sell ];
    wide = λ i. unfold Pool.init in (omega arith);
    live = λ side q i m. absurd (cc);
    rests = λ i l n. absurd (no_live pool_capacity i l);
    in_flight = λ i n. absurd (cc);
  };
}
  where
    own : (side : Side) → (Ladder.init side anchor_price band_radius).side ≡ side
    own side = unfold Ladder.init in refl

-- the order lists without the order that an id names, if it names one
abbrev pub lists_without : OrderBook → Sides → Option ℕ → Sides
lists_without b c none = c
lists_without b c (some i) = without c (b.pool.slots i).side (b.pool.slots i).price_ticks i

cancel-unknown :
    (b : OrderBook) (id : ℕ)
    → find b.pool id ≡ none
    → ((cancel b id).0 ≡ false) × ((cancel b id).1 ≡ b)
unfolding cancel
cancel-unknown b id e = ground arith

pub cancel-found :
    (b : OrderBook) (id i : ℕ)
    → find b.pool id ≡ some i
    → let o = b.pool.slots i in
      cancel b id
      ≡ (true, removed b o.side i, canceled_event o.side o.remaining o.price_ticks id ∷ [])
unfolding cancel removed
cancel-found b id i e = rw (e, cancel) refl

-- the order that an id names rests
pub found_rests :
    {b : OrderBook} {c : Sides} (r : Represents b c) (id i : ℕ)
    → find b.pool id ≡ some i
    → has i (c (b.pool.slots i).side (b.pool.slots i).price_ticks) ≡ true
found_rests {b} r id i e = r.valid.rests i (find_sound b.pool id i e).1 refl

-- The book after `cancel` is valid, and has as many free slots at least.
pub cancel-after :
    {b : OrderBook} {c : Sides} (r : Represents b c) (id : ℕ)
    → (r' : Represents (cancel b id).1 (lists_without b c (find b.pool id))) × (length r.free_list
        ≤ length r'.free_list)
cancel-after {b} {c} r id = elim (Option-cases (find b.pool id)) [
  | inl e ↦ rw e (
      subst (λ (x : OrderBook). (r' : Represents x c) × (length r.free_list ≤ length r'.free_list))
        (sym (cancel-unknown b id e).1) (r, omega arith))
  | inr (i, e) ↦
      rw (e, cancel-found b id i e)
        (
          record {
            bands = _;
            free_list = _;
            valid = removed-IsValid r.valid (b.pool.slots i).side i (found_rests r id i e);
          },
          omega arith,
        )
]

cancel-answers :
    (b : OrderBook) (id : ℕ)
    → let (ok, b', events) = cancel b id in
      ((ok ≡ true) ⊎ ((ok ≡ false) × (b' ≡ b)))
      × (ok ≡ (elim (find b.pool id) [ none ↦ false | some i ↦ true ]))
cancel-answers b id = elim (Option-cases (find b.pool id)) [
  | inl e ↦ let k = cancel-unknown b id e in rw e (inr (k.0, k.1), k.0)
  | inr (i, e) ↦ rw (e, cancel-found b id i e) (inl refl, refl)
]

-- `cancel` returns true exactly if its id names a live order. Then that order is gone from the list
-- of its price, and otherwise the book stays as it was; all other order lists are kept, and the book
-- is valid.
pub cancel-Represents :
    {b : OrderBook} {c : Sides} (r : Represents b c) (id : ℕ)
    → let (ok, b', events) = cancel b id in
      Represents b' (lists_without b c (find b.pool id))
      × ((ok ≡ true) ⊎ ((ok ≡ false) × (b' ≡ b)))
      × (ok ≡ (elim (find b.pool id) [ none ↦ false | some i ↦ true ]))
cancel-Represents {b} r id =
    let (changed, found) = cancel-answers b id in ((cancel-after r id).0, changed, found)

add_limit-rests :
    (b : OrderBook) (side : Side) (price : ℤ) (qty : ℕ)
    → ((qty == 0) || leb_ℤ price (pos 0)) ≡ false
    → (alloc b.pool).0 ≢ 0
    → add_limit b side price qty ≡ (
      (alloc b.pool).0,
      rest
          (record b { pool = (alloc b.pool).1 })
          (index_of (alloc b.pool).0)
          side
          limit
          price
          qty
          qty,
    )
unfolding add_limit
add_limit-rests b side price qty e ne = ground arith

add_limit-refuses :
    (b : OrderBook) (side : Side) (price : ℤ) (qty : ℕ)
    → ((((qty == 0) || leb_ℤ price (pos 0)) ≡ true) ⊎ (alloc b.pool ≡ (0, b.pool)))
    → add_limit b side price qty ≡ (0, b)
unfolding add_limit
add_limit-refuses b side price qty (inl e) = ground arith
add_limit-refuses b side price qty (inr e) = ground arith

-- the order that an id names, resting whole
abbrev pub RestsWhole : OrderBook → ℕ → Side → ℤ → ℕ → Type 0
RestsWhole b id side price qty =
    let o = b.pool.slots (index_of id) in
    (o.order_id ≡ id)
    × (o.side ≡ side)
    × (o.price_ticks ≡ price)
    × (o.qty ≡ qty)
    × (o.remaining ≡ qty)

whole_of_fixed :
    (o o' : Order) (id : ℕ) (side : Side) (price : ℤ) (qty : ℕ)
    → fixed o ≡ fixed (filled_order o' side limit price qty qty)
    → o'.order_id ≡ id
    → (o.order_id ≡ id)
      × (o.side ≡ side)
      × (o.price_ticks ≡ price)
      × (o.qty ≡ qty)
      × (o.remaining ≡ qty)
unfolding filled_order
whole_of_fixed o o' id side price qty e its_id = (
  ap (λ (x : Order). x.order_id) e ∙ its_id,
  ap (λ (x : Order). x.side) e,
  ap (λ (x : Order). x.price_ticks) e,
  ap (λ (x : Order). x.qty) e,
  ap (λ (x : Order). x.remaining) e,
)

limit_or_full :
    {b : OrderBook} {c : Sides} (bs : Side → List ℕ) (fs : List ℕ) (side : Side) (price : ℤ)
    (qty : ℕ)
    → IsValid b c bs fs none
    → ((qty == 0) || leb_ℤ price (pos 0)) ≡ false
    → qty < 2 ^ 32
    → let (id, b') = add_limit b side price qty in
      ((id ≡ 0) × (b' ≡ b))
      ⊎ ((id ≢ 0)
          × Represents b' (with_last c side price (index_of id))
          × RestsWhole b' id side price qty)
limit_or_full {b} bs [] side price qty v ok narrow =
    rw (add_limit-refuses b side price qty (inr (alloc-exhausted b.pool v.pool))) (inl (refl, refl))
limit_or_full {b} {c} bs (i ∷ fs) side price qty v ok narrow =
    let bounds = alloc-id_bounds b.pool i v.pool in
    rw (add_limit-rests b side price qty ok bounds.0) (
      inr (
        bounds.0,
        rw bounds.1 (record {
          bands = _;
          free_list = fs;
          valid =
              rest-IsValid (alloc-IsValid_book v) side limit price qty qty (ground arith) narrow
                (omega arith);
        }),
        rw bounds.1 (
            whole_of_fixed
              ((rest (record b { pool = (alloc b.pool).1 }) i side limit price qty qty).pool.slots
                i)
              ((alloc b.pool).1.slots i) (alloc b.pool).0 side price qty
              (rest-fixed (alloc-IsValid_book v) side limit price qty qty (ground arith) narrow
                (omega arith))
              (alloc-slot_id b.pool i v.pool)),
      ))

-- `add_limit` of a 32-bit quantity either gives the reserved id and keeps the book as it was, or
-- rests the order last at its price, under an id that names its slot, which has the side, the price
-- and the whole quantity; all other order lists are kept, and the book is valid. Nothing is matched.
pub add_limit-Represents :
    {b : OrderBook} {c : Sides} (r : Represents b c) (side : Side) (price : ℤ) (qty : ℕ)
    → qty < 2 ^ 32
    → let (id, b') = add_limit b side price qty in
      ((id ≡ 0) × (b' ≡ b))
      ⊎ ((id ≢ 0)
          × Represents b' (with_last c side price (index_of id))
          × RestsWhole b' id side price qty)
add_limit-Represents {b} r side price qty narrow =
    elim (Bool-cases ((qty == 0) || leb_ℤ price (pos 0))) [
      | inl bad ↦ rw (add_limit-refuses b side price qty (inl bad)) (inl (refl, refl))
      | inr ok ↦ limit_or_full r.bands r.free_list side price qty r.valid ok narrow
    ]
