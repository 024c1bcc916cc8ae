-- ===== src/Book/Add.antt =====
-- `OrderBook::add` and `OrderBook::add_limit` on a valid book.
use low_latency_orderbook.Prelude.{
  ℕ, zero, suc, ℤ, pos, leb_ℤ, eqb_ℤ, eqb_ℤ_sound, ◌+◌, ◌*◌, ◌≤◌, ◌<◌, ◌^◌, ◌≡◌, ◌≢◌, refl, sym, ap,
  subst, ◌∙◌, true, false, not, ◌==◌, ◌||◌, ◌&&◌, ltb, Bool-cases, ◌⊎◌, inl, inr, none, some, List,
  [], ◌∷◌, ◌++◌, arith, length, if◌then◌else◌,
}
use low_latency_orderbook.Types.{
  Side, buy, sell, opposite, OrderType, is_market, is_limit, RejectReason, Event, invalid_order_id,
}
use low_latency_orderbook.Event.{rejected_event, accepted_event, canceled_event, order_price}
use low_latency_orderbook.Pool.{alloc, index_of}
use low_latency_orderbook.Pool.Alloc.{alloc-exhausted, alloc-id_bounds}
use low_latency_orderbook.Map.{before, is_nil}
use low_latency_orderbook.Book.{
  OrderBook, ladder, free_slot, Outcome, prepend, match, sweep_limit, rest, finish, add_minted,
  reject, add, add_limit,
}
use low_latency_orderbook.Book.Valid.{Sides, IsValid}
use low_latency_orderbook.Book.Flight.{alloc-IsValid_book, give_back-IsValid}
use low_latency_orderbook.Book.Push.{with_last, rest-IsValid}
use low_latency_orderbook.Book.Sweep.{Swept, match_loop-Swept}
use low_latency_orderbook.Book.Uncrossed.{IsUncrossed, clear_of}

-- A book at rest that holds the order lists `c`.
pub record Represents (b : OrderBook) (c : Sides) : Type 0 where
  pub bands : Side → List ℕ
  pub free_list : List ℕ
  pub valid : IsValid b c bands free_list none

-- the checks of `add` and of `add_limit` before they allocate
abbrev pub is_acceptable : OrderType → ℤ → ℕ → low_latency_orderbook.Prelude.Bool
is_acceptable type price qty = not (qty == 0) && not (not (is_market type) && leb_ℤ price (pos 0))

-- What is shown of `add`: it returns, the book is valid afterwards and uncrossed if it was.
pub record Added (c : Sides) (out : Outcome ℕ) : Type 0 where
  pub id : ℕ
  pub book : OrderBook
  pub events : List Event
  pub lists : Sides
  pub returns : out ≡ some (id, book, events)
  pub after : Represents book lists
  pub stays_uncrossed : IsUncrossed c → IsUncrossed lists

module _ {b : OrderBook} {c : Sides} (r : Represents b c) (side : Side) where
  unchanged :
      (reason : RejectReason) (qty : ℕ) (price : ℤ) → Added c (reject b side reason qty price)
  unchanged reason qty price = record {
    id = 0;
    book = b;
    events = rejected_event side reason qty price invalid_order_id ∷ [];
    lists = c;
    returns = refl;
    after = r;
    stays_uncrossed = λ u. u;
  }

-- the four ways to a bid and an ask after an order came to rest at `price`
last-IsUncrossed :
    (c lists : Sides) (side : Side) (price : ℤ) (i : ℕ)
    → lists side ≡ c side
    → ((q : ℤ) → is_nil (lists (opposite side) q) ≡ false → is_nil (c (opposite side) q) ≡ false)
    → ((q : ℤ) → is_nil (lists (opposite side) q) ≡ false → before (opposite side) price q ≡ true)
    → IsUncrossed c
    → IsUncrossed (with_last lists side price i)
last-IsUncrossed c lists buy price i own less clear u p q ne ne' =
    elim (Bool-cases (eqb_ℤ p price)) [
      | inl same ↦ rw (eqb_ℤ_sound p price same) (clear q ne')
      | inr other ↦
          u p q (subst (λ (l : ℤ → List ℕ). is_nil (l p) ≡ false) own (rw other at ne)) (less q ne')
    ]
last-IsUncrossed c lists sell price i own less clear u p q ne ne' =
    elim (Bool-cases (eqb_ℤ q price)) [
      | inl same ↦ rw (eqb_ℤ_sound q price same) (clear p ne)
      | inr other ↦
          u p q (less p ne) (subst (λ (l : ℤ → List ℕ). is_nil (l q) ≡ false) own (rw other at ne'))
    ]

less-IsUncrossed :
    (c lists : Sides) (side : Side)
    → lists side ≡ c side
    → ((q : ℤ) → is_nil (lists (opposite side) q) ≡ false → is_nil (c (opposite side) q) ≡ false)
    → IsUncrossed c
    → IsUncrossed lists
less-IsUncrossed c lists buy own less u p q ne ne' =
    u p q (subst (λ (l : ℤ → List ℕ). is_nil (l p) ≡ false) own ne) (less q ne')
less-IsUncrossed c lists sell own less u p q ne ne' =
    u p q (less p ne) (subst (λ (l : ℤ → List ℕ). is_nil (l q) ≡ false) own ne')

module _ {b : OrderBook} {c : Sides} {bs : Side → List ℕ} {i : ℕ} {fs : List ℕ}
    (v : IsValid b c bs fs (some i)) (side : Side) (type : OrderType) (price : ℤ) (qty id : ℕ)
    (narrow : qty < 2 ^ 32) (names_slot : index_of id ≡ i) where
  pub swept :
      Swept b c
        (some i)
        side
        (sweep_limit side type price)
        qty
        (match b side (sweep_limit side type price) qty id)
  unfolding match
  swept =
      match_loop-Swept (b.pool.live_count + 1) v side (sweep_limit side type price) qty id
        (inr (omega (arith, v.pool.count)))

  module _
      (w : Swept b c
        (some i)
        side
        (sweep_limit side type price)
        qty
        (match b side (sweep_limit side type price) qty id)) where
    -- `add` after its sweep
    pub add_minted-returns :
        add_minted b side type price qty id
        ≡ prepend
            (accepted_event side qty (order_price type price) id ∷ w.events)
            (some (finish w.book side type price qty w.left id))
    unfolding add_minted
    add_minted-returns = rw (w.returns, add_minted) refl

    gone :
        ((w.left == 0) || not (is_limit type)) ≡ true
        → Added c (add_minted b side type price qty id)
    unfolding finish
    gone e = record {
      id = id;
      book = free_slot w.book i;
      events =
          (accepted_event side qty (order_price type price) id ∷ w.events)
          ++ (if ltb 0 w.left
              then canceled_event side w.left (order_price type price) id ∷ []
              else []);
      lists = w.lists;
      returns = rw (add_minted-returns, e, names_slot) refl;
      after = record {
        bands = w.bands;
        free_list = i ∷ w.free_list;
        valid = give_back-IsValid w.valid;
      };
      stays_uncrossed = less-IsUncrossed c w.lists side w.own w.no_new;
    }

    limit_price : is_limit type ≡ true → sweep_limit side type price ≡ price
    unfolding sweep_limit
    limit_price e = ground arith

    rested :
        ((w.left == 0) || not (is_limit type)) ≡ false
        → Added c (add_minted b side type price qty id)
    unfolding finish
    rested e = record {
      id = id;
      book = rest w.book i side type price qty w.left;
      events = (accepted_event side qty (order_price type price) id ∷ w.events) ++ [];
      lists = with_last w.lists side price i;
      returns = rw (add_minted-returns, e, names_slot) refl;
      after = record {
        bands = _;
        free_list = w.free_list;
        valid =
            rest-IsValid w.valid side type price qty w.left (ground arith)
              (omega (arith, w.at_most)) w.at_most;
      };
      stays_uncrossed = last-IsUncrossed c w.lists side price i w.own w.no_new (
          clear_of w.valid side price w.left (ground arith) (
            subst
              (λ (p : ℤ).
                low_latency_orderbook.Book.stops (ladder w.book (opposite side)) side p w.left
                ≡ true)
              (limit_price (ground arith)) w.ended));
    }

  pub add_minted-Added : Added c (add_minted b side type price qty id)
  add_minted-Added = elim (Bool-cases ((swept.left == 0) || not (is_limit type))) [
    | inl e ↦ gone swept e
    | inr e ↦ rested swept e
  ]

add-invalid :
    (b : OrderBook) (side : Side) (type : OrderType) (price : ℤ) (qty : ℕ)
    → is_acceptable type price qty ≡ false
    → (reason : RejectReason) × (add b side type price qty ≡ reject b side reason qty price)
unfolding add
add-invalid b side type price qty e = elim (Bool-cases (qty == 0)) [
  | inl zero_qty ↦ (RejectReason.invalid_qty, rw (zero_qty, add) refl)
  | inr some_qty ↦ (RejectReason.invalid_price, ground arith)
]

pub add-accepted :
    (b : OrderBook) (side : Side) (type : OrderType) (price : ℤ) (qty : ℕ)
    → is_acceptable type price qty ≡ true
    → (alloc b.pool).0 ≢ 0
    → add b side type price qty
      ≡ add_minted (record b { pool = (alloc b.pool).1 }) side type price qty (alloc b.pool).0
unfolding add
add-accepted b side type price qty e ne = ground arith

add-exhausted :
    (b : OrderBook) (side : Side) (type : OrderType) (price : ℤ) (qty : ℕ)
    → is_acceptable type price qty ≡ true
    → alloc b.pool ≡ (0, b.pool)
    → add b side type price qty ≡ reject b side RejectReason.pool_exhausted qty price
unfolding add
add-exhausted b side type price qty e full = ground arith

module _ {b : OrderBook} {c : Sides} (side : Side) (type : OrderType) (price : ℤ) (qty : ℕ)
    (narrow : qty < 2 ^ 32) (ok : is_acceptable type price qty ≡ true) where
  accepted_or_full :
      (bs : Side → List ℕ) (fs : List ℕ)
      → IsValid b c bs fs none
      → Added c (add b side type price qty)
  accepted_or_full bs [] v =
      rw (add-exhausted b side type price qty ok (alloc-exhausted b.pool v.pool)) (
        unchanged (record { bands = bs; free_list = []; valid = v }) side
          RejectReason.pool_exhausted qty price)
  accepted_or_full bs (i ∷ fs) v =
      let bounds = alloc-id_bounds b.pool i v.pool in
      rw (add-accepted b side type price qty ok bounds.0) (
        add_minted-Added (alloc-IsValid_book v) side type price qty (alloc b.pool).0 narrow
          bounds.1)

-- On a valid book and for a 32-bit quantity `add` returns, whatever the order: the sweep ends. The
-- book is valid afterwards, its live slots are exactly the resting orders again, and if every bid
-- was below every ask, every bid is below every ask afterwards.
pub add-Added :
    {b : OrderBook} {c : Sides} (r : Represents b c) (side : Side) (type : OrderType) (price : ℤ)
    (qty : ℕ)
    → qty < 2 ^ 32
    → Added c (add b side type price qty)
add-Added {b} {c} r side type price qty narrow = elim (Bool-cases (is_acceptable type price qty)) [
  | inl ok ↦ accepted_or_full side type price qty narrow ok r.bands r.free_list r.valid
  | inr bad ↦
      let (reason, e) = add-invalid b side type price qty bad in
      rw e (unchanged r side reason qty price)
]
