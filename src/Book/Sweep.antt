-- ===== src/Book/Sweep.antt =====
-- `OrderBook::Match`: on a valid book the sweep ends, and what it leaves is a valid book.
use low_latency_orderbook.Prelude.{
  ℕ, zero, suc, ℤ, ◌+◌, ◌-◌, ◌*◌, ◌≤◌, ◌<◌, ◌≡◌, refl, ap, subst, ◌∙◌, true, false, ◌==◌,
  Bool-cases, ◌⊎◌, inl, inr, some, List, [], ◌∷◌, ◌++◌, arith, length, min,
}
use low_latency_orderbook.Types.{Side, buy, sell, opposite, EventType, traded, Event}
use low_latency_orderbook.Pool.{Link, Order, free}
use low_latency_orderbook.Ladder.Holds.{Contents}
use low_latency_orderbook.Pool.Free.{live_pos}
use low_latency_orderbook.Map.{is_nil}
use low_latency_orderbook.Ladder.{best_price, level_at}
use low_latency_orderbook.Ladder.RemoveBand.{occupied_before}
use low_latency_orderbook.Book.{
  OrderBook, ladder, settle, stops, prepend, fill_events, match_loop, Outcome,
}
use low_latency_orderbook.Book.Valid.{Sides, at_side, IsValid}
use low_latency_orderbook.Book.Maker.{
  going_on, head_mem, Maker, maker, at_own_price, lists_after, free_left, settle-IsValid,
}

abbrev pub traded_part : EventType → ℕ → ℕ
traded_part traded qty = qty
traded_part _ qty = 0

-- the quantity that the traded events of a list carry, both sides of each fill
abbrev pub traded_sum : List Event → ℕ
traded_sum [] = 0
traded_sum (e ∷ es) = traded_part e.kind e.qty + traded_sum es

-- What is shown of a sweep of the book `b`: it returns, its book is valid, it stopped for want of
-- quantity, of orders or of a crossing price, it left the taker's own side alone, it rests nothing
-- new, and what it traded and what it left add up to what it started with.
pub record Swept (b : OrderBook) (c : Sides) (flight : Link) (taker_side : Side) (limit_price : ℤ)
    (qty : ℕ) (out : Outcome ℕ) : Type 0 where
  pub left : ℕ
  pub book : OrderBook
  pub events : List Event
  pub lists : Sides
  pub bands : Side → List ℕ
  pub free_list : List ℕ
  pub returns : out ≡ some (left, book, events)
  pub valid : IsValid book lists bands free_list flight
  pub at_most : left ≤ qty
  pub ended : stops (ladder book (opposite taker_side)) taker_side limit_price left ≡ true
  pub own : lists taker_side ≡ c taker_side
  pub no_new :
      (q : ℤ)
      → is_nil (lists (opposite taker_side) q) ≡ false
      → is_nil (c (opposite taker_side) q) ≡ false
  pub traded : traded_sum events + 2 * left ≡ 2 * qty

pub match_loop-stops :
    (fuel : ℕ) (b : OrderBook) (taker_side : Side) (limit_price : ℤ) (remaining id : ℕ)
    → stops (ladder b (opposite taker_side)) taker_side limit_price remaining ≡ true
    → match_loop (suc fuel) b taker_side limit_price remaining id ≡ some (remaining, b, [])
unfolding match_loop
match_loop-stops fuel b taker_side limit_price remaining id e = rw (e, match_loop) refl

pub match_loop-goes :
    (fuel : ℕ) (b : OrderBook) (taker_side : Side) (limit_price : ℤ) (remaining id i : ℕ)
    → stops (ladder b (opposite taker_side)) taker_side limit_price remaining ≡ false
    → (level_at
        (ladder b (opposite taker_side))
        (best_price (ladder b (opposite taker_side)))).head_idx
      ≡ some i
    → let maker = b.pool.slots i in
      let fill = min remaining maker.remaining in
      match_loop (suc fuel) b taker_side limit_price remaining id
      ≡ prepend (fill_events maker taker_side fill (remaining - fill) id) (
          match_loop fuel
            (settle b
              (opposite taker_side)
              (best_price (ladder b (opposite taker_side)))
              i
              fill
              (maker.remaining - fill))
            taker_side
            limit_price
            (remaining - fill)
            id)
unfolding match_loop
match_loop-goes fuel b taker_side limit_price remaining id i e h = rw (e, h, match_loop) refl

both_sides : (P : Side → Type 0) (side : Side) → P side → P (opposite side) → (s : Side) → P s
both_sides P buy own other buy = own
both_sides P buy own other sell = other
both_sides P sell own other buy = other
both_sides P sell own other sell = own

own_lists : (c : Sides) (side : Side) (cs : Contents) → at_side c (opposite side) cs side ≡ c side
own_lists c buy cs = refl
own_lists c sell cs = refl

other_lists : (c : Sides) (side : Side) (cs : Contents) → at_side c side cs side ≡ cs
other_lists c buy cs = refl
other_lists c sell cs = refl

capacity-settle :
    (b : OrderBook) (side : Side) (px : ℤ) (i fill left : ℕ)
    → (settle b side px i fill left).pool.capacity ≡ b.pool.capacity
unfolding settle free
capacity-settle b buy px i fill left = ground arith
capacity-settle b sell px i fill left = ground arith

traded_sum-fill :
    (m : Order) (side : Side) (fill remaining id : ℕ) (es : List Event)
    → traded_sum (fill_events m side fill remaining id ++ es) ≡ 2 * fill + traded_sum es
unfolding fill_events
traded_sum-fill m side fill remaining id es = omega arith

-- fuel for every live order, or for a taker that is filled
abbrev pub Enough : ℕ → ℕ → OrderBook → List ℕ → Type 0
Enough fuel remaining b fs = ((remaining ≡ 0) × (1 ≤ fuel)) ⊎ (b.pool.capacity < fuel + length fs)

-- what the maker keeps of a fill, and what is filled
abbrev pub fill_of : OrderBook → ℕ → ℕ → ℕ
fill_of b i remaining = min remaining (b.pool.slots i).remaining

abbrev pub left_of : OrderBook → ℕ → ℕ → ℕ
left_of b i remaining = (b.pool.slots i).remaining - fill_of b i remaining

-- the book after one round of the sweep
abbrev pub next_book : OrderBook → Side → ℕ → ℕ → OrderBook
next_book b side i remaining =
    settle b (opposite side) (best_price (ladder b (opposite side))) i (fill_of b i remaining)
      (left_of b i remaining)

pub fill_parts :
    (b : OrderBook) (i remaining : ℕ)
    → left_of b i remaining + fill_of b i remaining ≡ (b.pool.slots i).remaining
fill_parts b i remaining = omega arith

module _ {b : OrderBook} {c : Sides} {bs : Side → List ℕ} {fs : List ℕ} {flight : Link}
    (v : IsValid b c bs fs flight) (side : Side) (k : Maker b c (opposite side)) (limit_price : ℤ)
    (remaining id fuel : ℕ) where
  abbrev pub next_lists : Sides
  next_lists =
      lists_after v (opposite side) (best_price (ladder b (opposite side))) k.index
        (left_of b k.index remaining)

  abbrev pub next_free : List ℕ
  next_free =
      free_left v (opposite side) k (fill_of b k.index remaining) (left_of b k.index remaining)
        (fill_parts b k.index remaining)

  some_live : 0 < b.pool.live_count
  some_live =
      live_pos b.pool v.pool k.index
        (v.live (opposite side) _ k.index (
          at_own_price v (opposite side) k (fill_of b k.index remaining)
            (left_of b k.index remaining) (fill_parts b k.index remaining))).0

  pub next-Enough :
      1 ≤ remaining
      → Enough (suc fuel) remaining b fs
      → Enough fuel
          (remaining - fill_of b k.index remaining)
          (next_book b side k.index remaining)
          next_free
  next-Enough more enough = elim (Bool-cases (left_of b k.index remaining == 0)) [
    | inl gone ↦ rw gone (
        inr (
          omega (
            arith,
            enough,
            more,
            capacity-settle b (opposite side) (best_price (ladder b (opposite side))) k.index
                (fill_of b k.index remaining) (left_of b k.index remaining),
          )))
    | inr stays ↦
        rw stays (inl (ground arith, omega (arith, enough, more, some_live, v.pool.count)))
  ]

  keeps_own : next_lists side ≡ c side
  keeps_own = elim (Bool-cases (left_of b k.index remaining == 0)) [
    | inl gone ↦ rw gone (own_lists c side _)
    | inr stays ↦ rw stays refl
  ]

  pub drops_only :
      (q : ℤ) → is_nil (next_lists (opposite side) q) ≡ false → is_nil (c (opposite side) q) ≡ false
  drops_only q ne = elim (Bool-cases (left_of b k.index remaining == 0)) [
    | inl gone ↦
        occupied_before (v.sides (opposite side)) v.wide k.index
          (best_price (ladder b (opposite side))) (head_mem _ k.index k.behind k.at_best) q
          (subst (λ (cs : Contents). is_nil (cs q) ≡ false) (other_lists c (opposite side) _)
            (rw gone at ne))
    | inr stays ↦ rw stays at ne
  ]

  -- On neither side does a price gain orders, and no free slot is taken.
  pub drops_only_on : (s : Side) (q : ℤ) → is_nil (next_lists s q) ≡ false → is_nil (c s q) ≡ false
  drops_only_on s q =
      both_sides (λ (t : Side). is_nil (next_lists t q) ≡ false → is_nil (c t q) ≡ false) side
        (subst (λ (cs : Contents). is_nil (cs q) ≡ false) keeps_own) (drops_only q) s

  pub takes_no_slot : length fs ≤ length next_free
  takes_no_slot = elim (Bool-cases (left_of b k.index remaining == 0)) [
    | inl gone ↦ rw gone (omega arith)
    | inr stays ↦ rw stays (omega arith)
  ]

  -- One more round before a sweep.
  swept-next :
      1 ≤ remaining
      → stops (ladder b (opposite side)) side limit_price remaining ≡ false
      → Swept
          (next_book b side k.index remaining)
          next_lists
          flight
          side
          limit_price
          (remaining - fill_of b k.index remaining)
          (match_loop fuel
            (next_book b side k.index remaining)
            side
            limit_price
            (remaining - fill_of b k.index remaining)
            id)
      → Swept b c flight side limit_price remaining
          (match_loop (suc fuel) b side limit_price remaining id)
  swept-next more e r = record {
    left = r.left;
    book = r.book;
    events =
        fill_events (b.pool.slots k.index) side (fill_of b k.index remaining)
          (remaining - fill_of b k.index remaining) id
        ++ r.events;
    lists = r.lists;
    bands = r.bands;
    free_list = r.free_list;
    returns =
        match_loop-goes fuel b side limit_price remaining id k.index e k.head
        ∙ ap
            (prepend (
              fill_events (b.pool.slots k.index) side (fill_of b k.index remaining)
                (remaining - fill_of b k.index remaining) id))
            r.returns;
    valid = r.valid;
    at_most = omega (arith, r.at_most);
    ended = r.ended;
    own = r.own ∙ keeps_own;
    no_new = λ q ne. drops_only q (r.no_new q ne);
    traded = omega (
      arith,
      r.traded,
      traded_sum-fill (b.pool.slots k.index) side (fill_of b k.index remaining)
          (remaining - fill_of b k.index remaining) id r.events,
    );
  }

-- The sweep of a valid book returns, if it has more steps than the pool has live slots, or one step
-- where no quantity is wanted. It stops only for want of quantity, of opposite orders or of a price
-- that crosses the limit. The book stays valid, the taker's own side keeps its orders, no opposite
-- price gains orders, and the quantity that is left and the traded one, which the events of both
-- sides carry, add up to the quantity wanted.
pub match_loop-Swept :
    (fuel : ℕ) {b : OrderBook} {c : Sides} {bs : Side → List ℕ} {fs : List ℕ} {flight : Link}
    (v : IsValid b c bs fs flight) (side : Side) (limit_price : ℤ) (remaining id : ℕ)
    → Enough fuel remaining b fs
    → Swept b c flight side limit_price remaining (match_loop fuel b side limit_price remaining id)
match_loop-Swept zero v side limit_price remaining id enough = absurd (omega (arith, v.pool.count))
match_loop-Swept (suc fuel) {b} {c} {bs} {fs} v side limit_price remaining id enough =
    elim (Bool-cases (stops (ladder b (opposite side)) side limit_price remaining)) [
      | inl done ↦ record {
        left = remaining;
        book = b;
        events = [];
        lists = c;
        bands = bs;
        free_list = fs;
        returns = match_loop-stops fuel b side limit_price remaining id done;
        valid = v;
        at_most = omega arith;
        ended = done;
        own = refl;
        no_new = λ q ne. ne;
        traded = omega arith;
      }
      | inr more ↦
          let go = going_on (ladder b (opposite side)) side limit_price remaining more in
          let k = maker v (opposite side) go.1 in
          swept-next v side k limit_price remaining id fuel go.0 more (
            match_loop-Swept fuel
              (settle-IsValid v (opposite side) k (fill_of b k.index remaining)
                (left_of b k.index remaining) (fill_parts b k.index remaining))
              side limit_price (remaining - fill_of b k.index remaining) id
              (next-Enough v side k limit_price remaining id fuel go.0 enough))
    ]
