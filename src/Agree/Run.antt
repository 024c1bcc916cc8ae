-- ===== src/Agree/Run.antt =====
-- Both books from the start on, driven with the same commands: the run of the tests that compare
-- them, with a pool that has a slot for each command.
use low_latency_orderbook.Prelude.{
  ℕ, ℤ, eqb_ℤ, eqb_ℤ_sound, ◌+◌, ◌<◌, ◌≤◌, ◌^◌, ◌≡◌, ◌≢◌, pos, leb_ℤ, ◌+ℤ◌, refl, sym, true, false,
  Bool, not, ◌==◌, Bool-cases, Option-cases, inl, inr, Option, none, some, List, [], ◌∷◌, length,
  arith, erase,
}
use mathlib.Core.Bool.{false≢true}
use low_latency_orderbook.Types.{is_int64, Side, buy, sell, opposite, CommandType, Command, Event}
use low_latency_orderbook.Pool.{alloc, find}
use low_latency_orderbook.Pool
use low_latency_orderbook.Pool.Find.{find_sound}
use low_latency_orderbook.Pool.Alloc.{alloc-id_bounds}
use low_latency_orderbook.Map.{lookup, lookup_id, is_nil}
use low_latency_orderbook.Naive.{NaiveBook}
use low_latency_orderbook.Naive
use low_latency_orderbook.Naive.Queries as NaiveQueries
use low_latency_orderbook.Book.{OrderBook}
use low_latency_orderbook.Book
use low_latency_orderbook.Book.Queries as BookQueries
use low_latency_orderbook.Ladder.Holds.{Contents, put_at}
use low_latency_orderbook.Book.Valid.{Sides, IsValid}
use low_latency_orderbook.Book.Remove.{without}
use low_latency_orderbook.Book.Add.{Represents}
use low_latency_orderbook.Book.Rests.{init-Represents, lists_without, cancel-after}
use low_latency_orderbook.Agree.Mirror.{Agrees}
use low_latency_orderbook.Agree.Queries.{queries-Agree}
use low_latency_orderbook.Agree.Cancel.{cancel-Agrees}
use low_latency_orderbook.Agree.Add.{naive_id, normalized, add-Agrees}

-- What can be asked of both books has the same answers.
abbrev pub SameAnswers : OrderBook → NaiveBook → Type 0
SameAnswers b n =
    (id : ℕ)
    → (BookQueries.best_bid b ≡ NaiveQueries.best_bid n)
      × (BookQueries.best_ask b ≡ NaiveQueries.best_ask n)
      × (BookQueries.contains b id ≡ NaiveQueries.contains n id)

-- One command on both books: they return, with the same events. The reference book is given the id
-- that the book returned, or the dummy, and accepts exactly the orders that were given one.
abbrev pub SameStep : CommandType → Command → OrderBook → NaiveBook → OrderBook → NaiveBook → Type 0
SameStep CommandType.new cmd b n b' n' =
    (id : ℕ) × (events naive_events : List Event) × (Book.add b cmd.side cmd.type cmd.price_ticks
        cmd.qty
      ≡ some (id, b', events))
    × (Naive.add n (naive_id id) cmd.side cmd.type cmd.price_ticks cmd.qty
        ≡ some (not (id == 0), n', naive_events))
    × (normalized id naive_events ≡ events)
SameStep CommandType.cancel cmd b n b' n' =
    (ok : Bool) × (events : List Event) × (Book.cancel b cmd.order_id ≡ (ok, b', events))
    × (Naive.cancel n cmd.order_id ≡ (ok, n', events))

-- the same answers now, and after each of the commands
abbrev pub SameRun : OrderBook → NaiveBook → List Command → Type 0
SameRun b n [] = SameAnswers b n
SameRun b n (cmd ∷ cmds) =
    SameAnswers b n
    × ((b' : OrderBook) × (n' : NaiveBook) × SameStep cmd.kind cmd b n b' n' × SameRun b' n' cmds)

-- commands whose fields have the widths of the source
abbrev pub AllFit : List Command → Type 0
AllFit [] = Unit
AllFit (cmd ∷ cmds) = (cmd.qty < 2 ^ 32) × (is_int64 cmd.price_ticks ≡ true) × AllFit cmds

-- orders rest at 64-bit prices only
abbrev AtInt64 : Sides → Type 0
AtInt64 c = (s : Side) (q : ℤ) → is_nil (c s q) ≡ false → is_int64 q ≡ true

-- what the constructor asserts of the band, which ends at a 64-bit price
abbrev pub BandFits : ℤ → ℕ → Type 0
BandFits anchor_price band_radius =
    (leb_ℤ (pos 1) anchor_price ≡ true)
    × (1 ≤ band_radius)
    × (band_radius ≤ 2 ^ 24)
    × (is_int64 (anchor_price +ℤ pos (band_radius + 1)) ≡ true)

slot_free :
    {b : OrderBook} {c : Sides} (r : Represents b c) → 1 ≤ length r.free_list → (alloc b.pool).0 ≢ 0
slot_free {b} {c} r some_free = go r.free_list r.valid some_free
  where
    go : (fs : List ℕ) → IsValid b c r.bands fs none → 1 ≤ length fs → (alloc b.pool).0 ≢ 0
    go [] v some_free = absurd (omega (arith, some_free))
    go (i ∷ fs) v some_free = (alloc-id_bounds b.pool i v.pool).0

erase-is_nil : (i : ℕ) (xs : List ℕ) → is_nil (erase i xs) ≡ false → is_nil xs ≡ false
erase-is_nil i [] e = e
erase-is_nil i (x ∷ xs) e = refl

put_at-drops_only :
    (cs : Contents) (price : ℤ) (i : ℕ) (q : ℤ)
    → is_nil (put_at cs price (erase i (cs price)) q) ≡ false
    → is_nil (cs q) ≡ false
put_at-drops_only cs price i q ne = elim (Bool-cases (eqb_ℤ q price)) [
  | inl same ↦ rw (eqb_ℤ_sound q price same) (erase-is_nil i (cs price) (rw same at ne))
  | inr other ↦ rw other at ne
]

without-drops_only :
    (c : Sides) (side : Side) (price : ℤ) (i : ℕ) (s : Side) (q : ℤ)
    → is_nil (without c side price i s q) ≡ false
    → is_nil (c s q) ≡ false
without-drops_only c buy price i sell q ne = ne
without-drops_only c sell price i buy q ne = ne
without-drops_only c buy price i buy q ne = put_at-drops_only (c buy) price i q ne
without-drops_only c sell price i sell q ne = put_at-drops_only (c sell) price i q ne

lists_without-drops_only :
    (b : OrderBook) (c : Sides) (found : Option ℕ) (s : Side) (q : ℤ)
    → is_nil (lists_without b c found s q) ≡ false
    → is_nil (c s q) ≡ false
lists_without-drops_only b c none s q ne = ne
lists_without-drops_only b c (some i) s q ne =
    without-drops_only c (b.pool.slots i).side (b.pool.slots i).price_ticks i s q ne

-- both books after one command
record Next (kind : CommandType) (cmd : Command) (b : OrderBook) (n : NaiveBook) (free_slots : ℕ)
    : Type 0 where
  book : OrderBook
  lists : Sides
  naive_book : NaiveBook
  same : SameStep kind cmd b n book naive_book
  after : Represents book lists
  agrees : Agrees book lists naive_book
  int64 : AtInt64 lists
  room : free_slots ≤ length after.free_list + 1

module _ (cmd : Command) {b : OrderBook} {c : Sides} {n : NaiveBook} (r : Represents b c)
    (w : Agrees b c n) (int64 : AtInt64 c) where
  next :
      (kind : CommandType)
      → 1 ≤ length r.free_list
      → cmd.qty < 2 ^ 32
      → is_int64 cmd.price_ticks ≡ true
      → Next kind cmd b n (length r.free_list)
  next CommandType.new some_free narrow price_fits =
      let s =
        add-Agrees r w cmd.side cmd.type cmd.price_ticks cmd.qty narrow (slot_free r some_free)
          (int64 (opposite cmd.side)) in
      record {
        book = s.book;
        lists = s.lists;
        naive_book = s.naive_book;
        same = (
          s.id,
          s.events,
          s.naive_events,
          s.returns,
          rw (← s.named) s.naive_returns,
          s.same_events,
        );
        after = s.after;
        agrees = s.agrees;
        int64 = λ sd q ne. elim (s.prices sd q ne) [
          | inl before ↦ int64 sd q before
          | inr here ↦ rw here price_fits
        ];
        room = s.takes_one_slot;
      }
  next CommandType.cancel some_free narrow price_fits =
      let (ok, b', events) = Book.cancel b cmd.order_id in
      let (same_ok, same_events, agrees) = cancel-Agrees r w cmd.order_id in
      let (after, more) = cancel-after r cmd.order_id in
      record {
        book = b';
        lists = lists_without b c (find b.pool cmd.order_id);
        naive_book = (Naive.cancel n cmd.order_id).1;
        same = (ok, events, refl, rw (same_ok, same_events) refl);
        after = after;
        agrees = agrees;
        int64 =
            λ sd q ne. int64 sd q (lists_without-drops_only b c (find b.pool cmd.order_id) sd q ne);
        room = omega (arith, more);
      }

-- The run from two books that mirror one another.
SameRun-from :
    (cmds : List Command) {b : OrderBook} {c : Sides} {n : NaiveBook} (r : Represents b c)
    → Agrees b c n
    → AtInt64 c
    → length cmds ≤ length r.free_list
    → AllFit cmds
    → SameRun b n cmds
SameRun-from [] r w int64 room fit = queries-Agree r w
SameRun-from (cmd ∷ cmds) r w int64 room fit =
    let next' = next cmd r w int64 cmd.kind (omega (arith, room)) fit.0 fit.1 in
    (
      queries-Agree r w,
      (
        next'.book,
        next'.naive_book,
        next'.same,
        SameRun-from cmds next'.after next'.agrees next'.int64 (omega (arith, room, next'.room))
            fit.2,
      ),
    )

module _ (anchor_price : ℤ) (band_radius pool_capacity : ℕ) where
  abbrev start : OrderBook
  start = Book.init anchor_price band_radius pool_capacity

  no_id : (i : ℕ) → (start.pool.slots i).order_id ≡ 0
  unfolding Book.init Pool.init
  no_id i = refl

  none_live : (id : ℕ) → find start.pool id ≡ none
  none_live id = elim (Option-cases (find start.pool id)) [
    | inl e ↦ e
    | inr (i, e) ↦ absurd ((find_sound start.pool id i e).1.1 (no_id i))
  ]

  start-Agrees : Agrees start (λ side q. []) Naive.init
  unfolding lookup lookup_id
  start-Agrees = record {
    level = elim [ buy ↦ λ q. refl | sell ↦ λ q. refl ];
    occupied = elim [ buy ↦ λ q l e. absurd (cc) | sell ↦ λ q l e. absurd (cc) ];
    sorted = elim [ buy ↦ tt | sell ↦ tt ];
    located_ids = λ id. rw (none_live id) refl;
    distinct = tt;
  }

  none_used : (start.pool.live_count ≡ 0) × (start.pool.capacity ≡ pool_capacity)
  unfolding Book.init Pool.init
  none_used = (refl, refl)

  -- From the start on, both books process the same commands with the same events, the same results
  -- of `cancel`, the same orders accepted, and the same best prices and open orders after each of
  -- them. The band is as the constructor asserts and ends at a 64-bit price, the pool has fewer than
  -- 2^31 slots and one for each command, and the fields of the commands have the widths of the
  -- source.
  pub run-Agrees :
      (cmds : List Command)
      → BandFits anchor_price band_radius
      → pool_capacity < 2 ^ 31
      → length cmds ≤ pool_capacity
      → AllFit cmds
      → SameRun start Naive.init cmds
  run-Agrees cmds band small room fit =
      let r = init-Represents anchor_price band_radius pool_capacity small in
      SameRun-from cmds r start-Agrees (λ s q ne. absurd (false≢true (sym ne)))
        (omega (arith, room, r.valid.pool.count, none_used)) fit
