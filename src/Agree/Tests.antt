-- ===== src/Agree/Tests.antt =====
-- Both books with one resting ask, which is canceled or filled, and a run of three commands.
use low_latency_orderbook.Ladder
use low_latency_orderbook.Ladder.{push_order, in_band}
use low_latency_orderbook.Level.{push_back}
use mathlib.Core.Bool.{false≢true}
use low_latency_orderbook.Prelude.{
  Option, Bool, false, ◌-ℤ◌, ◌+ℤ◌, ◌==◌, Bool-cases, ℕ, ℤ, pos, eqb_ℤ, eqb_ℤ_sound, ◌+◌, ◌≡◌, refl,
  sym, ap, ◌∙◌, ◌^◌, length, List, true, none, some, [], ◌∷◌, arith, Option-cases, inl, inr, has,
}
use low_latency_orderbook.Types.{Side, buy, sell, limit, is_int64, CommandType, Command}
use low_latency_orderbook.Pool.{find, index_of, alloc, minted, make_order_id, next_generation}
use low_latency_orderbook.Pool
use low_latency_orderbook.Pool.Find.{find_sound}
use low_latency_orderbook.Map.{lookup, lookup_id, is_nil}
use low_latency_orderbook.Naive
use low_latency_orderbook.Naive.{NaiveOrder, NaiveBook, Locator, Level, level_or_nil}
use low_latency_orderbook.Book
use low_latency_orderbook.Book.{OrderBook, add_limit, init, rest, filled_order}
use low_latency_orderbook.Book.Add.{Represents}
use low_latency_orderbook.Book.Rests.{
  init-Represents, add_limit-Represents, lists_without, found_rests,
}
use low_latency_orderbook.Book.Push.{with_last}
use low_latency_orderbook.Book.Valid.{Sides}
use low_latency_orderbook.Agree.Mirror.{orders_of, located, naive_of}
use low_latency_orderbook.Agree.Cancel.{cancel-Agrees}
use low_latency_orderbook.Agree.Add.{SameAdd, add-Agrees}
use low_latency_orderbook.Agree.Mirror.{Agrees}
use low_latency_orderbook.Agree.Run.{SameRun, run-Agrees}

abbrev start : OrderBook
start = Book.init (pos 1000) 4 8

abbrev one : OrderBook
one = (add_limit start sell (pos 1001) 5).1

abbrev one_order : Sides
one_order = with_last (λ side q. []) sell (pos 1001) 0

abbrev its_order : NaiveOrder
its_order = record { id = 2 ^ 32; price = pos 1001; qty = 5; remaining = 5; side = sell }

abbrev naive_one : NaiveBook
naive_one = record {
  bids = [];
  asks = (pos 1001, its_order ∷ []) ∷ [];
  index = (2 ^ 32, record { side = sell; price = pos 1001; it = 2 ^ 32 }) ∷ [];
}

first_id : (add_limit start sell (pos 1001) 5).0 ≡ 2 ^ 32
unfolding add_limit init alloc minted make_order_id next_generation Pool.init
first_id = refl

one-Represents : Represents one one_order
one-Represents =
    elim (add_limit-Represents (init-Represents (pos 1000) 4 8 (omega arith)) sell (pos 1001) 5
      (omega arith)) [
        | inl (e, same) ↦ absurd (omega (arith, e, first_id))
        | inr (ne, r, whole) ↦ unfold index_of in rw first_id at r
      ]

its_slot : (side : Side) (q : ℤ) (i : ℕ) → has i (one_order side q) ≡ true → i ≡ 0
its_slot buy q i m = absurd (false≢true m)
its_slot sell q i m = ground arith

first_slot : (find one.pool (2 ^ 32) ≡ some 0) × (naive_of (one.pool.slots 0) ≡ its_order)
unfolding add_limit init alloc minted make_order_id next_generation Pool.init rest find index_of
    push_order in_band Ladder.init ◌-ℤ◌ ◌+ℤ◌ filled_order push_back
first_slot = (refl, refl)

abbrev is_some : {A : Type 0} → Option A → Bool
is_some none = false
is_some (some x) = true

none≢some : {A : Type 0} {x : A} → ◌≡◌ {A = Option A} none (some x) → ⊥
none≢some e = absurd (false≢true (ap is_some e))

is_it : (id : ℕ) → (id == 2 ^ 32) ≡ true → id ≡ 2 ^ 32
is_it id e = ground arith

known : (id i : ℕ) → find one.pool id ≡ some i → (i ≡ 0) × (id ≡ 2 ^ 32)
known id i e =
    let at_zero : i ≡ 0 =
      its_slot (one.pool.slots i).side (one.pool.slots i).price_ticks i
        (found_rests one-Represents id i e) in
    (
      at_zero,
      sym (find_sound one.pool id i e).2
          ∙ ap (λ j. (one.pool.slots j).order_id) at_zero
          ∙ (find_sound one.pool (2 ^ 32) 0 first_slot.0).2,
    )

located_one :
    (id : ℕ) → lookup_id id naive_one.index ≡ located one.pool.slots none (find one.pool id)
unfolding lookup_id
located_one id = elim (Option-cases (find one.pool id)) [
  | inl e ↦ rw e (unknown id e)
  | inr (i, e) ↦
      rw (e, (known id i e).0, (known id i e).1)
        (ap (λ (o : NaiveOrder). some (record { side = o.side; price = o.price; it = o.id }))
          (sym first_slot.1))
]
  where
    unknown : (id : ℕ) → find one.pool id ≡ none → lookup_id id naive_one.index ≡ none
    unknown id e = elim (Bool-cases (id == 2 ^ 32)) [
      | inl same ↦ absurd (none≢some (sym e ∙ ap (find one.pool) (is_it id same) ∙ first_slot.0))
      | inr other ↦ rw other refl
    ]

one_level :
    (q : ℤ) → level_or_nil (lookup q naive_one.asks) ≡ orders_of one.pool.slots (one_order sell q)
unfolding lookup
one_level q = elim (Bool-cases (eqb_ℤ q (pos 1001))) [
  | inl same ↦ rw same (ap (λ (o : NaiveOrder). o ∷ []) (sym first_slot.1))
  | inr other ↦ rw other refl
]

one-Agrees : Agrees one one_order naive_one
unfolding lookup
one-Agrees = record {
  level = elim [ buy ↦ λ q. refl | sell ↦ one_level ];
  occupied = elim [ buy ↦ λ q l e. absurd (none≢some e) | sell ↦ λ q l e. ground arith ];
  sorted = elim [ buy ↦ tt | sell ↦ (tt, tt) ];
  located_ids = located_one;
  distinct = (refl, tt);
}

cancel-Agrees_example :
    let (ok, b', events) = Book.cancel one (2 ^ 32) in
    let (ok', n', events') = Naive.cancel naive_one (2 ^ 32) in
    (ok ≡ ok')
    × (events ≡ events')
    × Agrees b' (lists_without one one_order (find one.pool (2 ^ 32))) n'
cancel-Agrees_example = cancel-Agrees one-Represents one-Agrees (2 ^ 32)

second_id : (alloc one.pool).0 ≡ 2 ^ 32 + 1
unfolding add_limit init alloc minted make_order_id next_generation Pool.init rest find index_of
    push_order in_band Ladder.init ◌-ℤ◌ ◌+ℤ◌ filled_order push_back
second_id = refl

asks_int64 : (q : ℤ) → is_nil (one_order sell q) ≡ false → is_int64 q ≡ true
asks_int64 q ne = elim (Bool-cases (eqb_ℤ q (pos 1001))) [
  | inl same ↦ rw (eqb_ℤ_sound q (pos 1001) same) refl
  | inr other ↦ absurd (false≢true (sym ne ∙ rw other refl))
]

-- A bid for 7 fills the resting 5 and rests 2.
add-Agrees_example :
    SameAdd one_order
      (length one-Represents.free_list)
      (pos 1001)
      true
      (Book.add one buy limit (pos 1001) 7)
      (λ id. Naive.add naive_one id buy limit (pos 1001) 7)
add-Agrees_example =
    add-Agrees one-Represents one-Agrees buy limit (pos 1001) 7 (omega arith)
      (omega (arith, second_id)) asks_int64

abbrev ask : Command
ask = record {
  kind = CommandType.new;
  side = sell;
  type = limit;
  qty = 5;
  price_ticks = pos 1001;
  order_id = 0;
}

-- an ask, a bid that fills it and rests, and the cancellation of the bid
abbrev commands : List Command
commands =
    ask
    ∷ record ask { side = buy; qty = 7 }
    ∷ record ask { kind = CommandType.cancel; order_id = 2 ^ 32 + 1 }
    ∷ []

run-Agrees_example : SameRun (Book.init (pos 1000) 4 8) Naive.init commands
unfolding ◌+ℤ◌
run-Agrees_example =
    run-Agrees (pos 1000) 4 8 commands (refl, omega arith, omega arith, refl) (omega arith)
      (omega arith) (omega arith, refl, (omega arith, refl, (omega arith, refl, tt)))
