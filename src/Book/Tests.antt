-- ===== src/Book/Tests.antt =====
-- A book with resting asks: two orders at 1001, the first of which a buyer takes.
use low_latency_orderbook.Prelude.{
  pos, ◌≡◌, ◌≢◌, refl, ◌+◌, ◌^◌, ◌⊎◌, inl, inr, true, false, none, some, [], arith,
}
use low_latency_orderbook.Types.{buy, sell, limit}
use low_latency_orderbook.Pool.{find, index_of, alloc, minted, make_order_id, next_generation}
use low_latency_orderbook.Pool
use low_latency_orderbook.Ladder
use low_latency_orderbook.Ladder.{is_side_empty}
use low_latency_orderbook.Book.{OrderBook, init, add, add_limit, cancel, match_loop, rest}
use low_latency_orderbook.Book.Valid.{Sides}
use low_latency_orderbook.Book.Push.{with_last}
use low_latency_orderbook.Book.Add.{Represents}
use low_latency_orderbook.Book.AddReturns.{Returns, add-Represents, add-uncrossed}
use low_latency_orderbook.Book.Sweep.{Swept, match_loop-Swept}
use low_latency_orderbook.Book.Uncrossed.{uncrossed, IsUncrossed, uncrossed_sound}
use low_latency_orderbook.Book.Rests.{
  RestsWhole, lists_without, init-Represents, cancel-Represents, add_limit-Represents,
}

abbrev start : OrderBook
start = init (pos 1000) 4 8

abbrev no_orders : Sides
no_orders side q = []

start-Represents : Represents start no_orders
start-Represents = init-Represents (pos 1000) 4 8 (omega arith)

add_limit-Represents_example :
    let (id, b') = add_limit start sell (pos 1001) 5 in
    ((id ≡ 0) × (b' ≡ start))
    ⊎ ((id ≢ 0)
        × Represents b' (with_last no_orders sell (pos 1001) (index_of id))
        × RestsWhole b' id sell (pos 1001) 5)
add_limit-Represents_example = add_limit-Represents start-Represents sell (pos 1001) 5 (omega arith)

abbrev one : OrderBook
one = (add_limit start sell (pos 1001) 5).1

abbrev one_order : Sides
one_order = with_last no_orders sell (pos 1001) 0

first_id : (add_limit start sell (pos 1001) 5).0 ≡ 2 ^ 32
unfolding add_limit init alloc minted make_order_id next_generation Pool.init
first_id = refl

one-Represents : Represents one one_order
one-Represents = elim add_limit-Represents_example [
  | inl (e, same) ↦ absurd (omega (arith, e, first_id))
  | inr (ne, r, whole) ↦ unfold index_of in rw first_id at r
]

add-Represents_example :
    Returns (add one buy limit (pos 1002) 7) (λ b'. (lists : Sides) × Represents b' lists)
add-Represents_example = add-Represents one-Represents buy limit (pos 1002) 7 (omega arith)

one-uncrossed : uncrossed one ≡ true
unfolding uncrossed is_side_empty add_limit init alloc minted make_order_id next_generation
    Pool.init Ladder.init rest
one-uncrossed = refl

add-uncrossed_example : Returns (add one buy limit (pos 1002) 7) (λ b'. uncrossed b' ≡ true)
add-uncrossed_example =
    add-uncrossed one-Represents buy limit (pos 1002) 7 (omega arith) one-uncrossed

cancel-Represents_example :
    let (ok, b', events) = cancel one (2 ^ 32) in
    Represents b' (lists_without one one_order (find one.pool (2 ^ 32)))
    × ((ok ≡ true) ⊎ ((ok ≡ false) × (b' ≡ one)))
    × (ok ≡ (elim (find one.pool (2 ^ 32)) [ none ↦ false | some i ↦ true ]))
cancel-Represents_example = cancel-Represents one-Represents (2 ^ 32)

one_capacity : one.pool.capacity ≡ 8
unfolding add_limit init alloc minted make_order_id next_generation Pool.init rest
one_capacity = refl

match_loop-Swept_example :
    Swept one one_order none buy (pos 1002) 7 (match_loop 9 one buy (pos 1002) 7 (2 ^ 32 + 1))
match_loop-Swept_example =
    match_loop-Swept 9 one-Represents.valid buy (pos 1002) 7 (2 ^ 32 + 1)
      (inr (omega (arith, one-Represents.valid.pool.count, one_capacity)))

uncrossed_sound_example : IsUncrossed one_order
uncrossed_sound_example = uncrossed_sound one-Represents.valid one-uncrossed
