-- ===== src/Pool/Tests.antt =====
-- The pool on concrete slots: a pool of three, with one order, and with that order freed.
use low_latency_orderbook.Prelude.{
  ℕ, ◌^◌, ◌<◌, ◌≡◌, ◌≢◌, refl, sym, ◌∙◌, none, some, [], ◌∷◌, arith, if◌then◌else◌, ◌==◌,
}
use low_latency_orderbook.Pool.{
  OrderPool, init, alloc, free, find, make_order_id, index_of, generation_of, next_generation,
  minted,
}
use low_latency_orderbook.Pool.Ids.{make_order_id-fields}
use low_latency_orderbook.Pool.Valid.{IsValid, IsLive, init-IsValid}
use low_latency_orderbook.Pool.Find.{find_complete}
use low_latency_orderbook.Pool.Alloc.{alloc-IsValid, find-alloc}
use low_latency_orderbook.Pool.Free.{find-free, alloc-free_stale}

abbrev new_pool : OrderPool
new_pool = init 3

new_pool-IsValid : IsValid new_pool (0 ∷ 1 ∷ 2 ∷ [])
new_pool-IsValid = init-IsValid 3 (omega arith)

abbrev one_order : OrderPool
one_order = (alloc new_pool).1

abbrev first_id : ℕ
first_id = 2 ^ 32

one_order-IsValid : IsValid one_order (1 ∷ 2 ∷ [])
one_order-IsValid = alloc-IsValid new_pool 0 new_pool-IsValid

one_order_id : (one_order.slots 0).order_id ≡ first_id
unfolding alloc init minted make_order_id next_generation
one_order_id = refl

first-IsLive : IsLive one_order 0
unfolding alloc init
first-IsLive = (omega arith, λ e. omega (arith, sym one_order_id ∙ e))

find-alloc_example :
    find one_order first_id
    ≡ (if first_id == (alloc new_pool).0 then some 0 else find new_pool first_id)
find-alloc_example = find-alloc new_pool 0 new_pool-IsValid first_id

find_complete_example : find one_order (one_order.slots 0).order_id ≡ some 0
find_complete_example = find_complete one_order one_order-IsValid 0 first-IsLive

find-free_example :
    find (free one_order 0) first_id
    ≡ (if first_id == (one_order.slots 0).order_id then none else find one_order first_id)
find-free_example = find-free one_order one_order-IsValid 0 first-IsLive first_id

alloc-free_stale_example :
    let (id, p') = alloc (free one_order 0) in
    (index_of id ≡ 0)
    × (id ≢ (one_order.slots 0).order_id)
    × (find p' (one_order.slots 0).order_id ≡ none)
alloc-free_stale_example = alloc-free_stale one_order one_order-IsValid 0 first-IsLive

make_order_id-fields_example :
    (index_of (make_order_id 7 9) ≡ 9)
    × (generation_of (make_order_id 7 9) ≡ 7)
    × (make_order_id 7 9 < 2 ^ 64)
make_order_id-fields_example = make_order_id-fields 7 9 (omega arith) (omega arith)
