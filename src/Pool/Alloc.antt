-- ===== src/Pool/Alloc.antt =====
-- `OrderPool::alloc`: it fails exactly on an exhausted pool, and otherwise mints an id that names
-- no live order and makes it live, and touches nothing else.
use low_latency_orderbook.Prelude.{
  ℕ, ◌+◌, ◌%◌, ◌^◌, ◌≤◌, ◌<◌, ◌≡◌, ◌≢◌, refl, some, List, [], ◌∷◌, arith, update, if◌then◌else◌,
  ◌==◌,
}
use low_latency_orderbook.Pool.{
  OrderPool, make_order_id, next_generation, minted, alloc, find, index_of,
}
use low_latency_orderbook.Pool.Ids.{
  make_order_id-fields, make_order_id-ne_zero, next_generation_bounds,
}
use low_latency_orderbook.Pool.Valid.{IsValid, FreeChain-frame}

-- An exhausted pool gives the reserved id and stays as it is.
pub alloc-exhausted : (p : OrderPool) → IsValid p [] → alloc p ≡ (0, p)
unfolding alloc
alloc-exhausted p v = rw v.chain refl

module _ (p : OrderPool) (i : ℕ) {fs : List ℕ} (v : IsValid p (i ∷ fs)) where
  alloc_head : p.free_head ≡ some i
  alloc_head = v.chain.0

  pub alloc_state : alloc p ≡ (
    (minted (p.slots i) i).order_id,
    record p {
      slots = update p.slots i (minted (p.slots i) i);
      free_head = (p.slots i).next_idx;
      live_count = (p.live_count + 1) % 2 ^ 32;
    },
  )
  unfolding alloc
  alloc_state = rw (alloc_head, alloc) refl

  -- the next generation of the slot, which the id carries
  pub minted_bounds :
      (1 ≤ next_generation (p.slots i).generation)
      × (next_generation (p.slots i).generation < 2 ^ 32)
      × (i < 2 ^ 31)
  minted_bounds =
      ground (
        arith,
        next_generation_bounds (p.slots i).generation (v.generation i),
        v.in_range i,
        v.small,
      )

  -- On a valid pool that is not exhausted `alloc` keeps the pool valid, and takes the first slot of
  -- the free list.
  pub alloc-IsValid : IsValid (alloc p).1 fs
  unfolding minted
  alloc-IsValid = rw alloc_state (record {
    chain =
        FreeChain-frame p.slots (update p.slots i (minted (p.slots i) i)) (p.slots i).next_idx fs
          v.chain.1 (λ j m. ground (arith, v.distinct.0));
    distinct = v.distinct.1;
    in_range = λ j m. v.in_range j (ground arith);
    slot = λ j m. ground (arith, v.slot j m, v.distinct, minted_bounds);
    generation = λ j. ground (arith, v.generation j, minted_bounds);
    count = omega (arith, v.count, v.small);
    small = v.small;
  })

  -- The minted id is that of the slot and its next generation.
  pub alloc-id : (alloc p).0 ≡ make_order_id (next_generation (p.slots i).generation) i
  unfolding minted
  alloc-id = rw alloc_state refl

  pub alloc-id_bounds : ((alloc p).0 ≢ 0) × (index_of (alloc p).0 ≡ i)
  alloc-id_bounds = rw alloc-id (
    make_order_id-ne_zero _ i minted_bounds.1 (omega (arith, minted_bounds)) minted_bounds.0,
    (make_order_id-fields _ i minted_bounds.1 (omega (arith, minted_bounds))).0,
  )

  -- The minted slot carries the id.
  pub alloc-slot_id : ((alloc p).1.slots i).order_id ≡ (alloc p).0
  unfolding minted
  alloc-slot_id = rw alloc_state (ground arith)

  free_slot : (p.slots i).order_id ≡ 0
  free_slot = ground (arith, v.slot i (v.in_range i (ground arith)))

  -- Only the minted id becomes known, and it names the slot taken from the free list.
  pub find-alloc :
      (id : ℕ) → find (alloc p).1 id ≡ (if id == (alloc p).0 then some i else find p id)
  unfolding find minted
  find-alloc id =
      ground (arith, alloc_state, alloc-id_bounds, free_slot, v.in_range i (ground arith))
