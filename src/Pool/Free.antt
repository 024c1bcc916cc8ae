-- ===== src/Pool/Free.antt =====
-- `OrderPool::free`: the slot goes to the front of the free list and its id becomes unknown, also
-- after the slot is minted again.
use low_latency_orderbook.Prelude.{
  ℕ, ◌<◌, ◌≡◌, ◌≢◌, refl, subst, none, List, ◌∷◌, arith, if◌then◌else◌, ◌==◌,
}
use low_latency_orderbook.Prelude.{pigeonhole}
use low_latency_orderbook.Pool.{OrderPool, next_generation, alloc, free, find, index_of}
use low_latency_orderbook.Pool.Valid.{IsValid, IsLive, FreeChain, FreeChain-frame}
use low_latency_orderbook.Pool.Find.{not_free, live_id, index_of-live}
use low_latency_orderbook.Pool.Ids.{make_order_id-injective, next_generation_bounds}
use low_latency_orderbook.Pool.Alloc.{alloc-id, alloc-id_bounds, find-alloc}

module _ (p : OrderPool) {fs : List ℕ} (v : IsValid p fs) (i : ℕ) (live : IsLive p i) where
  -- at least one slot is live, so the count does not wrap
  pub live_pos : 0 < p.live_count
  live_pos = omega (
    arith,
    v.count,
    pigeonhole p.capacity (i ∷ fs) (not_free p v i live, v.distinct)
        (λ j m. ground (arith, v.in_range j, live.0)),
  )

  head_link : p.free_head ≡ ((free p i).slots i).next_idx
  unfolding free
  head_link = ground arith

  -- `free` of a live slot keeps the pool valid, and puts the slot first in the free list.
  pub free-IsValid : IsValid (free p i) (i ∷ fs)
  unfolding free
  free-IsValid = record {
    chain = (
      refl,
      subst (λ h. FreeChain (free p i).slots h fs) head_link
          (FreeChain-frame p.slots (free p i).slots p.free_head fs v.chain
            (λ j m. ground (arith, not_free p v i live))),
    );
    distinct = (not_free p v i live, v.distinct);
    in_range = λ j m. ground (arith, v.in_range j, live.0);
    slot = λ j m. ground (arith, v.slot j m);
    generation = λ j. ground (arith, v.generation j);
    count = omega (arith, v.count, v.small, live_pos);
    small = v.small;
  }

  -- Only the freed id becomes unknown.
  pub find-free :
      (id : ℕ) → find (free p i) id ≡ (if id == (p.slots i).order_id then none else find p id)
  unfolding find free
  find-free id = ground (arith, index_of-live p v i live, live.0, live.1)

  generation-free : ((free p i).slots i).generation ≡ (p.slots i).generation
  unfolding free
  generation-free = ground arith

  alloc-free-ne : (alloc (free p i)).0 ≢ (p.slots i).order_id
  alloc-free-ne e = (next_generation_bounds g (v.generation i)).2 (
      make_order_id-injective (next_generation g) g i (next_generation_bounds g (v.generation i)).1
        (v.generation i) (omega (arith, v.small, live.0))
        (ground
          (arith, e, alloc-id (free p i) i free-IsValid, generation-free, live_id p v i live)))
    where
      g : ℕ
      g = (p.slots i).generation

  -- The freed slot is the next one minted, under another id, and the old id stays unknown.
  pub alloc-free_stale :
      let (id, p') = alloc (free p i) in
      (index_of id ≡ i) × (id ≢ (p.slots i).order_id) × (find p' (p.slots i).order_id ≡ none)
  alloc-free_stale = (
    (alloc-id_bounds (free p i) i free-IsValid).1,
    alloc-free-ne,
    ground (
      arith,
      alloc-free-ne,
      find-alloc (free p i) i free-IsValid (p.slots i).order_id,
      find-free (p.slots i).order_id,
    ),
  )
