-- ===== src/Ring/Tests.antt =====
-- The ring on concrete items: four slots, with an index that is at 8 and a consumer one item behind.
use low_latency_orderbook.Prelude.{
  ℕ, ◌+◌, ◌≤◌, ◌≡◌, refl, true, [], ◌∷◌, ◌++◌, arith, length, if◌then◌else◌, ltb,
}
use low_latency_orderbook.Map.{is_nil}
use low_latency_orderbook.Ring.{Ring, try_push, try_pop, try_pop_batch, copy_out, is_power_of_two}
use low_latency_orderbook.Ring.Valid.{IsValid}
use low_latency_orderbook.Ring.Refine.{
  contents, try_push-contents, put_back, is_none, try_pop-contents,
}
use low_latency_orderbook.Ring.Batch.{try_pop_batch-contents}

-- items 6, 7 and 8 at the indices 5, 6 and 7
abbrev ring : Ring ℕ
ring = record {
  slots = λ i. i + 5;
  capacity = 4;
  head = 5;
  tail = 8;
  head_cache = 4;
  tail_cache = 6;
  high_water = 4;
}

power_of_two : is_power_of_two 64 4 ≡ true
unfolding is_power_of_two
power_of_two = refl

ring-IsValid : IsValid ring
ring-IsValid = record {
  some_slots = omega arith;
  power_of_two = power_of_two;
  head_stale = omega arith;
  head_behind = omega arith;
  tail_stale = omega arith;
  fits = omega arith;
  small = omega arith;
  small_capacity = omega arith;
  water = omega arith;
  water_above = omega arith;
}

-- The producer's stale index says full, the fresh one does not. The consumer's stale index hides
-- two of the three items from a batch.
run_ring :
    (contents ring ≡ 6 ∷ 7 ∷ 8 ∷ [])
    × ((try_push 9 ring).0 ≡ true)
    × (contents (try_push 9 ring).1 ≡ 6 ∷ 7 ∷ 8 ∷ 9 ∷ [])
    × ((try_pop_batch 9 ring).0 ≡ 6 ∷ [])
unfolding try_push copy_out try_pop_batch
run_ring = (refl, refl, refl, refl)

try_push-contents_example :
    let (ok, r') = try_push 9 ring in
    (ok ≡ ltb (length (contents ring)) 4)
    × (contents r' ≡ (if ok then contents ring ++ 9 ∷ [] else contents ring))
try_push-contents_example = try_push-contents 9 ring ring-IsValid (omega arith)

try_pop-contents_example :
    let (out, r') = try_pop ring in
    (contents ring ≡ put_back out (contents r')) × (is_none out ≡ is_nil (contents ring))
try_pop-contents_example = try_pop-contents ring ring-IsValid

try_pop_batch-contents_example :
    let (out, r') = try_pop_batch 9 ring in
    (contents ring ≡ out ++ contents r')
    × (length out ≤ 9)
    × (length out ≡ 0 → length (contents ring) ≡ 0)
try_pop_batch-contents_example = try_pop_batch-contents 9 ring ring-IsValid (omega arith)
