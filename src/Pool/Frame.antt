-- ===== src/Pool/Frame.antt =====
-- A pool stays valid when the book writes its own fields of the slots: ids and generations are the
-- pool's, and so are the links of free slots.
use low_latency_orderbook.Prelude.{ℕ, ◌≡◌, Bool, true, false, List, arith, has}
use low_latency_orderbook.Pool.{Order, OrderPool, find, index_of}
use low_latency_orderbook.Pool.Valid.{IsValid, SlotIs, FreeChain-frame}

-- the fields that the pool alone writes
abbrev pub SameIds : (ℕ → Order) → (ℕ → Order) → Type 0
SameIds s s' = (j : ℕ) → ((s' j).order_id ≡ (s j).order_id) × ((s' j).generation ≡ (s j).generation)

SlotIs-same :
    (b : Bool) (o o' : Order) (i : ℕ)
    → o'.order_id ≡ o.order_id
    → o'.generation ≡ o.generation
    → SlotIs b o i
    → SlotIs b o' i
SlotIs-same true o o' i e g h = rw e h
SlotIs-same false o o' i e g h = rw (e, g) h

pub frame-IsValid :
    (p : OrderPool) {fs : List ℕ} (s' : ℕ → Order)
    → IsValid p fs
    → SameIds p.slots s'
    → ((j : ℕ) → has j fs ≡ true → (s' j).next_idx ≡ (p.slots j).next_idx)
    → IsValid (record p { slots = s' }) fs
frame-IsValid p {fs} s' v same links = record {
  chain = FreeChain-frame p.slots s' p.free_head fs v.chain links;
  distinct = v.distinct;
  in_range = v.in_range;
  slot = λ i h. SlotIs-same (has i fs) (p.slots i) (s' i) i (same i).0 (same i).1 (v.slot i h);
  generation = λ i. rw (same i).1 (v.generation i);
  count = v.count;
  small = v.small;
}

-- `find` depends on the ids alone.
pub find-same :
    (p : OrderPool) (s' : ℕ → Order) (id : ℕ)
    → SameIds p.slots s'
    → find (record p { slots = s' }) id ≡ find p id
unfolding find
find-same p s' id same = ground (arith, same (index_of id))
