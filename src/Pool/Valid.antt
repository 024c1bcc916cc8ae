-- ===== src/Pool/Valid.antt =====
-- The representation invariant of `OrderPool`: the free list holds exactly the slots that are not
-- live, and a live slot's id names that slot at its current generation.
use low_latency_orderbook.Prelude.{
  ℕ, zero, suc, ◌+◌, ◌^◌, ◌≤◌, ◌<◌, ◌≡◌, refl, ap, subst, ◌≢◌, Bool, true, false, ◌&&◌, none, some,
  List, [], ◌∷◌, arith, length, has, Distinct, ltb, leb, if◌then◌else◌,
}
use low_latency_orderbook.Pool.{Link, Order, OrderPool, make_order_id, init}

-- from `h` the `next_idx` links lead through the indices of the list to `kNullIdx`
abbrev pub FreeChain : (ℕ → Order) → Link → List ℕ → Type 0
FreeChain s h [] = h ≡ none
FreeChain s h (i ∷ is) = (h ≡ some i) × FreeChain s (s i).next_idx is

-- what a slot holds, if it is free and if it is live
abbrev pub SlotIs : Bool → Order → ℕ → Type 0
SlotIs true o i = o.order_id ≡ 0
SlotIs false o i = (o.order_id ≡ make_order_id o.generation i) × (1 ≤ o.generation)

pub record IsValid (p : OrderPool) (fs : List ℕ) : Type 0 where
  pub chain : FreeChain p.slots p.free_head fs
  pub distinct : Distinct fs
  pub in_range : (i : ℕ) → has i fs ≡ true → i < p.capacity
  pub slot : (i : ℕ) → i < p.capacity → SlotIs (has i fs) (p.slots i) i
  pub generation : (i : ℕ) → (p.slots i).generation < 2 ^ 32
  pub count : p.live_count + length fs ≡ p.capacity
  pub small : p.capacity < 2 ^ 31

-- slot `i` holds a live order
abbrev pub IsLive : OrderPool → ℕ → Type 0
IsLive p i = (i < p.capacity) × ((p.slots i).order_id ≢ 0)

-- A chain survives any change that keeps the links of its own indices.
pub FreeChain-frame :
    (s s' : ℕ → Order) (h : Link) (fs : List ℕ)
    → FreeChain s h fs
    → ((j : ℕ) → has j fs ≡ true → (s' j).next_idx ≡ (s j).next_idx)
    → FreeChain s' h fs
FreeChain-frame s s' h [] c same = c
FreeChain-frame s s' h (i ∷ fs) c same = (
  c.0,
  rw (same i (ground arith))
      (FreeChain-frame s s' (s i).next_idx fs c.1 (λ j m. same j (ground arith))),
)

-- the indices from `i` on, `n` of them
abbrev pub span : ℕ → ℕ → List ℕ
span i zero = []
span i (suc n) = i ∷ span (suc i) n

pub has-span : (j i n : ℕ) → has j (span i n) ≡ (leb i j && ltb j (i + n))
has-span j i zero = ground arith
has-span j i (suc n) = ground (arith, has-span j (suc i) n)

pub Distinct-span : (i n : ℕ) → Distinct (span i n)
Distinct-span i zero = tt
Distinct-span i (suc n) = (ground (arith, has-span i (suc i) n), Distinct-span (suc i) n)

pub length-span : (i n : ℕ) → length (span i n) ≡ n
length-span i zero = refl
length-span i (suc n) = ap suc (length-span (suc i) n)

in_span : (i cap : ℕ) → i < cap → has i (span 0 cap) ≡ true
in_span i cap h = ground (arith, has-span i 0 cap)

-- the constructor's links, from slot `i` on
init-chain :
    (cap i n : ℕ)
    → i + n ≡ cap
    → FreeChain (init cap).slots (if ltb i cap then some i else none) (span i n)
unfolding init
init-chain cap i zero e = ground arith
init-chain cap i (suc n) e = (
  ground arith,
  subst (λ k. FreeChain (init cap).slots (if ltb k cap then some k else none) (span (suc i) n))
      (omega arith) (init-chain cap (suc i) n (omega arith)),
)

-- A pool built for fewer than 2^31 slots is valid, and its free list is every index in order.
pub init-IsValid : (cap : ℕ) → cap < 2 ^ 31 → IsValid (init cap) (span 0 cap)
unfolding init
init-IsValid cap h = record {
  chain = init-chain cap 0 cap (omega arith);
  distinct = Distinct-span 0 cap;
  in_range = λ i m. ground (arith, has-span i 0 cap);
  slot = λ i m. rw (in_span i cap m);
  generation = λ i. omega arith;
  count = omega (arith, length-span 0 cap);
  small = h;
}
