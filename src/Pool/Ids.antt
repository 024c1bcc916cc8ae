-- ===== src/Pool/Ids.antt =====
-- The encoding of order ids: `make_order_id`, `index_of`, `generation_of` and the generation bump.
use low_latency_orderbook.Prelude.{ℕ, ◌^◌, ◌≤◌, ◌<◌, ◌≡◌, ◌≢◌, arith}
use low_latency_orderbook.Pool.{make_order_id, index_of, generation_of, next_generation}

-- For a 32-bit generation and index, both parts of the minted id are read back, and the id is a
-- 64-bit number.
pub make_order_id-fields :
    (g i : ℕ)
    → g < 2 ^ 32
    → i < 2 ^ 32
    → (index_of (make_order_id g i) ≡ i)
      × (generation_of (make_order_id g i) ≡ g)
      × (make_order_id g i < 2 ^ 64)
unfolding make_order_id index_of generation_of
make_order_id-fields g i hg hi = omega arith

-- A generation from 1 on never mints the reserved id.
pub make_order_id-ne_zero : (g i : ℕ) → g < 2 ^ 32 → i < 2 ^ 32 → 1 ≤ g → make_order_id g i ≢ 0
unfolding make_order_id
make_order_id-ne_zero g i hg hi pos_g = omega arith

-- Every 64-bit id is the encoding of its two parts.
pub make_order_id-surjective :
    (id : ℕ) → id < 2 ^ 64 → make_order_id (generation_of id) (index_of id) ≡ id
unfolding make_order_id index_of generation_of
make_order_id-surjective id h = omega arith

-- The next generation is again 32 bits wide, is not 0, and differs from the one before.
pub next_generation_bounds :
    (g : ℕ)
    → g < 2 ^ 32
    → (1 ≤ next_generation g) × (next_generation g < 2 ^ 32) × (next_generation g ≢ g)
unfolding next_generation
next_generation_bounds g h = ground arith

pub make_order_id-injective :
    (g g' i : ℕ)
    → g < 2 ^ 32
    → g' < 2 ^ 32
    → i < 2 ^ 32
    → make_order_id g i ≡ make_order_id g' i
    → g ≡ g'
unfolding make_order_id
make_order_id-injective g g' i hg hg' hi e = omega arith
