-- ===== src/Latency/Bucket.antt =====
-- The buckets of the histogram: a sample falls between the bounds of its bucket.
use low_latency_orderbook.Prelude.{
  ℕ, zero, suc, ◌+◌, ◌-◌, ◌*◌, ◌/◌, ◌%◌, ◌^◌, ◌≤◌, ◌<◌, ◌≡◌, refl, arith, ◌⊎◌, Bool-cases, inl, inr,
  ◌==◌, false,
}
use native.Mathlib.Omega.{pow_step}
use native.Mathlib.Nat.{
  pow-le-pow_right, one-le-pow, div-add-mod', mul-le-mul_left, div-le_of_le-mul,
}
use low_latency_orderbook.Latency.{digits, bit_width, bucket_lo, bucket_hi, interpolate}

next_digit : (d n : ℕ) → 1 ≤ n → bucket_lo d ≤ n / 2 → n / 2 < 2 ^ d → (2 ^ d ≤ n) × (n < 2 ^ suc d)
unfolding bucket_lo
next_digit zero n some_n l h = (omega arith, omega arith)
next_digit (suc d) n some_n l h = (omega (arith, pow_step 2 d), omega (arith, pow_step 2 (suc d)))

digits_bounds :
    (most n : ℕ)
    → n < 2 ^ most
    → (bucket_lo (digits most n) ≤ n) × (n < 2 ^ digits most n) × (digits most n ≤ most)
unfolding digits bucket_lo
digits_bounds zero n h = (omega arith, omega arith, omega arith)
digits_bounds (suc most) n h = elim (Bool-cases (n == 0)) [
  | inl e ↦ rw e (omega arith, ground arith, omega arith)
  | inr e ↦
      let ih = digits_bounds most (n / 2) (omega (arith, pow_step 2 most)) in
      let step = next_digit (digits most (n / 2)) n (ground arith) ih.0 ih.1 in
      rw e (step.0, step.1, omega (arith, ih.2))
]

-- the upper bound of a bucket but the first
hi_cases :
    (b : ℕ)
    → b ≤ 63
    → ((suc b ≡ 64) × (bucket_hi (suc b) ≡ 2 ^ 64 - 1)) ⊎ (bucket_hi (suc b) ≡ 2 ^ suc b - 1)
unfolding bucket_hi
hi_cases b l = elim (Bool-cases (suc b == 64)) [
  | inl e ↦ inl (ground arith, rw (nonzero, e) refl)
  | inr e ↦ inr (rw (nonzero, e) refl)
]
  where
    nonzero : (suc b == 0) ≡ false
    nonzero = ground arith

-- A bucket ends before a later one begins.
pub hi-below_lo : (b d : ℕ) → b ≤ d → d ≤ 63 → bucket_hi b < bucket_lo (suc d)
unfolding bucket_hi bucket_lo
hi-below_lo zero d h l = omega (arith, one-le-pow d 2 (omega arith))
hi-below_lo (suc b) d h l = omega (
  arith,
  hi_cases b (omega arith),
  h,
  l,
  pow-le-pow_right {n = 2} (omega arith) {i = suc b} {j = d} h,
  one-le-pow (suc b) 2 (omega arith),
)

hi : (b n : ℕ) → b ≤ 64 → n < 2 ^ 64 → n < 2 ^ b → n ≤ bucket_hi b
unfolding bucket_hi
hi zero n l w h = omega arith
hi (suc b) n l w h = omega (arith, hi_cases b (omega arith))

-- A 64-bit sample lies within the bounds of the bucket of its bit width, which is one of the 65.
pub bucket_bounds :
    (ticks : ℕ)
    → ticks < 2 ^ 64
    → (bucket_lo (bit_width ticks) ≤ ticks)
      × (ticks ≤ bucket_hi (bit_width ticks))
      × (bit_width ticks ≤ 64)
bucket_bounds ticks h =
    let k = digits_bounds 64 ticks h in (k.0, hi (bit_width ticks) ticks k.2 h k.1, k.2)

span_bound : (b : ℕ) → b ≤ 64 → (bucket_lo b ≤ bucket_hi b) × (bucket_hi b < 2 ^ 64)
unfolding bucket_lo bucket_hi
span_bound zero l = (omega arith, omega arith)
span_bound (suc b) l = (
  omega (arith, hi_cases b (omega arith), pow_step 2 b, one-le-pow b 2 (omega arith), low),
  omega (
    arith,
    hi_cases b (omega arith),
    pow-le-pow_right {n = 2} (omega arith) {i = suc b} {j = 64} l,
  ),
)
  where
    low : 2 ^ b ≤ 2 ^ 63
    low = pow-le-pow_right {n = 2} (omega arith) {i = b} {j = 63} (omega arith)

-- the remainder's share of a rank below the count is at most the remainder
share : (r k n : ℕ) → k < n → r * k / n ≤ r
share r k n h = div-le_of_le-mul n (grind arith)

below : (k n : ℕ) → k < n → k ≤ n
below k n h = omega arith

within : (q r k n span : ℕ) → q * n + r ≡ span → k < n → q * k + r * k / n ≤ span
within q r k n span e h = omega (arith, share r k n h, mul-le-mul_left q (below k n h), e)

mod_small : (n : ℕ) → n < 2 ^ 64 → n % 2 ^ 64 ≡ n
mod_small n h = omega arith

-- The interpolation at a rank below the count of a bucket stays within the bounds of the bucket,
-- if the product of remainder and rank fits in 64 bits.
pub interpolate_bounds :
    (b in_rank bucket_count : ℕ)
    → b ≤ 64
    → in_rank < bucket_count
    → (bucket_hi b - bucket_lo b) % bucket_count * in_rank < 2 ^ 64
    → (bucket_lo b ≤ interpolate b in_rank bucket_count)
      × (interpolate b in_rank bucket_count ≤ bucket_hi b)
unfolding interpolate
interpolate_bounds b k n l h narrow =
    let bound = within (span / n) (span % n) k n span split h in
    let ends = span_bound b l in
    rw
      (
        mod_small ((span % n) * k) narrow,
        mod_small (bucket_lo b + span / n * k + span % n * k / n) (omega (arith, bound, ends)),
      )
      (omega arith, omega (arith, bound, ends))
  where
    span : ℕ
    span = bucket_hi b - bucket_lo b

    split : span / n * n + span % n ≡ span
    split = div-add-mod' span n
