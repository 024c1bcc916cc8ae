-- ===== src/Latency/Percentile.antt =====
-- `percentile_ticks`: the rank of a percentile, the bucket that it falls in, and the clamp.
use low_latency_orderbook.Prelude.{
  ℕ, zero, suc, ◌+◌, ◌-◌, ◌*◌, ◌/◌, ◌%◌, ◌^◌, ◌≤◌, ◌<◌, ◌≡◌, ◌≢◌, inl, inr, ◌⊎◌, refl, arith, leb,
  ◌==◌, Bool-cases, true, false,
}
use native.Mathlib.Nat.{
  div-lt_iff_lt-mul, lt-div-mul-add, div-mul-le_self, mul-le-mul_left, add-mul,
}
use low_latency_orderbook.Latency.{
  LatencyRecorder, interpolate, clamp_to_observed, percentile_loop, rank_of, percentile_ticks,
}
use low_latency_orderbook.Latency.Total.{total, total_mono, IsValid}

-- The bucket that holds the sample of a rank was found, and the result interpolates in it.
pub record Selected (r : LatencyRecorder) (rank out : ℕ) : Type 0 where
  pub bucket : ℕ
  pub in_range : bucket ≤ 64
  pub above : total r.counts bucket < rank
  pub reached : rank ≤ total r.counts (suc bucket)
  pub value :
      out
      ≡ clamp_to_observed r
          (interpolate bucket (rank - total r.counts bucket - 1) (r.counts bucket))

module _ (r : LatencyRecorder) (rank b left cum n : ℕ) (sum : (cum + r.counts b) % 2 ^ 64 ≡ n) where
  loop-here :
      leb rank n ≡ true
      → percentile_loop r rank b (suc left) cum
        ≡ clamp_to_observed r (interpolate b (rank - cum - 1) (r.counts b))
  unfolding percentile_loop
  loop-here e = rw (sum, e) refl

  loop-later :
      leb rank n ≡ false
      → percentile_loop r rank b (suc left) cum ≡ percentile_loop r rank (suc b) left n
  unfolding percentile_loop
  loop-later e = rw (sum, e) refl

module _ (r : LatencyRecorder) (rank : ℕ) (bound : rank ≤ total r.counts 65)
    (small : total r.counts 65 < 2 ^ 64) where
  sum_small : (b : ℕ) → b ≤ 64 → (total r.counts b + r.counts b) % 2 ^ 64 ≡ total r.counts (suc b)
  unfolding total
  sum_small b l = omega (arith, total_mono r.counts (suc b) 65 (omega (arith, l)), small)

  loop-Selected :
      (left b : ℕ)
      → b + left ≡ 65
      → total r.counts b < rank
      → Selected r rank (percentile_loop r rank b left (total r.counts b))
  loop-Selected zero b e above =
      absurd (omega (arith, above, bound, total_mono r.counts 65 b (omega (arith, e))))
  loop-Selected (suc left) b e above =
      let sum = sum_small b (omega (arith, e)) in
      elim (Bool-cases (leb rank (total r.counts (suc b)))) [
        | inl here ↦ record {
          bucket = b;
          in_range = omega (arith, e);
          above = above;
          reached = ground arith;
          value = loop-here r rank b left (total r.counts b) (total r.counts (suc b)) sum here;
        }
        | inr later ↦
            rw (loop-later r rank b left (total r.counts b) (total r.counts (suc b)) sum later)
              (loop-Selected left (suc b) (omega (arith, e)) (ground arith))
      ]

loop_bounds :
    (r : LatencyRecorder) (rank left b cum : ℕ)
    → r.min ≤ r.max
    → (r.min ≤ percentile_loop r rank b left cum) × (percentile_loop r rank b left cum ≤ r.max)
unfolding percentile_loop clamp_to_observed
loop_bounds r rank zero b cum h = (h, omega arith)
loop_bounds r rank (suc left) b cum h =
    ground (arith, loop_bounds r rank left (suc b) ((cum + r.counts b) % 2 ^ 64) h)

is_not : (a b : ℕ) → a ≢ b → (a == b) ≡ false
is_not a b ne = ground arith

-- the least rank of at least `num`/`den` of the samples, and at least 1
pub rank_bounds :
    (count num den : ℕ)
    → 1 ≤ count
    → num < den
    → count * num + den < 2 ^ 64
    → let rank = rank_of count num den in
      (1 ≤ rank)
      × (rank ≤ count)
      × (count * num ≤ rank * den)
      × ((rank ≡ 1) ⊎ (rank * den < count * num + den))
unfolding rank_of
rank_bounds count num den some h narrow = rw inside (elim (Bool-cases (x / den == 0)) [
  | inl e ↦ rw e (omega arith, some, omega (arith, ceil, zero_ceil (ground arith)), inl refl)
  | inr e ↦ rw e (
    ground arith,
    omega (arith, floor),
    omega (arith, ceil),
    inr (omega (arith, h, div-mul-le_self x den)),
  )
])
  where
    x : ℕ
    x = count * num + den - 1

    inside : ((count * num) % 2 ^ 64 + den - 1) % 2 ^ 64 ≡ x
    inside = omega (arith, narrow)

    num_le : num ≤ den
    num_le = omega (arith, h)

    less : x < (count + 1) * den
    less = omega (arith, mul-le-mul_left count num_le, add-mul count 1 den)

    floor : x / den < count + 1
    floor = (div-lt_iff_lt-mul (omega (arith, h))).1 less

    ceil : count * num ≤ x / den * den
    ceil = omega (arith, lt-div-mul-add {a = x} {b = den} (omega (arith, h)))

    zero_ceil : x / den ≡ 0 → x / den * den ≡ 0
    zero_ceil z = rw z (omega arith)

module _ (r : LatencyRecorder) (v : IsValid r) (num den : ℕ) where
  -- On a recorder with samples the `num`/`den`-th percentile, for `num` below `den` and numbers
  -- whose product fits in 64 bits, is taken from the bucket that holds the sample of its rank: the
  -- least rank, from 1 on, that at least `num`/`den` of the samples reach, so the ceiling. The last
  -- line of `percentile_ticks` is not reached.
  pub percentile_ticks-Selected :
      1 ≤ r.count
      → num < den
      → r.count * num + den < 2 ^ 64
      → let rank = rank_of r.count num den in
        (1 ≤ rank)
        × (rank ≤ r.count)
        × (r.count * num ≤ rank * den)
        × ((rank ≡ 1) ⊎ (rank * den < r.count * num + den))
        × Selected r rank (percentile_ticks r num den)
  unfolding percentile_ticks total
  percentile_ticks-Selected some h narrow =
      let k = rank_bounds r.count num den some h narrow in
      (
        k.0,
        k.1,
        k.2,
        k.3,
        rw (is_not r.count 0 (omega (arith, some)), is_not num den (omega (arith, h)))
            ((loop-Selected r (rank_of r.count num den) (omega (arith, k.1, v.sum))
              (omega (arith, v.sum, v.small)) 65 0 refl (omega (arith, k.0)))),
      )

  -- A percentile of a valid recorder with samples is never below their least and never above their
  -- greatest value, whatever the fraction.
  pub percentile_ticks_bounds :
      1 ≤ r.count → (r.min ≤ percentile_ticks r num den) × (percentile_ticks r num den ≤ r.max)
  unfolding percentile_ticks
  percentile_ticks_bounds some =
      ground (arith, v.range, loop_bounds r (rank_of r.count num den) 65 0 0)
