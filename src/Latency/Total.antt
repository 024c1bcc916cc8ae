-- ===== src/Latency/Total.antt =====
-- The invariant of the histogram: its buckets add up to the number of samples.
use low_latency_orderbook.Prelude.{
  ℕ, zero, suc, ◌+◌, ◌%◌, ◌^◌, ◌≤◌, ◌<◌, ◌≡◌, ◌⊎◌, inl, inr, refl, arith, update, ◌==◌, Bool-cases,
  true, ◌∙◌,
}
use low_latency_orderbook.Latency.{LatencyRecorder, bit_width, record_ticks, merged, merge}
use low_latency_orderbook.Latency.Bucket.{bucket_bounds}

-- the samples in the first `n` buckets
unfoldable pub total : (ℕ → ℕ) → ℕ → ℕ
total counts zero = 0
total counts (suc n) = total counts n + counts n

pub record IsValid (r : LatencyRecorder) : Type 0 where
  pub sum : total r.counts 65 ≡ r.count
  pub small : r.count < 2 ^ 64
  pub range : (r.count ≡ 0) ⊎ (r.min ≤ r.max)
  pub max_small : r.max < 2 ^ 64

pub total_mono : (counts : ℕ → ℕ) (b n : ℕ) → b ≤ n → total counts b ≤ total counts n
unfolding total
total_mono counts b zero h = ground arith
total_mono counts b (suc n) h = elim (Bool-cases (b == suc n)) [
  | inl e ↦ rw (same b (suc n) e) (omega arith)
  | inr e ↦ omega (arith, total_mono counts b n (ground arith))
]
  where
    same : (b n : ℕ) → (b == n) ≡ true → b ≡ n
    same b n e = ground arith

total-out : (counts : ℕ → ℕ) (b v n : ℕ) → n ≤ b → total (update counts b v) n ≡ total counts n
unfolding total
total-out counts b v zero h = refl
total-out counts b v (suc n) h = ground (arith, total-out counts b v n (omega arith))

not_above : (n b : ℕ) → (n == b) ≡ true → n ≤ b
not_above n b e = ground arith

total-update :
    (counts : ℕ → ℕ) (b v n : ℕ)
    → b < n
    → total (update counts b v) n + counts b ≡ total counts n + v
unfolding total
total-update counts b v zero h = absurd (omega arith)
total-update counts b v (suc n) h = elim (Bool-cases (n == b)) [
  | inl e ↦ ground (arith, total-out counts b v n (not_above n b e))
  | inr e ↦ ground (arith, total-update counts b v n (ground arith))
]

bucket_small : (r : LatencyRecorder) → IsValid r → (b : ℕ) → b ≤ 64 → r.counts b ≤ r.count
unfolding total
bucket_small r v b h = omega (arith, total_mono r.counts (suc b) 65 (omega (arith, h)), v.sum)

-- A recorder stays valid when a 64-bit sample is recorded, as long as their number fits in 64 bits.
pub record_ticks-IsValid :
    (r : LatencyRecorder)
    → IsValid r
    → (ticks : ℕ) → ticks < 2 ^ 64
    → r.count + 1 < 2 ^ 64
    → IsValid (record_ticks r ticks)
unfolding record_ticks
record_ticks-IsValid r v ticks h room =
    let k = bucket_bounds ticks h in
    let b = bucket_small r v (bit_width ticks) k.2 in
    record {
      sum = omega (
        arith,
        total-update r.counts (bit_width ticks) ((r.counts (bit_width ticks) + 1) % 2 ^ 64) 65
            (omega (arith, k.2)),
        v.sum,
        b,
        room,
      );
      small = omega (arith, room);
      range = inr (ground arith);
      max_small = ground (arith, v.max_small);
    }

total-merged :
    (f g : ℕ → ℕ) (n : ℕ)
    → n ≤ 65
    → total f n + total g n < 2 ^ 64
    → total (merged f g) n ≡ total f n + total g n
unfolding total
total-merged f g zero h k = refl
total-merged f g (suc n) h k = ground (arith, total-merged f g n (omega arith) (omega arith))

-- The merge of two valid recorders is valid, as long as the number of their samples fits in 64 bits.
pub merge-IsValid :
    (r other : LatencyRecorder)
    → IsValid r
    → IsValid other
    → r.count + other.count < 2 ^ 64
    → IsValid (merge r other)
unfolding merge
merge-IsValid r other v w room = record {
  sum =
      total-merged r.counts other.counts 65 (omega arith) (omega (arith, v.sum, w.sum))
      ∙ omega (arith, v.sum, w.sum);
  small = omega (arith, room);
  range = ground (arith, v.range, w.range);
  max_small = ground (arith, v.max_small, w.max_small);
}
