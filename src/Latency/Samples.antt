-- ===== src/Latency/Samples.antt =====
-- What a recorder says of the samples that it was given.
use low_latency_orderbook.Prelude.{
  ℕ, zero, suc, ◌+◌, ◌-◌, ◌^◌, ◌≤◌, ◌<◌, ◌≡◌, refl, arith, Bool, true, false, ◌&&◌, leb, ◌==◌,
  Bool-cases, inl, inr, List, [], ◌∷◌, length, if◌then◌else◌,
}
use low_latency_orderbook.Latency.{
  LatencyRecorder, bucket_lo, bucket_hi, bit_width, record_ticks, new_recorder,
}
use low_latency_orderbook.Latency.Bucket.{bucket_bounds, hi-below_lo}

-- between the bounds of a bucket
abbrev pub in_bucket : ℕ → ℕ → Bool
in_bucket b x = leb (bucket_lo b) x && leb x (bucket_hi b)

abbrev pub in_count : ℕ → List ℕ → ℕ
in_count b [] = 0
in_count b (x ∷ xs) = if in_bucket b x then suc (in_count b xs) else in_count b xs

-- the least sample, or the largest number, and the greatest one, or zero
abbrev pub least : List ℕ → ℕ
least [] = 2 ^ 64 - 1
least (x ∷ xs) = if leb x (least xs) then x else least xs

abbrev pub greatest : List ℕ → ℕ
greatest [] = 0
greatest (x ∷ xs) = if leb (greatest xs) x then x else greatest xs

-- Each bucket counts the samples between its bounds, and the number of samples, the least and the
-- greatest one are theirs.
pub record Samples (r : LatencyRecorder) (xs : List ℕ) : Type 0 where
  pub counts : (b : ℕ) → b ≤ 64 → r.counts b ≡ in_count b xs
  pub count : r.count ≡ length xs
  pub min : r.min ≡ least xs
  pub max : r.max ≡ greatest xs

pub new-Samples : Samples new_recorder []
new-Samples = record { counts = λ b l. refl; count = refl; min = refl; max = refl }

in_count-length : (b : ℕ) (xs : List ℕ) → in_count b xs ≤ length xs
in_count-length b [] = omega arith
in_count-length b (x ∷ xs) = ground (arith, in_count-length b xs)

-- a sample is between the bounds of its own bucket only
own_bucket : (ticks : ℕ) → ticks < 2 ^ 64 → in_bucket (bit_width ticks) ticks ≡ true
own_bucket ticks h = let k = bucket_bounds ticks h in ground (arith, k.0, k.1)

earlier_bucket : (b d : ℕ) (x : ℕ) → b ≤ d → d ≤ 63 → bucket_lo (suc d) ≤ x → in_bucket b x ≡ false
earlier_bucket b d x h l at_least = let k = hi-below_lo b d h l in ground arith

later_bucket : (b d : ℕ) (x : ℕ) → b ≤ d → d ≤ 63 → x ≤ bucket_hi b → in_bucket (suc d) x ≡ false
later_bucket b d x h l at_most = let k = hi-below_lo b d h l in ground arith

other_bucket :
    (b w x : ℕ)
    → b ≤ 64
    → w ≤ 64
    → bucket_lo w ≤ x
    → x ≤ bucket_hi w
    → (b == w) ≡ false
    → in_bucket b x ≡ false
other_bucket zero zero x l m lo hi ne = absurd (ground arith)
other_bucket (suc b) zero x l m lo hi ne = later_bucket zero b x (omega arith) (omega arith) hi
other_bucket zero (suc w) x l m lo hi ne = earlier_bucket zero w x (omega arith) (omega arith) lo
other_bucket (suc b) (suc w) x l m lo hi ne = elim (Bool-cases (leb b w)) [
  | inl before ↦ earlier_bucket (suc b) w x (ground arith) (omega arith) lo
  | inr after ↦ later_bucket (suc w) b x (ground arith) (omega arith) hi
]

same_of : (m n : ℕ) → (m == n) ≡ true → m ≡ n
same_of m n e = ground arith

-- A recorder of any samples that is given one more 64-bit sample is a recorder of all of them: the
-- bucket with its value between the bounds counts one more, the other buckets, the least and the
-- greatest sample and the number of samples are right. Fewer than 2^64 samples are recorded.
pub record_ticks-Samples :
    (r : LatencyRecorder) (xs : List ℕ)
    → Samples r xs
    → (ticks : ℕ) → ticks < 2 ^ 64
    → length xs + 1 < 2 ^ 64
    → Samples (record_ticks r ticks) (ticks ∷ xs)
unfolding record_ticks
record_ticks-Samples r xs s ticks h room =
    let k = bucket_bounds ticks h in
    record {
      counts = λ b l. elim (Bool-cases (b == bit_width ticks)) [
        | inl own ↦
            rw (same_of b (bit_width ticks) own, own_bucket ticks h)
              (ground
                (arith, s.counts (bit_width ticks) k.2, in_count-length (bit_width ticks) xs, room))
        | inr other ↦
            rw (other_bucket b (bit_width ticks) ticks l k.2 k.0 k.1 other)
              (ground (arith, s.counts b l, other))
      ];
      count = omega (arith, s.count, room);
      min = ground (arith, s.min);
      max = ground (arith, s.max);
    }
