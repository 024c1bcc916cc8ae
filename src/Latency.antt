-- ===== src/Latency.antt =====
-- include/lob/latency.h: the conversion of clock ticks and the histogram `LatencyRecorder`. All
-- numbers are 64 bits wide. The clocks themselves and the spin of `measure` are not modelled.
pub mod Bucket
pub mod Total
pub mod Samples
pub mod Percentile
pub mod Nanos
mod Tests
use low_latency_orderbook.Prelude.{
  ℕ, zero, suc, ◌+◌, ◌-◌, ◌*◌, ◌/◌, ◌%◌, ◌^◌, Bool, true, false, ◌==◌, ltb, leb, if◌then◌else◌,
  update,
}

abbrev pub latency_buckets : ℕ
latency_buckets = 65

-- `TscCalibration::ticks_to_nanos`
unfoldable pub ticks_to_nanos : ℕ → ℕ → ℕ
ticks_to_nanos ticks_per_second ticks =
    let sec = ticks / ticks_per_second in
    let rem = ticks % ticks_per_second in
    ((sec * 1000000000) % 2 ^ 64 + (rem * 1000000000) % 2 ^ 64 / ticks_per_second) % 2 ^ 64

-- what `measure` computes from the ticks and nanoseconds that went by, or the identity rate
unfoldable pub calibrated : ℕ → ℕ → ℕ → ℕ
calibrated c0 c1 ns =
    let rate =
      if ltb c0 c1
      then (if ltb 0 ns then ((c1 - c0) * 1000000000) % 2 ^ 64 / ns else 1000000000)
      else 1000000000 in
    if rate == 0 then 1000000000 else rate

pub record LatencyRecorder : Type 0 where
  pub counts : ℕ → ℕ
  pub count : ℕ
  pub min : ℕ
  pub max : ℕ

abbrev pub new_recorder : LatencyRecorder
new_recorder = record { counts = λ b. 0; count = 0; min = 2 ^ 64 - 1; max = 0 }

-- the number of binary digits, of at most the given number of them
unfoldable pub digits : ℕ → ℕ → ℕ
digits zero n = 0
digits (suc most) n = let rest = digits most (n / 2) in if n == 0 then 0 else suc rest

-- `std::bit_width` of a 64-bit number
abbrev pub bit_width : ℕ → ℕ
bit_width = digits 64

-- `record`
unfoldable pub record_ticks : LatencyRecorder → ℕ → LatencyRecorder
record_ticks r ticks = record {
  counts = update r.counts (bit_width ticks) ((r.counts (bit_width ticks) + 1) % 2 ^ 64);
  count = (r.count + 1) % 2 ^ 64;
  min = if ltb ticks r.min then ticks else r.min;
  max = if ltb r.max ticks then ticks else r.max;
}

unfoldable pub min_ticks : LatencyRecorder → ℕ
min_ticks r = if r.count == 0 then 0 else r.min

unfoldable pub bucket_lo : ℕ → ℕ
bucket_lo zero = 0
bucket_lo (suc b) = 2 ^ b

unfoldable pub bucket_hi : ℕ → ℕ
bucket_hi b = if b == 0 then 0 else if b == latency_buckets - 1 then 2 ^ 64 - 1 else 2 ^ b - 1

unfoldable pub interpolate : ℕ → ℕ → ℕ → ℕ
interpolate b in_rank bucket_count =
    let lo = bucket_lo b in
    let span = bucket_hi b - lo in
    let q = span / bucket_count in
    let r = span % bucket_count in
    (lo + q * in_rank + (r * in_rank) % 2 ^ 64 / bucket_count) % 2 ^ 64

unfoldable pub clamp_to_observed : LatencyRecorder → ℕ → ℕ
clamp_to_observed r v =
    let v' = if ltb v r.min then r.min else v in if ltb r.max v' then r.max else v'

-- the loop of `percentile_ticks`, from bucket `b` on
unfoldable pub percentile_loop : LatencyRecorder → ℕ → ℕ → ℕ → ℕ → ℕ
percentile_loop r rank b zero cum = r.max
percentile_loop r rank b (suc left) cum =
    let rest = percentile_loop r rank (suc b) left ((cum + r.counts b) % 2 ^ 64) in
    if leb rank ((cum + r.counts b) % 2 ^ 64)
    then clamp_to_observed r (interpolate b (rank - cum - 1) (r.counts b))
    else rest

-- the ceiling of the rank of the `num`/`den`-th percentile, at least 1
unfoldable pub rank_of : ℕ → ℕ → ℕ → ℕ
rank_of count num den =
    let rank = ((count * num) % 2 ^ 64 + den - 1) % 2 ^ 64 / den in if rank == 0 then 1 else rank

unfoldable pub percentile_ticks : LatencyRecorder → ℕ → ℕ → ℕ
percentile_ticks r num den =
    if r.count == 0
    then 0
    else if num == den
    then r.max
    else percentile_loop r (rank_of r.count num den) 0 latency_buckets 0

pub record LatencySummary : Type 0 where
  pub count : ℕ
  pub min_ticks : ℕ
  pub max_ticks : ℕ
  pub p50 : ℕ
  pub p90 : ℕ
  pub p99 : ℕ
  pub p999 : ℕ

unfoldable pub summary : LatencyRecorder → LatencySummary
summary r = record {
  count = r.count;
  min_ticks = min_ticks r;
  max_ticks = r.max;
  p50 = percentile_ticks r 50 100;
  p90 = percentile_ticks r 90 100;
  p99 = percentile_ticks r 99 100;
  p999 = percentile_ticks r 999 1000;
}

unfoldable pub to_nanos : LatencySummary → ℕ → LatencySummary
to_nanos s ticks_per_second = record {
  count = s.count;
  min_ticks = ticks_to_nanos ticks_per_second s.min_ticks;
  max_ticks = ticks_to_nanos ticks_per_second s.max_ticks;
  p50 = ticks_to_nanos ticks_per_second s.p50;
  p90 = ticks_to_nanos ticks_per_second s.p90;
  p99 = ticks_to_nanos ticks_per_second s.p99;
  p999 = ticks_to_nanos ticks_per_second s.p999;
}

-- the new value of bucket `b` after `merge`, which runs through all buckets
abbrev pub merged : (ℕ → ℕ) → (ℕ → ℕ) → ℕ → ℕ
merged counts others b = if ltb b latency_buckets then (counts b + others b) % 2 ^ 64 else counts b

unfoldable pub merge : LatencyRecorder → LatencyRecorder → LatencyRecorder
merge r other = record {
  counts = merged r.counts other.counts;
  count = (r.count + other.count) % 2 ^ 64;
  min = if ltb other.min r.min then other.min else r.min;
  max = if ltb r.max other.max then other.max else r.max;
}

unfoldable pub reset : LatencyRecorder → LatencyRecorder
reset r = new_recorder
