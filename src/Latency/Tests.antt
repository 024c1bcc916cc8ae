-- ===== src/Latency/Tests.antt =====
-- A recorder with the samples 5, 6 and 900.
use low_latency_orderbook.Prelude.{◌+◌, ◌<◌, ◌⊎◌, ◌*◌, ◌/◌, ◌≤◌, ◌≡◌, refl, inl, [], ◌∷◌, arith}
use low_latency_orderbook.Latency.{
  LatencyRecorder, new_recorder, record_ticks, percentile_ticks, rank_of, ticks_to_nanos,
}
use low_latency_orderbook.Latency.Total.{total, IsValid, record_ticks-IsValid}
use low_latency_orderbook.Latency.Samples.{Samples, new-Samples, record_ticks-Samples}
use low_latency_orderbook.Latency.Percentile.{Selected, percentile_ticks-Selected}
use low_latency_orderbook.Latency.Nanos.{ticks_to_nanos-exact}

new-IsValid : IsValid new_recorder
unfolding total
new-IsValid = record { sum = refl; small = omega arith; range = inl refl; max_small = omega arith }

abbrev one : LatencyRecorder
one = record_ticks new_recorder 5

one-IsValid : IsValid one
one-IsValid = record_ticks-IsValid new_recorder new-IsValid 5 (omega arith) (omega arith)

one_count : one.count ≡ 1
unfolding record_ticks
one_count = refl

abbrev two : LatencyRecorder
two = record_ticks one 900

two-IsValid : IsValid two
two-IsValid = record_ticks-IsValid one one-IsValid 900 (omega arith) (omega (arith, one_count))

one-Samples : Samples one (5 ∷ [])
one-Samples = record_ticks-Samples new_recorder [] new-Samples 5 (omega arith) (omega arith)

record_ticks-Samples_example : Samples (record_ticks one 900) (900 ∷ 5 ∷ [])
record_ticks-Samples_example =
    record_ticks-Samples one (5 ∷ []) one-Samples 900 (omega arith) (omega arith)

two_count : two.count ≡ 2
unfolding record_ticks
two_count = refl

percentile_ticks-Selected_example :
    let rank = rank_of two.count 99 100 in
    (1 ≤ rank)
    × (rank ≤ two.count)
    × (two.count * 99 ≤ rank * 100)
    × ((rank ≡ 1) ⊎ (rank * 100 < two.count * 99 + 100))
    × Selected two rank (percentile_ticks two 99 100)
percentile_ticks-Selected_example =
    percentile_ticks-Selected two two-IsValid 99 100 (omega (arith, two_count)) (omega arith)
      (omega (arith, two_count))

ticks_to_nanos-exact_example :
    ticks_to_nanos 3000000000 7000000001 ≡ 7000000001 * 1000000000 / 3000000000
ticks_to_nanos-exact_example =
    ticks_to_nanos-exact 3000000000 7000000001 (omega arith) (omega arith) (omega arith)
