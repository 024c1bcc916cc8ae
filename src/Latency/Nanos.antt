-- ===== src/Latency/Nanos.antt =====
-- The split of `ticks_to_nanos` into seconds and a rest loses nothing.
use low_latency_orderbook.Prelude.{ℕ, ◌+◌, ◌*◌, ◌/◌, ◌%◌, ◌^◌, ◌≤◌, ◌<◌, ◌≡◌, arith, sym, ap, ◌∙◌}
use native.Mathlib.Nat.{div-add-mod', mul-add-div_right, mod-lt, mul_right_comm, add-mul}
use low_latency_orderbook.Latency.{ticks_to_nanos}

small : (n : ℕ) → n < 2 ^ 64 → n % 2 ^ 64 ≡ n
small n h = omega arith

exact : (f t g : ℕ) → 0 < f → t / f * g + t % f * g / f ≡ t * g / f
exact f t g pos = sym (mul-add-div_right pos (t / f * g) (t % f * g)) ∙ ap (λ n. n / f) (regroup)
  where
    regroup : t / f * g * f + t % f * g ≡ t * g
    regroup =
        ap (λ n. n + t % f * g) (mul_right_comm (t / f) g f)
        ∙ sym (add-mul (t / f * f) (t % f) g)
        ∙ ap (λ n. n * g) (div-add-mod' t f)

-- For a clock of at most 2^34 ticks a second, and a result that fits in 64 bits, `ticks_to_nanos` is
-- the number of ticks times 10^9, divided by the rate and rounded down.
pub ticks_to_nanos-exact :
    (rate ticks : ℕ)
    → 0 < rate
    → rate ≤ 2 ^ 34
    → ticks * 1000000000 / rate < 2 ^ 64
    → ticks_to_nanos rate ticks ≡ ticks * 1000000000 / rate
unfolding ticks_to_nanos
ticks_to_nanos-exact f t pos narrow fits =
    let e = exact f t 1000000000 pos in
    let rest : t % f < f = mod-lt t pos in
    rw
      (
        small (t / f * 1000000000) (omega (arith, e, fits)),
        small (t % f * 1000000000) (omega (arith, rest, narrow)),
        small (t / f * 1000000000 + t % f * 1000000000 / f) (omega (arith, e, fits)),
      )
      e
