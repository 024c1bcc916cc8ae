-- ===== src/Ladder/Price.antt =====
-- Prices and offsets of the band: `offset_of` and `low_price_ + offset` are inverse to one another,
-- and the order of offsets is that of prices.
use low_latency_orderbook.Prelude.{
  ℕ, ℤ, pos, ◌+ℤ◌, ◌-ℤ◌, +ℤ_parts, -ℤ_parts, parts_excl, eq_of_parts, pos_part, neg_part, ◌+◌, ◌≤◌,
  ◌<◌, ◌≡◌, true, arith,
}
use low_latency_orderbook.Types.{Side, buy, sell}
use low_latency_orderbook.Map.{before}
use low_latency_orderbook.Ladder.{PriceLadder, in_band, offset_of, is_better}

module _ (ld : PriceLadder) where
  pub offset_price :
      (q : ℤ)
      → in_band ld q ≡ true
      → (ld.low_price +ℤ pos (offset_of ld q) ≡ q) × (offset_of ld q < ld.size)
  unfolding in_band offset_of
  offset_price q h = (
    eq_of_parts _ q
        (omega (arith, +ℤ_parts ld.low_price (pos (pos_part (q -ℤ ld.low_price))), low_le, sub)),
    omega (arith, +ℤ_parts ld.low_price (pos ld.size), below, sub),
  )
    where
      low_le : pos_part ld.low_price + neg_part q ≤ pos_part q + neg_part ld.low_price
      low_le = ground arith

      below :
          pos_part q + neg_part (ld.low_price +ℤ pos ld.size)
          < pos_part (ld.low_price +ℤ pos ld.size) + neg_part q
      below = ground arith

      sub :
          pos_part (q -ℤ ld.low_price) + neg_part q + pos_part ld.low_price
          ≡ pos_part q + neg_part ld.low_price
      sub = omega (arith, -ℤ_parts q ld.low_price, parts_excl (q -ℤ ld.low_price), low_le)

  pub price_offset :
      (o : ℕ)
      → o < ld.size
      → (in_band ld (ld.low_price +ℤ pos o) ≡ true) × (offset_of ld (ld.low_price +ℤ pos o) ≡ o)
  unfolding in_band offset_of
  price_offset o h = (
    ground (arith, +ℤ_parts ld.low_price (pos o), +ℤ_parts ld.low_price (pos ld.size)),
    omega (
      arith,
      +ℤ_parts ld.low_price (pos o),
      -ℤ_parts (ld.low_price +ℤ pos o) ld.low_price,
      parts_excl (ld.low_price +ℤ pos o -ℤ ld.low_price),
    ),
  )

pub is_better-before :
    (side : Side) (low : ℤ) (a b : ℕ)
    → is_better side a b ≡ before side (low +ℤ pos a) (low +ℤ pos b)
unfolding is_better
is_better-before buy low a b = ground (arith, +ℤ_parts low (pos a), +ℤ_parts low (pos b))
is_better-before sell low a b = ground (arith, +ℤ_parts low (pos a), +ℤ_parts low (pos b))
