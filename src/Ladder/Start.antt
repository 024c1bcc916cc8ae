-- ===== src/Ladder/Start.antt =====
-- The constructor of `PriceLadder` gives a ladder with no orders.
use low_latency_orderbook.Prelude.{ℕ, ℤ, [], refl}
use low_latency_orderbook.Types.{Side}
use low_latency_orderbook.Level.{Slots}
use low_latency_orderbook.Level.Fifo.{empty-IsFifo}
use low_latency_orderbook.Map.{lookup}
use low_latency_orderbook.Ladder.{init}
use low_latency_orderbook.Ladder.Holds.{Contents, Holds}

abbrev pub no_orders : Contents
no_orders q = []

-- A new ladder holds no orders, in any store of slots.
pub init-Holds :
    (side : Side) (anchor_price : ℤ) (band_radius : ℕ) (s : Slots)
    → Holds (init side anchor_price band_radius) s no_orders []
unfolding init lookup
init-Holds side anchor_price band_radius s = record {
  in_levels = λ q e. empty-IsFifo s;
  in_overflow = λ q e. refl;
  outside = λ q level e. absurd (cc);
  sorted = tt;
  rests = λ q i m. absurd (cc);
  best = λ q e. refl;
  band_distinct = tt;
  band_sound = λ i m. absurd (cc);
  band_complete = λ q i e m. m;
  band_count = refl;
}
