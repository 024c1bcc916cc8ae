-- ===== src/Ladder/Best.antt =====
-- `PriceLadder::empty` and `PriceLadder::best_price`, over band and overflow together.
use low_latency_orderbook.Prelude.{
  ℕ, ℤ, pos, ◌+ℤ◌, ◌≡◌, refl, sym, subst, ◌∙◌, ◌⊎◌, inl, inr, true, false, Bool-cases, Option,
  Option-cases, none, some, List, [], ◌∷◌, arith,
}
use mathlib.Core.Bool.{false≢true}
use low_latency_orderbook.Types.{Side, buy, sell}
use low_latency_orderbook.Pool.{Link}
use low_latency_orderbook.Level.{Slots, PriceLevel}
use low_latency_orderbook.Map.{PriceMap, before, lookup, is_nil}
use low_latency_orderbook.Map.Sorted.{
  IsSorted, first_is_best, last_is_best, lookup-first, lookup-last, not_before_trans,
}
use low_latency_orderbook.Ladder.{
  PriceLadder, in_band, is_side_empty, better_price, overflow_best, best_price,
}
use low_latency_orderbook.Ladder.Holds.{Contents, Holds, OverIs, BestIs, IsBest}

-- The best key of an overflow map that is not empty.
overflow_best_lem :
    (side : Side) (m : PriceMap PriceLevel)
    → IsSorted sell m
    → is_nil m ≡ false
    → ((w : PriceLevel) × (lookup (overflow_best side m) m ≡ some w))
      × ((j : ℤ) (w : PriceLevel)
          → lookup j m ≡ some w
          → before side j (overflow_best side m) ≡ false)
overflow_best_lem side [] o e = absurd (cc)
overflow_best_lem buy ((k, v) ∷ m) o e = (lookup-last k v m, λ j w f. last_is_best k j v w m o f)
overflow_best_lem sell ((k, v) ∷ m) o e =
    ((v, lookup-first k v m), λ j w f. first_is_best sell k j v w m o f)

better_price_lem :
    (side : Side) (a b : ℤ)
    → ((better_price side a b ≡ a) ⊎ (better_price side a b ≡ b))
      × (before side a (better_price side a b) ≡ false)
      × (before side b (better_price side a b) ≡ false)
better_price_lem buy a b = ground arith
better_price_lem sell a b = ground arith

lookup_nil : (q : ℤ) (m : PriceMap PriceLevel) → is_nil m ≡ true → lookup q m ≡ none
unfolding lookup
lookup_nil q [] e = refl
lookup_nil q (x ∷ m) e = absurd (cc)

is_side_empty-parts :
    (ld : PriceLadder)
    → is_side_empty ld ≡ true
    → (ld.best_offset ≡ none) × (is_nil ld.overflow_levels ≡ true)
unfolding is_side_empty
is_side_empty-parts ld e = ground arith

is_side_empty-not :
    (ld : PriceLadder)
    → is_side_empty ld ≡ false
    → ld.best_offset ≡ none
    → is_nil ld.overflow_levels ≡ true
    → ⊥
unfolding is_side_empty
is_side_empty-not ld e n m = ground arith

best_price_overflow :
    (ld : PriceLadder)
    → ld.best_offset ≡ none
    → is_nil ld.overflow_levels ≡ false
    → best_price ld ≡ overflow_best ld.side ld.overflow_levels
unfolding best_price
best_price_overflow ld n m = ground arith

best_price_band :
    (ld : PriceLadder) (b : ℕ)
    → ld.best_offset ≡ some b
    → is_nil ld.overflow_levels ≡ true
    → best_price ld ≡ ld.low_price +ℤ pos b
unfolding best_price
best_price_band ld b n m = ground arith

best_price_both :
    (ld : PriceLadder) (b : ℕ)
    → ld.best_offset ≡ some b
    → is_nil ld.overflow_levels ≡ false
    → best_price ld
      ≡ better_price ld.side (ld.low_price +ℤ pos b) (overflow_best ld.side ld.overflow_levels)
unfolding best_price
best_price_both ld b n m = ground arith

module _ {ld : PriceLadder} {s : Slots} {c : Contents} {bs : List ℕ} (h : Holds ld s c bs) where
  -- Orders outside the band rest in the overflow map.
  found_overflow :
      (q : ℤ)
      → in_band ld q ≡ false
      → is_nil (c q) ≡ false
      → (w : PriceLevel) × (lookup q ld.overflow_levels ≡ some w)
  found_overflow q out e = go (lookup q ld.overflow_levels) refl (h.in_overflow q out)
    where
      go :
          (o : Option PriceLevel)
          → lookup q ld.overflow_levels ≡ o
          → OverIs s (c q) o
          → (w : PriceLevel) × (lookup q ld.overflow_levels ≡ some w)
      go none eq is = absurd (cc)
      go (some w) eq is = (w, eq)

  -- An entry of the overflow map is a level with orders.
  occupied_overflow :
      (q : ℤ) (w : PriceLevel) → lookup q ld.overflow_levels ≡ some w → is_nil (c q) ≡ false
  occupied_overflow q w e = (subst (OverIs s (c q)) e (h.in_overflow q (h.outside q w e))).1

  -- No price of the overflow map is better than the best key.
  overflow_IsBest :
      is_nil ld.overflow_levels ≡ false
      → (is_nil (c (overflow_best ld.side ld.overflow_levels)) ≡ false)
        × ((q : ℤ)
            → in_band ld q ≡ false
            → is_nil (c q) ≡ false
            → before ld.side q (overflow_best ld.side ld.overflow_levels) ≡ false)
  overflow_IsBest e =
      let (found, bound) = overflow_best_lem ld.side ld.overflow_levels h.sorted e in
      (
        occupied_overflow _ found.0 found.1,
        λ q out ne. let (w, f) = found_overflow q out ne in bound q w f,
      )

  -- With an empty overflow map all orders are in the band.
  no_overflow :
      is_nil ld.overflow_levels ≡ true → (q : ℤ) → in_band ld q ≡ false → is_nil (c q) ≡ true
  no_overflow e q out =
      subst (OverIs s (c q)) (lookup_nil q ld.overflow_levels e) (h.in_overflow q out)

  band_best : (l : Link) → ld.best_offset ≡ l → BestIs ld c l
  band_best l e = subst (BestIs ld c) e h.best

  -- An empty side has no order at any price.
  pub is_side_empty-nil : is_side_empty ld ≡ true → (q : ℤ) → is_nil (c q) ≡ true
  is_side_empty-nil e q =
      let (no_cursor, no_map) = is_side_empty-parts ld e in
      elim (Bool-cases (in_band ld q)) [
        | inl inside ↦ band_best none no_cursor q inside
        | inr out ↦ no_overflow no_map q out
      ]

  -- the three ways to the best price of a side that is not empty
  IsBest-in_band :
      (b : ℕ)
      → ld.best_offset ≡ some b
      → is_nil ld.overflow_levels ≡ true
      → IsBest ld.side c (ld.low_price +ℤ pos b)
  IsBest-in_band b e m = record {
    occupied = (band_best (some b) e).1;
    no_better = λ q ne. elim (Bool-cases (in_band ld q)) [
      | inl inside ↦ (band_best (some b) e).2 q inside ne
      | inr out ↦ absurd (false≢true (sym ne ∙ no_overflow m q out))
    ];
  }

  IsBest-in_overflow :
      ld.best_offset ≡ none
      → is_nil ld.overflow_levels ≡ false
      → IsBest ld.side c (overflow_best ld.side ld.overflow_levels)
  IsBest-in_overflow e m = record {
    occupied = (overflow_IsBest m).0;
    no_better = λ q ne. elim (Bool-cases (in_band ld q)) [
      | inl inside ↦ absurd (false≢true (sym ne ∙ band_best none e q inside))
      | inr out ↦ (overflow_IsBest m).1 q out ne
    ];
  }

  IsBest-in_both :
      (b : ℕ)
      → ld.best_offset ≡ some b
      → is_nil ld.overflow_levels ≡ false
      → IsBest ld.side c
          (better_price ld.side (ld.low_price +ℤ pos b) (overflow_best ld.side ld.overflow_levels))
  IsBest-in_both b e m =
      let l =
        better_price_lem ld.side (ld.low_price +ℤ pos b)
          (overflow_best ld.side ld.overflow_levels) in
      record {
        occupied = elim l.0 [
          | inl same ↦ rw same ((band_best (some b) e).1)
          | inr same ↦ rw same ((overflow_IsBest m).0)
        ];
        no_better = λ q ne. elim (Bool-cases (in_band ld q)) [
          | inl inside ↦ not_before_trans ld.side q _ _ ((band_best (some b) e).2 q inside ne) l.1
          | inr out ↦ not_before_trans ld.side q _ _ ((overflow_IsBest m).1 q out ne) l.2
        ];
      }

  -- The best price of a side that is not empty is a price with orders, and no price with orders is
  -- better.
  pub best_price-IsBest : is_side_empty ld ≡ false → IsBest ld.side c (best_price ld)
  best_price-IsBest e = elim (Option-cases ld.best_offset) [
    | inl no_cursor ↦ elim (Bool-cases (is_nil ld.overflow_levels)) [
      | inl no_map ↦ absurd (is_side_empty-not ld e no_cursor no_map)
      | inr map ↦ rw (best_price_overflow ld no_cursor map) (IsBest-in_overflow no_cursor map)
    ]
    | inr (b, cursor) ↦ elim (Bool-cases (is_nil ld.overflow_levels)) [
      | inl no_map ↦ rw (best_price_band ld b cursor no_map) (IsBest-in_band b cursor no_map)
      | inr map ↦ rw (best_price_both ld b cursor map) (IsBest-in_both b cursor map)
    ]
  ]
