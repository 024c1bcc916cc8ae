-- ===== src/Ladder/PushOrder.antt =====
-- `PriceLadder::push_order` rests an order at the end of the FIFO of its price, and keeps the
-- invariant of the ladder.
use low_latency_orderbook.Prelude.{
  ℕ, ℤ, pos, ◌+ℤ◌, eqb_ℤ, eqb_ℤ_sound, eqb_ℤ_refl, ◌+◌, ◌%◌, ◌^◌, ◌≡◌, refl, sym, ap, subst, ◌∙◌,
  ◌==◌, ◌||◌, ◌&&◌, true, false, Bool-cases, inl, inr, Option, none, some, List, [], ◌∷◌, ◌++◌,
  arith, has, has-append, update,
}
use mathlib.Core.Bool.{false≢true}
use low_latency_orderbook.Types.{sell}
use low_latency_orderbook.Pool.{Link, LevelIdx, overflow, band}
use low_latency_orderbook.Level.{Slots, PriceLevel, set_level_idx, push_back}
use low_latency_orderbook.Level.Fifo.{IsFifo, IsWide, empty-IsFifo}
use low_latency_orderbook.Map.{before, lookup, put}
use low_latency_orderbook.Map.Sorted.{lookup-put, put-IsSorted}
use low_latency_orderbook.Ladder.{
  PriceLadder, in_band, offset_of, level_or_empty, improve_best, push_order,
}
use low_latency_orderbook.Ladder.Price.{price_offset}
use low_latency_orderbook.Ladder.Holds.{
  Contents, put_at, level_ref, OverIs, BestIs, Holds, eq_nil, band_length, Rests-ladder,
}
use low_latency_orderbook.Ladder.Touched.{
  Touched, touched_levels, untouched_levels, touched_overflow, untouched_overflow, touched-Rests,
}
use low_latency_orderbook.Ladder.Push.{
  IsNew, is_nil-append, improve-BestIs, pushed-IsFifo, pushed-Touched, pushed_Rests, only_new,
  band_push,
}

-- the price of a slot's order
abbrev pub price_of : Slots → ℕ → ℤ
price_of s i = (s i).price_ticks

-- the level that an order joins: its level of the band, or the entry of the overflow map
abbrev pub band_level : PriceLadder → ℤ → PriceLevel
band_level ld q = ld.levels (offset_of ld q)

abbrev pub overflow_level : PriceLadder → ℤ → PriceLevel
overflow_level ld q = level_or_empty (lookup q ld.overflow_levels)

module _ (ld : PriceLadder) (s : Slots) (i : ℕ) where
  -- In the band: the level of the price takes the order, and the cursor improves.
  pub pushed_in_band : PriceLadder × Slots
  pushed_in_band = (
    record ld {
      levels =
          update ld.levels (offset_of ld (price_of s i))
            (push_back (band_level ld (price_of s i)) s i).0;
      band_orders = (ld.band_orders + 1) % 2 ^ 32;
      best_offset = improve_best ld.side ld.best_offset (offset_of ld (price_of s i));
    },
    set_level_idx i (band (offset_of ld (price_of s i)))
        (push_back (band_level ld (price_of s i)) s i).1,
  )

  -- Outside it: the overflow entry of the price takes the order.
  pub pushed_out_of_band : PriceLadder × Slots
  pushed_out_of_band = (
    record ld {
      overflow_levels =
          put (before sell) (price_of s i) (push_back (overflow_level ld (price_of s i)) s i).0
            ld.overflow_levels;
    },
    set_level_idx i overflow (push_back (overflow_level ld (price_of s i)) s i).1,
  )

  push_in_band : in_band ld (price_of s i) ≡ true → push_order ld s i ≡ pushed_in_band
  unfolding push_order pushed_in_band
  push_in_band inside = rw (push_order, inside) refl

  push_out_of_band : in_band ld (price_of s i) ≡ false → push_order ld s i ≡ pushed_out_of_band
  unfolding push_order pushed_out_of_band
  push_out_of_band out = rw (push_order, out) refl

module _ {ld : PriceLadder} {s : Slots} {c : Contents} {bs : List ℕ} (h : Holds ld s c bs)
    (wide : IsWide s) (i : ℕ) (n : IsNew ld s c i) where
  -- the order's price, the contents with the order, and the reference that it gets
  abbrev pub after : Contents
  after = put_at c (price_of s i) (c (price_of s i) ++ i ∷ [])

  -- who rests where afterwards
  pub has-after :
      (j : ℕ) (p : ℤ) → has j (after p) ≡ (has j (c p) || (eqb_ℤ p (price_of s i) && (j == i)))
  has-after j p = elim (Bool-cases (eqb_ℤ p (price_of s i))) [
    | inl same ↦
        rw (same, eqb_ℤ_sound p (price_of s i) same)
          (ground (arith, has-append j (c (price_of s i)) (i ∷ [])))
    | inr other ↦ rw other (ground arith)
  ]

  only : (p : ℤ) → has i (c p) ≡ true → p ≡ price_of s i
  only p m = only_new h wide i n (price_of s i) p m

  -- the band's list of orders, with the new one
  fresh_in_band : has i bs ≡ false
  fresh_in_band = elim (Bool-cases (has i bs)) [
    | inl m ↦ absurd (false≢true (sym (n.absent _) ∙ (h.band_sound i m).1))
    | inr out ↦ out
  ]

  module _ (inside : in_band ld (price_of s i) ≡ true) where
    level : PriceLevel
    level = band_level ld (price_of s i)

    ref : LevelIdx
    ref = band (offset_of ld (price_of s i))

    pub slots' : Slots
    slots' = (pushed_in_band ld s i).1

    joined : IsFifo (push_back level s i).0 slots' (c (price_of s i) ++ i ∷ [])
    unfolding slots' pushed_in_band level ref
    joined = pushed-IsFifo h wide i n level (h.in_levels (price_of s i) inside) ref

    touched : Touched s slots' i (c (price_of s i)) ref
    unfolding slots' pushed_in_band level ref
    touched = pushed-Touched h wide i n level (h.in_levels (price_of s i) inside) ref

    same_price : (j : ℕ) → (slots' j).price_ticks ≡ (s j).price_ticks
    same_price j = ap (λ o. o.price_ticks) (touched.data_same j)

    in_band_sound :
        (j : ℕ)
        → has j (i ∷ bs) ≡ true
        → (in_band ld (s j).price_ticks ≡ true) × (has j (after (s j).price_ticks) ≡ true)
    in_band_sound j m = elim (Bool-cases (j == i)) [
      | inl same ↦
          subst
            (λ k. (in_band ld (s k).price_ticks ≡ true) × (has k (after (s k).price_ticks) ≡ true))
            (ground arith)
            (inside, ground (arith, has-after i (price_of s i), eqb_ℤ_refl (price_of s i)))
      | inr other ↦ ground (arith, h.band_sound j, has-after j (s j).price_ticks)
    ]

    pub in_band-Holds : Holds (pushed_in_band ld s i).0 slots' after (i ∷ bs)
    unfolding pushed_in_band level ref in_band offset_of
    in_band-Holds = record {
      in_levels =
          touched_levels h slots' i (price_of s i) ref touched only (push_back level s i).0
            (c (price_of s i) ++ i ∷ []) inside joined;
      in_overflow =
          untouched_overflow h slots' i (price_of s i) ref touched only (c (price_of s i) ++ i ∷ [])
            inside;
      outside = h.outside;
      sorted = h.sorted;
      rests = λ p j m.
          Rests-ladder ld (pushed_in_band ld s i).0
            (touched-Rests h slots' i (price_of s i) ref touched only (c (price_of s i) ++ i ∷ [])
              (pushed_Rests h wide i n slots' ref touched (rw inside refl)) p j m)
            refl refl;
      best =
          improve-BestIs ld c (price_of s i) (c (price_of s i) ++ i ∷ []) inside (is_nil-append _ i)
            ld.best_offset h.best;
      band_distinct = (fresh_in_band, h.band_distinct);
      band_sound = λ j m. rw (same_price j) (in_band_sound j m);
      band_complete = λ p j e m. ground (arith, has-after j p, h.band_complete p j);
      band_count = omega (arith, h.band_count, band_length h);
    }

  module _ (out : in_band ld (price_of s i) ≡ false) where
    level_out : PriceLevel
    level_out = overflow_level ld (price_of s i)

    pub out_slots : Slots
    out_slots = (pushed_out_of_band ld s i).1

    -- the entry that is there, or a fresh one
    joins : IsFifo level_out s (c (price_of s i))
    unfolding level_out
    joins = go (lookup (price_of s i) ld.overflow_levels) (h.in_overflow (price_of s i) out)
      where
        go :
            (o : Option PriceLevel)
            → OverIs s (c (price_of s i)) o
            → IsFifo (level_or_empty o) s (c (price_of s i))
        go none e = subst (IsFifo _ s) (sym (eq_nil (c (price_of s i)) e)) (empty-IsFifo s)
        go (some l) e = e.0

    joined_out : IsFifo (push_back level_out s i).0 out_slots (c (price_of s i) ++ i ∷ [])
    unfolding out_slots pushed_out_of_band level_out
    joined_out = pushed-IsFifo h wide i n level_out joins overflow

    Touched-out : Touched s out_slots i (c (price_of s i)) overflow
    unfolding out_slots pushed_out_of_band level_out
    Touched-out = pushed-Touched h wide i n level_out joins overflow

    out_price : (j : ℕ) → (out_slots j).price_ticks ≡ (s j).price_ticks
    out_price j = ap (λ o. o.price_ticks) (Touched-out.data_same j)

    -- nothing changes in the band
    after_in_band : (p : ℤ) → in_band ld p ≡ true → after p ≡ c p
    after_in_band p e = elim (Bool-cases (eqb_ℤ p (price_of s i))) [
      | inl same ↦ absurd (false≢true (sym out ∙ rw (← eqb_ℤ_sound p (price_of s i) same) e))
      | inr other ↦ rw other refl
    ]

    out-BestIs : (l : Link) → BestIs ld c l → BestIs ld after l
    out-BestIs none b = λ p e. rw (after_in_band p e) (b p e)
    out-BestIs (some o) b = (
      b.0,
      rw (after_in_band (ld.low_price +ℤ pos o) (price_offset ld o b.0).0) b.1,
      λ p e ne. b.2 p e (rw (after_in_band p e) at ne),
    )

    out-outside :
        (p : ℤ) (l : PriceLevel)
        → lookup p (put (before sell) (price_of s i) (push_back level_out s i).0 ld.overflow_levels)
          ≡ some l
        → in_band ld p ≡ false
    out-outside p l e = elim (Bool-cases (eqb_ℤ p (price_of s i))) [
      | inl same ↦ rw (eqb_ℤ_sound p (price_of s i) same) out
      | inr other ↦ h.outside p l (rw (lookup-put, other) at e)
    ]

    pub out_of_band-Holds : Holds (pushed_out_of_band ld s i).0 out_slots after bs
    unfolding pushed_out_of_band level_out in_band offset_of
    out_of_band-Holds = record {
      in_levels =
          untouched_levels h out_slots i (price_of s i) overflow Touched-out only
            (c (price_of s i) ++ i ∷ []) out;
      in_overflow = λ p e. rw lookup-put (
          touched_overflow h out_slots i (price_of s i) overflow Touched-out only
            (some (push_back level_out s i).0) (c (price_of s i) ++ i ∷ [])
            (joined_out, is_nil-append (c (price_of s i)) i) p e);
      outside = out-outside;
      sorted =
          put-IsSorted sell (price_of s i) (push_back level_out s i).0 ld.overflow_levels h.sorted;
      rests = λ p j m.
          Rests-ladder ld (pushed_out_of_band ld s i).0
            (touched-Rests h out_slots i (price_of s i) overflow Touched-out only
              (c (price_of s i) ++ i ∷ [])
              (pushed_Rests h wide i n out_slots overflow Touched-out (rw out refl)) p j m)
            refl refl;
      best = out-BestIs ld.best_offset h.best;
      band_distinct = h.band_distinct;
      band_sound =
          λ j m. rw (out_price j) (ground (arith, h.band_sound j, has-after j (s j).price_ticks));
      band_complete = λ p j e m. h.band_complete p j e (rw (after_in_band p e) at m);
      band_count = h.band_count;
    }

  -- A push of a fresh order keeps the ladder's invariant: the order comes last at its price, and all
  -- other lists stay.
  pub push_order-Holds :
      Holds
        (push_order ld s i).0
        (push_order ld s i).1
        (put_at c (s i).price_ticks (c (s i).price_ticks ++ i ∷ []))
        (band_push ld (s i).price_ticks i bs)
  unfolding pushed_in_band slots' pushed_out_of_band out_slots
  push_order-Holds = elim (Bool-cases (in_band ld (price_of s i))) [
    | inl inside ↦ rw (push_in_band ld s i inside, inside) (in_band-Holds inside)
    | inr out ↦ rw (push_out_of_band ld s i out, out) (out_of_band-Holds out)
  ]

  -- It writes the slot of the order, and links of orders at its price.
  pub push_order-Touched :
      Touched s (push_order ld s i).1 i (c (s i).price_ticks) (level_ref ld (s i).price_ticks)
  unfolding pushed_in_band slots' ref pushed_out_of_band out_slots
  push_order-Touched = elim (Bool-cases (in_band ld (price_of s i))) [
    | inl inside ↦ rw (push_in_band ld s i inside, inside) (touched inside)
    | inr out ↦ rw (push_out_of_band ld s i out, out) (Touched-out out)
  ]
