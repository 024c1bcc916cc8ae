-- ===== src/Ladder/RemoveOrder.antt =====
-- `PriceLadder::remove_order`: the order leaves the list of its price, and the invariant stays.
use low_latency_orderbook.Prelude.{
  ℕ, ℤ, pos, ◌+ℤ◌, eqb_ℤ, eqb_ℤ_sound, ◌≡◌, ◌≢◌, refl, sym, ap, subst, ◌∙◌, true, false, Bool-cases,
  inl, inr, Option, none, some, List, arith, has, erase, has-erase, if◌then◌else◌,
}
use mathlib.Core.Bool.{false≢true}
use low_latency_orderbook.Types.{sell}
use low_latency_orderbook.Pool.{Link, unset}
use low_latency_orderbook.Level.{Slots, PriceLevel, is_empty, unlink}
use low_latency_orderbook.Level.Fifo.{IsFifo, IsWide, is_empty_iff}
use low_latency_orderbook.Map.{PriceMap, before, lookup, put, remove}
use low_latency_orderbook.Map.Sorted.{
  IsSorted, lookup-put, lookup-remove, put-IsSorted, remove-IsSorted,
}
use low_latency_orderbook.Ladder.{
  PriceLadder, in_band, offset_of, remove_in_band, remove_overflow, remove_order,
}
use low_latency_orderbook.Ladder.Price.{price_offset}
use low_latency_orderbook.Ladder.Holds.{
  Contents, put_at, Rests, Rests-ladder, OverIs, BestIs, Holds, Holds-Distinct, Holds-length,
  occupied_of_mem, one_price,
}
use low_latency_orderbook.Ladder.Touched.{
  Touched, untouched_levels, touched_overflow, touched-Rests, kept-Rests,
}
use low_latency_orderbook.Ladder.Unlinked.{unlinked, unlinked-Touched, left-IsFifo}
use low_latency_orderbook.Ladder.RemoveBand
use low_latency_orderbook.Ladder.RemoveBand.{left, has-left}

-- the overflow map with the level of `q` written back, or erased where it is empty
abbrev pub settled : ℤ → PriceLevel → PriceMap PriceLevel → PriceMap PriceLevel
settled q level m = if is_empty level then remove q m else put (before sell) q level m

abbrev pub entry : PriceLevel → Option PriceLevel
entry level = if is_empty level then none else some level

lookup-settled :
    (p q : ℤ) (level : PriceLevel) (m : PriceMap PriceLevel)
    → IsSorted sell m
    → lookup p (settled q level m) ≡ (if eqb_ℤ p q then entry level else lookup p m)
lookup-settled p q level m o = elim (Bool-cases (is_empty level)) [
  | inl e ↦ rw e (lookup-remove sell p q m o)
  | inr e ↦ rw e (lookup-put sell p q level m)
]

settled-IsSorted :
    (q : ℤ) (level : PriceLevel) (m : PriceMap PriceLevel)
    → IsSorted sell m
    → IsSorted sell (settled q level m)
settled-IsSorted q level m o = elim (Bool-cases (is_empty level)) [
  | inl e ↦ rw e (remove-IsSorted sell q m o)
  | inr e ↦ rw e (put-IsSorted sell q level m o)
]

entry-OverIs :
    (level : PriceLevel) (s : Slots) (xs : List ℕ) → IsFifo level s xs → OverIs s xs (entry level)
entry-OverIs level s xs f = elim (Bool-cases (is_empty level)) [
  | inl e ↦ rw e (sym (is_empty_iff xs f) ∙ e)
  | inr e ↦ rw e (f, sym (is_empty_iff xs f) ∙ e)
]

module _ {ld : PriceLadder} {s : Slots} {c : Contents} {bs : List ℕ} (h : Holds ld s c bs)
    (wide : IsWide s) (i : ℕ) (m : has i (c (s i).price_ticks) ≡ true) where
  -- where the order's price is outside the band
  module _ (out : in_band ld (s i).price_ticks ≡ false) (level : PriceLevel)
      (found : lookup (s i).price_ticks ld.overflow_levels ≡ some level) where
    f : IsFifo level s (c (s i).price_ticks)
    f = (subst (OverIs s (c (s i).price_ticks)) found (h.in_overflow (s i).price_ticks out)).0

    pub slots' : Slots
    slots' = unlinked level s i (c (s i).price_ticks) f m unset

    pub ladder' : PriceLadder
    ladder' = record ld {
      overflow_levels = settled (s i).price_ticks (unlink level s i).0 ld.overflow_levels;
    }

    remove_overflow-found : remove_overflow ld s i ≡ (ladder', slots')
    unfolding remove_overflow ladder' slots'
    remove_overflow-found = rw (found, remove_overflow) refl

    touched : Touched s slots' i (c (s i).price_ticks) unset
    unfolding slots'
    touched = unlinked-Touched level s i (c (s i).price_ticks) f m unset

    shorter : IsFifo (unlink level s i).0 slots' (erase i (c (s i).price_ticks))
    unfolding slots'
    shorter =
        left-IsFifo level s i (c (s i).price_ticks) f m unset wide
          (Holds-length h (s i).price_ticks)

    only : (p : ℤ) → has i (c p) ≡ true → p ≡ (s i).price_ticks
    only p m' = one_price h p (s i).price_ticks i m' m

    -- nothing changes in the band
    left_in_band : (p : ℤ) → in_band ld p ≡ true → left h wide i (s i).price_ticks m p ≡ c p
    left_in_band p e = elim (Bool-cases (eqb_ℤ p (s i).price_ticks)) [
      | inl same ↦ absurd (false≢true (sym out ∙ rw (← eqb_ℤ_sound p (s i).price_ticks same) e))
      | inr other ↦ rw other refl
    ]

    out-BestIs : (l : Link) → BestIs ld c l → BestIs ld (left h wide i (s i).price_ticks m) l
    out-BestIs none b = λ p e. rw (left_in_band p e) (b p e)
    out-BestIs (some o) b = (
      b.0,
      rw (left_in_band (ld.low_price +ℤ pos o) (price_offset ld o b.0).0) b.1,
      λ p e ne. b.2 p e (rw (left_in_band p e) at ne),
    )

    out-outside :
        (p : ℤ) (l : PriceLevel)
        → lookup p (settled (s i).price_ticks (unlink level s i).0 ld.overflow_levels) ≡ some l
        → in_band ld p ≡ false
    out-outside p l e = elim (Bool-cases (eqb_ℤ p (s i).price_ticks)) [
      | inl same ↦ rw (eqb_ℤ_sound p (s i).price_ticks same) out
      | inr other ↦ h.outside p l (
          rw
            (
              lookup-settled p (s i).price_ticks (unlink level s i).0 ld.overflow_levels h.sorted,
              other,
            )
            at e)
    ]

    stays_Rests :
        (j : ℕ)
        → has j (erase i (c (s i).price_ticks)) ≡ true
        → Rests ld (slots' j) (s i).price_ticks j
    stays_Rests j mj =
        kept-Rests h slots' i (s i).price_ticks unset touched only j
          (ground (arith, has-erase i j (c (s i).price_ticks) (Holds-Distinct h (s i).price_ticks)))
          (ground (arith, has-erase i j (c (s i).price_ticks) (Holds-Distinct h (s i).price_ticks)))

    out_price : (j : ℕ) → (slots' j).price_ticks ≡ (s j).price_ticks
    out_price j = ap (λ o. o.price_ticks) (touched.data_same j)

    -- an order of the band is not the one that goes
    in_band_ne : (j : ℕ) → in_band ld (s j).price_ticks ≡ true → i ≢ j
    in_band_ne j e same = false≢true (sym out ∙ rw same e)

    pub remove_overflow-Holds : Holds ladder' slots' (left h wide i (s i).price_ticks m) bs
    unfolding ladder' in_band offset_of
    remove_overflow-Holds = record {
      in_levels =
          untouched_levels h slots' i (s i).price_ticks unset touched only
            (erase i (c (s i).price_ticks)) out;
      in_overflow = λ p e.
          rw (lookup-settled p (s i).price_ticks (unlink level s i).0 ld.overflow_levels h.sorted) (
            touched_overflow h slots' i (s i).price_ticks unset touched only
              (entry (unlink level s i).0) (erase i (c (s i).price_ticks))
              (entry-OverIs (unlink level s i).0 slots' (erase i (c (s i).price_ticks)) shorter) p
              e);
      outside = out-outside;
      sorted = settled-IsSorted (s i).price_ticks (unlink level s i).0 ld.overflow_levels h.sorted;
      rests = λ p j mj.
          Rests-ladder ld ladder'
            (touched-Rests h slots' i (s i).price_ticks unset touched only
              (erase i (c (s i).price_ticks)) stays_Rests p j mj)
            refl refl;
      best = out-BestIs ld.best_offset h.best;
      band_distinct = h.band_distinct;
      band_sound = λ j mj. rw (out_price j) (
          ground (
            arith,
            h.band_sound j,
            in_band_ne j,
            has-left h wide i (s i).price_ticks m j (s j).price_ticks,
          ));
      band_complete = λ p j e mj. h.band_complete p j e (rw (left_in_band p e) at mj);
      band_count = h.band_count;
    }

  -- the entry that an order outside the band rests in
  entry_found :
      in_band ld (s i).price_ticks ≡ false
      → (level : PriceLevel) × (lookup (s i).price_ticks ld.overflow_levels ≡ some level)
  entry_found out =
      go (lookup (s i).price_ticks ld.overflow_levels) (h.in_overflow (s i).price_ticks out)
    where
      go :
          (o : Option PriceLevel)
          → OverIs s (c (s i).price_ticks) o
          → (level : PriceLevel) × (o ≡ some level)
      go none e = absurd (false≢true (sym (occupied_of_mem (c (s i).price_ticks) i m) ∙ e))
      go (some level) e = (level, refl)

  remove_order-band :
      in_band ld (s i).price_ticks ≡ true
      → remove_order ld s i ≡ remove_in_band ld s i (offset_of ld (s i).price_ticks)
  unfolding remove_order
  remove_order-band inside = rw ((h.rests (s i).price_ticks i m).level, remove_order, inside) refl

  remove_order-overflow :
      in_band ld (s i).price_ticks ≡ false → remove_order ld s i ≡ remove_overflow ld s i
  unfolding remove_order
  remove_order-overflow out = rw ((h.rests (s i).price_ticks i m).level, remove_order, out) refl

  abbrev pub bs_left : List ℕ
  bs_left = if in_band ld (s i).price_ticks then erase i bs else bs

  -- The removal of a resting order keeps the ladder's invariant: the order leaves the list of its
  -- price, wherever in it the order stands, and all other lists stay.
  pub remove_order-Holds :
      Holds
        (remove_order ld s i).0
        (remove_order ld s i).1
        (put_at c (s i).price_ticks (erase i (c (s i).price_ticks)))
        bs_left
  unfolding RemoveBand.slots' ladder' slots'
  remove_order-Holds = elim (Bool-cases (in_band ld (s i).price_ticks)) [
    | inl inside ↦
        rw (remove_order-band inside, inside)
          (RemoveBand.remove_in_band-Holds h wide i (s i).price_ticks m inside)
    | inr out ↦
        let (level, found) = entry_found out in
        rw (remove_order-overflow out, remove_overflow-found out level found, out)
          (remove_overflow-Holds out level found)
  ]

  -- It writes the order's slot, and links of orders at its price.
  pub remove_order-Touched : Touched s (remove_order ld s i).1 i (c (s i).price_ticks) unset
  unfolding RemoveBand.slots' slots'
  remove_order-Touched = elim (Bool-cases (in_band ld (s i).price_ticks)) [
    | inl inside ↦
        rw (remove_order-band inside) (RemoveBand.touched h wide i (s i).price_ticks m inside)
    | inr out ↦
        let (level, found) = entry_found out in
        rw (remove_order-overflow out, remove_overflow-found out level found)
          (touched out level found)
  ]
