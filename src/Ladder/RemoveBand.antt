-- ===== src/Ladder/RemoveBand.antt =====
-- `PriceLadder::remove_order` for an order of the band: its level loses it, and the cursor moves on
-- where that emptied the best level.
use low_latency_orderbook.Prelude.{
  ℕ, ℤ, pos, ◌+ℤ◌, eqb_ℤ, eqb_ℤ_sound, eqb_ℤ_refl, ◌+◌, ◌-◌, ◌%◌, ◌^◌, ◌<◌, ◌≡◌, ◌≢◌, refl, sym, ap,
  subst, ◌∙◌, ◌==◌, ◌&&◌, not, true, false, Bool-cases, inl, inr, none, some, List, arith, has,
  length, update, erase, has-erase, Distinct-erase, length-erase_mem, length-pos_of_mem,
  if◌then◌else◌,
}
use mathlib.Core.Bool.{false≢true}
use low_latency_orderbook.Pool.{Link, unset}
use low_latency_orderbook.Level.{Slots, PriceLevel, is_empty, unlink}
use low_latency_orderbook.Level.Fifo.{IsFifo, IsWide, is_empty_iff}
use low_latency_orderbook.Map.{before, is_nil}
use low_latency_orderbook.Map.Sorted.{before_of_ne}
use low_latency_orderbook.Ladder.{
  PriceLadder, in_band, offset_of, is_better, is_at, advance_best, remove_in_band,
}
use low_latency_orderbook.Ladder.Price.{offset_price, price_offset, is_better-before}
use low_latency_orderbook.Ladder.Holds.{
  Contents, put_at, Rests, Rests-ladder, BestIs, Holds, Holds-Distinct, Holds-length, band_length,
  mem_of_ne_nil, occupied_of_mem, one_price,
}
use low_latency_orderbook.Ladder.Touched.{
  Touched, touched_levels, untouched_overflow, touched-Rests, kept-Rests,
}
use low_latency_orderbook.Ladder.Unlinked.{unlinked-Touched, left-IsFifo}
use low_latency_orderbook.Ladder.Advance.{Advanced, advance_best-Advanced}

module _ {ld : PriceLadder} {s : Slots} {c : Contents} {bs : List ℕ} (h : Holds ld s c bs)
    (wide : IsWide s) (i : ℕ) (q : ℤ) (m : has i (c q) ≡ true) where
  abbrev pub left : Contents
  left = put_at c q (erase i (c q))

  -- who rests where afterwards
  pub has-left : (j : ℕ) (p : ℤ) → has j (left p) ≡ (has j (c p) && not (i == j))
  has-left j p = elim (Bool-cases (eqb_ℤ p q)) [
    | inl same ↦ rw (same, eqb_ℤ_sound p q same) (has-erase i j (c q) (Holds-Distinct h q))
    | inr other ↦ rw other (ground (arith, stays other))
  ]
    where
      stays : eqb_ℤ p q ≡ false → has j (c p) ≡ true → i ≢ j
      stays other mj e = false≢true (sym other ∙ rw (one_price h p q i (rw e mj) m) (eqb_ℤ_refl q))

  -- A price that is occupied afterwards was occupied before.
  pub occupied_before : (p : ℤ) → is_nil (left p) ≡ false → is_nil (c p) ≡ false
  occupied_before p ne =
      let (j, mj) = mem_of_ne_nil (left p) ne in
      occupied_of_mem (c p) j (ground (arith, has-left j p, mj))

  module _ (inside : in_band ld q ≡ true) where
    off : ℕ
    off = offset_of ld q

    level : PriceLevel
    level = ld.levels (offset_of ld q)

    unfoldable pub slots' : Slots
    slots' = (remove_in_band ld s i (offset_of ld q)).1

    levels' : ℕ → PriceLevel
    levels' = update ld.levels (offset_of ld q) (unlink (ld.levels (offset_of ld q)) s i).0

    pub touched : Touched s slots' i (c q) unset
    unfolding slots' remove_in_band
    touched = unlinked-Touched (ld.levels (offset_of ld q)) s i (c q) (h.in_levels q inside) m unset

    shorter : IsFifo (unlink (ld.levels (offset_of ld q)) s i).0 slots' (erase i (c q))
    unfolding slots' remove_in_band
    shorter =
        left-IsFifo (ld.levels (offset_of ld q)) s i (c q) (h.in_levels q inside) m unset wide
          (Holds-length h q)

    only : (p : ℤ) → has i (c p) ≡ true → p ≡ q
    only p m' = one_price h p q i m' m

    in_levels' : (p : ℤ) → in_band ld p ≡ true → IsFifo (levels' (offset_of ld p)) slots' (left p)
    unfolding levels'
    in_levels' =
        touched_levels h slots' i q unset touched only (unlink (ld.levels (offset_of ld q)) s i).0
          (erase i (c q)) inside shorter

    -- an offset's level is empty exactly if its price is
    empty_level_iff :
        (o : ℕ) → o < ld.size → is_empty (levels' o) ≡ is_nil (left (ld.low_price +ℤ pos o))
    empty_level_iff o k =
        let e = price_offset ld o k in
        subst (λ t. is_empty (levels' t) ≡ is_nil (left (ld.low_price +ℤ pos o))) e.1
          (is_empty_iff (left (ld.low_price +ℤ pos o)) (in_levels' _ e.0))

    -- if `q` was the best price of the band and is empty now, the others are worse
    module _ (at_best : ld.best_offset ≡ some (offset_of ld q))
        (emptied : is_nil (erase i (c q)) ≡ true) where
      worse :
          (p : ℤ)
          → in_band ld p ≡ true
          → is_nil (left p) ≡ false
          → is_better ld.side (offset_of ld q) (offset_of ld p) ≡ true
      worse p e ne =
          rw
            (
              is_better-before ld.side ld.low_price (offset_of ld q) (offset_of ld p),
              (offset_price ld q inside).0,
              (offset_price ld p e).0,
            )
            (before_of_ne ld.side p q differ not_better)
        where
          differ : eqb_ℤ p q ≡ false
          differ = elim (Bool-cases (eqb_ℤ p q)) [
            | inl same ↦ absurd (false≢true (sym (rw same at ne) ∙ emptied))
            | inr other ↦ other
          ]

          best : BestIs ld c (some (offset_of ld q))
          best = subst (BestIs ld c) at_best h.best

          not_better : before ld.side p q ≡ false
          not_better =
              subst (λ t. before ld.side p t ≡ false) (offset_price ld q inside).0
                (best.2 p e (occupied_before p ne))

      -- a level that is found empty contradicts an order at its price
      none_there :
          (p : ℤ)
          → in_band ld p ≡ true
          → is_nil (left p) ≡ false
          → is_empty (levels' (offset_of ld p)) ≡ true
          → ⊥
      none_there p e ne found =
          false≢true (sym ne ∙ sym (is_empty_iff (left p) (in_levels' p e)) ∙ found)

      Advanced-BestIs :
          (l : Link) → Advanced ld.side levels' ld.size (offset_of ld q) l → BestIs ld left l
      Advanced-BestIs none a = λ p e. elim (Bool-cases (is_nil (left p))) [
        | inl nil ↦ nil
        | inr ne ↦
            absurd (none_there p e ne (a (offset_of ld p) (offset_price ld p e).1 (worse p e ne)))
      ]
      Advanced-BestIs (some b) a = (
        a.0,
        sym (empty_level_iff b a.0) ∙ a.1,
        λ p e ne. elim (Bool-cases (before ld.side p (ld.low_price +ℤ pos b))) [
          | inl better ↦ absurd (
              none_there p e ne (
                a.2 (offset_of ld p) (offset_price ld p e).1 (worse p e ne) (
                  rw
                    (
                      is_better-before ld.side ld.low_price (offset_of ld p) b,
                      (offset_price ld p e).0,
                    )
                    better)))
          | inr not_better ↦ not_better
        ],
      )

    at_offset : (o : ℕ) → o < ld.size → ld.low_price +ℤ pos o ≡ q → offset_of ld q ≡ o
    at_offset o k e = rw (← e) ((price_offset ld o k).1)

    -- where the level keeps orders, or was not the best, the cursor stays
    kept-BestIs :
        (l : Link)
        → BestIs ld c l
        → (is_nil (erase i (c q)) && is_at l (offset_of ld q)) ≡ false
        → BestIs ld left l
    kept-BestIs none b k = absurd (false≢true (sym (occupied_of_mem (c q) i m) ∙ b q inside))
    kept-BestIs (some o) b k = (
      b.0,
      elim (Bool-cases (eqb_ℤ (ld.low_price +ℤ pos o) q)) [
        | inl same ↦ rw same (ground (arith, k, at_offset o b.0 (eqb_ℤ_sound _ q same)))
        | inr other ↦ rw other b.1
      ],
      λ p e ne. b.2 p e (occupied_before p ne),
    )

    -- the band's orders after the removal
    band_left : (j : ℕ) → has j (erase i bs) ≡ (has j bs && not (i == j))
    band_left j = has-erase i j bs h.band_distinct

    in_list : has i bs ≡ true
    in_list = h.band_complete q i inside m

    count' : (ld.band_orders + 2 ^ 32 - 1) % 2 ^ 32 ≡ length (erase i bs)
    count' = omega (arith, h.band_count, band_length h, length-erase_mem i bs in_list)

    none_left : length (erase i bs) ≡ 0 → BestIs ld left none
    none_left e p inside' = elim (Bool-cases (is_nil (left p))) [
      | inl nil ↦ nil
      | inr ne ↦ absurd (gone (mem_of_ne_nil (left p) ne))
    ]
      where
        gone : (j : ℕ) × (has j (left p) ≡ true) → ⊥
        gone (j, mj) = omega (
          arith,
          length-pos_of_mem j (erase i bs)
              (ground (arith, band_left j, has-left j p, h.band_complete p j inside')),
        )

    -- The cursor after the removal is at the best level again.
    cursor : Link
    cursor =
        if is_nil (erase i (c q)) && is_at ld.best_offset (offset_of ld q)
        then (if length (erase i bs) == 0
            then none
            else advance_best ld.side levels' ld.size (offset_of ld q))
        else ld.best_offset

    cursor-BestIs : BestIs ld left cursor
    unfolding cursor
    cursor-BestIs =
        elim (Bool-cases (is_nil (erase i (c q)) && is_at ld.best_offset (offset_of ld q))) [
          | inr keep ↦ rw keep (kept-BestIs ld.best_offset h.best keep)
          | inl move ↦ elim (Bool-cases (length (erase i bs) == 0)) [
            | inl drained ↦ rw (move, drained) (none_left (ground arith))
            | inr more ↦
                rw (move, more)
                  (Advanced-BestIs (is_at-some move) (ground arith)
                    (advance_best ld.side levels' ld.size (offset_of ld q))
                    (advance_best-Advanced ld.side levels' ld.size (offset_of ld q)
                      (offset_price ld q inside).1))
          ]
        ]
      where
        is_at-some :
            (is_nil (erase i (c q)) && is_at ld.best_offset (offset_of ld q)) ≡ true
            → ld.best_offset ≡ some (offset_of ld q)
        is_at-some e = ground arith

    cursor_lem : (remove_in_band ld s i (offset_of ld q)).0.best_offset ≡ cursor
    unfolding remove_in_band cursor levels'
    cursor_lem = rw (is_empty_iff (erase i (c q)) shorter, count') refl

    same_price : (j : ℕ) → (slots' j).price_ticks ≡ (s j).price_ticks
    same_price j = ap (λ o. o.price_ticks) (touched.data_same j)

    stays_Rests : (j : ℕ) → has j (erase i (c q)) ≡ true → Rests ld (slots' j) q j
    stays_Rests j mj =
        kept-Rests h slots' i q unset touched only j
          (ground (arith, has-erase i j (c q) (Holds-Distinct h q)))
          (ground (arith, has-erase i j (c q) (Holds-Distinct h q)))

    pub remove_in_band-Holds :
        Holds (remove_in_band ld s i (offset_of ld q)).0 slots' left (erase i bs)
    unfolding remove_in_band levels' in_band offset_of
    remove_in_band-Holds = record {
      in_levels = in_levels';
      in_overflow = untouched_overflow h slots' i q unset touched only (erase i (c q)) inside;
      outside = h.outside;
      sorted = h.sorted;
      rests = λ p j mj.
          Rests-ladder ld (remove_in_band ld s i (offset_of ld q)).0
            (touched-Rests h slots' i q unset touched only (erase i (c q)) stays_Rests p j mj) refl
            refl;
      best = subst (BestIs ld left) (sym cursor_lem) cursor-BestIs;
      band_distinct = Distinct-erase i bs h.band_distinct;
      band_sound = λ j mj.
          rw (same_price j)
            (ground (arith, h.band_sound j, band_left j, has-left j (s j).price_ticks));
      band_complete = λ p j e mj. ground (arith, band_left j, has-left j p, h.band_complete p j);
      band_count = count';
    }
