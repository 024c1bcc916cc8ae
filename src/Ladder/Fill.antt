-- ===== src/Ladder/Fill.antt =====
-- A partial fill: the order's open quantity and its level's total shrink by the same amount, and the
-- order keeps its place.
use low_latency_orderbook.Prelude.{
  ℕ, ℤ, pos, ◌+ℤ◌, eqb_ℤ, eqb_ℤ_sound, eqb_ℤ_refl, ◌+◌, ◌-◌, ◌%◌, ◌^◌, ◌≤◌, ◌<◌, ◌≡◌, ◌≢◌, refl,
  sym, ap, ◌∙◌, true, false, Bool-cases, inl, inr, Option, none, some, List, [], ◌∷◌, arith, has,
  Distinct, length, update, update_self, update_ne,
}
use mathlib.Core.Bool.{false≢true}
use low_latency_orderbook.Types.{sell}
use low_latency_orderbook.Level.{Slots, PriceLevel}
use low_latency_orderbook.Level.Fifo.{IsFifo, IsFifo-same, IsWide, total, total-small}
use low_latency_orderbook.Level.Seg.{Seg-frame}
use low_latency_orderbook.Map.{before, lookup, put}
use low_latency_orderbook.Map.Sorted.{lookup-put, put-IsSorted}
use low_latency_orderbook.Ladder.{
  PriceLadder, in_band, offset_of, level_or_empty, level_at, set_level_at,
}
use low_latency_orderbook.Ladder.Price.{offset_price}
use low_latency_orderbook.Ladder.Holds.{
  Contents, Rests, OverIs, OverIs-frame, Holds, Holds-length, one_price, occupied_of_mem,
}

-- the slots with `left` open in the slot `i`, and a level whose total lost `fill`
abbrev pub filled : Slots → ℕ → ℕ → Slots
filled s i left = update s i (record (s i) { remaining = left })

abbrev pub debited : PriceLevel → ℕ → PriceLevel
debited level fill = record level { total_qty = (level.total_qty + 2 ^ 64 - fill) % 2 ^ 64 }

total-other :
    (s : Slots) (i left : ℕ) (xs : List ℕ)
    → has i xs ≡ false
    → total (filled s i left) xs ≡ total s xs
unfolding total
total-other s i left [] out = refl
total-other s i left (x ∷ xs) out = ground (arith, total-other s i left xs)

-- The sum over distinct slots shrinks by what one of them lost.
total-filled :
    (s : Slots) (i left fill : ℕ) (xs : List ℕ)
    → Distinct xs
    → has i xs ≡ true
    → left + fill ≡ (s i).remaining
    → total (filled s i left) xs + fill ≡ total s xs
unfolding total
total-filled s i left fill [] d m e = absurd (false≢true m)
total-filled s i left fill (x ∷ xs) d m e =
    ground (arith, total-other s i left xs, total-filled s i left fill xs d.1, d.0)

debited-IsFifo :
    {level : PriceLevel} (s : Slots) (i left fill : ℕ) (xs : List ℕ)
    → IsFifo level s xs
    → IsWide s
    → length xs < 2 ^ 31
    → has i xs ≡ true
    → left + fill ≡ (s i).remaining
    → IsFifo (debited level fill) (filled s i left) xs
debited-IsFifo {level} s i left fill xs f wide room m e = record {
  links =
      Seg-frame s (filled s i left) none level.head_idx xs level.tail_idx none f.links
        (λ j m'. ground arith);
  distinct = f.distinct;
  count = f.count;
  qty =
      omega
        (arith, f.qty, total-filled s i left fill xs f.distinct m e, total-small s wide xs room);
}

-- The level of an occupied price.
pub level_at-IsFifo :
    {ld : PriceLadder} {s : Slots} {c : Contents} {bs : List ℕ} (h : Holds ld s c bs) (q : ℤ)
    (i : ℕ)
    → has i (c q) ≡ true
    → IsFifo (level_at ld q) s (c q)
unfolding level_at
level_at-IsFifo {ld} {s} {c} h q i m = elim (Bool-cases (in_band ld q)) [
  | inl inside ↦ rw inside (h.in_levels q inside)
  | inr out ↦ rw out (go (lookup q ld.overflow_levels) (h.in_overflow q out))
]
  where
    go : (o : Option PriceLevel) → OverIs s (c q) o → IsFifo (level_or_empty o) s (c q)
    go none e = absurd (false≢true (sym (occupied_of_mem (c q) i m) ∙ e))
    go (some level) e = e.0

module _ {ld : PriceLadder} {s : Slots} {c : Contents} {bs : List ℕ} (h : Holds ld s c bs)
    (wide : IsWide s) (q : ℤ) (i left fill : ℕ) (m : has i (c q) ≡ true) (some_left : 1 ≤ left)
    (parts : left + fill ≡ (s i).remaining) where
  -- the orders of other prices keep their slots
  unfilled : (p : ℤ) → eqb_ℤ p q ≡ false → (j : ℕ) → has j (c p) ≡ true → filled s i left j ≡ s j
  unfilled p ne j m' =
      update_ne s i (record (s i) { remaining = left }) j
        (λ e. differ (one_price h p q i (rw e m') m))
    where
      differ : p ≡ q → ⊥
      differ e = false≢true (sym ne ∙ rw e (eqb_ℤ_refl q))

  fixed_fields :
      (j : ℕ)
      → ((filled s i left j).price_ticks ≡ (s j).price_ticks)
        × ((filled s i left j).side ≡ (s j).side)
        × ((filled s i left j).level_idx ≡ (s j).level_idx)
        × (1 ≤ (s j).remaining → 1 ≤ (filled s i left j).remaining)
        × ((filled s i left j).qty ≡ (s j).qty)
        × ((filled s i left j).remaining ≤ (s j).remaining)
  fixed_fields j = ground arith

  filled-Rests : (p : ℤ) (j : ℕ) → has j (c p) ≡ true → Rests ld (filled s i left j) p j
  filled-Rests p j m' =
      let r = h.rests p j m' in
      let f = fixed_fields j in
      record {
        price = f.0 ∙ r.price;
        side = f.1 ∙ r.side;
        level = f.2 ∙ r.level;
        open_qty = f.3 r.open_qty;
        within_qty = omega (arith, f.4, f.5, r.within_qty);
        index = r.index;
      }

  now_IsFifo : IsFifo (debited (level_at ld q) fill) (filled s i left) (c q)
  now_IsFifo =
      debited-IsFifo s i left fill (c q) (level_at-IsFifo h q i m) wide (Holds-length h q) m parts

  fill_band :
      in_band ld q ≡ true
      → Holds
          (record ld { levels = update ld.levels (offset_of ld q) (debited (level_at ld q) fill) })
          (filled s i left)
          c
          bs
  unfolding in_band offset_of
  fill_band inside = record {
    in_levels = λ p e. elim (Bool-cases (eqb_ℤ p q)) [
      | inl same ↦
          rw (eqb_ℤ_sound p q same)
            (rw (update_self ld.levels (offset_of ld q) (debited (level_at ld q) fill)) now_IsFifo)
      | inr other ↦
          rw
            (update_ne ld.levels (offset_of ld q) (debited (level_at ld q) fill) (offset_of ld p)
              (apart p e other))
            (IsFifo-same s (filled s i left) (c p) (h.in_levels p e) (unfilled p other))
    ];
    in_overflow = λ p e.
        OverIs-frame s (filled s i left) (c p) (lookup p ld.overflow_levels) (h.in_overflow p e)
          (unfilled p (out_ne p e));
    outside = h.outside;
    sorted = h.sorted;
    rests = λ p j m'.
        let r = filled-Rests p j m' in
        record {
          price = r.price;
          side = r.side;
          level = r.level;
          open_qty = r.open_qty;
          within_qty = r.within_qty;
          index = r.index;
        };
    best = h.best;
    band_distinct = h.band_distinct;
    band_sound = λ j m'. rw (fixed_fields j).0 (h.band_sound j m');
    band_complete = h.band_complete;
    band_count = h.band_count;
  }
    where
      apart : (p : ℤ) → in_band ld p ≡ true → eqb_ℤ p q ≡ false → offset_of ld q ≢ offset_of ld p
      apart p e ne same = false≢true (sym ne ∙ rw at_q (eqb_ℤ_refl q))
        where
          at_q : p ≡ q
          at_q =
              sym (offset_price ld p e).0
              ∙ ap (λ o. ld.low_price +ℤ pos o) (sym same)
              ∙ (offset_price ld q inside).0

      out_ne : (p : ℤ) → in_band ld p ≡ false → eqb_ℤ p q ≡ false
      out_ne p e = elim (Bool-cases (eqb_ℤ p q)) [
        | inl same ↦ absurd (false≢true (sym e ∙ rw (eqb_ℤ_sound p q same) inside))
        | inr other ↦ other
      ]

  -- the level of an occupied price outside the band is an overflow entry
  fill_overflow :
      in_band ld q ≡ false
      → Holds
          (record ld {
            overflow_levels = put (before sell) q (debited (level_at ld q) fill) ld.overflow_levels;
          })
          (filled s i left)
          c
          bs
  unfolding in_band offset_of
  fill_overflow out = record {
    in_levels =
        λ p e. IsFifo-same s (filled s i left) (c p) (h.in_levels p e) (unfilled p (in_ne p e));
    in_overflow = λ p e.
        rw (lookup-put sell p q (debited (level_at ld q) fill) ld.overflow_levels)
          (elim (Bool-cases (eqb_ℤ p q)) [
            | inl same ↦ rw same (rw (eqb_ℤ_sound p q same) (now_IsFifo, occupied_of_mem (c q) i m))
            | inr other ↦ rw other (
                OverIs-frame s (filled s i left) (c p) (lookup p ld.overflow_levels)
                  (h.in_overflow p e) (unfilled p other))
          ]);
    outside = λ p l e. elim (Bool-cases (eqb_ℤ p q)) [
      | inl same ↦ rw (eqb_ℤ_sound p q same) out
      | inr other ↦
          h.outside p l
            (rw (lookup-put sell p q (debited (level_at ld q) fill) ld.overflow_levels, other) at e)
    ];
    sorted = put-IsSorted sell q (debited (level_at ld q) fill) ld.overflow_levels h.sorted;
    rests = λ p j m'.
        let r = filled-Rests p j m' in
        record {
          price = r.price;
          side = r.side;
          level = r.level;
          open_qty = r.open_qty;
          within_qty = r.within_qty;
          index = r.index;
        };
    best = h.best;
    band_distinct = h.band_distinct;
    band_sound = λ j m'. rw (fixed_fields j).0 (h.band_sound j m');
    band_complete = h.band_complete;
    band_count = h.band_count;
  }
    where
      in_ne : (p : ℤ) → in_band ld p ≡ true → eqb_ℤ p q ≡ false
      in_ne p e = elim (Bool-cases (eqb_ℤ p q)) [
        | inl same ↦ absurd (false≢true (sym out ∙ rw (← eqb_ℤ_sound p q same) e))
        | inr other ↦ other
      ]

  -- A partial fill of an order at `q` keeps the ladder's invariant, with all lists as they were.
  pub set_level_at-Holds :
      Holds (set_level_at ld q (debited (level_at ld q) fill)) (filled s i left) c bs
  unfolding set_level_at
  set_level_at-Holds = elim (Bool-cases (in_band ld q)) [
    | inl inside ↦ rw inside (fill_band inside)
    | inr out ↦ rw out (fill_overflow out)
  ]

pub side-set_level_at :
    (ld : PriceLadder) (q : ℤ) (level : PriceLevel) → (set_level_at ld q level).side ≡ ld.side
unfolding set_level_at
side-set_level_at ld q level = ground arith
