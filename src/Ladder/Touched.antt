-- ===== src/Ladder/Touched.antt =====
-- What one level operation on one price leaves: `push_order` and `remove_order` touch the slot `i`
-- and the links of the orders at the price `q`, and so keep the lists of all other prices.
use low_latency_orderbook.Prelude.{
  ℕ, ℤ, pos, ◌+ℤ◌, eqb_ℤ, eqb_ℤ_sound, eqb_ℤ_refl, ◌≡◌, ◌≢◌, sym, ap, subst, ◌∙◌, true, false,
  Bool-cases, inl, inr, Option, none, List, has, update, update_self, update_ne, if◌then◌else◌,
}
use mathlib.Core.Bool.{false≢true}
use low_latency_orderbook.Pool.{LevelIdx, Order, unset}
use low_latency_orderbook.Level.{Slots, PriceLevel}
use low_latency_orderbook.Level.Fifo.{IsWide, IsFifo, IsFifo-same}
use low_latency_orderbook.Map.{lookup}
use low_latency_orderbook.Ladder.{PriceLadder, in_band, offset_of}
use low_latency_orderbook.Ladder.Price.{offset_price}
use low_latency_orderbook.Ladder.Holds.{
  Contents, put_at, Rests, OverIs, OverIs-frame, Holds, one_price,
}

-- an order without what a ladder operation may write: its list links and its level
abbrev pub fixed : Order → Order
fixed o = record o { prev_idx = none; next_idx = none; level_idx = unset }

pub record Touched (s s' : Slots) (i : ℕ) (xs : List ℕ) (ref : LevelIdx) : Type 0 where
  pub same : (j : ℕ) → has j xs ≡ false → i ≢ j → s' j ≡ s j
  pub data_same : (j : ℕ) → fixed (s' j) ≡ fixed (s j)
  pub level_same : (j : ℕ) → i ≢ j → (s' j).level_idx ≡ (s j).level_idx
  pub level_self : (s' i).level_idx ≡ ref

module _ {ld : PriceLadder} {s : Slots} {c : Contents} {bs : List ℕ} (h : Holds ld s c bs)
    (s' : Slots) (i : ℕ) (q : ℤ) (ref : LevelIdx) (t : Touched s s' i (c q) ref)
    (only : (p : ℤ) → has i (c p) ≡ true → p ≡ q) where
  -- The orders of other prices are not touched.
  pub other_same : (p : ℤ) → eqb_ℤ p q ≡ false → (j : ℕ) → has j (c p) ≡ true → s' j ≡ s j
  other_same p ne j m =
      t.same j
        (elim (Bool-cases (has j (c q))) [
          | inl m' ↦ absurd (differ (one_price h p q j m m'))
          | inr out ↦ out
        ])
        (λ e. differ (only p (rw e m)))
    where
      differ : p ≡ q → ⊥
      differ e = false≢true (sym ne ∙ rw e (eqb_ℤ_refl q))

  -- The levels of the band, with `level` written at `q`.
  pub touched_levels :
      (level : PriceLevel) (xs' : List ℕ)
      → in_band ld q ≡ true
      → IsFifo level s' xs'
      → (p : ℤ) → in_band ld p ≡ true
      → IsFifo (update ld.levels (offset_of ld q) level (offset_of ld p)) s' (put_at c q xs' p)
  touched_levels level xs' inside f p e = elim (Bool-cases (eqb_ℤ p q)) [
    | inl same ↦
        rw same (rw (eqb_ℤ_sound p q same) (rw (update_self ld.levels (offset_of ld q) level) f))
    | inr other ↦ rw other (
        rw (update_ne ld.levels (offset_of ld q) level (offset_of ld p) (apart other))
          (IsFifo-same s s' (c p) (h.in_levels p e) (other_same p other)))
  ]
    where
      apart : eqb_ℤ p q ≡ false → offset_of ld q ≢ offset_of ld p
      apart ne same = false≢true (sym ne ∙ rw at_q (eqb_ℤ_refl q))
        where
          at_q : p ≡ q
          at_q =
              sym (offset_price ld p e).0
              ∙ ap (λ o. ld.low_price +ℤ pos o) (sym same)
              ∙ (offset_price ld q inside).0

  -- The levels of the band, where `q` is outside it.
  pub untouched_levels :
      (xs' : List ℕ)
      → in_band ld q ≡ false
      → (p : ℤ) → in_band ld p ≡ true
      → IsFifo (ld.levels (offset_of ld p)) s' (put_at c q xs' p)
  untouched_levels xs' out p e = elim (Bool-cases (eqb_ℤ p q)) [
    | inl same ↦ absurd (false≢true (sym out ∙ rw (← eqb_ℤ_sound p q same) e))
    | inr other ↦ rw other (IsFifo-same s s' (c p) (h.in_levels p e) (other_same p other))
  ]

  -- The overflow entries, with the entry at `q` given.
  pub touched_overflow :
      (entry : Option PriceLevel) (xs' : List ℕ)
      → OverIs s' xs' entry
      → (p : ℤ) → in_band ld p ≡ false
      → OverIs s' (put_at c q xs' p) (if eqb_ℤ p q then entry else lookup p ld.overflow_levels)
  touched_overflow entry xs' f p e = elim (Bool-cases (eqb_ℤ p q)) [
    | inl same ↦ rw same f
    | inr other ↦ rw other (
        OverIs-frame s s' (c p) (lookup p ld.overflow_levels) (h.in_overflow p e)
          (other_same p other))
  ]

  -- The overflow entries, where `q` is in the band.
  pub untouched_overflow :
      (xs' : List ℕ)
      → in_band ld q ≡ true
      → (p : ℤ) → in_band ld p ≡ false
      → OverIs s' (put_at c q xs' p) (lookup p ld.overflow_levels)
  untouched_overflow xs' inside p e = elim (Bool-cases (eqb_ℤ p q)) [
    | inl same ↦ absurd (false≢true (sym e ∙ rw (eqb_ℤ_sound p q same) inside))
    | inr other ↦ rw other (
        OverIs-frame s s' (c p) (lookup p ld.overflow_levels) (h.in_overflow p e)
          (other_same p other))
  ]

  -- The orders, with those at `q` given.
  pub touched-Rests :
      (xs' : List ℕ)
      → ((j : ℕ) → has j xs' ≡ true → Rests ld (s' j) q j)
      → (p : ℤ) (j : ℕ) → has j (put_at c q xs' p) ≡ true
      → Rests ld (s' j) p j
  touched-Rests xs' f p j m = elim (Bool-cases (eqb_ℤ p q)) [
    | inl same ↦ rw (eqb_ℤ_sound p q same) (f j (rw same at m))
    | inr other ↦
        let m' : has j (c p) ≡ true = rw other at m in
        subst (λ o. Rests ld o p j) (sym (other_same p other j m')) (h.rests p j m')
  ]

  -- An order that stays at `q` rests there still.
  pub kept-Rests : (j : ℕ) → has j (c q) ≡ true → i ≢ j → Rests ld (s' j) q j
  kept-Rests j m ne =
      let r = h.rests q j m in
      record {
        price = ap (λ o. o.price_ticks) (t.data_same j) ∙ r.price;
        side = ap (λ o. o.side) (t.data_same j) ∙ r.side;
        level = t.level_same j ne ∙ r.level;
        open_qty = rw (ap (λ o. o.remaining) (t.data_same j)) r.open_qty;
        within_qty =
            rw (ap (λ o. o.remaining) (t.data_same j), ap (λ o. o.qty) (t.data_same j))
              r.within_qty;
        index = r.index;
      }

-- A touched store is as wide as before.
pub Touched-IsWide :
    {s s' : Slots} {i : ℕ} {xs : List ℕ} {ref : LevelIdx}
    → Touched s s' i xs ref
    → IsWide s
    → IsWide s'
Touched-IsWide t w j = rw (ap (λ o. o.remaining) (t.data_same j)) (w j)
