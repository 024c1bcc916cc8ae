-- ===== src/Ladder/Holds.antt =====
-- What a ladder represents: at each price the FIFO list of the slots that rest there. `Holds` is the
-- invariant that `PriceLadder::check_invariants` asserts, with the lists named: every level is the
-- FIFO of its price, every order knows its price, side and level, the cursor is at the best level of
-- the band, overflow levels are outside the band and not empty, and `band_orders_` counts the
-- orders in the band (listed in `bs`).
use low_latency_orderbook.Prelude.{
  ℕ, ℤ, pos, ◌+ℤ◌, eqb_ℤ, ◌-◌, ◌^◌, ◌≤◌, ◌<◌, ◌≡◌, refl, sym, subst, ◌∙◌, true, false, Bool-cases,
  inl, inr, Option, none, some, List, [], ◌∷◌, arith, has, Distinct, length, pigeonhole,
  if◌then◌else◌,
}
use low_latency_orderbook.Types.{Side, sell}
use low_latency_orderbook.Pool.{Link, LevelIdx, Order, overflow, band}
use low_latency_orderbook.Level.{Slots, PriceLevel}
use low_latency_orderbook.Level.Fifo.{IsFifo, IsFifo-same}
use low_latency_orderbook.Map.{before, lookup, is_nil}
use low_latency_orderbook.Map.Sorted.{IsSorted, before-antisym}
use low_latency_orderbook.Ladder.{PriceLadder, in_band, offset_of}

abbrev pub Contents : Type 0
Contents = ℤ → List ℕ

-- the contents with `xs` at the price `q`
abbrev pub put_at : Contents → ℤ → List ℕ → Contents
put_at c q xs p = if eqb_ℤ p q then xs else c p

-- the value of `level_idx` for an order that rests at `q`
abbrev pub level_ref : PriceLadder → ℤ → LevelIdx
level_ref ld q = if in_band ld q then band (offset_of ld q) else overflow

pub record Rests (ld : PriceLadder) (o : Order) (q : ℤ) (i : ℕ) : Type 0 where
  pub price : o.price_ticks ≡ q
  pub side : o.side ≡ ld.side
  pub level : o.level_idx ≡ level_ref ld q
  pub open_qty : 1 ≤ o.remaining
  pub within_qty : o.remaining ≤ o.qty
  pub index : i < 2 ^ 31 - 1

-- an overflow entry, or none, against the list at its price
abbrev pub OverIs : Slots → List ℕ → Option PriceLevel → Type 0
OverIs s xs none = is_nil xs ≡ true
OverIs s xs (some level) = IsFifo level s xs × (is_nil xs ≡ false)

abbrev pub BestIs : PriceLadder → Contents → Link → Type 0
BestIs ld c none = (q : ℤ) → in_band ld q ≡ true → is_nil (c q) ≡ true
BestIs ld c (some b) =
    (b < ld.size)
    × (is_nil (c (ld.low_price +ℤ pos b)) ≡ false)
    × ((q : ℤ)
        → in_band ld q ≡ true
        → is_nil (c q) ≡ false
        → before ld.side q (ld.low_price +ℤ pos b) ≡ false)

pub record Holds (ld : PriceLadder) (s : Slots) (c : Contents) (bs : List ℕ) : Type 0 where
  pub in_levels : (q : ℤ) → in_band ld q ≡ true → IsFifo (ld.levels (offset_of ld q)) s (c q)
  pub in_overflow : (q : ℤ) → in_band ld q ≡ false → OverIs s (c q) (lookup q ld.overflow_levels)
  pub outside :
      (q : ℤ) (level : PriceLevel) → lookup q ld.overflow_levels ≡ some level → in_band ld q ≡ false
  pub sorted : IsSorted sell ld.overflow_levels
  pub rests : (q : ℤ) (i : ℕ) → has i (c q) ≡ true → Rests ld (s i) q i
  pub best : BestIs ld c ld.best_offset
  pub band_distinct : Distinct bs
  pub band_sound :
      (i : ℕ)
      → has i bs ≡ true
      → (in_band ld (s i).price_ticks ≡ true) × (has i (c (s i).price_ticks) ≡ true)
  pub band_complete : (q : ℤ) (i : ℕ) → in_band ld q ≡ true → has i (c q) ≡ true → has i bs ≡ true
  pub band_count : ld.band_orders ≡ length bs

-- A best price of the side: orders rest there, and at no better price.
pub record IsBest (side : Side) (c : Contents) (p : ℤ) : Type 0 where
  pub occupied : is_nil (c p) ≡ false
  pub no_better : (q : ℤ) → is_nil (c q) ≡ false → before side q p ≡ false

pub IsBest-unique :
    {side : Side} {c : Contents} (p p' : ℤ) → IsBest side c p → IsBest side c p' → p ≡ p'
IsBest-unique {side} p p' b b' =
    before-antisym side p p' (b'.no_better p b.occupied) (b.no_better p' b'.occupied)

pub mem_of_ne_nil : (xs : List ℕ) → is_nil xs ≡ false → (i : ℕ) × (has i xs ≡ true)
mem_of_ne_nil [] h = absurd (cc)
mem_of_ne_nil (x ∷ xs) h = (x, ground arith)

pub occupied_of_mem : (xs : List ℕ) (i : ℕ) → has i xs ≡ true → is_nil xs ≡ false
occupied_of_mem [] i m = absurd (cc)
occupied_of_mem (x ∷ xs) i m = refl

pub eq_nil : (xs : List ℕ) → is_nil xs ≡ true → xs ≡ []
eq_nil [] h = refl
eq_nil (x ∷ xs) h = absurd (cc)

pub OverIs-Distinct :
    (s : Slots) (xs : List ℕ) (o : Option PriceLevel) → OverIs s xs o → Distinct xs
OverIs-Distinct s xs none h = rw (eq_nil xs h) tt
OverIs-Distinct s xs (some level) h = h.0.distinct

pub OverIs-frame :
    (s s' : Slots) (xs : List ℕ) (o : Option PriceLevel)
    → OverIs s xs o
    → ((i : ℕ) → has i xs ≡ true → s' i ≡ s i)
    → OverIs s' xs o
OverIs-frame s s' xs none h same = h
OverIs-frame s s' xs (some level) h same = (IsFifo-same s s' xs h.0 same, h.1)

module _ {ld : PriceLadder} {s : Slots} {c : Contents} {bs : List ℕ} (h : Holds ld s c bs) where
  -- a level's list, whichever level it is
  pub Holds-Distinct : (q : ℤ) → Distinct (c q)
  Holds-Distinct q = elim (Bool-cases (in_band ld q)) [
    | inl e ↦ (h.in_levels q e).distinct
    | inr e ↦ OverIs-Distinct s (c q) (lookup q ld.overflow_levels) (h.in_overflow q e)
  ]

  -- No level and no band holds 2^31 orders.
  pub Holds-length : (q : ℤ) → length (c q) < 2 ^ 31
  Holds-length q =
      omega (arith, pigeonhole (2 ^ 31 - 1) (c q) (Holds-Distinct q) (λ i m. (h.rests q i m).index))

  pub band_length : length bs < 2 ^ 31
  band_length = omega (
    arith,
    pigeonhole (2 ^ 31 - 1) bs h.band_distinct
        (λ i m. (h.rests (s i).price_ticks i (h.band_sound i m).1).index),
  )

  -- An order rests at one price only.
  pub one_price : (q q' : ℤ) (i : ℕ) → has i (c q) ≡ true → has i (c q') ≡ true → q ≡ q'
  one_price q q' i m m' = sym (h.rests q i m).price ∙ (h.rests q' i m').price

  -- The ladder survives any change that spares the slots of its orders.
  pub Holds-frame :
      (s' : Slots) → ((q : ℤ) (i : ℕ) → has i (c q) ≡ true → s' i ≡ s i) → Holds ld s' c bs
  Holds-frame s' same = record {
    in_levels = λ q e. IsFifo-same s s' (c q) (h.in_levels q e) (same q);
    in_overflow =
        λ q e. OverIs-frame s s' (c q) (lookup q ld.overflow_levels) (h.in_overflow q e) (same q);
    outside = h.outside;
    sorted = h.sorted;
    rests = λ q i m. subst (λ o. Rests ld o q i) (sym (same q i m)) (h.rests q i m);
    best = h.best;
    band_distinct = h.band_distinct;
    band_sound = λ i m.
        let e = h.band_sound i m in
        subst (λ o. (in_band ld o.price_ticks ≡ true) × (has i (c o.price_ticks) ≡ true))
          (sym (same (s i).price_ticks i e.1)) e;
    band_complete = h.band_complete;
    band_count = h.band_count;
  }

-- Whether an order rests right depends on the ladder's side and band alone.
pub Rests-ladder :
    (ld ld' : PriceLadder) {o : Order} {q : ℤ} {i : ℕ}
    → Rests ld o q i
    → ld.side ≡ ld'.side
    → level_ref ld q ≡ level_ref ld' q
    → Rests ld' o q i
Rests-ladder ld ld' r e f = record {
  price = r.price;
  side = r.side ∙ e;
  level = r.level ∙ f;
  open_qty = r.open_qty;
  within_qty = r.within_qty;
  index = r.index;
}
