-- ===== src/Ladder/Push.antt =====
-- The parts of `PriceLadder::push_order`: the level that the order joins, the orders at its price
-- afterwards, and the cursor.
use low_latency_orderbook.Prelude.{
  ℕ, suc, ℤ, pos, ◌+ℤ◌, eqb_ℤ, eqb_ℤ_sound, eqb_ℤ_refl, ◌-◌, ◌^◌, ◌≤◌, ◌<◌, ◌≡◌, refl, sym, ap,
  subst, ◌∙◌, ◌==◌, true, false, Bool-cases, inl, inr, none, some, List, [], ◌∷◌, ◌++◌, arith, has,
  has-append, length, pigeonhole, if◌then◌else◌,
}
use mathlib.Core.Bool.{false≢true}
use low_latency_orderbook.Pool.{Link, LevelIdx}
use low_latency_orderbook.Level.{Slots, PriceLevel, set_level_idx, push_back}
use low_latency_orderbook.Level.Fifo.{IsFifo, IsFifo-frame, IsWide}
use low_latency_orderbook.Level.PushBack.{push_back-core, push_back-frame, push_back-IsFifo}
use low_latency_orderbook.Map.{before, is_nil}
use low_latency_orderbook.Map.Sorted.{before_irrefl, before-asymm, not_before_trans}
use low_latency_orderbook.Ladder.{PriceLadder, in_band, offset_of, improve_best}
use low_latency_orderbook.Ladder.Price.{offset_price, is_better-before}
use low_latency_orderbook.Ladder.Holds.{
  Contents, put_at, Rests, level_ref, BestIs, Holds, Holds-Distinct,
}
use low_latency_orderbook.Ladder.Touched.{Touched, kept-Rests}

-- the write of `level_idx` keeps a FIFO
IsFifo-set_level_idx :
    {level : PriceLevel} (s : Slots) (xs : List ℕ) (i : ℕ) (ref : LevelIdx)
    → IsFifo level s xs
    → IsFifo level (set_level_idx i ref s) xs
IsFifo-set_level_idx s xs i ref f =
    IsFifo-frame s (set_level_idx i ref s) xs f (λ j m. ground arith) (λ j m. ground arith)

pub is_nil-append : (xs : List ℕ) (i : ℕ) → is_nil (xs ++ i ∷ []) ≡ false
is_nil-append [] i = refl
is_nil-append (x ∷ xs) i = refl

-- what is asked of an order that is to rest
pub record IsNew (ld : PriceLadder) (s : Slots) (c : Contents) (i : ℕ) : Type 0 where
  pub absent : (p : ℤ) → has i (c p) ≡ false
  pub unlinked : (s i).next_idx ≡ none
  pub side : (s i).side ≡ ld.side
  pub open_qty : 1 ≤ (s i).remaining
  pub within_qty : (s i).remaining ≤ (s i).qty
  pub index : i < 2 ^ 31 - 1

-- the band's order list after a push
abbrev pub band_push : PriceLadder → ℤ → ℕ → List ℕ → List ℕ
band_push ld q i bs = if in_band ld q then i ∷ bs else bs

improve_best-some :
    (ld : PriceLadder) (q : ℤ) (o : ℕ)
    → in_band ld q ≡ true
    → improve_best ld.side (some o) (offset_of ld q)
      ≡ (if before ld.side q (ld.low_price +ℤ pos o) then some (offset_of ld q) else some o)
unfolding improve_best
improve_best-some ld q o e =
    rw (is_better-before ld.side ld.low_price (offset_of ld q) o, (offset_price ld q e).0) refl

module _ (ld : PriceLadder) (c : Contents) (q : ℤ) (xs : List ℕ) (e : in_band ld q ≡ true)
    (ne : is_nil xs ≡ false) where
  -- `q` is the best price of the band where no other price of it is better.
  new-BestIs :
      ((p : ℤ) → in_band ld p ≡ true → is_nil (c p) ≡ false → before ld.side p q ≡ false)
      → BestIs ld (put_at c q xs) (some (offset_of ld q))
  new-BestIs none_better = rw ((offset_price ld q e).0) (
    (offset_price ld q e).1,
    rw (eqb_ℤ_refl q) ne,
    λ p inside ne'. elim (Bool-cases (eqb_ℤ p q)) [
      | inl same ↦ rw (eqb_ℤ_sound p q same) (before_irrefl ld.side q)
      | inr other ↦ none_better p inside (rw other at ne')
    ],
  )

  old-BestIs :
      (o : ℕ)
      → BestIs ld c (some o)
      → before ld.side q (ld.low_price +ℤ pos o) ≡ false
      → BestIs ld (put_at c q xs) (some o)
  old-BestIs o b not_better = (
    b.0,
    elim (Bool-cases (eqb_ℤ (ld.low_price +ℤ pos o) q)) [
      | inl same ↦ rw same ne
      | inr other ↦ rw other b.1
    ],
    λ p inside ne'. elim (Bool-cases (eqb_ℤ p q)) [
      | inl same ↦ rw (eqb_ℤ_sound p q same) not_better
      | inr other ↦ b.2 p inside (rw other at ne')
    ],
  )

  -- The cursor after a push is at the best level again.
  pub improve-BestIs :
      (l : Link)
      → BestIs ld c l
      → BestIs ld (put_at c q xs) (improve_best ld.side l (offset_of ld q))
  improve-BestIs none b =
      unfold improve_best in
      (new-BestIs (λ p inside ne'. absurd (false≢true (sym ne' ∙ b p inside))))
  improve-BestIs (some o) b = elim (Bool-cases (before ld.side q (ld.low_price +ℤ pos o))) [
    | inl better ↦
        rw (improve_best-some ld q o e, better)
          (new-BestIs (λ p inside ne'.
            not_before_trans ld.side p (ld.low_price +ℤ pos o) q (b.2 p inside ne')
              (before-asymm ld.side q (ld.low_price +ℤ pos o) better)))
    | inr not_better ↦ rw (improve_best-some ld q o e, not_better) (old-BestIs o b not_better)
  ]

module _ {ld : PriceLadder} {s : Slots} {c : Contents} {bs : List ℕ} (h : Holds ld s c bs)
    (wide : IsWide s) (i : ℕ) (n : IsNew ld s c i) where
  -- the level that the order joins, before and after
  module _ (level : PriceLevel) (f : IsFifo level s (c (s i).price_ticks)) (ref : LevelIdx) where
    abbrev pub pushed : Slots
    pushed = set_level_idx i ref (push_back level s i).1

    room : suc (length (c (s i).price_ticks)) < 2 ^ 31
    room = omega (
      arith,
      pigeonhole (2 ^ 31 - 1) (i ∷ c (s i).price_ticks) (n.absent _, Holds-Distinct h _)
          (λ j m. ground (arith, n.index, in_index j)),
    )
      where
        in_index : (j : ℕ) → has j (c (s i).price_ticks) ≡ true → j < 2 ^ 31 - 1
        in_index j m = (h.rests _ j m).index

    pub pushed-IsFifo : IsFifo (push_back level s i).0 pushed (c (s i).price_ticks ++ i ∷ [])
    pushed-IsFifo =
        IsFifo-set_level_idx (push_back level s i).1 (c (s i).price_ticks ++ i ∷ []) i ref
          (push_back-IsFifo level s i (c (s i).price_ticks) f (n.absent _) n.unlinked wide room)

    pub pushed-Touched : Touched s pushed i (c (s i).price_ticks) ref
    pushed-Touched = record {
      same = λ j out ne.
          ground
            (arith, push_back-frame level s i (c (s i).price_ticks) f (n.absent _) n.unlinked j);
      data_same = λ j. ground (arith, push_back-core level s i j);
      level_same = λ j ne. ground (arith, push_back-core level s i j);
      level_self = ground arith;
    }

  pub pushed_Rests :
      (t : Slots) (ref : LevelIdx)
      → Touched s t i (c (s i).price_ticks) ref
      → ref ≡ level_ref ld (s i).price_ticks
      → (j : ℕ) → has j (c (s i).price_ticks ++ i ∷ []) ≡ true
      → Rests ld (t j) (s i).price_ticks j
  pushed_Rests t ref touched e j m = elim (Bool-cases (i == j)) [
    | inl same ↦ subst (λ k. Rests ld (t k) (s i).price_ticks k) (ground arith) self
    | inr other ↦
        kept-Rests h t i (s i).price_ticks ref touched
          (λ p m'. absurd (false≢true (sym (n.absent p) ∙ m'))) j
          (ground (arith, has-append j (c (s i).price_ticks) (i ∷ []))) (ground arith)
  ]
    where
      self : Rests ld (t i) (s i).price_ticks i
      self = record {
        price = ap (λ o. o.price_ticks) (touched.data_same i);
        side = ap (λ o. o.side) (touched.data_same i) ∙ n.side;
        level = touched.level_self ∙ e;
        open_qty = rw (ap (λ o. o.remaining) (touched.data_same i)) n.open_qty;
        within_qty =
            rw (ap (λ o. o.remaining) (touched.data_same i), ap (λ o. o.qty) (touched.data_same i))
              n.within_qty;
        index = n.index;
      }

  pub only_new : (q p : ℤ) → has i (c p) ≡ true → p ≡ q
  only_new q p m = absurd (false≢true (sym (n.absent p) ∙ m))
