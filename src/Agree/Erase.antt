-- ===== src/Agree/Erase.antt =====
-- `NaiveBook::EraseOrder` drops from its level the order that the book unlinks.
use low_latency_orderbook.Prelude.{
  ℕ, ℤ, eqb_ℤ, ◌≡◌, refl, sym, ap, ◌∙◌, true, false, ◌==◌, Bool-cases, inl, inr, Option, none, some,
  List, [], ◌∷◌, arith, has, erase, if◌then◌else◌,
}
use mathlib.Core.Bool.{false≢true}
use low_latency_orderbook.Types.{Side}
use low_latency_orderbook.Level.{Slots}
use low_latency_orderbook.Ladder.Holds.{Contents}
use low_latency_orderbook.Map.{PriceMap, lookup, is_nil}
use low_latency_orderbook.Map.Sorted.{
  IsSorted, lookup-put, lookup-remove, put-IsSorted, remove-IsSorted,
}
use low_latency_orderbook.Naive.{
  Level, level_or_nil, order_at, erase_at, put_or_remove, erase_order,
}
use low_latency_orderbook.Agree.Mirror.{naive_of, locator_of, orders_of}
use low_latency_orderbook.Agree.Remove.{Shrunk}

module _ (s : Slots) (i : ℕ) where
  -- the slots of the list carry the order's id only at `i`
  abbrev pub OnlyId : List ℕ → Type 0
  OnlyId xs = (j : ℕ) → has j xs ≡ true → (s i).order_id ≡ (s j).order_id → i ≡ j

  pub order_at_lem :
      (xs : List ℕ)
      → has i xs ≡ true
      → OnlyId xs
      → order_at (s i).order_id (orders_of s xs) ≡ some (naive_of (s i))
  unfolding order_at
  order_at_lem [] m only = absurd (false≢true m)
  order_at_lem (x ∷ xs) m only = elim (Bool-cases ((s i).order_id == (s x).order_id)) [
    | inl same ↦
        rw same (ap (λ k. some (naive_of (s k))) (sym (only x (ground arith) (ground arith))))
    | inr other ↦ rw other (order_at_lem xs (ground arith) (λ j m'. only j (ground arith)))
  ]

  pub erase_at_lem :
      (xs : List ℕ)
      → OnlyId xs
      → erase_at (s i).order_id (orders_of s xs) ≡ orders_of s (erase i xs)
  unfolding erase_at
  erase_at_lem [] only = refl
  erase_at_lem (x ∷ xs) only = elim (Bool-cases (i == x)) [
    | inl same ↦ ground arith
    | inr other ↦ ground (arith, only x, erase_at_lem xs (λ j m'. only j (ground arith)))
  ]

module _ (side : Side) (q : ℤ) (m : PriceMap Level) (o : IsSorted side m) where
  level-put_or_remove :
      (l : Level) (p : ℤ)
      → level_or_nil (lookup p (put_or_remove side q l m))
        ≡ (if eqb_ℤ p q then l else level_or_nil (lookup p m))
  level-put_or_remove [] p = rw (lookup-remove side p q m o) (ground arith)
  level-put_or_remove (x ∷ l) p = rw (lookup-put side p q (x ∷ l) m) (ground arith)

  occupied-put_or_remove :
      ((p : ℤ) (l : Level) → lookup p m ≡ some l → is_nil l ≡ false)
      → (l : Level) (p : ℤ) (l' : Level) → lookup p (put_or_remove side q l m) ≡ some l'
      → is_nil l' ≡ false
  occupied-put_or_remove h [] p l' e = h p l' (ground (arith, lookup-remove side p q m o))
  occupied-put_or_remove h (x ∷ l) p l' e = elim (Bool-cases (eqb_ℤ p q)) [
    | inl same ↦ ground (arith, lookup-put side p q (x ∷ l) m)
    | inr other ↦ h p l' (ground (arith, lookup-put side p q (x ∷ l) m))
  ]

  put_or_remove-IsSorted : (l : Level) → IsSorted side (put_or_remove side q l m)
  put_or_remove-IsSorted [] = remove-IsSorted side q m o
  put_or_remove-IsSorted (x ∷ l) = put-IsSorted side q (x ∷ l) m o

-- a level that holds orders is there
pub found_level : (o : Option Level) → is_nil (level_or_nil o) ≡ false → (l : Level) × (o ≡ some l)
found_level none e = absurd (cc)
found_level (some l) e = (l, refl)

pub nonempty_orders :
    (s : Slots) (i : ℕ) (xs : List ℕ) → has i xs ≡ true → is_nil (orders_of s xs) ≡ false
nonempty_orders s i [] m = absurd (false≢true m)
nonempty_orders s i (x ∷ xs) m = refl

-- The map after `EraseOrder` has lost exactly the order of the slot `i`.
pub erase_order-Shrunk :
    (s : Slots) (i : ℕ) (cs : Contents) (m : PriceMap Level)
    → has i (cs (s i).price_ticks) ≡ true
    → OnlyId s i (cs (s i).price_ticks)
    → ((p : ℤ) → level_or_nil (lookup p m) ≡ orders_of s (cs p))
    → ((p : ℤ) (l : Level) → lookup p m ≡ some l → is_nil l ≡ false)
    → IsSorted (s i).side m
    → Shrunk s cs (s i).price_ticks i (s i).side m (erase_order (s i).side (locator_of (s i)) m)
unfolding erase_order
erase_order-Shrunk s i cs m mem only level occupied sorted =
    let (l, e) =
      found_level (lookup (s i).price_ticks m)
        (rw (level (s i).price_ticks) (nonempty_orders s i (cs (s i).price_ticks) mem)) in
    rw (e, erase_order)
      (record {
        level = λ p.
            level-put_or_remove (s i).side (s i).price_ticks m sorted (erase_at (s i).order_id l) p
            ∙ ap (λ (x : Level). if eqb_ℤ p (s i).price_ticks then x else level_or_nil (lookup p m))
                (rest l e);
        occupied =
            occupied-put_or_remove (s i).side (s i).price_ticks m sorted occupied
              (erase_at (s i).order_id l);
        sorted =
            put_or_remove-IsSorted (s i).side (s i).price_ticks m sorted
              (erase_at (s i).order_id l);
      })
  where
    rest :
        (l : Level)
        → lookup (s i).price_ticks m ≡ some l
        → erase_at (s i).order_id l ≡ orders_of s (erase i (cs (s i).price_ticks))
    rest l e =
        ap (erase_at (s i).order_id) (ap level_or_nil (sym e) ∙ level (s i).price_ticks)
        ∙ erase_at_lem s i (cs (s i).price_ticks) only
