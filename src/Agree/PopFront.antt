-- ===== src/Agree/PopFront.antt =====
-- `pop_front` of the best level of a reference map, which goes with its last order.
use low_latency_orderbook.Prelude.{
  ℤ, eqb_ℤ, eqb_ℤ_sound, ◌≡◌, refl, sym, ap, ◌∙◌, true, false, Bool-cases, inl, inr, none, some, [],
  ◌∷◌, arith, if◌then◌else◌,
}
use low_latency_orderbook.Types.{Side}
use low_latency_orderbook.Map.{PriceMap, lookup, is_nil}
use low_latency_orderbook.Map.Sorted.{IsSorted, before_irrefl, before_of_lookup, lookup_of_Behind}
use low_latency_orderbook.Naive.{Level, level_or_nil, pop_front}

pub lookup-entry :
    (p q : ℤ) (l : Level) (m : PriceMap Level)
    → level_or_nil (lookup p ((q, l) ∷ m)) ≡ (if eqb_ℤ p q then l else level_or_nil (lookup p m))
unfolding lookup
lookup-entry p q l m = ground arith

module _ (side : Side) (q : ℤ) (x : Level) (m : PriceMap Level)
    (o : IsSorted side ((q, x) ∷ m)) where
  lookup-gone : lookup q m ≡ none
  lookup-gone = lookup_of_Behind side q q m o.0 (before_irrefl side q)

  -- The level that is left stands where the first entry stood, and all others are as before.
  pub lookup-pop_front :
      (l : Level) (p : ℤ)
      → level_or_nil (lookup p (pop_front q l m))
        ≡ (if eqb_ℤ p q then l else level_or_nil (lookup p ((q, x) ∷ m)))
  lookup-pop_front [] p = elim (Bool-cases (eqb_ℤ p q)) [
    | inl same ↦ rw (same, eqb_ℤ_sound p q same, lookup-gone) refl
    | inr other ↦ rw (lookup-entry p q x m, other) refl
  ]
  lookup-pop_front (order ∷ l) p =
      rw (lookup-entry p q (order ∷ l) m, lookup-entry p q x m) (ground arith)

  behind-occupied :
      ((p : ℤ) (l : Level) → lookup p ((q, x) ∷ m) ≡ some l → is_nil l ≡ false)
      → (p : ℤ) (l : Level) → lookup p m ≡ some l
      → is_nil l ≡ false
  unfolding lookup
  behind-occupied h p l e = h p l (rw (not_first (before_of_lookup side q p m {v = l} o.0 e)) e)
    where
      not_first : low_latency_orderbook.Map.before side q p ≡ true → eqb_ℤ p q ≡ false
      not_first b = elim (Bool-cases (eqb_ℤ p q)) [
        | inl same ↦ absurd (
            mathlib.Core.Bool.false≢true (
              sym (before_irrefl side q)
              ∙ ap (low_latency_orderbook.Map.before side q) (sym (eqb_ℤ_sound p q same))
              ∙ b))
        | inr other ↦ other
      ]

  pub occupied-entry :
      ((p : ℤ) (l : Level) → lookup p ((q, x) ∷ m) ≡ some l → is_nil l ≡ false)
      → (l : Level) → is_nil l ≡ false
      → (p : ℤ) (l' : Level) → lookup p ((q, l) ∷ m) ≡ some l'
      → is_nil l' ≡ false
  unfolding lookup
  occupied-entry h l ne p l' e = elim (Bool-cases (eqb_ℤ p q)) [
    | inl same ↦ ground arith
    | inr other ↦ behind-occupied h p l' (rw other at e)
  ]

  pub occupied-pop_front :
      ((p : ℤ) (l : Level) → lookup p ((q, x) ∷ m) ≡ some l → is_nil l ≡ false)
      → (l : Level) (p : ℤ) (l' : Level) → lookup p (pop_front q l m) ≡ some l'
      → is_nil l' ≡ false
  occupied-pop_front h [] p l' e = behind-occupied h p l' e
  occupied-pop_front h (order ∷ l) p l' e = occupied-entry h (order ∷ l) refl p l' e

  pub pop_front-IsSorted : (l : Level) → IsSorted side (pop_front q l m)
  pop_front-IsSorted [] = o.1
  pop_front-IsSorted (order ∷ l) = (o.0, o.1)
