-- ===== src/Map/Sorted.antt =====
-- The laws of ordered maps: a lookup after each operation, and the order of the entries.
use low_latency_orderbook.Prelude.{
  ℤ, ◌≡◌, refl, true, false, none, some, [], ◌∷◌, eqb_ℤ, eqb_ℤ_sound, eqb_ℤ_refl, eq_of_parts,
  if◌then◌else◌, arith, Bool-cases, inl, inr,
}
use low_latency_orderbook.Types.{Side, buy, sell}
use low_latency_orderbook.Map.{PriceMap, before, lookup, put, remove, last_key}

-- every key of the map comes behind `k`
abbrev pub Behind : {V : Type 0} → Side → ℤ → PriceMap V → Type 0
Behind side k [] = Unit {0}
Behind side k ((j, v) ∷ m) = (before side k j ≡ true) × Behind side k m

abbrev pub IsSorted : {V : Type 0} → Side → PriceMap V → Type 0
IsSorted side [] = Unit {0}
IsSorted side ((k, v) ∷ m) = Behind side k m × IsSorted side m

pub before_trans :
    (side : Side) (a b c : ℤ)
    → before side a b ≡ true
    → before side b c ≡ true
    → before side a c ≡ true
before_trans buy a b c h k = ground arith
before_trans sell a b c h k = ground arith

pub before_irrefl : (side : Side) (a : ℤ) → before side a a ≡ false
before_irrefl buy a = ground arith
before_irrefl sell a = ground arith

-- Of two keys neither of which comes before the other, both are the same.
pub before-antisym :
    (side : Side) (a b : ℤ) → before side a b ≡ false → before side b a ≡ false → a ≡ b
before-antisym buy a b h k = eq_of_parts a b (ground arith)
before-antisym sell a b h k = eq_of_parts a b (ground arith)

pub before-asymm : (side : Side) (a b : ℤ) → before side a b ≡ true → before side b a ≡ false
before-asymm buy a b h = ground arith
before-asymm sell a b h = ground arith

pub before_of_ne :
    (side : Side) (a b : ℤ) → eqb_ℤ a b ≡ false → before side a b ≡ false → before side b a ≡ true
before_of_ne buy a b h k = ground arith
before_of_ne sell a b h k = ground arith

module _ {V : Type 0} (side : Side) where
  pub Behind-trans :
      (a b : ℤ) (m : PriceMap V) → before side a b ≡ true → Behind side b m → Behind side a m
  Behind-trans a b [] h r = tt
  Behind-trans a b ((j, v) ∷ m) h r = (before_trans side a b j h r.0, Behind-trans a b m h r.1)

  pub before_of_lookup :
      (k j : ℤ) (m : PriceMap V) {v : V}
      → Behind side k m
      → lookup j m ≡ some v
      → before side k j ≡ true
  unfolding lookup
  before_of_lookup k j [] r e = absurd (cc)
  before_of_lookup k j ((i, w) ∷ m) {v} r e =
      ground (arith, eqb_ℤ_sound j i, before_of_lookup k j m {v = v} r.1)

  pub lookup-put :
      (j k : ℤ) (v : V) (m : PriceMap V)
      → lookup j (put (before side) k v m) ≡ (if eqb_ℤ j k then some v else lookup j m)
  unfolding lookup put
  lookup-put j k v [] = refl
  lookup-put j k v ((i, w) ∷ m) = ground (arith, lookup-put j k v m)

  -- the entries behind a key do not hold it
  pub lookup_of_Behind :
      (k j : ℤ) (m : PriceMap V) → Behind side k m → before side k j ≡ false → lookup j m ≡ none
  unfolding lookup
  lookup_of_Behind k j [] r h = refl
  lookup_of_Behind k j ((i, w) ∷ m) r h =
      ground (arith, eqb_ℤ_sound j i, lookup_of_Behind k j m r.1, r.0)

  pub lookup-remove :
      (j k : ℤ) (m : PriceMap V)
      → IsSorted side m
      → lookup j (remove k m) ≡ (if eqb_ℤ j k then none else lookup j m)
  unfolding lookup remove
  lookup-remove j k [] o = ground arith
  lookup-remove j k ((i, w) ∷ m) o = ground (
    arith,
    lookup-remove j k m o.1,
    eqb_ℤ_sound k i,
    eqb_ℤ_sound j k,
    lookup_of_Behind i i m o.0 (before_irrefl side i),
  )

  pub put-Behind :
      (a k : ℤ) (v : V) (m : PriceMap V)
      → Behind side a m
      → before side a k ≡ true
      → Behind side a (put (before side) k v m)
  unfolding put
  put-Behind a k v [] r h = (h, tt)
  put-Behind a k v ((i, w) ∷ m) r h = ground (arith, put-Behind a k v m r.1)

  pub put-IsSorted :
      (k : ℤ) (v : V) (m : PriceMap V) → IsSorted side m → IsSorted side (put (before side) k v m)
  unfolding put
  put-IsSorted k v [] o = (tt, tt)
  put-IsSorted k v ((i, w) ∷ m) o = ground (
    arith,
    eqb_ℤ_sound k i,
    Behind-trans k i m,
    before_of_ne side k i,
    put-Behind i k v m o.0,
    put-IsSorted k v m o.1,
  )

  pub remove-Behind : (a k : ℤ) (m : PriceMap V) → Behind side a m → Behind side a (remove k m)
  unfolding remove
  remove-Behind a k [] r = tt
  remove-Behind a k ((i, w) ∷ m) r = ground (arith, remove-Behind a k m r.1)

  pub remove-IsSorted : (k : ℤ) (m : PriceMap V) → IsSorted side m → IsSorted side (remove k m)
  unfolding remove
  remove-IsSorted k [] o = tt
  remove-IsSorted k ((i, w) ∷ m) o =
      ground (arith, remove-Behind i k m o.0, remove-IsSorted k m o.1)

  -- The first entry is the best one: no key comes before it.
  pub first_is_best :
      (k j : ℤ) (v w : V) (m : PriceMap V)
      → IsSorted side ((k, v) ∷ m)
      → lookup j ((k, v) ∷ m) ≡ some w
      → before side j k ≡ false
  unfolding lookup
  first_is_best k j v w m o e = elim (Bool-cases (eqb_ℤ j k)) [
    | inl same ↦ rw (eqb_ℤ_sound j k same) (before_irrefl side k)
    | inr other ↦ before-asymm side k j (before_of_lookup k j m {v = w} o.0 (rw other at e))
  ]

pub lookup-first : {V : Type 0} (k : ℤ) (v : V) (m : PriceMap V) → lookup k ((k, v) ∷ m) ≡ some v
unfolding lookup
lookup-first k v m = rw (eqb_ℤ_refl k)

lookup-cons :
    {V : Type 0} (j k : ℤ) (v : V) (m : PriceMap V)
    → lookup j ((k, v) ∷ m) ≡ (if eqb_ℤ j k then some v else lookup j m)
unfolding lookup
lookup-cons j k v m = refl

-- The last key of an ascending map is there, and no key comes behind it.
pub lookup-last :
    {V : Type 0} (k : ℤ) (v : V) (m : PriceMap V)
    → (w : V) × (lookup (last_key k m) ((k, v) ∷ m) ≡ some w)
lookup-last k v [] = (v, lookup-first k v [])
lookup-last k v ((i, u) ∷ m) =
    let (w, e) = lookup-last i u m in
    elim (Bool-cases (eqb_ℤ (last_key i m) k)) [
      | inl same ↦ (v, rw (lookup-cons, same) refl)
      | inr other ↦ (w, rw (lookup-cons, other) e)
    ]

pub last_is_best :
    {V : Type 0} (k j : ℤ) (v w : V) (m : PriceMap V)
    → IsSorted sell ((k, v) ∷ m)
    → lookup j ((k, v) ∷ m) ≡ some w
    → before buy j (last_key k m) ≡ false
unfolding lookup
last_is_best k j v w [] o e = ground arith
last_is_best k j v w ((i, u) ∷ m) o e = elim (Bool-cases (eqb_ℤ j k)) [
  | inl same ↦ ground (arith, last_is_best i i u u m o.1 (lookup-first i u m), o.0.0)
  | inr other ↦ last_is_best i j u w m o.1 (rw other at e)
]

pub not_before_trans :
    (side : Side) (a b c : ℤ)
    → before side a b ≡ false
    → before side b c ≡ false
    → before side a c ≡ false
not_before_trans buy a b c h k = ground arith
not_before_trans sell a b c h k = ground arith
