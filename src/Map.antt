-- ===== src/Map.antt =====
-- The ordered associative containers of the program, `std::map` with a comparison and
-- `std::unordered_map`, as association lists: what the source uses of them.
pub mod Sorted
pub mod Ids
use low_latency_orderbook.Prelude.{
  ℕ, ℤ, Bool, Option, none, some, List, [], ◌∷◌, eqb_ℤ, ltb_ℤ, if◌then◌else◌, ◌==◌,
}
use low_latency_orderbook.Types.{Side, buy, sell}

-- `std::map<PriceTicks, V>`: its entries in the order of the comparison
abbrev pub PriceMap : Type 0 → Type 0
PriceMap V = List (ℤ × V)

-- the comparison: `std::greater` for bids, `std::less` for asks and for `overflow_`
abbrev pub before : Side → ℤ → ℤ → Bool
before buy a b = ltb_ℤ b a
before sell a b = ltb_ℤ a b

module _ {V : Type 0} where
  unfoldable pub lookup : ℤ → PriceMap V → Option V
  lookup k [] = none
  lookup k ((j, v) ∷ m) = if eqb_ℤ k j then some v else lookup k m

  -- `m[k] = v`; a new entry goes before the first one that the comparison puts behind it
  unfoldable pub put : (ℤ → ℤ → Bool) → ℤ → V → PriceMap V → PriceMap V
  put before k v [] = (k, v) ∷ []
  put before k v ((j, w) ∷ m) =
      if eqb_ℤ k j
      then (k, v) ∷ m
      else if before k j
      then (k, v) ∷ (j, w) ∷ m
      else (j, w) ∷ put before k v m

  unfoldable pub remove : ℤ → PriceMap V → PriceMap V
  remove k [] = []
  remove k ((j, v) ∷ m) = if eqb_ℤ k j then m else (j, v) ∷ remove k m

  -- the key of `begin()`, or the given one where the map is empty
  abbrev pub first_key : ℤ → PriceMap V → ℤ
  first_key d [] = d
  first_key d ((k, v) ∷ m) = k

  -- the key of `rbegin()`
  abbrev pub last_key : ℤ → PriceMap V → ℤ
  last_key d [] = d
  last_key d ((k, v) ∷ m) = last_key k m

module _ {V : Type 0} where
  -- `std::unordered_map<OrderId, V>`
  unfoldable pub lookup_id : ℕ → List (ℕ × V) → Option V
  lookup_id k [] = none
  lookup_id k ((j, v) ∷ m) = if k == j then some v else lookup_id k m

  unfoldable pub remove_id : ℕ → List (ℕ × V) → List (ℕ × V)
  remove_id k [] = []
  remove_id k ((j, v) ∷ m) = if k == j then m else (j, v) ∷ remove_id k m

  -- `emplace` inserts nothing where the key is there.
  unfoldable pub emplace : ℕ → V → List (ℕ × V) → List (ℕ × V)
  emplace k v [] = (k, v) ∷ []
  emplace k v ((j, w) ∷ m) = if k == j then (j, w) ∷ m else (j, w) ∷ emplace k v m

abbrev pub is_nil : {A : Type 0} → List A → Bool
is_nil [] = Bool.true
is_nil (x ∷ xs) = Bool.false
