-- ===== src/Map/Ids.antt =====
-- The laws of the map by order id, whose keys are distinct.
use low_latency_orderbook.Prelude.{
  ℕ, ◌≡◌, refl, false, none, some, List, [], ◌∷◌, ◌==◌, has, Distinct, if◌then◌else◌, arith,
}
use low_latency_orderbook.Map.{lookup_id, remove_id, emplace}

module _ {V : Type 0} where
  abbrev pub keys : List (ℕ × V) → List ℕ
  keys [] = []
  keys ((k, v) ∷ m) = k ∷ keys m

  lookup_id-absent : (k : ℕ) (m : List (ℕ × V)) → has k (keys m) ≡ false → lookup_id k m ≡ none
  unfolding lookup_id
  lookup_id-absent k [] h = refl
  lookup_id-absent k ((j, v) ∷ m) h = ground (arith, lookup_id-absent k m)

  pub absent_of_none : (k : ℕ) (m : List (ℕ × V)) → lookup_id k m ≡ none → has k (keys m) ≡ false
  unfolding lookup_id
  absent_of_none k [] h = refl
  absent_of_none k ((j, v) ∷ m) h = ground (arith, absent_of_none k m)

  pub lookup_id-remove_id :
      (j k : ℕ) (m : List (ℕ × V))
      → Distinct (keys m)
      → lookup_id j (remove_id k m) ≡ (if j == k then none else lookup_id j m)
  unfolding lookup_id remove_id
  lookup_id-remove_id j k [] d = ground arith
  lookup_id-remove_id j k ((i, v) ∷ m) d =
      ground (arith, lookup_id-remove_id j k m d.1, lookup_id-absent j m, d.0)

  has-remove_id :
      (j k : ℕ) (m : List (ℕ × V)) → has j (keys m) ≡ false → has j (keys (remove_id k m)) ≡ false
  unfolding remove_id
  has-remove_id j k [] h = refl
  has-remove_id j k ((i, v) ∷ m) h = ground (arith, has-remove_id j k m)

  pub remove_id-Distinct :
      (k : ℕ) (m : List (ℕ × V)) → Distinct (keys m) → Distinct (keys (remove_id k m))
  unfolding remove_id
  remove_id-Distinct k [] d = tt
  remove_id-Distinct k ((i, v) ∷ m) d =
      ground (arith, remove_id-Distinct k m d.1, has-remove_id i k m d.0, d.0, d.1)

  pub lookup_id-emplace :
      (j k : ℕ) (v : V) (m : List (ℕ × V))
      → has k (keys m) ≡ false
      → lookup_id j (emplace k v m) ≡ (if j == k then some v else lookup_id j m)
  unfolding lookup_id emplace
  lookup_id-emplace j k v [] h = refl
  lookup_id-emplace j k v ((i, w) ∷ m) h = ground (arith, lookup_id-emplace j k v m)

  has-emplace :
      (j k : ℕ) (v : V) (m : List (ℕ × V))
      → has j (keys m) ≡ false
      → (j == k) ≡ false
      → has j (keys (emplace k v m)) ≡ false
  unfolding emplace
  has-emplace j k v [] h ne = ground arith
  has-emplace j k v ((i, w) ∷ m) h ne = ground (arith, has-emplace j k v m)

  pub emplace-Distinct :
      (k : ℕ) (v : V) (m : List (ℕ × V))
      → has k (keys m) ≡ false
      → Distinct (keys m)
      → Distinct (keys (emplace k v m))
  unfolding emplace
  emplace-Distinct k v [] h d = ground arith
  emplace-Distinct k v ((i, w) ∷ m) h d =
      ground (arith, emplace-Distinct k v m, has-emplace i k v m d.0, d.0, d.1)
