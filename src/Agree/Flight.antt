-- ===== src/Agree/Flight.antt =====
-- The slot of an order in flight is not seen by the reference book: it is minted before the sweep,
-- and given back after it.
use low_latency_orderbook.Prelude.{
  ℕ, ◌≡◌, ◌≢◌, refl, sym, ap, ◌∙◌, true, ◌==◌, Bool-cases, Option-cases, inl, inr, Option, none,
  some, List, ◌∷◌, arith, has,
}
use low_latency_orderbook.Types.{Side}
use low_latency_orderbook.Pool.{Link, OrderPool, alloc, free, find}
use low_latency_orderbook.Pool.Alloc.{find-alloc, alloc-id_bounds}
use low_latency_orderbook.Pool.Free.{find-free}
use low_latency_orderbook.Pool.Find.{find_sound, find_complete}
use low_latency_orderbook.Map.{PriceMap}
use low_latency_orderbook.Naive.{Level, Locator}
use low_latency_orderbook.Book.{OrderBook, free_slot}
use low_latency_orderbook.Book.Valid.{Sides, IsValid}
use low_latency_orderbook.Book.Flight.{
  was_free, others, resting_ne, flight_ne, flight-IsLive, freed_others,
}
use low_latency_orderbook.Agree.Mirror.{naive_of, orders_of-frame, located, Mirrors}

-- A change of the pool that spares the resting orders and their ids is not seen.
pub Mirrors-frame :
    {p p' : OrderPool} {c : Sides} {flight flight' : Link} {ms : Side → PriceMap Level}
    {index : List (ℕ × Locator)}
    → Mirrors p c flight ms index
    → ((side : Side) (q : _) (j : ℕ) → has j (c side q) ≡ true → p'.slots j ≡ p.slots j)
    → ((id : ℕ) → located p'.slots flight' (find p' id) ≡ located p.slots flight (find p id))
    → Mirrors p' c flight' ms index
Mirrors-frame {p} {p'} {c} w same ids = record {
  level = λ side q.
      w.level side q
      ∙ sym (orders_of-frame p.slots p'.slots (c side q) (λ j m. ap naive_of (same side q j m)));
  occupied = w.occupied;
  sorted = w.sorted;
  located_ids = λ id. w.located_ids id ∙ sym (ids id);
  distinct = w.distinct;
}

module _ {b : OrderBook} {c : Sides} {bs : Side → List ℕ} {i : ℕ} {fs : List ℕ}
    (v : IsValid b c bs (i ∷ fs) none) where
  pub new_unknown : find b.pool (alloc b.pool).0 ≡ none
  new_unknown = elim (Option-cases (find b.pool (alloc b.pool).0)) [
    | inl e ↦ e
    | inr (j, e) ↦ absurd (
        was_free v (
          rw (← (alloc-id_bounds b.pool i v.pool).1, ← (find_sound b.pool (alloc b.pool).0 j e).0)
            (find_sound b.pool (alloc b.pool).0 j e).1))
  ]

  located-others :
      (o : Option ℕ)
      → ((j : ℕ) → o ≡ some j → i ≢ j)
      → located (alloc b.pool).1.slots (some i) o ≡ located b.pool.slots none o
  located-others none ne = refl
  located-others (some j) ne = rw (others v j (ne j refl)) (ground (arith, ne j refl))

  is_new : (id : ℕ) → (id == (alloc b.pool).0) ≡ true → id ≡ (alloc b.pool).0
  is_new id e = ground arith

  located-alloc :
      (id : ℕ)
      → located (alloc b.pool).1.slots (some i) (find (alloc b.pool).1 id)
        ≡ located b.pool.slots none (find b.pool id)
  located-alloc id = elim (Bool-cases (id == (alloc b.pool).0)) [
    | inl same ↦
        rw (find-alloc b.pool i v.pool id, same, is_new id same, new_unknown) (ground arith)
    | inr other ↦
        rw (find-alloc b.pool i v.pool id, other)
          (located-others (find b.pool id)
            (λ j e same. was_free v (rw same (find_sound b.pool id j e).1)))
  ]

  -- The minted slot is not seen.
  pub alloc-Mirrors :
      {ms : Side → PriceMap Level} {index : List (ℕ × Locator)}
      → Mirrors b.pool c none ms index
      → Mirrors (alloc b.pool).1 c (some i) ms index
  alloc-Mirrors w =
      Mirrors-frame w (λ side q j m. others v j (resting_ne v side q j m)) located-alloc

module _ {b : OrderBook} {c : Sides} {bs : Side → List ℕ} {fs : List ℕ} {i : ℕ}
    (v : IsValid b c bs fs (some i)) where
  its_id : find b.pool (b.pool.slots i).order_id ≡ some i
  its_id = find_complete b.pool v.pool i (flight-IsLive v).0

  located-kept :
      (o : Option ℕ)
      → ((j : ℕ) → o ≡ some j → i ≢ j)
      → located (free b.pool i).slots none o ≡ located b.pool.slots (some i) o
  located-kept none ne = refl
  located-kept (some j) ne = rw (freed_others v j (ne j refl)) (ground (arith, ne j refl))

  located-freed :
      (id : ℕ)
      → located (free b.pool i).slots none (find (free b.pool i) id)
        ≡ located b.pool.slots (some i) (find b.pool id)
  located-freed id = elim (Bool-cases (id == (b.pool.slots i).order_id)) [
    | inl same ↦
        rw
          (
            find-free b.pool v.pool i (flight-IsLive v).0 id,
            same,
            is_that id (b.pool.slots i).order_id same,
            its_id,
          )
          (ground arith)
    | inr other ↦
        rw (find-free b.pool v.pool i (flight-IsLive v).0 id, other)
          (located-kept (find b.pool id)
            (λ j e same. ground (arith, same, (find_sound b.pool id j e).2)))
  ]
    where
      is_that : (m n : ℕ) → (m == n) ≡ true → m ≡ n
      is_that m n e = ground arith

  -- Nor is it seen that the slot is given back.
  pub give_back-Mirrors :
      {ms : Side → PriceMap Level} {index : List (ℕ × Locator)}
      → Mirrors b.pool c (some i) ms index
      → Mirrors (free_slot b i).pool c none ms index
  give_back-Mirrors w =
      Mirrors-frame w (λ side q j m. freed_others v j (flight_ne v side q j m)) located-freed
