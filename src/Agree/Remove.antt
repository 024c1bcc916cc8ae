-- ===== src/Agree/Remove.antt =====
-- An order leaves both books.
use low_latency_orderbook.Prelude.{
  ℕ, ℤ, eqb_ℤ, ◌≡◌, ◌≢◌, refl, sym, ap, ◌∙◌, true, false, ◌==◌, Bool-cases, inl, inr, Option, none,
  some, List, arith, has, erase, if◌then◌else◌,
}
use low_latency_orderbook.Types.{Side, buy, sell, opposite}
use low_latency_orderbook.Pool.{Link, find}
use low_latency_orderbook.Pool.Find.{find_sound}
use low_latency_orderbook.Level.{Slots}
use low_latency_orderbook.Level.Seg.{names}
use low_latency_orderbook.Ladder.Holds.{Contents, put_at}
use low_latency_orderbook.Map.{PriceMap, lookup, lookup_id, remove_id, is_nil}
use low_latency_orderbook.Map.Sorted.{IsSorted}
use low_latency_orderbook.Map.Ids.{lookup_id-remove_id, remove_id-Distinct}
use low_latency_orderbook.Naive.{Level, Locator, level_or_nil}
use low_latency_orderbook.Book.{OrderBook}
use low_latency_orderbook.Book.Valid.{Sides, at_side, IsValid}
use low_latency_orderbook.Book.Remove.{
  without, removed, removed_slots, find-removed, left_of, apart,
}
use low_latency_orderbook.Agree.Mirror.{
  naive_of, locator_of, orders_of, orders_of-frame, located, Mirrors,
}

-- A relation on every side, from that on the side that changed and those on the others.
pub on_sides :
    {A B : Type 0} (R : Side → A → B → Type 0) (f : Side → A) (g : Side → B) (side : Side) (a : A)
    (b : B)
    → R side a b
    → ((sd : Side) → sd ≡ opposite side → R sd (f sd) (g sd))
    → (sd : Side) → R sd (at_side f side a sd) (at_side g side b sd)
on_sides R f g buy a b here there buy = here
on_sides R f g buy a b here there sell = there sell refl
on_sides R f g sell a b here there buy = there buy refl
on_sides R f g sell a b here there sell = here

-- the reference map of one side after an order left the level of `q`
pub record Shrunk (s : Slots) (cs : Contents) (q : ℤ) (i : ℕ) (side : Side) (m m' : PriceMap Level)
    : Type 0 where
  pub level :
      (p : ℤ)
      → level_or_nil (lookup p m')
        ≡ (if eqb_ℤ p q then orders_of s (erase i (cs q)) else level_or_nil (lookup p m))
  pub occupied : (p : ℤ) (l : Level) → lookup p m' ≡ some l → is_nil l ≡ false
  pub sorted : IsSorted side m'

pub located-same :
    (s s' : Slots) (flight : Link) (o : Option ℕ)
    → ((j : ℕ) → o ≡ some j → locator_of (s' j) ≡ locator_of (s j))
    → located s' flight o ≡ located s flight o
located-same s s' flight none same = refl
located-same s s' flight (some j) same = elim (Bool-cases (names flight j)) [
  | inl e ↦ rw e refl
  | inr e ↦ rw e (ap (λ o. some o) (same j refl))
]

module _ {b : OrderBook} {c : Sides} {bs : Side → List ℕ} {fs : List ℕ} {flight : Link}
    (v : IsValid b c bs fs flight) {ms : Side → PriceMap Level} {index : List (ℕ × Locator)}
    (w : Mirrors b.pool c flight ms index) (side : Side) (i : ℕ)
    (m : has i (c side (b.pool.slots i).price_ticks) ≡ true) (m' : PriceMap Level)
    (k : Shrunk b.pool.slots (c side) (b.pool.slots i).price_ticks i side (ms side) m') where
  slots' : Slots
  slots' = (removed b side i).pool.slots

  same_orders :
      (xs : List ℕ)
      → ((j : ℕ) → has j xs ≡ true → i ≢ j)
      → orders_of slots' xs ≡ orders_of b.pool.slots xs
  unfolding slots'
  same_orders xs ne =
      orders_of-frame b.pool.slots slots' xs
        (λ j mj. ap naive_of (removed_slots v side i m j (ne j mj)))

  level_here :
      (p : ℤ)
      → level_or_nil (lookup p m')
        ≡ orders_of slots' (
            put_at
              (c side)
              (b.pool.slots i).price_ticks
              (erase i (c side (b.pool.slots i).price_ticks))
              p)
  level_here p =
      rw
        (same_orders
          (put_at (c side) (b.pool.slots i).price_ticks
            (erase i (c side (b.pool.slots i).price_ticks)) p)
          (λ j mj. (left_of v side i m j p mj).1))
        (elim (Bool-cases (eqb_ℤ p (b.pool.slots i).price_ticks)) [
          | inl e ↦ rw e (k.level p ∙ rw e refl)
          | inr e ↦ rw e (k.level p ∙ rw e (w.level side p))
        ])

  level_there :
      (sd : Side)
      → sd ≡ opposite side
      → (p : ℤ) → level_or_nil (lookup p (ms sd)) ≡ orders_of slots' (c sd p)
  level_there sd e p = w.level sd p ∙ sym (same_orders (c sd p) (λ j mj same. out j mj same))
    where
      out : (j : ℕ) → has j (c sd p) ≡ true → i ≡ j → ⊥
      out j mj same = mathlib.Core.Bool.false≢true (sym (apart v side i m p) ∙ rw (← e, same) mj)

  ids :
      (id : ℕ)
      → lookup_id id (remove_id (b.pool.slots i).order_id index)
        ≡ located slots' flight (find (removed b side i).pool id)
  unfolding slots'
  ids id =
      rw
        (
          lookup_id-remove_id id (b.pool.slots i).order_id index w.distinct,
          find-removed v side i m id,
        )
        (elim (Bool-cases (id == (b.pool.slots i).order_id)) [
          | inl e ↦ rw e refl
          | inr e ↦ rw e (
              w.located_ids id
              ∙ sym (
                  located-same b.pool.slots slots' flight (find b.pool id)
                    (λ j f. ap locator_of (removed_slots v side i m j (ne e j f)))))
        ])
    where
      ne : (id == (b.pool.slots i).order_id) ≡ false → (j : ℕ) → find b.pool id ≡ some j → i ≢ j
      ne e j f same = ground (arith, find_sound b.pool id j f)

  -- Where the reference book drops the same order from its level and its index, the books mirror
  -- each other again.
  pub removed-Mirrors :
      Mirrors
        (removed b side i).pool
        (without c side (b.pool.slots i).price_ticks i)
        flight
        (at_side ms side m')
        (remove_id (b.pool.slots i).order_id index)
  unfolding slots'
  removed-Mirrors = record {
    level = λ sd p.
        on_sides
          (λ sd' (l : PriceMap Level) (cs : Contents).
            level_or_nil (lookup p l) ≡ orders_of slots' (cs p))
          ms c side m' _ (level_here p) (λ sd' e. level_there sd' e p) sd;
    occupied = λ sd.
        on_sides
          (λ sd' (l : PriceMap Level) (cs : Contents).
            (p : ℤ) (x : Level) → lookup p l ≡ some x → is_nil x ≡ false)
          ms c side m' (c side) k.occupied (λ sd' e. w.occupied sd') sd;
    sorted = λ sd.
        on_sides (λ sd' (l : PriceMap Level) (cs : Contents). IsSorted sd' l) ms c side m' (c side)
          k.sorted (λ sd' e. w.sorted sd') sd;
    located_ids = ids;
    distinct = remove_id-Distinct (b.pool.slots i).order_id index w.distinct;
  }
