-- ===== src/Level/Unlink.antt =====
-- `PriceLevel::unlink` takes an order out of the FIFO, from any place in it, resets its links, and
-- writes otherwise only the links of its two neighbours.
use low_latency_orderbook.Prelude.{
  ℕ, ◌+◌, ◌-◌, ◌%◌, ◌^◌, ◌<◌, ◌≡◌, refl, ap, subst, true, false, ◌⊎◌, inl, inr, none, some, List,
  [], ◌∷◌, ◌++◌, arith, has, has-append, Distinct, Distinct-Parts, Distinct-drop, Parts, length,
  length-append, ◌==◌, if◌then◌else◌,
}
use low_latency_orderbook.Pool.{Link}
use low_latency_orderbook.Level.{Slots, PriceLevel, if_null, unlink}
use low_latency_orderbook.Level.Seg.{
  Seg, Seg-append, Seg-split, names, last_mem, relink_last, relink_first,
}
use low_latency_orderbook.Level.Fifo.{
  IsFifo, IsWide, total, total-append, total-frame, total-small, SameCore,
}

-- Only links change.
pub unlink-core : (level : PriceLevel) (s : Slots) (i : ℕ) → SameCore s (unlink level s i).1
unfolding unlink
unlink-core level s i j = ground arith

-- An order that is not its own neighbour leaves its neighbours linked to one another.
unlink-links :
    (level : PriceLevel) (s : Slots) (i : ℕ)
    → names (s i).prev_idx i ≡ false
    → names (s i).next_idx i ≡ false
    → (j : ℕ)
    → (((unlink level s i).1 j).next_idx ≡ (
        if i == j then none else if names (s i).prev_idx j then (s i).next_idx else (s j).next_idx))
      × (((unlink level s i).1 j).prev_idx ≡ (
          if i == j
          then none
          else if names (s i).next_idx j
          then (s i).prev_idx
          else (s j).prev_idx))
unfolding unlink
unlink-links level s i p n j = ground arith

-- the new ends of the level
unlink-ends :
    (level : PriceLevel) (s : Slots) (i : ℕ)
    → names (s i).prev_idx i ≡ false
    → ((unlink level s i).0.head_idx ≡ if_null (s i).prev_idx (s i).next_idx level.head_idx)
      × ((unlink level s i).0.tail_idx ≡ if_null (s i).next_idx (s i).prev_idx level.tail_idx)
unfolding unlink
unlink-ends level s i p = ground arith

-- the orders before the one taken out, up to the one behind it
before_links :
    (s s' : Slots) (h p n : Link) (i : ℕ) (xs : List ℕ)
    → Seg s none h xs p (some i)
    → Distinct xs
    → ((j : ℕ)
        → has j xs ≡ true
        → ((s' j).prev_idx ≡ (s j).prev_idx)
          × ((s' j).next_idx ≡ (if names p j then n else (s j).next_idx)))
    → Seg s' none (if_null p n h) xs p n
before_links s s' h p n i [] g d links = ground arith
before_links s s' h p n i (y ∷ ys) g d links =
    subst (λ u. Seg s' none u (y ∷ ys) p n) kept
      (relink_last s s' none h y ys p (some i) n g d links)
  where
    kept : h ≡ if_null p n h
    kept = let (k, e, m) = last_mem s none h y ys p (some i) g in ground (arith, e)

-- the orders behind the one taken out, from the one before it
behind_links :
    (s s' : Slots) (p n t : Link) (i : ℕ) (ys : List ℕ)
    → Seg s (some i) n ys t none
    → ((j : ℕ)
        → has j ys ≡ true
        → ((s' j).next_idx ≡ (s j).next_idx)
          × ((s' j).prev_idx ≡ (if names n j then p else (s j).prev_idx)))
    → Distinct ys
    → Seg s' p n ys (if_null n p t) none
behind_links s s' p n t i [] g links d = ground arith
behind_links s s' p n t i (y ∷ ys) g links d =
    subst (λ u. Seg s' p n (y ∷ ys) u none) kept
      (relink_first s s' (some i) n y ys t none p g (ground (arith, links y, g.0))
        (ground (arith, links y, g.0)) (λ j m. ground (arith, links j, g.0, d.0)))
  where
    kept : t ≡ if_null n p t
    kept = ground (arith, g.0)

-- the neighbours that a segment gives its ends
first_of_Seg :
    (s : Slots) (p h : Link) (xs : List ℕ) (l n : Link)
    → Seg s p h xs l n
    → (j : ℕ) → names h j ≡ true
    → (has j xs ≡ true) ⊎ (h ≡ n)
first_of_Seg s p h [] l n g j m = inr g.0
first_of_Seg s p h (x ∷ xs) l n g j m = inl (ground (arith, g.0))

last_of_Seg :
    (s : Slots) (p h : Link) (xs : List ℕ) (l n : Link)
    → Seg s p h xs l n
    → (j : ℕ) → names l j ≡ true
    → (has j xs ≡ true) ⊎ (l ≡ p)
last_of_Seg s p h [] l n g j m = inr g.1
last_of_Seg s p h (x ∷ xs) l n g j m =
    let (k, e, m') = last_mem s p h x xs l n g in inl (ground (arith, e, m'))

module _ (level : PriceLevel) (s : Slots) (xs : List ℕ) (i : ℕ) (ys : List ℕ)
    (f : IsFifo level s (xs ++ i ∷ ys)) where
  parts : Parts xs i ys
  parts = Distinct-Parts xs i ys f.distinct

  split :
      Seg s none level.head_idx xs (s i).prev_idx (some i)
      × Seg s (some i) (s i).next_idx ys level.tail_idx none
  split = Seg-split s none level.head_idx xs i ys level.tail_idx none f.links

  -- the neighbours' indices stand in the list, on their sides
  prev_is : (j : ℕ) → names (s i).prev_idx j ≡ true → has j xs ≡ true
  prev_is j m = ground (arith, last_of_Seg s none level.head_idx xs _ _ split.0 j m)

  next_is : (j : ℕ) → names (s i).next_idx j ≡ true → has j ys ≡ true
  next_is j m = ground (arith, first_of_Seg s (some i) _ ys _ none split.1 j m)

  apart_self : (names (s i).prev_idx i ≡ false) × (names (s i).next_idx i ≡ false)
  apart_self = ground (arith, prev_is i, next_is i, parts.not_left, parts.not_right)

  links :
      (j : ℕ)
      → (((unlink level s i).1 j).next_idx ≡ (
          if i == j
          then none
          else if names (s i).prev_idx j
          then (s i).next_idx
          else (s j).next_idx))
        × (((unlink level s i).1 j).prev_idx ≡ (
            if i == j
            then none
            else if names (s i).next_idx j
            then (s i).prev_idx
            else (s j).prev_idx))
  links j = unlink-links level s i apart_self.0 apart_self.1 j

  -- The order's own links are reset.
  pub unlink-reset :
      (((unlink level s i).1 i).next_idx ≡ none) × (((unlink level s i).1 i).prev_idx ≡ none)
  unlink-reset = ground (arith, links i)

  -- Slots outside the level are not written.
  pub unlink-frame : (j : ℕ) → has j (xs ++ i ∷ ys) ≡ false → (unlink level s i).1 j ≡ s j
  unfolding unlink
  unlink-frame j out = ground (arith, apart_self, prev_is j, next_is j, has-append j xs (i ∷ ys))

  unlink-left :
      Seg
        (unlink level s i).1
        none
        (if_null (s i).prev_idx (s i).next_idx level.head_idx)
        xs
        (s i).prev_idx
        (s i).next_idx
  unlink-left =
      before_links s (unlink level s i).1 level.head_idx (s i).prev_idx (s i).next_idx i xs split.0
        parts.left (λ j m. ground (arith, links j, parts.not_left, parts.apart j, next_is j))

  unlink-right :
      Seg
        (unlink level s i).1
        (s i).prev_idx
        (s i).next_idx
        ys
        (if_null (s i).next_idx (s i).prev_idx level.tail_idx)
        none
  unlink-right =
      behind_links s (unlink level s i).1 (s i).prev_idx (s i).next_idx level.tail_idx i ys split.1
        (λ j m. ground (arith, links j, parts.not_right, parts.apart j, prev_is j)) parts.right

  unlink-all :
      Seg
        (unlink level s i).1
        none
        (unlink level s i).0.head_idx
        (xs ++ ys)
        (unlink level s i).0.tail_idx
        none
  unlink-all =
      rw ((unlink-ends level s i apart_self.0).0, (unlink-ends level s i apart_self.0).1)
        (Seg-append (unlink level s i).1 none (if_null (s i).prev_idx (s i).next_idx level.head_idx)
          xs ys (s i).prev_idx (s i).next_idx (if_null (s i).next_idx (s i).prev_idx level.tail_idx)
          none unlink-left unlink-right)

  remaining-unlink : (j : ℕ) → ((unlink level s i).1 j).remaining ≡ (s j).remaining
  remaining-unlink j = ap (λ o. o.remaining) (unlink-core level s i j)

  total-split : total s (xs ++ i ∷ ys) ≡ total s (xs ++ ys) + (s i).remaining
  unfolding total
  total-split = omega (arith, total-append s xs (i ∷ ys), total-append s xs ys)

  unlink-fields :
      ((unlink level s i).0.order_count ≡ (level.order_count + 2 ^ 32 - 1) % 2 ^ 32)
      × ((unlink level s i).0.total_qty
          ≡ (level.total_qty + 2 ^ 64 - ((unlink level s i).1 i).remaining) % 2 ^ 64)
  unfolding unlink
  unlink-fields = (refl, refl)

  -- The new level represents the list without the order.
  pub unlink-IsFifo :
      IsWide s
      → length (xs ++ i ∷ ys) < 2 ^ 31
      → IsFifo (unlink level s i).0 (unlink level s i).1 (xs ++ ys)
  unlink-IsFifo wide room = record {
    links = unlink-all;
    distinct = Distinct-drop xs i ys f.distinct;
    count =
        omega (arith, unlink-fields, f.count, length-append xs (i ∷ ys), length-append xs ys, room);
    qty = omega (
      arith,
      unlink-fields,
      f.qty,
      total-split,
      remaining-unlink i,
      total-small s wide (xs ++ i ∷ ys) room,
      total-frame s (unlink level s i).1 (xs ++ ys) (λ j m. remaining-unlink j),
    );
  }
