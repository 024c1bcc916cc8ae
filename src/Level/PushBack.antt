-- ===== src/Level/PushBack.antt =====
-- `PriceLevel::push_back` appends an order to the FIFO and writes links of that order and of the
-- old tail only.
use low_latency_orderbook.Prelude.{
  ℕ, suc, ◌+◌, ◌%◌, ◌^◌, ◌<◌, ◌≡◌, ◌≢◌, refl, sym, ap, subst, ◌∙◌, true, false, none, some, List,
  [], ◌∷◌, ◌++◌, arith, has, Distinct, parts-Distinct, length, length-append, ◌==◌, if◌then◌else◌,
}
use low_latency_orderbook.Pool.{Link}
use low_latency_orderbook.Level.{Slots, PriceLevel, if_null, push_back}
use low_latency_orderbook.Level.Seg.{Seg, Seg-append, names, last_mem, relink_last}
use low_latency_orderbook.Level.Fifo.{
  IsFifo, IsWide, total, total-append, total-frame, total-small, SameCore,
}

-- Only the links of the new order and of the tail change.
pub push_back-core : (level : PriceLevel) (s : Slots) (i : ℕ) → SameCore s (push_back level s i).1
unfolding push_back
push_back-core level s i j = ground arith

-- The orders of a segment stay linked, up to a new last one.
old_links :
    (s s' : Slots) (i : ℕ) (h t : Link) (ys : List ℕ)
    → Seg s none h ys t none
    → Distinct ys
    → has i ys ≡ false
    → ((j : ℕ)
        → ((s' j).next_idx ≡ (if names t j then some i else (s j).next_idx))
          × ((s' j).prev_idx ≡ (if i == j then t else (s j).prev_idx)))
    → Seg s' none (if_null t (some i) h) ys t (some i)
old_links s s' i h t [] g d out links = ground arith
old_links s s' i h t (y ∷ ys) g d out links =
    subst (λ u. Seg s' none u (y ∷ ys) t (some i)) kept
      (relink_last s s' none h y ys t none (some i) g d (λ j m. ground (arith, links j, out)))
  where
    kept : h ≡ if_null t (some i) h
    kept = let (k, e, m) = last_mem s none h y ys t none g in ground (arith, e)

module _ (level : PriceLevel) (s : Slots) (i : ℕ) (xs : List ℕ) (f : IsFifo level s xs)
    (fresh : has i xs ≡ false) (free_next : (s i).next_idx ≡ none) where
  -- the tail is one of the orders, or there is none
  tail_is :
      (names level.tail_idx i ≡ false) × ((j : ℕ) → names level.tail_idx j ≡ true → has j xs ≡ true)
  tail_is = go level.head_idx level.tail_idx xs f.links fresh
    where
      go :
          (h t : Link) (ys : List ℕ)
          → Seg s none h ys t none
          → has i ys ≡ false
          → (names t i ≡ false) × ((j : ℕ) → names t j ≡ true → has j ys ≡ true)
      go h t [] g out = (ground arith, λ j m. ground arith)
      go h t (y ∷ ys) g out =
          let (k, e, m) = last_mem s none h y ys t none g in
          (ground (arith, e, m), λ j m'. ground (arith, e, m))

  push_back-links :
      (j : ℕ)
      → (((push_back level s i).1 j).next_idx
          ≡ (if names level.tail_idx j then some i else (s j).next_idx))
        × (((push_back level s i).1 j).prev_idx
            ≡ (if i == j then level.tail_idx else (s j).prev_idx))
  unfolding push_back
  push_back-links j = ground (arith, tail_is.0)

  -- Slots outside the level are not written.
  pub push_back-frame : (j : ℕ) → has j xs ≡ false → i ≢ j → (push_back level s i).1 j ≡ s j
  unfolding push_back
  push_back-frame j out ne = ground (arith, tail_is.1 j)

  push_back-old :
      Seg
        (push_back level s i).1
        none
        (if_null level.tail_idx (some i) level.head_idx)
        xs
        level.tail_idx
        (some i)
  push_back-old =
      old_links s (push_back level s i).1 i level.head_idx level.tail_idx xs f.links f.distinct
        fresh push_back-links

  push_back-new : Seg (push_back level s i).1 level.tail_idx (some i) (i ∷ []) (some i) none
  push_back-new = (
    refl,
    ground (arith, push_back-links i),
    (ground (arith, push_back-links i, tail_is.0, free_next), refl),
  )

  push_back-all :
      Seg
        (push_back level s i).1
        none
        (push_back level s i).0.head_idx
        (xs ++ i ∷ [])
        (push_back level s i).0.tail_idx
        none
  unfolding push_back
  push_back-all =
      Seg-append (push_back level s i).1 none (if_null level.tail_idx (some i) level.head_idx) xs
        (i ∷ []) level.tail_idx (some i) (some i) none push_back-old push_back-new

  remaining-push_back : (j : ℕ) → ((push_back level s i).1 j).remaining ≡ (s j).remaining
  remaining-push_back j = ap (λ o. o.remaining) (push_back-core level s i j)

  total-push_back : total (push_back level s i).1 (xs ++ i ∷ []) ≡ level.total_qty + (s i).remaining
  unfolding total
  total-push_back = omega (
    arith,
    total-append (push_back level s i).1 xs (i ∷ []),
    total-frame s (push_back level s i).1 xs (λ j m. remaining-push_back j),
    remaining-push_back i,
    f.qty,
  )

  push_back-fields :
      ((push_back level s i).0.order_count ≡ (level.order_count + 1) % 2 ^ 32)
      × ((push_back level s i).0.total_qty
          ≡ (level.total_qty + ((push_back level s i).1 i).remaining) % 2 ^ 64)
  unfolding push_back
  push_back-fields = (refl, refl)

  push_back-sums :
      IsWide s
      → suc (length xs) < 2 ^ 31
      → ((push_back level s i).0.order_count ≡ suc (length xs))
        × ((push_back level s i).0.total_qty ≡ level.total_qty + (s i).remaining)
  push_back-sums wide room = omega (
    arith,
    push_back-fields,
    f.count,
    f.qty,
    remaining-push_back i,
    wide i,
    total-small s wide xs (omega arith),
  )

  -- The new level represents the list with the order at its end.
  pub push_back-IsFifo :
      IsWide s
      → suc (length xs) < 2 ^ 31
      → IsFifo (push_back level s i).0 (push_back level s i).1 (xs ++ i ∷ [])
  push_back-IsFifo wide room = record {
    links = push_back-all;
    distinct = parts-Distinct xs i [] (record {
      left = f.distinct;
      right = tt;
      not_left = fresh;
      not_right = refl;
      apart = λ j m. refl;
    });
    count = omega (arith, length-append xs (i ∷ []), (push_back-sums wide room).0);
    qty = (push_back-sums wide room).1 ∙ sym total-push_back;
  }
