-- ===== src/Level/Seg.antt =====
-- Doubly linked segments of slots: `Seg s p h xs l n` says that from the link `h` the slots `xs`
-- are linked in both directions, that the one before them is `p` and the one behind them `n`, and
-- that `l` is the last of them (`p` where there is none).
use low_latency_orderbook.Prelude.{
  ℕ, ◌≡◌, Bool, true, false, none, some, List, [], ◌∷◌, ◌++◌, arith, has, Distinct, ◌==◌,
  if◌then◌else◌,
}
use low_latency_orderbook.Pool.{Link}
use low_latency_orderbook.Level.{Slots}

abbrev pub Seg : Slots → Link → Link → List ℕ → Link → Link → Type 0
Seg s p h [] l n = (h ≡ n) × (l ≡ p)
Seg s p h (i ∷ is) l n = (h ≡ some i) × ((s i).prev_idx ≡ p) × Seg s (some i) (s i).next_idx is l n

-- the two arrays agree on both links of every slot of the list
abbrev pub SameLinks : Slots → Slots → List ℕ → Type 0
SameLinks s s' xs =
    (j : ℕ)
    → has j xs ≡ true
    → ((s' j).prev_idx ≡ (s j).prev_idx) × ((s' j).next_idx ≡ (s j).next_idx)

pub Seg-frame :
    (s s' : Slots) (p h : Link) (xs : List ℕ) (l n : Link)
    → Seg s p h xs l n
    → SameLinks s s' xs
    → Seg s' p h xs l n
Seg-frame s s' p h [] l n g same = g
Seg-frame s s' p h (i ∷ xs) l n g same = (
  g.0,
  ground (arith, same i),
  rw ((same i (ground arith)).1)
      (Seg-frame s s' (some i) (s i).next_idx xs l n g.2 (λ j m. same j (ground arith))),
)

-- A segment splits at any slot: what stands before it, and what stands behind.
pub Seg-split :
    (s : Slots) (p h : Link) (xs : List ℕ) (i : ℕ) (ys : List ℕ) (l n : Link)
    → Seg s p h (xs ++ i ∷ ys) l n
    → Seg s p h xs (s i).prev_idx (some i) × Seg s (some i) (s i).next_idx ys l n
Seg-split s p h [] i ys l n g = ((g.0, g.1), g.2)
Seg-split s p h (x ∷ xs) i ys l n g =
    let rest = Seg-split s (some x) (s x).next_idx xs i ys l n g.2 in ((g.0, g.1, rest.0), rest.1)

pub Seg-append :
    (s : Slots) (p h : Link) (xs ys : List ℕ) (l m l' n : Link)
    → Seg s p h xs l m
    → Seg s l m ys l' n
    → Seg s p h (xs ++ ys) l' n
Seg-append s p h [] ys l m l' n g k = rw (g.0, ← g.1) k
Seg-append s p h (x ∷ xs) ys l m l' n g k =
    (g.0, g.1, Seg-append s (some x) (s x).next_idx xs ys l m l' n g.2 k)

abbrev pub names : Link → ℕ → Bool
names none j = false
names (some k) j = k == j

-- The last slot of a segment that is not empty stands in it.
pub last_mem :
    (s : Slots) (p h : Link) (x : ℕ) (xs : List ℕ) (l n : Link)
    → Seg s p h (x ∷ xs) l n
    → (k : ℕ) × (l ≡ some k) × (has k (x ∷ xs) ≡ true)
last_mem s p h x [] l n g = (x, g.2.1, ground arith)
last_mem s p h x (y ∷ ys) l n g =
    let (k, e, m) = last_mem s (some x) (s x).next_idx y ys l n g.2 in (k, e, ground (arith, m))

-- A write of the last slot's next link moves the end of the segment.
pub relink_last :
    (s s' : Slots) (p h : Link) (x : ℕ) (xs : List ℕ) (l n v : Link)
    → Seg s p h (x ∷ xs) l n
    → Distinct (x ∷ xs)
    → ((j : ℕ)
        → has j (x ∷ xs) ≡ true
        → ((s' j).prev_idx ≡ (s j).prev_idx)
          × ((s' j).next_idx ≡ (if names l j then v else (s j).next_idx)))
    → Seg s' p h (x ∷ xs) l v
relink_last s s' p h x [] l n v g d same =
    (g.0, ground (arith, same x), (ground (arith, same x, g.2.1), g.2.1))
relink_last s s' p h x (y ∷ ys) l n v g d same =
    let (k, e, m) = last_mem s (some x) (s x).next_idx y ys l n g.2 in
    (
      g.0,
      ground (arith, same x),
      rw (kept k e m) (
          relink_last s s' (some x) (s x).next_idx y ys l n v g.2 d.1
            (λ j m'. same j (ground arith))),
    )
  where
    kept : (k : ℕ) → l ≡ some k → has k (y ∷ ys) ≡ true → (s' x).next_idx ≡ (s x).next_idx
    kept k e m = ground (arith, same x, e, m, d.0)

-- A write of the first slot's previous link moves what stands before the segment.
pub relink_first :
    (s s' : Slots) (p h : Link) (x : ℕ) (xs : List ℕ) (l n v : Link)
    → Seg s p h (x ∷ xs) l n
    → (s' x).prev_idx ≡ v
    → (s' x).next_idx ≡ (s x).next_idx
    → SameLinks s s' xs
    → Seg s' v h (x ∷ xs) l n
relink_first s s' p h x xs l n v g first next same =
    (g.0, first, rw next (Seg-frame s s' (some x) (s x).next_idx xs l n g.2 same))
