-- ===== src/Prelude/Indices.antt =====
-- Lists of distinct indices: removing one, and the pigeonhole bound on their length.
use Prim.Native.Nat.{ℕ, zero, suc, ◌≤◌, ◌<◌}
use mathlib.Core.Path.{◌≡◌, refl, ap}
use mathlib.Core.Bool.{true, false, not, ◌&&◌, false≢true}
use mathlib.Core.Logic.{inl, inr}
use mathlib.Core.List.{List, [], ◌∷◌, ◌++◌}
use native.Mathlib.Omega.{arith}
use low_latency_orderbook.Prelude.Tests.{◌==◌, if◌then◌else◌, Bool-cases}
use low_latency_orderbook.Prelude.Lists.{length}
use low_latency_orderbook.Prelude.Maps.{has, Distinct, has-append}

-- the list without the first `i`
abbrev pub erase : ℕ → List ℕ → List ℕ
erase i [] = []
erase i (j ∷ js) = if i == j then js else j ∷ erase i js

pub length-erase : (i : ℕ) (xs : List ℕ) → length xs ≤ suc (length (erase i xs))
length-erase i [] = omega arith
length-erase i (x ∷ xs) = ground (arith, length-erase i xs)

pub has-erase :
    (i j : ℕ) (xs : List ℕ) → Distinct xs → has j (erase i xs) ≡ (has j xs && not (i == j))
has-erase i j [] d = refl
has-erase i j (x ∷ xs) d = ground (arith, has-erase i j xs d.1, d.0)

pub Distinct-erase : (i : ℕ) (xs : List ℕ) → Distinct xs → Distinct (erase i xs)
Distinct-erase i [] d = tt
Distinct-erase i (x ∷ xs) d =
    ground (arith, has-erase i x xs d.1, Distinct-erase i xs d.1, d.0, d.1)

-- Distinct indices below `n` are at most `n` many.
pub pigeonhole :
    (n : ℕ) (xs : List ℕ) → Distinct xs → ((i : ℕ) → has i xs ≡ true → i < n) → length xs ≤ n
pigeonhole zero [] d h = omega arith
pigeonhole zero (x ∷ xs) d h = absurd (omega (arith, h x (ground arith)))
pigeonhole (suc n) xs d h = omega (
  arith,
  length-erase n xs,
  pigeonhole n (erase n xs) (Distinct-erase n xs d)
      (λ i m. ground (arith, has-erase n i xs d, h i)),
)

-- What it means for `xs ++ i ∷ ys` to be distinct.
pub record Parts (xs : List ℕ) (i : ℕ) (ys : List ℕ) : Type 0 where
  pub left : Distinct xs
  pub right : Distinct ys
  pub not_left : has i xs ≡ false
  pub not_right : has i ys ≡ false
  pub apart : (j : ℕ) → has j xs ≡ true → has j ys ≡ false

pub Distinct-Parts : (xs : List ℕ) (i : ℕ) (ys : List ℕ) → Distinct (xs ++ i ∷ ys) → Parts xs i ys
Distinct-Parts [] i ys d = record {
  left = tt;
  right = d.1;
  not_left = refl;
  not_right = d.0;
  apart = λ j m. absurd (false≢true m);
}
Distinct-Parts (x ∷ xs) i ys d =
    let r = Distinct-Parts xs i ys d.1 in
    let out : has x (xs ++ i ∷ ys) ≡ false = d.0 in
    record {
      left = (ground (arith, has-append x xs (i ∷ ys)), r.left);
      right = r.right;
      not_left = ground (arith, has-append x xs (i ∷ ys), r.not_left);
      not_right = r.not_right;
      apart = λ j m. ground (arith, has-append x xs (i ∷ ys), r.apart j);
    }

pub parts-Distinct : (xs : List ℕ) (i : ℕ) (ys : List ℕ) → Parts xs i ys → Distinct (xs ++ i ∷ ys)
parts-Distinct [] i ys r = (r.not_right, r.right)
parts-Distinct (x ∷ xs) i ys r = (
  ground (arith, has-append x xs (i ∷ ys), r.left, r.not_left, r.apart x),
  parts-Distinct xs i ys (record {
    left = r.left.1;
    right = r.right;
    not_left = ground (arith, r.not_left);
    not_right = r.not_right;
    apart = λ j m. r.apart j (ground arith);
  }),
)

-- dropping the middle
pub Distinct-drop :
    (xs : List ℕ) (i : ℕ) (ys : List ℕ) → Distinct (xs ++ i ∷ ys) → Distinct (xs ++ ys)
Distinct-drop [] i ys d = d.1
Distinct-drop (x ∷ xs) i ys d =
    (ground (arith, has-append x xs (i ∷ ys), has-append x xs ys, d.0), Distinct-drop xs i ys d.1)

pub erase-append :
    (xs : List ℕ) (i : ℕ) (ys : List ℕ) → has i xs ≡ false → erase i (xs ++ i ∷ ys) ≡ xs ++ ys
erase-append [] i ys h = ground arith
erase-append (x ∷ xs) i ys h = ground (arith, erase-append xs i ys)

-- A member splits the list.
pub split_at :
    (i : ℕ) (l : List ℕ) → has i l ≡ true → (xs : List ℕ) × (ys : List ℕ) × (l ≡ xs ++ i ∷ ys)
split_at i [] h = absurd (false≢true h)
split_at i (x ∷ l) h = elim (Bool-cases (i == x)) [
  | inl e ↦ ([], l, ground arith)
  | inr n ↦ let (xs, ys, e) = split_at i l (ground arith) in (x ∷ xs, ys, ap (λ t. x ∷ t) e)
]

pub length-erase_mem :
    (i : ℕ) (xs : List ℕ) → has i xs ≡ true → length xs ≡ suc (length (erase i xs))
length-erase_mem i [] m = absurd (false≢true m)
length-erase_mem i (x ∷ xs) m = ground (arith, length-erase_mem i xs)

pub length-pos_of_mem : (i : ℕ) (xs : List ℕ) → has i xs ≡ true → 0 < length xs
length-pos_of_mem i [] m = absurd (false≢true m)
length-pos_of_mem i (x ∷ xs) m = omega arith
