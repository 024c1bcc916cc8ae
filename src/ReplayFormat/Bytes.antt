-- ===== src/ReplayFormat/Bytes.antt =====
-- Numbers as bytes, least significant first, and lists taken apart.
use low_latency_orderbook.Prelude.{
  ℕ, zero, suc, ℤ, pos, negsuc, ◌+◌, ◌/◌, ◌^◌, ◌<◌, ◌≤◌, ◌≡◌, refl, sym, ap, List, [], ◌∷◌, ◌++◌,
  arith, length, take, drop, true,
}
use low_latency_orderbook.Types.{is_int64}
use low_latency_orderbook.ReplayFormat.{le, of_le, to_u64, of_u64}

pub length-le : (width x : ℕ) → length (le width x) ≡ width
unfolding le
length-le zero x = refl
length-le (suc width) x = ap suc (length-le width (x / 256))

-- A number that fits its bytes is read back from them.
pub of_le-le : (width x : ℕ) → x < 256 ^ width → of_le (le width x) ≡ x
unfolding le of_le
of_le-le zero x h = omega arith
of_le-le (suc width) x h = rw (of_le-le width (x / 256) (omega arith)) (omega arith)

pub of_u64-to_u64 : (x : ℤ) → is_int64 x ≡ true → of_u64 (to_u64 x) ≡ x
unfolding of_u64 to_u64
of_u64-to_u64 (pos n) h = ground arith
of_u64-to_u64 (negsuc n) h = ground arith

pub to_u64_bound : (x : ℤ) → is_int64 x ≡ true → to_u64 x < 2 ^ 64
unfolding to_u64
to_u64_bound (pos n) h = ground arith
to_u64_bound (negsuc n) h = ground arith

module _ {ℓ} {A : Type ℓ} where
  pub take-take : (n m : ℕ) (xs : List A) → n ≤ m → take n (take m xs) ≡ take n xs
  take-take zero m xs h = refl
  take-take (suc n) zero xs h = absurd (omega arith)
  take-take (suc n) (suc m) [] h = refl
  take-take (suc n) (suc m) (x ∷ xs) h = ap (λ ys. x ∷ ys) (take-take n m xs (omega arith))

  take-nil : (k : ℕ) → take {A = A} k [] ≡ []
  take-nil zero = refl
  take-nil (suc k) = refl

  pub drop-nil : (k : ℕ) → drop {A = A} k [] ≡ []
  drop-nil zero = refl
  drop-nil (suc k) = refl

  pub drop-take : (n k m : ℕ) (xs : List A) → m ≡ n + k → drop n (take m xs) ≡ take k (drop n xs)
  drop-take zero k m xs e = ap (λ j. take j xs) (omega arith)
  drop-take (suc n) k zero xs e = absurd (omega arith)
  drop-take (suc n) k (suc m) [] e = sym (take-nil k)
  drop-take (suc n) k (suc m) (x ∷ xs) e = drop-take n k m xs (omega arith)

  pub drop-drop : (n k m : ℕ) (xs : List A) → m ≡ n + k → drop k (drop n xs) ≡ drop m xs
  drop-drop zero k m xs e = ap (λ j. drop j xs) (omega arith)
  drop-drop (suc n) k zero xs e = absurd (omega arith)
  drop-drop (suc n) k (suc m) [] e = drop-nil k
  drop-drop (suc n) k (suc m) (x ∷ xs) e = drop-drop n k m xs (omega arith)

  pub take-append : (xs ys : List A) → take (length xs) (xs ++ ys) ≡ xs
  take-append [] ys = refl
  take-append (x ∷ xs) ys = ap (λ zs. x ∷ zs) (take-append xs ys)

  pub drop-append : (xs ys : List A) → drop (length xs) (xs ++ ys) ≡ ys
  drop-append [] ys = refl
  drop-append (x ∷ xs) ys = drop-append xs ys
