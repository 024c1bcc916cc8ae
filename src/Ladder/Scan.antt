-- ===== src/Ladder/Scan.antt =====
-- The loops of `AdvanceBest`: each stops at the first level that is not empty, in its direction.
use low_latency_orderbook.Prelude.{
  ℕ, zero, suc, ◌+◌, ◌≤◌, ◌<◌, ◌≡◌, subst, true, false, Bool-cases, inl, inr, none, some, arith,
  if◌then◌else◌,
}
use native.Mathlib.Decide.{dec_lt}
use low_latency_orderbook.Pool.{Link}
use low_latency_orderbook.Level.{PriceLevel, is_empty}
use low_latency_orderbook.Ladder.{scan_down, scan_up}

-- What a scan of the offsets from `lo` below `hi` returns; `nearer` says which of them it tries
-- before a given one.
abbrev pub Found : (ℕ → PriceLevel) → ℕ → ℕ → (ℕ → ℕ → Type 0) → Link → Type 0
Found levels lo hi nearer none = (o : ℕ) → lo ≤ o → o < hi → is_empty (levels o) ≡ true
Found levels lo hi nearer (some b) =
    (lo ≤ b)
    × (b < hi)
    × (is_empty (levels b) ≡ false)
    × ((o : ℕ) → lo ≤ o → o < hi → nearer o b → is_empty (levels o) ≡ true)

-- one more level, an empty one, above the range
widen_down :
    (levels : ℕ → PriceLevel) (n : ℕ) (r : Link)
    → is_empty (levels n) ≡ true
    → Found levels 0 n (λ o b. b < o) r
    → Found levels 0 (suc n) (λ o b. b < o) r
widen_down levels n none e f = λ o l h. elim (dec_lt o n) [
  | yes k ↦ f o l k
  | no k ↦ subst (λ t. is_empty (levels t) ≡ true) (omega arith) e
]
widen_down levels n (some b) e f = (
  f.0,
  omega (arith, f.1),
  f.2,
  λ o l h k. elim (dec_lt o n) [
    | yes k' ↦ f.3 o l k' k
    | no k' ↦ subst (λ t. is_empty (levels t) ≡ true) (omega arith) e
  ],
)

-- one more level, an empty one, below the range
widen_up :
    (levels : ℕ → PriceLevel) (lo hi : ℕ) (r : Link)
    → is_empty (levels lo) ≡ true
    → Found levels (suc lo) hi (λ o b. o < b) r
    → Found levels lo hi (λ o b. o < b) r
widen_up levels lo hi none e f = λ o l h. elim (dec_lt lo o) [
  | yes k ↦ f o k h
  | no k ↦ subst (λ t. is_empty (levels t) ≡ true) (omega arith) e
]
widen_up levels lo hi (some b) e f = (
  omega (arith, f.0),
  f.1,
  f.2,
  λ o l h k. elim (dec_lt lo o) [
    | yes k' ↦ f.3 o k' h k
    | no k' ↦ subst (λ t. is_empty (levels t) ≡ true) (omega arith) e
  ],
)

scan_down-suc :
    (levels : ℕ → PriceLevel) (n : ℕ)
    → scan_down levels (suc n) ≡ (if is_empty (levels n) then scan_down levels n else some n)
unfolding scan_down
scan_down-suc levels n = ground arith

scan_up-suc :
    (levels : ℕ → PriceLevel) (lo n : ℕ)
    → scan_up levels lo (suc n)
      ≡ (if is_empty (levels lo) then scan_up levels (suc lo) n else some lo)
unfolding scan_up
scan_up-suc levels lo n = ground arith

-- The scan for bids finds the highest level below `n` that is not empty.
pub scan_down-Found :
    (levels : ℕ → PriceLevel) (n : ℕ) → Found levels 0 n (λ o b. b < o) (scan_down levels n)
scan_down-Found levels zero = unfold scan_down in (λ o l h. absurd (omega arith))
scan_down-Found levels (suc n) = elim (Bool-cases (is_empty (levels n))) [
  | inl e ↦
      rw (scan_down-suc levels n, e)
        (widen_down levels n (scan_down levels n) e (scan_down-Found levels n))
  | inr e ↦
      rw (scan_down-suc levels n, e) (omega arith, omega arith, e, λ o l h k. absurd (omega arith))
]

-- The scan for asks finds the lowest level from `lo` on that is not empty.
pub scan_up-Found :
    (levels : ℕ → PriceLevel) (lo n hi : ℕ)
    → lo + n ≡ hi
    → Found levels lo hi (λ o b. o < b) (scan_up levels lo n)
scan_up-Found levels lo zero hi eq = unfold scan_up in (λ o l h. absurd (omega arith))
scan_up-Found levels lo (suc n) hi eq = elim (Bool-cases (is_empty (levels lo))) [
  | inl e ↦
      rw (scan_up-suc levels lo n, e)
        (widen_up levels lo hi (scan_up levels (suc lo) n) e
          (scan_up-Found levels (suc lo) n hi (omega arith)))
  | inr e ↦
      rw (scan_up-suc levels lo n, e) (omega arith, omega arith, e, λ o l h k. absurd (omega arith))
]
