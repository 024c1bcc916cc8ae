-- ===== src/Ring/Mask.antt =====
-- `index & mask_` is the remainder by the capacity, since the capacity is a power of two.
use low_latency_orderbook.Prelude.{
  ℕ, zero, suc, ◌+◌, ◌-◌, ◌*◌, ◌/◌, ◌%◌, ◌≤◌, ◌<◌, ◌≡◌, refl, sym, ap, ◌∙◌, true, false, Bool-cases,
  inl, inr, ◌==◌, arith,
}
use native.Mathlib.Nat.{mod-lt, mod-eq_of_lt, add-mul-mod_self_left, div-add-mod'}
use mathlib.Core.Bool.{false≢true}
use low_latency_orderbook.Ring.{Ring, is_power_of_two}
use low_latency_orderbook.Ring.Valid.{IsValid}

-- `&` of two numbers, over so many binary digits
unfoldable bit_and : ℕ → ℕ → ℕ → ℕ
bit_and zero a b = 0
bit_and (suc digits) a b = bit_and digits (a / 2) (b / 2) * 2 + (a % 2) * (b % 2)

bit_and-zero : (digits a : ℕ) → bit_and digits a 0 ≡ 0
unfolding bit_and
bit_and-zero zero a = refl
bit_and-zero (suc digits) a = omega (arith, bit_and-zero digits (a / 2))

-- the remainder by an even number, from that of the half by the half
mod-even : (a d : ℕ) → 1 ≤ d → a / 2 % d * 2 + a % 2 ≡ a % (2 * d)
mod-even a d h = sym (
    ap (λ x. x % (2 * d)) split
    ∙ add-mul-mod_self_left (a / 2 % d * 2 + a % 2) (2 * d) (a / 2 / d)
    ∙ mod-eq_of_lt (omega (arith, small)))
  where
    small : a / 2 % d < d
    small = mod-lt (a / 2) h

    product : 2 * d * (a / 2 / d) ≡ 2 * (a / 2 / d * d)
    product = grind arith

    split : a ≡ (a / 2 % d * 2 + a % 2) + 2 * d * (a / 2 / d)
    split = omega (arith, product, div-add-mod' (a / 2) d)

halved :
    (digits c : ℕ)
    → is_power_of_two (suc digits) c ≡ true
    → (c == 1) ≡ false
    → (is_power_of_two digits (c / 2) ≡ true) × (c ≡ 2 * (c / 2))
unfolding is_power_of_two
halved digits c h more = elim (Bool-cases (c % 2 == 0)) [
  | inl even ↦ (rw (more, even) at h, ground arith)
  | inr odd ↦ absurd (false≢true (rw (more, odd) at h))
]

one_of : (c : ℕ) → (c == 1) ≡ true → c ≡ 1
one_of c e = ground arith

-- The mask of a power of two keeps the remainder by it.
bit_and-mask :
    (digits a c : ℕ)
    → is_power_of_two digits c ≡ true
    → (1 ≤ c) × (bit_and digits a (c - 1) ≡ a % c)
unfolding bit_and is_power_of_two
bit_and-mask zero a c h = absurd (false≢true h)
bit_and-mask (suc digits) a c h = elim (Bool-cases (c == 1)) [
  | inl one ↦ rw (one_of c one) (omega arith, omega (arith, bit_and-zero digits (a / 2)))
  | inr more ↦
      let (half, double) = halved digits c h more in
      let (some_half, ih) = bit_and-mask digits (a / 2) (c / 2) half in
      let low : (c - 1) / 2 ≡ c / 2 - 1 = omega (arith, double, some_half) in
      let bit : (c - 1) % 2 ≡ 1 = omega (arith, double, some_half) in
      (
        omega (arith, double, some_half),
        rw (low, bit, ih)
            (omega (arith, mod-even a (c / 2) some_half) ∙ ap (λ x. a % x) (sym double)),
      )
]

-- On a valid ring the slot of an index is `index & mask_`.
slot_of_index :
    {A : Type 0} (r : Ring A) (index : ℕ)
    → IsValid r
    → bit_and 64 index (r.capacity - 1) ≡ index % r.capacity
slot_of_index r index v = (bit_and-mask 64 index r.capacity v.power_of_two).1
