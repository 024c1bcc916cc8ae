-- ===== src/Ring/Refine.antt =====
-- The ring is a bounded FIFO queue of the items between the consumer and the producer.
use low_latency_orderbook.Prelude.{
  ℕ, zero, suc, ◌+◌, ◌-◌, ◌%◌, ◌^◌, ◌≤◌, ◌<◌, ◌≡◌, ◌≢◌, refl, sym, ap, subst, ◌∙◌, Bool, true,
  false, Bool-cases, inl, inr, Option, none, some, List, [], ◌∷◌, ◌++◌, arith, length, ltb,
  if◌then◌else◌, update, update_ne, ◌==◌,
}
use native.Mathlib.Nat.{mod-add-mod, mod-eq_of_lt, mod-eq-sub-mod, add-zero}
use mathlib.Core.Path.{ap₂}
use native.Mathlib.Decide.{dec_lt}
use low_latency_orderbook.Ring.{Ring, try_push, try_pop, size, copy_out}
use low_latency_orderbook.Map.{is_nil}
use low_latency_orderbook.Ring.Valid.{IsValid}

-- Two indices less than a capacity apart have different slots.
mod-ne : (cap a d : ℕ) → 0 < d → d < cap → (a + d) % cap ≢ a % cap
mod-ne cap a d h k e = elim (dec_lt (a % cap + d) cap) [
  | yes p ↦ omega (arith, mod-eq_of_lt p, mod-add-mod a cap d, e)
  | no p ↦ omega (
    arith,
    e,
    mod-add-mod a cap d,
    mod-eq-sub-mod {n = a % cap + d} {m = cap} (omega arith),
    mod-eq_of_lt {n = a % cap + d - cap} {m = cap} (omega arith),
  )
]

module _ {A : Type 0} where
  pub length-copy_out : (s : ℕ → A) (cap h n : ℕ) → length (copy_out s cap h n) ≡ n
  unfolding copy_out
  length-copy_out s cap h zero = refl
  length-copy_out s cap h (suc n) = ap suc (length-copy_out s cap (suc h) n)

  -- A write just past a window extends it.
  copy_out-update :
      (s : ℕ → A) (cap h n : ℕ) (x : A)
      → n < cap
      → copy_out (update s ((h + n) % cap) x) cap h (suc n) ≡ copy_out s cap h n ++ x ∷ []
  unfolding copy_out
  copy_out-update s cap h zero x k = ground (arith, add-zero h)
  copy_out-update s cap h (suc n) x k =
      ap₂ ◌∷◌ (update_ne s ((h + suc n) % cap) x (h % cap) (mod-ne cap h (suc n) (omega arith) k)) (
        subst
          (λ t. copy_out (update s t x) cap (suc h) (suc n) ≡ copy_out s cap (suc h) n ++ x ∷ [])
          shift (copy_out-update s cap (suc h) n x (omega arith)))
    where
      shift : (suc h + n) % cap ≡ (h + suc n) % cap
      shift = ap (λ t. t % cap) (omega arith)

  abbrev pub contents : Ring A → List A
  contents r = copy_out r.slots r.capacity r.head (r.tail - r.head)

  -- The number of items is what `size` returns, and at most the capacity.
  pub length-contents :
      (r : Ring A) → IsValid r → (length (contents r) ≡ size r) × (size r ≤ r.capacity)
  unfolding size
  length-contents r v =
      (length-copy_out r.slots r.capacity r.head (r.tail - r.head) ∙ omega arith, omega arith)

  -- the fields after a push, in terms of those before it
  push_full :
      (x : A) (r : Ring A)
      → IsValid r
      → r.tail - r.head ≡ r.capacity
      → let (ok, r') = try_push x r in
        (ok ≡ false)
        × (r'.slots ≡ r.slots)
        × (r'.capacity ≡ r.capacity)
        × (r'.head ≡ r.head)
        × (r'.tail ≡ r.tail)
  unfolding try_push
  push_full x r v e = ground arith

  push_room :
      (x : A) (r : Ring A)
      → IsValid r
      → r.tail + 1 < 2 ^ 64
      → r.tail - r.head < r.capacity
      → let (ok, r') = try_push x r in
        (ok ≡ true)
        × (r'.slots ≡ update r.slots (r.tail % r.capacity) x)
        × (r'.capacity ≡ r.capacity)
        × (r'.head ≡ r.head)
        × (r'.tail ≡ suc r.tail)
  unfolding try_push
  push_room x r v k e = ground arith

  contents_room :
      (x : A) (r : Ring A)
      → IsValid r
      → r.tail - r.head < r.capacity
      → copy_out (update r.slots (r.tail % r.capacity) x) r.capacity r.head (suc r.tail - r.head)
        ≡ contents r ++ x ∷ []
  contents_room x r v e =
      rw (count, ← place) (copy_out-update r.slots r.capacity r.head (r.tail - r.head) x e)
    where
      count : suc r.tail - r.head ≡ suc (r.tail - r.head)
      count = omega (arith, v.head_behind, v.tail_stale)

      place : (r.head + (r.tail - r.head)) % r.capacity ≡ r.tail % r.capacity
      place = ap (λ t. t % r.capacity) (omega (arith, v.head_behind, v.tail_stale))

  -- On a valid ring, whose capacity is a power of two, `try_push` fails exactly if the ring is full,
  -- whatever the cached index was, and otherwise appends the item; a failed push keeps the contents.
  -- The index does not reach 2^64.
  pub try_push-contents :
      (x : A) (r : Ring A)
      → IsValid r
      → r.tail + 1 < 2 ^ 64
      → let (ok, r') = try_push x r in
        (ok ≡ ltb (length (contents r)) r.capacity)
        × (contents r' ≡ (if ok then contents r ++ x ∷ [] else contents r))
  try_push-contents x r v k = elim (dec_lt (r.tail - r.head) r.capacity) [
    | yes room ↦
        let f = push_room x r v k room in
        (
          f.0
              ∙ sym (
                  ground
                    (arith, length-copy_out r.slots r.capacity r.head (r.tail - r.head), room)),
          rw (f.0, f.1, f.2, f.3, f.4) (contents_room x r v room),
        )
    | no full ↦
        let f = push_full x r v (omega (arith, v.fits, v.head_stale)) in
        (
          f.0
              ∙ sym (
                  ground
                    (arith, length-copy_out r.slots r.capacity r.head (r.tail - r.head), full)),
          rw (f.0, f.1, f.2, f.3, f.4) refl,
        )
  ]

  pop_fields :
      (r : Ring A)
      → IsValid r
      → let (out, r') = try_pop r in
        (out ≡ (if r.head == r.tail then none else some (r.slots (r.head % r.capacity))))
        × (r'.slots ≡ r.slots)
        × (r'.capacity ≡ r.capacity)
        × (r'.head ≡ (if r.head == r.tail then r.head else suc r.head))
        × (r'.tail ≡ r.tail)
  unfolding try_pop
  pop_fields r v = ground arith

  -- an item that was taken, back before the rest
  abbrev pub put_back : Option A → List A → List A
  put_back none xs = xs
  put_back (some x) xs = x ∷ xs

  abbrev pub is_none : Option A → Bool
  is_none none = true
  is_none (some x) = false

  copy_out-suc :
      (s : ℕ → A) (cap h n m : ℕ)
      → n ≡ suc m
      → copy_out s cap h n ≡ s (h % cap) ∷ copy_out s cap (suc h) m
  unfolding copy_out
  copy_out-suc s cap h n m e = rw e refl

  copy_out-zero : (s : ℕ → A) (cap h n : ℕ) → n ≡ 0 → copy_out s cap h n ≡ []
  unfolding copy_out
  copy_out-zero s cap h n e = rw e refl

  -- On a valid ring, whose capacity is a power of two, `try_pop` fails exactly if the ring is empty,
  -- whatever the cached index was, and otherwise takes the oldest item and leaves the rest.
  pub try_pop-contents :
      (r : Ring A)
      → IsValid r
      → let (out, r') = try_pop r in
        (contents r ≡ put_back out (contents r')) × (is_none out ≡ is_nil (contents r))
  try_pop-contents r v = elim (Bool-cases (r.head == r.tail)) [
    | inl nothing ↦
        let f = pop_fields r v in
        (
          rw (f.0, f.1, f.2, f.3, f.4, nothing) refl,
          rw
              (
                f.0,
                nothing,
                copy_out-zero r.slots r.capacity r.head (r.tail - r.head) (ground (arith, nothing)),
              )
              refl,
        )
    | inr more ↦
        let f = pop_fields r v in
        let e =
          copy_out-suc r.slots r.capacity r.head (r.tail - r.head) (r.tail - suc r.head)
            (ground (arith, more, v.head_behind, v.tail_stale)) in
        (rw (f.0, f.1, f.2, f.3, f.4, more) e, rw (f.0, more, e) refl)
  ]
