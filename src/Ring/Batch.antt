-- ===== src/Ring/Batch.antt =====
-- `try_pop_batch` takes a prefix of the queue in one step.
use low_latency_orderbook.Prelude.{
  ℕ, zero, suc, ◌+◌, ◌-◌, ◌%◌, ◌≤◌, ◌<◌, ◌≡◌, sym, ap, ◌∙◌, ◌∷◌, ◌++◌, arith, length, ltb,
  if◌then◌else◌, ◌==◌,
}
use native.Mathlib.Nat.{add-zero}
use low_latency_orderbook.Ring.{Ring, try_pop_batch, copy_out}
use low_latency_orderbook.Ring.Valid.{IsValid}
use low_latency_orderbook.Ring.Refine.{contents, length-copy_out}

module _ {A : Type 0} where
  copy_out-add :
      (s : ℕ → A) (cap h n m k : ℕ)
      → k ≡ n + m
      → copy_out s cap h k ≡ copy_out s cap h n ++ copy_out s cap (h + n) m
  unfolding copy_out
  copy_out-add s cap h zero m k e = rw (e, add-zero h) (ap (copy_out s cap h) (omega arith))
  copy_out-add s cap h (suc n) m zero e = absurd (omega arith)
  copy_out-add s cap h (suc n) m (suc k) e =
      ap (λ t. s (h % cap) ∷ t)
        (copy_out-add s cap (suc h) n m k (omega arith)
          ∙ ap (λ t. copy_out s cap (suc h) n ++ copy_out s cap t m) (omega arith))

  -- the number of items that a batch takes
  abbrev batch : ℕ → Ring A → ℕ
  batch max_items r =
      let available = (if r.head == r.tail_cache then r.tail else r.tail_cache) - r.head in
      if ltb available max_items then available else max_items

  batch_fields :
      (max_items : ℕ) (r : Ring A)
      → IsValid r
      → let (out, r') = try_pop_batch max_items r in
        let n = batch max_items r in
        (out ≡ copy_out r.slots r.capacity r.head n)
        × (n ≤ max_items)
        × (n ≤ r.tail - r.head)
        × (r'.slots ≡ r.slots)
        × (r'.capacity ≡ r.capacity)
        × (r'.head ≡ r.head + n)
        × (r'.tail ≡ r.tail)
  unfolding try_pop_batch copy_out
  batch_fields max_items r v = ground arith

  batch-empty :
      (max_items : ℕ) (r : Ring A)
      → IsValid r
      → 0 < max_items
      → batch max_items r ≡ 0
      → r.tail - r.head ≡ 0
  batch-empty max_items r v k z = ground arith

  -- On a valid ring, whose capacity is a power of two, and for `max_items` from 1 on, a batch takes a
  -- prefix of the queue in order, at most `max_items` items, and takes none only from an empty queue.
  pub try_pop_batch-contents :
      (max_items : ℕ) (r : Ring A)
      → IsValid r
      → 0 < max_items
      → let (out, r') = try_pop_batch max_items r in
        (contents r ≡ out ++ contents r')
        × (length out ≤ max_items)
        × (length out ≡ 0 → length (contents r) ≡ 0)
  try_pop_batch-contents max_items r v k =
      let (e, bound, l, es, ec, eh, et) = batch_fields max_items r v in
      let n = batch max_items r in
      let (_, r') = try_pop_batch max_items r in
      (
        rw (e, es, ec, eh, et)
            (copy_out-add r.slots r.capacity r.head n (r.tail - (r.head + n)) (r.tail - r.head)
              (omega arith)),
        rw (e, length-copy_out r.slots r.capacity r.head n) bound,
        λ z. rw (length-copy_out r.slots r.capacity r.head (r.tail - r.head)) (
            batch-empty max_items r v k
              (sym (length-copy_out r.slots r.capacity r.head n) ∙ ap length (sym e) ∙ z)),
      )
