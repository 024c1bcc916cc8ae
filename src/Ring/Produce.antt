-- ===== src/Ring/Produce.antt =====
-- A producer that pushes several items, one after the other.
use low_latency_orderbook.Prelude.{
  ℕ, ◌+◌, ◌^◌, ◌≤◌, ◌<◌, ◌≡◌, ◌∙◌, sym, ap, refl, List, [], ◌∷◌, ◌++◌, append_assoc, append-nil,
  length, length-append, arith,
}
use low_latency_orderbook.Ring.{Ring, try_push, try_pop_batch}
use low_latency_orderbook.Ring.Valid.{IsValid, try_push-IsValid}
use low_latency_orderbook.Ring.Refine.{contents, try_push-contents}

module _ {A : Type 0} where
  unfoldable pub push_all : List A → Ring A → Ring A
  push_all [] r = r
  push_all (x ∷ xs) r = push_all xs (try_push x r).1

  pub push_fields :
      (x : A) (r : Ring A)
      → ((try_push x r).1.capacity ≡ r.capacity) × ((try_push x r).1.tail ≤ r.tail + 1)
  unfolding try_push
  push_fields x r = ground arith

  pub pop_fields :
      (n : ℕ) (r : Ring A)
      → ((try_pop_batch n r).1.capacity ≡ r.capacity) × ((try_pop_batch n r).1.tail ≡ r.tail)
  unfolding try_pop_batch
  pop_fields n r = ground arith

  pub record Pushed (r r' : Ring A) (xs : List A) : Type 0 where
    pub valid : IsValid r'
    pub held : contents r' ≡ contents r ++ xs
    pub capacity : r'.capacity ≡ r.capacity
    pub tail : r'.tail ≤ r.tail + length xs

  room :
      (x : A) (r : Ring A)
      → IsValid r
      → r.tail + 1 < 2 ^ 64
      → length (contents r) < r.capacity
      → contents (try_push x r).1 ≡ contents r ++ x ∷ []
  room x r v k h = ground (arith, try_push-contents x r v k)

  -- Items that fit are all accepted, in order.
  pub push_all-Pushed :
      (xs : List A) (r : Ring A)
      → IsValid r
      → r.tail + length xs < 2 ^ 64
      → length (contents r) + length xs ≤ r.capacity
      → Pushed r (push_all xs r) xs
  unfolding push_all
  push_all-Pushed [] r v k h = record {
    valid = v;
    held = sym (append-nil (contents r));
    capacity = refl;
    tail = omega arith;
  }
  push_all-Pushed (x ∷ xs) r v k h =
      let e = room x r v (omega (arith, k)) (omega (arith, h)) in
      let f = push_fields x r in
      let l = ap length e ∙ length-append (contents r) (x ∷ []) in
      let p =
        push_all-Pushed xs (try_push x r).1 (try_push-IsValid x r v (omega (arith, k)))
          (omega (arith, k, f)) (omega (arith, h, f, l)) in
      record {
        valid = p.valid;
        held = p.held ∙ ap (λ l. l ++ xs) e ∙ append_assoc (contents r) (x ∷ []) xs;
        capacity = p.capacity ∙ f.0;
        tail = omega (arith, p.tail, f);
      }
