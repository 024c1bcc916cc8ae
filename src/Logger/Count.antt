-- ===== src/Logger/Count.antt =====
-- A record is logged or counted as dropped, and never both.
use low_latency_orderbook.Prelude.{
  ℕ, zero, suc, ◌-◌, take, true, false, ◌+◌, ◌^◌, ◌<◌, ◌≤◌, ◌≡◌, refl, sym, ap, ◌∙◌, Bool-cases,
  inl, inr, List, [], ◌∷◌, ◌++◌, append_assoc, append-nil, length, length-append, arith,
}
use low_latency_orderbook.Ring.{Ring, try_push}
use low_latency_orderbook.Ring.Valid.{IsValid, try_push-IsValid}
use low_latency_orderbook.Ring.Refine.{contents, try_push-contents}
use low_latency_orderbook.Ring.Produce.{push_fields}
use low_latency_orderbook.Logger.{AsyncLogger, LogRecord, log, log_all}

-- What `log_all` did with `recs`: it kept those of `kept` in the ring, in order, which are the first
-- ones, as many as there is room for, and counted the others.
pub record Logged (l l' : AsyncLogger) (recs : List LogRecord) : Type 0 where
  pub kept : List LogRecord
  pub first_ones : kept ≡ take (l.ring.capacity - length (contents l.ring)) recs
  pub capacity : l'.ring.capacity ≡ l.ring.capacity
  pub valid : IsValid l'.ring
  pub held : contents l'.ring ≡ contents l.ring ++ kept
  pub dropped : l'.records_dropped + length kept ≡ l.records_dropped + length recs
  pub tail : l'.ring.tail ≤ l.ring.tail + length recs
  pub out : l'.out ≡ l.out

take-nil : (n : ℕ) → take {A = LogRecord} n [] ≡ []
take-nil zero = refl
take-nil (suc n) = refl

take-one : (n : ℕ) (rec : LogRecord) → 1 ≤ n → take n (rec ∷ []) ≡ rec ∷ []
take-one zero rec h = absurd (omega arith)
take-one (suc zero) rec h = refl
take-one (suc (suc n)) rec h = refl

take-cons :
    (n : ℕ) (rec : LogRecord) (recs : List LogRecord)
    → take n (rec ∷ []) ++ take (n - length (take n (rec ∷ []))) recs ≡ take n (rec ∷ recs)
take-cons zero rec recs = refl
take-cons (suc n) rec recs =
    ap (λ xs. rec ∷ (xs ++ take (suc n - suc (length xs)) recs)) (take-nil n)
    ∙ ap (λ m. rec ∷ take m recs) (omega arith)

try_push-capacity :
    (rec : LogRecord) (r : Ring LogRecord) → (try_push rec r).1.capacity ≡ r.capacity
unfolding try_push
try_push-capacity rec r = ground arith

one-Logged :
    (l : AsyncLogger) (rec : LogRecord)
    → IsValid l.ring
    → l.ring.tail + 1 < 2 ^ 64
    → l.records_dropped + 1 < 2 ^ 64
    → Logged l (log l rec) (rec ∷ [])
unfolding log
one-Logged l rec v k d = elim (Bool-cases (try_push rec l.ring).0) [
  | inl ok ↦
      rw (ok, log)
        (record {
          kept = rec ∷ [];
          first_ones = sym (take-one (l.ring.capacity - length (contents l.ring)) rec (room ok));
          capacity = try_push-capacity rec l.ring;
          valid = try_push-IsValid rec l.ring v k;
          held = ground (arith, try_push-contents rec l.ring v k);
          dropped = omega arith;
          tail = omega (arith, push_fields rec l.ring);
          out = refl;
        })
  | inr full ↦
      rw (full, log)
        (record {
          kept = [];
          first_ones = rw (no_room full) refl;
          capacity = try_push-capacity rec l.ring;
          valid = try_push-IsValid rec l.ring v k;
          held = ground (arith, try_push-contents rec l.ring v k, append-nil (contents l.ring));
          dropped = omega arith;
          tail = omega (arith, push_fields rec l.ring);
          out = refl;
        })
]
  where
    room : (try_push rec l.ring).0 ≡ true → 1 ≤ l.ring.capacity - length (contents l.ring)
    room ok = let e = sym (try_push-contents rec l.ring v k).0 ∙ ok in ground arith

    no_room : (try_push rec l.ring).0 ≡ false → l.ring.capacity - length (contents l.ring) ≡ 0
    no_room full = let e = sym (try_push-contents rec l.ring v k).0 ∙ full in ground arith

-- Records logged one after the other to a valid ring: the first of them, as many as there are free
-- slots, stand in it behind the earlier ones, and the drop counter rose by the number of the others, as long as the ring's
-- index and the counter fit in 64 bits. The logger never waits and writes nothing itself.
pub log_all-Logged :
    (l : AsyncLogger) (recs : List LogRecord)
    → IsValid l.ring
    → l.ring.tail + length recs < 2 ^ 64
    → l.records_dropped + length recs < 2 ^ 64
    → Logged l (log_all l recs) recs
unfolding log_all
log_all-Logged l [] v k d = record {
  kept = [];
  first_ones = sym (take-nil (l.ring.capacity - length (contents l.ring)));
  capacity = refl;
  valid = v;
  held = sym (append-nil (contents l.ring));
  dropped = refl;
  tail = omega arith;
  out = refl;
}
log_all-Logged l (rec ∷ recs) v k d =
    let p = one-Logged l rec v (omega (arith, k)) (omega (arith, d)) in
    let q =
      log_all-Logged (log l rec) recs p.valid (omega (arith, p.tail, k))
        (omega (arith, p.dropped, d)) in
    record {
      kept = p.kept ++ q.kept;
      first_ones =
          ap (λ k. p.kept ++ k)
            (q.first_ones
              ∙ ap (λ n. take n recs)
                  (omega (
                    arith,
                    p.capacity,
                    ap length p.held,
                    length-append (contents l.ring) p.kept,
                    ap length p.first_ones,
                  )))
          ∙ ap (λ k. k ++ take (l.ring.capacity - length (contents l.ring) - length k) recs)
              p.first_ones
          ∙ take-cons (l.ring.capacity - length (contents l.ring)) rec recs;
      capacity = q.capacity ∙ p.capacity;
      valid = q.valid;
      held = q.held ∙ ap (λ c. c ++ q.kept) p.held ∙ append_assoc (contents l.ring) p.kept q.kept;
      dropped = omega (arith, p.dropped, q.dropped, length-append p.kept q.kept);
      tail = omega (arith, p.tail, q.tail);
      out = q.out ∙ p.out;
    }
