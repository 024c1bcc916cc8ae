-- ===== src/Logger/Drain.antt =====
-- The logger's thread writes every record of the ring, in order, and flushes before it ends.
use low_latency_orderbook.Prelude.{
  ℕ, zero, suc, ◌+◌, ◌%◌, ◌^◌, ◌<◌, ◌≤◌, ◌≡◌, refl, sym, ap, subst, ◌∙◌, Bool, true, false,
  Bool-cases, inl, inr, some, List, [], ◌∷◌, ◌++◌, append_assoc, append-nil, length, length-append,
  arith,
}
use mathlib.Core.Bool.{false≢true}
use low_latency_orderbook.Map.{is_nil}
use low_latency_orderbook.Ring.{try_pop_batch}
use low_latency_orderbook.Ring.Valid.{IsValid, try_pop_batch-IsValid}
use low_latency_orderbook.Ring.Refine.{contents}
use low_latency_orderbook.Ring.Batch.{try_pop_batch-contents}
use low_latency_orderbook.Logger.{
  AsyncLogger, LogRecord, logger_batch_size, consume, write_batch, flush, flush_if,
}

-- What is shown of the thread that started from `l`: it ends, everything in the ring is written and
-- flushed, in order, and counted.
pub record Drained (l : AsyncLogger) (out : low_latency_orderbook.Prelude.Option AsyncLogger)
    : Type 0 where
  pub final : AsyncLogger
  pub returns : out ≡ some final
  pub written : final.out ≡ l.out ++ contents l.ring
  pub all_flushed : final.flushed ≡ length final.out
  pub counted : final.records_written ≡ l.records_written + length (contents l.ring)
  pub kept_drops : final.records_dropped ≡ l.records_dropped

abbrev pub passes : Bool → ℕ
passes true = 1
passes false = 2

nil_of_length : {A : Type 0} (xs : List A) → length xs ≡ 0 → xs ≡ []
nil_of_length [] e = refl
nil_of_length (x ∷ xs) e = absurd (omega (arith, e))

nil_length : {A : Type 0} (xs : List A) → is_nil xs ≡ true → length xs ≡ 0
nil_length [] e = refl
nil_length (x ∷ xs) e = absurd (false≢true e)

some_length : {A : Type 0} (xs : List A) → is_nil xs ≡ false → 1 ≤ length xs
some_length [] e = absurd (false≢true (sym e))
some_length (x ∷ xs) e = omega arith

batch : AsyncLogger → List LogRecord
batch l = (try_pop_batch logger_batch_size l.ring).0

popped : AsyncLogger → AsyncLogger
popped l = record l { ring = (try_pop_batch logger_batch_size l.ring).1 }

consume-some :
    (fuel : ℕ) (l : AsyncLogger) (stopping dirty : Bool)
    → is_nil (batch l) ≡ false
    → consume (suc fuel) l stopping dirty
      ≡ consume fuel (write_batch (popped l) (batch l)) stopping true
unfolding consume batch popped
consume-some fuel l stopping dirty e = rw (e, consume) refl

consume-last :
    (fuel : ℕ) (l : AsyncLogger) (dirty : Bool)
    → is_nil (batch l) ≡ true
    → consume (suc fuel) l true dirty ≡ some (flush (popped l))
unfolding consume batch popped
consume-last fuel l dirty e = rw (e, consume) refl

consume-idle :
    (fuel : ℕ) (l : AsyncLogger) (dirty : Bool)
    → is_nil (batch l) ≡ true
    → consume (suc fuel) l false dirty ≡ consume fuel (flush_if dirty (popped l)) true false
unfolding consume batch popped
consume-idle fuel l dirty e = rw (e, consume) refl

-- a logger on the way: what it has written and what it still holds are the same together
record OnTheWay (l l' : AsyncLogger) : Type 0 where
  all : l'.out ++ contents l'.ring ≡ l.out ++ contents l.ring
  count :
      l'.records_written + length (contents l'.ring) ≡ l.records_written + length (contents l.ring)
  drops : l'.records_dropped ≡ l.records_dropped

carry :
    {l l' : AsyncLogger} (o o' : low_latency_orderbook.Prelude.Option AsyncLogger)
    → OnTheWay l l'
    → o ≡ o'
    → Drained l' o'
    → Drained l o
carry o o' w e d = record {
  final = d.final;
  returns = e ∙ d.returns;
  written = d.written ∙ w.all;
  all_flushed = d.all_flushed;
  counted = d.counted ∙ w.count;
  kept_drops = d.kept_drops ∙ w.drops;
}

module _ (l : AsyncLogger) (v : IsValid l.ring) where
  batch_lem :
      (contents l.ring ≡ batch l ++ contents (popped l).ring)
      × (length (batch l) ≡ 0 → length (contents l.ring) ≡ 0)
      × IsValid (popped l).ring
  unfolding batch popped
  batch_lem =
      let q = try_pop_batch-contents 256 l.ring v (omega arith) in
      (q.0, q.2, try_pop_batch-IsValid 256 l.ring v)

  lengths : length (contents l.ring) ≡ length (batch l) + length (contents (popped l).ring)
  lengths = ap length batch_lem.0 ∙ length-append (batch l) (contents (popped l).ring)

  after_write :
      l.records_written + length (contents l.ring) < 2 ^ 64
      → OnTheWay l (write_batch (popped l) (batch l))
  unfolding write_batch popped
  after_write k = record {
    all =
        append_assoc l.out (batch l) (contents (popped l).ring)
        ∙ ap (λ c. l.out ++ c) (sym batch_lem.0);
    count = omega (arith, k, lengths);
    drops = refl;
  }

  emptied : is_nil (batch l) ≡ true → (contents l.ring ≡ []) × (contents (popped l).ring ≡ [])
  emptied e =
      let z = batch_lem.1 (nil_length (batch l) e) in
      (
        nil_of_length (contents l.ring) z,
        nil_of_length (contents (popped l).ring) (omega (arith, lengths, z)),
      )

  nothing_moved : is_nil (batch l) ≡ true → OnTheWay l (popped l)
  unfolding popped
  nothing_moved e =
      let z = emptied e in
      record {
        all = ap (λ c. l.out ++ c) (z.1 ∙ sym z.0);
        count = ap (λ c. l.records_written + length c) (z.1 ∙ sym z.0);
        drops = refl;
      }

  after_flush : (dirty : Bool) → is_nil (batch l) ≡ true → OnTheWay l (flush_if dirty (popped l))
  unfolding flush
  after_flush true e =
      let w = nothing_moved e in record { all = w.all; count = w.count; drops = w.drops }
  after_flush false e = nothing_moved e

  flushed_ring : (dirty : Bool) → (flush_if dirty (popped l)).ring ≡ (popped l).ring
  unfolding flush
  flushed_ring true = refl
  flushed_ring false = refl

  last_pass : is_nil (batch l) ≡ true → Drained l (some (flush (popped l)))
  unfolding flush popped
  last_pass e =
      let z = emptied e in
      record {
        final = flush (popped l);
        returns = refl;
        written = sym (append-nil l.out) ∙ ap (λ c. l.out ++ c) (sym z.0);
        all_flushed = refl;
        counted = omega (arith, ap length z.0);
        kept_drops = refl;
      }

-- Once `stop` is set and nothing is pushed any more, the logger's thread ends, given a pass for each
-- record of the ring and two more. Every record of the ring is then written behind the earlier ones,
-- in order, flushed and counted, as long as the counter fits in 64 bits.
pub consume-Drained :
    (fuel : ℕ) (l : AsyncLogger) (stopping dirty : Bool)
    → IsValid l.ring
    → l.records_written + length (contents l.ring) < 2 ^ 64
    → length (contents l.ring) + passes stopping ≤ fuel
    → Drained l (consume fuel l stopping dirty)
unfolding write_batch
consume-Drained zero l true dirty v k few = absurd (omega arith)
consume-Drained zero l false dirty v k few = absurd (omega arith)
consume-Drained (suc fuel) l true dirty v k few = elim (Bool-cases (is_nil (batch l))) [
  | inr e ↦ carry _ _ (after_write l v k) (consume-some fuel l true dirty e) (
      consume-Drained fuel (write_batch (popped l) (batch l)) true true (batch_lem l v).2
        (omega (arith, (after_write l v k).count, k))
        (omega (arith, lengths l v, few, some_length (batch l) e)))
  | inl e ↦ rw (consume-last fuel l dirty e) (last_pass l v e)
]
consume-Drained (suc fuel) l false dirty v k few = elim (Bool-cases (is_nil (batch l))) [
  | inr e ↦ carry _ _ (after_write l v k) (consume-some fuel l false dirty e) (
      consume-Drained fuel (write_batch (popped l) (batch l)) false true (batch_lem l v).2
        (omega (arith, (after_write l v k).count, k))
        (omega (arith, lengths l v, few, some_length (batch l) e)))
  | inl e ↦
      let w = after_flush l v dirty e in
      carry _ _ w (consume-idle fuel l dirty e) (
        consume-Drained fuel (flush_if dirty (popped l)) true false
          (subst IsValid (sym (flushed_ring l v dirty)) (batch_lem l v).2)
          (omega (arith, w.count, k))
          (omega (
            arith,
            few,
            ap length (emptied l v e).1,
            ap (λ r. length (contents r)) (flushed_ring l v dirty),
          )))
]
