-- ===== src/Engine/Drain.antt =====
-- The run loop processes every command, once and in order, and then returns.
use low_latency_orderbook.Prelude.{
  ℕ, zero, suc, Bool, true, false, ◌+◌, ◌^◌, ◌<◌, ◌≤◌, ◌≡◌, refl, sym, ap, ◌∙◌, Option,
  Option-cases, Bool-cases, inl, inr, none, some, List, [], ◌∷◌, ◌++◌, append_assoc, length,
  length-append, arith,
}
use mathlib.Core.Path.{ap₂, fun_ext}
use mathlib.Core.Bool.{false≢true}
use low_latency_orderbook.Types.{Command, Event}
use low_latency_orderbook.Map.{is_nil}
use low_latency_orderbook.Book.Valid.{Sides}
use low_latency_orderbook.Book.Add.{Represents}
use low_latency_orderbook.Engine.Valid.{AreNarrow, process_all-Processed}
use low_latency_orderbook.Ring.{Ring, try_pop_batch}
use low_latency_orderbook.Ring.Valid.{IsValid, try_pop_batch-IsValid}
use low_latency_orderbook.Ring.Refine.{contents}
use low_latency_orderbook.Ring.Batch.{try_pop_batch-contents}
use low_latency_orderbook.Ring.Produce.{push_all, push_all-Pushed, pop_fields}
use low_latency_orderbook.Engine.{MatchingEngine, process, process_all}
use low_latency_orderbook.Engine.Run.{
  engine_batch_size, Schedule, before_pop, after_pop, later, arrivals, RunOutcome, add_batch, run,
}

-- the outcome of a script of `n` commands, as the loop reports it
abbrev pub reported : ℕ → Option (MatchingEngine × List Event) → RunOutcome
reported n none = none
reported n (some (m, events)) = some (n, m, events)

add_nothing : (o : RunOutcome) → o ≡ add_batch 0 [] o
add_nothing none = refl
add_nothing (some (n, m, events)) = ap (λ k. some (k, m, events)) (omega arith)

abbrev after_first :
    List Event → Option (MatchingEngine × List Event) → Option (MatchingEngine × List Event)
after_first events none = none
after_first events (some (m, rest)) = some (m, events ++ rest)

abbrev go_on : ℕ → (MatchingEngine → RunOutcome) → Option (MatchingEngine × List Event) → RunOutcome
go_on n rest none = none
go_on n rest (some (m, events)) = add_batch n events (rest m)

shift :
    (n : ℕ) (es : List Event) (o : Option (MatchingEngine × List Event))
    → reported (suc n) (after_first es o) ≡ add_batch 1 es (reported n o)
shift n es none = refl
shift n es (some (m, rest)) = ap (λ k. some (k, m, es ++ rest)) (omega arith)

add_twice :
    (n : ℕ) (es es' : List Event) (o : RunOutcome)
    → add_batch 1 es (add_batch n es' o) ≡ add_batch (suc n) (es ++ es') o
add_twice n es es' none = refl
add_twice n es es' (some (k, m, rest)) =
    ap₂ (λ (i : ℕ) (l : List Event). some (i, m, l)) (omega arith) (sym (append_assoc es es' rest))

collapse :
    (n : ℕ) (es : List Event) (rest : MatchingEngine → RunOutcome)
    (o : Option (MatchingEngine × List Event))
    → add_batch 1 es (go_on n rest o) ≡ go_on (suc n) rest (after_first es o)
collapse n es rest none = refl
collapse n es rest (some (m, es')) = add_twice n es es' (rest m)

process_all-cons :
    (m : MatchingEngine) (x : Command) (xs : List Command)
    → process_all m (x ∷ xs)
      ≡ (elim (process m x) [ none ↦ none | some (m', es) ↦ after_first es (process_all m' xs) ])
unfolding process_all
process_all-cons m x xs = elim (Option-cases (process m x)) [
  | inl e ↦ rw (e, process_all) refl
  | inr ((m', es), e) ↦ rw (e, process_all) (same es (process_all m' xs))
]
  where
    same :
        (es : List Event) (o : Option (MatchingEngine × List Event))
        → (elim o [ none ↦ none | some (m'', rest) ↦ some (m'', es ++ rest) ]) ≡ after_first es o
    same es none = refl
    same es (some (m'', rest)) = refl

process_all-append :
    (m : MatchingEngine) (xs ys : List Command)
    → reported (length (xs ++ ys)) (process_all m (xs ++ ys))
      ≡ go_on (length xs) (λ m'. reported (length ys) (process_all m' ys)) (process_all m xs)
process_all-append m [] ys =
    unfold process_all in add_nothing (reported (length ys) (process_all m ys))
process_all-append m (x ∷ xs) ys = elim (Option-cases (process m x)) [
  | inl e ↦ rw (process_all-cons m x (xs ++ ys), process_all-cons m x xs, e) refl
  | inr ((m', es), e) ↦
      rw (process_all-cons m x (xs ++ ys), process_all-cons m x xs, e)
        (shift (length (xs ++ ys)) es (process_all m' (xs ++ ys))
          ∙ ap (add_batch 1 es) (process_all-append m' xs ys)
          ∙ collapse (length xs) es (λ m''. reported (length ys) (process_all m'' ys))
              (process_all m' xs))
]

-- the commands that a pass leaves, and the ring after it
record Pass (r r2 : Ring Command) (batch : List Command) (s : Schedule) : Type 0 where
  valid : IsValid r2
  order : contents r ++ arrivals s ≡ batch ++ (contents r2 ++ arrivals (later s))
  tail : r2.tail + length (arrivals (later s)) ≤ r.tail + length (arrivals s)
  capacity : r2.capacity ≡ r.capacity
  drained : length batch ≡ 0 → length (contents r) ≡ 0

arrivals_split : (s : Schedule) → arrivals s ≡ before_pop s ++ (after_pop s ++ arrivals (later s))
arrivals_split [] = refl
arrivals_split (pass ∷ rest) = refl

batch : Ring Command → Schedule → List Command
batch r s = (try_pop_batch engine_batch_size (push_all (before_pop s) r)).0

next_ring : Ring Command → Schedule → Ring Command
next_ring r s =
    push_all (after_pop s) (try_pop_batch engine_batch_size (push_all (before_pop s) r)).1

module _ (r : Ring Command) (s : Schedule) (v : IsValid r)
    (index : r.tail + length (arrivals s) < 2 ^ 64)
    (fits : length (contents r) + length (arrivals s) ≤ r.capacity) where
  pass : Pass r (next_ring r s) (batch r s) s
  unfolding batch next_ring
  pass =
      let lens : length (arrivals s)
          ≡ length (before_pop s) + (length (after_pop s) + length (arrivals (later s))) =
        split_length in
      let p =
        push_all-Pushed (before_pop s) r v (omega (arith, index, lens))
          (omega (arith, fits, lens)) in
      let r0 = push_all (before_pop s) r in
      let q = try_pop_batch-contents 256 r0 p.valid (omega arith) in
      let f = pop_fields 256 r0 in
      let r1 = (try_pop_batch 256 r0).1 in
      let held = ap length p.held ∙ length-append (contents r) (before_pop s) in
      let took = ap length q.0 ∙ length-append (try_pop_batch 256 r0).0 (contents r1) in
      let p' =
        push_all-Pushed (after_pop s) r1 (try_pop_batch-IsValid 256 r0 p.valid)
          (omega (arith, index, lens, f, p.tail))
          (omega (arith, fits, lens, f, p.capacity, held, took)) in
      record {
        valid = p'.valid;
        order =
            ap (λ l. contents r ++ l) (arrivals_split s)
            ∙ sym (append_assoc (contents r) (before_pop s) (after_pop s ++ arrivals (later s)))
            ∙ ap (λ l. l ++ (after_pop s ++ arrivals (later s))) (sym p.held ∙ q.0)
            ∙ append_assoc (try_pop_batch 256 r0).0 (contents r1)
                (after_pop s ++ arrivals (later s))
            ∙ ap (λ l. (try_pop_batch 256 r0).0 ++ l)
                (sym (append_assoc (contents r1) (after_pop s) (arrivals (later s))))
            ∙ ap (λ l. (try_pop_batch 256 r0).0 ++ (l ++ arrivals (later s))) (sym p'.held);
        tail = omega (arith, lens, p'.tail, p.tail, f);
        capacity = p'.capacity ∙ f.0 ∙ p.capacity;
        drained = λ z. omega (arith, q.2 z, held);
      }
    where
      split_length :
          length (arrivals s)
          ≡ length (before_pop s) + (length (after_pop s) + length (arrivals (later s)))
      split_length =
          ap length (arrivals_split s)
          ∙ length-append (before_pop s) (after_pop s ++ arrivals (later s))
          ∙ ap (λ n. length (before_pop s) + n) (length-append (after_pop s) (arrivals (later s)))

-- the fuel that a run needs: a pass for each entry of the schedule and each command, and two more
abbrev pub enough : Bool → ℕ
enough true = 1
enough false = 2

-- the loop after its batch
abbrev continue : ℕ → MatchingEngine → Ring Command → Bool → Schedule → List Command → RunOutcome
continue fuel m r stopping s b = elim (is_nil b) [
  | false ↦ run fuel m r stopping (later s)
  | true ↦ elim stopping [
    | true ↦ some (0, m, [])
    | false ↦ run fuel m r (is_nil (later s)) (later s)
  ]
]

run-next :
    (fuel : ℕ) (m : MatchingEngine) (r : Ring Command) (stopping : Bool) (s : Schedule)
    → run (suc fuel) m r stopping s
      ≡ go_on
          (length (batch r s))
          (λ m'. continue fuel m' (next_ring r s) stopping s (batch r s))
          (process_all m (batch r s))
unfolding run batch next_ring
run-next fuel m r stopping s = elim (Option-cases (process_all m (batch r s))) [
  | inl e ↦ rw (e, run) refl
  | inr ((m', es), e) ↦ rw (e, run) refl
]

nil_of : {A : Type 0} (xs : List A) → is_nil xs ≡ true → xs ≡ []
nil_of [] e = refl
nil_of (x ∷ xs) e = absurd (false≢true e)

nil_of_length : {A : Type 0} (xs : List A) → length xs ≡ 0 → xs ≡ []
nil_of_length [] e = refl
nil_of_length (x ∷ xs) e = absurd (omega (arith, e))

some_length : {A : Type 0} (xs : List A) → is_nil xs ≡ false → 1 ≤ length xs
some_length [] e = absurd (false≢true (sym e))
some_length (x ∷ xs) e = omega arith

length-later : (s : Schedule) → length (later s) ≤ length s
length-later [] = omega arith
length-later (x ∷ s) = omega arith

idle : (s : Schedule) → length (later s) + enough (is_nil (later s)) ≤ length s + 1
idle [] = omega arith
idle (x ∷ []) = omega arith
idle (x ∷ y ∷ s) = omega arith

-- what a run with this fuel is to do
Drains : ℕ → Type 0
Drains fuel =
    (m : MatchingEngine) (r : Ring Command) (stopping : Bool) (s : Schedule)
    → IsValid r
    → r.tail + length (arrivals s) < 2 ^ 64
    → length (contents r) + length (arrivals s) ≤ r.capacity
    → (stopping ≡ true → s ≡ [])
    → length s + length (contents r ++ arrivals s) + enough stopping ≤ fuel
    → run fuel m r stopping s
      ≡ reported (length (contents r ++ arrivals s)) (process_all m (contents r ++ arrivals s))

module _ (fuel : ℕ) (ih : Drains fuel) (r : Ring Command) (s : Schedule) (v : IsValid r)
    (index : r.tail + length (arrivals s) < 2 ^ 64)
    (fits : length (contents r) + length (arrivals s) ≤ r.capacity) where
  b : List Command
  b = batch r s

  r2 : Ring Command
  r2 = next_ring r s

  cs : List Command
  cs = contents r2 ++ arrivals (later s)

  p : Pass r r2 b s
  unfolding b r2
  p = pass r s v index fits

  counted : length (contents r ++ arrivals s) ≡ length b + length cs
  unfolding cs
  counted = ap length p.order ∙ length-append b cs

  both : length cs ≡ length (contents r2) + length (arrivals (later s))
  unfolding cs
  both = length-append (contents r2) (arrivals (later s))

  all : length (contents r ++ arrivals s) ≡ length (contents r) + length (arrivals s)
  all = length-append (contents r) (arrivals s)

  again :
      (stopping : Bool) (m : MatchingEngine)
      → (stopping ≡ true → later s ≡ [])
      → length (later s) + length cs + enough stopping ≤ fuel
      → run fuel m r2 stopping (later s) ≡ reported (length cs) (process_all m cs)
  unfolding Drains cs
  again stopping m stopped few =
      ih m r2 stopping (later s) p.valid (omega (arith, p.tail, index))
        (omega (arith, fits, counted, both, all, p.capacity)) stopped few

  nothing_left : is_nil b ≡ true → s ≡ [] → cs ≡ []
  nothing_left e none_to_come = nil_of_length cs (
      omega (
        arith,
        counted,
        all,
        p.drained (ap length (nil_of b e)),
        ap (λ s. length (arrivals s)) none_to_come,
      ))

  after_idle :
      (m : MatchingEngine) (stopping : Bool)
      → is_nil b ≡ true
      → (stopping ≡ true → s ≡ [])
      → length s + length (contents r ++ arrivals s) + enough stopping ≤ suc fuel
      → (elim stopping [
        | true ↦ some (0, m, [])
        | false ↦ run fuel m r2 (is_nil (later s)) (later s)
      ])
        ≡ reported (length cs) (process_all m cs)
  unfolding process_all
  after_idle m true e stopped few =
      ap (λ l. reported (length l) (process_all m l)) (sym (nothing_left e (stopped refl)))
  after_idle m false e stopped few =
      again (is_nil (later s)) m (nil_of (later s)) (omega (arith, few, counted, idle s))

  rest :
      (m : MatchingEngine) (stopping : Bool)
      → (stopping ≡ true → s ≡ [])
      → length s + length (contents r ++ arrivals s) + enough stopping ≤ suc fuel
      → continue fuel m r2 stopping s b ≡ reported (length cs) (process_all m cs)
  rest m stopping stopped few = elim (Bool-cases (is_nil b)) [
    | inr e ↦
        rw (e, continue)
          (again stopping m (λ t. ap later (stopped t))
            (omega (arith, few, counted, some_length b e, length-later s)))
    | inl e ↦ rw (e, continue) (after_idle m stopping e stopped few)
  ]

-- what the run loop reports is what `process_all` gives
run-reported :
    (fuel : ℕ) (m : MatchingEngine) (r : Ring Command) (stopping : Bool) (s : Schedule)
    → IsValid r
    → r.tail + length (arrivals s) < 2 ^ 64
    → length (contents r) + length (arrivals s) ≤ r.capacity
    → (stopping ≡ true → s ≡ [])
    → length s + length (contents r ++ arrivals s) + enough stopping ≤ fuel
    → run fuel m r stopping s
      ≡ reported (length (contents r ++ arrivals s)) (process_all m (contents r ++ arrivals s))
unfolding Drains b r2 cs
run-reported zero m r true s v index fits stopped few = absurd (omega arith)
run-reported zero m r false s v index fits stopped few = absurd (omega arith)
run-reported (suc fuel) m r stopping s v index fits stopped few =
    run-next fuel m r stopping s
    ∙ ap
        (λ (k : MatchingEngine → RunOutcome).
          go_on (length (batch r s)) k (process_all m (batch r s)))
        (fun_ext (λ m'. rest fuel (run-reported fuel) r s v index fits m' stopping stopped few))
    ∙ sym (process_all-append m (batch r s) (cs fuel (run-reported fuel) r s v index fits))
    ∙ ap (λ l. reported (length l) (process_all m l))
        (sym (p fuel (run-reported fuel) r s v index fits).order)

-- The run loop beside a producer that sets `stop` after its last push, on a valid ring and an engine
-- with a valid book: given a pass for each entry of the schedule and for each command, and two more,
-- it returns. It has then processed each command once, those in the ring first and then those
-- pushed, in the order of their pushes; it reports their number and their events, and the book is
-- valid. The ring has room for all of these commands, and their quantities are 32-bit integers.
pub run-drains :
    (fuel : ℕ) (m : MatchingEngine) {c : Sides} (r : Ring Command) (stopping : Bool) (s : Schedule)
    → Represents m.book c
    → IsValid r
    → r.tail + length (arrivals s) < 2 ^ 64
    → length (contents r) + length (arrivals s) ≤ r.capacity
    → (stopping ≡ true → s ≡ [])
    → length s + length (contents r ++ arrivals s) + enough stopping ≤ fuel
    → AreNarrow (contents r ++ arrivals s)
    → (m' : MatchingEngine) × (events : List Event) × (lists : Sides) × (run fuel m r stopping s
        ≡ some (length (contents r ++ arrivals s), m', events))
      × (process_all m (contents r ++ arrivals s) ≡ some (m', events))
      × Represents m'.book lists
run-drains fuel m r stopping s book v index fits stopped few narrow =
    let (m', events, lists, e, after) =
      process_all-Processed m book (contents r ++ arrivals s) narrow in
    (
      m',
      events,
      lists,
      run-reported fuel m r stopping s v index fits stopped few
          ∙ ap (reported (length (contents r ++ arrivals s))) e,
      e,
      after,
    )
