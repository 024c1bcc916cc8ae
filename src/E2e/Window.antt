-- ===== src/E2e/Window.antt =====
-- The measured window: what is reported covers the commands after the warm-up, and only these.
use low_latency_orderbook.Prelude.{
  ℕ, suc, Bool, not, ◌&&◌, if◌then◌else◌, ◌+◌, ◌-◌, ◌%◌, ◌^◌, ◌≤◌, ◌<◌, ◌≡◌, refl, sym, ap, subst,
  ◌∙◌, true, false, Option-cases, inl, inr, ◌⊎◌, none, some, some_eq, List, [], ◌∷◌, ◌++◌, length,
  length-append, ◌==◌, update, arith,
}
use low_latency_orderbook.Types.{OrderType, is_limit, is_market, CommandType, Command, Event}
use low_latency_orderbook.Book.Valid.{Sides}
use low_latency_orderbook.Book.Add.{Represents}
use low_latency_orderbook.Engine.Valid.{AreNarrow, process_all-Processed}
use low_latency_orderbook.Engine.Steps.{process_all-nil, process_all-uncons}
use low_latency_orderbook.Engine.{MatchingEngine, process, process_all, reset_stats}
use low_latency_orderbook.Latency.{LatencyRecorder, record_ticks, reset}
use low_latency_orderbook.E2e.{
  OpClass, classify, class_of_kind, class_index, EngineRun, log_events, open_window, measure,
  measure_batch, measure_batches,
}

-- the commands of all batches
abbrev pub flatten : List (List Command) → List Command
flatten [] = []
flatten (batch ∷ batches) = batch ++ flatten batches

abbrev is_new : CommandType → Bool
is_new CommandType.new = true
is_new CommandType.cancel = false

-- whether a command is of a class
abbrev pub is_of : OpClass → Command → Bool
is_of OpClass.limit cmd = is_new cmd.kind && is_limit cmd.type
is_of OpClass.market cmd = is_new cmd.kind && is_market cmd.type
is_of OpClass.ioc cmd = is_new cmd.kind && not (is_limit cmd.type) && not (is_market cmd.type)
is_of OpClass.cancel cmd = not (is_new cmd.kind)

abbrev pub count_of : OpClass → List Command → ℕ
count_of k [] = 0
count_of k (cmd ∷ cmds) = if is_of k cmd then suc (count_of k cmds) else count_of k cmds

-- how many commands of a class were measured
abbrev pub measured : (ℕ → LatencyRecorder) → OpClass → ℕ
measured r k = (r (class_index k)).count

module _ (clock : ℕ → ℕ) (warmup : ℕ) where
  measure_batch-append :
      (xs ys : List Command) (run : EngineRun)
      → measure_batch clock warmup run (xs ++ ys) ≡ elim (measure_batch clock warmup run xs) [
        | none ↦ none
        | some run' ↦ measure_batch clock warmup run' ys
      ]
  unfolding measure_batch
  measure_batch-append [] ys run = refl
  measure_batch-append (x ∷ xs) ys run = elim (Option-cases (measure clock warmup run x)) [
    | inl nothing ↦ rw (measure_batch, nothing) refl
    | inr (run', one) ↦ rw (measure_batch, one) (measure_batch-append xs ys run')
  ]

  -- how the commands are cut into batches makes no difference
  measure_batches-flatten :
      (batches : List (List Command)) (run : EngineRun)
      → measure_batches clock warmup run batches ≡ measure_batch clock warmup run (flatten batches)
  unfolding measure_batches measure_batch
  measure_batches-flatten [] run = refl
  measure_batches-flatten (batch ∷ batches) run =
      elim (Option-cases (measure_batch clock warmup run batch)) [
        | inl nothing ↦
            rw (measure_batches, nothing, measure_batch-append batch (flatten batches) run, nothing)
              refl
        | inr (run', one) ↦
            rw (measure_batches, one, measure_batch-append batch (flatten batches) run, one)
              (measure_batches-flatten batches run')
      ]

  measure_batch-cons :
      (run run' : EngineRun) (cmd : Command) (cmds : List Command)
      → measure clock warmup run cmd ≡ some run'
      → measure_batch clock warmup run (cmd ∷ cmds) ≡ measure_batch clock warmup run' cmds
  unfolding measure_batch
  measure_batch-cons run run' cmd cmds e = rw (measure_batch, e) refl

  -- The recorder of the command's class measures one more.
  measured-update :
      (r : ℕ → LatencyRecorder) (cmd : Command) (ticks : ℕ)
      → ((k : OpClass) → measured r k + 1 < 2 ^ 64)
      → (k : OpClass)
      → let i = class_index (classify cmd) in
        measured (update r i (record_ticks (r i) ticks)) k
        ≡ (if is_of k cmd then suc (measured r k) else measured r k)
  unfolding classify record_ticks
  measured-update r cmd ticks small = by_kind cmd.kind cmd.type
    where
      now : CommandType → OrderType → ℕ → LatencyRecorder
      now kind type =
          let i = class_index (class_of_kind kind type) in update r i (record_ticks (r i) ticks)

      by_kind :
          (kind : CommandType) (type : OrderType) (k : OpClass)
          → measured (now kind type) k ≡ (
              if is_of k (record cmd { kind = kind; type = type })
              then suc (measured r k)
              else measured r k)
      by_kind CommandType.new OrderType.limit OpClass.limit = omega (arith, small OpClass.limit)
      by_kind CommandType.new OrderType.limit OpClass.market = refl
      by_kind CommandType.new OrderType.limit OpClass.ioc = refl
      by_kind CommandType.new OrderType.limit OpClass.cancel = refl
      by_kind CommandType.new OrderType.market OpClass.limit = refl
      by_kind CommandType.new OrderType.market OpClass.market = omega (arith, small OpClass.market)
      by_kind CommandType.new OrderType.market OpClass.ioc = refl
      by_kind CommandType.new OrderType.market OpClass.cancel = refl
      by_kind CommandType.new OrderType.ioc OpClass.limit = refl
      by_kind CommandType.new OrderType.ioc OpClass.market = refl
      by_kind CommandType.new OrderType.ioc OpClass.ioc = omega (arith, small OpClass.ioc)
      by_kind CommandType.new OrderType.ioc OpClass.cancel = refl
      by_kind CommandType.cancel type OpClass.limit = refl
      by_kind CommandType.cancel type OpClass.market = refl
      by_kind CommandType.cancel type OpClass.ioc = refl
      by_kind CommandType.cancel type OpClass.cancel = omega (arith, small OpClass.cancel)

  -- the ticks between the readings before and after a command
  abbrev ticks : EngineRun → ℕ
  ticks run = (clock (run.readings + 1) + 2 ^ 64 - clock run.readings) % 2 ^ 64

  -- the state after a command, from the recorders that it meets
  abbrev after :
      EngineRun → (ℕ → LatencyRecorder) → Command → MatchingEngine → List Event → EngineRun
  after run recorders cmd m' events = record {
    recorders =
        update recorders (class_index (classify cmd))
          (record_ticks (recorders (class_index (classify cmd))) (ticks run));
    processed = (run.processed + 1) % 2 ^ 64;
    engine = m';
    logger = log_events run.logger (clock run.readings) events;
    readings = run.readings + 2;
  }

  measure-open :
      (run : EngineRun) (cmd : Command) (m' : MatchingEngine) (events : List Event)
      → process (open_window warmup run).engine cmd ≡ some (m', events)
      → measure clock warmup run cmd
        ≡ some (after run (open_window warmup run).recorders cmd m' events)
  unfolding measure
  measure-open run cmd m' events one = rw (measure, one) refl

  -- a command at which the window is opened, or not
  measure-next :
      (run opened : EngineRun) (cmd : Command) (m' : MatchingEngine) (events : List Event)
      → open_window warmup run ≡ opened
      → process opened.engine cmd ≡ some (m', events)
      → measure clock warmup run cmd ≡ some (after run opened.recorders cmd m' events)
  measure-next run opened cmd m' events e =
      subst
        (λ (r : EngineRun).
          process r.engine cmd ≡ some (m', events)
          → measure clock warmup run cmd ≡ some (after run r.recorders cmd m' events))
        e (measure-open run cmd m' events)

  stays_shut : (run : EngineRun) → (run.processed == warmup) ≡ false → open_window warmup run ≡ run
  unfolding open_window
  stays_shut run e = rw e refl

  opens :
      (run : EngineRun)
      → (run.processed == warmup) ≡ true
      → open_window warmup run
        ≡ record run { recorders = λ i. reset (run.recorders i); engine = reset_stats run.engine }
  unfolding open_window
  opens run e = rw e refl

  room_left :
      (b : Bool) (now before n : ℕ)
      → now ≡ (if b then suc before else before)
      → before + suc n < 2 ^ 64
      → now + n < 2 ^ 64
  room_left b now before n e few = ground arith

  -- before the window opens, or after it
  measure_all :
      (cmds : List Command) (run : EngineRun) (m'' : MatchingEngine) (events : List Event)
      → process_all run.engine cmds ≡ some (m'', events)
      → (run.processed + length cmds ≤ warmup) ⊎ (warmup < run.processed)
      → run.processed + length cmds < 2 ^ 64
      → ((k : OpClass) → measured run.recorders k + length cmds < 2 ^ 64)
      → (run' : EngineRun) × (measure_batch clock warmup run cmds ≡ some run')
        × (run'.engine ≡ m'')
        × (run'.processed ≡ run.processed + length cmds)
        × ((k : OpClass) → measured run'.recorders k ≡ measured run.recorders k + count_of k cmds)
  unfolding measure_batch
  measure_all [] run m'' events e away small few = (
    run,
    refl,
    ap (λ (x : MatchingEngine × List Event). x.0)
        (some_eq (run.engine, []) (m'', events) (sym (process_all-nil run.engine) ∙ e)),
    omega arith,
    λ k. omega arith,
  )
  measure_all (cmd ∷ cmds) run m'' events e away small few =
      let (m', first, rest, one, others) = process_all-uncons run.engine cmd cmds m'' events e in
      let next = after run run.recorders cmd m' first in
      let one' = measure-next run run cmd m' first (stays_shut run (ground arith)) one in
      let more = measured-update run.recorders cmd (ticks run) (λ k. omega (arith, few k)) in
      let (run', all, at_end, count, total) =
        measure_all cmds next m'' rest others (omega arith) (omega arith)
          (λ k. room_left (is_of k cmd) _ _ _ (more k) (few k)) in
      (
        run',
        measure_batch-cons run next cmd cmds one' ∙ all,
        at_end,
        omega (arith, count),
        λ k. ground (arith, total k, more k),
      )

  measure_batch-two :
      (xs ys : List Command) (run mid : EngineRun)
      → measure_batch clock warmup run xs ≡ some mid
      → measure_batch clock warmup run (xs ++ ys) ≡ measure_batch clock warmup mid ys
  measure_batch-two xs ys run mid e = rw (measure_batch-append xs ys run, e) refl

-- What the benchmark measures of the batches that its engine thread pops, however the commands are cut
-- into batches. The engine processes all of them: the first `warmup` commands, then, with its counters
-- at zero, the others. The recorder of each of the four classes has then measured exactly the commands
-- of its class among these others. There are such others and fewer than 2^64 commands in all, the
-- book is valid at first, and the quantities are 32-bit integers.
pub measure_batches-window :
    (clock : ℕ → ℕ) (run : EngineRun) {c : Sides} (warm : List Command) (cmd : Command)
    (cmds : List Command) (batches : List (List Command))
    → flatten batches ≡ warm ++ cmd ∷ cmds
    → Represents run.engine.book c
    → AreNarrow warm
    → AreNarrow (cmd ∷ cmds)
    → run.processed ≡ 0
    → ((k : OpClass) → measured run.recorders k ≡ 0)
    → length warm + length cmds + 1 < 2 ^ 64
    → (m1 : MatchingEngine) × (events1 : List Event) × (run' : EngineRun) × (events2 : List Event)
      × (process_all run.engine warm ≡ some (m1, events1))
      × (measure_batches clock (length warm) run batches ≡ some run')
      × (process_all (reset_stats m1) (cmd ∷ cmds) ≡ some (run'.engine, events2))
      × (run'.processed ≡ length (flatten batches))
      × ((k : OpClass) → measured run'.recorders k ≡ count_of k (cmd ∷ cmds))
unfolding measure_batch reset reset_stats
measure_batches-window clock run warm cmd cmds batches cut book narrow narrow' at_zero none_yet
      small =
    let (m1, events1, lists1, e1, book1) = process_all-Processed run.engine book warm narrow in
    let (m2, events2, lists2, e2, book2) =
      process_all-Processed (reset_stats m1) book1 (cmd ∷ cmds) narrow' in
    let (mid, warmed, at_m1, mid_count, mid_total) =
      measure_all clock (length warm) warm run m1 events1 e1 (omega arith) (omega arith)
        (λ k. omega (arith, none_yet k)) in
    let (m', first, rest, one, others) =
      process_all-uncons (reset_stats m1) cmd cmds m2 events2 e2 in
    let fresh : ℕ → LatencyRecorder = λ i. reset (mid.recorders i) in
    let next = after clock (length warm) mid fresh cmd m' first in
    let one' =
      measure-next clock (length warm) mid
        (record mid { recorders = fresh; engine = reset_stats mid.engine }) cmd m' first
        (opens clock (length warm) mid (ground (arith, mid_count, at_zero)))
        (ap (λ (m : MatchingEngine). process (reset_stats m) cmd) at_m1 ∙ one) in
    let more =
      measured-update clock (length warm) fresh cmd (ticks clock (length warm) mid)
        (λ k. omega arith) in
    let (run', all, at_end, count, total) =
      measure_all clock (length warm) cmds next m2 rest others (omega (arith, mid_count))
        (omega (arith, mid_count))
        (λ k. room_left clock (length warm) (is_of k cmd) _ _ _ (more k) (omega arith)) in
    (
      m1,
      events1,
      run',
      events2,
      e1,
      measure_batches-flatten clock (length warm) batches run
          ∙ ap (measure_batch clock (length warm) run) cut
          ∙ measure_batch-two clock (length warm) warm (cmd ∷ cmds) run mid warmed
          ∙ measure_batch-cons clock (length warm) mid next cmd cmds one'
          ∙ all,
      e2 ∙ ap (λ (m : MatchingEngine). some (m, events2)) (sym at_end),
      omega (arith, count, mid_count, ap length cut, length-append warm (cmd ∷ cmds)),
      λ k. ground (arith, total k, more k),
    )
