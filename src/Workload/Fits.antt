-- ===== src/Workload/Fits.antt =====
-- The commands that the generator emits fit the fields of their types.
use low_latency_orderbook.Prelude.{
  ℕ, zero, suc, ℤ, pos, leb_ℤ, ◌+◌, ◌-◌, ◌^◌, ◌<◌, ◌≡◌, subst, Bool, true, false, not, ◌||◌, ◌&&◌,
  Bool-cases, Option-cases, inl, inr, Option, none, some, List, [], ◌∷◌, ◌++◌, take, set, get_or,
  length, ◌==◌, ltb, arith, if◌then◌else◌,
}
use low_latency_orderbook.Types.{
  Side, opposite, OrderType, is_market, is_limit, CommandType, Command, EventType, accepted,
  rejected, traded, canceled, Event, invalid_order_id,
}
use low_latency_orderbook.Pool.{OrderPool, alloc, minted, make_order_id, find}
use low_latency_orderbook.Ladder.{level_at, best_price}
use low_latency_orderbook.Book.{
  OrderBook, ladder, stops, fill_events, match_loop, match, sweep_limit, finish, add_minted,
  prepend,
}
use low_latency_orderbook.Book
use low_latency_orderbook.Book.Sweep.{match_loop-stops, match_loop-goes}
use low_latency_orderbook.Stats.{EngineStats}
use low_latency_orderbook.Engine.{MatchingEngine, counted, drop_result, dispatch, process, submit}
use low_latency_orderbook.Engine
use low_latency_orderbook.Map.{lookup_id}
use low_latency_orderbook.Workload.{
  last_of, WorkloadGenerator, add_live, remove_live, track, track_kind,
}

-- the events under whose ids the generator keeps orders
abbrev IdFits : EventType → ℕ → Type 0
IdFits accepted id = id < 2 ^ 64
IdFits rejected id = Unit {0}
IdFits traded id = Unit {0}
IdFits canceled id = Unit {0}

abbrev pub IdsFit : List Event → Type 0
IdsFit [] = Unit {0}
IdsFit (e ∷ es) = IdFits e.kind e.order_id × IdsFit es

abbrev OutFits : {A B : Type 0} → Option (A × B × List Event) → Type 0
OutFits none = Unit {0}
OutFits (some (a, b, events)) = IdsFit events

OutFits-if :
    {A B : Type 0} (b : Bool) (x y : Option (A × B × List Event))
    → OutFits x
    → OutFits y
    → OutFits (if b then x else y)
OutFits-if true x y h k = h
OutFits-if false x y h k = k

IdsFit-append : (xs ys : List Event) → IdsFit xs → IdsFit ys → IdsFit (xs ++ ys)
IdsFit-append [] ys h k = k
IdsFit-append (x ∷ xs) ys h k = (h.0, IdsFit-append xs ys h.1 k)

OutFits-prepend :
    {A B : Type 0} (events : List Event) (o : Option (A × B × List Event))
    → IdsFit events
    → OutFits o
    → OutFits (prepend events o)
OutFits-prepend events none h k = tt
OutFits-prepend events (some (a, b, rest)) h k = IdsFit-append events rest h k

fill_events-IdsFit :
    (m : low_latency_orderbook.Pool.Order) (side : Side) (fill remaining id : ℕ)
    → IdsFit (fill_events m side fill remaining id)
unfolding fill_events
fill_events-IdsFit m side fill remaining id = (tt, (tt, tt))

match_loop-OutFits :
    (fuel : ℕ) (b : OrderBook) (side : Side) (limit_price : ℤ) (remaining id : ℕ)
    → OutFits (match_loop fuel b side limit_price remaining id)
unfolding match_loop
match_loop-OutFits zero b side limit_price remaining id = tt
match_loop-OutFits (suc fuel) b side limit_price remaining id =
    elim (Bool-cases (stops (ladder b (opposite side)) side limit_price remaining)) [
      | inl done ↦ rw (match_loop-stops fuel b side limit_price remaining id done) tt
      | inr more ↦
          elim (Option-cases (
            (level_at (ladder b (opposite side))
              (best_price (ladder b (opposite side)))).head_idx)) [
                | inl nothing ↦ rw (more, nothing, match_loop) tt
                | inr (i, head) ↦
                    rw (match_loop-goes fuel b side limit_price remaining id i more head) (
                      OutFits-prepend _ _ (fill_events-IdsFit (b.pool.slots i) side _ _ id)
                        (match_loop-OutFits fuel _ side limit_price _ id))
              ]
    ]

alloc-small : (p : OrderPool) → (alloc p).0 < 2 ^ 64
unfolding alloc make_order_id
alloc-small p = elim (Option-cases p.free_head) [
  | inl e ↦ rw (alloc, e) (omega arith)
  | inr (i, e) ↦ rw (alloc, e) (unfold minted in (omega arith))
]

finish-IdsFit :
    (b : OrderBook) (side : Side) (type : OrderType) (price : ℤ) (qty left id : ℕ)
    → IdsFit (finish b side type price qty left id).2
unfolding finish
finish-IdsFit b side type price qty left id =
    elim (Bool-cases ((left == 0) || not (is_limit type))) [
      | inl gone ↦
          rw gone (elim (Bool-cases (ltb 0 left)) [ inl l ↦ rw l (tt, tt) | inr l ↦ rw l tt ])
      | inr stays ↦ rw stays tt
    ]

add_minted-OutFits :
    (b : OrderBook) (side : Side) (type : OrderType) (price : ℤ) (qty id : ℕ)
    → id < 2 ^ 64
    → OutFits (add_minted b side type price qty id)
unfolding add_minted match
add_minted-OutFits b side type price qty id small =
    go (match_loop (b.pool.live_count + 1) b side (sweep_limit side type price) qty id)
      (match_loop-OutFits (b.pool.live_count + 1) b side (sweep_limit side type price) qty id)
  where
    go :
        (o : Book.Outcome ℕ)
        → OutFits o
        → OutFits (elim o as (λ x. Book.Outcome ℕ) [
          | none ↦ none
          | some (remaining, b', events) ↦
              prepend
                (low_latency_orderbook.Event.accepted_event side qty
                    (low_latency_orderbook.Event.order_price type price)
                    id
                  ∷ events)
                (some (finish b' side type price qty remaining id))
        ])
    go none h = tt
    go (some (left, b', events)) h =
        (small, IdsFit-append events _ h (finish-IdsFit b' side type price qty left id))

add-OutFits :
    (b : OrderBook) (side : Side) (type : OrderType) (price : ℤ) (qty : ℕ)
    → OutFits (Book.add b side type price qty)
unfolding Book.add
add-OutFits b side type price qty =
    OutFits-if (qty == 0) _ _ (tt, tt)
      (OutFits-if (not (is_market type) && leb_ℤ price (pos 0)) _ _ (tt, tt)
        (OutFits-if ((alloc b.pool).0 == invalid_order_id) _ _ (tt, tt)
          (add_minted-OutFits _ side type price qty (alloc b.pool).0 (alloc-small b.pool))))

cancel-IdsFit : (b : OrderBook) (id : ℕ) → IdsFit (Book.cancel b id).2
unfolding Book.cancel
cancel-IdsFit b id = elim (Option-cases (find b.pool id)) [
  | inl e ↦ rw (Book.cancel, e) (tt, tt)
  | inr (i, e) ↦ rw (Book.cancel, e) (tt, tt)
]

abbrev DoneFits : Option (MatchingEngine × List Event) → Type 0
DoneFits none = Unit {0}
DoneFits (some (m, events)) = IdsFit events

counted-DoneFits :
    {A : Type 0} (s : EngineStats) (o : Option (A × OrderBook × List Event))
    → OutFits o
    → DoneFits (drop_result (counted s o))
counted-DoneFits s none h = tt
counted-DoneFits s (some (a, b, events)) h = h

dispatch-DoneFits :
    (kind : CommandType) (m : MatchingEngine) (cmd : Command) → DoneFits (dispatch kind m cmd)
unfolding submit Engine.cancel
dispatch-DoneFits CommandType.new m cmd =
    counted-DoneFits _ _ (add-OutFits m.book cmd.side cmd.type cmd.price_ticks cmd.qty)
dispatch-DoneFits CommandType.cancel m cmd =
    counted-DoneFits (low_latency_orderbook.Stats.on_cancel_request m.stats)
      (some (Book.cancel m.book cmd.order_id)) (cancel-IdsFit m.book cmd.order_id)

-- The ids of accepted orders are 64-bit numbers.
pub process-IdsFit :
    (m m' : MatchingEngine) (cmd : Command) (events : List Event)
    → process m cmd ≡ some (m', events)
    → IdsFit events
unfolding process
process-IdsFit m m' cmd events e = subst DoneFits e (dispatch-DoneFits cmd.kind m cmd)

abbrev pub AllSmall : List ℕ → Type 0
AllSmall [] = Unit {0}
AllSmall (x ∷ xs) = (x < 2 ^ 64) × AllSmall xs

AllSmall-append : (xs : List ℕ) (x : ℕ) → AllSmall xs → x < 2 ^ 64 → AllSmall (xs ++ x ∷ [])
AllSmall-append [] x h k = (k, tt)
AllSmall-append (y ∷ xs) x h k = (h.0, AllSmall-append xs x h.1 k)

AllSmall-take : (n : ℕ) (xs : List ℕ) → AllSmall xs → AllSmall (take n xs)
AllSmall-take zero xs h = tt
AllSmall-take (suc n) [] h = tt
AllSmall-take (suc n) (x ∷ xs) h = (h.0, AllSmall-take n xs h.1)

AllSmall-set : (xs : List ℕ) (i v : ℕ) → AllSmall xs → v < 2 ^ 64 → AllSmall (set xs i v)
AllSmall-set [] i v h k = tt
AllSmall-set (x ∷ xs) zero v h k = (k, h.1)
AllSmall-set (x ∷ xs) (suc i) v h k = (h.0, AllSmall-set xs i v h.1 k)

last_of-small : (xs : List ℕ) → AllSmall xs → last_of xs < 2 ^ 64
last_of-small [] h = omega arith
last_of-small (x ∷ []) h = h.0
last_of-small (x ∷ y ∷ xs) h = last_of-small (y ∷ xs) h.1

pub get_or-small : (xs : List ℕ) (i : ℕ) → AllSmall xs → get_or xs i 0 < 2 ^ 64
get_or-small [] i h = omega arith
get_or-small (x ∷ xs) zero h = h.0
get_or-small (x ∷ xs) (suc i) h = get_or-small xs i h.1

remove_live-AllSmall :
    (id : ℕ) (g : WorkloadGenerator) → AllSmall g.live_ids → AllSmall (remove_live id g).live_ids
unfolding remove_live
remove_live-AllSmall id g h = elim (Option-cases (lookup_id id g.live_pos)) [
  | inl e ↦ rw (remove_live, e) h
  | inr (at, e) ↦
      rw (remove_live, e)
        (AllSmall-take (length g.live_ids - 1) (set g.live_ids at (last_of g.live_ids))
          (AllSmall-set g.live_ids at (last_of g.live_ids) h (last_of-small g.live_ids h)))
]

track_kind-AllSmall :
    (k : EventType) (e : Event) (g : WorkloadGenerator)
    → IdFits k e.order_id
    → AllSmall g.live_ids
    → AllSmall (track_kind k e g).live_ids
unfolding add_live
track_kind-AllSmall accepted e g fits h = AllSmall-append g.live_ids e.order_id h fits
track_kind-AllSmall traded e g fits h = elim (Bool-cases (e.remaining == 0)) [
  | inl z ↦ rw z (remove_live-AllSmall e.order_id g h)
  | inr n ↦ rw n h
]
track_kind-AllSmall canceled e g fits h = remove_live-AllSmall e.order_id g h
track_kind-AllSmall rejected e g fits h = h

-- The ids that the generator keeps stay 64-bit numbers.
pub track-AllSmall :
    (es : List Event) (g : WorkloadGenerator)
    → IdsFit es
    → AllSmall g.live_ids
    → AllSmall (track es g).live_ids
unfolding track
track-AllSmall [] g fits h = h
track-AllSmall (e ∷ es) g fits h =
    track-AllSmall es (track_kind e.kind e g) fits.1 (track_kind-AllSmall e.kind e g fits.0 h)
