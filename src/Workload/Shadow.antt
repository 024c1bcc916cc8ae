-- ===== src/Workload/Shadow.antt =====
-- The generator's shadow engine processes the commands that the generator emits, and nothing else
-- changes it: a fresh engine with the same configuration can process them all.
use low_latency_orderbook.Prelude.{
  ℕ, zero, suc, ◌≡◌, refl, sym, ap, subst, ◌∙◌, Bool-cases, Option-cases, inl, inr, none, some,
  some_eq, List, [], ◌∷◌, ◌++◌, length, ◌==◌, ltb, ◌+◌, ◌-◌, none≢some,
}
use low_latency_orderbook.Types.{
  OrderType, limit, market, ioc, Command, EventType, accepted, rejected, traded, canceled, Event,
}
use low_latency_orderbook.Engine.Steps.{process_all-nil, process_all-cons}
use low_latency_orderbook.Engine.{MatchingEngine, process, process_all}
use low_latency_orderbook.Workload.{
  WorkloadGenerator, bounded_rand, one_in, maybe_step_mid, sample_zipf_offset, make_price, make_add,
  make_cancel, add_live, remove_live, track, track_kind, apply, counted_add, emit_add, emit_cancel,
  emit_degraded, choose, next, generate,
}
use low_latency_orderbook.Map.{lookup_id}

engine-maybe_step_mid : (g : WorkloadGenerator) → (maybe_step_mid g).engine ≡ g.engine
unfolding maybe_step_mid one_in bounded_rand
engine-maybe_step_mid g = elim (Bool-cases (one_in g g.cfg.walk_one_in).0) [
  | inl e ↦ rw (maybe_step_mid, e) refl
  | inr e ↦ rw (maybe_step_mid, e) refl
]

engine-counted_add :
    (type : OrderType) (g : WorkloadGenerator) → (counted_add type g).engine ≡ g.engine
engine-counted_add limit g = refl
engine-counted_add market g = refl
engine-counted_add ioc g = refl

engine-make_add : (g : WorkloadGenerator) (type : OrderType) → (make_add g type).1.engine ≡ g.engine
unfolding make_add make_price sample_zipf_offset one_in bounded_rand
engine-make_add g limit = refl
engine-make_add g market = refl
engine-make_add g ioc = refl

engine-emit_add : (g : WorkloadGenerator) (type : OrderType) → (emit_add g type).1.engine ≡ g.engine
engine-emit_add g type = engine-counted_add type (make_add g type).1 ∙ engine-make_add g type

engine-emit_degraded : (g : WorkloadGenerator) → (emit_degraded g).1.engine ≡ g.engine
engine-emit_degraded g = engine-emit_add g limit

engine-emit_cancel : (g : WorkloadGenerator) → (emit_cancel g).1.engine ≡ g.engine
unfolding make_cancel bounded_rand
engine-emit_cancel g = refl

engine-choose : (g : WorkloadGenerator) (r : ℕ) → (choose g r).1.engine ≡ g.engine
unfolding choose
engine-choose g r = elim (Bool-cases (ltb r g.cfg.cancel_weight)) [
  | inl c ↦ elim (Bool-cases (length g.live_ids == 0)) [
    | inl l ↦ rw (choose, c, l) (engine-emit_degraded g)
    | inr l ↦ rw (choose, c, l) (engine-emit_cancel g)
  ]
  | inr c ↦ elim (Bool-cases (ltb (r - g.cfg.cancel_weight) g.cfg.limit_weight)) [
    | inl l ↦ rw (choose, c, l) (engine-emit_add g limit)
    | inr l ↦
        elim (Bool-cases
          (ltb (r - g.cfg.cancel_weight) (g.cfg.limit_weight + g.cfg.market_weight))) [
            | inl m ↦ rw (choose, c, l, m) (engine-emit_add g market)
            | inr m ↦ rw (choose, c, l, m) (engine-emit_add g ioc)
          ]
  ]
]

engine-remove_live : (id : ℕ) (g : WorkloadGenerator) → (remove_live id g).engine ≡ g.engine
unfolding remove_live
engine-remove_live id g = elim (Option-cases (lookup_id id g.live_pos)) [
  | inl e ↦ rw (remove_live, e) refl
  | inr (at, e) ↦ rw (remove_live, e) refl
]

engine-track_kind :
    (k : EventType) (e : Event) (g : WorkloadGenerator) → (track_kind k e g).engine ≡ g.engine
unfolding add_live
engine-track_kind accepted e g = refl
engine-track_kind traded e g = elim (Bool-cases (e.remaining == 0)) [
  | inl z ↦ rw z (engine-remove_live e.order_id g)
  | inr n ↦ rw n refl
]
engine-track_kind canceled e g = engine-remove_live e.order_id g
engine-track_kind rejected e g = refl

engine-track : (es : List Event) (g : WorkloadGenerator) → (track es g).engine ≡ g.engine
unfolding track
engine-track [] g = refl
engine-track (e ∷ es) g = engine-track es (track_kind e.kind e g) ∙ engine-track_kind e.kind e g

apply-none :
    (g : WorkloadGenerator) (cmd : Command) → process g.engine cmd ≡ none → apply g cmd ≡ none
unfolding apply
apply-none g cmd e = rw (apply, e) refl

apply-some :
    (g : WorkloadGenerator) (cmd : Command) (engine' : MatchingEngine) (events : List Event)
    → process g.engine cmd ≡ some (engine', events)
    → apply g cmd ≡ some (track events (record g { engine = engine' }))
unfolding apply
apply-some g cmd engine' events e = rw (apply, e) refl

-- an emitted command was processed by the shadow engine
apply-process :
    (g g' : WorkloadGenerator) (cmd : Command)
    → apply g cmd ≡ some g'
    → (events : List Event) × (process g.engine cmd ≡ some (g'.engine, events))
apply-process g g' cmd e = elim (Option-cases (process g.engine cmd)) [
  | inl nothing ↦ absurd (none≢some g' (sym (apply-none g cmd nothing) ∙ e))
  | inr ((engine', events), done) ↦ (
    events,
    done
        ∙ ap (λ (m : MatchingEngine). some (m, events))
            (sym (engine-track events (record g { engine = engine' }))
              ∙ ap (λ (g' : WorkloadGenerator). g'.engine)
                  (some_eq (track events (record g { engine = engine' })) g'
                    (sym (apply-some g cmd engine' events done) ∙ e))),
  )
]

next-none :
    (g : WorkloadGenerator)
    → let g1 = maybe_step_mid g in
      let (r, g2) = bounded_rand g1 g.total_weight in
      let (cmd, g3) = choose g2 r in apply g3 cmd ≡ none → next g ≡ none
unfolding next
next-none g e = rw (next, e) refl

next-some :
    (g g4 : WorkloadGenerator)
    → let g1 = maybe_step_mid g in
      let (r, g2) = bounded_rand g1 g.total_weight in
      let (cmd, g3) = choose g2 r in apply g3 cmd ≡ some g4 → next g ≡ some (cmd, g4)
unfolding next
next-some g g4 e = rw (next, e) refl

engine-bounded_rand : (g : WorkloadGenerator) (n : ℕ) → (bounded_rand g n).1.engine ≡ g.engine
unfolding bounded_rand
engine-bounded_rand g n = refl

-- So was the command that `next` gave.
next-process :
    (g g' : WorkloadGenerator) (cmd : Command)
    → next g ≡ some (cmd, g')
    → (events : List Event) × (process g.engine cmd ≡ some (g'.engine, events))
next-process g g' cmd e =
    let g1 = maybe_step_mid g in
    let (r, g2) = bounded_rand g1 g.total_weight in
    let (cmd', g3) = choose g2 r in
    elim (Option-cases (apply g3 cmd')) [
      | inl nothing ↦ absurd (none≢some (cmd, g') (sym (next-none g nothing) ∙ e))
      | inr (g4, done) ↦
          let same : ◌≡◌ {A = Command × WorkloadGenerator} (cmd', g4) (cmd, g') =
            some_eq (cmd', g4) (cmd, g') (sym (next-some g g4 done) ∙ e) in
          let (events, processed) = apply-process g3 g4 cmd' done in
          (
            events,
            subst
                (λ (x : Command × WorkloadGenerator).
                  process g.engine x.0 ≡ some (x.1.engine, events))
                same
                (ap (λ m. process m cmd')
                    (sym (
                      engine-choose g2 r
                      ∙ engine-bounded_rand g1 g.total_weight
                      ∙ engine-maybe_step_mid g))
                  ∙ processed),
          )
    ]

generate-next_none : (n : ℕ) (g : WorkloadGenerator) → next g ≡ none → generate (suc n) g ≡ none
unfolding generate
generate-next_none n g e = rw (generate, e) refl

generate-rest_none :
    (n : ℕ) (g g' : WorkloadGenerator) (cmd : Command)
    → next g ≡ some (cmd, g')
    → generate n g' ≡ none
    → generate (suc n) g ≡ none
unfolding generate
generate-rest_none n g g' cmd e f = rw (generate, e, f) refl

generate-some :
    (n : ℕ) (g g' : WorkloadGenerator) (cmd : Command) (cmds : List Command)
    → next g ≡ some (cmd, g')
    → generate n g' ≡ some cmds
    → generate (suc n) g ≡ some (cmd ∷ cmds)
unfolding generate
generate-some n g g' cmd cmds e f = rw (generate, e, f) refl

generate-nil : (g : WorkloadGenerator) → generate 0 g ≡ some []
unfolding generate
generate-nil g = refl

-- An engine in the state of the generator's shadow engine, such as a fresh one with the same
-- configuration, processes all the commands that are generated, as many as were asked for.
pub generate-processed :
    (n : ℕ) (g : WorkloadGenerator) (cmds : List Command)
    → generate n g ≡ some cmds
    → (length cmds ≡ n)
      × (m : MatchingEngine) × (events : List Event) × (process_all g.engine cmds
          ≡ some (m, events))
generate-processed zero g cmds e =
    subst
      (λ (cmds : List Command).
        (length cmds ≡ 0)
        × (m : MatchingEngine) × (events : List Event) × (process_all g.engine cmds
            ≡ some (m, events)))
      (some_eq [] cmds (sym (generate-nil g) ∙ e)) (refl, g.engine, [], process_all-nil g.engine)
generate-processed (suc n) g cmds e = elim (Option-cases (next g)) [
  | inl nothing ↦ absurd (none≢some cmds (sym (generate-next_none n g nothing) ∙ e))
  | inr ((cmd, g'), one) ↦ elim (Option-cases (generate n g')) [
    | inl nothing ↦ absurd (none≢some cmds (sym (generate-rest_none n g g' cmd one nothing) ∙ e))
    | inr (cmds', others) ↦
        let (events, processed) = next-process g g' cmd one in
        let (size, m, rest, all) = generate-processed n g' cmds' others in
        subst
          (λ (cmds : List Command).
            (length cmds ≡ suc n)
            × (m : MatchingEngine) × (events : List Event) × (process_all g.engine cmds
                ≡ some (m, events)))
          (some_eq (cmd ∷ cmds') cmds (sym (generate-some n g g' cmd cmds' one others) ∙ e))
          (ap suc size, m, events ++ rest, process_all-cons g.engine cmd cmds' processed all)
  ]
]
