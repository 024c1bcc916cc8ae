-- ===== src/Engine/Steps.antt =====
-- `process_all` command by command.
use low_latency_orderbook.Prelude.{
  ◌≡◌, refl, sym, ap, ◌∙◌, Option-cases, inl, inr, none, some, some_eq, none≢some, List, [], ◌∷◌,
  ◌++◌,
}
use low_latency_orderbook.Types.{Command, Event}
use low_latency_orderbook.Engine.{MatchingEngine, process, process_all}

pub process_all-nil : (m : MatchingEngine) → process_all m [] ≡ some (m, [])
unfolding process_all
process_all-nil m = refl

module _ (m : MatchingEngine) (cmd : Command) (cmds : List Command) where
  pub process_all-cons :
      {m' m'' : MatchingEngine} {events rest : List Event}
      → process m cmd ≡ some (m', events)
      → process_all m' cmds ≡ some (m'', rest)
      → process_all m (cmd ∷ cmds) ≡ some (m'', events ++ rest)
  unfolding process_all
  process_all-cons e e' = rw (e, process_all, e') refl

  process_all-stuck : process m cmd ≡ none → process_all m (cmd ∷ cmds) ≡ none
  unfolding process_all
  process_all-stuck e = rw (process_all, e) refl

  process_all-stuck_later :
      {m' : MatchingEngine} {events : List Event}
      → process m cmd ≡ some (m', events)
      → process_all m' cmds ≡ none
      → process_all m (cmd ∷ cmds) ≡ none
  unfolding process_all
  process_all-stuck_later e e' = rw (e, process_all, e') refl

  -- Where all commands are processed, the first one is, and then the others.
  pub process_all-uncons :
      (m'' : MatchingEngine) (events : List Event)
      → process_all m (cmd ∷ cmds) ≡ some (m'', events)
      → (m' : MatchingEngine) × (first rest : List Event) × (process m cmd ≡ some (m', first))
        × (process_all m' cmds ≡ some (m'', rest))
  process_all-uncons m'' events e = elim (Option-cases (process m cmd)) [
    | inl nothing ↦ absurd (none≢some (m'', events) (sym (process_all-stuck nothing) ∙ e))
    | inr ((m', first), one) ↦ elim (Option-cases (process_all m' cmds)) [
      | inl nothing ↦
          absurd (none≢some (m'', events) (sym (process_all-stuck_later one nothing) ∙ e))
      | inr ((n, rest), others) ↦ (
        m',
        first,
        rest,
        one,
        others
            ∙ ap (λ (k : MatchingEngine). some (k, rest))
                (ap (λ (x : MatchingEngine × List Event). x.0)
                  (some_eq (n, first ++ rest) (m'', events)
                    (sym (process_all-cons one others) ∙ e))),
      )
    ]
  ]
