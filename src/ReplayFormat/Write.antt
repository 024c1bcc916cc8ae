-- ===== src/ReplayFormat/Write.antt =====
-- `write_replay` on a stream that keeps what it was given, unless it says that it failed.
use low_latency_orderbook.Prelude.{
  ℕ, ◌^◌, ◌<◌, ◌≡◌, refl, sym, ap, ◌∙◌, true, false, Bool-cases, inl, inr, some, List, [], ◌∷◌,
  ◌++◌, append-nil, arith, length, ltb, if◌then◌else◌,
}
use low_latency_orderbook.Workload.{WorkloadConfig}
use low_latency_orderbook.ReplayFormat.{
  RawCommand, encode_header, encode_commands, header_of, Ostream, write_replay, no_error,
  read_replay,
}
use low_latency_orderbook.ReplayFormat.Layout.{ConfigFits}
use low_latency_orderbook.ReplayFormat.RoundTrip.{AllFit, file_of, read_replay-file}

-- A stream that is good after an operation was good before it, and a good `write` appends its bytes.
pub record IsFaithful {S : Type 0} (os : Ostream S) (contents : S → List ℕ) : Type 0 where
  pub write_good :
      (s : S) (bytes : List ℕ)
      → os.good (os.write s bytes) ≡ true
      → (os.good s ≡ true) × (contents (os.write s bytes) ≡ contents s ++ bytes)
  pub flush_good :
      (s : S)
      → os.good (os.flush s) ≡ true
      → (os.good s ≡ true) × (contents (os.flush s) ≡ contents s)

module _ {S : Type 0} (os : Ostream S) (contents : S → List ℕ) (f : IsFaithful os contents)
    (out : S) (config : WorkloadConfig) (commands : List RawCommand) where
  header_written : S
  header_written = os.write out (encode_header (header_of config commands))

  body_written : S
  body_written =
      if ltb 0 (length commands)
      then os.write header_written (encode_commands commands)
      else header_written

  written_header :
      contents out ≡ []
      → os.good header_written ≡ true
      → contents header_written ≡ encode_header (header_of config commands)
  unfolding header_written
  written_header empty good =
      (f.write_good out (encode_header (header_of config commands)) good).1 ∙ rw empty refl

  no_commands : (cs : List RawCommand) → ltb 0 (length cs) ≡ false → encode_commands cs ≡ []
  unfolding encode_commands
  no_commands [] e = refl
  no_commands (c ∷ cs) e = absurd (ground arith)

  written_body :
      contents out ≡ []
      → os.good body_written ≡ true
      → contents body_written ≡ file_of config commands
  unfolding body_written
  written_body empty good = elim (Bool-cases (ltb 0 (length commands))) [
    | inl some_commands ↦
        let good' = rw some_commands at good in
        let body = f.write_good header_written (encode_commands commands) good' in
        rw some_commands
          (body.1 ∙ ap (λ l. l ++ encode_commands commands) (written_header empty body.0))
    | inr none_there ↦
        let good' = rw none_there at good in
        rw (none_there, no_commands commands none_there)
          (written_header empty good'
            ∙ sym (append-nil (encode_header (header_of config commands))))
  ]

  -- If `write_replay` on an empty stream returns true, then `read_replay` reads back the
  -- configuration and the commands, where all their fields fit their types.
  pub write_replay-read_replay :
      ConfigFits config
      → length commands < 2 ^ 64
      → AllFit commands
      → contents out ≡ []
      → (write_replay os out config commands).0 ≡ true
      → read_replay (contents (write_replay os out config commands).1)
        ≡ some (record { error = no_error; config = config; commands = commands })
  unfolding write_replay body_written header_written
  write_replay-read_replay fits small all empty good =
      let flushed = f.flush_good body_written good in
      ap read_replay (flushed.1 ∙ written_body empty flushed.0)
      ∙ read_replay-file config commands fits small all
