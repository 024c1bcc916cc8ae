-- ===== src/ReplayFormat/RoundTrip.antt =====
-- What `write_replay` writes, `read_replay` reads back; a file that is cut or continued is refused.
use low_latency_orderbook.Prelude.{
  ℕ, zero, suc, ◌+◌, ◌-◌, ◌*◌, ◌^◌, ◌<◌, ◌≡◌, refl, sym, ap, ◌∙◌, ◌⊎◌, Bool, true, false,
  Bool-cases, inl, inr, some, List, [], ◌∷◌, ◌++◌, append_assoc, arith, length, length-append, take,
  drop, ltb, if◌then◌else◌, length-take,
}
use mathlib.Core.Path.{ap₂}
use low_latency_orderbook.Workload.{WorkloadConfig}
use low_latency_orderbook.ReplayFormat.{
  RawCommand, encode_command, decode_command, encode_header, decode_header, encode_commands,
  decode_commands, header_of, ReplayReadError, ReplayHeader, ReplayReadResult, no_error,
  truncated_header, truncated_body, trailing_bytes, default_config, refusal, read_replay,
}
use low_latency_orderbook.ReplayFormat.Bytes.{take-append, drop-append}
use low_latency_orderbook.ReplayFormat.Layout.{
  CommandFits, ConfigFits, length-encode_command, length-encode_header,
  decode_command-encode_command, decode_header-encode_header,
}
use low_latency_orderbook.ReplayFormat.Read.{checked, result_of, read_replay_lem}

abbrev pub AllFit : List RawCommand → Type 0
AllFit [] = Unit {0}
AllFit (c ∷ cs) = CommandFits c × AllFit cs

-- the bytes of a replay file
abbrev pub file_of : WorkloadConfig → List RawCommand → List ℕ
file_of config commands = encode_header (header_of config commands) ++ encode_commands commands

take-first : (n : ℕ) (xs ys : List ℕ) → length xs ≡ n → take n (xs ++ ys) ≡ xs
take-first n xs ys e = ap (λ k. take k (xs ++ ys)) (sym e) ∙ take-append xs ys

drop-first : (n : ℕ) (xs ys : List ℕ) → length xs ≡ n → drop n (xs ++ ys) ≡ ys
drop-first n xs ys e = ap (λ k. drop k (xs ++ ys)) (sym e) ∙ drop-append xs ys

take-past : (n k : ℕ) (xs ys : List ℕ) → n ≡ length xs + k → take n (xs ++ ys) ≡ xs ++ take k ys
take-past n k [] ys e = ap (λ j. take j ys) (omega arith)
take-past zero k (x ∷ xs) ys e = absurd (omega arith)
take-past (suc n) k (x ∷ xs) ys e = ap (λ l. x ∷ l) (take-past n k xs ys (omega arith))

length-encode_commands : (cs : List RawCommand) → length (encode_commands cs) ≡ length cs * 24
unfolding encode_commands
length-encode_commands [] = refl
length-encode_commands (c ∷ cs) = omega (
  arith,
  length-append (encode_command c) (encode_commands cs),
  length-encode_command c,
  length-encode_commands cs,
)

decode_commands-encode_commands :
    (cs : List RawCommand) → AllFit cs → decode_commands (length cs) (encode_commands cs) ≡ cs
unfolding decode_commands encode_commands
decode_commands-encode_commands [] f = refl
decode_commands-encode_commands (c ∷ cs) f =
    ap₂ ◌∷◌
      (ap decode_command
          (take-first 24 (encode_command c) (encode_commands cs) (length-encode_command c))
        ∙ decode_command-encode_command c f.0)
      (ap (decode_commands (length cs))
          (drop-first 24 (encode_command c) (encode_commands cs) (length-encode_command c))
        ∙ decode_commands-encode_commands cs f.1)

not_less : (m n : ℕ) → m ≡ n → ltb m n ≡ false
not_less m n e = ground arith

result_of-short :
    (bytes : List ℕ)
    → ltb (length bytes) 96 ≡ true
    → result_of bytes ≡ refusal truncated_header default_config
unfolding result_of
result_of-short bytes e = rw e refl

-- the last two checks, on lengths
shorter :
    (config : WorkloadConfig) (size n : ℕ) (r : ReplayReadResult)
    → n < size
    → (if ltb n size
        then refusal truncated_body config
        else if ltb size n
        then refusal trailing_bytes config
        else r)
      ≡ refusal truncated_body config
shorter config size n r h = ground arith

longer :
    (config : WorkloadConfig) (size n : ℕ) (r : ReplayReadResult)
    → size < n
    → (if ltb n size
        then refusal truncated_body config
        else if ltb size n
        then refusal trailing_bytes config
        else r)
      ≡ refusal trailing_bytes config
longer config size n r h = ground arith

module _ (config : WorkloadConfig) (commands : List RawCommand) (fits : ConfigFits config)
    (small : length commands < 2 ^ 64) where
  abbrev size : ℕ
  size = length commands * 24

  -- a file that starts with the header
  result_of-headed :
      (bytes body : List ℕ)
      → bytes ≡ encode_header (header_of config commands) ++ body
      → result_of bytes ≡ (
          if ltb (length body) size
          then refusal truncated_body config
          else if ltb size (length body)
          then refusal trailing_bytes config
          else record {
            error = no_error;
            config = config;
            commands = decode_commands (length commands) body;
          })
  unfolding result_of header_of
  result_of-headed bytes body e =
      ap₂ (λ (few : Bool) (raw : List ℕ). checked few (decode_header raw) (drop 96 bytes)) (long e)
        (ap (take 96) e
          ∙ take-first 96 (encode_header (header_of config commands)) body
              (length-encode_header config commands))
      ∙ ap₂ (λ (hdr : ReplayHeader) (rest : List ℕ). checked false hdr rest)
          (decode_header-encode_header config commands fits small)
          (ap (drop 96) e
            ∙ drop-first 96 (encode_header (header_of config commands)) body
                (length-encode_header config commands))
    where
      long :
          bytes ≡ encode_header (header_of config commands) ++ body → ltb (length bytes) 96 ≡ false
      long e = rw e (
          ground (
            arith,
            length-append (encode_header (header_of config commands)) body,
            length-encode_header config commands,
          ))

  -- What is written is read back: the file of a configuration and commands that fit their types
  -- reads as just these.
  pub read_replay-file :
      AllFit commands
      → read_replay (file_of config commands)
        ≡ some (record { error = no_error; config = config; commands = commands })
  read_replay-file all =
      read_replay_lem (file_of config commands)
      ∙ ap (λ r. some r)
          (result_of-headed (file_of config commands) (encode_commands commands) refl
            ∙ rw
                (
                  not_less (length (encode_commands commands)) size
                      (length-encode_commands commands),
                  not_less size (length (encode_commands commands))
                      (sym (length-encode_commands commands)),
                  decode_commands-encode_commands commands all,
                )
                refl)

  -- A file that lost its end is refused, wherever it was cut: nothing is loaded.
  pub read_replay-cut :
      (n : ℕ)
      → n < length (file_of config commands)
      → (error : ReplayReadError) × (config' : WorkloadConfig) × (read_replay
            (take n (file_of config commands))
          ≡ some (refusal error config'))
        × ((error ≡ truncated_header) ⊎ (error ≡ truncated_body))
  read_replay-cut n short = elim (Bool-cases (ltb n 96)) [
    | inl few ↦ (
      truncated_header,
      default_config,
      read_replay_lem (take n (file_of config commands))
          ∙ ap (λ r. some r)
              (result_of-short (take n (file_of config commands))
                (ground (arith, length-take n (file_of config commands)))),
      inl refl,
    )
    | inr enough ↦ (
      truncated_body,
      config,
      read_replay_lem (take n (file_of config commands))
          ∙ ap (λ r. some r)
              (result_of-headed (take n (file_of config commands))
                  (take (n - 96) (encode_commands commands))
                  (take-past n (n - 96) (encode_header (header_of config commands))
                    (encode_commands commands) (header_size n enough))
                ∙ shorter config (length commands * 24)
                    (length (take (n - 96) (encode_commands commands))) _
                    (cut_size (n - 96) (
                      ground (
                        arith,
                        short,
                        length-append (encode_header (header_of config commands))
                            (encode_commands commands),
                        length-encode_header config commands,
                        length-encode_commands commands,
                      )))),
      inr refl,
    )
  ]
    where
      header_size :
          (n : ℕ)
          → ltb n 96 ≡ false
          → n ≡ length (encode_header (header_of config commands)) + (n - 96)
      header_size n e = ground (arith, length-encode_header config commands)

      cut_size : (k : ℕ) → k < size → length (take k (encode_commands commands)) < size
      cut_size k h = omega (arith, length-take k (encode_commands commands))

  -- A file with bytes behind its commands is refused: nothing is loaded.
  pub read_replay-continued :
      (x : ℕ) (xs : List ℕ)
      → read_replay (file_of config commands ++ x ∷ xs) ≡ some (refusal trailing_bytes config)
  read_replay-continued x xs =
      read_replay_lem (file_of config commands ++ x ∷ xs)
      ∙ ap (λ r. some r)
          (result_of-headed (file_of config commands ++ x ∷ xs) (encode_commands commands ++ x ∷ xs)
              (append_assoc (encode_header (header_of config commands)) (encode_commands commands)
                (x ∷ xs))
            ∙ longer config (length commands * 24) (length (encode_commands commands ++ x ∷ xs)) _ (
                omega (
                  arith,
                  length-append (encode_commands commands) (x ∷ xs),
                  length-encode_commands commands,
                )))
