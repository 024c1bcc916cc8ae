-- ===== src/ReplayFormat/Read.antt =====
-- The reader's loop over the chunks reads the whole body or finds it short.
use low_latency_orderbook.Prelude.{
  ℕ, zero, suc, ◌+◌, ◌-◌, ◌*◌, ◌<◌, ◌≡◌, refl, sym, ap, ◌∙◌, Bool, true, false, not, Bool-cases,
  inl, inr, Option, some, List, [], ◌∷◌, ◌++◌, append_assoc, append-nil, arith, length, take, drop,
  ◌==◌, ltb, if◌then◌else◌, min, length-take, length-drop,
}
use mathlib.Core.Path.{ap₂}
use low_latency_orderbook.ReplayFormat.{
  RawCommand, ReplayHeader, decode_command, decode_commands, Body, short, whole, read_chunks,
  ReplayReadResult, no_error, truncated_header, bad_magic, unsupported_version, truncated_body,
  trailing_bytes, default_config, at_end, after_body, same_bytes, replay_magic,
  replay_format_version, read_replay, refusal, decode_header,
}
use low_latency_orderbook.Workload.{WorkloadConfig}
use low_latency_orderbook.ReplayFormat.Bytes.{take-take, drop-take, drop-drop}

-- what a body of `count` commands is, without chunks
unfoldable pub body_of : ℕ → List ℕ → List RawCommand → Body
body_of count bytes commands =
    if ltb (length bytes) (count * 24)
    then short
    else whole (commands ++ decode_commands count bytes) (drop (count * 24) bytes)

decode_commands-split :
    (n m k w : ℕ) (bytes : List ℕ)
    → k ≡ n + m
    → w ≡ n * 24
    → decode_commands n (take w bytes) ++ decode_commands m (drop w bytes) ≡ decode_commands k bytes
unfolding decode_commands
decode_commands-split zero m k zero bytes e f = ap (λ j. decode_commands j bytes) (omega arith)
decode_commands-split zero m k (suc w) bytes e f = absurd (omega arith)
decode_commands-split (suc n) m zero w bytes e f = absurd (omega arith)
decode_commands-split (suc n) m (suc k) w bytes e f =
    ap₂ ◌∷◌ (ap decode_command (take-take 24 w bytes (omega arith))) (
      ap₂ ◌++◌ (ap (decode_commands n) (drop-take 24 (n * 24) w bytes (omega arith)))
        (ap (decode_commands m) (sym (drop-drop 24 (n * 24) w bytes (omega arith))))
      ∙ decode_commands-split n m k (n * 24) (drop 24 bytes) (omega arith) refl)

-- One chunk of `n` commands, and the body of the others.
body_of-chunk :
    (n others count : ℕ) (bytes : List ℕ) (commands : List RawCommand)
    → count ≡ n + others
    → (if length (take (n * 24) bytes) == n * 24
        then some (
            body_of others
              (drop (n * 24) bytes)
              (commands ++ decode_commands n (take (n * 24) bytes)))
        else some short)
      ≡ some (body_of count bytes commands)
unfolding body_of
body_of-chunk n others count bytes commands e = elim (Bool-cases (ltb (length bytes) (n * 24))) [
  | inl few ↦
      let chunk_short : (length (take (n * 24) bytes) == n * 24) ≡ false =
        ground (arith, length-take (n * 24) bytes) in
      let all_short : ltb (length bytes) (count * 24) ≡ true = ground arith in
      rw (chunk_short, all_short) refl
  | inr enough ↦
      let chunk_whole : (length (take (n * 24) bytes) == n * 24) ≡ true =
        ground (arith, length-take (n * 24) bytes) in
      let same : ltb (length (drop (n * 24) bytes)) (others * 24)
          ≡ ltb (length bytes) (count * 24) =
        ground (arith, length-drop (n * 24) bytes) in
      rw (chunk_whole, same)
        (ap₂
          (λ (cs : List RawCommand) (bs : List ℕ).
            some (if ltb (length bytes) (count * 24) then short else whole cs bs))
          (append_assoc commands (decode_commands n (take (n * 24) bytes))
              (decode_commands others (drop (n * 24) bytes))
            ∙ ap (λ cs. commands ++ cs)
                (decode_commands-split n others count (n * 24) bytes e refl))
          (drop-drop (n * 24) (others * 24) (count * 24) bytes (omega arith)))
]

body_of-nothing :
    (bytes : List ℕ) (commands : List RawCommand) → body_of 0 bytes commands ≡ whole commands bytes
unfolding body_of decode_commands
body_of-nothing bytes commands =
    let none_short : ltb (length bytes) 0 ≡ false = ground arith in
    rw none_short (ap (λ cs. whole cs bytes) (append-nil commands))

-- With fuel for every command the loop ends, and what it gives does not depend on the chunks.
pub read_chunks_lem :
    (fuel : ℕ) (bytes : List ℕ) (remaining : ℕ) (commands : List RawCommand)
    → remaining < fuel
    → read_chunks fuel bytes remaining commands ≡ some (body_of remaining bytes commands)
unfolding read_chunks body_of
read_chunks_lem zero bytes remaining commands h = absurd (omega arith)
read_chunks_lem (suc fuel) bytes remaining commands h = elim (Bool-cases (remaining == 0)) [
  | inl done ↦ rw done (
      ap (λ b. some b)
        (sym (body_of-nothing bytes commands)
          ∙ ap (λ j. body_of j bytes commands) (is_zero remaining done)))
  | inr more ↦
      rw
        (
          more,
          read_chunks_lem fuel (drop (min remaining 4096 * 24) bytes)
              (remaining - min remaining 4096)
              (commands
                ++ decode_commands (min remaining 4096) (take (min remaining 4096 * 24) bytes))
              (ground arith),
        )
        (body_of-chunk (min remaining 4096) (remaining - min remaining 4096) remaining bytes
          commands (omega arith))
]
  where
    is_zero : (n : ℕ) → (n == 0) ≡ true → 0 ≡ n
    is_zero n e = ground arith

-- what is read of a header and the bytes behind it, from the lengths alone
abbrev pub checked : Bool → ReplayHeader → List ℕ → ReplayReadResult
checked few hdr body =
    if few
    then refusal truncated_header default_config
    else if not (same_bytes hdr.magic replay_magic)
    then refusal bad_magic default_config
    else if not (hdr.version == replay_format_version)
    then refusal unsupported_version default_config
    else if ltb (length body) (hdr.command_count * 24)
    then refusal truncated_body hdr.config
    else if ltb (hdr.command_count * 24) (length body)
    then refusal trailing_bytes hdr.config
    else record {
      error = no_error;
      config = hdr.config;
      commands = decode_commands hdr.command_count body;
    }

unfoldable pub result_of : List ℕ → ReplayReadResult
result_of bytes = checked (ltb (length bytes) 96) (decode_header (take 96 bytes)) (drop 96 bytes)

-- the ends of the file and of the body
at_end_lem :
    (config : WorkloadConfig) (commands : List RawCommand) (bytes : List ℕ) (count : ℕ)
    → ltb (length bytes) count ≡ false
    → at_end config commands (drop count bytes) ≡ (
        if ltb count (length bytes)
        then refusal trailing_bytes config
        else record { error = no_error; config = config; commands = commands })
at_end_lem config commands bytes count e = elim (Bool-cases (ltb count (length bytes))) [
  | inl more ↦ rw more (ends (drop count bytes) (ground (arith, length-drop count bytes)))
  | inr same ↦ rw same (whole_end (drop count bytes) (ground (arith, length-drop count bytes)))
]
  where
    ends : (bs : List ℕ) → 0 < length bs → at_end config commands bs ≡ refusal trailing_bytes config
    ends [] h = absurd (omega arith)
    ends (b ∷ bs) h = refl

    whole_end :
        (bs : List ℕ)
        → length bs ≡ 0
        → at_end config commands bs
          ≡ record { error = no_error; config = config; commands = commands }
    whole_end [] h = refl
    whole_end (b ∷ bs) h = absurd (omega arith)

after_body_lem :
    (config : WorkloadConfig) (count : ℕ) (body : List ℕ)
    → after_body config (some (body_of count body []))
      ≡ some (
          if ltb (length body) (count * 24)
          then refusal truncated_body config
          else if ltb (count * 24) (length body)
          then refusal trailing_bytes config
          else record { error = no_error; config = config; commands = decode_commands count body })
unfolding body_of
after_body_lem config count body = elim (Bool-cases (ltb (length body) (count * 24))) [
  | inl few ↦ rw few refl
  | inr enough ↦
      rw enough
        (ap (λ r. some r) (at_end_lem config (decode_commands count body) body (count * 24) enough))
]

-- the checks of the header, one after the other
checks :
    {A : Type 0} (long few good_magic good_version : Bool) (a b c r : A) (out : Option A)
    → long ≡ not few
    → out ≡ some r
    → (if not long
        then some a
        else if not good_magic
        then some b
        else if not good_version
        then some c
        else out)
      ≡ some (if few then a else if not good_magic then b else if not good_version then c else r)
checks long true good_magic good_version a b c r out e h = rw e refl
checks long false false good_version a b c r out e h = rw e refl
checks long false true false a b c r out e h = rw e refl
checks long false true true a b c r out e h = rw e h

is_long : (bytes : List ℕ) → (length (take 96 bytes) == 96) ≡ not (ltb (length bytes) 96)
is_long bytes = rw (length-take 96 bytes) (by_length (length bytes))
  where
    by_length : (n : ℕ) → (min 96 n == 96) ≡ not (ltb n 96)
    by_length n = ground arith

-- The reader returns on every input, whatever the count in the header says. It loads the commands
-- only of a file with the magic, the version and exactly the length that the header gives; of any
-- other it reports the first deviation in the order header, magic, version, body, trailing bytes,
-- and loads none.
pub read_replay_lem : (bytes : List ℕ) → read_replay bytes ≡ some (result_of bytes)
unfolding read_replay result_of
read_replay_lem bytes =
    let hdr = decode_header (take 96 bytes) in
    checks (length (take 96 bytes) == 96) (ltb (length bytes) 96)
      (same_bytes hdr.magic replay_magic) (hdr.version == replay_format_version) _ _ _ _ _
      (is_long bytes)
      (ap (after_body hdr.config) (
          read_chunks_lem (hdr.command_count + 1) (drop 96 bytes) hdr.command_count []
            (omega arith))
        ∙ after_body_lem hdr.config hdr.command_count (drop 96 bytes))
