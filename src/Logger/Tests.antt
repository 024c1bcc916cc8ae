-- ===== src/Logger/Tests.antt =====
-- A logger with a ring of two slots, and three records for it.
use low_latency_orderbook.Prelude.{ℕ, pos, ◌≡◌, refl, true, false, List, [], ◌∷◌, length, arith}
use low_latency_orderbook.Types.{buy, accepted, RejectReason}
use low_latency_orderbook.Ring
use low_latency_orderbook.Ring.{is_power_of_two, copy_out, try_push}
use low_latency_orderbook.Ring.Valid.{IsValid, init-IsValid}
use low_latency_orderbook.Ring.Refine.{contents}
use low_latency_orderbook.Logger.{LogRecord, AsyncLogger, init, log, log_all, consume}
use low_latency_orderbook.Logger.Count.{Logged, log_all-Logged}
use low_latency_orderbook.Logger.Drain.{Drained, consume-Drained}

abbrev entry : ℕ → LogRecord
entry n = record {
  timestamp = n;
  order_id = n;
  price_ticks = pos 10;
  qty = 5;
  kind = accepted;
  side = buy;
  reason = RejectReason.none;
}

abbrev logger : AsyncLogger
logger = init 2 entry

power_of_two : is_power_of_two 64 2 ≡ true
unfolding is_power_of_two
power_of_two = refl

logger-IsValid : IsValid logger.ring
unfolding init
logger-IsValid = init-IsValid 2 entry (omega arith) power_of_two (omega arith)

abbrev entries : List LogRecord
entries = entry 1 ∷ entry 2 ∷ entry 3 ∷ []

log_all-Logged_example : Logged logger (log_all logger entries) entries
unfolding init Ring.init
log_all-Logged_example = log_all-Logged logger entries logger-IsValid (omega arith) (omega arith)

abbrev full : AsyncLogger
full = log_all logger entries

full-Logged : Logged logger full entries
unfolding init Ring.init
full-Logged = log_all-Logged logger entries logger-IsValid (omega arith) (omega arith)

two_held :
    (length (contents full.ring) ≡ 2) × (full.records_written ≡ 0) × (full.records_dropped ≡ 1)
unfolding log_all init log copy_out try_push Ring.init
two_held = (refl, refl, refl)

consume-Drained_example : Drained full (consume 4 full false false)
consume-Drained_example =
    consume-Drained 4 full false false full-Logged.valid (omega (arith, two_held))
      (omega (arith, two_held))
