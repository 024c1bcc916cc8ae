-- ===== src/Logger.antt =====
-- include/lob/async_logger.h: `AsyncLogger`, a ring of records between the engine and the thread
-- that writes them out. The stream is the list of records written to it, and the number of them at
-- its last flush. The thread is followed from the store of `stop` on, after the producer's last push.
pub mod Count
pub mod Drain
mod Tests
use low_latency_orderbook.Prelude.{
  ℕ, zero, suc, ℤ, ◌+◌, ◌%◌, ◌^◌, Bool, true, false, Option, none, some, List, [], ◌∷◌, ◌++◌,
  length,
}
use low_latency_orderbook.Types.{Side, EventType, RejectReason, Event}
use low_latency_orderbook.Map.{is_nil}
use low_latency_orderbook.Ring
use low_latency_orderbook.Ring.{Ring, try_push, try_pop_batch}

abbrev pub logger_batch_size : ℕ
logger_batch_size = 256

pub record LogRecord : Type 0 where
  pub timestamp : ℕ
  pub order_id : ℕ
  pub price_ticks : ℤ
  pub qty : ℕ
  pub kind : EventType
  pub side : Side
  pub reason : RejectReason

unfoldable pub make_log_record : ℕ → Event → LogRecord
make_log_record timestamp e = record {
  timestamp = timestamp;
  order_id = e.order_id;
  price_ticks = e.price_ticks;
  qty = e.qty;
  kind = e.kind;
  side = e.side;
  reason = e.reason;
}

pub record AsyncLogger : Type 0 where
  pub ring : Ring LogRecord
  pub out : List LogRecord
  pub flushed : ℕ
  pub records_written : ℕ
  pub records_dropped : ℕ

unfoldable pub init : ℕ → (ℕ → LogRecord) → AsyncLogger
init ring_capacity slots = record {
  ring = Ring.init ring_capacity slots;
  out = [];
  flushed = 0;
  records_written = 0;
  records_dropped = 0;
}

-- `try_log` of a record
unfoldable pub try_log : AsyncLogger → LogRecord → Bool × AsyncLogger
try_log l rec = let (ok, ring') = try_push rec l.ring in (ok, record l { ring = ring' })

-- `log` of a record: a full ring discards it and bumps the drop counter
unfoldable pub log : AsyncLogger → LogRecord → AsyncLogger
log l rec =
    let (ok, ring') = try_push rec l.ring in
    elim ok [
      | true ↦ record l { ring = ring' }
      | false ↦ record l { ring = ring'; records_dropped = (l.records_dropped + 1) % 2 ^ 64 }
    ]

-- `log` of an event
unfoldable pub log_event : AsyncLogger → ℕ → Event → AsyncLogger
log_event l timestamp e = log l (make_log_record timestamp e)

unfoldable pub log_all : AsyncLogger → List LogRecord → AsyncLogger
log_all l [] = l
log_all l (rec ∷ recs) = log_all (log l rec) recs

unfoldable pub flush : AsyncLogger → AsyncLogger
flush l = record l { flushed = length l.out }

-- the write of a batch
unfoldable pub write_batch : AsyncLogger → List LogRecord → AsyncLogger
write_batch l batch = record l {
  out = l.out ++ batch;
  records_written = (l.records_written + length batch) % 2 ^ 64;
}

abbrev pub flush_if : Bool → AsyncLogger → AsyncLogger
flush_if true l = flush l
flush_if false l = l

-- `consume` once `stop` is set, from a pop on; every load of `stop` sees it. A pass is one unit of
-- fuel.
unfoldable pub consume : ℕ → AsyncLogger → Bool → Bool → Option AsyncLogger
consume zero l stopping dirty = none
consume (suc fuel) l stopping dirty =
    let (batch, ring') = try_pop_batch logger_batch_size l.ring in
    let l' = record l { ring = ring' } in
    elim (is_nil batch) [
      | false ↦ consume fuel (write_batch l' batch) stopping true
      | true ↦ elim stopping [
        | true ↦ some (flush l')
        | false ↦ consume fuel (flush_if dirty l') true false
      ]
    ]
