-- ===== src/Lib.antt =====
-- A limit order book and matching engine with price-time priority: the headers of include/lob, and the
-- command line tool of tools.
--
-- The parts of the program, how they interact, and where they stand here:
--   Types, Event: include/lob/types.h, and `MakeEvent` of include/lob/order_book.h. Commands go in,
--     events come out; an operation returns the list of events that the code gives to its sink.
--   Pool: include/lob/order_pool.h, the slots of all orders with their free list and the ids that
--     carry a slot and its generation. `operator[]` is the application of `slots`.
--   Level: the intrusive FIFO `PriceLevel` of include/lob/price_ladder.h, over the pool's slots.
--   Map: the sorted and the hashed containers of the standard library, as far as the code uses them.
--   Ladder: `PriceLadder` of include/lob/price_ladder.h, one side of the book: a banded array of
--     levels with a cursor at the best one, and a sorted map for the prices outside the band.
--   Book: include/lob/order_book.h, the pool and two ladders: `add`, `add_limit`, `cancel`, the sweep
--     `Match` and the queries. `Book.Valid.IsValid` is what `check_invariants` asserts but for its
--     last line: the ladders hold given lists of slots, in order of arrival, and these are the live
--     slots of the pool. The last line, `uncrossed()`, is `Book.Uncrossed.uncrossed`.
--   Naive: include/lob/naive_book.h, the reference book that the tests run beside the real one.
--     `add` gives `none` where one of its assertions on the id fails.
--   Agree: the relation between the states of both books, with `add`, its sweep, `cancel` and queries
--     on both, and `Agree.Run`, which drives both from the start with the same commands, as
--     tests/differential_matching_test.cc does.
--   Stats: include/lob/stats.h, the counters.
--   Engine: include/lob/matching_engine.h, the book with its counters: a command goes to the book,
--     and each of its events is counted. `Engine.Run` is its loop beside a producer.
--   Ring: include/lob/spsc_queue.h, the ring between two threads. One record holds both threads'
--     fields, with each thread's stale copy of the other's index, and an operation is one atomic step.
--   Latency: include/lob/latency.h, the conversion of clock ticks and the histogram.
--   Logger: include/lob/async_logger.h, which logs records to a ring or counts them as dropped, and
--     the thread that writes the ring out, from the moment it is told to stop.
--   Workload: include/lob/workload_gen.h, the generator of commands with its shadow engine.
--   ReplayFormat: include/lob/replay_format.h, the file of a workload: its layout in bytes, the writer
--     on an output stream that is a parameter, and the reader.
--   Cli: tools/lob_replay_lib.h, the tool that writes such a file from the generator and replays one
--     through a fresh engine. The file system is a parameter.
--   E2e: bench/e2e_bench_lib.h, the benchmark of the whole pipeline: its arguments, its checks, and its
--     engine thread, which measures each command of the batches that it pops and begins anew at the end
--     of the warm-up. The readings of the clock are a parameter.
--   Prelude: the shared numbers, lists, maps and tests on them.
--
-- Integers: prices are the library's integers without bounds, quantities and indices are natural
-- numbers, and `% 2 ^ w` stands where the code counts in w bits. `kNullIdx` is `none`. The offset of a
-- price in the band is not reduced to 32 bits: with the radius that the constructor asserts it is at
-- most 2^25. The ends of the band are sums without wrap, so an anchor near 2^63
-- is outside the model. `index & mask_` of the ring is the remainder by a capacity that is a power of
-- two, as the constructor asserts. The loop of the engine thread in the end-to-end benchmark is a list of
-- the batches that it pops; its waits and its `stop` flag are as in `Engine.Run`.
--
-- Fuel: `Match` takes one step for each order it fills. `Book.match` gives it one step more than there
-- are live orders and `Naive.match` one step more than there are orders on the swept side: each fill
-- but the last one takes an order off. The run loop of the engine takes a pass for each entry of its
-- schedule and each command and two more, that of the logger's thread a pass for each record and two
-- more. The reader of replay files takes a step for each command that the header promises and one
-- more: a chunk has a command at least.
--
-- Not modelled: memory layout and alignment, the memory order of atomic operations (a load sees the
-- latest store), the clocks, the logger's thread before it is told to stop, the texts that the tools
-- print, the threads that the end-to-end benchmark starts and the opening of its log, thread affinity,
-- the other benchmarks, which only time what is modelled, and the tests.
pub mod Prelude
pub mod Types
pub mod Event
pub mod Pool
pub mod Map
pub mod Level
pub mod Ladder
pub mod Book
pub mod Naive
pub mod Agree
pub mod Stats
pub mod Engine
pub mod Ring
pub mod Latency
pub mod Logger
pub mod Workload
pub mod ReplayFormat
pub mod Cli
pub mod E2e
mod Tests
