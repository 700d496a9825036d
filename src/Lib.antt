-- ===== src/Lib.antt =====
-- A limit order book with price-time priority, its data structures, and a parser of ITCH 5.0 messages.
--
-- The program. `OrderBook` (include/order_book.h) takes orders one at a time. It takes an `Order` from
-- an `OrderPool` (include/memory_pool.h), enters it in an `OrderMap` by its id (include/order_map.h),
-- matches it against the `PriceLevel`s of the other side (include/price_level.h), lets what is left of
-- it rest on its own side, and publishes an `Event` (include/order.h) to a callback and to an
-- `SPSCQueue` (include/spsc_queue.h). `ItchParser` (include/itch_parser.h) turns a buffer into calls of
-- callbacks, and `itch_build` in the same file writes such buffers. `ReplayEngine`
-- (include/replay_engine.h) has callbacks that call the book and count in a `StatsCounter`
-- (include/stats_counter.h).
--
-- The files.
--   Prelude and its children: Boolean tests and lists over the native numbers, lists without
--     repetition, words of 32 and 64 bits with their wrap-around, and laws of powers and masks.
--   Order: include/order.h. The array `pool_` of `OrderPool` is `Cells`: the data of each order and its
--     links, a function each from the order's place in the array. An `Order*` is a `Ref`, a place; a
--     pointer that may be null is an `Option`. The places stand for addresses, so aliasing is equality
--     of places.
--   PriceLevel: `push_back`, `remove` and `empty` of include/price_level.h, which take the cells and
--     return them. `Chain` says what the links of a level stand for, `Valid` when a level stands for a
--     list of orders; `Push` and `Remove` are about the two operations.
--   OrderPool: the constructor, `acquire`, `release` and `available` of include/memory_pool.h;
--     `FreeList` says which orders are free. The pass that touches each page reads only, and has no
--     counterpart.
--   OrderMap: `insert`, `find`, `erase`, `hash` and `backward_shift` of include/order_map.h. `Places` is
--     about the probes of an id, `Search` and `Insert` about tables without deletions, `Hash` about
--     the home slots, `Direct`, `Erase` and `Table` about tables whose keys are all at home, `Lost`
--     about deletions from others, `Entries` about what the operations do to the entries of any
--     table.
--   SpscQueue: `push`, `pop` and `empty` of include/spsc_queue.h as one thread runs them; `Ring` and
--     `Refine` relate the ring to a list. `Threads` cuts the two calls into their loads, copies and
--     stores, as a step relation of a producer and a consumer; `Fits` is the invariant of the steps and
--     `Linear` what follows from it.
--   Itch: include/itch_parser.h. `Bytes` has the fields (be16 to be64, put16 to put64, the stock),
--     `Messages` the structs, `Parser` the class `ItchParser`, `Build` the builders of `itch_build`,
--     `Stock`, `Lanes` and `RoundTrip` what is read back of one message, `Stream` what is read of a
--     buffer, `Local` which bytes of it.
--   OrderBook: include/order_book.h. `State` has the members, `Match` the function `match`,
--     `Operations` `add_order`, `cancel_order`, `modify_order` and the updates of the best prices,
--     `Queries` `top_of_book`, `get_stats`, `get_depth` and `orders_in_flight`. `Scan` is about the
--     loops over empty levels, `Depth` about `get_depth`, `Refused` about operations that return
--     false, `Rests` about orders that do not trade, `Crossed` about a best price that stands at an
--     emptied level, `Cancels` and `Better` about cancellations, `Reduces` about the fast path of
--     `modify_order`. The rest is about whole books: `Sides` and `Totals` have the two sides as a
--     family and the sums of their shares, `Whole` says when a book stands for lists of orders at
--     each side and price, `Change`, `Moves`, `Joins` and `Traded` what the changes of one level do
--     to that (`Relisted` and `Joined` are about the lists alone). `Priority` describes a match by
--     queues of orders; `Fill`, `Filled`, `Future` and `Step` compare one fill with it, `Run` composes
--     fills, `Level`, `Within`, `Sweep` and `Loop` follow the two loops, and `Matched` is about `match`.
--     `Entry`, `Resting`, `Settle`, `Views`, `Reach` and `Accept` put `add_order` together,
--     `Conserve` counts the shares, `Validity` and `Withdraw` are about books that the operations
--     lead to. `Index` says when the table agrees with the lists, `Sound` and `Commands` are about
--     runs of commands. `Lessened` and `Follows` trace the orders that the table finds after an
--     operation to those of before, and `Fresh` is about commands that add each order under an id
--     of its own.
--   StatsCounter: the counters of include/stats_counter.h and their increments; `zeros` is what `reset`
--     leaves.
--   Replay: the class `ReplayEngine` of include/replay_engine.h, a callback for each kind of message and
--     `run`. `Tick` is about `to_tick`, `Tracked` about `order_tracker_`, `Foreign` about messages of
--     other symbols, `Tracking` and `Sound` about the book and the tracker together.
--   LatencyTracer: include/latency_tracer.h in the build with tracing. `Samples` is about the samples
--     that are kept, `Report` about what is reported of them.
--   MmapReader: the constructor, the destructor and the move of include/mmap_reader.h, with the calls
--     of the operating system that they make; `Life` follows a reader from its making on.
--   ReplayMain: `SyntheticStream` of src/replay_main.cpp and, in `ReplayMain` and `Demo` below it, the
--     streams of its demos. `Written` is about what is read of such streams, `Throughput` about the
--     loop of `demo_replay_throughput`, `File` about `demo_replay_from_file`, which hands what a
--     `MmapReader` names to an engine.
--   Demo: what the demos of src/main.cpp do to their books; `Runs` is about their two loops.
--   Tests: runs at concrete inputs.
--
-- Numbers. All are natural numbers; what the code does in 32 or 64 bits is taken modulo 2 ^ 32 or
-- 2 ^ 64. Capacities of tables and rings are powers of two, given by their exponents; those of the
-- book are the fields of `Sizes`, `source_sizes` at the values of the source. `read_cycles`, the
-- processor's clock, is a parameter: the function from the number of a call to its reading.
--
-- Loops. Those of the table run on the number of slots, as in the source. `backward_shift`, which the
-- source leaves without a bound, runs on the square of the number of slots: each round but the last
-- brings an entry a slot nearer to its home. The parser's loop runs on the number of bytes, at least
-- two of which each round takes. The outer loop of `match` runs on the number of prices, since each round but the last
-- empties a level, and its inner loop on the number of orders in use.
--
-- Bounds. A read of a level outside the array is `none` in `top_of_book` and `get_stats`; the other
-- operations test the price before the read. A division by a `tick_divisor` of 0, which
-- C++ leaves undefined, has a value here; the default is 100.
--
-- Not modelled: the orders of the C++ memory model (the steps of the two threads are sequentially
-- consistent), callbacks that call the book again, printing, the clock of a replay, and the tracer's
-- calls inside the book, which only measure; timers, thread affinity and signposts
-- (include/timing.h, include/cpu_affinity.h, include/signpost.h), which are calls of the processor and
-- the operating system; the drivers and suites under benchmarks and tests. Floating-point numbers
-- (nanoseconds, percentiles) are parameters.
pub mod Prelude
pub mod Order
pub mod PriceLevel
pub mod OrderPool
pub mod OrderMap
pub mod SpscQueue
pub mod Itch
pub mod OrderBook
pub mod StatsCounter
pub mod LatencyTracer
pub mod MmapReader
pub mod Replay
pub mod ReplayMain
pub mod Demo
pub mod Tests
