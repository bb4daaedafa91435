-- ===== src/Lib.antt =====
-- The core of steady_state, a framework of actors that run on threads of their own, talk over bounded
-- channels and stop by a vote.
--
-- Parts and files:
--   Common         Boolean tests, outcomes, lists over the native numbers (Common/Lists), and maps with
--                  numbers as keys (Common/Maps).
--   Liveliness     core/src/graph/liveliness.rs, with the data of graph/{identity,state,vote}.rs in
--                  Liveliness/Types: actors register as voters, the graph starts, somebody requests a
--                  shutdown, each actor votes when it asks `is_running`, and a dead actor's vote is
--                  cast for it. `GraphLiveliness` is the struct behind the lock; each function of the
--                  file is the definition of the same name.
--   Liveliness/Moves, Stop, Watch   the moves of all threads, the decision to stop, and the loop of
--                  core/src/graph/shutdown.rs that waits for it.
--   Channel        core/src/core_tx.rs, and Channel/Rx core/src/core_rx.rs: the operations
--                  `shared_*` of `Tx` and `Rx` under their names without `shared_`. Both ends are one
--                  record over the ring that they share. Channel/Ring is the interface to the crates
--                  for ring buffers and one-shot signals.
--   Codec/Fast     core/src/serialize/fast_protocol_packed.rs: integers in groups of seven bits.
--   Codec/Packed   core/src/serialize/byte_buffer_packer.rs for i64: vectors written as their changes,
--                  a mask of bits in chunks of 64 and the differences.
--   Pack           core/src/actor_builder: Pack/Budget is slot_budget.rs, the number of threads that
--                  the packer may create, and Pack/EvenSplit is `even_split` of pack.rs. Files, the
--                  environment and the parsers are the interface `Platform`.
--   Pack/Edges, UnionFind, Union, Kruskal   the rest of pack.rs: the edges in order, the union-find
--                  with its maps `parent` and `rank`, the loop that merges clusters along the edges,
--                  the grouping by root, and Kruskal/Linedance, the order within a cluster. `find`
--                  recurses along parents with the number of actors as fuel, more than there can be
--                  merges; the order has the size of the cluster as fuel, as each actor is taken once.
--   Distributed    core/src/distributed: Polling is polling.rs, the delay between polls, and
--                  Scheduling is scheduling.rs, tasks that run again and again.
--   Stream         core/src/core_tx_stream.rs is Stream/Tx and core/src/core_rx_stream.rs is Stream/Rx: a
--                  channel of items and a channel of payload bytes that go together. Stream/Frames
--                  reads the two as one queue of messages. Stream/Consume is `consume_messages` of
--                  core/src/distributed/aqueduct_stream_rx.rs, which shows messages in place; Walk,
--                  Delivery and Consumed say which. Stream/Defrag is the entry of a session of
--                  core/src/distributed/aqueduct_stream_tx.rs and its flush into the stream by
--                  core/src/steady_actor_shadow.rs; Flush, Flushed and Defragmented say what moves.
--   Stats          core/src/channel_stats.rs, with the blocks and comparisons of core/src/actor_stats.rs:
--                  Stats/Channels is `ChannelStatsComputer` up to its labels, Stats/Triggers the
--                  triggers, and Stats/Window, Averages, Percent, Alerts and Compute what they say of
--                  the frames. The history and the current block of a measure are one `Rolling`, and
--                  the code that the source repeats for three measures is `tick`. The crate for
--                  histograms is the interface `Histograms`.
--
-- Model. A panic is the outcome `panic`, and an error is the value that the source returns. The debug
-- assertions that a channel is open panic when they fail; those on the number of a ballot and on how
-- far an index was advanced are not modelled. What the other threads do where a function holds no
-- lock (`Gaps` in a shutdown request, `between` in the voting for the dead, the fields of `Round` in
-- the watch), which locks they hold, the clock, and which future of a `select!` wins are arguments.
-- In Liveliness/Moves a move is what happens under one acquisition of the lock, and what a thread
-- read before is any value. The ballots are taken by `try_lock` only; `held` says which are taken. A
-- window of the statistics has less than 2^64 frames, so that `1 << bits` is a power.
-- Machine integers wrap explicitly; an i64 is its 64-bit pattern. Loops are structural: over the
-- ballots, over the seven-bit groups (at most ten for 64 bits), over the rounds of the watch that are
-- given; a watch with too few rounds says so by `watching`.
--
-- Not modelled: threads and their restart, the taking in of fragments, the labels and the server of the
-- telemetry, floating-point deviations, dot files, Aeron,
-- persistence, the project generator. Logging leaves no trace in any state.
pub mod Common
pub mod Liveliness
pub mod Codec
pub mod Channel
pub mod Distributed
pub mod Pack
pub mod Stream
pub mod Stats
