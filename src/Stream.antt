-- ===== src/Stream.antt =====
-- A stream: `StreamTx` and `StreamRx` of core/src/distributed/aqueduct_stream_{tx,rx}.rs, two channels
-- that go together, one of control items and one of payload bytes.
pub mod Tx
pub mod Rx
pub mod Frames
pub mod Consume
pub mod Walk
pub mod Delivery
pub mod Consumed
pub mod Defrag
pub mod Flush
pub mod Flushed
pub mod Defragmented
mod Tests
use steady_state_stack.Common.{Bool, leb, ltb, ℕ, ◌&&◌, ◌==◌, ◌||◌}
use steady_state_stack.Channel.{Channel}
use steady_state_stack.Channel.Ring.{OneShots, RingBuffer}

-- A message that goes out: the length of its payload, an `i32` that is not negative.
pub record StreamEgress : Type 0 where
  pub length : ℕ

-- Both channels, each with both of its ends.
pub record Stream {Item : Type 0} (b : RingBuffer Item) (p : RingBuffer ℕ) (s : OneShots)
    : Type 0 where
  pub control : Channel b s
  pub payload : Channel p s

-- Comparing two pairs, `(a, b) <= (c, d)`, is lexicographic.
pub pair_le : ℕ × ℕ → ℕ × ℕ → Bool
pair_le (a, b) (c, d) = ltb a c || (a == c && leb b d)
