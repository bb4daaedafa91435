-- ===== src/Stats/Alerts.antt =====
-- The triggers of core/src/channel_stats.rs on the average, against the frames of the window.
use steady_state_stack.Stats.Percent.{IsWithin, last_window, total_filled}
use steady_state_stack.Stats.Averages.{IsRunning}
use steady_state_stack.Stats.Channels.{ChannelStatsComputer}
use steady_state_stack.Stats.{ChannelBlock, Histograms}
use steady_state_stack.Common.{List, ℕ, ◌*◌, ◌+◌, ◌<◌, ◌^◌, ◌≤◌}

module _ {H D P C : Type 0} (lib : Histograms H P) (deviation : ChannelBlock H → D → ℕ)
    (fresh_filled fresh_rate fresh_latency : ChannelBlock H) (seen : List (ℕ × ℕ))
    (s : ChannelStatsComputer H D P C)
    (running : IsRunning lib fresh_filled fresh_rate fresh_latency seen s)
    (within : IsWithin s.capacity seen) (small : 1_000 * s.capacity < 2 ^ 64)
    (bits : s.window_bucket_in_bits + s.refresh_rate_in_bits ≤ 64)
    (late : 2 ^ s.window_bucket_in_bits ≤ running.filled.complete) where
  abbrev total : ℕ
  total =
      total_filled (
        last_window lib fresh_filled fresh_rate fresh_latency seen s running within small bits late)

  abbrev frames : ℕ
  frames = 2 ^ s.window_bucket_in_bits * 2 ^ s.refresh_rate_in_bits
