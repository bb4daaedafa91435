-- ===== src/Stats/Tests.antt =====
-- The statistics of a channel of capacity 4 with windows of two buckets of two frames.
use steady_state_stack.Stats.Compute.{compute_lem}
use steady_state_stack.Stats.Percent.{
  IsWithin, avg_filled_whole_percent_lem, last_window, total_filled,
}
use steady_state_stack.Stats.{ChannelBlock, Histograms, add_frame, tick}
use steady_state_stack.Stats.Channels.{
  ChannelMetaData, ChannelStatsComputer, Filled, accumulate_data_frame, avg_filled_whole_percent,
  compute, init, percentage, started,
}
use steady_state_stack.Stats.Averages.{IsMaking, IsRunning, accumulate_all, accumulate_all_lem}
use steady_state_stack.Common.{
  List, [], arith, done, false, none, panic, refl, some, true, ℕ, ◌%◌, ◌*◌, ◌+◌, ◌-◌, ◌/◌, ◌<◌, ◌^◌,
  ◌∷◌, ◌≡◌, ◌≤◌,
}

-- A histogram that keeps what it is given.
abbrev samples : Histograms (List ℕ) ℕ
samples = record {
  new = λ digits. some [];
  new_with_bounds = λ low high digits. some [];
  record_value = λ h v. some (v ∷ h);
  high = λ h. 4;
  value_at_percentile = λ h p. 0;
}

abbrev metadata : ChannelMetaData ℕ ℕ ℕ
metadata = record {
  capacity = 4;
  refresh_rate_in_bits = 1;
  window_bucket_in_bits = 1;
  avg_filled = true;
  min_filled = false;
  max_filled = true;
  min_rate = false;
  max_rate = false;
  min_latency = false;
  max_latency = false;
  percentiles_filled = [];
  percentiles_rate = [];
  percentiles_latency = [];
  trigger_filled = [];
  trigger_rate = [];
  trigger_latency = [];
}

abbrev observed : List (ℕ × ℕ)
observed = (2, 1) ∷ (4, 3) ∷ (1, 0) ∷ (3, 2) ∷ (4, 1) ∷ []

abbrev with_histogram : ChannelBlock (List ℕ)
with_histogram = record { histogram = some []; runner = 0; sum_of_squares = 0 }

abbrev without_histogram : ChannelBlock (List ℕ)
without_histogram = record { histogram = none; runner = 0; sum_of_squares = 0 }

abbrev begun : ChannelStatsComputer (List ℕ) ℕ ℕ ℕ
begun = started samples metadata 1_000

abbrev later : ChannelStatsComputer (List ℕ) ℕ ℕ ℕ
later = accumulate_all samples observed begun

-- (2 + 4 + 1 + 3) / 4 of 4 is 62 percent.
whole_percent : avg_filled_whole_percent later ≡ some 62
unfolding avg_filled_whole_percent started accumulate_data_frame tick add_frame
whole_percent = refl

begun-IsMaking : IsMaking samples with_histogram without_histogram without_histogram begun
unfolding started
begun-IsMaking = record { filled = refl; rate = refl; latency = refl }

begun_by_init : init samples metadata 1_000 ≡ done begun
unfolding init
begun_by_init = refl

accumulate_all_lem_example :
    IsRunning samples with_histogram without_histogram without_histogram observed later
accumulate_all_lem_example =
    accumulate_all_lem samples with_histogram without_histogram without_histogram metadata 1_000
      observed begun begun_by_init begun-IsMaking

abbrev running : IsRunning samples with_histogram without_histogram without_histogram observed later
running = accumulate_all_lem_example

all-IsWithin : IsWithin later.capacity observed
unfolding started accumulate_data_frame
all-IsWithin = (omega arith, (omega arith, (omega arith, (omega arith, (omega arith, tt)))))

room_small : 1_000 * later.capacity < 2 ^ 64
unfolding started accumulate_data_frame
room_small = omega arith

some_room : 1 ≤ later.capacity
unfolding started accumulate_data_frame
some_room = omega arith

few_bits : later.window_bucket_in_bits + later.refresh_rate_in_bits ≤ 64
unfolding started accumulate_data_frame
few_bits = omega arith

window_complete : 2 ^ later.window_bucket_in_bits ≤ running.filled.complete
unfolding started accumulate_data_frame
window_complete = omega (arith, running.filled.frames, running.filled.within)

average_shown : later.show_avg_filled ≡ true
unfolding started accumulate_data_frame
average_shown = refl

abbrev seen_filled : ℕ
seen_filled = total_filled (
    last_window samples with_histogram without_histogram without_histogram observed later running
      all-IsWithin room_small few_bits window_complete)

abbrev frame_count : ℕ
frame_count = 2 ^ later.window_bucket_in_bits * 2 ^ later.refresh_rate_in_bits

abbrev frame_room : ℕ
frame_room = frame_count * later.capacity

avg_filled_whole_percent_lem_example :
    (seen_filled ≡ 0 → avg_filled_whole_percent later ≡ none)
    × (0 < seen_filled → avg_filled_whole_percent later ≡ some ((100 * seen_filled) / frame_room))
    × ((100 * seen_filled) / frame_room ≤ 100)
avg_filled_whole_percent_lem_example =
    avg_filled_whole_percent_lem samples with_histogram without_histogram without_histogram observed
      later running all-IsWithin room_small few_bits window_complete average_shown some_room

abbrev no_deviation : ChannelBlock (List ℕ) → ℕ → ℕ
no_deviation block d = 0

abbrev half : Filled
half = percentage 1 2

abbrev sent : ℕ
sent = 7

abbrev taken : ℕ
taken = 3

begun_room : 0 < begun.capacity
unfolding started
begun_room = omega arith

compute_lem_example :
    (sent < taken → compute samples sent taken begun ≡ panic)
    × (taken ≤ sent
        → (after : ChannelStatsComputer (List ℕ) ℕ ℕ ℕ) × (consumed : ℕ) × (compute samples sent
              taken begun
            ≡ done after)
          × (begun.prev_take ≤ taken → begun.prev_take + consumed ≡ taken)
          × (taken < begun.prev_take → consumed ≡ taken)
          × IsRunning samples with_histogram without_histogram without_histogram
              ((sent - taken, consumed) ∷ [])
              after
          × (after.total_consumed ≡ (begun.total_consumed + consumed) % 2 ^ 128)
          × (begun.total_consumed ≡ begun.prev_take
              → begun.prev_take ≤ taken
              → taken < 2 ^ 128
              → after.total_consumed ≡ after.prev_take))
compute_lem_example =
    compute_lem samples with_histogram without_histogram without_histogram [] begun
      (accumulate_all_lem samples with_histogram without_histogram without_histogram metadata 1_000
        [] begun begun_by_init begun-IsMaking)
      begun_room sent taken
