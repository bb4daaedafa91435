-- ===== src/Stats/Channels.antt =====
-- `ChannelStatsComputer` of core/src/channel_stats.rs: frames, windows, averages and their triggers. The
-- counters of a channel, an i64 each, are not negative; labels, colors and the floating-point standard
-- deviation are left out: what it comes to in integers is the argument `deviation`.
use steady_state_stack.Stats.{
  Histograms, Measure, Rolling, new_block, places_tens, push_back, tick, u128_max,
}
use steady_state_stack.Common.{
  Bool, List, Option, Outcome, [], any, done, false, if◌then◌else◌, leb, ltb, min, none, not, panic,
  some, take, true, ℕ, ◌%◌, ◌*◌, ◌+◌, ◌-◌, ◌/◌, ◌==◌, ◌^◌, ◌||◌, ◌∷◌,
}

pub data Trigger (D P T : Type 0) : Type 0 where
  avg_above : T → Trigger D P T
  avg_below : T → Trigger D P T
  std_devs_above : D → T → Trigger D P T
  std_devs_below : D → T → Trigger D P T
  percentile_above : P → T → Trigger D P T
  percentile_below : P → T → Trigger D P T

pub data Filled : Type 0 where
  percentage : ℕ → ℕ → Filled
  exact : ℕ → Filled

-- What the statistics take of `ChannelMetaData`. A duration is its microseconds, a rate its
-- `rational_ms`.
pub record ChannelMetaData (D P C : Type 0) : Type 0 where
  pub capacity : ℕ
  pub refresh_rate_in_bits : ℕ
  pub window_bucket_in_bits : ℕ
  pub avg_filled : Bool
  pub min_filled : Bool
  pub max_filled : Bool
  pub min_rate : Bool
  pub max_rate : Bool
  pub min_latency : Bool
  pub max_latency : Bool
  pub percentiles_filled : List P
  pub percentiles_rate : List P
  pub percentiles_latency : List P
  pub trigger_filled : List (Trigger D P Filled × C)
  pub trigger_rate : List (Trigger D P (ℕ × ℕ) × C)
  pub trigger_latency : List (Trigger D P ℕ × C)

-- `history_filled` and `current_filled` are `filled`, and so on.
pub record ChannelStatsComputer (H D P C : Type 0) : Type 0 where
  pub capacity : ℕ
  pub refresh_rate_in_bits : ℕ
  pub window_bucket_in_bits : ℕ
  pub frame_rate_ms : ℕ
  pub show_avg_filled : Bool
  pub build_filled_histogram : Bool
  pub build_rate_histogram : Bool
  pub build_latency_histogram : Bool
  pub filled_trigger : List (Trigger D P Filled × C)
  pub rate_trigger : List (Trigger D P (ℕ × ℕ) × C)
  pub latency_trigger : List (Trigger D P ℕ × C)
  pub bucket_frames_count : ℕ
  pub filled : Rolling H
  pub rate : Rolling H
  pub latency : Rolling H
  pub prev_take : ℕ
  pub total_consumed : ℕ
  pub last_send : ℕ
  pub last_take : ℕ
  pub last_total : ℕ

abbrev pub is_empty : {P : Type 0} → List P → Bool
is_empty [] = true
is_empty (p ∷ ps) = false

module _ {D P T : Type 0} where
  abbrev pub is_percentile : Trigger D P T → Bool
  is_percentile (percentile_above p t) = true
  is_percentile (percentile_below p t) = true
  is_percentile (avg_above t) = false
  is_percentile (avg_below t) = false
  is_percentile (std_devs_above d t) = false
  is_percentile (std_devs_below d t) = false

  -- Does a measure need a histogram?
  abbrev pub wants_histogram : {C : Type 0} → Bool → Bool → List (Trigger D P T × C) → List P → Bool
  wants_histogram show_max show_min triggers percentiles =
      (show_max || show_min || any (λ t. is_percentile t.0) triggers) || not (is_empty percentiles)

abbrev pub latency_micros : ℕ → ℕ × ℕ → ℕ
latency_micros frame_rate_ms (filled, rate) =
    if rate == 0 then 0 else ((filled * ((frame_rate_ms * 1_000) % 2 ^ 64)) % 2 ^ 64) / rate

module _ {H P : Type 0} (lib : Histograms H P) where
  -- A frame is how full the channel is and how many items were taken.
  abbrev pub filled_measure : Measure H (ℕ × ℕ)
  filled_measure = record {
    recorded = λ h (filled, rate). min filled (lib.high h);
    scaled = λ (filled, rate). (places_tens * filled) % 2 ^ 64;
  }

abbrev pub rate_measure : {H : Type 0} → Measure H (ℕ × ℕ)
rate_measure = record {
  recorded = λ h (filled, rate). rate;
  scaled = λ (filled, rate). (places_tens * rate) % 2 ^ 64;
}

abbrev pub latency_measure : {H : Type 0} → ℕ → Measure H (ℕ × ℕ)
latency_measure frame_rate_ms = record {
  recorded = λ h frame. latency_micros frame_rate_ms frame;
  scaled = λ frame. latency_micros frame_rate_ms frame;
}

module _ {H D P C : Type 0} (lib : Histograms H P) where
  -- What `init` sets, on a new computer.
  unfoldable pub started : ChannelMetaData D P C → ℕ → ChannelStatsComputer H D P C
  started meta frame_rate_ms =
      let build_filled =
        wants_histogram meta.max_filled meta.min_filled meta.trigger_filled
          meta.percentiles_filled in
      let build_rate =
        wants_histogram meta.max_rate meta.min_rate meta.trigger_rate meta.percentiles_rate in
      let build_latency =
        wants_histogram meta.max_latency meta.min_latency meta.trigger_latency
          meta.percentiles_latency in
      record {
        capacity = meta.capacity;
        refresh_rate_in_bits = meta.refresh_rate_in_bits;
        window_bucket_in_bits = meta.window_bucket_in_bits;
        frame_rate_ms = frame_rate_ms;
        show_avg_filled = meta.avg_filled;
        build_filled_histogram = build_filled;
        build_rate_histogram = build_rate;
        build_latency_histogram = build_latency;
        filled_trigger = meta.trigger_filled;
        rate_trigger = meta.trigger_rate;
        latency_trigger = meta.trigger_latency;
        bucket_frames_count = 0;
        filled = record {
          history = push_back [] (new_block build_filled (lib.new_with_bounds 1 meta.capacity 0));
          current = none;
        };
        rate = record { history = push_back [] (new_block build_rate (lib.new 2)); current = none };
        latency = record {
          history = push_back [] (new_block build_latency (lib.new 2));
          current = none;
        };
        prev_take = 0;
        total_consumed = 0;
        last_send = 0;
        last_take = 0;
        last_total = 0;
      }

  unfoldable pub init : ChannelMetaData D P C → ℕ → Outcome (ChannelStatsComputer H D P C)
  init meta frame_rate_ms = if ltb 0 meta.capacity then done (started meta frame_rate_ms) else panic

  unfoldable pub accumulate_data_frame :
      ℕ → ℕ → ChannelStatsComputer H D P C → ChannelStatsComputer H D P C
  accumulate_data_frame filled rate s =
      let r = s.refresh_rate_in_bits in
      let w = s.window_bucket_in_bits in
      let count = s.bucket_frames_count + 1 in
      record s {
        filled =
            tick lib (filled_measure lib) r w
              (new_block s.build_filled_histogram (lib.new_with_bounds 1 s.capacity 0)) count
              (filled, rate) s.filled;
        rate =
            tick lib rate_measure r w (new_block s.build_rate_histogram (lib.new 2)) count
              (filled, rate) s.rate;
        latency =
            tick lib (latency_measure s.frame_rate_ms) r w
              (new_block s.build_latency_histogram (lib.new 2)) count (filled, rate) s.latency;
        bucket_frames_count = if leb (2 ^ r) count then 0 else count;
      }

  -- The counters of `compute`, up to the labels: what was consumed since the last frame.
  unfoldable pub compute :
      ℕ → ℕ → ChannelStatsComputer H D P C → Outcome (ChannelStatsComputer H D P C)
  compute send take s =
      if s.capacity == 0
      then done s
      else if ltb send take
      then panic
      else (let inflight = send - take in
          let delta_consumed = if leb s.prev_take take then take - s.prev_take else take in
          let counted = record s {
            total_consumed = (s.total_consumed + delta_consumed) % 2 ^ 128;
          } in
          done (record (accumulate_data_frame inflight delta_consumed counted) {
            prev_take = take;
            last_send = send;
            last_take = take;
            last_total = inflight;
          }))

module _ {H D P C : Type 0} where
  -- The number of bits of the frames in a window, a `u8`.
  abbrev pub window_bits : ChannelStatsComputer H D P C → ℕ
  window_bits s = (s.window_bucket_in_bits + s.refresh_rate_in_bits) % 2 ^ 8

  unfoldable pub avg_filled_whole_percent : ChannelStatsComputer H D P C → Option ℕ
  avg_filled_whole_percent s = if not s.show_avg_filled then none else elim s.filled.current [
    | none ↦ none
    | some current ↦
        let denominator = min (10 * s.capacity) u128_max in
        if current.runner == 0
        then none
        else if denominator == 0
        then none
        else some (min (current.runner / 2 ^ window_bits s / denominator) 100 % 2 ^ 8)
  ]
