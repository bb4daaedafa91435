-- ===== src/Stats.antt =====
-- Statistics of core/src/{channel_stats,actor_stats}.rs: blocks that sum up the frames of a window. The
-- histograms are the crate `hdrhistogram`'s, an interface.
pub mod Window
pub mod Channels
pub mod Triggers
pub mod Averages
pub mod Percent
pub mod Alerts
pub mod Compute
mod Tests
use steady_state_stack.Common.{
  Bool, List, Option, [], false, if◌then◌else◌, leb, length, map, min, none, some, true, ℕ, ◌++◌,
  ◌+◌, ◌-◌, ◌^◌, ◌∷◌,
}

-- What the code calls of a histogram, with percentiles of type `P`. An error of `record` leaves it as
-- it was; `none` for a new one is an error.
pub record Histograms (H P : Type 0) : Type 0 where
  pub new : ℕ → Option H
  pub new_with_bounds : ℕ → ℕ → ℕ → Option H
  pub record_value : H → ℕ → Option H
  pub high : H → ℕ
  pub value_at_percentile : H → P → ℕ

pub record ChannelBlock (H : Type 0) : Type 0 where
  pub histogram : Option H
  pub runner : ℕ
  pub sum_of_squares : ℕ

abbrev pub u128_max : ℕ
u128_max = 2 ^ 128 - 1

-- `PLACES_TENS`.
abbrev pub places_tens : ℕ
places_tens = 1_000

abbrev pub saturating_add : ℕ → ℕ → ℕ
saturating_add a b = min (a + b) u128_max

-- What a frame of type `S` puts into a block: the value for the histogram and the value for the sums.
pub record Measure (H S : Type 0) : Type 0 where
  pub recorded : H → S → ℕ
  pub scaled : S → ℕ

module _ {H P S : Type 0} (lib : Histograms H P) (measure : Measure H S) where
  abbrev pub record_in : S → H → H
  record_in frame h = elim (lib.record_value h (measure.recorded h frame)) [
    | none ↦ h
    | some after ↦ after
  ]

  -- The body of `self.history_*.iter_mut().for_each`.
  unfoldable pub add_frame : S → ChannelBlock H → ChannelBlock H
  add_frame frame f = record {
    histogram = elim f.histogram [ none ↦ none | some h ↦ some (record_in frame h) ];
    runner = saturating_add f.runner (measure.scaled frame);
    sum_of_squares = saturating_add f.sum_of_squares (measure.scaled frame ^ 2);
  }

-- A history of blocks, the oldest first, and the last block that was completed.
pub record Rolling (H : Type 0) : Type 0 where
  pub history : List (ChannelBlock H)
  pub current : Option (ChannelBlock H)

module _ {H : Type 0} where
  -- A block without frames; with a histogram if `build` says so and the crate makes one.
  abbrev pub new_block : Bool → Option H → Option (ChannelBlock H)
  new_block false made = some (record { histogram = none; runner = 0; sum_of_squares = 0 })
  new_block true none = none
  new_block true (some h) = some (record { histogram = some h; runner = 0; sum_of_squares = 0 })

  -- `push_back` of a new block, if there is one.
  abbrev pub push_back : List (ChannelBlock H) → Option (ChannelBlock H) → List (ChannelBlock H)
  push_back history none = history
  push_back history (some block) = history ++ block ∷ []

  -- `current = history.pop_front()`.
  abbrev pub pop_front : List (ChannelBlock H) → Rolling H
  pop_front [] = record { history = []; current = none }
  pop_front (block ∷ history) = record { history = history; current = some block }

  -- A bucket is complete: a full history gives its first block, and a new block begins.
  abbrev pub roll : ℕ → Option (ChannelBlock H) → Rolling H → Rolling H
  roll window_bucket_in_bits fresh rolling =
      let popped =
        if leb (2 ^ window_bucket_in_bits) (length rolling.history)
        then pop_front rolling.history
        else rolling in
      record popped { history = push_back popped.history fresh }

module _ {H P S : Type 0} (lib : Histograms H P) (measure : Measure H S) where
  -- One frame on one history, the frame `count` of its bucket.
  unfoldable pub tick : ℕ → ℕ → Option (ChannelBlock H) → ℕ → S → Rolling H → Rolling H
  tick refresh_rate_in_bits window_bucket_in_bits fresh count frame rolling =
      let added = record rolling { history = map (add_frame lib measure frame) rolling.history } in
      if leb (2 ^ refresh_rate_in_bits) count then roll window_bucket_in_bits fresh added else added
