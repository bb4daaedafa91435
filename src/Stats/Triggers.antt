-- ===== src/Stats/Triggers.antt =====
-- The triggers of core/src/channel_stats.rs and the comparisons of core/src/actor_stats.rs that they use.
-- `deviation` is the standard deviation of a block, times that of the rule, as an integer.
use steady_state_stack.Stats.{ChannelBlock, Histograms, places_tens}
use steady_state_stack.Stats.Channels.{
  ChannelStatsComputer, Filled, Trigger, avg_above, avg_below, exact, percentage, percentile_above,
  percentile_below, std_devs_above, std_devs_below, window_bits,
}
use steady_state_stack.Common.{
  Bool, Option, any, false, if◌then◌else◌, ltb, none, some, true, ℕ, ◌%◌, ◌&&◌, ◌*◌, ◌+◌, ◌/◌, ◌^◌,
  ◌||◌,
}

-- `a.cmp(&b)`, of u128 values that wrap: less, equal or greater.
pub data Order : Type 0 where
  less : Order
  equal : Order
  greater : Order

abbrev pub cmp : ℕ → ℕ → Order
cmp a b =
    if ltb (a % 2 ^ 128) (b % 2 ^ 128)
    then less
    else if ltb (b % 2 ^ 128) (a % 2 ^ 128)
    then greater
    else equal

abbrev pub is_gt : Order → Bool
is_gt less = false
is_gt equal = false
is_gt greater = true

abbrev pub is_lt : Order → Bool
is_lt less = true
is_lt equal = false
is_lt greater = false

module _ {H P : Type 0} (lib : Histograms H P) where
  -- The comparison of a percentile; without a block or a histogram it is unknown.
  abbrev pub percentile_of : Option (ChannelBlock H) → P → (ℕ → Order) → Order
  percentile_of none percentile compare_with = equal
  percentile_of (some block) percentile compare_with = elim block.histogram [
    | none ↦ equal
    | some h ↦ compare_with (lib.value_at_percentile h percentile)
  ]

  abbrev pub percentile_rational : P → Option (ChannelBlock H) → ℕ × ℕ → Order
  percentile_rational percentile consumed (num, den) =
      percentile_of consumed percentile (λ measured. cmp (measured * den) num)

module _ {H : Type 0} where
  abbrev pub avg_rational : ℕ → ℕ → Option (ChannelBlock H) → ℕ × ℕ → Order
  avg_rational run_divisor units none (num, den) = equal
  avg_rational run_divisor units (some block) (num, den) =
      cmp (block.runner * den) (units * run_divisor * num)

  abbrev pub stddev_rational : ℕ → ℕ → Option (ChannelBlock H) → ℕ × ℕ → Order
  stddev_rational std_deviation window_bits none (num, den) = equal
  stddev_rational std_deviation window_bits (some block) (num, den) =
      cmp (den * (block.runner / 2 ^ window_bits + std_deviation)) (places_tens * num)

module _ {H D P C : Type 0} where
  abbrev pub avg_filled_percentage : ChannelStatsComputer H D P C → ℕ → ℕ → Order
  avg_filled_percentage s num den = elim s.filled.current [
    | none ↦ equal
    | some block ↦ cmp (block.runner * den) (num * places_tens * s.capacity * 2 ^ window_bits s)
  ]

  abbrev pub avg_filled_exact : ChannelStatsComputer H D P C → ℕ → Order
  avg_filled_exact s exact_full = elim s.filled.current [
    | none ↦ equal
    | some block ↦ cmp block.runner (exact_full * places_tens * 2 ^ window_bits s)
  ]

  abbrev pub avg_latency : ChannelStatsComputer H D P C → ℕ → Order
  avg_latency s micros = elim s.latency.current [
    | none ↦ equal
    | some block ↦ cmp block.runner (micros * 2 ^ window_bits s)
  ]

  module _ (deviation : ChannelBlock H → D → ℕ) where
    abbrev pub stddev_filled_exact : ChannelStatsComputer H D P C → D → ℕ → Order
    stddev_filled_exact s std_devs exact_full = elim s.filled.current [
      | none ↦ equal
      | some block ↦
          cmp (block.runner / 2 ^ window_bits s + deviation block std_devs)
            (exact_full * places_tens)
    ]

    abbrev pub stddev_filled_percentage : ChannelStatsComputer H D P C → D → ℕ → ℕ → Order
    stddev_filled_percentage s std_devs num den = elim s.filled.current [
      | none ↦ equal
      | some block ↦
          cmp ((block.runner / 2 ^ window_bits s + deviation block std_devs) * den)
            (num * s.capacity * places_tens)
    ]

    abbrev pub stddev_latency : ChannelStatsComputer H D P C → D → ℕ → Order
    stddev_latency s std_devs micros = elim s.latency.current [
      | none ↦ equal
      | some block ↦ cmp (block.runner / 2 ^ window_bits s + deviation block std_devs) micros
    ]

module _ {H D P C : Type 0} (lib : Histograms H P) (deviation : ChannelBlock H → D → ℕ) where
  -- The order that a rule asks for, against its measure.
  abbrev pub filled_order : ChannelStatsComputer H D P C → Trigger D P Filled → Order
  filled_order s (avg_above (percentage num den)) = avg_filled_percentage s num den
  filled_order s (avg_below (percentage num den)) = avg_filled_percentage s num den
  filled_order s (avg_above (exact full)) = avg_filled_exact s full
  filled_order s (avg_below (exact full)) = avg_filled_exact s full
  filled_order s (std_devs_above d (percentage num den)) =
      stddev_filled_percentage deviation s d num den
  filled_order s (std_devs_below d (percentage num den)) =
      stddev_filled_percentage deviation s d num den
  filled_order s (std_devs_above d (exact full)) = stddev_filled_exact deviation s d full
  filled_order s (std_devs_below d (exact full)) = stddev_filled_exact deviation s d full
  filled_order s (percentile_above p (percentage num den)) =
      percentile_of lib s.filled.current p (λ v. cmp (v * den) (num * s.capacity))
  filled_order s (percentile_below p (percentage num den)) =
      percentile_of lib s.filled.current p (λ v. cmp (v * den) (num * s.capacity))
  filled_order s (percentile_above p (exact full)) =
      percentile_of lib s.filled.current p (λ v. cmp v full)
  filled_order s (percentile_below p (exact full)) =
      percentile_of lib s.filled.current p (λ v. cmp v full)

  abbrev pub rate_order : ChannelStatsComputer H D P C → Trigger D P (ℕ × ℕ) → Order
  rate_order s rule =
      let window_in_ms = (s.frame_rate_ms * 2 ^ window_bits s) % 2 ^ 64 in
      let deviation_of : D → ℕ =
        λ d. elim s.rate.current [ none ↦ 0 | some block ↦ deviation block d ] in
      elim rule [
        | avg_above limit ↦ avg_rational window_in_ms places_tens s.rate.current limit
        | avg_below limit ↦ avg_rational window_in_ms places_tens s.rate.current limit
        | std_devs_above d limit ↦
            stddev_rational (deviation_of d) (window_bits s) s.rate.current limit
        | std_devs_below d limit ↦
            stddev_rational (deviation_of d) (window_bits s) s.rate.current limit
        | percentile_above p limit ↦ percentile_rational lib p s.rate.current limit
        | percentile_below p limit ↦ percentile_rational lib p s.rate.current limit
      ]

  abbrev pub latency_order : ChannelStatsComputer H D P C → Trigger D P ℕ → Order
  latency_order s rule = elim rule [
    | avg_above micros ↦ avg_latency s micros
    | avg_below micros ↦ avg_latency s micros
    | std_devs_above d micros ↦ stddev_latency deviation s d micros
    | std_devs_below d micros ↦ stddev_latency deviation s d micros
    | percentile_above p micros ↦
        percentile_of lib s.latency.current p (λ latency. cmp latency micros)
    | percentile_below p micros ↦
        percentile_of lib s.latency.current p (λ latency. cmp latency micros)
  ]

module _ {D P T : Type 0} where
  -- Rules above a limit ask for `is_gt`, the others for `is_lt`.
  abbrev pub fires : Trigger D P T → Order → Bool
  fires (avg_above limit) order = is_gt order
  fires (avg_below limit) order = is_lt order
  fires (std_devs_above d limit) order = is_gt order
  fires (std_devs_below d limit) order = is_lt order
  fires (percentile_above p limit) order = is_gt order
  fires (percentile_below p limit) order = is_lt order

module _ {H D P C : Type 0} (lib : Histograms H P) (deviation : ChannelBlock H → D → ℕ) where
  unfoldable pub triggered_filled : ChannelStatsComputer H D P C → Trigger D P Filled → Bool
  triggered_filled s rule = fires rule (filled_order lib deviation s rule)

  unfoldable pub triggered_rate : ChannelStatsComputer H D P C → Trigger D P (ℕ × ℕ) → Bool
  triggered_rate s rule = fires rule (rate_order lib deviation s rule)

  unfoldable pub triggered_latency : ChannelStatsComputer H D P C → Trigger D P ℕ → Bool
  triggered_latency s rule = fires rule (latency_order lib deviation s rule)

  -- Does a rule of the color fire? `same_color` compares colors.
  unfoldable pub trigger_alert_level : (C → Bool) → ChannelStatsComputer H D P C → Bool
  trigger_alert_level same_color s =
      any (λ t. same_color t.1 && triggered_rate s t.0) s.rate_trigger
      || any (λ t. same_color t.1 && triggered_filled s t.0) s.filled_trigger
      || any (λ t. same_color t.1 && triggered_latency s t.0) s.latency_trigger
