-- ===== src/Stats/Compute.antt =====
-- `compute` of core/src/channel_stats.rs: from the counters of a channel to frames.
use native.Mathlib.Nat.{mod-eq_of_lt}
use steady_state_stack.Stats.{ChannelBlock, Histograms}
use steady_state_stack.Stats.Channels.{ChannelStatsComputer, accumulate_data_frame, compute}
use steady_state_stack.Stats.Averages.{IsRunning, accumulate_data_frame-IsRunning}
use steady_state_stack.Common.{
  ==_ne, List, [], ap, arith, done, false, if◌then◌else◌, leb, ltb, lt→ltb, panic, refl, take, true,
  ℕ, ◌%◌, ◌++◌, ◌+◌, ◌-◌, ◌<◌, ◌==◌, ◌^◌, ◌∙◌, ◌∷◌, ◌≡◌, ◌≤◌,
}

module _ {H D P C : Type 0} (lib : Histograms H P)
    (fresh_filled fresh_rate fresh_latency : ChannelBlock H) (seen : List (ℕ × ℕ))
    (s : ChannelStatsComputer H D P C)
    (running : IsRunning lib fresh_filled fresh_rate fresh_latency seen s)
    (some_room : 0 < s.capacity) where
  abbrev counted : ℕ → ChannelStatsComputer H D P C
  counted consumed = record s { total_consumed = (s.total_consumed + consumed) % 2 ^ 128 }

  abbrev after_frame : ℕ → ℕ → ℕ → ChannelStatsComputer H D P C
  after_frame send take consumed =
      record (accumulate_data_frame lib (send - take) consumed (counted consumed)) {
        prev_take = take;
        last_send = send;
        last_take = take;
        last_total = send - take;
      }

  compute_runs :
      (send take consumed : ℕ)
      → take ≤ send
      → (if leb s.prev_take take then take - s.prev_take else take) ≡ consumed
      → compute lib send take s ≡ done (after_frame send take consumed)
  unfolding compute
  compute_runs send take consumed le e =
      let room : (s.capacity == 0) ≡ false = ==_ne s.capacity 0 (λ same. omega (arith, same)) in
      let ordered : ltb send take ≡ false = ground arith in
      rw room (rw ordered (ap (λ k. done (after_frame send take k)) e))

  after_frame-IsRunning :
      (send take consumed : ℕ)
      → IsRunning lib fresh_filled fresh_rate fresh_latency
          (seen ++ (send - take, consumed) ∷ [])
          (after_frame send take consumed)
  after_frame-IsRunning send take consumed =
      let before : IsRunning lib fresh_filled fresh_rate fresh_latency seen (counted consumed) =
        record {
          makes = record {
            filled = running.makes.filled;
            rate = running.makes.rate;
            latency = running.makes.latency;
          };
          filled = running.filled;
          rate = running.rate;
          latency = running.latency;
        } in
      let h =
        accumulate_data_frame-IsRunning lib fresh_filled fresh_rate fresh_latency seen (send - take)
          consumed (counted consumed) before in
      record {
        makes = record { filled = h.makes.filled; rate = h.makes.rate; latency = h.makes.latency };
        filled = h.filled;
        rate = h.rate;
        latency = h.latency;
      }

  -- With some capacity: counters that are out of order panic. Otherwise the windows go on with a frame of
  -- what is in the channel and of what was consumed: what the take counter grew by, or all of it where
  -- it went back, which is taken for a reset. The total consumed grows by that; so a total that was the
  -- take counter still is, as long as the counter does not go back and fits.
  pub compute_lem :
      (send take : ℕ)
      → (send < take → compute lib send take s ≡ panic)
        × (take ≤ send
            → (after : ChannelStatsComputer H D P C) × (consumed : ℕ) × (compute lib send take s
                ≡ done after)
              × (s.prev_take ≤ take → s.prev_take + consumed ≡ take)
              × (take < s.prev_take → consumed ≡ take)
              × IsRunning lib fresh_filled fresh_rate fresh_latency
                  (seen ++ (send - take, consumed) ∷ [])
                  after
              × (after.total_consumed ≡ (s.total_consumed + consumed) % 2 ^ 128)
              × (s.total_consumed ≡ s.prev_take
                  → s.prev_take ≤ take
                  → take < 2 ^ 128
                  → after.total_consumed ≡ after.prev_take))
  unfolding compute accumulate_data_frame
  compute_lem send take =
      let consumed = if leb s.prev_take take then take - s.prev_take else take in
      let grown : s.prev_take ≤ take → s.prev_take + consumed ≡ take = λ le. ground arith in
      (
        λ lt.
            let room : (s.capacity == 0) ≡ false =
              ==_ne s.capacity 0 (λ same. omega (arith, same)) in
            let crossed : ltb send take ≡ true = lt→ltb send take lt in rw room (rw crossed refl),
        λ le. (
          after_frame send take consumed,
          consumed,
          compute_runs send take consumed le refl,
          grown,
          λ lt. ground arith,
          after_frame-IsRunning send take consumed,
          refl,
          λ same le' fits.
              let sum : s.total_consumed + consumed ≡ take = omega (arith, same, grown le') in
              ap (λ k. k % 2 ^ 128) sum ∙ mod-eq_of_lt fits,
        ),
      )
