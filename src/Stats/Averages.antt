-- ===== src/Stats/Averages.antt =====
-- What the statistics of core/src/channel_stats.rs say of the frames: the windows of all three measures,
-- and the average.
use mathlib.Core.List.{append_assoc, append-nil}
use steady_state_stack.Stats.{ChannelBlock, Histograms, new_block}
use steady_state_stack.Stats.Window.{IsWindow, IsWindow-new, tick-IsWindow}
use steady_state_stack.Stats.Channels.{
  ChannelMetaData, ChannelStatsComputer, accumulate_data_frame, filled_measure, init,
  latency_measure, rate_measure, started,
}
use steady_state_stack.Common.{
  Bool-cases, List, [], done, inl, inr, ltb, panic, some, subst, sym, ℕ, ◌++◌, ◌∷◌, ◌≡◌,
}

done-inj : {A : Type 0} {a b : A} → done a ≡ done b → a ≡ b
done-inj h = cc

module _ {H D P C : Type 0} (lib : Histograms H P) where
  -- Frame after frame.
  abbrev pub accumulate_all :
      List (ℕ × ℕ) → ChannelStatsComputer H D P C → ChannelStatsComputer H D P C
  accumulate_all [] s = s
  accumulate_all ((filled, rate) ∷ frames) s =
      accumulate_all frames (accumulate_data_frame lib filled rate s)

  module _ (fresh_filled fresh_rate fresh_latency : ChannelBlock H) where
    -- The blocks that are made anew; the crate does not fail to make a histogram.
    pub record IsMaking (s : ChannelStatsComputer H D P C) : Type 0 where
      pub filled :
          new_block s.build_filled_histogram (lib.new_with_bounds 1 s.capacity 0)
          ≡ some fresh_filled
      pub rate : new_block s.build_rate_histogram (lib.new 2) ≡ some fresh_rate
      pub latency : new_block s.build_latency_histogram (lib.new 2) ≡ some fresh_latency

    -- Each measure has its window over the frames `seen`.
    pub record IsRunning (seen : List (ℕ × ℕ)) (s : ChannelStatsComputer H D P C) : Type 0 where
      pub makes : IsMaking s
      pub filled :
          IsWindow lib
            (filled_measure lib)
            s.refresh_rate_in_bits
            s.window_bucket_in_bits
            fresh_filled
            seen
            s.bucket_frames_count
            s.filled
      pub rate :
          IsWindow lib rate_measure s.refresh_rate_in_bits s.window_bucket_in_bits fresh_rate seen
            s.bucket_frames_count s.rate
      pub latency :
          IsWindow lib
            (latency_measure s.frame_rate_ms)
            s.refresh_rate_in_bits
            s.window_bucket_in_bits
            fresh_latency
            seen
            s.bucket_frames_count
            s.latency

    pub accumulate_data_frame-IsRunning :
        (seen : List (ℕ × ℕ)) (filled rate : ℕ) (s : ChannelStatsComputer H D P C)
        → IsRunning seen s
        → IsRunning (seen ++ (filled, rate) ∷ []) (accumulate_data_frame lib filled rate s)
    unfolding accumulate_data_frame
    accumulate_data_frame-IsRunning seen filled rate s h =
        let r = s.refresh_rate_in_bits in
        let w = s.window_bucket_in_bits in
        record {
          makes = record {
            filled = h.makes.filled;
            rate = h.makes.rate;
            latency = h.makes.latency;
          };
          filled = rw h.makes.filled (
              tick-IsWindow lib (filled_measure lib) r w fresh_filled seen (filled, rate)
                s.bucket_frames_count s.filled h.filled);
          rate = rw h.makes.rate (
              tick-IsWindow lib rate_measure r w fresh_rate seen (filled, rate)
                s.bucket_frames_count s.rate h.rate);
          latency = rw h.makes.latency (
              tick-IsWindow lib (latency_measure s.frame_rate_ms) r w fresh_latency seen
                (filled, rate) s.bucket_frames_count s.latency h.latency);
        }

    accumulate_all-IsRunning :
        (seen frames : List (ℕ × ℕ)) (s : ChannelStatsComputer H D P C)
        → IsRunning seen s
        → IsRunning (seen ++ frames) (accumulate_all frames s)
    accumulate_all-IsRunning seen [] s h = subst (λ xs. IsRunning xs s) (sym (append-nil seen)) h
    accumulate_all-IsRunning seen ((filled, rate) ∷ frames) s h =
        let next = accumulate_data_frame lib filled rate s in
        subst (λ xs. IsRunning xs (accumulate_all frames next))
          (append_assoc seen ((filled, rate) ∷ []) frames)
          (accumulate_all-IsRunning (seen ++ (filled, rate) ∷ []) frames next
            (accumulate_data_frame-IsRunning seen filled rate s h))

    started-IsRunning :
        (meta : ChannelMetaData D P C) (frame_rate_ms : ℕ)
        → IsMaking (started lib meta frame_rate_ms)
        → IsRunning [] (started lib meta frame_rate_ms)
    unfolding started
    started-IsRunning meta frame_rate_ms h =
        let r = meta.refresh_rate_in_bits in
        let w = meta.window_bucket_in_bits in
        record {
          makes = h;
          filled = rw h.filled (IsWindow-new lib (filled_measure lib) r w fresh_filled);
          rate = rw h.rate (IsWindow-new lib rate_measure r w fresh_rate);
          latency =
              rw h.latency (IsWindow-new lib (latency_measure frame_rate_ms) r w fresh_latency);
        }

    -- After `init` and any frames, where the crate makes the histograms that are asked for, each of the
    -- three measures has its window: a bucket is counted in full before the next, there is one block
    -- for each bucket that the next windows need, each has seen the frames since its bucket began, and
    -- the current block holds what a new block gathers from the last complete window, and only that.
    pub accumulate_all_lem :
        (meta : ChannelMetaData D P C) (frame_rate_ms : ℕ) (frames : List (ℕ × ℕ))
        (s : ChannelStatsComputer H D P C)
        → init lib meta frame_rate_ms ≡ done s
        → IsMaking s
        → IsRunning frames (accumulate_all frames s)
    unfolding init
    accumulate_all_lem meta frame_rate_ms frames s e h = elim (Bool-cases (ltb 0 meta.capacity)) [
      | inl t ↦
          let same : started lib meta frame_rate_ms ≡ s = done-inj (rw t at e) in
          accumulate_all-IsRunning [] frames s (
            subst (IsRunning []) same
              (started-IsRunning meta frame_rate_ms (subst IsMaking (sym same) h)))
      | inr f ↦ let bad : panic ≡ done s = rw f at e in cc
    ]
