-- ===== src/Stats/Percent.antt =====
-- `avg_filled_whole_percent` and the average triggers of core/src/channel_stats.rs say what the frames
-- of the window say.
use native.Mathlib.Nat.{
  div-div-eq-div-mul, div-le_of_le-mul, le_of_eq, le_refl, le_trans, mod-eq_of_lt,
  mul-div-mul_right, mul-le-mul, mul-one, mul_assoc, mul_comm, pow-le-pow_right, pow-suc, suc-mul,
}
use steady_state_stack.Stats.{ChannelBlock, Histograms, add_frame, new_block, u128_max}
use steady_state_stack.Stats.Window.{gather, window}
use steady_state_stack.Stats.Channels.{
  ChannelStatsComputer, avg_filled_whole_percent, filled_measure, window_bits,
}
use steady_state_stack.Stats.Averages.{IsRunning}
use steady_state_stack.Common.{
  ==_ne, All, Bool, List, Option, [], ap, ap₂, arith, drop, false, length, length-take, min, none,
  refl, some, suc, sym, take, true, zero, ℕ, ◌%◌, ◌*◌, ◌+◌, ◌-◌, ◌/◌, ◌<◌, ◌==◌, ◌^◌, ◌∙◌, ◌∷◌, ◌≡◌,
  ◌≤◌,
}

some-inj : {A : Type 0} {a b : A} → some a ≡ some b → a ≡ b
some-inj h = cc

-- How full the channel was in some frames together.
abbrev pub total_filled : List (ℕ × ℕ) → ℕ
total_filled [] = 0
total_filled ((filled, rate) ∷ frames) = filled + total_filled frames

abbrev pub IsWithin : ℕ → List (ℕ × ℕ) → Type 0
IsWithin capacity frames = All (λ frame. frame.0 ≤ capacity) frames

All-drop {ℓ κ} : {A : Type ℓ} (P : A → Type κ) (n : ℕ) (xs : List A) → All P xs → All P (drop n xs)
All-drop P zero xs h = h
All-drop P (suc n) [] h = tt
All-drop P (suc n) (x ∷ xs) h = All-drop P n xs h.1

All-take {ℓ κ} : {A : Type ℓ} (P : A → Type κ) (n : ℕ) (xs : List A) → All P xs → All P (take n xs)
All-take P zero xs h = tt
All-take P (suc n) [] h = tt
All-take P (suc n) (x ∷ xs) h = (h.0, All-take P n xs h.1)

total_filled-within :
    (capacity : ℕ) (frames : List (ℕ × ℕ))
    → IsWithin capacity frames
    → total_filled frames ≤ length frames * capacity
total_filled-within capacity [] h = omega arith
total_filled-within capacity ((filled, rate) ∷ frames) h =
    omega (arith, h.0, total_filled-within capacity frames h.1, suc-mul (length frames) capacity)

module _ {H P : Type 0} (lib : Histograms H P) where
  -- Without saturation the sum is a thousand times what the frames come to.
  runner-gather :
      (capacity : ℕ) (block : ChannelBlock H) (frames : List (ℕ × ℕ))
      → IsWithin capacity frames
      → 1_000 * capacity < 2 ^ 64
      → block.runner + 1_000 * total_filled frames ≤ u128_max
      → (gather lib (filled_measure lib) block frames).runner
        ≡ block.runner + 1_000 * total_filled frames
  unfolding add_frame
  runner-gather capacity block [] h small fits = omega arith
  runner-gather capacity block ((filled, rate) ∷ frames) h small fits =
      let next = add_frame lib (filled_measure lib) (filled, rate) block in
      let whole : (1_000 * filled) % 2 ^ 64 ≡ 1_000 * filled =
        mod-eq_of_lt (omega (arith, h.0, small)) in
      let here : next.runner ≡ block.runner + 1_000 * filled = omega (arith, whole, fits) in
      runner-gather capacity next frames h.1 small (omega (arith, here, fits)) ∙ omega (arith, here)

pow-sum : (w r : ℕ) → 2 ^ (w + r) ≡ 2 ^ w * 2 ^ r
pow-sum w zero = let e : w + 0 ≡ w = omega arith in ap (λ n. 2 ^ n) e ∙ sym (mul-one (2 ^ w))
pow-sum w (suc r) =
    let e : w + suc r ≡ suc (w + r) = omega arith in
    ap (λ n. 2 ^ n) e
    ∙ pow-suc 2 (w + r)
    ∙ ap (λ n. n * 2) (pow-sum w r)
    ∙ mul_assoc (2 ^ w) (2 ^ r) 2
    ∙ ap (λ n. 2 ^ w * n) (sym (pow-suc 2 r))

new_block-runner :
    {H : Type 0} (build : Bool) (made : Option H) (block : ChannelBlock H)
    → new_block build made ≡ some block
    → block.runner ≡ 0
new_block-runner false made block h = ap (λ b. b.runner) (sym (some-inj h))
new_block-runner true none block h = cc
new_block-runner true (some m) block h = ap (λ b. b.runner) (sym (some-inj h))

min_le : (a b : ℕ) → a ≤ b → min a b ≡ a
min_le a b h = omega arith

-- Floors of the two divisions, in one.
one_division :
    (total n capacity : ℕ) → (1_000 * total) / n / (10 * capacity) ≡ (100 * total) / (n * capacity)
one_division total n capacity =
    let top : 1_000 * total ≡ (100 * total) * 10 = omega arith in
    let bottom : n * (10 * capacity) ≡ (n * capacity) * 10 =
      ap (λ k. n * k) (mul_comm 10 capacity) ∙ sym (mul_assoc n capacity 10) in
    div-div-eq-div-mul (1_000 * total) n (10 * capacity)
    ∙ ap₂ (λ a b. a / b) top bottom
    ∙ mul-div-mul_right {m = 10} (100 * total) (n * capacity) (omega arith)

module _ {H D P C : Type 0} (lib : Histograms H P)
    (fresh_filled fresh_rate fresh_latency : ChannelBlock H) (seen : List (ℕ × ℕ))
    (s : ChannelStatsComputer H D P C)
    (running : IsRunning lib fresh_filled fresh_rate fresh_latency seen s)
    (within : IsWithin s.capacity seen) (small : 1_000 * s.capacity < 2 ^ 64)
    (bits : s.window_bucket_in_bits + s.refresh_rate_in_bits ≤ 64)
    (late : 2 ^ s.window_bucket_in_bits ≤ running.filled.complete) where
  -- The frames of the last complete window.
  abbrev pub last_window : List (ℕ × ℕ)
  last_window =
      window lib (filled_measure lib) s.refresh_rate_in_bits s.window_bucket_in_bits fresh_filled
        seen running.filled.complete

  abbrev frames_in_window : ℕ
  frames_in_window = 2 ^ s.window_bucket_in_bits * 2 ^ s.refresh_rate_in_bits

  pub window_bits_lem : 2 ^ window_bits s ≡ frames_in_window
  window_bits_lem =
      ap (λ n. 2 ^ n)
        (mod-eq_of_lt {n = s.window_bucket_in_bits + s.refresh_rate_in_bits} {m = 2 ^ 8}
          (omega arith))
      ∙ pow-sum s.window_bucket_in_bits s.refresh_rate_in_bits

  last_window-within : total_filled last_window ≤ frames_in_window * s.capacity
  last_window-within =
      let start =
        (running.filled.complete - 2 ^ s.window_bucket_in_bits) * 2 ^ s.refresh_rate_in_bits in
      let among = drop start seen in
      let size = length-take frames_in_window among in
      let le : length last_window ≤ frames_in_window = omega (arith, size) in
      le_trans
        (total_filled-within s.capacity last_window (
          All-take (λ frame. frame.0 ≤ s.capacity) frames_in_window among
            (All-drop (λ frame. frame.0 ≤ s.capacity) start seen within)))
        (mul-le-mul le (le_refl s.capacity))

  pub sum_fits : 1_000 * total_filled last_window < 2 ^ 128
  sum_fits =
      let few : frames_in_window ≤ 2 ^ 64 =
        le_trans (le_of_eq (sym (pow-sum s.window_bucket_in_bits s.refresh_rate_in_bits)))
          (pow-le-pow_right {n = 2} (omega arith) bits) in
      let most : total_filled last_window ≤ 2 ^ 64 * s.capacity =
        le_trans last_window-within (mul-le-mul few (le_refl s.capacity)) in
      omega (arith, most, small)

  -- The sum of the current block: it never saturates.
  pub current_runner :
      (gather lib (filled_measure lib) fresh_filled last_window).runner
      ≡ 1_000 * total_filled last_window
  current_runner =
      let blank =
        new_block-runner s.build_filled_histogram (lib.new_with_bounds 1 s.capacity 0) fresh_filled
          running.makes.filled in
      let start =
        (running.filled.complete - 2 ^ s.window_bucket_in_bits) * 2 ^ s.refresh_rate_in_bits in
      let inside =
        All-take (λ frame. frame.0 ≤ s.capacity) frames_in_window (drop start seen)
          (All-drop (λ frame. frame.0 ≤ s.capacity) start seen within) in
      runner-gather lib s.capacity fresh_filled last_window inside small
        (omega (arith, sum_fits, blank))
      ∙ omega (arith, blank)

  -- With an average asked for and a channel of some capacity, whose frames never pass it: the whole
  -- percent is the average of the last complete window, rounded down, and at most 100; when the channel
  -- was empty in all its frames there is none.
  pub avg_filled_whole_percent_lem :
      s.show_avg_filled ≡ true
      → 1 ≤ s.capacity
      → let total = total_filled last_window in
        let percent = (100 * total) / (frames_in_window * s.capacity) in
        (total ≡ 0 → avg_filled_whole_percent s ≡ none)
        × (0 < total → avg_filled_whole_percent s ≡ some percent)
        × (percent ≤ 100)
  unfolding avg_filled_whole_percent
  avg_filled_whole_percent_lem shown some_room =
      let total = total_filled last_window in
      let percent = (100 * total) / (frames_in_window * s.capacity) in
      let current = running.filled.late late in
      let low : percent ≤ 100 =
        div-le_of_le-mul (frames_in_window * s.capacity) (omega (arith, last_window-within)) in
      (
        λ none_filled.
            let zero_sum : (gather lib (filled_measure lib) fresh_filled last_window).runner ≡ 0 =
              omega (arith, current_runner, none_filled) in
            rw shown (rw current (rw zero_sum refl)),
        λ some_filled.
            let block = gather lib (filled_measure lib) fresh_filled last_window in
            let denominator = min (10 * s.capacity) u128_max in
            let full : denominator ≡ 10 * s.capacity = omega (arith, small) in
            let value : block.runner / 2 ^ window_bits s / denominator ≡ percent =
              ap (λ k. k / 2 ^ window_bits s / denominator) current_runner
              ∙ ap (λ n. (1_000 * total) / n / denominator) window_bits_lem
              ∙ ap (λ d. (1_000 * total) / frames_in_window / d) full
              ∙ one_division total frames_in_window s.capacity in
            let narrow : min percent 100 % 2 ^ 8 ≡ percent =
              ap (λ n. n % 2 ^ 8) (min_le percent 100 low) ∙ mod-eq_of_lt (omega (arith, low)) in
            let sum_there : (block.runner == 0) ≡ false =
              ==_ne block.runner 0 (λ e. omega (arith, current_runner, e)) in
            let room : (denominator == 0) ≡ false =
              ==_ne denominator 0 (λ e. omega (arith, full, e)) in
            rw shown (
              rw current
                (rw sum_there (rw room (ap some (ap (λ v. min v 100 % 2 ^ 8) value ∙ narrow))))),
        low,
      )
