-- ===== src/Distributed/Polling.antt =====
-- core/src/distributed/polling.rs: how long to wait before the next poll. Arithmetic wraps at the width
-- of its type, `u64` or `u128`, as in a release build.
use native.Mathlib.Nat.{
  div-lt_iff_lt-mul, mul-le-mul, mul_comm, le-div_iff_mul-le, mul-le-mul_left, le_refl, le_trans,
}
use steady_state_stack.Common.{
  arith, false, if◌then◌else◌, ltb, min, refl, ℕ, ◌%◌, ◌*◌, ◌+◌, ◌-◌, ◌/◌, ◌<◌, ◌==◌, ◌^◌, ◌∙◌, ◌≡◌,
  ◌≤◌,
}

pub record PollScheduler : Type 0 where
  pub expected_moment_ns : ℕ
  pub std_dev_ns : ℕ
  pub min_delay_ns : ℕ
  pub max_delay_ns : ℕ

pub new : PollScheduler
new = record {
  expected_moment_ns = 0;
  std_dev_ns = 1_000_000_000;
  min_delay_ns = 1_000_000;
  max_delay_ns = 1_000_000_000;
}

pub set_expected_moment_ns : ℕ → PollScheduler → PollScheduler
set_expected_moment_ns time_ns p = record p { expected_moment_ns = time_ns }

pub set_std_dev_ns : ℕ → PollScheduler → PollScheduler
set_std_dev_ns std_dev_ns p = record p { std_dev_ns = std_dev_ns }

pub set_min_delay_ns : ℕ → PollScheduler → PollScheduler
set_min_delay_ns min_delay_ns p = record p { min_delay_ns = min_delay_ns }

pub set_max_delay_ns : ℕ → PollScheduler → PollScheduler
set_max_delay_ns max_delay_ns p = record p { max_delay_ns = max_delay_ns }

-- How far the time is from the expected moment.
abbrev pub distance : PollScheduler → ℕ → ℕ
distance p now =
    if ltb p.expected_moment_ns now then now - p.expected_moment_ns else p.expected_moment_ns - now

abbrev pub three_sigma : PollScheduler → ℕ
three_sigma p = (3 * p.std_dev_ns) % 2 ^ 64

-- The delays once a maximum below the minimum has been averaged away, the minimum first.
abbrev pub delay_range : PollScheduler → ℕ × ℕ
delay_range p =
    if ltb p.max_delay_ns p.min_delay_ns
    then (let avg = ((p.max_delay_ns + p.min_delay_ns) % 2 ^ 64) / 2 in (avg, avg))
    else (p.min_delay_ns, p.max_delay_ns)

pub bell : ℕ → ℕ → ℕ → ℕ → ℕ
bell low high d s =
    let ratio = ((d * d * (high - low)) % 2 ^ 128 / s) % 2 ^ 64 in min ((low + ratio) % 2 ^ 64) high

pub compute_next_delay_ns : PollScheduler → ℕ → ℕ
unfolding bell
compute_next_delay_ns p now =
    let s = three_sigma p * three_sigma p in
    if s == 0
    then (if ltb p.expected_moment_ns now then p.min_delay_ns else p.expected_moment_ns - now)
    else bell (delay_range p).0 (delay_range p).1 (distance p now) s

-- The settings make sense, and so does a time that is `d` away: nothing overflows.
pub record IsInRange (p : PollScheduler) (now : ℕ) : Type 0 where
  pub varies : 0 < p.std_dev_ns
  pub sigma : 3 * p.std_dev_ns < 2 ^ 64
  pub ordered : p.min_delay_ns ≤ p.max_delay_ns
  pub room : p.max_delay_ns < 2 ^ 63
  pub near :
      distance p now * distance p now * (p.max_delay_ns - p.min_delay_ns)
      < 2 ^ 63 * (3 * p.std_dev_ns * (3 * p.std_dev_ns))
  pub small : distance p now * distance p now * (p.max_delay_ns - p.min_delay_ns) < 2 ^ 128

div_mono : (a b s : ℕ) → 0 < s → a ≤ b → a / s ≤ b / s
div_mono a b s h le =
    (le-div_iff_mul-le {k = s} {x = a / s} {y = b} h).1
      (le_trans ((le-div_iff_mul-le {k = s} {x = a / s} {y = a} h).0 (omega arith)) le)

-- The curve when nothing overflows.
bell_exact :
    (low high d s : ℕ)
    → low ≤ high
    → high < 2 ^ 63
    → 0 < s
    → d * d * (high - low) < 2 ^ 63 * s
    → d * d * (high - low) < 2 ^ 128
    → bell low high d s ≡ min (low + d * d * (high - low) / s) high
unfolding bell
bell_exact low high d s le room pos near small =
    let q = (div-lt_iff_lt-mul {k = s} {x = d * d * (high - low)} {y = 2 ^ 63} pos).1 near in
    ground (arith, q)

-- `s` squares `w`; past `w` the curve has reached the top.
bell_top :
    (low high d w : ℕ)
    → low ≤ high
    → 0 < w * w
    → w ≤ d
    → high ≤ low + d * d * (high - low) / (w * w)
bell_top low high d w le pos far =
    let square : w * w ≤ d * d = mul-le-mul far far in
    let high_enough : high - low ≤ d * d * (high - low) / (w * w) =
      (le-div_iff_mul-le {k = w * w} {x = high - low} {y = d * d * (high - low)} pos).1
        (rw (mul_comm (d * d) (high - low)) (mul-le-mul_left (high - low) square)) in
    omega arith

square_pos : (w : ℕ) → 0 < w → 0 < w * w
square_pos w h = let k : 1 * 1 ≤ w * w = mul-le-mul h h in omega arith

compute_on_curve :
    (p : PollScheduler) (now low high s : ℕ)
    → three_sigma p * three_sigma p ≡ s
    → (s == 0) ≡ false
    → delay_range p ≡ (low, high)
    → compute_next_delay_ns p now ≡ bell low high (distance p now) s
unfolding compute_next_delay_ns
compute_on_curve p now low high s e ne d = rw (e, ne, d) refl

compute_exact :
    (p : PollScheduler) (now : ℕ)
    → IsInRange p now
    → compute_next_delay_ns p now
      ≡ min
          (p.min_delay_ns
            + distance p now
              * distance p now
              * (p.max_delay_ns - p.min_delay_ns)
              / (3 * p.std_dev_ns * (3 * p.std_dev_ns)))
          p.max_delay_ns
compute_exact p now r =
    let w : ℕ = 3 * p.std_dev_ns in
    let sigma : three_sigma p ≡ w = ground (arith, r.sigma) in
    let pos = square_pos w (omega (arith, r.varies)) in
    compute_on_curve p now p.min_delay_ns p.max_delay_ns (w * w) (rw sigma refl) (ground arith)
      (ground (arith, r.ordered))
    ∙ bell_exact p.min_delay_ns p.max_delay_ns (distance p now) (w * w) r.ordered r.room pos r.near
        r.small

-- While the settings are in order and nothing overflows, the delay lies between the minimum and the
-- maximum and grows with the distance from the expected moment. At that moment it is the minimum, and
-- three standard deviations away it has reached the maximum.
pub compute_next_delay_ns_lem :
    (p : PollScheduler) (now later : ℕ)
    → IsInRange p now
    → IsInRange p later
    → distance p now ≤ distance p later
    → (p.min_delay_ns ≤ compute_next_delay_ns p now)
      × (compute_next_delay_ns p now ≤ compute_next_delay_ns p later)
      × (compute_next_delay_ns p later ≤ p.max_delay_ns)
      × (distance p now ≡ 0 → compute_next_delay_ns p now ≡ p.min_delay_ns)
      × (3 * p.std_dev_ns ≤ distance p later → compute_next_delay_ns p later ≡ p.max_delay_ns)
compute_next_delay_ns_lem p now later r r' h =
    let w : ℕ = 3 * p.std_dev_ns in
    let d = distance p now in
    let d' = distance p later in
    let span = p.max_delay_ns - p.min_delay_ns in
    let pos = square_pos w (omega (arith, r.varies)) in
    let grows : d * d * span / (w * w) ≤ d' * d' * span / (w * w) =
      div_mono (d * d * span) (d' * d' * span) (w * w) pos
        (mul-le-mul (mul-le-mul h h) (le_refl span)) in
    rw (compute_exact p now r, compute_exact p later r')
      (
        omega (arith, r.ordered),
        omega (arith, grows),
        omega arith,
        λ at. rw at (omega (arith, r.ordered)),
        λ far. omega (arith, bell_top p.min_delay_ns p.max_delay_ns d' w r.ordered pos far),
      )
