-- ===== src/Distributed/Tests.antt =====
-- The timing theorems at concrete settings.
use steady_state_stack.Common.{
  List, [], arith, done, length, panic, set, suc, zero, ℕ, ◌-◌, ◌<◌, ◌∷◌, ◌≡◌, ◌≤◌, ◌⊎◌,
}
use steady_state_stack.Distributed.Polling.{
  IsInRange, PollScheduler, compute_next_delay_ns, compute_next_delay_ns_lem, distance,
}
use steady_state_stack.Distributed.Scheduling.{
  AreSoon, IsEarliest, Turn, run_passes, run_passes_lem, run_single_pass, run_single_pass_lem,
}

abbrev poll : PollScheduler
poll = record {
  expected_moment_ns = 5_000;
  std_dev_ns = 100;
  min_delay_ns = 10;
  max_delay_ns = 910;
}

IsInRange-poll : IsInRange poll 5_000
IsInRange-poll = record {
  varies = omega arith;
  sigma = omega arith;
  ordered = omega arith;
  room = omega arith;
  near = omega arith;
  small = omega arith;
}

IsInRange-poll_later : IsInRange poll 5_400
IsInRange-poll_later = record {
  varies = omega arith;
  sigma = omega arith;
  ordered = omega arith;
  room = omega arith;
  near = omega arith;
  small = omega arith;
}

compute_next_delay_ns_lem_example :
    (10 ≤ compute_next_delay_ns poll 5_000)
    × (compute_next_delay_ns poll 5_000 ≤ compute_next_delay_ns poll 5_400)
    × (compute_next_delay_ns poll 5_400 ≤ 910)
    × (distance poll 5_000 ≡ 0 → compute_next_delay_ns poll 5_000 ≡ 10)
    × (300 ≤ distance poll 5_400 → compute_next_delay_ns poll 5_400 ≡ 910)
compute_next_delay_ns_lem_example =
    compute_next_delay_ns_lem poll 5_000 5_400 IsInRange-poll IsInRange-poll_later (omega arith)

run_single_pass_lem_example :
    (idx : ℕ) × (time : ℕ) × IsEarliest (9 ∷ 7 ∷ 7 ∷ []) idx time
    × (time - 4 < 10_000_000_000
        → 50 < 10_000_000_000
        → run_single_pass 4 8 (λ i. 50) (9 ∷ 7 ∷ 7 ∷ [])
          ≡ done (record {
            ran = idx;
            slept = time - 4;
            ended = 8;
            next_times = set (9 ∷ 7 ∷ 7 ∷ []) idx 58;
          }))
    × ((10_000_000_000 ≤ time - 4) ⊎ (10_000_000_000 ≤ 50)
        → run_single_pass 4 8 (λ i. 50) (9 ∷ 7 ∷ 7 ∷ []) ≡ panic)
run_single_pass_lem_example = run_single_pass_lem 4 8 (λ i. 50) (9 ∷ 7 ∷ 7 ∷ []) (omega arith)

-- Both turns run a task that asks for fifty nanoseconds.
abbrev turns : List Turn
turns =
    record { now = 4; ended = 8; func = λ i. 50 }
    ∷ record { now = 8; ended = 12; func = λ i. 50 }
    ∷ []

AreSoon-two_tasks : AreSoon 4 (9 ∷ 7 ∷ [])
AreSoon-two_tasks zero t at = let same : 9 ≡ t = cc at in omega arith
AreSoon-two_tasks (suc zero) t at = let same : 7 ≡ t = cc at in omega arith
AreSoon-two_tasks (suc (suc j)) t at = cc

run_passes_lem_example :
    (after : List ℕ) × (run_passes turns (9 ∷ 7 ∷ []) ≡ done after) × (length after ≡ 2)
run_passes_lem_example =
    run_passes_lem 4 turns (9 ∷ 7 ∷ []) (omega arith) AreSoon-two_tasks
      (omega arith, omega arith, λ i. omega arith, (omega arith, omega arith, λ i. omega arith, tt))
