-- ===== src/Distributed/Scheduling.antt =====
-- core/src/distributed/scheduling.rs: tasks that run again and again, the earliest first. Times and
-- delays count nanoseconds. The task's future and the clock are arguments.
use steady_state_stack.Common.{
  Bool, List, Outcome, [], arith, dec_lt, done, get_elem?, get_elem?-lt, get_elem?-set_ne,
  get_elem?-set_self, if_intro, if◌then◌else◌, inl, inr, length, length-set, ltb, map, none, not,
  panic, refl, set, some, subst, suc, sym, ℕ, ℕ_discrete, ◌&&◌, ◌+◌, ◌-◌, ◌/◌, ◌<◌, ◌>>=◌, ◌∙◌, ◌∷◌,
  ◌≡◌, ◌≤◌, ◌⊎◌,
}

abbrev pub max_sleep_seconds : ℕ
max_sleep_seconds = 10

-- `as_secs() < MAX_SLEEP_SECONDS`.
abbrev pub is_short : ℕ → Bool
is_short nanos = ltb (nanos / 1_000_000_000) max_sleep_seconds

-- `PerpetualScheduler::new`. The result is `next_times`.
pub new : ℕ → List ℕ → Outcome (List ℕ)
new now [] = panic
new now (first_delay ∷ delays) =
    done ((now + first_delay) ∷ map (λ delay. now + (delay - first_delay)) delays)

abbrev better : ℕ → ℕ → ℕ → ℕ → ℕ × ℕ
better i time earliest_idx earliest_time =
    if ltb time earliest_time then (i, time) else (earliest_idx, earliest_time)

-- The loop over the tasks from index `i` on, with the best one so far.
pub earliest : ℕ → ℕ → ℕ → List ℕ → ℕ × ℕ
earliest earliest_idx earliest_time i [] = (earliest_idx, earliest_time)
earliest earliest_idx earliest_time i (time ∷ times) =
    let best = better i time earliest_idx earliest_time in earliest best.0 best.1 (i + 1) times

-- What a pass has done: the task that ran, how long it slept before, when it ended, and what is next.
pub record Pass : Type 0 where
  pub ran : ℕ
  pub slept : ℕ
  pub ended : ℕ
  pub next_times : List ℕ

run_at : ℕ → ℕ → (ℕ → ℕ) → List ℕ → ℕ × ℕ → Outcome Pass
run_at now ended func next_times (idx, time) =
    if ltb now time && not (is_short (time - now))
    then panic
    else if is_short (func idx)
    then done (record {
      ran = idx;
      slept = time - now;
      ended = ended;
      next_times = set next_times idx (ended + func idx);
    })
    else panic

-- `func` gives the delay that the task's future resolves to.
pub run_single_pass : ℕ → ℕ → (ℕ → ℕ) → List ℕ → Outcome Pass
unfolding run_at earliest
run_single_pass now ended func [] = panic
run_single_pass now ended func (time ∷ times) =
    run_at now ended func (time ∷ times) (earliest 0 time 1 times)

-- The first of the earliest times.
pub record IsEarliest (times : List ℕ) (idx time : ℕ) : Type 0 where
  pub there : get_elem? times idx ≡ some time
  pub least : (j t : ℕ) → get_elem? times j ≡ some t → time ≤ t
  pub first : (j t : ℕ) → j < idx → get_elem? times j ≡ some t → time < t

-- The loop's invariant: the best one so far against the times before `i`.
record IsBest (all : List ℕ) (i idx time : ℕ) : Type 0 where
  there : get_elem? all idx ≡ some time
  least : (j t : ℕ) → j < i → get_elem? all j ≡ some t → time ≤ t
  first : (j t : ℕ) → j < idx → get_elem? all j ≡ some t → time < t
  seen : idx < i

IsBest-step :
    (all : List ℕ) (i idx time here : ℕ)
    → get_elem? all i ≡ some here
    → IsBest all i idx time
    → let best = better i here idx time in IsBest all (i + 1) best.0 best.1
IsBest-step all i idx time here at b =
    if_intro {A = ℕ × ℕ} (λ best. IsBest all (i + 1) best.0 best.1) (ltb here time) (i, here)
      (idx, time)
      (λ lt. record {
        there = at;
        least = λ j t h e. elim (ℕ_discrete j i) [
          | yes same ↦ (let same_time : here ≡ t = cc at in omega arith)
          | no other ↦ let k = b.least j t (omega arith) e in ground arith
        ];
        first = λ j t h e. let k = b.least j t h e in ground arith;
        seen = omega arith;
      })
      (λ ge. record {
        there = b.there;
        least = λ j t h e. elim (ℕ_discrete j i) [
          | yes same ↦ (let same_time : here ≡ t = cc at in ground arith)
          | no other ↦ b.least j t (omega arith) e
        ];
        first = b.first;
        seen = omega (arith, b.seen);
      })

earliest_lem :
    (all : List ℕ) (i idx time : ℕ) (times : List ℕ)
    → ((j : ℕ) → get_elem? all (i + j) ≡ get_elem? times j)
    → IsBest all i idx time
    → let (idx', time') = earliest idx time i times in IsEarliest all idx' time'
unfolding earliest
earliest_lem all i idx time [] rest b = record {
  there = b.there;
  least = λ j t e. elim (dec_lt j i) [
    | yes before ↦ b.least j t before e
    | no after ↦
        let beyond : get_elem? all j ≡ none =
          subst (λ k. get_elem? all k ≡ none) (omega arith) (rest (j - i)) in
        cc
  ];
  first = b.first;
}
earliest_lem all i idx time (t ∷ times) rest b =
    let best = better i t idx time in
    let here : get_elem? all i ≡ some t =
      subst (λ k. get_elem? all k ≡ some t) (omega arith) (rest 0) in
    earliest_lem all (i + 1) best.0 best.1 times
      (λ j. subst (λ k. get_elem? all k ≡ get_elem? times j) (omega arith) (rest (suc j)))
      (IsBest-step all i idx time t here b)

run_at_runs :
    (now ended : ℕ) (func : ℕ → ℕ) (times : List ℕ) (idx time : ℕ)
    → time - now < 10_000_000_000
    → func idx < 10_000_000_000
    → run_at now ended func times (idx, time)
      ≡ done (record {
        ran = idx;
        slept = time - now;
        ended = ended;
        next_times = set times idx (ended + func idx);
      })
unfolding run_at
run_at_runs now ended func times idx time soon brief = ground arith

run_at_panics :
    (now ended : ℕ) (func : ℕ → ℕ) (times : List ℕ) (idx time : ℕ)
    → (10_000_000_000 ≤ time - now) ⊎ (10_000_000_000 ≤ func idx)
    → run_at now ended func times (idx, time) ≡ panic
unfolding run_at
run_at_panics now ended func times idx time (inl late) = ground arith
run_at_panics now ended func times idx time (inr long) = ground arith

-- A pass takes the first of the earliest tasks. It runs it and schedules it anew, leaving the others,
-- if both the sleep and the new delay are shorter than ten seconds; otherwise it panics.
pub run_single_pass_lem :
    (now ended : ℕ) (func : ℕ → ℕ) (times : List ℕ)
    → 0 < length times
    → (idx : ℕ) × (time : ℕ) × IsEarliest times idx time
      × (time - now < 10_000_000_000
          → func idx < 10_000_000_000
          → run_single_pass now ended func times
            ≡ done (record {
              ran = idx;
              slept = time - now;
              ended = ended;
              next_times = set times idx (ended + func idx);
            }))
      × ((10_000_000_000 ≤ time - now) ⊎ (10_000_000_000 ≤ func idx)
          → run_single_pass now ended func times ≡ panic)
unfolding run_single_pass
run_single_pass_lem now ended func [] h = absurd (omega arith)
run_single_pass_lem now ended func (t ∷ times) h =
    let (idx, time) = earliest 0 t 1 times in
    (
      idx,
      time,
      earliest_lem (t ∷ times) 1 0 t times
          (λ j.
            subst (λ k. get_elem? (t ∷ times) k ≡ get_elem? times j) {x = suc j} {y = 1 + j}
              (omega arith) refl)
          (record {
            there = refl;
            least = λ j u before e.
                (let e0 : get_elem? (t ∷ times) 0 ≡ some u =
                    subst (λ k. get_elem? (t ∷ times) k ≡ some u) {x = j} {y = 0} (omega arith) e in
                  let same : t ≡ u = cc e0 in omega arith);
            first = λ j u before e. absurd (omega arith);
            seen = omega arith;
          }),
      λ soon brief. run_at_runs now ended func (t ∷ times) idx time soon brief,
      λ late. run_at_panics now ended func (t ∷ times) idx time late,
    )

-- Every task is due within ten seconds.
abbrev pub AreSoon : ℕ → List ℕ → Type 0
AreSoon now times = (j t : ℕ) → get_elem? times j ≡ some t → t < now + 10_000_000_000

-- One pass after another; each has the reading of the clock at its start and at its end, and the
-- delay that each task would ask for.
pub record Turn : Type 0 where
  pub now : ℕ
  pub ended : ℕ
  pub func : ℕ → ℕ

pub run_passes : List Turn → List ℕ → Outcome (List ℕ)
unfolding run_single_pass
run_passes [] times = done times
run_passes (turn ∷ turns) times =
    run_single_pass turn.now turn.ended turn.func times >>= λ pass. run_passes turns pass.next_times

-- The clock does not go back from turn to turn, and every delay is shorter than ten seconds.
abbrev pub AreInOrder : ℕ → List Turn → Type 0
AreInOrder since [] = Unit
AreInOrder since (turn ∷ turns) =
    (since ≤ turn.now)
    × (turn.now ≤ turn.ended)
    × ((i : ℕ) → turn.func i < 10_000_000_000)
    × AreInOrder turn.ended turns

AreSoon-later :
    (now later : ℕ) (times : List ℕ) → now ≤ later → AreSoon now times → AreSoon later times
AreSoon-later now later times h soon j t at = omega (arith, soon j t at)

AreSoon-set :
    (now : ℕ) (times : List ℕ) (idx time : ℕ)
    → time < now + 10_000_000_000
    → idx < length times
    → AreSoon now times
    → AreSoon now (set times idx time)
AreSoon-set now times idx time h inside soon j t at = elim (ℕ_discrete idx j) [
  | yes same ↦
      let e : some time ≡ some t =
        sym (get_elem?-set_self times idx time inside)
        ∙ subst (λ k. get_elem? (set times idx time) k ≡ some t) (sym same) at in
      let same_time : time ≡ t = cc e in omega arith
  | no other ↦ soon j t (sym (get_elem?-set_ne times idx j time other) ∙ at)
]

-- Started with every task due within ten seconds, as long as the clock does not go back and the tasks
-- ask for delays shorter than ten seconds, no pass panics, and there are as many tasks as before.
pub run_passes_lem :
    (since : ℕ) (turns : List Turn) (times : List ℕ)
    → 0 < length times
    → AreSoon since times
    → AreInOrder since turns
    → (after : List ℕ) × (run_passes turns times ≡ done after) × (length after ≡ length times)
unfolding run_passes
run_passes_lem since [] times some_task soon order = (times, refl, refl)
run_passes_lem since (turn ∷ turns) times some_task soon order =
    let (idx, time, e, runs, panics) =
      run_single_pass_lem turn.now turn.ended turn.func times some_task in
    let next_time : ℕ = turn.ended + turn.func idx in
    let within : time < since + 10_000_000_000 = soon idx time e.there in
    let brief : turn.func idx < 10_000_000_000 = order.2 idx in
    let pass = runs (omega (arith, order.0)) brief in
    let inside = get_elem?-lt times idx time e.there in
    let kept = length-set times idx next_time in
    let (after, rest, same) =
      run_passes_lem turn.ended turns (set times idx next_time) (omega arith)
        (AreSoon-set turn.ended times idx next_time (omega arith) inside
          (AreSoon-later since turn.ended times (omega (arith, order.0, order.1)) soon))
        order.3 in
    (after, rw pass rest, same ∙ kept)
