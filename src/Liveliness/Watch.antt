-- ===== src/Liveliness/Watch.antt =====
-- The wait for a clean stop: `watch_shutdown` of core/src/graph/shutdown.rs.
use steady_state_stack.Common.{
  >>=-eq-done, All, Bool, Bool-cases, List, Option-cases, Outcome, [], ap, arith, done, false,
  if◌then◌else◌, inl, inr, length, ltb, max, none, refl, some, subst, true, usize_mod, ℕ, ◌%◌, ◌*◌,
  ◌++◌, ◌<◌, ◌>>=◌, ◌∷◌, ◌≡◌, ◌≢◌, ◌⊎◌,
}
use steady_state_stack.Liveliness.{
  ActorIdentity, GraphLiveliness, GraphLivelinessState, check_is_stopped, same_state, stopped,
  stopped_uncleanly, the_dead, vote_for_the_dead,
}
use steady_state_stack.Liveliness.Registration.{IsSound}
use steady_state_stack.Liveliness.Tally.{favor_count-le-length}
use steady_state_stack.Liveliness.Dead.Again.{repeats}
use steady_state_stack.Liveliness.Moves.{
  IsOthers, Reach, Reach-IsSound, Reach-trans, bury, here, next, overcount, settle,
}
use steady_state_stack.Liveliness.Stop.{
  IsStopping, IsUnanimous, IsUnanimous-of_count, check_is_stopped_values,
}

-- In milliseconds; the product is a `u64`.
unfoldable pub effective_block_until_stopped_timeout : ℕ → ℕ → ℕ
effective_block_until_stopped_timeout clean_shutdown_timeout telemetry_production_rate_ms =
    max clean_shutdown_timeout ((3 * telemetry_production_rate_ms) % usize_mod)

-- One round of the loop: the two readings of the clock, what the other threads do to the graph before
-- the watch writes the state, during the sleep and between the two phases of voting for the dead, and
-- the locks that they hold in these phases.
pub record Round : Type 0 where
  pub checked : ℕ
  pub tested : ℕ
  pub before_write : GraphLiveliness → GraphLiveliness
  pub others : GraphLiveliness → GraphLiveliness
  pub held : ℕ → Bool
  pub between : GraphLiveliness → GraphLiveliness
  pub held' : ℕ → Bool

-- `clean` is `Ok(())` and `unclean` is the `Err`; `watching` means that the rounds given are used up.
pub data Watched : Type 0 where
  clean : GraphLiveliness → Watched
  unclean : GraphLiveliness → Watched
  watching : GraphLiveliness → Watched

unfoldable settled : GraphLivelinessState → GraphLiveliness → Watched
settled s g =
    if same_state s stopped_uncleanly
    then unclean (record g { state = s })
    else clean (record g { state = s })

unfoldable pub watch_shutdown : ℕ → List Round → GraphLiveliness → Outcome Watched
unfolding settled
watch_shutdown timeout [] g = done (watching g)
watch_shutdown timeout (round ∷ rounds) g = elim (check_is_stopped round.checked timeout g) [
  | some shutdown ↦ done (settled shutdown (round.before_write g))
  | none ↦ elim (ltb timeout round.tested) [
    | true ↦ done (unclean (record (round.before_write g) { state = stopped_uncleanly }))
    | false ↦
        vote_for_the_dead round.held round.between round.held' (round.others g)
        >>= watch_shutdown timeout rounds
  ]
]

-- The other threads move the graph, and leave no ballot counted more often than it is in favour.
abbrev pub IsFair : (GraphLiveliness → GraphLiveliness) → Type 0
IsFair others = (g : GraphLiveliness) → (r : Reach g (others g)) × (overcount 0 r ≡ 0)

-- No other thread casts for the dead that this one has found, before it does.
abbrev pub FindsFirst : Round → Type 0
FindsFirst round =
    (g : GraphLiveliness) (found : List (ℕ × ActorIdentity))
    → the_dead round.held g ≡ done found
    → repeats round.held' found (round.between g).votes ≡ 0

pub record IsFairRound (round : Round) : Type 0 where
  pub before_write : IsOthers round.before_write
  pub others : IsFair round.others
  pub between : IsFair round.between
  pub first : FindsFirst round

settled-clean :
    (s : GraphLivelinessState) (g g' : GraphLiveliness)
    → settled s g ≡ clean g'
    → (s ≢ stopped_uncleanly) × (record g { state = s } ≡ g')
unfolding settled
settled-clean s g g' h = (λ e. ground arith, ground arith)

-- If nothing is counted too many, the total that makes the stop clean is that of a unanimous vote.
IsUnanimous-at :
    (elapsed timeout : ℕ) (g : GraphLiveliness)
    → IsSound 0 g
    → check_is_stopped elapsed timeout g ≡ some stopped
    → IsUnanimous g.votes
unfolding check_is_stopped
IsUnanimous-at elapsed timeout g s h =
    let all : (g.vote_in_favor_total ≡ length g.votes) ⊎ (length g.votes ≡ 0) = ground arith in
    let bound = favor_count-le-length g.votes in
    elim all [
      | inl e ↦ IsUnanimous-of_count g.votes (omega (arith, e, s.total, bound))
      | inr e ↦ IsUnanimous-of_count g.votes (omega (arith, e, bound))
    ]

-- What a clean stop comes to: at some moment of the watch every ballot was in favour, and what the other
-- threads and the watch did from then on has left a stopped graph.
abbrev pub StoppedClean : GraphLiveliness → GraphLiveliness → Type 0
StoppedClean g g' =
    (k : GraphLiveliness) × Reach g k
    × IsStopping k
    × IsUnanimous k.votes
    × Reach k g'
    × (g'.state ≡ stopped)

stopped_now :
    (timeout elapsed : ℕ) (s : GraphLivelinessState)
    (before_write : GraphLiveliness → GraphLiveliness) (g g' : GraphLiveliness)
    → IsOthers before_write
    → IsSound 0 g
    → check_is_stopped elapsed timeout g ≡ some s
    → settled s (before_write g) ≡ clean g'
    → StoppedClean g g'
stopped_now timeout elapsed s before_write g g' others sound e h =
    let (ne, same) = settled-clean s (before_write g) g' h in
    let (stopping, which) = check_is_stopped_values elapsed timeout g s e in
    let is_stopped : s ≡ stopped = elim which [ inl y ↦ y | inr n ↦ absurd (ne n) ] in
    let u = IsUnanimous-at elapsed timeout g sound (cc e) in
    (
      g,
      here,
      stopping,
      u,
      subst (Reach g) same (next (others g) (settle s which refl)),
      cc (ap (λ (x : GraphLiveliness). x.state) same),
    )

-- Voting for the dead in a fair round.
fair_vote :
    (round : Round) (g : GraphLiveliness) {k : GraphLiveliness}
    → IsFairRound round
    → IsSound 0 g
    → vote_for_the_dead round.held round.between round.held' g ≡ done k
    → Reach g k × IsSound 0 k
unfolding vote_for_the_dead
fair_vote round g {k} fair s h =
    let (found, e, h') = >>=-eq-done (the_dead round.held g) _ h in
    let (r, none_twice) = fair.between g in
    let last = next r (bury round.held' found h') in
    let exact : overcount 0 last ≡ 0 = omega (arith, none_twice, fair.first g found e) in
    (last, subst (λ n. IsSound n k) exact (Reach-IsSound 0 last s))

-- On a graph that satisfies the invariant, with nothing counted too many, that the other threads move at
-- any time between two locks, but so that no ballot is counted twice: when a watch returns `Ok`, then
-- at some moment every ballot was in favour of the stop that had been asked for, and the graph has
-- come from there to be stopped.
pub watch_shutdown_clean :
    (timeout : ℕ) (rounds : List Round) (g : GraphLiveliness) {g' : GraphLiveliness}
    → All IsFairRound rounds
    → IsSound 0 g
    → watch_shutdown timeout rounds g ≡ done (clean g')
    → StoppedClean g g'
unfolding watch_shutdown
watch_shutdown_clean timeout [] g fair s h = cc
watch_shutdown_clean timeout (round ∷ rounds) g {g'} fair s h =
    elim (Option-cases (check_is_stopped round.checked timeout g)) [
      | inr (shutdown, e) ↦
          stopped_now timeout round.checked shutdown round.before_write g g' fair.0.before_write s e
            (cc (rw (e, watch_shutdown) at h))
      | inl e ↦ elim (Bool-cases (ltb timeout round.tested)) [
        | inl late ↦ cc (rw (e, late, watch_shutdown) at h)
        | inr early ↦
            let (k, e', h') =
              >>=-eq-done (vote_for_the_dead round.held round.between round.held' (round.others g))
                _ (rw (e, early, watch_shutdown) at h) in
            let (r, none_twice) = fair.0.others g in
            let slept = subst (λ n. IsSound n (round.others g)) none_twice (Reach-IsSound 0 r s) in
            let (r', sound) = fair_vote round (round.others g) fair.0 slept e' in
            let (w, before, stopping, all, after, ends) =
              watch_shutdown_clean timeout rounds k fair.1 sound h' in
            (w, Reach-trans (Reach-trans r r') before, stopping, all, after, ends)
      ]
    ]

-- Once a round's second reading of the clock is past the timeout, the watch does not go on: its answer,
-- if it gives one, is clean or unclean.
pub watch_shutdown_ends :
    (timeout : ℕ) (rounds : List Round) (last : Round) (g : GraphLiveliness) (k : GraphLiveliness)
    → timeout < last.tested
    → watch_shutdown timeout (rounds ++ last ∷ []) g ≢ done (watching k)
unfolding watch_shutdown
watch_shutdown_ends timeout [] last g k late h = ground arith
watch_shutdown_ends timeout (round ∷ rounds) last g k late h =
    elim (Option-cases (check_is_stopped round.checked timeout g)) [
      | inr (shutdown, e) ↦ ground arith
      | inl e ↦ elim (Bool-cases (ltb timeout round.tested)) [
        | inl past ↦ cc (rw (e, past, watch_shutdown) at h)
        | inr early ↦
            let (k', e', h') =
              >>=-eq-done (vote_for_the_dead round.held round.between round.held' (round.others g))
                _ (rw (e, early, watch_shutdown) at h) in
            watch_shutdown_ends timeout rounds last k' k late h'
      ]
    ]
