-- ===== src/Liveliness/Tests.antt =====
-- The liveliness theorems at concrete graphs.
use steady_state_stack.Common.{
  Bool, Option, [], arith, done, false, none, refl, some, true, ℕ, ◌++◌, ◌+◌, ◌<◌, ◌↔◌, ◌∷◌, ◌≡◌,
  ◌≢◌, ◌≤◌,
}
use steady_state_stack.Liveliness.{
  ActorIdentity, Eye, GraphLiveliness, GraphLivelinessState, Reply, ShutdownVote, VoterStatus,
  building_to_running, cast_for_the_dead, cast_one, check_is_stopped, dead, fire_one_shots,
  internal_request_shutdown, is_running, new, register_voter, registered, running, stop_requested,
  stopped, stopped_uncleanly, the_dead, vote_for_the_dead,
}
use steady_state_stack.Liveliness.Tally.{InFavor, IsTallied, Kept, favor_count, is_running-Kept}
use steady_state_stack.Liveliness.Dead.{
  DeadVote, alone, cast_for_the_dead_counts_twice, vote_for_the_dead_lem,
}
use steady_state_stack.Liveliness.Registration.{IsSound}
use steady_state_stack.Liveliness.Request.{Requested, internal_request_shutdown_lem, quiet}
use steady_state_stack.Liveliness.Moves.{
  Reach, Reach-IsSound, ask, bury, here, new-IsSound, next, overcount, register, start,
}
use steady_state_stack.Liveliness.Dead.Again.{ArePending-repeats, repeats}
use steady_state_stack.Liveliness.Dead.Finding.{collect_dead-ArePending}
use steady_state_stack.Liveliness.Stop.{
  IsUnanimous, Reach-forward, check_is_stopped_lem, phase, rank, requests,
}
use steady_state_stack.Liveliness.Watch.{
  IsFairRound, Round, StoppedClean, clean, watch_shutdown, watch_shutdown_clean,
  watch_shutdown_ends, watching,
}

abbrev actor : ℕ → ActorIdentity
actor i = record { id = i; label = record { name = "worker"; suffix = none } }

abbrev ballot : ℕ → Bool → VoterStatus → ShutdownVote
ballot i yea status = record {
  id = i;
  signature = none;
  in_favor = yea;
  voter_status = status;
  veto_backtrace = none;
  veto_reason = none;
}

-- Voter 0 is alive and has not agreed; voter 1 is dead.
abbrev graph_of : GraphLivelinessState → ℕ → Bool → Bool → GraphLiveliness
graph_of state total first second = record {
  registered_voters = registered (actor 0) ∷ dead (actor 1) ∷ [];
  state = state;
  votes = ballot 0 first (registered (actor 0)) ∷ ballot 1 second (dead (actor 1)) ∷ [];
  vote_in_favor_total = total;
  shutdown_one_shot_vec = 4 ∷ [];
  registered_voter_count = 2;
  actors_count = 2;
  shutdown_timeout = none;
  actor_catalog = actor 0 ∷ actor 1 ∷ [];
}

abbrev asked : GraphLiveliness
asked = graph_of stop_requested 0 false false

abbrev agreed : GraphLiveliness
agreed = graph_of stop_requested 2 true true

abbrev nobody : ℕ → Bool
nobody i = false

asked-IsTallied : IsTallied asked
asked-IsTallied = record { total = refl; numbered = (refl, (refl, tt)); small = omega arith }

agreed-IsTallied : IsTallied agreed
agreed-IsTallied = record { total = refl; numbered = (refl, (refl, tt)); small = omega arith }

asked-IsSound : IsSound 0 asked
asked-IsSound = record { total = refl; numbered = (refl, (refl, tt)); counted = refl }

abbrev accepts : Option Eye → Bool × Option Eye
accepts last = (true, last)

abbrev answered : Reply
answered = record {
  answer = some false;
  last_false = none;
  graph = record asked {
    votes =
        record (ballot 0 true (registered (actor 0))) { signature = some (actor 0) }
        ∷ ballot 1 false (dead (actor 1))
        ∷ [];
    vote_in_favor_total = 1;
  };
}

asking : is_running nobody (actor 0) accepts none asked ≡ done answered
unfolding is_running
asking = refl

is_running-Kept_example : Kept asked answered.graph
is_running-Kept_example = is_running-Kept nobody (actor 0) accepts none asked asking asked-IsTallied

vote_for_the_dead_lem_example :
    DeadVote nobody nobody asked (vote_for_the_dead nobody alone nobody asked)
vote_for_the_dead_lem_example =
    vote_for_the_dead_lem nobody nobody asked asked-IsTallied (omega arith)

abbrev overcounted : GraphLiveliness
overcounted = record agreed {
  votes =
      ballot 0 true (registered (actor 0))
      ∷ record (ballot 1 true (dead (actor 1))) { signature = some (actor 1) }
      ∷ [];
  vote_in_favor_total = 3;
}

counting_again : cast_for_the_dead nobody ((1, actor 1) ∷ []) agreed ≡ done overcounted
unfolding cast_for_the_dead cast_one
counting_again = refl

cast_for_the_dead_counts_twice_example :
    (◌≡◌ {A = ℕ} 3 (favor_count overcounted.votes + 1))
    × (favor_count overcounted.votes ≡ favor_count agreed.votes)
cast_for_the_dead_counts_twice_example =
    cast_for_the_dead_counts_twice nobody 1 (actor 1) (ballot 1 true (dead (actor 1))) agreed refl
      refl refl agreed-IsTallied counting_again

abbrev fresh : GraphLiveliness
fresh = new (4 ∷ []) 2 (actor 0 ∷ actor 1 ∷ [])

abbrev first_in : GraphLiveliness
first_in = register_voter (actor 0) fresh

abbrev registering : Reach fresh (building_to_running (register_voter (actor 1) first_in))
registering =
    next (next (next here (register (actor 0) refl)) (register (actor 1) refl)) (start refl)

-- The ballot of the dead voter is cast a second time, so the total counts one too many.
abbrev counted_again : Reach agreed overcounted
counted_again = next here (bury nobody ((1, actor 1) ∷ []) counting_again)

agreed-IsSound : IsSound 0 agreed
agreed-IsSound = record { total = refl; numbered = (refl, (refl, tt)); counted = refl }

Reach-IsSound_example : IsSound (overcount 0 counted_again) overcounted
Reach-IsSound_example = Reach-IsSound 0 counted_again agreed-IsSound

one_too_many : overcount 0 counted_again ≡ 1
unfolding repeats
one_too_many = refl

registered-IsSound : IsSound 0 (building_to_running (register_voter (actor 1) first_in))
registered-IsSound = Reach-IsSound 0 registering (new-IsSound (4 ∷ []) 2 (actor 0 ∷ actor 1 ∷ []))

one_vote : Reach asked answered.graph
one_vote = next here (ask nobody (actor 0) accepts none answered asking refl)

Reach-forward_example :
    (phase asked.state ≤ phase answered.graph.state)
    × (requests one_vote ≡ 0
        → (rank asked.state ≤ rank answered.graph.state)
          × ((j : ℕ) → InFavor asked.votes j → InFavor answered.graph.votes j))
Reach-forward_example = Reach-forward 0 one_vote asked-IsSound

check_is_stopped_lem_example :
    ((check_is_stopped 9 5 asked ≡ some stopped) ↔ IsUnanimous asked.votes)
    × ((check_is_stopped 9 5 asked ≡ some stopped_uncleanly)
        ↔ ((¬ IsUnanimous asked.votes) × (5 < 9)))
    × ((check_is_stopped 9 5 asked ≡ none) ↔ ((¬ IsUnanimous asked.votes) × (9 ≤ 5)))
check_is_stopped_lem_example = check_is_stopped_lem 9 5 asked asked-IsTallied (omega arith)

-- Between the two looks voter 0 agrees, and the watcher votes for the dead.
abbrev round_at : ℕ → ℕ → Round
round_at checked tested = record {
  checked = checked;
  tested = tested;
  before_write = λ g. g;
  others = λ g. g;
  held = nobody;
  between = alone;
  held' = nobody;
}

abbrev half : GraphLiveliness
half = graph_of stop_requested 1 true false

abbrev settled_graph : GraphLiveliness
settled_graph = record half {
  state = stopped;
  votes =
      ballot 0 true (registered (actor 0))
      ∷ record (ballot 1 true (dead (actor 1))) { signature = some (actor 1) }
      ∷ [];
  vote_in_favor_total = 2;
}

half-IsSound : IsSound 0 half
half-IsSound = record { total = refl; numbered = (refl, (refl, tt)); counted = refl }

quiet_round : (checked tested : ℕ) → IsFairRound (round_at checked tested)
unfolding the_dead
quiet_round checked tested = record {
  before_write = λ g. here;
  others = λ g. (here, refl);
  between = λ g. (here, refl);
  first = λ g found e.
      ArePending-repeats nobody 0 found g.votes
        (collect_dead-ArePending nobody g.votes 0 g.registered_voters found e);
}

watching_half :
    watch_shutdown 5 (round_at 1 2 ∷ round_at 3 4 ∷ []) half ≡ done (clean settled_graph)
unfolding watch_shutdown check_is_stopped vote_for_the_dead the_dead cast_for_the_dead cast_one
watching_half = refl

watch_shutdown_clean_example : StoppedClean half settled_graph
watch_shutdown_clean_example =
    watch_shutdown_clean 5 (round_at 1 2 ∷ round_at 3 4 ∷ []) half
      (quiet_round 1 2, (quiet_round 3 4, tt)) half-IsSound watching_half

watch_shutdown_ends_example :
    watch_shutdown 5 ((round_at 1 2 ∷ []) ++ round_at 3 6 ∷ []) asked ≢ done (watching asked)
watch_shutdown_ends_example =
    watch_shutdown_ends 5 (round_at 1 2 ∷ []) (round_at 3 6) asked asked (omega arith)

abbrev at_work : GraphLiveliness
at_work = record (graph_of running 0 false false) { votes = [] }

at_work-running : at_work.state ≡ running
at_work-running = refl

internal_request_shutdown_lem_example :
    (k : GraphLiveliness) × (internal_request_shutdown nobody nobody quiet at_work
      ≡ done (fire_one_shots k))
    × Requested nobody nobody at_work k
internal_request_shutdown_lem_example =
    internal_request_shutdown_lem nobody nobody at_work refl (omega arith)

-- The votes and the state that a request leaves, with the one-shots taken.
abbrev requested : GraphLiveliness
requested = record at_work {
  state = stop_requested;
  votes =
      ballot 0 false (registered (actor 0))
      ∷ record (ballot 1 true (dead (actor 1))) { signature = some (actor 1) }
      ∷ [];
  vote_in_favor_total = 1;
  shutdown_one_shot_vec = [];
}
