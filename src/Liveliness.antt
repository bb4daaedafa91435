-- ===== src/Liveliness.antt =====
-- Graph liveliness and the shutdown vote: core/src/graph/{identity,state,vote,liveliness,shutdown}.rs.
--
-- `Types` has the data; the operations stand here. A ballot is behind a `Mutex` that is only ever
-- taken by `try_lock`; which ballots somebody else holds at that moment is the argument `held`.
-- Logging, `yield_now` and the drop of a guard leave no trace in the state.
mod Types
pub mod Tally
pub mod Dead
pub mod Registration
pub mod Moves
pub mod Stop
pub mod Watch
pub mod Request
mod Tests
pub use Types.*
use steady_state_stack.Common.{
  Bool, List, Option, Outcome, [], any, done, false, get_elem?, if◌then◌else◌, leb, length, ltb,
  none, not, panic, replicate, set, some, true, wrapping_add, ℕ, ◌&&◌, ◌++◌, ◌+◌, ◌-◌, ◌==◌, ◌>>=◌,
  ◌∷◌,
}

pub elapsed_exceeds : ℕ → ℕ → Bool
elapsed_exceeds elapsed timeout = ltb timeout elapsed

-- `GraphLiveliness::new`.
unfoldable pub new : List ℕ → ℕ → List ActorIdentity → GraphLiveliness
new one_shot_shutdown actors_count actors_catalog = record {
  registered_voters = [];
  state = building;
  votes = [];
  vote_in_favor_total = 0;
  shutdown_one_shot_vec = one_shot_shutdown;
  registered_voter_count = 0;
  actors_count = actors_count;
  shutdown_timeout = none;
  actor_catalog = actors_catalog;
}

find_by_id : ℕ → List ActorIdentity → Option ActorIdentity
find_by_id id [] = none
find_by_id id (x ∷ xs) = if x.id == id then some x else find_by_id id xs

pub actor_by_id : GraphLiveliness → ℕ → Option ActorIdentity
unfolding find_by_id
actor_by_id g id = find_by_id id g.actor_catalog

pub building_to_running : GraphLiveliness → GraphLiveliness
building_to_running g = if same_state g.state building then record g { state = running } else g

-- The comparison with `VoterStatus::Registered(ident)`.
is_registered_as : ActorIdentity → VoterStatus → Bool
is_registered_as ident (registered other) = same_identity other ident
is_registered_as ident not_registered = false
is_registered_as ident (dead _) = false

remove_at : ActorIdentity → Option VoterStatus → GraphLiveliness → Outcome GraphLiveliness
remove_at ident none g = panic
remove_at ident (some status) g =
    if is_registered_as ident status
    then done (record g { registered_voters = set g.registered_voters ident.id (dead ident) })
    else done g

-- An index out of bounds panics.
pub remove_voter : ActorIdentity → GraphLiveliness → Outcome GraphLiveliness
unfolding remove_at is_registered_as same_identity
remove_voter ident g = remove_at ident (get_elem? g.registered_voters ident.id) g

-- `Vec::resize`, which only ever grows the vector here.
grow : ℕ → List VoterStatus → List VoterStatus
grow id voters =
    if leb (length voters) id
    then voters ++ replicate (id + 1 - length voters) not_registered
    else voters

is_not_registered : Option VoterStatus → Bool
is_not_registered (some not_registered) = true
is_not_registered (some (registered _)) = false
is_not_registered (some (dead _)) = false
is_not_registered none = false

pub register_voter : ActorIdentity → GraphLiveliness → GraphLiveliness
unfolding grow is_not_registered
register_voter ident g =
    let voters = grow ident.id g.registered_voters in
    let count = g.registered_voter_count in
    record g {
      registered_voter_count =
          if is_not_registered (get_elem? voters ident.id) then wrapping_add count 1 else count;
      registered_voters = set voters ident.id (registered ident);
    }

wait_loop : ℕ → List Look → GraphLiveliness → Start
wait_loop timeout [] g = waiting
wait_loop timeout (look ∷ looks) g = elim (ltb look.registered_now look.actors_now) [
  | false ↦ started (building_to_running g)
  | true ↦ elim (elapsed_exceeds look.elapsed timeout) [
    | true ↦ exit
    | false ↦ wait_loop timeout looks g
  ]
]

pub wait_for_registrations : ℕ → List Look → GraphLiveliness → Start
unfolding wait_loop building_to_running elapsed_exceeds
wait_for_registrations timeout looks g =
    if g.actors_count == 0 then started (building_to_running g) else wait_loop timeout looks g

-- The ballots of a new shutdown request, numbered from `i`.
pub fresh_ballots : ℕ → List VoterStatus → List ShutdownVote
fresh_ballots i [] = []
fresh_ballots i (status ∷ voters) =
    record {
      id = i;
      signature = none;
      in_favor = false;
      voter_status = status;
      veto_backtrace = none;
      veto_reason = none;
    }
    ∷ fresh_ballots (i + 1) voters

-- What one voter adds to `the_dead`: a dead voter whose ballot is free and not yet in favour.
pub dead_entry :
    (ℕ → Bool) → ℕ → VoterStatus → Option ShutdownVote → Outcome (List (ℕ × ActorIdentity))
dead_entry held i not_registered ballot = done []
dead_entry held i (registered _) ballot = done []
dead_entry held i (dead ident) none = panic
dead_entry held i (dead ident) (some vote) =
    if held i then done [] else if vote.in_favor then done [] else done ((i, ident) ∷ [])

pub collect_dead :
    (ℕ → Bool) → List ShutdownVote → ℕ → List VoterStatus → Outcome (List (ℕ × ActorIdentity))
collect_dead held votes i [] = done []
collect_dead held votes i (status ∷ voters) =
    dead_entry held i status (get_elem? votes i) >>= λ found.
    collect_dead held votes (i + 1) voters >>= λ rest. done (found ++ rest)

-- The first phase of `vote_for_the_dead`, under the read lock.
unfoldable pub the_dead : (ℕ → Bool) → GraphLiveliness → Outcome (List (ℕ × ActorIdentity))
unfolding collect_dead dead_entry
the_dead held g = collect_dead held g.votes 0 g.registered_voters

pub cast_one :
    (ℕ → Bool) → ℕ → ActorIdentity → Option ShutdownVote → GraphLiveliness → Outcome GraphLiveliness
cast_one held i ident none g = panic
cast_one held i ident (some vote) g =
    if held i
    then done g
    else if vote.id == i
    then done (record g {
      votes = set g.votes i (record vote { signature = some ident; in_favor = true });
      vote_in_favor_total = wrapping_add g.vote_in_favor_total 1;
    })
    else panic

-- The second phase, under the write lock.
pub cast_for_the_dead :
    (ℕ → Bool) → List (ℕ × ActorIdentity) → GraphLiveliness → Outcome GraphLiveliness
cast_for_the_dead held [] g = done g
cast_for_the_dead held ((i, ident) ∷ rest) g =
    cast_one held i ident (get_elem? g.votes i) g >>= cast_for_the_dead held rest

-- Each phase has its own view of the locks, and between the two, under no lock, the other threads do
-- `between` to the graph.
pub vote_for_the_dead :
    (ℕ → Bool)
    → (GraphLiveliness → GraphLiveliness)
    → (ℕ → Bool)
    → GraphLiveliness
    → Outcome GraphLiveliness
vote_for_the_dead held between held' g =
    the_dead held g >>= λ found. cast_for_the_dead held' found (between g)

-- The part of a shutdown request under the write lock. It does not look at the state again.
pub open_ballots : List ShutdownVote → GraphLiveliness → GraphLiveliness
open_ballots votes g = record g { votes = votes; vote_in_favor_total = 0; state = stop_requested }

-- The second component lists the one-shots that fire, the last one first.
pop_all : List ℕ → List ℕ → List ℕ
pop_all [] fired = fired
pop_all (s ∷ rest) fired = pop_all rest (s ∷ fired)

pub fire_one_shots : GraphLiveliness → GraphLiveliness × List ℕ
unfolding pop_all
fire_one_shots g = (record g { shutdown_one_shot_vec = [] }, pop_all g.shutdown_one_shot_vec [])

-- What the other threads do between the parts of a request, each of which takes its own lock: after
-- the test of the state, after the ballots are made, before the dead are looked for, between the two
-- phases of voting for them, and before the one-shots are taken.
pub record Gaps : Type 0 where
  pub after_test : GraphLiveliness → GraphLiveliness
  pub after_read : GraphLiveliness → GraphLiveliness
  pub after_write : GraphLiveliness → GraphLiveliness
  pub between : GraphLiveliness → GraphLiveliness
  pub after_votes : GraphLiveliness → GraphLiveliness

-- The one-shots are behind an `Arc`, so those that are popped are the graph's own.
pub internal_request_shutdown :
    (ℕ → Bool) → (ℕ → Bool) → Gaps → GraphLiveliness → Outcome (GraphLiveliness × List ℕ)
unfolding fire_one_shots open_ballots fresh_ballots
internal_request_shutdown held held' gaps g =
    if same_state g.state running
    then (let read = gaps.after_test g in
        let votes = fresh_ballots 0 read.registered_voters in
        let written = open_ballots votes (gaps.after_read read) in
        vote_for_the_dead held gaps.between held' (gaps.after_write written) >>= λ g'.
        done (fire_one_shots (gaps.after_votes g')))
    else done (g, [])

pub is_in_state : GraphLiveliness → List GraphLivelinessState → Bool
is_in_state g matches = any (λ f. same_state f g.state) matches

pub check_is_stopped : ℕ → ℕ → GraphLiveliness → Option GraphLivelinessState
unfolding is_in_state elapsed_exceeds
check_is_stopped elapsed timeout g =
    if is_in_state g (stop_requested ∷ stopped ∷ stopped_uncleanly ∷ [])
    then if g.vote_in_favor_total == length g.votes
      then some stopped
      else if not (length g.votes == 0) && elapsed_exceeds elapsed timeout
      then some stopped_uncleanly
      else if not (length g.votes == 0)
      then none
      else some stopped
    else none

-- The `assert!` panics when there are fewer voters than telemetry actors.
pub is_shutdown_telemetry_complete : GraphLiveliness → ℕ → Outcome Bool
is_shutdown_telemetry_complete g count =
    if leb count (length g.votes)
    then done (leb (length g.votes - count) g.vote_in_favor_total)
    else panic

-- The body of `apply_shutdown_vote` behind `try_lock`. `i_take_expression` empties `last_false`. The
-- `debug_assert_eq!` on the ballot's number is not in a release build.
record_vote : ActorIdentity → Bool → Option Eye → ShutdownVote → GraphLiveliness → Reply
record_vote ident in_favor last_false vote g =
    if in_favor && not vote.in_favor
    then record {
      answer = some (not in_favor);
      last_false = last_false;
      graph = record g {
        vote_in_favor_total = wrapping_add g.vote_in_favor_total 1;
        votes =
            set g.votes ident.id
              (record vote { signature = some ident; veto_backtrace = none; in_favor = in_favor });
      };
    }
    else record {
      answer = some (not in_favor);
      last_false = none;
      graph = record g {
        votes =
            set g.votes ident.id (record vote { signature = some ident; veto_reason = last_false });
      };
    }

my_ballot :
    (ℕ → Bool)
    → ActorIdentity
    → Bool
    → Option Eye
    → Option ShutdownVote
    → GraphLiveliness
    → Outcome Reply
unfolding record_vote
my_ballot held ident in_favor last_false none g = panic
my_ballot held ident in_favor last_false (some vote) g =
    if held ident.id
    then done (record { answer = some true; last_false = last_false; graph = g })
    else done (record_vote ident in_favor last_false vote g)

unmoved : Option Bool → Option Eye → GraphLiveliness → Outcome Reply
unmoved answer last_false g = done (record { answer = answer; last_false = last_false; graph = g })

vote_in_state :
    GraphLivelinessState
    → (ℕ → Bool)
    → ActorIdentity
    → Bool
    → Option Eye
    → GraphLiveliness
    → Outcome Reply
unfolding my_ballot unmoved
vote_in_state stop_requested held ident in_favor last_false g =
    my_ballot held ident in_favor last_false (get_elem? g.votes ident.id) g
vote_in_state building held ident in_favor last_false g = unmoved none last_false g
vote_in_state running held ident in_favor last_false g = unmoved (some true) last_false g
vote_in_state stopped held ident in_favor last_false g = unmoved (some false) last_false g
vote_in_state stopped_uncleanly held ident in_favor last_false g = unmoved (some false) last_false g

pub apply_shutdown_vote :
    (ℕ → Bool) → ActorIdentity → Bool → Option Eye → GraphLiveliness → Outcome Reply
unfolding vote_in_state
apply_shutdown_vote held ident in_favor last_false g =
    vote_in_state g.state held ident in_favor last_false g

-- `accept` is the closure: its vote, and the expression that it leaves in thread-local storage, given
-- the one that it finds there. It is called only in `stop_requested`.
running_in_state :
    GraphLivelinessState
    → (ℕ → Bool)
    → ActorIdentity
    → (Option Eye → Bool × Option Eye)
    → Option Eye
    → GraphLiveliness
    → Outcome Reply
unfolding unmoved
running_in_state stop_requested held ident accept last_false g =
    let (in_favor, left) = accept last_false in apply_shutdown_vote held ident in_favor left g
running_in_state building held ident accept last_false g = unmoved none last_false g
running_in_state running held ident accept last_false g = unmoved (some true) last_false g
running_in_state stopped held ident accept last_false g = unmoved (some false) last_false g
running_in_state stopped_uncleanly held ident accept last_false g =
    unmoved (some false) last_false g

pub is_running :
    (ℕ → Bool)
    → ActorIdentity
    → (Option Eye → Bool × Option Eye)
    → Option Eye
    → GraphLiveliness
    → Outcome Reply
unfolding running_in_state apply_shutdown_vote
is_running held ident accept last_false g = running_in_state g.state held ident accept last_false g
