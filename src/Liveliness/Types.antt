-- ===== src/Liveliness/Types.antt =====
-- The data of core/src/graph/{identity,state,vote,liveliness}.rs and of
-- core/src/expression_steady_eye.rs.
use text.Mathlib.Text.{◌==◌ as str_eq}
use steady_state_stack.Common.{ℕ, String, Bool, true, false, ◌&&◌, Option, none, some, List, ◌==◌}

pub record ActorName : Type 0 where
  pub name : String
  pub suffix : Option ℕ

pub record ActorIdentity : Type 0 where
  pub id : ℕ
  pub label : ActorName

-- The derived `PartialEq` of `Option<usize>`, `ActorName` and `ActorIdentity`.
same_suffix : Option ℕ → Option ℕ → Bool
same_suffix none none = true
same_suffix (some a) (some b) = a == b
same_suffix none (some _) = false
same_suffix (some _) none = false

unfoldable pub same_identity : ActorIdentity → ActorIdentity → Bool
unfolding same_suffix
same_identity a b =
    a.id == b.id && str_eq a.label.name b.label.name && same_suffix a.label.suffix b.label.suffix

-- The expression that vetoed, as the macro `i!` leaves it in thread-local storage.
pub record Eye : Type 0 where
  pub expression : String
  pub file : String
  pub line : ℕ

pub data GraphLivelinessState : Type 0 where
  building running stop_requested stopped stopped_uncleanly : GraphLivelinessState

-- The derived `PartialEq`.
abbrev pub tag : GraphLivelinessState → ℕ
tag building = 0
tag running = 1
tag stop_requested = 2
tag stopped = 3
tag stopped_uncleanly = 4

abbrev pub same_state : GraphLivelinessState → GraphLivelinessState → Bool
same_state a b = tag a == tag b

pub data VoterStatus : Type 0 where
  not_registered : VoterStatus
  registered dead : ActorIdentity → VoterStatus

-- `veto_backtrace` holds the rendered trace; the code only ever clears it.
pub record ShutdownVote : Type 0 where
  pub id : ℕ
  pub signature : Option ActorIdentity
  pub in_favor : Bool
  pub voter_status : VoterStatus
  pub veto_backtrace : Option String
  pub veto_reason : Option Eye

-- The senders of `shutdown_one_shot_vec` are told apart by a number.
pub record GraphLiveliness : Type 0 where
  pub registered_voters : List VoterStatus
  pub state : GraphLivelinessState
  pub votes : List ShutdownVote
  pub vote_in_favor_total : ℕ
  pub shutdown_one_shot_vec : List ℕ
  pub registered_voter_count : ℕ
  pub actors_count : ℕ
  pub shutdown_timeout : Option ℕ
  pub actor_catalog : List ActorIdentity

-- One look at the atomics and the clock inside the loop of `wait_for_registrations`.
pub record Look : Type 0 where
  pub registered_now : ℕ
  pub actors_now : ℕ
  pub elapsed : ℕ

-- `exit` is the `process::exit(1)` of a start that timed out; `waiting` means that the looks given
-- have been used up inside the loop.
pub data Start : Type 0 where
  started : GraphLiveliness → Start
  exit : Start
  waiting : Start

-- What a call answers (`Some(true)`: keep running), and what it leaves in thread-local storage and in
-- the graph.
pub record Reply : Type 0 where
  pub answer : Option Bool
  pub last_false : Option Eye
  pub graph : GraphLiveliness
