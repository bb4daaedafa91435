-- ===== src/Liveliness/Stop.antt =====
-- When a graph may stop: `check_is_stopped` and `is_shutdown_telemetry_complete` of
-- core/src/graph/liveliness.rs read off the ballots, and the order of the states.
use native.Mathlib.Nat.{le_refl, le_trans}
use steady_state_stack.Common.{
  All, Bool-cases, List, [], ap, arith, dec_lt, done, inl, inr, length, min, none, refl, some, suc,
  true, zero, ℕ, ℕ_discrete, ◌+◌, ◌<◌, ◌↔◌, ◌∷◌, ◌≡◌, ◌≤◌, ◌⊎◌,
}
use steady_state_stack.Liveliness.{
  ActorIdentity, GraphLiveliness, GraphLivelinessState, ShutdownVote, VoterStatus,
  building_to_running, check_is_stopped, fire_one_shots, fresh_ballots, open_ballots,
  register_voter, remove_voter, stopped, stopped_uncleanly, tag,
}
use steady_state_stack.Liveliness.Tally.{
  InFavor, IsTallied, favor_count, favor_count-le-length, is_running-Voted,
}
use steady_state_stack.Liveliness.Moves.{
  Move, Reach, Reach-IsSound, ask, ask_to_stop, bury, here, next, register, remove, settle, signal,
  start,
}
use steady_state_stack.Liveliness.Dead.Again.{cast_for_the_dead_any}
use steady_state_stack.Liveliness.Registration.{IsSound}

abbrev pub IsUnanimous : List ShutdownVote → Type 0
IsUnanimous vs = All (λ v. v.in_favor ≡ true) vs

favor_count_unanimous : (vs : List ShutdownVote) → IsUnanimous vs → favor_count vs ≡ length vs
favor_count_unanimous [] h = refl
favor_count_unanimous (v ∷ vs) h = ground (arith, favor_count_unanimous vs h.1)

pub IsUnanimous-of_count : (vs : List ShutdownVote) → favor_count vs ≡ length vs → IsUnanimous vs
IsUnanimous-of_count [] h = tt
IsUnanimous-of_count (v ∷ vs) h = elim (Bool-cases v.in_favor) [
  | inl yea ↦ (yea, IsUnanimous-of_count vs (ground arith))
  | inr nay ↦ absurd (ground (arith, favor_count-le-length vs))
]

-- Shutdown has been requested, or the graph has stopped.
abbrev pub IsStopping : GraphLiveliness → Type 0
IsStopping g = 2 ≤ tag g.state

stops_clean :
    (elapsed timeout : ℕ) (g : GraphLiveliness)
    → IsStopping g
    → g.vote_in_favor_total ≡ length g.votes
    → check_is_stopped elapsed timeout g ≡ some stopped
unfolding check_is_stopped
stops_clean elapsed timeout g s e = ground arith

stops_unclean :
    (elapsed timeout : ℕ) (g : GraphLiveliness)
    → IsStopping g
    → g.vote_in_favor_total < length g.votes
    → timeout < elapsed
    → check_is_stopped elapsed timeout g ≡ some stopped_uncleanly
unfolding check_is_stopped
stops_unclean elapsed timeout g s e h = ground arith

goes_on :
    (elapsed timeout : ℕ) (g : GraphLiveliness)
    → IsStopping g
    → g.vote_in_favor_total < length g.votes
    → elapsed ≤ timeout
    → check_is_stopped elapsed timeout g ≡ none
unfolding check_is_stopped
goes_on elapsed timeout g s e h = ground arith

-- A graph that is stopping stops cleanly exactly when every ballot is in favour; otherwise it goes on
-- until the timeout has passed, and then stops uncleanly.
pub check_is_stopped_lem :
    (elapsed timeout : ℕ) (g : GraphLiveliness)
    → IsTallied g
    → IsStopping g
    → ((check_is_stopped elapsed timeout g ≡ some stopped) ↔ IsUnanimous g.votes)
      × ((check_is_stopped elapsed timeout g ≡ some stopped_uncleanly)
          ↔ ((¬ IsUnanimous g.votes) × (timeout < elapsed)))
      × ((check_is_stopped elapsed timeout g ≡ none)
          ↔ ((¬ IsUnanimous g.votes) × (elapsed ≤ timeout)))
check_is_stopped_lem elapsed timeout g t s =
    elim (ℕ_discrete g.vote_in_favor_total (length g.votes)) [
      | yes e ↦
          let c = stops_clean elapsed timeout g s e in
          let u = IsUnanimous-of_count g.votes (omega (arith, t.total)) in
          ((λ h. u, λ h. c), (λ h. cc c, λ h. absurd (h.0 u)), (λ h. cc c, λ h. absurd (h.0 u)))
      | no ne ↦
          let short : g.vote_in_favor_total < length g.votes =
            omega (arith, t.total, favor_count-le-length g.votes) in
          let split : ¬ IsUnanimous g.votes =
            λ u. absurd (omega (arith, favor_count_unanimous g.votes u, t.total)) in
          elim (dec_lt timeout elapsed) [
            | yes late ↦
                let c = stops_unclean elapsed timeout g s short late in
                (
                  (λ h. cc c, λ h. absurd (split h)),
                  (λ h. (split, late), λ h. c),
                  (λ h. cc c, λ h. absurd (omega (arith, h.1))),
                )
            | no early ↦
                let c = goes_on elapsed timeout g s short (omega arith) in
                (
                  (λ h. cc c, λ h. absurd (split h)),
                  (λ h. cc c, λ h. absurd (early h.1)),
                  (λ h. (split, omega arith), λ h. c),
                )
          ]
    ]

-- Before a request nothing counts as stopped.
pub check_is_stopped_before :
    (elapsed timeout : ℕ) (g : GraphLiveliness)
    → tag g.state < 2
    → check_is_stopped elapsed timeout g ≡ none
unfolding check_is_stopped
check_is_stopped_before elapsed timeout g h = ground arith

pub check_is_stopped_values :
    (elapsed timeout : ℕ) (g : GraphLiveliness) (s : GraphLivelinessState)
    → check_is_stopped elapsed timeout g ≡ some s
    → IsStopping g × ((s ≡ stopped) ⊎ (s ≡ stopped_uncleanly))
unfolding check_is_stopped
check_is_stopped_values elapsed timeout g s h = ground arith

-- building, running, stop_requested, and the two final states.
abbrev pub rank : GraphLivelinessState → ℕ
rank s = min (tag s) 3

start-rank : (g : GraphLiveliness) → rank g.state ≤ rank (building_to_running g).state
unfolding building_to_running
start-rank g = ground arith

remove_voter-state :
    (ident : ActorIdentity) (g : GraphLiveliness) {g' : GraphLiveliness}
    → remove_voter ident g ≡ done g'
    → (g'.state ≡ g.state) × (g'.votes ≡ g.votes)
unfolding remove_voter
remove_voter-state ident g h = ground arith

register_voter-state :
    (ident : ActorIdentity) (g : GraphLiveliness)
    → ((register_voter ident g).state ≡ g.state) × ((register_voter ident g).votes ≡ g.votes)
unfolding register_voter
register_voter-state ident g = (refl, refl)

start-votes : (g : GraphLiveliness) → (building_to_running g).votes ≡ g.votes
unfolding building_to_running
start-votes g = ground arith

signal-state :
    (g : GraphLiveliness)
    → ((fire_one_shots g).0.state ≡ g.state) × ((fire_one_shots g).0.votes ≡ g.votes)
unfolding fire_one_shots
signal-state g = (refl, refl)

-- building, running, and all that comes after a request.
abbrev pub phase : GraphLivelinessState → ℕ
phase s = min (tag s) 2

-- How many times the ballots are made anew.
abbrev remade : {g g' : GraphLiveliness} → Move g g' → ℕ
remade (register ident e) = 0
remade (remove ident e) = 0
remade (start e) = 0
remade (ask_to_stop voters e) = 1
remade (bury held found e) = 0
remade (signal e) = 0
remade (ask held ident accept last r e e') = 0
remade (settle s which e) = 0

abbrev pub requests : {g g' : GraphLiveliness} → Reach g g' → ℕ
requests here = 0
requests (next r m) = requests r + remade m

-- The state goes forward, and if `n` is 0 in finer steps, with every vote in favour kept.
record Forward (n : ℕ) (g g' : GraphLiveliness) : Type 0 where
  coarse : phase g.state ≤ phase g'.state
  fine : n ≡ 0 → rank g.state ≤ rank g'.state
  keeps : n ≡ 0 → (j : ℕ) → InFavor g.votes j → InFavor g'.votes j

still-Forward :
    (n : ℕ) (g g' : GraphLiveliness)
    → g'.state ≡ g.state
    → ((j : ℕ) → InFavor g.votes j → InFavor g'.votes j)
    → Forward n g g'
still-Forward n g g' e keep = record {
  coarse = rw e (le_refl (phase g.state));
  fine = λ z. rw e (le_refl (rank g.state));
  keeps = λ z. keep;
}

start-Forward : (g : GraphLiveliness) → Forward 0 g (building_to_running g)
start-Forward g = record {
  coarse = unfold building_to_running in ground arith;
  fine = λ z. start-rank g;
  keeps = λ z j x. rw (start-votes g) x;
}

ask_to_stop-Forward :
    (voters : List VoterStatus) (g : GraphLiveliness)
    → Forward 1 g (open_ballots (fresh_ballots 0 voters) g)
unfolding open_ballots
ask_to_stop-Forward voters g = record {
  coarse = omega arith;
  fine = λ z. absurd (omega (arith, z));
  keeps = λ z. absurd (omega (arith, z));
}

settle-Forward :
    (s : GraphLivelinessState) (g : GraphLiveliness)
    → (s ≡ stopped) ⊎ (s ≡ stopped_uncleanly)
    → Forward 0 g (record g { state = s })
settle-Forward s g which =
    let final : tag s ≡ 3 ⊎ tag s ≡ 4 = elim which [
      | inl e ↦ inl (ap tag e)
      | inr e ↦ inr (ap tag e)
    ] in
    record { coarse = ground arith; fine = λ z. ground arith; keeps = λ z j x. x }

Move-Forward :
    {g g' : GraphLiveliness} {extra : ℕ} (m : Move g g') → IsSound extra g → Forward (remade m) g g'
Move-Forward {g} (register ident e) s =
    let f = register_voter-state ident g in
    rw e (still-Forward 0 g (register_voter ident g) f.0 (λ j x. rw f.1 x))
Move-Forward {g} {g'} (remove ident e) s =
    let f = remove_voter-state ident g e in still-Forward 0 g g' f.0 (λ j x. rw f.1 x)
Move-Forward {g} (start e) s = rw e (start-Forward g)
Move-Forward {g} (ask_to_stop voters e) s = rw e (ask_to_stop-Forward voters g)
Move-Forward {g} {g'} (bury held found e) s =
    let c = cast_for_the_dead_any held found g s.numbered e in
    still-Forward 0 g g' c.only.same_state c.only.keeps
Move-Forward {g} (signal e) s =
    let f = signal-state g in rw e (still-Forward 0 g (fire_one_shots g).0 f.0 (λ j x. rw f.1 x))
Move-Forward {g} (ask held ident accept last r e e') s =
    let v = is_running-Voted held ident accept last g e in
    rw e' (still-Forward 0 g r.graph v.only.same_state v.only.keeps)
Move-Forward {g} (settle st which e) s = rw e (settle-Forward st g which)

-- From a graph that satisfies the invariant, no sequence of moves of any threads leads back from a request
-- to a running graph or from a running graph to one that is built. While the ballots are not made
-- anew, none leads back from a stop either, and none takes a vote in favour back.
pub Reach-forward :
    {g g' : GraphLiveliness} (extra : ℕ) (r : Reach g g')
    → IsSound extra g
    → (phase g.state ≤ phase g'.state)
      × (requests r ≡ 0
          → (rank g.state ≤ rank g'.state) × ((j : ℕ) → InFavor g.votes j → InFavor g'.votes j))
Reach-forward {g} extra here s = (le_refl (phase g.state), λ z. (le_refl (rank g.state), λ j x. x))
Reach-forward extra (next r m) s =
    let a = Reach-forward extra r s in
    let b = Move-Forward m (Reach-IsSound extra r s) in
    (
      le_trans a.0 b.coarse,
      λ z.
          let before = a.1 (omega (arith, z)) in
          let last : remade m ≡ 0 = omega (arith, z) in
          (le_trans before.0 (b.fine last), λ j x. b.keeps last j (before.1 j x)),
    )

none-InFavor : (i : ℕ) (voters : List VoterStatus) (j : ℕ) → ¬ InFavor (fresh_ballots i voters) j
unfolding fresh_ballots
none-InFavor i [] j (v, at, yea) = cc
none-InFavor i (status ∷ voters) zero (v, at, yea) = cc
none-InFavor i (status ∷ voters) (suc j) f = none-InFavor (i + 1) voters j f

-- A second request whose test came before the first one's write moves a stopped graph back, and takes every
-- vote in favour back.
pub late_request_takes_back :
    (voters : List VoterStatus) (g : GraphLiveliness)
    → g.state ≡ stopped
    → (rank (open_ballots (fresh_ballots 0 voters) g).state < rank g.state)
      × ((j : ℕ) → ¬ InFavor (open_ballots (fresh_ballots 0 voters) g).votes j)
unfolding open_ballots
late_request_takes_back voters g e = (rw e (omega arith), none-InFavor 0 voters)
