-- ===== src/Liveliness/Request.antt =====
-- A shutdown request by itself: `internal_request_shutdown` of core/src/graph/liveliness.rs with no other
-- thread in its gaps.
use steady_state_stack.Common.{
  Bool, List, [], ap, arith, done, false, get_elem?, length, refl, some, suc, sym, usize_mod, ℕ,
  ◌+◌, ◌<◌, ◌∙◌, ◌∷◌, ◌≡◌,
}
use steady_state_stack.Liveliness.{
  ActorIdentity, Gaps, GraphLiveliness, VoterStatus, dead, fire_one_shots, fresh_ballots,
  internal_request_shutdown, open_ballots, running, stop_requested,
}
use steady_state_stack.Liveliness.Tally.{InFavor, IsTallied}
use steady_state_stack.Liveliness.Dead.{alone, vote_for_the_dead_lem}
use steady_state_stack.Liveliness.Moves.{IsNumbered-fresh_ballots, favor_count-fresh_ballots}

abbrev pub quiet : Gaps
quiet = record {
  after_test = alone;
  after_read = alone;
  after_write = alone;
  between = alone;
  after_votes = alone;
}

length-fresh_ballots : (i : ℕ) (vs : List VoterStatus) → length (fresh_ballots i vs) ≡ length vs
unfolding fresh_ballots
length-fresh_ballots i [] = refl
length-fresh_ballots i (v ∷ vs) = ap suc (length-fresh_ballots (i + 1) vs)

open_ballots-IsTallied :
    (g : GraphLiveliness)
    → length g.registered_voters + 1 < usize_mod
    → IsTallied (open_ballots (fresh_ballots 0 g.registered_voters) g)
unfolding open_ballots
open_ballots-IsTallied g few = record {
  total = sym (favor_count-fresh_ballots 0 g.registered_voters);
  numbered = IsNumbered-fresh_ballots 0 g.registered_voters;
  small = omega (arith, length-fresh_ballots 0 g.registered_voters, few);
}

-- What a request has made of the graph `g`, with the votes cast but the one-shots still there.
pub record Requested (held held' : ℕ → Bool) (g k : GraphLiveliness) : Type 0 where
  pub tallied : IsTallied k
  pub state : k.state ≡ stop_requested
  pub ballots : length k.votes ≡ length g.registered_voters
  pub same_voters : k.registered_voters ≡ g.registered_voters
  pub dead_agree :
      (j : ℕ) (ident : ActorIdentity)
      → get_elem? g.registered_voters j ≡ some (dead ident)
      → held j ≡ false
      → held' j ≡ false
      → InFavor k.votes j

-- On a running graph with fewer than 2^64 - 1 voters, and with no other thread in its gaps, a shutdown
-- request does not panic: it asks for the
-- stop, makes a ballot for every voter, and brings every dead voter's ballot that nobody holds in
-- favour, with a total that counts the ballots in favour; then the one-shots fire.
pub internal_request_shutdown_lem :
    (held held' : ℕ → Bool) (g : GraphLiveliness)
    → g.state ≡ running
    → length g.registered_voters + 1 < usize_mod
    → (k : GraphLiveliness) × (internal_request_shutdown held held' quiet g
        ≡ done (fire_one_shots k))
      × Requested held held' g k
unfolding internal_request_shutdown
internal_request_shutdown_lem held held' g r few =
    let opened = open_ballots (fresh_ballots 0 g.registered_voters) g in
    let size = length-fresh_ballots 0 g.registered_voters in
    let d =
      vote_for_the_dead_lem held held' opened (open_ballots-IsTallied g few)
        (unfold open_ballots in omega (arith, size)) in
    (
      d.after,
      ground (arith, d.returns, r),
      unfold open_ballots in
          record {
            tallied = d.tallied;
            state = d.only.same_state;
            ballots = d.only.same_ballots ∙ size;
            same_voters = d.only.same_voters;
            dead_agree = d.casts;
          },
    )
