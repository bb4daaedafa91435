-- ===== src/Liveliness/Dead.antt =====
-- `vote_for_the_dead` of core/src/graph/liveliness.rs: its two phases and what they leave behind.
pub mod Casting
pub mod Again
pub mod Finding
use steady_state_stack.Common.{
  Bool, Outcome, [], arith, done, false, get_elem?, inl, inr, length, some, subst, true, ℕ, ◌+◌,
  ◌∷◌, ◌≡◌, ◌≤◌,
}
use steady_state_stack.Liveliness.{
  ActorIdentity, GraphLiveliness, ShutdownVote, cast_for_the_dead, collect_dead, dead, the_dead,
  vote_for_the_dead,
}
use steady_state_stack.Liveliness.Tally.{
  InFavor, IsNumbered-id, IsTallied, OnlyVotes, favor_count, favor_count-le-length, favor_count-set,
}
use steady_state_stack.Liveliness.Dead.Casting.{
  cast_ballot, cast_for_the_dead_lem, cast_one_free, casting,
}
use steady_state_stack.Liveliness.Dead.Finding.{Collect, collect_dead_lem}

-- What `vote_for_the_dead` comes to.
pub record DeadVote (held held' : ℕ → Bool) (g : GraphLiveliness) (o : Outcome GraphLiveliness)
    : Type 0 where
  pub after : GraphLiveliness
  pub returns : o ≡ done after
  pub tallied : IsTallied after
  pub only : OnlyVotes g after
  pub casts :
      (j : ℕ) (ident : ActorIdentity)
      → get_elem? g.registered_voters j ≡ some (dead ident)
      → held j ≡ false
      → held' j ≡ false
      → InFavor after.votes j

-- Nobody comes in between.
abbrev pub alone : GraphLiveliness → GraphLiveliness
alone g = g

-- With nobody in between, casting for the dead does not panic while there is a ballot for every voter. It keeps the tally and
-- every vote in favour, and each dead voter's ballot that nobody holds ends in favour.
pub vote_for_the_dead_lem :
    (held held' : ℕ → Bool) (g : GraphLiveliness)
    → IsTallied g
    → length g.registered_voters ≤ length g.votes
    → DeadVote held held' g (vote_for_the_dead held alone held' g)
unfolding vote_for_the_dead the_dead
vote_for_the_dead_lem held held' g t fits =
    join (collect_dead_lem held g.votes 0 g.registered_voters (omega arith))
  where
    join :
        Collect held g.votes 0 g.registered_voters (collect_dead held g.votes 0 g.registered_voters)
        → DeadVote held held' g (vote_for_the_dead held alone held' g)
    join c =
        let k = cast_for_the_dead_lem held' 0 c.found g c.pending t in
        record {
          after = k.after;
          returns = rw c.returns k.returns;
          tallied = k.tallied;
          only = k.only;
          casts = λ j ident at free free'. elim (c.covers j j ident at (omega arith) free) [
            | inl f ↦ k.only.keeps j f
            | inr l ↦ k.casts j l free'
          ];
        }

-- The second phase does not look again: a ballot that somebody else has cast in favour between the
-- phases is counted a second time, while no ballot changes sides.
pub cast_for_the_dead_counts_twice :
    (held : ℕ → Bool) (i : ℕ) (ident : ActorIdentity) (v : ShutdownVote) (g : GraphLiveliness)
    {g' : GraphLiveliness}
    → get_elem? g.votes i ≡ some v
    → v.in_favor ≡ true
    → held i ≡ false
    → IsTallied g
    → cast_for_the_dead held ((i, ident) ∷ []) g ≡ done g'
    → (g'.vote_in_favor_total ≡ favor_count g'.votes + 1)
      × (favor_count g'.votes ≡ favor_count g.votes)
unfolding cast_for_the_dead casting
cast_for_the_dead_counts_twice held i ident v g {g'} at yea free t h =
    subst
      (λ x.
        (x.vote_in_favor_total ≡ favor_count x.votes + 1)
        × (favor_count x.votes ≡ favor_count g.votes))
      same counts
  where
    same : casting i ident v g ≡ g'
    same = cc (
        rw
          (
            at,
            cast_one_free held i ident v g free
                (omega (arith, IsNumbered-id 0 g.votes i v at t.numbered)),
          )
          at h)

    counts :
        ((casting i ident v g).vote_in_favor_total ≡ favor_count (casting i ident v g).votes + 1)
        × (favor_count (casting i ident v g).votes ≡ favor_count g.votes)
    counts =
        ground (
          arith,
          favor_count-set g.votes i v (cast_ballot ident v) at,
          favor_count-le-length g.votes,
        )
