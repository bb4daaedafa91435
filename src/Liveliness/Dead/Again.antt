-- ===== src/Liveliness/Dead/Again.antt =====
-- The second phase of `vote_for_the_dead` of core/src/graph/liveliness.rs for any list of the dead, which
-- may be out of date: the ballots that it counts once more.
use steady_state_stack.Common.{
  Bool, Bool-cases, List, Option, Option-cases, [], arith, done, get_elem?, if◌then◌else◌, inl, inr,
  none, panic, refl, set, some, subst, usize_mod, wrapping_add, ℕ, ◌%◌, ◌+◌, ◌∷◌, ◌≡◌,
}
use steady_state_stack.Liveliness.{
  ActorIdentity, GraphLiveliness, ShutdownVote, cast_for_the_dead, cast_one,
}
use steady_state_stack.Liveliness.Tally.{
  IsNumbered, IsNumbered-id, IsNumbered-set, OnlyVotes, OnlyVotes-refl, OnlyVotes-trans,
  favor_count, favor_count-set, set-OnlyVotes, weight,
}
use steady_state_stack.Liveliness.Dead.Casting.{
  ArePending, ArePending-set, cast_ballot, cast_one_free, cast_one_held, casting,
}

cast_one_missing :
    (held : ℕ → Bool) (i : ℕ) (ident : ActorIdentity) (g : GraphLiveliness)
    → cast_one held i ident none g ≡ panic
unfolding cast_one
cast_one_missing held i ident g = refl

-- How often a ballot that is in favour already is counted once more.
repeated : (ℕ → Bool) → ℕ → Option ShutdownVote → ℕ
repeated held i none = 0
repeated held i (some vote) = if held i then 0 else weight vote.in_favor

cast_vote :
    (ℕ → Bool) → ℕ → ActorIdentity → Option ShutdownVote → List ShutdownVote → List ShutdownVote
cast_vote held i ident none votes = votes
cast_vote held i ident (some vote) votes =
    if held i then votes else set votes i (cast_ballot ident vote)

unfoldable pub repeats : (ℕ → Bool) → List (ℕ × ActorIdentity) → List ShutdownVote → ℕ
unfolding repeated cast_vote
repeats held [] votes = 0
repeats held ((i, ident) ∷ rest) votes =
    repeated held i (get_elem? votes i)
    + repeats held rest (cast_vote held i ident (get_elem? votes i) votes)

-- Ballots that are pending are counted once.
pub ArePending-repeats :
    (held : ℕ → Bool) (lo : ℕ) (found : List (ℕ × ActorIdentity)) (votes : List ShutdownVote)
    → ArePending lo votes found
    → repeats held found votes ≡ 0
unfolding repeats repeated cast_vote
ArePending-repeats held lo [] votes p = refl
ArePending-repeats held lo ((i, ident) ∷ rest) votes (le, (v, at, nay), tl) =
    elim (Bool-cases (held i)) [
      | inl taken ↦ rw at (rw taken (omega (arith, ArePending-repeats held (i + 1) rest votes tl)))
      | inr free ↦ rw at (
          rw free (
            rw nay (
              omega (
                arith,
                ArePending-repeats held (i + 1) rest (set votes i (cast_ballot ident v))
                    (ArePending-set (i + 1) i votes (cast_ballot ident v) rest (omega arith) tl),
              ))))
    ]

-- What casting any list does to a graph with numbered ballots.
pub record CastAny (held : ℕ → Bool) (found : List (ℕ × ActorIdentity)) (g g' : GraphLiveliness)
    : Type 0 where
  pub only : OnlyVotes g g'
  pub numbered : IsNumbered 0 g'.votes
  pub total :
      (extra : ℕ)
      → g.vote_in_favor_total ≡ (favor_count g.votes + extra) % usize_mod
      → g'.vote_in_favor_total
        ≡ (favor_count g'.votes + (extra + repeats held found g.votes)) % usize_mod

pub cast_for_the_dead_any :
    (held : ℕ → Bool) (found : List (ℕ × ActorIdentity)) (g : GraphLiveliness)
    {g' : GraphLiveliness}
    → IsNumbered 0 g.votes
    → cast_for_the_dead held found g ≡ done g'
    → CastAny held found g g'
unfolding cast_for_the_dead repeats repeated cast_vote casting
cast_for_the_dead_any held [] g {g'} n h =
    subst (CastAny held [] g) {x = g} {y = g'} (cc h) (record {
      only = OnlyVotes-refl g;
      numbered = n;
      total = λ extra e. let z : extra + 0 ≡ extra = omega arith in unfold repeats in rw z e;
    })
cast_for_the_dead_any held ((i, ident) ∷ rest) g {g'} n h =
    elim (Option-cases (get_elem? g.votes i)) [
      | inl missing ↦ cc (rw (missing, cast_one_missing held i ident g) at h)
      | inr (v, at) ↦ elim (Bool-cases (held i)) [
        | inl taken ↦
            let c =
              cast_for_the_dead_any held rest g n
                (rw (at, cast_one_held held i ident v g taken) at h) in
            record {
              only = c.only;
              numbered = c.numbered;
              total = λ extra e.
                  let z : 0 + repeats held rest g.votes ≡ repeats held rest g.votes = omega arith in
                  rw at (rw taken (rw z (c.total extra e)));
            }
        | inr free ↦
            let id : v.id ≡ i = omega (arith, IsNumbered-id 0 g.votes i v at n) in
            let w = cast_ballot ident v in
            let c =
              cast_for_the_dead_any held rest (casting i ident v g)
                (IsNumbered-set 0 g.votes i v w at refl n)
                (rw (at, cast_one_free held i ident v g free id) at h) in
            record {
              only =
                  OnlyVotes-trans
                    (set-OnlyVotes g i (wrapping_add g.vote_in_favor_total 1) v w at (λ e. refl))
                    c.only;
              numbered = c.numbered;
              total = λ extra e.
                  let again = weight v.in_favor in
                  let after = repeats held rest (set g.votes i w) in
                  let one : wrapping_add g.vote_in_favor_total 1
                      ≡ (favor_count (set g.votes i w) + (extra + again)) % usize_mod =
                    omega (arith, favor_count-set g.votes i v w at, e) in
                  let z : extra + (again + after) ≡ extra + again + after = omega arith in
                  rw at (rw free (rw z (c.total (extra + again) (one))));
            }
      ]
    ]
