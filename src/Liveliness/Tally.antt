-- ===== src/Liveliness/Tally.antt =====
-- The tally of core/src/graph/liveliness.rs: `vote_in_favor_total` counts the ballots in favour.
use steady_state_stack.Common.{
  Bool, Bool-cases, List, Option, [], ap, arith, done, false, get_elem?, get_elem?-lt,
  get_elem?-set_ne, get_elem?-set_self, if_intro, inl, inr, length, length-set, none, not, refl,
  set, some, subst, suc, true, usize_mod, wrapping_add, zero, ℕ, ℕ_discrete, ◌%◌, ◌&&◌, ◌+◌, ◌<◌,
  ◌∙◌, ◌∷◌, ◌≡◌, ◌≤◌,
}
use steady_state_stack.Liveliness.{
  ActorIdentity, Eye, GraphLiveliness, GraphLivelinessState, Reply, ShutdownVote,
  apply_shutdown_vote, is_running, my_ballot, record_vote, running_in_state, stop_requested,
  vote_in_state,
}

abbrev pub weight : Bool → ℕ
weight true = 1
weight false = 0

-- How many ballots are in favour.
abbrev pub favor_count : List ShutdownVote → ℕ
favor_count [] = 0
favor_count (v ∷ vs) = weight v.in_favor + favor_count vs

-- Each ballot carries its own index.
abbrev pub IsNumbered : ℕ → List ShutdownVote → Type 0
IsNumbered i [] = Unit
IsNumbered i (v ∷ vs) = (v.id ≡ i) × IsNumbered (i + 1) vs

pub record IsTallied (g : GraphLiveliness) : Type 0 where
  pub total : g.vote_in_favor_total ≡ favor_count g.votes
  pub numbered : IsNumbered 0 g.votes
  pub small : length g.votes + 1 < usize_mod

-- The ballot at an index is in favour.
abbrev pub InFavor : List ShutdownVote → ℕ → Type 0
InFavor vs i = (v : ShutdownVote) × (get_elem? vs i ≡ some v) × (v.in_favor ≡ true)

-- A vote moves ballots and the total only, and takes no vote back.
pub record OnlyVotes (g g' : GraphLiveliness) : Type 0 where
  pub same_voters : g'.registered_voters ≡ g.registered_voters
  pub same_state : g'.state ≡ g.state
  pub same_count : g'.registered_voter_count ≡ g.registered_voter_count
  pub same_ballots : length g'.votes ≡ length g.votes
  pub keeps : (j : ℕ) → InFavor g.votes j → InFavor g'.votes j

pub OnlyVotes-refl : (g : GraphLiveliness) → OnlyVotes g g
OnlyVotes-refl g = record {
  same_voters = refl;
  same_state = refl;
  same_count = refl;
  same_ballots = refl;
  keeps = λ j f. f;
}

pub OnlyVotes-trans : {g h k : GraphLiveliness} → OnlyVotes g h → OnlyVotes h k → OnlyVotes g k
OnlyVotes-trans p q = record {
  same_voters = q.same_voters ∙ p.same_voters;
  same_state = q.same_state ∙ p.same_state;
  same_count = q.same_count ∙ p.same_count;
  same_ballots = q.same_ballots ∙ p.same_ballots;
  keeps = λ j f. q.keeps j (p.keeps j f);
}

pub favor_count-le-length : (vs : List ShutdownVote) → favor_count vs ≤ length vs
favor_count-le-length [] = omega arith
favor_count-le-length (v ∷ vs) = ground (arith, favor_count-le-length vs)

pub favor_count-set :
    (vs : List ShutdownVote) (i : ℕ) (v w : ShutdownVote)
    → get_elem? vs i ≡ some v
    → favor_count (set vs i w) + weight v.in_favor ≡ favor_count vs + weight w.in_favor
favor_count-set [] i v w h = cc
favor_count-set (x ∷ vs) zero v w h = ground arith
favor_count-set (x ∷ vs) (suc i) v w h = omega (arith, favor_count-set vs i v w h)

pub IsNumbered-set :
    (k : ℕ) (vs : List ShutdownVote) (i : ℕ) (v w : ShutdownVote)
    → get_elem? vs i ≡ some v
    → w.id ≡ v.id
    → IsNumbered k vs
    → IsNumbered k (set vs i w)
IsNumbered-set k [] i v w h e n = cc
IsNumbered-set k (x ∷ vs) zero v w h e n = (ground arith, n.1)
IsNumbered-set k (x ∷ vs) (suc i) v w h e n = (n.0, IsNumbered-set (k + 1) vs i v w h e n.1)

pub IsNumbered-id :
    (k : ℕ) (vs : List ShutdownVote) (i : ℕ) (v : ShutdownVote)
    → get_elem? vs i ≡ some v
    → IsNumbered k vs
    → v.id ≡ k + i
IsNumbered-id k [] i v h n = cc
IsNumbered-id k (x ∷ vs) zero v h n = ground arith
IsNumbered-id k (x ∷ vs) (suc i) v h n = omega (arith, IsNumbered-id (k + 1) vs i v h n.1)

-- A ballot that is not in favour leaves room for one more.
pub favor_count-lt :
    (vs : List ShutdownVote) (i : ℕ) (v : ShutdownVote)
    → get_elem? vs i ≡ some v
    → v.in_favor ≡ false
    → favor_count vs < length vs
favor_count-lt [] i v h f = cc
favor_count-lt (x ∷ vs) zero v h f = ground (arith, favor_count-le-length vs)
favor_count-lt (x ∷ vs) (suc i) v h f = ground (arith, favor_count-lt vs i v h f)

-- One ballot is replaced, and the total follows it.
pub set-IsTallied :
    (g : GraphLiveliness) (i n : ℕ) (v w : ShutdownVote)
    → get_elem? g.votes i ≡ some v
    → w.id ≡ v.id
    → n + weight v.in_favor ≡ g.vote_in_favor_total + weight w.in_favor
    → IsTallied g
    → IsTallied (record g { votes = set g.votes i w; vote_in_favor_total = n })
set-IsTallied g i n v w h e c t = record {
  total = omega (arith, favor_count-set g.votes i v w h, t.total);
  numbered = IsNumbered-set 0 g.votes i v w h e t.numbered;
  small = omega (arith, length-set g.votes i w, t.small);
}

-- A ballot is replaced by one that is in favour if the old one was.
InFavor-set :
    (vs : List ShutdownVote) (i j : ℕ) (v w : ShutdownVote)
    → get_elem? vs i ≡ some v
    → (v.in_favor ≡ true → w.in_favor ≡ true)
    → InFavor vs j
    → InFavor (set vs i w) j
InFavor-set vs i j v w at up (u, at', f) = elim (ℕ_discrete i j) [
  | yes e ↦ (
    w,
    rw (← e) (get_elem?-set_self vs i w (get_elem?-lt vs i v at)),
    up (ground (arith, ap (get_elem? vs) e)),
  )
  | no ne ↦ (u, get_elem?-set_ne vs i j w ne ∙ at', f)
]

pub set-OnlyVotes :
    (g : GraphLiveliness) (i n : ℕ) (v w : ShutdownVote)
    → get_elem? g.votes i ≡ some v
    → (v.in_favor ≡ true → w.in_favor ≡ true)
    → OnlyVotes g (record g { votes = set g.votes i w; vote_in_favor_total = n })
set-OnlyVotes g i n v w at up = record {
  same_voters = refl;
  same_state = refl;
  same_count = refl;
  same_ballots = length-set g.votes i w;
  keeps = λ j f. InFavor-set g.votes i j v w at up f;
}

-- No atomic addition wraps while a ballot is still against.
pub total_no_wrap :
    (g : GraphLiveliness) (i : ℕ) (v : ShutdownVote)
    → get_elem? g.votes i ≡ some v
    → v.in_favor ≡ false
    → IsTallied g
    → wrapping_add g.vote_in_favor_total 1 ≡ g.vote_in_favor_total + 1
total_no_wrap g i v h f t = omega (arith, favor_count-lt g.votes i v h f, t.total, t.small)

-- What a vote does to the graph.
pub record Kept (g g' : GraphLiveliness) : Type 0 where
  pub tallied : IsTallied g'
  pub only : OnlyVotes g g'

pub set-Kept :
    (g : GraphLiveliness) (i n : ℕ) (v w : ShutdownVote)
    → get_elem? g.votes i ≡ some v
    → w.id ≡ v.id
    → (v.in_favor ≡ true → w.in_favor ≡ true)
    → n + weight v.in_favor ≡ g.vote_in_favor_total + weight w.in_favor
    → IsTallied g
    → Kept g (record g { votes = set g.votes i w; vote_in_favor_total = n })
set-Kept g i n v w at e up c t = record {
  tallied = set-IsTallied g i n v w at e c t;
  only = set-OnlyVotes g i n v w at up;
}

-- What a vote does to the graph, whatever the total was: `extra` is what it counts too many.
pub record Voted (g g' : GraphLiveliness) : Type 0 where
  pub only : OnlyVotes g g'
  pub numbered : IsNumbered 0 g.votes → IsNumbered 0 g'.votes
  pub total :
      (extra : ℕ)
      → g.vote_in_favor_total ≡ (favor_count g.votes + extra) % usize_mod
      → g'.vote_in_favor_total ≡ (favor_count g'.votes + extra) % usize_mod

Voted-refl : (g : GraphLiveliness) → Voted g g
Voted-refl g = record { only = OnlyVotes-refl g; numbered = λ n. n; total = λ extra e. e }

record_vote-Voted :
    (ident : ActorIdentity) (in_favor : Bool) (last : Option Eye) (v : ShutdownVote)
    (g : GraphLiveliness)
    → get_elem? g.votes ident.id ≡ some v
    → Voted g (record_vote ident in_favor last v g).graph
unfolding record_vote
record_vote-Voted ident in_favor last v g h =
    if_intro (λ (r : Reply). Voted g r.graph) (in_favor && not v.in_favor) _ _
      (λ c.
        let w : ShutdownVote = record v {
          signature = some ident;
          veto_backtrace = none;
          in_favor = in_favor;
        } in
        let yea : in_favor ≡ true = ground arith in
        let nay : v.in_favor ≡ false = ground arith in
        record {
          only =
              set-OnlyVotes g ident.id (wrapping_add g.vote_in_favor_total 1) v w h
                (λ e. ground arith);
          numbered = IsNumbered-set 0 g.votes ident.id v w h refl;
          total = λ extra e. ground (arith, favor_count-set g.votes ident.id v w h, e, yea, nay);
        })
      (λ c.
        let w : ShutdownVote = record v { signature = some ident; veto_reason = last } in
        record {
          only = set-OnlyVotes g ident.id g.vote_in_favor_total v w h (λ e. e);
          numbered = IsNumbered-set 0 g.votes ident.id v w h refl;
          total = λ extra e.
              let same : favor_count (set g.votes ident.id w) ≡ favor_count g.votes =
                omega (arith, favor_count-set g.votes ident.id v w h) in
              rw same e;
        })

my_ballot-Voted :
    (held : ℕ → Bool) (ident : ActorIdentity) (in_favor : Bool) (last : Option Eye)
    (ballot : Option ShutdownVote) (g : GraphLiveliness) {r : Reply}
    → get_elem? g.votes ident.id ≡ ballot
    → my_ballot held ident in_favor last ballot g ≡ done r
    → Voted g r.graph
unfolding my_ballot
my_ballot-Voted held ident in_favor last none g e h = cc
my_ballot-Voted held ident in_favor last (some v) g {r} e h = elim (Bool-cases (held ident.id)) [
  | inl taken ↦ subst (Voted g) (ground arith) (Voted-refl g)
  | inr free ↦
      subst (λ (x : Reply). Voted g x.graph) {x = record_vote ident in_favor last v g} {y = r}
        (ground arith) (record_vote-Voted ident in_favor last v g e)
]

vote_in_state-Voted :
    (s : GraphLivelinessState) (held : ℕ → Bool) (ident : ActorIdentity) (in_favor : Bool)
    (last : Option Eye) (g : GraphLiveliness) {r : Reply}
    → vote_in_state s held ident in_favor last g ≡ done r
    → Voted g r.graph
unfolding vote_in_state
vote_in_state-Voted stop_requested held ident in_favor last g h =
    my_ballot-Voted held ident in_favor last (get_elem? g.votes ident.id) g refl h
vote_in_state-Voted _ held ident in_favor last g h = subst (Voted g) (ground arith) (Voted-refl g)

pub apply_shutdown_vote-Voted :
    (held : ℕ → Bool) (ident : ActorIdentity) (in_favor : Bool) (last : Option Eye)
    (g : GraphLiveliness) {r : Reply}
    → apply_shutdown_vote held ident in_favor last g ≡ done r
    → Voted g r.graph
unfolding apply_shutdown_vote
apply_shutdown_vote-Voted held ident in_favor last g =
    vote_in_state-Voted g.state held ident in_favor last g

running_in_state-Voted :
    (s : GraphLivelinessState) (held : ℕ → Bool) (ident : ActorIdentity)
    (accept : Option Eye → Bool × Option Eye) (last : Option Eye) (g : GraphLiveliness) {r : Reply}
    → running_in_state s held ident accept last g ≡ done r
    → Voted g r.graph
unfolding running_in_state
running_in_state-Voted stop_requested held ident accept last g h =
    apply_shutdown_vote-Voted held ident (accept last).0 (accept last).1 g h
running_in_state-Voted _ held ident accept last g h = subst (Voted g) (ground arith) (Voted-refl g)

pub is_running-Voted :
    (held : ℕ → Bool) (ident : ActorIdentity) (accept : Option Eye → Bool × Option Eye)
    (last : Option Eye) (g : GraphLiveliness) {r : Reply}
    → is_running held ident accept last g ≡ done r
    → Voted g r.graph
unfolding is_running
is_running-Voted held ident accept last g = running_in_state-Voted g.state held ident accept last g

-- Whatever the state, the locks and the actor's answer: asking whether to go on keeps the total equal
-- to the number of ballots in favour, moves nothing but ballots and the total, and takes no vote in
-- favour back.
pub is_running-Kept :
    (held : ℕ → Bool) (ident : ActorIdentity) (accept : Option Eye → Bool × Option Eye)
    (last : Option Eye) (g : GraphLiveliness) {r : Reply}
    → is_running held ident accept last g ≡ done r
    → IsTallied g
    → Kept g r.graph
is_running-Kept held ident accept last g {r} h t =
    let v = is_running-Voted held ident accept last g h in
    let same = v.only.same_ballots in
    let exact = v.total 0 (omega (arith, t.total, t.small, favor_count-le-length g.votes)) in
    record {
      tallied = record {
        total = omega (arith, exact, same, t.small, favor_count-le-length r.graph.votes);
        numbered = v.numbered t.numbered;
        small = omega (arith, same, t.small);
      };
      only = v.only;
    }
