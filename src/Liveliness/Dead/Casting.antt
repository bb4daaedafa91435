-- ===== src/Liveliness/Dead/Casting.antt =====
-- The second phase of `vote_for_the_dead` of core/src/graph/liveliness.rs: casting the votes.
use steady_state_stack.Common.{
  Bool, Bool-cases, List, Outcome, [], arith, done, false, get_elem?, get_elem?-lt,
  get_elem?-set_ne, get_elem?-set_self, inl, inr, refl, set, some, true, wrapping_add, ℕ, ◌+◌, ◌<◌,
  ◌∙◌, ◌∷◌, ◌≡◌, ◌≤◌, ◌⊎◌,
}
use steady_state_stack.Liveliness.{
  ActorIdentity, GraphLiveliness, ShutdownVote, cast_for_the_dead, cast_one,
}
use steady_state_stack.Liveliness.Tally.{
  InFavor, IsNumbered-id, IsTallied, Kept, OnlyVotes, OnlyVotes-refl, OnlyVotes-trans, set-Kept,
  total_no_wrap,
}

abbrev pub Listed : ℕ → List (ℕ × ActorIdentity) → Type 0
Listed j [] = ⊥
Listed j ((i, ident) ∷ rest) = (i ≡ j) ⊎ Listed j rest

-- The found ballots lie at rising indices from `lo` on, and none is in favour yet.
abbrev pub ArePending : ℕ → List ShutdownVote → List (ℕ × ActorIdentity) → Type 0
ArePending lo vs [] = Unit
ArePending lo vs ((i, ident) ∷ rest) =
    (lo ≤ i)
    × ((v : ShutdownVote) × (get_elem? vs i ≡ some v) × (v.in_favor ≡ false))
    × ArePending (i + 1) vs rest

pub ArePending-set :
    (lo i : ℕ) (vs : List ShutdownVote) (w : ShutdownVote) (found : List (ℕ × ActorIdentity))
    → i < lo
    → ArePending lo vs found
    → ArePending lo (set vs i w) found
ArePending-set lo i vs w [] h p = tt
ArePending-set lo i vs w ((j, ident) ∷ rest) h (le, (v, at, nay), tl) = (
  le,
  (v, get_elem?-set_ne vs i j w (omega arith) ∙ at, nay),
  ArePending-set (j + 1) i vs w rest (omega arith) tl,
)

pub ArePending-weaken :
    (lo lo' : ℕ) (vs : List ShutdownVote) (found : List (ℕ × ActorIdentity))
    → lo ≤ lo'
    → ArePending lo' vs found
    → ArePending lo vs found
ArePending-weaken lo lo' vs [] h p = tt
ArePending-weaken lo lo' vs (x ∷ rest) h p = (omega arith, p.1, p.2)

-- The ballot that `i` names, cast for the dead.
abbrev pub cast_ballot : ActorIdentity → ShutdownVote → ShutdownVote
cast_ballot ident v = record v { signature = some ident; in_favor = true }

-- What the second phase comes to.
pub record Cast (held : ℕ → Bool) (found : List (ℕ × ActorIdentity)) (g : GraphLiveliness)
    (o : Outcome GraphLiveliness) : Type 0 where
  pub after : GraphLiveliness
  pub returns : o ≡ done after
  pub tallied : IsTallied after
  pub only : OnlyVotes g after
  pub casts : (j : ℕ) → Listed j found → held j ≡ false → InFavor after.votes j

-- A ballot that the found list names is cast, if nobody holds it.
unfoldable pub casting : ℕ → ActorIdentity → ShutdownVote → GraphLiveliness → GraphLiveliness
casting i ident v g = record g {
  votes = set g.votes i (cast_ballot ident v);
  vote_in_favor_total = wrapping_add g.vote_in_favor_total 1;
}

pub cast_one_held :
    (held : ℕ → Bool) (i : ℕ) (ident : ActorIdentity) (v : ShutdownVote) (g : GraphLiveliness)
    → held i ≡ true
    → cast_one held i ident (some v) g ≡ done g
unfolding cast_one
cast_one_held held i ident v g h = ground arith

pub cast_one_free :
    (held : ℕ → Bool) (i : ℕ) (ident : ActorIdentity) (v : ShutdownVote) (g : GraphLiveliness)
    → held i ≡ false
    → v.id ≡ i
    → cast_one held i ident (some v) g ≡ done (casting i ident v g)
unfolding cast_one casting
cast_one_free held i ident v g h e = ground arith

pub casting-Kept :
    (i : ℕ) (ident : ActorIdentity) (v : ShutdownVote) (g : GraphLiveliness)
    → get_elem? g.votes i ≡ some v
    → v.in_favor ≡ false
    → IsTallied g
    → Kept g (casting i ident v g)
unfolding casting
casting-Kept i ident v g at nay t =
    set-Kept g i (wrapping_add g.vote_in_favor_total 1) v (cast_ballot ident v) at refl (λ e. refl)
      (ground (arith, total_no_wrap g i v at nay t)) t

pub cast_for_the_dead_lem :
    (held : ℕ → Bool) (lo : ℕ) (found : List (ℕ × ActorIdentity)) (g : GraphLiveliness)
    → ArePending lo g.votes found
    → IsTallied g
    → Cast held found g (cast_for_the_dead held found g)
unfolding cast_for_the_dead
cast_for_the_dead_lem held lo [] g p t = record {
  after = g;
  returns = refl;
  tallied = t;
  only = OnlyVotes-refl g;
  casts = λ j l h. absurd l;
}
cast_for_the_dead_lem held lo ((i, ident) ∷ rest) g (le, (v, at, nay), tl) t =
    elim (Bool-cases (held i)) [
      | inl taken ↦ skip taken (cast_for_the_dead_lem held (i + 1) rest g tl t)
      | inr free ↦ cast free (
          cast_for_the_dead_lem held (i + 1) rest (casting i ident v g)
            (unfold casting in
              ArePending-set (i + 1) i g.votes (cast_ballot ident v) rest (omega arith) tl)
            (casting-Kept i ident v g at nay t).tallied)
    ]
  where
    skip :
        held i ≡ true
        → Cast held rest g (cast_for_the_dead held rest g)
        → Cast held ((i, ident) ∷ rest) g (cast_for_the_dead held ((i, ident) ∷ rest) g)
    skip taken c = record {
      after = c.after;
      returns = rw (at, cast_one_held held i ident v g taken) c.returns;
      tallied = c.tallied;
      only = c.only;
      casts = λ j l h. elim l [ inl e ↦ cc | inr r ↦ c.casts j r h ];
    }

    cast :
        held i ≡ false
        → Cast held rest (casting i ident v g) (cast_for_the_dead held rest (casting i ident v g))
        → Cast held ((i, ident) ∷ rest) g (cast_for_the_dead held ((i, ident) ∷ rest) g)
    cast free c = record {
      after = c.after;
      returns =
          rw
            (
              at,
              cast_one_free held i ident v g free
                  (omega (arith, IsNumbered-id 0 g.votes i v at t.numbered)),
            )
            c.returns;
      tallied = c.tallied;
      only = OnlyVotes-trans (casting-Kept i ident v g at nay t).only c.only;
      casts = λ j l h. elim l [
        | inl e ↦ c.only.keeps j (
            unfold casting in
            (
              cast_ballot ident v,
              rw (← e) (
                  get_elem?-set_self g.votes i (cast_ballot ident v) (get_elem?-lt g.votes i v at)),
              refl,
            ))
        | inr r ↦ c.casts j r h
      ];
    }
