-- ===== src/Liveliness/Registration.antt =====
-- Registration and clean exit of voters (`register_voter`, `remove_voter` of
-- core/src/graph/liveliness.rs), and the invariant of the whole liveliness.
use steady_state_stack.Common.{
  Bool-cases, List, Option, [], ap, arith, done, get_elem?, if◌then◌else◌, inl, inr, length,
  length-append, length-replicate, none, refl, replicate, set, some, subst, suc, sym, usize_mod,
  zero, ℕ, ◌%◌, ◌++◌, ◌+◌, ◌-◌, ◌<◌, ◌∙◌, ◌∷◌, ◌≡◌, ◌≤◌, ◌⊎◌,
}
use steady_state_stack.Liveliness.{
  ActorIdentity, GraphLiveliness, VoterStatus, dead, grow, is_not_registered, is_registered_as,
  not_registered, register_voter, registered, remove_at, remove_voter, same_identity,
}
use steady_state_stack.Liveliness.Tally.{IsNumbered, favor_count}

-- The voters that have registered, dead ones included.
abbrev pub joined : List VoterStatus → ℕ
joined [] = 0
joined (not_registered ∷ vs) = joined vs
joined (registered _ ∷ vs) = 1 + joined vs
joined (dead _ ∷ vs) = 1 + joined vs

-- `extra` is what the total counts too many.
pub record IsSound (extra : ℕ) (g : GraphLiveliness) : Type 0 where
  pub total : g.vote_in_favor_total ≡ (favor_count g.votes + extra) % usize_mod
  pub numbered : IsNumbered 0 g.votes
  pub counted : g.registered_voter_count ≡ joined g.registered_voters % usize_mod

joined-le-length : (vs : List VoterStatus) → joined vs ≤ length vs
joined-le-length [] = omega arith
joined-le-length (not_registered ∷ vs) = omega (arith, joined-le-length vs)
joined-le-length (registered _ ∷ vs) = omega (arith, joined-le-length vs)
joined-le-length (dead _ ∷ vs) = omega (arith, joined-le-length vs)

joined-append : (vs ws : List VoterStatus) → joined (vs ++ ws) ≡ joined vs + joined ws
joined-append [] ws = omega arith
joined-append (not_registered ∷ vs) ws = joined-append vs ws
joined-append (registered _ ∷ vs) ws = omega (arith, joined-append vs ws)
joined-append (dead _ ∷ vs) ws = omega (arith, joined-append vs ws)

joined-replicate : (n : ℕ) → joined (replicate n not_registered) ≡ 0
joined-replicate zero = refl
joined-replicate (suc n) = joined-replicate n

joined-grow : (id : ℕ) (vs : List VoterStatus) → joined (grow id vs) ≡ joined vs
unfolding grow
joined-grow id vs = ground (
  arith,
  joined-append vs (replicate (id + 1 - length vs) not_registered),
  joined-replicate (id + 1 - length vs),
)

length-grow :
    (id : ℕ) (vs : List VoterStatus)
    → (id < length (grow id vs))
      × ((length (grow id vs) ≡ length vs) ⊎ (length (grow id vs) ≡ id + 1))
      × (id < length vs → length (grow id vs) ≡ length vs)
unfolding grow
length-grow id vs = ground (
  arith,
  length-append vs (replicate (id + 1 - length vs) not_registered),
  length-replicate (id + 1 - length vs) not_registered,
)

-- Registering at an index in range adds one to the count exactly if nobody stood there.
joined-set_registered :
    (vs : List VoterStatus) (i : ℕ) (ident : ActorIdentity)
    → i < length vs
    → joined (set vs i (registered ident))
      ≡ joined vs + (if is_not_registered (get_elem? vs i) then 1 else 0)
unfolding is_not_registered
joined-set_registered [] i ident h = elim h [ ]
joined-set_registered (not_registered ∷ vs) zero ident h = omega arith
joined-set_registered (registered _ ∷ vs) zero ident h = omega arith
joined-set_registered (dead _ ∷ vs) zero ident h = omega arith
joined-set_registered (not_registered ∷ vs) (suc i) ident h =
    joined-set_registered vs i ident (omega arith)
joined-set_registered (registered _ ∷ vs) (suc i) ident h =
    omega (arith, joined-set_registered vs i ident (omega arith))
joined-set_registered (dead _ ∷ vs) (suc i) ident h =
    omega (arith, joined-set_registered vs i ident (omega arith))

joined-set_dead :
    (vs : List VoterStatus) (i : ℕ) (ident other : ActorIdentity)
    → get_elem? vs i ≡ some (registered other)
    → joined (set vs i (dead ident)) ≡ joined vs
joined-set_dead [] i ident other h = cc
joined-set_dead (not_registered ∷ vs) zero ident other h = cc
joined-set_dead (registered _ ∷ vs) zero ident other h = refl
joined-set_dead (dead _ ∷ vs) zero ident other h = cc
joined-set_dead (not_registered ∷ vs) (suc i) ident other h = joined-set_dead vs i ident other h
joined-set_dead (registered _ ∷ vs) (suc i) ident other h =
    omega (arith, joined-set_dead vs i ident other h)
joined-set_dead (dead _ ∷ vs) (suc i) ident other h =
    omega (arith, joined-set_dead vs i ident other h)

-- Registering keeps the invariant: the counter follows the voters that have joined.
pub register_voter-IsSound :
    {extra : ℕ} (ident : ActorIdentity) (g : GraphLiveliness)
    → IsSound extra g
    → IsSound extra (register_voter ident g)
unfolding register_voter
register_voter-IsSound ident g s =
    let l = length-grow ident.id g.registered_voters in
    let voters = grow ident.id g.registered_voters in
    record {
      total = s.total;
      numbered = s.numbered;
      counted = ground (
        arith,
        joined-set_registered voters ident.id ident l.0,
        joined-grow ident.id g.registered_voters,
        s.counted,
      );
    }

remove_at-IsSound :
    {extra : ℕ} (ident : ActorIdentity) (status : Option VoterStatus) (g : GraphLiveliness)
    {g' : GraphLiveliness}
    → get_elem? g.registered_voters ident.id ≡ status
    → remove_at ident status g ≡ done g'
    → IsSound extra g
    → IsSound extra g'
unfolding remove_at is_registered_as
remove_at-IsSound {extra} ident none g at h s = cc
remove_at-IsSound {extra} ident (some not_registered) g at h s = subst (IsSound extra) (cc) s
remove_at-IsSound {extra} ident (some (dead _)) g at h s = subst (IsSound extra) (cc) s
remove_at-IsSound {extra} ident (some (registered other)) g {g'} at h s =
    elim (Bool-cases (same_identity other ident)) [
      | inr differs ↦ subst (IsSound extra) (ground arith) s
      | inl same ↦
          subst (IsSound extra)
            {x = record g { registered_voters = set g.registered_voters ident.id (dead ident) }}
            {y = g'} (ground arith)
            (record {
              total = s.total;
              numbered = s.numbered;
              counted =
                  s.counted
                  ∙ ap (λ n. n % usize_mod)
                      (sym (joined-set_dead g.registered_voters ident.id ident other at));
            })
    ]

-- A clean exit keeps the invariant: the dead stay counted.
pub remove_voter-IsSound :
    {extra : ℕ} (ident : ActorIdentity) (g : GraphLiveliness) {g' : GraphLiveliness}
    → remove_voter ident g ≡ done g'
    → IsSound extra g
    → IsSound extra g'
unfolding remove_voter
remove_voter-IsSound ident g h s =
    remove_at-IsSound ident (get_elem? g.registered_voters ident.id) g refl h s
