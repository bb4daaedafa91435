-- ===== src/Liveliness/Moves.antt =====
-- The life of a graph as moves of its liveliness: what holds after every sequence of them, whichever
-- threads make them. Each is what some function of core/src/graph/liveliness.rs, or the watch of
-- core/src/graph/shutdown.rs, does under one acquisition of the lock.
use steady_state_stack.Common.{
  >>=-eq-done, Bool, List, Option, [], ap, arith, done, if_intro, refl, sym, usize_mod, ℕ, ◌%◌, ◌+◌,
  ◌∙◌, ◌∷◌, ◌≡◌, ◌⊎◌,
}
use steady_state_stack.Liveliness.{
  ActorIdentity, Eye, GraphLiveliness, GraphLivelinessState, Reply, VoterStatus, building,
  building_to_running, cast_for_the_dead, fire_one_shots, fresh_ballots, is_running, new,
  open_ballots, register_voter, remove_voter, same_state, stopped, stopped_uncleanly, the_dead,
  vote_for_the_dead,
}
use steady_state_stack.Liveliness.Tally.{IsNumbered, favor_count, is_running-Voted}
use steady_state_stack.Liveliness.Dead.Again.{cast_for_the_dead_any, repeats}
use steady_state_stack.Liveliness.Registration.{
  IsSound, joined, register_voter-IsSound, remove_voter-IsSound,
}

-- What a thread has read under an earlier lock is any value here, since others may have come in
-- between: the voters that the ballots of a request are made from, the dead that are voted for, and
-- the answer of `check_is_stopped`. A vote moves a ballot and the total in one step.
pub data Move (g g' : GraphLiveliness) : Type 0 where
  register : (ident : ActorIdentity) → g' ≡ register_voter ident g → Move g g'
  remove : (ident : ActorIdentity) → remove_voter ident g ≡ done g' → Move g g'
  start : g' ≡ building_to_running g → Move g g'
  ask_to_stop :
      (voters : List VoterStatus) → g' ≡ open_ballots (fresh_ballots 0 voters) g → Move g g'
  bury :
      (held : ℕ → Bool) (found : List (ℕ × ActorIdentity))
      → cast_for_the_dead held found g ≡ done g'
      → Move g g'
  signal : g' ≡ (fire_one_shots g).0 → Move g g'
  ask :
      (held : ℕ → Bool) (ident : ActorIdentity) (accept : Option Eye → Bool × Option Eye)
      (last : Option Eye) (r : Reply)
      → is_running held ident accept last g ≡ done r
      → g' ≡ r.graph
      → Move g g'
  settle :
      (s : GraphLivelinessState)
      → (s ≡ stopped) ⊎ (s ≡ stopped_uncleanly)
      → g' ≡ record g { state = s }
      → Move g g'

pub data Reach (g : GraphLiveliness) : GraphLiveliness → Type 0 where
  here : Reach g g
  next : {h k : GraphLiveliness} → Reach g h → Move h k → Reach g k

pub Reach-trans : {g h k : GraphLiveliness} → Reach g h → Reach h k → Reach g k
Reach-trans p here = p
Reach-trans p (next r m) = next (Reach-trans p r) m

-- What the total counts too many after a move, if it was `extra` before: new ballots clear it, and a
-- ballot that is cast for the dead while it is in favour adds to it.
abbrev pub overcount_after : {g g' : GraphLiveliness} → ℕ → Move g g' → ℕ
overcount_after extra (register ident e) = extra
overcount_after extra (remove ident e) = extra
overcount_after extra (start e) = extra
overcount_after extra (ask_to_stop voters e) = 0
overcount_after {g} extra (bury held found e) = extra + repeats held found g.votes
overcount_after extra (signal e) = extra
overcount_after extra (ask held ident accept last r e e') = extra
overcount_after extra (settle s which e) = extra

abbrev pub overcount : {g g' : GraphLiveliness} → ℕ → Reach g g' → ℕ
overcount extra here = extra
overcount extra (next r m) = overcount_after (overcount extra r) m

start-IsSound :
    {extra : ℕ} (g : GraphLiveliness) → IsSound extra g → IsSound extra (building_to_running g)
unfolding building_to_running
start-IsSound {extra} g s =
    if_intro (IsSound extra) (same_state g.state building) _ _
      (λ c. record { total = s.total; numbered = s.numbered; counted = s.counted }) (λ c. s)

signal-IsSound :
    {extra : ℕ} (g : GraphLiveliness) → IsSound extra g → IsSound extra (fire_one_shots g).0
unfolding fire_one_shots
signal-IsSound g s = record { total = s.total; numbered = s.numbered; counted = s.counted }

pub favor_count-fresh_ballots :
    (i : ℕ) (vs : List VoterStatus) → favor_count (fresh_ballots i vs) ≡ 0
unfolding fresh_ballots
favor_count-fresh_ballots i [] = refl
favor_count-fresh_ballots i (v ∷ vs) = omega (arith, favor_count-fresh_ballots (i + 1) vs)

pub IsNumbered-fresh_ballots : (i : ℕ) (vs : List VoterStatus) → IsNumbered i (fresh_ballots i vs)
unfolding fresh_ballots
IsNumbered-fresh_ballots i [] = tt
IsNumbered-fresh_ballots i (v ∷ vs) = (refl, IsNumbered-fresh_ballots (i + 1) vs)

open_ballots-IsSound :
    {extra : ℕ} (voters : List VoterStatus) (g : GraphLiveliness)
    → IsSound extra g
    → IsSound 0 (open_ballots (fresh_ballots 0 voters) g)
unfolding open_ballots
open_ballots-IsSound voters g s = record {
  total = omega (arith, favor_count-fresh_ballots 0 voters);
  numbered = IsNumbered-fresh_ballots 0 voters;
  counted = s.counted;
}

ask-IsSound :
    {extra : ℕ} (held : ℕ → Bool) (ident : ActorIdentity) (accept : Option Eye → Bool × Option Eye)
    (last : Option Eye) (g : GraphLiveliness) {r : Reply}
    → is_running held ident accept last g ≡ done r
    → IsSound extra g
    → IsSound extra r.graph
ask-IsSound {extra} held ident accept last g e s =
    let v = is_running-Voted held ident accept last g e in
    record {
      total = v.total extra s.total;
      numbered = v.numbered s.numbered;
      counted =
          v.only.same_count ∙ s.counted ∙ ap (λ vs. joined vs % usize_mod) (sym v.only.same_voters);
    }

bury-IsSound :
    {extra : ℕ} (held : ℕ → Bool) (found : List (ℕ × ActorIdentity)) (g : GraphLiveliness)
    {g' : GraphLiveliness}
    → cast_for_the_dead held found g ≡ done g'
    → IsSound extra g
    → IsSound (extra + repeats held found g.votes) g'
bury-IsSound {extra} held found g e s =
    let c = cast_for_the_dead_any held found g s.numbered e in
    record {
      total = c.total extra s.total;
      numbered = c.numbered;
      counted =
          c.only.same_count ∙ s.counted ∙ ap (λ vs. joined vs % usize_mod) (sym c.only.same_voters);
    }

-- Every move keeps the invariant.
pub Move-IsSound :
    {g g' : GraphLiveliness} (extra : ℕ) (m : Move g g')
    → IsSound extra g
    → IsSound (overcount_after extra m) g'
Move-IsSound {g} extra (register ident e) s = rw e (register_voter-IsSound ident g s)
Move-IsSound {g} extra (remove ident e) s = remove_voter-IsSound ident g e s
Move-IsSound {g} extra (start e) s = rw e (start-IsSound g s)
Move-IsSound {g} extra (ask_to_stop voters e) s = rw e (open_ballots-IsSound voters g s)
Move-IsSound {g} extra (bury held found e) s = bury-IsSound held found g e s
Move-IsSound {g} extra (signal e) s = rw e (signal-IsSound g s)
Move-IsSound {g} extra (ask held ident accept last r e e') s =
    rw e' (ask-IsSound held ident accept last g e s)
Move-IsSound {g} extra (settle st which e) s =
    rw e (record { total = s.total; numbered = s.numbered; counted = s.counted })

-- After any sequence of moves of any threads, from a graph that satisfies the invariant (a new one does,
-- with nothing counted too many), the total counts, in 64 bits, the ballots in favour and once more each
-- ballot in favour that was cast again for the dead since the ballots were last made; each ballot
-- carries its own number; and the counter counts, in 64 bits, the voters that have joined.
pub Reach-IsSound :
    {g g' : GraphLiveliness} (extra : ℕ) (r : Reach g g')
    → IsSound extra g
    → IsSound (overcount extra r) g'
Reach-IsSound extra here s = s
Reach-IsSound extra (next r m) s = Move-IsSound (overcount extra r) m (Reach-IsSound extra r s)

pub new-IsSound :
    (shots : List ℕ) (n : ℕ) (catalog : List ActorIdentity) → IsSound 0 (new shots n catalog)
unfolding new
new-IsSound shots n catalog = record { total = refl; numbered = tt; counted = refl }

-- The other threads move the graph.
abbrev pub IsOthers : (GraphLiveliness → GraphLiveliness) → Type 0
IsOthers others = (g : GraphLiveliness) → Reach g (others g)

-- Voting for the dead, with others in between, is moves.
pub vote_for_the_dead-Reach :
    (held : ℕ → Bool) (between : GraphLiveliness → GraphLiveliness) (held' : ℕ → Bool)
    (g : GraphLiveliness) {g' : GraphLiveliness}
    → IsOthers between
    → vote_for_the_dead held between held' g ≡ done g'
    → Reach g g'
unfolding vote_for_the_dead
vote_for_the_dead-Reach held between held' g others h =
    let (found, e, h') = >>=-eq-done (the_dead held g) _ h in next (others g) (bury held' found h')
