-- ===== src/Liveliness/Dead/Finding.antt =====
-- The first phase of `vote_for_the_dead` of core/src/graph/liveliness.rs: finding the dead.
use steady_state_stack.Common.{
  >>=-eq-done, Bool, Bool-cases, List, Option, Option-cases, Outcome, [], arith, done, false,
  get_elem?, get_elem?-none, inl, inr, length, none, refl, some, subst, suc, zero, ℕ, ◌++◌, ◌+◌,
  ◌<◌, ◌||◌, ◌∷◌, ◌≡◌, ◌≤◌, ◌⊎◌,
}
use steady_state_stack.Liveliness.{
  ActorIdentity, ShutdownVote, VoterStatus, collect_dead, dead, dead_entry, not_registered,
  registered,
}
use steady_state_stack.Liveliness.Tally.{InFavor}
use steady_state_stack.Liveliness.Dead.Casting.{ArePending, ArePending-weaken, Listed}

-- A dead voter's ballot that nobody holds is listed, or in favour already.
abbrev pub IsCovered : (ℕ → Bool) → List ShutdownVote → ℕ → List (ℕ × ActorIdentity) → Type 0
IsCovered held vs i found = held i ≡ false → InFavor vs i ⊎ Listed i found

pub Listed-append :
    (j : ℕ) (xs ys : List (ℕ × ActorIdentity)) → Listed j xs ⊎ Listed j ys → Listed j (xs ++ ys)
Listed-append j [] ys (inl a) = absurd a
Listed-append j [] ys (inr b) = b
Listed-append j (x ∷ xs) ys (inl (inl e)) = inl e
Listed-append j (x ∷ xs) ys (inl (inr a)) = inr (Listed-append j xs ys (inl a))
Listed-append j (x ∷ xs) ys (inr b) = inr (Listed-append j xs ys (inr b))

-- What the first phase comes to, from index `i` on.
pub record Collect (held : ℕ → Bool) (vs : List ShutdownVote) (i : ℕ) (voters : List VoterStatus)
    (o : Outcome (List (ℕ × ActorIdentity))) : Type 0 where
  pub found : List (ℕ × ActorIdentity)
  pub returns : o ≡ done found
  pub pending : ArePending i vs found
  pub covers :
      (j k : ℕ) (ident : ActorIdentity)
      → get_elem? voters j ≡ some (dead ident)
      → k ≡ i + j
      → IsCovered held vs k found

-- The same for one voter.
pub record Entry (held : ℕ → Bool) (vs : List ShutdownVote) (i : ℕ) (status : VoterStatus)
    (o : Outcome (List (ℕ × ActorIdentity))) : Type 0 where
  pub part : List (ℕ × ActorIdentity)
  pub returns : o ≡ done part
  pub fits :
      (rest : List (ℕ × ActorIdentity))
      → ArePending (i + 1) vs rest
      → ArePending i vs (part ++ rest)
  pub covers : (ident : ActorIdentity) → status ≡ dead ident → IsCovered held vs i part

pub dead_entry_lem :
    (held : ℕ → Bool) (vs : List ShutdownVote) (i : ℕ) (status : VoterStatus)
    → i < length vs
    → Entry held vs i status (dead_entry held i status (get_elem? vs i))
unfolding dead_entry
dead_entry_lem held vs i (dead ident) h = elim (Option-cases (get_elem? vs i)) [
  | inl e ↦ absurd (omega (arith, get_elem?-none vs i e))
  | inr (v, e) ↦ elim (Bool-cases (held i)) [
    | inl taken ↦ record {
      part = [];
      returns = rw (e, taken);
      fits = λ rest p. ArePending-weaken i (i + 1) vs rest (omega arith) p;
      covers = λ other same free. cc;
    }
    | inr free ↦ elim (Bool-cases v.in_favor) [
      | inl yea ↦ record {
        part = [];
        returns = ground arith;
        fits = λ rest p. ArePending-weaken i (i + 1) vs rest (omega arith) p;
        covers = λ other same free'. inl (v, e, yea);
      }
      | inr nay ↦ record {
        part = (i, ident) ∷ [];
        returns = ground arith;
        fits = λ rest p. (omega arith, (v, e, nay), p);
        covers = λ other same free'. inr (inl refl);
      }
    ]
  ]
]
dead_entry_lem held vs i not_registered h = record {
  part = [];
  returns = refl;
  fits = λ rest p. ArePending-weaken i (i + 1) vs rest (omega arith) p;
  covers = λ ident same free. cc;
}
dead_entry_lem held vs i (registered other) h = record {
  part = [];
  returns = refl;
  fits = λ rest p. ArePending-weaken i (i + 1) vs rest (omega arith) p;
  covers = λ ident same free. cc;
}

pub covers_join :
    (held : ℕ → Bool) (vs : List ShutdownVote) (i : ℕ) (status : VoterStatus)
    (voters : List VoterStatus) (part found : List (ℕ × ActorIdentity))
    → ((ident : ActorIdentity) → status ≡ dead ident → IsCovered held vs i part)
    → ((j k : ℕ) (ident : ActorIdentity)
        → get_elem? voters j ≡ some (dead ident)
        → k ≡ i + 1 + j
        → IsCovered held vs k found)
    → (j k : ℕ) (ident : ActorIdentity) → get_elem? (status ∷ voters) j ≡ some (dead ident)
    → k ≡ i + j
    → IsCovered held vs k (part ++ found)
covers_join held vs i status voters part found first later zero k ident at e free =
    let here : i ≡ k = omega arith in
    elim (first ident (cc) (rw here free)) [
      | inl f ↦ inl (subst (InFavor vs) here f)
      | inr l ↦
          inr (subst (λ x. Listed x (part ++ found)) here (Listed-append i part found (inl l)))
    ]
covers_join held vs i status voters part found first later (suc j) k ident at e free =
    elim (later j k ident at (omega arith) free) [
      | inl f ↦ inl f
      | inr l ↦ inr (Listed-append k part found (inr l))
    ]

pub collect_dead_lem :
    (held : ℕ → Bool) (vs : List ShutdownVote) (i : ℕ) (voters : List VoterStatus)
    → i + length voters ≤ length vs
    → Collect held vs i voters (collect_dead held vs i voters)
unfolding collect_dead
collect_dead_lem held vs i [] h = record {
  found = [];
  returns = refl;
  pending = tt;
  covers = λ j k ident at e. cc;
}
collect_dead_lem held vs i (status ∷ voters) h =
    join (dead_entry_lem held vs i status (omega arith))
      (collect_dead_lem held vs (i + 1) voters (omega arith))
  where
    join :
        Entry held vs i status (dead_entry held i status (get_elem? vs i))
        → Collect held vs (i + 1) voters (collect_dead held vs (i + 1) voters)
        → Collect held vs i (status ∷ voters) (collect_dead held vs i (status ∷ voters))
    join e c = record {
      found = e.part ++ c.found;
      returns = rw (e.returns, c.returns);
      pending = e.fits c.found c.pending;
      covers = covers_join held vs i status voters e.part c.found e.covers c.covers;
    }

pub dead_entry-ArePending :
    (held : ℕ → Bool) (vs : List ShutdownVote) (i : ℕ) (status : VoterStatus)
    (ballot : Option ShutdownVote) (part rest : List (ℕ × ActorIdentity))
    → get_elem? vs i ≡ ballot
    → dead_entry held i status ballot ≡ done part
    → ArePending (i + 1) vs rest
    → ArePending i vs (part ++ rest)
unfolding dead_entry
dead_entry-ArePending held vs i not_registered ballot part rest at h p =
    subst (λ x. ArePending i vs (x ++ rest)) {x = []} {y = part} (cc)
      (ArePending-weaken i (i + 1) vs rest (omega arith) p)
dead_entry-ArePending held vs i (registered _) ballot part rest at h p =
    subst (λ x. ArePending i vs (x ++ rest)) {x = []} {y = part} (cc)
      (ArePending-weaken i (i + 1) vs rest (omega arith) p)
dead_entry-ArePending held vs i (dead ident) none part rest at h p = cc
dead_entry-ArePending held vs i (dead ident) (some v) part rest at h p =
    elim (Bool-cases (held i || v.in_favor)) [
      | inl skipped ↦
          subst (λ x. ArePending i vs (x ++ rest)) {x = []} {y = part} (ground arith)
            (ArePending-weaken i (i + 1) vs rest (omega arith) p)
      | inr listed ↦
          subst (λ x. ArePending i vs (x ++ rest)) {x = (i, ident) ∷ []} {y = part} (ground arith)
            (omega arith, (v, at, ground arith), p)
    ]

pub collect_dead-ArePending :
    (held : ℕ → Bool) (vs : List ShutdownVote) (i : ℕ) (voters : List VoterStatus)
    (found : List (ℕ × ActorIdentity))
    → collect_dead held vs i voters ≡ done found
    → ArePending i vs found
unfolding collect_dead
collect_dead-ArePending held vs i [] found h = subst (ArePending i vs) {x = []} (cc) tt
collect_dead-ArePending held vs i (status ∷ voters) found h =
    let (part, e, h') = >>=-eq-done (dead_entry held i status (get_elem? vs i)) _ h in
    let (rest, e', h'') = >>=-eq-done (collect_dead held vs (i + 1) voters) _ h' in
    subst (ArePending i vs) {x = part ++ rest} (cc h'') (
      dead_entry-ArePending held vs i status (get_elem? vs i) part rest refl e
        (collect_dead-ArePending held vs (i + 1) voters rest e'))
