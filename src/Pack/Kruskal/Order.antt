-- ===== src/Pack/Kruskal/Order.antt =====
-- `linedance_order` of core/src/actor_builder/pack.rs as a whole.
use mathlib.Core.Bool.{true≢false}
use steady_state_stack.Pack.Kruskal.Linedance.{
  first_ready, linedance_order, outs_of, release, take_ready,
}
use steady_state_stack.Pack.EvenSplit.{count}
use steady_state_stack.Pack.Edges.{PackEdge}
use steady_state_stack.Pack.Kruskal.Counting.{
  contains-occurs, count_ones, is_part, occurs, occurs-append, one_if, tally, tally-some,
}
use steady_state_stack.Pack.Kruskal.Degrees.{
  add_edges-blank, is_arc, is_free, is_into, occurs-first_ready,
}
use steady_state_stack.Pack.Kruskal.Release.{IsCounted, release_lem}
use steady_state_stack.Pack.Kruskal.Dance.{
  IsForward, IsForward-snoc, IsTaken, is_left, pending, pending-some, pending-take,
}
use steady_state_stack.Common.{
  ==_iff, ==_self, All, Bool, Bool-cases, List, [], ap, arith, contains, done, false, if◌then◌else◌,
  inl, inr, leb, length, length-append, lookup, not, refl, some, subst, suc, sym, true, zero, ℕ,
  ◌&&◌, ◌++◌, ◌+◌, ◌==◌, ◌>>=◌, ◌∙◌, ◌∷◌, ◌≡◌, ◌≤◌,
}

pub All-occurs {κ} : (P : ℕ → Type κ) (xs : List ℕ) → ((v : ℕ) → 1 ≤ occurs v xs → P v) → All P xs
All-occurs P [] h = tt
All-occurs P (x ∷ xs) h =
    (h x (ground (arith, ==_self x)), All-occurs P xs λ v le. h v (omega arith))

is_arc-target :
    (cluster : List ℕ) (edges : List PackEdge) (u v : ℕ)
    → 1 ≤ tally (is_arc cluster u v) edges
    → contains cluster v ≡ true
is_arc-target cluster edges u v h =
    let (i, e, at, arc) = tally-some (is_arc cluster u v) edges h in
    arc_target (contains cluster e.from) (contains cluster e.to) (not (e.from == e.to))
      (e.from == u) (e.to == v) (λ t. subst (λ k. contains cluster k ≡ true) ((==_iff e.to v).0 t))
      arc
  where
    arc_target :
        (a b c d t : Bool)
        → (t ≡ true → b ≡ true → contains cluster v ≡ true)
        → ((a && b && c) && d && t) ≡ true
        → contains cluster v ≡ true
    arc_target true true true true t k h = k h refl
    arc_target true true true false t k h = absurd (true≢false (sym h))
    arc_target true true false d t k h = absurd (true≢false (sym h))
    arc_target true false c d t k h = absurd (true≢false (sym h))
    arc_target false b c d t k h = absurd (true≢false (sym h))

one_if-positive : (n k : ℕ) → 1 ≤ k → k ≡ one_if (n == 0) → n ≡ 0
one_if-positive n k h e = ground arith

-- Where a list has each actor once at most, and only the cluster's, it is a part of the cluster.
pub is_part_of_cluster :
    (cluster xs : List ℕ)
    → ((v : ℕ) → contains cluster v ≡ true → occurs v xs ≤ 1)
    → ((v : ℕ) → contains cluster v ≡ false → occurs v xs ≡ 0)
    → (rest : List ℕ) × ((f : ℕ → ℕ) → count f cluster ≡ count f xs + count f rest)
is_part_of_cluster cluster xs h k = is_part xs cluster λ v. elim (Bool-cases (contains cluster v)) [
  | inl t ↦ omega (arith, h v t, contains-occurs v cluster t)
  | inr t ↦ omega (arith, k v t)
]

-- Before any actor is taken all edges are left.
all_left :
    (cluster : List ℕ) (v : ℕ) (es : List PackEdge)
    → tally (is_into cluster v) es ≡ tally (is_left cluster [] v) es
all_left cluster v [] = refl
all_left cluster v (e ∷ es) =
    let rest = all_left cluster v es in
    elim (Bool-cases (is_into cluster v e)) [
      | inl t ↦ rw (is_left, t) (omega (arith, rest))
      | inr t ↦ rw (is_left, t) (omega (arith, rest))
    ]

module _ (cluster : List ℕ) (edges : List PackEdge) where
  -- The loop's state: what is taken, what is ready, and the degrees that are left.
  record IsDancing (indeg : List (ℕ × ℕ)) (ready ordered : List ℕ) : Type 0 where
    counted : IsCounted cluster (pending cluster edges ordered) (λ v. occurs v ordered) indeg ready
    outside : (v : ℕ) → contains cluster v ≡ false → occurs v ordered + occurs v ready ≡ 0
    forward : IsForward cluster edges [] ordered

  -- What holds of the first of the ready ones.
  record IsNext (id : ℕ) (ordered : List ℕ) : Type 0 where
    member : contains cluster id ≡ true
    fresh : occurs id ordered ≡ 0
    none_left : pending cluster edges ordered id ≡ 0

  IsNext-ready :
      (indeg : List (ℕ × ℕ)) (id : ℕ) (ready ordered : List ℕ)
      → IsDancing indeg (id ∷ ready) ordered
      → IsNext id ordered
  IsNext-ready indeg id ready ordered h = elim (Bool-cases (contains cluster id)) [
    | inl t ↦
        let once = h.counted.once id t in
        record {
          member = t;
          fresh = ground (arith, ==_self id, once);
          none_left =
              one_if-positive (pending cluster edges ordered id)
                (occurs id ordered + occurs id (id ∷ ready)) (ground (arith, ==_self id)) once;
        }
    | inr t ↦ absurd (ground (arith, ==_self id, h.outside id t))
  ]

  IsPart-taken :
      (indeg : List (ℕ × ℕ)) (id : ℕ) (ready ordered : List ℕ)
      → IsDancing indeg (id ∷ ready) ordered
      → length (ordered ++ id ∷ []) ≤ length cluster
  IsPart-taken indeg id ready ordered h =
      let next = IsNext-ready indeg id ready ordered h in
      let (rest, parts) =
        is_part_of_cluster cluster (ordered ++ id ∷ [])
          (λ v hv.
            let once = h.counted.once v hv in
            let all = occurs-append v ordered (id ∷ []) in
            let le : one_if (pending cluster edges ordered v == 0) ≤ 1 = ground arith in
            omega (arith, once, all, le))
          (λ v hv. omega (arith, h.outside v hv, occurs-append v ordered (id ∷ []))) in
      let sizes = parts (λ x. 1) in
      omega (arith, sizes, count_ones cluster, count_ones (ordered ++ id ∷ []))

  module _ (outs : List (ℕ × List ℕ))
      (targets : (u : ℕ)
        → contains cluster u ≡ true
        → (tos : List ℕ) × (lookup outs u ≡ some tos)
          × ((v : ℕ) → occurs v tos ≡ tally (is_arc cluster u v) edges)) where
    IsDancing-step :
        (indeg : List (ℕ × ℕ)) (id : ℕ) (ready ordered : List ℕ)
        → IsDancing indeg (id ∷ ready) ordered
        → (indeg' : List (ℕ × ℕ)) × (ready' : List ℕ) × (release (outs_of outs id) indeg ready
            ≡ done (indeg', ready'))
          × IsDancing indeg' ready' (ordered ++ id ∷ [])
    IsDancing-step indeg id ready ordered h =
        let next = IsNext-ready indeg id ready ordered h in
        let after = ordered ++ id ∷ [] in
        let (tos, at, occ) = targets id next.member in
        let inside =
          All-occurs (λ to. contains cluster to ≡ true) tos
            (λ v some_arc. is_arc-target cluster edges id v (omega (arith, some_arc, occ v))) in
        let left_before : (v : ℕ)
            → pending cluster edges ordered v ≡ occurs v tos + pending cluster edges after v =
          λ v.
            pending-take cluster edges ordered id v next.fresh
            ∙ ap (λ k. k + pending cluster edges after v) (sym (occ v)) in
        let (indeg', ready', run, counted, others) =
          release_lem cluster (pending cluster edges after) (λ v. occurs v after) tos indeg ready
            inside
            (record {
              degree = λ v hv. h.counted.degree v hv ∙ ap some (left_before v);
              once = λ v hv.
                  subst (λ k. occurs v after + occurs v ready ≡ one_if (k == 0)) (left_before v)
                    (omega (arith, h.counted.once v hv, occurs-append v ordered (id ∷ [])));
            }) in
        (
          indeg',
          ready',
          rw (outs_of, at) run,
          record {
            counted = counted;
            outside = λ v hv.
                omega (arith, h.outside v hv, others v hv, occurs-append v ordered (id ∷ []));
            forward =
                IsForward-snoc cluster edges [] ordered id h.forward
                  (λ u arc. pending-some cluster edges ordered u id next.none_left arc);
          },
        )

    take_ready_lem :
        (fuel : ℕ) (indeg : List (ℕ × ℕ)) (ready ordered : List ℕ)
        → length cluster ≤ fuel + length ordered
        → IsDancing indeg ready ordered
        → (taken : List ℕ) × (take_ready fuel outs indeg ready ordered ≡ done taken)
          × IsTaken cluster edges taken
    unfolding take_ready
    take_ready_lem fuel indeg [] ordered enough h = (
      ordered,
      refl,
      record {
        once = λ v hv. omega (arith, h.counted.once v hv);
        inside = λ v hv. omega (arith, h.outside v hv);
        forward = h.forward;
      },
    )
    take_ready_lem zero indeg (id ∷ ready) ordered enough h =
        absurd
          (omega (arith, IsPart-taken indeg id ready ordered h, length-append ordered (id ∷ [])))
    take_ready_lem (suc fuel) indeg (id ∷ ready) ordered enough h =
        let (indeg', ready', run, kept) = IsDancing-step indeg id ready ordered h in
        let (taken, runs, result) =
          take_ready_lem fuel indeg' ready' (ordered ++ id ∷ [])
            (omega (arith, length-append ordered (id ∷ []))) kept in
        (taken, rw (◌>>=◌, run) runs, result)

-- A cluster of two actors and more is run through the loop, and takes the order if all are in it.
pub linedance_run :
    (cluster : List ℕ) (edges : List PackEdge)
    → leb (length cluster) 1 ≡ false
    → (taken : List ℕ) × (linedance_order cluster edges
        ≡ done (if length taken == length cluster then taken else cluster))
      × IsTaken cluster edges taken
unfolding linedance_order
linedance_run cluster edges several =
    let (s, run, says) = add_edges-blank cluster edges in
    let into : ℕ → ℕ = λ v. tally (is_into cluster v) edges in
    let none_taken : (v : ℕ) → into v ≡ pending cluster edges [] v =
      λ v. all_left cluster v edges in
    let ready_now : (v : ℕ) → 0 + occurs v (first_ready s.indeg) ≡ is_free (lookup s.indeg v) =
      λ v. omega (arith, occurs-first_ready v s.indeg says.unique) in
    let (taken, runs, result) =
      take_ready_lem cluster edges s.outs says.targets (length cluster) s.indeg
        (first_ready s.indeg) [] (omega arith)
        (record {
          counted = record {
            degree = λ v hv. says.degree v hv ∙ ap some (none_taken v);
            once = λ v hv.
                ready_now v
                ∙ ap is_free (says.degree v hv)
                ∙ ap (λ k. one_if (k == 0)) (none_taken v);
          };
          outside = λ v hv. ready_now v ∙ ap is_free (says.absent v hv);
          forward = tt;
        }) in
    (taken, rw several (rw (◌>>=◌, run) (rw (◌>>=◌, runs) refl)), result)
