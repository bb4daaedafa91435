-- ===== src/Pack/Kruskal/Ordered.antt =====
-- What `linedance_order` of core/src/actor_builder/pack.rs promises: the same actors, producers first.
use mathlib.Core.Bool.{true≢false}
use steady_state_stack.Pack.EvenSplit.{count}
use steady_state_stack.Pack.Edges.{PackEdge}
use steady_state_stack.Pack.Kruskal.Linedance.{is_inner, linedance_order}
use steady_state_stack.Pack.Kruskal.Counting.{
  count_ones, is_part, occurs, occurs-contains, tally-some,
}
use steady_state_stack.Pack.Kruskal.Dance.{IsForward, IsTaken, is_left, pending}
use steady_state_stack.Pack.Kruskal.Order.{is_part_of_cluster, linedance_run}
use steady_state_stack.Common.{
  ==_iff, Bool, Bool-cases, List, [], ap, arith, contains, done, false, get_elem?, inl, inr, leb,
  length, not, refl, some, suc, sym, true, zero, ℕ, ℕ_discrete, ◌&&◌, ◌+◌, ◌<◌, ◌==◌, ◌∙◌, ◌∷◌, ◌≡◌,
  ◌≤◌, ◌⊎◌,
}

count-none : (rest : List ℕ) → length rest ≡ 0 → (f : ℕ → ℕ) → count f rest ≡ 0
count-none [] h f = refl
count-none (x ∷ rest) h f = absurd (omega arith)

-- What is taken is a part of the cluster; if it is as long, it has the same actors.
IsTaken-part :
    (cluster : List ℕ) (edges : List PackEdge) (taken : List ℕ)
    → IsTaken cluster edges taken
    → (length taken ≤ length cluster)
      × (length taken ≡ length cluster → (f : ℕ → ℕ) → count f taken ≡ count f cluster)
IsTaken-part cluster edges taken h =
    let (rest, parts) =
      is_part_of_cluster cluster taken (λ v hv. let once = h.once v hv in ground arith) h.inside in
    let sizes = parts (λ x. 1) in
    let sum : length cluster ≡ length taken + length rest =
      omega (arith, sizes, count_ones cluster, count_ones taken, count_ones rest) in
    (omega (arith, sum), λ same f. omega (arith, parts f, count-none rest (omega (arith, sum)) f))

-- The order never panics: it has the cluster's actors, each as often, and is either the cluster as it
-- was or has no actor before one that has an edge of the cluster to it.
pub linedance_order_lem :
    (cluster : List ℕ) (edges : List PackEdge)
    → (ordered : List ℕ) × (linedance_order cluster edges ≡ done ordered)
      × ((f : ℕ → ℕ) → count f ordered ≡ count f cluster)
      × ((ordered ≡ cluster) ⊎ IsForward cluster edges [] ordered)
unfolding linedance_order
linedance_order_lem cluster edges = elim (Bool-cases (leb (length cluster) 1)) [
  | inl t ↦ (cluster, rw t refl, λ f. refl, inl refl)
  | inr t ↦
      let (taken, run, h) = linedance_run cluster edges t in
      elim (Bool-cases (length taken == length cluster)) [
        | inl e ↦
            let same = (==_iff (length taken) (length cluster)).0 e in
            (
              taken,
              run ∙ ap done (rw e refl),
              (IsTaken-part cluster edges taken h).1 same,
              inr h.forward,
            )
        | inr e ↦ (cluster, run ∙ ap done (rw e refl), λ f. refl, inl refl)
      ]
]

left_parts : (a t o : Bool) → ((a && t) && o) ≡ true → (a ≡ true) × (t ≡ true) × (o ≡ true)
left_parts true true true h = (refl, refl, refl)
left_parts true true false h = absurd (true≢false (sym h))
left_parts true false o h = absurd (true≢false (sym h))
left_parts false t o h = absurd (true≢false (sym h))

inner_from : (a b c : Bool) → (a && b && c) ≡ true → a ≡ true
inner_from true b c h = refl
inner_from false b c h = h

module _ (cluster : List ℕ) (edges : List PackEdge) (height : ℕ → ℕ)
    (rising : (i : ℕ) (e : PackEdge)
      → get_elem? edges i ≡ some e
      → is_inner cluster e ≡ true
      → height e.from < height e.to) where
  -- Without a cycle every actor is taken in the end.
  all_taken :
      (taken : List ℕ)
      → IsTaken cluster edges taken
      → (n v : ℕ) → height v < n
      → contains cluster v ≡ true
      → occurs v taken ≡ 1
  all_taken taken h zero v low hv = absurd (omega arith)
  all_taken taken h (suc n) v low hv =
      let once = h.once v hv in
      elim (ℕ_discrete (pending cluster edges taken v) 0) [
        | yes nothing ↦ ground arith
        | no some_left ↦
            let (i, e, at, left) = tally-some (is_left cluster taken v) edges (omega arith) in
            let (inner, into, fresh) =
              left_parts (is_inner cluster e) (e.to == v) (occurs e.from taken == 0) left in
            let lower = rising i e at inner in
            let to_v = (==_iff e.to v).0 into in
            let before = all_taken taken h n e.from (omega (arith, lower, ap height to_v)) (
              inner_from (contains cluster e.from) (contains cluster e.to) (not (e.from == e.to))
                inner) in
            absurd (omega (arith, before, (==_iff (occurs e.from taken) 0).0 fresh))
      ]

  -- Where the actors are different and the edges of the cluster have no cycle, as a height shows that
  -- rises along each, the result has every actor behind those that have an edge of the cluster to it.
  pub linedance_order-IsForward :
      ((v : ℕ) → occurs v cluster ≤ 1)
      → 2 ≤ length cluster
      → (ordered : List ℕ) × (linedance_order cluster edges ≡ done ordered)
        × ((f : ℕ → ℕ) → count f ordered ≡ count f cluster)
        × IsForward cluster edges [] ordered
  linedance_order-IsForward different several =
      let (taken, run, h) = linedance_run cluster edges (ground arith) in
      let (low, same) = IsTaken-part cluster edges taken h in
      let (rest, parts) = is_part cluster taken λ v. elim (Bool-cases (contains cluster v)) [
        | inl t ↦ omega (arith, all_taken taken h (suc (height v)) v (omega arith) t, different v)
        | inr t ↦ elim (ℕ_discrete (occurs v cluster) 0) [
          | yes out ↦ omega arith
          | no in_it ↦ absurd (true≢false (sym (occurs-contains v cluster (omega arith)) ∙ t))
        ]
      ] in
      let sizes = parts (λ x. 1) in
      let full : length taken ≡ length cluster =
        omega (arith, low, sizes, count_ones cluster, count_ones taken) in
      (
        taken,
        run ∙ ap done (rw ((==_iff (length taken) (length cluster)).1 full) refl),
        same full,
        h.forward,
      )
