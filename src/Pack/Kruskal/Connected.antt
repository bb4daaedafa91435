-- ===== src/Pack/Kruskal/Connected.antt =====
-- The clusters of core/src/actor_builder/pack.rs, each in its order: they stay connected.
use steady_state_stack.Pack.EvenSplit.{count, count_all}
use steady_state_stack.Pack.Edges.{PackEdge}
use steady_state_stack.Pack.Kruskal.Counting.{count_ones, occurs, one_if}
use steady_state_stack.Pack.Kruskal.Ordered.{linedance_order_lem}
use steady_state_stack.Pack.Kruskal.Loop.{Linked}
use steady_state_stack.Pack.Kruskal.Groups.{IsGroup, members}
use steady_state_stack.Pack.Kruskal.Clusters.{dance_all}
use steady_state_stack.Common.{
  All, List, [], ap, arith, done, length, refl, subst, suc, ℕ, ℕ_discrete, ◌==◌, ◌>>=◌, ◌∷◌, ◌≡◌,
  ◌≤◌,
}

-- Any two actors of it are connected.
abbrev pub IsConnected : List PackEdge → List ℕ → Type 0
IsConnected edges c = (x y : ℕ) → 1 ≤ occurs x c → 1 ≤ occurs y c → Linked edges x y

All-member {κ} : (P : ℕ → Type κ) (xs : List ℕ) → All P xs → (v : ℕ) → 1 ≤ occurs v xs → P v
All-member P [] h v le = absurd (omega arith)
All-member P (x ∷ xs) h v le = elim (ℕ_discrete x v) [
  | yes e ↦ subst P e h.0
  | no ne ↦ All-member P xs h.1 v (ground arith)
]

occurs-count : (v : ℕ) (xs : List ℕ) → occurs v xs ≡ count (λ x. one_if (x == v)) xs
occurs-count v [] = refl
occurs-count v (x ∷ xs) = omega (arith, occurs-count v xs)

IsConnected-IsGroup :
    (edges : List PackEdge) (root : ℕ) (c : List ℕ)
    → All (λ x. Linked edges x root) c
    → IsConnected edges c
IsConnected-IsGroup edges root c h x y hx hy =
    Linked.both x root y (All-member (λ z. Linked edges z root) c h x hx)
      (Linked.back y root (All-member (λ z. Linked edges z root) c h y hy))

-- The order of each cluster keeps its actors.
pub dance_all_lem :
    (edges : List PackEdge) (groups : List (ℕ × List ℕ))
    → All (IsGroup edges) groups
    → (clusters : List (List ℕ)) × (dance_all edges (members groups) ≡ done clusters)
      × (length clusters ≡ length (members groups))
      × All (λ c. 1 ≤ length c) clusters
      × All (IsConnected edges) clusters
      × ((f : ℕ → ℕ) → count_all f clusters ≡ count_all f (members groups))
dance_all_lem edges [] h = ([], refl, refl, tt, tt, λ f. refl)
dance_all_lem edges ((root, c) ∷ groups) h =
    let (ordered, run, counts, forward) = linedance_order_lem c edges in
    let (clusters, runs, sizes, filled, connected, sums) = dance_all_lem edges groups h.1 in
    let keeps : (v : ℕ) → occurs v ordered ≡ occurs v c =
      λ v. omega (arith, occurs-count v ordered, occurs-count v c, counts (λ x. one_if (x == v))) in
    (
      ordered ∷ clusters,
      rw (◌>>=◌, run) (rw (◌>>=◌, runs) refl),
      ap suc sizes,
      (omega (arith, counts (λ x. 1), count_ones ordered, count_ones c, h.0.0), filled),
      (
        λ x y hx hy.
            IsConnected-IsGroup edges root c h.0.1 x y (omega (arith, keeps x))
              (omega (arith, keeps y)),
        connected,
      ),
      λ f. omega (arith, counts f, sums f),
    )
