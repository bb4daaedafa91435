-- ===== src/Pack/Kruskal/Clusters.antt =====
-- `pack_kruskal` and `pack_actors` of core/src/actor_builder/pack.rs, as a whole.
use steady_state_stack.Pack.EvenSplit.{even_split}
use steady_state_stack.Pack.Edges.{PackEdge, sort_edges}
use steady_state_stack.Pack.Kruskal.{Merging, flatten, group_all, merge_edges}
use steady_state_stack.Pack.Kruskal.Linedance.{linedance_order}
use steady_state_stack.Common.{
  List, Outcome, [], collect, done, if◌then◌else◌, length, ltb, map, max, ℕ, ◌>>=◌, ◌∷◌,
}

abbrev pub dance_all : List PackEdge → List (List ℕ) → Outcome (List (List ℕ))
dance_all edges [] = done []
dance_all edges (c ∷ clusters) = linedance_order c edges >>= λ ordered.
    dance_all edges clusters >>= λ rest. done (ordered ∷ rest)

unfoldable pub start : List ℕ → Merging
start actor_ids = record {
  parent = collect (λ id. id) actor_ids [];
  rank = collect (λ id. 0) actor_ids [];
  cluster_count = length actor_ids;
}

unfoldable pub pack_kruskal_with_cores :
    List ℕ → List PackEdge → ℕ → List (ℕ × ℕ) → Outcome (List (List ℕ))
pack_kruskal_with_cores [] edges slots explicit_cores = done []
pack_kruskal_with_cores (id ∷ ids) [] slots explicit_cores = even_split (id ∷ ids) (max slots 1)
pack_kruskal_with_cores (id ∷ ids) (e ∷ es) slots explicit_cores =
    let actor_ids = id ∷ ids in
    let edges = e ∷ es in
    let fuel = length actor_ids in
    merge_edges fuel (max slots 1) explicit_cores edges (sort_edges edges) (start actor_ids)
    >>= λ s. group_all fuel actor_ids s.parent [] >>= λ groups.
        let clusters = map (λ g. g.1) groups in
        if ltb (max slots 1) (length clusters)
        then even_split (flatten clusters) (max slots 1)
        else dance_all edges clusters

unfoldable pub pack_kruskal : List ℕ → List PackEdge → ℕ → Outcome (List (List ℕ))
pack_kruskal actor_ids edges slots = pack_kruskal_with_cores actor_ids edges slots []

unfoldable pub pack_actors : List ℕ → List PackEdge → ℕ → Outcome (List (List ℕ))
pack_actors actor_ids [] slots = even_split actor_ids slots
pack_actors actor_ids (e ∷ es) slots = pack_kruskal actor_ids (e ∷ es) slots
