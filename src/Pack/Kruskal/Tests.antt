-- ===== src/Pack/Kruskal/Tests.antt =====
-- The clustering theorems at concrete actors: a pipeline of three, and cores that conflict.
use steady_state_stack.Pack.EvenSplit.{count, deal, even_split}
use steady_state_stack.Pack.Edges.{PackEdge, is_after, sort_edges}
use steady_state_stack.Pack.UnionFind.{HasRoot, Keeps, find, join, some-inj, union}
use steady_state_stack.Pack.Union.{IsForest, relinked, union_lem}
use steady_state_stack.Pack.Kruskal.{
  flatten, group_all, is_held_back, merge_edge, merge_edges, push_group,
  would_merge_bundle_siblings,
}
use steady_state_stack.Pack.Kruskal.Linedance.{
  add_edges, is_inner, linedance_order, release, take_ready,
}
use steady_state_stack.Pack.Kruskal.Counting.{occurs}
use steady_state_stack.Pack.Kruskal.Dance.{IsForward}
use steady_state_stack.Pack.Kruskal.Ordered.{linedance_order-IsForward, linedance_order_lem}
use steady_state_stack.Pack.Kruskal.Clusters.{
  pack_actors, pack_kruskal, pack_kruskal_with_cores, start,
}
use steady_state_stack.Pack.Kruskal.Connected.{IsConnected}
use steady_state_stack.Pack.Kruskal.Partition.{
  IsForest-start, IsPartition, pack_kruskal_with_cores_lem,
}
use steady_state_stack.Common.{
  All, List, [], arith, contains, done, false, get_elem?, none, panic, refl, some, subst, suc, true,
  zero, ℕ, ◌*◌, ◌<◌, ◌∷◌, ◌≡◌, ◌≢◌, ◌≤◌, ◌⊎◌,
}

abbrev edge : ℕ → ℕ → ℕ → PackEdge
edge from to capacity = record {
  from = from;
  to = to;
  capacity = capacity;
  byte_footprint = 8 * capacity;
  bundle_family = none;
}

-- 0 → 1 → 2, the second channel the smaller one.
abbrev pipeline : List PackEdge
pipeline = edge 0 1 4_096 ∷ edge 1 2 64 ∷ []

abbrev actors : List ℕ
actors = 0 ∷ 1 ∷ 2 ∷ []

smallest_merges : pack_actors actors pipeline 2 ≡ done ((0 ∷ []) ∷ (1 ∷ 2 ∷ []) ∷ [])
unfolding pack_actors pack_kruskal pack_kruskal_with_cores start merge_edges merge_edge is_held_back
    sort_edges is_after union join find group_all push_group linedance_order add_edges take_ready
    release
smallest_merges = refl

-- Two actors with an edge and with cores that conflict still get one thread when there is one slot.
conflict_merged :
    pack_kruskal_with_cores (0 ∷ 1 ∷ []) (edge 0 1 64 ∷ []) 1 ((0, 0) ∷ (1, 1) ∷ [])
    ≡ done ((0 ∷ 1 ∷ []) ∷ [])
unfolding pack_kruskal_with_cores start merge_edges merge_edge is_held_back even_split deal flatten
    sort_edges is_after union join find group_all push_group linedance_order add_edges take_ready
    release
conflict_merged = refl

-- A consumer of a bundle that is not packed.
abbrev fan_out : ℕ → PackEdge
fan_out to = record {
  from = 0;
  to = to;
  capacity = 64;
  byte_footprint = 512;
  bundle_family = some (record { producer = 0; family_key = 7 });
}

missing_consumer : pack_actors (0 ∷ 1 ∷ []) (fan_out 1 ∷ fan_out 9 ∷ []) 1 ≡ panic
unfolding pack_actors pack_kruskal pack_kruskal_with_cores start merge_edges merge_edge is_held_back
    would_merge_bundle_siblings sort_edges is_after union join find
missing_consumer = refl

abbrev left_root : ℕ
left_root = 0

abbrev right_root : ℕ
right_root = 1

union_lem_example :
    (left_root ≡ right_root
      → (after : List (ℕ × ℕ)) × (union 2 ((0, 0) ∷ (1, 1) ∷ []) ((0, 0) ∷ (1, 0) ∷ []) 0 1
          ≡ done (false, after, (0, 0) ∷ (1, 0) ∷ []))
        × IsForest (contains (0 ∷ 1 ∷ [])) 0 after ((0, 0) ∷ (1, 0) ∷ [])
        × Keeps ((0, 0) ∷ (1, 1) ∷ []) after)
    × (left_root ≢ right_root
        → (u : ℕ) × (w : ℕ) × (after : List (ℕ × ℕ)) × (rank' : List (ℕ × ℕ)) × (union 2
              ((0, 0) ∷ (1, 1) ∷ [])
              ((0, 0) ∷ (1, 0) ∷ [])
              0
              1
            ≡ done (true, after, rank'))
          × (((u ≡ left_root) × (w ≡ right_root)) ⊎ ((u ≡ right_root) × (w ≡ left_root)))
          × IsForest (contains (0 ∷ 1 ∷ [])) 1 after rank'
          × ((m y s : ℕ)
              → HasRoot ((0, 0) ∷ (1, 1) ∷ []) m y s
              → HasRoot after (suc m) y (relinked u w s)))
union_lem_example =
    union_lem (contains (0 ∷ 1 ∷ [])) 0 ((0, 0) ∷ (1, 1) ∷ []) ((0, 0) ∷ (1, 0) ∷ []) 2 0 1
      left_root right_root (IsForest-start (0 ∷ 1 ∷ [])) (omega arith) (omega arith) (refl, refl)
      (refl, refl)

linedance_order_lem_example :
    (ordered : List ℕ) × (linedance_order (2 ∷ 1 ∷ 0 ∷ []) pipeline ≡ done ordered)
    × ((f : ℕ → ℕ) → count f ordered ≡ count f (2 ∷ 1 ∷ 0 ∷ []))
    × ((ordered ≡ 2 ∷ 1 ∷ 0 ∷ []) ⊎ IsForward (2 ∷ 1 ∷ 0 ∷ []) pipeline [] ordered)
linedance_order_lem_example = linedance_order_lem (2 ∷ 1 ∷ 0 ∷ []) pipeline

rising :
    (i : ℕ) (e : PackEdge)
    → get_elem? pipeline i ≡ some e
    → is_inner (2 ∷ 1 ∷ 0 ∷ []) e ≡ true
    → e.from < e.to
rising zero e at inner = subst (λ f. f.from < f.to) (some-inj at) (omega arith)
rising (suc zero) e at inner = subst (λ f. f.from < f.to) (some-inj at) (omega arith)
rising (suc (suc i)) e at inner = cc

different : (v : ℕ) → occurs v (2 ∷ 1 ∷ 0 ∷ []) ≤ 1
different v = ground arith

linedance_order-IsForward_example :
    (ordered : List ℕ) × (linedance_order (2 ∷ 1 ∷ 0 ∷ []) pipeline ≡ done ordered)
    × ((f : ℕ → ℕ) → count f ordered ≡ count f (2 ∷ 1 ∷ 0 ∷ []))
    × IsForward (2 ∷ 1 ∷ 0 ∷ []) pipeline [] ordered
linedance_order-IsForward_example =
    linedance_order-IsForward (2 ∷ 1 ∷ 0 ∷ []) pipeline (λ v. v) rising different (omega arith)

pack_kruskal_with_cores_lem_example :
    (clusters : List (List ℕ)) × (pack_kruskal_with_cores (0 ∷ 1 ∷ []) (fan_out 1 ∷ []) 1 []
      ≡ done clusters)
    × IsPartition (0 ∷ 1 ∷ []) 1 clusters
    × (All (IsConnected (fan_out 1 ∷ [])) clusters
        ⊎ (given : List ℕ) × (even_split given 1 ≡ done clusters))
pack_kruskal_with_cores_lem_example =
    pack_kruskal_with_cores_lem (0 ∷ 1 ∷ []) (fan_out 1 ∷ []) 1 [] (omega arith)
      (λ fam at. refl, tt)
