-- ===== src/Pack/Kruskal/Partition.antt =====
-- What `pack_kruskal_with_cores` and `pack_actors` of core/src/actor_builder/pack.rs promise: a
-- partition of the actors into at most so many clusters.
use steady_state_stack.Pack.Union.{IsForest}
use steady_state_stack.Pack.Kruskal.Order.{All-occurs}
use mathlib.Core.Bool.{true≢false}
use steady_state_stack.Pack.EvenSplit.{
  IsDealt, count, count-append, count_all, deal, even_split, even_split_lem, retain,
}
use steady_state_stack.Pack.Edges.{All-sort_edges, PackEdge, sort_edges}
use steady_state_stack.Pack.UnionFind.{HasRoot, HasRoot-contains_key, HasRoot-unique}
use steady_state_stack.Pack.Kruskal.{flatten}
use steady_state_stack.Pack.Kruskal.Counting.{count_ones, occurs-contains}
use steady_state_stack.Pack.Kruskal.Loop.{All-along, IsPackable, Linked}
use steady_state_stack.Pack.Kruskal.Merge.{IsMerging, merge_edges_done}
use steady_state_stack.Pack.Kruskal.Groups.{group_all_lem, members}
use steady_state_stack.Pack.Kruskal.Connected.{IsConnected, dance_all_lem}
use steady_state_stack.Pack.Kruskal.Clusters.{
  pack_actors, pack_kruskal, pack_kruskal_with_cores, start,
}
use steady_state_stack.Common.{
  All, Bool-cases, List, [], ap, arith, collect, contains, contains_key, contains_key_of, done,
  false, inl, inr, length, lookup-collect, lookup-collect_absent, ltb, max, min, refl, replicate,
  subst, suc, sym, true, zero, ℕ, ◌<◌, ◌>>=◌, ◌∙◌, ◌∷◌, ◌≡◌, ◌≤◌, ◌⊎◌,
}

count_all-flatten :
    (f : ℕ → ℕ) (clusters : List (List ℕ)) → count f (flatten clusters) ≡ count_all f clusters
unfolding flatten
count_all-flatten f [] = refl
count_all-flatten f (c ∷ clusters) =
    omega (arith, count-append f c (flatten clusters), count_all-flatten f clusters)

IsDealt-filled :
    (q r : ℕ) (clusters : List (List ℕ))
    → 0 < q
    → IsDealt q r clusters
    → All (λ c. 1 ≤ length c) clusters
IsDealt-filled q r [] h d = tt
IsDealt-filled q zero (c ∷ clusters) h d =
    (omega (arith, d.0), IsDealt-filled q zero clusters h d.1)
IsDealt-filled q (suc r) (c ∷ clusters) h d =
    (omega (arith, d.0), IsDealt-filled q r clusters h d.1)

-- A partition of the actors into at most so many clusters, none of them empty.
pub record IsPartition (ids : List ℕ) (most : ℕ) (clusters : List (List ℕ)) : Type 0 where
  pub bounded : length clusters ≤ most
  pub filled : All (λ c. 1 ≤ length c) clusters
  pub counts : (f : ℕ → ℕ) → count_all f clusters ≡ count f ids

even_split-IsPartition :
    (ids given : List ℕ) (slots : ℕ)
    → 1 ≤ slots
    → 0 < length ids
    → ((f : ℕ → ℕ) → count f given ≡ count f ids)
    → (clusters : List (List ℕ)) × (even_split given slots ≡ done clusters)
      × IsPartition ids slots clusters
even_split-IsPartition ids given slots some_slot some_id alike =
    let (clusters, q, r, run, n, total, dealt, rounds, sums) = even_split_lem given slots in
    let size : length given ≡ length ids =
      omega (arith, alike (λ x. 1), count_ones given, count_ones ids) in
    (
      clusters,
      run,
      record {
        bounded = omega (arith, n);
        filled = IsDealt-filled q r clusters (rounds (omega (arith, size))).0 dealt;
        counts = λ f. sums f ∙ alike f;
      },
    )

pub IsForest-start :
    (ids : List ℕ)
    → IsForest (contains ids) 0 (collect (λ id. id) ids []) (collect (λ id. 0) ids [])
IsForest-start ids = record {
  same_keys = λ x. elim (Bool-cases (contains ids x)) [
    | inl t ↦
        contains_key_of (collect (λ id. id) ids []) x x (lookup-collect (λ id. id) ids [] x t)
        ∙ sym t
    | inr t ↦ rw (contains_key, lookup-collect_absent (λ id. id) ids [] x t) (sym t)
  ];
  rooted = λ x t. (x, (lookup-collect (λ id. id) ids [] x t, refl));
  ranked = λ x t. (0, lookup-collect (λ id. 0) ids [] x t, omega arith);
}

-- The start: every actor is its own cluster.
IsMerging-start :
    (ids : List ℕ) (edges : List PackEdge)
    → 1 ≤ length ids
    → IsMerging (contains ids) (length ids) edges (start ids)
unfolding start
IsMerging-start ids edges some_id = record {
  merges = 0;
  left = omega arith;
  some_cluster = some_id;
  forest = IsForest-start ids;
  linked = λ n x r h. subst (Linked edges x) (alone n x r h) (Linked.same x);
}
  where
    parent : List (ℕ × ℕ)
    parent = collect (λ id. id) ids []

    alone : (n x r : ℕ) → HasRoot parent n x r → x ≡ r
    alone n x r h = elim (Bool-cases (contains ids x)) [
      | inl t ↦ HasRoot-unique parent 0 n x x r (lookup-collect (λ id. id) ids [] x t, refl) h
      | inr t ↦
          let none_there : contains_key parent x ≡ false =
            rw (contains_key, lookup-collect_absent (λ id. id) ids [] x t) refl in
          absurd (true≢false (sym (HasRoot-contains_key parent n x r h) ∙ none_there))
    ]

-- Actors packed by the channels between them.
kruskal_run :
    (id : ℕ) (ids : List ℕ) (e : PackEdge) (es : List PackEdge) (slots : ℕ)
    (explicit_cores : List (ℕ × ℕ))
    → length (id ∷ ids) ≤ 256
    → All (IsPackable (contains (id ∷ ids))) (e ∷ es)
    → (clusters : List (List ℕ)) × (pack_kruskal_with_cores (id ∷ ids) (e ∷ es) slots explicit_cores
        ≡ done clusters)
      × IsPartition (id ∷ ids) (max slots 1) clusters
      × (All (IsConnected (e ∷ es)) clusters
          ⊎ (given : List ℕ) × (even_split given (max slots 1) ≡ done clusters))
unfolding pack_kruskal_with_cores
kruskal_run id ids e es slots explicit_cores few ok =
    let actor_ids = id ∷ ids in
    let edges = e ∷ es in
    let keys = contains actor_ids in
    let (s, run, merging) =
      merge_edges_done keys (length actor_ids) edges few (max slots 1) (omega arith) explicit_cores
        ok (sort_edges edges) (start actor_ids)
        (All-sort_edges (λ f. Linked edges f.from f.to) edges (All-along edges))
        (IsMerging-start actor_ids edges (omega arith)) in
    let there =
      All-occurs (λ v. keys v ≡ true) actor_ids (λ v le. occurs-contains v actor_ids le) in
    let (groups, grouped, good, sums) =
      group_all_lem keys merging.merges (length actor_ids) edges s.rank actor_ids s.parent []
        (omega (arith, merging.left, merging.some_cluster)) there merging.forest
        (λ k x r h. merging.linked k x r h) tt in
    let whole : (f : ℕ → ℕ) → count_all f (members groups) ≡ count f actor_ids =
      λ f. omega (arith, sums f) in
    rw run (
      rw (◌>>=◌, grouped)
        (elim (Bool-cases (ltb (max slots 1) (length (members groups)))) [
          | inl t ↦
              let (clusters, split, parts) =
                even_split-IsPartition actor_ids (flatten (members groups)) (max slots 1)
                  (omega arith) (omega arith)
                  (λ f. count_all-flatten f (members groups) ∙ whole f) in
              (clusters, rw t split, parts, inr (flatten (members groups), split))
          | inr t ↦
              let (clusters, danced, sizes, filled, connected, counts) =
                dance_all_lem edges groups good in
              (
                clusters,
                rw t danced,
                record {
                  bounded = ground (arith, sizes);
                  filled = filled;
                  counts = λ f. counts f ∙ whole f;
                },
                inl connected,
              )
        ]))

-- For at most 256 actors, where the consumers of bundles are among them, the packing never panics. The
-- clusters are at most as many as the slots, none is empty, and each actor is in them as often as it
-- was given. They are an even split, or any two actors of one cluster are connected by edges.
pub pack_kruskal_with_cores_lem :
    (ids : List ℕ) (edges : List PackEdge) (slots : ℕ) (explicit_cores : List (ℕ × ℕ))
    → length ids ≤ 256
    → All (IsPackable (contains ids)) edges
    → (clusters : List (List ℕ)) × (pack_kruskal_with_cores ids edges slots explicit_cores
        ≡ done clusters)
      × IsPartition ids (max slots 1) clusters
      × (All (IsConnected edges) clusters
          ⊎ (given : List ℕ) × (even_split given (max slots 1) ≡ done clusters))
unfolding pack_kruskal_with_cores
pack_kruskal_with_cores_lem [] edges slots explicit_cores few ok =
    ([], refl, record { bounded = omega arith; filled = tt; counts = λ f. refl }, inl tt)
pack_kruskal_with_cores_lem (id ∷ ids) [] slots explicit_cores few ok =
    let (clusters, split, parts) =
      even_split-IsPartition (id ∷ ids) (id ∷ ids) (max slots 1) (omega arith) (omega arith)
        (λ f. refl) in
    (clusters, split, parts, inr (id ∷ ids, split))
pack_kruskal_with_cores_lem (id ∷ ids) (e ∷ es) slots explicit_cores few ok =
    kruskal_run id ids e es slots explicit_cores few ok

-- What the entry does is what `pack_kruskal_with_cores` does without explicit cores, also when there is
-- no edge or no actor.
pub pack_actors-pack_kruskal_with_cores :
    (ids : List ℕ) (edges : List PackEdge) (slots : ℕ)
    → pack_actors ids edges slots ≡ pack_kruskal_with_cores ids edges slots []
unfolding pack_actors pack_kruskal pack_kruskal_with_cores even_split
pack_actors-pack_kruskal_with_cores [] [] slots = refl
pack_actors-pack_kruskal_with_cores [] (e ∷ es) slots = refl
pack_actors-pack_kruskal_with_cores (id ∷ ids) [] slots =
    let z : max slots 1 ≡ max (max slots 1) 1 = omega arith in
    ap
      (λ most.
        let n_clusters = min most (length (id ∷ ids)) in
        deal n_clusters 0 (id ∷ ids) (replicate n_clusters []) >>= λ clusters.
        done (retain clusters))
      z
pack_actors-pack_kruskal_with_cores (id ∷ ids) (e ∷ es) slots = refl
