-- ===== src/Pack/Kruskal.antt =====
-- `pack_kruskal_with_cores` of core/src/actor_builder/pack.rs: clusters grown along the smallest
-- channels. `explicit_cores` is a map; the fuel of each `find` is the number of actors.
pub mod Loop
pub mod Merge
pub mod Linedance
pub mod Counting
pub mod Degrees
pub mod Release
pub mod Dance
pub mod Order
pub mod Ordered
pub mod Clusters
pub mod Groups
pub mod Connected
pub mod Partition
mod Tests
use steady_state_stack.Pack.Edges.{BundleFamily, PackEdge}
use steady_state_stack.Pack.UnionFind.{find, union}
use steady_state_stack.Common.{
  Bool, List, Option, Outcome, [], contains_key, done, false, if◌then◌else◌, leb, lookup, ltb, none,
  not, some, true, ℕ, ◌&&◌, ◌++◌, ◌-◌, ◌==◌, ◌>>=◌, ◌||◌, ◌∷◌,
}

pub record Merging : Type 0 where
  pub parent : List (ℕ × ℕ)
  pub rank : List (ℕ × ℕ)
  pub cluster_count : ℕ

-- `e.bundle_family == Some(fam)`.
abbrev pub is_family : BundleFamily → Option BundleFamily → Bool
is_family fam none = false
is_family fam (some own) = (own.producer == fam.producer) && (own.family_key == fam.family_key)

abbrev pub consumers : BundleFamily → List PackEdge → List ℕ
consumers fam [] = []
consumers fam (e ∷ es) =
    let rest = consumers fam es in
    if is_family fam e.bundle_family && (e.from == fam.producer) then e.to ∷ rest else rest

-- Is one of them in the set of `root`? The search stops at the first that is.
abbrev pub any_in : ℕ → List (ℕ × ℕ) → ℕ → List ℕ → Outcome Bool
any_in fuel parent root [] = done false
any_in fuel parent root (c ∷ cs) = find fuel parent c >>= λ found. elim (found.0 == root) [
  | true ↦ done true
  | false ↦ any_in fuel parent root cs
]

pub would_merge_bundle_siblings :
    ℕ → List (ℕ × ℕ) → List PackEdge → ℕ → ℕ → BundleFamily → Outcome Bool
would_merge_bundle_siblings fuel parent edges a b fam = find fuel parent a >>= λ found_a.
    find fuel found_a.1 b >>= λ found_b.
    if found_a.0 == found_b.0
    then done false
    else any_in fuel parent found_a.0 (consumers fam edges) >>= λ a_has.
        any_in fuel parent found_b.0 (consumers fam edges) >>= λ b_has. done (a_has && b_has)

-- Two actors with explicit cores that differ.
abbrev pub is_core_conflict : List (ℕ × ℕ) → PackEdge → Bool
is_core_conflict explicit_cores e = elim (lookup explicit_cores e.from) [
  | none ↦ false
  | some ca ↦ elim (lookup explicit_cores e.to) [ none ↦ false | some cb ↦ not (ca == cb) ]
]

-- Does the bundle-sibling rule skip the edge?
pub is_held_back : ℕ → ℕ → List (ℕ × ℕ) → List PackEdge → ℕ → PackEdge → Outcome Bool
is_held_back fuel slots parent edges cluster_count e = elim e.bundle_family [
  | none ↦ done false
  | some fam ↦
      if not (e.from == fam.producer) && not (e.to == fam.producer) && ltb slots cluster_count
      then done true
      else would_merge_bundle_siblings fuel parent edges e.from e.to fam >>= λ siblings.
          done (siblings && ltb slots cluster_count)
]

abbrev pub merged : Merging → Bool × List (ℕ × ℕ) × List (ℕ × ℕ) → Merging
merged s (united, parent, rank) = record {
  parent = parent;
  rank = rank;
  cluster_count = if united then s.cluster_count - 1 else s.cluster_count;
}

-- The body of the loop, for an edge that is reached.
pub merge_edge : ℕ → ℕ → List (ℕ × ℕ) → List PackEdge → PackEdge → Merging → Outcome Merging
merge_edge fuel slots explicit_cores edges e s =
    if not (contains_key s.parent e.from) || not (contains_key s.parent e.to)
    then done s
    else if is_core_conflict explicit_cores e
    then done s
    else is_held_back fuel slots s.parent edges s.cluster_count e >>= λ held.
        if held
        then done s
        else union fuel s.parent s.rank e.from e.to >>= λ result. done (merged s result)

pub merge_edges : ℕ → ℕ → List (ℕ × ℕ) → List PackEdge → List PackEdge → Merging → Outcome Merging
merge_edges fuel slots explicit_cores edges [] s = done s
merge_edges fuel slots explicit_cores edges (e ∷ sorted) s = elim (leb s.cluster_count slots) [
  | true ↦ done s
  | false ↦
      merge_edge fuel slots explicit_cores edges e s
      >>= merge_edges fuel slots explicit_cores edges sorted
]

-- `groups.entry(root).or_default().push(id)`, the keys ascending.
pub push_group : List (ℕ × List ℕ) → ℕ → ℕ → List (ℕ × List ℕ)
push_group [] root id = (root, id ∷ []) ∷ []
push_group ((key, c) ∷ groups) root id =
    let rest = push_group groups root id in
    if key == root
    then (key, c ++ id ∷ []) ∷ groups
    else if ltb root key
    then (root, id ∷ []) ∷ (key, c) ∷ groups
    else (key, c) ∷ rest

pub group_all : ℕ → List ℕ → List (ℕ × ℕ) → List (ℕ × List ℕ) → Outcome (List (ℕ × List ℕ))
group_all fuel [] parent groups = done groups
group_all fuel (id ∷ ids) parent groups =
    find fuel parent id >>= λ found. group_all fuel ids found.1 (push_group groups found.0 id)

pub flatten : List (List ℕ) → List ℕ
flatten [] = []
flatten (c ∷ clusters) = c ++ flatten clusters
