-- ===== src/Pack/Kruskal/Linedance.antt =====
-- `linedance_order` of core/src/actor_builder/pack.rs: producers before consumers.
use steady_state_stack.Pack.Edges.{PackEdge}
use steady_state_stack.Common.{
  Bool, List, Outcome, [], collect, contains, done, false, if◌then◌else◌, index, insert, leb,
  length, lookup, none, not, panic, some, suc, true, zero, ℕ, ◌&&◌, ◌++◌, ◌+◌, ◌-◌, ◌==◌, ◌>>=◌,
  ◌∷◌,
}

pub record Dance : Type 0 where
  pub indeg : List (ℕ × ℕ)
  pub outs : List (ℕ × List ℕ)

-- The edges that count: between two different actors of the cluster.
abbrev pub is_inner : List ℕ → PackEdge → Bool
is_inner cluster e = contains cluster e.from && contains cluster e.to && not (e.from == e.to)

-- The maps of a cluster before any edge.
abbrev pub blank : List ℕ → Dance
blank cluster = record { indeg = collect (λ _. 0) cluster []; outs = collect (λ _. []) cluster [] }

abbrev pub add_edge : PackEdge → Dance → Outcome Dance
add_edge e s = index s.outs e.from >>= λ tos. index s.indeg e.to >>= λ d.
    done (record {
      indeg = insert s.indeg e.to (d + 1);
      outs = insert s.outs e.from (tos ++ e.to ∷ []);
    })

unfoldable pub add_edges : List ℕ → List PackEdge → Dance → Outcome Dance
add_edges cluster [] s = done s
add_edges cluster (e ∷ es) s = elim (is_inner cluster e) [
  | true ↦ add_edge e s >>= add_edges cluster es
  | false ↦ add_edges cluster es s
]

-- `ready`, the heap of which `pop` takes the least, as a list in ascending order.
abbrev pub push_ready : ℕ → List ℕ → List ℕ
push_ready k [] = k ∷ []
push_ready k (r ∷ ready) =
    let rest = push_ready k ready in if leb k r then k ∷ r ∷ ready else r ∷ rest

abbrev pub first_ready : List (ℕ × ℕ) → List ℕ
first_ready [] = []
first_ready ((id, d) ∷ indeg) =
    let rest = first_ready indeg in if d == 0 then push_ready id rest else rest

-- The edges out of an actor that was taken: a degree below zero panics.
unfoldable pub release : List ℕ → List (ℕ × ℕ) → List ℕ → Outcome (List (ℕ × ℕ) × List ℕ)
release [] indeg ready = done (indeg, ready)
release (to ∷ tos) indeg ready = index indeg to >>= λ d.
    if d == 0
    then panic
    else release tos (insert indeg to (d - 1)) (if d - 1 == 0 then push_ready to ready else ready)

-- `outs.get(&id).into_iter().flatten()`.
abbrev pub outs_of : List (ℕ × List ℕ) → ℕ → List ℕ
outs_of outs id = elim (lookup outs id) [ none ↦ [] | some tos ↦ tos ]

-- The actors in the order in which they are taken. Running out of fuel counts as a panic.
unfoldable pub take_ready :
    ℕ → List (ℕ × List ℕ) → List (ℕ × ℕ) → List ℕ → List ℕ → Outcome (List ℕ)
take_ready fuel outs indeg [] ordered = done ordered
take_ready zero outs indeg (id ∷ ready) ordered = panic
take_ready (suc fuel) outs indeg (id ∷ ready) ordered =
    release (outs_of outs id) indeg ready >>= λ next.
    take_ready fuel outs next.0 next.1 (ordered ++ id ∷ [])

unfoldable pub linedance_order : List ℕ → List PackEdge → Outcome (List ℕ)
linedance_order cluster edges =
    if leb (length cluster) 1
    then done cluster
    else add_edges cluster edges (blank cluster) >>= λ s.
        take_ready (length cluster) s.outs s.indeg (first_ready s.indeg) [] >>= λ ordered.
        done (if length ordered == length cluster then ordered else cluster)
