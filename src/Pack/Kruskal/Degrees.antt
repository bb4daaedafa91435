-- ===== src/Pack/Kruskal/Degrees.antt =====
-- The maps that `linedance_order` of core/src/actor_builder/pack.rs builds from the edges.
use mathlib.Core.Bool.{true≢false}
use steady_state_stack.Pack.Edges.{PackEdge}
use steady_state_stack.Pack.Kruskal.Linedance.{
  Dance, add_edge, add_edges, blank, first_ready, is_inner, push_ready,
}
use steady_state_stack.Pack.Kruskal.Counting.{
  occurs, occurs-append, occurs-push_ready, one_if, tally,
}
use steady_state_stack.Common.{
  ==_iff, ==_ne, ==_self, Bool, Bool-cases, IsUnique, IsUnique-collect, IsUnique-insert, List,
  Option, [], ap, arith, contains, done, false, if_intro, index, inl, inr, insert, lookup,
  lookup-collect, lookup-collect_absent, lookup-insert_ne, lookup-insert_self, none, not, refl,
  some, subst, sym, true, ℕ, ℕ_discrete, ◌&&◌, ◌++◌, ◌+◌, ◌==◌, ◌>>=◌, ◌∙◌, ◌∷◌, ◌≡◌,
}

-- Is it an edge of the cluster from `u` to `v`, or into `v`?
abbrev pub is_arc : List ℕ → ℕ → ℕ → PackEdge → Bool
is_arc cluster u v e = is_inner cluster e && (e.from == u) && (e.to == v)

abbrev pub is_into : List ℕ → ℕ → PackEdge → Bool
is_into cluster v e = is_inner cluster e && (e.to == v)

-- What the maps say: the degree of each actor of the cluster, and how often it leads to another.
pub record Describes (cluster : List ℕ) (s : Dance) (into : ℕ → ℕ) (arcs : ℕ → ℕ → ℕ) : Type 0 where
  pub unique : IsUnique s.indeg
  pub absent : (v : ℕ) → contains cluster v ≡ false → lookup s.indeg v ≡ none
  pub degree : (v : ℕ) → contains cluster v ≡ true → lookup s.indeg v ≡ some (into v)
  pub targets :
      (u : ℕ)
      → contains cluster u ≡ true
      → (tos : List ℕ) × (lookup s.outs u ≡ some tos) × ((v : ℕ) → occurs v tos ≡ arcs u v)

Describes-blank : (cluster : List ℕ) → Describes cluster (blank cluster) (λ v. 0) (λ u v. 0)
Describes-blank cluster = record {
  unique = IsUnique-collect (λ _. 0) cluster [] tt;
  absent = λ v h. lookup-collect_absent (λ _. 0) cluster [] v h;
  degree = λ v h. lookup-collect (λ _. 0) cluster [] v h;
  targets = λ u h. ([], lookup-collect {A = List ℕ} (λ _. []) cluster [] u h, λ v. refl);
}

-- What an edge of the cluster adds.
Describes-add_edge :
    (cluster : List ℕ) (e : PackEdge) (s : Dance) (into : ℕ → ℕ) (arcs : ℕ → ℕ → ℕ)
    → contains cluster e.from ≡ true
    → contains cluster e.to ≡ true
    → Describes cluster s into arcs
    → (after : Dance) × (add_edge e s ≡ done after)
      × Describes cluster after
          (λ v. one_if (e.to == v) + into v)
          (λ u v. one_if ((e.from == u) && (e.to == v)) + arcs u v)
Describes-add_edge cluster e s into arcs hf ht h =
    let (tos, at, occ) = h.targets e.from hf in
    (
      record {
        indeg = insert s.indeg e.to (into e.to + 1);
        outs = insert s.outs e.from (tos ++ e.to ∷ []);
      },
      rw (index, at) (rw (index, h.degree e.to ht) refl),
      record {
        unique = IsUnique-insert s.indeg e.to (into e.to + 1) h.unique;
        absent = λ v hv.
            lookup-insert_ne s.indeg e.to v (into e.to + 1)
              (λ same. true≢false (sym (subst (λ i. contains cluster i ≡ true) same ht) ∙ hv))
            ∙ h.absent v hv;
        degree = λ v hv. elim (ℕ_discrete e.to v) [
          | yes same ↦
              subst
                (λ i.
                  lookup (insert s.indeg e.to (into e.to + 1)) i
                  ≡ some (one_if (e.to == i) + into i))
                same
                (lookup-insert_self s.indeg e.to (into e.to + 1)
                  ∙ ap some (ground (arith, ==_self e.to)))
          | no other ↦
              lookup-insert_ne s.indeg e.to v (into e.to + 1) other
              ∙ h.degree v hv
              ∙ ap some (ground arith)
        ];
        targets = λ u hu. elim (ℕ_discrete e.from u) [
          | yes same ↦ (
            tos ++ e.to ∷ [],
            subst
                (λ i. lookup (insert s.outs e.from (tos ++ e.to ∷ [])) i ≡ some (tos ++ e.to ∷ []))
                same (lookup-insert_self s.outs e.from (tos ++ e.to ∷ [])),
            λ v.
                rw ((==_iff e.from u).1 same)
                  (omega (arith, occurs-append v tos (e.to ∷ []), occ v ∙ ap (λ i. arcs i v) same)),
          )
          | no other ↦
              let (own, at', occ') = h.targets u hu in
              (
                own,
                lookup-insert_ne s.outs e.from u (tos ++ e.to ∷ []) other ∙ at',
                λ v. rw (==_ne e.from u other) (omega (arith, occ' v)),
              )
        ];
      },
    )

&&-cases : (a b c : Bool) → (a && b && c) ≡ true → (a ≡ true) × (b ≡ true)
&&-cases true true c h = (refl, refl)
&&-cases true false c h = absurd (true≢false (sym h))
&&-cases false b c h = absurd (true≢false (sym h))

pub Describes-eq :
    (cluster : List ℕ) (s : Dance) (into into' : ℕ → ℕ) (arcs arcs' : ℕ → ℕ → ℕ)
    → ((v : ℕ) → into v ≡ into' v)
    → ((u v : ℕ) → arcs u v ≡ arcs' u v)
    → Describes cluster s into arcs
    → Describes cluster s into' arcs'
Describes-eq cluster s into into' arcs arcs' p q h = record {
  unique = h.unique;
  absent = h.absent;
  degree = λ v hv. h.degree v hv ∙ ap some (p v);
  targets = λ u hu. let (tos, at, occ) = h.targets u hu in (tos, at, λ v. occ v ∙ q u v);
}

-- The maps count the edges of the cluster.
add_edges_lem :
    (cluster : List ℕ) (es : List PackEdge) (s : Dance) (into : ℕ → ℕ) (arcs : ℕ → ℕ → ℕ)
    → Describes cluster s into arcs
    → (after : Dance) × (add_edges cluster es s ≡ done after)
      × Describes cluster after
          (λ v. tally (is_into cluster v) es + into v)
          (λ u v. tally (is_arc cluster u v) es + arcs u v)
unfolding add_edges
add_edges_lem cluster [] s into arcs h = (
  s,
  refl,
  Describes-eq cluster s into (λ v. 0 + into v) arcs (λ u v. 0 + arcs u v) (λ v. omega arith)
      (λ u v. omega arith) h,
)
add_edges_lem cluster (e ∷ es) s into arcs h = elim (Bool-cases (is_inner cluster e)) [
  | inl t ↦
      let (hf, ht) =
        &&-cases (contains cluster e.from) (contains cluster e.to) (not (e.from == e.to)) t in
      let (next, step, says) = Describes-add_edge cluster e s into arcs hf ht h in
      let (after, run, says') =
        add_edges_lem cluster es next (λ v. one_if (e.to == v) + into v)
          (λ u v. one_if ((e.from == u) && (e.to == v)) + arcs u v) says in
      (
        after,
        rw (add_edges, t) (rw (◌>>=◌, step) run),
        Describes-eq cluster after
            (λ v. tally (is_into cluster v) es + (one_if (e.to == v) + into v))
            (λ v. one_if (is_into cluster v e) + tally (is_into cluster v) es + into v)
            (λ u v.
              tally (is_arc cluster u v) es + (one_if ((e.from == u) && (e.to == v)) + arcs u v))
            (λ u v. one_if (is_arc cluster u v e) + tally (is_arc cluster u v) es + arcs u v)
            (λ v. rw (is_into, t) (omega arith)) (λ u v. rw (is_arc, t) (omega arith)) says',
      )
  | inr t ↦
      let (after, run, says) = add_edges_lem cluster es s into arcs h in
      (
        after,
        rw (add_edges, t) run,
        Describes-eq cluster after (λ v. tally (is_into cluster v) es + into v)
            (λ v. one_if (is_into cluster v e) + tally (is_into cluster v) es + into v)
            (λ u v. tally (is_arc cluster u v) es + arcs u v)
            (λ u v. one_if (is_arc cluster u v e) + tally (is_arc cluster u v) es + arcs u v)
            (λ v. rw (is_into, t) (omega arith)) (λ u v. rw (is_arc, t) (omega arith)) says,
      )
]

pub add_edges-blank :
    (cluster : List ℕ) (es : List PackEdge)
    → (s : Dance) × (add_edges cluster es (blank cluster) ≡ done s)
      × Describes cluster s
          (λ v. tally (is_into cluster v) es)
          (λ u v. tally (is_arc cluster u v) es)
add_edges-blank cluster es =
    let (s, run, says) =
      add_edges_lem cluster es (blank cluster) (λ v. 0) (λ u v. 0) (Describes-blank cluster) in
    (
      s,
      run,
      Describes-eq cluster s (λ v. tally (is_into cluster v) es + 0)
          (λ v. tally (is_into cluster v) es) (λ u v. tally (is_arc cluster u v) es + 0)
          (λ u v. tally (is_arc cluster u v) es) (λ v. omega arith) (λ u v. omega arith) says,
    )

-- One for an actor without edges into it, none for a missing one.
abbrev pub is_free : Option ℕ → ℕ
is_free none = 0
is_free (some d) = one_if (d == 0)

pub occurs-first_ready :
    (v : ℕ) (indeg : List (ℕ × ℕ))
    → IsUnique indeg
    → occurs v (first_ready indeg) ≡ is_free (lookup indeg v)
occurs-first_ready v [] h = refl
occurs-first_ready v ((id, d) ∷ indeg) h = elim (Bool-cases (id == v)) [
  | inl e ↦
      let gone : occurs v (first_ready indeg) ≡ 0 =
        occurs-first_ready v indeg h.1
        ∙ ap is_free (ap (lookup indeg) (sym ((==_iff id v).0 e)) ∙ h.0) in
      rw (lookup, e)
        (if_intro (λ xs. occurs v xs ≡ one_if (d == 0)) (d == 0) (push_ready id (first_ready indeg))
          (first_ready indeg)
          (λ t. rw t (omega (arith, occurs-push_ready v id (first_ready indeg), ap one_if e, gone)))
          (λ t. rw t gone))
  | inr e ↦
      let rest = occurs-first_ready v indeg h.1 in
      rw (lookup, e)
        (if_intro (λ xs. occurs v xs ≡ is_free (lookup indeg v)) (d == 0)
          (push_ready id (first_ready indeg)) (first_ready indeg)
          (λ t. ground (arith, occurs-push_ready v id (first_ready indeg))) (λ t. rest))
]
