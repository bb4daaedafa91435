-- ===== src/Pack/Kruskal/Release.antt =====
-- The inner loop of `linedance_order` in core/src/actor_builder/pack.rs: the edges out of a taken actor.
use mathlib.Core.Bool.{true≢false}
use steady_state_stack.Pack.Kruskal.Linedance.{push_ready, release}
use steady_state_stack.Pack.Kruskal.Counting.{occurs, occurs-push_ready, one_if}
use steady_state_stack.Common.{
  ==_ne, ==_self, All, List, [], ap, arith, contains, done, false, if_intro, if◌then◌else◌, index,
  insert, lookup, lookup-insert_ne, lookup-insert_self, refl, some, subst, suc, sym, true, ℕ,
  ℕ_discrete, ◌+◌, ◌-◌, ◌==◌, ◌>>=◌, ◌∙◌, ◌∷◌, ◌≡◌, ◌≢◌,
}

-- An actor of the cluster is taken or ready, once, just when no edge is left into it: `base` says how
-- often each was taken, `left` how many edges into it are left.
pub record IsCounted (cluster : List ℕ) (left base : ℕ → ℕ) (indeg : List (ℕ × ℕ)) (ready : List ℕ)
    : Type 0 where
  pub degree : (v : ℕ) → contains cluster v ≡ true → lookup indeg v ≡ some (left v)
  pub once : (v : ℕ) → contains cluster v ≡ true → base v + occurs v ready ≡ one_if (left v == 0)

module _ (cluster : List ℕ) (left base : ℕ → ℕ) where
  IsCounted-step :
      (to : ℕ) (tos : List ℕ) (indeg : List (ℕ × ℕ)) (ready : List ℕ)
      → IsCounted cluster (λ v. occurs v (to ∷ tos) + left v) base indeg ready
      → let d = occurs to (to ∷ tos) + left to in
        IsCounted cluster
          (λ v. occurs v tos + left v)
          base
          (insert indeg to (d - 1))
          (if d - 1 == 0 then push_ready to ready else ready)
  IsCounted-step to tos indeg ready h =
      let d = occurs to (to ∷ tos) + left to in
      let known : d ≡ suc (occurs to tos + left to) = ground (arith, ==_self to) in
      record {
        degree = λ v hv. elim (ℕ_discrete to v) [
          | yes same ↦
              subst (λ i. lookup (insert indeg to (d - 1)) i ≡ some (occurs i tos + left i)) same
                (lookup-insert_self indeg to (d - 1) ∙ ap some (omega (arith, known)))
          | no other ↦
              lookup-insert_ne indeg to v (d - 1) other ∙ h.degree v hv ∙ ap some (ground arith)
        ];
        once = λ v hv. elim (ℕ_discrete to v) [
          | yes same ↦
              subst
                (λ i.
                  base i + occurs i (if d - 1 == 0 then push_ready to ready else ready)
                  ≡ one_if (occurs i tos + left i == 0))
                same
                (let before = h.once to (subst (λ i. contains cluster i ≡ true) (sym same) hv) in
                  if_intro (λ r. base to + occurs to r ≡ one_if (occurs to tos + left to == 0))
                    (d - 1 == 0) (push_ready to ready) ready
                    (λ t. ground (arith, occurs-push_ready to to ready, ==_self to, before, known))
                    (λ t. ground (arith, ==_self to, before, known)))
          | no other ↦
              let before = h.once v hv in
              if_intro (λ r. base v + occurs v r ≡ one_if (occurs v tos + left v == 0)) (d - 1 == 0)
                (push_ready to ready) ready
                (λ t. ground (arith, occurs-push_ready v to ready, before))
                (λ t. ground (arith, before))
        ];
      }

  pub release_lem :
      (tos : List ℕ) (indeg : List (ℕ × ℕ)) (ready : List ℕ)
      → All (λ to. contains cluster to ≡ true) tos
      → IsCounted cluster (λ v. occurs v tos + left v) base indeg ready
      → (indeg' : List (ℕ × ℕ)) × (ready' : List ℕ) × (release tos indeg ready
          ≡ done (indeg', ready'))
        × IsCounted cluster left base indeg' ready'
        × ((v : ℕ) → contains cluster v ≡ false → occurs v ready' ≡ occurs v ready)
  unfolding release
  release_lem [] indeg ready inside h = (
    indeg,
    ready,
    refl,
    record {
      degree = λ v hv. h.degree v hv ∙ ap some (omega arith);
      once = λ v hv.
          let same : 0 + left v ≡ left v = omega arith in
          h.once v hv ∙ ap (λ k. one_if (k == 0)) same;
    },
    λ v hv. refl,
  )
  release_lem (to ∷ tos) indeg ready inside h =
      let d = occurs to (to ∷ tos) + left to in
      let known : d ≡ suc (occurs to tos + left to) = ground (arith, ==_self to) in
      let more : (d == 0) ≡ false = ground arith in
      let next_ready = if d - 1 == 0 then push_ready to ready else ready in
      let (indeg', ready', run, counted, others) =
        release_lem tos (insert indeg to (d - 1)) next_ready inside.1
          (IsCounted-step to tos indeg ready h) in
      (
        indeg',
        ready',
        rw (index, h.degree to inside.0) (rw (◌>>=◌, more) run),
        counted,
        λ v hv.
            let other : to ≢ v = λ same.
              true≢false (sym (subst (λ i. contains cluster i ≡ true) same inside.0) ∙ hv) in
            others v hv
            ∙ if_intro (λ r. occurs v r ≡ occurs v ready) (d - 1 == 0) (push_ready to ready) ready
                (λ t. occurs-push_ready v to ready ∙ rw (==_ne to v other) (omega arith))
                (λ t. refl),
      )
