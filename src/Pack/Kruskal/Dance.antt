-- ===== src/Pack/Kruskal/Dance.antt =====
-- The order of `linedance_order` in core/src/actor_builder/pack.rs: actors are taken when no edge into
-- them is left.
use mathlib.Core.Bool.{true≢false}
use mathlib.Core.List.{append-nil, append_assoc}
use steady_state_stack.Pack.Kruskal.Linedance.{is_inner}
use steady_state_stack.Pack.Edges.{PackEdge}
use steady_state_stack.Pack.Kruskal.Counting.{
  occurs, occurs-append, one_if, tally, tally_add, tally_mono,
}
use steady_state_stack.Pack.Kruskal.Degrees.{is_arc, is_into}
use steady_state_stack.Common.{
  ==_iff, Bool, List, [], ap, arith, contains, false, refl, subst, sym, true, ℕ, ℕ_discrete, ◌&&◌,
  ◌++◌, ◌+◌, ◌==◌, ◌∙◌, ◌∷◌, ◌≡◌, ◌≤◌,
}

-- Every edge of the cluster into one of these comes from one before it.
abbrev pub IsForward : List ℕ → List PackEdge → List ℕ → List ℕ → Type 0
IsForward cluster edges seen [] = Unit
IsForward cluster edges seen (v ∷ vs) =
    ((u : ℕ) → 1 ≤ tally (is_arc cluster u v) edges → 1 ≤ occurs u seen)
    × IsForward cluster edges (seen ++ v ∷ []) vs

-- The edges into `v` from actors that are not taken yet.
abbrev pub is_left : List ℕ → List ℕ → ℕ → PackEdge → Bool
is_left cluster taken v e = is_into cluster v e && (occurs e.from taken == 0)

abbrev pub pending : List ℕ → List PackEdge → List ℕ → ℕ → ℕ
pending cluster edges taken v = tally (is_left cluster taken v) edges

pub record IsTaken (cluster : List ℕ) (edges : List PackEdge) (ordered : List ℕ) : Type 0 where
  pub once :
      (v : ℕ)
      → contains cluster v ≡ true
      → occurs v ordered ≡ one_if (pending cluster edges ordered v == 0)
  pub inside : (v : ℕ) → contains cluster v ≡ false → occurs v ordered ≡ 0
  pub forward : IsForward cluster edges [] ordered

split_test :
    (a f t o o' : Bool)
    → one_if o ≡ one_if f + one_if o'
    → one_if ((a && t) && o) ≡ one_if (a && f && t) + one_if ((a && t) && o')
split_test true true true o o' h = h
split_test true false true o o' h = h
split_test true true false o o' h = refl
split_test true false false o o' h = refl
split_test false f t o o' h = refl

left_test : (a f t o : Bool) → (f ≡ true → o ≡ true) → (a && f && t) ≡ true → ((a && t) && o) ≡ true
left_test true true true o h k = h refl
left_test true true false o h k = k
left_test true false t o h k = absurd (true≢false (sym k))
left_test false f t o h k = k

module _ (cluster : List ℕ) (edges : List PackEdge) where
  pub IsForward-snoc :
      (seen vs : List ℕ) (v : ℕ)
      → IsForward cluster edges seen vs
      → ((u : ℕ) → 1 ≤ tally (is_arc cluster u v) edges → 1 ≤ occurs u (seen ++ vs))
      → IsForward cluster edges seen (vs ++ v ∷ [])
  IsForward-snoc seen [] v h k =
      (λ u arc. subst (λ xs. 1 ≤ occurs u xs) (append-nil seen) (k u arc), tt)
  IsForward-snoc seen (w ∷ vs) v h k = (
    h.0,
    IsForward-snoc (seen ++ w ∷ []) vs v h.1
        (λ u arc. subst (λ xs. 1 ≤ occurs u xs) (sym (append_assoc seen (w ∷ []) vs)) (k u arc)),
  )

  -- To take `id` takes the edges out of it.
  pub pending-take :
      (taken : List ℕ) (id v : ℕ)
      → occurs id taken ≡ 0
      → pending cluster edges taken v
        ≡ tally (is_arc cluster id v) edges + pending cluster edges (taken ++ id ∷ []) v
  pending-take taken id v fresh =
      tally_add (is_left cluster taken v) (is_arc cluster id v)
        (is_left cluster (taken ++ id ∷ []) v) edges (λ e. each e)
    where
      each :
          (e : PackEdge)
          → one_if (is_left cluster taken v e)
            ≡ one_if (is_arc cluster id v e) + one_if (is_left cluster (taken ++ id ∷ []) v e)
      each e =
          split_test (is_inner cluster e) (e.from == id) (e.to == v) (occurs e.from taken == 0)
            (occurs e.from (taken ++ id ∷ []) == 0)
            (rw (occurs-append e.from taken (id ∷ [])) (elim (ℕ_discrete id e.from) [
              | yes same ↦
                  let zero_before : occurs e.from taken ≡ 0 =
                    ap (λ i. occurs i taken) (sym same) ∙ fresh in
                  ground (arith, (==_iff id e.from).1 same, (==_iff e.from id).1 (sym same))
              | no other ↦ ground arith
            ]))

  -- An edge from an actor that is not taken yet is left.
  pub pending-some :
      (taken : List ℕ) (u v : ℕ)
      → pending cluster edges taken v ≡ 0
      → 1 ≤ tally (is_arc cluster u v) edges
      → 1 ≤ occurs u taken
  pending-some taken u v none_left arc = elim (ℕ_discrete (occurs u taken) 0) [
    | yes fresh ↦
        let more = tally_mono (is_arc cluster u v) (is_left cluster taken v) edges (λ e.
          left_test (is_inner cluster e) (e.from == u) (e.to == v) (occurs e.from taken == 0) (λ t.
            (==_iff (occurs e.from taken) 0).1
              (ap (λ i. occurs i taken) ((==_iff e.from u).0 t) ∙ fresh))) in
        absurd (omega (arith, more))
    | no there ↦ omega arith
  ]
