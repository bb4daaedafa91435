-- ===== src/Pack/Kruskal/Loop.antt =====
-- The loop over the edges in core/src/actor_builder/pack.rs.
use mathlib.Core.Bool.{true≢false}
use steady_state_stack.Pack.Edges.{BundleFamily, PackEdge}
use steady_state_stack.Pack.UnionFind.{HasRoot, Keeps, find, find_lem}
use steady_state_stack.Pack.Union.{IsForest, IsForest-Keeps}
use steady_state_stack.Pack.Kruskal.{
  any_in, consumers, is_family, is_held_back, would_merge_bundle_siblings,
}
use steady_state_stack.Common.{
  All, Bool, Bool-cases, List, Option, Option-cases, [], done, false, get_elem?, if_intro, inl, inr,
  ltb, none, not, refl, some, suc, sym, true, ℕ, ◌&&◌, ◌<◌, ◌==◌, ◌>>=◌, ◌∷◌, ◌≡◌,
}

-- A bundle's consumers are packed themselves: without that the sibling rule looks up a missing key.
abbrev pub IsPackable : (ℕ → Bool) → PackEdge → Type 0
IsPackable keys e = (fam : BundleFamily) → e.bundle_family ≡ some fam → keys e.to ≡ true

-- Connected by edges, in either direction.
pub data Linked (edges : List PackEdge) : ℕ → ℕ → Type 0 where
  same : (x : ℕ) → Linked edges x x
  along : (i : ℕ) (e : PackEdge) → get_elem? edges i ≡ some e → Linked edges e.from e.to
  back : (x y : ℕ) → Linked edges x y → Linked edges y x
  both : (x y z : ℕ) → Linked edges x y → Linked edges y z → Linked edges x z

All-of {ℓ κ} :
    {A : Type ℓ} (P : A → Type κ) (xs : List A)
    → ((i : ℕ) (a : A) → get_elem? xs i ≡ some a → P a)
    → All P xs
All-of P [] h = tt
All-of P (x ∷ xs) h = (h 0 x refl, All-of P xs λ i. h (suc i))

pub All-along : (edges : List PackEdge) → All (λ e. Linked edges e.from e.to) edges
All-along edges = All-of (λ e. Linked edges e.from e.to) edges λ i e at. Linked.along i e at

&&-left : (a b : Bool) → (a && b) ≡ true → a ≡ true
&&-left true b h = refl
&&-left false b h = h

is_family-some :
    (fam : BundleFamily) (o : Option BundleFamily)
    → is_family fam o ≡ true
    → (own : BundleFamily) × (o ≡ some own)
is_family-some fam none h = absurd (true≢false (sym h))
is_family-some fam (some own) h = (own, refl)

All-consumers :
    (keys : ℕ → Bool) (fam : BundleFamily) (edges : List PackEdge)
    → All (IsPackable keys) edges
    → All (λ c. keys c ≡ true) (consumers fam edges)
All-consumers keys fam [] h = tt
All-consumers keys fam (e ∷ es) h =
    let rest = All-consumers keys fam es h.1 in
    if_intro (All (λ c. keys c ≡ true)) (is_family fam e.bundle_family && (e.from == fam.producer))
      (e.to ∷ consumers fam es) (consumers fam es)
      (λ t.
        let (own, at) =
          is_family-some fam e.bundle_family
            (&&-left (is_family fam e.bundle_family) (e.from == fam.producer) t) in
        (h.0 own at, rest))
      (λ _. rest)

module _ (keys : ℕ → Bool) (n : ℕ) (rank : List (ℕ × ℕ)) (fuel : ℕ) (enough : n < fuel) where
  -- `find` on an item that is there.
  pub find_done :
      (parent : List (ℕ × ℕ)) (x : ℕ)
      → IsForest keys n parent rank
      → keys x ≡ true
      → (r : ℕ) × (after : List (ℕ × ℕ)) × (find fuel parent x ≡ done (r, after))
        × HasRoot parent n x r
        × IsForest keys n after rank
        × Keeps parent after
  find_done parent x f h =
      let (r, root) = f.rooted x h in
      let (after, found, kept) = find_lem fuel n parent x r enough root in
      (r, after, found, root, IsForest-Keeps keys n parent after rank f kept, kept)

  any_in_done :
      (parent : List (ℕ × ℕ)) (root : ℕ) (cs : List ℕ)
      → IsForest keys n parent rank
      → All (λ c. keys c ≡ true) cs
      → (b : Bool) × (any_in fuel parent root cs ≡ done b)
  any_in_done parent root [] f h = (false, refl)
  any_in_done parent root (c ∷ cs) f h =
      let (r, after, found, at, forest, kept) = find_done parent c f h.0 in
      let (b, rest) = any_in_done parent root cs f h.1 in
      elim (Bool-cases (r == root)) [
        | inl e ↦ (true, rw (any_in, found) (rw (◌>>=◌, e) refl))
        | inr e ↦ (b, rw (any_in, found) (rw (◌>>=◌, e) rest))
      ]

  would_merge_done :
      (parent : List (ℕ × ℕ)) (edges : List PackEdge) (a b : ℕ) (fam : BundleFamily)
      → IsForest keys n parent rank
      → All (IsPackable keys) edges
      → keys a ≡ true
      → keys b ≡ true
      → (siblings : Bool) × (would_merge_bundle_siblings fuel parent edges a b fam ≡ done siblings)
  unfolding would_merge_bundle_siblings
  would_merge_done parent edges a b fam f ok ha hb =
      let (ra, p1, found_a, root_a, f1, kept_a) = find_done parent a f ha in
      let (rb, p2, found_b, root_b, f2, kept_b) = find_done p1 b f1 hb in
      let among = All-consumers keys fam edges ok in
      let (a_has, search_a) = any_in_done parent ra (consumers fam edges) f among in
      let (b_has, search_b) = any_in_done parent rb (consumers fam edges) f among in
      rw found_a (
        rw (◌>>=◌, found_b)
          (elim (Bool-cases (ra == rb)) [
            | inl e ↦ (false, rw (◌>>=◌, e) refl)
            | inr e ↦ (a_has && b_has, rw (◌>>=◌, e) (rw search_a (rw (◌>>=◌, search_b) refl)))
          ]))

  pub is_held_back_done :
      (slots cluster_count : ℕ) (parent : List (ℕ × ℕ)) (edges : List PackEdge) (e : PackEdge)
      → IsForest keys n parent rank
      → All (IsPackable keys) edges
      → keys e.from ≡ true
      → keys e.to ≡ true
      → (held : Bool) × (is_held_back fuel slots parent edges cluster_count e ≡ done held)
  unfolding is_held_back
  is_held_back_done slots cluster_count parent edges e f ok hf ht =
      elim (Option-cases e.bundle_family) [
        | inl plain ↦ (false, rw plain refl)
        | inr (fam, at) ↦
            let (siblings, found) = would_merge_done parent edges e.from e.to fam f ok hf ht in
            rw at
              (elim (Bool-cases (
                not (e.from == fam.producer)
                && not (e.to == fam.producer)
                && ltb slots cluster_count)) [
                  | inl t ↦ (true, rw t refl)
                  | inr t ↦ (siblings && ltb slots cluster_count, rw t (rw found refl))
                ])
      ]
