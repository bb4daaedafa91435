-- ===== src/Pack/Kruskal/Merge.antt =====
-- What one edge, and the loop over the edges, does in core/src/actor_builder/pack.rs.
use mathlib.Core.Bool.{true≢false}
use steady_state_stack.Pack.Edges.{PackEdge}
use steady_state_stack.Pack.UnionFind.{HasRoot, HasRoot-contains_key, HasRoot-unique, union}
use steady_state_stack.Pack.Union.{IsForest, relinked, union_lem}
use steady_state_stack.Pack.Kruskal.{Merging, is_core_conflict, merge_edge, merge_edges, merged}
use steady_state_stack.Pack.Kruskal.Loop.{IsPackable, Linked, is_held_back_done}
use steady_state_stack.Common.{
  ==_iff, All, Bool, Bool-cases, List, [], arith, contains_key, done, false, if_intro, inl, inr,
  leb, not, refl, subst, suc, sym, true, ℕ, ℕ_discrete, ◌+◌, ◌<◌, ◌==◌, ◌>>=◌, ◌||◌, ◌∙◌, ◌∷◌, ◌≡◌,
  ◌≤◌, ◌⊎◌,
}

-- After `n` merges: a forest of the actors, `n` clusters fewer than actors, and the actors of one
-- cluster are connected.
pub record IsMerging (keys : ℕ → Bool) (total : ℕ) (edges : List PackEdge) (s : Merging)
    : Type 0 where
  pub merges : ℕ
  pub left : merges + s.cluster_count ≡ total
  pub some_cluster : 1 ≤ s.cluster_count
  pub forest : IsForest keys merges s.parent s.rank
  pub linked : (n x r : ℕ) → HasRoot s.parent n x r → Linked edges x r

-- The merge of two connected roots connects the items of both.
Linked-after :
    (edges : List PackEdge) (a b ra rb u w x r : ℕ)
    → Linked edges a b
    → Linked edges a ra
    → Linked edges b rb
    → ((u ≡ ra) × (w ≡ rb)) ⊎ ((u ≡ rb) × (w ≡ ra))
    → Linked edges x r
    → Linked edges x (relinked u w r)
Linked-after edges a b ra rb u w x r ab at_a at_b which xr =
    if_intro (Linked edges x) (r == u) w r (λ t. moved which ((==_iff r u).0 t)) (λ _. xr)
  where
    roots : Linked edges ra rb
    roots = Linked.both ra a rb (Linked.back a ra at_a) (Linked.both a b rb ab at_b)

    moved : ((u ≡ ra) × (w ≡ rb)) ⊎ ((u ≡ rb) × (w ≡ ra)) → r ≡ u → Linked edges x w
    moved (inl (p, q)) e =
        Linked.both x ra w (subst (Linked edges x) (e ∙ p) xr)
          (subst (Linked edges ra) (sym q) roots)
    moved (inr (p, q)) e =
        Linked.both x rb w (subst (Linked edges x) (e ∙ p) xr)
          (subst (Linked edges rb) (sym q) (Linked.back ra rb roots))

-- When every item's root moves, by what `after` says, to one it is connected with.
pub Linked-moved :
    (keys : ℕ → Bool) (n m : ℕ) (edges : List PackEdge) (parent rank after rank' : List (ℕ × ℕ))
    (move : ℕ → ℕ)
    → IsForest keys n parent rank
    → IsForest keys m after rank'
    → ((y s : ℕ) → HasRoot parent n y s → HasRoot after m y (move s))
    → ((y s : ℕ) → HasRoot parent n y s → Linked edges y (move s))
    → (k y r : ℕ) → HasRoot after k y r
    → Linked edges y r
Linked-moved keys n m edges parent rank after rank' move f g roots links k y r h =
    let (s, root) = f.rooted y (sym (g.same_keys y) ∙ HasRoot-contains_key after k y r h) in
    subst (Linked edges y) (HasRoot-unique after m k y (move s) r (roots y s root) h)
      (links y s root)

neither : (a b : Bool) → (not a || not b) ≡ false → (a ≡ true) × (b ≡ true)
neither true true h = (refl, refl)
neither true false h = absurd (true≢false h)
neither false b h = absurd (true≢false h)

module _ (keys : ℕ → Bool) (total : ℕ) (edges : List PackEdge) (few : total ≤ 256) (slots : ℕ)
    (some_slot : 1 ≤ slots) (explicit_cores : List (ℕ × ℕ)) (ok : All (IsPackable keys) edges) where
  union_merging :
      (e : PackEdge) (s : Merging)
      → slots < s.cluster_count
      → Linked edges e.from e.to
      → keys e.from ≡ true
      → keys e.to ≡ true
      → IsMerging keys total edges s
      → (result : Bool × List (ℕ × ℕ) × List (ℕ × ℕ)) × (union total s.parent s.rank e.from e.to
          ≡ done result)
        × IsMerging keys total edges (merged s result)
  union_merging e s more link hf ht h =
      let n = h.merges in
      let (ra, root_a) = h.forest.rooted e.from hf in
      let (rb, root_b) = h.forest.rooted e.to ht in
      let (alike, apart) =
        union_lem keys n s.parent s.rank total e.from e.to ra rb h.forest (omega (arith, h.left))
          (omega (arith, h.left)) root_a root_b in
      elim (ℕ_discrete ra rb) [
        | yes e ↦
            let (after, found, forest, kept) = alike e in
            (
              (false, after, s.rank),
              found,
              record {
                merges = n;
                left = h.left;
                some_cluster = h.some_cluster;
                forest = forest;
                linked =
                    Linked-moved keys n n edges s.parent s.rank after s.rank (λ r. r) h.forest
                      forest (kept.roots n) (h.linked n);
              },
            )
        | no ne ↦
            let (u, w, after, rank', found, which, forest, moved) = apart ne in
            (
              (true, after, rank'),
              found,
              record {
                merges = suc n;
                left = omega (arith, h.left);
                some_cluster = omega arith;
                forest = forest;
                linked =
                    Linked-moved keys n (suc n) edges s.parent s.rank after rank' (relinked u w)
                      h.forest forest (moved n)
                      (λ y r k.
                        Linked-after edges e.from e.to ra rb u w y r link
                          (h.linked n e.from ra root_a) (h.linked n e.to rb root_b) which
                          (h.linked n y r k));
              },
            )
      ]

  merge_edge_done :
      (e : PackEdge) (s : Merging)
      → slots < s.cluster_count
      → Linked edges e.from e.to
      → IsMerging keys total edges s
      → (after : Merging) × (merge_edge total slots explicit_cores edges e s ≡ done after)
        × IsMerging keys total edges after
  unfolding merge_edge
  merge_edge_done e s more link h =
      elim (Bool-cases (not (contains_key s.parent e.from) || not (contains_key s.parent e.to))) [
        | inl t ↦ (s, rw t refl, h)
        | inr t ↦ rw t (elim (Bool-cases (is_core_conflict explicit_cores e)) [
          | inl c ↦ (s, rw c refl, h)
          | inr c ↦
              let (from_there, to_there) =
                neither (contains_key s.parent e.from) (contains_key s.parent e.to) t in
              let hf = sym (h.forest.same_keys e.from) ∙ from_there in
              let ht = sym (h.forest.same_keys e.to) ∙ to_there in
              let (held, found) =
                is_held_back_done keys h.merges s.rank total (omega (arith, h.left)) slots
                  s.cluster_count s.parent edges e h.forest ok hf ht in
              rw c (
                rw (◌>>=◌, found)
                  (elim (Bool-cases held) [
                    | inl b ↦ (s, rw b refl, h)
                    | inr b ↦
                        let (result, run, after) = union_merging e s more link hf ht h in
                        (merged s result, rw b (rw (◌>>=◌, run) refl), after)
                  ]))
        ])
      ]

  pub merge_edges_done :
      (sorted : List PackEdge) (s : Merging)
      → All (λ e. Linked edges e.from e.to) sorted
      → IsMerging keys total edges s
      → (after : Merging) × (merge_edges total slots explicit_cores edges sorted s ≡ done after)
        × IsMerging keys total edges after
  unfolding merge_edges
  merge_edges_done [] s links h = (s, refl, h)
  merge_edges_done (e ∷ sorted) s links h = elim (Bool-cases (leb s.cluster_count slots)) [
    | inl t ↦ (s, rw (merge_edges, t) refl, h)
    | inr t ↦
        let (next, step, kept) = merge_edge_done e s (ground arith) links.0 h in
        let (after, run, kept') = merge_edges_done sorted next links.1 kept in
        (after, rw (merge_edges, t) (rw (◌>>=◌, step) run), kept')
  ]
