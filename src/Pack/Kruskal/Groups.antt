-- ===== src/Pack/Kruskal/Groups.antt =====
-- The clusters of `pack_kruskal_with_cores` in core/src/actor_builder/pack.rs: the actors by their root.
use steady_state_stack.Pack.EvenSplit.{count, count-append, count_all}
use steady_state_stack.Pack.Edges.{PackEdge}
use steady_state_stack.Pack.UnionFind.{HasRoot}
use steady_state_stack.Pack.Union.{IsForest}
use steady_state_stack.Pack.Kruskal.{group_all, push_group}
use steady_state_stack.Pack.Kruskal.Loop.{Linked, find_done}
use steady_state_stack.Pack.Kruskal.Merge.{Linked-moved}
use steady_state_stack.Common.{
  ==_iff, All, Bool, List, [], arith, done, if_intro, if◌then◌else◌, length, length-append, ltb,
  map, refl, subst, sym, true, ℕ, ◌++◌, ◌+◌, ◌<◌, ◌==◌, ◌>>=◌, ◌∷◌, ◌≡◌, ◌≤◌,
}

-- Not empty, and all connected with the root.
abbrev pub IsGroup : List PackEdge → ℕ × List ℕ → Type 0
IsGroup edges (root, c) = (1 ≤ length c) × All (λ x. Linked edges x root) c

All-append {ℓ κ} :
    {A : Type ℓ} (P : A → Type κ) (xs ys : List A) → All P xs → All P ys → All P (xs ++ ys)
All-append P [] ys h k = k
All-append P (x ∷ xs) ys h k = (h.0, All-append P xs ys h.1 k)

abbrev pub members : List (ℕ × List ℕ) → List (List ℕ)
members groups = map (λ g. g.1) groups

push_group-IsGroup :
    (edges : List PackEdge) (groups : List (ℕ × List ℕ)) (root id : ℕ)
    → Linked edges id root
    → All (IsGroup edges) groups
    → All (IsGroup edges) (push_group groups root id)
unfolding push_group
push_group-IsGroup edges [] root id link h = ((omega arith, (link, tt)), tt)
push_group-IsGroup edges ((key, c) ∷ groups) root id link h =
    if_intro (All (IsGroup edges)) (key == root) ((key, c ++ id ∷ []) ∷ groups)
      (if ltb root key
        then (root, id ∷ []) ∷ (key, c) ∷ groups
        else (key, c) ∷ push_group groups root id)
      (λ t. (
        (
          omega (arith, length-append c (id ∷ [])),
          All-append (λ x. Linked edges x key) c (id ∷ []) h.0.1
              (subst (Linked edges id) (sym ((==_iff key root).0 t)) link, tt),
        ),
        h.1,
      ))
      (λ _.
        if_intro (All (IsGroup edges)) (ltb root key) ((root, id ∷ []) ∷ (key, c) ∷ groups)
          ((key, c) ∷ push_group groups root id) (λ _. ((omega arith, (link, tt)), h))
          (λ _. (h.0, push_group-IsGroup edges groups root id link h.1)))

count_all-push_group :
    (f : ℕ → ℕ) (groups : List (ℕ × List ℕ)) (root id : ℕ)
    → count_all f (members (push_group groups root id)) ≡ f id + count_all f (members groups)
unfolding push_group
count_all-push_group f [] root id = omega arith
count_all-push_group f ((key, c) ∷ groups) root id =
    let goal : List (ℕ × List ℕ) → Type 0 =
      λ gs. count_all f (members gs) ≡ f id + (count f c + count_all f (members groups)) in
    if_intro goal (key == root) ((key, c ++ id ∷ []) ∷ groups)
      (if ltb root key
        then (root, id ∷ []) ∷ (key, c) ∷ groups
        else (key, c) ∷ push_group groups root id)
      (λ _. omega (arith, count-append f c (id ∷ [])))
      (λ _.
        if_intro goal (ltb root key) ((root, id ∷ []) ∷ (key, c) ∷ groups)
          ((key, c) ∷ push_group groups root id) (λ _. omega arith)
          (λ _. omega (arith, count_all-push_group f groups root id)))

-- The grouping returns, and has each actor as often as it was given, with actors it is connected to.
pub group_all_lem :
    (keys : ℕ → Bool) (n fuel : ℕ) (edges : List PackEdge) (rank : List (ℕ × ℕ)) (ids : List ℕ)
    (parent : List (ℕ × ℕ)) (groups : List (ℕ × List ℕ))
    → n < fuel
    → All (λ id. keys id ≡ true) ids
    → IsForest keys n parent rank
    → ((k x r : ℕ) → HasRoot parent k x r → Linked edges x r)
    → All (IsGroup edges) groups
    → (after : List (ℕ × List ℕ)) × (group_all fuel ids parent groups ≡ done after)
      × All (IsGroup edges) after
      × ((f : ℕ → ℕ) → count_all f (members after) ≡ count f ids + count_all f (members groups))
unfolding group_all
group_all_lem keys n fuel edges rank [] parent groups enough there forest linked h =
    (groups, refl, h, λ f. omega arith)
group_all_lem keys n fuel edges rank (id ∷ ids) parent groups enough there forest linked h =
    let (r, next, found, root, forest', kept) =
      find_done keys n rank fuel enough parent id forest there.0 in
    let (after, run, good, counts) =
      group_all_lem keys n fuel edges rank ids next (push_group groups r id) enough there.1 forest'
        (Linked-moved keys n n edges parent rank next rank (λ s. s) forest forest' (kept.roots n)
          (linked n))
        (push_group-IsGroup edges groups r id (linked n id r root) h) in
    (
      after,
      rw (◌>>=◌, found) run,
      good,
      λ f. omega (arith, counts f, count_all-push_group f groups r id),
    )
