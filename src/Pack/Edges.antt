-- ===== src/Pack/Edges.antt =====
-- The packing edges of core/src/actor_builder/pack.rs and their order: the smallest channels first.
use steady_state_stack.Pack.EvenSplit.{count}
use steady_state_stack.Common.{
  All, Bool, List, Option, [], arith, false, if_intro, if◌then◌else◌, ltb, refl, true, ℕ, ◌+◌, ◌∷◌,
  ◌≡◌,
}

pub record BundleFamily : Type 0 where
  pub producer : ℕ
  pub family_key : ℕ

pub record PackEdge : Type 0 where
  pub from : ℕ
  pub to : ℕ
  pub capacity : ℕ
  pub byte_footprint : ℕ
  pub bundle_family : Option BundleFamily

-- `a.cmp(&b).then(rest) == Greater`.
abbrev then_greater : ℕ → ℕ → Bool → Bool
then_greater a b rest = if ltb b a then true else if ltb a b then false else rest

-- The comparison that `sort_by` is given, when it says `Greater`.
unfoldable pub is_after : PackEdge → PackEdge → Bool
is_after a b = then_greater a.capacity b.capacity (
    then_greater a.byte_footprint b.byte_footprint
      (then_greater a.from b.from (then_greater a.to b.to false)))

-- Before the first edge that comes after it: so edges that compare equal keep their order.
abbrev insert_edge : PackEdge → List PackEdge → List PackEdge
insert_edge e [] = e ∷ []
insert_edge e (f ∷ es) =
    let rest = insert_edge e es in if is_after e f then f ∷ rest else e ∷ f ∷ es

unfoldable pub sort_edges : List PackEdge → List PackEdge
sort_edges [] = []
sort_edges (e ∷ es) = insert_edge e (sort_edges es)

-- No edge comes after a later one.
abbrev pub IsSorted : List PackEdge → Type 0
IsSorted [] = Unit
IsSorted (e ∷ es) = All (λ f. is_after e f ≡ false) es × IsSorted es

is_after_trans :
    (a b c : PackEdge) → is_after a b ≡ false → is_after b c ≡ false → is_after a c ≡ false
unfolding is_after
is_after_trans a b c h k = ground arith

is_after-asym : (a b : PackEdge) → is_after a b ≡ true → is_after b a ≡ false
unfolding is_after
is_after-asym a b h = ground arith

All-mono {ℓ κ} :
    {A : Type ℓ} {P Q : A → Type κ} (xs : List A) → ((a : A) → P a → Q a) → All P xs → All Q xs
All-mono [] f h = tt
All-mono (x ∷ xs) f h = (f x h.0, All-mono xs f h.1)

All-insert_edge {κ} :
    (P : PackEdge → Type κ) (e : PackEdge) (es : List PackEdge)
    → P e
    → All P es
    → All P (insert_edge e es)
All-insert_edge P e [] p h = (p, tt)
All-insert_edge P e (f ∷ es) p h =
    if_intro (All P) (is_after e f) (f ∷ insert_edge e es) (e ∷ f ∷ es)
      (λ _. (h.0, All-insert_edge P e es p h.1)) (λ _. (p, h))

pub All-sort_edges {κ} :
    (P : PackEdge → Type κ) (es : List PackEdge) → All P es → All P (sort_edges es)
unfolding sort_edges
All-sort_edges P [] h = tt
All-sort_edges P (e ∷ es) h = All-insert_edge P e (sort_edges es) h.0 (All-sort_edges P es h.1)

insert_edge-IsSorted :
    (e : PackEdge) (es : List PackEdge) → IsSorted es → IsSorted (insert_edge e es)
insert_edge-IsSorted e [] h = (tt, tt)
insert_edge-IsSorted e (f ∷ es) h =
    if_intro IsSorted (is_after e f) (f ∷ insert_edge e es) (e ∷ f ∷ es)
      (λ after. (
        All-insert_edge (λ g. is_after f g ≡ false) e es (is_after-asym e f after) h.0,
        insert_edge-IsSorted e es h.1,
      ))
      (λ not_after. ((not_after, All-mono es (λ g k. is_after_trans e f g not_after k) h.0), h))

count-insert_edge :
    (f : PackEdge → ℕ) (e : PackEdge) (es : List PackEdge)
    → count f (insert_edge e es) ≡ f e + count f es
count-insert_edge f e [] = refl
count-insert_edge f e (g ∷ es) =
    if_intro (λ after. count f after ≡ f e + (f g + count f es)) (is_after e g)
      (g ∷ insert_edge e es) (e ∷ g ∷ es) (λ _. omega (arith, count-insert_edge f e es)) (λ _. refl)

-- The edges are the given ones, each as often, and in order: by capacity, then by bytes, then by the
-- actors, an edge never stands before one that it comes after.
pub sort_edges_lem :
    (es : List PackEdge)
    → IsSorted (sort_edges es) × ((f : PackEdge → ℕ) → count f (sort_edges es) ≡ count f es)
unfolding sort_edges
sort_edges_lem [] = (tt, λ f. refl)
sort_edges_lem (e ∷ es) =
    let (sorted, same) = sort_edges_lem es in
    (
      insert_edge-IsSorted e (sort_edges es) sorted,
      λ f. omega (arith, count-insert_edge f e (sort_edges es), same f),
    )
