-- ===== src/Pack/UnionFind.antt =====
-- The union-find of `pack_kruskal_with_cores` in core/src/actor_builder/pack.rs: `find` with path
-- compression and `union` by rank. `find` recurses along the parents; the fuel stands for the stack.
use steady_state_stack.Common.{
  ==_ne, ==_self, Bool, List, Outcome, ap, arith, contains_key, contains_key-insert,
  contains_key_of, done, false, if◌then◌else◌, index, inl, inr, insert, leb, lookup,
  lookup-insert_ne, lookup-insert_self, ltb, panic, refl, some, subst, suc, sym, true, zero, ℕ,
  ℕ_discrete, ◌+◌, ◌<◌, ◌==◌, ◌>>=◌, ◌∙◌, ◌≡◌, ◌≢◌, ◌⊎◌,
}

unfoldable pub find : ℕ → List (ℕ × ℕ) → ℕ → Outcome (ℕ × List (ℕ × ℕ))
find zero parent x = panic
find (suc fuel) parent x = index parent x >>= λ p. elim (p == x) [
  | true ↦ done (x, parent)
  | false ↦ find fuel parent p >>= λ found. done (found.0, insert found.1 x found.0)
]

-- The roots `ra` and `rb` are joined by rank, a `u8` that panics on overflow.
unfoldable pub join :
    List (ℕ × ℕ) → List (ℕ × ℕ) → ℕ → ℕ → Outcome (Bool × List (ℕ × ℕ) × List (ℕ × ℕ))
join parent rank ra rb =
    if ra == rb
    then done (false, parent, rank)
    else index rank ra >>= λ ra_rank. index rank rb >>= λ rb_rank.
        if ltb ra_rank rb_rank
        then done (true, insert parent ra rb, rank)
        else if ltb rb_rank ra_rank
        then done (true, insert parent rb ra, rank)
        else if leb 255 ra_rank
        then panic
        else done (true, insert parent rb ra, insert rank ra (ra_rank + 1))

-- What it gives is whether two sets were merged, `parent` and `rank`.
unfoldable pub union :
    ℕ → List (ℕ × ℕ) → List (ℕ × ℕ) → ℕ → ℕ → Outcome (Bool × List (ℕ × ℕ) × List (ℕ × ℕ))
union fuel parent rank a b = find fuel parent a >>= λ found_a.
    find fuel found_a.1 b >>= λ found_b. join found_b.1 rank found_a.0 found_b.0

-- The item is its own parent.
abbrev pub IsRoot : List (ℕ × ℕ) → ℕ → Type 0
IsRoot parent x = lookup parent x ≡ some x

-- The root of `x` is `r`, at most so many parents away.
abbrev pub HasRoot : List (ℕ × ℕ) → ℕ → ℕ → ℕ → Type 0
HasRoot parent zero x r = IsRoot parent x × (x ≡ r)
HasRoot parent (suc n) x r =
    (IsRoot parent x × (x ≡ r))
    ⊎ (p : ℕ) × (lookup parent x ≡ some p) × (x ≢ p) × HasRoot parent n p r

pub some-inj {ℓ} : {A : Type ℓ} {a b : A} → some a ≡ some b → a ≡ b
some-inj h = cc

pub HasRoot-self : (parent : List (ℕ × ℕ)) (n x : ℕ) → IsRoot parent x → HasRoot parent n x x
HasRoot-self parent zero x h = (h, refl)
HasRoot-self parent (suc n) x h = inl (h, refl)

pub HasRoot-suc :
    (parent : List (ℕ × ℕ)) (n x r : ℕ) → HasRoot parent n x r → HasRoot parent (suc n) x r
HasRoot-suc parent zero x r h = inl h
HasRoot-suc parent (suc n) x r (inl h) = inl h
HasRoot-suc parent (suc n) x r (inr (p, e, ne, h)) = inr (p, e, ne, HasRoot-suc parent n p r h)

pub HasRoot-IsRoot : (parent : List (ℕ × ℕ)) (n x r : ℕ) → HasRoot parent n x r → IsRoot parent r
HasRoot-IsRoot parent zero x r (h, e) = subst (IsRoot parent) e h
HasRoot-IsRoot parent (suc n) x r (inl (h, e)) = subst (IsRoot parent) e h
HasRoot-IsRoot parent (suc n) x r (inr (p, e, ne, h)) = HasRoot-IsRoot parent n p r h

pub HasRoot-contains_key :
    (parent : List (ℕ × ℕ)) (n x r : ℕ) → HasRoot parent n x r → contains_key parent x ≡ true
HasRoot-contains_key parent zero x r (h, e) = contains_key_of parent x x h
HasRoot-contains_key parent (suc n) x r (inl (h, e)) = contains_key_of parent x x h
HasRoot-contains_key parent (suc n) x r (inr (p, e, ne, h)) = contains_key_of parent x p e

-- A root is its own root only.
pub HasRoot-root :
    (parent : List (ℕ × ℕ)) (n x r : ℕ) → IsRoot parent x → HasRoot parent n x r → x ≡ r
HasRoot-root parent zero x r i (h, e) = e
HasRoot-root parent (suc n) x r i (inl (h, e)) = e
HasRoot-root parent (suc n) x r i (inr (p, e, ne, h)) = absurd (ne (some-inj (sym i ∙ e)))

pub HasRoot-unique :
    (parent : List (ℕ × ℕ)) (n m x r s : ℕ) → HasRoot parent n x r → HasRoot parent m x s → r ≡ s
HasRoot-unique parent zero m x r s (i, e) k = sym e ∙ HasRoot-root parent m x s i k
HasRoot-unique parent (suc n) m x r s (inl (i, e)) k = sym e ∙ HasRoot-root parent m x s i k
HasRoot-unique parent (suc n) zero x r s (inr (p, e, ne, h)) (i, e') =
    absurd (ne (some-inj (sym i ∙ e)))
HasRoot-unique parent (suc n) (suc m) x r s (inr (p, e, ne, h)) (inl (i, e')) =
    absurd (ne (some-inj (sym i ∙ e)))
HasRoot-unique parent (suc n) (suc m) x r s (inr (p, e, ne, h)) (inr (q, e', ne', k)) =
    HasRoot-unique parent n m p r s h (subst (λ i. HasRoot parent m i s) (some-inj (sym e' ∙ e)) k)

-- The two maps have the same items, and each has its root, no further away.
pub record Keeps (before after : List (ℕ × ℕ)) : Type 0 where
  pub keys : (x : ℕ) → contains_key after x ≡ contains_key before x
  pub roots : (n x r : ℕ) → HasRoot before n x r → HasRoot after n x r

pub Keeps_refl : (parent : List (ℕ × ℕ)) → Keeps parent parent
Keeps_refl parent = record { keys = λ x. refl; roots = λ n x r h. h }

pub Keeps_trans : (a b c : List (ℕ × ℕ)) → Keeps a b → Keeps b c → Keeps a c
Keeps_trans a b c h k = record {
  keys = λ x. k.keys x ∙ h.keys x;
  roots = λ n x r i. k.roots n x r (h.roots n x r i);
}

-- To write elsewhere leaves a root alone.
pub IsRoot-insert :
    (parent : List (ℕ × ℕ)) (x v y : ℕ) → x ≢ y → IsRoot parent y → IsRoot (insert parent x v) y
IsRoot-insert parent x v y ne h = lookup-insert_ne parent x y v ne ∙ h

-- To set the parent of `x` to its root shortens paths only.
compress_roots :
    (parent : List (ℕ × ℕ)) (x r : ℕ)
    → IsRoot parent r
    → x ≢ r
    → ((n s : ℕ) → HasRoot parent n x s → s ≡ r)
    → (n y s : ℕ) → HasRoot parent n y s
    → HasRoot (insert parent x r) n y s
compress_roots parent x r root ne own zero y s h = elim (ℕ_discrete x y) [
  | yes e ↦
      let here = subst (λ i. HasRoot parent 0 i s) (sym e) h in absurd (ne (here.1 ∙ own 0 s here))
  | no other ↦ (IsRoot-insert parent x r y other h.0, h.1)
]
compress_roots parent x r root ne own (suc n) y s h = elim (ℕ_discrete x y) [
  | yes e ↦
      let here = subst (λ i. HasRoot parent (suc n) i s) (sym e) h in
      subst (λ i. HasRoot (insert parent x r) (suc n) i s) e
        (inr (
          r,
          lookup-insert_self parent x r,
          ne,
          subst (HasRoot (insert parent x r) n r) (sym (own (suc n) s here))
              (HasRoot-self (insert parent x r) n r (IsRoot-insert parent x r r ne root)),
        ))
  | no other ↦ elim h [
    | inl (i, e) ↦ inl (IsRoot-insert parent x r y other i, e)
    | inr (p, e, up, k) ↦ inr (
      p,
      lookup-insert_ne parent x y r other ∙ e,
      up,
      compress_roots parent x r root ne own n p s k,
    )
  ]
]

Keeps-compress :
    (parent : List (ℕ × ℕ)) (m x r : ℕ)
    → contains_key parent x ≡ true
    → x ≢ r
    → HasRoot parent m x r
    → Keeps parent (insert parent x r)
Keeps-compress parent m x r there ne h = record {
  keys = λ y. contains_key-insert parent x y r there;
  roots =
      compress_roots parent x r (HasRoot-IsRoot parent m x r h) ne
        (λ n s k. HasRoot-unique parent n m x s r k h);
}

find_root :
    (fuel : ℕ) (parent : List (ℕ × ℕ)) (x : ℕ)
    → IsRoot parent x
    → find (suc fuel) parent x ≡ done (x, parent)
unfolding find
find_root fuel parent x h = rw (index, h) (rw (◌>>=◌, ==_self x) refl)

find_up :
    (fuel : ℕ) (parent after : List (ℕ × ℕ)) (x p r : ℕ)
    → lookup parent x ≡ some p
    → x ≢ p
    → find fuel parent p ≡ done (r, after)
    → find (suc fuel) parent x ≡ done (r, insert after x r)
unfolding find
find_up fuel parent after x p r e ne found =
    rw (index, e) (rw (◌>>=◌, ==_ne p x (λ same. ne (sym same))) (rw (◌>>=◌, found) refl))

-- `find` gives the root, and no item's root changes.
pub find_lem :
    (fuel n : ℕ) (parent : List (ℕ × ℕ)) (x r : ℕ)
    → n < fuel
    → HasRoot parent n x r
    → (after : List (ℕ × ℕ)) × (find fuel parent x ≡ done (r, after)) × Keeps parent after
unfolding find
find_lem zero n parent x r lt h = elim lt [ ]
find_lem (suc fuel) zero parent x r lt (i, e) =
    (parent, find_root fuel parent x i ∙ ap (λ y. done (y, parent)) e, Keeps_refl parent)
find_lem (suc fuel) (suc n) parent x r lt (inl (i, e)) =
    (parent, find_root fuel parent x i ∙ ap (λ y. done (y, parent)) e, Keeps_refl parent)
find_lem (suc fuel) (suc n) parent x r lt (inr (p, e, ne, h)) =
    let (after, found, kept) = find_lem fuel n parent p r (omega arith) h in
    let root = HasRoot-IsRoot parent n p r h in
    let up : x ≢ r =
      λ same. ne (same ∙ some-inj (sym root ∙ subst (λ i. lookup parent i ≡ some p) same e)) in
    (
      insert after x r,
      find_up fuel parent after x p r e ne found,
      Keeps_trans parent after (insert after x r) kept (
          Keeps-compress after (suc n) x r (kept.keys x ∙ contains_key_of parent x p e) up
            (kept.roots (suc n) x r (inr (p, e, ne, h)))),
    )
