-- ===== src/Pack/Union.antt =====
-- What the union-find of core/src/actor_builder/pack.rs does to the sets: `union` merges two of them.
use steady_state_stack.Pack.UnionFind.{
  HasRoot, HasRoot-IsRoot, HasRoot-self, IsRoot, IsRoot-insert, Keeps, Keeps_trans, find_lem, join,
  some-inj, union,
}
use steady_state_stack.Common.{
  ==_iff, ==_ne, Bool, Bool-cases, List, arith, contains_key, contains_key-insert, contains_key_of,
  done, false, if◌then◌else◌, index, inl, inr, insert, leb, lookup, lookup-insert_ne,
  lookup-insert_self, ltb, refl, some, subst, suc, sym, true, zero, ℕ, ℕ_discrete, ◌+◌, ◌<◌, ◌==◌,
  ◌>>=◌, ◌∙◌, ◌≡◌, ◌≢◌, ◌≤◌, ◌⊎◌,
}

-- The root below which another is linked, and the one that is linked.
abbrev pub relinked : ℕ → ℕ → ℕ → ℕ
relinked u w s = if s == u then w else s

module _ (parent : List (ℕ × ℕ)) (u w : ℕ) (root_u : IsRoot parent u) (root_w : IsRoot parent w)
    (ne : u ≢ w) where
  linked_itself : (n s : ℕ) → u ≡ s → HasRoot (insert parent u w) (suc n) u (relinked u w s)
  linked_itself n s e = rw ((==_iff s u).1 (sym e)) (
      inr (
        w,
        lookup-insert_self parent u w,
        ne,
        HasRoot-self (insert parent u w) n w (IsRoot-insert parent u w w ne root_w),
      ))

  linked_root :
      (n y s : ℕ) → IsRoot parent y → y ≡ s → HasRoot (insert parent u w) (suc n) y (relinked u w s)
  linked_root n y s i e = elim (ℕ_discrete u y) [
    | yes same ↦
        subst (λ v. HasRoot (insert parent u w) (suc n) v (relinked u w s)) same
          (linked_itself n s (same ∙ e))
    | no other ↦
        rw (==_ne s u (λ same. other (sym (e ∙ same))))
          (inl (IsRoot-insert parent u w y other i, e))
  ]

  link_roots :
      (n y s : ℕ) → HasRoot parent n y s → HasRoot (insert parent u w) (suc n) y (relinked u w s)
  link_roots zero y s (i, e) = linked_root zero y s i e
  link_roots (suc n) y s (inl (i, e)) = linked_root (suc n) y s i e
  link_roots (suc n) y s (inr (p, e, up, h)) =
      let other : u ≢ y = λ same. up (some-inj (sym (subst (IsRoot parent) same root_u) ∙ e)) in
      inr (p, lookup-insert_ne parent u y w other ∙ e, up, link_roots n p s h)

-- After `n` merges: no root is further away, and no rank larger, than that.
pub record IsForest (keys : ℕ → Bool) (n : ℕ) (parent rank : List (ℕ × ℕ)) : Type 0 where
  pub same_keys : (x : ℕ) → contains_key parent x ≡ keys x
  pub rooted : (x : ℕ) → keys x ≡ true → (r : ℕ) × HasRoot parent n x r
  pub ranked : (x : ℕ) → keys x ≡ true → (k : ℕ) × (lookup rank x ≡ some k) × (k ≤ n)

pub IsForest-Keeps :
    (keys : ℕ → Bool) (n : ℕ) (parent after rank : List (ℕ × ℕ))
    → IsForest keys n parent rank
    → Keeps parent after
    → IsForest keys n after rank
IsForest-Keeps keys n parent after rank f k = record {
  same_keys = λ x. k.keys x ∙ f.same_keys x;
  rooted = λ x h. let (r, root) = f.rooted x h in (r, k.roots n x r root);
  ranked = f.ranked;
}

module _ (keys : ℕ → Bool) (n : ℕ) (parent rank : List (ℕ × ℕ))
    (forest : IsForest keys n parent rank) where
  IsForest-link :
      (u w : ℕ) (rank' : List (ℕ × ℕ))
      → IsRoot parent u
      → IsRoot parent w
      → u ≢ w
      → ((x : ℕ) → keys x ≡ true → (k : ℕ) × (lookup rank' x ≡ some k) × (k ≤ suc n))
      → IsForest keys (suc n) (insert parent u w) rank'
  IsForest-link u w rank' root_u root_w ne ranked = record {
    same_keys = λ x.
        contains_key-insert parent u x w (contains_key_of parent u u root_u) ∙ forest.same_keys x;
    rooted = λ x h.
        let (r, root) = forest.rooted x h in
        (relinked u w r, link_roots parent u w root_u root_w ne n x r root);
    ranked = ranked;
  }

  rank_grows :
      (x k : ℕ)
      → keys x ≡ true
      → (k ≤ n)
      → (y : ℕ) → keys y ≡ true
      → (j : ℕ) × (lookup (insert rank x (k + 1)) y ≡ some j) × (j ≤ suc n)
  rank_grows x k hx le y hy = elim (ℕ_discrete x y) [
    | yes e ↦ (
      k + 1,
      subst (λ i. lookup (insert rank x (k + 1)) i ≡ some (k + 1)) e
          (lookup-insert_self rank x (k + 1)),
      omega arith,
    )
    | no other ↦
        let (j, at, low) = forest.ranked y hy in
        (j, lookup-insert_ne rank x y (k + 1) other ∙ at, omega arith)
  ]

  rank_stays : (y : ℕ) → keys y ≡ true → (j : ℕ) × (lookup rank y ≡ some j) × (j ≤ suc n)
  rank_stays y hy = let (j, at, low) = forest.ranked y hy in (j, at, omega arith)

  -- Two different roots are linked, one way or the other.
  join_lem :
      (ra rb : ℕ)
      → keys ra ≡ true
      → keys rb ≡ true
      → IsRoot parent ra
      → IsRoot parent rb
      → ra ≢ rb
      → n < 255
      → (u : ℕ) × (w : ℕ) × (rank' : List (ℕ × ℕ)) × (join parent rank ra rb
          ≡ done (true, insert parent u w, rank'))
        × (((u ≡ ra) × (w ≡ rb)) ⊎ ((u ≡ rb) × (w ≡ ra)))
        × IsForest keys (suc n) (insert parent u w) rank'
        × ((m y s : ℕ)
            → HasRoot parent m y s
            → HasRoot (insert parent u w) (suc m) y (relinked u w s))
  unfolding join
  join_lem ra rb ha hb root_a root_b ne low =
      let (ka, at_a, la) = forest.ranked ra ha in
      let (kb, at_b, lb) = forest.ranked rb hb in
      let back : rb ≢ ra = λ e. ne (sym e) in
      rw (==_ne ra rb ne) (
        rw (index, at_a)
          (rw (index, at_b)
            (elim (Bool-cases (ltb ka kb)) [
              | inl e ↦ (
                ra,
                rb,
                rank,
                rw e refl,
                inl (refl, refl),
                IsForest-link ra rb rank root_a root_b ne rank_stays,
                link_roots parent ra rb root_a root_b ne,
              )
              | inr e ↦ elim (Bool-cases (ltb kb ka)) [
                | inl e' ↦ (
                  rb,
                  ra,
                  rank,
                  rw (e, e') refl,
                  inr (refl, refl),
                  IsForest-link rb ra rank root_b root_a back rank_stays,
                  link_roots parent rb ra root_b root_a back,
                )
                | inr e' ↦
                    let fits : leb 255 ka ≡ false = ground arith in
                    (
                      rb,
                      ra,
                      insert rank ra (ka + 1),
                      rw (e, e', fits) refl,
                      inr (refl, refl),
                      IsForest-link rb ra (insert rank ra (ka + 1)) root_b root_a back
                          (rank_grows ra ka ha la),
                      link_roots parent rb ra root_b root_a back,
                    )
              ]
            ])))

  module _ (fuel a b ra rb : ℕ) (enough : n < fuel) (at_a : HasRoot parent n a ra)
      (at_b : HasRoot parent n b rb) where
    -- The two searches of `union`.
    union_finds :
        (after : List (ℕ × ℕ)) × (union fuel parent rank a b ≡ join after rank ra rb)
        × Keeps parent after
    unfolding union
    union_finds =
        let (p1, found_a, kept) = find_lem fuel n parent a ra enough at_a in
        let (p2, found_b, kept') = find_lem fuel n p1 b rb enough (kept.roots n b rb at_b) in
        (p2, rw found_a (rw (◌>>=◌, found_b) refl), Keeps_trans parent p1 p2 kept kept')

key_of_root :
    (keys : ℕ → Bool) (n : ℕ) (parent rank : List (ℕ × ℕ)) (r : ℕ)
    → IsForest keys n parent rank
    → IsRoot parent r
    → keys r ≡ true
key_of_root keys n parent rank r f h = sym (f.same_keys r) ∙ contains_key_of parent r r h

-- In a forest of `n` < 255 merges and with that much fuel, `union` returns. Items with one root keep
-- it, as all do. Of two roots one is linked below the other: the items below it get the other root, all
-- other items keep theirs, and the forest is one of `n + 1` merges.
pub union_lem :
    (keys : ℕ → Bool) (n : ℕ) (parent rank : List (ℕ × ℕ)) (fuel a b ra rb : ℕ)
    → IsForest keys n parent rank
    → n < fuel
    → n < 255
    → HasRoot parent n a ra
    → HasRoot parent n b rb
    → (ra ≡ rb
        → (after : List (ℕ × ℕ)) × (union fuel parent rank a b ≡ done (false, after, rank))
          × IsForest keys n after rank
          × Keeps parent after)
      × (ra ≢ rb
          → (u : ℕ) × (w : ℕ) × (after : List (ℕ × ℕ)) × (rank' : List (ℕ × ℕ)) × (union fuel parent
                rank a b
              ≡ done (true, after, rank'))
            × (((u ≡ ra) × (w ≡ rb)) ⊎ ((u ≡ rb) × (w ≡ ra)))
            × IsForest keys (suc n) after rank'
            × ((m y s : ℕ) → HasRoot parent m y s → HasRoot after (suc m) y (relinked u w s)))
unfolding join union_finds
union_lem keys n parent rank fuel a b ra rb f enough low at_a at_b =
    let (p, found, kept) = union_finds keys n parent rank f fuel a b ra rb enough at_a at_b in
    let forest = IsForest-Keeps keys n parent p rank f kept in
    let root_a = HasRoot-IsRoot p n a ra (kept.roots n a ra at_a) in
    let root_b = HasRoot-IsRoot p n b rb (kept.roots n b rb at_b) in
    (
      λ same. (p, found ∙ rw (join, (==_iff ra rb).1 same) refl, forest, kept),
      λ ne.
          let (u, w, rank', joined, which, forest', moved) =
            join_lem keys n p rank forest ra rb (key_of_root keys n p rank ra forest root_a)
              (key_of_root keys n p rank rb forest root_b) root_a root_b ne low in
          (
            u,
            w,
            insert p u w,
            rank',
            found ∙ joined,
            which,
            forest',
            λ m y s h. moved m y s (kept.roots m y s h),
          ),
    )
