-- ===== src/Pack/EvenSplit.antt =====
-- `even_split` of core/src/actor_builder/pack.rs: actors dealt in turn into clusters.
use native.Mathlib.Nat.{mod-eq_of_lt, mul-add-mod_self_right, suc-mul, zero-mul}
use steady_state_stack.Common.{
  List, Outcome, [], ap, arith, dec_lt, done, length, length-append, length-replicate, max, min,
  panic, refl, replicate, subst, suc, sym, zero, ℕ, ◌%◌, ◌*◌, ◌++◌, ◌+◌, ◌<◌, ◌>>=◌, ◌∙◌, ◌∷◌, ◌≡◌,
  ◌≤◌,
}

-- As many items as clusters make at least one round.
full_round : (n q r total : ℕ) → total ≡ q * n + r → r < n → n ≤ total → 0 < q
full_round n zero r total e h le = absurd (omega (arith, zero-mul n))
full_round n (suc q) r total e h le = omega arith

module _ {A : Type 0} where
  -- `clusters[j].push(id)`; out of range it panics.
  abbrev pub push_at : ℕ → A → List (List A) → Outcome (List (List A))
  push_at j id [] = panic
  push_at zero id (c ∷ clusters) = done ((c ++ id ∷ []) ∷ clusters)
  push_at (suc j) id (c ∷ clusters) = push_at j id clusters >>= λ rest. done (c ∷ rest)

  unfoldable pub deal : ℕ → ℕ → List A → List (List A) → Outcome (List (List A))
  deal n_clusters i [] clusters = done clusters
  deal n_clusters i (id ∷ ids) clusters =
      push_at (i % n_clusters) id clusters >>= deal n_clusters (i + 1) ids

  -- `clusters.retain(|c| !c.is_empty())`.
  abbrev pub retain : List (List A) → List (List A)
  retain [] = []
  retain ([] ∷ clusters) = retain clusters
  retain ((x ∷ xs) ∷ clusters) = (x ∷ xs) ∷ retain clusters

  unfoldable pub even_split : List A → ℕ → Outcome (List (List A))
  unfolding deal
  even_split [] slots = done []
  even_split (id ∷ ids) slots =
      let n_clusters = min (max slots 1) (length (id ∷ ids)) in
      deal n_clusters 0 (id ∷ ids) (replicate n_clusters []) >>= λ clusters. done (retain clusters)

  -- How often `p` holds in all clusters together.
  abbrev pub count : (A → ℕ) → List A → ℕ
  count f [] = 0
  count f (x ∷ xs) = f x + count f xs

  abbrev pub count_all : (A → ℕ) → List (List A) → ℕ
  count_all f [] = 0
  count_all f (c ∷ clusters) = count f c + count_all f clusters

  pub count-append : (f : A → ℕ) (xs ys : List A) → count f (xs ++ ys) ≡ count f xs + count f ys
  count-append f [] ys = omega arith
  count-append f (x ∷ xs) ys = omega (arith, count-append f xs ys)

  -- The first `r` clusters hold one item more than the `q` of the others.
  abbrev pub IsDealt : ℕ → ℕ → List (List A) → Type 0
  IsDealt q r [] = Unit
  IsDealt q zero (c ∷ clusters) = (length c ≡ q) × IsDealt q zero clusters
  IsDealt q (suc r) (c ∷ clusters) = (length c ≡ suc q) × IsDealt q r clusters

  -- What one push comes to.
  push_lem :
      (q r : ℕ) (id : A) (clusters : List (List A))
      → r < length clusters
      → IsDealt q r clusters
      → (after : List (List A)) × (push_at r id clusters ≡ done after)
        × IsDealt q (suc r) after
        × (length after ≡ length clusters)
        × ((f : A → ℕ) → count_all f after ≡ f id + count_all f clusters)
  push_lem q r id [] h d = absurd (omega arith)
  push_lem q zero id (c ∷ clusters) h d = (
    (c ++ id ∷ []) ∷ clusters,
    refl,
    (omega (arith, length-append c (id ∷ []), d.0), d.1),
    refl,
    λ f. omega (arith, count-append f c (id ∷ [])),
  )
  push_lem q (suc r) id (c ∷ clusters) h d =
      let (after, e, d', l, counts) = push_lem q r id clusters (omega arith) d.1 in
      (c ∷ after, rw e refl, (d.0, d'), ap suc l, λ f. omega (arith, counts f))

  -- A full round.
  IsDealt-round :
      (q : ℕ) (clusters : List (List A))
      → IsDealt q (length clusters) clusters
      → IsDealt (suc q) 0 clusters
  IsDealt-round q [] d = tt
  IsDealt-round q (c ∷ clusters) d = (d.0, IsDealt-round q clusters d.1)

  deal_lem :
      (n q r i : ℕ) (ids : List A) (clusters : List (List A))
      → i ≡ q * n + r
      → r < n
      → length clusters ≡ n
      → IsDealt q r clusters
      → (q' : ℕ) × (r' : ℕ) × (after : List (List A)) × (deal n i ids clusters ≡ done after)
        × (i + length ids ≡ q' * n + r')
        × (r' < n)
        × IsDealt q' r' after
        × (length after ≡ n)
        × ((f : A → ℕ) → count_all f after ≡ count f ids + count_all f clusters)
  unfolding deal
  deal_lem n q r i [] clusters e h l d =
      (q, r, clusters, refl, omega (arith, e), h, d, l, λ f. omega arith)
  deal_lem n q r i (id ∷ ids) clusters e h l d =
      let here : i % n ≡ r = ap (λ k. k % n) e ∙ mul-add-mod_self_right q n r ∙ mod-eq_of_lt h in
      let (after, pushed, d', l', counts) = push_lem q r id clusters (omega (arith, l)) d in
      let step : push_at (i % n) id clusters ≡ done after =
        subst (λ k. push_at k id clusters ≡ done after) (sym here) pushed in
      elim (dec_lt (suc r) n) [
        | yes more ↦
            let (q'', r'', last, run, total, low, dealt, len, sums) =
              deal_lem n q (suc r) (i + 1) ids after (omega (arith, e)) more (l' ∙ l) d' in
            (
              q'',
              r'',
              last,
              rw step run,
              omega (arith, total),
              low,
              dealt,
              len,
              λ f. omega (arith, sums f, counts f),
            )
        | no full ↦
            let round : suc r ≡ length after = omega (arith, l, l') in
            let (q'', r'', last, run, total, low, dealt, len, sums) =
              deal_lem n (suc q) 0 (i + 1) ids after (omega (arith, e, suc-mul q n)) (omega arith)
                (l' ∙ l) (IsDealt-round q after (subst (λ k. IsDealt q k after) round d')) in
            (
              q'',
              r'',
              last,
              rw step run,
              omega (arith, total),
              low,
              dealt,
              len,
              λ f. omega (arith, sums f, counts f),
            )
      ]

  IsDealt-replicate : (n : ℕ) (c : List A) → length c ≡ 0 → IsDealt 0 0 (replicate n c)
  IsDealt-replicate zero c h = tt
  IsDealt-replicate (suc n) c h = (h, IsDealt-replicate n c h)

  count_all-replicate : (f : A → ℕ) (n : ℕ) → count_all f (replicate n []) ≡ 0
  count_all-replicate f zero = refl
  count_all-replicate f (suc n) = omega (arith, count_all-replicate f n)

  -- With a full first round no cluster is empty, so none is dropped.
  retain_all :
      (q r : ℕ) (clusters : List (List A))
      → 0 < q
      → IsDealt q r clusters
      → retain clusters ≡ clusters
  retain_all q r [] h d = refl
  retain_all q zero ([] ∷ clusters) h d = absurd (omega (arith, d.0))
  retain_all q (suc r) ([] ∷ clusters) h d = absurd (omega (arith, d.0))
  retain_all q zero ((x ∷ xs) ∷ clusters) h d =
      ap (λ cs. (x ∷ xs) ∷ cs) (retain_all q zero clusters h d.1)
  retain_all q (suc r) ((x ∷ xs) ∷ clusters) h d =
      ap (λ cs. (x ∷ xs) ∷ cs) (retain_all q r clusters h d.1)

  -- The split never panics. It gives as many clusters as there are slots and actors for; each holds at
  -- least one actor, the first ones one more than the others; and each actor is in them as often as it
  -- was given.
  pub even_split_lem :
      (ids : List A) (slots : ℕ)
      → (clusters : List (List A)) × (q : ℕ) × (r : ℕ) × (even_split ids slots ≡ done clusters)
        × (length clusters ≡ min (max slots 1) (length ids))
        × (length ids ≡ q * length clusters + r)
        × IsDealt q r clusters
        × (0 < length ids → (0 < q) × (r < length clusters))
        × ((f : A → ℕ) → count_all f clusters ≡ count f ids)
  unfolding even_split
  even_split_lem [] slots =
      ([], 0, 0, refl, omega arith, omega arith, tt, λ h. absurd (omega arith), λ f. refl)
  even_split_lem (id ∷ ids) slots =
      let n = min (max slots 1) (suc (length ids)) in
      let (q, r, after, run, total, low, dealt, len, sums) =
        deal_lem n 0 0 0 (id ∷ ids) (replicate n []) (omega arith) (omega arith)
          (length-replicate {A = List A} n []) (IsDealt-replicate n [] refl) in
      let some_round : 0 < q =
        full_round n q r (suc (length ids)) (omega (arith, total)) low (omega arith) in
      let kept = retain_all q r after some_round dealt in
      (
        after,
        q,
        r,
        rw run (ap done kept),
        len,
        rw len (omega (arith, total)),
        dealt,
        λ h. (some_round, rw len low),
        λ f. omega (arith, sums f, count_all-replicate f n),
      )
