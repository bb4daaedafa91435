-- ===== src/Common/Maps.antt =====
-- Maps keyed by numbers, as association lists: a key stands once, and a new one goes to the end.
use Prim.Native.Nat.{ℕ}
use mathlib.Core.Path.{◌≡◌, refl, sym, ap, subst, ◌∙◌}
use mathlib.Core.Logic.{◌≢◌, inl, inr}
use mathlib.Core.Bool.{Bool, true, false, true≢false}
use mathlib.Core.List.{List, [], ◌∷◌}
use mathlib.Core.Option.{Option, none, some}
use native.Mathlib.Decide.{ℕ_discrete}
use steady_state_stack.Common.Lists.{any}
use steady_state_stack.Common.Tests.{==_iff, Bool-cases, Option-cases, Outcome, done, panic, ◌==◌}

pub ==_self : (a : ℕ) → (a == a) ≡ true
==_self a = (==_iff a a).1 refl

pub ==_ne : (a b : ℕ) → a ≢ b → (a == b) ≡ false
==_ne a b h = elim (Bool-cases (a == b)) [ inl e ↦ absurd (h ((==_iff a b).0 e)) | inr e ↦ e ]

module _ {ℓ} {A : Type ℓ} where
  abbrev pub lookup : List (ℕ × A) → ℕ → Option A
  lookup [] k = none
  lookup ((key, v) ∷ m) k = elim (key == k) [ true ↦ some v | false ↦ lookup m k ]

  abbrev pub insert : List (ℕ × A) → ℕ → A → List (ℕ × A)
  insert [] k v = (k, v) ∷ []
  insert ((key, w) ∷ m) k v = elim (key == k) [
    | true ↦ (key, v) ∷ m
    | false ↦ (key, w) ∷ insert m k v
  ]

  abbrev pub contains_key : List (ℕ × A) → ℕ → Bool
  contains_key m k = elim (lookup m k) [ none ↦ false | some v ↦ true ]

  -- `m[&k]`, which panics on a missing key.
  abbrev pub index : List (ℕ × A) → ℕ → Outcome A
  index m k = elim (lookup m k) [ none ↦ panic | some v ↦ done v ]

  pub lookup-insert_self : (m : List (ℕ × A)) (k : ℕ) (v : A) → lookup (insert m k v) k ≡ some v
  lookup-insert_self [] k v = rw (lookup, ==_self k) refl
  lookup-insert_self ((key, w) ∷ m) k v = elim (Bool-cases (key == k)) [
    | inl e ↦ rw (insert, e) (rw (lookup, e) refl)
    | inr e ↦ rw (insert, e) (rw (lookup, e) (lookup-insert_self m k v))
  ]

  pub lookup-insert_ne :
      (m : List (ℕ × A)) (k j : ℕ) (v : A) → k ≢ j → lookup (insert m k v) j ≡ lookup m j
  lookup-insert_ne [] k j v h = rw (lookup, ==_ne k j h) refl
  lookup-insert_ne ((key, w) ∷ m) k j v h = elim (Bool-cases (key == k)) [
    | inl e ↦
        let other : (key == j) ≡ false = ==_ne key j (λ e'. h (sym ((==_iff key k).0 e) ∙ e')) in
        rw (insert, e) (rw (lookup, other) refl)
    | inr e ↦
        rw (insert, e)
          (elim (Bool-cases (key == j)) [
            | inl e' ↦ rw (lookup, e') refl
            | inr e' ↦ rw (lookup, e') (lookup-insert_ne m k j v h)
          ])
  ]

  pub contains_key-some :
      (m : List (ℕ × A)) (k : ℕ) → contains_key m k ≡ true → (v : A) × (lookup m k ≡ some v)
  contains_key-some m k h = elim (Option-cases (lookup m k)) [
    | inl e ↦ absurd (true≢false (sym h ∙ ap (λ o. elim o [ none ↦ false | some v ↦ true ]) e))
    | inr s ↦ s
  ]

  pub contains_key_of :
      (m : List (ℕ × A)) (k : ℕ) (v : A) → lookup m k ≡ some v → contains_key m k ≡ true
  contains_key_of m k v e = rw (contains_key, e) refl

  -- Writing to a key that is there adds none.
  pub contains_key-insert :
      (m : List (ℕ × A)) (k j : ℕ) (v : A)
      → contains_key m k ≡ true
      → contains_key (insert m k v) j ≡ contains_key m j
  contains_key-insert m k j v h = elim (ℕ_discrete k j) [
    | yes e ↦
        subst (λ i. contains_key (insert m k v) i ≡ contains_key m i) e
          (rw (contains_key, lookup-insert_self m k v) (sym h))
    | no e ↦ rw (contains_key, lookup-insert_ne m k j v e) refl
  ]

-- `xs.contains(&k)`, of a list or of the set of its members.
abbrev pub contains : List ℕ → ℕ → Bool
contains xs k = any (λ x. x == k) xs

module _ {ℓ} {A : Type ℓ} where
  -- No key stands twice.
  abbrev pub IsUnique : List (ℕ × A) → Type ℓ
  IsUnique [] = Unit
  IsUnique ((k, v) ∷ m) = (lookup m k ≡ none) × IsUnique m

  pub IsUnique-insert : (m : List (ℕ × A)) (k : ℕ) (v : A) → IsUnique m → IsUnique (insert m k v)
  IsUnique-insert [] k v h = (refl, tt)
  IsUnique-insert ((key, w) ∷ m) k v h = elim (Bool-cases (key == k)) [
    | inl e ↦ rw (insert, e) h
    | inr e ↦
        let other : k ≢ key = λ same. true≢false (sym ((==_iff key k).1 (sym same)) ∙ e) in
        rw (insert, e) (lookup-insert_ne m k key v other ∙ h.0, IsUnique-insert m k v h.1)
  ]

  -- The entries of `actor_ids.iter().map(|&id| (id, f(id)))`, added to a map.
  abbrev pub collect : (ℕ → A) → List ℕ → List (ℕ × A) → List (ℕ × A)
  collect f [] m = m
  collect f (id ∷ ids) m = collect f ids (insert m id (f id))

  pub IsUnique-collect :
      (f : ℕ → A) (ids : List ℕ) (m : List (ℕ × A)) → IsUnique m → IsUnique (collect f ids m)
  IsUnique-collect f [] m h = h
  IsUnique-collect f (id ∷ ids) m h =
      IsUnique-collect f ids (insert m id (f id)) (IsUnique-insert m id (f id) h)

  pub lookup-collect_absent :
      (f : ℕ → A) (ids : List ℕ) (m : List (ℕ × A)) (k : ℕ)
      → contains ids k ≡ false
      → lookup (collect f ids m) k ≡ lookup m k
  lookup-collect_absent f [] m k h = refl
  lookup-collect_absent f (id ∷ ids) m k h = elim (Bool-cases (id == k)) [
    | inl e ↦ absurd (true≢false (rw (any, e) at h))
    | inr e ↦
        lookup-collect_absent f ids (insert m id (f id)) k (rw (any, e) at h)
        ∙ lookup-insert_ne m id k (f id) (λ same. true≢false (sym ((==_iff id k).1 same) ∙ e))
  ]

  pub lookup-collect :
      (f : ℕ → A) (ids : List ℕ) (m : List (ℕ × A)) (k : ℕ)
      → contains ids k ≡ true
      → lookup (collect f ids m) k ≡ some (f k)
  lookup-collect f [] m k h = absurd (true≢false (sym h))
  lookup-collect f (id ∷ ids) m k h = elim (Bool-cases (contains ids k)) [
    | inl t ↦ lookup-collect f ids (insert m id (f id)) k t
    | inr t ↦ elim (Bool-cases (id == k)) [
      | inl e ↦
          let same = (==_iff id k).0 e in
          lookup-collect_absent f ids (insert m id (f id)) k t
          ∙ subst (λ i. lookup (insert m id (f id)) i ≡ some (f i)) same
              (lookup-insert_self m id (f id))
      | inr e ↦ absurd (true≢false (sym (rw (any, e) at h) ∙ t))
    ]
  ]
