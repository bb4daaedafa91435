-- ===== src/Pack/Kruskal/Counting.antt =====
-- How often an actor stands in a list, and how many edges pass a test: for the ordering of clusters.
use mathlib.Core.Bool.{true≢false}
use steady_state_stack.Pack.EvenSplit.{count}
use steady_state_stack.Pack.Edges.{PackEdge}
use steady_state_stack.Pack.Kruskal.Linedance.{push_ready}
use steady_state_stack.Common.{
  ==_self, Bool, Bool-cases, List, [], any, ap, arith, contains, get_elem?, if_intro, if◌then◌else◌,
  inl, inr, leb, length, refl, some, suc, sym, true, ℕ, ℕ_discrete, ◌++◌, ◌+◌, ◌==◌, ◌∷◌, ◌≡◌, ◌≤◌,
}

abbrev pub one_if : Bool → ℕ
one_if b = if b then 1 else 0

abbrev pub occurs : ℕ → List ℕ → ℕ
occurs v [] = 0
occurs v (x ∷ xs) = one_if (x == v) + occurs v xs

abbrev pub tally : (PackEdge → Bool) → List PackEdge → ℕ
tally p [] = 0
tally p (e ∷ es) = one_if (p e) + tally p es

pub occurs-append : (v : ℕ) (xs ys : List ℕ) → occurs v (xs ++ ys) ≡ occurs v xs + occurs v ys
occurs-append v [] ys = omega arith
occurs-append v (x ∷ xs) ys = omega (arith, occurs-append v xs ys)

pub contains-occurs : (v : ℕ) (xs : List ℕ) → contains xs v ≡ true → 1 ≤ occurs v xs
contains-occurs v [] h = absurd (true≢false (sym h))
contains-occurs v (x ∷ xs) h = elim (Bool-cases (x == v)) [
  | inl e ↦ ground arith
  | inr e ↦ let rest = contains-occurs v xs (rw (any, e) at h) in ground arith
]

pub occurs-contains : (v : ℕ) (xs : List ℕ) → 1 ≤ occurs v xs → contains xs v ≡ true
occurs-contains v [] h = absurd (omega arith)
occurs-contains v (x ∷ xs) h = elim (Bool-cases (x == v)) [
  | inl e ↦ rw (any, e) refl
  | inr e ↦ let rest = occurs-contains v xs (ground arith) in rw (any, e) rest
]

pub occurs-push_ready :
    (v k : ℕ) (ready : List ℕ) → occurs v (push_ready k ready) ≡ one_if (k == v) + occurs v ready
occurs-push_ready v k [] = refl
occurs-push_ready v k (r ∷ ready) =
    if_intro (λ xs. occurs v xs ≡ one_if (k == v) + (one_if (r == v) + occurs v ready)) (leb k r)
      (k ∷ r ∷ ready) (r ∷ push_ready k ready) (λ _. refl)
      (λ _. omega (arith, occurs-push_ready v k ready))

pub tally_mono :
    (p q : PackEdge → Bool) (es : List PackEdge)
    → ((e : PackEdge) → p e ≡ true → q e ≡ true)
    → tally p es ≤ tally q es
tally_mono p q [] h = omega arith
tally_mono p q (e ∷ es) h =
    let rest = tally_mono p q es h in
    elim (Bool-cases (p e)) [
      | inl t ↦ let t' = h e t in rw (one_if, t, t') (omega arith)
      | inr t ↦ rw (one_if, t) (omega arith)
    ]

pub tally_add :
    (p q r : PackEdge → Bool) (es : List PackEdge)
    → ((e : PackEdge) → one_if (p e) ≡ one_if (q e) + one_if (r e))
    → tally p es ≡ tally q es + tally r es
tally_add p q r [] h = refl
tally_add p q r (e ∷ es) h = omega (arith, tally_add p q r es h, h e)

-- Some edge passes.
pub tally-some :
    (p : PackEdge → Bool) (es : List PackEdge)
    → 1 ≤ tally p es
    → (i : ℕ) × (e : PackEdge) × (get_elem? es i ≡ some e) × (p e ≡ true)
tally-some p [] h = absurd (omega arith)
tally-some p (e ∷ es) h = elim (Bool-cases (p e)) [
  | inl t ↦ (0, e, refl, t)
  | inr t ↦ let (i, e', at, passes) = tally-some p es (ground arith) in (suc i, e', at, passes)
]

-- A list without one of its members.
without_one :
    (v : ℕ) (ys : List ℕ)
    → 1 ≤ occurs v ys
    → (rest : List ℕ) × ((w : ℕ) → occurs w ys ≡ one_if (v == w) + occurs w rest)
      × ((f : ℕ → ℕ) → count f ys ≡ f v + count f rest)
without_one v [] h = absurd (omega arith)
without_one v (y ∷ ys) h = elim (ℕ_discrete y v) [
  | yes e ↦ (ys, λ w. ap (λ i. one_if (i == w) + occurs w ys) e, λ f. ap (λ i. f i + count f ys) e)
  | no ne ↦
      let (rest, occ, counts) = without_one v ys (ground arith) in
      (y ∷ rest, λ w. omega (arith, occ w), λ f. omega (arith, counts f))
]

-- A list that has each member as often as another has it, at most, is the other less a rest.
pub is_part :
    (xs ys : List ℕ)
    → ((v : ℕ) → occurs v xs ≤ occurs v ys)
    → (rest : List ℕ) × ((f : ℕ → ℕ) → count f ys ≡ count f xs + count f rest)
is_part [] ys h = (ys, λ f. omega arith)
is_part (x ∷ xs) ys h =
    let here : 1 ≤ one_if (x == x) + occurs x xs = ground (arith, ==_self x) in
    let (less, occ, counts) = without_one x ys (omega (arith, h x)) in
    let (rest, parts) = is_part xs less (λ v. omega (arith, h v, occ v)) in
    (rest, λ f. omega (arith, counts f, parts f))

pub count_ones : (xs : List ℕ) → count (λ x. 1) xs ≡ length xs
count_ones [] = refl
count_ones (x ∷ xs) = omega (arith, count_ones xs)
