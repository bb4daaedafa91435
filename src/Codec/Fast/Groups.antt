-- ===== src/Codec/Fast/Groups.antt =====
-- Reading back the groups that the writers of core/src/serialize/fast_protocol_packed.rs put down.
use mathlib.Core.List.{append-nil, append_assoc}
use steady_state_stack.Common.{
  Bool, Bool-cases, List, Option, [], ap, arith, false, if◌then◌else◌, inl, inr, length,
  length-append, none, some, sym, ℕ, ◌%◌, ◌++◌, ◌+◌, ◌<◌, ◌∙◌, ◌∷◌, ◌≡◌, ◌≤◌,
}
use steady_state_stack.Codec.Fast.{put, put_groups, shl7}

-- A reader that is given its first byte apart.
abbrev pub start : (ℕ → List ℕ → Option ℕ × List ℕ) → List ℕ → Option ℕ × List ℕ
start first [] = (none, [])
start first (b ∷ rest) = first b rest

module _ (above : ℕ → Bool) (shifted : ℕ → ℕ) where
  -- The groups alone.
  abbrev pub groups : List (ℕ × ℕ) → List ℕ
  groups [] = []
  groups ((limit, shift) ∷ rest) =
      if above limit then groups rest ++ (shifted shift % 128) ∷ [] else []

  pub put_groups_lem :
      (table : List (ℕ × ℕ)) (buffer : List ℕ)
      → put_groups above shifted table buffer ≡ buffer ++ groups table
  unfolding put_groups
  put_groups_lem [] buffer = sym (append-nil buffer)
  put_groups_lem ((limit, shift) ∷ rest) buffer = elim (Bool-cases (above limit)) [
    | inl c ↦ rw c (
        ap (put (shifted shift % 128)) (put_groups_lem rest buffer)
        ∙ append_assoc buffer (groups rest) ((shifted shift % 128) ∷ []))
    | inr c ↦ rw c (sym (append-nil buffer))
  ]

  pub length-groups : (table : List (ℕ × ℕ)) → length (groups table) ≤ length table
  length-groups [] = omega arith
  length-groups ((limit, shift) ∷ rest) =
      ground (arith, length-groups rest, length-append (groups rest) ((shifted shift % 128) ∷ []))

  -- `q` is what the groups of `table` and one more group stand for. Where no group is written above
  -- that one, it alone extends to `q`; else the group above it leaves out its low seven bits.
  abbrev pub Chain : (ℕ → ℕ) → ℕ → List (ℕ × ℕ) → Type 0
  Chain extend q [] = extend (q % 128) ≡ q
  Chain extend q ((limit, shift) ∷ rest) =
      (above limit ≡ false → extend (q % 128) ≡ q)
      × (shl7 (shifted shift) + q % 128 ≡ q)
      × Chain extend (shifted shift) rest

  -- A reader that starts on the first byte, sign-extended by `extend`, and then goes on in `tail` with
  -- the accumulator and the bytes read so far.
  module _ (extend : ℕ → ℕ) (first : ℕ → List ℕ → Option ℕ × List ℕ)
      (tail : ℕ → ℕ → List ℕ → Option ℕ × List ℕ)
      (first_more : (b : ℕ) (rest : List ℕ) → b < 128 → first b rest ≡ tail (extend b) 1 rest)
      (tail_more : (a n b : ℕ) (rest : List ℕ)
        → b < 128
        → n < 10
        → tail a n (b ∷ rest) ≡ tail (shl7 a + b) (n + 1) rest)
      (first_stop : (b : ℕ) (rest : List ℕ)
        → b < 128
        → first (b + 128) rest ≡ (some (extend b), rest))
      (tail_stop : (a n b : ℕ) (rest : List ℕ)
        → b < 128
        → tail a n ((b + 128) ∷ rest) ≡ (some (shl7 a + b), rest)) where
    -- The groups of `table` and one more group `q % 128` leave the reader at `q`.
    feed :
        (table : List (ℕ × ℕ)) (q : ℕ) (rest : List ℕ)
        → length table < 10
        → Chain extend q table
        → (n : ℕ) × (n ≤ length table + 1)
          × (start first (groups table ++ (q % 128) ∷ rest) ≡ tail q n rest)
    feed [] q rest few c =
        (1, omega arith, first_more (q % 128) rest (omega arith) ∙ ap (λ x. tail x 1 rest) c)
    feed ((limit, shift) ∷ table) q rest few (low, high, c) = elim (Bool-cases (above limit)) [
      | inr skip ↦ (
        1,
        omega arith,
        rw skip (first_more (q % 128) rest (omega arith) ∙ ap (λ x. tail x 1 rest) (low skip)),
      )
      | inl taken ↦
          let (n, le, e) = feed table (shifted shift) ((q % 128) ∷ rest) (omega arith) c in
          (
            n + 1,
            omega arith,
            rw taken (
                ap (start first)
                  (append_assoc (groups table) ((shifted shift % 128) ∷ []) ((q % 128) ∷ rest))
                ∙ e
                ∙ tail_more (shifted shift) n (q % 128) rest (omega arith) (omega arith)
                ∙ ap (λ x. tail x (n + 1) rest) high),
          )
    ]

    -- A chain for the whole value, and its last group with the stop bit: the reader returns the value.
    pub read_groups :
        (table : List (ℕ × ℕ)) (q : ℕ) (rest : List ℕ)
        → length table < 10
        → Chain extend q table
        → start first (groups table ++ (q % 128 + 128) ∷ rest) ≡ (some q, rest)
    read_groups [] q rest few c =
        first_stop (q % 128) rest (omega arith) ∙ ap (λ x. (some x, rest)) c
    read_groups ((limit, shift) ∷ table) q rest few (low, high, c) =
        elim (Bool-cases (above limit)) [
          | inr skip ↦
              rw skip
                (first_stop (q % 128) rest (omega arith) ∙ ap (λ x. (some x, rest)) (low skip))
          | inl taken ↦
              let (n, le, e) =
                feed table (shifted shift) ((q % 128 + 128) ∷ rest) (omega arith) c in
              rw taken (
                ap (start first) (
                  append_assoc (groups table) ((shifted shift % 128) ∷ []) ((q % 128 + 128) ∷ rest))
                ∙ e
                ∙ tail_stop (shifted shift) n (q % 128) rest (omega arith)
                ∙ ap (λ x. (some x, rest)) high)
        ]
