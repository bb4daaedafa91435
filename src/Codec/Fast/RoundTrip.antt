-- ===== src/Codec/Fast/RoundTrip.antt =====
-- What the writers of core/src/serialize/fast_protocol_packed.rs put down, the readers give back.
use mathlib.Core.List.{append_assoc}
use steady_state_stack.Common.{
  ==_iff, Bool, Bool-cases, List, Option, [], ap, arith, if_intro, inl, inr, leb, length,
  length-append, ltb, ltb→lt, refl, some, subst, suc, sym, ℕ, ◌%◌, ◌++◌, ◌+◌, ◌-◌, ◌<◌, ◌==◌, ◌∙◌,
  ◌∷◌, ◌≡◌, ◌≤◌,
}
use steady_state_stack.Codec.Fast.{
  first_byte, i64_min, levels, put, put_groups, read_long_signed, read_long_signed_tail,
  read_long_unsigned, read_unsigned_loop, sar, shl7, shr, sign_bits, word, write_long_signed,
  write_long_signed_neg, write_long_signed_pos, write_long_unsigned,
}
use steady_state_stack.Codec.Fast.Groups.{
  Chain, groups, length-groups, put_groups_lem, read_groups, start,
}

-- The signed reader, with the accumulator before its shift and the bytes read so far.
tail_signed : ℕ → ℕ → List ℕ → Option ℕ × List ℕ
tail_signed a n rest = read_long_signed_tail (shl7 a) rest (n + length rest)

start_signed : ℕ → List ℕ → Option ℕ × List ℕ
start_signed b rest = first_byte (suc (length rest)) (b ∷ rest)

extend_signed : ℕ → ℕ
unfolding sign_bits
extend_signed b = sign_bits b + b

signed_first_more :
    (b : ℕ) (rest : List ℕ) → b < 128 → start_signed b rest ≡ tail_signed (extend_signed b) 1 rest
unfolding start_signed tail_signed extend_signed first_byte
signed_first_more b rest h = elim (Bool-cases (leb 128 b)) [
  | inl c ↦ absurd (ground arith)
  | inr c ↦ rw c (ap (read_long_signed_tail (shl7 (sign_bits b + b)) rest) (omega arith))
]

signed_tail_more :
    (a n b : ℕ) (rest : List ℕ)
    → b < 128
    → n < 10
    → tail_signed a n (b ∷ rest) ≡ tail_signed (shl7 a + b) (n + 1) rest
unfolding tail_signed read_long_signed_tail
signed_tail_more a n b rest h k =
    let same : n + suc (length rest) ≡ n + 1 + length rest = omega arith in
    elim (Bool-cases (leb 128 b)) [
      | inl c ↦ absurd (ground arith)
      | inr c ↦ elim (Bool-cases (ltb 10 (n + suc (length rest) - suc (length rest)))) [
        | inl far ↦ absurd (ground arith)
        | inr near ↦ rw (c, near) (ap (read_long_signed_tail (shl7 (shl7 a + b)) rest) same)
      ]
    ]

signed_first_stop :
    (b : ℕ) (rest : List ℕ) → b < 128 → start_signed (b + 128) rest ≡ (some (extend_signed b), rest)
unfolding start_signed extend_signed first_byte
signed_first_stop b rest h = ground arith

signed_tail_stop :
    (a n b : ℕ) (rest : List ℕ)
    → b < 128
    → tail_signed a n ((b + 128) ∷ rest) ≡ (some (shl7 a + b), rest)
unfolding tail_signed read_long_signed_tail
signed_tail_stop a n b rest h = ground arith

read_long_signed_start : (buffer : List ℕ) → read_long_signed buffer ≡ start start_signed buffer
unfolding read_long_signed start_signed
read_long_signed_start [] = refl
read_long_signed_start (b ∷ rest) = refl

pos_Chain :
    (value : ℕ)
    → value < i64_min
    → Chain (λ limit. leb limit value) (shr value) extend_signed value levels
unfolding extend_signed
pos_Chain value h = ground arith

neg_Chain :
    (value : ℕ)
    → i64_min < value
    → value < word
    → Chain (λ limit. ltb limit (word - value)) (sar value) extend_signed value levels
unfolding extend_signed
neg_Chain value h k = ground arith

-- The unsigned reader starts with an empty value.
start_unsigned : ℕ → List ℕ → Option ℕ × List ℕ
start_unsigned b rest = read_unsigned_loop 0 0 (b ∷ rest)

tail_unsigned : ℕ → ℕ → List ℕ → Option ℕ × List ℕ
tail_unsigned a n rest = read_unsigned_loop a n rest

unsigned_first_more :
    (b : ℕ) (rest : List ℕ) → b < 128 → start_unsigned b rest ≡ tail_unsigned b 1 rest
unfolding start_unsigned tail_unsigned read_unsigned_loop
unsigned_first_more b rest h = elim (Bool-cases (leb 128 b)) [
  | inl c ↦ absurd (ground arith)
  | inr c ↦ rw c (ap (λ x. read_unsigned_loop x 1 rest) (omega arith))
]

unsigned_tail_more :
    (a n b : ℕ) (rest : List ℕ)
    → b < 128
    → n < 10
    → tail_unsigned a n (b ∷ rest) ≡ tail_unsigned (shl7 a + b) (n + 1) rest
unfolding tail_unsigned read_unsigned_loop
unsigned_tail_more a n b rest h k = elim (Bool-cases (leb 128 b)) [
  | inl c ↦ absurd (ground arith)
  | inr c ↦ elim (Bool-cases (ltb 10 (n + 1))) [
    | inl far ↦ absurd (ground arith)
    | inr near ↦ rw (c, near) (ap (λ x. read_unsigned_loop (shl7 a + x) (n + 1) rest) (omega arith))
  ]
]

unsigned_first_stop :
    (b : ℕ) (rest : List ℕ) → b < 128 → start_unsigned (b + 128) rest ≡ (some b, rest)
unfolding start_unsigned read_unsigned_loop
unsigned_first_stop b rest h = ground arith

unsigned_tail_stop :
    (a n b : ℕ) (rest : List ℕ)
    → b < 128
    → tail_unsigned a n ((b + 128) ∷ rest) ≡ (some (shl7 a + b), rest)
unfolding tail_unsigned read_unsigned_loop
unsigned_tail_stop a n b rest h = ground arith

read_long_unsigned_start :
    (buffer : List ℕ) → read_long_unsigned buffer ≡ start start_unsigned buffer
unfolding read_long_unsigned start_unsigned
read_long_unsigned_start [] = refl
read_long_unsigned_start (b ∷ rest) = refl

unsigned_Chain :
    (value : ℕ) → value < word → Chain (λ limit. leb limit value) (shr value) (λ b. b) value levels
unsigned_Chain value h = ground arith

-- Every `u64` is read back as it was written, and what follows it in the buffer is left.
pub read_long_unsigned-write_long_unsigned :
    (value : ℕ) (rest : List ℕ)
    → value < word
    → read_long_unsigned (write_long_unsigned value [] ++ rest) ≡ (some value, rest)
unfolding write_long_unsigned
read_long_unsigned-write_long_unsigned value rest h =
    let above : ℕ → Bool = λ limit. leb limit value in
    ap read_long_unsigned (
      ap (λ x. put (value % 128 + 128) x ++ rest) (put_groups_lem above (shr value) levels [])
      ∙ append_assoc (groups above (shr value) levels) ((value % 128 + 128) ∷ []) rest)
    ∙ read_long_unsigned_start (groups above (shr value) levels ++ (value % 128 + 128) ∷ rest)
    ∙ read_groups above (shr value) (λ b. b) start_unsigned tail_unsigned unsigned_first_more
        unsigned_tail_more unsigned_first_stop unsigned_tail_stop levels value rest (omega arith)
        (unsigned_Chain value h)

module _ (above : ℕ → Bool) (shifted : ℕ → ℕ) where
  -- A value with a chain for the levels is read back.
  read_signed_groups :
      (value : ℕ) (rest : List ℕ)
      → Chain above shifted extend_signed value levels
      → read_long_signed (put (value % 128 + 128) (put_groups above shifted levels []) ++ rest)
        ≡ (some value, rest)
  read_signed_groups value rest c =
      ap read_long_signed (
        ap (λ x. put (value % 128 + 128) x ++ rest) (put_groups_lem above shifted levels [])
        ∙ append_assoc (groups above shifted levels) ((value % 128 + 128) ∷ []) rest)
      ∙ read_long_signed_start (groups above shifted levels ++ (value % 128 + 128) ∷ rest)
      ∙ read_groups above shifted extend_signed start_signed tail_signed signed_first_more
          signed_tail_more signed_first_stop signed_tail_stop levels value rest (omega arith) c

write_long_signed_read_positive :
    (value : ℕ) (rest : List ℕ)
    → value < i64_min
    → read_long_signed (write_long_signed_pos value [] ++ rest) ≡ (some value, rest)
unfolding write_long_signed_pos
write_long_signed_read_positive value rest h =
    read_signed_groups (λ limit. leb limit value) (shr value) value rest (pos_Chain value h)

write_long_signed_read_negative :
    (value : ℕ) (rest : List ℕ)
    → i64_min < value
    → value < word
    → read_long_signed (write_long_signed_neg value [] ++ rest) ≡ (some value, rest)
unfolding write_long_signed_neg
write_long_signed_read_negative value rest h k =
    read_signed_groups (λ limit. ltb limit (word - value)) (sar value) value rest
      (neg_Chain value h k)

read_minimum :
    (rest : List ℕ)
    → read_long_signed ((0x7F ∷ 0 ∷ 0 ∷ 0 ∷ 0 ∷ 0 ∷ 0 ∷ 0 ∷ 0 ∷ 0x80 ∷ []) ++ rest)
      ≡ (some i64_min, rest)
unfolding read_long_signed
read_minimum rest = ground arith

-- Every `i64` is read back as it was written, and what follows it in the buffer is left.
pub read_long_signed-write_long_signed :
    (value : ℕ) (rest : List ℕ)
    → value < word
    → read_long_signed (write_long_signed value [] ++ rest) ≡ (some value, rest)
unfolding write_long_signed
read_long_signed-write_long_signed value rest h =
    if_intro P (ltb value i64_min) _ _
      (λ c. write_long_signed_read_positive value rest (ltb→lt value i64_min c))
      λ c.
        if_intro P (value == i64_min) _ _
          (λ e.
            subst (λ v. read_long_signed (minimum ++ rest) ≡ (some v, rest))
              (sym ((==_iff value i64_min).0 e)) (read_minimum rest))
          (λ e. write_long_signed_read_negative value rest (ground arith) h)
  where
    P : List ℕ → Type 0
    P buffer = read_long_signed (buffer ++ rest) ≡ (some value, rest)

    minimum : List ℕ
    minimum = 0x7F ∷ 0 ∷ 0 ∷ 0 ∷ 0 ∷ 0 ∷ 0 ∷ 0 ∷ 0 ∷ 0x80 ∷ []

module _ (above : ℕ → Bool) (shifted : ℕ → ℕ) (value : ℕ) where
  length-written :
      (1 ≤ length (put (value % 128 + 128) (put_groups above shifted levels [])))
      × (length (put (value % 128 + 128) (put_groups above shifted levels [])) ≤ 10)
  length-written = omega (
    arith,
    length-append (put_groups above shifted levels []) ((value % 128 + 128) ∷ []),
    ap length (put_groups_lem above shifted levels []),
    length-groups above shifted levels,
  )

-- An `i64` takes between one and ten bytes.
pub length-write_long_signed :
    (value : ℕ)
    → (1 ≤ length (write_long_signed value [])) × (length (write_long_signed value []) ≤ 10)
unfolding write_long_signed
length-write_long_signed value =
    if_intro P (ltb value i64_min) _ _
      (λ c. length-written (λ limit. leb limit value) (shr value) value)
      λ c.
        if_intro P (value == i64_min) _ _ (λ e. omega arith)
          (λ e. length-written (λ limit. ltb limit (word - value)) (sar value) value)
  where
    P : List ℕ → Type 0
    P buffer = (1 ≤ length buffer) × (length buffer ≤ 10)

-- What is in the buffer stays in front.
put-append :
    (above : ℕ → Bool) (shifted : ℕ → ℕ) (last : ℕ) (buffer : List ℕ)
    → put last (put_groups above shifted levels buffer)
      ≡ buffer ++ put last (put_groups above shifted levels [])
put-append above shifted last buffer =
    ap (put last) (put_groups_lem above shifted levels buffer)
    ∙ append_assoc buffer (groups above shifted levels) (last ∷ [])
    ∙ ap (λ g. buffer ++ put last g) (sym (put_groups_lem above shifted levels []))

pub write_long_unsigned-append :
    (value : ℕ) (buffer : List ℕ)
    → write_long_unsigned value buffer ≡ buffer ++ write_long_unsigned value []
unfolding write_long_unsigned
write_long_unsigned-append value buffer =
    put-append (λ limit. leb limit value) (shr value) (value % 128 + 128) buffer

pub write_long_signed-append :
    (value : ℕ) (buffer : List ℕ)
    → write_long_signed value buffer ≡ buffer ++ write_long_signed value []
unfolding write_long_signed
write_long_signed-append value buffer = elim (Bool-cases (ltb value i64_min)) [
  | inl positive ↦
      rw positive (put-append (λ limit. leb limit value) (shr value) (value % 128 + 128) buffer)
  | inr negative ↦ elim (Bool-cases (value == i64_min)) [
    | inl least ↦ rw (negative, least) refl
    | inr other ↦
        rw (negative, other)
          (put-append (λ limit. ltb limit (word - value)) (sar value) (value % 128 + 128) buffer)
  ]
]
