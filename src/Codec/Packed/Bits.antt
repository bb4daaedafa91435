-- ===== src/Codec/Packed/Bits.antt =====
-- The bit mask of core/src/serialize/byte_buffer_packer.rs: bits packed into chunks of 64, without the
-- chunks of zeros at the end, stand for the same bits.
use native.Mathlib.Nat.{lt_of_lt_of_le, mul_assoc, one-mul, pow-le-pow_right, pow-suc, zero-mul}
use mathlib.Core.List.{append-nil, append_assoc}
use steady_state_stack.Common.{
  All, Bool-cases, List, [], ap, ap₂, arith, if_intro, inl, inr, length, min, refl, subst, suc, sym,
  true, zero, ℕ, ◌%◌, ◌&&◌, ◌*◌, ◌++◌, ◌+◌, ◌-◌, ◌/◌, ◌<◌, ◌==◌, ◌^◌, ◌∙◌, ◌∷◌, ◌≡◌, ◌≤◌,
}
use steady_state_stack.Codec.Fast.{word}
use steady_state_stack.Codec.Packed.{consume_to_u64, explode, is_nil, pack_from, trim_zeros}

-- The mask says the same as the bits; what it does not reach is zero.
abbrev pub SameBits : List ℕ → List ℕ → Type 0
SameBits [] mask = Unit
SameBits (b ∷ bits) [] = (b ≡ 0) × SameBits bits []
SameBits (b ∷ bits) (m ∷ mask) = (b ≡ m) × SameBits bits mask

abbrev pub expand : List ℕ → List ℕ
expand [] = []
expand (c ∷ chunks) = explode 64 c ++ expand chunks

abbrev pub AreBits : List ℕ → Type 0
AreBits bits = All (λ b. b < 2) bits

abbrev pub AreWords : List ℕ → Type 0
AreWords words = All (λ c. c < word) words

-- A bit set above the bits of `v` is the last one out.
explode-snoc :
    (i v b : ℕ) → v < 2 ^ i → b < 2 → explode (suc i) (v + b * 2 ^ i) ≡ explode i v ++ b ∷ []
explode-snoc zero v b h h' = ap (λ x. x ∷ []) (omega arith)
explode-snoc (suc i) v b h h' =
    let t = b * 2 ^ i in
    let double : b * 2 ^ suc i ≡ t * 2 =
      ap (λ k. b * k) (pow-suc 2 i) ∙ sym (mul_assoc b (2 ^ i) 2) in
    let low : (v + b * 2 ^ suc i) % 2 ≡ v % 2 = omega (arith, double) in
    let high : (v + b * 2 ^ suc i) / 2 ≡ v / 2 + t = omega (arith, double) in
    ap₂ (λ x xs. x ∷ xs) low
      (ap (explode (suc i)) high ∙ explode-snoc i (v / 2) b (omega (arith, pow-suc 2 i)) h')

explode-prefix : (i k v : ℕ) (mask : List ℕ) → SameBits (explode i v) (explode (i + k) v ++ mask)
explode-prefix zero k v mask = tt
explode-prefix (suc i) k v mask =
    subst (λ n. SameBits (explode (suc i) v) (explode n v ++ mask)) {x = suc (i + k)}
      {y = suc i + k} (omega arith) (refl, explode-prefix i k (v / 2) mask)

SameBits-prepend :
    (front bits mask : List ℕ) → SameBits bits mask → SameBits (front ++ bits) (front ++ mask)
SameBits-prepend [] bits mask h = h
SameBits-prepend (x ∷ front) bits mask h = (refl, SameBits-prepend front bits mask h)

filled_bound : (i v b : ℕ) → v < 2 ^ i → b < 2 → v + b * 2 ^ i < 2 ^ suc i
filled_bound i v zero h h' = omega (arith, pow-suc 2 i, zero-mul (2 ^ i))
filled_bound i v (suc zero) h h' = omega (arith, pow-suc 2 i, one-mul (2 ^ i))
filled_bound i v (suc (suc b)) h h' = absurd (omega arith)

pack_from-SameBits :
    (v i : ℕ) (bits : List ℕ)
    → i < 64
    → v < 2 ^ i
    → AreBits bits
    → SameBits (explode i v ++ bits) (expand (pack_from v i bits))
unfolding pack_from
pack_from-SameBits v zero [] h lt are = tt
pack_from-SameBits v (suc i) [] h lt are =
    let whole =
      subst (λ n. SameBits (explode (suc i) v) (explode n v ++ [])) {x = suc i + (63 - i)} {y = 64}
        (omega arith) (explode-prefix (suc i) (63 - i) v []) in
    if_intro (λ chunks. SameBits (explode (suc i) v ++ []) (expand chunks)) (suc i == 0) [] (v ∷ [])
      (λ e. absurd (ground arith))
      (λ e.
        subst (λ xs. SameBits xs (expand (v ∷ []))) (sym (append-nil (explode (suc i) v))) whole)
pack_from-SameBits v i (b ∷ bits) h lt are =
    let filled = v + b * 2 ^ i in
    let joined : explode i v ++ b ∷ bits ≡ explode (suc i) filled ++ bits =
      sym (append_assoc (explode i v) (b ∷ []) bits)
      ∙ ap (λ xs. xs ++ bits) (sym (explode-snoc i v b lt are.0)) in
    rw joined (elim (Bool-cases (i == 63)) [
      | inl last ↦
          let full : suc i ≡ 64 = ground arith in
          rw last (
            subst
              (λ n.
                SameBits (explode n filled ++ bits)
                  (explode 64 filled ++ expand (pack_from 0 0 bits)))
              (sym full)
              (SameBits-prepend (explode 64 filled) bits (expand (pack_from 0 0 bits))
                (pack_from-SameBits 0 0 bits (omega arith) (omega arith) are.1)))
      | inr more ↦
          let next : i + 1 ≡ suc i = omega arith in
          rw (more, next)
            (pack_from-SameBits filled (suc i) bits (ground arith) (filled_bound i v b lt are.0)
              are.1)
    ])

-- A tail of the mask can be replaced by one that says as much.
SameBits-tail :
    (front bits mask mask' : List ℕ)
    → ((rest : List ℕ) → SameBits rest mask → SameBits rest mask')
    → SameBits bits (front ++ mask)
    → SameBits bits (front ++ mask')
SameBits-tail [] bits mask mask' f h = f bits h
SameBits-tail (x ∷ front) [] mask mask' f h = tt
SameBits-tail (x ∷ front) (b ∷ bits) mask mask' f h =
    (h.0, SameBits-tail front bits mask mask' f h.1)

SameBits-zeros : (n : ℕ) (bits : List ℕ) → SameBits bits (explode n 0 ++ []) → SameBits bits []
SameBits-zeros zero bits h = h
SameBits-zeros (suc n) [] h = tt
SameBits-zeros (suc n) (b ∷ bits) h = (h.0, SameBits-zeros n bits h.1)

is_nil-eq : (xs : List ℕ) → is_nil xs ≡ true → xs ≡ []
is_nil-eq [] h = refl
is_nil-eq (x ∷ xs) h = cc

trim_zeros-SameBits :
    (chunks bits : List ℕ)
    → SameBits bits (expand chunks)
    → SameBits bits (expand (trim_zeros chunks))
trim_zeros-SameBits [] bits h = h
trim_zeros-SameBits (c ∷ chunks) bits h =
    let kept =
      SameBits-tail (explode 64 c) bits (expand chunks) (expand (trim_zeros chunks))
        (λ rest. trim_zeros-SameBits chunks rest) h in
    if_intro (λ cs. SameBits bits (expand cs)) (c == 0 && is_nil (trim_zeros chunks)) []
      (c ∷ trim_zeros chunks)
      (λ drop_it.
        let none_left : trim_zeros chunks ≡ [] = is_nil-eq (trim_zeros chunks) (ground arith) in
        let zero_chunk : c ≡ 0 = ground arith in
        SameBits-zeros 64 bits (
          subst (λ cs. SameBits bits (explode 64 0 ++ expand cs)) none_left
            (subst (λ k. SameBits bits (explode 64 k ++ expand (trim_zeros chunks))) zero_chunk
              kept)))
      (λ keep. kept)

pack_from-AreWords :
    (v i : ℕ) (bits : List ℕ) → i < 64 → v < 2 ^ i → AreBits bits → AreWords (pack_from v i bits)
unfolding pack_from
pack_from-AreWords v i [] h lt are =
    if_intro AreWords (i == 0) [] (v ∷ []) (λ e. tt)
      (λ e. (
        lt_of_lt_of_le lt (pow-le-pow_right {n = 2} (omega arith) {i = i} {j = 64} (omega arith)),
        tt,
      ))
pack_from-AreWords v i (b ∷ bits) h lt are = elim (Bool-cases (i == 63)) [
  | inl last ↦
      let at_63 : i ≡ 63 = ground arith in
      let fits : v + b * 2 ^ i < 2 ^ suc 63 =
        subst (λ k. v + b * 2 ^ i < 2 ^ suc k) at_63 (filled_bound i v b lt are.0) in
      rw last (fits, pack_from-AreWords 0 0 bits (omega arith) (omega arith) are.1)
  | inr more ↦
      let next : i + 1 ≡ suc i = omega arith in
      rw (more, next)
        (pack_from-AreWords (v + b * 2 ^ i) (suc i) bits (ground arith)
          (filled_bound i v b lt are.0) are.1)
]

trim_zeros-AreWords : (chunks : List ℕ) → AreWords chunks → AreWords (trim_zeros chunks)
trim_zeros-AreWords [] h = tt
trim_zeros-AreWords (c ∷ chunks) h =
    if_intro AreWords (c == 0 && is_nil (trim_zeros chunks)) [] (c ∷ trim_zeros chunks) (λ e. tt)
      (λ e. (h.0, trim_zeros-AreWords chunks h.1))

length-trim_zeros : (chunks : List ℕ) → length (trim_zeros chunks) ≤ length chunks
length-trim_zeros [] = omega arith
length-trim_zeros (c ∷ chunks) =
    if_intro (λ cs. length cs ≤ suc (length chunks)) (c == 0 && is_nil (trim_zeros chunks)) []
      (c ∷ trim_zeros chunks) (λ e. omega arith) (λ e. omega (arith, length-trim_zeros chunks))

length-pack_from : (v i : ℕ) (bits : List ℕ) → length (pack_from v i bits) ≤ length bits + min i 1
unfolding pack_from
length-pack_from v i [] =
    if_intro (λ cs. length cs ≤ 0 + min i 1) (i == 0) [] (v ∷ []) (λ e. omega arith)
      (λ e. ground arith)
length-pack_from v i (b ∷ bits) = elim (Bool-cases (i == 63)) [
  | inl last ↦ rw last (omega (arith, length-pack_from 0 0 bits))
  | inr more ↦ rw more (omega (arith, length-pack_from (v + b * 2 ^ i) (i + 1) bits))
]

-- The chunks that a delta record carries.
abbrev pub mask_of : List ℕ → List ℕ
mask_of bits = trim_zeros (consume_to_u64 bits)

pub mask_of-SameBits : (bits : List ℕ) → AreBits bits → SameBits bits (expand (mask_of bits))
unfolding consume_to_u64
mask_of-SameBits bits are =
    trim_zeros-SameBits (pack_from 0 0 bits) bits
      (pack_from-SameBits 0 0 bits (omega arith) (omega arith) are)

pub mask_of-AreWords : (bits : List ℕ) → AreBits bits → AreWords (mask_of bits)
unfolding consume_to_u64
mask_of-AreWords bits are =
    trim_zeros-AreWords (pack_from 0 0 bits)
      (pack_from-AreWords 0 0 bits (omega arith) (omega arith) are)

pub length-mask_of : (bits : List ℕ) → length (mask_of bits) ≤ length bits
unfolding consume_to_u64
length-mask_of bits =
    omega (arith, length-trim_zeros (pack_from 0 0 bits), length-pack_from 0 0 bits)
