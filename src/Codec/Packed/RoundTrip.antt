-- ===== src/Codec/Packed/RoundTrip.antt =====
-- The two kinds of record of core/src/serialize/byte_buffer_packer.rs, a full one and a delta, as a
-- reader takes them.
use mathlib.Core.List.{append-nil, append_assoc}
use steady_state_stack.Common.{
  List, [], ap, ap₂, arith, false, length, refl, some, subst, suc, sym, take, true, ℕ, ℕ_discrete,
  ◌%◌, ◌++◌, ◌-◌, ◌<◌, ◌==◌, ◌∙◌, ◌∷◌, ◌≡◌, ◌≢◌, ◌≤◌,
}
use steady_state_stack.Codec.Fast.{
  i64_min, read_long_signed, word, write_long_signed, write_long_unsigned,
}
use steady_state_stack.Codec.Fast.RoundTrip.{
  read_long_signed-write_long_signed, read_long_unsigned-write_long_unsigned,
  write_long_signed-append, write_long_unsigned-append,
}
use steady_state_stack.Codec.Packed.{
  PackedVecReader, add_word, apply_bitmask, changes, cons_to, deltas, got, is_positive,
  read_bitmask, read_full, restore_vec, sub_word, write_all, write_delta, write_full,
}
use steady_state_stack.Codec.Packed.Bits.{
  AreBits, AreWords, SameBits, expand, length-mask_of, mask_of, mask_of-AreWords, mask_of-SameBits,
}

-- The bytes of several numbers.
abbrev pub signed_bytes : List ℕ → List ℕ
signed_bytes [] = []
signed_bytes (v ∷ vs) = write_long_signed v [] ++ signed_bytes vs

abbrev pub unsigned_bytes : List ℕ → List ℕ
unsigned_bytes [] = []
unsigned_bytes (v ∷ vs) = write_long_unsigned v [] ++ unsigned_bytes vs

write_all-signed :
    (vs target : List ℕ) → write_all write_long_signed vs target ≡ target ++ signed_bytes vs
write_all-signed [] target = sym (append-nil target)
write_all-signed (v ∷ vs) target =
    write_all-signed vs (write_long_signed v target)
    ∙ ap (λ t. t ++ signed_bytes vs) (write_long_signed-append v target)
    ∙ append_assoc target (write_long_signed v []) (signed_bytes vs)

write_all-unsigned :
    (vs target : List ℕ) → write_all write_long_unsigned vs target ≡ target ++ unsigned_bytes vs
write_all-unsigned [] target = sym (append-nil target)
write_all-unsigned (v ∷ vs) target =
    write_all-unsigned vs (write_long_unsigned v target)
    ∙ ap (λ t. t ++ unsigned_bytes vs) (write_long_unsigned-append v target)
    ∙ append_assoc target (write_long_unsigned v []) (unsigned_bytes vs)

read_bitmask_lem :
    (chunks rest : List ℕ)
    → AreWords chunks
    → read_bitmask (length chunks) (unsigned_bytes chunks ++ rest) ≡ some (expand chunks, rest)
unfolding read_bitmask
read_bitmask_lem [] rest are = refl
read_bitmask_lem (c ∷ chunks) rest are =
    rw
      (
        append_assoc (write_long_unsigned c []) (unsigned_bytes chunks) rest,
        read_long_unsigned-write_long_unsigned c (unsigned_bytes chunks ++ rest) are.0,
        read_bitmask_lem chunks rest are.1,
      )
      refl

read_full_lem :
    (vs rest : List ℕ)
    → AreWords vs
    → read_full (length vs) (signed_bytes vs ++ rest) ≡ some (vs, rest)
unfolding read_full
read_full_lem [] rest are = refl
read_full_lem (v ∷ vs) rest are =
    rw
      (
        append_assoc (write_long_signed v []) (signed_bytes vs) rest,
        read_long_signed-write_long_signed v (signed_bytes vs ++ rest) are.0,
        read_full_lem vs rest are.1,
      )
      refl

pub deltas-same :
    (p s : ℕ) (previous source : List ℕ)
    → s ≡ p
    → s < word
    → deltas (p ∷ previous) (s ∷ source) ≡ deltas previous source
deltas-same p s previous source e h = ground arith

deltas_moved :
    (p s : ℕ) (previous source : List ℕ)
    → s ≢ p
    → p < word
    → s < word
    → deltas (p ∷ previous) (s ∷ source) ≡ sub_word s p ∷ deltas previous source
deltas_moved p s previous source ne h h' =
    let moved : (sub_word s p == 0) ≡ false = ground arith in rw moved refl

add_word-sub_word : (p s : ℕ) → p < word → s < word → add_word p (sub_word s p) ≡ s
add_word-sub_word p s h h' = ground arith

sub_word-bound : (s p : ℕ) → sub_word s p < word
sub_word-bound s p = omega arith

-- The mask and the differences give the source again, up to the length of the previous vector.
apply_bitmask_lem :
    (previous source mask rest : List ℕ)
    → length previous ≤ length source
    → AreWords previous
    → AreWords source
    → SameBits (changes source previous) mask
    → apply_bitmask previous mask (signed_bytes (deltas previous source) ++ rest)
      ≡ some (take (length previous) source, rest)
unfolding apply_bitmask
apply_bitmask_lem [] source mask rest le wp ws same = refl
apply_bitmask_lem (p ∷ previous) [] mask rest le wp ws same = absurd (omega arith)
apply_bitmask_lem (p ∷ previous) (s ∷ source) [] rest le wp ws same =
    let eq : s ≡ p = ground (arith, same.0) in
    ap (λ d. apply_bitmask (p ∷ previous) [] (signed_bytes d ++ rest))
      (deltas-same p s previous source eq ws.0)
    ∙ ap (cons_to p) (apply_bitmask_lem previous source [] rest (omega arith) wp.1 ws.1 same.1)
    ∙ ap (λ x. some (x ∷ take (length previous) source, rest)) (sym eq)
apply_bitmask_lem (p ∷ previous) (s ∷ source) (m ∷ mask) rest le wp ws same =
    elim (ℕ_discrete s p) [
      | yes eq ↦
          let zero_bit : m ≡ 0 = ground (arith, same.0) in
          ap₂ (λ k d. apply_bitmask (p ∷ previous) (k ∷ mask) (signed_bytes d ++ rest)) zero_bit
            (deltas-same p s previous source eq ws.0)
          ∙ ap (cons_to p)
              (apply_bitmask_lem previous source mask rest (omega arith) wp.1 ws.1 same.1)
          ∙ ap (λ x. some (x ∷ take (length previous) source, rest)) (sym eq)
      | no ne ↦
          let one_bit : m ≡ 1 = ground (arith, same.0) in
          ap₂ (λ k d. apply_bitmask (p ∷ previous) (k ∷ mask) (signed_bytes d ++ rest)) one_bit
            (deltas_moved p s previous source ne wp.0 ws.0)
          ∙ ap
              (λ b.
                got (read_long_signed b)
                  (λ val rest'. cons_to (add_word p val) (apply_bitmask previous mask rest')))
              (append_assoc (write_long_signed (sub_word s p) [])
                (signed_bytes (deltas previous source)) rest)
          ∙ ap
              (λ o.
                got o (λ val rest'. cons_to (add_word p val) (apply_bitmask previous mask rest')))
              (read_long_signed-write_long_signed (sub_word s p)
                (signed_bytes (deltas previous source) ++ rest) (sub_word-bound s p))
          ∙ ap (cons_to (add_word p (sub_word s p)))
              (apply_bitmask_lem previous source mask rest (omega arith) wp.1 ws.1 same.1)
          ∙ ap (λ x. some (x ∷ take (length previous) source, rest))
              (add_word-sub_word p s wp.0 ws.0)
    ]

pub restore_full :
    (source rest : List ℕ) (r : PackedVecReader)
    → AreWords source
    → length source < i64_min
    → restore_vec (write_full [] source ++ rest) r
      ≡ some (source, record { previous = source }, rest)
unfolding restore_vec
restore_full source rest r are short =
    let n : ℕ = (word - length source) % word in
    let header : write_full [] source ++ rest
        ≡ write_long_signed n [] ++ (signed_bytes source ++ rest) =
      unfold write_full in
      ap (λ b. b ++ rest) (write_all-signed source (write_long_signed n []))
      ∙ append_assoc (write_long_signed n []) (signed_bytes source) rest in
    let not_positive : is_positive n ≡ false = ground arith in
    let not_least : (n == i64_min) ≡ false = ground (arith, short) in
    let count : (word - n) % word ≡ length source = ground arith in
    rw
      (
        header,
        read_long_signed-write_long_signed n (signed_bytes source ++ rest) (omega arith),
        not_positive,
        not_least,
        count,
        read_full_lem source rest are,
      )
      refl

changes-AreBits : (source previous : List ℕ) → AreBits (changes source previous)
changes-AreBits [] previous = tt
changes-AreBits (s ∷ source) [] = (ground arith, changes-AreBits source [])
changes-AreBits (s ∷ source) (p ∷ previous) = (ground arith, changes-AreBits source previous)

length-changes : (source previous : List ℕ) → length (changes source previous) ≡ length source
length-changes [] previous = refl
length-changes (s ∷ source) [] = ap suc (length-changes source [])
length-changes (s ∷ source) (p ∷ previous) = ap suc (length-changes source previous)

pub delta_bytes :
    (previous source rest : List ℕ)
    → let chunks = mask_of (changes source previous) in
      write_delta previous [] source ++ rest
      ≡ write_long_signed (length chunks) []
        ++ (unsigned_bytes chunks ++ (signed_bytes (deltas previous source) ++ rest))
unfolding write_delta
delta_bytes previous source rest =
    let chunks = mask_of (changes source previous) in
    let start = write_long_signed (length chunks) [] in
    let tail = signed_bytes (deltas previous source) in
    ap (λ b. b ++ rest)
      (write_all-signed (deltas previous source) (write_all write_long_unsigned chunks start)
        ∙ ap (λ b. b ++ tail) (write_all-unsigned chunks start))
    ∙ ap (λ b. b ++ rest) (append_assoc start (unsigned_bytes chunks) tail)
    ∙ append_assoc start (unsigned_bytes chunks ++ tail) rest
    ∙ ap (λ b. start ++ b) (append_assoc (unsigned_bytes chunks) tail rest)

-- Something changed, so some chunk is left.
chunks_left : (bits : List ℕ) → AreBits bits → ¬ SameBits bits [] → 0 < length (mask_of bits)
chunks_left bits are changed = go (mask_of bits) (mask_of-SameBits bits are)
  where
    go : (chunks : List ℕ) → SameBits bits (expand chunks) → 0 < length chunks
    go [] same = absurd (changed same)
    go (c ∷ chunks) same = omega arith

pub restore_delta :
    (source rest : List ℕ) (r : PackedVecReader)
    → length r.previous ≤ length source
    → AreWords r.previous
    → AreWords source
    → length source < i64_min
    → ¬ SameBits (changes source r.previous) []
    → restore_vec (write_delta r.previous [] source ++ rest) r
      ≡ some (
        take (length r.previous) source,
        record { previous = take (length r.previous) source },
        rest,
      )
unfolding restore_vec
restore_delta source rest r le wp ws short changed =
    let bits = changes source r.previous in
    let are = changes-AreBits source r.previous in
    let chunks = mask_of bits in
    let some_left = chunks_left bits are changed in
    let few : length chunks ≤ length source =
      subst (λ n. length chunks ≤ n) (length-changes source r.previous) (length-mask_of bits) in
    let after_header = signed_bytes (deltas r.previous source) ++ rest in
    let positive : is_positive (length chunks) ≡ true = ground (arith, some_left, few) in
    rw
      (
        delta_bytes r.previous source rest,
        read_long_signed-write_long_signed (length chunks) (unsigned_bytes chunks ++ after_header)
            (omega (arith, few)),
        positive,
        read_bitmask_lem chunks after_header (mask_of-AreWords bits are),
        apply_bitmask_lem r.previous source (expand chunks) rest le wp ws
            (mask_of-SameBits bits are),
      )
      refl
