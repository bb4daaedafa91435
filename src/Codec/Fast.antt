-- ===== src/Codec/Fast.antt =====
-- core/src/serialize/fast_protocol_packed.rs: seven bits to a byte, the most significant group first;
-- the high bit stops. A byte is a number below 256. An `i64` is its bit pattern, a number below
-- 2 ^ 64; one from 2 ^ 63 on is negative. A reader returns what is left of the buffer.
pub mod Groups
pub mod RoundTrip
use steady_state_stack.Common.{
  Bool, List, Option, [], if◌then◌else◌, leb, length, ltb, none, some, suc, ℕ, ◌%◌, ◌*◌, ◌++◌, ◌+◌,
  ◌-◌, ◌/◌, ◌==◌, ◌^◌, ◌∷◌,
}

abbrev pub word : ℕ
word = 2 ^ 64

abbrev pub i64_min : ℕ
i64_min = 2 ^ 63

-- `put_u8`.
abbrev put : ℕ → List ℕ → List ℕ
put b buffer = buffer ++ b ∷ []

-- The limits and shifts of the nested tests, outermost first.
abbrev pub levels : List (ℕ × ℕ)
levels =
    (0x40, 7)
    ∷ (0x2000, 14)
    ∷ (0x100000, 21)
    ∷ (0x8000000, 28)
    ∷ (0x400000000, 35)
    ∷ (0x20000000000, 42)
    ∷ (0x1000000000000, 49)
    ∷ (0x80000000000000, 56)
    ∷ (0x4000000000000000, 63)
    ∷ []

-- The nested tests: each, if it passes, runs what it holds and then writes its group. `above` tests
-- the limit and `shifted` is the value shifted right.
pub put_groups : (ℕ → Bool) → (ℕ → ℕ) → List (ℕ × ℕ) → List ℕ → List ℕ
put_groups above shifted [] buffer = buffer
put_groups above shifted ((limit, shift) ∷ rest) buffer =
    let inner = put_groups above shifted rest buffer in
    if above limit then put (shifted shift % 128) inner else buffer

-- `value >> shift` on a `u64`.
abbrev shr : ℕ → ℕ → ℕ
shr value shift = value / 2 ^ shift

-- `value >> shift` on a negative `i64`: ones are shifted in.
abbrev sar : ℕ → ℕ → ℕ
sar value shift = (value + word * 2 ^ shift - word) / 2 ^ shift

write_long_signed_pos : ℕ → List ℕ → List ℕ
unfolding put_groups
write_long_signed_pos value buffer =
    put (value % 128 + 128) (put_groups (λ limit. leb limit value) (shr value) levels buffer)

-- `absv` is `-value` as a `u64`.
write_long_signed_neg : ℕ → List ℕ → List ℕ
unfolding put_groups
write_long_signed_neg value buffer =
    let absv : ℕ = word - value in
    put (value % 128 + 128) (put_groups (λ limit. ltb limit absv) (sar value) levels buffer)

unfoldable pub write_long_unsigned : ℕ → List ℕ → List ℕ
unfolding write_long_signed_pos
write_long_unsigned value buffer = write_long_signed_pos value buffer

unfoldable pub write_long_signed : ℕ → List ℕ → List ℕ
unfolding write_long_signed_pos write_long_signed_neg
write_long_signed value buffer =
    if ltb value i64_min
    then write_long_signed_pos value buffer
    else if value == i64_min
    then buffer ++ 0x7F ∷ 0 ∷ 0 ∷ 0 ∷ 0 ∷ 0 ∷ 0 ∷ 0 ∷ 0 ∷ 0x80 ∷ []
    else write_long_signed_neg value buffer

-- `x << 7`: the bits shifted out are lost.
abbrev shl7 : ℕ → ℕ
shl7 x = (x * 128) % word

-- Reads the tail. The low seven bits of `a` are clear, so `|` is `+`.
read_long_signed_tail : ℕ → List ℕ → ℕ → Option ℕ × List ℕ
read_long_signed_tail a [] initial_remaining = (none, [])
read_long_signed_tail a (v ∷ rest) initial_remaining =
    let more = read_long_signed_tail (shl7 (a + v)) rest initial_remaining in
    if leb 128 v
    then (some (a + v % 128), rest)
    else if ltb 10 (initial_remaining - suc (length rest))
    then (none, rest)
    else more

-- Bit 6 of the first byte is the sign.
sign_bits : ℕ → ℕ
sign_bits v = if (v / 64) % 2 == 1 then word - 128 else 0

first_byte : ℕ → List ℕ → Option ℕ × List ℕ
unfolding sign_bits read_long_signed_tail
first_byte initial_remaining [] = (none, [])
first_byte initial_remaining (v ∷ rest) =
    if leb 128 v
    then (some (sign_bits v + v % 128), rest)
    else read_long_signed_tail (shl7 (sign_bits v + v)) rest initial_remaining

pub read_long_signed : List ℕ → Option ℕ × List ℕ
unfolding first_byte
read_long_signed buffer = first_byte (length buffer) buffer

read_unsigned_loop : ℕ → ℕ → List ℕ → Option ℕ × List ℕ
read_unsigned_loop value byte_count [] = (none, [])
read_unsigned_loop value byte_count (byte ∷ rest) =
    let value' = shl7 value + byte % 128 in
    let more = read_unsigned_loop value' (byte_count + 1) rest in
    if leb 128 byte
    then (some value', rest)
    else if ltb 10 (byte_count + 1)
    then (none, rest)
    else more

pub read_long_unsigned : List ℕ → Option ℕ × List ℕ
unfolding read_unsigned_loop
read_long_unsigned buffer = read_unsigned_loop 0 0 buffer
