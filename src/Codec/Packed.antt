-- ===== src/Codec/Packed.antt =====
-- core/src/serialize/byte_buffer_packer.rs for `i64`, as the history of the telemetry uses it: vectors
-- written as the changes against the one before. An `i64` is its 64-bit pattern, and arithmetic on it
-- wraps, as in a release build. A bit is 0 or 1.
pub mod Bits
pub mod RoundTrip
pub mod Restore
use steady_state_stack.Common.{
  Bool, List, Option, Outcome, [], done, false, if◌then◌else◌, leb, length, ltb, none, not, panic,
  some, suc, true, zero, ℕ, ◌%◌, ◌&&◌, ◌*◌, ◌++◌, ◌+◌, ◌-◌, ◌/◌, ◌==◌, ◌^◌, ◌∷◌,
}
use steady_state_stack.Codec.Fast.{
  i64_min, read_long_signed, read_long_unsigned, word, write_long_signed, write_long_unsigned,
}

pub record PackedVecWriter : Type 0 where
  pub previous : List ℕ
  pub delta_write_count : ℕ
  pub sync_required : Bool

pub new : PackedVecWriter
new = record { previous = []; delta_write_count = 0; sync_required = true }

pub sync_data : PackedVecWriter → PackedVecWriter
sync_data w = record w { sync_required = true }

abbrev pub sub_word : ℕ → ℕ → ℕ
sub_word a b = (a + word - b) % word

abbrev pub add_word : ℕ → ℕ → ℕ
add_word a b = (a + b) % word

-- `value` has the bits of the chunk so far, and `i` is the next bit in it.
pub pack_from : ℕ → ℕ → List ℕ → List ℕ
pack_from value i [] = if i == 0 then [] else value ∷ []
pack_from value i (bit ∷ bits) =
    let filled = value + bit * 2 ^ i in
    let rest = pack_from (if i == 63 then 0 else filled) (if i == 63 then 0 else i + 1) bits in
    if i == 63 then filled ∷ rest else rest

unfoldable pub consume_to_u64 : List ℕ → List ℕ
unfolding pack_from
consume_to_u64 bits = pack_from 0 0 bits

-- 1 where the source differs from the previous vector, which zeros follow.
abbrev pub change : ℕ → ℕ → ℕ
change s p = if s == p then 0 else 1

abbrev pub changes : List ℕ → List ℕ → List ℕ
changes [] previous = []
changes (s ∷ source) [] = change s 0 ∷ changes source []
changes (s ∷ source) (p ∷ previous) = change s p ∷ changes source previous

abbrev pub is_nil : List ℕ → Bool
is_nil [] = true
is_nil (x ∷ xs) = false

abbrev pub trim_zeros : List ℕ → List ℕ
trim_zeros [] = []
trim_zeros (c ∷ chunks) =
    let rest = trim_zeros chunks in if c == 0 && is_nil rest then [] else c ∷ rest

abbrev pub write_all : (ℕ → List ℕ → List ℕ) → List ℕ → List ℕ → List ℕ
write_all write [] target = target
write_all write (x ∷ xs) target = write_all write xs (write x target)

-- The differences that are not zero, up to the end of the shorter vector.
abbrev pub deltas : List ℕ → List ℕ → List ℕ
deltas [] source = []
deltas (p ∷ previous) [] = []
deltas (p ∷ previous) (s ∷ source) =
    let rest = deltas previous source in if sub_word s p == 0 then rest else sub_word s p ∷ rest

pub write_delta : List ℕ → List ℕ → List ℕ → List ℕ
write_delta previous target source =
    let chunks = trim_zeros (consume_to_u64 (changes source previous)) in
    write_all write_long_signed (deltas previous source)
      (write_all write_long_unsigned chunks (write_long_signed (length chunks) target))

pub write_full : List ℕ → List ℕ → List ℕ
write_full target source =
    write_all write_long_signed source (write_long_signed ((word - length source) % word) target)

-- The target comes back with what was written.
unfoldable pub add_vec : List ℕ → List ℕ → PackedVecWriter → Outcome (List ℕ × PackedVecWriter)
unfolding write_delta write_full
add_vec target source w =
    if leb (length w.previous) (length source)
    then (if not w.sync_required
        then done (
          write_delta w.previous target source,
          record w { previous = source; delta_write_count = w.delta_write_count + 1 },
        )
        else done (
          write_full target source,
          record { previous = source; delta_write_count = 0; sync_required = false },
        ))
    else panic

pub record PackedVecReader : Type 0 where
  pub previous : List ℕ

-- The bits of a chunk, the lowest first.
abbrev pub explode : ℕ → ℕ → List ℕ
explode zero chunk = []
explode (suc n) chunk = chunk % 2 ∷ explode n (chunk / 2)

-- The `?` after a read.
abbrev pub got : {B : Type 0} → Option ℕ × List ℕ → (ℕ → List ℕ → Option B) → Option B
got (none, rest) f = none
got (some val, rest) f = f val rest

-- The same after a read of several.
abbrev pub got_all :
    {B : Type 0} → Option (List ℕ × List ℕ) → (List ℕ → List ℕ → Option B) → Option B
got_all none f = none
got_all (some (vals, rest)) f = f vals rest

pub read_bitmask : ℕ → List ℕ → Option (List ℕ × List ℕ)
read_bitmask zero buffer = some ([], buffer)
read_bitmask (suc n) buffer = got (read_long_unsigned buffer) (λ chunk rest.
    got_all (read_bitmask n rest) (λ bits rest'. some (explode 64 chunk ++ bits, rest')))

abbrev pub cons_to : ℕ → Option (List ℕ × List ℕ) → Option (List ℕ × List ℕ)
cons_to x read = got_all read (λ xs rest. some (x ∷ xs, rest))

pub apply_bitmask : List ℕ → List ℕ → List ℕ → Option (List ℕ × List ℕ)
apply_bitmask [] bitmask buffer = some ([], buffer)
apply_bitmask (prev ∷ previous) [] buffer = cons_to prev (apply_bitmask previous [] buffer)
apply_bitmask (prev ∷ previous) (bit ∷ bitmask) buffer = elim (bit == 0) [
  | true ↦ cons_to prev (apply_bitmask previous bitmask buffer)
  | false ↦
      got (read_long_signed buffer)
        (λ val rest. cons_to (add_word prev val) (apply_bitmask previous bitmask rest))
]

pub read_full : ℕ → List ℕ → Option (List ℕ × List ℕ)
read_full zero buffer = some ([], buffer)
read_full (suc n) buffer =
    got (read_long_signed buffer) (λ val rest. cons_to val (read_full n rest))

abbrev pub is_positive : ℕ → Bool
is_positive i = ltb 0 i && ltb i i64_min

-- The negation wraps: the least i64 stays negative, and no round of the loop is run.
read_record : List ℕ → ℕ → List ℕ → Option (List ℕ × List ℕ)
unfolding read_bitmask apply_bitmask read_full
read_record previous chunks_len buffer =
    if is_positive chunks_len
    then got_all (read_bitmask chunks_len buffer) (apply_bitmask previous)
    else read_full (if chunks_len == i64_min then 0 else (word - chunks_len) % word) buffer

-- The vector, the reader after it, and what is left of the buffer.
pub restore_vec : List ℕ → PackedVecReader → Option (List ℕ × PackedVecReader × List ℕ)
unfolding read_record
restore_vec buffer r = got (read_long_signed buffer) (λ chunks_len rest.
    got_all (read_record r.previous chunks_len rest)
      (λ result rest'. some (result, record { previous = result }, rest')))
