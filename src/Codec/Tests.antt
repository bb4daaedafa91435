-- ===== src/Codec/Tests.antt =====
-- The codec theorems at concrete values.
use steady_state_stack.Common.{[], arith, done, false, inr, refl, some, ℕ, ◌++◌, ◌-◌, ◌∷◌, ◌≡◌}
use steady_state_stack.Codec.Fast.{
  read_long_signed, read_long_unsigned, word, write_long_signed, write_long_unsigned,
}
use steady_state_stack.Codec.Fast.RoundTrip.{
  read_long_signed-write_long_signed, read_long_unsigned-write_long_unsigned,
}
use steady_state_stack.Codec.Packed.{PackedVecReader, PackedVecWriter, add_vec, consume_to_u64}
use steady_state_stack.Codec.Packed.Bits.{AreWords}
use steady_state_stack.Codec.Packed.Restore.{Restored, restore_vec-add_vec, restore_vec_unchanged}

-- -300.
abbrev minus_300 : ℕ
minus_300 = word - 300

read_long_signed-write_long_signed_example :
    read_long_signed (write_long_signed minus_300 [] ++ 9 ∷ []) ≡ (some minus_300, 9 ∷ [])
read_long_signed-write_long_signed_example =
    read_long_signed-write_long_signed minus_300 (9 ∷ []) (omega arith)

read_long_unsigned-write_long_unsigned_example :
    read_long_unsigned (write_long_unsigned (word - 1) [] ++ 9 ∷ []) ≡ (some (word - 1), 9 ∷ [])
read_long_unsigned-write_long_unsigned_example =
    read_long_unsigned-write_long_unsigned (word - 1) (9 ∷ []) (omega arith)

bytes_of_minus_300 : write_long_signed minus_300 [] ≡ 0x7D ∷ 0xD4 ∷ []
unfolding write_long_signed
bytes_of_minus_300 = refl

abbrev in_sync : PackedVecWriter
in_sync = record { previous = 7 ∷ 5 ∷ 9 ∷ []; delta_write_count = 4; sync_required = false }

abbrev reader : PackedVecReader
reader = record { previous = 7 ∷ 5 ∷ 9 ∷ [] }

AreWords-three : AreWords (7 ∷ 5 ∷ 9 ∷ [])
AreWords-three = (omega arith, (omega arith, (omega arith, tt)))

-- The second element falls by two.
restore_vec-add_vec_example : Restored (7 ∷ 3 ∷ 9 ∷ []) (7 ∷ 3 ∷ 9 ∷ []) in_sync reader (1 ∷ [])
restore_vec-add_vec_example =
    restore_vec-add_vec (7 ∷ 3 ∷ 9 ∷ []) (1 ∷ []) in_sync reader refl (omega arith) AreWords-three
      (omega arith, (omega arith, (omega arith, tt))) (omega arith)
      (inr (refl, λ same. absurd (omega (arith, same.1.0))))

restore_vec_unchanged_example : Restored (7 ∷ 5 ∷ 9 ∷ []) [] in_sync reader (1 ∷ [])
restore_vec_unchanged_example =
    restore_vec_unchanged (7 ∷ 5 ∷ 9 ∷ []) (1 ∷ []) in_sync reader refl (omega arith) AreWords-three
      refl (refl, (refl, (refl, tt)))

-- Chunk count 1, mask 2, and the difference -2.
bytes_of_change :
    add_vec [] (7 ∷ 3 ∷ 9 ∷ []) in_sync
    ≡ done (
      0x81 ∷ 0x82 ∷ 0xFE ∷ [],
      record in_sync { previous = 7 ∷ 3 ∷ 9 ∷ []; delta_write_count = 5 },
    )
unfolding add_vec write_long_signed write_long_unsigned consume_to_u64
bytes_of_change = refl
