-- ===== src/Codec/Packed/Restore.antt =====
-- Packed vectors are restored as they were written: `add_vec` and `restore_vec` of
-- core/src/serialize/byte_buffer_packer.rs.
use native.Mathlib.Nat.{zero-mul}
use steady_state_stack.Common.{
  Bool-cases, List, [], ap, ap₂, arith, done, false, if◌then◌else◌, inl, inr, length, refl, some,
  subst, sym, take, true, ℕ, ◌&&◌, ◌*◌, ◌++◌, ◌+◌, ◌<◌, ◌==◌, ◌^◌, ◌∙◌, ◌∷◌, ◌≡◌, ◌≤◌, ◌⊎◌,
}
use steady_state_stack.Codec.Fast.{i64_min, write_long_signed}
use steady_state_stack.Codec.Packed.{
  PackedVecReader, PackedVecWriter, add_vec, changes, consume_to_u64, deltas, is_nil, pack_from,
  read_full, restore_vec, trim_zeros, write_delta, write_full,
}
use steady_state_stack.Codec.Packed.Bits.{AreWords, SameBits, mask_of}
use steady_state_stack.Codec.Packed.RoundTrip.{
  delta_bytes, deltas-same, restore_delta, restore_full, signed_bytes, unsigned_bytes,
}
use steady_state_stack.Codec.Fast.RoundTrip.{read_long_signed-write_long_signed}

-- A vector is written, and the reader takes `result` from its record.
pub record Restored (source result : List ℕ) (w : PackedVecWriter) (r : PackedVecReader)
    (rest : List ℕ) : Type 0 where
  pub bytes : List ℕ
  pub after : PackedVecWriter
  pub written : add_vec [] source w ≡ done (bytes, after)
  pub remembered : after.previous ≡ source
  pub restored : restore_vec (bytes ++ rest) r ≡ some (result, record { previous = result }, rest)

take_whole : (xs : List ℕ) → take (length xs) xs ≡ xs
take_whole [] = refl
take_whole (x ∷ xs) = ap (λ ys. x ∷ ys) (take_whole xs)

-- No element differs, and what is new is zero.
abbrev pub IsUnchanged : List ℕ → List ℕ → Type 0
IsUnchanged source previous = SameBits (changes source previous) []

add_vec_full :
    (source : List ℕ) (w : PackedVecWriter)
    → w.sync_required ≡ true
    → length w.previous ≤ length source
    → add_vec [] source w
      ≡ done (
        write_full [] source,
        record { previous = source; delta_write_count = 0; sync_required = false },
      )
unfolding add_vec
add_vec_full source w sync le = ground arith

add_vec_delta :
    (source : List ℕ) (w : PackedVecWriter)
    → w.sync_required ≡ false
    → length w.previous ≤ length source
    → add_vec [] source w
      ≡ done (
        write_delta w.previous [] source,
        record w { previous = source; delta_write_count = w.delta_write_count + 1 },
      )
unfolding add_vec
add_vec_delta source w sync le = ground arith

-- A reader that has the vector before restores the vector that was written, and nothing behind its
-- record is read: for a full record, which a writer that has to synchronise writes, at any growth of
-- the vector, and for a delta between two different vectors of one length.
pub restore_vec-add_vec :
    (source rest : List ℕ) (w : PackedVecWriter) (r : PackedVecReader)
    → r.previous ≡ w.previous
    → length w.previous ≤ length source
    → AreWords w.previous
    → AreWords source
    → length source < i64_min
    → (w.sync_required ≡ true)
      ⊎ ((length source ≡ length w.previous) × (¬ IsUnchanged source w.previous))
    → Restored source source w r rest
restore_vec-add_vec source rest w r same le wp ws short which = elim (Bool-cases w.sync_required) [
  | inl sync ↦ record {
    bytes = write_full [] source;
    after = record { previous = source; delta_write_count = 0; sync_required = false };
    written = add_vec_full source w sync le;
    remembered = refl;
    restored = restore_full source rest r ws short;
  }
  | inr delta ↦
      let differs : (length source ≡ length w.previous) × (¬ IsUnchanged source w.previous) =
        elim which [ inl sync ↦ cc | inr d ↦ d ] in
      let (level, changed) = differs in
      record {
        bytes = write_delta w.previous [] source;
        after = record w { previous = source; delta_write_count = w.delta_write_count + 1 };
        written = add_vec_delta source w delta le;
        remembered = refl;
        restored =
            let whole : take (length r.previous) source ≡ source =
              ap (λ p. take (length p) source) same
              ∙ ap (λ n. take n source) (sym level)
              ∙ take_whole source in
            subst
              (λ p.
                restore_vec (write_delta p [] source ++ rest) r
                ≡ some (source, record { previous = source }, rest))
              same
              (subst
                (λ xs.
                  restore_vec (write_delta r.previous [] source ++ rest) r
                  ≡ some (xs, record { previous = xs }, rest))
                whole
                (restore_delta source rest r (rw same le) (rw same wp) ws short (rw same changed)));
      }
]

pack_from_zeros : (i : ℕ) (bits : List ℕ) → SameBits bits [] → trim_zeros (pack_from 0 i bits) ≡ []
unfolding pack_from
pack_from_zeros i [] h = elim (Bool-cases (i == 0)) [
  | inl start ↦ rw start refl
  | inr inside ↦ rw inside refl
]
pack_from_zeros i (b ∷ bits) h =
    let no_bit : 0 + b * 2 ^ i ≡ 0 =
      ap (λ k. 0 + k * 2 ^ i) h.0 ∙ omega (arith, zero-mul (2 ^ i)) in
    elim (Bool-cases (i == 63)) [
      | inl last ↦ rw last (
          ap₂ (λ c rest. if c == 0 && is_nil rest then [] else c ∷ rest) no_bit
            (pack_from_zeros 0 bits h.1))
      | inr more ↦ rw more (
          ap (λ c. trim_zeros (pack_from c (i + 1) bits)) no_bit ∙ pack_from_zeros (i + 1) bits h.1)
    ]

deltas_unchanged :
    (previous source : List ℕ)
    → AreWords source
    → IsUnchanged source previous
    → deltas previous source ≡ []
deltas_unchanged [] source ws h = refl
deltas_unchanged (p ∷ previous) [] ws h = refl
deltas_unchanged (p ∷ previous) (s ∷ source) ws h =
    deltas-same p s previous source (ground (arith, h.0)) ws.0
    ∙ deltas_unchanged previous source ws.1 h.1

-- A delta without a change has no chunks, and the reader takes it for a full record of no elements: it
-- forgets the vector.
pub restore_vec_unchanged :
    (source rest : List ℕ) (w : PackedVecWriter) (r : PackedVecReader)
    → r.previous ≡ w.previous
    → length w.previous ≤ length source
    → AreWords source
    → w.sync_required ≡ false
    → IsUnchanged source w.previous
    → Restored source [] w r rest
unfolding restore_vec consume_to_u64 read_full
restore_vec_unchanged source rest w r same le ws delta unchanged = record {
  bytes = write_delta w.previous [] source;
  after = record w { previous = source; delta_write_count = w.delta_write_count + 1 };
  written = add_vec_delta source w delta le;
  remembered = refl;
  restored =
      let no_chunks : mask_of (changes source w.previous) ≡ [] =
        pack_from_zeros 0 (changes source w.previous) unchanged in
      let only_header : write_delta w.previous [] source ++ rest ≡ write_long_signed 0 [] ++ rest =
        delta_bytes w.previous source rest
        ∙ ap₂
            (λ chunks tail.
              write_long_signed (length chunks) []
              ++ (unsigned_bytes chunks ++ (signed_bytes tail ++ rest)))
            no_chunks (deltas_unchanged w.previous source ws unchanged) in
      rw (only_header, read_long_signed-write_long_signed 0 rest (omega arith)) refl;
}
