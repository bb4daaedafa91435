-- ===== src/Stream/Walk.antt =====
-- The two payload slices of core/src/distributed/aqueduct_stream_rx.rs, walked over as one sequence.
use mathlib.Core.List.{append-nil}
use steady_state_stack.Stream.Frames.{take_all}
use steady_state_stack.Stream.Consume.{Cursor, extract_stream_payload_slices, slice}
use steady_state_stack.Common.{
  Bool-cases, List, [], ap, ap₂, arith, dec_le, done, drop, drop-append, drop-append_beyond, false,
  if◌then◌else◌, index, inl, inr, leb, length, length-drop, ltb, min, refl, subst, sym, take,
  take-append, take-append_within, take_whole, true, ℕ, ◌++◌, ◌+◌, ◌-◌, ◌<◌, ◌>>=◌, ◌∙◌, ◌≡◌, ◌≤◌,
}

-- The cursor stands at the byte `at` of both slices together.
abbrev pub IsAt : List ℕ → Cursor → ℕ → Type 0
IsAt payload1 cursor at =
    if cursor.on_first
    then (cursor.active_index ≡ at) × (at ≤ length payload1)
    else cursor.active_index + length payload1 ≡ at

slice_done :
    (payload : List ℕ) (start n : ℕ)
    → start + n ≤ length payload
    → slice payload start n ≡ done (take n (drop start payload))
slice_done payload start n h =
    let t : leb (start + n) (length payload) ≡ true = ground arith in rw t refl

-- The message lies in the first slice.
extract_first :
    (payload1 payload2 : List ℕ) (at n : ℕ)
    → at + n ≤ length payload1
    → (cursor : Cursor) × (extract_stream_payload_slices payload1 payload2
          (record { on_first = true; active_index = at })
          n
        ≡ done ((take n (drop at payload1), []), cursor))
      × IsAt payload1 cursor (at + n)
unfolding extract_stream_payload_slices
extract_first payload1 payload2 at n h =
    let len_a : min (length payload1 - at) n ≡ n = omega (arith, h) in
    let len_b : n - n ≡ 0 = omega arith in
    rw len_a (
      rw len_b (
        rw (slice_done payload1 at n h) (
          rw (◌>>=◌, slice_done payload2 0 0 (omega arith))
            (elim (Bool-cases (leb (length payload1) (at + n))) [
              | inl t ↦
                  (record { on_first = false; active_index = 0 }, rw (◌>>=◌, t) refl, ground arith)
              | inr f ↦
                  (record { on_first = true; active_index = at + n }, rw (◌>>=◌, f) refl, (refl, h))
            ]))))

-- The message begins in the first slice, or at its end, and goes on in the second.
extract_across :
    (payload1 payload2 : List ℕ) (at n : ℕ)
    → at ≤ length payload1
    → length payload1 < at + n
    → at + n ≤ length payload1 + length payload2
    → let len_a = length payload1 - at in
      (cursor : Cursor) × (extract_stream_payload_slices payload1 payload2
          (record { on_first = true; active_index = at })
          n
        ≡ done ((take len_a (drop at payload1), take (n - len_a) payload2), cursor))
      × IsAt payload1 cursor (at + n)
unfolding extract_stream_payload_slices
extract_across payload1 payload2 at n h more room =
    let len_a = length payload1 - at in
    let low : min len_a n ≡ len_a = omega arith in
    let some_b : ltb 0 (n - len_a) ≡ true = ground arith in
    let full : leb (length payload1) (at + len_a) ≡ true = ground arith in
    rw low (
      rw (slice_done payload1 at len_a (omega arith)) (
        rw (◌>>=◌, slice_done payload2 0 (n - len_a) (omega arith))
          (
            record { on_first = false; active_index = n - len_a },
            rw (◌>>=◌, full) refl,
            omega arith,
          )))

-- The message lies in the second slice.
extract_second :
    (payload1 payload2 : List ℕ) (index n : ℕ)
    → index + n ≤ length payload2
    → extract_stream_payload_slices payload1 payload2
        (record { on_first = false; active_index = index })
        n
      ≡ done (
        (take n (drop index payload2), []),
        record { on_first = false; active_index = index + n },
      )
unfolding extract_stream_payload_slices
extract_second payload1 payload2 index n h =
    let len_b : min (length payload2 - index) n ≡ n = omega (arith, h) in
    rw len_b (rw (slice_done payload2 index n h) refl)

-- What an extraction comes to: the next `n` bytes, in two pieces.
abbrev IsNext : List ℕ → List ℕ → Cursor → ℕ → ℕ → Type 0
IsNext payload1 payload2 cursor at n =
    (a : List ℕ) × (b : List ℕ) × (after : Cursor) × (extract_stream_payload_slices payload1
        payload2 cursor n
      ≡ done ((a, b), after))
    × (a ++ b ≡ take n (drop at (payload1 ++ payload2)))
    × IsAt payload1 after (at + n)

IsNext-first :
    (payload1 payload2 : List ℕ) (at n : ℕ)
    → at ≤ length payload1
    → at + n ≤ length payload1 + length payload2
    → IsNext payload1 payload2 (record { on_first = true; active_index = at }) at n
IsNext-first payload1 payload2 at n low room =
    let left = length-drop at payload1 in
    let tail = drop-append at payload1 payload2 low in
    elim (dec_le (at + n) (length payload1)) [
      | yes inside ↦
          let (after, run, place) = extract_first payload1 payload2 at n inside in
          (
            take n (drop at payload1),
            [],
            after,
            run,
            append-nil (take n (drop at payload1))
                ∙ sym (take-append_within n (drop at payload1) payload2 (omega (arith, left)))
                ∙ ap (take n) (sym tail),
            place,
          )
      | no across ↦
          let len_a = length payload1 - at in
          let (after, run, place) = extract_across payload1 payload2 at n low (omega arith) room in
          let whole : take len_a (drop at payload1) ≡ drop at payload1 =
            take_whole len_a (drop at payload1) (omega (arith, left)) in
          let beyond : take n (drop at payload1) ≡ drop at payload1 =
            take_all n (drop at payload1) (omega (arith, left)) in
          let rest : take (n - length (drop at payload1)) payload2 ≡ take (n - len_a) payload2 =
            ap (λ k. take (n - k) payload2) left in
          (
            take len_a (drop at payload1),
            take (n - len_a) payload2,
            after,
            run,
            ap₂ ◌++◌ (whole ∙ sym beyond) (sym rest)
                ∙ sym (take-append n (drop at payload1) payload2)
                ∙ ap (take n) (sym tail),
            place,
          )
    ]

IsNext-second :
    (payload1 payload2 : List ℕ) (index n : ℕ)
    → index + n ≤ length payload2
    → IsNext payload1 payload2
        (record { on_first = false; active_index = index })
        (index + length payload1)
        n
IsNext-second payload1 payload2 index n room = (
  take n (drop index payload2),
  [],
  record { on_first = false; active_index = index + n },
  extract_second payload1 payload2 index n room,
  append-nil (take n (drop index payload2))
      ∙ ap (take n) (sym (drop-append_beyond index payload1 payload2)),
  omega arith,
)

-- From any place the two pieces together are the next `n` bytes of the two slices together, and the cursor
-- moves on by as much; where there are as many bytes nothing panics.
pub extract_stream_payload_slices_lem :
    (payload1 payload2 : List ℕ) (cursor : Cursor) (at n : ℕ)
    → IsAt payload1 cursor at
    → at + n ≤ length payload1 + length payload2
    → (a : List ℕ) × (b : List ℕ) × (after : Cursor) × (extract_stream_payload_slices payload1
          payload2 cursor n
        ≡ done ((a, b), after))
      × (a ++ b ≡ take n (drop at (payload1 ++ payload2)))
      × IsAt payload1 after (at + n)
extract_stream_payload_slices_lem payload1 payload2 cursor at n h room =
    elim (Bool-cases cursor.on_first) [
      | inl t ↦
          let place = rw t at h in
          let here : cursor ≡ record { on_first = true; active_index = at } =
            ap₂ (λ o i. record { on_first = o; active_index = i }) t place.0 in
          subst (λ c. IsNext payload1 payload2 c at n) (sym here)
            (IsNext-first payload1 payload2 at n place.1 room)
      | inr f ↦
          let place : cursor.active_index + length payload1 ≡ at = rw f at h in
          let here : cursor ≡ record { on_first = false; active_index = cursor.active_index } =
            ap (λ o. record { on_first = o; active_index = cursor.active_index }) f in
          subst (λ k. IsNext payload1 payload2 cursor k n) place
            (subst (λ c. IsNext payload1 payload2 c (cursor.active_index + length payload1) n)
              (sym here)
              (IsNext-second payload1 payload2 cursor.active_index n (omega (arith, place))))
    ]
