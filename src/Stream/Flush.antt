-- ===== src/Stream/Flush.antt =====
-- What `flush_defrag_messages` of core/src/steady_actor_shadow.rs moves into the stream.
use mathlib.Core.List.{append-nil, append_assoc}
use steady_state_stack.Stream.Defrag.{push_items, push_payload}
use steady_state_stack.Channel.Ring.{RingBuffer}
use steady_state_stack.Common.{
  Bool-cases, List, Option, [], ap, arith, dec_le, false, inl, inr, leb, length, length-append,
  length-take, ltb, min, none, refl, some, sym, take, take-append, take-append_within, take_beyond,
  take_whole, true, ℕ, ◌&&◌, ◌++◌, ◌+◌, ◌-◌, ◌∙◌, ◌∷◌, ◌≡◌, ◌≤◌,
}

-- The longest run of whole messages from the front for which there are slots and bytes, and the rest.
abbrev pub take_fitting :
    {Item : Type 0} → ℕ → ℕ → List (Item × List ℕ) → List (Item × List ℕ) × List (Item × List ℕ)
take_fitting slots room [] = ([], [])
take_fitting slots room ((item, bytes) ∷ messages) = elim (ltb 0 slots && leb (length bytes) room) [
  | true ↦
      let rest = take_fitting (slots - 1) (room - length bytes) messages in
      ((item, bytes) ∷ rest.0, rest.1)
  | false ↦ ([], (item, bytes) ∷ messages)
]

-- The session is named again exactly when messages are left.
abbrev pub unfinished : {Item : Type 0} → ℕ → List (Item × List ℕ) → Option ℕ
unfinished session [] = none
unfinished session (m ∷ messages) = some session

-- A part of a slice is pushed whole where there is room.
push_piece :
    {A : Type 0} (r : RingBuffer A) (n : ℕ) (xs : List A) (out : r.Ring)
    → n ≤ length xs
    → n ≤ r.vacant_len out
    → ((r.push_slice (take n xs) out).0 ≡ n)
      × (r.contents (r.push_slice (take n xs) out).1 ≡ r.contents out ++ take n xs)
      × (r.vacant_len (r.push_slice (take n xs) out).1 ≡ r.vacant_len out - n)
push_piece r n xs out h room =
    let law = r.push_slice_law (take n xs) out in
    let size = length-take n xs in
    let count : (r.push_slice (take n xs) out).0 ≡ n = omega (arith, law.0, size) in
    let stored : r.contents (r.push_slice (take n xs) out).1 ≡ r.contents out ++ take n xs =
      law.1
      ∙ ap (λ ys. r.contents out ++ ys)
          (take_whole (r.push_slice (take n xs) out).0 (take n xs) (omega (arith, size, count))) in
    (
      count,
      stored,
      omega (
        arith,
        r.vacant_law (r.push_slice (take n xs) out).1,
        r.vacant_law out,
        law.2,
        ap length stored,
        length-append (r.contents out) (take n xs),
        size,
      ),
    )

-- What was pushed in two parts is the front of both slices together.
two_parts :
    {A : Type 0} (n : ℕ) (xs ys held : List A)
    → n ≤ length xs + length ys
    → (held ++ take (min n (length xs)) xs) ++ take (n - min n (length xs)) ys
      ≡ held ++ take n (xs ++ ys)
two_parts n xs ys held h = elim (dec_le n (length xs)) [
  | yes inside ↦
      let a : min n (length xs) ≡ n = omega (arith, inside) in
      let b : n - n ≡ 0 = omega arith in
      rw a (rw b (rw (take-append_within n xs ys inside) (append-nil (held ++ take n xs))))
  | no across ↦
      let a : min n (length xs) ≡ length xs = omega (arith, across) in
      rw a (
        append_assoc held (take (length xs) xs) (take (n - length xs) ys)
        ∙ ap (λ zs. held ++ zs)
            (ap (λ zs. zs ++ take (n - length xs) ys)
                (take_whole (length xs) xs refl ∙ sym (take_beyond n xs (omega (arith, across))))
              ∙ sym (take-append n xs ys)))
]

pub push_payload_lem :
    (p : RingBuffer ℕ) (n : ℕ) (xs ys : List ℕ) (out : p.Ring)
    → n ≤ length xs + length ys
    → n ≤ p.vacant_len out
    → ((push_payload p n xs ys out).0 ≡ n)
      × (p.contents (push_payload p n xs ys out).1 ≡ p.contents out ++ take n (xs ++ ys))
unfolding push_payload
push_payload_lem p n xs ys out h room =
    let m = min n (length xs) in
    let k = n - m in
    let first = push_piece p m xs out (omega arith) (omega (arith, room)) in
    let second =
      push_piece p k ys (p.push_slice (take m xs) out).1 (omega (arith, h))
        (omega (arith, room, first.2)) in
    let left : min (n - (p.push_slice (take m xs) out).0) (length ys) ≡ k =
      omega (arith, h, first.0) in
    rw left (elim (Bool-cases (ltb 0 k)) [
      | inl t ↦ (
        rw t (omega (arith, first.0, second.0)),
        rw t (second.1 ∙ ap (λ zs. zs ++ take k ys) first.1 ∙ two_parts n xs ys (p.contents out) h),
      )
      | inr f ↦
          let none_left : k ≡ 0 = ground arith in
          (
            rw f (omega (arith, first.0, none_left)),
            rw f (
                first.1
                ∙ sym (append-nil (p.contents out ++ take m xs))
                ∙ ap (λ j. (p.contents out ++ take m xs) ++ take j ys) (sym none_left)
                ∙ two_parts n xs ys (p.contents out) h),
          )
    ])

pub push_items_lem :
    {A : Type 0} (r : RingBuffer A) (n : ℕ) (xs ys : List A) (out : r.Ring)
    → n ≤ length xs + length ys
    → n ≤ r.vacant_len out
    → r.contents (push_items r n xs ys out) ≡ r.contents out ++ take n (xs ++ ys)
unfolding push_items
push_items_lem r n xs ys out h room =
    let m = min n (length xs) in
    let k = n - m in
    let first = push_piece r m xs out (omega arith) (omega (arith, room)) in
    let second =
      push_piece r k ys (r.push_slice (take m xs) out).1 (omega (arith, h))
        (omega (arith, room, first.2)) in
    elim (Bool-cases (ltb 0 k)) [
      | inl t ↦
          rw t
            (second.1 ∙ ap (λ zs. zs ++ take k ys) first.1 ∙ two_parts n xs ys (r.contents out) h)
      | inr f ↦
          let none_left : k ≡ 0 = ground arith in
          rw f (
            first.1
            ∙ sym (append-nil (r.contents out ++ take m xs))
            ∙ ap (λ j. (r.contents out ++ take m xs) ++ take j ys) (sym none_left)
            ∙ two_parts n xs ys (r.contents out) h)
    ]
