-- ===== src/Stream/Flushed.antt =====
-- `flush_defrag_messages` of core/src/steady_actor_shadow.rs, for a session whose rings hold messages.
use mathlib.Core.List.{append_assoc}
use steady_state_stack.Stream.Frames.{bytes_of, items_of}
use steady_state_stack.Stream.Defrag.{fitting}
use steady_state_stack.Stream.Flush.{take_fitting, unfinished}
use steady_state_stack.Common.{
  All, Bool-cases, List, [], ap, ap₂, arith, drop, drop-append_beyond, false, inl, inr, leb, length,
  length-append, ltb, none, refl, some, suc, sym, take, take-append_within, take_whole, true, ℕ,
  ◌&&◌, ◌++◌, ◌+◌, ◌-◌, ◌<◌, ◌∙◌, ◌∷◌, ◌≡◌, ◌≤◌,
}

pub items_of-append_lem :
    {Item : Type 0} (xs ys : List (Item × List ℕ))
    → items_of (xs ++ ys) ≡ items_of xs ++ items_of ys
items_of-append_lem [] ys = refl
items_of-append_lem ((item, bytes) ∷ xs) ys = ap (λ is. item ∷ is) (items_of-append_lem xs ys)

pub bytes_of-append_lem :
    {Item : Type 0} (xs ys : List (Item × List ℕ))
    → bytes_of (xs ++ ys) ≡ bytes_of xs ++ bytes_of ys
bytes_of-append_lem [] ys = refl
bytes_of-append_lem ((item, bytes) ∷ xs) ys =
    ap (λ bs. bytes ++ bs) (bytes_of-append_lem xs ys)
    ∙ sym (append_assoc bytes (bytes_of xs) (bytes_of ys))

pub length-items_of :
    {Item : Type 0} (messages : List (Item × List ℕ)) → length (items_of messages) ≡ length messages
length-items_of [] = refl
length-items_of ((item, bytes) ∷ messages) = ap suc (length-items_of messages)

pub All-append_lem :
    {A : Type 0} (P : A → Type 0) (xs ys : List A) → All P xs → All P ys → All P (xs ++ ys)
All-append_lem P [] ys h k = k
All-append_lem P (x ∷ xs) ys h k = (h.0, All-append_lem P xs ys h.1 k)

pub All-parts :
    {A : Type 0} (P : A → Type 0) (xs ys : List A) → All P (xs ++ ys) → All P xs × All P ys
All-parts P [] ys h = (tt, h)
All-parts P (x ∷ xs) ys h = let rest = All-parts P xs ys h.1 in ((h.0, rest.0), rest.1)

-- What `take_fitting` takes is the front of the messages, and there is room for it.
pub record IsFitting {Item : Type 0} (slots room : ℕ) (messages moved rest : List (Item × List ℕ))
    : Type 0 where
  pub parts : messages ≡ moved ++ rest
  pub slots_bound : length moved ≤ slots
  pub room_bound : length (bytes_of moved) ≤ room

pub take_fitting-IsFitting :
    {Item : Type 0} (slots room : ℕ) (messages : List (Item × List ℕ))
    → IsFitting slots room messages
        (take_fitting slots room messages).0
        (take_fitting slots room messages).1
take_fitting-IsFitting slots room [] = record {
  parts = refl;
  slots_bound = omega arith;
  room_bound = omega arith;
}
take_fitting-IsFitting slots room ((item, bytes) ∷ messages) =
    let rest = take_fitting-IsFitting (slots - 1) (room - length bytes) messages in
    elim (Bool-cases (ltb 0 slots && leb (length bytes) room)) [
      | inl t ↦
          let some_slot : 0 < slots = ground arith in
          let some_room : length bytes ≤ room = ground arith in
          let moved = (take_fitting (slots - 1) (room - length bytes) messages).0 in
          rw (take_fitting, t)
            (record {
              parts = ap (λ ms. (item, bytes) ∷ ms) rest.parts;
              slots_bound = omega (arith, rest.slots_bound, some_slot);
              room_bound =
                  omega (arith, rest.room_bound, some_room, length-append bytes (bytes_of moved));
            })
      | inr f ↦
          rw (take_fitting, f)
            (record { parts = refl; slots_bound = omega arith; room_bound = omega arith })
    ]

-- The loop counts what `take_fitting` takes.
pub fitting_lem :
    {Item : Type 0} (len : Item → ℕ) (messages : List (Item × List ℕ)) (slots room m t : ℕ)
    → t ≤ room
    → All (λ message. len message.0 ≡ length message.1) messages
    → fitting len (items_of messages) slots room m t ≡ (
      m + length (take_fitting (slots - m) (room - t) messages).0,
      t + length (bytes_of (take_fitting (slots - m) (room - t) messages).0),
    )
unfolding fitting
fitting_lem len [] slots room m t le framed = ap₂ (λ a b. (a, b)) (omega arith) (omega arith)
fitting_lem len ((item, bytes) ∷ messages) slots room m t le framed =
    let size = framed.0 in
    elim (Bool-cases (ltb m slots && leb (t + len item) room)) [
      | inl yes_fits ↦
          let fits : (ltb 0 (slots - m) && leb (length bytes) (room - t)) ≡ true =
            ground (arith, yes_fits, size, le) in
          let s : slots - m - 1 ≡ slots - (m + 1) = omega arith in
          let r : room - t - length bytes ≡ room - (t + len item) = omega (arith, size) in
          let next : t + len item ≤ room = ground (arith, yes_fits) in
          let moved = (take_fitting (slots - (m + 1)) (room - (t + len item)) messages).0 in
          rw (fitting, yes_fits)
            (rw (take_fitting, fits)
              (rw (s, r)
                (fitting_lem len messages slots room (m + 1) (t + len item) next framed.1
                  ∙ ap₂ (λ a b. (a, b)) (omega arith)
                      (omega (arith, size, length-append bytes (bytes_of moved))))))
      | inr no_fit ↦
          let fits : (ltb 0 (slots - m) && leb (length bytes) (room - t)) ≡ false =
            ground (arith, no_fit, size, le) in
          rw (fitting, no_fit)
            (rw (take_fitting, fits) (ap₂ (λ a b. (a, b)) (omega arith) (omega arith)))
    ]

module _ {A : Type 0} where
  pub front : (n : ℕ) (xs ys : List A) → length xs ≡ n → take n (xs ++ ys) ≡ xs
  front n xs ys h = take-append_within n xs ys (omega (arith, h)) ∙ take_whole n xs h

  pub behind : (n : ℕ) (xs ys : List A) → length xs ≡ n → drop n (xs ++ ys) ≡ ys
  behind n xs ys h =
      let z : n ≡ 0 + length xs = omega (arith, h) in
      ap (λ k. drop k (xs ++ ys)) z ∙ drop-append_beyond 0 xs ys

pub unfinished-none :
    {Item : Type 0} (session : ℕ) (rest : List (Item × List ℕ))
    → length rest ≡ 0
    → unfinished session rest ≡ none
unfinished-none session [] h = refl
unfinished-none session (m ∷ rest) h = absurd (omega (arith, h))

pub unfinished-some :
    {Item : Type 0} (session : ℕ) (rest : List (Item × List ℕ))
    → 0 < length rest
    → unfinished session rest ≡ some session
unfinished-some session [] h = absurd (omega (arith, h))
unfinished-some session (m ∷ rest) h = refl

pub none_left : {A : Type 0} (xs : List A) → length xs ≡ 0 → xs ≡ []
none_left [] h = refl
none_left (x ∷ xs) h = absurd (omega (arith, h))
