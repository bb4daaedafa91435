-- ===== src/Stream/Frames.antt =====
-- A stream as a queue of messages, each an item with the payload that it states the length of:
-- `shared_try_send` of core/src/core_tx_stream.rs and `shared_try_take` of core/src/core_rx_stream.rs.
use mathlib.Core.List.{append-nil, append_assoc}
use steady_state_stack.Common.{
  All, List, [], ap, ap₂, arith, dec_le, dec_lt, done, drop, get_elem?, inl, inr, length,
  length-append, none, refl, some, suc, sym, take, true, zero, ℕ, ◌%◌, ◌&&◌, ◌++◌, ◌+◌, ◌<◌, ◌^◌,
  ◌∙◌, ◌∷◌, ◌≡◌, ◌≤◌, ◌⊎◌,
}
use steady_state_stack.Stream.Tx.{is_open, push_both, pushed, states_length, try_send}
use steady_state_stack.Stream.Rx.{front, le_as_i32, take_message, try_take, u32_add}
use steady_state_stack.Stream.{Stream}
use steady_state_stack.Channel.Ring.{OneShots, RingBuffer}

abbrev pub items_of : {Item : Type 0} → List (Item × List ℕ) → List Item
items_of [] = []
items_of ((item, bytes) ∷ messages) = item ∷ items_of messages

abbrev pub bytes_of : {Item : Type 0} → List (Item × List ℕ) → List ℕ
bytes_of [] = []
bytes_of ((item, bytes) ∷ messages) = bytes ++ bytes_of messages

items_of-append :
    {Item : Type 0} (messages : List (Item × List ℕ)) (item : Item) (bytes : List ℕ)
    → items_of (messages ++ (item, bytes) ∷ []) ≡ items_of messages ++ item ∷ []
items_of-append [] item bytes = refl
items_of-append ((i, b) ∷ messages) item bytes =
    ap (λ is. i ∷ is) (items_of-append messages item bytes)

bytes_of-append :
    {Item : Type 0} (messages : List (Item × List ℕ)) (item : Item) (bytes : List ℕ)
    → bytes_of (messages ++ (item, bytes) ∷ []) ≡ bytes_of messages ++ bytes
bytes_of-append [] item bytes = append-nil bytes
bytes_of-append ((i, b) ∷ messages) item bytes =
    ap (λ bs. b ++ bs) (bytes_of-append messages item bytes)
    ∙ sym (append_assoc b (bytes_of messages) bytes)

pub take_front : (xs ys : List ℕ) → take (length xs) (xs ++ ys) ≡ xs
take_front [] ys = refl
take_front (x ∷ xs) ys = ap (λ zs. x ∷ zs) (take_front xs ys)

pub take_all : (n : ℕ) (xs : List ℕ) → length xs ≤ n → take n xs ≡ xs
take_all zero [] h = refl
take_all zero (x ∷ xs) h = absurd (omega arith)
take_all (suc n) [] h = refl
take_all (suc n) (x ∷ xs) h = ap (λ ys. x ∷ ys) (take_all n xs (omega arith))

pub drop_front : (xs ys : List ℕ) → drop (length xs) (xs ++ ys) ≡ ys
drop_front [] ys = refl
drop_front (x ∷ xs) ys = drop_front xs ys

module _ {Item : Type 0} (len : Item → ℕ) (b : RingBuffer Item) (p : RingBuffer ℕ)
    (s : OneShots) where
  -- The two rings hold these messages, and each item states the length of its payload.
  pub record Holds (c : Stream b p s) (messages : List (Item × List ℕ)) : Type 0 where
    pub items : b.contents c.control.ring ≡ items_of messages
    pub bytes : p.contents c.payload.ring ≡ bytes_of messages
    pub framed : All (λ m. len m.0 ≡ length m.1) messages

  All-append :
      (messages : List (Item × List ℕ)) (item : Item) (bytes : List ℕ)
      → len item ≡ length bytes
      → All (λ m. len m.0 ≡ length m.1) messages
      → All (λ m. len m.0 ≡ length m.1) (messages ++ (item, bytes) ∷ [])
  All-append [] item bytes e h = (e, tt)
  All-append (m ∷ messages) item bytes e h = (h.0, All-append messages item bytes e h.1)

  push_both-Holds :
      (item : Item) (bytes : List ℕ) (c : Stream b p s) (messages : List (Item × List ℕ))
      → len item ≡ length bytes
      → length bytes ≤ p.vacant_len c.payload.ring
      → 0 < b.vacant_len c.control.ring
      → Holds c messages
      → Holds (push_both len b p s item bytes c) (messages ++ (item, bytes) ∷ [])
  unfolding push_both
  push_both-Holds item bytes c messages e room slot h =
      let (r, stored, q, k) =
        b.push_room item c.control.ring (omega (arith, b.vacant_law c.control.ring)) in
      let stored_ring : pushed len b p s item c.control.ring ≡ r = rw (pushed, stored) refl in
      let law = p.push_slice_law bytes c.payload.ring in
      let all : take (p.push_slice bytes c.payload.ring).0 bytes ≡ bytes =
        take_all (p.push_slice bytes c.payload.ring).0 bytes (omega (arith, law.0, room)) in
      record {
        items =
            ap b.contents stored_ring
            ∙ q
            ∙ ap (λ is. is ++ item ∷ []) h.items
            ∙ sym (items_of-append messages item bytes);
        bytes = law.1 ∙ ap₂ ◌++◌ h.bytes all ∙ sym (bytes_of-append messages item bytes);
        framed = All-append messages item bytes e h.framed;
      }

  asserted :
      (item : Item) (bytes : List ℕ) (c : Stream b p s)
      → c.control.make_closed ≡ true
      → c.payload.make_closed ≡ true
      → length bytes < 2 ^ 31
      → len item ≡ length bytes
      → (states_length len b p s item bytes && is_open len b p s c) ≡ true
  unfolding states_length is_open
  asserted item bytes c open_items open_bytes small e =
      let low : length bytes % 2 ^ 32 ≡ length bytes = omega (arith, small) in
      rw low (rw (open_items, open_bytes) (ground (arith, e)))

  -- Into an open stream whose two rings hold messages, a message of less than 2^31 bytes whose item states
  -- the length of its payload is accepted exactly when both rings have room for it, and then it stands
  -- at the back; otherwise the item comes back and nothing has changed.
  pub stream_try_send_lem :
      (item : Item) (bytes : List ℕ) (c : Stream b p s) (messages : List (Item × List ℕ))
      → c.control.make_closed ≡ true
      → c.payload.make_closed ≡ true
      → length bytes < 2 ^ 31
      → len item ≡ length bytes
      → Holds c messages
      → ((length bytes ≤ p.vacant_len c.payload.ring)
          × (0 < b.vacant_len c.control.ring)
          × ((c' : Stream b p s) × (try_send len b p s (item, bytes) c ≡ done (none, c'))
              × Holds c' (messages ++ (item, bytes) ∷ [])))
        ⊎ (¬ ((length bytes ≤ p.vacant_len c.payload.ring) × (0 < b.vacant_len c.control.ring))
            × (try_send len b p s (item, bytes) c ≡ done (some item, c)))
  unfolding try_send
  stream_try_send_lem item bytes c messages open_items open_bytes small e h =
      let passes = asserted item bytes c open_items open_bytes small e in
      elim (dec_le (length bytes) (p.vacant_len c.payload.ring)) [
        | yes room ↦ elim (dec_lt 0 (b.vacant_len c.control.ring)) [
          | yes slot ↦ inl (
            room,
            slot,
            (
              push_both len b p s item bytes c,
              ground (arith, e, passes),
              push_both-Holds item bytes c messages e room slot h,
            ),
          )
          | no taken ↦ inr (λ both. absurd (taken both.1), ground (arith, e, passes))
        ]
        | no full ↦ inr (λ both. absurd (full both.0), ground (arith, e, passes))
      ]

  fits_i32 :
      (n occupied : ℕ) → occupied < 2 ^ 31 → n ≤ occupied → le_as_i32 len b p s n occupied ≡ true
  unfolding le_as_i32
  fits_i32 n occupied small h =
      let low : occupied % 2 ^ 32 ≡ occupied = omega (arith, small) in
      rw low (ground (arith, small, h))

  -- From a stream whose two rings hold messages with the lengths that their items state, and less than 2^31
  -- bytes of payload, the oldest message comes out whole, item and payload together; from an empty one
  -- nothing comes out.
  pub stream_try_take_lem :
      (c : Stream b p s) (messages : List (Item × List ℕ))
      → length (bytes_of messages) < 2 ^ 31
      → Holds c messages
      → ((messages ≡ []) × (try_take len b p s c ≡ (none, c)))
        ⊎ ((m : Item × List ℕ) × (rest : List (Item × List ℕ)) × (c' : Stream b p s) × (messages
              ≡ m ∷ rest)
            × (try_take len b p s c ≡ (some m, c'))
            × Holds c' rest)
  unfolding try_take
  stream_try_take_lem c [] small h = inl (
    refl,
    (let nothing : b.first c.control.ring ≡ none =
          b.first_law c.control.ring ∙ ap (λ xs. get_elem? xs 0) h.items in
        rw (try_take, nothing) refl),
  )
  stream_try_take_lem c ((item, bytes) ∷ rest) small h =
      let n : ℕ = len item in
      let peeked : b.first c.control.ring ≡ some item =
        b.first_law c.control.ring ∙ ap (λ xs. get_elem? xs 0) h.items in
      let (r, popped, q, k) = b.pop_some item (items_of rest) c.control.ring h.items in
      let long : length bytes + length (bytes_of rest) ≡ p.occupied_len c.payload.ring =
        sym (length-append bytes (bytes_of rest))
        ∙ ap length (sym h.bytes)
        ∙ sym (p.occupied_law c.payload.ring) in
      let waiting : p.occupied_len c.payload.ring < 2 ^ 31 =
        omega (arith, long, small, length-append bytes (bytes_of rest)) in
      let there : le_as_i32 len b p s n (p.occupied_len c.payload.ring) ≡ true =
        fits_i32 n (p.occupied_len c.payload.ring) waiting (omega (arith, long, h.framed.0)) in
      let payload : front len b p s n c.payload.ring ≡ bytes =
        ap (take n) (p.slices_law c.payload.ring ∙ h.bytes)
        ∙ ap (λ k. take k (bytes ++ bytes_of rest)) h.framed.0
        ∙ take_front bytes (bytes_of rest) in
      let left =
        p.advance_read_law n c.payload.ring
          (omega (arith, long, h.framed.0, p.occupied_law c.payload.ring)) in
      let c' : Stream b p s = record {
        control = record c.control { ring = r; take_count = u32_add c.control.take_count 1 };
        payload = record c.payload { ring = p.advance_read_index n c.payload.ring };
      } in
      inr (
        (item, bytes),
        rest,
        c',
        refl,
        rw (try_take, peeked, there, take_message, popped)
            (ap (λ bs. (some (item, bs), c')) payload),
        record {
          items = q;
          bytes =
              left.0
              ∙ ap (drop n) h.bytes
              ∙ ap (λ k. drop k (bytes ++ bytes_of rest)) h.framed.0
              ∙ drop_front bytes (bytes_of rest);
          framed = h.framed.1;
        },
      )
