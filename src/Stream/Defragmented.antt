-- ===== src/Stream/Defragmented.antt =====
-- The messages of a session on their way from `Defrag` into the stream: `flush_defrag_messages` of
-- core/src/steady_actor_shadow.rs.
use mathlib.Core.List.{append-nil, append_assoc}
use steady_state_stack.Stream.Frames.{Holds, bytes_of, items_of}
use steady_state_stack.Stream.Defrag.{
  Defrag, fitting, flush_defrag_messages, push_items, push_payload,
}
use steady_state_stack.Stream.Flush.{push_items_lem, push_payload_lem, take_fitting, unfinished}
use steady_state_stack.Stream.Flushed.{
  behind, All-append_lem, All-parts, IsFitting, bytes_of-append_lem, fitting_lem, front,
  items_of-append_lem, length-items_of, none_left, take_fitting-IsFitting, unfinished-none,
  unfinished-some,
}
use steady_state_stack.Channel.Ring.{OneShots, RingBuffer}
use steady_state_stack.Stream.{Stream}
use steady_state_stack.Common.{
  All, Bool-cases, List, Option, [], ap, ap₂, arith, dec_lt, done, drop, false, if◌then◌else◌, inl,
  inr, length, length-append, none, refl, some, subst, sym, take, true, ℕ, ◌%◌, ◌&&◌, ◌++◌, ◌+◌,
  ◌-◌, ◌<◌, ◌==◌, ◌^◌, ◌∙◌, ◌≡◌, ◌≤◌,
}

module _ {Item : Type 0} (len : Item → ℕ) (b : RingBuffer Item) (p : RingBuffer ℕ)
    (s : OneShots) where
  -- The entry holds these messages, complete, and the bytes of the one that is not.
  pub record HoldsDefrag (d : Defrag b p) (pending : List (Item × List ℕ)) (partial : List ℕ)
      : Type 0 where
    pub items : b.contents d.ringbuffer_items ≡ items_of pending
    pub bytes : p.contents d.ringbuffer_bytes ≡ bytes_of pending ++ partial
    pub framed : All (λ m. len m.0 ≡ length m.1) pending
    pub running : d.running_length ≡ length partial

  module _ (c : Stream b p s) (d : Defrag b p) (messages pending : List (Item × List ℕ))
      (partial : List ℕ) (open_bytes : c.payload.make_closed ≡ true)
      (open_items : c.control.make_closed ≡ true) (holds : Holds len b p s c messages)
      (ready : HoldsDefrag d pending partial) where
    abbrev moved : List (Item × List ℕ)
    moved = (take_fitting (b.vacant_len c.control.ring) (p.vacant_len c.payload.ring) pending).0

    abbrev rest : List (Item × List ℕ)
    rest = (take_fitting (b.vacant_len c.control.ring) (p.vacant_len c.payload.ring) pending).1

    abbrev items_a : List Item
    items_a = (b.as_slices d.ringbuffer_items).0

    abbrev items_b : List Item
    items_b = (b.as_slices d.ringbuffer_items).1

    abbrev payload_a : List ℕ
    payload_a = (p.as_slices d.ringbuffer_bytes).0

    abbrev payload_b : List ℕ
    payload_b = (p.as_slices d.ringbuffer_bytes).1

    fit : IsFitting (b.vacant_len c.control.ring) (p.vacant_len c.payload.ring) pending moved rest
    fit = take_fitting-IsFitting (b.vacant_len c.control.ring) (p.vacant_len c.payload.ring) pending

    all_items : items_a ++ items_b ≡ items_of moved ++ items_of rest
    all_items =
        b.slices_law d.ringbuffer_items
        ∙ ready.items
        ∙ ap items_of fit.parts
        ∙ items_of-append_lem moved rest

    all_bytes : payload_a ++ payload_b ≡ bytes_of moved ++ (bytes_of rest ++ partial)
    all_bytes =
        p.slices_law d.ringbuffer_bytes
        ∙ ready.bytes
        ∙ ap (λ ms. bytes_of ms ++ partial) fit.parts
        ∙ ap (λ bs. bs ++ partial) (bytes_of-append_lem moved rest)
        ∙ append_assoc (bytes_of moved) (bytes_of rest) partial

    total : length items_a + length items_b ≡ length moved + length rest
    total = omega (
      arith,
      length-append items_a items_b,
      ap length all_items,
      length-append (items_of moved) (items_of rest),
      length-items_of moved,
      length-items_of rest,
    )

    counted :
        fitting len
          (items_a ++ items_b)
          (b.vacant_len c.control.ring)
          (p.vacant_len c.payload.ring)
          0
          0
        ≡ (length moved, length (bytes_of moved))
    counted =
        let items = b.slices_law d.ringbuffer_items ∙ ready.items in
        let slots : b.vacant_len c.control.ring - 0 ≡ b.vacant_len c.control.ring = omega arith in
        let room : p.vacant_len c.payload.ring - 0 ≡ p.vacant_len c.payload.ring = omega arith in
        let run =
          fitting_lem len pending (b.vacant_len c.control.ring) (p.vacant_len c.payload.ring) 0 0
            (omega arith) ready.framed in
        ap (λ is. fitting len is (b.vacant_len c.control.ring) (p.vacant_len c.payload.ring) 0 0)
          items
        ∙ run
        ∙ ap₂
            (λ i j. (
              0 + length (take_fitting i j pending).0,
              0 + length (bytes_of (take_fitting i j pending).0),
            ))
            slots room
        ∙ ap₂ (λ i j. (i, j)) (omega arith) (omega arith)

    pushed :
        ((push_payload p (length (bytes_of moved)) payload_a payload_b c.payload.ring).0
          ≡ length (bytes_of moved))
        × (p.contents
              (push_payload p (length (bytes_of moved)) payload_a payload_b c.payload.ring).1
            ≡ p.contents c.payload.ring ++ bytes_of moved)
    pushed =
        let enough : length (bytes_of moved) ≤ length payload_a + length payload_b = omega (
          arith,
          length-append payload_a payload_b,
          ap length all_bytes,
          length-append (bytes_of moved) (bytes_of rest ++ partial),
        ) in
        let law =
          push_payload_lem p (length (bytes_of moved)) payload_a payload_b c.payload.ring enough
            fit.room_bound in
        (
          law.0,
          law.1
              ∙ ap (λ bs. p.contents c.payload.ring ++ take (length (bytes_of moved)) bs) all_bytes
              ∙ ap (λ bs. p.contents c.payload.ring ++ bs)
                  (front (length (bytes_of moved)) (bytes_of moved) (bytes_of rest ++ partial)
                    refl),
        )

    abbrev left : Defrag b p
    left = record d {
      ringbuffer_bytes = p.advance_read_index (length (bytes_of moved)) d.ringbuffer_bytes;
      ringbuffer_items = b.advance_read_index (length moved) d.ringbuffer_items;
    }

    abbrev filled : Stream b p s
    filled = record {
      control = record c.control {
        ring = push_items b (length moved) items_a items_b c.control.ring;
      };
      payload = record c.payload {
        ring = (push_payload p (length (bytes_of moved)) payload_a payload_b c.payload.ring).1;
      };
    }

    left-HoldsDefrag : HoldsDefrag left rest partial
    left-HoldsDefrag =
        let size = length-items_of moved in
        let item_law = b.advance_read_law (length moved) d.ringbuffer_items (
          omega (
            arith,
            total,
            length-append items_a items_b,
            ap length (b.slices_law d.ringbuffer_items),
          )) in
        let byte_law = p.advance_read_law (length (bytes_of moved)) d.ringbuffer_bytes (
          omega (
            arith,
            ap length (p.slices_law d.ringbuffer_bytes),
            ap length all_bytes,
            length-append (bytes_of moved) (bytes_of rest ++ partial),
          )) in
        record {
          items =
              item_law.0
              ∙ ap (drop (length moved)) (sym (b.slices_law d.ringbuffer_items) ∙ all_items)
              ∙ behind (length moved) (items_of moved) (items_of rest) size;
          bytes =
              byte_law.0
              ∙ ap (drop (length (bytes_of moved)))
                  (sym (p.slices_law d.ringbuffer_bytes) ∙ all_bytes)
              ∙ behind (length (bytes_of moved)) (bytes_of moved) (bytes_of rest ++ partial) refl;
          framed =
              (All-parts (λ m. len m.0 ≡ length m.1) moved rest
                (subst (All (λ m. len m.0 ≡ length m.1)) fit.parts ready.framed)).1;
          running = ready.running;
        }

    filled-Holds : Holds len b p s filled (messages ++ moved)
    filled-Holds =
        let law =
          push_items_lem b (length moved) items_a items_b c.control.ring (omega (arith, total))
            fit.slots_bound in
        record {
          items =
              law
              ∙ ap₂ (λ xs ys. xs ++ take (length moved) ys) holds.items all_items
              ∙ ap (λ ys. items_of messages ++ ys)
                  (front (length moved) (items_of moved) (items_of rest) (length-items_of moved))
              ∙ sym (items_of-append_lem messages moved);
          bytes =
              pushed.1
              ∙ ap (λ xs. xs ++ bytes_of moved) holds.bytes
              ∙ sym (bytes_of-append_lem messages moved);
          framed =
              All-append_lem (λ m. len m.0 ≡ length m.1) messages moved holds.framed
                (All-parts (λ m. len m.0 ≡ length m.1) moved rest
                  (subst (All (λ m. len m.0 ≡ length m.1)) fit.parts ready.framed)).0;
        }

    abbrev Moved : Type 0
    Moved =
        (d' : Defrag b p) × (c' : Stream b p s) × (flush_defrag_messages len b p s c d
          ≡ done (
            (length moved % 2 ^ 32, length (bytes_of moved) % 2 ^ 32, unfinished d.session_id rest),
            d',
            c',
          ))
        × HoldsDefrag d' rest partial
        × Holds len b p s c' (messages ++ moved)

    -- Where nothing is moved the code leaves both as they are.
    nothing_moved :
        (answer : Option ℕ)
        → flush_defrag_messages len b p s c d ≡ done ((0, 0, answer), d, c)
        → length moved ≡ 0
        → answer ≡ unfinished d.session_id rest
        → Moved
    nothing_moved answer run h same =
        let empty : moved ≡ [] = none_left moved h in
        let all : pending ≡ rest = fit.parts ∙ ap (λ ms. ms ++ rest) empty in
        (
          d,
          c,
          run
              ∙ ap₂
                  (λ n a. done ((n % 2 ^ 32, length (bytes_of {Item = Item} []) % 2 ^ 32, a), d, c))
                  (sym h) same
              ∙ ap
                  (λ ms. done (
                    (
                      length moved % 2 ^ 32,
                      length (bytes_of ms) % 2 ^ 32,
                      unfinished d.session_id rest,
                    ),
                    d,
                    c,
                  ))
                  (sym empty),
          subst (λ ms. HoldsDefrag d ms partial) all ready,
          subst (λ ms. Holds len b p s c ms)
              (sym (append-nil messages) ∙ ap (λ ms. messages ++ ms) (sym empty)) holds,
        )

    both_open : (c.payload.make_closed && c.control.make_closed) ≡ true
    both_open = rw open_bytes (rw open_items refl)

    answered :
        (if length moved == length items_a + length items_b then none else some d.session_id)
        ≡ unfinished d.session_id rest
    answered = elim (Bool-cases (length moved == length items_a + length items_b)) [
      | inl t ↦
          let e : length moved ≡ length items_a + length items_b = ground arith in
          rw t (sym (unfinished-none d.session_id rest (omega (arith, total, e))))
      | inr f ↦
          let e : ¬ (length moved ≡ length items_a + length items_b) = ground arith in
          rw f (sym (unfinished-some d.session_id rest (omega (arith, total, e))))
    ]

    -- Messages are moved.
    some_moved : 0 < length moved → Moved
    unfolding flush_defrag_messages
    some_moved more =
        let t : (length items_a + length items_b == 0) ≡ false = ground (arith, total, more) in
        let m : (length moved == 0) ≡ false = ground (arith, more) in
        let k : (length (bytes_of moved) == length (bytes_of moved)) ≡ true = ground arith in
        (
          left,
          filled,
          rw both_open (
              rw t (
                rw counted (
                  rw m (
                    rw pushed.0 (
                      rw k (
                        ap
                          (λ a. done (
                            (length moved % 2 ^ 32, length (bytes_of moved) % 2 ^ 32, a),
                            left,
                            filled,
                          ))
                          answered)))))),
          left-HoldsDefrag,
          filled-Holds,
        )

    nothing_moves : length moved ≡ 0 → Moved
    unfolding flush_defrag_messages
    nothing_moves h =
        let m : (length moved == 0) ≡ true = ground (arith, h) in
        elim (Bool-cases (length items_a + length items_b == 0)) [
          | inl t ↦
              let e : length items_a + length items_b ≡ 0 = ground arith in
              nothing_moved none (rw both_open (rw t refl)) h
                (sym (unfinished-none d.session_id rest (omega (arith, total, e))))
          | inr f ↦
              let e : ¬ (length items_a + length items_b ≡ 0) = ground arith in
              nothing_moved (some d.session_id) (rw both_open (rw f (rw counted (rw m refl)))) h
                (sym (unfinished-some d.session_id rest (omega (arith, total, e, h))))
        ]

    -- A session that holds complete messages, and perhaps the beginning of another, flushes into an open
    -- stream the longest run of messages from the front for which both rings have room. Nothing
    -- panics; the messages go whole and in order to the back of the stream, the others stay in the session
    -- with the bytes of the incomplete one, the answer counts what was moved, in 32 bits, and names the
    -- session again exactly when complete messages are left.
    pub flush_defrag_messages_lem :
        (d' : Defrag b p) × (c' : Stream b p s) × (flush_defrag_messages len b p s c d
          ≡ done (
            (length moved % 2 ^ 32, length (bytes_of moved) % 2 ^ 32, unfinished d.session_id rest),
            d',
            c',
          ))
        × HoldsDefrag d' rest partial
        × Holds len b p s c' (messages ++ moved)
    flush_defrag_messages_lem = elim (dec_lt 0 (length moved)) [
      | yes more ↦ some_moved more
      | no none_moved ↦ nothing_moves (omega (arith, none_moved))
    ]
