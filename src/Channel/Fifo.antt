-- ===== src/Channel/Fifo.antt =====
-- Nothing is dropped, doubled or put out of order: a channel of core/src/core_tx.rs and
-- core/src/core_rx.rs as a bounded queue, over every sequence of calls at its two ends.
use mathlib.Core.List.{append-nil, append_assoc}
use steady_state_stack.Common.{
  Bool, Bool-cases, List, Option, Outcome, [], ap, ap₂, arith, dec_lt, done, drop, if_intro, inl,
  inr, length, length-take, none, panic, refl, some, sym, take, take-append-drop,
  take-append-drop_taken, ℕ, ◌%◌, ◌++◌, ◌+◌, ◌<◌, ◌==◌, ◌∙◌, ◌∷◌, ◌≡◌, ◌≤◌, ◌⊎◌,
}
use steady_state_stack.Channel.Ring.{OneShots, RingBuffer}
use steady_state_stack.Channel.{
  Channel, mark_closed, send_iter_until_full, send_slice, try_send, tx_advance_index,
}
use steady_state_stack.Channel.Rx.{
  copy_into_slice_lem, is_closed_and_empty, rx_advance_index, take_slice, try_take,
}

module _ {A : Type 0} (b : RingBuffer A) (s : OneShots) where
  open b use {
    Ring, contents, vacant_slots, capacity, occupied_len, vacant_len, try_push, push_iter, try_pop,
    as_slices, fits, occupied_law, vacant_law, slots_law, push_room, push_full, push_iter_law,
    push_slice_law, advance_write_law, pop_empty, pop_some, slices_law, advance_read_law, first,
    first_law,
  }

  -- The queue that a channel holds.
  abbrev pub queue : Channel b s → List A
  queue c = contents c.ring

  -- `sent` items have come in at the back and `taken` ones have gone out at the front.
  pub record Moved (c : Channel b s) (sent taken : List A) (c' : Channel b s) : Type 0 where
    pub order : queue c ++ sent ≡ taken ++ queue c'
    pub same_capacity : capacity c'.ring ≡ capacity c.ring

  Moved-trans :
      {c d e : Channel b s} {sent taken sent' taken' : List A}
      → Moved c sent taken d
      → Moved d sent' taken' e
      → Moved c (sent ++ sent') (taken ++ taken') e
  Moved-trans {c} {d} {e} {sent} {taken} {sent'} {taken'} p q = record {
    order =
        sym (append_assoc (queue c) sent sent')
        ∙ ap (λ x. x ++ sent') p.order
        ∙ append_assoc taken (queue d) sent'
        ∙ ap (λ x. taken ++ x) q.order
        ∙ sym (append_assoc taken taken' (queue e));
    same_capacity = q.same_capacity ∙ p.same_capacity;
  }

  -- A call at the back end, where nothing goes out.
  Moved-back :
      {c c' : Channel b s} {sent : List A}
      → queue c' ≡ queue c ++ sent
      → capacity c'.ring ≡ capacity c.ring
      → Moved c sent [] c'
  Moved-back q k = record { order = sym q; same_capacity = k }

  -- A call at the front end, where nothing comes in.
  Moved-front :
      {c c' : Channel b s} {taken : List A}
      → queue c ≡ taken ++ queue c'
      → capacity c'.ring ≡ capacity c.ring
      → Moved c [] taken c'
  Moved-front {c} q k = record { order = append-nil (queue c) ∙ q; same_capacity = k }

  room_or_full :
      (c : Channel b s)
      → (length (queue c) < capacity c.ring) ⊎ (length (queue c) ≡ capacity c.ring)
  room_or_full c = elim (dec_lt (length (queue c)) (capacity c.ring)) [
    | yes p ↦ inl p
    | no p ↦ inr (omega (arith, fits c.ring))
  ]

  -- What became of a message that was offered.
  abbrev pub accepted : A → Option A → List A
  accepted msg none = msg ∷ []
  accepted msg (some _) = []

  -- A message is accepted exactly when there is room, and then stands at the back; otherwise it comes
  -- back and nothing has changed. After the channel was closed the call panics.
  try_send_lem :
      (msg : A) (c : Channel b s)
      → ((c' : Channel b s) × (try_send b s msg c ≡ done (none, c')) × Moved c (msg ∷ []) [] c')
        ⊎ ((try_send b s msg c ≡ done (some msg, c)) ⊎ (try_send b s msg c ≡ panic))
  unfolding try_send
  try_send_lem msg c = elim (Bool-cases c.make_closed) [
    | inr shut ↦ inr (inr (rw shut refl))
    | inl opened ↦ elim (room_or_full c) [
      | inl room ↦
          let (r, stored, q, k) = push_room msg c.ring room in
          inl (record c { ring = r }, ground (arith, opened, stored), Moved-back q k)
      | inr full ↦ let e = push_full msg c.ring full in inr (inl (ground (arith, opened, e)))
    ]
  ]

  -- An item is there to take exactly when the queue is not empty, and it is the oldest one.
  try_take_lem :
      (c : Channel b s)
      → ((queue c ≡ []) × (try_take b s c ≡ (none, c)))
        ⊎ ((a : A) × ((try_take b s c).0 ≡ some a) × Moved c [] (a ∷ []) (try_take b s c).1)
  try_take_lem c = go (queue c) refl
    where
      go :
          (q : List A)
          → queue c ≡ q
          → ((queue c ≡ []) × (try_take b s c ≡ (none, c)))
            ⊎ ((a : A) × ((try_take b s c).0 ≡ some a) × Moved c [] (a ∷ []) (try_take b s c).1)
      go [] e = inl (e, unfold try_take in ground (arith, pop_empty c.ring e))
      go (a ∷ rest) e =
          let (r, popped, q, k) = pop_some a rest c.ring e in
          let same : try_take b s c
              ≡ (some a, record c { ring = r; take_count = (c.take_count + 1) % 4294967296 }) =
            unfold try_take in ground arith in
          inr (a, rw same refl, rw same (Moved-front (e ∙ ap (λ x. a ∷ x) (sym q)) k))

  -- What the calls at the two ends let in and out.
  pub data Call : Type 0 where
    send : A → Call
    send_iter : List A → Call
    send_all : List A → Call
    publish : ℕ → Call
    close : Call
    take_one : Call
    take_many : ℕ → Call
    skip : ℕ → Call
    check_closed : Call

  -- One call: what came in, what went out, and the channel after it.
  abbrev Effect : Type 0
  Effect = List A × List A × Channel b s

  taken_one : Option A → List A
  taken_one none = []
  taken_one (some a) = a ∷ []

  -- A send that panics lets nothing in.
  sent_one : A → Channel b s → Outcome (Option A × Channel b s) → Effect
  sent_one msg c (done (back, c')) = (accepted msg back, [], c')
  sent_one msg c panic = ([], [], c)

  unfoldable pub serve : Call → Channel b s → Effect
  unfolding taken_one sent_one
  serve (send msg) c = sent_one msg c (try_send b s msg c)
  serve (send_iter xs) c = let (n, c') = send_iter_until_full b s xs c in (take n xs, [], c')
  serve (send_all xs) c = let (n, c') = send_slice b s xs c in (take n xs, [], c')
  serve (publish request) c =
      let (n, c') = tx_advance_index b s request c in (take n (vacant_slots c.ring), [], c')
  serve close c = ([], [], mark_closed b s c)
  serve take_one c = let (got, c') = try_take b s c in ([], taken_one got, c')
  serve (take_many size) c = let (out, c') = take_slice b s size c in ([], out, c')
  serve (skip request) c =
      let (n, c') = rx_advance_index b s request c in ([], take n (queue c), c')
  serve check_closed c = ([], [], (is_closed_and_empty b s c).1)

  unfoldable pub run : List Call → Channel b s → Effect
  run [] c = ([], [], c)
  run (call ∷ calls) c =
      let (sent, taken, c') = serve call c in
      let (sent', taken', c'') = run calls c' in (sent ++ sent', taken ++ taken', c'')

  Moved-refl : (c : Channel b s) → Moved c [] [] c
  Moved-refl c = Moved-back (sym (append-nil (queue c))) refl

  serve-Moved :
      (call : Call) (c : Channel b s)
      → let (sent, taken, c') = serve call c in Moved c sent taken c'
  unfolding serve
  serve-Moved (send msg) c = elim (try_send_lem msg c) [
    | inl (c', e, m) ↦ rw e m
    | inr (inl e) ↦ rw e (Moved-refl c)
    | inr (inr e) ↦ rw e (Moved-refl c)
  ]
  serve-Moved (send_iter xs) c =
      unfold send_iter_until_full in (let l = push_iter_law xs c.ring in Moved-back l.1 l.2)
  serve-Moved (send_all []) c = unfold send_slice in Moved-refl c
  serve-Moved (send_all (x ∷ xs)) c =
      unfold send_slice in (let l = push_slice_law (x ∷ xs) c.ring in Moved-back l.1 l.2)
  serve-Moved (publish request) c =
      let n = (tx_advance_index b s request c).0 in
      let few : n ≤ vacant_len c.ring = unfold tx_advance_index in ground arith in
      let l = advance_write_law n c.ring few in unfold tx_advance_index in Moved-back l.0 l.1
  serve-Moved close c =
      unfold mark_closed in
      if_intro (λ x. Moved c [] [] x) c.make_closed _ _
        (λ e. Moved-back (sym (append-nil (queue c))) refl) (λ e. Moved-refl c)
  serve-Moved take_one c = elim (try_take_lem c) [
    | inl (nothing, e) ↦ rw e (Moved-refl c)
    | inr (a, e, m) ↦ rw e m
  ]
  serve-Moved (take_many size) c =
      let out = (take_slice b s size c).0 in
      let front : out ≡ take size (queue c) =
        unfold take_slice in
        (copy_into_slice_lem (as_slices c.ring) size ∙ ap (take size) (slices_law c.ring)) in
      let few : length out ≤ length (queue c) =
        omega (arith, ap length front, length-take size (queue c)) in
      let l = advance_read_law (length out) c.ring few in
      unfold take_slice in
      Moved-front
        (sym (
          ap₂ ◌++◌ front (l.0 ∙ ap (λ k. drop (length k) (queue c)) front)
          ∙ take-append-drop_taken size (queue c)))
        l.1
  serve-Moved (skip request) c =
      let n = (rx_advance_index b s request c).0 in
      let few : n ≤ length (queue c) =
        unfold rx_advance_index in ground (arith, occupied_law c.ring) in
      let l = advance_read_law n c.ring few in
      unfold rx_advance_index in
      Moved-front (sym (ap (λ x. take n (queue c) ++ x) l.0 ∙ take-append-drop n (queue c))) l.1
  serve-Moved check_closed c =
      unfold is_closed_and_empty in
      if_intro (λ (x : Bool × Channel b s). Moved c [] [] x.1) (s.is_terminated c.is_closed) _ _
        (λ e. Moved-refl c)
        (λ e.
          if_intro (λ (x : Bool × Channel b s). Moved c [] [] x.1) (occupied_len c.ring == 0) _ _
            (λ e'. Moved-back (sym (append-nil (queue c))) refl) (λ e'. Moved-refl c))

  -- Over any calls at the two ends, in any order: what was in the channel and what came in is what
  -- went out and what is in it still, in the same order. The queue never passes the capacity, which
  -- stays as it was.
  pub run_fifo :
      (calls : List Call) (c : Channel b s)
      → let (sent, taken, c') = run calls c in
        (queue c ++ sent ≡ taken ++ queue c')
        × (length (queue c') ≤ capacity c'.ring)
        × (capacity c'.ring ≡ capacity c.ring)
  unfolding run
  run_fifo [] c = (append-nil (queue c), fits c.ring, refl)
  run_fifo (call ∷ calls) c =
      let (sent, taken, c') = serve call c in
      let (order, bound, same) = run_fifo calls c' in
      let m =
        Moved-trans {e = (run calls c').2} (serve-Moved call c)
          (record { order = order; same_capacity = same }) in
      (m.order, bound, m.same_capacity)
