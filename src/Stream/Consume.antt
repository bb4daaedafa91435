-- ===== src/Stream/Consume.antt =====
-- `consume_messages` of core/src/distributed/aqueduct_stream_rx.rs: the messages are shown in place, each
-- payload as two pieces of the ring. The function that is shown them has a state and does not write.
use steady_state_stack.Common.{
  Bool, List, Outcome, [], done, drop, false, if◌then◌else◌, leb, length, ltb, min, panic, take,
  true, ℕ, ◌+◌, ◌-◌, ◌>>=◌, ◌||◌, ◌∷◌,
}
use steady_state_stack.Channel.Ring.{OneShots, RingBuffer}
use steady_state_stack.Channel.Rx.{rx_advance_index}
use steady_state_stack.Stream.{Stream}

-- Where the walk over the two payload slices is: `on_first` and `active_index`.
pub record Cursor : Type 0 where
  pub on_first : Bool
  pub active_index : ℕ

-- `&payload[start..start + n]`.
abbrev pub slice : List ℕ → ℕ → ℕ → Outcome (List ℕ)
slice payload start n =
    if leb (start + n) (length payload) then done (take n (drop start payload)) else panic

unfoldable pub extract_stream_payload_slices :
    List ℕ → List ℕ → Cursor → ℕ → Outcome ((List ℕ × List ℕ) × Cursor)
extract_stream_payload_slices payload1 payload2 cursor bytes =
    if cursor.on_first
    then (let len_a = min (length payload1 - cursor.active_index) bytes in
        let len_b = bytes - len_a in
        slice payload1 cursor.active_index len_a >>= λ a. slice payload2 0 len_b >>= λ b.
        let active_index = cursor.active_index + len_a in
        done (
          (a, b),
          if leb (length payload1) active_index || ltb 0 len_b
              then record { on_first = false; active_index = len_b }
              else record { on_first = true; active_index = active_index },
        ))
    else (let len_b = min (length payload2 - cursor.active_index) bytes in
        slice payload2 cursor.active_index len_b >>= λ a.
        done ((a, []), record cursor { active_index = cursor.active_index + len_b }))

pub record Progress (F : Type 0) : Type 0 where
  pub cursor : Cursor
  pub active_items : ℕ
  pub active_data : ℕ
  pub seen : F

module _ {Item F : Type 0} (len : Item → ℕ) (byte_limit : ℕ) (fun : F → List ℕ → List ℕ → Bool × F)
    (payload1 payload2 : List ℕ) where
  -- An item whose payload was extracted: whether the loop is left here, and what has been done.
  unfoldable pub consume_item : Item → Progress F → List ℕ → List ℕ → Cursor → Bool × Progress F
  consume_item i g a b cursor = elim (ltb byte_limit (g.active_data + len i)) [
    | true ↦ (true, record g { cursor = cursor })
    | false ↦ elim (fun g.seen a b).0 [
      | false ↦ (true, record g { cursor = cursor; seen = (fun g.seen a b).1 })
      | true ↦ (
        false,
        record {
          cursor = cursor;
          active_items = g.active_items + 1;
          active_data = g.active_data + len i;
          seen = (fun g.seen a b).1;
        },
      )
    ]
  ]

  -- A loop over the items of one slice. It tells whether it was left early.
  unfoldable pub consume_slice : List Item → Progress F → Outcome (Bool × Progress F)
  consume_slice [] g = done (false, g)
  consume_slice (i ∷ items) g =
      extract_stream_payload_slices payload1 payload2 g.cursor (len i) >>= λ extracted.
      let shown = consume_item i g extracted.0.0 extracted.0.1 extracted.1 in
      elim shown.0 [ true ↦ done shown | false ↦ consume_slice items shown.1 ]

-- On to the second slice, unless the first loop was left.
abbrev pub unless_left : {P : Type 0} → (P → Outcome (Bool × P)) → Bool × P → Outcome (Bool × P)
unless_left walk_on (true, g) = done (true, g)
unless_left walk_on (false, g) = walk_on g

module _ {Item F : Type 0} (len : Item → ℕ) (b : RingBuffer Item) (p : RingBuffer ℕ)
    (s : OneShots) where
  -- The loops over both slices of the items; the second only if the first was not left.
  unfoldable pub consume_messages :
      ℕ → (F → List ℕ → List ℕ → Bool × F) → F → Stream b p s → Outcome (F × Stream b p s)
  consume_messages byte_limit fun seen c =
      let items = b.as_slices c.control.ring in
      let payload = p.as_slices c.payload.ring in
      let walk = consume_slice len byte_limit fun payload.0 payload.1 in
      walk items.0 (record {
        cursor = record { on_first = true; active_index = 0 };
        active_items = 0;
        active_data = 0;
        seen = seen;
      })
      >>= unless_left (walk items.1)
      >>= λ last. done (
        last.1.seen,
        record {
          payload = (rx_advance_index p s last.1.active_data c.payload).1;
          control = (rx_advance_index b s last.1.active_items c.control).1;
        },
      )
