-- ===== src/Stream/Defrag.antt =====
-- `Defrag` of core/src/distributed/aqueduct_stream_tx.rs, the messages of one session while they are put
-- together, and `flush_defrag_messages` of core/src/steady_actor_shadow.rs, which moves those that are
-- complete into the stream. A debug assertion that fails is a panic.
use steady_state_stack.Common.{
  List, Option, Outcome, [], done, false, if◌then◌else◌, leb, length, ltb, min, none, panic, some,
  take, true, ℕ, ◌%◌, ◌&&◌, ◌++◌, ◌+◌, ◌-◌, ◌==◌, ◌^◌, ◌∷◌,
}
use steady_state_stack.Channel.Ring.{OneShots, RingBuffer}
use steady_state_stack.Stream.{Stream}

-- An entry of the map of sessions. A session is an `i32`, here by its bits; an `Instant` is a number.
-- Each ring has both of its ends.
pub record Defrag {Item : Type 0} (b : RingBuffer Item) (p : RingBuffer ℕ) : Type 0 where
  pub arrival : Option ℕ
  pub finish : Option ℕ
  pub session_id : ℕ
  pub running_length : ℕ
  pub ringbuffer_items : b.Ring
  pub ringbuffer_bytes : p.Ring

-- What both slices of a ring have at the front goes to another ring, as much as there is room for.
unfoldable pub push_payload : (p : RingBuffer ℕ) → ℕ → List ℕ → List ℕ → p.Ring → ℕ × p.Ring
push_payload p total_bytes payload_a payload_b out =
    let len_a = min total_bytes (length payload_a) in
    let first = p.push_slice (take len_a payload_a) out in
    let len_b = min (total_bytes - first.0) (length payload_b) in
    if ltb 0 len_b
    then (let second = p.push_slice (take len_b payload_b) first.1 in
        (first.0 + second.0, second.1))
    else (first.0 + 0, first.1)

-- The items are as many as `msg_count` at the least.
unfoldable pub push_items :
    {Item : Type 0} → (b : RingBuffer Item) → ℕ → List Item → List Item → b.Ring → b.Ring
push_items b msg_count items_a items_b out =
    let items_len_a = min msg_count (length items_a) in
    let items_len_b = msg_count - items_len_a in
    let first = (b.push_slice (take items_len_a items_a) out).1 in
    if ltb 0 items_len_b then (b.push_slice (take items_len_b items_b) first).1 else first

module _ {Item : Type 0} (len : Item → ℕ) where
  -- The loop that counts the messages that fit, and their bytes.
  unfoldable pub fitting : List Item → ℕ → ℕ → ℕ → ℕ → ℕ × ℕ
  fitting [] vacant_items vacant_bytes msg_count total_bytes = (msg_count, total_bytes)
  fitting (item ∷ items) vacant_items vacant_bytes msg_count total_bytes =
      elim (ltb msg_count vacant_items && leb (total_bytes + len item) vacant_bytes) [
        | true ↦ fitting items vacant_items vacant_bytes (msg_count + 1) (total_bytes + len item)
        | false ↦ (msg_count, total_bytes)
      ]

  module _ (b : RingBuffer Item) (p : RingBuffer ℕ) (s : OneShots) where
    unfoldable pub flush_defrag_messages :
        Stream b p s → Defrag b p → Outcome ((ℕ × ℕ × Option ℕ) × Defrag b p × Stream b p s)
    flush_defrag_messages out defrag =
        let items = b.as_slices defrag.ringbuffer_items in
        let payload = p.as_slices defrag.ringbuffer_bytes in
        let total_items = length items.0 + length items.1 in
        let fits =
          fitting (items.0 ++ items.1) (b.vacant_len out.control.ring)
            (p.vacant_len out.payload.ring) 0 0 in
        let pushed = push_payload p fits.1 payload.0 payload.1 out.payload.ring in
        if out.payload.make_closed && out.control.make_closed
        then if total_items == 0
          then done ((0, 0, none), defrag, out)
          else if fits.0 == 0
          then done ((0, 0, some defrag.session_id), defrag, out)
          else if pushed.0 == fits.1
          then done (
            (
              fits.0 % 2 ^ 32,
              fits.1 % 2 ^ 32,
              if fits.0 == total_items then none else some defrag.session_id,
            ),
            record defrag {
              ringbuffer_bytes = p.advance_read_index pushed.0 defrag.ringbuffer_bytes;
              ringbuffer_items = b.advance_read_index fits.0 defrag.ringbuffer_items;
            },
            record {
              control = record out.control {
                ring = push_items b fits.0 items.0 items.1 out.control.ring;
              };
              payload = record out.payload { ring = pushed.1 };
            },
          )
          else panic
        else panic
