-- ===== src/Stream/Rx.antt =====
-- The receiving end of a stream: core/src/core_rx_stream.rs. `len` is the length that a control item
-- states.
use steady_state_stack.Common.{
  Bool, List, Option, Outcome, [], done, false, if◌then◌else◌, leb, length, ltb, min, none, not,
  panic, some, take, true, wrapping_add, ℕ, ◌%◌, ◌&&◌, ◌++◌, ◌+◌, ◌-◌, ◌==◌, ◌>>=◌, ◌^◌, ◌||◌, ◌∷◌,
}
use steady_state_stack.Channel.Ring.{OneShots, RingBuffer}
use steady_state_stack.Channel.{
  Channel, Winner, Woken, monitor_index_not, operation, shutdown, timer,
}
use steady_state_stack.Channel.Rx.{is_closed_and_empty as channel_is_closed_and_empty}
use steady_state_stack.Stream.{Stream, pair_le}

abbrev pub u32_add : ℕ → ℕ → ℕ
u32_add count n = (count + n % 2 ^ 32) % 2 ^ 32

module _ {Item : Type 0} (len : Item → ℕ) (b : RingBuffer Item) (p : RingBuffer ℕ)
    (s : OneShots) where
  open s use {is_terminated}

  -- The payload is asked only if the control channel says yes.
  pub is_closed_and_empty : Stream b p s → Bool × Stream b p s
  is_closed_and_empty c =
      let (control_done, control) = channel_is_closed_and_empty b s c.control in
      let (payload_done, payload) = channel_is_closed_and_empty p s c.payload in
      if control_done
      then (payload_done, record { control = control; payload = payload })
      else (false, record c { control = control })

  pub advance_index : ℕ × ℕ → Stream b p s → (ℕ × ℕ) × Stream b p s
  advance_index (items, bytes) c =
      if leb items (b.occupied_len c.control.ring) && leb bytes (p.occupied_len c.payload.ring)
      then (
        (items, bytes),
        record {
          control = record c.control {
            ring = b.advance_read_index items c.control.ring;
            take_count = u32_add c.control.take_count items;
          };
          payload = record c.payload {
            ring = p.advance_read_index bytes c.payload.ring;
            take_count = u32_add c.payload.take_count bytes;
          };
        },
      )
      else ((0, 0), c)

  note_peek : Option Item → Channel b s → Channel b s
  note_peek none c = record c { peek_repeats = 0 }
  note_peek (some item) c =
      if not (c.cached_take_count == c.take_count)
      then record c { peek_repeats = 0; cached_take_count = c.take_count }
      else record c { peek_repeats = wrapping_add c.peek_repeats 1 }

  -- The item with the two pieces of its payload; a slice out of range panics.
  pieces : Item → List ℕ × List ℕ → Outcome (Item × List ℕ × List ℕ)
  pieces item (first_part, second_part) =
      let count_a = min (length first_part) (len item) in
      let count_b = len item - count_a in
      if leb count_b (length second_part)
      then done (item, take count_a first_part, take count_b second_part)
      else panic

  peeked : Option Item → Stream b p s → Outcome (Option (Item × List ℕ × List ℕ) × Stream b p s)
  unfolding note_peek pieces
  peeked none c = done (none, record c { control = note_peek none c.control })
  peeked (some item) c = pieces item (p.as_slices c.payload.ring) >>= λ found.
      done (some found, record c { control = note_peek (some item) c.control })

  pub peek_async_timeout :
      Woken b s → p.Ring → Stream b p s → Outcome (Option (Item × List ℕ × List ℕ) × Stream b p s)
  unfolding peeked
  peek_async_timeout wb payload_ring c =
      let waited =
        if not (is_terminated c.control.rx_shutdown)
        then record {
          control = record c.control { ring = wb.ring; rx_shutdown = wb.signal };
          payload = record c.payload { ring = payload_ring };
        }
        else c in
      peeked (b.first waited.control.ring) waited

  pub monitor_not : Stream b p s → Stream b p s
  monitor_not c = record {
    control = record c.control { rx_monitor_index = monitor_index_not };
    payload = record c.payload { rx_monitor_index = monitor_index_not };
  }

  pub capacity : Stream b p s → ℕ × ℕ
  capacity c = (b.capacity c.control.ring, p.capacity c.payload.ring)

  pub capacity_for : Stream b p s → ℕ × ℕ → Bool
  unfolding capacity pair_le
  capacity_for c size = pair_le size (capacity c)

  pub validate_capacity_items : ℕ → Stream b p s → ℕ
  unfolding capacity
  validate_capacity_items items_count c = min (capacity c).0 items_count

  pub is_empty : Stream b p s → Bool
  is_empty c = b.occupied_len c.control.ring == 0

  pub avail_units : Stream b p s → ℕ × ℕ
  avail_units c = (b.occupied_len c.control.ring, p.occupied_len c.payload.ring)

  pub avail_items_count : Stream b p s → ℕ
  unfolding avail_units
  avail_items_count c = (avail_units c).0

  pub avail_units_for : Stream b p s → ℕ × ℕ → Bool
  unfolding avail_units pair_le
  avail_units_for c size = pair_le size (avail_units c)

  won : Winner → Bool
  won operation = true
  won shutdown = false
  won timer = false

  -- What the two rings are after a wait, the control signal apart.
  abbrev rings : b.Ring → p.Ring → Stream b p s → Stream b p s
  rings control_ring payload_ring c = record {
    control = record c.control { ring = control_ring };
    payload = record c.payload { ring = payload_ring };
  }

  pub wait_shutdown_or_avail_units : ℕ × ℕ → Woken b s → p.Ring → Stream b p s → Bool × Stream b p s
  unfolding won avail_units_for
  wait_shutdown_or_avail_units count wb payload_ring c =
      let waited = rings wb.ring payload_ring c in
      if not (is_terminated c.control.rx_shutdown)
      then (
        won wb.winner,
        record waited { control = record waited.control { rx_shutdown = wb.signal } },
      )
      else (avail_units_for c count, c)

  -- Here the other future is the close signal.
  pub wait_closed_or_avail_units : ℕ → Woken b s → p.Ring → Stream b p s → Bool × Stream b p s
  unfolding won avail_units_for
  wait_closed_or_avail_units count wb payload_ring c =
      let waited = rings wb.ring payload_ring c in
      if avail_units_for c (count, 1)
      then (true, c)
      else if not (is_terminated c.control.is_closed)
      then (
        won wb.winner || leb count (b.occupied_len wb.ring),
        record waited { control = record waited.control { is_closed = wb.signal } },
      )
      else (avail_units_for waited (count, 1), waited)

  pub wait_avail_units : ℕ × ℕ → Woken b s → p.Ring → Stream b p s → Bool × Stream b p s
  unfolding avail_units_for
  wait_avail_units size wb payload_ring c =
      if avail_units_for c size then (true, c) else (true, rings wb.ring payload_ring c)

  -- `peek_slice` of the ring crate copies from the front.
  abbrev pub front : ℕ → p.Ring → List ℕ
  front n ring =
      let (first_part, second_part) = p.as_slices ring in take n (first_part ++ second_part)

  unfoldable pub take_message : Item → Stream b p s → Option (Item × List ℕ) × Stream b p s
  take_message peek c =
      let bytes = front (len peek) c.payload.ring in
      elim (b.try_pop c.control.ring) [
        | some (item, r) ↦ (
          some (item, bytes),
          record {
            control = record c.control { ring = r; take_count = u32_add c.control.take_count 1 };
            payload = record c.payload { ring = p.advance_read_index (len peek) c.payload.ring };
          },
        )
        | none ↦ (none, c)
      ]

  -- `n <= occupied as i32` for an `n` that is not negative: the cast keeps 32 bits, and from 2^31 on it
  -- is negative.
  unfoldable pub le_as_i32 : ℕ → ℕ → Bool
  le_as_i32 n occupied = ltb (occupied % 2 ^ 32) (2 ^ 31) && leb n (occupied % 2 ^ 32)

  unfoldable pub try_take : Stream b p s → Option (Item × List ℕ) × Stream b p s
  unfolding take_message le_as_i32
  try_take c = elim (b.first c.control.ring) [
    | some item ↦
        if le_as_i32 (len item) (p.occupied_len c.payload.ring)
        then take_message item c
        else (none, c)
    | none ↦ (none, c)
  ]

  -- The loops of `shared_take_slice`: how many items fit, and how many bytes they need. A loop that
  -- ends early does not keep the second one from starting.
  items_that_fit : ℕ → ℕ → List Item → ℕ × ℕ → ℕ × ℕ
  items_that_fit max_items max_payload [] (items_copied, bytes_needed) =
      (items_copied, bytes_needed)
  items_that_fit max_items max_payload (item ∷ items) (items_copied, bytes_needed) =
      let rest =
        items_that_fit max_items max_payload items (items_copied + 1, bytes_needed + len item) in
      if ltb items_copied max_items && leb (bytes_needed + len item) max_payload
      then rest
      else (items_copied, bytes_needed)

  -- The targets hold `max_items` items and `max_payload` bytes. The two counters go up by each other's
  -- number.
  pub take_slice : ℕ → ℕ → Stream b p s → (List Item × List ℕ) × Stream b p s
  unfolding items_that_fit
  take_slice max_items max_payload c =
      let (item_a, item_b) = b.as_slices c.control.ring in
      let first_part = items_that_fit max_items max_payload item_a (0, 0) in
      let fit = items_that_fit max_items max_payload item_b first_part in
      let items = take first_part.0 item_a ++ take (fit.0 - first_part.0) item_b in
      let (payload_a, payload_b) = p.as_slices c.payload.ring in
      let n = min (length payload_a) fit.1 in
      let m = if n == fit.1 then 0 else min (length payload_b) (fit.1 - n) in
      (
        (items, take n payload_a ++ take m payload_b),
        record {
          control = record c.control {
            ring = b.advance_read_index fit.0 c.control.ring;
            take_count = u32_add c.control.take_count (n + m);
          };
          payload = record c.payload {
            ring = p.advance_read_index (n + m) c.payload.ring;
            take_count = u32_add c.payload.take_count fit.0;
          };
        },
      )

  pub peek_slice : Stream b p s → (List Item × List Item) × (List ℕ × List ℕ)
  peek_slice c = (b.as_slices c.control.ring, p.as_slices c.payload.ring)

  pub one : Stream b p s → ℕ × ℕ
  one c = (1, 1)
