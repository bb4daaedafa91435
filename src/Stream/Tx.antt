-- ===== src/Stream/Tx.antt =====
-- The sending end of a stream: core/src/core_tx_stream.rs. `len` is the length that a control item
-- states. Items that come in and items that go out have the same code, but for the item that is sent:
-- one that goes out is made of its payload.
use steady_state_stack.Common.{
  Bool, List, Option, Outcome, [], done, drop, false, if◌then◌else◌, leb, length, min, none, not,
  panic, some, take, true, ℕ, ◌%◌, ◌&&◌, ◌+◌, ◌/◌, ◌==◌, ◌^◌, ◌||◌, ◌∷◌,
}
use steady_state_stack.Channel.Ring.{OneShots, RingBuffer}
use steady_state_stack.Channel.{
  SendOutcome, SendSaturation, Winner, Woken, await_for_room, blocked, closed,
  debug_warn_then_await, monitor_index_not, operation, return_blocked_msg, shutdown, success,
  timeout, timer, warn_then_await, mark_closed as channel_mark_closed,
}
use steady_state_stack.Stream.{Stream, StreamEgress, pair_le}

module _ {Item : Type 0} (len : Item → ℕ) (b : RingBuffer Item) (p : RingBuffer ℕ)
    (s : OneShots) where
  open s use {is_terminated}

  -- Both channels or none.
  pub advance_index : ℕ × ℕ → Stream b p s → (ℕ × ℕ) × Stream b p s
  advance_index (items, bytes) c =
      if leb items (b.vacant_len c.control.ring) && leb bytes (p.vacant_len c.payload.ring)
      then (
        (items, bytes),
        record {
          control = record c.control { ring = b.advance_write_index items c.control.ring };
          payload = record c.payload { ring = p.advance_write_index bytes c.payload.ring };
        },
      )
      else ((0, 0), c)

  pub mark_closed : Stream b p s → Stream b p s
  mark_closed c = record {
    control = channel_mark_closed b s c.control;
    payload = channel_mark_closed p s c.payload;
  }

  -- One item, and the bytes that there are for each.
  pub one : Stream b p s → ℕ × ℕ
  one c = (1, p.capacity c.payload.ring / b.capacity c.control.ring)

  pub monitor_not : Stream b p s → Stream b p s
  monitor_not c = record {
    control = record c.control { tx_monitor_index = monitor_index_not };
    payload = record c.payload { tx_monitor_index = monitor_index_not };
  }

  pub capacity : Stream b p s → ℕ × ℕ
  capacity c = (b.capacity c.control.ring, p.capacity c.payload.ring)

  pub capacity_for : Stream b p s → ℕ × ℕ → Bool
  unfolding capacity pair_le
  capacity_for c size = pair_le size (capacity c)

  pub is_full : Stream b p s → Bool
  is_full c = b.vacant_len c.control.ring == 0

  pub is_empty : Stream b p s → Bool
  is_empty c = b.occupied_len c.control.ring == 0

  pub vacant_units : Stream b p s → ℕ × ℕ
  vacant_units c = (b.vacant_len c.control.ring, p.vacant_len c.payload.ring)

  unfoldable pub vacant_units_for : Stream b p s → ℕ × ℕ → Bool
  unfolding vacant_units pair_le
  vacant_units_for c size = pair_le size (vacant_units c)

  -- Whether a channel is empty or has the room.
  open_for : {A : Type 0} (r : RingBuffer A) → r.Ring → ℕ → Bool
  open_for r ring count = (r.occupied_len ring == 0) || leb count (r.vacant_len ring)

  won : Winner → Bool
  won operation = true
  won shutdown = false
  won timer = false

  -- What the two rings have become when a wait returns.
  abbrev pub after : Woken b s → Woken p s → Stream b p s → Stream b p s
  after wb wp c = record {
    control = record c.control { ring = wb.ring; tx_shutdown = wb.signal };
    payload = record c.payload { ring = wp.ring };
  }

  pub wait_shutdown_or_vacant_units :
      ℕ × ℕ → Woken b s → Woken p s → Stream b p s → Bool × Stream b p s
  unfolding open_for won
  wait_shutdown_or_vacant_units (items, bytes) wb wp c =
      if open_for b c.control.ring items && open_for p c.payload.ring bytes
      then (true, c)
      else if not (is_terminated c.control.tx_shutdown)
      then (won wb.winner, after wb wp c)
      else (
        false,
        record {
          control = record c.control { ring = wb.ring };
          payload = record c.payload { ring = wp.ring };
        },
      )

  -- The two futures are awaited one after the other. `wait_items n r` and `wait_bytes n r` tell whether the
  -- crate's future for `n` free slots is ready on the ring `r`; while one is not, the call has not
  -- returned.
  pub wait_vacant_units :
      (ℕ → b.Ring → Bool)
      → (ℕ → p.Ring → Bool)
      → ℕ × ℕ
      → Woken b s
      → Woken p s
      → Stream b p s
      → Option (Bool × Stream b p s)
  wait_vacant_units wait_items wait_bytes (items, bytes) wb wp c =
      if leb items (b.vacant_len c.control.ring) && leb bytes (p.vacant_len c.payload.ring)
      then some (true, c)
      else if wait_items (min items (b.capacity c.control.ring)) wb.ring
          && wait_bytes (min bytes (p.capacity c.payload.ring)) wp.ring
      then some (
        true,
        record {
          control = record c.control { ring = wb.ring };
          payload = record c.payload { ring = wp.ring };
        },
      )
      else none

  pub wait_empty : Woken b s → Woken p s → Stream b p s → Bool × Stream b p s
  unfolding won
  wait_empty wb wp c =
      if not (is_terminated c.control.tx_shutdown)
      then (won wb.winner, after wb wp c)
      else (b.capacity c.control.ring == b.vacant_len c.control.ring, c)

  -- The payload goes first, then the item; what the pushes return is ignored.
  abbrev pub pushed : Item → b.Ring → b.Ring
  pushed item ring = elim (b.try_push item ring) [ some r ↦ r | none ↦ ring ]

  unfoldable pub push_both : Item → List ℕ → Stream b p s → Stream b p s
  push_both item bytes c = record {
    control = record c.control { ring = pushed item c.control.ring };
    payload = record c.payload { ring = (p.push_slice bytes c.payload.ring).1 };
  }

  abbrev pub has_room : ℕ → Stream b p s → Bool
  has_room n c = leb n (p.vacant_len c.payload.ring) && leb 1 (b.vacant_len c.control.ring)

  -- What `payload.len() as i32` compares equal to an item's length that is not negative.
  unfoldable pub states_length : Item → List ℕ → Bool
  states_length item bytes = len item == length bytes % 2 ^ 32

  -- Neither channel has been marked closed.
  unfoldable pub is_open : Stream b p s → Bool
  is_open c = c.control.make_closed && c.payload.make_closed

  -- For `StreamIngress`; `none` is `Ok`. The `assert_eq!` and the `debug_assert!`s panic.
  unfoldable pub try_send : Item × List ℕ → Stream b p s → Outcome (Option Item × Stream b p s)
  unfolding push_both states_length is_open
  try_send (item, bytes) c =
      if states_length item bytes && is_open c
      then (if has_room (len item) c
          then done (none, push_both item bytes c)
          else done (some item, c))
      else panic

  -- The loop of `shared_send_slice`: the items that are left, the bytes that have been sent, and the
  -- free units at the start of the call.
  send_items : ℕ → List Item → ℕ → ℕ → List ℕ → Stream b p s → (ℕ × ℕ) × Stream b p s
  send_items payload_vacant [] items_sent bytes_sent bytes c = ((items_sent, bytes_sent), c)
  send_items payload_vacant (item ∷ items) items_sent bytes_sent bytes c =
      let n = len item in
      let (count, ring) = p.push_slice (take n (drop bytes_sent bytes)) c.payload.ring in
      let c' = record c { payload = record c.payload { ring = ring } } in
      let fits = leb (bytes_sent + n) (length bytes) && leb (bytes_sent + n) payload_vacant in
      elim (b.try_push item c.control.ring) [
        | some r ↦
            let rest =
              send_items payload_vacant items (items_sent + 1) (bytes_sent + n) bytes
                (record c' { control = record c.control { ring = r } }) in
            if not fits
            then ((items_sent, bytes_sent), c)
            else if not (count == n)
            then ((items_sent, bytes_sent), c')
            else rest
        | none ↦ if not fits then ((items_sent, bytes_sent), c) else ((items_sent, bytes_sent), c')
      ]

  pub send_slice : List Item × List ℕ → Stream b p s → (ℕ × ℕ) × Stream b p s
  unfolding send_items
  send_slice (items, bytes) c =
      send_items (p.vacant_len c.payload.ring) (take (b.vacant_len c.control.ring) items) 0 0 bytes
        c

  -- After the `select!`. The item is pushed by a future that ends when there is room or nobody reads:
  -- `item_stored` is what comes of it.
  after_select :
      Option b.Ring → Item → List ℕ → Winner → Stream b p s → SendOutcome Item × Stream b p s
  after_select item_stored item bytes shutdown c = (closed item, c)
  after_select item_stored item bytes timer c = (timeout item, c)
  after_select item_stored item bytes operation c =
      let (count, ring) = p.push_slice bytes c.payload.ring in
      let c' = record c { payload = record c.payload { ring = ring } } in
      if not (count == length bytes) then (closed item, c') else elim item_stored [
        | some r ↦ (success, record c' { control = record c.control { ring = r } })
        | none ↦ (closed item, c')
      ]

  returns_blocked : SendSaturation → Bool
  returns_blocked return_blocked_msg = true
  returns_blocked await_for_room = false
  returns_blocked warn_then_await = false
  returns_blocked debug_warn_then_await = false

  pub send_async_core :
      Item × List ℕ
      → SendSaturation
      → Woken b s
      → Woken p s
      → Option b.Ring
      → Stream b p s
      → Outcome (SendOutcome Item × Stream b p s)
  unfolding push_both after_select returns_blocked states_length is_open
  send_async_core (item, bytes) saturation wb wp item_stored c =
      if not (states_length item bytes && is_open c)
      then panic
      else if has_room (len item) c
      then if (p.push_slice bytes c.payload.ring).0 == len item
        then done (success, push_both item bytes c)
        else panic
      else if returns_blocked saturation
      then done (blocked item, c)
      else if not (is_terminated c.control.tx_shutdown)
      then done (after_select item_stored item bytes wb.winner (after wb wp c))
      else done (closed item, c)

-- For `StreamEgress` the item is made of the payload, and `none` is again `Ok`. The length is that of a
-- payload of less than 2^31 bytes.
module _ (b : RingBuffer StreamEgress) (p : RingBuffer ℕ) (s : OneShots) where
  pub try_send_egress : List ℕ → Stream b p s → Outcome (Option StreamEgress × Stream b p s)
  unfolding push_both is_open
  try_send_egress bytes c =
      let item : StreamEgress = record { length = length bytes } in
      if not (is_open (λ x. x.length) b p s c)
      then panic
      else if has_room (λ x. x.length) b p s (length bytes) c
      then done (none, push_both (λ x. x.length) b p s item bytes c)
      else done (some item, c)
