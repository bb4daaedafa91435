-- ===== src/Channel/Rx.antt =====
-- The receiving end: `impl RxCore for Rx<T>` and the slice helpers of core/src/core_rx.rs.
use steady_state_stack.Common.{
  Bool, List, Option, Outcome, ap, ap₂, arith, dec_lt, done, false, if◌then◌else◌, leb, length, ltb,
  lt→ltb, min, none, not, panic, some, sym, take, take-append, take-min, true, wrapping_add, ℕ, ◌%◌,
  ◌*◌, ◌++◌, ◌+◌, ◌-◌, ◌==◌, ◌>>=◌, ◌^◌, ◌||◌, ◌∙◌, ◌≡◌,
}
use steady_state_stack.Channel.Ring.{OneShots, RingBuffer}
use steady_state_stack.Channel.{Channel, Woken, is_empty, monitor_index_not, operation_won}

-- `DoubleSlice` and `DoubleSliceCopy` for a pair of slices. The copy returns what it wrote to the front
-- of a target of `size` places.
module _ {A : Type 0} where
  abbrev pub to_vec : List A × List A → List A
  to_vec (a, b) = a ++ b

  abbrev pub total_len : List A × List A → ℕ
  total_len (a, b) = length a + length b

  unfoldable pub copy_into_slice : List A × List A → ℕ → List A
  copy_into_slice (a, b) size =
      let n = min (length a) size in
      let m = if ltb n size then min (length b) (size - n) else 0 in take n a ++ take m b

  -- The copy is the front of the two slices put together.
  pub copy_into_slice_lem :
      (slices : List A × List A) (size : ℕ)
      → copy_into_slice slices size ≡ take size (to_vec slices)
  unfolding copy_into_slice
  copy_into_slice_lem (a, b) size = elim (dec_lt (length a) size) [
    | yes p ↦
        let n : min (length a) size ≡ length a = omega arith in
        let c : ltb (length a) size ≡ true = lt→ltb (length a) size p in
        let ta : take (length a) a ≡ take size a = ap (λ k. take k a) (sym n) ∙ take-min size a in
        rw (n, c) (ap₂ ◌++◌ ta (take-min (size - length a) b) ∙ sym (take-append size a b))
    | no p ↦
        let n : min (length a) size ≡ size = omega arith in
        let c : ltb size size ≡ false = ground arith in
        let z : size - length a ≡ 0 = omega arith in
        rw (n, c) (sym (take-append size a b ∙ ap (λ k. take size a ++ take k b) z))
  ]

abbrev u32_mod : ℕ
u32_mod = 2 ^ 32

module _ {A : Type 0} (b : RingBuffer A) (s : OneShots) where
  open b use {
    Ring, contents, capacity, read_index, write_index, occupied_len, vacant_len, try_pop, first,
    as_slices, advance_read_index,
  }
  open s use {OneShot, is_terminated, poll, fire}

  unfoldable pub is_closed_and_empty : Channel b s → Bool × Channel b s
  is_closed_and_empty c =
      if is_terminated c.is_closed
      then (is_empty b s c.ring, c)
      else if is_empty b s c.ring
      then (let (ready, o) = poll c.is_closed in (ready, record c { is_closed = o }))
      else (false, c)

  -- The counter is a `u32`.
  unfoldable pub rx_advance_index : ℕ → Channel b s → ℕ × Channel b s
  rx_advance_index request c =
      let avail = occupied_len c.ring in
      let idx = if ltb avail request then avail else request in
      (
        idx,
        record c {
          ring = advance_read_index idx c.ring;
          take_count = if ltb 0 idx then (c.take_count + idx % u32_mod) % u32_mod else c.take_count;
        },
      )

  -- How often the same item has been seen: the counters after a peek.
  note_peek : Option A → Channel b s → Channel b s
  note_peek none c = record c { peek_repeats = 0 }
  note_peek (some a) c =
      if not (c.cached_take_count == c.take_count)
      then record c { peek_repeats = 0; cached_take_count = c.take_count }
      else record c { peek_repeats = wrapping_add c.peek_repeats 1 }

  unfoldable pub peek_async_timeout : Woken b s → Channel b s → Option A × Channel b s
  unfolding note_peek
  peek_async_timeout woken c =
      let waited =
        if not (is_terminated c.rx_shutdown)
        then record c { ring = woken.ring; rx_shutdown = woken.signal }
        else c in
      (first waited.ring, note_peek (first waited.ring) waited)

  pub rx_monitor_not : Channel b s → Channel b s
  rx_monitor_not c = record c { rx_monitor_index = monitor_index_not }

  -- The subtraction panics below zero, and so does the `assert!`.
  unfoldable pub avail_units : Channel b s → Outcome ℕ
  avail_units c =
      let cap = capacity c.ring in
      let modulus = 2 * cap in
      let write_idx = write_index c.ring in
      let read_idx = read_index c.ring in
      let result = (modulus + write_idx - read_idx) % modulus in
      if leb read_idx (modulus + write_idx)
      then if leb result cap then done result else panic
      else panic

  unfoldable pub avail_units_for : Channel b s → ℕ → Outcome Bool
  avail_units_for c size = avail_units c >>= λ avail. done (leb size avail)

  unfoldable pub wait_shutdown_or_avail_units : ℕ → Woken b s → Channel b s → Bool × Channel b s
  wait_shutdown_or_avail_units count woken c =
      if not (is_terminated c.rx_shutdown)
      then (
        operation_won b s woken.winner,
        record c { ring = woken.ring; rx_shutdown = woken.signal },
      )
      else (leb count (occupied_len c.ring), c)

  -- Here the other future is the close signal.
  unfoldable pub wait_closed_or_avail_units : ℕ → Woken b s → Channel b s → Bool × Channel b s
  wait_closed_or_avail_units count woken c =
      if leb count (occupied_len c.ring)
      then (true, c)
      else if not (is_terminated c.is_closed)
      then (
        operation_won b s woken.winner || leb count (occupied_len woken.ring),
        record c { ring = woken.ring; is_closed = woken.signal },
      )
      else (leb count (occupied_len woken.ring), record c { ring = woken.ring })

  unfoldable pub wait_avail_units : ℕ → Woken b s → Channel b s → Bool × Channel b s
  wait_avail_units count woken c =
      if leb count (occupied_len c.ring)
      then (true, c)
      else if not (is_terminated c.rx_shutdown)
      then (
        operation_won b s woken.winner,
        record c { ring = woken.ring; rx_shutdown = woken.signal },
      )
      else (false, c)

  unfoldable pub try_take : Channel b s → Option A × Channel b s
  try_take c = elim (try_pop c.ring) [
    | some (a, r) ↦ (some a, record c { ring = r; take_count = (c.take_count + 1) % u32_mod })
    | none ↦ (none, c)
  ]

  -- The items copied to the front of a target of `size` places. The counter goes up by one, however
  -- many items there are.
  unfoldable pub take_slice : ℕ → Channel b s → List A × Channel b s
  unfolding copy_into_slice
  take_slice size c =
      let out = copy_into_slice (as_slices c.ring) size in
      (
        out,
        record c {
          ring = advance_read_index (length out) c.ring;
          take_count = if ltb 0 (length out) then (c.take_count + 1) % u32_mod else c.take_count;
        },
      )

  unfoldable pub peek_slice : Channel b s → List A × List A
  peek_slice c = as_slices c.ring

  unfoldable pub validate_capacity_items : ℕ → Channel b s → ℕ
  validate_capacity_items items_count c = min (capacity c.ring) items_count
