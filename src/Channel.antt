-- ===== src/Channel.antt =====
-- A channel, both ends: `impl TxCore for Tx<T>` of core/src/core_tx.rs and `impl RxCore for Rx<T>` of
-- core/src/core_rx.rs, over the ring that the two share.
--
-- A wait returns when one of the futures of its `select!` does. What the rest of the program has made
-- of the ring and of the shutdown signal by then, and which future came first, is the argument `woken`.
-- Logging leaves no trace. Telemetry counters are in core/src/monitor_telemetry.rs.
pub mod Ring
pub mod Rx
pub mod Units
pub mod Fifo
pub mod Outcomes
pub mod Concrete
mod Tests
use steady_state_stack.Common.{
  Bool, List, Option, Outcome, [], done, false, if◌then◌else◌, leb, ltb, min, none, not, panic,
  some, true, usize_mod, ℕ, ◌%◌, ◌*◌, ◌+◌, ◌-◌, ◌/◌, ◌==◌, ◌>>=◌, ◌||◌, ◌∷◌,
}
use steady_state_stack.Channel.Ring.{OneShots, RingBuffer}

pub data SendSaturation : Type 0 where
  await_for_room return_blocked_msg warn_then_await debug_warn_then_await : SendSaturation

pub data SendOutcome (A : Type 0) : Type 0 where
  success : SendOutcome A
  blocked : A → SendOutcome A
  timeout : A → SendOutcome A
  closed : A → SendOutcome A

pub is_sent : {A : Type 0} → SendOutcome A → Bool
is_sent success = true
is_sent (blocked _) = false
is_sent (timeout _) = false
is_sent (closed _) = false

abbrev pub monitor_index_not : ℕ
monitor_index_not = usize_mod - 1

-- Which future of a `select!` came first.
pub data Winner : Type 0 where
  shutdown operation timer : Winner

module _ {A : Type 0} (b : RingBuffer A) (s : OneShots) where
  open b use {
    Ring, contents, capacity, read_index, write_index, occupied_len, vacant_len, try_push,
    push_iter, push_slice, advance_write_index, try_pop, first, as_slices, advance_read_index,
  }
  open s use {OneShot, is_terminated, poll, fire}

  -- `Tx` and `Rx` with the ring between them. `make_closed` tells whether the sender still has its
  -- `Option<oneshot::Sender>`. The clocks count nanoseconds.
  pub record Channel : Type 0 where
    pub ring : Ring
    pub make_closed : Bool
    pub is_closed : OneShot
    pub tx_shutdown : OneShot
    pub rx_shutdown : OneShot
    pub tx_last_error_send : ℕ
    pub rx_last_error_send : ℕ
    pub tx_monitor_index : ℕ
    pub rx_monitor_index : ℕ
    pub take_count : ℕ
    pub cached_take_count : ℕ
    pub peek_repeats : ℕ

  -- What a wait finds when it returns.
  pub record Woken : Type 0 where
    pub winner : Winner
    pub ring : Ring
    pub signal : OneShot

  abbrev is_empty : Ring → Bool
  is_empty r = occupied_len r == 0

  abbrev is_full : Ring → Bool
  is_full r = vacant_len r == 0

  abbrev operation_won : Winner → Bool
  operation_won operation = true
  operation_won shutdown = false
  operation_won timer = false

  -- The sending end.
  unfoldable pub tx_advance_index : ℕ → Channel → ℕ × Channel
  tx_advance_index request c =
      let avail = vacant_len c.ring in
      let idx = if ltb avail request then avail else request in
      (idx, record c { ring = advance_write_index idx c.ring })

  unfoldable pub mark_closed : Channel → Channel
  mark_closed c =
      if c.make_closed then record c { make_closed = false; is_closed = fire c.is_closed } else c

  -- `elapsed().as_secs()` against `MAX_TELEMETRY_ERROR_RATE_SECONDS`.
  pub log_periodic : ℕ → ℕ → Bool × ℕ
  log_periodic now last =
      if ltb ((now - last) / 1_000_000_000) 20 then (false, last) else (true, now)

  unfoldable pub send_iter_until_full : List A → Channel → ℕ × Channel
  send_iter_until_full xs c = let (n, r) = push_iter xs c.ring in (n, record c { ring = r })

  pub tx_monitor_not : Channel → Channel
  tx_monitor_not c = record c { tx_monitor_index = monitor_index_not }

  pub shared_capacity : Channel → ℕ
  shared_capacity c = capacity c.ring

  pub capacity_for : Channel → ℕ → Bool
  unfolding shared_capacity
  capacity_for c size = leb size (shared_capacity c)

  pub shared_is_full : Channel → Bool
  shared_is_full c = is_full c.ring

  pub shared_is_empty : Channel → Bool
  shared_is_empty c = is_empty c.ring

  -- The subtraction panics below zero, and so does the `assert!`.
  pub vacant_units : Channel → Outcome ℕ
  vacant_units c =
      let cap = capacity c.ring in
      let read_idx = read_index c.ring in
      let write_idx = write_index c.ring in
      let result = (cap + read_idx - write_idx) % (2 * cap) in
      if leb write_idx (cap + read_idx)
      then if leb result cap then done result else panic
      else panic

  pub vacant_units_for : Channel → ℕ → Outcome Bool
  vacant_units_for c size = vacant_units c >>= λ vacant. done (leb size vacant)

  pub wait_shutdown_or_vacant_units : ℕ → Woken → Channel → Bool × Channel
  wait_shutdown_or_vacant_units count woken c =
      if is_empty c.ring || leb count (vacant_len c.ring)
      then (true, c)
      else if not (is_terminated c.tx_shutdown)
      then (operation_won woken.winner, record c { ring = woken.ring; tx_shutdown = woken.signal })
      else (false, record c { ring = woken.ring })

  -- The number of slots that `wait_vacant` is asked for.
  pub safe_count : ℕ → Channel → ℕ
  safe_count count c = min count (capacity c.ring)

  -- `wait_vacant n r` tells whether the crate's future for `n` free slots is ready on the ring `r`.
  -- While it is not, the call has not returned.
  pub wait_vacant_units : (ℕ → Ring → Bool) → ℕ → Woken → Channel → Option (Bool × Channel)
  unfolding safe_count
  wait_vacant_units wait_vacant count woken c =
      if leb count (vacant_len c.ring)
      then some (true, c)
      else if wait_vacant (safe_count count c) woken.ring
      then some (true, record c { ring = woken.ring })
      else none

  pub wait_empty : Woken → Channel → Bool × Channel
  wait_empty woken c =
      if not (is_terminated c.tx_shutdown)
      then (operation_won woken.winner, record c { ring = woken.ring; tx_shutdown = woken.signal })
      else (capacity c.ring == vacant_len c.ring, c)

  is_nil : List A → Bool
  is_nil [] = true
  is_nil (x ∷ xs) = false

  unfoldable pub send_slice : List A → Channel → ℕ × Channel
  unfolding is_nil
  send_slice slice c =
      if not (is_nil slice)
      then (let (n, r) = push_slice slice c.ring in (n, record c { ring = r }))
      else (0, c)

  -- `none` is `Ok`; the message comes back behind `some`. The `debug_assert!` on a closed channel panics.
  unfoldable pub try_send : A → Channel → Outcome (Option A × Channel)
  try_send msg c =
      if c.make_closed
      then elim (try_push msg c.ring) [
        | some r ↦ done (none, record c { ring = r })
        | none ↦ done (some msg, c)
      ]
      else panic

  is_return_blocked : SendSaturation → Bool
  is_return_blocked return_blocked_msg = true
  is_return_blocked await_for_room = false
  is_return_blocked warn_then_await = false
  is_return_blocked debug_warn_then_await = false

  -- After the `select!` of a send that met a full channel.
  after_wait : A → Winner → Channel → SendOutcome A × Channel
  after_wait msg shutdown c = (closed msg, c)
  after_wait msg timer c = (timeout msg, c)
  after_wait msg operation c = elim (try_push msg c.ring) [
    | some r ↦ (success, record c { ring = r })
    | none ↦ (closed msg, c)
  ]

  pub send_async_core : A → SendSaturation → Woken → Channel → SendOutcome A × Channel
  unfolding is_return_blocked after_wait
  send_async_core msg saturation woken c = elim (try_push msg c.ring) [
    | some r ↦ (success, record c { ring = r })
    | none ↦
        if is_return_blocked saturation
        then (blocked msg, c)
        else after_wait msg woken.winner
            (record c { ring = woken.ring; tx_shutdown = woken.signal })
  ]

  -- How long such a send waits at most, in seconds: a week if nothing else is said.
  pub send_timeout : Option ℕ → ℕ
  send_timeout (some duration) = duration
  send_timeout none = 60 * 60 * 24 * 7
