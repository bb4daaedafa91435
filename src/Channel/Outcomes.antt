-- ===== src/Channel/Outcomes.antt =====
-- What the asynchronous send, the waits and the close signal of core/src/core_tx.rs and
-- core/src/core_rx.rs tell their caller.
use mathlib.Core.List.{append-nil}
use steady_state_stack.Common.{
  Option, [], arith, dec_lt, false, if◌then◌else◌, inl, inr, length, none, refl, some, sym, true,
  ◌++◌, ◌<◌, ◌↔◌, ◌∷◌, ◌≡◌, ◌≢◌, ◌⊎◌,
}
use steady_state_stack.Channel.Ring.{OneShots, RingBuffer}
use steady_state_stack.Channel.{
  Channel, SendOutcome, SendSaturation, Winner, Woken, after_wait, blocked, closed, is_sent,
  mark_closed, operation, return_blocked_msg, send_async_core, shutdown, success, timeout, timer,
}
use steady_state_stack.Channel.Rx.{is_closed_and_empty}

module _ {A : Type 0} (b : RingBuffer A) (s : OneShots) where
  open b use {
    Ring, contents, capacity, occupied_len, vacant_len, try_push, fits, occupied_law, vacant_law,
    push_room, push_full,
  }
  open s use {is_terminated, poll, fire, fired_ready, ready_terminated}

  -- What a message that is not sent comes back in.
  abbrev pub returned : SendOutcome A → Option A
  returned success = none
  returned (blocked m) = some m
  returned (timeout m) = some m
  returned (closed m) = some m

  -- What a send leaves behind, of the ring `r` that it acted on.
  pub record Sent (msg : A) (r : Ring) (o : SendOutcome A) (r' : Ring) : Type 0 where
    pub stored : contents r' ≡ contents r ++ (if is_sent o then msg ∷ [] else [])
    pub back : returned o ≡ (if is_sent o then none else some msg)
    pub same_capacity : capacity r' ≡ capacity r

  push_cases :
      (msg : A) (r : Ring)
      → ((r' : Ring) × (length (contents r) < capacity r)
          × (try_push msg r ≡ some r')
          × (contents r' ≡ contents r ++ msg ∷ [])
          × (capacity r' ≡ capacity r))
        ⊎ ((length (contents r) ≡ capacity r) × (try_push msg r ≡ none))
  push_cases msg r = elim (dec_lt (length (contents r)) (capacity r)) [
    | yes p ↦ let (r', e, q, k) = push_room msg r p in inl (r', p, e, q, k)
    | no p ↦
        let full : length (contents r) ≡ capacity r = omega (arith, fits r) in
        inr (full, push_full msg r full)
  ]

  Sent-success :
      (msg : A) (r r' : Ring)
      → contents r' ≡ contents r ++ msg ∷ []
      → capacity r' ≡ capacity r
      → Sent msg r success r'
  unfolding is_sent
  Sent-success msg r r' q k = record { stored = q; back = refl; same_capacity = k }

  Sent-refused :
      (msg : A) (r : Ring) (o : SendOutcome A)
      → is_sent o ≡ false
      → returned o ≡ some msg
      → Sent msg r o r
  Sent-refused msg r o e e' = record {
    stored = rw e (sym (append-nil (contents r)));
    back = rw e e';
    same_capacity = refl;
  }

  after_wait-Sent :
      (msg : A) (w : Winner) (c : Channel b s)
      → Sent msg c.ring (after_wait b s msg w c).0 (after_wait b s msg w c).1.ring
  unfolding after_wait is_sent
  after_wait-Sent msg shutdown c = Sent-refused msg c.ring (closed msg) refl refl
  after_wait-Sent msg timer c = Sent-refused msg c.ring (timeout msg) refl refl
  after_wait-Sent msg operation c = elim (push_cases msg c.ring) [
    | inl (r', room, e, q, k) ↦
        let same : after_wait b s msg operation c ≡ (success, record c { ring = r' }) =
          ground arith in
        rw same (Sent-success msg c.ring r' q k)
    | inr (full, e) ↦
        let same : after_wait b s msg operation c ≡ (closed msg, c) = ground arith in
        rw same (Sent-refused msg c.ring (closed msg) refl refl)
  ]

  core_room :
      (msg : A) (saturation : SendSaturation) (woken : Woken b s) (c : Channel b s) (r : Ring)
      → try_push msg c.ring ≡ some r
      → send_async_core b s msg saturation woken c ≡ (success, record c { ring = r })
  unfolding send_async_core
  core_room msg saturation woken c r e = ground arith

  core_blocked :
      (msg : A) (woken : Woken b s) (c : Channel b s)
      → try_push msg c.ring ≡ none
      → send_async_core b s msg return_blocked_msg woken c ≡ (blocked msg, c)
  unfolding send_async_core
  core_blocked msg woken c e = ground arith

  core_waits :
      (msg : A) (saturation : SendSaturation) (woken : Woken b s) (c : Channel b s)
      → try_push msg c.ring ≡ none
      → saturation ≢ return_blocked_msg
      → send_async_core b s msg saturation woken c
        ≡ after_wait b s msg woken.winner
            (record c { ring = woken.ring; tx_shutdown = woken.signal })
  unfolding send_async_core
  core_waits msg return_blocked_msg woken c e ne = absurd (ne refl)
  core_waits msg _ woken c e ne = rw (e, send_async_core) refl

  -- An asynchronous send into a channel with room succeeds at once. Into a full one it hands the
  -- message back if it is told not to wait, and otherwise acts on the ring that its wait leaves. In
  -- every case the message is stored once, at the back, or comes back to the caller, and never both.
  pub send_async_core_lem :
      (msg : A) (saturation : SendSaturation) (woken : Woken b s) (c : Channel b s)
      → let (o, c') = send_async_core b s msg saturation woken c in
        (length (contents c.ring) < capacity c.ring → (o ≡ success) × Sent msg c.ring o c'.ring)
        × (length (contents c.ring) ≡ capacity c.ring
            → saturation ≡ return_blocked_msg
            → (o ≡ blocked msg) × Sent msg c.ring o c'.ring)
        × (length (contents c.ring) ≡ capacity c.ring
            → saturation ≢ return_blocked_msg
            → Sent msg woken.ring o c'.ring)
  unfolding is_sent
  send_async_core_lem msg saturation woken c = elim (push_cases msg c.ring) [
    | inl (r, room, e, q, k) ↦ rw (core_room msg saturation woken c r e) (
      λ h. (refl, Sent-success msg c.ring r q k),
      λ h sat. absurd (omega arith),
      λ h sat. absurd (omega arith),
    )
    | inr (full, e) ↦ (
      λ h. absurd (omega arith),
      λ h sat.
          rw sat (
            rw (core_blocked msg woken c e)
              (refl, Sent-refused msg c.ring (blocked msg) refl refl)),
      λ h sat. rw (core_waits msg saturation woken c e sat) (
          after_wait-Sent msg woken.winner
            (record c { ring = woken.ring; tx_shutdown = woken.signal })),
    )
  ]

  -- A closed channel is reported as closed and empty exactly when it has been drained. The report moves
  -- nothing in the ring, and a second one at once says yes again if the first did.
  pub closed_lem :
      (c : Channel b s)
      → c.make_closed ≡ true
      → is_terminated (fire c.is_closed) ≡ false
      → let d = mark_closed b s c in
        let (answer, d') = is_closed_and_empty b s d in
        ((answer ≡ true) ↔ (occupied_len d.ring ≡ 0))
        × (d'.ring ≡ c.ring)
        × (answer ≡ true → (is_closed_and_empty b s d').0 ≡ true)
  unfolding mark_closed is_closed_and_empty
  closed_lem c open_ live =
      let ready = fired_ready c.is_closed live in
      let ended = ready_terminated (fire c.is_closed) ready in
      (
        (λ h. ground arith, λ h. ground (arith, ready)),
        ground arith,
        λ h. ground (arith, ready, ended),
      )
