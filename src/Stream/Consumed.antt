-- ===== src/Stream/Consumed.antt =====
-- What `consume_messages` of core/src/distributed/aqueduct_stream_rx.rs leaves in the stream.
use mathlib.Core.Bool.{true≢false}
use mathlib.Core.List.{append-nil}
use steady_state_stack.Stream.Frames.{Holds, bytes_of}
use steady_state_stack.Stream.Consume.{Progress, consume_messages, consume_slice, unless_left}
use steady_state_stack.Stream.Delivery.{IsLeft, IsOver, consume_slice_lem, deliver, split_items}
use steady_state_stack.Channel.Ring.{OneShots, RingBuffer}
use steady_state_stack.Channel.Rx.{rx_advance_index}
use steady_state_stack.Channel.{Channel}
use steady_state_stack.Stream.{Stream}
use steady_state_stack.Common.{
  Bool, List, Outcome, [], ap, arith, done, drop, false, inl, inr, length, ltb, refl, subst, sym,
  true, ℕ, ◌++◌, ◌>>=◌, ◌∙◌, ◌≡◌, ◌≤◌,
}

-- As many items as there are can be taken from a channel.
advanced_contents :
    {A : Type 0} (r : RingBuffer A) (s : OneShots) (n : ℕ) (c : Channel r s)
    → n ≤ length (r.contents c.ring)
    → r.contents (rx_advance_index r s n c).1.ring ≡ drop n (r.contents c.ring)
unfolding rx_advance_index
advanced_contents r s n c le =
    let enough : ltb (r.occupied_len c.ring) n ≡ false = ground (arith, r.occupied_law c.ring) in
    rw enough (r.advance_read_law n c.ring le).0

module _ {P : Type 0} where
  on_stop :
      (stopped : Bool) (g : P) (k : P → Outcome (Bool × P))
      → stopped ≡ true
      → unless_left k (stopped, g) ≡ done (stopped, g)
  on_stop true g k h = refl
  on_stop false g k h = absurd (true≢false (sym h))

  on_go :
      (stopped : Bool) (g : P) (k : P → Outcome (Bool × P))
      → stopped ≡ false
      → unless_left k (stopped, g) ≡ k g
  on_go true g k h = absurd (true≢false h)
  on_go false g k h = refl

module _ {Item F : Type 0} (len : Item → ℕ) (b : RingBuffer Item) (p : RingBuffer ℕ) (s : OneShots)
    (byte_limit : ℕ) (fun : F → List ℕ → List ℕ → Bool × F) (show : F → List ℕ → Bool × F)
    (whole : (seen : F) (a d : List ℕ) → fun seen a d ≡ show seen (a ++ d)) (c : Stream b p s)
    (messages : List (Item × List ℕ)) (holds : Holds len b p s c messages) where
  abbrev payload1 : List ℕ
  payload1 = (p.as_slices c.payload.ring).0

  abbrev payload2 : List ℕ
  payload2 = (p.as_slices c.payload.ring).1

  payload_both : payload1 ++ payload2 ≡ bytes_of messages
  payload_both = p.slices_law c.payload.ring ∙ holds.bytes

  abbrev walked : Progress F → Stream b p s
  walked g = record {
    payload = (rx_advance_index p s g.active_data c.payload).1;
    control = (rx_advance_index b s g.active_items c.control).1;
  }

  walked-Holds :
      (g : Progress F) (rest : List (Item × List ℕ))
      → IsLeft len byte_limit fun show whole payload1 payload2 messages payload_both g rest
      → Holds len b p s (walked g) rest
  walked-Holds g rest h = record {
    items =
        advanced_contents b s g.active_items c.control
          (omega (arith, ap length holds.items, h.item_count))
        ∙ ap (drop g.active_items) holds.items
        ∙ h.items;
    bytes =
        advanced_contents p s g.active_data c.payload
          (omega (arith, ap length holds.bytes, h.byte_count))
        ∙ ap (drop g.active_data) holds.bytes
        ∙ h.bytes;
    framed = h.framed;
  }

  abbrev at_start : F → Progress F
  at_start seen = record {
    cursor = record { on_first = true; active_index = 0 };
    active_items = 0;
    active_data = 0;
    seen = seen;
  }

  abbrev walk : List Item → Progress F → Outcome (Bool × Progress F)
  walk = consume_slice len byte_limit fun payload1 payload2

  abbrev Left : Progress F → List (Item × List ℕ) → Type 0
  Left = IsLeft len byte_limit fun show whole payload1 payload2 messages payload_both

  -- Both loops together come to what `deliver` says.
  loops_lem :
      (seen : F)
      → (last : Bool × Progress F) × (rest : List (Item × List ℕ)) × ((walk
              (b.as_slices c.control.ring).0
              (at_start seen)
            >>= unless_left (walk (b.as_slices c.control.ring).1))
          ≡ done last)
        × Left last.1 rest
        × (deliver byte_limit show 0 seen messages ≡ (last.1.seen, rest))
  unfolding IsOver
  loops_lem seen =
      let (now, more, parts, first, second) =
        split_items (b.as_slices c.control.ring).0 (b.as_slices c.control.ring).1 messages
          (b.slices_law c.control.ring ∙ holds.items) in
      let start : Left (at_start seen) (now ++ more) = subst (Left (at_start seen)) parts (record {
        bytes = refl;
        items = refl;
        byte_count = omega arith;
        item_count = omega arith;
        framed = holds.framed;
      }) in
      let (stopped, after, run, over) =
        consume_slice_lem len byte_limit fun show whole payload1 payload2 messages payload_both now
          more (at_start seen) start (refl, omega arith) in
      let whole_run : walk (b.as_slices c.control.ring).0 (at_start seen) ≡ done (stopped, after) =
        subst (λ is. walk is (at_start seen) ≡ done (stopped, after)) first run in
      let delivered : deliver byte_limit show 0 seen messages
          ≡ deliver byte_limit show 0 seen (now ++ more) =
        ap (deliver byte_limit show 0 seen) parts in
      elim over [
        | inl early ↦
            let (stop, rest, left, expected) = early in
            (
              (stopped, after),
              rest,
              rw whole_run (on_stop stopped after (walk (b.as_slices c.control.ring).1) stop),
              left,
              delivered ∙ expected,
            )
        | inr on ↦
            let (goes, left, place, expected) = on in
            let (stopped', after', run', over') =
              consume_slice_lem len byte_limit fun show whole payload1 payload2 messages
                payload_both more [] after (subst (Left after) (sym (append-nil more)) left)
                place in
            let run_on : walk (b.as_slices c.control.ring).1 after ≡ done (stopped', after') =
              subst (λ is. walk is after ≡ done (stopped', after')) second run' in
            let delivered' : deliver byte_limit show 0 seen messages
                ≡ deliver byte_limit show after.active_data after.seen (more ++ []) =
              delivered
              ∙ expected
              ∙ ap (deliver byte_limit show after.active_data after.seen) (sym (append-nil more)) in
            elim over' [
              | inl early ↦
                  let (stop, rest, left', expected') = early in
                  (
                    (stopped', after'),
                    rest,
                    rw whole_run
                        (on_go stopped after (walk (b.as_slices c.control.ring).1) goes ∙ run_on),
                    left',
                    delivered' ∙ expected',
                  )
              | inr through ↦
                  let (goes', left', place', expected') = through in
                  (
                    (stopped', after'),
                    [],
                    rw whole_run
                        (on_go stopped after (walk (b.as_slices c.control.ring).1) goes ∙ run_on),
                    left',
                    delivered' ∙ expected',
                  )
            ]
      ]

  -- The messages of a stream are shown in order, each payload whole, until the bytes pass the limit or
  -- the function says that it has enough, which it must decide by the payload however it is cut in two.
  -- Nothing panics, the function has seen just that, and the stream holds the messages that are left.
  pub consume_messages_lem :
      (seen : F)
      → (after : Stream b p s) × (consume_messages len b p s byte_limit fun seen c
          ≡ done ((deliver byte_limit show 0 seen messages).0, after))
        × Holds len b p s after (deliver byte_limit show 0 seen messages).1
  unfolding consume_messages
  consume_messages_lem seen =
      let (last, rest, run, left, expected) = loops_lem seen in
      (
        walked last.1,
        rw run (ap (λ r. done (r.0, walked last.1)) (sym expected)),
        subst (λ r. Holds len b p s (walked last.1) r.1) (sym expected)
            (walked-Holds last.1 rest left),
      )
