-- ===== src/Stream/Tests.antt =====
-- The stream theorems over the concrete rings of the channel's tests.
use steady_state_stack.Stream.Consume.{consume_messages}
use steady_state_stack.Stream.Defrag.{Defrag, flush_defrag_messages}
use steady_state_stack.Stream.Defragmented.{HoldsDefrag, flush_defrag_messages_lem}
use steady_state_stack.Stream.Consumed.{consume_messages_lem}
use steady_state_stack.Common.{
  Bool, List, [], arith, done, length, none, refl, some, true, ℕ, ◌++◌, ◌<◌, ◌∷◌, ◌≡◌, ◌≤◌, ◌⊎◌,
}
use steady_state_stack.Stream.Tx.{try_send, vacant_units_for}
use steady_state_stack.Stream.Rx.{try_take}
use steady_state_stack.Stream.Frames.{Holds, stream_try_send_lem, stream_try_take_lem}
use steady_state_stack.Stream.{Stream}
use steady_state_stack.Channel.Concrete.{channel_of, ring, signals}

-- An item is its own length. One message of two bytes is on its way.
abbrev flowing : Stream ring ring signals
flowing = record { control = channel_of 2 (2 ∷ []); payload = channel_of 3 (70 ∷ 71 ∷ []) }

flowing-Holds : Holds (λ i. i) ring ring signals flowing ((2, 70 ∷ 71 ∷ []) ∷ [])
flowing-Holds = record { items = refl; bytes = refl; framed = (refl, tt) }

stream_try_send_lem_example :
    ((1 ≤ 2)
      × (0 < 2)
      × ((c' : Stream ring ring signals) × (try_send (λ i. i) ring ring signals (1, 72 ∷ []) flowing
            ≡ done (none, c'))
          × Holds (λ i. i) ring ring signals c' ((2, 70 ∷ 71 ∷ []) ∷ (1, 72 ∷ []) ∷ [])))
    ⊎ (¬ ((1 ≤ 2) × (0 < 2))
        × (try_send (λ i. i) ring ring signals (1, 72 ∷ []) flowing ≡ done (some 1, flowing)))
stream_try_send_lem_example =
    stream_try_send_lem (λ i. i) ring ring signals 1 (72 ∷ []) flowing ((2, 70 ∷ 71 ∷ []) ∷ []) refl
      refl (omega arith) refl flowing-Holds

abbrev one_message : List (ℕ × List ℕ)
one_message = (2, 70 ∷ 71 ∷ []) ∷ []

stream_try_take_lem_example :
    ((one_message ≡ []) × (try_take (λ i. i) ring ring signals flowing ≡ (none, flowing)))
    ⊎ ((m : ℕ × List ℕ) × (rest : List (ℕ × List ℕ)) × (c' : Stream ring ring signals)
        × (one_message ≡ m ∷ rest)
        × (try_take (λ i. i) ring ring signals flowing ≡ (some m, c'))
        × Holds (λ i. i) ring ring signals c' rest)
stream_try_take_lem_example =
    stream_try_take_lem (λ i. i) ring ring signals flowing one_message (omega arith) flowing-Holds

-- Room for two items but no bytes is taken for room for one item and nine bytes.
no_room_for_bytes :
    vacant_units_for
      (λ i. i)
      ring
      ring
      signals
      (record { control = channel_of 2 (2 ∷ []); payload = channel_of 1 (70 ∷ 71 ∷ []) })
      (1, 9)
    ≡ true
unfolding vacant_units_for
no_room_for_bytes = refl

-- The lengths of the payloads that were shown, in turn, without end.
abbrev note_length : List ℕ → List ℕ → List ℕ → Bool × List ℕ
note_length lengths a b = (true, length (a ++ b) ∷ lengths)

abbrev note_whole : List ℕ → List ℕ → Bool × List ℕ
note_whole lengths bytes = (true, length bytes ∷ lengths)

consume_messages_lem_example :
    (left : Stream ring ring signals) × (consume_messages
        (λ i. i)
        ring
        ring
        signals
        9
        note_length
        []
        flowing
      ≡ done (2 ∷ [], left))
    × Holds (λ i. i) ring ring signals left []
consume_messages_lem_example =
    consume_messages_lem (λ i. i) ring ring signals 9 note_length note_whole (λ lengths a b. refl)
      flowing one_message flowing-Holds []

-- Two messages are complete, of one byte and of two, and a third has begun.
abbrev gathering : Defrag ring ring
gathering = record {
  arrival = some 8;
  finish = none;
  session_id = 6;
  running_length = 1;
  ringbuffer_items = record { spare = 3; start = 0; items = 1 ∷ 2 ∷ [] };
  ringbuffer_bytes = record { spare = 7; start = 0; items = 80 ∷ 81 ∷ 82 ∷ 83 ∷ [] };
}

gathering-HoldsDefrag :
    HoldsDefrag
      (λ i. i)
      ring
      ring
      signals
      gathering
      ((1, 80 ∷ []) ∷ (2, 81 ∷ 82 ∷ []) ∷ [])
      (83 ∷ [])
gathering-HoldsDefrag = record {
  items = refl;
  bytes = refl;
  framed = (refl, (refl, tt));
  running = refl;
}

-- There are two bytes of room, so the second message stays.
flush_defrag_messages_lem_example :
    (left : Defrag ring ring) × (filled : Stream ring ring signals) × (flush_defrag_messages
        (λ i. i)
        ring
        ring
        signals
        flowing
        gathering
      ≡ done ((1, 1, some 6), left, filled))
    × HoldsDefrag (λ i. i) ring ring signals left ((2, 81 ∷ 82 ∷ []) ∷ []) (83 ∷ [])
    × Holds (λ i. i) ring ring signals filled ((2, 70 ∷ 71 ∷ []) ∷ (1, 80 ∷ []) ∷ [])
flush_defrag_messages_lem_example =
    flush_defrag_messages_lem (λ i. i) ring ring signals flowing gathering one_message
      ((1, 80 ∷ []) ∷ (2, 81 ∷ 82 ∷ []) ∷ []) (83 ∷ []) refl refl flowing-Holds
      gathering-HoldsDefrag
