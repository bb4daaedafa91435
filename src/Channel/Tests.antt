-- ===== src/Channel/Tests.antt =====
-- The channel theorems at a concrete ring and signal.
use steady_state_stack.Common.{
  Bool, List, [], done, leb, length, refl, some, true, ℕ, ◌++◌, ◌+◌, ◌<◌, ◌↔◌, ◌∷◌, ◌≡◌, ◌≢◌, ◌≤◌,
}
use steady_state_stack.Channel.{
  Channel, Winner, Woken, await_for_room, blocked, mark_closed, operation, return_blocked_msg,
  send_async_core, send_slice, success, try_send, vacant_units, wait_vacant_units,
}
use steady_state_stack.Channel.Rx.{avail_units, is_closed_and_empty, take_slice, try_take}
use steady_state_stack.Channel.Units.{units_add_up}
use steady_state_stack.Channel.Fifo.{
  Call, check_closed, close, queue, run, run_fifo, send, send_all, serve, take_many, take_one,
}
use steady_state_stack.Channel.Outcomes.{Sent, closed_lem, send_async_core_lem}
use steady_state_stack.Channel.Concrete.{Fifo, cap, channel_of, free, held, quiet, ring, signals}

-- Capacity three, holding two items.
abbrev two_of_three : Channel ring signals
two_of_three = channel_of 2 (7 ∷ 8 ∷ [])

abbrev drained : Channel ring signals
drained = channel_of 2 []

abbrev later : Winner → List ℕ → Woken ring signals
later w items = record {
  winner = w;
  ring = record { spare = 2; start = 6; items = items };
  signal = quiet;
}

units_add_up_example :
    (v : ℕ) × (a : ℕ) × (vacant_units ring signals two_of_three ≡ done v)
    × (avail_units ring signals two_of_three ≡ done a)
    × (v + a ≡ 3)
units_add_up_example = units_add_up ring signals two_of_three

abbrev calls : List (Call ring signals)
calls = send 1 ∷ send 2 ∷ take_one ∷ send_all (3 ∷ 4 ∷ []) ∷ take_many 5 ∷ close ∷ check_closed ∷ []

run_fifo_example :
    let (sent, taken, c) = run ring signals calls two_of_three in
    (queue ring signals two_of_three ++ sent ≡ taken ++ queue ring signals c)
    × (length (queue ring signals c) ≤ cap c.ring)
    × (cap c.ring ≡ 3)
run_fifo_example = run_fifo ring signals calls two_of_three

-- The second send finds the channel full.
run-calls : (run ring signals calls two_of_three).1 ≡ 7 ∷ 8 ∷ 1 ∷ 3 ∷ []
unfolding run serve try_send try_take send_slice take_slice mark_closed is_closed_and_empty
run-calls = refl

abbrev full : Channel ring signals
full = channel_of 2 (1 ∷ 2 ∷ 3 ∷ [])

send_async_core_lem_example :
    let (o, c) =
      send_async_core ring signals 4 await_for_room (later operation (2 ∷ 3 ∷ [])) full in
    (3 < 3 → (o ≡ success) × Sent ring signals 4 full.ring o c.ring)
    × (3 ≡ cap full.ring
        → await_for_room ≡ return_blocked_msg
        → (o ≡ blocked 4) × Sent ring signals 4 full.ring o c.ring)
    × (3 ≡ cap full.ring
        → await_for_room ≢ return_blocked_msg
        → Sent ring signals 4 (later operation (2 ∷ 3 ∷ [])).ring o c.ring)
send_async_core_lem_example =
    send_async_core_lem ring signals 4 await_for_room (later operation (2 ∷ 3 ∷ [])) full

-- A request for more slots than there are waits for as many as there are.
abbrev is_vacant : ℕ → Fifo → Bool
is_vacant n r = leb n (free r)

capped :
    wait_vacant_units ring signals is_vacant 7 (later operation []) full
    ≡ some (true, record full { ring = (later operation []).ring })
unfolding wait_vacant_units
capped = refl

closed_lem_example :
    let d = mark_closed ring signals drained in
    let (answer, d') = is_closed_and_empty ring signals d in
    ((answer ≡ true) ↔ (length (held d.ring) ≡ 0))
    × (d'.ring ≡ drained.ring)
    × (answer ≡ true → (is_closed_and_empty ring signals d').0 ≡ true)
closed_lem_example = closed_lem ring signals drained refl refl
