-- ===== src/Channel/Ring.antt =====
-- What the channels rely on of the crates they do not implement: the ring buffer (`async_ringbuf`,
-- `ringbuf`) and the one-shot signal (`futures::channel::oneshot`).
use steady_state_stack.Common.{
  Bool, List, Option, [], drop, false, get_elem?, length, min, none, some, take, true, ℕ, ◌%◌, ◌*◌,
  ◌++◌, ◌+◌, ◌-◌, ◌<◌, ◌∷◌, ◌≡◌, ◌≤◌,
}

-- `contents` are the occupied slots, oldest first, and `vacant_slots` the free ones in the order in
-- which they will be written. `try_push` gives `none` when the item comes back.
pub record RingBuffer (A : Type 0) : Type 1 where
  pub Ring : Type 0
  pub contents : Ring → List A
  pub vacant_slots : Ring → List A
  pub capacity : Ring → ℕ
  pub read_index : Ring → ℕ
  pub write_index : Ring → ℕ
  pub occupied_len : Ring → ℕ
  pub vacant_len : Ring → ℕ
  pub try_push : A → Ring → Option Ring
  pub push_iter : List A → Ring → ℕ × Ring
  pub push_slice : List A → Ring → ℕ × Ring
  pub advance_write_index : ℕ → Ring → Ring
  pub try_pop : Ring → Option (A × Ring)
  pub first : Ring → Option A
  pub as_slices : Ring → List A × List A
  pub advance_read_index : ℕ → Ring → Ring
  pub capacity_pos : (r : Ring) → 0 < capacity r
  pub fits : (r : Ring) → length (contents r) ≤ capacity r
  pub read_bound : (r : Ring) → read_index r < 2 * capacity r
  pub write_law :
      (r : Ring) → write_index r ≡ (read_index r + length (contents r)) % (2 * capacity r)
  pub occupied_law : (r : Ring) → occupied_len r ≡ length (contents r)
  pub vacant_law : (r : Ring) → vacant_len r ≡ capacity r - length (contents r)
  pub slots_law : (r : Ring) → length (vacant_slots r) ≡ vacant_len r
  pub push_room :
      (a : A) (r : Ring)
      → length (contents r) < capacity r
      → (r' : Ring) × (try_push a r ≡ some r')
        × (contents r' ≡ contents r ++ a ∷ [])
        × (capacity r' ≡ capacity r)
  pub push_full : (a : A) (r : Ring) → length (contents r) ≡ capacity r → try_push a r ≡ none
  pub push_iter_law :
      (xs : List A) (r : Ring)
      → ((push_iter xs r).0 ≡ min (length xs) (vacant_len r))
        × (contents (push_iter xs r).1 ≡ contents r ++ take (push_iter xs r).0 xs)
        × (capacity (push_iter xs r).1 ≡ capacity r)
  pub push_slice_law :
      (xs : List A) (r : Ring)
      → ((push_slice xs r).0 ≡ min (length xs) (vacant_len r))
        × (contents (push_slice xs r).1 ≡ contents r ++ take (push_slice xs r).0 xs)
        × (capacity (push_slice xs r).1 ≡ capacity r)
  pub advance_write_law :
      (n : ℕ) (r : Ring)
      → n ≤ vacant_len r
      → (contents (advance_write_index n r) ≡ contents r ++ take n (vacant_slots r))
        × (capacity (advance_write_index n r) ≡ capacity r)
  pub pop_empty : (r : Ring) → contents r ≡ [] → try_pop r ≡ none
  pub pop_some :
      (a : A) (rest : List A) (r : Ring)
      → contents r ≡ a ∷ rest
      → (r' : Ring) × (try_pop r ≡ some (a, r')) × (contents r' ≡ rest) × (capacity r' ≡ capacity r)
  pub first_law : (r : Ring) → first r ≡ get_elem? (contents r) 0
  pub slices_law : (r : Ring) → (as_slices r).0 ++ (as_slices r).1 ≡ contents r
  pub advance_read_law :
      (n : ℕ) (r : Ring)
      → n ≤ length (contents r)
      → (contents (advance_read_index n r) ≡ drop n (contents r))
        × (capacity (advance_read_index n r) ≡ capacity r)

-- The receiving end of a one-shot: `poll` tells whether it is ready and leaves the receiver, `fire` is
-- what sending or dropping the sender does to it.
pub record OneShots : Type 1 where
  pub OneShot : Type 0
  pub is_terminated : OneShot → Bool
  pub poll : OneShot → Bool × OneShot
  pub fire : OneShot → OneShot
  pub fired_ready : (o : OneShot) → is_terminated (fire o) ≡ false → (poll (fire o)).0 ≡ true
  pub ready_terminated : (o : OneShot) → (poll o).0 ≡ true → is_terminated (poll o).1 ≡ true
