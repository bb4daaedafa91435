-- ===== src/Channel/Concrete.antt =====
-- A concrete ring and a concrete signal, which keep the laws of `Channel.Ring`.
use native.Mathlib.Nat.{mod-lt}
use steady_state_stack.Common.{
  Bool, List, Option, [], ap, arith, drop, false, get_elem?, if◌then◌else◌, length, length-append,
  length-drop, length-replicate, length-take, ltb, lt→ltb, min, none, refl, replicate, some, suc,
  take, take-append-drop, true, zero, ℕ, ◌%◌, ◌*◌, ◌++◌, ◌+◌, ◌-◌, ◌<◌, ◌∙◌, ◌∷◌, ◌≡◌, ◌≤◌,
}
use steady_state_stack.Channel.{Channel}
use steady_state_stack.Channel.Ring.{OneShots, RingBuffer}

-- A list with a capacity of `spare + 1`, started at slot `start`.
pub record Fifo : Type 0 where
  pub spare : ℕ
  pub start : ℕ
  pub items : List ℕ

abbrev pub cap : Fifo → ℕ
cap f = suc f.spare

abbrev pub held : Fifo → List ℕ
held f = take (cap f) f.items

abbrev pub free : Fifo → ℕ
free f = cap f - length (held f)

abbrev pub put_all : List ℕ → Fifo → ℕ × Fifo
put_all xs f = let n = min (length xs) (free f) in (n, record f { items = held f ++ take n xs })

abbrev pub pop : Fifo → Option (ℕ × Fifo)
pop f = elim (held f) [
  | [] ↦ none
  | a ∷ rest ↦ some (a, record f { items = rest; start = f.start + 1 })
]

pub held_short : (n : ℕ) (xs : List ℕ) → length xs ≤ n → take n xs ≡ xs
held_short zero [] h = refl
held_short zero (x ∷ xs) h = absurd (omega arith)
held_short (suc n) [] h = refl
held_short (suc n) (x ∷ xs) h = ap (λ ys. x ∷ ys) (held_short n xs (omega arith))

pub held-put_all :
    (xs : List ℕ) (f : Fifo) → held (put_all xs f).1 ≡ held f ++ take (put_all xs f).0 xs
held-put_all xs f = held_short (cap f) (held f ++ take (min (length xs) (free f)) xs) (
    omega (
      arith,
      length-append (held f) (take (min (length xs) (free f)) xs),
      length-take (min (length xs) (free f)) xs,
      length-take (cap f) f.items,
    ))

abbrev pub push_one : ℕ → Fifo → Option Fifo
push_one a f =
    if ltb (length (held f)) (cap f) then some (record f { items = held f ++ a ∷ [] }) else none

pub push_one_room :
    (a : ℕ) (f : Fifo)
    → length (held f) < cap f
    → (f' : Fifo) × (push_one a f ≡ some f') × (held f' ≡ held f ++ a ∷ []) × (cap f' ≡ cap f)
push_one_room a f h = (
  record f { items = held f ++ a ∷ [] },
  rw (lt→ltb _ _ h) refl,
  held_short (cap f) (held f ++ a ∷ []) (omega (arith, length-append (held f) (a ∷ []))),
  refl,
)

pub push_one_full : (a : ℕ) (f : Fifo) → length (held f) ≡ cap f → push_one a f ≡ none
push_one_full a f h = ground arith

pub put_all_lem :
    (xs : List ℕ) (f : Fifo)
    → ((put_all xs f).0 ≡ min (length xs) (free f))
      × (held (put_all xs f).1 ≡ held f ++ take (put_all xs f).0 xs)
      × (cap (put_all xs f).1 ≡ cap f)
put_all_lem xs f = (refl, held-put_all xs f, refl)

pub pop_nothing : (f : Fifo) → held f ≡ [] → pop f ≡ none
pop_nothing f h = ground arith

pub pop_oldest :
    (a : ℕ) (rest : List ℕ) (f : Fifo)
    → held f ≡ a ∷ rest
    → (f' : Fifo) × (pop f ≡ some (a, f')) × (held f' ≡ rest) × (cap f' ≡ cap f)
pop_oldest a rest f h = (
  record f { items = rest; start = f.start + 1 },
  ground arith,
  held_short (cap f) rest (omega (arith, ap length h, length-take (cap f) f.items)),
  refl,
)

abbrev pub skip_front : ℕ → Fifo → Fifo
skip_front n f = record f { items = drop n (held f); start = f.start + n }

pub skip_front_lem :
    (n : ℕ) (f : Fifo)
    → n ≤ length (held f)
    → (held (skip_front n f) ≡ drop n (held f)) × (cap (skip_front n f) ≡ cap f)
skip_front_lem n f h = (
  held_short (cap f) (drop n (held f))
      (omega (arith, length-drop n (held f), length-take (cap f) f.items)),
  refl,
)

-- The free slots hold zeros until they are written.
abbrev pub slots : Fifo → List ℕ
slots f = replicate (free f) 0

pub publish_lem :
    (n : ℕ) (f : Fifo)
    → n ≤ free f
    → (held (put_all (take n (slots f)) f).1 ≡ held f ++ take n (slots f))
      × (cap (put_all (take n (slots f)) f).1 ≡ cap f)
publish_lem n f h = (
  held-put_all (take n (slots f)) f
      ∙ ap (λ xs. held f ++ xs)
          (held_short (put_all (take n (slots f)) f).0 (take n (slots f))
            (omega (arith, length-take n (slots f), length-replicate {A = ℕ} (free f) 0))),
  refl,
)

pub zero_lt_cap : (f : Fifo) → 0 < cap f
zero_lt_cap f = omega arith

pub held_fits : (f : Fifo) → length (held f) ≤ cap f
held_fits f = omega (arith, length-take (cap f) f.items)

pub index_bound : (f : Fifo) → f.start % (2 * cap f) < 2 * cap f
index_bound f = mod-lt f.start {m = 2 * cap f} (omega arith)

abbrev pub ring : RingBuffer ℕ
ring = record {
  Ring = Fifo;
  contents = held;
  vacant_slots = slots;
  capacity = cap;
  read_index = λ f. f.start % (2 * cap f);
  write_index = λ f. (f.start % (2 * cap f) + length (held f)) % (2 * cap f);
  occupied_len = λ f. length (held f);
  vacant_len = free;
  try_push = push_one;
  push_iter = put_all;
  push_slice = put_all;
  advance_write_index = λ n f. (put_all (take n (slots f)) f).1;
  try_pop = pop;
  first = λ f. get_elem? (held f) 0;
  as_slices = λ f. (take 1 (held f), drop 1 (held f));
  advance_read_index = skip_front;
  capacity_pos = λ f. zero_lt_cap f;
  fits = λ f. held_fits f;
  read_bound = λ f. index_bound f;
  write_law = λ f. refl;
  occupied_law = λ f. refl;
  vacant_law = λ f. refl;
  slots_law = λ f. length-replicate {A = ℕ} (free f) 0;
  push_room = push_one_room;
  push_full = push_one_full;
  push_iter_law = put_all_lem;
  push_slice_law = put_all_lem;
  advance_write_law = publish_lem;
  pop_empty = pop_nothing;
  pop_some = pop_oldest;
  first_law = λ f. refl;
  slices_law = λ f. take-append-drop 1 (held f);
  advance_read_law = skip_front_lem;
}

-- A signal that has fired or not, and has been seen or not.
pub data Signal : Type 0 where
  quiet fired seen : Signal

abbrev pub ended : Signal → Bool
ended seen = true
ended quiet = false
ended fired = false

abbrev pub look : Signal → Bool × Signal
look quiet = (false, quiet)
look fired = (true, seen)
look seen = (true, seen)

abbrev pub set_off : Signal → Signal
set_off quiet = fired
set_off fired = fired
set_off seen = seen

pub set_off_ready : (o : Signal) → ended (set_off o) ≡ false → (look (set_off o)).0 ≡ true
set_off_ready quiet h = refl
set_off_ready fired h = refl
set_off_ready seen h = refl

pub look_ends : (o : Signal) → (look o).0 ≡ true → ended (look o).1 ≡ true
look_ends quiet h = cc
look_ends fired h = refl
look_ends seen h = refl

abbrev pub signals : OneShots
signals = record {
  OneShot = Signal;
  is_terminated = ended;
  poll = look;
  fire = set_off;
  fired_ready = set_off_ready;
  ready_terminated = look_ends;
}

abbrev pub channel_of : ℕ → List ℕ → Channel ring signals
channel_of spare items = record {
  ring = record { spare = spare; start = 5; items = items };
  make_closed = true;
  is_closed = quiet;
  tx_shutdown = quiet;
  rx_shutdown = quiet;
  tx_last_error_send = 0;
  rx_last_error_send = 0;
  tx_monitor_index = 0;
  rx_monitor_index = 0;
  take_count = 0;
  cached_take_count = 0;
  peek_repeats = 0;
}
