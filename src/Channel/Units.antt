-- ===== src/Channel/Units.antt =====
-- The free and the used units, which both ends compute from the ring's two indices
-- (`shared_vacant_units` of core/src/core_tx.rs, `shared_avail_units` of core/src/core_rx.rs).
use native.Mathlib.Nat.{mod-eq_of_lt, mod-eq-sub-mod}
use steady_state_stack.Common.{
  arith, dec_lt, done, inl, inr, length, ℕ, ◌%◌, ◌*◌, ◌+◌, ◌-◌, ◌<◌, ◌≡◌, ◌≤◌, ◌⊎◌,
}
use steady_state_stack.Channel.Ring.{OneShots, RingBuffer}
use steady_state_stack.Channel.Rx.{avail_units}
use steady_state_stack.Channel.{Channel, vacant_units}

-- Where the writer stands: ahead of the reader, or wrapped.
wrap_cases :
    (cap read len : ℕ)
    → len ≤ cap
    → read < 2 * cap
    → ((read + len) % (2 * cap) ≡ read + len) ⊎ (((read + len) % (2 * cap)) + 2 * cap ≡ read + len)
wrap_cases cap read len h k = elim (dec_lt (read + len) (2 * cap)) [
  | yes p ↦ inl (mod-eq_of_lt p)
  | no p ↦ inr (
      omega (
        arith,
        mod-eq-sub-mod {n = read + len} {m = 2 * cap} (omega arith),
        mod-eq_of_lt {n = read + len - 2 * cap} {m = 2 * cap} (omega arith),
      ))
]

vacant_index :
    (cap read len write : ℕ)
    → 0 < cap
    → len ≤ cap
    → read < 2 * cap
    → write ≡ (read + len) % (2 * cap)
    → (write ≤ cap + read) × ((cap + read - write) % (2 * cap) ≡ cap - len)
vacant_index cap read len write pos h k w = elim (wrap_cases cap read len h k) [
  | inl e ↦ (
    omega arith,
    let d : cap + read - write ≡ cap - len = omega arith in
        rw d (mod-eq_of_lt {n = cap - len} {m = 2 * cap} (omega arith)),
  )
  | inr e ↦ (
    omega arith,
    let d : cap + read - write ≡ 2 * cap + (cap - len) = omega arith in
        rw d (
          omega (
            arith,
            mod-eq-sub-mod {n = 2 * cap + (cap - len)} {m = 2 * cap} (omega arith),
            mod-eq_of_lt {n = 2 * cap + (cap - len) - 2 * cap} {m = 2 * cap} (omega arith),
          )),
  )
]

avail_index :
    (cap read len write : ℕ)
    → 0 < cap
    → len ≤ cap
    → read < 2 * cap
    → write ≡ (read + len) % (2 * cap)
    → (read ≤ 2 * cap + write) × ((2 * cap + write - read) % (2 * cap) ≡ len)
avail_index cap read len write pos h k w = elim (wrap_cases cap read len h k) [
  | inl e ↦ (
    omega arith,
    let d : 2 * cap + write - read ≡ 2 * cap + len = omega arith in
        rw d (
          omega (
            arith,
            mod-eq-sub-mod {n = 2 * cap + len} {m = 2 * cap} (omega arith),
            mod-eq_of_lt {n = 2 * cap + len - 2 * cap} {m = 2 * cap} (omega arith),
          )),
  )
  | inr e ↦ (
    omega arith,
    let d : 2 * cap + write - read ≡ len = omega arith in
        rw d (mod-eq_of_lt {n = len} {m = 2 * cap} (omega arith)),
  )
]

module _ {A : Type 0} (b : RingBuffer A) (s : OneShots) where
  open b use {
    Ring, contents, capacity, read_index, write_index, occupied_len, vacant_len, capacity_pos, fits,
    read_bound, write_law, occupied_law, vacant_law,
  }

  -- The free units computed from the indices never panic, and are the free slots of the ring.
  pub vacant_units_lem : (c : Channel b s) → vacant_units b s c ≡ done (vacant_len c.ring)
  unfolding vacant_units
  vacant_units_lem c = ground (
    arith,
    vacant_index (capacity c.ring) (read_index c.ring) (length (contents c.ring))
        (write_index c.ring) (capacity_pos c.ring) (fits c.ring) (read_bound c.ring)
        (write_law c.ring),
    vacant_law c.ring,
  )

  -- The used units computed from the indices never panic, and are the occupied slots of the ring.
  pub avail_units_lem : (c : Channel b s) → avail_units b s c ≡ done (occupied_len c.ring)
  unfolding avail_units
  avail_units_lem c = ground (
    arith,
    avail_index (capacity c.ring) (read_index c.ring) (length (contents c.ring))
        (write_index c.ring) (capacity_pos c.ring) (fits c.ring) (read_bound c.ring)
        (write_law c.ring),
    occupied_law c.ring,
    fits c.ring,
  )

  -- Both ends agree: the free and the used units make up the capacity.
  pub units_add_up :
      (c : Channel b s)
      → (v : ℕ) × (a : ℕ) × (vacant_units b s c ≡ done v)
        × (avail_units b s c ≡ done a)
        × (v + a ≡ capacity c.ring)
  units_add_up c = (
    vacant_len c.ring,
    occupied_len c.ring,
    vacant_units_lem c,
    avail_units_lem c,
    omega (arith, vacant_law c.ring, occupied_law c.ring, fits c.ring),
  )
