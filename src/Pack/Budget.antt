-- ===== src/Pack/Budget.antt =====
-- core/src/actor_builder/slot_budget.rs: how many threads the packer may create. An `i64` is its 64-bit
-- pattern: one from 2 ^ 63 on is negative.
use native.Mathlib.Nat.{div-mul-le_self, le-div_iff_mul-le, lt-div-mul-add, suc-mul}
use text.Mathlib.Text.{◌==◌ as str_eq}
use steady_state_stack.Common.{
  Bool, List, Option, String, [], arith, false, if◌then◌else◌, leb, ltb, max, none, some, subst,
  suc, ℕ, ◌&&◌, ◌*◌, ◌+◌, ◌-◌, ◌/◌, ◌<◌, ◌^◌, ◌∷◌, ◌≡◌, ◌≤◌,
}

-- The standard library and the machine. `ceil_quotient q p` is `((q as f64) / (p as f64)).ceil()` as a
-- `usize`, which is exact at least for numbers of 26 bits: a double has 53.
pub record Platform : Type 0 where
  pub env_var : String → Option String
  pub read_to_string : String → Option String
  pub parse_usize : String → Option ℕ
  pub parse_i64 : String → Option ℕ
  pub trim : String → String
  pub split_whitespace : String → List String
  pub ceil_quotient : ℕ → ℕ → ℕ
  pub available_parallelism : Option ℕ
  pub ceil_exact : (q p : ℕ) → 0 < p → p < 2 ^ 26 → q < 2 ^ 26 → ceil_quotient q p ≡ (q + p - 1) / p

pub data SlotBudget : Type 0 where
  pinned : ℕ → SlotBudget
  detect : SlotBudget

abbrev pub is_positive : ℕ → Bool
is_positive i = ltb 0 i && ltb i (2 ^ 63)

abbrev pub is_negative : ℕ → Bool
is_negative i = leb (2 ^ 63) i

infixl 4 ◌>>=?◌
abbrev ◌>>=?◌ : {A B : Type 0} → Option A → (A → Option B) → Option B
none >>=? f = none
some a >>=? f = f a

-- The rounded-up quotient is the least number of times that `p` covers `q`.
ceil_bounds :
    (q p : ℕ) → 0 < q → 0 < p → (k : ℕ) × ((q + p - 1) / p ≡ suc k) × (k * p < q) × (q ≤ suc k * p)
ceil_bounds q p q_pos p_pos =
    let t = (q + p - 1) / p in
    let k : ℕ = t - 1 in
    let some_core : 1 ≤ t =
      (le-div_iff_mul-le {k = p} {x = 1} {y = q + p - 1} p_pos).1 (omega arith) in
    let e : t ≡ suc k = omega (arith, some_core) in
    let below : suc k * p ≤ q + p - 1 =
      subst (λ x. x * p ≤ q + p - 1) e (div-mul-le_self (q + p - 1) p) in
    let above : q + p - 1 < suc k * p + p =
      subst (λ x. q + p - 1 < x * p + p) e (lt-div-mul-add {a = q + p - 1} {b = p} p_pos) in
    let plus = suc-mul k p in (k, e, omega arith, omega arith)

module _ (m : Platform) where
  open m use {
    env_var, read_to_string, parse_usize, parse_i64, trim, split_whitespace, ceil_quotient,
    available_parallelism, ceil_exact,
  }

  cores : ℕ → ℕ → Option ℕ
  cores q p = if is_positive q && is_positive p then some (max (ceil_quotient q p) 1) else none

  pub parse_cgroup_v2_quota : String → String → Option ℕ
  unfolding cores
  parse_cgroup_v2_quota quota period =
      if str_eq quota "max"
      then none
      else (parse_i64 quota >>=? λ q. parse_i64 period >>=? λ p. cores q p)

  pub parse_cgroup_v1_quota_us : String → String → Option ℕ
  unfolding cores
  parse_cgroup_v1_quota_us quota period = parse_i64 (trim quota) >>=? λ q.
      parse_i64 (trim period) >>=? λ p. if is_negative q then none else cores q p

  v2_limit : List String → Option ℕ
  unfolding parse_cgroup_v2_quota
  v2_limit [] = none
  v2_limit (quota ∷ []) = parse_cgroup_v2_quota quota "100000"
  v2_limit (quota ∷ period ∷ rest) = parse_cgroup_v2_quota quota period

  v1_limit : Option ℕ
  unfolding parse_cgroup_v1_quota_us
  v1_limit = read_to_string "/sys/fs/cgroup/cpu/cpu.cfs_quota_us" >>=? λ quota.
      read_to_string "/sys/fs/cgroup/cpu/cpu.cfs_period_us" >>=? λ period.
      parse_cgroup_v1_quota_us quota period

  pub cgroup_cpu_quota_cores : Option ℕ
  unfolding v2_limit v1_limit
  cgroup_cpu_quota_cores = elim (read_to_string "/sys/fs/cgroup/cpu.max") [
    | some contents ↦ v2_limit (split_whitespace contents)
    | none ↦ v1_limit
  ]

  host_parallelism : Option ℕ → ℕ
  host_parallelism (some n) = max n 1
  host_parallelism none = max 1 1

  from_machine : Option ℕ → ℕ
  unfolding host_parallelism
  from_machine (some n) = max n 1
  from_machine none = host_parallelism available_parallelism

  unfoldable pub detect_parallelism : ℕ
  unfolding from_machine cgroup_cpu_quota_cores
  detect_parallelism = elim (env_var "SS_PACK_SLOTS" >>=? parse_usize) [
    | some n ↦ max n 1
    | none ↦ from_machine cgroup_cpu_quota_cores
  ]

  pub resolve : SlotBudget → ℕ → ℕ
  unfolding detect_parallelism
  resolve (pinned n) reserved = max (max n 1 - reserved) 1
  resolve detect reserved = max (detect_parallelism - reserved) 1

  -- There is always a slot; a larger reservation never adds slots. A pinned budget above the
  -- reservation is the slots and the reserved threads together, and gives one slot otherwise.
  pub resolve_lem :
      (budget : SlotBudget) (n reserved more : ℕ)
      → (1 ≤ resolve budget reserved)
        × (resolve budget (reserved + more) ≤ resolve budget reserved)
        × (reserved < n → resolve (pinned n) reserved + reserved ≡ n)
        × (n ≤ reserved → resolve (pinned n) reserved ≡ 1)
  unfolding resolve
  resolve_lem (pinned k) n reserved more =
      (omega arith, omega arith, λ h. omega arith, λ h. omega arith)
  resolve_lem detect n reserved more =
      (omega arith, omega arith, λ h. omega arith, λ h. omega arith)

  cores_lem :
      (q p : ℕ)
      → 0 < q
      → 0 < p
      → q < 2 ^ 26
      → p < 2 ^ 26
      → (k : ℕ) × (cores q p ≡ some (suc k)) × (k * p < q) × (q ≤ suc k * p)
  unfolding cores
  cores_lem q p q_pos p_pos q_small p_small =
      let (k, e, below, above) = ceil_bounds q p q_pos p_pos in
      let exact = ceil_exact q p p_pos p_small q_small in (k, ground arith, below, above)

  -- When the quota and the period parse as positive numbers of at most 26 bits, and have no space
  -- around them, the number of cores is the least one that covers the quota, whichever of the two files
  -- they stand in.
  pub parse_cgroup_lem :
      (quota period : String) (q p : ℕ)
      → str_eq quota "max" ≡ false
      → parse_i64 quota ≡ some q
      → parse_i64 period ≡ some p
      → trim quota ≡ quota
      → trim period ≡ period
      → 0 < q
      → 0 < p
      → q < 2 ^ 26
      → p < 2 ^ 26
      → (k : ℕ) × (parse_cgroup_v2_quota quota period ≡ some (suc k))
        × (parse_cgroup_v1_quota_us quota period ≡ some (suc k))
        × (k * p < q)
        × (q ≤ suc k * p)
  unfolding parse_cgroup_v2_quota parse_cgroup_v1_quota_us
  parse_cgroup_lem quota period q p limited eq ep tq tp q_pos p_pos q_small p_small =
      let (k, e, below, above) = cores_lem q p q_pos p_pos q_small p_small in
      let positive : is_negative q ≡ false = ground arith in
      (k, rw (limited, eq, ep) e, rw (tq, tp, eq, ep, positive) e, below, above)
