-- ===== src/Pack/Tests.antt =====
-- The packing theorems at a concrete platform and concrete actors.
use text.Mathlib.Text.{◌==◌ as str_eq}
use steady_state_stack.Common.{
  List, Option, String, [], done, if◌then◌else◌, length, none, refl, some, ℕ, ◌*◌, ◌+◌, ◌-◌, ◌/◌,
  ◌<◌, ◌∷◌, ◌≡◌, ◌≤◌,
}
use steady_state_stack.Pack.Budget.{
  Platform, detect, detect_parallelism, pinned, resolve, resolve_lem,
}
use steady_state_stack.Pack.EvenSplit.{IsDealt, count, count_all, even_split, even_split_lem}

abbrev numeral : String → Option ℕ
numeral s =
    if str_eq s "250000" then some 250_000 else if str_eq s "100000" then some 100_000 else none

abbrev container : Platform
container = record {
  env_var = λ name. none;
  read_to_string =
      λ path. if str_eq path "/sys/fs/cgroup/cpu.max" then some "250000 100000" else none;
  parse_usize = numeral;
  parse_i64 = numeral;
  trim = λ s. s;
  split_whitespace = λ s. "250000" ∷ "100000" ∷ [];
  ceil_quotient = λ q p. (q + p - 1) / p;
  available_parallelism = some 16;
  ceil_exact = λ q p h h' h''. refl;
}

three_cores : detect_parallelism container ≡ 3
unfolding detect_parallelism
three_cores = refl

resolve_lem_example :
    (1 ≤ resolve container detect 2)
    × (resolve container detect (2 + 3) ≤ resolve container detect 2)
    × (2 < 7 → resolve container (pinned 7) 2 + 2 ≡ 7)
    × (7 ≤ 2 → resolve container (pinned 7) 2 ≡ 1)
resolve_lem_example = resolve_lem container detect 7 2 3

-- Five actors, two slots.
dealt :
    even_split {A = ℕ} (10 ∷ 11 ∷ 12 ∷ 13 ∷ 14 ∷ []) 2
    ≡ done ((10 ∷ 12 ∷ 14 ∷ []) ∷ (11 ∷ 13 ∷ []) ∷ [])
unfolding even_split
dealt = refl

even_split_lem_example :
    (clusters : List (List ℕ)) × (q : ℕ) × (r : ℕ) × (even_split {A = ℕ} (10 ∷ 11 ∷ 12 ∷ []) 2
      ≡ done clusters)
    × (length clusters ≡ 2)
    × (3 ≡ q * length clusters + r)
    × IsDealt q r clusters
    × (0 < 3 → (0 < q) × (r < length clusters))
    × ((f : ℕ → ℕ) → count_all f clusters ≡ count f (10 ∷ 11 ∷ 12 ∷ []))
even_split_lem_example = even_split_lem (10 ∷ 11 ∷ 12 ∷ []) 2
