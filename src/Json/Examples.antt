-- ===== src/Json/Examples.antt =====
-- Documents at which the theorems are applied.
use u.Base.{
  ◌≤◌, ◌<◌, nat_key, zero, suc, ◌≡◌, refl, ◌↔◌, true, false, some, List, [], ◌∷◌, arith, length, ℕ,
}
use u.Base.Map
use u.Json.{
  boolean, ref, array, object, Heap, Document, Seen, every, check_json, is_json_value,
  estimate_json_bytes,
}
use u.Json.Check.Fuel.{is_json_value_runs}
use u.Json.Check.Exact.{Tree, Fresh, is_json_value_iff}
use u.Json.Check.Shared.{shared_refused}
use u.Json.Size.{Nested, estimate_ignores_depth}

abbrev pair : Heap
pair = (0, array (ref 1 ∷ ref 1 ∷ [])) ∷ (1, object true (("k", boolean true) ∷ [])) ∷ []

abbrev single : Document
single = record { heap = pair; root = ref 1 }

-- 65 arrays, each in the one before, round a text.
abbrev tower : ℕ → Heap
tower zero = []
tower (suc k) = (suc k, array (ref k ∷ [])) ∷ tower k

accepts_single : is_json_value single ≡ true
unfolding is_json_value every
accepts_single = refl

is_json_value_runs_example :
    (r : Seen) × (check_json (suc (length single.heap)) single.heap single.root [] ≡ some r)
is_json_value_runs_example = is_json_value_runs single

is_json_value_iff_example :
    (is_json_value single ≡ true) ↔ ((at : List ℕ) × Tree single.heap single.root at × Fresh at [])
is_json_value_iff_example = is_json_value_iff single

shared_refused_example : is_json_value (record { heap = pair; root = ref 0 }) ≡ false
unfolding Map.lookup
shared_refused_example = shared_refused pair 0 1 [] refl

abbrev deep : Document
deep = record { heap = tower 65; root = ref 65 }

lookup-tower : (n k : ℕ) → k < n → Map.lookup (suc k) (tower n) ≡ some (array (ref k ∷ []))
unfolding Map.lookup
lookup-tower zero k h = absurd (omega arith)
lookup-tower (suc n) k h = ground (arith, lookup-tower n k)

tower-Nested : (n k : ℕ) → k ≤ n → Nested (tower n) k (ref k) (ref 0)
tower-Nested n zero h = refl
tower-Nested n (suc k) h =
    (suc k, ref k, refl, lookup-tower n k (omega arith), tower-Nested n k (omega arith))

estimate_ignores_depth_example : estimate_json_bytes deep ≡ 195
estimate_ignores_depth_example =
    estimate_ignores_depth deep (ref 0) (tower-Nested 65 65 (omega arith))
