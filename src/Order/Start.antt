-- ===== src/Order/Start.antt =====
-- Where the loops begin: the graph without edges, and the roots of a graph.
use u.Base.{
  ℕ, zero, suc, ◌+◌, ◌<◌, ◌≤◌, ◌≡◌, refl, sym, ap, subst, ◌∙◌, true, false, List, [], ◌∷◌, nat_key,
  string_key, includes, get_or, length, Unique, arith,
}
use u.Order.{Graph, repeat, empty_graph}
use u.Order.Kahn.{open_by}
use u.Order.Edges.{IsGraph}
use u.Order.Schedule.{roots}
use u.Order.Loop.{IsKahn}

get_or-repeat {ℓ} : {A : Type ℓ} (n i : ℕ) (a : A) → get_or (repeat n a) i a ≡ a
get_or-repeat zero i a = refl
get_or-repeat (suc n) zero a = refl
get_or-repeat (suc n) (suc i) a = get_or-repeat n i a

length-repeat {ℓ} : {A : Type ℓ} (n : ℕ) (a : A) → length (repeat n a) ≡ n
length-repeat zero a = refl
length-repeat (suc n) a = ap suc (length-repeat n a)

open_by-repeat : (n v : ℕ) → open_by (λ i. false) (repeat n []) v ≡ 0
open_by-repeat zero v = refl
open_by-repeat (suc n) v = ground (arith, open_by-repeat n v)

pub empty_graph-IsGraph : (n : ℕ) → IsGraph n (empty_graph n)
empty_graph-IsGraph n = record {
  counts = λ v. get_or-repeat n v 0 ∙ sym (open_by-repeat n v);
  keys = λ u v. ground (arith, get_or-repeat {A = List ℕ} n u []);
  unique = λ u. subst Unique (sym (get_or-repeat {A = List ℕ} n u [])) tt;
  below = λ u v e. ground (arith, get_or-repeat {A = List ℕ} n u []);
  length_successors = length-repeat n [];
  length_indegree = length-repeat n 0;
}

roots-bounds :
    (i v : ℕ) (ds : List ℕ) → includes (roots i ds) v ≡ true → (i ≤ v) × (v < i + length ds)
roots-bounds i v [] h = ground arith
roots-bounds i v (d ∷ ds) h = ground (arith, roots-bounds (suc i) v ds)

roots-zero :
    (i k v : ℕ) (ds : List ℕ) → v ≡ i + k → includes (roots i ds) v ≡ true → get_or ds k 0 ≡ 0
roots-zero i k v [] place h = refl
roots-zero i zero v (d ∷ ds) place h = ground (arith, roots-bounds (suc i) v ds)
roots-zero i (suc k) v (d ∷ ds) place h = ground (arith, roots-zero (suc i) k v ds)

roots-Unique : (i : ℕ) (ds : List ℕ) → Unique (roots i ds)
roots-Unique i [] = tt
roots-Unique i (d ∷ ds) = ground (arith, roots-Unique (suc i) ds, roots-bounds (suc i) i ds)

pub roots-IsKahn :
    (n : ℕ) (g : Graph) → IsGraph n g → IsKahn g.successors n (roots 0 g.indegree) [] g.indegree
roots-IsKahn n g inv = record {
  counts = inv.counts;
  planned_zero = λ v h. ground arith;
  ready_zero = λ v h. roots-zero 0 v v g.indegree (omega arith) h;
  ready_new = λ v h. refl;
  ready_unique = roots-Unique 0 g.indegree;
  plan_unique = tt;
  ready_below = λ v h. ground (arith, roots-bounds 0 v g.indegree, inv.length_indegree);
  plan_below = λ v h. ground arith;
  ordered = λ u v h e. ground arith;
}
