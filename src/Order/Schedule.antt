-- ===== src/Order/Schedule.antt =====
-- The plan itself: Kahn's algorithm over the graph, the cycle that is reported, and `planOrder`.
use u.Base.{
  ℕ, zero, suc, ◌-◌, String, Bool, false, Option, none, some, List, [], ◌∷◌, ◌++◌, map, nat_key,
  string_key, ◌==◌, includes, get_elem?, get_or, set, length, if◌then◌else◌,
}
use u.Base.Int.{ℤ, pos, negsuc, less}
use u.Order.{
  OrderNodeInput, Priority, finite, PlanResult, fine, refuse, cyclic, and_then, Graph,
  validate_identities, collect_edges,
}
use u.Order.Bytes.{id_less}

abbrev pub int_eq : ℤ → ℤ → Bool
int_eq (pos a) (pos b) = a == b
int_eq (negsuc a) (negsuc b) = a == b
int_eq _ _ = false

-- `left.priority !== right.priority ? left.priority < right.priority : …`; NaN was refused.
abbrev pub priority_before : Priority → Priority → Bool → Bool
priority_before (finite a) (finite b) ids = if int_eq a b then ids else less a b
priority_before _ _ ids = false

unfoldable pub node_before : OrderNodeInput → OrderNodeInput → Bool
node_before l r = priority_before l.priority r.priority (id_less l.plug_id r.plug_id)

-- Nodes at indices that are there.
unfoldable pub comes_before : List OrderNodeInput → ℕ → ℕ → Bool
comes_before nodes a b = elim (get_elem? nodes a) [
  | none ↦ false
  | some l ↦ elim (get_elem? nodes b) [ none ↦ false | some r ↦ node_before l r ]
]

-- The position of the best, from a candidate's position on.
unfoldable pub best_position : (ℕ → ℕ → Bool) → ℕ → ℕ → ℕ → List ℕ → ℕ
best_position earlier best best_at at [] = best_at
best_position earlier best best_at at (c ∷ cs) =
    best_position earlier (if earlier c best then c else best)
      (if earlier c best then at else best_at) (suc at) cs

-- Array.prototype.splice(at, 1)
abbrev pub splice_one {ℓ} : {A : Type ℓ} → ℕ → List A → List A
splice_one at [] = []
splice_one zero (x ∷ xs) = xs
splice_one (suc at) (x ∷ xs) = x ∷ splice_one at xs

-- The loop over the successors of the node that was planned. `remaining === 0` is where the indegree
-- was 1; an indegree of 0 cannot be met there.
unfoldable pub relax : List ℕ → List ℕ → List ℕ → List ℕ × List ℕ
relax [] ready indegree = (ready, indegree)
relax (v ∷ vs) ready indegree =
    let d = get_or indegree v 0 in
    relax vs (if d == 1 then ready ++ v ∷ [] else ready) (set indegree v (d - 1))

-- The `while` loop: `none` means that the fuel ran out.
unfoldable pub plan_loop :
    (ℕ → ℕ → Bool) → List (List ℕ) → ℕ → List ℕ → List ℕ → List ℕ → Option (List ℕ × List ℕ)
unfolding best_position relax
plan_loop earlier successors fuel [] plan indegree = some (plan, indegree)
plan_loop earlier successors zero (r ∷ ready) plan indegree = none
plan_loop earlier successors (suc fuel) (r ∷ ready) plan indegree =
    let best = best_position earlier r 0 1 ready in
    let index = get_or (r ∷ ready) best 0 in
    let (ready', indegree') =
      relax (get_or successors index []) (splice_one best (r ∷ ready)) indegree in
    plan_loop earlier successors fuel ready' (plan ++ index ∷ []) indegree'

-- The nodes of indegree 0, in order of index.
abbrev pub roots : ℕ → List ℕ → List ℕ
roots i [] = []
roots i (d ∷ ds) = if d == 0 then i ∷ roots (suc i) ds else roots (suc i) ds

abbrev pub id_at : List OrderNodeInput → ℕ → String
id_at nodes i = elim (get_elem? nodes i) [ none ↦ "" | some node ↦ node.plug_id ]

-- The candidate with the least id among those that cannot be planned.
unfoldable pub least_blocked : List OrderNodeInput → List ℕ → Option ℕ → List ℕ → Option ℕ
least_blocked nodes indegree best [] = best
least_blocked nodes indegree best (c ∷ cs) =
    least_blocked nodes indegree
      (if get_or indegree c 0 == 0 then best else elim best [
        | none ↦ some c
        | some b ↦ if id_less (id_at nodes c) (id_at nodes b) then some c else some b
      ])
      cs

abbrev pub from_first : ℕ → List ℕ → List ℕ
from_first v [] = []
from_first v (w ∷ ws) = if w == v then w ∷ ws else from_first v ws

-- The walk along least successors until it meets itself; `none` means that the fuel ran out.
unfoldable pub walk : List OrderNodeInput → Graph → ℕ → Option ℕ → List ℕ → Option (List ℕ)
unfolding least_blocked
walk nodes g fuel none path = some path
walk nodes g zero (some v) path = none
walk nodes g (suc fuel) (some v) path =
    let onward =
      walk nodes g fuel (least_blocked nodes g.indegree none (get_or g.successors v []))
        (path ++ v ∷ []) in
    if includes path v then some (from_first v path) else onward

abbrev pub count_up : ℕ → ℕ → List ℕ
count_up i zero = []
count_up i (suc n) = i ∷ count_up (suc i) n

unfoldable pub extract_cycle : List OrderNodeInput → Graph → List String
unfolding walk
extract_cycle nodes g =
    let n = length nodes in
    elim (walk nodes g (suc n) (least_blocked nodes g.indegree none (count_up 0 n)) []) [
      | none ↦ []
      | some path ↦ map (id_at nodes) path
    ]

abbrev pub finish : List OrderNodeInput → Graph → Option (List ℕ × List ℕ) → PlanResult (List ℕ)
finish nodes g none = refuse (cyclic [])
finish nodes g (some (plan, indegree)) =
    if length plan == length nodes
    then fine plan
    else refuse (cyclic (extract_cycle nodes (record g { indegree = indegree })))

-- Each round plans one node more, so there are at most as many as nodes.
unfoldable pub schedule : List OrderNodeInput → Graph → PlanResult (List ℕ)
unfolding plan_loop comes_before
schedule nodes g =
    finish nodes g (
      plan_loop (comes_before nodes) g.successors (length nodes) (roots 0 g.indegree) [] g.indegree)

unfoldable pub plan_order : List OrderNodeInput → List String → PlanResult (List ℕ)
unfolding validate_identities collect_edges schedule
plan_order nodes initialized =
    and_then (validate_identities nodes initialized)
      λ index_of. and_then (collect_edges nodes initialized index_of) (schedule nodes)
