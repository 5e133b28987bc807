-- ===== src/Order.antt =====
-- ts/src/core/order.ts: the planner of initialization orders.
pub mod Bytes
pub mod Relax
pub mod Kahn
pub mod Loop
pub mod Edges
pub mod Constraints
pub mod Nodes
pub mod Index
pub mod Start
pub mod Schedule
pub mod Collected
pub mod Sound
pub mod Choice
pub mod Least
mod Examples
use u.Base.{
  ℕ, zero, suc, ◌+◌, ◌-◌, String, Bool, true, false, not, ◌&&◌, ◌||◌, Option, none, some, List, [],
  ◌∷◌, ◌++◌, map, nat_key, string_key, ltb, ◌==◌, includes, keep, get_elem?, get_or, set, length,
  if◌then◌else◌, RackStatus, invalid_argument, not_found, invalid_state, cycle,
}
use u.Base.Int.{ℤ, pos, negsuc, less}
use u.Base.Map
use u.Base.Map.{Map}
use Bytes.{id_less}

-- A finite number is a multiple of 2^-1074, and given by the factor.
pub data Priority : Type 0 where
  finite : ℤ → Priority
  not_finite : Priority

pub record OrderNodeInput : Type 0 where
  pub plug_id : String
  pub priority : Priority
  pub before : List String
  pub after : List String

-- The error that is thrown, with the ids in its detail.
pub data PlanError : Type 0 where
  malformed : PlanError
  unknown_targets : List String → PlanError
  conflicts_with : List (String × String) → PlanError
  cyclic : List String → PlanError

unfoldable pub status : PlanError → RackStatus
status malformed = invalid_argument
status (unknown_targets ids) = not_found
status (conflicts_with pairs) = invalid_state
status (cyclic ids) = cycle

pub data PlanResult {ℓ} (A : Type ℓ) : Type ℓ where
  fine : A → PlanResult A
  refuse : PlanError → PlanResult A

abbrev pub and_then {ℓ κ} :
    {A : Type ℓ} {B : Type κ} → PlanResult A → (A → PlanResult B) → PlanResult B
and_then (fine a) f = f a
and_then (refuse e) f = refuse e

abbrev pub is_finite : Priority → Bool
is_finite (finite z) = true
is_finite not_finite = false

-- The loop over the nodes, from an index on, with the ids met so far.
unfoldable pub index_ids : List OrderNodeInput → ℕ → Map String ℕ → PlanResult (Map String ℕ)
index_ids [] i index_of = fine index_of
index_ids (node ∷ nodes) i index_of =
    if node.plug_id == ""
    then refuse malformed
    else if not (is_finite node.priority)
    then refuse malformed
    else elim (Map.lookup node.plug_id index_of) [
      | some first ↦ refuse malformed
      | none ↦ index_ids nodes (suc i) (Map.insert node.plug_id i index_of)
    ]

abbrev pub any_id : (String → Bool) → List OrderNodeInput → Bool
any_id p [] = false
any_id p (node ∷ nodes) = p node.plug_id || any_id p nodes

abbrev pub self_reference : List OrderNodeInput → Bool
self_reference [] = false
self_reference (node ∷ nodes) =
    includes node.before node.plug_id || includes node.after node.plug_id || self_reference nodes

unfoldable pub validate_identities : List OrderNodeInput → List String → PlanResult (Map String ℕ)
unfolding index_ids
validate_identities nodes initialized = and_then (index_ids nodes 0 []) λ index_of.
    if any_id (includes initialized) nodes
    then refuse malformed
    else if self_reference nodes
    then refuse malformed
    else fine index_of

-- `edge_keys` holds the pairs that the strings `from:to` stand for.
pub record Graph : Type 0 where
  pub successors : List (List ℕ)
  pub indegree : List ℕ
  pub edge_keys : List (ℕ × ℕ)
  pub unknown : List String
  pub conflicts : List (String × String)

abbrev pub has_edge : List (ℕ × ℕ) → ℕ → ℕ → Bool
has_edge [] u v = false
has_edge ((a, b) ∷ es) u v = (a == u && b == v) || has_edge es u v

unfoldable pub add_edge : ℕ → ℕ → Graph → Graph
add_edge u v g = if has_edge g.edge_keys u v then g else record g {
  edge_keys = (u, v) ∷ g.edge_keys;
  successors = set g.successors u (get_or g.successors u [] ++ v ∷ []);
  indegree = set g.indegree v (get_or g.indegree v 0 + 1);
}

-- Set.prototype.add
abbrev pub add_unknown : String → Graph → Graph
add_unknown target g =
    if includes g.unknown target then g else record g { unknown = g.unknown ++ target ∷ [] }

module _ (initialized : List String) (index_of : Map String ℕ) where
  unfoldable pub add_before : String → ℕ → List String → Graph → Graph
  add_before plug_id index [] g = g
  add_before plug_id index (target ∷ targets) g = add_before plug_id index targets (
      if includes initialized target
      then record g { conflicts = g.conflicts ++ (plug_id, target) ∷ [] }
      else elim (Map.lookup target index_of) [
        | none ↦ add_unknown target g
        | some to ↦ add_edge index to g
      ])

  unfoldable pub add_after : ℕ → List String → Graph → Graph
  add_after index [] g = g
  add_after index (target ∷ targets) g = add_after index targets (
      if includes initialized target then g else elim (Map.lookup target index_of) [
        | none ↦ add_unknown target g
        | some to ↦ add_edge to index g
      ])

  unfoldable pub add_nodes : List OrderNodeInput → ℕ → Graph → Graph
  add_nodes [] index g = g
  add_nodes (node ∷ nodes) index g =
      add_nodes nodes (suc index)
        (add_after index node.after (add_before node.plug_id index node.before g))

abbrev pub repeat {ℓ} : {A : Type ℓ} → ℕ → A → List A
repeat zero a = []
repeat (suc n) a = a ∷ repeat n a

-- Array.prototype.sort, which is stable.
abbrev pub insert_by {ℓ} : {A : Type ℓ} → (A → A → Bool) → A → List A → List A
insert_by less_than a [] = a ∷ []
insert_by less_than a (b ∷ bs) = if less_than b a then b ∷ insert_by less_than a bs else a ∷ b ∷ bs

abbrev pub sort_by {ℓ} : {A : Type ℓ} → (A → A → Bool) → List A → List A
sort_by less_than [] = []
sort_by less_than (a ∷ as_) = insert_by less_than a (sort_by less_than as_)

abbrev pub empty_graph : ℕ → Graph
empty_graph n = record {
  successors = repeat n [];
  indegree = repeat n 0;
  edge_keys = [];
  unknown = [];
  conflicts = [];
}

abbrev pub report : List String → List (String × String) → Graph → PlanResult Graph
report (id ∷ ids) conflicts g = refuse (unknown_targets (sort_by id_less (id ∷ ids)))
report [] (c ∷ cs) g = refuse (conflicts_with (sort_by (λ a b. id_less a.0 b.0) (c ∷ cs)))
report [] [] g = fine g

abbrev pub check_targets : Graph → PlanResult Graph
check_targets g = report g.unknown g.conflicts g

unfoldable pub collect_edges : List OrderNodeInput → List String → Map String ℕ → PlanResult Graph
unfolding add_nodes
collect_edges nodes initialized index_of =
    check_targets (add_nodes initialized index_of nodes 0 (empty_graph (length nodes)))
