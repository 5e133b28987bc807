-- ===== src/Order/Examples.antt =====
-- Plans of small sets of nodes, and the theorems on them.
use u.Base.{
  ◌⊎◌, get_elem?, get_or, nat_key, true, some, Unique, includes, ltb, length, ℕ, ◌≡◌, refl, [], ◌∷◌,
  String, List,
}
use u.Base.Map
use u.Base.Map.{Map}
use u.Base.Int.{pos}
use u.Order.{
  validate_identities, collect_edges, add_nodes, index_ids, Graph, OrderNodeInput, finite, fine,
  refuse, cyclic, add_before, add_after, add_edge,
}
use u.Order.Bytes.{id_less, utf8}
use u.Order.Kahn.{precedes}
use u.Order.Sound.{plan_order_once, plan_order_respects, plan_order_ends}
use u.Order.Least.{IntLt, BytesLe, planned_next_least}
use u.Order.Schedule.{
  best_position, plan_loop, comes_before, roots, plan_order, node_before, extract_cycle,
}

abbrev node : String → ℕ → List String → List String → OrderNodeInput
node id p before after = record {
  plug_id = id;
  priority = finite (pos p);
  before = before;
  after = after;
}

abbrev three : List OrderNodeInput
three = node "b" 0 [] ("c" ∷ "x" ∷ []) ∷ node "a" 1 ("b" ∷ []) [] ∷ node "c" 5 [] [] ∷ []

plans_three : plan_order three ("x" ∷ []) ≡ fine (1 ∷ 2 ∷ 0 ∷ [])
unfolding plan_order Map.lookup Map.insert add_after add_before add_edge node_before extract_cycle
    id_less
plans_three = refl

finds_cycle :
    plan_order (node "b" 0 [] ("a" ∷ []) ∷ node "a" 1 [] ("b" ∷ []) ∷ []) []
    ≡ refuse (cyclic ("a" ∷ "b" ∷ []))
unfolding plan_order Map.lookup Map.insert add_after add_before add_edge node_before extract_cycle
    id_less
finds_cycle = refl

abbrev planned : List ℕ
planned = 1 ∷ 2 ∷ 0 ∷ []

plan_order_once_example : Unique planned × (includes planned 2 ≡ ltb 2 (length three))
plan_order_once_example = plan_order_once three ("x" ∷ []) planned plans_three 2

plan_order_respects_example : precedes planned 1 0 ≡ true
plan_order_respects_example =
    plan_order_respects three ("x" ∷ []) planned 1 0 (node "a" 1 ("b" ∷ []) [])
      (node "b" 0 [] ("c" ∷ "x" ∷ [])) plans_three refl refl refl

abbrev two : List OrderNodeInput
two = node "b" 0 [] ("a" ∷ []) ∷ node "a" 1 [] ("b" ∷ []) ∷ []

abbrev two_ids : Map String ℕ
two_ids = ("b", 0) ∷ ("a", 1) ∷ []

abbrev two_edges : Graph
two_edges = record {
  successors = (1 ∷ []) ∷ (0 ∷ []) ∷ [];
  indegree = 1 ∷ 1 ∷ [];
  edge_keys = (0, 1) ∷ (1, 0) ∷ [];
  unknown = [];
  conflicts = [];
}

validates_two : validate_identities two [] ≡ fine two_ids
unfolding validate_identities index_ids Map.lookup Map.insert
validates_two = refl

collects_two : collect_edges two [] two_ids ≡ fine two_edges
unfolding collect_edges add_nodes add_after add_before add_edge Map.lookup
collects_two = refl

plan_order_ends_example :
    (out : List ℕ × List ℕ) × (plan_loop
        (comes_before two)
        two_edges.successors
        (length two)
        (roots 0 two_edges.indegree)
        []
        two_edges.indegree
      ≡ some out)
plan_order_ends_example = plan_order_ends two [] two_ids two_edges validates_two collects_two

best_is_first :
    get_elem? three
      (get_or (0 ∷ 1 ∷ 2 ∷ []) (best_position (comes_before three) 0 0 1 (1 ∷ 2 ∷ [])) 0)
    ≡ some (node "b" 0 [] ("c" ∷ "x" ∷ []))
unfolding best_position comes_before node_before id_less
best_is_first = refl

planned_next_least_example :
    IntLt (pos 0) (pos 5) ⊎ (((pos 0) ≡ (pos 5)) × BytesLe (utf8 "b") (utf8 "c"))
planned_next_least_example =
    planned_next_least three 0 (1 ∷ 2 ∷ []) 2 (node "b" 0 [] ("c" ∷ "x" ∷ [])) (node "c" 5 [] [])
      (pos 0) (pos 5) refl best_is_first refl refl refl
