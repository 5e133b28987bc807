-- ===== src/Order/Nodes.antt =====
-- The graph after all nodes.
use u.Base.{
  ℕ, zero, suc, ◌+◌, ◌<◌, ◌≤◌, ◌≡◌, subst, true, false, List, [], ◌∷◌, nat_key, string_key, String,
  includes, get_elem?, length, some, arith,
}
use u.Base.Map
use u.Base.Map.{Map, lookup-insert}
use u.Order.{OrderNodeInput, Graph, add_before, add_after, add_nodes}
use u.Order.Edges.{Edge, IsGraph}
use u.Order.Constraints.{
  IsMore, refl-IsMore, then-IsMore, add_before-IsMore, add_after-IsMore, add_before-Edge,
  add_after-Edge,
}

module _ (initialized : List String) (index_of : Map String ℕ) where
  -- The edges of the node at `i` are there.
  pub record HasEdges (h : Graph) (i : ℕ) (node : OrderNodeInput) : Type 0 where
    pub before_edge :
        (t : String) (j : ℕ)
        → includes node.before t ≡ true
        → includes initialized t ≡ false
        → Map.lookup t index_of ≡ some j
        → Edge h i j
    pub after_edge :
        (t : String) (j : ℕ)
        → includes node.after t ≡ true
        → includes initialized t ≡ false
        → Map.lookup t index_of ≡ some j
        → Edge h j i

module _ (n : ℕ) (initialized : List String) (index_of : Map String ℕ)
    (below : (t : String) (j : ℕ) → Map.lookup t index_of ≡ some j → j < n) where
  more-HasEdges :
      (g h : Graph) (i : ℕ) (node : OrderNodeInput)
      → IsMore n initialized index_of g h
      → HasEdges initialized index_of g i node
      → HasEdges initialized index_of h i node
  more-HasEdges g h i node m e = record {
    before_edge = λ t j listed new found. m.more i j (e.before_edge t j listed new found);
    after_edge = λ t j listed new found. m.more j i (e.after_edge t j listed new found);
  }

  abbrev with_before : OrderNodeInput → ℕ → Graph → Graph
  with_before node i g = add_before initialized index_of node.plug_id i node.before g

  abbrev with_node : OrderNodeInput → ℕ → Graph → Graph
  with_node node i g = add_after initialized index_of i node.after (with_before node i g)

  with_before-IsMore :
      (node : OrderNodeInput) (i : ℕ) (g : Graph)
      → i < n
      → IsGraph n g
      → IsMore n initialized index_of g (with_before node i g)
  with_before-IsMore node i g h inv =
      add_before-IsMore n initialized index_of below node.plug_id i node.before g h inv

  with_after-IsMore :
      (node : OrderNodeInput) (i : ℕ) (g : Graph)
      → i < n
      → IsGraph n g
      → IsMore n initialized index_of (with_before node i g) (with_node node i g)
  with_after-IsMore node i g h inv =
      add_after-IsMore n initialized index_of below i node.after (with_before node i g) h
        (with_before-IsMore node i g h inv).graph

  with_node-IsMore :
      (node : OrderNodeInput) (i : ℕ) (g : Graph)
      → i < n
      → IsGraph n g
      → IsMore n initialized index_of g (with_node node i g)
  with_node-IsMore node i g h inv =
      then-IsMore n initialized index_of g (with_before node i g) (with_node node i g)
        (with_before-IsMore node i g h inv) (with_after-IsMore node i g h inv)

  node-HasEdges :
      (node : OrderNodeInput) (i : ℕ) (g : Graph)
      → i < n
      → IsGraph n g
      → HasEdges initialized index_of (with_node node i g) i node
  node-HasEdges node i g h inv = record {
    before_edge = λ t j listed new found. (with_after-IsMore node i g h inv).more i j (
        add_before-Edge n initialized index_of below node.plug_id i node.before g t j h inv listed
          new found);
    after_edge = λ t j listed new found.
        add_after-Edge n initialized index_of below i node.after (with_before node i g) t j h
          (with_before-IsMore node i g h inv).graph listed new found;
  }

  pub add_nodes-IsMore :
      (nodes : List OrderNodeInput) (i : ℕ) (g : Graph)
      → i + length nodes ≤ n
      → IsGraph n g
      → IsMore n initialized index_of g (add_nodes initialized index_of nodes i g)
  unfolding add_nodes
  add_nodes-IsMore [] i g h inv = refl-IsMore n initialized index_of g inv
  add_nodes-IsMore (node ∷ nodes) i g h inv =
      let first = with_node-IsMore node i g (ground arith) inv in
      then-IsMore n initialized index_of g (with_node node i g)
        (add_nodes initialized index_of (node ∷ nodes) i g) first
        (add_nodes-IsMore nodes (suc i) (with_node node i g) (ground arith) first.graph)

  pub add_nodes-HasEdges :
      (nodes : List OrderNodeInput) (i k at : ℕ) (g : Graph) (node : OrderNodeInput)
      → i + length nodes ≤ n
      → IsGraph n g
      → get_elem? nodes k ≡ some node
      → at ≡ i + k
      → HasEdges initialized index_of (add_nodes initialized index_of nodes i g) at node
  unfolding add_nodes
  add_nodes-HasEdges [] i k at g node h inv there place = absurd (ground arith)
  add_nodes-HasEdges (first ∷ nodes) i zero at g node h inv there place =
      let here : i ≡ at = ground arith in
      let same : first ≡ node = ground arith in
      let next = with_node first i g in
      let more = with_node-IsMore first i g (ground arith) inv in
      subst
        (λ x.
          HasEdges initialized index_of (add_nodes initialized index_of (first ∷ nodes) i g) x node)
        here
        (subst
          (HasEdges initialized index_of (add_nodes initialized index_of (first ∷ nodes) i g) i)
          same
          (more-HasEdges next (add_nodes initialized index_of (first ∷ nodes) i g) i first
            (add_nodes-IsMore nodes (suc i) next (ground arith) more.graph)
            (node-HasEdges first i g (ground arith) inv)))
  add_nodes-HasEdges (first ∷ nodes) i (suc k) at g node h inv there place =
      let more = with_node-IsMore first i g (ground arith) inv in
      add_nodes-HasEdges nodes (suc i) k at (with_node first i g) node (ground arith) more.graph
        there (ground arith)
