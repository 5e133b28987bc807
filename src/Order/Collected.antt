-- ===== src/Order/Collected.antt =====
-- What the validation and the graph of a plan establish.
use u.Base.{
  ℕ, zero, suc, ◌<◌, ◌≡◌, refl, ap, subst, ◌∙◌, false, List, [], ◌∷◌, nat_key, string_key, String,
  includes, get_elem?, length, if◌then◌else◌, inl, inr, some, arith,
}
use u.Base.Map
use u.Base.Map.{Map}
use u.Order.{
  OrderNodeInput, Graph, PlanResult, fine, refuse, malformed, and_then, index_ids,
  validate_identities, any_id, self_reference, report, collect_edges, add_nodes, empty_graph,
}
use u.Order.Edges.{IsGraph}
use u.Order.Nodes.{HasEdges, add_nodes-IsMore, add_nodes-HasEdges}
use u.Order.Index.{index_ids-IsIndex}
use u.Order.Start.{empty_graph-IsGraph}

pub and_then-fine {ℓ κ} :
    {A : Type ℓ} {B : Type κ} (r : PlanResult A) (f : A → PlanResult B) (b : B)
    → and_then r f ≡ fine b
    → (a : A) × (r ≡ fine a) × (f a ≡ fine b)
and_then-fine (fine a) f b h = (a, refl, h)
and_then-fine (refuse e) f b h = absurd (ground arith)

-- What validation has found.
pub record IsValidated (nodes : List OrderNodeInput) (initialized : List String)
    (index_of : Map String ℕ) : Type 0 where
  pub index : index_ids nodes 0 [] ≡ fine index_of
  pub separate : any_id (includes initialized) nodes ≡ false

pub validate_identities-IsValidated :
    (nodes : List OrderNodeInput) (initialized : List String) (index_of : Map String ℕ)
    → validate_identities nodes initialized ≡ fine index_of
    → IsValidated nodes initialized index_of
unfolding validate_identities
validate_identities-IsValidated nodes initialized index_of h =
    let (index, found, rest) =
      and_then-fine (index_ids nodes 0 [])
        (λ index_of.
          if any_id (includes initialized) nodes
          then refuse malformed
          else if self_reference nodes
          then refuse malformed
          else fine index_of)
        index_of h in
    record { index = found ∙ ap fine (ground arith); separate = ground arith }

report-fine :
    (ids : List String) (pairs : List (String × String)) (g h : Graph)
    → report ids pairs g ≡ fine h
    → g ≡ h
report-fine (id ∷ ids) pairs g h e = absurd (ground arith)
report-fine [] (pair ∷ pairs) g h e = absurd (ground arith)
report-fine [] [] g h e = ground arith

pub separate_id :
    (initialized : List String) (nodes : List OrderNodeInput) (i : ℕ) (node : OrderNodeInput)
    → any_id (includes initialized) nodes ≡ false
    → get_elem? nodes i ≡ some node
    → includes initialized node.plug_id ≡ false
separate_id initialized [] i node h there = absurd (ground arith)
separate_id initialized (first ∷ nodes) zero node h there =
    let same : first ≡ node = ground arith in
    subst (λ x. includes initialized x.plug_id ≡ false) same (ground arith)
separate_id initialized (first ∷ nodes) (suc i) node h there =
    separate_id initialized nodes i node (ground arith) there

-- The graph that was collected.
pub record IsCollected (nodes : List OrderNodeInput) (initialized : List String)
    (index_of : Map String ℕ) (g : Graph) : Type 0 where
  pub graph : IsGraph (length nodes) g
  pub edges :
      (i : ℕ) (node : OrderNodeInput)
      → get_elem? nodes i ≡ some node
      → HasEdges initialized index_of g i node

pub collect_edges-IsCollected :
    (nodes : List OrderNodeInput) (initialized : List String) (index_of : Map String ℕ) (g : Graph)
    → ((t : String) (j : ℕ) → Map.lookup t index_of ≡ some j → j < length nodes)
    → collect_edges nodes initialized index_of ≡ fine g
    → IsCollected nodes initialized index_of g
unfolding collect_edges
collect_edges-IsCollected nodes initialized index_of g below h =
    let start = empty_graph (length nodes) in
    let all = add_nodes initialized index_of nodes 0 start in
    let sound = empty_graph-IsGraph (length nodes) in
    subst (IsCollected nodes initialized index_of) (report-fine all.unknown all.conflicts all g h)
      (record {
        graph =
            (add_nodes-IsMore (length nodes) initialized index_of below nodes 0 start (omega arith)
              sound).graph;
        edges = λ i node there.
            add_nodes-HasEdges (length nodes) initialized index_of below nodes 0 i i start node
              (omega arith) sound there (omega arith);
      })

pub index_below :
    (nodes : List OrderNodeInput) (index_of : Map String ℕ)
    → index_ids nodes 0 [] ≡ fine index_of
    → (t : String) (j : ℕ) → Map.lookup t index_of ≡ some j
    → j < length nodes
unfolding Map.lookup
index_below nodes index_of e t j there =
    elim ((index_ids-IsIndex nodes 0 [] index_of e).range t j there) [
      | inl old ↦ absurd (ground arith)
      | inr h ↦ ground arith
    ]

pub get_elem?-below :
    {A : Type 0} (xs : List A) (i : ℕ) (x : A) → get_elem? xs i ≡ some x → i < length xs
get_elem?-below [] i x h = absurd (ground arith)
get_elem?-below (y ∷ ys) zero x h = ground arith
get_elem?-below (y ∷ ys) (suc i) x h = ground (arith, get_elem?-below ys i x)
