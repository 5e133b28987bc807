-- ===== src/Order/Constraints.antt =====
-- The edges that the before and after lists of the nodes give.
use u.Base.{
  ℕ, ◌<◌, ◌≡◌, sym, subst, true, false, List, [], ◌∷◌, ◌++◌, nat_key, string_key, String, ◌==◌,
  includes, if◌then◌else◌, inl, inr, Bool-cases, Option-cases, some, none, arith,
}
use u.Base.Map
use u.Base.Map.{Map}
use u.Order.{Graph, add_edge, add_unknown, add_before, add_after}
use u.Order.Edges.{Edge, IsGraph, add_edge-IsGraph, Edge-add_edge}

module _ (n : ℕ) (initialized : List String) (index_of : Map String ℕ) where
  -- What the loops keep: the graph, and the edges that are there.
  pub record IsMore (g h : Graph) : Type 0 where
    pub graph : IsGraph n h
    pub more : (u v : ℕ) → Edge g u v → Edge h u v

  pub refl-IsMore : (g : Graph) → IsGraph n g → IsMore g g
  refl-IsMore g inv = record { graph = inv; more = λ u v e. e }

  pub then-IsMore : (f g h : Graph) → IsMore f g → IsMore g h → IsMore f h
  then-IsMore f g h a b = record { graph = b.graph; more = λ u v e. b.more u v (a.more u v e) }

  -- The other fields play no part.
  noted-IsMore :
      (g : Graph) (ids : List String) (pairs : List (String × String))
      → IsGraph n g
      → IsMore g (record g { unknown = ids; conflicts = pairs })
  noted-IsMore g ids pairs inv = record {
    graph = record {
      counts = inv.counts;
      keys = inv.keys;
      unique = inv.unique;
      below = inv.below;
      length_successors = inv.length_successors;
      length_indegree = inv.length_indegree;
    };
    more = λ u v e. e;
  }

  add_unknown-IsMore : (target : String) (g : Graph) → IsGraph n g → IsMore g (add_unknown target g)
  add_unknown-IsMore target g inv = elim (Bool-cases (includes g.unknown target)) [
    | inl old ↦ rw old (refl-IsMore g inv)
    | inr new ↦ rw new (noted-IsMore g (g.unknown ++ target ∷ []) g.conflicts inv)
  ]

  add_edge-IsMore : (u v : ℕ) (g : Graph) → u < n → v < n → IsGraph n g → IsMore g (add_edge u v g)
  add_edge-IsMore u v g hu hv inv = record {
    graph = add_edge-IsGraph n u v g hu hv inv;
    more = λ a b e. ground (arith, Edge-add_edge n u v a b g hu inv);
  }

  -- The edge of a target, from the node or to it.
  abbrev pub target_step : (ℕ → Graph → Graph) → Graph → String → Graph → Graph
  target_step edge skipped t g =
      if includes initialized t
      then skipped
      else elim (Map.lookup t index_of) [ none ↦ add_unknown t g | some j ↦ edge j g ]

  module _ (below : (t : String) (j : ℕ) → Map.lookup t index_of ≡ some j → j < n) where
    step-IsMore :
        (edge : ℕ → Graph → Graph) (skipped : Graph) (t : String) (g : Graph)
        → IsMore g skipped
        → ((j : ℕ) → j < n → IsMore g (edge j g))
        → IsGraph n g
        → IsMore g (target_step edge skipped t g)
    step-IsMore edge skipped t g skip add inv = elim (Bool-cases (includes initialized t)) [
      | inl ready ↦ rw ready skip
      | inr new ↦ elim (Option-cases (Map.lookup t index_of)) [
        | inl unknown ↦ rw (new, unknown) (add_unknown-IsMore t g inv)
        | inr (j, found) ↦ rw (new, found) (add j (below t j found))
      ]
    ]

    pub add_before-IsMore :
        (id : String) (i : ℕ) (targets : List String) (g : Graph)
        → i < n
        → IsGraph n g
        → IsMore g (add_before initialized index_of id i targets g)
    unfolding add_before
    add_before-IsMore id i [] g h inv = refl-IsMore g inv
    add_before-IsMore id i (t ∷ targets) g h inv =
        let noted = record g { conflicts = g.conflicts ++ (id, t) ∷ [] } in
        let first =
          step-IsMore (add_edge i) noted t g
            (noted-IsMore g g.unknown (g.conflicts ++ (id, t) ∷ []) inv)
            (λ j hj. add_edge-IsMore i j g h hj inv) inv in
        then-IsMore g (target_step (add_edge i) noted t g)
          (add_before initialized index_of id i (t ∷ targets) g) first
          (add_before-IsMore id i targets (target_step (add_edge i) noted t g) h first.graph)

    pub add_after-IsMore :
        (i : ℕ) (targets : List String) (g : Graph)
        → i < n
        → IsGraph n g
        → IsMore g (add_after initialized index_of i targets g)
    unfolding add_after
    add_after-IsMore i [] g h inv = refl-IsMore g inv
    add_after-IsMore i (t ∷ targets) g h inv =
        let edge : ℕ → Graph → Graph = λ j. add_edge j i in
        let first =
          step-IsMore edge g t g (refl-IsMore g inv) (λ j hj. add_edge-IsMore j i g hj h inv) inv in
        then-IsMore g (target_step edge g t g) (add_after initialized index_of i (t ∷ targets) g)
          first (add_after-IsMore i targets (target_step edge g t g) h first.graph)

    step-Edge :
        (edge : ℕ → Graph → Graph) (skipped : Graph) (t : String) (j u v : ℕ) (g : Graph)
        → includes initialized t ≡ false
        → Map.lookup t index_of ≡ some j
        → Edge (edge j g) u v
        → Edge (target_step edge skipped t g) u v
    step-Edge edge skipped t j u v g new found e = rw (new, found) e

    add_edge-there : (u v : ℕ) (g : Graph) → u < n → IsGraph n g → Edge (add_edge u v g) u v
    add_edge-there u v g hu inv = ground (arith, Edge-add_edge n u v u v g hu inv)

    pub add_before-Edge :
        (id : String) (i : ℕ) (targets : List String) (g : Graph) (t : String) (j : ℕ)
        → i < n
        → IsGraph n g
        → includes targets t ≡ true
        → includes initialized t ≡ false
        → Map.lookup t index_of ≡ some j
        → Edge (add_before initialized index_of id i targets g) i j
    unfolding add_before
    add_before-Edge id i [] g t j h inv listed new found = absurd (ground arith)
    add_before-Edge id i (s ∷ targets) g t j h inv listed new found =
        let noted = record g { conflicts = g.conflicts ++ (id, s) ∷ [] } in
        let next = target_step (add_edge i) noted s g in
        let first =
          step-IsMore (add_edge i) noted s g
            (noted-IsMore g g.unknown (g.conflicts ++ (id, s) ∷ []) inv)
            (λ j hj. add_edge-IsMore i j g h hj inv) inv in
        elim (Bool-cases (s == t)) [
          | inl hit ↦
              let same = sym ((string_key.same_iff s t).0 hit) in
              (add_before-IsMore id i targets next h first.graph).more i j (
                step-Edge (add_edge i) noted s j i j g
                  (subst (λ x. includes initialized x ≡ false) same new)
                  (subst (λ x. Map.lookup x index_of ≡ some j) same found)
                  (add_edge-there i j g h inv))
          | inr miss ↦ add_before-Edge id i targets next t j h first.graph (ground arith) new found
        ]

    pub add_after-Edge :
        (i : ℕ) (targets : List String) (g : Graph) (t : String) (j : ℕ)
        → i < n
        → IsGraph n g
        → includes targets t ≡ true
        → includes initialized t ≡ false
        → Map.lookup t index_of ≡ some j
        → Edge (add_after initialized index_of i targets g) j i
    unfolding add_after
    add_after-Edge i [] g t j h inv listed new found = absurd (ground arith)
    add_after-Edge i (s ∷ targets) g t j h inv listed new found =
        let edge : ℕ → Graph → Graph = λ j. add_edge j i in
        let next = target_step edge g s g in
        let first =
          step-IsMore edge g s g (refl-IsMore g inv) (λ j hj. add_edge-IsMore j i g hj h inv) inv in
        elim (Bool-cases (s == t)) [
          | inl hit ↦
              let same = sym ((string_key.same_iff s t).0 hit) in
              (add_after-IsMore i targets next h first.graph).more j i (
                step-Edge edge g s j j i g (subst (λ x. includes initialized x ≡ false) same new)
                  (subst (λ x. Map.lookup x index_of ≡ some j) same found)
                  (add_edge-there j i g (below t j found) inv))
          | inr miss ↦ add_after-Edge i targets next t j h first.graph (ground arith) new found
        ]
