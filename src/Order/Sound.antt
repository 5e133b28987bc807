-- ===== src/Order/Sound.antt =====
-- What `planOrder` returns.
use u.Base.{
  ℕ, ◌≡◌, sym, ap, subst, ◌∙◌, true, ◌||◌, List, [], nat_key, string_key, String, ltb, includes,
  get_elem?, length, Unique, Unique-full, inl, inr, Bool-cases, lt→ltb, some, arith,
}
use u.Base.Map.{Map}
use u.Order.{OrderNodeInput, Graph, fine, and_then, validate_identities, collect_edges}
use u.Order.Kahn.{precedes}
use u.Order.Edges.{IsGraph}
use u.Order.Index.{index_ids-IsIndex}
use u.Order.Loop.{IsKahn, plan_loop-IsKahn}
use u.Order.Start.{roots-IsKahn}
use u.Order.Schedule.{comes_before, plan_loop, roots, finish, schedule, plan_order}
use u.Order.Collected.{
  and_then-fine, IsValidated, validate_identities-IsValidated, IsCollected,
  collect_edges-IsCollected, index_below, get_elem?-below, separate_id,
}

-- The loop of `schedule` ends on the graph that was collected: its fuel is enough.
schedule_runs :
    (nodes : List OrderNodeInput) (g : Graph)
    → IsGraph (length nodes) g
    → (out : List ℕ × List ℕ) × (plan_loop
          (comes_before nodes)
          g.successors
          (length nodes)
          (roots 0 g.indegree)
          []
          g.indegree
        ≡ some out)
      × IsKahn g.successors (length nodes) [] out.0 out.1
schedule_runs nodes g inv =
    plan_loop-IsKahn g.successors (length nodes) inv.unique inv.below (comes_before nodes)
      (length nodes) (roots 0 g.indegree) [] g.indegree (omega arith)
      (roots-IsKahn (length nodes) g inv)

schedule-fine :
    (nodes : List OrderNodeInput) (g : Graph) (plan : List ℕ)
    → IsGraph (length nodes) g
    → schedule nodes g ≡ fine plan
    → (length plan ≡ length nodes) × ((ds : List ℕ) × IsKahn g.successors (length nodes) [] plan ds)
unfolding schedule
schedule-fine nodes g plan inv h =
    let (out, runs, kahn) = schedule_runs nodes g inv in
    finished out.0 out.1 kahn (ap (finish nodes g) (sym runs) ∙ h)
  where
    finished :
        (p ds : List ℕ)
        → IsKahn g.successors (length nodes) [] p ds
        → finish nodes g (some (p, ds)) ≡ fine plan
        → (length plan ≡ length nodes)
          × ((ds : List ℕ) × IsKahn g.successors (length nodes) [] plan ds)
    finished p ds kahn e =
        let same : p ≡ plan = ground arith in
        let full : length p ≡ length nodes = ground arith in
        subst
          (λ x.
            (length x ≡ length nodes)
            × ((ds : List ℕ) × IsKahn g.successors (length nodes) [] x ds))
          same (full, (ds, kahn))

-- What a plan rests on.
record IsPlanned (nodes : List OrderNodeInput) (initialized : List String) (plan : List ℕ)
    : Type 0 where
  index_of : Map String ℕ
  g : Graph
  ds : List ℕ
  validated : IsValidated nodes initialized index_of
  collected : IsCollected nodes initialized index_of g
  kahn : IsKahn g.successors (length nodes) [] plan ds
  full : length plan ≡ length nodes

plan_order-IsPlanned :
    (nodes : List OrderNodeInput) (initialized : List String) (plan : List ℕ)
    → plan_order nodes initialized ≡ fine plan
    → IsPlanned nodes initialized plan
unfolding plan_order
plan_order-IsPlanned nodes initialized plan h =
    let (index_of, valid, rest) =
      and_then-fine (validate_identities nodes initialized)
        (λ index_of. and_then (collect_edges nodes initialized index_of) (schedule nodes)) plan h in
    let (g, found, scheduled) =
      and_then-fine (collect_edges nodes initialized index_of) (schedule nodes) plan rest in
    let validated = validate_identities-IsValidated nodes initialized index_of valid in
    let collected =
      collect_edges-IsCollected nodes initialized index_of g
        (index_below nodes index_of validated.index) found in
    let (full, (ds, kahn)) = schedule-fine nodes g plan collected.graph scheduled in
    record {
      index_of = index_of;
      g = g;
      ds = ds;
      validated = validated;
      collected = collected;
      kahn = kahn;
      full = full;
    }

-- A plan holds the index of each node exactly once, and nothing else.
pub plan_order_once :
    (nodes : List OrderNodeInput) (initialized : List String) (plan : List ℕ)
    → plan_order nodes initialized ≡ fine plan
    → (i : ℕ) → Unique plan × (includes plan i ≡ ltb i (length nodes))
plan_order_once nodes initialized plan h i =
    let p = plan_order-IsPlanned nodes initialized plan h in
    (
      p.kahn.plan_unique,
      ground (
        arith,
        p.kahn.plan_below i,
        Unique-full (length nodes) plan p.kahn.plan_unique p.kahn.plan_below p.full i,
      ),
    )

-- A plan keeps every constraint: where a node names another in its `before`, or is named in the
-- other's `after`, it stands earlier in the plan.
pub plan_order_respects :
    (nodes : List OrderNodeInput) (initialized : List String) (plan : List ℕ) (i j : ℕ)
    (a b : OrderNodeInput)
    → plan_order nodes initialized ≡ fine plan
    → get_elem? nodes i ≡ some a
    → get_elem? nodes j ≡ some b
    → (includes a.before b.plug_id || includes b.after a.plug_id) ≡ true
    → precedes plan i j ≡ true
plan_order_respects nodes initialized plan i j a b h at_i at_j constraint =
    let p = plan_order-IsPlanned nodes initialized plan h in
    let index = index_ids-IsIndex nodes 0 [] p.index_of p.validated.index in
    let in_plan : includes plan j ≡ true =
      (plan_order_once nodes initialized plan h j).1
      ∙ lt→ltb j (length nodes) (get_elem?-below nodes j b at_j) in
    p.kahn.ordered i j in_plan (elim (Bool-cases (includes a.before b.plug_id)) [
      | inl before ↦
          (p.collected.edges i a at_i).before_edge b.plug_id j before
            (separate_id initialized nodes j b p.validated.separate at_j)
            (index.own j b at_j ∙ ap some (omega arith))
      | inr other ↦
          (p.collected.edges j b at_j).after_edge a.plug_id i (ground arith)
            (separate_id initialized nodes i a p.validated.separate at_i)
            (index.own i a at_i ∙ ap some (omega arith))
    ])

-- The loop of the planner ends: on the graph of nodes that were validated, the fuel that
-- `schedule` gives is enough.
pub plan_order_ends :
    (nodes : List OrderNodeInput) (initialized : List String) (index_of : Map String ℕ) (g : Graph)
    → validate_identities nodes initialized ≡ fine index_of
    → collect_edges nodes initialized index_of ≡ fine g
    → (out : List ℕ × List ℕ) × (plan_loop
          (comes_before nodes)
          g.successors
          (length nodes)
          (roots 0 g.indegree)
          []
          g.indegree
        ≡ some out)
plan_order_ends nodes initialized index_of g valid found =
    let validated = validate_identities-IsValidated nodes initialized index_of valid in
    let collected =
      collect_edges-IsCollected nodes initialized index_of g
        (index_below nodes index_of validated.index) found in
    let (out, runs, kahn) = schedule_runs nodes g collected.graph in (out, runs)
