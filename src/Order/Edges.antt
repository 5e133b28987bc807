-- ===== src/Order/Edges.antt =====
-- The graph that `collectEdges` builds.
use u.Base.{
  ℕ, zero, suc, ◌+◌, ◌<◌, ◌≡◌, refl, sym, ap, subst, ◌∙◌, Bool, true, false, ◌&&◌, ◌||◌, List, [],
  ◌∷◌, ◌++◌, nat_key, string_key, ◌==◌, includes, get_or, set, length, length-set, if◌then◌else◌,
  Unique, Unique-concat, includes-append, inl, inr, Bool-cases, arith,
}
use u.Order.{Graph, has_edge, add_edge}
use u.Order.Kahn.{open_by}

abbrev pub Edge : Graph → ℕ → ℕ → Type 0
Edge g u v = includes (get_or g.successors u []) v ≡ true

pub record IsGraph (n : ℕ) (g : Graph) : Type 0 where
  pub counts : (v : ℕ) → get_or g.indegree v 0 ≡ open_by (λ i. false) g.successors v
  pub keys : (u v : ℕ) → has_edge g.edge_keys u v ≡ includes (get_or g.successors u []) v
  pub unique : (u : ℕ) → Unique (get_or g.successors u [])
  pub below : (u v : ℕ) → Edge g u v → v < n
  pub length_successors : length g.successors ≡ n
  pub length_indegree : length g.indegree ≡ n

get_or-set {ℓ} :
    {A : Type ℓ} (xs : List A) (i j : ℕ) (x d : A)
    → i < length xs
    → get_or (set xs i x) j d ≡ (if i == j then x else get_or xs j d)
get_or-set [] i j x d h = ground arith
get_or-set (y ∷ xs) zero zero x d h = refl
get_or-set (y ∷ xs) zero (suc j) x d h = ground arith
get_or-set (y ∷ xs) (suc i) zero x d h = ground arith
get_or-set (y ∷ xs) (suc i) (suc j) x d h = ground (arith, get_or-set xs i j x d)

-- A new edge into `v` counts for `v` alone.
open_by-set :
    (lists : List (List ℕ)) (u v w : ℕ)
    → u < length lists
    → includes (get_or lists u []) v ≡ false
    → open_by (λ i. false) (set lists u (get_or lists u [] ++ v ∷ [])) w
      ≡ open_by (λ i. false) lists w + (if v == w then 1 else 0)
open_by-set [] u v w h new = ground arith
open_by-set (vs ∷ lists) zero v w h new = elim (Bool-cases (v == w)) [
  | inl hit ↦
      let same = subst (λ x. includes vs x ≡ false) ((nat_key.same_iff v w).0 hit) new in
      ground (arith, includes-append vs (v ∷ []) w)
  | inr miss ↦ ground (arith, includes-append vs (v ∷ []) w)
]
open_by-set (vs ∷ lists) (suc u) v w h new = ground (arith, open_by-set lists u v w)

abbrev with_edge : ℕ → ℕ → Graph → Graph
with_edge u v g = record g {
  edge_keys = (u, v) ∷ g.edge_keys;
  successors = set g.successors u (get_or g.successors u [] ++ v ∷ []);
  indegree = set g.indegree v (get_or g.indegree v 0 + 1);
}

Edge-with_edge :
    (u v a b : ℕ) (g : Graph)
    → u < length g.successors
    → includes (get_or (with_edge u v g).successors a []) b
      ≡ (includes (get_or g.successors a []) b || (u == a && v == b))
Edge-with_edge u v a b g h = elim (Bool-cases (u == a)) [
  | inl hit ↦
      subst
        (λ x.
          includes (get_or (with_edge u v g).successors x []) b
          ≡ (includes (get_or g.successors x []) b || (u == x && v == b)))
        ((nat_key.same_iff u a).0 hit)
        (ground (
          arith,
          get_or-set g.successors u u (get_or g.successors u [] ++ v ∷ []) [],
          includes-append (get_or g.successors u []) (v ∷ []) b,
        ))
  | inr miss ↦ ground (arith, get_or-set g.successors u a (get_or g.successors u [] ++ v ∷ []) [])
]

with_edge-Unique :
    (u v a : ℕ) (g : Graph)
    → u < length g.successors
    → includes (get_or g.successors u []) v ≡ false
    → ((x : ℕ) → Unique (get_or g.successors x []))
    → Unique (get_or (with_edge u v g).successors a [])
with_edge-Unique u v a g h new unique = elim (Bool-cases (u == a)) [
  | inl hit ↦
      subst (λ x. Unique (get_or (with_edge u v g).successors x [])) ((nat_key.same_iff u a).0 hit)
        (ground (
          arith,
          get_or-set g.successors u u (get_or g.successors u [] ++ v ∷ []) [],
          Unique-concat (get_or g.successors u []) v (unique u) new,
        ))
  | inr miss ↦
      ground (arith, get_or-set g.successors u a (get_or g.successors u [] ++ v ∷ []) [], unique a)
]

with_edge-IsGraph :
    (n u v : ℕ) (g : Graph)
    → u < n
    → v < n
    → includes (get_or g.successors u []) v ≡ false
    → IsGraph n g
    → IsGraph n (with_edge u v g)
with_edge-IsGraph n u v g hu hv new inv = record {
  counts = λ w. ground (
    arith,
    inv.counts w,
    inv.counts v,
    inv.length_indegree,
    open_by-set g.successors u v w (ground (arith, inv.length_successors)) new,
    get_or-set g.indegree v w (get_or g.indegree v 0 + 1) 0,
    same_count w,
  );
  keys = λ a b.
      ground
        (arith, inv.keys a b, Edge-with_edge u v a b g (ground (arith, inv.length_successors)));
  unique = λ a. with_edge-Unique u v a g (ground (arith, inv.length_successors)) new inv.unique;
  below = λ a b t.
      ground
        (arith, inv.below a b, Edge-with_edge u v a b g (ground (arith, inv.length_successors)));
  length_successors =
      length-set g.successors u (get_or g.successors u [] ++ v ∷ []) ∙ inv.length_successors;
  length_indegree = length-set g.indegree v (get_or g.indegree v 0 + 1) ∙ inv.length_indegree;
}
  where
    same_count : (w : ℕ) → v == w ≡ true → get_or g.indegree v 0 ≡ get_or g.indegree w 0
    same_count w t = ap (λ x. get_or g.indegree x 0) ((nat_key.same_iff v w).0 t)

add_edge-new :
    (u v : ℕ) (g : Graph) → has_edge g.edge_keys u v ≡ false → add_edge u v g ≡ with_edge u v g
unfolding add_edge
add_edge-new u v g h = rw h refl

add_edge-old : (u v : ℕ) (g : Graph) → has_edge g.edge_keys u v ≡ true → add_edge u v g ≡ g
unfolding add_edge
add_edge-old u v g h = rw h refl

pub add_edge-IsGraph :
    (n u v : ℕ) (g : Graph) → u < n → v < n → IsGraph n g → IsGraph n (add_edge u v g)
add_edge-IsGraph n u v g hu hv inv = elim (Bool-cases (has_edge g.edge_keys u v)) [
  | inl old ↦ subst (IsGraph n) (sym (add_edge-old u v g old)) inv
  | inr new ↦
      subst (IsGraph n) (sym (add_edge-new u v g new))
        (with_edge-IsGraph n u v g hu hv (sym (inv.keys u v) ∙ new) inv)
]

pub Edge-add_edge :
    (n u v a b : ℕ) (g : Graph)
    → u < n
    → IsGraph n g
    → includes (get_or (add_edge u v g).successors a []) b
      ≡ (includes (get_or g.successors a []) b || (u == a && v == b))
Edge-add_edge n u v a b g h inv = elim (Bool-cases (has_edge g.edge_keys u v)) [
  | inl old ↦
      ap (λ x. includes (get_or x.successors a []) b) (add_edge-old u v g old)
      ∙ held (u == a && v == b) (there old)
  | inr new ↦
      ap (λ x. includes (get_or x.successors a []) b) (add_edge-new u v g new)
      ∙ Edge-with_edge u v a b g (ground (arith, inv.length_successors))
]
  where
    held :
        (t : Bool)
        → (t ≡ true → includes (get_or g.successors a []) b ≡ true)
        → includes (get_or g.successors a []) b ≡ (includes (get_or g.successors a []) b || t)
    held t h = ground (arith, h)

    there :
        has_edge g.edge_keys u v ≡ true
        → (u == a && v == b) ≡ true
        → includes (get_or g.successors a []) b ≡ true
    there old t =
        let first : u ≡ a = (nat_key.same_iff u a).0 (ground arith) in
        let second : v ≡ b = (nat_key.same_iff v b).0 (ground arith) in
        subst (λ x. includes (get_or g.successors x []) b ≡ true) first
          (subst (λ y. includes (get_or g.successors u []) y ≡ true) second
            (sym (inv.keys u v) ∙ old))
