-- ===== src/Json/Check/Shared.antt =====
-- A value that is reached twice is refused, also where no cycle is.
use u.Base.{
  ℕ, ◌≡◌, refl, subst, inl, inr, true, false, some, List, [], ◌∷◌, ◌++◌, arith, nat_key, includes,
  nat_beq_iff, Bool-cases,
}
use u.Base.Map
use u.Json.{Value, ref, Node, array, Heap, children, is_json_value}
use u.Json.Check.Exact.{Tree, node, Trees, cons, onto, Fresh, Fresh-append, is_json_value_iff}

includes-onto : (at s : List ℕ) (a : ℕ) → includes s a ≡ true → includes (onto at s) a ≡ true
includes-onto [] s a h = h
includes-onto (x ∷ at) s a h = includes-onto at (x ∷ s) a (ground arith)

-- The trees of an array and of its items.
Tree-ref :
    (h : Heap) {v : Value} {at : List ℕ}
    → Tree h v at
    → (a : ℕ) → v ≡ ref a
    → (n : Node) × (items : List Value) × (rest : List ℕ) × (Map.lookup a h ≡ some n)
      × (children n ≡ some items)
      × (at ≡ a ∷ rest)
      × Trees h items rest
Tree-ref h Tree.null a e = absurd (cc)
Tree-ref h (Tree.boolean b) a e = absurd (cc)
Tree-ref h (Tree.number n fin) a e = absurd (cc)
Tree-ref h (Tree.string s) a e = absurd (cc)
Tree-ref h (node {a = b} {items = items} {at = at} n found inside trees) a e =
    (n, items, at, ground arith, inside, ground arith, trees)

Trees-cons :
    (h : Heap) {vs : List Value} {at : List ℕ}
    → Trees h vs at
    → (v : Value) (ws : List Value) → vs ≡ v ∷ ws
    → (xs ys : List ℕ) × Tree h v xs × Trees h ws ys × (at ≡ xs ++ ys)
Trees-cons h Trees.nil v ws e = absurd (cc)
Trees-cons h (cons {v = w} {vs = us} {at = xs} {bs = ys} tree trees at) v ws e = (
  xs,
  ys,
  subst (λ u. Tree h u xs) (ground arith) tree,
  subst (λ u. Trees h u ys) (ground arith) trees,
  at,
)

-- No fresh list of addresses names one address at the head of two of its parts.
Fresh-twice : (a : ℕ) (xs ys zs s : List ℕ) → ¬ Fresh ((a ∷ xs) ++ ((a ∷ ys) ++ zs)) s
Fresh-twice a xs ys zs s fresh =
    let later = (Fresh-append xs ((a ∷ ys) ++ zs) (a ∷ s)).0 fresh.1 in
    let again = includes-onto xs (a ∷ s) a (ground (arith, nat_beq_iff a a)) in
    cc (later.1.0, again)

items-refused :
    (h : Heap) (a : ℕ) (rest : List Value) (at s : List ℕ)
    → Trees h (ref a ∷ ref a ∷ rest) at
    → ¬ Fresh at s
items-refused h a rest at s trees fresh =
    let (xs, ys, first, others, e) = Trees-cons h trees (ref a) (ref a ∷ rest) refl in
    let (xs', ys', second, _, e') = Trees-cons h others (ref a) rest refl in
    let (_, _, us, _, _, d, _) = Tree-ref h first a refl in
    let (_, _, vs, _, _, d', _) = Tree-ref h second a refl in
    let path : at ≡ (a ∷ us) ++ ((a ∷ vs) ++ ys') = cc (e, e', d, d') in
    Fresh-twice a us vs ys' s (subst (λ l. Fresh l s) path fresh)

-- An array that begins with the same array or object twice is refused, whatever the rest is.
pub shared_refused :
    (h : Heap) (r a : ℕ) (rest : List Value)
    → Map.lookup r h ≡ some (array (ref a ∷ ref a ∷ rest))
    → is_json_value (record { heap = h; root = ref r }) ≡ false
shared_refused h r a rest found =
    elim (Bool-cases (is_json_value (record { heap = h; root = ref r }))) [
      | inr no' ↦ no'
      | inl yes' ↦
          let (at, tree, fresh) = (is_json_value_iff (record { heap = h; root = ref r })).0 yes' in
          let (n, items, rest', found', inside, e, trees) = Tree-ref h tree r refl in
          let list : items ≡ ref a ∷ ref a ∷ rest = unfold children in ground arith in
          absurd (
            items-refused h a rest rest' (r ∷ []) (subst (λ l. Trees h l rest') list trees)
              (subst (λ l. Fresh l []) e fresh).1)
    ]
