-- ===== src/Json/Check/Exact.antt =====
-- What is accepted, exactly: a finite JSON tree whose arrays and objects are distinct.
use u.Base.{
  ℕ, zero, suc, ◌≤◌, ◌<◌, ◌≡◌, refl, sym, ap, subst, ◌∙◌, inl, inr, ◌↔◌, Bool, true, false, Option,
  none, some, List, [], ◌∷◌, ◌++◌, arith, nat_key, includes, length, Bool-cases, Option-cases,
}
use u.Base.Map
use u.Json.{
  JsNumber, Value, undefined, opaque, ref, Node, Heap, Document, Seen, is_finite, every, children,
  check_json, is_json_value,
}
use u.Json.Check.Fuel.{unseen, unseen-cons-le, unseen-cons-lt, is_json_value_runs, unseen-le-length}

-- A value is a JSON tree, and its arrays and objects are at the addresses listed, each before its
-- items.
mutual
  pub data Tree (h : Heap) : Value → List ℕ → Type 0 where
    null : Tree h Value.null []
    boolean : (b : Bool) → Tree h (Value.boolean b) []
    number : (n : JsNumber) → is_finite n ≡ true → Tree h (Value.number n) []
    string : (s : _) → Tree h (Value.string s) []
    node :
        {a : ℕ} {items : List Value} {at : List ℕ} (n : Node)
        → Map.lookup a h ≡ some n
        → children n ≡ some items
        → Trees h items at
        → Tree h (ref a) (a ∷ at)

  pub data Trees (h : Heap) : List Value → List ℕ → Type 0 where
    nil : Trees h [] []
    cons :
        {v : Value} {vs : List Value} {at bs cs : List ℕ}
        → Tree h v at
        → Trees h vs bs
        → cs ≡ at ++ bs
        → Trees h (v ∷ vs) cs

-- The set after a visit of these addresses.
abbrev pub onto : List ℕ → List ℕ → List ℕ
onto [] seen = seen
onto (a ∷ at) seen = onto at (a ∷ seen)

-- The addresses are distinct, and none of them was seen.
abbrev pub Fresh : List ℕ → List ℕ → Type 0
Fresh [] seen = Unit
Fresh (a ∷ at) seen = (includes seen a ≡ false) × Fresh at (a ∷ seen)

onto-append : (at bs seen : List ℕ) → onto (at ++ bs) seen ≡ onto bs (onto at seen)
onto-append [] bs seen = refl
onto-append (a ∷ at) bs seen = onto-append at bs (a ∷ seen)

pub Fresh-append :
    (at bs seen : List ℕ) → Fresh (at ++ bs) seen ↔ (Fresh at seen × Fresh bs (onto at seen))
Fresh-append [] bs seen = (λ f. (tt, f), λ f. f.1)
Fresh-append (a ∷ at) bs seen = (
  λ f. let (l, r) = (Fresh-append at bs (a ∷ seen)).0 f.1 in ((f.0, l), r),
  λ f. (f.0.0, (Fresh-append at bs (a ∷ seen)).1 (f.0.1, f.1)),
)

-- What an accepting visit has found.
abbrev Found : Heap → Value → List ℕ → List ℕ → Type 0
Found h v seen seen' = (at : List ℕ) × Tree h v at × Fresh at seen × (seen' ≡ onto at seen)

abbrev FoundAll : Heap → List Value → List ℕ → List ℕ → Type 0
FoundAll h vs seen seen' = (at : List ℕ) × Trees h vs at × Fresh at seen × (seen' ≡ onto at seen)

Found-cons :
    (h : Heap) (v : Value) (vs : List Value) (s t w : List ℕ)
    → Found h v s t
    → FoundAll h vs t w
    → FoundAll h (v ∷ vs) s w
Found-cons h v vs s t w (at, tree, fresh, e) (bs, trees, fresh', e') = (
  at ++ bs,
  cons tree trees refl,
  (Fresh-append at bs s).1 (fresh, subst (Fresh bs) e fresh'),
  e' ∙ ap (onto bs) e ∙ sym (onto-append at bs s),
)

-- A visit that accepts what is left has accepted each item in turn.
every-split :
    (visit : Value → List ℕ → Option Seen) (v : Value) (vs : List Value) (s w : List ℕ)
    → every visit (v ∷ vs) s ≡ some (true, w)
    → (t : List ℕ) × (visit v s ≡ some (true, t)) × (every visit vs t ≡ some (true, w))
unfolding every
every-split visit v vs s w h = go (visit v s) refl
  where
    go :
        (r : Option Seen)
        → visit v s ≡ r
        → (t : List ℕ) × (visit v s ≡ some (true, t)) × (every visit vs t ≡ some (true, w))
    go none e = absurd (ground arith)
    go (some (false, t)) e = absurd (ground arith)
    go (some (true, t)) e = (t, e, ground arith)

every-Found :
    (h : Heap) (visit : Value → List ℕ → Option Seen)
    → ((v : Value) (s t : List ℕ) → visit v s ≡ some (true, t) → Found h v s t)
    → (vs : List Value) (s w : List ℕ) → every visit vs s ≡ some (true, w)
    → FoundAll h vs s w
unfolding every
every-Found h visit sound [] s w e = ([], nil, tt, ground arith)
every-Found h visit sound (v ∷ vs) s w e =
    let (t, first, rest) = every-split visit v vs s w e in
    Found-cons h v vs s t w (sound v s t first) (every-Found h visit sound vs t w rest)

node-Found :
    (h : Heap) (a : ℕ) (n : Node) (s t : List ℕ) (items : List Value)
    → includes s a ≡ false
    → Map.lookup a h ≡ some n
    → children n ≡ some items
    → FoundAll h items (a ∷ s) t
    → Found h (ref a) s t
node-Found h a n s t items new found inside (at, trees, fresh, e) =
    (a ∷ at, node n found inside trees, (new, fresh), e)

-- The three tests that a reference passes.
check-ref :
    (fuel : ℕ) (h : Heap) (a : ℕ) (s t : List ℕ)
    → check_json (suc fuel) h (ref a) s ≡ some (true, t)
    → (n : Node) × (items : List Value) × (includes s a ≡ false)
      × (Map.lookup a h ≡ some n)
      × (children n ≡ some items)
      × (every (check_json fuel h) items (a ∷ s) ≡ some (true, t))
unfolding check_json
check-ref fuel h a s t e = elim (Bool-cases (includes s a)) [
  | inl old ↦ absurd (ground arith)
  | inr new ↦ elim (Option-cases (Map.lookup a h)) [
    | inl missing ↦ absurd (ground arith)
    | inr (n, found) ↦ elim (Option-cases (children n)) [
      | inl none' ↦ absurd (ground arith)
      | inr (items, inside) ↦ (n, items, new, found, inside, ground arith)
    ]
  ]
]

check-Found :
    (fuel : ℕ) (h : Heap) (v : Value) (s t : List ℕ)
    → check_json fuel h v s ≡ some (true, t)
    → Found h v s t
unfolding check_json
check-Found zero h (ref a) s t e = absurd (ground arith)
check-Found (suc fuel) h (ref a) s t e =
    let (n, items, new, found, inside, rest) = check-ref fuel h a s t e in
    node-Found h a n s t items new found inside
      (every-Found h (check_json fuel h) (check-Found fuel h) items (a ∷ s) t rest)
check-Found fuel h undefined s t e = absurd (ground arith)
check-Found fuel h Value.null s t e = ([], Tree.null, tt, ground arith)
check-Found fuel h opaque s t e = absurd (ground arith)
check-Found fuel h (Value.boolean b) s t e = ([], Tree.boolean b, tt, ground arith)
check-Found fuel h (Value.number n) s t e = ([], Tree.number n (ground arith), tt, ground arith)
check-Found fuel h (Value.string x) s t e = ([], Tree.string x, tt, ground arith)

unseen-onto-le : (h : Heap) (at s : List ℕ) → unseen h (onto at s) ≤ unseen h s
unseen-onto-le h [] s = omega arith
unseen-onto-le h (a ∷ at) s = omega (arith, unseen-onto-le h at (a ∷ s), unseen-cons-le a h s)

check-node :
    (fuel : ℕ) (h : Heap) (a : ℕ) (s t : List ℕ) (n : Node) (items : List Value)
    → includes s a ≡ false
    → Map.lookup a h ≡ some n
    → children n ≡ some items
    → every (check_json fuel h) items (a ∷ s) ≡ some (true, t)
    → check_json (suc fuel) h (ref a) s ≡ some (true, t)
unfolding check_json
check-node fuel h a s t n items new found inside rest = rw (new, found, inside) rest

every-cons :
    (visit : Value → List ℕ → Option Seen) (v : Value) (vs : List Value) (s t w : List ℕ)
    → visit v s ≡ some (true, t)
    → every visit vs t ≡ some (true, w)
    → every visit (v ∷ vs) s ≡ some (true, w)
unfolding every
every-cons visit v vs s t w e e' = ground arith

mutual
  unfolding every check_json

  check-Tree :
      (h : Heap) {v : Value} {at : List ℕ}
      → Tree h v at
      → (fuel : ℕ) (s : List ℕ) → Fresh at s
      → unseen h s < fuel
      → check_json fuel h v s ≡ some (true, onto at s)
  check-Tree h Tree.null fuel s fresh lt = refl
  check-Tree h (Tree.boolean b) fuel s fresh lt = refl
  check-Tree h (Tree.number n fin) fuel s fresh lt = rw fin refl
  check-Tree h (Tree.string x) fuel s fresh lt = refl
  check-Tree h (node n found inside trees) zero s fresh lt = absurd (omega arith)
  check-Tree h (node {a} {items} {at} n found inside trees) (suc fuel) s fresh lt =
      check-node fuel h a s (onto at (a ∷ s)) n items fresh.0 found inside (
        every-Trees h trees fuel (a ∷ s) fresh.1
          (omega (arith, unseen-cons-lt a h s n found fresh.0)))

  every-Trees :
      (h : Heap) {vs : List Value} {at : List ℕ}
      → Trees h vs at
      → (fuel : ℕ) (s : List ℕ) → Fresh at s
      → unseen h s < fuel
      → every (check_json fuel h) vs s ≡ some (true, onto at s)
  every-Trees h nil fuel s fresh lt = refl
  every-Trees h (cons {v} {vs} {at} {bs} {cs} tree trees e) fuel s fresh lt =
      let (first, rest) = (Fresh-append at bs s).0 (subst (λ xs. Fresh xs s) e fresh) in
      every-cons (check_json fuel h) v vs s (onto at s) (onto cs s)
        (check-Tree h tree fuel s first lt)
        (every-Trees h trees fuel (onto at s) rest (omega (arith, unseen-onto-le h at s))
          ∙ ap (λ w. some (true, w)) (sym (onto-append at bs s) ∙ ap (λ xs. onto xs s) (sym e)))

is_json_value-check :
    (d : Document)
    → (is_json_value d ≡ true)
      ↔ ((s : List ℕ) × (check_json (suc (length d.heap)) d.heap d.root [] ≡ some (true, s)))
unfolding is_json_value
is_json_value-check d = let ((b, s), e) = is_json_value_runs d in go b s e
  where
    go :
        (b : Bool) (s : List ℕ)
        → check_json (suc (length d.heap)) d.heap d.root [] ≡ some (b, s)
        → (is_json_value d ≡ true)
          ↔ ((s : List ℕ) × (check_json (suc (length d.heap)) d.heap d.root [] ≡ some (true, s)))
    go true s e = (λ _. (s, e), λ _. rw (e, is_json_value) refl)
    go false s e = (λ h. absurd (ground arith), λ (s', e'). absurd (ground arith))

-- A value is accepted exactly when it is a finite tree of JSON values, its numbers finite and its
-- objects plain, in which no array or object is reached twice.
pub is_json_value_iff :
    (d : Document)
    → (is_json_value d ≡ true) ↔ ((at : List ℕ) × Tree d.heap d.root at × Fresh at [])
is_json_value_iff d = (
  λ accepted.
      let (s, e) = (is_json_value-check d).0 accepted in
      let (at, tree, fresh, _) = check-Found (suc (length d.heap)) d.heap d.root [] s e in
      (at, tree, fresh),
  λ (at, tree, fresh). (is_json_value-check d).1 (
    onto at [],
    check-Tree d.heap tree (suc (length d.heap)) [] fresh
        (omega (arith, unseen-le-length d.heap [])),
  ),
)
