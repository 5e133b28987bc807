-- ===== src/Order/Choice.antt =====
-- Which of the ready nodes is planned next.
use u.Base.{
  ℕ, zero, suc, ◌+◌, ◌≡◌, refl, String, Bool, true, false, Option, none, some, List, [], ◌∷◌,
  nat_key, ◌==◌, ◌||◌, includes, get_elem?, get_or, Bool-cases, inl, inr, ap, subst, sym, ◌∙◌,
  arith,
}
use u.Base.Int.{ℤ, pos, negsuc}
use u.Order.{OrderNodeInput, Priority, finite, not_finite}
use u.Order.Bytes.{
  Comparison, lowers, lower, same, higher, compare_bytes, compare_plug_ids, utf8, id_less,
}
use u.Order.Schedule.{int_eq, priority_before, node_before, comes_before, best_position}

lower_trans :
    (a b c : List ℕ)
    → compare_bytes a b ≡ lower
    → compare_bytes b c ≡ lower
    → compare_bytes a c ≡ lower
unfolding compare_bytes
lower_trans [] [] [] ab bc = ab
lower_trans [] (y ∷ b) [] ab bc = absurd (ground arith)
lower_trans [] b (z ∷ c) ab bc = refl
lower_trans (x ∷ a) [] c ab bc = absurd (ground arith)
lower_trans (x ∷ a) (y ∷ b) [] ab bc = absurd (ground arith)
lower_trans (x ∷ a) (y ∷ b) (z ∷ c) ab bc = ground (arith, lower_trans a b c)

compare_bytes_same : (a : List ℕ) → compare_bytes a a ≡ same
unfolding compare_bytes
compare_bytes_same [] = refl
compare_bytes_same (x ∷ a) = ground (arith, compare_bytes_same a)

id_less_irrefl : (a : String) → id_less a a ≡ false
unfolding id_less compare_plug_ids
id_less_irrefl a = ap lowers (compare_bytes_same (utf8 a))

is_lower : (c : Comparison) → lowers c ≡ true → c ≡ lower
is_lower lower h = refl
is_lower same h = absurd (cc)
is_lower higher h = absurd (cc)

id_less_trans : (a b c : String) → id_less a b ≡ true → id_less b c ≡ true → id_less a c ≡ true
unfolding id_less compare_plug_ids
id_less_trans a b c ab bc = ap lowers (
    lower_trans (utf8 a) (utf8 b) (utf8 c) (is_lower (compare_bytes (utf8 a) (utf8 b)) ab)
      (is_lower (compare_bytes (utf8 b) (utf8 c)) bc))

int_eq_eq : (a b : ℤ) → int_eq a b ≡ true → a ≡ b
int_eq_eq (pos a) (pos b) h = ap pos (ground arith)
int_eq_eq (pos a) (negsuc b) h = absurd (ground arith)
int_eq_eq (negsuc a) (pos b) h = absurd (ground arith)
int_eq_eq (negsuc a) (negsuc b) h = ap negsuc (ground arith)

priority_trans :
    (p q r : Priority) (s t u : Bool)
    → (s ≡ true → t ≡ true → u ≡ true)
    → priority_before p q s ≡ true
    → priority_before q r t ≡ true
    → priority_before p r u ≡ true
priority_trans not_finite q r s t u ids pq qr = absurd (ground arith)
priority_trans (finite a) not_finite r s t u ids pq qr = absurd (ground arith)
priority_trans (finite a) (finite b) not_finite s t u ids pq qr = absurd (ground arith)
priority_trans (finite (pos a)) (finite (pos b)) (finite (pos c)) s t u ids pq qr =
    ground (arith, ids)
priority_trans (finite (pos a)) (finite (pos b)) (finite (negsuc c)) s t u ids pq qr =
    ground (arith, ids)
priority_trans (finite (pos a)) (finite (negsuc b)) (finite c) s t u ids pq qr =
    absurd (ground arith)
priority_trans (finite (negsuc a)) (finite (pos b)) (finite (pos c)) s t u ids pq qr =
    ground (arith, ids)
priority_trans (finite (negsuc a)) (finite (pos b)) (finite (negsuc c)) s t u ids pq qr =
    absurd (ground arith)
priority_trans (finite (negsuc a)) (finite (negsuc b)) (finite (pos c)) s t u ids pq qr =
    ground (arith, ids)
priority_trans (finite (negsuc a)) (finite (negsuc b)) (finite (negsuc c)) s t u ids pq qr =
    ground (arith, ids)

priority_irrefl : (p : Priority) → priority_before p p false ≡ false
priority_irrefl (finite (pos a)) = ground arith
priority_irrefl (finite (negsuc a)) = ground arith
priority_irrefl not_finite = refl

node_trans :
    (a b c : OrderNodeInput)
    → node_before a b ≡ true
    → node_before b c ≡ true
    → node_before a c ≡ true
unfolding node_before
node_trans a b c ab bc =
    priority_trans a.priority b.priority c.priority (id_less a.plug_id b.plug_id)
      (id_less b.plug_id c.plug_id) (id_less a.plug_id c.plug_id)
      (id_less_trans a.plug_id b.plug_id c.plug_id) ab bc

node_irrefl : (a : OrderNodeInput) → node_before a a ≡ false
unfolding node_before
node_irrefl a =
    ap (priority_before a.priority a.priority) (id_less_irrefl a.plug_id)
    ∙ priority_irrefl a.priority

comes_before_trans :
    (nodes : List OrderNodeInput) (a b c : ℕ)
    → comes_before nodes a b ≡ true
    → comes_before nodes b c ≡ true
    → comes_before nodes a c ≡ true
unfolding comes_before
comes_before_trans nodes a b c ab bc =
    go (get_elem? nodes a) (get_elem? nodes b) (get_elem? nodes c) ab bc
  where
    at : Option OrderNodeInput → Option OrderNodeInput → Bool
    at o p = elim o [ none ↦ false | some l ↦ elim p [ none ↦ false | some r ↦ node_before l r ] ]

    go : (o p q : Option OrderNodeInput) → at o p ≡ true → at p q ≡ true → at o q ≡ true
    go none p q op pq = absurd (cc)
    go (some l) none q op pq = absurd (cc)
    go (some l) (some m) none op pq = absurd (cc)
    go (some l) (some m) (some r) op pq = node_trans l m r op pq

comes_before_irrefl : (nodes : List OrderNodeInput) (a : ℕ) → comes_before nodes a a ≡ false
unfolding comes_before
comes_before_irrefl nodes a = go (get_elem? nodes a) (get_elem? nodes a) refl
  where
    go :
        (o p : Option OrderNodeInput)
        → o ≡ p
        → elim o [ none ↦ false | some l ↦ elim p [ none ↦ false | some r ↦ node_before l r ] ]
          ≡ false
    go none p e = refl
    go (some l) none e = refl
    go (some l) (some r) e =
        let one : l ≡ r = ground arith in ap (node_before l) (sym one) ∙ node_irrefl l

get_elem?-get_or : (xs : List ℕ) (i j : ℕ) → get_elem? xs i ≡ some j → get_or xs i 0 ≡ j
get_elem?-get_or [] i j h = absurd (cc)
get_elem?-get_or (x ∷ xs) zero j h = ground arith
get_elem?-get_or (x ∷ xs) (suc i) j h = get_elem?-get_or xs i j h

-- Nothing that was seen comes before the best.
best_lem :
    (nodes : List OrderNodeInput) (all : List ℕ) (best best_at at : ℕ) (seen cs : List ℕ)
    → get_or all best_at 0 ≡ best
    → ((k : ℕ) → includes seen k ≡ true → comes_before nodes k best ≡ false)
    → ((i : ℕ) (k : ℕ) → get_elem? cs i ≡ some k → get_or all (at + i) 0 ≡ k)
    → (k : ℕ) → (includes seen k || includes cs k) ≡ true
    → comes_before nodes k (get_or all (best_position (comes_before nodes) best best_at at cs) 0)
      ≡ false
unfolding best_position
best_lem nodes all best best_at at seen [] here least places k h =
    ap (comes_before nodes k) here ∙ least k (ground arith)
best_lem nodes all best best_at at seen (c ∷ cs) here least places k h =
    elim (Bool-cases (comes_before nodes c best)) [
      | inl better ↦ rw better (
          best_lem nodes all c at (suc at) (c ∷ seen) cs first (least_now better) places_on k
            (ground arith))
      | inr worse ↦ rw worse (
          best_lem nodes all best best_at (suc at) (c ∷ seen) cs here (least_still worse) places_on
            k (ground arith))
    ]
  where
    first : get_or all at 0 ≡ c
    first = ap (λ i. get_or all i 0) (omega arith) ∙ places 0 c refl

    places_on : (i j : ℕ) → get_elem? cs i ≡ some j → get_or all (suc at + i) 0 ≡ j
    places_on i j there = ap (λ x. get_or all x 0) (omega arith) ∙ places (suc i) j there

    least_now :
        comes_before nodes c best ≡ true
        → (d : ℕ) → includes (c ∷ seen) d ≡ true
        → comes_before nodes d c ≡ false
    least_now better d there = elim (Bool-cases (comes_before nodes d c)) [
      | inr no_ ↦ no_
      | inl sooner ↦ elim (Bool-cases (c == d)) [
        | inl hit ↦
            subst (λ x. comes_before nodes x c ≡ false) ((nat_key.same_iff c d).0 hit)
              (comes_before_irrefl nodes c)
        | inr miss ↦
            absurd (cc (comes_before_trans nodes d c best sooner better, least d (ground arith)))
      ]
    ]

    least_still :
        comes_before nodes c best ≡ false
        → (d : ℕ) → includes (c ∷ seen) d ≡ true
        → comes_before nodes d best ≡ false
    least_still worse d there = elim (Bool-cases (c == d)) [
      | inl hit ↦
          subst (λ x. comes_before nodes x best ≡ false) ((nat_key.same_iff c d).0 hit) worse
      | inr miss ↦ least d (ground arith)
    ]

-- The ready node that is planned next is one that no ready node comes before: none has a lower
-- priority, and none of the same priority an id with lower bytes.
pub best_position_least :
    (nodes : List OrderNodeInput) (r : ℕ) (ready : List ℕ) (k : ℕ)
    → includes (r ∷ ready) k ≡ true
    → comes_before nodes k (get_or (r ∷ ready) (best_position (comes_before nodes) r 0 1 ready) 0)
      ≡ false
best_position_least nodes r ready k h =
    best_lem nodes (r ∷ ready) r 0 1 (r ∷ []) ready refl
      (λ j there.
        subst (λ x. comes_before nodes x r ≡ false) ((nat_key.same_iff r j).0 (ground arith))
          (comes_before_irrefl nodes r))
      (λ i j there.
        let next : 1 + i ≡ suc i = omega arith in
        ap (λ x. get_or (r ∷ ready) x 0) next ∙ get_elem?-get_or ready i j there)
      k (ground arith)
