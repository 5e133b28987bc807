-- ===== src/Order/Least.antt =====
-- ts/src/core/order.ts: which of the ready nodes is planned next, told by an order of priorities and
-- of bytes that owes nothing to the comparison of the code.
use u.Base.{
  ap, ℕ, ◌<◌, ◌≡◌, ◌⊎◌, inl, inr, subst, true, false, some, List, [], ◌∷◌, nat_key, ◌==◌, includes,
  get_elem?, get_or, Bool-cases, arith,
}
use u.Base.Int.{ℤ, pos, negsuc, less}
use u.Order.{OrderNodeInput, finite}
use u.Order.Bytes.{lowers, compare_bytes, compare_plug_ids, utf8, id_less}
use u.Order.Schedule.{int_eq, priority_before, node_before, comes_before, best_position}
use u.Order.Choice.{best_position_least}

pub data IntLt : ℤ → ℤ → Type 0 where
  naturals : (a b : ℕ) → a < b → IntLt (pos a) (pos b)
  by_sign : (a b : ℕ) → IntLt (negsuc a) (pos b)
  negatives : (a b : ℕ) → b < a → IntLt (negsuc a) (negsuc b)

-- A prefix, or lower at the first difference.
pub data BytesLe : List ℕ → List ℕ → Type 0 where
  ends : (bs : List ℕ) → BytesLe [] bs
  differs : (a b : ℕ) (as_ bs : List ℕ) → a < b → BytesLe (a ∷ as_) (b ∷ bs)
  agrees : (a : ℕ) (as_ bs : List ℕ) → BytesLe as_ bs → BytesLe (a ∷ as_) (a ∷ bs)

compare_bytes-BytesLe : (a b : List ℕ) → lowers (compare_bytes a b) ≡ false → BytesLe b a
unfolding compare_bytes
compare_bytes-BytesLe a [] h = ends a
compare_bytes-BytesLe [] (y ∷ b) h = absurd (cc)
compare_bytes-BytesLe (x ∷ a) (y ∷ b) h = elim (Bool-cases (x == y)) [
  | inl hit ↦
      subst (λ z. BytesLe (z ∷ b) (x ∷ a)) ((nat_key.same_iff x y).0 hit)
        (agrees x b a (compare_bytes-BytesLe a b (ground arith)))
  | inr miss ↦ differs y x b a (ground arith)
]

less-IntLt : (z w : ℤ) → int_eq w z ≡ false → less w z ≡ false → IntLt z w
less-IntLt (pos a) (pos b) apart h = naturals a b (ground arith)
less-IntLt (pos a) (negsuc b) apart h = absurd (ground arith)
less-IntLt (negsuc a) (pos b) apart h = by_sign a b
less-IntLt (negsuc a) (negsuc b) apart h = negatives a b (ground arith)

int_eq-eq : (z w : ℤ) → int_eq w z ≡ true → z ≡ w
int_eq-eq (pos a) (pos b) h = ap pos (ground arith)
int_eq-eq (pos a) (negsuc b) h = absurd (ground arith)
int_eq-eq (negsuc a) (pos b) h = absurd (ground arith)
int_eq-eq (negsuc a) (negsuc b) h = ap negsuc (ground arith)

-- A lower priority, or the same and an id whose bytes are not higher.
abbrev AtLeast : OrderNodeInput → OrderNodeInput → ℤ → ℤ → Type 0
AtLeast l r z w = IntLt z w ⊎ ((z ≡ w) × BytesLe (utf8 l.plug_id) (utf8 r.plug_id))

priority-AtLeast :
    (l r : OrderNodeInput) (z w : ℤ)
    → priority_before
        (finite w)
        (finite z)
        (lowers (compare_bytes (utf8 r.plug_id) (utf8 l.plug_id)))
      ≡ false
    → AtLeast l r z w
priority-AtLeast l r z w h = elim (Bool-cases (int_eq w z)) [
  | inl hit ↦
      inr
        (int_eq-eq z w hit, compare_bytes-BytesLe (utf8 r.plug_id) (utf8 l.plug_id) (ground arith))
  | inr miss ↦ inl (less-IntLt z w miss (ground arith))
]

node_before-AtLeast :
    (l r : OrderNodeInput) (z w : ℤ)
    → l.priority ≡ finite z
    → r.priority ≡ finite w
    → node_before r l ≡ false
    → AtLeast l r z w
unfolding node_before id_less compare_plug_ids
node_before-AtLeast l r z w low high h = priority-AtLeast l r z w (cc)

comes_before-node_before :
    (nodes : List OrderNodeInput) (i k : ℕ) (l r : OrderNodeInput)
    → get_elem? nodes i ≡ some l
    → get_elem? nodes k ≡ some r
    → comes_before nodes k i ≡ false
    → node_before r l ≡ false
unfolding comes_before
comes_before-node_before nodes i k l r at_i at_k h = cc

-- The ready node that is planned next has, against every ready node, a lower priority, or the same
-- priority and an id whose UTF-8 bytes are the same or come first, where both priorities are
-- numbers.
pub planned_next_least :
    (nodes : List OrderNodeInput) (r : ℕ) (ready : List ℕ) (k : ℕ) (chosen other : OrderNodeInput)
    (z w : ℤ)
    → includes (r ∷ ready) k ≡ true
    → get_elem? nodes (get_or (r ∷ ready) (best_position (comes_before nodes) r 0 1 ready) 0)
      ≡ some chosen
    → get_elem? nodes k ≡ some other
    → chosen.priority ≡ finite z
    → other.priority ≡ finite w
    → IntLt z w ⊎ ((z ≡ w) × BytesLe (utf8 chosen.plug_id) (utf8 other.plug_id))
planned_next_least nodes r ready k chosen other z w there at_best at_k low high =
    node_before-AtLeast chosen other z w low high (
      comes_before-node_before nodes _ k chosen other at_best at_k
        (best_position_least nodes r ready k there))
