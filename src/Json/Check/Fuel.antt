-- ===== src/Json/Check/Fuel.antt =====
-- The recursion of `checkJson` ends: each object on the way down is new to `seen`.
use u.Base.{
  ℕ, zero, suc, ◌+◌, ◌≤◌, ◌<◌, ◌≡◌, refl, inl, inr, true, false, Option, none, some, List, [], ◌∷◌,
  arith, nat_key, ◌==◌, includes, if◌then◌else◌, length, nat_beq_iff, Bool-cases, Option-cases,
}
use u.Base.Map
use u.Json.{
  Value, undefined, null, opaque, boolean, number, string, ref, Node, Heap, Document, Seen, every,
  children, check_json,
}

-- The addresses of the heap that have not been seen.
abbrev pub unseen : Heap → List ℕ → ℕ
unseen [] seen = 0
unseen ((j, n) ∷ h) seen = (if includes seen j then 0 else 1) + unseen h seen

pub unseen-cons-le : (a : ℕ) (h : Heap) (seen : List ℕ) → unseen h (a ∷ seen) ≤ unseen h seen
unseen-cons-le a [] seen = omega arith
unseen-cons-le a ((j, n) ∷ h) seen = ground (arith, unseen-cons-le a h seen)

pub unseen-cons-lt :
    (a : ℕ) (h : Heap) (seen : List ℕ) (n : Node)
    → Map.lookup a h ≡ some n
    → includes seen a ≡ false
    → unseen h (a ∷ seen) < unseen h seen
unfolding Map.lookup
unseen-cons-lt a [] seen n found new = cc
unseen-cons-lt a ((j, m) ∷ h) seen n found new = elim (Bool-cases (j == a)) [
  | inl hit ↦ rw ((nat_beq_iff j a).0 hit, new) (ground (arith, unseen-cons-le a h seen))
  | inr miss ↦ ground (arith, unseen-cons-lt a h seen n, unseen-cons-le a h seen)
]

-- What a visit returns: a verdict, with no more left to see.
abbrev Visited : Heap → List ℕ → Option Seen → Type 0
Visited h seen r = (s : Seen) × (r ≡ some s) × (unseen h s.1 ≤ unseen h seen)

module _ (h : Heap) (visit : Value → List ℕ → Option Seen) where
  every-step :
      (v : Value) (vs : List Value) (seen : List ℕ)
      → Visited h seen (visit v seen)
      → ((seen' : List ℕ) → unseen h seen' ≤ unseen h seen → Visited h seen' (every visit vs seen'))
      → Visited h seen (every visit (v ∷ vs) seen)
  unfolding every
  every-step v vs seen ((false, s), e, le) next = ((false, s), ground arith, le)
  every-step v vs seen ((true, s), e, le) next =
      let (r, e', le') = next s le in (r, ground arith, omega arith)

  every-Visited :
      (k : ℕ)
      → ((v : Value) (seen : List ℕ) → unseen h seen < k → Visited h seen (visit v seen))
      → (vs : List Value) (seen : List ℕ) → unseen h seen < k
      → Visited h seen (every visit vs seen)
  unfolding every
  every-Visited k runs [] seen lt = ((true, seen), refl, omega arith)
  every-Visited k runs (v ∷ vs) seen lt =
      every-step v vs seen (runs v seen lt)
        (λ seen' le. every-Visited k runs vs seen' (omega arith))

-- The node at an address that is new: what is left to see has fallen.
node-Visited :
    (fuel : ℕ) (h : Heap) (a : ℕ) (seen : List ℕ) (n : Option (List Value))
    → unseen h (a ∷ seen) ≤ unseen h seen
    → ((items : List Value) → Visited h (a ∷ seen) (every (check_json fuel h) items (a ∷ seen)))
    → Visited h seen (elim n [
      | none ↦ some (false, a ∷ seen)
      | some items ↦ every (check_json fuel h) items (a ∷ seen)
    ])
node-Visited fuel h a seen none le inside = ((false, a ∷ seen), refl, le)
node-Visited fuel h a seen (some items) le inside =
    let (r, e, le') = inside items in (r, e, omega arith)

check-Visited :
    (fuel : ℕ) (h : Heap) (v : Value) (seen : List ℕ)
    → unseen h seen < fuel
    → Visited h seen (check_json fuel h v seen)
unfolding check_json
check-Visited zero h v seen lt = absurd (omega arith)
check-Visited (suc fuel) h undefined seen lt = (_, refl, omega arith)
check-Visited (suc fuel) h null seen lt = (_, refl, omega arith)
check-Visited (suc fuel) h opaque seen lt = (_, refl, omega arith)
check-Visited (suc fuel) h (boolean b) seen lt = (_, refl, omega arith)
check-Visited (suc fuel) h (number n) seen lt = (_, refl, omega arith)
check-Visited (suc fuel) h (string s) seen lt = (_, refl, omega arith)
check-Visited (suc fuel) h (ref a) seen lt = elim (Bool-cases (includes seen a)) [
  | inl old ↦ ((false, seen), rw old refl, omega arith)
  | inr new ↦ elim (Option-cases (Map.lookup a h)) [
    | inl missing ↦ ((false, a ∷ seen), rw (new, missing) refl, unseen-cons-le a h seen)
    | inr (n, found) ↦
        let lower = unseen-cons-lt a h seen n found new in
        rw (new, found)
          (node-Visited fuel h a seen (children n) (omega arith) (λ items.
            every-Visited h (check_json fuel h) fuel (check-Visited fuel h) items (a ∷ seen)
              (omega arith)))
  ]
]

-- With more fuel than the heap has addresses that were not seen, the check ends.
pub check_json_total :
    (fuel : ℕ) (h : Heap) (v : Value) (seen : List ℕ)
    → unseen h seen < fuel
    → (r : Seen) × (check_json fuel h v seen ≡ some r)
check_json_total fuel h v seen lt = let (r, e, le) = check-Visited fuel h v seen lt in (r, e)

pub unseen-le-length : (h : Heap) (seen : List ℕ) → unseen h seen ≤ length h
unseen-le-length [] seen = omega arith
unseen-le-length ((j, n) ∷ h) seen = ground (arith, unseen-le-length h seen)

-- The fuel that `is_json_value` gives is enough, for every document.
pub is_json_value_runs :
    (d : Document) → (r : Seen) × (check_json (suc (length d.heap)) d.heap d.root [] ≡ some r)
is_json_value_runs d =
    check_json_total (suc (length d.heap)) d.heap d.root []
      (omega (arith, unseen-le-length d.heap []))
