-- ===== src/Order/Kahn.antt =====
-- The predecessors that are still open, and the order of a plan.
use u.Base.{
  ℕ, zero, suc, ◌+◌, ◌≡◌, refl, Bool, true, false, not, ◌&&◌, ◌||◌, List, [], ◌∷◌, ◌++◌, nat_key,
  ◌==◌, includes, get_or, if◌then◌else◌, includes-append, arith,
}

-- How many of the lists hold `v` at an index that is not done.
abbrev pub open_by : (ℕ → Bool) → List (List ℕ) → ℕ → ℕ
open_by done [] v = 0
open_by done (vs ∷ lists) v =
    (if includes vs v && not (done 0) then 1 else 0) + open_by (λ i. done (suc i)) lists v

pub open_by-ext :
    (p q : ℕ → Bool) (lists : List (List ℕ)) (v : ℕ)
    → ((i : ℕ) → p i ≡ q i)
    → open_by p lists v ≡ open_by q lists v
open_by-ext p q [] v h = refl
open_by-ext p q (vs ∷ lists) v h =
    ground (arith, h 0, open_by-ext (λ i. p (suc i)) (λ i. q (suc i)) lists v (λ i. h (suc i)))

-- One more that is done.
pub open_by-done :
    (p q : ℕ → Bool) (k : ℕ) (lists : List (List ℕ)) (v : ℕ)
    → p k ≡ false
    → ((i : ℕ) → q i ≡ (p i || k == i))
    → open_by p lists v ≡ open_by q lists v + (if includes (get_or lists k []) v then 1 else 0)
open_by-done p q k [] v new h = ground arith
open_by-done p q zero (vs ∷ lists) v new h = ground (
  arith,
  h 0,
  open_by-ext (λ i. p (suc i)) (λ i. q (suc i)) lists v λ i. ground (arith, h (suc i)),
)
open_by-done p q (suc k) (vs ∷ lists) v new h = ground (
  arith,
  h 0,
  open_by-done (λ i. p (suc i)) (λ i. q (suc i)) k lists v new λ i. ground (arith, h (suc i)),
)

pub open_by-zero :
    (done : ℕ → Bool) (lists : List (List ℕ)) (u v : ℕ)
    → open_by done lists v ≡ 0
    → includes (get_or lists u []) v ≡ true
    → done u ≡ true
open_by-zero done [] u v none_open h = ground arith
open_by-zero done (vs ∷ lists) zero v none_open h = ground arith
open_by-zero done (vs ∷ lists) (suc u) v none_open h =
    ground (arith, open_by-zero (λ i. done (suc i)) lists u v)

-- The first of the two that stands in the list is `u`, and `v` stands behind it.
abbrev pub precedes : List ℕ → ℕ → ℕ → Bool
precedes [] u v = false
precedes (x ∷ xs) u v = if x == u then includes xs v else if x == v then false else precedes xs u v

pub precedes-append :
    (xs ys : List ℕ) (u v : ℕ) → precedes xs u v ≡ true → precedes (xs ++ ys) u v ≡ true
precedes-append [] ys u v h = ground arith
precedes-append (x ∷ xs) ys u v h =
    ground (arith, precedes-append xs ys u v, includes-append xs ys v)

pub precedes-concat :
    (xs : List ℕ) (u v : ℕ)
    → includes xs u ≡ true
    → includes xs v ≡ false
    → precedes (xs ++ v ∷ []) u v ≡ true
precedes-concat [] u v h new = ground arith
precedes-concat (x ∷ xs) u v h new =
    ground (arith, precedes-concat xs u v, includes-append xs (v ∷ []) v)
