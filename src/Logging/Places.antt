-- ===== src/Logging/Places.antt =====
-- ts/src/plugins/logging/index.ts: the places of a ring, and what a write to one leaves.
use native.Mathlib.Nat.{mod-lt, mod-eq_of_lt, mod-eq-sub-mod}
use u.Base.{
  ℕ, suc, zero, ◌≡◌, ◌≢◌, ◌≤◌, ◌<◌, refl, ◌∙◌, ◌+◌, ◌-◌, ◌%◌, false, some, List, [], ◌∷◌, nat_key,
  ltb, ltb→lt, ◌==◌, length, get_elem?, set, if◌then◌else◌, arith, Bool-cases, inl, inr,
}

pub plus_zero : (i : ℕ) → i + 0 ≡ i
plus_zero i = omega arith

pub zero_plus : (i : ℕ) → 0 + i ≡ i
zero_plus i = omega arith

pub plus_one : (i : ℕ) → i + 1 ≡ suc i
plus_one i = omega arith

pub suc_plus : (k m : ℕ) → suc k + m ≡ suc (k + m)
suc_plus k m = omega arith

-- A place of a ring of `c` places, `j` from the head `h`.
pub place_at :
    (h j c : ℕ) → h < c → j ≤ c → (h + j) % c ≡ (if ltb (h + j) c then h + j else (h + j) - c)
place_at h j c low few = elim (Bool-cases (ltb (h + j) c)) [
  | inl short ↦ rw short (mod-eq_of_lt (ltb→lt (h + j) c short))
  | inr long ↦ rw long (mod-eq-sub-mod (ground arith) ∙ mod-eq_of_lt (ground arith))
]

pub not_same : (w p : ℕ) → p ≢ w → (w == p) ≡ false
not_same w p other = ground arith

module _ {ℓ} {A : Type ℓ} where
  pub get_elem?-set :
      (xs : List A) (i j : ℕ) (v : A)
      → i < length xs
      → get_elem? (set xs i v) j ≡ (if i == j then some v else get_elem? xs j)
  get_elem?-set [] i j v low = absurd (omega arith)
  get_elem?-set (x ∷ xs) zero zero v low = refl
  get_elem?-set (x ∷ xs) zero (suc j) v low = ground arith
  get_elem?-set (x ∷ xs) (suc i) zero v low = ground arith
  get_elem?-set (x ∷ xs) (suc i) (suc j) v low =
      ground (arith, get_elem?-set xs i j v (omega arith))

  pub get_elem?-inside : (xs : List A) (i : ℕ) → i < length xs → (v : A) × (get_elem? xs i ≡ some v)
  get_elem?-inside [] i low = absurd (omega arith)
  get_elem?-inside (x ∷ xs) zero low = (x, refl)
  get_elem?-inside (x ∷ xs) (suc i) low = get_elem?-inside xs i (omega arith)

pub places_apart : (h i j c : ℕ) → h < c → i < j → j < c → (h + i) % c ≢ (h + j) % c
places_apart h i j c low less few same =
    ground (arith, place_at h i c low (omega arith), place_at h j c low (omega arith))

pub next_place : (h j c : ℕ) → h < c → j + 1 ≤ c → ((h + 1) % c + j) % c ≡ (h + (j + 1)) % c
next_place h j c low few = ground (
  arith,
  place_at h 1 c low (omega arith),
  place_at h (j + 1) c low few,
  place_at ((h + 1) % c) j c (mod-lt (h + 1) (omega arith)) (omega arith),
)

pub whole_round : (h c : ℕ) → h < c → (h + c) % c ≡ h
whole_round h c low = ground (arith, place_at h c c low (omega arith))
