-- ===== src/Base/Count.antt =====
-- How many numbers below a bound a list without repetition can hold.
use Prim.Native.Nat.{ℕ, zero, suc, ◌≤◌, ◌<◌}
use mathlib.Core.Path.{◌≡◌, refl}
use mathlib.Core.Logic.{inl, inr}
use mathlib.Core.Bool.{true, not, ◌&&◌}
use mathlib.Core.List.{List, [], ◌∷◌}
use native.Mathlib.Omega.{arith}
use u.Base.Tests.{Bool-cases}
use u.Base.Lists.{keep, length}
use u.Base.Keys.{nat_key, ◌==◌, includes}
use u.Base.Sets.{Unique, keep_absent}

abbrev but : ℕ → List ℕ → List ℕ
but n = keep (λ k. not (k == n))

includes-but : (xs : List ℕ) (n k : ℕ) → includes (but n xs) k ≡ (includes xs k && not (k == n))
includes-but [] n k = refl
includes-but (x ∷ xs) n k = ground (arith, includes-but xs n k)

but-Unique : (xs : List ℕ) (n : ℕ) → Unique xs → Unique (but n xs)
but-Unique [] n u = u
but-Unique (x ∷ xs) n (first, u) = ground (arith, but-Unique xs n u, includes-but xs n x)

but-length : (xs : List ℕ) (n : ℕ) → Unique xs → length xs ≤ suc (length (but n xs))
but-length [] n u = omega arith
but-length (x ∷ xs) n (first, u) = elim (Bool-cases (x == n)) [
  | inl hit ↦ ground (arith, keep_absent xs n)
  | inr miss ↦ ground (arith, but-length xs n u)
]

pub Unique-length-le :
    (n : ℕ) (xs : List ℕ) → Unique xs → ((k : ℕ) → includes xs k ≡ true → k < n) → length xs ≤ n
Unique-length-le zero [] u below = omega arith
Unique-length-le zero (x ∷ xs) u below = ground (arith, below x)
Unique-length-le (suc n) xs u below =
    let rest =
      Unique-length-le n (but n xs) (but-Unique xs n u)
        λ k h. ground (arith, includes-but xs n k, below k) in
    ground (arith, but-length xs n u)

-- With as many as there are, all of them are there.
pub Unique-full :
    (n : ℕ) (xs : List ℕ)
    → Unique xs
    → ((k : ℕ) → includes xs k ≡ true → k < n)
    → length xs ≡ n
    → (k : ℕ) → k < n
    → includes xs k ≡ true
Unique-full n xs u below full k h = elim (Bool-cases (includes xs k)) [
  | inl there ↦ there
  | inr absent ↦
      let more = Unique-length-le n (k ∷ xs) (absent, u) λ j there. ground (arith, below j) in
      ground arith
]
