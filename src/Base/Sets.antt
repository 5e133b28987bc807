-- ===== src/Base/Sets.antt =====
-- Lists in which nothing stands twice.
use mathlib.Core.Path.{◌≡◌, refl}
use mathlib.Core.Bool.{false, not, ◌||◌}
use mathlib.Core.List.{List, [], ◌∷◌, ◌++◌}
use native.Mathlib.Omega.{arith}
use u.Base.Lists.{keep}
use u.Base.Keys.{Key, ◌==◌, includes}

module _ {ℓ} {K : Type ℓ} ⦃key : Key K⦄ where
  abbrev pub Unique : List K → Type ℓ
  Unique [] = Unit
  Unique (k ∷ ks) = (includes ks k ≡ false) × Unique ks

  pub includes-append :
      (xs ys : List K) (k : K) → includes (xs ++ ys) k ≡ (includes xs k || includes ys k)
  includes-append [] ys k = refl
  includes-append (x ∷ xs) ys k = ground (arith, includes-append xs ys k)

  -- Set.prototype.add of a value that is not there.
  pub Unique-concat :
      (xs : List K) (k : K) → Unique xs → includes xs k ≡ false → Unique (xs ++ k ∷ [])
  Unique-concat [] k u new = (refl, tt)
  Unique-concat (x ∷ xs) k (first, u) new = ground (
    arith,
    includes-append xs (k ∷ []) x,
    Unique-concat xs k u,
    key.same_iff x k,
    key.same_iff k x,
  )

  pub Unique-split : (xs ys : List K) (k : K) → Unique (xs ++ k ∷ ys) → Unique (xs ++ ys)
  Unique-split [] ys k u = u.1
  Unique-split (x ∷ xs) ys k (first, u) =
      ground (arith, includes-append xs (k ∷ ys) x, includes-append xs ys x, Unique-split xs ys k u)

  pub keep_absent : (ks : List K) (k : K) → includes ks k ≡ false → keep (λ j. not (j == k)) ks ≡ ks
  keep_absent [] k h = refl
  keep_absent (j ∷ ks) k h = ground (arith, keep_absent ks k)

  -- Set.prototype.delete of a value that is there.
  pub keep-split :
      (xs ys : List K) (k : K)
      → Unique (xs ++ k ∷ ys)
      → keep (λ j. not (j == k)) (xs ++ k ∷ ys) ≡ xs ++ ys
  keep-split [] ys k (first, u) = ground (arith, keep_absent ys k, key.same_iff k k)
  keep-split (x ∷ xs) ys k (first, u) = ground (
    arith,
    includes-append xs (k ∷ ys) x,
    keep-split xs ys k u,
    key.same_iff x k,
    key.same_iff k x,
    key.same_iff k k,
  )
