-- ===== src/Logging/Loop.antt =====
-- ts/src/plugins/logging/index.ts: the loop that reads a ring.
use u.Base.{
  ℕ, suc, zero, ◌≡◌, ◌≤◌, ◌<◌, refl, ap, subst, ◌∙◌, ◌+◌, Option, none, some, List, [], ◌∷◌, ◌++◌,
  nat_key, length, arith,
}
use u.Logging.{and_more, collect}
use u.Logging.Places.{plus_zero}

module _ {ℓ} {A : Type ℓ} where
  pub collect-same :
      (f g : ℕ → Option A) (i n : ℕ)
      → ((j : ℕ) → i ≤ j → j < i + n → f j ≡ g j)
      → collect f i n ≡ collect g i n
  unfolding collect
  collect-same f g i zero same = refl
  collect-same f g i (suc n) same = rw (same i (omega arith) (omega arith)) (
      ap (and_more (g i))
        (collect-same f g (suc i) n λ j low high. same j (omega arith) (omega arith)))

  pub collect-last :
      (f : ℕ → Option A) (i n : ℕ) (a : A)
      → f (i + n) ≡ some a
      → collect f i (suc n) ≡ collect f i n ++ a ∷ []
  unfolding collect
  collect-last f i zero a at = rw (subst (λ k. f k ≡ some a) (plus_zero i) at) refl
  collect-last f i (suc n) a at =
      ap (and_more (f i)) (collect-last f (suc i) n a (subst (λ k. f k ≡ some a) (omega arith) at))
      ∙ more_last (f i) (collect f (suc i) n)
    where
      more_last : (o : Option A) (xs : List A) → and_more o (xs ++ a ∷ []) ≡ and_more o xs ++ a ∷ []
      more_last none xs = refl
      more_last (some b) xs = refl

  pub collect-shift :
      (f g : ℕ → Option A) (i n : ℕ)
      → ((j : ℕ) → g j ≡ f (suc j))
      → collect g i n ≡ collect f (suc i) n
  unfolding collect
  collect-shift f g i zero shifted = refl
  collect-shift f g i (suc n) shifted =
      rw (shifted i) (ap (and_more (f (suc i))) (collect-shift f g (suc i) n shifted))

  pub length-collect :
      (f : ℕ → Option A) (i n : ℕ)
      → ((j : ℕ) → i ≤ j → j < i + n → (a : A) × (f j ≡ some a))
      → length (collect f i n) ≡ n
  unfolding collect
  length-collect f i zero full = refl
  length-collect f i (suc n) full =
      let (a, at) = full i (omega arith) (omega arith) in
      rw at (ap suc (length-collect f (suc i) n λ j low high. full j (omega arith) (omega arith)))
