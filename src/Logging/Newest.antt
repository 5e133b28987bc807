-- ===== src/Logging/Newest.antt =====
-- ts/src/plugins/logging/index.ts: the newest of a list of entries.
use u.Base.{
  ℕ, suc, zero, ◌≡◌, ◌≢◌, ◌≤◌, ◌<◌, refl, sym, ap, subst, ◌∙◌, ◌+◌, ◌-◌, ◌%◌, Bool, true, false,
  Option, none, some, List, [], ◌∷◌, ◌++◌, nat_key, ltb, ltb→lt, nat_beq_iff, ◌==◌, length,
  length-set, get_elem?, set, if◌then◌else◌, arith, Bool-cases, Option-cases, inl, inr,
}
use u.Logging.Places.{zero_plus, suc_plus}

module _ {ℓ} {A : Type ℓ} where
  -- The last `c` of a list.
  abbrev pub drop : ℕ → List A → List A
  drop zero xs = xs
  drop (suc n) [] = []
  drop (suc n) (x ∷ xs) = drop n xs

  abbrev pub newest : ℕ → List A → List A
  newest c xs = drop (length xs - c) xs

  pub drop-append : (k : ℕ) (xs ys : List A) → k ≤ length xs → drop k xs ++ ys ≡ drop k (xs ++ ys)
  drop-append zero xs ys few = refl
  drop-append (suc k) [] ys few = absurd (omega arith)
  drop-append (suc k) (x ∷ xs) ys few = drop-append k xs ys (omega arith)

  pub drop_nil : (n : ℕ) → drop n [] ≡ []
  drop_nil zero = refl
  drop_nil (suc n) = refl

  pub drop-drop : (m k : ℕ) (xs : List A) → drop m (drop k xs) ≡ drop (k + m) xs
  drop-drop m zero xs = ap (λ n. drop n xs) (sym (zero_plus m))
  drop-drop m (suc k) [] = drop_nil m ∙ sym (drop_nil (suc k + m))
  drop-drop m (suc k) (x ∷ xs) = drop-drop m k xs ∙ ap (λ n. drop n (x ∷ xs)) (sym (suc_plus k m))

  pub length-drop : (k : ℕ) (xs : List A) → length (drop k xs) ≡ length xs - k
  length-drop zero xs = omega arith
  length-drop (suc k) [] = omega arith
  length-drop (suc k) (x ∷ xs) = length-drop k xs ∙ omega arith

  pub newest-newest : (c : ℕ) (xs ys : List A) → newest c (newest c xs ++ ys) ≡ newest c (xs ++ ys)
  newest-newest c xs ys =
      let k = length xs - c in
      ap (λ l. drop (length l - c) l) (drop-append k xs ys (omega arith))
      ∙ drop-drop (length (drop k (xs ++ ys)) - c) k (xs ++ ys)
      ∙ ap (λ n. drop n (xs ++ ys))
          (ground (arith, length-drop k (xs ++ ys), u.Base.length-append xs ys))
