-- ===== src/Base/Map.antt =====
-- JavaScript's Map: entries in insertion order, keys compared by ===.
use mathlib.Core.Path.{◌≡◌, refl, subst, ap}
use mathlib.Core.Bool.{Bool, true, false, ◌||◌}
use mathlib.Core.Logic.{inl, inr}
use mathlib.Core.Option.{Option, none, some}
use mathlib.Core.List.{List, [], ◌∷◌}
use native.Mathlib.Omega.{arith}
use u.Base.Tests.{if◌then◌else◌, Bool-cases}
use u.Base.Keys.{Key, ◌==◌}

abbrev pub Map {ℓ κ} : Type ℓ → Type κ → Type (ℓ ⊔ κ)
Map K V = List (K × V)

-- What a test leaves of a value.
abbrev pub when {κ} : {V : Type κ} → (V → Bool) → Option V → Option V
when p none = none
when p (some v) = if p v then some v else none

module _ {ℓ κ} {K : Type ℓ} {V : Type κ} ⦃key : Key K⦄ where
  -- map.get(key)
  unfoldable pub lookup : K → Map K V → Option V
  lookup wanted [] = none
  lookup wanted ((at, value) ∷ rest) = if at == wanted then some value else lookup wanted rest

  -- map.delete(key)
  unfoldable pub remove : K → Map K V → Map K V
  remove wanted [] = []
  remove wanted ((at, value) ∷ rest) =
      if at == wanted then remove wanted rest else (at, value) ∷ remove wanted rest

  pub lookup-remove :
      (gone wanted : K) (m : Map K V)
      → lookup wanted (remove gone m) ≡ (if gone == wanted then none else lookup wanted m)
  unfolding remove lookup
  lookup-remove gone wanted [] = ground arith
  lookup-remove gone wanted ((at, value) ∷ rest) = ground (
    arith,
    lookup-remove gone wanted rest,
    key.same_iff at gone,
    key.same_iff at wanted,
    key.same_iff gone wanted,
  )

  -- map.set(key, value): a key that is there keeps its place.
  unfoldable pub insert : K → V → Map K V → Map K V
  insert new value [] = (new, value) ∷ []
  insert new value ((at, old) ∷ rest) =
      if at == new then (at, value) ∷ rest else (at, old) ∷ insert new value rest

  pub lookup-insert :
      (new wanted : K) (value : V) (m : Map K V)
      → lookup wanted (insert new value m) ≡ (if new == wanted then some value else lookup wanted m)
  unfolding insert lookup
  lookup-insert new wanted value [] = refl
  lookup-insert new wanted value ((at, old) ∷ rest) = ground (
    arith,
    lookup-insert new wanted value rest,
    key.same_iff at new,
    key.same_iff at wanted,
    key.same_iff new wanted,
  )

  -- No key stands twice.
  abbrev pub Distinct : Map K V → Type (ℓ ⊔ κ)
  Distinct [] = Unit
  Distinct ((k, v) ∷ m) = (lookup k m ≡ none) × Distinct m

  -- The loop `for (const [k, v] of m) if (!p(v)) m.delete(k)`.
  unfoldable pub retain : (V → Bool) → Map K V → Map K V
  retain p [] = []
  retain p ((k, v) ∷ m) = if p v then (k, v) ∷ retain p m else retain p m

  -- Whether `for (const [, v] of m) if (p(v)) return true` returns.
  unfoldable pub some_value : (V → Bool) → Map K V → Bool
  some_value p [] = false
  some_value p ((k, v) ∷ m) = p v || some_value p m

  pub lookup-retain :
      (p : V → Bool) (k : K) (m : Map K V)
      → Distinct m
      → lookup k (retain p m) ≡ when p (lookup k m)
  unfolding lookup retain
  lookup-retain p k [] d = refl
  lookup-retain p k ((j, v) ∷ m) (new, d) = elim (Bool-cases (j == k)) [
    | inl hit ↦
        let same = subst (λ i. lookup i m ≡ none) ((key.same_iff j k).0 hit) new in
        ground (arith, lookup-retain p k m d)
    | inr miss ↦ ground (arith, lookup-retain p k m d)
  ]

  pub retain-Distinct : (p : V → Bool) (m : Map K V) → Distinct m → Distinct (retain p m)
  unfolding retain
  retain-Distinct p [] d = tt
  retain-Distinct p ((j, v) ∷ m) (new, d) =
      ground (arith, lookup-retain p j m d, retain-Distinct p m d)

  pub insert-Distinct : (k : K) (v : V) (m : Map K V) → Distinct m → Distinct (insert k v m)
  unfolding insert lookup
  insert-Distinct k v [] d = (refl, tt)
  insert-Distinct k v ((j, w) ∷ m) (new, d) =
      ground
        (arith, lookup-insert k j v m, insert-Distinct k v m d, key.same_iff k j, key.same_iff j k)

  pub remove-Distinct : (k : K) (m : Map K V) → Distinct m → Distinct (remove k m)
  unfolding remove
  remove-Distinct k [] d = tt
  remove-Distinct k ((j, w) ∷ m) (new, d) =
      ground (arith, lookup-remove k j m, remove-Distinct k m d)

  -- A value that is found passes the test of `some_value`.
  pub some_value-lookup :
      (p : V → Bool) (k : K) (v : V) (m : Map K V)
      → lookup k m ≡ some v
      → p v ≡ true
      → some_value p m ≡ true
  unfolding lookup some_value
  some_value-lookup p k v [] h t = cc
  some_value-lookup p k v ((j, w) ∷ m) h t = ground (arith, some_value-lookup p k v m)

  -- And a test that passes is that of a value under some key.
  pub lookup-some_value :
      (p : V → Bool) (m : Map K V)
      → Distinct m
      → some_value p m ≡ true
      → (k : K) × (v : V) × (lookup k m ≡ some v) × (p v ≡ true)
  unfolding lookup some_value
  lookup-some_value p [] d h = absurd (cc)
  lookup-some_value p ((j, w) ∷ m) (new, d) h = elim (Bool-cases (p w)) [
    | inl pass ↦ (j, w, rw ((key.same_iff j j).1 refl) refl, pass)
    | inr fail ↦
        let (k, v, found, t) = lookup-some_value p m d (ground arith) in
        (k, v, other k v new found, t)
  ]
    where
      other :
          (k : K) (v : V)
          → lookup j m ≡ none
          → lookup k m ≡ some v
          → (if j == k then some w else lookup k m) ≡ some v
      other k v new found = elim (Bool-cases (j == k)) [
        | inl hit ↦ absurd (cc (ap (λ i. lookup i m) ((key.same_iff j k).0 hit)))
        | inr miss ↦ rw miss found
      ]

pub ruleset map_laws = (lookup-insert, lookup-remove)
