-- ===== src/Lease/Table.antt =====
-- How many open guards a lease has.
use u.Base.{
  ℕ, ◌+◌, ◌≤◌, ◌<◌, ◌≡◌, refl, ap, subst, inl, inr, none, some, [], ◌∷◌, arith, nat_key, ◌==◌,
  nat_beq_iff, if◌then◌else◌, Bool-cases,
}
use u.Base.Map
use u.Base.Map.{Map, Distinct}

-- The open guards of one handle.
unfoldable pub guards_of : ℕ → Map ℕ ℕ → ℕ
guards_of handle [] = 0
guards_of handle ((g, h) ∷ m) = (if h == handle then 1 else 0) + guards_of handle m

pub guards_of-insert :
    (handle g h : ℕ) (m : Map ℕ ℕ)
    → Map.lookup g m ≡ none
    → guards_of handle (Map.insert g h m) ≡ (if h == handle then 1 else 0) + guards_of handle m
unfolding guards_of Map.insert Map.lookup
guards_of-insert handle g h [] new = refl
guards_of-insert handle g h ((i, k) ∷ m) new = ground (arith, guards_of-insert handle g h m)

remove-absent : (g : ℕ) (m : Map ℕ ℕ) → Map.lookup g m ≡ none → Map.remove g m ≡ m
unfolding Map.remove Map.lookup
remove-absent g [] h = refl
remove-absent g ((i, k) ∷ m) h = ground (arith, remove-absent g m)

pub guards_of-remove :
    (handle g h : ℕ) (m : Map ℕ ℕ)
    → Distinct m
    → Map.lookup g m ≡ some h
    → guards_of handle m ≡ (if h == handle then 1 else 0) + guards_of handle (Map.remove g m)
unfolding guards_of Map.remove Map.lookup
guards_of-remove handle g h [] d found = cc
guards_of-remove handle g h ((i, k) ∷ m) (new, d) found = elim (Bool-cases (i == g)) [
  | inl hit ↦
      let gone =
        remove-absent g m (subst (λ j. Map.lookup j m ≡ none) ((nat_beq_iff i g).0 hit) new) in
      ground arith
  | inr miss ↦ ground (arith, guards_of-remove handle g h m d)
]

-- With no guard whose handle is this one, the count is 0.
pub guards_of-absent :
    (handle bound : ℕ) (m : Map ℕ ℕ)
    → Distinct m
    → ((g h : ℕ) → Map.lookup g m ≡ some h → h < bound)
    → bound ≤ handle
    → guards_of handle m ≡ 0
unfolding guards_of Map.lookup
guards_of-absent handle bound [] d below le = refl
guards_of-absent handle bound ((g, h) ∷ m) (new, d) below le =
    let here = below g h (ground (arith, nat_beq_iff g g)) in
    let rest = guards_of-absent handle bound m d (λ j k found. below j k (later j k found)) le in
    ground arith
  where
    later :
        (j k : ℕ) → Map.lookup j m ≡ some k → (if g == j then some h else Map.lookup j m) ≡ some k
    later j k found = elim (Bool-cases (g == j)) [
      | inl hit ↦ absurd (cc (ap (λ i. Map.lookup i m) ((nat_beq_iff g j).0 hit)))
      | inr miss ↦ rw miss found
    ]
