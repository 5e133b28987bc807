-- ===== src/Order/Index.antt =====
-- The first loop of `validateIdentities`: the index of each id.
use u.Base.{
  ℕ, zero, suc, ◌+◌, ◌<◌, ◌≡◌, refl, ap, subst, ◌∙◌, List, [], ◌∷◌, nat_key, string_key, String,
  ◌==◌, ◌⊎◌, get_elem?, length, inl, inr, Bool-cases, Option-cases, some, none, arith,
}
use u.Base.Map
use u.Base.Map.{Map, lookup-insert}
use u.Order.{OrderNodeInput, fine, index_ids}

-- The ids that were met stay, each node's own id is there, and no index is out of range.
pub record IsIndex (nodes : List OrderNodeInput) (i : ℕ) (old new : Map String ℕ) : Type 0 where
  pub stays : (t : String) (j : ℕ) → Map.lookup t old ≡ some j → Map.lookup t new ≡ some j
  pub own :
      (k : ℕ) (node : OrderNodeInput)
      → get_elem? nodes k ≡ some node
      → Map.lookup node.plug_id new ≡ some (i + k)
  pub range :
      (t : String) (j : ℕ)
      → Map.lookup t new ≡ some j
      → (Map.lookup t old ≡ some j) ⊎ (j < i + length nodes)

index_ids-step :
    (node : OrderNodeInput) (nodes : List OrderNodeInput) (i : ℕ) (old new : Map String ℕ)
    → index_ids (node ∷ nodes) i old ≡ fine new
    → (Map.lookup node.plug_id old ≡ none)
      × (index_ids nodes (suc i) (Map.insert node.plug_id i old) ≡ fine new)
unfolding index_ids
index_ids-step node nodes i old new h = elim (Option-cases (Map.lookup node.plug_id old)) [
  | inl free ↦ (free, ground arith)
  | inr (j, taken) ↦ absurd (ground arith)
]

index_ids-nil : (i : ℕ) (old new : Map String ℕ) → index_ids [] i old ≡ fine new → old ≡ new
unfolding index_ids
index_ids-nil i old new h = ground arith

kept :
    (id : String) (i : ℕ) (t : String) (j : ℕ) (m : Map String ℕ)
    → Map.lookup id m ≡ none
    → Map.lookup t m ≡ some j
    → Map.lookup t (Map.insert id i m) ≡ some j
kept id i t j m free there = elim (Bool-cases (id == t)) [
  | inl hit ↦ absurd (cc (ap (λ x. Map.lookup x m) ((string_key.same_iff id t).0 hit)))
  | inr miss ↦ lookup-insert id t i m ∙ rw miss there
]

insert-range :
    (id : String) (i : ℕ) (t : String) (j : ℕ) (m : Map String ℕ)
    → Map.lookup t (Map.insert id i m) ≡ some j
    → (Map.lookup t m ≡ some j) ⊎ (j ≡ i)
insert-range id i t j m there = ground (arith, lookup-insert id t i m)

first-own :
    (node : OrderNodeInput) (nodes : List OrderNodeInput) (i : ℕ) (new : Map String ℕ)
    → Map.lookup node.plug_id new ≡ some i
    → ((k : ℕ) (other : OrderNodeInput)
        → get_elem? nodes k ≡ some other
        → Map.lookup other.plug_id new ≡ some (suc i + k))
    → (k : ℕ) (other : OrderNodeInput) → get_elem? (node ∷ nodes) k ≡ some other
    → Map.lookup other.plug_id new ≡ some (i + k)
first-own node nodes i new first rest zero other there =
    let same : node ≡ other = ground arith in
    subst (λ x. Map.lookup x.plug_id new ≡ some (i + 0)) same (first ∙ ap some (omega arith))
first-own node nodes i new first rest (suc k) other there =
    rest k other there ∙ ap some (omega arith)

pub index_ids-IsIndex :
    (nodes : List OrderNodeInput) (i : ℕ) (old new : Map String ℕ)
    → index_ids nodes i old ≡ fine new
    → IsIndex nodes i old new
index_ids-IsIndex [] i old new h = subst (IsIndex [] i old) (index_ids-nil i old new h) (record {
  stays = λ t j there. there;
  own = λ k node there. absurd (ground arith);
  range = λ t j there. inl there;
})
index_ids-IsIndex (node ∷ nodes) i old new h =
    let (free, rest) = index_ids-step node nodes i old new h in
    let next = Map.insert node.plug_id i old in
    let inner = index_ids-IsIndex nodes (suc i) next new rest in
    record {
      stays = λ t j there. inner.stays t j (kept node.plug_id i t j old free there);
      own =
          first-own node nodes i new
            (inner.stays node.plug_id i (
              lookup-insert node.plug_id node.plug_id i old
              ∙ rw ((string_key.same_iff node.plug_id node.plug_id).1 refl) refl))
            inner.own;
      range = λ t j there. elim (inner.range t j there) [
        | inl before ↦ ground (arith, insert-range node.plug_id i t j old before)
        | inr later ↦ inr (ground arith)
      ];
    }
