-- ===== src/Host/Unwind.antt =====
-- ts/src/core/host.ts: the unwinding of a batch that fails.
use u.Base.{
  ℕ, ◌≡◌, refl, sym, subst, ◌⊎◌, String, Bool, true, false, Option, none, some, List, [], ◌∷◌,
  string_key, nat_key, ◌==◌, All, includes, arith, Bool-cases, inl, inr,
}
use u.Base.Map
use u.Base.Map.{Map, lookup-insert, lookup-remove}
use u.Host.{InstanceRecord, Rack, Code}
use u.Host.Batch.{
  destroy_record, discard_all, rollback_instance, rollback_all, destroy_created, unwind_one, unwind,
  is_created,
}
use u.Host.Rule.{Changes}
use u.Host.Steps.{
  destroy_record-Holds, rollback_all-Holds, unwind-Holds, destroy_created-Holds, discard_all-Holds,
}
use u.Host.Quarantine.{Other, lookup_as}
use u.Host.Outcome.{destroy_record-gone}

abbrev pub Anything : String → Type 0
Anything q = Unit

all_of : (ps : List String) → All Anything ps
all_of [] = tt
all_of (p ∷ ps) = (tt, all_of ps)

module _ (p : String) where
  abbrev pub Out : Map String InstanceRecord → ℕ → Type 0
  Out m n = Map.lookup p m ≡ none

  abbrev pub Waits : Map String InstanceRecord → ℕ → Type 0
  Waits m n = is_created (Map.lookup p m) ≡ true

  insert-Out :
      (m : Map String InstanceRecord) (q : String) (r t : InstanceRecord)
      → Map.lookup p m ≡ none
      → Map.lookup q m ≡ some r
      → Map.lookup p (Map.insert q t m) ≡ none
  insert-Out m q r t out found = elim (Bool-cases (q == p)) [
    | inl hit ↦ absurd (cc (lookup_as q p hit m found))
    | inr miss ↦ rw (lookup-insert, miss) out
  ]

  remove-Out :
      (m : Map String InstanceRecord) (q : String)
      → Map.lookup p m ≡ none
      → Map.lookup p (Map.remove q m) ≡ none
  remove-Out m q out = elim (Bool-cases (q == p)) [
    | inl hit ↦ rw (lookup-remove, hit) refl
    | inr miss ↦ rw (lookup-remove, miss) out
  ]

  -- What is out of the table is not put in by the steps of a batch.
  pub staying-Out : Changes Out Anything
  staying-Out = record {
    steady = record {
      same = λ m n q r t out found states generations. insert-Out m q r t out found;
    };
    change = λ m n q r t out may found generations. insert-Out m q r t out found;
    gone = λ m n q out may. remove-Out m q out;
  }

  insert-Waits :
      (m : Map String InstanceRecord) (q : String) (r t : InstanceRecord)
      → is_created (Map.lookup p m) ≡ true
      → Map.lookup q m ≡ some r
      → t.state ≡ r.state
      → is_created (Map.lookup p (Map.insert q t m)) ≡ true
  insert-Waits m q r t waits found states = elim (Bool-cases (q == p)) [
    | inl hit ↦
        rw (lookup-insert, hit, states)
          (subst (λ o. is_created o ≡ true) (lookup_as q p hit m found) waits)
    | inr miss ↦ rw (lookup-insert, miss) waits
  ]

  -- What waits is left waiting by the steps of the others.
  pub waiting-Waits : Changes Waits (Other p)
  waiting-Waits = record {
    steady = record {
      same = λ m n q r t waits found states generations. insert-Waits m q r t waits found states;
    };
    change = λ m n q r t waits other found generations. rw (lookup-insert, other) waits;
    gone = λ m n q waits other. rw (lookup-remove, other) waits;
  }

module _ (code : Code) (p : String) where
  abbrev pub IsOut : Rack → Type 0
  IsOut s = Map.lookup p s.instances ≡ none

  abbrev pub IsWaiting : Rack → Type 0
  IsWaiting s = is_created (Map.lookup p s.instances) ≡ true

  destroyed-IsOut : (s : Rack) (q : String) → (q == p) ≡ true → IsOut (destroy_record code s q)
  destroyed-IsOut s q hit =
      lookup_as q p hit (destroy_record code s q).instances (destroy_record-gone code q s)

  rolled-IsOut :
      (s : Rack) (w : Bool) (q : String) → (q == p) ≡ true → IsOut (rollback_instance code s w q)
  unfolding rollback_instance
  rolled-IsOut s w q hit = destroyed-IsOut _ q hit

  pub discard_all-IsOut :
      (s : Rack) (ps : List String) → includes ps p ≡ true → IsOut (discard_all code s ps)
  unfolding discard_all
  discard_all-IsOut s [] h = absurd (cc)
  discard_all-IsOut s (q ∷ ps) h = elim (Bool-cases (q == p)) [
    | inl hit ↦
        discard_all-Holds (staying-Out p) code (destroy_record code s q) ps (all_of ps)
          (destroyed-IsOut s q hit)
    | inr miss ↦ discard_all-IsOut (destroy_record code s q) ps (ground arith)
  ]

  pub rollback_all-IsOut :
      (s : Rack) (ps : List String) → includes ps p ≡ true → IsOut (rollback_all code s ps)
  unfolding rollback_all
  rollback_all-IsOut s [] h = absurd (cc)
  rollback_all-IsOut s (q ∷ ps) h = elim (Bool-cases (q == p)) [
    | inl hit ↦
        rollback_all-Holds (staying-Out p) code (rollback_instance code s false q) ps (all_of ps)
          (rolled-IsOut s false q hit)
    | inr miss ↦ rollback_all-IsOut (rollback_instance code s false q) ps (ground arith)
  ]

  unwind_one-IsOut :
      (s : Rack) (q : String) (o : Option InstanceRecord)
      → Map.lookup q s.instances ≡ o
      → (q == p) ≡ true
      → IsOut (unwind_one code s q o)
  unwind_one-IsOut s q none found hit = lookup_as q p hit s.instances found
  unwind_one-IsOut s q (some r) found hit = elim (Bool-cases (is_created (some r))) [
    | inl new ↦ rw (new, unwind_one) (destroyed-IsOut s q hit)
    | inr old ↦ rw (old, unwind_one) (rolled-IsOut s true q hit)
  ]

  pub unwind-IsOut : (s : Rack) (ps : List String) → includes ps p ≡ true → IsOut (unwind code s ps)
  unfolding unwind
  unwind-IsOut s [] h = absurd (cc)
  unwind-IsOut s (q ∷ ps) h = elim (Bool-cases (q == p)) [
    | inl hit ↦
        unwind-Holds (staying-Out p) code (unwind_one code s q (Map.lookup q s.instances)) ps
          (all_of ps) (unwind_one-IsOut s q (Map.lookup q s.instances) refl hit)
    | inr miss ↦ unwind-IsOut (unwind_one code s q (Map.lookup q s.instances)) ps (ground arith)
  ]

  pub destroy_created-IsOut :
      (s : Rack) (ps : List String)
      → includes ps p ≡ true
      → IsOut s ⊎ IsWaiting s
      → IsOut (destroy_created code s ps)
  unfolding destroy_created
  destroy_created-IsOut s [] h either = absurd (cc)
  destroy_created-IsOut s (q ∷ ps) h (inl out) =
      destroy_created-Holds (staying-Out p) code s (q ∷ ps) (all_of (q ∷ ps)) out
  destroy_created-IsOut s (q ∷ ps) h (inr waits) = elim (Bool-cases (q == p)) [
    | inl hit ↦
        rw
          (
            subst (λ k. is_created (Map.lookup k s.instances) ≡ true)
                (sym ((string_key.same_iff q p).0 hit)) waits,
            destroy_created,
          )
          (destroy_created-Holds (staying-Out p) code (destroy_record code s q) ps (all_of ps)
            (destroyed-IsOut s q hit))
    | inr miss ↦ elim (Bool-cases (is_created (Map.lookup q s.instances))) [
      | inl new ↦
          rw (new, destroy_created)
            (destroy_created-IsOut (destroy_record code s q) ps (ground arith)
              (inr (destroy_record-Holds (waiting-Waits p) code s q miss waits)))
      | inr old ↦ rw (old, destroy_created) (destroy_created-IsOut s ps (ground arith) (inr waits))
    ]
  ]

  pub others : (ps : List String) → includes ps p ≡ false → All (Other p) ps
  others [] h = tt
  others (q ∷ ps) h = (ground arith, others ps (ground arith))
