-- ===== src/Host/Quarantine.antt =====
-- ts/src/core/host.ts: an instance that is `faulted` stays as it is.
use u.Base.{
  if◌then◌else◌, ℕ, ◌≡◌, refl, subst, ◌⊎◌, String, true, false, Option, none, some, List, [], ◌∷◌,
  string_key, ◌==◌, All, Bool-cases, inl, inr,
}
use u.Base.Map
use u.Base.Map.{Map, Distinct, lookup-insert, lookup-remove, insert-Distinct, remove-Distinct}
use u.Events.{Budget}
use u.Host.{InstanceState, faulted, InstanceRecord, Rack, Code}
use u.Host.Batch.{pending, keys, is_created}
use u.Host.Entry.{Request, serve_all}
use u.Host.Rule.{Rule}
use u.Host.Served.{serve_all-Holds}

-- The state and the generation of a record.
abbrev pub standing : Option InstanceRecord → Option (InstanceState × ℕ)
standing none = none
standing (some r) = some (r.state, r.generation)

-- A table, in which no id stands twice, with the instance `p` faulted at generation `g`.
abbrev Quarantined : String → ℕ → Map String InstanceRecord → ℕ → Type 0
Quarantined p g m n = Distinct m × (standing (Map.lookup p m) ≡ some (faulted, g))

abbrev pub Other : String → String → Type 0
Other p q = (q == p) ≡ false

pub lookup_as :
    (q p : String)
    → (q == p) ≡ true
    → (m : Map String InstanceRecord) {o : Option InstanceRecord} → Map.lookup q m ≡ o
    → Map.lookup p m ≡ o
lookup_as q p hit m {o} found =
    subst (λ k. Map.lookup k m ≡ o) ((string_key.same_iff q p).0 hit) found

pending_others :
    (p : String) (m : Map String InstanceRecord)
    → Distinct m
    → is_created (Map.lookup p m) ≡ false
    → All (Other p) (keys (pending m))
unfolding pending Map.lookup
pending_others p [] d h = tt
pending_others p ((q, r) ∷ m) (new, d) h = elim (Bool-cases (q == p)) [
  | inl hit ↦
      rw (old_at r hit h, pending) (pending_others p m d (rw (lookup_as q p hit m new) refl))
  | inr miss ↦ elim (Bool-cases (is_created (some r))) [
    | inl waits ↦ rw (waits, pending) (miss, pending_others p m d (at_rest r miss h))
    | inr started ↦ rw (started, pending) (pending_others p m d (at_rest r miss h))
  ]
]
  where
    old_at :
        (r : InstanceRecord)
        → (q == p) ≡ true
        → is_created (if q == p then some r else Map.lookup p m) ≡ false
        → is_created (some r) ≡ false
    old_at r hit h = subst (λ b. is_created (if b then some r else Map.lookup p m) ≡ false) hit h

    at_rest :
        (r : InstanceRecord)
        → (q == p) ≡ false
        → is_created (if q == p then some r else Map.lookup p m) ≡ false
        → is_created (Map.lookup p m) ≡ false
    at_rest r miss h = subst (λ b. is_created (if b then some r else Map.lookup p m) ≡ false) miss h

module _ (p : String) (g : ℕ) where
  abbrev Stands : Option InstanceRecord → Type 0
  Stands o = standing o ≡ some (faulted, g)

  absent_other :
      (m : Map String InstanceRecord) (q : String)
      → Stands (Map.lookup p m)
      → Map.lookup q m ≡ none
      → (q == p) ≡ false
  absent_other m q stands new = elim (Bool-cases (q == p)) [
    | inl hit ↦ absurd (cc (subst Stands (lookup_as q p hit m new) stands))
    | inr miss ↦ miss
  ]

  same_record :
      (m : Map String InstanceRecord) (q : String) (r t : InstanceRecord)
      → Stands (Map.lookup p m)
      → Map.lookup q m ≡ some r
      → t.state ≡ r.state
      → t.generation ≡ r.generation
      → Stands (Map.lookup p (Map.insert q t m))
  same_record m q r t stands found states generations = elim (Bool-cases (q == p)) [
    | inl hit ↦
        rw (lookup-insert, hit, states, generations)
          (subst Stands (lookup_as q p hit m found) stands)
    | inr miss ↦ rw (lookup-insert, miss) stands
  ]

  faulted_or_other :
      (m : Map String InstanceRecord) (q : String) (r : InstanceRecord)
      → Stands (Map.lookup p m)
      → Map.lookup q m ≡ some r
      → (r.state ≡ faulted) ⊎ ((q == p) ≡ false)
  faulted_or_other m q r stands found = elim (Bool-cases (q == p)) [
    | inl hit ↦ inl (its_state r (subst Stands (lookup_as q p hit m found) stands))
    | inr miss ↦ inr miss
  ]
    where
      its_state : (r : InstanceRecord) → Stands (some r) → r.state ≡ faulted
      its_state r stands = cc

  not_created : (o : Option InstanceRecord) → Stands o → is_created o ≡ false
  not_created none stands = refl
  not_created (some r) stands = rw (its_state r stands) refl
    where
      its_state : (r : InstanceRecord) → Stands (some r) → r.state ≡ faulted
      its_state r stands = cc

  quarantine : Rule (Quarantined p g) (Other p)
  quarantine = record {
    changes = record {
      steady = record {
        same = λ m n q r t (d, stands) found states generations.
            (insert-Distinct q t m d, same_record m q r t stands found states generations);
      };
      change = λ m n q r t (d, stands) other found generations.
          (insert-Distinct q t m d, rw (lookup-insert, other) stands);
      gone = λ m n q (d, stands) other. (remove-Distinct q m d, rw (lookup-remove, other) stands);
    };
    skip = λ m n h. h;
    make = λ m n q t (d, stands) new generations.
        (insert-Distinct q t m d, rw (lookup-insert, absent_other m q stands new) stands);
    unknown = λ m n q (d, stands) new. absent_other m q stands new;
    waiting = λ m n (d, stands). pending_others p m d (not_created (Map.lookup p m) stands);
    known = λ m n q r (d, stands) found. faulted_or_other m q r stands found;
  }

-- An instance that is faulted is still there after every list of requests, faulted and of the same
-- generation, whatever the code of the plugins does; the ids of the table are to be distinct.
pub faulted_stays :
    (code : Code) (budget : Budget) (s : Rack) (rs : List Request) (p : String) (g : ℕ)
    → Distinct s.instances
    → standing (Map.lookup p s.instances) ≡ some (faulted, g)
    → standing (Map.lookup p (serve_all code budget s rs).instances) ≡ some (faulted, g)
faulted_stays code budget s rs p g d stands =
    (serve_all-Holds (quarantine p g) code budget s rs (d, stands)).1
