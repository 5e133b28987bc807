-- ===== src/Host/Generations.antt =====
-- ts/src/core/host.ts: the generations that the host gives out.
use u.Base.{
  if◌then◌else◌, ℕ, ◌≡◌, ◌≢◌, ◌≤◌, refl, sym, subst, ap, ◌∙◌, ◌⊎◌, ◌+◌, String, true, false, none,
  some, List, [], ◌∷◌, string_key, ◌==◌, All, arith, Bool-cases, inl, inr,
}
use u.Base.Map
use u.Base.Map.{Map, Distinct, lookup-insert, lookup-remove, insert-Distinct, remove-Distinct}
use u.Events.{Budget}
use u.Host.{InstanceRecord, Rack, Code}
use u.Host.Batch.{pending, keys}
use u.Host.Entry.{Request, serve_all}
use u.Host.Rule.{Rule}
use u.Host.Served.{serve_all-Holds}

-- The generation under an id, at most `n`, and that of no other id.
pub record IsNumbered (m : Map String InstanceRecord) (n : ℕ) : Type 0 where
  pub bounded : (p : String) (r : InstanceRecord) → Map.lookup p m ≡ some r → r.generation ≤ n
  pub apart :
      (p q : String) (r t : InstanceRecord)
      → Map.lookup p m ≡ some r
      → Map.lookup q m ≡ some t
      → r.generation ≡ t.generation
      → p ≡ q

abbrev Anything : String → Type 0
Anything q = Unit

-- Every record of the second table has the generation of one of the first, under its id.
abbrev Follows : Map String InstanceRecord → Map String InstanceRecord → Type 0
Follows m k =
    (p : String) (t : InstanceRecord)
    → Map.lookup p k ≡ some t
    → (r : InstanceRecord) × (Map.lookup p m ≡ some r) × (t.generation ≡ r.generation)

Follows-IsNumbered :
    (m k : Map String InstanceRecord) (n : ℕ) → Follows m k → IsNumbered m n → IsNumbered k n
Follows-IsNumbered m k n f v = record {
  bounded = λ p t at. let (r, found, same) = f p t at in ground (arith, v.bounded p r found);
  apart = λ p q t u at on same.
      let (r, found, first) = f p t at in
      let (s, met, second) = f q u on in v.apart p q r s found met (ground arith);
}

-- What is found after an insertion: the record that went in, or what was there.
insert-cases :
    (q p : String) (t r : InstanceRecord) (m : Map String InstanceRecord)
    → Map.lookup p (Map.insert q t m) ≡ some r
    → ((q ≡ p) × (t ≡ r)) ⊎ (Map.lookup p m ≡ some r)
insert-cases q p t r m at = elim (Bool-cases (q == p)) [
  | inl hit ↦ inl ((string_key.same_iff q p).0 hit, went_in hit)
  | inr miss ↦ inr (stayed miss)
]
  where
    seen : (if q == p then some t else Map.lookup p m) ≡ some r
    seen = subst (λ o. o ≡ some r) (lookup-insert q p t m) at

    went_in : (q == p) ≡ true → t ≡ r
    went_in hit = cc (subst (λ b. (if b then some t else Map.lookup p m) ≡ some r) hit seen)

    stayed : (q == p) ≡ false → Map.lookup p m ≡ some r
    stayed miss = subst (λ b. (if b then some t else Map.lookup p m) ≡ some r) miss seen

remove-Follows : (q : String) (m : Map String InstanceRecord) → Follows m (Map.remove q m)
remove-Follows q m p t at = elim (Bool-cases (q == p)) [
  | inl hit ↦ absurd (cc (subst (λ b. (if b then none else Map.lookup p m) ≡ some t) hit seen))
  | inr miss ↦ (t, subst (λ b. (if b then none else Map.lookup p m) ≡ some t) miss seen, refl)
]
  where
    seen : (if q == p then none else Map.lookup p m) ≡ some t
    seen = subst (λ o. o ≡ some t) (lookup-remove q p m) at

insert-Follows :
    (q : String) (r t : InstanceRecord) (m : Map String InstanceRecord)
    → Map.lookup q m ≡ some r
    → t.generation ≡ r.generation
    → Follows m (Map.insert q t m)
insert-Follows q r t m found same p u at = elim (insert-cases q p t u m at) [
  | inl (here, it) ↦ (
    r,
    subst (λ k. Map.lookup k m ≡ some r) here found,
    subst (λ x. x.generation ≡ r.generation) it same,
  )
  | inr there ↦ (u, there, refl)
]

make-IsNumbered :
    (m : Map String InstanceRecord) (n : ℕ) (q : String) (t : InstanceRecord)
    → IsNumbered m n
    → t.generation ≡ n + 1
    → IsNumbered (Map.insert q t m) (n + 1)
make-IsNumbered m n q t v next = record {
  bounded = λ p r at. elim (insert-cases q p t r m at) [
    | inl (here, it) ↦ subst (λ x. x.generation ≤ n + 1) it (ground arith)
    | inr there ↦ ground (arith, v.bounded p r there)
  ];
  apart = λ p k r u at on same. elim (insert-cases q p t r m at) [
    | inl (here, it) ↦ elim (insert-cases q k t u m on) [
      | inl (too, its) ↦ sym here ∙ too
      | inr there ↦ absurd (
          beyond u.generation (v.bounded k u there)
            (sym same ∙ sym (ap (λ x. x.generation) it) ∙ next))
    ]
    | inr there ↦ elim (insert-cases q k t u m on) [
      | inl (too, its) ↦ absurd (
          beyond r.generation (v.bounded p r there)
            (same ∙ sym (ap (λ x. x.generation) its) ∙ next))
      | inr also ↦ v.apart p k r u there also same
    ]
  ];
}
  where
    beyond : (g : ℕ) → g ≤ n → g ≢ n + 1
    beyond g low e = omega arith

numbering : Rule IsNumbered Anything
numbering = record {
  changes = record {
    steady = record {
      same = λ m n q r t v found states generations.
          Follows-IsNumbered m _ n (insert-Follows q r t m found generations) v;
    };
    change = λ m n q r t v may found generations.
        Follows-IsNumbered m _ n (insert-Follows q r t m found generations) v;
    gone = λ m n q v may. Follows-IsNumbered m _ n (remove-Follows q m) v;
  };
  skip = λ m n v. record { bounded = λ p r at. ground (arith, v.bounded p r at); apart = v.apart };
  make = λ m n q t v new next. make-IsNumbered m n q t v next;
  unknown = λ m n q v new. tt;
  waiting = λ m n v. all_of (keys (pending m));
  known = λ m n q r v found. inr tt;
}
  where
    all_of : (ps : List String) → All Anything ps
    all_of [] = tt
    all_of (p ∷ ps) = (tt, all_of ps)

-- Where the instances have generations of their own, none above the last that was given out, they
-- have so after every list of requests, whatever the code of the plugins does.
pub serve_all-IsNumbered :
    (code : Code) (budget : Budget) (s : Rack) (rs : List Request)
    → IsNumbered s.instances s.next_generation
    → let t = serve_all code budget s rs in IsNumbered t.instances t.next_generation
serve_all-IsNumbered code budget s rs v = serve_all-Holds numbering code budget s rs v
