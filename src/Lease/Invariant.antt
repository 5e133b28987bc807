-- ===== src/Lease/Invariant.antt =====
-- The lease table is well formed after every call: a lease counts its open guards.
use u.Base.{
  ℕ, ◌-◌, ◌<◌, ◌≡◌, refl, subst, inl, inr, String, false, Option, none, some, List, [], ◌∷◌, arith,
  nat_key, ◌==◌, nat_beq_iff, if◌then◌else◌, Bool-cases, Option-cases, ok, not, string_key,
}
use u.Base.Map
use u.Base.Map.{
  Map, Distinct, when, lookup-insert, lookup-remove, lookup-retain, insert-Distinct,
  remove-Distinct, retain-Distinct, map_laws,
}
use u.Json.{Document}
use u.Capability.{CapEntry}
use u.Lease.{
  LeaseRecord, LeaseCredential, Leases, init, Lookup, LeaseHandle, ReleaseStatus, mint, acquire,
  release, begin_call, one_less, end_call, release_all_from, Call, acquires, releases, begins, ends,
  releases_all, step, run,
}
use u.Lease.Steps.{
  after_cases, acquire-Acquired, begun, begin_call-Begun, Released, unknown, in_use, gone,
  release-Released,
}
use u.Lease.Table.{guards_of, guards_of-insert, guards_of-remove, guards_of-absent}

pub record Inv (s : Leases) : Type 0 where
  -- A lease counts its open guards, and is not marked as returned while it is in the table.
  pub counted :
      (h : ℕ) (r : LeaseRecord)
      → Map.lookup h s.records ≡ some r
      → r.in_flight ≡ guards_of h s.open_guards
  pub current : (h : ℕ) (r : LeaseRecord) → Map.lookup h s.records ≡ some r → r.returned ≡ false
  -- Handles and guards are objects that were made before.
  pub old_handles : (h : ℕ) (r : LeaseRecord) → Map.lookup h s.records ≡ some r → h < s.next_handle
  pub old_guards : (g h : ℕ) → Map.lookup g s.open_guards ≡ some h → g < s.next_guard
  pub guarded : (g h : ℕ) → Map.lookup g s.open_guards ≡ some h → h < s.next_handle
  pub records_distinct : Distinct s.records
  pub guards_distinct : Distinct s.open_guards

pub init-Inv : Inv init
unfolding init Map.lookup
init-Inv = record {
  counted = λ h r e. absurd (cc);
  current = λ h r e. absurd (cc);
  old_handles = λ h r e. absurd (cc);
  old_guards = λ g h e. absurd (cc);
  guarded = λ g h e. absurd (cc);
  records_distinct = tt;
  guards_distinct = tt;
}

mint-Inv :
    (s : Leases) (consumer plug_id : String) (entry : CapEntry) (revoker : ℕ)
    → Inv s
    → Inv (mint s consumer plug_id entry revoker)
mint-Inv s consumer plug_id entry revoker v =
    let n = s.next_handle in
    let none_yet = guards_of-absent n n s.open_guards v.guards_distinct v.guarded (omega arith) in
    record {
      counted = λ h r. simp map_laws λ e. ground (arith, none_yet, nat_beq_iff n h, v.counted h r);
      current = λ h r. simp map_laws λ e. ground (arith, v.current h r);
      old_handles = λ h r. simp map_laws λ e. ground (arith, v.old_handles h r);
      old_guards = v.old_guards;
      guarded = λ g h e. omega (arith, v.guarded g h e);
      records_distinct = insert-Distinct n _ s.records v.records_distinct;
      guards_distinct = v.guards_distinct;
    }

-- The guard that a call makes is new.
pub new_guard : (s : Leases) → Inv s → Map.lookup s.next_guard s.open_guards ≡ none
new_guard s v = elim (Option-cases (Map.lookup s.next_guard s.open_guards)) [
  | inl e ↦ e
  | inr (h, e) ↦ absurd (omega (arith, v.old_guards s.next_guard h e))
]

pub begun-Inv :
    (s : Leases) (handle : ℕ) (r : LeaseRecord)
    → Map.lookup handle s.records ≡ some r
    → Inv s
    → Inv (begun s handle r)
begun-Inv s handle r found v =
    let g = s.next_guard in
    let new = new_guard s v in
    let own = v.counted handle r found in
    record {
      counted = λ h x.
          simp (map_laws, guards_of-insert h g handle s.open_guards new)
            λ e. ground (arith, own, nat_beq_iff handle h, v.counted h x);
      current = λ h x. simp map_laws λ e. ground (arith, v.current handle r found, v.current h x);
      old_handles = λ h x. simp map_laws λ e.
          ground (arith, nat_beq_iff handle h, v.old_handles handle r found, v.old_handles h x);
      old_guards = λ i h. simp map_laws λ e. ground (arith, nat_beq_iff g i, v.old_guards i h);
      guarded =
          λ i h. simp map_laws λ e. ground (arith, v.guarded i h, v.old_handles handle r found);
      records_distinct = insert-Distinct handle _ s.records v.records_distinct;
      guards_distinct = insert-Distinct g handle s.open_guards v.guards_distinct;
    }

pub removed-Inv :
    (s : Leases) (handle : ℕ) → Inv s → Inv (record s { records = Map.remove handle s.records })
removed-Inv s handle v = record {
  counted = λ h x. simp map_laws λ e. ground (arith, v.counted h x);
  current = λ h x. simp map_laws λ e. ground (arith, v.current h x);
  old_handles = λ h x. simp map_laws λ e. ground (arith, v.old_handles h x);
  old_guards = v.old_guards;
  guarded = v.guarded;
  records_distinct = remove-Distinct handle s.records v.records_distinct;
  guards_distinct = v.guards_distinct;
}

pub release-Inv :
    (s : Leases) (credential : LeaseCredential) (consumer : String)
    → Inv s
    → Inv (release s credential consumer).0
release-Inv s credential consumer v = go (release-Released s credential consumer)
  where
    go : {x : Leases × ReleaseStatus} → Released s credential consumer x → Inv x.0
    go (unknown e) = v
    go (in_use h r e used) = v
    go (gone h r t e idle path) = subst Inv path (removed-Inv s h v)

release_all-Inv : (s : Leases) (consumer : String) → Inv s → Inv (release_all_from s consumer)
unfolding release_all_from
release_all-Inv s consumer v =
    let kept = λ (h : ℕ).
      lookup-retain (λ r. not (r.consumer_id == consumer)) h s.records v.records_distinct in
    record {
      counted = λ h x e. ground (arith, kept h, v.counted h x);
      current = λ h x e. ground (arith, kept h, v.current h x);
      old_handles = λ h x e. ground (arith, kept h, v.old_handles h x);
      old_guards = v.old_guards;
      guarded = v.guarded;
      records_distinct = retain-Distinct _ s.records v.records_distinct;
      guards_distinct = v.guards_distinct;
    }

-- A record is found under a handle once a guard on `handle` has ended only where one was, and its
-- count has fallen by one where it is that lease.
abbrev Fallen : ℕ → ℕ → LeaseRecord → LeaseRecord → Type 0
Fallen handle h r x =
    (x.in_flight ≡ (if handle == h then r.in_flight - 1 else r.in_flight))
    × (x.returned ≡ r.returned)

lookup-one_less :
    (s : Leases) (handle h : ℕ) (x : LeaseRecord)
    → Map.lookup h (one_less handle s) ≡ some x
    → (r : LeaseRecord) × (Map.lookup h s.records ≡ some r) × Fallen handle h r x
unfolding one_less
lookup-one_less s handle h x e = elim (Option-cases (Map.lookup handle s.records)) [
  | inl missing ↦ (x, ground arith, (ground (arith, nat_beq_iff handle h), refl))
  | inr (r, found) ↦
      let law = lookup-insert handle h (record r { in_flight = r.in_flight - 1 }) s.records in
      elim (Bool-cases (handle == h)) [
        | inl same ↦
            let here : Map.lookup h s.records ≡ some r = ground (arith, nat_beq_iff handle h) in
            (r, here, (ground (arith, law), ground (arith, law)))
        | inr other ↦
            let here : Map.lookup h s.records ≡ some x = ground (arith, law) in
            (x, here, (ground arith, refl))
      ]
]

one_less-Distinct : (s : Leases) (handle : ℕ) → Distinct s.records → Distinct (one_less handle s)
unfolding one_less
one_less-Distinct s handle d = elim (Option-cases (Map.lookup handle s.records)) [
  | inl missing ↦ rw (missing, one_less) d
  | inr (r, found) ↦
      ground (arith, insert-Distinct handle (record r { in_flight = r.in_flight - 1 }) s.records d)
]

ended-Inv :
    (s : Leases) (g handle : ℕ)
    → Map.lookup g s.open_guards ≡ some handle
    → Inv s
    → Inv (record s { records = one_less handle s; open_guards = Map.remove g s.open_guards })
ended-Inv s g handle found v = record {
  counted = λ h x e.
      let (r, at, fell) = lookup-one_less s handle h x e in
      ground (
        arith,
        v.counted h r at,
        guards_of-remove h g handle s.open_guards v.guards_distinct found,
        nat_beq_iff handle h,
      );
  current = λ h x e.
      let (r, at, fell) = lookup-one_less s handle h x e in ground (arith, v.current h r at);
  old_handles = λ h x e. let (r, at, fell) = lookup-one_less s handle h x e in v.old_handles h r at;
  old_guards = λ i h. simp map_laws λ e. ground (arith, v.old_guards i h);
  guarded = λ i h. simp map_laws λ e. ground (arith, v.guarded i h);
  records_distinct = one_less-Distinct s handle v.records_distinct;
  guards_distinct = remove-Distinct g s.open_guards v.guards_distinct;
}

pub end_call-Inv : (s : Leases) (g : ℕ) → Inv s → Inv (end_call s g)
unfolding end_call
end_call-Inv s g v = elim (Option-cases (Map.lookup g s.open_guards)) [
  | inl ended ↦ rw (ended, end_call) v
  | inr (handle, found) ↦ rw (found, end_call) (ended-Inv s g handle found v)
]

pub acquire-Inv :
    (find : Lookup) (s : Leases) (consumer plug_id : String) (range : Document) (revoker : Option ℕ)
    (t : Leases) (lease : LeaseHandle)
    → acquire find s consumer plug_id range revoker ≡ ok (t, lease)
    → Inv s
    → Inv t
acquire-Inv find s consumer plug_id range revoker t lease e v =
    let did = acquire-Acquired find s consumer plug_id range revoker t lease e in
    subst Inv did.minted (mint-Inv s consumer plug_id did.entry did.receiver v)

-- Every call keeps the table well formed.
pub step-Inv : (s : Leases) (c : Call) → Inv s → Inv (step s c)
unfolding step
step-Inv s (acquires find consumer plug_id range revoker) v =
    after_cases Inv s (acquire find s consumer plug_id range revoker) v
      λ t lease e. acquire-Inv find s consumer plug_id range revoker t lease e v
step-Inv s (releases credential consumer) v = release-Inv s credential consumer v
step-Inv s (begins find credential consumer) v =
    after_cases Inv s (begin_call find s credential consumer) v λ t g e.
      let did = begin_call-Begun find s credential consumer t g e in
      subst Inv did.started (begun-Inv s did.handle did.lease did.found v)
step-Inv s (ends g) v = end_call-Inv s g v
step-Inv s (releases_all consumer) v = release_all-Inv s consumer v

pub run-Inv : (s : Leases) (cs : List Call) → Inv s → Inv (run s cs)
unfolding run
run-Inv s [] v = v
run-Inv s (c ∷ cs) v = run-Inv (step s c) cs (step-Inv s c v)

-- After any history of calls the table is well formed: each lease in it counts exactly the guards
-- on it that have not ended, no lease in it is marked as returned, and no handle or guard is used
-- twice.
pub run-init-Inv : (cs : List Call) → Inv (run init cs)
run-init-Inv cs = run-Inv init cs init-Inv
