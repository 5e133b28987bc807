-- ===== src/Lease/Only.antt =====
-- What a handle can stand for is settled when it is made: later calls only change the counts.
use u.Base.{
  ℕ, ◌+◌, ◌-◌, ◌<◌, ◌≡◌, subst, inl, inr, String, some, List, [], ◌∷◌, arith, nat_key, string_key,
  ◌==◌, nat_beq_iff, ltb, not, Bool-cases, Option-cases,
}
use u.Base.Map
use u.Base.Map.{lookup-insert, lookup-remove, lookup-retain, map_laws}
use u.Capability.{CapEntry}
use u.Lease.{
  LeaseRecord, LeaseCredential, Leases, ReleaseStatus, mint, acquire, release, begin_call, one_less,
  end_call, release_all_from, Call, acquires, releases, begins, ends, releases_all, step, run,
}
use u.Lease.Steps.{
  after_cases, acquire-Acquired, begun, begin_call-Begun, Released, unknown, in_use, gone,
  release-Released,
}
use u.Lease.Invariant.{Inv, step-Inv}

-- A handle was made, and a record under it can only be of one kind.
module _ (Q : LeaseRecord → Type 0) (h : ℕ) where
  pub record Only (s : Leases) : Type 0 where
    pub made : h < s.next_handle
    pub kind : (r : LeaseRecord) → Map.lookup h s.records ≡ some r → Q r

  module _ (counts : (r : LeaseRecord) (n : ℕ) → Q r → Q (record r { in_flight = n })) where
    mint-Only :
        (s : Leases) (consumer plug_id : String) (entry : CapEntry) (revoker : ℕ)
        → Only s
        → Only (mint s consumer plug_id entry revoker)
    mint-Only s consumer plug_id entry revoker o = record {
      made = omega (arith, o.made);
      kind = λ r. simp map_laws λ e. o.kind r (ground (arith, nat_beq_iff s.next_handle h, o.made));
    }

    begun-Only :
        (s : Leases) (i : ℕ) (x : LeaseRecord)
        → Map.lookup i s.records ≡ some x
        → Only s
        → Only (begun s i x)
    begun-Only s i x found o = record {
      made = o.made;
      kind = λ r e. elim (Bool-cases (i == h)) [
        | inl same ↦
            subst Q
              (ground
                (arith, lookup-insert i h (record x { in_flight = x.in_flight + 1 }) s.records))
              (counts x (x.in_flight + 1) (o.kind x (ground (arith, nat_beq_iff i h))))
        | inr other ↦
            o.kind r (
              ground
                (arith, lookup-insert i h (record x { in_flight = x.in_flight + 1 }) s.records))
      ];
    }

    release-Only :
        (s : Leases) (credential : LeaseCredential) (consumer : String)
        → Only s
        → Only (release s credential consumer).0
    release-Only s credential consumer o = go (release-Released s credential consumer)
      where
        go : {x : Leases × ReleaseStatus} → Released s credential consumer x → Only x.0
        go (unknown e) = o
        go (in_use i r e used) = o
        go (gone i r t e idle path) =
            subst Only path
              (record { made = o.made; kind = λ x. simp map_laws λ e. o.kind x (ground arith) })

    release_all-Only :
        (s : Leases) (consumer : String) → Inv s → Only s → Only (release_all_from s consumer)
    unfolding release_all_from
    release_all-Only s consumer v o = record {
      made = o.made;
      kind = λ r e. o.kind r (
          ground (
            arith,
            lookup-retain (λ x. not (x.consumer_id == consumer)) h s.records v.records_distinct,
          ));
    }

    end_call-Only : (s : Leases) (g : ℕ) → Only s → Only (end_call s g)
    unfolding end_call one_less
    end_call-Only s g o = elim (Option-cases (Map.lookup g s.open_guards)) [
      | inl ended ↦ rw (ended, end_call) o
      | inr (i, found) ↦
          rw (found, end_call)
            (elim (Option-cases (Map.lookup i s.records)) [
              | inl missing ↦ rw (missing, one_less) (record { made = o.made; kind = o.kind })
              | inr (x, here) ↦
                  let fewer = record x { in_flight = x.in_flight - 1 } in
                  let law = lookup-insert i h fewer s.records in
                  record {
                    made = o.made;
                    kind = λ r e. elim (Bool-cases (i == h)) [
                      | inl same ↦ elim (Bool-cases (ltb 0 x.in_flight)) [
                        | inl some_left ↦ subst Q (ground (arith, law)) (
                            counts x (x.in_flight - 1) (o.kind x (ground (arith, nat_beq_iff i h))))
                        | inr idle ↦ o.kind r (ground arith)
                      ]
                      | inr other ↦ o.kind r (ground (arith, law))
                    ];
                  }
            ])
    ]

    step-Only : (s : Leases) (c : Call) → Inv s → Only s → Only (step s c)
    unfolding step
    step-Only s (acquires find consumer plug_id range revoker) v o =
        after_cases Only s (acquire find s consumer plug_id range revoker) o λ t lease e.
          let did = acquire-Acquired find s consumer plug_id range revoker t lease e in
          subst Only did.minted (mint-Only s consumer plug_id did.entry did.receiver o)
    step-Only s (releases credential consumer) v o = release-Only s credential consumer o
    step-Only s (begins find credential consumer) v o =
        after_cases Only s (begin_call find s credential consumer) o λ t g e.
          let did = begin_call-Begun find s credential consumer t g e in
          subst Only did.started (begun-Only s did.handle did.lease did.found o)
    step-Only s (ends g) v o = end_call-Only s g o
    step-Only s (releases_all consumer) v o = release_all-Only s consumer v o

    pub run-Only : (s : Leases) (cs : List Call) → Inv s → Only s → Only (run s cs)
    unfolding run
    run-Only s [] v o = o
    run-Only s (c ∷ cs) v o = run-Only (step s c) cs (step-Inv s c v) (step-Only s c v o)
