-- ===== src/Lease/Lifetime.antt =====
-- What becomes of a credential: it keeps to one provider generation, and once returned it is stale
-- for good.
use u.Base.{
  ℕ, ◌≡◌, refl, ap, subst, sym, inl, inr, String, true, Option, none, some, List, arith, nat_key,
  string_key, nat_beq_iff, eq_iff, if◌then◌else◌, ltb, Option-cases, ok, err, RackStatus,
}
use u.Base.{◌∙◌}
use u.Base.Map
use u.Base.Map.{lookup-insert, lookup-remove, lookup-retain, map_laws}
use u.Json.{Document}
use u.Capability.{CapEntry}
use u.Lease.{
  LeaseRecord, LeaseCredential, sealed, LeaseHandle, LeaseCallGuard, Leases, Lookup, ReleaseStatus,
  released, busy, stale, mint, acquire, held, release, begin_call, Call, run, owned_by,
  same_generation,
}
use u.Lease.Steps.{
  acquire-Acquired, begin_call-Begun, Released, unknown, in_use, gone, release-Released,
  held-lookup,
}
use u.Lease.Only.{Only, run-Only}
use u.Lease.Table.{guards_of}
use u.Lease.Invariant.{Inv, release-Inv, acquire-Inv}

-- Whether a release is refused for calls in flight is decided by the guards that are open: a lease
-- that its consumer holds is busy while it has one, and returned otherwise.
pub release_by_guards :
    (s : Leases) (credential : LeaseCredential) (consumer : String) (h : ℕ) (r : LeaseRecord)
    → Inv s
    → held s credential consumer ≡ some (h, r)
    → (release s credential consumer).1
      ≡ (if ltb 0 (guards_of h s.open_guards) then busy else released)
unfolding release
release_by_guards s credential consumer h r v e =
    let at = held-lookup s credential consumer h r e in
    rw (e, release) (ground (arith, v.counted h r at.1))

-- A credential that is gone from the table opens nothing.
gone_stale :
    (s : Leases) (h : ℕ) (find : Lookup) (consumer : String)
    → Map.lookup h s.records ≡ none
    → ((release s (sealed h) consumer).1 ≡ stale)
      × (begin_call find s (sealed h) consumer ≡ err RackStatus.stale)
unfolding release begin_call
gone_stale s h find consumer e = (ground arith, ground arith)

-- No record is found under the handle of a lease that was returned.
abbrev Gone : LeaseRecord → Type 0
Gone r = ⊥

released-Gone :
    (s : Leases) (h : ℕ) (consumer : String) {x : Leases × ReleaseStatus}
    → Inv s
    → Released s (sealed h) consumer x
    → x.1 ≡ released
    → Only Gone h x.0
released-Gone s h consumer v (unknown e) did = absurd (cc)
released-Gone s h consumer v (in_use i r e used) did = absurd (cc)
released-Gone s h consumer v (gone i r t e idle path) did =
    let (named, found, own) = held-lookup s (sealed h) consumer i r e in
    let same : h ≡ i = ground arith in
    subst (Only Gone h) path (record {
      made = ground (arith, v.old_handles i r found);
      kind = λ x. simp map_laws λ e. ground (arith, nat_beq_iff i h);
    })

-- Once a release has returned a lease, its credential is stale for good: after any later calls, and
-- whoever presents it, it cannot be released or called on.
pub released_stale_forever :
    (s : Leases) (h : ℕ) (consumer : String)
    → Inv s
    → (release s (sealed h) consumer).1 ≡ released
    → (cs : List Call) (find : Lookup) (other : String)
    → ((release (run (release s (sealed h) consumer).0 cs) (sealed h) other).1 ≡ stale)
      × (begin_call find (run (release s (sealed h) consumer).0 cs) (sealed h) other
          ≡ err RackStatus.stale)
released_stale_forever s h consumer v did cs find other =
    let t = (release s (sealed h) consumer).0 in
    let o = released-Gone s h consumer v (release-Released s (sealed h) consumer) did in
    let later = run-Only Gone h (λ r n q. q) t cs (release-Inv s (sealed h) consumer v) o in
    elim (Option-cases (Map.lookup h (run t cs).records)) [
      | inl e ↦ gone_stale (run t cs) h find other e
      | inr (r, e) ↦ absurd (later.kind r e)
    ]

-- The record of a lease of one consumer on one generation of one provider.
record Lent (consumer plug_id : String) (generation : ℕ) (r : LeaseRecord) : Type 0 where
  pub consumer_id : r.consumer_id ≡ consumer
  pub provider : r.provider_plug_id ≡ plug_id
  pub on : r.provider_generation ≡ generation

Lent-counts :
    (consumer plug_id : String) (generation : ℕ) (r : LeaseRecord) (n : ℕ)
    → Lent consumer plug_id generation r
    → Lent consumer plug_id generation (record r { in_flight = n })
Lent-counts consumer plug_id generation r n q = record {
  consumer_id = q.consumer_id;
  provider = q.provider;
  on = q.on;
}

minted-Lent :
    (s : Leases) (consumer plug_id : String) (entry : CapEntry) (revoker : ℕ)
    → Only
        (Lent consumer plug_id entry.generation)
        s.next_handle
        (mint s consumer plug_id entry revoker)
minted-Lent s consumer plug_id entry revoker = record {
  made = omega arith;
  kind = λ r. simp map_laws λ e. ground (arith, nat_beq_iff s.next_handle s.next_handle);
}

published_at :
    (o : Option CapEntry) (generation : ℕ)
    → same_generation o generation ≡ true
    → (e : CapEntry) × (o ≡ some e) × (e.generation ≡ generation)
published_at none generation h = absurd (cc)
published_at (some e) generation h = (e, refl, (nat_beq_iff _ _).0 h)

owner :
    (consumer : String) (r : LeaseRecord) → owned_by consumer r ≡ true → r.consumer_id ≡ consumer
owner consumer r h = ground (arith, eq_iff r.consumer_id consumer)

-- A credential keeps to the generation that it was acquired on: whatever has been called since, a
-- call can only begin on it for the consumer that acquired it, and while the provider is published
-- with that very generation.
pub credential_keeps_generation :
    (find : Lookup) (s : Leases) (consumer plug_id : String) (range : Document) (revoker : Option ℕ)
    (t : Leases) (lease : LeaseHandle) (entry : CapEntry)
    → Inv s
    → acquire find s consumer plug_id range revoker ≡ ok (t, lease)
    → find plug_id ≡ some entry
    → (cs : List Call) (later : Lookup) (other : String) (u : Leases) (g : LeaseCallGuard)
    → begin_call later (run t cs) lease.credential other ≡ ok (u, g)
    → (other ≡ consumer)
      × (e : CapEntry) × (later plug_id ≡ some e)
      × (e.generation ≡ entry.generation)
credential_keeps_generation find s consumer plug_id range revoker t lease entry v e at cs later
      other u g began =
    let did = acquire-Acquired find s consumer plug_id range revoker t lease e in
    let h = s.next_handle in
    let same_entry : did.entry ≡ entry = cc did.published in
    let Q = Lent consumer plug_id did.entry.generation in
    let begins_as = begin_call-Begun later (run t cs) lease.credential other u g began in
    let r = begins_as.lease in
    let kept : Only Q h (run t cs) =
      run-Only Q h (Lent-counts consumer plug_id did.entry.generation) t cs
        (acquire-Inv find s consumer plug_id range revoker t lease e v)
        (subst (Only Q h) did.minted (minted-Lent s consumer plug_id did.entry did.receiver)) in
    let handle : begins_as.handle ≡ h = cc (did.credential, begins_as.opened) in
    let q : Q r =
      kept.kind r (subst (λ i. Map.lookup i (run t cs).records ≡ some r) handle begins_as.found) in
    let (x, found, current) =
      published_at (later r.provider_plug_id) r.provider_generation begins_as.current in
    (
      sym (owner other r begins_as.owned) ∙ q.consumer_id,
      x,
      subst (λ p. later p ≡ some x) q.provider found,
      current ∙ q.on ∙ ap (λ (y : CapEntry). y.generation) same_entry,
    )
