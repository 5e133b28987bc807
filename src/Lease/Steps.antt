-- ===== src/Lease/Steps.antt =====
-- What each operation has done where it returned.
use u.Base.{
  ℕ, suc, ◌+◌, ◌≡◌, refl, String, true, Option, none, some, arith, nat_key, string_key, ltb, Result,
  ok, err, RackStatus, invalid_argument, not_found, unsupported, guard->>, >>=-eq-ok, inl, inr,
  Bool-cases, Option-cases, ◌<◌,
}
use u.Base.Map
use u.Json.{Document}
use u.Version.{VersionRange, valid_version_range, accepts_version}
use u.Capability.{CapEntry, read_range}
use u.Lease.{
  LeaseRecord, LeaseCredential, sealed, forged, LeaseHandle, LeaseCallGuard, Leases, Lookup, mint,
  acquire, after, or_throw, owned_by, same_generation, begin_call, set_in_flight, credential_handle,
  held, release, released, busy, stale, ReleaseStatus,
}

pub after_cases {ℓ κ} :
    {A : Type ℓ} (P : Leases → Type κ) (s : Leases) (m : Result (Leases × A))
    → P s
    → ((t : Leases) (a : A) → m ≡ ok (t, a) → P t)
    → P (after s m)
after_cases P s (ok (t, a)) same changed = changed t a refl
after_cases P s (err e) same changed = same

pub or_throw-eq-ok {ℓ} :
    {A : Type ℓ} (o : Option A) (s : RackStatus) {a : A} → or_throw o s ≡ ok a → o ≡ some a
or_throw-eq-ok none s h = absurd (cc)
or_throw-eq-ok (some b) s h = ground arith

-- What an `acquire` that returned has checked, and the table that it leaves.
pub record Acquired (find : Lookup) (s : Leases) (consumer plug_id : String) (range : Document)
    (revoker : Option ℕ) (t : Leases) (lease : LeaseHandle) : Type 0 where
  pub receiver : ℕ
  pub bounds : VersionRange
  pub entry : CapEntry
  pub callable : revoker ≡ some receiver
  pub well_formed : read_range range ≡ ok bounds
  pub valid : valid_version_range bounds ≡ true
  pub published : find plug_id ≡ some entry
  pub accepted : accepts_version bounds entry.version ≡ true
  pub minted : mint s consumer plug_id entry receiver ≡ t
  pub credential : lease.credential ≡ sealed s.next_handle
  pub of_plugin : lease.plug_id ≡ plug_id
  pub version : lease.version ≡ entry.version

pub acquire-Acquired :
    (find : Lookup) (s : Leases) (consumer plug_id : String) (range : Document) (revoker : Option ℕ)
    (t : Leases) (lease : LeaseHandle)
    → acquire find s consumer plug_id range revoker ≡ ok (t, lease)
    → Acquired find s consumer plug_id range revoker t lease
unfolding acquire
acquire-Acquired find s consumer plug_id range revoker t lease h =
    let (receiver, e₁, h₁) = >>=-eq-ok (or_throw revoker invalid_argument) _ h in
    let (bounds, e₂, h₂) = >>=-eq-ok (read_range range) _ h₁ in
    let (e₃, h₃) = guard->> (valid_version_range bounds) invalid_argument _ h₂ in
    let (entry, e₄, h₄) = >>=-eq-ok (or_throw (find plug_id) not_found) _ h₃ in
    let (e₅, h₅) = guard->> (accepts_version bounds entry.version) unsupported _ h₄ in
    record {
      receiver = receiver;
      bounds = bounds;
      entry = entry;
      callable = or_throw-eq-ok revoker invalid_argument e₁;
      well_formed = e₂;
      valid = e₃;
      published = or_throw-eq-ok (find plug_id) not_found e₄;
      accepted = e₅;
      minted = ground arith;
      credential = ground arith;
      of_plugin = ground arith;
      version = ground arith;
    }

-- The table after a call has begun on a lease.
abbrev pub begun : Leases → ℕ → LeaseRecord → Leases
begun s handle r = record s {
  records = set_in_flight handle (r.in_flight + 1) r s;
  open_guards = Map.insert s.next_guard handle s.open_guards;
  next_guard = suc s.next_guard;
}

pub record Begun (find : Lookup) (s : Leases) (credential : LeaseCredential) (consumer : String)
    (t : Leases) (g : LeaseCallGuard) : Type 0 where
  pub handle : ℕ
  pub lease : LeaseRecord
  pub opened : credential ≡ sealed handle
  pub found : Map.lookup handle s.records ≡ some lease
  pub owned : owned_by consumer lease ≡ true
  pub current : same_generation (find lease.provider_plug_id) lease.provider_generation ≡ true
  pub started : begun s handle lease ≡ t
  pub guard_id : g.guard_id ≡ s.next_guard
  pub plug_id : g.lease.provider_plug_id ≡ lease.provider_plug_id
  pub generation : g.lease.provider_generation ≡ lease.provider_generation

handle-sealed : (c : LeaseCredential) (h : ℕ) → credential_handle c ≡ some h → c ≡ sealed h
handle-sealed (sealed i) h e = ground arith
handle-sealed forged h e = absurd (cc)

pub begin_call-Begun :
    (find : Lookup) (s : Leases) (credential : LeaseCredential) (consumer : String) (t : Leases)
    (g : LeaseCallGuard)
    → begin_call find s credential consumer ≡ ok (t, g)
    → Begun find s credential consumer t g
unfolding begin_call
begin_call-Begun find s credential consumer t g h =
    let (handle, e₁, h₁) =
      >>=-eq-ok (or_throw (credential_handle credential) invalid_argument) _ h in
    let (r, e₂, h₂) = >>=-eq-ok (or_throw (Map.lookup handle s.records) RackStatus.stale) _ h₁ in
    let (e₃, h₃) = guard->> (owned_by consumer r) RackStatus.stale _ h₂ in
    let (e₄, h₄) =
      guard->> (same_generation (find r.provider_plug_id) r.provider_generation) RackStatus.stale _
        h₃ in
    record {
      handle = handle;
      lease = r;
      opened =
          handle-sealed credential handle
            (or_throw-eq-ok (credential_handle credential) invalid_argument e₁);
      found = or_throw-eq-ok (Map.lookup handle s.records) RackStatus.stale e₂;
      owned = e₃;
      current = e₄;
      started = ground arith;
      guard_id = ground arith;
      plug_id = ground arith;
      generation = ground arith;
    }

-- A release answers in one of three ways, and changes the table only where it removes the lease.
pub data Released (s : Leases) (credential : LeaseCredential) (consumer : String)
    : Leases × ReleaseStatus → Type 0 where
  unknown : held s credential consumer ≡ none → Released s credential consumer (s, stale)
  in_use :
      (h : ℕ) (r : LeaseRecord)
      → held s credential consumer ≡ some (h, r)
      → 0 < r.in_flight
      → Released s credential consumer (s, busy)
  gone :
      (h : ℕ) (r : LeaseRecord) (t : Leases)
      → held s credential consumer ≡ some (h, r)
      → r.in_flight ≡ 0
      → record s { records = Map.remove h s.records } ≡ t
      → Released s credential consumer (t, released)

pub release-Released :
    (s : Leases) (credential : LeaseCredential) (consumer : String)
    → Released s credential consumer (release s credential consumer)
unfolding release
release-Released s credential consumer = elim (Option-cases (held s credential consumer)) [
  | inl e ↦ rw (e, release) (unknown e)
  | inr ((h, r), e) ↦ elim (Bool-cases (ltb 0 r.in_flight)) [
    | inl used ↦ rw (e, release, used) (in_use h r e (ground arith))
    | inr idle ↦ rw (e, release, idle) (gone h r _ e (ground arith) refl)
  ]
]

pub held-lookup :
    (s : Leases) (credential : LeaseCredential) (consumer : String) (h : ℕ) (r : LeaseRecord)
    → held s credential consumer ≡ some (h, r)
    → (credential ≡ sealed h) × (Map.lookup h s.records ≡ some r) × (owned_by consumer r ≡ true)
held-lookup s (sealed i) consumer h r e = elim (Option-cases (Map.lookup i s.records)) [
  | inl missing ↦ absurd (ground arith)
  | inr (x, found) ↦ elim (Bool-cases (owned_by consumer x)) [
    | inl own ↦ ground arith
    | inr other ↦ absurd (ground arith)
  ]
]
held-lookup s forged consumer h r e = absurd (cc)
