-- ===== src/Lease.antt =====
-- ts/src/core/lease.ts: the lease table. A credential's handle is the number of the object that was
-- made for it; a guard is a number too, and is open until its `endCall`. `deps.lookup` is an
-- argument, as the registry behind it changes between calls.
pub mod Table
pub mod Steps
pub mod Invariant
pub mod Only
pub mod Lifetime
pub mod Revoke
mod Examples
use u.Base.{
  ℕ, suc, ◌+◌, ◌-◌, String, Bool, true, false, not, ◌&&◌, ◌||◌, Option, none, some, List, [], ◌∷◌,
  nat_key, string_key, ltb, ◌==◌, if◌then◌else◌, Result, ok, err, RackStatus, invalid_argument,
  not_found, unsupported, guard, length, ◌>>=◌, ◌>>◌,
}
use u.Base.Map
use u.Base.Map.{Map}
use u.Json.{Document}
use u.Version.{PluginVersion, VersionRange, valid_version_range, accepts_version}
use u.Capability.{CapEntry, read_range}

pub record LeaseRecord : Type 0 where
  pub consumer_id : String
  pub provider_plug_id : String
  pub provider_generation : ℕ
  pub version : PluginVersion
  pub revoker : ℕ
  pub in_flight : ℕ
  pub returned : Bool

-- `forged` is anything that `credentialHandle` refuses: no object, another kind, or no handle.
pub data LeaseCredential : Type 0 where
  sealed : ℕ → LeaseCredential
  forged : LeaseCredential

pub record LeaseHandle : Type 0 where
  pub credential : LeaseCredential
  pub plug_id : String
  pub version : PluginVersion

pub record ActiveLeaseInfo : Type 0 where
  pub credential : LeaseCredential
  pub consumer_id : String
  pub provider_plug_id : String
  pub provider_generation : ℕ
  pub version : PluginVersion

pub record LeaseCallGuard : Type 0 where
  pub guard_id : ℕ
  pub lease : ActiveLeaseInfo

-- `open_guards` maps a guard that has not ended to the handle of its lease.
pub record Leases : Type 0 where
  pub records : Map ℕ LeaseRecord
  pub next_handle : ℕ
  pub open_guards : Map ℕ ℕ
  pub next_guard : ℕ

unfoldable pub init : Leases
init = record { records = []; next_handle = 0; open_guards = []; next_guard = 0 }

pub data ReleaseStatus : Type 0 where
  released busy stale : ReleaseStatus

abbrev pub Lookup : Type 0
Lookup = String → Option CapEntry

abbrev pub credential_handle : LeaseCredential → Option ℕ
credential_handle (sealed handle) = some handle
credential_handle forged = none

abbrev pub or_throw {ℓ} : {A : Type ℓ} → Option A → RackStatus → Result A
or_throw none s = err s
or_throw (some a) s = ok a

-- The lease that a new handle stands for.
abbrev pub mint : Leases → String → String → CapEntry → ℕ → Leases
mint s consumer plug_id entry revoker = record s {
  records =
      Map.insert s.next_handle
        (record {
          consumer_id = consumer;
          provider_plug_id = plug_id;
          provider_generation = entry.generation;
          version = entry.version;
          revoker = revoker;
          in_flight = 0;
          returned = false;
        })
        s.records;
  next_handle = suc s.next_handle;
}

-- `revoker` is none where it has no callable onRevoke.
unfoldable pub acquire :
    Lookup → Leases → String → String → Document → Option ℕ → Result (Leases × LeaseHandle)
acquire find s consumer plug_id range revoker = do
  receiver ← or_throw revoker invalid_argument
  bounds ← read_range range
  guard (valid_version_range bounds) invalid_argument
  entry ← or_throw (find plug_id) not_found
  guard (accepts_version bounds entry.version) unsupported
  ok (
    mint s consumer plug_id entry receiver,
    record { credential = sealed s.next_handle; plug_id = plug_id; version = entry.version },
  )

-- Whether a record answers to its consumer.
abbrev pub owned_by : String → LeaseRecord → Bool
owned_by consumer r = not (r.returned || not (r.consumer_id == consumer))

abbrev pub held : Leases → LeaseCredential → String → Option (ℕ × LeaseRecord)
held s credential consumer = elim (credential_handle credential) [
  | none ↦ none
  | some handle ↦ elim (Map.lookup handle s.records) [
    | none ↦ none
    | some r ↦ if owned_by consumer r then some (handle, r) else none
  ]
]

unfoldable pub release : Leases → LeaseCredential → String → Leases × ReleaseStatus
release s credential consumer = elim (held s credential consumer) [
  | none ↦ (s, stale)
  | some (handle, r) ↦
      if ltb 0 r.in_flight
      then (s, busy)
      else (record s { records = Map.remove handle s.records }, released)
]

-- The record of a handle with another count of calls.
abbrev pub set_in_flight : ℕ → ℕ → LeaseRecord → Leases → Map ℕ LeaseRecord
set_in_flight handle n r s = Map.insert handle (record r { in_flight = n }) s.records

abbrev pub same_generation : Option CapEntry → ℕ → Bool
same_generation none g = false
same_generation (some entry) g = entry.generation == g

unfoldable pub begin_call :
    Lookup → Leases → LeaseCredential → String → Result (Leases × LeaseCallGuard)
begin_call find s credential consumer = do
  handle ← or_throw (credential_handle credential) invalid_argument
  r ← or_throw (Map.lookup handle s.records) RackStatus.stale
  guard (owned_by consumer r) RackStatus.stale
  guard (same_generation (find r.provider_plug_id) r.provider_generation) RackStatus.stale
  ok (
    record s {
      records = set_in_flight handle (r.in_flight + 1) r s;
      open_guards = Map.insert s.next_guard handle s.open_guards;
      next_guard = suc s.next_guard;
    },
    record {
      guard_id = s.next_guard;
      lease = record {
        credential = credential;
        consumer_id = r.consumer_id;
        provider_plug_id = r.provider_plug_id;
        provider_generation = r.provider_generation;
        version = r.version;
      };
    },
  )

-- The count of the guard's lease, if it is still there, falls by one and not below 0.
unfoldable pub one_less : ℕ → Leases → Map ℕ LeaseRecord
one_less handle s = elim (Map.lookup handle s.records) [
  | none ↦ s.records
  | some r ↦ if ltb 0 r.in_flight then set_in_flight handle (r.in_flight - 1) r s else s.records
]

unfoldable pub end_call : Leases → ℕ → Leases
unfolding one_less
end_call s guard_id = elim (Map.lookup guard_id s.open_guards) [
  | none ↦ s
  | some handle ↦ record s {
    records = one_less handle s;
    open_guards = Map.remove guard_id s.open_guards;
  }
]

abbrev pub lent_by : String → ℕ → LeaseRecord → Bool
lent_by provider generation r =
    r.provider_plug_id == provider && r.provider_generation == generation

unfoldable pub release_all_from : Leases → String → Leases
release_all_from s consumer = record s {
  records = Map.retain (λ r. not (r.consumer_id == consumer)) s.records;
}

unfoldable pub has_outstanding_for : Leases → String → ℕ → Bool
has_outstanding_for s provider generation = Map.some_value (lent_by provider generation) s.records

unfoldable pub active_count : Leases → ℕ
active_count s = length s.records

-- What the code that runs between two points may do to the table.
pub data Call : Type 0 where
  acquires : Lookup → String → String → Document → Option ℕ → Call
  releases : LeaseCredential → String → Call
  begins : Lookup → LeaseCredential → String → Call
  ends : ℕ → Call
  releases_all : String → Call

-- A call that throws has left the table as it was.
abbrev pub after {ℓ} : {A : Type ℓ} → Leases → Result (Leases × A) → Leases
after s (ok (t, a)) = t
after s (err e) = s

unfoldable pub step : Leases → Call → Leases
step s (acquires find consumer plug_id range revoker) =
    after s (acquire find s consumer plug_id range revoker)
step s (releases credential consumer) = (release s credential consumer).0
step s (begins find credential consumer) = after s (begin_call find s credential consumer)
step s (ends guard_id) = end_call s guard_id
step s (releases_all consumer) = release_all_from s consumer

unfoldable pub run : Leases → List Call → Leases
run s [] = s
run s (c ∷ cs) = run (step s c) cs

-- The handles of the leases on one generation, in the order of the table.
unfoldable pub pending_for : String → ℕ → Map ℕ LeaseRecord → List ℕ
pending_for provider generation [] = []
pending_for provider generation ((handle, r) ∷ m) =
    if lent_by provider generation r
    then handle ∷ pending_for provider generation m
    else pending_for provider generation m

pub data RevokeStatus : Type 0 where
  all_returned still_lent : RevokeStatus

-- The table after the callbacks, the credentials that were revoked in order, and the consumers
-- whose callback threw.
pub record Revocation : Type 0 where
  pub leases : Leases
  pub notified : List LeaseCredential
  pub diags : List String

-- What a revoker does until its promise settles, given the table that it finds: its calls and those
-- of whatever else runs meanwhile, and whether it throws.
abbrev pub OnRevoke : Type 0
OnRevoke = ℕ → LeaseCredential → Leases → List Call × Bool

unfoldable pub notify : OnRevoke → List ℕ → Leases → Revocation
notify on_revoke [] s = record { leases = s; notified = []; diags = [] }
notify on_revoke (handle ∷ rest) s = elim (Map.lookup handle s.records) [
  | none ↦ notify on_revoke rest s
  | some r ↦
      let (calls, threw) = on_revoke r.revoker (sealed handle) s in
      let after_it = notify on_revoke rest (run s calls) in
      record after_it {
        notified = sealed handle ∷ after_it.notified;
        diags = if threw then r.consumer_id ∷ after_it.diags else after_it.diags;
      }
]

unfoldable pub revoke_provider : OnRevoke → Leases → String → ℕ → Revocation × RevokeStatus
revoke_provider on_revoke s provider generation =
    let done = notify on_revoke (pending_for provider generation s.records) s in
    (done, if has_outstanding_for done.leases provider generation then still_lent else all_returned)
