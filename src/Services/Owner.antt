-- ===== src/Services/Owner.antt =====
-- What the services of one plugin can do with what another has acquired.
use u.Base.{
  ℕ, ◌≡◌, refl, ap, String, true, Option, some, List, Result, ok, err, arith, Bool-cases, inl, inr,
}
use u.Json.{Document}
use u.Capability.{CapEntry}
use u.Lease.{LeaseCredential, LeaseHandle, LeaseCallGuard, Leases, Call, begin_call, run}
use u.Lease.Invariant.{Inv}
use u.Lease.Lifetime.{credential_keeps_generation}
use u.Calls.{MethodSelector, Deps, Gateway, Entered, check_document, guarded, checked, enter}
use u.Services.{Ports, caps_acquire, call_selected}

module _ (deps : Deps) (s : Gateway) (consumer : String) (credential : LeaseCredential)
    (method : MethodSelector) (args : Document) (t : Gateway) (call : Entered) where
  abbrev Begins : Type 0
  Begins =
      (u : Leases) × (g : LeaseCallGuard) × (begin_call deps.lookup_caps s.leases credential
          consumer
        ≡ ok (u, g))

  guarded-Begins :
      (r : Result (Leases × LeaseCallGuard))
      → begin_call deps.lookup_caps s.leases credential consumer ≡ r
      → guarded deps s method args r ≡ (t, ok call)
      → Begins
  guarded-Begins (err e) began h = absurd (cc (ap (λ (p : Gateway × Result Entered). p.1) h))
  guarded-Begins (ok (leases, g)) began h = (leases, g, began)

  checked-Begins :
      (c : Result (Unit {0}))
      → checked deps s consumer credential method args c ≡ (t, ok call)
      → Begins
  checked-Begins (err e) h = absurd (cc (ap (λ (p : Gateway × Result Entered). p.1) h))
  checked-Begins (ok done) h =
      guarded-Begins (begin_call deps.lookup_caps s.leases credential consumer) refl h

  enter-Begins : enter deps s consumer credential method args ≡ (t, ok call) → Begins
  unfolding enter
  enter-Begins h = checked-Begins (check_document args deps.payload_limit) h

-- A plugin calls only on what it has acquired itself, and only while it is Active: if a call is let
-- in on a credential that the services of `owner` have acquired, then, whatever the leases have been
-- through since, it was made through services of the same owner, who is Active, and the provider is
-- still published with the generation that it had then.
pub call_needs_owner :
    (ports now : Ports) (owner caller : String) (s : Gateway) (plug_id : String) (range : Document)
    (revoker : Option ℕ) (leases : Leases) (lease : LeaseHandle) (entry : CapEntry) (cs : List Call)
    (busy_keys : List String) (method : MethodSelector) (args : Document) (t : Gateway)
    (call : Entered)
    → Inv s.leases
    → caps_acquire ports owner s plug_id range revoker ≡ ok (leases, lease)
    → ports.find plug_id ≡ some entry
    → call_selected now caller
        (record { leases = run leases cs; in_flight_providers = busy_keys })
        lease.credential
        method
        args
      ≡ (t, ok call)
    → (caller ≡ owner)
      × (now.consumer_active ≡ true)
      × (e : CapEntry) × (now.calls.lookup_caps plug_id ≡ some e)
      × (e.generation ≡ entry.generation)
unfolding caps_acquire
call_needs_owner ports now owner caller s plug_id range revoker leases lease entry cs busy_keys
      method args t call v acquired published h =
    let gateway : Gateway = record { leases = run leases cs; in_flight_providers = busy_keys } in
    elim (Bool-cases now.consumer_active) [
      | inr idle ↦ absurd (ground arith)
      | inl active ↦
          let entered : enter now.calls gateway caller lease.credential method args ≡ (t, ok call) =
            ground arith in
          let (u, g, began) =
            enter-Begins now.calls gateway caller lease.credential method args t call entered in
          let (same, e, there, generation) =
            credential_keeps_generation ports.find s.leases owner plug_id range revoker leases lease
              entry v acquired published cs now.calls.lookup_caps caller u g began in
          (same, active, e, there, generation)
    ]
