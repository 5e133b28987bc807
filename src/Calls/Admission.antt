-- ===== src/Calls/Admission.antt =====
-- What a call that is let in has been checked for.
use u.Base.{
  ℕ, true, ◌≡◌, refl, sym, ap, subst, String, false, not, Option, none, some, List, [], ◌∷◌, ◌++◌,
  arith, nat_key, string_key, ◌==◌, nat_beq_iff, if◌then◌else◌, Result, ok, err, RackStatus, ◌∙◌,
  guard->>, >>=-eq-ok, includes, not_found, failed,
}
use u.Base.Map
use u.Base.Map.{Map}
use u.Json.{Document}
use u.Capability.{CapEntry, MethodDesc}
use u.Lease.{
  LeaseRecord, LeaseCredential, sealed, LeaseCallGuard, ActiveLeaseInfo, Leases, begin_call,
  or_throw, owned_by,
}
use u.Lease.Steps.{begun, begin_call-Begun, or_throw-eq-ok}
use u.Calls.{
  MethodSelector, ProviderEndpoint, Deps, Gateway, Entered, InvokeRequest, find_method,
  current_entry, admit, check_document, admitted, guarded, checked, enter,
}

-- The checks, and the state after them.
pub record Admission (deps : Deps) (s : Gateway) (consumer : String) (credential : LeaseCredential)
    (method : MethodSelector) (args : Document) (t : Gateway) (call : Entered) : Type 0 where
  pub handle : ℕ
  pub lease : LeaseRecord
  pub entry : CapEntry
  pub disclosed : MethodDesc
  pub endpoint : ProviderEndpoint
  pub opened : credential ≡ sealed handle
  pub consumer_owns : lease.consumer_id ≡ consumer
  pub not_returned : lease.returned ≡ false
  pub arguments : check_document args deps.payload_limit ≡ ok tt
  pub held : Map.lookup handle s.leases.records ≡ some lease
  pub published : deps.lookup_caps lease.provider_plug_id ≡ some entry
  pub current : entry.generation ≡ lease.provider_generation
  pub selected : find_method entry method ≡ some disclosed
  pub resolved :
      deps.resolve_provider lease.provider_plug_id lease.provider_generation ≡ some endpoint
  pub callable : endpoint.has_invoke ≡ true
  pub key : call.key ≡ endpoint.key
  pub free : includes s.in_flight_providers endpoint.key ≡ false
  pub of_plugin : call.lease.provider_plug_id ≡ lease.provider_plug_id
  pub of_generation : call.lease.provider_generation ≡ lease.provider_generation
  pub guard_id : call.guard_id ≡ s.leases.next_guard
  pub request :
      call.request ≡ record { method_id = disclosed.id; method_name = disclosed.name; args = args }
  pub leases : begun s.leases handle lease ≡ t.leases
  pub providers : t.in_flight_providers ≡ s.in_flight_providers ++ endpoint.key ∷ []

current_entry-eq-ok :
    (o : Option CapEntry) (generation : ℕ) (entry : CapEntry)
    → elim o [
      | none ↦ err RackStatus.stale
      | some e ↦ if e.generation == generation then ok e else err RackStatus.stale
    ]
      ≡ ok entry
    → (o ≡ some entry) × (entry.generation ≡ generation)
current_entry-eq-ok none generation entry h = absurd (cc)
current_entry-eq-ok (some e) generation entry h =
    ground (arith, nat_beq_iff e.generation generation)

owned_by-owns :
    (consumer : String) (r : LeaseRecord)
    → owned_by consumer r ≡ true
    → (r.consumer_id ≡ consumer) × (r.returned ≡ false)
owned_by-owns consumer r h = ground (arith, string_key.same_iff r.consumer_id consumer)

-- What `admit` has checked.
abbrev Passed :
    Deps
    → List String
    → ActiveLeaseInfo
    → MethodSelector
    → Document
    → String
    → InvokeRequest
    → Type 0
Passed deps busy_keys lease method args key request =
    (entry : CapEntry) × (m : MethodDesc) × (endpoint : ProviderEndpoint) × (deps.lookup_caps
        lease.provider_plug_id
      ≡ some entry)
    × (entry.generation ≡ lease.provider_generation)
    × (find_method entry method ≡ some m)
    × (deps.resolve_provider lease.provider_plug_id lease.provider_generation ≡ some endpoint)
    × (endpoint.has_invoke ≡ true)
    × (key ≡ endpoint.key)
    × (includes busy_keys endpoint.key ≡ false)
    × (request ≡ record { method_id = m.id; method_name = m.name; args = args })

admit-Passed :
    (deps : Deps) (busy_keys : List String) (lease : ActiveLeaseInfo) (method : MethodSelector)
    (args : Document) (key : String) (request : InvokeRequest)
    → admit deps busy_keys lease method args ≡ ok (key, request)
    → Passed deps busy_keys lease method args key request
unfolding admit
admit-Passed deps busy_keys lease method args key request h =
    let (entry, e₁, h₁) = >>=-eq-ok (current_entry deps.lookup_caps lease) _ h in
    let (m, e₂, h₂) = >>=-eq-ok (or_throw (find_method entry method) not_found) _ h₁ in
    let (endpoint, e₃, h₃) =
      >>=-eq-ok
        (or_throw (deps.resolve_provider lease.provider_plug_id lease.provider_generation)
          RackStatus.stale)
        _ h₂ in
    let (e₄, h₄) = guard->> (not (includes busy_keys endpoint.key)) RackStatus.busy _ h₃ in
    let (e₅, h₅) = guard->> endpoint.has_invoke failed _ h₄ in
    let (published, current) =
      current_entry-eq-ok (deps.lookup_caps lease.provider_plug_id) lease.provider_generation entry
        e₁ in
    (
      entry,
      m,
      endpoint,
      published,
      current,
      or_throw-eq-ok (find_method entry method) not_found e₂,
      or_throw-eq-ok (deps.resolve_provider lease.provider_plug_id lease.provider_generation)
          RackStatus.stale e₃,
      e₅,
      ground arith,
      ground arith,
      ground arith,
    )

admitted-eq-ok :
    (s : Gateway) (g : LeaseCallGuard) (r : Result (String × InvokeRequest)) (t : Gateway)
    (call : Entered)
    → admitted s g r ≡ (t, ok call)
    → (r ≡ ok (call.key, call.request))
      × (call.guard_id ≡ g.guard_id)
      × (call.lease ≡ g.lease)
      × (t.leases ≡ s.leases)
      × (t.in_flight_providers ≡ s.in_flight_providers ++ call.key ∷ [])
admitted-eq-ok s g (err e) t call h = absurd (cc (ap (λ (p : Gateway × Result Entered). p.1) h))
admitted-eq-ok s g (ok (key, request)) t call h =
    let result = ap (λ (p : Gateway × Result Entered). p.1) h in
    let state = ap (λ (p : Gateway × Result Entered). p.0) h in ground arith

module _ (deps : Deps) (s : Gateway) (consumer : String) (credential : LeaseCredential)
    (method : MethodSelector) (args : Document) (t : Gateway) (call : Entered) where
  guarded-Admission :
      (r : Result (Leases × LeaseCallGuard))
      → check_document args deps.payload_limit ≡ ok tt
      → begin_call deps.lookup_caps s.leases credential consumer ≡ r
      → guarded deps s method args r ≡ (t, ok call)
      → Admission deps s consumer credential method args t call
  guarded-Admission (err e) fits began h =
      absurd (cc (ap (λ (p : Gateway × Result Entered). p.1) h))
  guarded-Admission (ok (leases, g)) fits began h =
      let did = begin_call-Begun deps.lookup_caps s.leases credential consumer leases g began in
      let (passed, same_guard, same_lease, same_leases, providers) =
        admitted-eq-ok (record s { leases = leases }) g
          (admit deps s.in_flight_providers g.lease method args) t call h in
      let (
        entry, m, endpoint, published, current, selected, resolved, callable, key, free, request,
      ) =
        admit-Passed deps s.in_flight_providers g.lease method args call.key call.request passed in
      record {
        handle = did.handle;
        lease = did.lease;
        entry = entry;
        disclosed = m;
        endpoint = endpoint;
        opened = did.opened;
        consumer_owns = (owned_by-owns consumer did.lease did.owned).0;
        not_returned = (owned_by-owns consumer did.lease did.owned).1;
        arguments = fits;
        held = did.found;
        published = subst (λ p. deps.lookup_caps p ≡ some entry) did.plug_id published;
        current = current ∙ did.generation;
        selected = selected;
        resolved =
            subst (λ p. deps.resolve_provider p did.lease.provider_generation ≡ some endpoint)
              did.plug_id
              (subst (λ n. deps.resolve_provider g.lease.provider_plug_id n ≡ some endpoint)
                did.generation resolved);
        callable = callable;
        key = key;
        free = free;
        of_plugin = ap (λ (i : ActiveLeaseInfo). i.provider_plug_id) same_lease ∙ did.plug_id;
        of_generation =
            ap (λ (i : ActiveLeaseInfo). i.provider_generation) same_lease ∙ did.generation;
        guard_id = same_guard ∙ did.guard_id;
        request = request;
        leases = did.started ∙ sym same_leases;
        providers = providers ∙ ap (λ k. s.in_flight_providers ++ k ∷ []) key;
      }

  checked-Admission :
      (c : Result (Unit {0}))
      → check_document args deps.payload_limit ≡ c
      → checked deps s consumer credential method args c ≡ (t, ok call)
      → Admission deps s consumer credential method args t call
  checked-Admission (err e) fits h = absurd (cc (ap (λ (p : Gateway × Result Entered). p.1) h))
  checked-Admission (ok done) fits h =
      guarded-Admission (begin_call deps.lookup_caps s.leases credential consumer) fits refl h

  -- A call that enter lets in has a credential sealed with the handle of a lease in the table that
  -- the caller itself owns and that has not been handed back. The arguments are JSON within the
  -- limit; the leased provider is published with the leased generation and discloses the method;
  -- the endpoint is the one resolved for the leased provider and generation, has an invoke, and has
  -- no call in flight. The call carries that provider, generation, endpoint and method with the
  -- arguments as given; the lease counts one more call, and only the endpoint's key is added to
  -- those in flight.
  pub enter-Admission :
      enter deps s consumer credential method args ≡ (t, ok call)
      → Admission deps s consumer credential method args t call
  unfolding enter
  enter-Admission h = checked-Admission (check_document args deps.payload_limit) refl h
