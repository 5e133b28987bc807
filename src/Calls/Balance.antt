-- ===== src/Calls/Balance.antt =====
-- A call that is refused has changed nothing that can be seen.
use u.Base.{
  ℕ, ◌+◌, ◌-◌, ◌≡◌, refl, sym, ap, subst, String, none, some, [], ◌∷◌, arith, nat_key, string_key,
  nat_beq_iff, Result, ok, err, RackStatus,
}
use u.Base.Map
use u.Base.Map.{Map, lookup-insert}
use u.Json.{Document}
use u.Lease.{LeaseRecord, LeaseCredential, LeaseCallGuard, Leases, begin_call, one_less, end_call}
use u.Lease.Steps.{begun, begin_call-Begun}
use u.Lease.Invariant.{Inv, new_guard, begun-Inv, end_call-Inv}
use u.Calls.{
  MethodSelector, Deps, Gateway, InvokeRequest, admit, check_document, admitted, guarded, checked,
  enter,
}

-- The tables that a refused call leaves as they were, and well formed.
pub record SameTables (s t : Leases) : Type 0 where
  pub records : t.records ≡ s.records
  pub open_guards : t.open_guards ≡ s.open_guards
  pub next_handle : t.next_handle ≡ s.next_handle
  pub valid : Inv t

remove-insert :
    (g h : ℕ) (m : Map ℕ ℕ) → Map.lookup g m ≡ none → Map.remove g (Map.insert g h m) ≡ m
unfolding Map.remove Map.insert Map.lookup
remove-insert g h [] new = ground (arith, nat_beq_iff g g)
remove-insert g h ((i, k) ∷ m) new = ground (arith, remove-insert g h m)

insert-insert_back :
    (h : ℕ) (r x : LeaseRecord) (m : Map ℕ LeaseRecord)
    → Map.lookup h m ≡ some r
    → Map.insert h r (Map.insert h x m) ≡ m
unfolding Map.insert Map.lookup
insert-insert_back h r x [] found = absurd (cc)
insert-insert_back h r x ((i, y) ∷ m) found = ground (arith, insert-insert_back h r x m)

-- A call that ends right after it began.
end_begun :
    (s : Leases) (h : ℕ) (r : LeaseRecord)
    → Inv s
    → Map.lookup h s.records ≡ some r
    → SameTables s (end_call (begun s h r) s.next_guard)
unfolding end_call one_less
end_begun s h r v found =
    let g = s.next_guard in
    let more = record r { in_flight = r.in_flight + 1 } in
    let at_g : Map.lookup g (Map.insert g h s.open_guards) ≡ some h =
      ground (arith, lookup-insert g g h s.open_guards, nat_beq_iff g g) in
    let at_h : Map.lookup h (Map.insert h more s.records) ≡ some more =
      ground (arith, lookup-insert h h more s.records, nat_beq_iff h h) in
    let back : record more { in_flight = more.in_flight - 1 } ≡ r = ground arith in
    let ended = end_call-Inv (begun s h r) g (begun-Inv s h r found v) in
    rw (at_g, end_call, at_h, one_less)
      (record {
        records = ground (
          arith,
          ap (λ x. Map.insert h x (Map.insert h more s.records)) back,
          insert-insert_back h r more s.records found,
        );
        open_guards = remove-insert g h s.open_guards (new_guard s v);
        next_handle = refl;
        valid = rw (at_g, end_call, at_h, one_less) at ended;
      })

-- Admission refused: the guard that was made has ended.
admitted-SameTables :
    (s : Gateway) (leases : Leases) (g : LeaseCallGuard) (r : Result (String × InvokeRequest))
    (e : RackStatus)
    → SameTables s.leases (end_call leases g.guard_id)
    → (admitted (record s { leases = leases }) g r).1 ≡ err e
    → SameTables s.leases (admitted (record s { leases = leases }) g r).0.leases
      × ((admitted (record s { leases = leases }) g r).0.in_flight_providers
          ≡ s.in_flight_providers)
admitted-SameTables s leases g (err x) e same refused = (same, refl)
admitted-SameTables s leases g (ok a) e same refused = absurd (cc)

guarded-SameTables :
    (deps : Deps) (s : Gateway) (consumer : String) (credential : LeaseCredential)
    (method : MethodSelector) (args : Document) (e : RackStatus)
    (r : Result (Leases × LeaseCallGuard))
    → Inv s.leases
    → begin_call deps.lookup_caps s.leases credential consumer ≡ r
    → (guarded deps s method args r).1 ≡ err e
    → SameTables s.leases (guarded deps s method args r).0.leases
      × ((guarded deps s method args r).0.in_flight_providers ≡ s.in_flight_providers)
guarded-SameTables deps s consumer credential method args e (err x) v began refused =
    (record { records = refl; open_guards = refl; next_handle = refl; valid = v }, refl)
guarded-SameTables deps s consumer credential method args e (ok (leases, g)) v began refused =
    let did = begin_call-Begun deps.lookup_caps s.leases credential consumer leases g began in
    let ended = end_begun s.leases did.handle did.lease v did.found in
    admitted-SameTables s leases g (admit deps s.in_flight_providers g.lease method args) e
      (subst (λ i. SameTables s.leases (end_call leases i)) (sym did.guard_id)
        (subst (λ t. SameTables s.leases (end_call t s.leases.next_guard)) did.started ended))
      refused

checked-SameTables :
    (deps : Deps) (s : Gateway) (consumer : String) (credential : LeaseCredential)
    (method : MethodSelector) (args : Document) (e : RackStatus) (c : Result (Unit {0}))
    → Inv s.leases
    → (checked deps s consumer credential method args c).1 ≡ err e
    → SameTables s.leases (checked deps s consumer credential method args c).0.leases
      × ((checked deps s consumer credential method args c).0.in_flight_providers
          ≡ s.in_flight_providers)
checked-SameTables deps s consumer credential method args e (err x) v refused =
    (record { records = refl; open_guards = refl; next_handle = refl; valid = v }, refl)
checked-SameTables deps s consumer credential method args e (ok done) v refused =
    guarded-SameTables deps s consumer credential method args e
      (begin_call deps.lookup_caps s.leases credential consumer) v refl refused

-- A call that is refused, for whatever reason, leaves the leases, their counts of calls, the open
-- guards and the set of busy providers as they were.
pub refused_changes_nothing :
    (deps : Deps) (s : Gateway) (consumer : String) (credential : LeaseCredential)
    (method : MethodSelector) (args : Document) (e : RackStatus)
    → Inv s.leases
    → (enter deps s consumer credential method args).1 ≡ err e
    → SameTables s.leases (enter deps s consumer credential method args).0.leases
      × ((enter deps s consumer credential method args).0.in_flight_providers
          ≡ s.in_flight_providers)
unfolding enter
refused_changes_nothing deps s consumer credential method args e v refused =
    checked-SameTables deps s consumer credential method args e
      (check_document args deps.payload_limit) v refused
