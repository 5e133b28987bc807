-- ===== src/Calls/Serial.antt =====
-- The calls in flight, under any interleaving of calls and of other uses of the leases.
use u.Base.{
  ℕ, ◌≡◌, refl, sym, ap, subst, inl, inr, String, false, not, none, some, List, [], ◌∷◌, ◌++◌, map,
  arith, nat_key, string_key, ◌==◌, Option-cases, ok, err, RackStatus, ◌∙◌, includes, Unique,
  Unique-concat, Unique-split, keep-split, keep_absent, keep,
}
use mathlib.Core.List.{map-append}
use u.Base.Map
use u.Base.Map.{Map, Distinct}
use u.Json.{Document}
use u.Lease.{
  init, LeaseRecord, LeaseCredential, Leases, Call, acquires, releases, begins, ends, releases_all,
  step, end_call, acquire, release, release_all_from,
}
use u.Lease.Table.{guards_of}
use u.Lease.Invariant.{Inv, init-Inv, step-Inv, new_guard, begun-Inv, end_call-Inv}
use u.Calls.{MethodSelector, Deps, Gateway, Entered, Outcome, enter, leave, without}
use u.Calls.Admission.{Admission, enter-Admission}
use u.Calls.Balance.{SameTables, refused_changes_nothing}

-- The gateway and the calls that wait for their provider.
pub record Machine : Type 0 where
  pub gateway : Gateway
  pub active : List Entered

-- Guards are the gateway's own: other code acquires and releases leases.
abbrev pub IsOutside : Call → Type 0
IsOutside (begins find credential consumer) = ⊥
IsOutside (ends g) = ⊥
IsOutside _ = Unit {0}

pub data Move : Machine → Machine → Type 0 where
  enters :
      (m : Machine) (deps : Deps) (consumer : String) (credential : LeaseCredential)
      (method : MethodSelector) (args : Document) (t : Gateway) (call : Entered)
      → enter deps m.gateway consumer credential method args ≡ (t, ok call)
      → Move m (record { gateway = t; active = m.active ++ call ∷ [] })
  refused :
      (m : Machine) (deps : Deps) (consumer : String) (credential : LeaseCredential)
      (method : MethodSelector) (args : Document) (e : RackStatus)
      → (enter deps m.gateway consumer credential method args).1 ≡ err e
      → Move m (record m { gateway = (enter deps m.gateway consumer credential method args).0 })
  leaves :
      (m : Machine) (before after : List Entered) (call : Entered) (limit : ℕ) (outcome : Outcome)
      → m.active ≡ before ++ call ∷ after
      → Move m
          (record { gateway = (leave limit m.gateway call outcome).0; active = before ++ after })
  leases :
      (m : Machine) (c : Call)
      → IsOutside c
      → Move m (record m { gateway = record m.gateway { leases = step m.gateway.leases c } })

pub data Reach (m : Machine) : Machine → Type 0 where
  here : Reach m m
  next : {t u : Machine} → Reach m t → Move t u → Reach m u

abbrev pub start : Machine
start = record {
  gateway = record {
    leases = record { records = []; next_handle = 0; open_guards = []; next_guard = 0 };
    in_flight_providers = [];
  };
  active = [];
}

abbrev pub keys : List Entered → List String
keys = map λ c. c.key

abbrev guards : List Entered → List ℕ
guards = map λ c. c.guard_id

abbrev guard_ids : Map ℕ ℕ → List ℕ
guard_ids = map λ e. e.0

pub record IsSerial (m : Machine) : Type 0 where
  pub busy : m.gateway.in_flight_providers ≡ keys m.active
  pub distinct : Unique (keys m.active)
  pub counted : guard_ids m.gateway.leases.open_guards ≡ guards m.active
  pub leases : Inv m.gateway.leases

guard_ids-insert :
    (g h : ℕ) (m : Map ℕ ℕ)
    → Map.lookup g m ≡ none
    → guard_ids (Map.insert g h m) ≡ guard_ids m ++ g ∷ []
unfolding Map.insert Map.lookup
guard_ids-insert g h [] new = refl
guard_ids-insert g h ((i, k) ∷ m) new = ground (arith, guard_ids-insert g h m)

guard_ids-remove :
    (g : ℕ) (m : Map ℕ ℕ) → guard_ids (Map.remove g m) ≡ keep (λ i. not (i == g)) (guard_ids m)
unfolding Map.remove
guard_ids-remove g [] = refl
guard_ids-remove g ((i, k) ∷ m) = ground (arith, guard_ids-remove g m)

includes-guard_ids :
    (g : ℕ) (m : Map ℕ ℕ) → Map.lookup g m ≡ none → includes (guard_ids m) g ≡ false
unfolding Map.lookup
includes-guard_ids g [] absent = refl
includes-guard_ids g ((i, k) ∷ m) absent = ground (arith, includes-guard_ids g m)

guard_ids-Unique : (m : Map ℕ ℕ) → Distinct m → Unique (guard_ids m)
guard_ids-Unique [] d = tt
guard_ids-Unique ((i, k) ∷ m) (new, d) = (includes-guard_ids i m new, guard_ids-Unique m d)

-- The guards that are open once one has ended.
guard_ids-end_call :
    (s : Leases) (g : ℕ)
    → guard_ids (end_call s g).open_guards ≡ keep (λ i. not (i == g)) (guard_ids s.open_guards)
unfolding end_call
guard_ids-end_call s g = elim (Option-cases (Map.lookup g s.open_guards)) [
  | inl absent ↦
      rw (absent, end_call)
        (sym (keep_absent (guard_ids s.open_guards) g (includes-guard_ids g s.open_guards absent)))
  | inr (h, found) ↦ rw (found, end_call) (guard_ids-remove g s.open_guards)
]

enters-IsSerial :
    (m : Machine) (deps : Deps) (consumer : String) (credential : LeaseCredential)
    (method : MethodSelector) (args : Document) (t : Gateway) (call : Entered)
    → Admission deps m.gateway consumer credential method args t call
    → IsSerial m
    → IsSerial (record { gateway = t; active = m.active ++ call ∷ [] })
enters-IsSerial m deps consumer credential method args t call a i = record {
  busy =
      a.providers
      ∙ ap (λ k. m.gateway.in_flight_providers ++ k ∷ []) (sym a.key)
      ∙ ap (λ ks. ks ++ call.key ∷ []) i.busy
      ∙ sym (map-append _ m.active (call ∷ []));
  distinct = subst Unique (sym (map-append _ m.active (call ∷ []))) (
      Unique-concat (keys m.active) call.key i.distinct (
        subst (λ ks. includes ks call.key ≡ false) i.busy
          (subst (λ k. includes m.gateway.in_flight_providers k ≡ false) (sym a.key) a.free)));
  counted =
      ap (λ (l : Leases). guard_ids l.open_guards) (sym a.leases)
      ∙ guard_ids-insert m.gateway.leases.next_guard a.handle m.gateway.leases.open_guards
          (new_guard m.gateway.leases i.leases)
      ∙ ap (λ gs. gs ++ m.gateway.leases.next_guard ∷ []) i.counted
      ∙ ap (λ g. guards m.active ++ g ∷ []) (sym a.guard_id)
      ∙ sym (map-append _ m.active (call ∷ []));
  leases = subst Inv a.leases (begun-Inv m.gateway.leases a.handle a.lease a.held i.leases);
}

refused-IsSerial :
    (m : Machine) (t : Gateway)
    → SameTables m.gateway.leases t.leases
    → t.in_flight_providers ≡ m.gateway.in_flight_providers
    → IsSerial m
    → IsSerial (record m { gateway = t })
refused-IsSerial m t same providers i = record {
  busy = providers ∙ i.busy;
  distinct = i.distinct;
  counted = ap guard_ids same.open_guards ∙ i.counted;
  leases = same.valid;
}

leaves-IsSerial :
    (m : Machine) (before after : List Entered) (call : Entered) (limit : ℕ) (outcome : Outcome)
    → m.active ≡ before ++ call ∷ after
    → IsSerial m
    → IsSerial
        (record { gateway = (leave limit m.gateway call outcome).0; active = before ++ after })
unfolding leave
leaves-IsSerial m before after call limit outcome e i =
    let ks : keys m.active ≡ keys before ++ call.key ∷ keys after =
      ap keys e ∙ map-append _ before (call ∷ after) in
    let gs : guard_ids m.gateway.leases.open_guards
        ≡ guards before ++ call.guard_id ∷ guards after =
      i.counted ∙ ap guards e ∙ map-append _ before (call ∷ after) in
    let one_key = subst Unique ks i.distinct in
    let one_guard =
      subst Unique gs (guard_ids-Unique m.gateway.leases.open_guards i.leases.guards_distinct) in
    record {
      busy =
          ap (without call.key) (i.busy ∙ ks)
          ∙ keep-split (keys before) (keys after) call.key one_key
          ∙ sym (map-append _ before after);
      distinct =
          subst Unique (sym (map-append _ before after))
            (Unique-split (keys before) (keys after) call.key one_key);
      counted =
          guard_ids-end_call m.gateway.leases call.guard_id
          ∙ ap (keep (λ g. not (g == call.guard_id))) gs
          ∙ keep-split (guards before) (guards after) call.guard_id one_guard
          ∙ sym (map-append _ before after);
      leases = end_call-Inv m.gateway.leases call.guard_id i.leases;
    }

outside-open_guards : (s : Leases) (c : Call) → IsOutside c → (step s c).open_guards ≡ s.open_guards
unfolding step acquire release release_all_from
outside-open_guards s (acquires find consumer plug_id range revoker) o = ground arith
outside-open_guards s (releases credential consumer) o = ground arith
outside-open_guards s (begins find credential consumer) o = absurd o
outside-open_guards s (ends g) o = absurd o
outside-open_guards s (releases_all consumer) o = refl

Move-IsSerial : {m n : Machine} → Move m n → IsSerial m → IsSerial n
Move-IsSerial (enters m deps consumer credential method args t call e) i =
    enters-IsSerial m deps consumer credential method args t call
      (enter-Admission deps m.gateway consumer credential method args t call e) i
Move-IsSerial (refused m deps consumer credential method args e no_entry) i =
    let (same, providers) =
      refused_changes_nothing deps m.gateway consumer credential method args e i.leases no_entry in
    refused-IsSerial m (enter deps m.gateway consumer credential method args).0 same providers i
Move-IsSerial (leaves m before after call limit outcome e) i =
    leaves-IsSerial m before after call limit outcome e i
Move-IsSerial (leases m c outside) i = record {
  busy = i.busy;
  distinct = i.distinct;
  counted = ap guard_ids (outside-open_guards m.gateway.leases c outside) ∙ i.counted;
  leases = step-Inv m.gateway.leases c i.leases;
}

Reach-IsSerial : {m n : Machine} → IsSerial m → Reach m n → IsSerial n
Reach-IsSerial i here = i
Reach-IsSerial i (next r move) = Move-IsSerial move (Reach-IsSerial i r)

start-IsSerial : IsSerial start
start-IsSerial = record {
  busy = refl;
  distinct = tt;
  counted = refl;
  leases = unfold init in init-Inv;
}

-- Under any interleaving of calls, refusals, results and other uses of the leases, no two calls
-- that wait are on one provider instance, and the set of busy instances is that of the calls.
pub serial_calls :
    {m : Machine}
    → Reach start m
    → Unique (keys m.active) × (m.gateway.in_flight_providers ≡ keys m.active)
serial_calls r = let i = Reach-IsSerial start-IsSerial r in (i.distinct, i.busy)

no_guards : (h : ℕ) (m : Map ℕ ℕ) → guard_ids m ≡ [] → guards_of h m ≡ 0
unfolding guards_of
no_guards h [] e = refl
no_guards h ((g, k) ∷ m) e = absurd (cc)

-- Once no call waits, no instance is busy and no lease counts a call, whatever the calls came to:
-- each that began has ended.
pub calls_balance :
    {m : Machine}
    → Reach start m
    → m.active ≡ []
    → (m.gateway.in_flight_providers ≡ [])
      × ((h : ℕ) (r : LeaseRecord)
          → Map.lookup h m.gateway.leases.records ≡ some r
          → r.in_flight ≡ 0)
calls_balance {m} r quiet =
    let i = Reach-IsSerial start-IsSerial r in
    (
      i.busy ∙ ap keys quiet,
      λ h x found.
          i.leases.counted h x found
          ∙ no_guards h m.gateway.leases.open_guards (i.counted ∙ ap guards quiet),
    )
