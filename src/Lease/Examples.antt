-- ===== src/Lease/Examples.antt =====
-- A table with one lease, and runs of the theorems on it.
use u.Base.{
  ℕ, ◌≡◌, refl, String, true, false, Option, none, some, List, [], ◌∷◌, arith, nat_key, string_key,
  ◌==◌, if◌then◌else◌, ltb, ok, err, RackStatus,
}
use u.Base.Map
use u.Json.{Value, number, nat, ref, object, Document}
use u.Version.{PluginVersion, valid_version_range, accepts_version, version_less}
use u.Capability.{CapEntry, read_range, read_version}
use u.Lease.{
  LeaseRecord, LeaseCredential, sealed, forged, LeaseHandle, LeaseCallGuard, Leases, init, Lookup,
  released, busy, stale, mint, acquire, release, begin_call, Call, begins, ends, run, lent_by,
  OnRevoke, releases, all_returned, still_lent, revoke_provider,
}
use u.Lease.Steps.{begun}
use u.Lease.Table.{guards_of}
use u.Lease.Invariant.{Inv, init-Inv, run-init-Inv, acquire-Inv}
use u.Lease.Lifetime.{release_by_guards, released_stale_forever, credential_keeps_generation}
use u.Lease.Revoke.{revoke_exact, revoke_returned, ReturnsAtOnce}

abbrev v1 : PluginVersion
v1 = record { major = 1; minor = 0; patch = 0 }

abbrev entry : CapEntry
entry = record { plug_id = "p"; generation = 3; version = v1; caps = record { methods = [] } }

abbrev find : Lookup
find p = if p == "p" then some entry else none

abbrev version_fields : List (String × Value)
version_fields =
    ("major", number (nat 1)) ∷ ("minor", number (nat 0)) ∷ ("patch", number (nat 0)) ∷ []

abbrev range : Document
range = record {
  heap =
      (0, object true (("minimum", ref 1) ∷ ("maximum", ref 2) ∷ []))
      ∷ (1, object true version_fields)
      ∷ (2, object true version_fields)
      ∷ [];
  root = ref 0;
}

abbrev lent : Leases
lent =
    mint (record { records = []; next_handle = 0; open_guards = []; next_guard = 0 }) "c" "p" entry
      7

abbrev lease : LeaseHandle
lease = record { credential = sealed 0; plug_id = "p"; version = v1 }

acquired : acquire find init "c" "p" range (some 7) ≡ ok (lent, lease)
unfolding acquire init read_range read_version valid_version_range accepts_version version_less
acquired = refl

lent-Inv : Inv lent
lent-Inv = acquire-Inv find init "c" "p" range (some 7) lent lease acquired init-Inv

run-init-Inv_example : Inv (run init (begins find (sealed 0) "c" ∷ ends 0 ∷ []))
run-init-Inv_example = run-init-Inv (begins find (sealed 0) "c" ∷ ends 0 ∷ [])

abbrev lease_record : LeaseRecord
lease_record = record {
  consumer_id = "c";
  provider_plug_id = "p";
  provider_generation = 3;
  version = v1;
  revoker = 7;
  in_flight = 0;
  returned = false;
}

release_by_guards_example :
    (release lent (sealed 0) "c").1
    ≡ (if ltb 0 (guards_of 0 lent.open_guards) then busy else released)
unfolding Map.lookup Map.insert
release_by_guards_example = release_by_guards lent (sealed 0) "c" 0 lease_record lent-Inv refl

is_released : (release lent (sealed 0) "c").1 ≡ released
unfolding release Map.lookup Map.insert
is_released = refl

released_stale_forever_example :
    ((release (run (release lent (sealed 0) "c").0 []) (sealed 0) "c").1 ≡ stale)
    × (begin_call find (run (release lent (sealed 0) "c").0 []) (sealed 0) "c"
        ≡ err RackStatus.stale)
released_stale_forever_example = released_stale_forever lent 0 "c" lent-Inv is_released [] find "c"

abbrev calling : Leases
calling = begun lent 0 lease_record

abbrev call_guard : LeaseCallGuard
call_guard = record {
  guard_id = 0;
  lease = record {
    credential = sealed 0;
    consumer_id = "c";
    provider_plug_id = "p";
    provider_generation = 3;
    version = v1;
  };
}

began : begin_call find (run lent []) (sealed 0) "c" ≡ ok (calling, call_guard)
unfolding begin_call run Map.lookup Map.insert
began = refl

credential_keeps_generation_example :
    (◌≡◌ {A = String} "c" "c") × (e : CapEntry) × (find "p" ≡ some e) × (e.generation ≡ 3)
credential_keeps_generation_example =
    credential_keeps_generation find init "c" "p" range (some 7) lent lease entry init-Inv acquired
      refl [] find "c" calling call_guard began

abbrev idle_handed : OnRevoke
idle_handed revoker credential s = ([], true)

revoke_exact_example :
    ((revoke_provider idle_handed lent "p" 3).1 ≡ all_returned
      → (h : ℕ) (r : LeaseRecord)
      → Map.lookup h (revoke_provider idle_handed lent "p" 3).0.leases.records ≡ some r
      → lent_by "p" 3 r ≡ false)
    × ((revoke_provider idle_handed lent "p" 3).1 ≡ still_lent
        → (h : ℕ) × (r : LeaseRecord) × (Map.lookup h
              (revoke_provider idle_handed lent "p" 3).0.leases.records
            ≡ some r)
          × (lent_by "p" 3 r ≡ true))
revoke_exact_example = revoke_exact idle_handed lent "p" 3 lent-Inv

-- A revoker that asks the table whose lease it is, and returns it.
abbrev by_table : Option LeaseRecord → LeaseCredential → List Call
by_table none credential = []
by_table (some r) credential = releases credential r.consumer_id ∷ []

abbrev returning : OnRevoke
returning revoker forged s = ([], false)
returning revoker (sealed h) s = (by_table (Map.lookup h s.records) (sealed h), false)

returning-ReturnsAtOnce : ReturnsAtOnce returning
returning-ReturnsAtOnce s h r found = rw found refl

lent_idle :
    (h : ℕ) (r : LeaseRecord)
    → Map.lookup h lent.records ≡ some r
    → lent_by "p" 3 r ≡ true
    → r.in_flight ≡ 0
unfolding Map.lookup Map.insert
lent_idle h r found lent_to = ground arith

revoke_returned_example : (revoke_provider returning lent "p" 3).1 ≡ all_returned
revoke_returned_example =
    revoke_returned returning lent "p" 3 lent-Inv returning-ReturnsAtOnce lent_idle
