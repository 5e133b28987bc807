-- ===== src/Calls/Examples.antt =====
-- A call that is let in, and runs of the theorems.
use u.Base.{
  ℕ, ◌≤◌, ◌≡◌, refl, ◌↔◌, String, true, false, subst, Option, none, some, List, [], ◌∷◌, arith,
  nat_key, string_key, ◌==◌, if◌then◌else◌, ok, err, not_found, Unique, eq_iff,
}
use u.Base.Map
use u.Json.{
  Value, nat, number, boolean, ref, object, Document, is_json_value, check_json,
  estimate_json_bytes,
}
use u.Version.{PluginVersion, valid_version_range, accepts_version, version_less}
use u.Capability.{MethodDesc, CapEntry, read_range, read_version}
use u.Capability.Valid.{IsEntry}
use u.Lease.{
  LeaseRecord, sealed, ActiveLeaseInfo, Leases, init, Lookup, acquires, acquire, step, begin_call,
  mint,
}
use u.Lease.Steps.{begun}
use u.Lease.Invariant.{Inv, init-Inv, step-Inv}
use u.Calls.{
  by_name, by_id, ProviderEndpoint, Deps, Gateway, Entered, returned, threw, find_method, admit,
  enter, leave,
}
use u.Calls.Select.{admit_by_name_or_id}
use u.Calls.Admission.{Admission, enter-Admission}
use u.Calls.Balance.{SameTables, refused_changes_nothing}
use u.Calls.Serial.{
  Machine, Reach, here, next, enters, leases, leaves, start, keys, serial_calls, calls_balance,
}
use u.Calls.Results.{leave_returns_iff}

abbrev v1 : PluginVersion
v1 = record { major = 1; minor = 0; patch = 0 }

abbrev say : MethodDesc
say = record { id = 5; name = "say"; description = none; input_schema = none; output_schema = none }

abbrev entry : CapEntry
entry = record { plug_id = "p"; generation = 3; version = v1; caps = record { methods = say ∷ [] } }

abbrev published : Lookup
published p = if p == "p" then some entry else none

abbrev endpoint : String → ℕ → Option ProviderEndpoint
endpoint p g = if p == "p" then some (record { key = "p@3"; has_invoke = true }) else none

abbrev deps : Deps
deps = record {
  resolve_provider = endpoint;
  lookup_caps = published;
  payload_limit = 100;
  output_limit = 100;
}

abbrev version_fields : List (String × Value)
version_fields =
    ("major", number (nat 1)) ∷ ("minor", number (nat 0)) ∷ ("patch", number (nat 0)) ∷ []

abbrev range : Document
range = record {
  heap =
      (0, object true (("minimum", ref 1) ∷ ("maximum", ref 1) ∷ []))
      ∷ (1, object true version_fields)
      ∷ [];
  root = ref 0;
}

abbrev yes_document : Document
yes_document = record { heap = []; root = boolean true }

-- One lease, and a call on it that waits.
abbrev leased : Leases
leased = mint start.gateway.leases "c" "p" entry 7

abbrev idle : Machine
idle = record { gateway = record { leases = leased; in_flight_providers = [] }; active = [] }

abbrev lease_record : LeaseRecord
lease_record = record {
  consumer_id = "c";
  provider_plug_id = "p";
  provider_generation = 3;
  version = v1;
  revoker = 7;
  in_flight = 0;
  returned = false;
}

abbrev lease_info : ActiveLeaseInfo
lease_info = record {
  credential = sealed 0;
  consumer_id = "c";
  provider_plug_id = "p";
  provider_generation = 3;
  version = v1;
}

abbrev waiting_call : Entered
waiting_call = record {
  guard_id = 0;
  lease = lease_info;
  key = "p@3";
  request = record { method_id = 5; method_name = "say"; args = yes_document };
}

abbrev busy_gateway : Gateway
busy_gateway = record { leases = begun leased 0 lease_record; in_flight_providers = "p@3" ∷ [] }

acquired : step start.gateway.leases (acquires published "c" "p" range (some 7)) ≡ leased
unfolding step acquire read_range read_version valid_version_range accepts_version version_less
acquired = refl

entered :
    enter deps idle.gateway "c" (sealed 0) (by_name "say") yes_document
    ≡ (busy_gateway, ok waiting_call)
unfolding enter is_json_value check_json estimate_json_bytes begin_call admit find_method Map.lookup
    Map.insert
entered = refl

to_idle : Reach start idle
to_idle =
    subst (λ l. Reach start (record start { gateway = record start.gateway { leases = l } }))
      acquired (next here (leases start (acquires published "c" "p" range (some 7)) tt))

abbrev waiting : Machine
waiting = record { gateway = busy_gateway; active = waiting_call ∷ [] }

to_waiting : Reach start waiting
to_waiting =
    next to_idle (
      enters idle deps "c" (sealed 0) (by_name "say") yes_document busy_gateway waiting_call
        entered)

abbrev ended : Machine
ended = record { gateway = (leave 100 busy_gateway waiting_call threw).0; active = [] }

to_ended : Reach start ended
to_ended = next to_waiting (leaves waiting [] [] waiting_call 100 threw refl)

enter-Admission_example :
    Admission deps idle.gateway "c"
      (sealed 0)
      (by_name "say")
      yes_document
      busy_gateway
      waiting_call
enter-Admission_example =
    enter-Admission deps idle.gateway "c" (sealed 0) (by_name "say") yes_document busy_gateway
      waiting_call entered

serial_calls_example :
    Unique (keys waiting.active) × (waiting.gateway.in_flight_providers ≡ keys waiting.active)
serial_calls_example = serial_calls to_waiting

calls_balance_example :
    (ended.gateway.in_flight_providers ≡ [])
    × ((h : ℕ) (r : LeaseRecord)
        → Map.lookup h ended.gateway.leases.records ≡ some r
        → r.in_flight ≡ 0)
calls_balance_example = calls_balance to_ended refl

leased-Inv : Inv leased
leased-Inv = subst Inv acquired (
    step-Inv start.gateway.leases (acquires published "c" "p" range (some 7))
      (unfold init in init-Inv))

no_method :
    (enter deps idle.gateway "c" (sealed 0) (by_name "shout") yes_document).1 ≡ err not_found
unfolding enter is_json_value estimate_json_bytes begin_call admit find_method Map.lookup Map.insert
no_method = refl

refused_changes_nothing_example :
    SameTables leased
      (enter deps idle.gateway "c" (sealed 0) (by_name "shout") yes_document).0.leases
    × ((enter deps idle.gateway "c" (sealed 0) (by_name "shout") yes_document).0.in_flight_providers
        ≡ [])
refused_changes_nothing_example =
    refused_changes_nothing deps idle.gateway "c" (sealed 0) (by_name "shout") yes_document
      not_found leased-Inv no_method

entry-IsEntry : IsEntry entry
entry-IsEntry = record {
  plug_id = λ e. ground (arith, eq_iff "p" "");
  generation = omega arith;
  version = record { major = omega arith; minor = omega arith; patch = omega arith };
  methods = (
    record {
      id = omega arith;
      name = λ e. ground (arith, eq_iff "say" "");
      input_schema = tt;
      output_schema = tt;
    },
    refl,
    refl,
    tt,
  );
}

finds_say : find_method entry (by_name "say") ≡ some say
unfolding find_method
finds_say = refl

admit_by_name_or_id_example :
    (admit deps [] lease_info (by_id 5) yes_document
      ≡ admit deps [] lease_info (by_name "say") yes_document)
    × (admit deps [] lease_info (by_name "say") yes_document
        ≡ admit deps [] lease_info (by_name "say") yes_document)
admit_by_name_or_id_example =
    admit_by_name_or_id deps [] lease_info yes_document entry (by_name "say") say entry-IsEntry refl
      finds_say

leave_returns_iff_example :
    ((leave 100 busy_gateway waiting_call (returned yes_document)).1 ≡ ok yes_document) ↔ (
      (returned yes_document ≡ returned yes_document)
      × (is_json_value yes_document ≡ true)
      × (estimate_json_bytes yes_document ≤ 100))
leave_returns_iff_example =
    leave_returns_iff 100 busy_gateway waiting_call (returned yes_document) yes_document
