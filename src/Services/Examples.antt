-- ===== src/Services/Examples.antt =====
-- A consumer that acquires a provider through its services and calls it.
use u.Base.{
  ◌≡◌, refl, String, true, false, none, some, [], ◌∷◌, nat_key, string_key, ◌==◌, if◌then◌else◌, ok,
}
use u.Base.Map
use u.Json.{
  nat, number, boolean, ref, object, Document, is_json_value, check_json, estimate_json_bytes,
}
use u.Version.{PluginVersion, valid_version_range, accepts_version, version_less}
use u.Capability.{CapEntry, read_range, read_version}
use u.Lease.Steps.{begun}
use u.Lease.{LeaseRecord, sealed, Leases, LeaseHandle, init, Lookup, mint, acquire, begin_call, run}
use u.Lease.Invariant.{init-Inv}
use u.Calls.{by_name, Gateway, Entered, enter, admit, find_method}
use u.Services.{Ports, caps_acquire, call_selected}
use u.Services.Owner.{call_needs_owner}

abbrev first_version : PluginVersion
first_version = record { major = 1; minor = 0; patch = 0 }

abbrev clock : CapEntry
clock = record {
  plug_id = "clock";
  generation = 2;
  version = first_version;
  caps = record {
    methods =
        record {
          id = 1;
          name = "now";
          description = none;
          input_schema = none;
          output_schema = none;
        }
        ∷ [];
  };
}

abbrev catalogue : Lookup
catalogue p = if p == "clock" then some clock else none

abbrev ports : Ports
ports = record {
  calls = record {
    resolve_provider = λ p g. some (record { key = "clock@2"; has_invoke = true });
    lookup_caps = catalogue;
    payload_limit = 64;
    output_limit = 64;
  };
  find = catalogue;
  caps_publish_allowed = false;
  consumer_active = true;
}

abbrev bounds : Document
bounds = record {
  heap =
      (0, object true (("minimum", ref 1) ∷ ("maximum", ref 1) ∷ []))
      ∷ (
        1,
        object true (
            ("major", number (nat 1)) ∷ ("minor", number (nat 0)) ∷ ("patch", number (nat 0)) ∷ []),
      )
      ∷ [];
  root = ref 0;
}

abbrev nothing : Document
nothing = record { heap = []; root = boolean false }

abbrev rack : Gateway
rack = record { leases = init; in_flight_providers = [] }

abbrev held_leases : Leases
held_leases = mint init "user" "clock" clock 4

abbrev handle : LeaseHandle
handle = record { credential = sealed 0; plug_id = "clock"; version = first_version }

acquires_clock : caps_acquire ports "user" rack "clock" bounds (some 4) ≡ ok (held_leases, handle)
unfolding caps_acquire acquire init read_range read_version valid_version_range accepts_version
    version_less
acquires_clock = refl

abbrev held_lease : LeaseRecord
held_lease = record {
  consumer_id = "user";
  provider_plug_id = "clock";
  provider_generation = 2;
  version = first_version;
  revoker = 4;
  in_flight = 0;
  returned = false;
}

abbrev asked : Entered
asked = record {
  guard_id = 0;
  lease = record {
    credential = sealed 0;
    consumer_id = "user";
    provider_plug_id = "clock";
    provider_generation = 2;
    version = first_version;
  };
  key = "clock@2";
  request = record { method_id = 1; method_name = "now"; args = nothing };
}

abbrev asking : Gateway
asking = record { leases = begun held_leases 0 held_lease; in_flight_providers = "clock@2" ∷ [] }

calls_clock :
    call_selected ports "user"
      (record { leases = run held_leases []; in_flight_providers = [] })
      (sealed 0)
      (by_name "now")
      nothing
    ≡ (asking, ok asked)
unfolding run enter is_json_value check_json estimate_json_bytes begin_call admit find_method
    Map.lookup Map.insert init
calls_clock = refl

call_needs_owner_example :
    (◌≡◌ {A = String} "user" "user")
    × (true ≡ true)
    × (e : CapEntry) × (catalogue "clock" ≡ some e)
    × (e.generation ≡ 2)
call_needs_owner_example =
    call_needs_owner ports ports "user" "user" rack "clock" bounds (some 4) held_leases handle clock
      [] [] (by_name "now") nothing asking asked init-Inv acquires_clock refl calls_clock
