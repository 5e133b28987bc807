-- ===== src/Host/Examples.antt =====
-- A rack with one plugin, and runs of the theorems on it.
use u.Base.{
  ◌⊎◌, ◌≡◌, refl, ◌+◌, true, false, none, some, List, [], ◌∷◌, string_key, nat_key, ok, err, failed,
}
use u.Base.Map
use u.Base.Map.{Map, Distinct}
use u.Json.{Document, number, nat, ref, object, string, array}
use u.Version.{PluginVersion}
use u.Events.{positive, empty_bus}
use u.Lease.{init}
use u.Host.{
  InstanceState, created, initialized, active, revoking, faulted, InstanceRecord, RackPlugin,
  DescriptorInput, PluginDescriptor, Rack, Code, Callback, starts, inits, asks_unload,
  publishes_caps, normalize_descriptor, fresh, with_init, invokes,
}
use u.Host.Unload.{run_unload_protocol, unload}
use u.Host.Entry.{Request, adds, starts_all, polls, shuts_down, serve_all, load}
use u.Host.Quarantine.{standing, faulted_stays}
use u.Host.Generations.{IsNumbered, serve_all-IsNumbered}
use u.Host.Quiet.{stops_quietly, run_unload_protocol_quiet}
use u.Host.Batch.{start_batch, pending, is_created}
use u.Order.Schedule.{plan_order}
use u.Host.Undone.{failed_batch_undone}
use u.Host.Answer.{TakenOut, Queued, unload_answers}
use u.Host.Outcome.{load_left_behind}

abbrev v1 : PluginVersion
v1 = record { major = 1; minor = 0; patch = 0 }

abbrev raw_desc : DescriptorInput
raw_desc = record {
  heap =
      (
        0,
        object true (
            ("major", number (nat 1)) ∷ ("minor", number (nat 0)) ∷ ("patch", number (nat 0)) ∷ []),
      )
      ∷ [];
  plug_id = string "p";
  version = ref 0;
  init = none;
}

abbrev clock : RackPlugin
clock = record { desc = some raw_desc; has_invoke = true }

abbrev clock_desc : PluginDescriptor
clock_desc = with_init "p" v1 none

reads_desc : normalize_descriptor clock.desc ≡ ok clock_desc
unfolding normalize_descriptor u.Capability.read_text u.Capability.read_version
reads_desc = refl

abbrev empty_rack : Rack
empty_rack = record {
  instances = [];
  staged_factories = [];
  deferred_unloads = [];
  next_generation = 0;
  next_plan_ordinal = 0;
  callback_depth = 0;
  shutting_down = false;
  table = [];
  leases = init;
  bus = empty_bus 8 100 false;
  open_invokes = [];
  entered = [];
}

abbrev no_methods : Document
no_methods = record {
  heap = (0, object true (("methods", ref 1) ∷ [])) ∷ (1, array []) ∷ [];
  root = ref 0;
}

-- A plugin that announces its capabilities on `start`, and asks for its unload in all else.
abbrev restless : Code
restless s (starts p) = (publishes_caps p no_methods ∷ [], false)
restless s c = (asks_unload "p" ∷ [], false)

abbrev requests : List Request
requests = adds (some clock) ∷ starts_all ∷ polls ∷ starts_all ∷ shuts_down ∷ []

abbrev with_clock : InstanceState → Rack
with_clock state = record empty_rack {
  instances = ("p", record (fresh clock clock_desc none 1) { state = state }) ∷ [];
  next_generation = 1;
}

nothing_there : Map.lookup clock_desc.plug_id empty_rack.instances ≡ none
unfolding Map.lookup
nothing_there = refl

load_left_behind_example :
    ((load restless
        (positive 8)
        (record empty_rack { staged_factories = none ∷ [] })
        "p.ts"
        (ok (some clock))).1
      ≡ err failed)
    × (Map.lookup clock_desc.plug_id
          (load restless
            (positive 8)
            (record empty_rack { staged_factories = none ∷ [] })
            "p.ts"
            (ok (some clock))).0.instances
        ≡ some (fresh clock clock_desc (some "p.ts") (0 + 1)))
load_left_behind_example =
    load_left_behind restless (positive 8) empty_rack "p.ts" clock clock_desc [] refl refl
      reads_desc nothing_there

clock_alone : Distinct (with_clock faulted).instances
unfolding Map.lookup
clock_alone = (refl, tt)

clock_faulted : standing (Map.lookup "p" (with_clock faulted).instances) ≡ some (faulted, 1)
unfolding Map.lookup
clock_faulted = refl

faulted_stays_example :
    standing
      (Map.lookup "p" (serve_all restless (positive 8) (with_clock faulted) requests).instances)
    ≡ some (faulted, 1)
faulted_stays_example =
    faulted_stays restless (positive 8) (with_clock faulted) requests "p" 1 clock_alone
      clock_faulted

empty_IsNumbered : IsNumbered empty_rack.instances empty_rack.next_generation
unfolding Map.lookup
empty_IsNumbered = record {
  bounded = λ p r bad. absurd (cc);
  apart = λ p q r t bad on same. absurd (cc);
}

serve_all-IsNumbered_example :
    IsNumbered
      (serve_all restless (positive 8) empty_rack requests).instances
      (serve_all restless (positive 8) empty_rack requests).next_generation
serve_all-IsNumbered_example =
    serve_all-IsNumbered restless (positive 8) empty_rack requests empty_IsNumbered

run_unload_protocol_quiet_example :
    stops_quietly (run_unload_protocol restless (with_clock active) "p").0 ≡ true
run_unload_protocol_quiet_example = run_unload_protocol_quiet restless (with_clock active) "p" refl

unloads_clock : (unload restless (with_clock active) "p").1 ≡ ok tt
unfolding unload run_unload_protocol Map.lookup u.Host.drop_deferred_unload u.Host.Unload.take_back
    u.Lease.has_outstanding_for Map.some_value u.Host.run_in_callback u.Host.perform
    u.Host.unload_later u.Host.Batch.withdraw_caps u.Registry.withdrawable u.Host.modify Map.insert
    u.Host.queue_deferred_unload init
unloads_clock = refl

unload_answers_example :
    let t = (unload restless (with_clock active) "p").0 in
    (TakenOut "p" (with_clock active) t ⊎ Queued "p" (with_clock active) t)
    × (standing (Map.lookup "x" t.instances)
        ≡ standing (Map.lookup "x" (with_clock active).instances))
unload_answers_example = unload_answers restless (with_clock active) "p" "x" refl unloads_clock

-- A plugin whose `init` throws.
abbrev failing : Code
failing s (inits p) = (asks_unload "p" ∷ [], true)
failing s c = ([], false)

clock_waits : is_created (Map.lookup "p" (with_clock created).instances) ≡ true
unfolding Map.lookup
clock_waits = refl

batch_fails :
    (start_batch failing
      (positive 8)
      (with_clock created)
      (pending (with_clock created).instances)).1
    ≡ err failed
unfolding start_batch pending Map.lookup plan_order u.Host.Batch.initialized_ids u.Order.add_after
    u.Order.add_before u.Host.Batch.init_all u.Host.Batch.init_instance u.Host.run_in_callback
batch_fails = refl

failed_batch_undone_example :
    Map.lookup "p"
      (start_batch failing
        (positive 8)
        (with_clock created)
        (pending (with_clock created).instances)).0.instances
    ≡ none
failed_batch_undone_example =
    failed_batch_undone failing (positive 8) (with_clock created) "p" failed clock_waits batch_fails
