-- ===== src/Host.antt =====
-- ts/src/core/host.ts: the table of the instances, and how code of a plugin is run. While the host
-- awaits code outside of it the depth of callbacks is positive, so that code can change the leases,
-- the bus, the capabilities announced, the counts of calls and the queue of unloads, but no instance.
pub mod Batch
pub mod Unload
pub mod Entry
pub mod Rule
pub mod Steps
pub mod Taken
pub mod Served
pub mod Quarantine
pub mod Generations
pub mod Quiet
pub mod Outcome
pub mod Answer
pub mod Unwind
pub mod Undone
mod Examples
use u.Base.{
  ℕ, suc, ◌+◌, ◌-◌, String, Bool, true, false, not, ◌&&◌, ◌||◌, Option, none, some, List, [], ◌∷◌,
  ◌++◌, nat_key, string_key, ltb, ◌==◌, includes, if◌then◌else◌, Result, ok, err, guard, ◌>>=◌,
  ◌>>◌, RackStatus, invalid_argument, duplicate,
}
use u.Base.Int.{ℤ, pos}
use u.Base.Map
use u.Base.Map.{Map}
use u.Json.{Document, Heap, Value, undefined, object, string, number, nat, ref}
use u.Version.{PluginVersion}
use u.Capability.{CapEntry, read_text, read_version}
use u.Lease.{
  Leases, Lookup, LeaseCredential, Call, acquires, releases, begins, ends, or_throw,
  has_outstanding_for, pending_for,
}
use u.Order.{Priority, finite}
use u.Events.{Bus}
use u.Events.Drain.{Input}
use u.Registry.{has_entry}

pub data InstanceState : Type 0 where
  created initialized active revoking faulted : InstanceState

pub record InitInput : Type 0 where
  pub priority : Option Priority
  pub before : Option (List String)
  pub after : Option (List String)

-- The `desc` of a plugin: its `plugId` and `version` are read as unknown, in `heap`.
pub record DescriptorInput : Type 0 where
  pub heap : Heap
  pub plug_id : Value
  pub version : Value
  pub init : Option InitInput

-- What the host reads of a plugin; `desc` is none where it is not an object.
pub record RackPlugin : Type 0 where
  pub desc : Option DescriptorInput
  pub has_invoke : Bool

pub record PluginDescriptor : Type 0 where
  pub plug_id : String
  pub version : PluginVersion
  pub priority : Priority
  pub before : List String
  pub after : List String

-- `pending_caps` is undefined, and `plan_ordinal` -1, where it is none.
pub record InstanceRecord : Type 0 where
  pub desc : PluginDescriptor
  pub has_invoke : Bool
  pub state : InstanceState
  pub generation : ℕ
  pub source_path : Option String
  pub pending_caps : Option Document
  pub plan_ordinal : Option ℕ
  pub in_flight : ℕ
  pub publish_allowed : Bool

-- The code that the host awaits: an entry point of a plugin, the watchers that hear of a change of
-- its capabilities, the revokers of the leases with these handles, or a drain of the bus.
pub data Callback : Type 0 where
  inits starts stops destroys notices : String → Callback
  revokes : String → List ℕ → Callback
  drains : Callback

-- The callbacks so far, the newest first: `lent` and `calls` are those of the instance at the time.
pub record Entered : Type 0 where
  pub callback : Callback
  pub lent : Bool
  pub calls : ℕ

-- A staged factory is what it returns, none if it throws. `table` is the registry's. `open_invokes`
-- are the invokes of instances, by id and generation, that have not come to their end.
pub record Rack : Type 0 where
  pub instances : Map String InstanceRecord
  pub staged_factories : List (Option RackPlugin)
  pub deferred_unloads : List String
  pub next_generation : ℕ
  pub next_plan_ordinal : ℕ
  pub callback_depth : ℕ
  pub shutting_down : Bool
  pub table : Map String CapEntry
  pub leases : Leases
  pub bus : Bus
  pub open_invokes : List (String × ℕ)
  pub entered : List Entered

abbrev pub or_else {ℓ} : {A : Type ℓ} → Option A → A → A
or_else none d = d
or_else (some a) d = a

abbrev pub with_init : String → PluginVersion → Option InitInput → PluginDescriptor
with_init id version none = record {
  plug_id = id;
  version = version;
  priority = finite (pos 0);
  before = [];
  after = [];
}
with_init id version (some i) = record {
  plug_id = id;
  version = version;
  priority = or_else i.priority (finite (pos 0));
  before = or_else i.before [];
  after = or_else i.after [];
}

unfoldable pub normalize_descriptor : Option DescriptorInput → Result PluginDescriptor
normalize_descriptor desc = do
  candidate ← or_throw desc invalid_argument
  id ← read_text candidate.plug_id
  version ← read_version candidate.heap candidate.version
  ok (with_init id version candidate.init)

-- A change of the record of an instance that is in the table.
abbrev pub changed :
    (InstanceRecord → InstanceRecord) → String → Option InstanceRecord → Rack → Rack
changed f plug_id none s = s
changed f plug_id (some r) s = record s { instances = Map.insert plug_id (f r) s.instances }

unfoldable pub modify : (InstanceRecord → InstanceRecord) → String → Rack → Rack
modify f plug_id s = changed f plug_id (Map.lookup plug_id s.instances) s

abbrev pub set_state : InstanceState → String → Rack → Rack
set_state state = modify λ r. record r { state = state }

abbrev pub is_active : InstanceState → Bool
is_active active = true
is_active _ = false

abbrev pub answers : ℕ → Option InstanceRecord → Option InstanceRecord
answers generation none = none
answers generation (some r) =
    if not (r.generation == generation) || not (is_active r.state) then none else some r

-- The instance behind the endpoint, while it is active.
unfoldable pub resolve_provider : Rack → String → ℕ → Option InstanceRecord
resolve_provider s plug_id generation = answers generation (Map.lookup plug_id s.instances)

-- What code outside the host may do while the host awaits it, or between two requests to the host.
-- `invokes` is the start of a call that the gateway passes on, `settles` its end.
pub data Action : Type 0 where
  acquires_lease : String → String → Document → Option ℕ → Action
  releases_lease : LeaseCredential → String → Action
  begins_call : LeaseCredential → String → Action
  ends_call : ℕ → Action
  uses_bus : Input → Action
  asks_unload : String → Action
  publishes_caps : String → Document → Action
  invokes settles : String → ℕ → Action

unfoldable pub queue_deferred_unload : String → Rack → Rack
queue_deferred_unload plug_id s =
    if includes s.deferred_unloads plug_id
    then s
    else record s { deferred_unloads = s.deferred_unloads ++ plug_id ∷ [] }

abbrev pub without_first : String → List String → List String
without_first plug_id [] = []
without_first plug_id (q ∷ queue) = if q == plug_id then queue else q ∷ without_first plug_id queue

unfoldable pub drop_deferred_unload : String → Rack → Rack
drop_deferred_unload plug_id s = record s {
  deferred_unloads = without_first plug_id s.deferred_unloads;
}

abbrev pub is_none {ℓ} : {A : Type ℓ} → Option A → Bool
is_none none = true
is_none (some a) = false

-- `unload` from within a callback. Outside of one it is a request of its own.
unfoldable pub unload_later : String → Rack → Rack
unload_later plug_id s =
    if s.shutting_down || is_none (Map.lookup plug_id s.instances) || not (ltb 0 s.callback_depth)
    then s
    else queue_deferred_unload plug_id s

abbrev pub unless_undefined : Document → Option Document
unless_undefined caps = elim caps.root [ undefined ↦ none | _ ↦ some caps ]

-- The first set that is announced while `start` is on the stack is kept.
unfoldable pub announce : Document → InstanceRecord → InstanceRecord
announce caps r =
    if r.publish_allowed && is_none r.pending_caps
    then record r { pending_caps = unless_undefined caps }
    else r

abbrev pub count_call : ℕ → InstanceRecord → InstanceRecord
count_call generation r =
    if r.generation == generation && (is_active r.state && r.has_invoke)
    then record r { in_flight = r.in_flight + 1 }
    else r

abbrev pub uncount_call : ℕ → InstanceRecord → InstanceRecord
uncount_call generation r =
    if r.generation == generation then record r { in_flight = r.in_flight - 1 } else r

-- The invoke runs as a callback: the depth is raised until it has come to its end.
abbrev pub begin_invoke : String → ℕ → Option InstanceRecord → Rack → Rack
begin_invoke plug_id generation none s = s
begin_invoke plug_id generation (some r) s =
    if r.has_invoke
    then modify (count_call generation) plug_id (record s {
      callback_depth = s.callback_depth + 1;
      open_invokes = (plug_id, generation) ∷ s.open_invokes;
    })
    else s

abbrev pub is_invoke : String → ℕ → String × ℕ → Bool
is_invoke plug_id generation (p, g) = p == plug_id && g == generation

-- The invokes without the first of an instance, if there is one.
abbrev pub closed : String → ℕ → List (String × ℕ) → Option (List (String × ℕ))
closed plug_id generation [] = none
closed plug_id generation (i ∷ is) =
    let rest = closed plug_id generation is in
    if is_invoke plug_id generation i
    then some is
    else elim rest [ none ↦ none | some js ↦ some (i ∷ js) ]

abbrev pub end_invoke : String → ℕ → Option (List (String × ℕ)) → Rack → Rack
end_invoke plug_id generation none s = s
end_invoke plug_id generation (some rest) s =
    modify (uncount_call generation) plug_id
      (record s { callback_depth = s.callback_depth - 1; open_invokes = rest })

abbrev pub on_leases : Call → Rack → Rack
on_leases call s = record s { leases = u.Lease.step s.leases call }

unfoldable pub perform : Rack → Action → Rack
perform s (acquires_lease consumer plug_id range revoker) =
    on_leases (acquires (λ p. Map.lookup p s.table) consumer plug_id range revoker) s
perform s (releases_lease credential consumer) = on_leases (releases credential consumer) s
perform s (begins_call credential consumer) =
    on_leases (begins (λ p. Map.lookup p s.table) credential consumer) s
perform s (ends_call guard_id) = on_leases (ends guard_id) s
perform s (uses_bus input) = record s { bus = (u.Events.Drain.step s.bus input).0 }
perform s (asks_unload plug_id) = unload_later plug_id s
perform s (publishes_caps plug_id caps) = modify (announce caps) plug_id s
perform s (invokes plug_id generation) =
    begin_invoke plug_id generation (resolve_provider s plug_id generation) s
perform s (settles plug_id generation) =
    end_invoke plug_id generation (closed plug_id generation s.open_invokes) s

unfoldable pub perform_all : Rack → List Action → Rack
perform_all s [] = s
perform_all s (a ∷ as_) = perform_all (perform s a) as_

-- What the code does until it is done, and whether it throws.
abbrev pub Code : Type 0
Code = Rack → Callback → List Action × Bool

abbrev pub owner : Callback → Option String
owner drains = none
owner (inits p) = some p
owner (starts p) = some p
owner (stops p) = some p
owner (destroys p) = some p
owner (notices p) = some p
owner (revokes p handles) = some p

abbrev pub instance_of : Option String → Map String InstanceRecord → Option InstanceRecord
instance_of none m = none
instance_of (some p) m = Map.lookup p m

abbrev pub logged : Callback → Leases → Option String → Option InstanceRecord → Entered
logged c leases (some p) (some r) = record {
  callback = c;
  lent = has_outstanding_for leases p r.generation;
  calls = r.in_flight;
}
logged c leases _ _ = record { callback = c; lent = false; calls = 0 }

-- The rack as the code finds it.
abbrev pub entering : Rack → Callback → Rack
entering s c = record s {
  callback_depth = s.callback_depth + 1;
  entered = logged c s.leases (owner c) (instance_of (owner c) s.instances) ∷ s.entered;
}

unfoldable pub run_in_callback : Code → Rack → Callback → Rack × Bool
unfolding perform_all
run_in_callback code s c =
    let t = entering s c in
    let (actions, threw) = code t c in
    let after_it = perform_all t actions in
    (record after_it { callback_depth = after_it.callback_depth - 1 }, threw)

-- The record that `createRecord` makes.
abbrev pub fresh : RackPlugin → PluginDescriptor → Option String → ℕ → InstanceRecord
fresh plugin desc source_path generation = record {
  desc = desc;
  has_invoke = plugin.has_invoke;
  state = created;
  generation = generation;
  source_path = source_path;
  pending_caps = none;
  plan_ordinal = none;
  in_flight = 0;
  publish_allowed = false;
}

abbrev pub is_some {ℓ} : {A : Type ℓ} → Option A → Bool
is_some o = not (is_none o)

abbrev pub max : ℕ → ℕ → ℕ
max a b = if ltb a b then b else a

unfoldable pub create_record : Rack → RackPlugin → Option String → Option ℕ → Result (Rack × String)
create_record s plugin source_path generation = do
  desc ← normalize_descriptor plugin.desc
  guard (not (is_some (Map.lookup desc.plug_id s.instances))) duplicate
  let assigned = or_else generation (s.next_generation + 1)
  ok (
    record s {
      next_generation = max s.next_generation assigned;
      instances = Map.insert desc.plug_id (fresh plugin desc source_path assigned) s.instances;
    },
    desc.plug_id,
  )
