-- ===== src/Host/Batch.antt =====
-- ts/src/core/host.ts: the steps of one instance, and `start` with its unwinding. An instance that
-- was destroyed is no longer in the table, so its state is not `created`.
use u.Base.{
  ℕ, suc, ◌+◌, String, Bool, true, false, Option, none, some, List, [], ◌∷◌, ◌++◌, nat_key,
  string_key, if◌then◌else◌, get_elem?, Result, ok, err, failed,
}
use u.Base.Map
use u.Base.Map.{Map}
use u.Json.{Document, Heap, object, string, number, nat, ref}
use u.Version.{PluginVersion}
use u.Capability.{CapEntry}
use u.Lease.{release_all_from}
use u.Order.{OrderNodeInput, PlanResult, fine, refuse, status}
use u.Order.Schedule.{plan_order}
use u.Events.{Budget, unsubscribe_all}
use u.Events.Drain
use u.Registry.{register_entry, withdrawable}
use u.Host.{
  created, initialized, active, RackPlugin, InstanceRecord, inits, starts, stops, destroys, notices,
  drains, Rack, Code, modify, set_state, run_in_callback, create_record, drop_deferred_unload, max,
}

abbrev pub Done : Type 0
Done = Rack × Result (Unit {0})

abbrev pub last_address : Heap → ℕ
last_address [] = 0
last_address ((a, n) ∷ h) = max a (last_address h)

-- The entry that the host makes for the capabilities of an instance.
unfoldable pub entry_of : String → ℕ → PluginVersion → Document → Document
entry_of plug_id generation version caps =
    let a = suc (last_address caps.heap) in
    record {
      heap =
          (
            a,
            object true (
                ("major", number (nat version.major))
                ∷ ("minor", number (nat version.minor))
                ∷ ("patch", number (nat version.patch))
                ∷ []),
          )
          ∷ (
            suc a,
            object true (
                ("plugId", string plug_id)
                ∷ ("generation", number (nat generation))
                ∷ ("version", ref a)
                ∷ ("caps", caps.root)
                ∷ []),
          )
          ∷ caps.heap;
      root = ref (suc a);
    }

abbrev pub dropped : String → Rack → Rack
dropped plug_id s =
    drop_deferred_unload plug_id (record s { instances = Map.remove plug_id s.instances })

-- The result of an awaited call that is reported as `failed` where it throws.
abbrev pub reported : Bool → Result (Unit {0})
reported true = err failed
reported false = ok tt

-- What the plugin holds of others: its leases and its subscriptions.
abbrev pub let_go : String → Rack → Rack
let_go plug_id s = record s {
  leases = release_all_from s.leases plug_id;
  bus = unsubscribe_all s.bus plug_id;
}

abbrev pub initialized_as : String → Rack → Rack
initialized_as plug_id s =
    record (modify (λ r. record r { state = initialized; plan_ordinal = some s.next_plan_ordinal })
      plug_id s) { next_plan_ordinal = s.next_plan_ordinal + 1 }

abbrev pub allow_publish : Bool → String → Rack → Rack
allow_publish allowed = modify λ r. record r { publish_allowed = allowed }

abbrev pub is_created : Option InstanceRecord → Bool
is_created none = false
is_created (some r) = elim r.state [ created ↦ true | _ ↦ false ]

abbrev pub reverse : List String → List String → List String
reverse [] done = done
reverse (p ∷ ps) done = reverse ps (p ∷ done)

-- The instances that are `created`, under their ids.
unfoldable pub pending : Map String InstanceRecord → Map String InstanceRecord
pending [] = []
pending ((p, r) ∷ m) = if is_created (some r) then (p, r) ∷ pending m else pending m

unfoldable pub initialized_ids : Map String InstanceRecord → List String
initialized_ids [] = []
initialized_ids ((p, r) ∷ m) =
    if is_created (some r) then initialized_ids m else r.desc.plug_id ∷ initialized_ids m

abbrev pub node : InstanceRecord → OrderNodeInput
node r = record {
  plug_id = r.desc.plug_id;
  priority = r.desc.priority;
  before = r.desc.before;
  after = r.desc.after;
}

abbrev pub keys : Map String InstanceRecord → List String
keys [] = []
keys ((p, r) ∷ m) = p ∷ keys m

abbrev pub nodes : Map String InstanceRecord → List OrderNodeInput
nodes [] = []
nodes ((p, r) ∷ m) = node r ∷ nodes m

abbrev pub picked : Option String → List String → List String
picked none ps = ps
picked (some p) ps = p ∷ ps

abbrev pub pick : List String → List ℕ → List String
pick ids [] = []
pick ids (i ∷ is) = picked (get_elem? ids i) (pick ids is)

module _ (code : Code) where
  unfoldable pub destroy_record : Rack → String → Rack
  destroy_record s plug_id = dropped plug_id (run_in_callback code s (destroys plug_id)).0

  unfoldable pub discard_all : Rack → List String → Rack
  discard_all s [] = s
  discard_all s (p ∷ ps) = discard_all (destroy_record s p) ps

  unfoldable pub init_instance : Rack → String → Done
  init_instance s plug_id =
      let (t, threw) = run_in_callback code s (inits plug_id) in
      (if threw then t else initialized_as plug_id t, reported threw)

  -- The registration of the entry, and what the watchers do on it.
  abbrev pub register_stored : Rack → String → Result CapEntry → Done
  register_stored s plug_id (err e) = (s, err failed)
  register_stored s plug_id (ok entry) = (
    (run_in_callback code (record s { table = Map.insert entry.plug_id entry s.table })
        (notices plug_id)).0,
    ok tt,
  )

  abbrev pub register_for : Rack → String → InstanceRecord → Option Document → Done
  register_for s plug_id r none = (s, ok tt)
  register_for s plug_id r (some caps) =
      register_stored s plug_id
        (register_entry s.table (entry_of plug_id r.generation r.desc.version caps))

  unfoldable pub register_pending : Rack → String → Done
  register_pending s plug_id = elim (Map.lookup plug_id s.instances) [
    | none ↦ (s, ok tt)
    | some r ↦ register_for s plug_id r r.pending_caps
  ]

  -- `start` of the plugin has returned or thrown.
  abbrev pub started : String → Rack → Bool → Done
  started plug_id s true = (s, err failed)
  started plug_id s false = register_pending (set_state active plug_id s) plug_id

  unfoldable pub start_instance : Rack → String → Done
  start_instance s plug_id =
      let (t, threw) = run_in_callback code (allow_publish true plug_id s) (starts plug_id) in
      let (v, result) = started plug_id t threw in (allow_publish false plug_id v, result)

  abbrev pub withdrawn : Rack → String → Option CapEntry → Rack
  withdrawn s plug_id none = s
  withdrawn s plug_id (some entry) =
      (run_in_callback code (record s { table = Map.remove plug_id s.table }) (notices plug_id)).0

  unfoldable pub withdraw_caps : Rack → String → ℕ → Rack
  withdraw_caps s plug_id generation = withdrawn s plug_id (withdrawable s.table plug_id generation)

  unfoldable pub withdraw_own : Rack → String → Rack
  withdraw_own s plug_id = elim (Map.lookup plug_id s.instances) [
    | none ↦ s
    | some r ↦ withdraw_caps s plug_id r.generation
  ]

  unfoldable pub rollback_instance : Rack → Bool → String → Rack
  rollback_instance s withdraws plug_id =
      let t = if withdraws then withdraw_own s plug_id else s in
      destroy_record (let_go plug_id (run_in_callback code t (stops plug_id)).0) plug_id

  -- The instances in the order of the list, without their capabilities.
  unfoldable pub rollback_all : Rack → List String → Rack
  rollback_all s [] = s
  rollback_all s (p ∷ ps) = rollback_all (rollback_instance s false p) ps

  unfoldable pub destroy_created : Rack → List String → Rack
  destroy_created s [] = s
  destroy_created s (p ∷ ps) =
      destroy_created (if is_created (Map.lookup p s.instances) then destroy_record s p else s) ps

  -- `done` holds those initialized, the last one first.
  unfoldable pub init_all : List String → List String → Rack → List String → Done
  init_all plan done s [] = (s, ok tt)
  init_all plan done s (p ∷ ps) =
      let (t, result) = init_instance s p in
      elim result [
        | ok v ↦ init_all plan (p ∷ done) t ps
        | err e ↦ (destroy_created (rollback_all t done) plan, err e)
      ]

  abbrev pub unwind_one : Rack → String → Option InstanceRecord → Rack
  unwind_one s p none = s
  unwind_one s p (some r) =
      if is_created (some r) then destroy_record s p else rollback_instance s true p

  unfoldable pub unwind : Rack → List String → Rack
  unwind s [] = s
  unwind s (p ∷ ps) = unwind (unwind_one s p (Map.lookup p s.instances)) ps

  unfoldable pub drained : Budget → Rack → Rack
  drained budget s =
      (run_in_callback code (record s { bus = (Drain.step s.bus (Drain.drains budget)).0 })
        drains).0

  unfoldable pub start_all : Budget → List String → Rack → List String → Done
  start_all budget plan s [] = (s, ok tt)
  start_all budget plan s (p ∷ ps) =
      let (t, result) = start_instance s p in
      elim result [
        | ok v ↦ start_all budget plan (drained budget t) ps
        | err e ↦ (unwind t (reverse plan []), err e)
      ]

  -- The staged factories, with the ids that were made of them.
  unfoldable pub materialize : Rack → List String → List (Option RackPlugin) → Done
  materialize s made [] = (s, ok tt)
  materialize s made (none ∷ fs) = (discard_all s made, err failed)
  materialize s made (some plugin ∷ fs) = elim (create_record s plugin none none) [
    | err e ↦ (discard_all s made, err e)
    | ok (t, p) ↦ materialize t (made ++ p ∷ []) fs
  ]

  abbrev pub and_start : Budget → List String → Done → Done
  and_start budget plan (s, err e) = (s, err e)
  and_start budget plan (s, ok v) = start_all budget plan s plan

  abbrev pub run_plan : Budget → Rack → List String → PlanResult (List ℕ) → Done
  run_plan budget s ids (refuse e) = (discard_all s ids, err (status e))
  run_plan budget s ids (fine order) =
      let plan = pick ids order in and_start budget plan (init_all plan [] s plan)

  unfoldable pub start_batch : Budget → Rack → Map String InstanceRecord → Done
  start_batch budget s [] = (s, ok tt)
  start_batch budget s (r ∷ rs) =
      run_plan budget s (keys (r ∷ rs)) (plan_order (nodes (r ∷ rs)) (initialized_ids s.instances))

  abbrev pub and_batch : Budget → Done → Done
  and_batch budget (s, err e) = (s, err e)
  and_batch budget (s, ok v) = start_batch budget s (pending s.instances)

  -- `start`, past the check that it may run.
  unfoldable pub start_pending : Budget → Rack → Done
  start_pending budget s =
      and_batch budget (materialize (record s { staged_factories = [] }) [] s.staged_factories)
