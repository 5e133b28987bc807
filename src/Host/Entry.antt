-- ===== src/Host/Entry.antt =====
-- ts/src/core/host.ts: the entry points of the rack. What the loader returns for a file is a
-- parameter: an error, or the plugin that the module creates, none if creating it throws.
use u.Base.{
  ℕ, ◌+◌, String, Option, none, some, List, [], ◌∷◌, ◌++◌, nat_key, string_key, ltb, if◌then◌else◌,
  Result, ok, err, RackStatus, not_found, busy, failed, invalid_state,
}
use u.Base.Map
use u.Base.Map.{Map}
use u.Version.{PluginVersion}
use u.Events.{Budget}
use u.Order.{sort_by}
use u.Host.{
  InstanceState, RackPlugin, InstanceRecord, Rack, Code, Action, perform_all, create_record,
}
use u.Host.Batch.{Done, discard_all, start_pending}
use u.Host.Unload.{run_unload_protocol, unload, poll, shutdown, plan_before, records}

abbrev pub Loaded : Type 0
Loaded = Result (Option RackPlugin)

-- What the loop of `boot` meets, in order: a directory that cannot be read, or a file.
pub data Discovery : Type 0 where
  unreadable : RackStatus → Discovery
  file : String → Loaded → Discovery

unfoldable pub assert_entry_open : Rack → Result (Unit {0})
assert_entry_open s =
    if s.shutting_down
    then err invalid_state
    else if ltb 0 s.callback_depth
    then err busy
    else ok tt

abbrev pub when_open : Rack → Done → Result (Unit {0}) → Done
when_open s body (err e) = (s, err e)
when_open s body (ok v) = body

unfoldable pub add : Rack → Option RackPlugin → Done
add s create =
    when_open s (record s { staged_factories = s.staged_factories ++ create ∷ [] }, ok tt)
      (assert_entry_open s)

abbrev pub recorded : Rack → Result (Rack × String) → Rack × Result String
recorded s (err e) = (s, err e)
recorded s (ok (t, p)) = (t, ok p)

-- The record of a module that was loaded under the next generation, with its id.
abbrev pub created_from : Rack → String → Option RackPlugin → Rack × Result String
created_from s path none = (s, err failed)
created_from s path (some plugin) =
    recorded s (create_record s plugin (some path) (some s.next_generation))

unfoldable pub load_record : Rack → String → Loaded → Rack × Result String
load_record s path (err e) = (s, err e)
load_record s path (ok plugin) =
    created_from (record s { next_generation = s.next_generation + 1 }) path plugin

pub record InstanceInfo : Type 0 where
  pub plug_id : String
  pub version : PluginVersion
  pub state : InstanceState
  pub generation : ℕ
  pub source_path : Option String

abbrev pub snapshot_of : InstanceRecord → InstanceInfo
snapshot_of r = record {
  plug_id = r.desc.plug_id;
  version = r.desc.version;
  state = r.state;
  generation = r.generation;
  source_path = r.source_path;
}

unfoldable pub describe : Rack → String → Option InstanceInfo
describe s plug_id = elim (Map.lookup plug_id s.instances) [
  | none ↦ none
  | some r ↦ some (snapshot_of r)
]

abbrev pub infos : List InstanceRecord → List InstanceInfo
infos [] = []
infos (r ∷ rs) = snapshot_of r ∷ infos rs

-- The calls of the rack by its user, with what the loader returns on the way.
pub data Request : Type 0 where
  adds : Option RackPlugin → Request
  starts_all : Request
  boots : List Discovery → Request
  loads : String → Loaded → Request
  reloads : String → Loaded → Request
  unloads : String → Request
  polls shuts_down : Request
  -- What code outside the host does before the next request.
  elapses : List Action → Request

module _ (code : Code) (budget : Budget) where
  unfoldable pub start : Rack → Done
  start s = when_open s (start_pending code budget s) (assert_entry_open s)

  abbrev pub then_start : Rack × Result String → Done
  then_start (s, err e) = (s, err e)
  then_start (s, ok p) = start s

  unfoldable pub load : Rack → String → Loaded → Done
  load s path loaded = when_open s (then_start (load_record s path loaded)) (assert_entry_open s)

  abbrev pub then_load : String → Loaded → Done → Done
  then_load path loaded (s, err e) = (s, err e)
  then_load path loaded (s, ok v) = then_start (load_record s path loaded)

  -- What `reload` does where the instance is there, with its source path.
  abbrev pub reload_from : Rack → String → Loaded → Option String → Done
  reload_from s plug_id loaded none = (s, err invalid_state)
  reload_from s plug_id loaded (some path) =
      then_load path loaded (run_unload_protocol code s plug_id)

  abbrev pub reload_record : Rack → String → Loaded → Option InstanceRecord → Done
  reload_record s plug_id loaded none = (s, err not_found)
  reload_record s plug_id loaded (some r) = reload_from s plug_id loaded r.source_path

  unfoldable pub reload : Rack → String → Loaded → Done
  reload s plug_id loaded =
      when_open s (reload_record s plug_id loaded (Map.lookup plug_id s.instances))
        (assert_entry_open s)

  -- The loop of `boot`, with the ids of the records that it made.
  unfoldable pub discover_all : Rack → List String → List Discovery → Done
  discover_all s made [] = (s, ok tt)
  discover_all s made (unreadable e ∷ ds) = (discard_all code s made, err e)
  discover_all s made (file path loaded ∷ ds) =
      let (t, result) = load_record s path loaded in
      elim result [
        | err e ↦ (discard_all code t made, err e)
        | ok p ↦ discover_all t (made ++ p ∷ []) ds
      ]

  abbrev pub booted : Done → Done
  booted (s, err e) = (s, err e)
  booted (s, ok v) = start s

  unfoldable pub boot : Rack → List Discovery → Done
  boot s found = when_open s (booted (discover_all s [] found)) (assert_entry_open s)

  unfoldable pub serve : Rack → Request → Done
  serve s (adds create) = add s create
  serve s starts_all = start s
  serve s (boots found) = boot s found
  serve s (loads path loaded) = load s path loaded
  serve s (reloads plug_id loaded) = reload s plug_id loaded
  serve s (unloads plug_id) = unload code s plug_id
  serve s polls = poll code budget s
  serve s shuts_down = shutdown code s
  serve s (elapses actions) = (perform_all s actions, ok tt)

  unfoldable pub serve_all : Rack → List Request → Rack
  serve_all s [] = s
  serve_all s (r ∷ rs) = serve_all (serve s r).0 rs

unfoldable pub plugins : Rack → List InstanceInfo
plugins s = infos (sort_by plan_before (records s.instances))
