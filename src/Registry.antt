-- ===== src/Registry.antt =====
-- ts/src/core/caps.ts: the table of the registry and its watchers. Sinks are called from within a
-- registration, a withdrawal or a watch, and may call the registry themselves: what is still to be
-- delivered stands on a stack of frames, and a frame that a sink opens is above that which called it.
pub mod View
pub mod Sync
pub mod Change
pub mod Arrive
pub mod Deliver
pub mod Known
pub mod Reentry
mod Examples
use u.Base.{
  ℕ, suc, String, Bool, true, false, Option, none, some, List, [], ◌∷◌, ◌++◌, map, nat_key,
  string_key, if◌then◌else◌, ◌==◌, Result, ok, err, guard, ◌>>=◌, ◌>>◌, invalid_argument, duplicate,
}
use u.Base.Map
use u.Base.Map.{Map}
use u.Json.{Document}
use u.Capability.{CapEntry, CapEvent, CapsDesc, frozen_entry}
use u.Lease.{or_throw}
use u.Order.{sort_by}
use u.Order.Bytes.{id_less}

-- `sink` stands for the object that has the `onCapability`.
pub record WatchRecord : Type 0 where
  pub watcher_id : String
  pub sink : ℕ
  pub active : Bool

-- A loop of deliveries that has not ended: over the copy of the watchers, or over a snapshot.
pub data Frame : Type 0 where
  notifying : List ℕ → CapEvent → Frame
  snapshotting : ℕ → List CapEvent → Frame

-- The records of `watch` by number; `watchers` holds the numbers of those that have joined.
pub record Registry : Type 0 where
  pub table : Map String CapEntry
  pub records : Map ℕ WatchRecord
  pub watchers : List ℕ
  pub next_record : ℕ
  pub frames : List Frame

abbrev pub empty_registry : Registry
empty_registry = record { table = []; records = []; watchers = []; next_record = 0; frames = [] }

abbrev pub empty_caps : CapsDesc
empty_caps = record { methods = [] }

abbrev pub available_event : CapEntry → CapEvent
available_event e = record {
  plug_id = e.plug_id;
  available = true;
  version = e.version;
  capabilities = e.caps;
}

abbrev pub withdrawn_event : CapEntry → CapEvent
withdrawn_event e = record {
  plug_id = e.plug_id;
  available = false;
  version = e.version;
  capabilities = empty_caps;
}

abbrev pub event_less : CapEvent → CapEvent → Bool
event_less a b = id_less a.plug_id b.plug_id

abbrev pub entries : Map String CapEntry → List CapEntry
entries [] = []
entries ((k, e) ∷ m) = e ∷ entries m

unfoldable pub current_events : Map String CapEntry → List CapEvent
current_events table = sort_by event_less (map available_event (entries table))

abbrev pub has_entry : Option CapEntry → Bool
has_entry none = false
has_entry (some e) = true

-- What `register` does to the table, and with the entry that it stores.
unfoldable pub register_entry : Map String CapEntry → Document → Result CapEntry
register_entry table entry = do
  stored ← frozen_entry entry
  guard (if has_entry (Map.lookup stored.plug_id table) then false else true) duplicate
  ok stored

abbrev pub stored_in : Registry → CapEntry → Registry
stored_in s e = record s {
  table = Map.insert e.plug_id e s.table;
  frames = notifying s.watchers (available_event e) ∷ s.frames;
}

unfoldable pub register : Registry → Document → Result Registry
register s entry = register_entry s.table entry >>= λ stored. ok (stored_in s stored)

-- The entry that `withdraw` takes out, if the generation is that of the table.
unfoldable pub withdrawable : Map String CapEntry → String → ℕ → Option CapEntry
withdrawable table plug_id generation = elim (Map.lookup plug_id table) [
  | none ↦ none
  | some current ↦ if current.generation == generation then some current else none
]

abbrev pub withdrawn_from : Registry → String → Option CapEntry → Registry
withdrawn_from s plug_id none = s
withdrawn_from s plug_id (some current) = record s {
  table = Map.remove plug_id s.table;
  frames = notifying s.watchers (withdrawn_event current) ∷ s.frames;
}

unfoldable pub withdraw : Registry → String → ℕ → Registry
withdraw s plug_id generation = withdrawn_from s plug_id (withdrawable s.table plug_id generation)

abbrev pub watched_by : Registry → ℕ → String → Registry
watched_by s sink watcher_id = record s {
  records =
      Map.insert s.next_record (record { watcher_id = watcher_id; sink = sink; active = true })
        s.records;
  next_record = suc s.next_record;
  frames = snapshotting s.next_record (current_events s.table) ∷ s.frames;
}

-- `none` is a sink with no `onCapability`. The snapshot that is returned is that of the frame.
unfoldable pub watch : Registry → Option ℕ → String → Result Registry
watch s sink watcher_id =
    or_throw sink invalid_argument >>= λ receiver. ok (watched_by s receiver watcher_id)

abbrev pub silenced : ℕ → Option WatchRecord → Map ℕ WatchRecord → Map ℕ WatchRecord
silenced w none records = records
silenced w (some r) records = Map.insert w (record r { active = false }) records

-- What the handle of a watch does.
unfoldable pub unsubscribe : Registry → ℕ → Registry
unsubscribe s w = record s { records = silenced w (Map.lookup w s.records) s.records }

unfoldable pub snapshot : Registry → List CapEvent
unfolding current_events
snapshot s = current_events s.table

unfoldable pub lookup : Registry → String → Option CapEntry
lookup s plug_id = Map.lookup plug_id s.table

abbrev pub is_active : Option WatchRecord → Bool
is_active none = false
is_active (some r) = r.active

-- A delivery: the record that is told, and the fact.
abbrev pub Told : Type 0
Told = Option (ℕ × CapEvent)

-- The next round of the loop on top.
abbrev pub advance_frames : Registry → List Frame → Registry × Told
advance_frames s [] = (s, none)
advance_frames s (notifying [] e ∷ fs) = (record s { frames = fs }, none)
advance_frames s (notifying (w ∷ ws) e ∷ fs) = (
  record s { frames = notifying ws e ∷ fs },
  if is_active (Map.lookup w s.records) then some (w, e) else none,
)
advance_frames s (snapshotting w [] ∷ fs) =
    (record s { frames = fs; watchers = s.watchers ++ w ∷ [] }, none)
advance_frames s (snapshotting w (e ∷ es) ∷ fs) =
    (record s { frames = snapshotting w es ∷ fs }, some (w, e))

unfoldable pub advance : Registry → Registry × Told
advance s = advance_frames s s.frames
