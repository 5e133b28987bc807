-- ===== src/Registry/Examples.antt =====
-- A registry with one plugin and its watchers, and the theorems on it.
use u.Base.{ℕ, ◌≡◌, refl, true, none, some, List, [], ◌∷◌, nat_key, string_key, includes, ok}
use u.Base.Map
use u.Base.Map.{Map}
use u.Json.{nat, number, ref, array, object, string, Document, property, is_safe_integer}
use u.Capability.{
  CapEntry, CapEvent, frozen_entry, read_text, read_count, read_version, read_array, read_methods,
}
use u.Registry.{
  WatchRecord, Registry, empty_registry, stored_in, register_entry, register, watched_by, watch,
  current_events, advance, is_active,
}
use u.Registry.View.{known, table_view}
use u.Registry.Sync.{Reach, start, registers, watches, advances, heard}
use u.Registry.Known.{watchers_know_table}
use u.Registry.Reentry.{overtaken, withdrawal_overtakes}

abbrev description : Document
description = record {
  heap =
      (
        0,
        object true (
            ("plugId", string "clock")
            ∷ ("generation", number (nat 2))
            ∷ ("version", ref 1)
            ∷ ("caps", ref 2)
            ∷ []),
      )
      ∷ (
        1,
        object true (
            ("major", number (nat 1)) ∷ ("minor", number (nat 4)) ∷ ("patch", number (nat 0)) ∷ []),
      )
      ∷ (2, object true (("methods", ref 3) ∷ []))
      ∷ (3, array [])
      ∷ [];
  root = ref 0;
}

abbrev clock : CapEntry
clock = record {
  plug_id = "clock";
  generation = 2;
  version = record { major = 1; minor = 4; patch = 0 };
  caps = record { methods = [] };
}

abbrev published : Registry
published = record {
  table = ("clock", clock) ∷ [];
  records = [];
  watchers = [];
  next_record = 0;
  frames = [];
}

registers_clock : register empty_registry description ≡ ok (stored_in empty_registry clock)
unfolding register register_entry frozen_entry read_text property read_count is_safe_integer
    read_version read_array read_methods
registers_clock = refl

abbrev watching : Registry
watching = watched_by (advance (stored_in empty_registry clock)).0 9 "w"

abbrev after_snapshot : Registry
after_snapshot = (advance (advance watching).0).0

abbrev log : List (ℕ × CapEvent)
log =
    heard (advance (advance watching).0).1
      (heard (advance watching).1 (heard (advance (stored_in empty_registry clock)).1 []))

abbrev registered : Registry
registered = (advance (stored_in empty_registry clock)).0

watches_registered : watch registered (some 9) "w" ≡ ok watching
unfolding watch
watches_registered = refl

reaches : Reach after_snapshot log
reaches = advances (
    advances (
      watches (some 9) "w" watching
        (advances
          (registers description (stored_in empty_registry clock) start refl registers_clock))
        watches_registered))

delivered : after_snapshot.frames ≡ []
unfolding advance current_events Map.insert
delivered = refl

joined : includes after_snapshot.watchers 0 ≡ true
unfolding advance current_events Map.insert
joined = refl

active : is_active (Map.lookup 0 after_snapshot.records) ≡ true
unfolding advance current_events Map.lookup Map.insert
active = refl

watchers_know_table_example : known 0 log "clock" ≡ table_view after_snapshot.table "clock"
watchers_know_table_example =
    watchers_know_table after_snapshot log 0 "clock" reaches delivered joined active

abbrev two_watches : Map ℕ WatchRecord
two_watches =
    (0, record { watcher_id = "v"; sink = 8; active = true })
    ∷ (1, record { watcher_id = "w"; sink = 9; active = true })
    ∷ []

first_active : is_active (Map.lookup 0 two_watches) ≡ true
unfolding Map.lookup
first_active = refl

second_active : is_active (Map.lookup 1 two_watches) ≡ true
unfolding Map.lookup
second_active = refl

abbrev watched : Registry
watched = record {
  table = [];
  records = two_watches;
  watchers = 0 ∷ 1 ∷ [];
  next_record = 2;
  frames = [];
}

registers_watched : register watched description ≡ ok (stored_in watched clock)
unfolding register register_entry frozen_entry read_text property read_count is_safe_integer
    read_version read_array read_methods
registers_watched = refl

withdrawal_overtakes_example :
    (e : CapEntry) × (Map.lookup e.plug_id (stored_in watched clock).table ≡ some e)
    × ((overtaken (stored_in watched clock) e).0.frames ≡ [])
    × (Map.lookup e.plug_id (overtaken (stored_in watched clock) e).0.table ≡ none)
    × (known 1 (overtaken (stored_in watched clock) e).1 e.plug_id ≡ some (e.version, e.caps))
withdrawal_overtakes_example =
    withdrawal_overtakes [] two_watches 2 0 1 description (stored_in watched clock) first_active
      second_active registers_watched
