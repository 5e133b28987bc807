-- ===== src/Registry/Sync.antt =====
-- Watchers against the table, where sinks do not register or withdraw from inside a delivery: the
-- states that are reached, and what they keep.
use u.Base.{
  ℕ, ◌≡◌, ◌<◌, ◌≤◌, refl, String, true, Option, none, some, List, [], ◌∷◌, ◌++◌, nat_key,
  string_key, if◌then◌else◌, ◌==◌, includes, Unique, ok, All,
}
use u.Base.Map
use u.Base.Map.{Map, Distinct, lookup-insert, lookup-remove, insert-Distinct, remove-Distinct}
use u.Json.{Document}
use u.Capability.{CapEvent}
use u.Registry.{
  Frame, notifying, snapshotting, Registry, empty_registry, register, withdraw, watch, unsubscribe,
  is_active, Told, advance,
}
use u.Registry.View.{learn_all, table_view, known, Keyed}

abbrev pub heard : Told → List (ℕ × CapEvent) → List (ℕ × CapEvent)
heard none log = log
heard (some told) log = told ∷ log

-- The states of a registry, with what has been delivered, the last first: registrations and
-- withdrawals are made while nothing is being delivered, all else at any time.
pub data Reach : Registry → List (ℕ × CapEvent) → Type 0 where
  start : Reach empty_registry []
  registers :
      {s : Registry} {log : List (ℕ × CapEvent)} (entry : Document) (t : Registry)
      → Reach s log
      → s.frames ≡ []
      → register s entry ≡ ok t
      → Reach t log
  withdraws :
      {s : Registry} {log : List (ℕ × CapEvent)} (plug_id : String) (generation : ℕ)
      → Reach s log
      → s.frames ≡ []
      → Reach (withdraw s plug_id generation) log
  watches :
      {s : Registry} {log : List (ℕ × CapEvent)} (sink : Option ℕ) (watcher_id : String)
      (t : Registry)
      → Reach s log
      → watch s sink watcher_id ≡ ok t
      → Reach t log
  unsubscribes :
      {s : Registry} {log : List (ℕ × CapEvent)} (w : ℕ) → Reach s log → Reach (unsubscribe s w) log
  advances :
      {s : Registry} {log : List (ℕ × CapEvent)}
      → Reach s log
      → Reach (advance s).0 (heard (advance s).1 log)

-- The watches whose snapshot is being delivered.
abbrev pub arriving : List Frame → List ℕ
arriving [] = []
arriving (notifying ws e ∷ fs) = arriving fs
arriving (snapshotting w es ∷ fs) = w ∷ arriving fs

-- What a watch is still to be told, by the frames from the top.
abbrev pub pending : List Frame → ℕ → List CapEvent
pending [] w = []
pending (notifying ws e ∷ fs) w = if includes ws w then e ∷ pending fs w else pending fs w
pending (snapshotting u es ∷ fs) w = if u == w then es ++ pending fs w else pending fs w

abbrev pub FrameOk : ℕ → Frame → Type 0
FrameOk n (notifying ws e) = Unique ws × ((k : ℕ) → includes ws k ≡ true → k < n)
FrameOk n (snapshotting w es) = Unit

pub record IsSynced (s : Registry) (log : List (ℕ × CapEvent)) : Type 0 where
  pub keyed : Keyed s.table
  pub distinct : Distinct s.table
  pub unheard : (w : ℕ) (p : String) → s.next_record ≤ w → known w log p ≡ none
  pub below : (w : ℕ) → includes (arriving s.frames ++ s.watchers) w ≡ true → w < s.next_record
  pub unique : Unique (arriving s.frames ++ s.watchers)
  pub frames_ok : All (FrameOk s.next_record) s.frames
  pub synced :
      (w : ℕ) (p : String)
      → includes (arriving s.frames ++ s.watchers) w ≡ true
      → is_active (Map.lookup w s.records) ≡ true
      → learn_all (pending s.frames w) (known w log) p ≡ table_view s.table p

pub start-IsSynced : IsSynced empty_registry []
start-IsSynced = record {
  keyed = tt;
  distinct = tt;
  unheard = λ w p h. refl;
  below = λ w h. absurd (cc);
  unique = tt;
  frames_ok = tt;
  synced = λ w p h a. absurd (cc);
}
