-- ===== src/Logging/Examples.antt =====
-- A device, and runs of the theorems on it.
use u.Base.{
  ℕ, ◌≡◌, refl, String, Bool, true, false, none, some, List, [], ◌∷◌, keep, length, ok, arith,
}
use u.Base.Map
use u.Base.Int.{ℤ, pos, negsuc}
use u.Base.Int
use u.Json.{Value, Document, JsNumber, nat, string, number, ref, object, null}
use u.Logging.{LogEntryDoc, info, warn, blank_ring, new_ring, entries}
use u.Logging.Newest.{newest}
use u.Logging.Ring.{push_all, ring_keeps_newest}
use u.Logging.Device.{
  Device, device_with, Query, create_with_deps, resolve_capacity, read_query, handle_query, fits,
}
use u.Logging.Query.{Log, log_all, accepted_logs, query_finds_newest}
use u.Logging.File.{
  logs_entry, Event, starts, begins_stop, ends_stop, settles_append, happen_all, IsOrdered,
  file-IsOrdered,
}

abbrev log_args : String → Document
log_args message = record {
  heap = (0, object true (("level", string "warn") ∷ ("message", string message) ∷ [])) ∷ [];
  root = ref 0;
}

abbrev three_logs : List Log
three_logs = (log_args "a", pos 1) ∷ (log_args "b", pos 2) ∷ (log_args "c", pos 3) ∷ []

abbrev earlier : ℤ → JsNumber → Bool
earlier z (nat n) = Int.less z (pos n)
earlier z n = false

abbrev limited : Document
limited = record {
  heap = (0, object true (("limit", number (nat 1)) ∷ ("since", number (nat 2)) ∷ [])) ∷ [];
  root = ref 0;
}

abbrev limited_query : Query
limited_query = record { level = none; since = some (nat 2); limit = 1 }

reads_limited : read_query limited ≡ ok limited_query
unfolding read_query Map.lookup u.Json.property u.Json.is_finite u.Json.is_safe_integer
reads_limited = refl

abbrev numbers : List ℕ
numbers = 1 ∷ 2 ∷ 3 ∷ []

makes_two : new_ring {A = ℕ} 2 ≡ some (blank_ring 2)
unfolding new_ring
makes_two = refl

ring_keeps_newest_example : entries (push_all numbers (blank_ring 2)) ≡ newest 2 numbers
ring_keeps_newest_example = ring_keeps_newest 2 (blank_ring 2) numbers (omega arith) makes_two

abbrev small : Device
small = device_with (blank_ring 2) none

makes_small : create_with_deps (some (nat 2)) none ≡ some small
unfolding create_with_deps new_ring u.Json.is_safe_integer
makes_small = refl

query_finds_newest_example :
    handle_query earlier (log_all small three_logs) limited
    ≡ ok (record {
      found = newest 1 (
          keep
            (fits earlier limited_query)
            (newest (resolve_capacity (some (nat 2))) (accepted_logs three_logs)));
      total = length (
          keep
            (fits earlier limited_query)
            (newest (resolve_capacity (some (nat 2))) (accepted_logs three_logs)));
    })
query_finds_newest_example =
    query_finds_newest earlier (some (nat 2)) none small three_logs limited limited_query
      makes_small reads_limited

abbrev with_file : Device
with_file = device_with (blank_ring 2) (some "log")

makes_with_file : create_with_deps (some (nat 2)) (some "log") ≡ some with_file
unfolding create_with_deps new_ring u.Json.is_safe_integer
makes_with_file = refl

abbrev some_events : List Event
some_events =
    starts
    ∷ logs_entry (log_args "a") (pos 1)
    ∷ logs_entry (log_args "b") (pos 2)
    ∷ settles_append false
    ∷ begins_stop
    ∷ settles_append true
    ∷ ends_stop
    ∷ []

file-IsOrdered_example : IsOrdered (happen_all with_file some_events)
file-IsOrdered_example =
    file-IsOrdered (some (nat 2)) (some "log") with_file some_events makes_with_file

holds_two : entries (push_all numbers (blank_ring 2)) ≡ 2 ∷ 3 ∷ []
unfolding entries push_all u.Logging.push u.Logging.collect
holds_two = refl
