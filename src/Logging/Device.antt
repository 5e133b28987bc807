-- ===== src/Logging/Device.antt =====
-- ts/src/plugins/logging/index.ts: the device around the ring: its methods, and the sinks of its
-- lines. `earlier` is the comparison of a time with a number, which may be a fraction.
use u.Base.{
  ℕ, suc, ◌+◌, ◌-◌, String, Bool, true, false, not, ◌&&◌, ◌||◌, Option, none, some, List, [], ◌∷◌,
  ◌++◌, nat_key, string_key, ltb, ◌==◌, keep, length, if◌then◌else◌, Result, ok, err, guard, ◌>>=◌,
  ◌>>◌, invalid_argument, invalid_state, not_found,
}
use u.Base.Int.{ℤ}
use u.Base.Map
use u.Json.{
  Value, undefined, null, string, number, Document, object, property, is_json_value, nat, ref,
  JsNumber, is_finite, is_safe_integer,
}
use u.Calls.{InvokeRequest}
use u.Logging.{DiagLevel, info, warn, error, LogEntryDoc, LogRing, new_ring, push, entries, clear}
use u.Logging.Newest.{drop}

-- `console` and `file` are the lines that were offered to the one and appended to the other so far,
-- `file_chain` those whose append has not begun or not ended.
pub record Device : Type 0 where
  pub ring : LogRing LogEntryDoc
  pub running : Bool
  pub file_path : Option String
  pub file_enabled : Bool
  pub file_chain : List LogEntryDoc
  pub console : List LogEntryDoc
  pub file : List LogEntryDoc

-- What `Number` makes of the environment's text, if it is set.
unfoldable pub resolve_capacity : Option JsNumber → ℕ
resolve_capacity none = 4096
resolve_capacity (some (nat (suc n))) = if is_safe_integer (nat (suc n)) then suc n else 4096
resolve_capacity (some _) = 4096

unfoldable pub resolve_file_path : Option String → Option String
resolve_file_path none = none
resolve_file_path (some raw) = if raw == "" then none else some raw

abbrev pub is_set : Option String → Bool
is_set none = false
is_set (some path) = true

abbrev pub device_with : LogRing LogEntryDoc → Option String → Device
device_with ring file_path = record {
  ring = ring;
  running = false;
  file_path = file_path;
  file_enabled = is_set file_path;
  file_chain = [];
  console = [];
  file = [];
}

-- None where the ring cannot be made.
unfoldable pub create_with_deps : Option JsNumber → Option String → Option Device
unfolding resolve_capacity resolve_file_path
create_with_deps ring_env file_env = elim (new_ring {A = LogEntryDoc} (resolve_capacity ring_env)) [
  | none ↦ none
  | some ring ↦ some (device_with ring (resolve_file_path file_env))
]

unfoldable pub read_level : Value → Result DiagLevel
read_level (string s) =
    if s == "info"
    then ok info
    else if s == "warn"
    then ok warn
    else if s == "error"
    then ok error
    else err invalid_argument
read_level _ = err invalid_argument

abbrev pub read_string : Value → Result String
read_string (string s) = ok s
read_string _ = err invalid_argument

-- A member that may be undefined or null.
abbrev pub read_optional {ℓ} : {A : Type ℓ} → (Value → Result A) → Value → Result (Option A)
read_optional read undefined = ok none
read_optional read null = ok none
read_optional read v = read v >>= λ a. ok (some a)

abbrev pub is_plain_object : Document → Bool
is_plain_object d = elim d.root [
  | ref a ↦ elim (Map.lookup a d.heap) [ some (object plain fields) ↦ true | _ ↦ false ]
  | _ ↦ false
]

abbrev pub read_fields : Document → Value → Result Document
read_fields d v =
    let fields : Document = record { heap = d.heap; root = v } in
    guard (is_plain_object fields && is_json_value fields) invalid_argument >> ok fields

abbrev pub member : Document → String → Value
member d key = property d.heap d.root key

unfoldable pub read_entry : Document → ℤ → Result LogEntryDoc
unfolding Map.lookup property
read_entry args now = do
  guard (is_plain_object args) invalid_argument
  level ← read_level (member args "level")
  message ← read_string (member args "message")
  fields ← read_optional (read_fields args) (member args "fields")
  plug_id ← read_optional read_string (member args "plugId")
  ok (record { ts = now; level = level; message = message; fields = fields; plug_id = plug_id })

unfoldable pub dispatch_sinks : LogEntryDoc → Device → Device
dispatch_sinks entry s = record s {
  console = s.console ++ entry ∷ [];
  file_chain =
      if s.file_enabled && is_set s.file_path then s.file_chain ++ entry ∷ [] else s.file_chain;
}

abbrev pub stored : LogEntryDoc → Device → Device
stored entry s = record s { ring = push entry s.ring }

unfoldable pub handle_log : Device → Document → ℤ → Result Device
handle_log s args now = read_entry args now >>= λ entry. ok (dispatch_sinks entry (stored entry s))

-- The first append of the chain comes to its end, and may fail.
unfoldable pub settle_append : Bool → Device → Device
settle_append fails s = elim s.file_chain [
  | [] ↦ s
  | line ∷ rest ↦
      if s.file_enabled
      then if fails
        then record s { file_chain = rest; file_enabled = false }
        else record s { file_chain = rest; file = s.file ++ line ∷ [] }
      else record s { file_chain = rest }
]

abbrev pub same_level : DiagLevel → DiagLevel → Bool
same_level info info = true
same_level warn warn = true
same_level error error = true
same_level _ _ = false

pub record Query : Type 0 where
  pub level : Option DiagLevel
  pub since : Option JsNumber
  pub limit : ℕ

abbrev pub read_since : Value → Result JsNumber
read_since (number n) = if is_finite n then ok n else err invalid_argument
read_since _ = err invalid_argument

abbrev pub read_limit : Value → Result ℕ
read_limit (number (nat (suc n))) =
    if is_safe_integer (nat (suc n)) then ok (suc n) else err invalid_argument
read_limit _ = err invalid_argument

abbrev pub or_default : Option ℕ → ℕ
or_default none = 100
or_default (some n) = n

-- The args of a query; null stands for an empty document.
abbrev pub is_null : Value → Bool
is_null null = true
is_null _ = false

unfoldable pub read_query : Document → Result Query
unfolding Map.lookup property is_finite is_safe_integer
read_query args =
    if is_null args.root then ok (record { level = none; since = none; limit = 100 }) else do
      guard (is_plain_object args) invalid_argument
      level ← read_optional read_level (member args "level")
      since ← read_optional read_since (member args "since")
      limit ← read_optional read_limit (member args "limit")
      ok (record { level = level; since = since; limit = or_default limit })

pub record QueryResultDoc : Type 0 where
  pub found : List LogEntryDoc
  pub total : ℕ

pub record StatsResultDoc : Type 0 where
  pub infos : ℕ
  pub warns : ℕ
  pub errors : ℕ
  pub capacity : ℕ
  pub used : ℕ

abbrev pub level_fits : Option DiagLevel → LogEntryDoc → Bool
level_fits none e = true
level_fits (some l) e = same_level e.level l

abbrev pub count_level : DiagLevel → List LogEntryDoc → ℕ
count_level l [] = 0
count_level l (e ∷ es) = (if same_level e.level l then 1 else 0) + count_level l es

unfoldable pub handle_stats : Device → StatsResultDoc
handle_stats s = record {
  infos = count_level info (entries s.ring);
  warns = count_level warn (entries s.ring);
  errors = count_level error (entries s.ring);
  capacity = s.ring.capacity;
  used = s.ring.count;
}

module _ (earlier : ℤ → JsNumber → Bool) where
  abbrev pub since_fits : Option JsNumber → LogEntryDoc → Bool
  since_fits none e = true
  since_fits (some t) e = not (earlier e.ts t)

  abbrev pub fits : Query → LogEntryDoc → Bool
  fits q e = level_fits q.level e && since_fits q.since e

  -- The window of a query.
  unfoldable pub window : Query → List LogEntryDoc → QueryResultDoc
  window q held =
      let matched = keep (fits q) held in
      let total = length matched in
      record {
        found = drop (if ltb q.limit total then total - q.limit else 0) matched;
        total = total;
      }

  unfoldable pub handle_query : Device → Document → Result QueryResultDoc
  handle_query s args = read_query args >>= λ q. ok (window q (entries s.ring))

  pub data Response : Type 0 where
    accepted : Response
    found_entries : QueryResultDoc → Response
    counted : StatsResultDoc → Response

  abbrev pub named : InvokeRequest → String → ℕ → Bool
  named request name id = request.method_name == name || request.method_id == id

  unfoldable pub invoke : Device → InvokeRequest → ℤ → Result (Device × Response)
  invoke s request now =
      if not s.running
      then err invalid_state
      else if named request "log" 1
      then (handle_log s request.args now >>= λ t. ok (t, accepted))
      else if named request "query" 2
      then (handle_query s request.args >>= λ r. ok (s, found_entries r))
      else if named request "stats" 3
      then ok (s, counted (handle_stats s))
      else err not_found

-- `start`, its publication aside.
unfoldable pub start_device : Device → Device
start_device s = record s { running = true }

-- `stop` up to its await of the chain of appends.
unfoldable pub begin_stop : Device → Device
begin_stop s = record s { running = false }

-- And its end, once the chain has ended.
unfoldable pub end_stop : Device → Device
end_stop s = record s { file_enabled = false; ring = clear s.ring }
