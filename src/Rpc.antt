-- ===== src/Rpc.antt =====
-- ts/src/plugins/rpc/index.ts: the check of an incoming JSON-RPC request and its execution under a
-- lease of its own. A document stands for a parsed value; messages are left out. What the awaited
-- call of the target comes to is a parameter, with the calls of the lease table that come meanwhile.
pub mod Target
mod Examples
use Prim.Native.Char.{Char}
use u.Base.{
  ℕ, suc, String, Bool, true, false, not, ◌&&◌, ◌||◌, Option, none, some, List, [], ◌∷◌, string_key,
  ◌==◌, if◌then◌else◌, Result, ok, err, RackStatus, invalid_argument, not_found, failed,
}
use u.Base.Int.{ℤ, negsuc}
use u.Json.{
  Value, undefined, null, string, number, ref, Node, Document, Heap, object, nat, property,
  is_finite,
}
use u.Version.{VersionRange, valid_version_range}
use u.Capability.{read_range}
use u.Lease.{Lookup, Leases, LeaseHandle, Call, acquire, release, run}
use u.Logging.Device.{is_plain_object, member}

abbrev pub code_invalid_request : ℤ
code_invalid_request = negsuc 32599

abbrev pub code_method_not_found : ℤ
code_method_not_found = negsuc 32600

abbrev pub code_invalid_params : ℤ
code_invalid_params = negsuc 32601

abbrev pub code_internal_error : ℤ
code_internal_error = negsuc 32602

unfoldable pub status_to_code : RackStatus → ℤ
status_to_code not_found = code_method_not_found
status_to_code invalid_argument = code_invalid_params
status_to_code _ = code_internal_error

-- What is answered: the result under its id, or an error.
pub data Envelope : Type 0 where
  success : Value → Document → Envelope
  error : Value → ℤ → Option RackStatus → Envelope

pub record CheckedRpcRequest : Type 0 where
  pub id : Value
  pub plug_id : String
  pub method_name : String
  pub params : Document
  pub range : Document

pub data RequestCheck : Type 0 where
  accepted : CheckedRpcRequest → RequestCheck
  refused : Value → ℤ → RequestCheck

unfoldable pub is_request_id : Value → Bool
unfolding is_finite
is_request_id null = true
is_request_id (string s) = true
is_request_id (number n) = is_finite n
is_request_id _ = false

abbrev pub is_dot : Char → Bool
is_dot c = String.◌∷◌ c String.[] == "."

-- The first character is before the last dot, or is the last dot, or there is none.
abbrev pub after_first : Char → String → Option (String × String) → Option (String × String)
after_first c s (some (before, behind)) = some (String.◌∷◌ c before, behind)
after_first c s none = if is_dot c then some ("", s) else none

-- The two sides of the last dot.
unfoldable pub split_last : String → Option (String × String)
split_last String.[] = none
split_last (String.◌∷◌ c s) = after_first c s (split_last s)

abbrev pub both_sides : Option (String × String) → Option (String × String)
both_sides none = none
both_sides (some (before, behind)) =
    if before == "" || behind == "" then none else some (before, behind)

-- The plugin and the method that the text of `method` names.
unfoldable pub read_target : Value → Option (String × String)
unfolding split_last
read_target (string s) = both_sides (split_last s)
read_target _ = none

-- An absent value is the empty object.
unfoldable pub read_params : Document → Option Document
read_params d = elim d.root [
  | undefined ↦ some (record { heap = (0, object true []) ∷ []; root = ref 0 })
  | null ↦ some (record { heap = (0, object true []) ∷ []; root = ref 0 })
  | ref a ↦ some d
  | _ ↦ none
]

abbrev pub largest : ℕ
largest = 9007199254740991

abbrev pub triple : ℕ → Node
triple n =
    object true
      (("major", number (nat n)) ∷ ("minor", number (nat n)) ∷ ("patch", number (nat n)) ∷ [])

abbrev pub any_version_range : Document
any_version_range = record {
  heap =
      (0, triple 0)
      ∷ (1, triple largest)
      ∷ (2, object true (("minimum", ref 0) ∷ ("maximum", ref 1) ∷ []))
      ∷ [];
  root = ref 2;
}

abbrev pub valid_range : Result VersionRange → Bool
valid_range (err e) = false
valid_range (ok range) = valid_version_range range

unfoldable pub read_rpc_range : Document → Option Document
read_rpc_range d = elim d.root [
  | undefined ↦ some any_version_range
  | _ ↦ if is_plain_object d && valid_range (read_range d) then some d else none
]

abbrev pub part : Document → String → Document
part d key = record { heap = d.heap; root = member d key }

abbrev pub known_id : Value → Value
known_id v = if is_request_id v then v else null

abbrev pub with_range : Value → String × String → Document → Option Document → RequestCheck
with_range id target params none = refused id code_invalid_params
with_range id (plug_id, method_name) params (some range) = accepted (record {
  id = id;
  plug_id = plug_id;
  method_name = method_name;
  params = params;
  range = range;
})

abbrev pub with_params : Document → String × String → Option Document → RequestCheck
with_params d target none = refused (known_id (member d "id")) code_invalid_request
with_params d target (some params) =
    with_range (known_id (member d "id")) target params (read_rpc_range (part d "versionRange"))

abbrev pub with_target : Document → Option (String × String) → RequestCheck
with_target d none = refused (known_id (member d "id")) code_invalid_request
with_target d (some target) = with_params d target (read_params (part d "params"))

abbrev pub is_text : String → Value → Bool
is_text s (string t) = t == s
is_text s _ = false

unfoldable pub check_rpc_request : Document → RequestCheck
unfolding read_target
check_rpc_request d =
    if not (is_plain_object d)
    then refused null code_invalid_request
    else if not (is_text "2.0" (member d "jsonrpc"))
    then refused (known_id (member d "id")) code_invalid_request
    else if not (is_request_id (member d "id"))
    then refused null code_invalid_request
    else with_target d (read_target (member d "method"))

-- What the call of the target comes to, given the table and the lease: the calls of the table that
-- come meanwhile, its own included, and the result.
abbrev pub During : Type 0
During = Leases → LeaseHandle → CheckedRpcRequest → List Call × Result Document

abbrev pub answered : Value → Result Document → Envelope
answered id (ok result) = success id result
answered id (err status) = error id (status_to_code status) (some status)

abbrev pub under_lease :
    During → CheckedRpcRequest → Leases → Result (Leases × LeaseHandle) → Leases × Envelope
under_lease during request s (err status) = (s, answered request.id (err status))
under_lease during request s (ok (t, handle)) =
    let (calls, result) = during t handle request in
    ((release (run t calls) handle.credential "std.rpc").0, answered request.id result)

-- The revoker that does nothing is number 0.
abbrev pub execute_checked : Lookup → During → Leases → RequestCheck → Leases × Envelope
execute_checked find during s (refused id code) = (s, error id code none)
execute_checked find during s (accepted request) =
    under_lease during request s (acquire find s "std.rpc" request.plug_id request.range (some 0))

unfoldable pub execute_rpc_request : Lookup → During → Leases → Document → Leases × Envelope
unfolding check_rpc_request
execute_rpc_request find during s raw = execute_checked find during s (check_rpc_request raw)

-- A batch, in order.
unfoldable pub execute_batch : Lookup → During → Leases → List Document → Leases × List Envelope
execute_batch find during s [] = (s, [])
execute_batch find during s (raw ∷ rest) =
    let (t, envelope) = execute_rpc_request find during s raw in
    let (u, envelopes) = execute_batch find during t rest in (u, envelope ∷ envelopes)

-- A parsed body: an array of requests, or anything else.
pub data Payload : Type 0 where
  batch : List Document → Payload
  single : Document → Payload

pub data Reply : Type 0 where
  one : Envelope → Reply
  many : List Envelope → Reply

unfoldable pub execute_rpc_payload : Lookup → During → Leases → Payload → Leases × Reply
unfolding execute_rpc_request execute_batch
execute_rpc_payload find during s (single raw) =
    let (t, envelope) = execute_rpc_request find during s raw in (t, one envelope)
execute_rpc_payload find during s (batch []) = (s, one (error null code_invalid_request none))
execute_rpc_payload find during s (batch (raw ∷ rest)) =
    let (t, envelopes) = execute_batch find during s (raw ∷ rest) in (t, many envelopes)
