-- ===== src/Calls.antt =====
-- ts/src/core/calls.ts: the gateway through which every business call goes. A call is entered up to
-- the `await` of the provider's invoke, and left with what the invoke came to: other calls may be
-- made in between.
pub mod Select
pub mod Balance
pub mod Admission
pub mod Serial
pub mod Results
mod Examples
use u.Base.{
  ℕ, String, Bool, true, false, not, ◌||◌, Option, none, some, List, [], ◌∷◌, ◌++◌, nat_key,
  string_key, ltb, ◌==◌, includes, keep, find, if◌then◌else◌, Result, ok, err, RackStatus,
  invalid_argument, limit_exceeded, not_found, failed, guard, ◌>>=◌, ◌>>◌,
}
use u.Json.{Document, is_json_value, estimate_json_bytes}
use u.Capability.{MethodDesc, CapEntry}
use u.Lease.{
  LeaseCredential, ActiveLeaseInfo, LeaseCallGuard, Leases, Lookup, begin_call, end_call, or_throw,
  same_generation,
}

pub data MethodSelector : Type 0 where
  by_name : String → MethodSelector
  by_id : ℕ → MethodSelector

pub record ProviderEndpoint : Type 0 where
  pub key : String
  pub has_invoke : Bool

pub record InvokeRequest : Type 0 where
  pub method_id : ℕ
  pub method_name : String
  pub args : Document

pub record Deps : Type 0 where
  pub resolve_provider : String → ℕ → Option ProviderEndpoint
  pub lookup_caps : Lookup
  pub payload_limit : ℕ
  pub output_limit : ℕ

-- `in_flight_providers` is a Set: no key stands twice.
pub record Gateway : Type 0 where
  pub leases : Leases
  pub in_flight_providers : List String

-- A call that waits for its provider.
pub record Entered : Type 0 where
  pub guard_id : ℕ
  pub lease : ActiveLeaseInfo
  pub key : String
  pub request : InvokeRequest

unfoldable pub selects : MethodSelector → MethodDesc → Bool
selects (by_name name) m = m.name == name
selects (by_id id) m = m.id == id

unfoldable pub find_method : CapEntry → MethodSelector → Option MethodDesc
unfolding selects
find_method entry method = find (selects method) entry.caps.methods

-- Set.prototype.delete
abbrev pub without : String → List String → List String
without key = keep (λ k. not (k == key))

abbrev pub current_entry : Lookup → ActiveLeaseInfo → Result CapEntry
current_entry lookup lease = elim (lookup lease.provider_plug_id) [
  | none ↦ err RackStatus.stale
  | some entry ↦
      if entry.generation == lease.provider_generation then ok entry else err RackStatus.stale
]

-- The part of the body inside of both `try` blocks, up to the invoke; it changes nothing but the
-- set, which the caller sets.
unfoldable pub admit :
    Deps
    → List String
    → ActiveLeaseInfo
    → MethodSelector
    → Document
    → Result (String × InvokeRequest)
admit deps busy_keys lease method args = do
  entry ← current_entry deps.lookup_caps lease
  disclosed ← or_throw (find_method entry method) not_found
  endpoint ←
      or_throw (deps.resolve_provider lease.provider_plug_id lease.provider_generation)
        RackStatus.stale
  guard (not (includes busy_keys endpoint.key)) RackStatus.busy
  guard endpoint.has_invoke failed
  ok (endpoint.key, record { method_id = disclosed.id; method_name = disclosed.name; args = args })

abbrev pub check_document : Document → ℕ → Result (Unit {0})
check_document d limit = do
  guard (is_json_value d) invalid_argument
  guard (not (ltb limit (estimate_json_bytes d))) limit_exceeded

-- The guard is closed again where the call is not admitted.
abbrev pub admitted :
    Gateway → LeaseCallGuard → Result (String × InvokeRequest) → Gateway × Result Entered
admitted s g (err status) = (record s { leases = end_call s.leases g.guard_id }, err status)
admitted s g (ok (key, request)) = (
  record s { in_flight_providers = s.in_flight_providers ++ key ∷ [] },
  ok (record { guard_id = g.guard_id; lease = g.lease; key = key; request = request }),
)

abbrev pub guarded :
    Deps
    → Gateway
    → MethodSelector
    → Document
    → Result (Leases × LeaseCallGuard)
    → Gateway × Result Entered
guarded deps s method args (err status) = (s, err status)
guarded deps s method args (ok (leases, g)) =
    admitted (record s { leases = leases }) g (admit deps s.in_flight_providers g.lease method args)

abbrev pub checked :
    Deps
    → Gateway
    → String
    → LeaseCredential
    → MethodSelector
    → Document
    → Result (Unit {0})
    → Gateway × Result Entered
checked deps s consumer credential method args (err status) = (s, err status)
checked deps s consumer credential method args (ok done) =
    guarded deps s method args (begin_call deps.lookup_caps s.leases credential consumer)

unfoldable pub enter :
    Deps → Gateway → String → LeaseCredential → MethodSelector → Document → Gateway × Result Entered
enter deps s consumer credential method args =
    checked deps s consumer credential method args (check_document args deps.payload_limit)

-- What the promise of an invoke came to.
pub data Outcome : Type 0 where
  returned : Document → Outcome
  threw : Outcome

unfoldable pub deliver : ℕ → Outcome → Result Document
deliver limit threw = err failed
deliver limit (returned d) = check_document d limit >>= λ _. ok d

-- Both `finally` blocks run, whatever the outcome.
unfoldable pub leave : ℕ → Gateway → Entered → Outcome → Gateway × Result Document
unfolding deliver
leave output_limit s call outcome = (
  record s {
    leases = end_call s.leases call.guard_id;
    in_flight_providers = without call.key s.in_flight_providers;
  },
  deliver output_limit outcome,
)
