-- ===== src/Events.antt =====
-- ts/src/core/events.ts: the bounded queue of events and its serial delivery.
pub mod Drain
pub mod Facts
pub mod Queue
pub mod Delivery
pub mod Live
pub mod Owed
pub mod Gone
pub mod Taken
pub mod Once
pub mod Silence
mod Examples
use Prim.Native.Char.{code}
use u.Base.{
  ℕ, suc, ◌+◌, String, Bool, true, false, not, ◌&&◌, Option, none, some, List, [], ◌∷◌, ◌++◌,
  nat_key, string_key, ◌==◌, ltb, leb, length, if◌then◌else◌, Result, ok, err, guard, ◌>>=◌, ◌>>◌,
  RackStatus, invalid_argument, limit_exceeded,
}
use u.Base.Int.{ℤ, pos, negsuc}
use u.Base.Map
use u.Base.Map.{Map}
use u.Json.{Document, is_json_value, estimate_json_bytes}
use u.Lease.{or_throw}

-- `sink` stands for the object that has the `onEvent`.
pub record SubscriptionRecord : Type 0 where
  pub name : String
  pub sink : ℕ
  pub owner_id : String

pub record QueuedEvent : Type 0 where
  pub name : String
  pub payload : Document

-- A `drain` that has not returned: the local variables of it and of the `deliver` that it awaits.
pub record Pass : Type 0 where
  pub limit : ℕ
  pub delivered : ℕ
  pub event : Option QueuedEvent
  pub tokens : List ℕ
  -- Whether a sink is awaited.
  pub awaiting : Bool

-- `draining` is whether there is a pass.
pub record Bus : Type 0 where
  pub capacity : ℕ
  pub payload_limit : ℕ
  pub has_handler : Bool
  pub subscriptions : Map ℕ SubscriptionRecord
  pub queue : List QueuedEvent
  pub next_token : ℕ
  pub pass : Option Pass

-- A number, as far as `Number.isSafeInteger` tells.
pub data Bound : Type 0 where
  safe_integer : ℤ → Bound
  other_number : Bound

unfoldable pub assert_positive_integer : Bound → Result ℕ
assert_positive_integer (safe_integer (pos (suc n))) = ok (suc n)
assert_positive_integer _ = err invalid_argument

abbrev pub default_capacity : ℕ
default_capacity = 1024

abbrev pub default_payload_limit : ℕ
default_payload_limit = 1048576

abbrev pub bound_or : Option Bound → ℕ → Bound
bound_or none d = safe_integer (pos d)
bound_or (some b) d = b

-- An `onSinkError` that is there and is no function is `some false`.
abbrev pub is_handler : Option Bool → Bool
is_handler none = true
is_handler (some b) = b

abbrev pub present : Option Bool → Bool
present none = false
present (some b) = true

abbrev pub empty_bus : ℕ → ℕ → Bool → Bus
empty_bus capacity payload_limit has_handler = record {
  capacity = capacity;
  payload_limit = payload_limit;
  has_handler = has_handler;
  subscriptions = [];
  queue = [];
  next_token = 1;
  pass = none;
}

unfoldable pub create_event_bus : Option Bound → Option Bound → Option Bool → Result Bus
unfolding assert_positive_integer
create_event_bus capacity payload_limit on_sink_error = do
  c ← assert_positive_integer (bound_or capacity default_capacity)
  l ← assert_positive_integer (bound_or payload_limit default_payload_limit)
  guard (is_handler on_sink_error) invalid_argument
  ok (empty_bus c l (present on_sink_error))

-- `none` is what is no string.
abbrev pub non_empty : Option String → Option String
non_empty none = none
non_empty (some s) = if s == "" then none else some s

unfoldable pub starts_with : String → String → Bool
starts_with String.[] s = true
starts_with (String.◌∷◌ c p) String.[] = false
starts_with (String.◌∷◌ c p) (String.◌∷◌ d s) = code c == code d && starts_with p s

-- `none` as a sink is what has no `onEvent`.
unfoldable pub subscribe : Bus → Option String → Option ℕ → Option String → Result (Bus × ℕ)
subscribe s name sink owner_id = do
  text ← or_throw (non_empty name) invalid_argument
  receiver ← or_throw sink invalid_argument
  owner ← or_throw (non_empty owner_id) invalid_argument
  ok (
    record s {
      subscriptions =
          Map.insert s.next_token (record { name = text; sink = receiver; owner_id = owner })
            s.subscriptions;
      next_token = suc s.next_token;
    },
    s.next_token,
  )

-- What the handle does. Tokens are not used twice, so that a second call of it finds nothing.
unfoldable pub unsubscribe : Bus → ℕ → Bus
unsubscribe s token = record s { subscriptions = Map.remove token s.subscriptions }

unfoldable pub unsubscribe_all : Bus → String → Bus
unsubscribe_all s owner = record s {
  subscriptions = Map.retain (λ r. not (r.owner_id == owner)) s.subscriptions;
}

unfoldable pub publish : Bus → Option String → Document → Result (Bus × QueuedEvent)
unfolding starts_with
publish s name payload = do
  text ← or_throw (non_empty name) invalid_argument
  guard (not (starts_with "u42." text)) invalid_argument
  guard (is_json_value payload) invalid_argument
  guard (not (ltb s.payload_limit (estimate_json_bytes payload))) limit_exceeded
  guard (not (leb s.capacity (length s.queue))) limit_exceeded
  ok (
    record s { queue = s.queue ++ record { name = text; payload = payload } ∷ [] },
    record { name = text; payload = payload },
  )

-- A budget with its floor, where it is finite and positive.
pub data Budget : Type 0 where
  positive : ℕ → Budget
  other_budget : Budget

abbrev pub pass_limit : Budget → ℕ
pass_limit (positive floor) = floor
pass_limit other_budget = 0

-- The loop over the subscriptions with which `deliver` begins.
unfoldable pub tokens_for : String → Map ℕ SubscriptionRecord → List ℕ
tokens_for name [] = []
tokens_for name ((token, r) ∷ m) =
    if r.name == name then token ∷ tokens_for name m else tokens_for name m

-- What is seen of the bus.
pub data Output : Type 0 where
  accepted : QueuedEvent → Output
  dequeued : QueuedEvent → Output
  called : ℕ → SubscriptionRecord → QueuedEvent → Output
  reported : Output
  drained : ℕ → Output
