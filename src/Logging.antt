-- ===== src/Logging.antt =====
-- ts/src/plugins/logging/index.ts: the logging device, with the ring of its entries and its sinks. The
-- clock and the appender of the file are parameters: the time of an entry is an argument, and so is
-- whether an append that is awaited fails. A line is the entry that it prints.
pub mod Places
pub mod Loop
pub mod Newest
pub mod Ring
pub mod Device
pub mod Query
pub mod File
mod Examples
use u.Base.{
  ℕ, ◌^◌, if◌then◌else◌, ltb, suc, zero, ◌+◌, ◌-◌, ◌%◌, String, Bool, true, false, not, ◌&&◌, ◌||◌,
  Option, none, some, List, [], ◌∷◌, ◌++◌, nat_key, string_key, ltb, ◌==◌, keep, length, get_elem?,
  set, if◌then◌else◌, Result, ok, err, guard, ◌>>=◌, ◌>>◌, RackStatus, invalid_argument,
  invalid_state, not_found,
}
use u.Base.Int.{ℤ, pos, negsuc}
use u.Base.Int
use u.Json.{
  Value, undefined, null, string, number, Document, Heap, Node, object, property, is_json_value,
  nat, neg, ref, JsNumber, is_safe_integer,
}
use u.Json
use u.Base.Map

pub data DiagLevel : Type 0 where
  info warn error : DiagLevel

pub record LogEntryDoc : Type 0 where
  pub ts : ℤ
  pub level : DiagLevel
  pub message : String
  pub fields : Option Document
  pub plug_id : Option String

pub record LogRing {ℓ} (A : Type ℓ) : Type ℓ where
  pub capacity : ℕ
  pub slots : List (Option A)
  pub head : ℕ
  pub count : ℕ

abbrev pub blank {ℓ} : {A : Type ℓ} → ℕ → List (Option A)
blank zero = []
blank (suc n) = none ∷ blank n

abbrev pub blank_ring {ℓ} : {A : Type ℓ} → ℕ → LogRing A
blank_ring capacity = record { capacity = capacity; slots = blank capacity; head = 0; count = 0 }

-- `new Array` throws a RangeError from 2 ^ 32 on, here none.
unfoldable pub new_ring {ℓ} : {A : Type ℓ} → ℕ → Option (LogRing A)
new_ring capacity = if ltb capacity (2 ^ 32) then some (blank_ring capacity) else none

unfoldable pub push {ℓ} : {A : Type ℓ} → A → LogRing A → LogRing A
push entry s =
    let write_index = (s.head + s.count) % s.capacity in
    let slots = set s.slots write_index (some entry) in
    if s.count == s.capacity
    then record s { slots = slots; head = (s.head + 1) % s.capacity }
    else record s { slots = slots; count = s.count + 1 }

-- `slots[index]`, undefined past the end.
abbrev pub slot {ℓ} : {A : Type ℓ} → Option (Option A) → Option A
slot none = none
slot (some o) = o

abbrev pub and_more {ℓ} : {A : Type ℓ} → Option A → List A → List A
and_more none rest = rest
and_more (some a) rest = a ∷ rest

-- The loop from `index` over `n` more places of `read`.
unfoldable pub collect {ℓ} : {A : Type ℓ} → (ℕ → Option A) → ℕ → ℕ → List A
collect read index zero = []
collect read index (suc n) = and_more (read index) (collect read (suc index) n)

abbrev pub read_at {ℓ} : {A : Type ℓ} → LogRing A → ℕ → Option A
read_at s index = slot (get_elem? s.slots ((s.head + index) % s.capacity))

unfoldable pub entries {ℓ} : {A : Type ℓ} → LogRing A → List A
unfolding collect
entries s = collect (read_at s) 0 s.count

unfoldable pub clear {ℓ} : {A : Type ℓ} → LogRing A → LogRing A
clear s = record s { slots = blank (length s.slots); head = 0; count = 0 }
