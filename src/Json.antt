-- ===== src/Json.antt =====
-- ts/src/core/json.ts: the values that may cross a plugin boundary. Arrays and objects have an
-- address, as `seen` compares them by identity; a value is a root together with the objects that
-- it reaches.
pub mod Check
pub mod Size
mod Examples
use u.Base.{
  ℕ, zero, suc, ◌+◌, ◌*◌, ◌^◌, String, Bool, true, false, not, ◌&&◌, Option, none, some, List, [],
  ◌∷◌, ltb, ◌==◌, nat_key, string_key, includes, if◌then◌else◌, length, any,
}
use u.Base.Map
use u.Base.Map.{Map}
use Text.{utf16_length}
pub mod Text

-- A number: `nat n` is n, `neg n` is -(n + 1), `fraction` a finite number that is no integer, and
-- `non_finite` one of NaN, Infinity and -Infinity.
pub data JsNumber : Type 0 where
  nat : ℕ → JsNumber
  neg : ℕ → JsNumber
  fraction non_finite : JsNumber

-- A value of unknown origin. `opaque` is a function, a symbol or a bigint.
pub data Value : Type 0 where
  undefined null opaque : Value
  boolean : Bool → Value
  number : JsNumber → Value
  string : String → Value
  ref : ℕ → Value

-- An array, or an object: `plain` if its prototype is Object.prototype or null.
pub data Node : Type 0 where
  array : List Value → Node
  object : (plain : Bool) → List (String × Value) → Node

abbrev pub Heap : Type 0
Heap = Map ℕ Node

pub record Document : Type 0 where
  pub heap : Heap
  pub root : Value

-- Number.isFinite and Number.isSafeInteger
unfoldable pub is_finite : JsNumber → Bool
is_finite non_finite = false
is_finite _ = true

unfoldable pub is_safe_integer : JsNumber → Bool
is_safe_integer (nat n) = ltb n (2 ^ 53)
is_safe_integer (neg n) = ltb (n + 1) (2 ^ 53)
is_safe_integer _ = false

-- Object.values; a property is read by its own name.
abbrev pub values : List (String × Value) → List Value
values [] = []
values ((k, v) ∷ fields) = v ∷ values fields

unfoldable pub property : Heap → Value → String → Value
unfolding Map.lookup
property h (ref a) key = elim (Map.lookup a h) [
  | some (object plain fields) ↦ elim (Map.lookup key fields) [ some v ↦ v | none ↦ undefined ]
  | _ ↦ undefined
]
property h v key = undefined

-- A verdict with the set of addresses seen so far.
abbrev pub Seen : Type 0
Seen = Bool × List ℕ

-- `every` stops at the first item that is refused.
unfoldable pub every : (Value → List ℕ → Option Seen) → List Value → List ℕ → Option Seen
every visit [] seen = some (true, seen)
every visit (v ∷ vs) seen = elim (visit v seen) [
  | none ↦ none
  | some (false, seen') ↦ some (false, seen')
  | some (true, seen') ↦ every visit vs seen'
]

-- The items that `checkJson` goes on to, none of them where the object itself is refused.
unfoldable pub children : Node → Option (List Value)
children (array items) = some items
children (object true fields) = some (values fields)
children (object false fields) = none

-- `none` means that the fuel ran out.
unfoldable pub check_json : ℕ → Heap → Value → List ℕ → Option Seen
unfolding is_finite children Map.lookup
check_json fuel h undefined seen = some (false, seen)
check_json fuel h null seen = some (true, seen)
check_json fuel h opaque seen = some (false, seen)
check_json fuel h (boolean b) seen = some (true, seen)
check_json fuel h (number n) seen = some (is_finite n, seen)
check_json fuel h (string s) seen = some (true, seen)
check_json zero h (ref a) seen = none
check_json (suc fuel) h (ref a) seen =
    let inside = λ (items : List Value). every (check_json fuel h) items (a ∷ seen) in
    if includes seen a then some (false, seen) else elim (Map.lookup a h) [
      | none ↦ some (false, a ∷ seen)
      | some node ↦ elim (children node) [
        | none ↦ some (false, a ∷ seen)
        | some items ↦ inside items
      ]
    ]

-- The recursion goes down at most once for each address: the heap's size is fuel enough.
unfoldable pub is_json_value : Document → Bool
unfolding check_json
is_json_value d = elim (check_json (suc (length d.heap)) d.heap d.root []) [
  | some (b, seen) ↦ b
  | none ↦ false
]

-- `levels` is 65 - depth: past depth 64 the measure is 0.
abbrev pub total {ℓ} : {A : Type ℓ} → (A → ℕ) → List A → ℕ
total size [] = 0
total size (x ∷ xs) = size x + total size xs

unfoldable pub measure : ℕ → Heap → Value → ℕ
unfolding Map.lookup utf16_length
measure zero h v = 0
measure (suc levels) h (string s) = utf16_length s * 3 + 2
measure (suc levels) h (number n) = 24
measure (suc levels) h (boolean b) = 5
measure (suc levels) h null = 4
measure (suc levels) h undefined = 8
measure (suc levels) h opaque = 8
measure (suc levels) h (ref a) =
    let item = λ (v : Value). measure levels h v + 1 in
    let entry = λ (f : String × Value). utf16_length f.0 * 3 + 4 + measure levels h f.1 + 1 in
    elim (Map.lookup a h) [
      | none ↦ 0
      | some (array items) ↦ 2 + total item items
      | some (object plain fields) ↦ 2 + total entry fields
    ]

unfoldable pub estimate_json_bytes : Document → ℕ
unfolding measure
estimate_json_bytes d = measure 65 d.heap d.root
