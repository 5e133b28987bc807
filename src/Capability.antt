-- ===== src/Capability.antt =====
-- The capability records of ts/src/core/types.ts, and the validation and copying of one in
-- ts/src/core/caps.ts. Records are values here, so a copy is its original, and freezing is nothing.
pub mod Valid
mod Examples
use u.Base.{
  ℕ, String, Bool, true, false, not, Option, none, some, List, [], ◌∷◌, nat_key, string_key, ◌==◌,
  includes, if◌then◌else◌, Result, ok, err, invalid_argument, guard, ◌>>=◌, ◌>>◌,
}
use u.Base.Map
use u.Json.{
  JsNumber, nat, Value, undefined, number, string, ref, array, Heap, Document, property,
  is_safe_integer, is_json_value,
}
use u.Version.{PluginVersion, VersionRange, is_plugin_version}

pub record MethodDesc : Type 0 where
  pub id : ℕ
  pub name : String
  pub description : Option String
  pub input_schema : Option Document
  pub output_schema : Option Document

pub record CapsDesc : Type 0 where
  pub methods : List MethodDesc

pub record CapEntry : Type 0 where
  pub plug_id : String
  pub generation : ℕ
  pub version : PluginVersion
  pub caps : CapsDesc

pub record CapEvent : Type 0 where
  pub plug_id : String
  pub available : Bool
  pub version : PluginVersion
  pub capabilities : CapsDesc

-- `typeof value !== 'object' || value === null` is refused.
abbrev pub is_object : Value → Bool
is_object (ref a) = true
is_object _ = false

-- A non-empty string.
unfoldable pub read_text : Value → Result String
read_text (string s) = if s == "" then err invalid_argument else ok s
read_text _ = err invalid_argument

-- A non-negative safe integer.
unfoldable pub read_count : Value → Result ℕ
read_count (number (nat n)) = if is_safe_integer (nat n) then ok n else err invalid_argument
read_count _ = err invalid_argument

unfoldable pub read_optional_text : Value → Result (Option String)
read_optional_text undefined = ok none
read_optional_text (string s) = ok (some s)
read_optional_text _ = err invalid_argument

unfoldable pub read_schema : Heap → Value → Result (Option Document)
read_schema h undefined = ok none
read_schema h v =
    let d : Document = record { heap = h; root = v } in
    if is_json_value d then ok (some d) else err invalid_argument

abbrev pub read_part : Value → ℕ
read_part (number (nat n)) = n
read_part _ = 0

-- The three parts, where `isPluginVersion` holds.
unfoldable pub read_version : Heap → Value → Result PluginVersion
unfolding is_plugin_version
read_version h v =
    if is_plugin_version h v
    then ok (record {
      major = read_part (property h v "major");
      minor = read_part (property h v "minor");
      patch = read_part (property h v "patch");
    })
    else err invalid_argument

unfoldable pub read_array : Heap → Value → Result (List Value)
unfolding Map.lookup
read_array h (ref a) = elim (Map.lookup a h) [
  | some (array items) ↦ ok items
  | _ ↦ err invalid_argument
]
read_array h _ = err invalid_argument

-- One round of the loop over the methods.
unfoldable pub read_method : Heap → List ℕ → List String → Value → Result MethodDesc
read_method h seen_ids seen_names raw = do
  guard (is_object raw) invalid_argument
  id ← read_count (property h raw "id")
  name ← read_text (property h raw "name")
  description ← read_optional_text (property h raw "description")
  input_schema ← read_schema h (property h raw "inputSchema")
  output_schema ← read_schema h (property h raw "outputSchema")
  guard (not (includes seen_ids id)) invalid_argument
  guard (not (includes seen_names name)) invalid_argument
  ok (record {
    id = id;
    name = name;
    description = description;
    input_schema = input_schema;
    output_schema = output_schema;
  })

unfoldable pub read_methods : Heap → List ℕ → List String → List Value → Result (List MethodDesc)
read_methods h seen_ids seen_names [] = ok []
read_methods h seen_ids seen_names (raw ∷ rest) = do
  method ← read_method h seen_ids seen_names raw
  methods ← read_methods h (method.id ∷ seen_ids) (method.name ∷ seen_names) rest
  ok (method ∷ methods)

-- `assertValidCapEntry`, and the copy that `frozenEntry` makes of what passes.
unfoldable pub frozen_entry : Document → Result CapEntry
frozen_entry d = do
  guard (is_object d.root) invalid_argument
  plug_id ← read_text (property d.heap d.root "plugId")
  generation ← read_count (property d.heap d.root "generation")
  version ← read_version d.heap (property d.heap d.root "version")
  let caps = property d.heap d.root "caps"
  guard (is_object caps) invalid_argument
  items ← read_array d.heap (property d.heap caps "methods")
  methods ← read_methods d.heap [] [] items
  ok (record {
    plug_id = plug_id;
    generation = generation;
    version = version;
    caps = record { methods = methods };
  })

-- The range of an `acquire`: an object with two well-formed versions.
unfoldable pub read_range : Document → Result VersionRange
read_range d = do
  guard (is_object d.root) invalid_argument
  minimum ← read_version d.heap (property d.heap d.root "minimum")
  maximum ← read_version d.heap (property d.heap d.root "maximum")
  ok (record { minimum = minimum; maximum = maximum })
