-- ===== src/Capability/Valid.antt =====
-- What has passed validation is well formed.
use u.Base.{
  subst, ℕ, String, ◌≡◌, ◌≢◌, true, false, Option, none, some, List, [], ◌∷◌, ◌<◌, arith, nat_key,
  string_key, includes, ok, eq_iff, guard->>, >>=-eq-ok, invalid_argument, not,
}
use u.Json.{
  nat, undefined, string, number, ref, Value, Heap, Document, is_safe_integer, is_json_value,
  property,
}
use u.Version.{PluginVersion, VersionRange, is_part, is_plugin_version}
use u.Version.Order.{IsSafe, base}
use u.Capability.{
  MethodDesc, CapEntry, is_object, read_part, read_optional_text, read_schema, read_array,
  read_text, read_count, read_method, read_methods, read_version, frozen_entry, read_range,
}

-- The schema, where there is one, is a JSON value.
abbrev pub IsSchema : Option Document → Type 0
IsSchema none = Unit
IsSchema (some d) = is_json_value d ≡ true

pub record IsMethod (m : MethodDesc) : Type 0 where
  pub id : m.id < base
  pub name : m.name ≢ ""
  pub input_schema : IsSchema m.input_schema
  pub output_schema : IsSchema m.output_schema

-- Each method is well formed, and neither its id nor its name stands before it.
abbrev pub AreMethods : List ℕ → List String → List MethodDesc → Type 0
AreMethods ids names [] = Unit
AreMethods ids names (m ∷ ms) =
    IsMethod m
    × (includes ids m.id ≡ false)
    × (includes names m.name ≡ false)
    × AreMethods (m.id ∷ ids) (m.name ∷ names) ms

pub record IsEntry (e : CapEntry) : Type 0 where
  pub plug_id : e.plug_id ≢ ""
  pub generation : e.generation < base
  pub version : IsSafe e.version
  pub methods : AreMethods [] [] e.caps.methods

pub read_text-ne : (v : Value) (s : String) → read_text v ≡ ok s → s ≢ ""
unfolding read_text
read_text-ne (string s) t h = ground (arith, eq_iff s "", eq_iff t "")
read_text-ne undefined t h = absurd (cc)
read_text-ne _ t h = absurd (cc)

pub read_count-lt : (v : Value) (n : ℕ) → read_count v ≡ ok n → n < base
unfolding read_count is_safe_integer
read_count-lt (number (nat n)) m h = ground arith
read_count-lt undefined m h = absurd (cc)
read_count-lt _ m h = absurd (cc)

pub read_schema-IsSchema :
    (h : Heap) (v : Value) (d : Option Document) → read_schema h v ≡ ok d → IsSchema d
unfolding read_schema
read_schema-IsSchema h undefined d e = ground arith
read_schema-IsSchema h _ d e = ground arith

is_part-lt : (v : Value) → is_part v ≡ true → read_part v < base
unfolding is_safe_integer
is_part-lt (number (nat n)) h = ground arith
is_part-lt undefined h = absurd (cc)
is_part-lt _ h = absurd (cc)

pub read_version-IsSafe :
    (h : Heap) (v : Value) (w : PluginVersion) → read_version h v ≡ ok w → IsSafe w
unfolding read_version is_plugin_version
read_version-IsSafe h (ref a) w e = ground (
  arith,
  is_part-lt (property h (ref a) "major"),
  is_part-lt (property h (ref a) "minor"),
  is_part-lt (property h (ref a) "patch"),
)
read_version-IsSafe h _ w e = absurd (cc)

read_method-IsMethod :
    (h : Heap) (ids : List ℕ) (names : List String) (raw : Value) (m : MethodDesc)
    → read_method h ids names raw ≡ ok m
    → IsMethod m × (includes ids m.id ≡ false) × (includes names m.name ≡ false)
unfolding read_method
read_method-IsMethod h ids names raw m e =
    let (_, e₁) = guard->> (is_object raw) invalid_argument _ e in
    let (id, at_id, e₂) = >>=-eq-ok (read_count (property h raw "id")) _ e₁ in
    let (name, at_name, e₃) = >>=-eq-ok (read_text (property h raw "name")) _ e₂ in
    let (_, _, e₄) = >>=-eq-ok (read_optional_text (property h raw "description")) _ e₃ in
    let (i, at_i, e₅) = >>=-eq-ok (read_schema h (property h raw "inputSchema")) _ e₄ in
    let (o, at_o, e₆) = >>=-eq-ok (read_schema h (property h raw "outputSchema")) _ e₅ in
    let (new_id, e₇) = guard->> (not (includes ids id)) invalid_argument _ e₆ in
    let (new_name, e₈) = guard->> (not (includes names name)) invalid_argument _ e₇ in
    ground (
      arith,
      read_count-lt (property h raw "id") id at_id,
      read_text-ne (property h raw "name") name at_name,
      read_schema-IsSchema h (property h raw "inputSchema") i at_i,
      read_schema-IsSchema h (property h raw "outputSchema") o at_o,
    )

read_methods-AreMethods :
    (h : Heap) (ids : List ℕ) (names : List String) (raws : List Value) (ms : List MethodDesc)
    → read_methods h ids names raws ≡ ok ms
    → AreMethods ids names ms
unfolding read_methods
read_methods-AreMethods h ids names [] ms e =
    let path : [] ≡ ms = ground arith in subst (AreMethods ids names) path tt
read_methods-AreMethods h ids names (raw ∷ raws) ms e =
    let (m, at_m, e₁) = >>=-eq-ok (read_method h ids names raw) _ e in
    let (rest, at_rest, e₂) = >>=-eq-ok (read_methods h (m.id ∷ ids) (m.name ∷ names) raws) _ e₁ in
    let (here, new_id, new_name) = read_method-IsMethod h ids names raw m at_m in
    let later = read_methods-AreMethods h (m.id ∷ ids) (m.name ∷ names) raws rest at_rest in
    let path : m ∷ rest ≡ ms = ground arith in
    subst (AreMethods ids names) path (here, new_id, new_name, later)

-- An entry that passes validation has a non-empty id, a generation and a version of safe numbers,
-- and methods with non-empty names and JSON schemas, whose ids and names are distinct.
pub frozen_entry-IsEntry : (d : Document) (e : CapEntry) → frozen_entry d ≡ ok e → IsEntry e
unfolding frozen_entry
frozen_entry-IsEntry d e h =
    let (_, h₁) = guard->> (is_object d.root) invalid_argument _ h in
    let (p, at_p, h₂) = >>=-eq-ok (read_text (property d.heap d.root "plugId")) _ h₁ in
    let (g, at_g, h₃) = >>=-eq-ok (read_count (property d.heap d.root "generation")) _ h₂ in
    let (v, at_v, h₄) = >>=-eq-ok (read_version d.heap (property d.heap d.root "version")) _ h₃ in
    let caps = property d.heap d.root "caps" in
    let (_, h₅) = guard->> (is_object caps) invalid_argument _ h₄ in
    let (items, _, h₆) = >>=-eq-ok (read_array d.heap (property d.heap caps "methods")) _ h₅ in
    let (ms, at_ms, h₇) = >>=-eq-ok (read_methods d.heap [] [] items) _ h₆ in
    let path : record { plug_id = p; generation = g; version = v; caps = record { methods = ms } }
        ≡ e =
      ground arith in
    subst IsEntry path (record {
      plug_id = read_text-ne (property d.heap d.root "plugId") p at_p;
      generation = read_count-lt (property d.heap d.root "generation") g at_g;
      version = read_version-IsSafe d.heap (property d.heap d.root "version") v at_v;
      methods = read_methods-AreMethods d.heap [] [] items ms at_ms;
    })

pub read_range-IsSafe :
    (d : Document) (r : VersionRange) → read_range d ≡ ok r → IsSafe r.minimum × IsSafe r.maximum
unfolding read_range
read_range-IsSafe d r h =
    let (_, h₁) = guard->> (is_object d.root) invalid_argument _ h in
    let (lo, at_lo, h₂) = >>=-eq-ok (read_version d.heap (property d.heap d.root "minimum")) _ h₁ in
    let (hi, at_hi, h₃) = >>=-eq-ok (read_version d.heap (property d.heap d.root "maximum")) _ h₂ in
    let path : record { minimum = lo; maximum = hi } ≡ r = ground arith in
    subst (λ s. IsSafe s.minimum × IsSafe s.maximum) path
      (
        read_version-IsSafe d.heap (property d.heap d.root "minimum") lo at_lo,
        read_version-IsSafe d.heap (property d.heap d.root "maximum") hi at_hi,
      )
