-- ===== src/Capability/Examples.antt =====
-- A capability entry, read from an object.
use u.Base.{◌≡◌, refl, true, none, [], ◌∷◌, ok, nat_key}
use u.Json.{nat, number, string, ref, array, object, Document}
use u.Capability.{
  MethodDesc, CapEntry, read_method, read_methods, read_text, read_count, read_optional_text,
  read_schema, read_version, read_array, frozen_entry,
}
use u.Capability.Valid.{IsEntry, frozen_entry-IsEntry}

abbrev published : Document
published = record {
  heap =
      (
        0,
        object true (
            ("plugId", string "echo")
            ∷ ("generation", number (nat 1))
            ∷ ("version", ref 1)
            ∷ ("caps", ref 2)
            ∷ []),
      )
      ∷ (
        1,
        object true (
            ("major", number (nat 1)) ∷ ("minor", number (nat 0)) ∷ ("patch", number (nat 0)) ∷ []),
      )
      ∷ (2, object true (("methods", ref 3) ∷ []))
      ∷ (3, array (ref 4 ∷ []))
      ∷ (4, object true (("id", number (nat 5)) ∷ ("name", string "say") ∷ []))
      ∷ [];
  root = ref 0;
}

abbrev say : MethodDesc
say = record { id = 5; name = "say"; description = none; input_schema = none; output_schema = none }

abbrev echo : CapEntry
echo = record {
  plug_id = "echo";
  generation = 1;
  version = record { major = 1; minor = 0; patch = 0 };
  caps = record { methods = say ∷ [] };
}

reads_echo : frozen_entry published ≡ ok echo
unfolding frozen_entry read_methods read_method read_text read_count read_optional_text read_schema
    read_version read_array
reads_echo = refl

frozen_entry-IsEntry_example : IsEntry echo
frozen_entry-IsEntry_example = frozen_entry-IsEntry published echo reads_echo
