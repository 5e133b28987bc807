-- ===== src/Version.antt =====
-- ts/src/core/version.ts: version triples and closed ranges. A part of a version is a natural
-- number; `is_plugin_version` is the test that makes it one.
pub mod Order
mod Examples
use u.Base.{
  ℕ, String, Bool, true, false, not, ◌&&◌, List, [], ◌∷◌, ltb, nat_key, ◌==◌, if◌then◌else◌, all,
}
use u.Json.{
  JsNumber, nat, Value, undefined, null, opaque, boolean, number, string, ref, Heap, property,
  is_safe_integer,
}

pub record PluginVersion : Type 0 where
  pub major : ℕ
  pub minor : ℕ
  pub patch : ℕ

pub record VersionRange : Type 0 where
  pub minimum : PluginVersion
  pub maximum : PluginVersion

-- `typeof part === 'number' && Number.isSafeInteger(part) && part >= 0`
abbrev pub is_part : Value → Bool
is_part (number (nat n)) = is_safe_integer (nat n)
is_part _ = false

unfoldable pub is_plugin_version : Heap → Value → Bool
unfolding property is_safe_integer
is_plugin_version h (ref a) =
    all (λ key. is_part (property h (ref a) key)) ("major" ∷ "minor" ∷ "patch" ∷ [])
is_plugin_version h v = false

unfoldable pub version_equals : PluginVersion → PluginVersion → Bool
version_equals l r = l.major == r.major && l.minor == r.minor && l.patch == r.patch

unfoldable pub version_less : PluginVersion → PluginVersion → Bool
version_less l r =
    if not (l.major == r.major)
    then ltb l.major r.major
    else if not (l.minor == r.minor)
    then ltb l.minor r.minor
    else ltb l.patch r.patch

unfoldable pub valid_version_range : VersionRange → Bool
valid_version_range range = not (version_less range.maximum range.minimum)

unfoldable pub accepts_version : VersionRange → PluginVersion → Bool
unfolding valid_version_range
accepts_version allowed actual =
    valid_version_range allowed
    && not (version_less actual allowed.minimum)
    && not (version_less allowed.maximum actual)

unfoldable pub exact_version : PluginVersion → VersionRange
exact_version v = record { minimum = v; maximum = v }
