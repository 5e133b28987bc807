-- ===== src/Version/Examples.antt =====
-- Versions at which the theorems are applied, and runs.
use u.Base.{◌≤◌, ◌<◌, ◌≡◌, refl, ◌↔◌, true, arith, [], ◌∷◌}
use u.Json.{nat, number, ref, object}
use u.Version.{PluginVersion, VersionRange, is_plugin_version, version_less, accepts_version}
use u.Version.Order.{IsSafe, rank, version_less_iff, accepts_version_iff}

abbrev v1 : PluginVersion
v1 = record { major = 1; minor = 9; patch = 9 }

abbrev v2 : PluginVersion
v2 = record { major = 2; minor = 0; patch = 0 }

abbrev from_v1 : VersionRange
from_v1 = record { minimum = v1; maximum = v2 }

v1-IsSafe : IsSafe v1
v1-IsSafe = record { major = omega arith; minor = omega arith; patch = omega arith }

v2-IsSafe : IsSafe v2
v2-IsSafe = record { major = omega arith; minor = omega arith; patch = omega arith }

reads_version :
    is_plugin_version
      ((
        0,
        object true (
            ("major", number (nat 1)) ∷ ("minor", number (nat 0)) ∷ ("patch", number (nat 7)) ∷ []),
      )
        ∷ [])
      (ref 0)
    ≡ true
unfolding is_plugin_version
reads_version = refl

version_less_iff_example : (version_less v1 v2 ≡ true) ↔ (rank v1 < rank v2)
version_less_iff_example = version_less_iff v1 v2 v1-IsSafe v2-IsSafe

accepts_version_iff_example :
    (accepts_version from_v1 v2 ≡ true) ↔ ((rank v1 ≤ rank v2) × (rank v2 ≤ rank v2))
accepts_version_iff_example = accepts_version_iff from_v1 v2 v1-IsSafe v2-IsSafe v2-IsSafe
