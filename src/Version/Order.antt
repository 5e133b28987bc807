-- ===== src/Version/Order.antt =====
-- The order of versions is that of one number, and a range is an interval of it.
use u.Base.{ℕ, ◌+◌, ◌*◌, ◌^◌, ◌≤◌, ◌<◌, ◌≡◌, ◌↔◌, true, arith}
use u.Version.{
  PluginVersion, VersionRange, version_equals, version_less, valid_version_range, accepts_version,
  exact_version,
}

-- Number.MAX_SAFE_INTEGER + 1
abbrev pub base : ℕ
base = 2 ^ 53

-- What `isPluginVersion` asks of the parts.
pub record IsSafe (v : PluginVersion) : Type 0 where
  pub major : v.major < base
  pub minor : v.minor < base
  pub patch : v.patch < base

-- A version as a number of three digits in base 2^53.
abbrev pub rank : PluginVersion → ℕ
rank v = v.major * (base * base) + v.minor * base + v.patch

-- Of two versions with safe parts, the first is less than the second exactly when its rank is.
pub version_less_iff :
    (l r : PluginVersion) → IsSafe l → IsSafe r → (version_less l r ≡ true) ↔ (rank l < rank r)
unfolding version_less
version_less_iff l r p q = ground arith

version_equals_iff : (l r : PluginVersion) → (version_equals l r ≡ true) ↔ (l ≡ r)
unfolding version_equals
version_equals_iff l r = ground arith

-- A range accepts a version exactly when its rank lies between those of the two bounds, both
-- included.
pub accepts_version_iff :
    (range : VersionRange) (v : PluginVersion)
    → IsSafe range.minimum
    → IsSafe range.maximum
    → IsSafe v
    → (accepts_version range v ≡ true)
      ↔ ((rank range.minimum ≤ rank v) × (rank v ≤ rank range.maximum))
unfolding accepts_version
accepts_version_iff range v p q r = ground (
  arith,
  version_less_iff range.maximum range.minimum,
  version_less_iff v range.minimum,
  version_less_iff range.maximum v,
)

-- The range that `exactVersion` builds is valid and accepts that version alone.
pub exact_version_lem :
    (v w : PluginVersion)
    → (valid_version_range (exact_version v) ≡ true)
      × ((accepts_version (exact_version v) w ≡ true) ↔ (v ≡ w))
unfolding version_less exact_version accepts_version valid_version_range
exact_version_lem v w = ground arith
