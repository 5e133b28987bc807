-- ===== src/Json/Text.antt =====
-- Text as JavaScript counts it.
use Prim.Native.Char.{code}
use Prim.Native.String.{String}
use u.Base.{ltb, if◌then◌else◌}
use Prim.Native.Nat.{ℕ, ◌+◌}

-- String.prototype.length: UTF-16 code units, two for a code point beyond the basic plane.
unfoldable pub utf16_length : String → ℕ
utf16_length String.[] = 0
utf16_length (String.◌∷◌ c s) = (if ltb (code c) 0x10000 then 1 else 2) + utf16_length s
