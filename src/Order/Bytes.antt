-- ===== src/Order/Bytes.antt =====
-- `comparePlugIds`: the order of the UTF-8 bytes.
use Prim.Native.Char.{code}
use u.Base.{
  ℕ, ◌+◌, ◌/◌, ◌%◌, ◌++◌, String, Bool, true, false, List, [], ◌∷◌, nat_key, ltb, ◌==◌,
  if◌then◌else◌,
}

-- Buffer.from(text, 'utf8'): the bytes of a code point, and of a text.
unfoldable pub utf8_of : ℕ → List ℕ
utf8_of c =
    if ltb c 0x80
    then c ∷ []
    else if ltb c 0x800
    then (0xc0 + c / 0x40) ∷ (0x80 + c % 0x40) ∷ []
    else if ltb c 0x10000
    then (0xe0 + c / 0x1000) ∷ (0x80 + c / 0x40 % 0x40) ∷ (0x80 + c % 0x40) ∷ []
    else (0xf0 + c / 0x40000)
      ∷ (0x80 + c / 0x1000 % 0x40)
      ∷ (0x80 + c / 0x40 % 0x40)
      ∷ (0x80 + c % 0x40)
      ∷ []

unfoldable pub utf8 : String → List ℕ
unfolding utf8_of
utf8 String.[] = []
utf8 (String.◌∷◌ c s) = utf8_of (code c) ++ utf8 s

-- The sign of Buffer.compare.
pub data Comparison : Type 0 where
  lower same higher : Comparison

unfoldable pub compare_bytes : List ℕ → List ℕ → Comparison
compare_bytes [] [] = same
compare_bytes [] (b ∷ bs) = lower
compare_bytes (a ∷ as_) [] = higher
compare_bytes (a ∷ as_) (b ∷ bs) =
    let rest = compare_bytes as_ bs in if a == b then rest else if ltb a b then lower else higher

unfoldable pub compare_plug_ids : String → String → Comparison
unfolding utf8 compare_bytes
compare_plug_ids left right = compare_bytes (utf8 left) (utf8 right)

abbrev pub lowers : Comparison → Bool
lowers lower = true
lowers same = false
lowers higher = false

-- `comparePlugIds(left, right) < 0`
unfoldable pub id_less : String → String → Bool
unfolding compare_plug_ids
id_less left right = lowers (compare_plug_ids left right)
