-- ===== src/Json/Size.antt =====
-- What `estimateJsonBytes` counts, and what it does not.
use u.Base.{nat_key, ℕ, zero, suc, ◌*◌, ◌≡◌, refl, some, [], ◌∷◌, arith}
use u.Base.Map
use u.Json.{Value, ref, array, Heap, Document, measure, estimate_json_bytes}

-- The value stands inside of so many arrays of one item.
abbrev pub Nested : Heap → ℕ → Value → Value → Type 0
Nested h zero v inner = v ≡ inner
Nested h (suc k) v inner =
    (a : ℕ) × (w : Value) × (v ≡ ref a)
    × (Map.lookup a h ≡ some (array (w ∷ [])))
    × Nested h k w inner

measure-Nested : (k : ℕ) (h : Heap) (v inner : Value) → Nested h k v inner → measure k h v ≡ 3 * k
unfolding measure
measure-Nested zero h v inner e = refl
measure-Nested (suc k) h v inner (a, w, e, found, nested) =
    rw (e, measure, found) (omega (arith, measure-Nested k h w inner nested))

-- A value inside of 65 arrays is not counted: whatever it is, the estimate is 195 bytes.
pub estimate_ignores_depth :
    (d : Document) (inner : Value) → Nested d.heap 65 d.root inner → estimate_json_bytes d ≡ 195
unfolding estimate_json_bytes
estimate_ignores_depth d inner nested = measure-Nested 65 d.heap d.root inner nested
