-- ===== src/Base/Status.antt =====
-- ts/src/core/status.ts: the failure vocabulary, and what a function that may throw returns.
use mathlib.Core.Path.{◌≡◌, refl}
use mathlib.Core.Bool.{Bool, true, false}

pub data RackStatus : Type 0 where
  invalid_argument unsupported not_found duplicate invalid_state busy stale limit_exceeded failed
        cycle deferred :
      RackStatus

-- Anything that is thrown: a RackError, or a foreign value.
pub data Thrown : Type 0 where
  rack : RackStatus → Thrown
  foreign : Thrown

unfoldable pub status_of : Thrown → RackStatus
status_of (rack s) = s
status_of foreign = failed

-- The value that a call returns, or the status of the RackError that it throws.
pub data Result {ℓ} (A : Type ℓ) : Type ℓ where
  err : RackStatus → Result A
  ok : A → Result A

-- `if (!passed) throw new RackError(status, …)`
abbrev pub guard : Bool → RackStatus → Result (Unit {0})
guard false status = err status
guard true status = ok tt

abbrev pub ◌>>=◌ {κ ℓ} : {X : Type κ} {Y : Type ℓ} → Result X → (X → Result Y) → Result Y
err status >>= next = err status
ok value >>= next = next value

abbrev pub ◌>>◌ {ℓ} : {Y : Type ℓ} → Result (Unit {0}) → Result Y → Result Y
err status >> next = err status
ok done >> next = next

infixl 5 ◌>>=◌ ◌>>◌
-- What a chain that returned has been through.
pub >>=-eq-ok {κ ℓ} :
    {X : Type κ} {Y : Type ℓ} (first : Result X) (next : X → Result Y) {y : Y}
    → (first >>= next) ≡ ok y
    → (x : X) × (first ≡ ok x) × (next x ≡ ok y)
>>=-eq-ok (err status) next returned = absurd (cc)
>>=-eq-ok (ok x) next returned = (x, refl, returned)

pub guard->> {ℓ} :
    {Y : Type ℓ} (passed : Bool) (status : RackStatus) (next : Result Y) {y : Y}
    → (guard passed status >> next) ≡ ok y
    → (passed ≡ true) × (next ≡ ok y)
guard->> false status next returned = absurd (cc)
guard->> true status next returned = (refl, returned)
