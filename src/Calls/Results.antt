-- ===== src/Calls/Results.antt =====
-- What a caller receives.
use u.Base.{ℕ, ◌≤◌, ◌≡◌, ◌↔◌, true, arith, ok}
use u.Json.{Document, is_json_value, estimate_json_bytes}
use u.Calls.{Gateway, Entered, Outcome, returned, threw, leave}

-- A call returns a result exactly when the provider returned it, it is a JSON value, and its
-- estimated size is within the output limit.
pub leave_returns_iff :
    (limit : ℕ) (s : Gateway) (call : Entered) (outcome : Outcome) (d : Document)
    → ((leave limit s call outcome).1 ≡ ok d)
      ↔ ((outcome ≡ returned d) × (is_json_value d ≡ true) × (estimate_json_bytes d ≤ limit))
unfolding leave
leave_returns_iff limit s call threw d = (λ h. absurd (cc), λ h. absurd (cc h.0))
leave_returns_iff limit s call (returned x) d = ground arith
