-- ===== src/Calls/Select.antt =====
-- Names and ids lead to the same call.
use u.Base.{
  ℕ, String, ◌≡◌, inl, inr, true, false, some, List, [], ◌∷◌, arith, nat_key, string_key,
  nat_beq_iff, eq_iff, includes, find, Bool-cases,
}
use u.Json.{Document}
use u.Capability.{MethodDesc, CapEntry}
use u.Capability.Valid.{IsEntry, AreMethods}
use u.Lease.{ActiveLeaseInfo}
use u.Calls.{MethodSelector, by_name, by_id, Deps, selects, find_method, admit}

-- A method that is found is none of those whose ids and names are taken.
found_method :
    (p : MethodSelector) (ids : List ℕ) (names : List String) (ms : List MethodDesc)
    (m : MethodDesc)
    → AreMethods ids names ms
    → find (selects p) ms ≡ some m
    → (includes ids m.id ≡ false) × (includes names m.name ≡ false) × (selects p m ≡ true)
found_method p ids names [] m valid found = absurd (cc)
found_method p ids names (x ∷ ms) m (here, new_id, new_name, later) found =
    ground (arith, found_method p (x.id ∷ ids) (x.name ∷ names) ms m later)

-- What any selector finds, its id and its name find too.
find_own :
    (p : MethodSelector) (ids : List ℕ) (names : List String) (ms : List MethodDesc)
    (m : MethodDesc)
    → AreMethods ids names ms
    → find (selects p) ms ≡ some m
    → (find (selects (by_id m.id)) ms ≡ some m) × (find (selects (by_name m.name)) ms ≡ some m)
unfolding selects
find_own p ids names [] m valid found = absurd (cc)
find_own p ids names (x ∷ ms) m (here, new_id, new_name, later) found =
    elim (Bool-cases (selects p x)) [
      | inl hit ↦
          let same : x ≡ m = ground arith in
          ground (arith, nat_beq_iff x.id m.id, eq_iff x.name m.name)
      | inr miss ↦ ground (
        arith,
        find_own p (x.id ∷ ids) (x.name ∷ names) ms m later,
        found_method p (x.id ∷ ids) (x.name ∷ names) ms m later,
        nat_beq_iff x.id m.id,
        eq_iff x.name m.name,
      )
    ]

-- A call by the name of a published method and a call by its id are admitted alike, with the same
-- request or the same error, whatever the keys in flight and the lease.
pub admit_by_name_or_id :
    (deps : Deps) (busy_keys : List String) (lease : ActiveLeaseInfo) (args : Document)
    (entry : CapEntry) (p : MethodSelector) (m : MethodDesc)
    → IsEntry entry
    → deps.lookup_caps lease.provider_plug_id ≡ some entry
    → find_method entry p ≡ some m
    → (admit deps busy_keys lease (by_id m.id) args ≡ admit deps busy_keys lease p args)
      × (admit deps busy_keys lease (by_name m.name) args ≡ admit deps busy_keys lease p args)
unfolding admit find_method
admit_by_name_or_id deps busy_keys lease args entry p m valid published found =
    let same = find_own p [] [] entry.caps.methods m valid.methods found in
    (ground arith, ground arith)
