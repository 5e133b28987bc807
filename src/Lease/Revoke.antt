-- ===== src/Lease/Revoke.antt =====
-- The revocation of a provider's leases, with revokers that may do anything in between.
use u.Base.{
  ◌≢◌, ℕ, ◌≡◌, ap, subst, sym, inl, inr, String, true, false, none, some, List, [], ◌∷◌, arith,
  nat_key, string_key, ◌==◌, nat_beq_iff, eq_iff, Bool-cases, Option-cases, includes, ◌∙◌,
}
use u.Base.Map
use u.Base.Map.{Map, Distinct, some_value-lookup, lookup-some_value, map_laws, lookup-remove}
use u.Lease.{
  LeaseRecord, sealed, Leases, release, releases, step, run, lent_by, has_outstanding_for,
  pending_for, RevokeStatus, all_returned, still_lent, Revocation, OnRevoke, notify,
  revoke_provider,
}
use u.Lease.Invariant.{Inv, run-Inv, removed-Inv}

pub notify-Inv :
    (on_revoke : OnRevoke) (handles : List ℕ) (s : Leases)
    → Inv s
    → Inv (notify on_revoke handles s).leases
unfolding notify
notify-Inv on_revoke [] s v = v
notify-Inv on_revoke (h ∷ hs) s v = elim (Option-cases (Map.lookup h s.records)) [
  | inl returned ↦ rw (returned, notify) (notify-Inv on_revoke hs s v)
  | inr (r, found) ↦
      let calls = (on_revoke r.revoker (sealed h) s).0 in
      rw (found, notify) (notify-Inv on_revoke hs (run s calls) (run-Inv s calls v))
]

module _ (on_revoke : OnRevoke) (s : Leases) (provider : String) (generation : ℕ) (v : Inv s) where
  abbrev outcome : Revocation × RevokeStatus
  outcome = revoke_provider on_revoke s provider generation

  after_Inv : Inv outcome.0.leases
  unfolding revoke_provider
  after_Inv = notify-Inv on_revoke (pending_for provider generation s.records) s v

  -- Revocation succeeds exactly when no lease on that generation is left, whatever the revokers did
  -- and threw: then every lease that is still in the table is on another one, and a failure shows a
  -- lease that was not returned.
  pub revoke_exact :
      ((revoke_provider on_revoke s provider generation).1 ≡ all_returned
        → (h : ℕ) (r : LeaseRecord)
        → Map.lookup h (revoke_provider on_revoke s provider generation).0.leases.records ≡ some r
        → lent_by provider generation r ≡ false)
      × ((revoke_provider on_revoke s provider generation).1 ≡ still_lent
          → (h : ℕ) × (r : LeaseRecord) × (Map.lookup h
                (revoke_provider on_revoke s provider generation).0.leases.records
              ≡ some r)
            × (lent_by provider generation r ≡ true))
  unfolding revoke_provider has_outstanding_for
  revoke_exact = (
    λ ok h r found. elim (Bool-cases (lent_by provider generation r)) [
      | inr other ↦ other
      | inl lent ↦ absurd (
          ground (
            arith,
            some_value-lookup (lent_by provider generation) h r outcome.0.leases.records found lent,
          ))
    ],
    λ failed.
        lookup-some_value (lent_by provider generation) outcome.0.leases.records
          after_Inv.records_distinct (ground arith),
  )

-- A revoker that returns the lease that it is told of, and does nothing else.
abbrev pub ReturnsAtOnce : OnRevoke → Type 0
ReturnsAtOnce on_revoke =
    (s : Leases) (h : ℕ) (r : LeaseRecord)
    → Map.lookup h s.records ≡ some r
    → (on_revoke r.revoker (sealed h) s).0 ≡ releases (sealed h) r.consumer_id ∷ []

-- No lease on the generation is in use, and each is among the handles.
record IsIdle (provider : String) (generation : ℕ) (handles : List ℕ) (s : Leases) : Type 0 where
  pub unused :
      (h : ℕ) (r : LeaseRecord)
      → Map.lookup h s.records ≡ some r
      → lent_by provider generation r ≡ true
      → r.in_flight ≡ 0
  pub listed :
      (h : ℕ) (r : LeaseRecord)
      → Map.lookup h s.records ≡ some r
      → lent_by provider generation r ≡ true
      → includes handles h ≡ true

listed-pending_for :
    (provider : String) (generation : ℕ) (m : Map ℕ LeaseRecord) (h : ℕ) (r : LeaseRecord)
    → Map.lookup h m ≡ some r
    → lent_by provider generation r ≡ true
    → includes (pending_for provider generation m) h ≡ true
unfolding pending_for Map.lookup
listed-pending_for provider generation [] h r found lent = absurd (cc)
listed-pending_for provider generation ((i, x) ∷ m) h r found lent =
    ground (arith, listed-pending_for provider generation m h r, nat_beq_iff i h)

-- The release by the owner of an idle lease takes it out of the table.
release_idle :
    (s : Leases) (h : ℕ) (r : LeaseRecord)
    → Inv s
    → Map.lookup h s.records ≡ some r
    → r.in_flight ≡ 0
    → (release s (sealed h) r.consumer_id).0 ≡ record s { records = Map.remove h s.records }
unfolding release
release_idle s h r v found idle =
    ground (arith, v.current h r found, eq_iff r.consumer_id r.consumer_id)

removed-IsIdle :
    (provider : String) (generation : ℕ) (h : ℕ) (hs : List ℕ) (s : Leases)
    → IsIdle provider generation (h ∷ hs) s
    → IsIdle provider generation hs (record s { records = Map.remove h s.records })
removed-IsIdle provider generation h hs s i = record {
  unused = λ j x. simp map_laws λ e. i.unused j x (ground arith);
  listed = λ j x. simp map_laws λ e lent. ground (arith, i.listed j x);
}

skipped-IsIdle :
    (provider : String) (generation : ℕ) (h : ℕ) (hs : List ℕ) (s : Leases)
    → Map.lookup h s.records ≡ none
    → IsIdle provider generation (h ∷ hs) s
    → IsIdle provider generation hs s
skipped-IsIdle provider generation h hs s missing i = record {
  unused = i.unused;
  listed = λ j x e lent. ground (arith, i.listed j x, nat_beq_iff h j);
}

notify-IsIdle :
    (on_revoke : OnRevoke) (provider : String) (generation : ℕ) (hs : List ℕ) (s : Leases)
    → ReturnsAtOnce on_revoke
    → ((h : ℕ) (r : LeaseRecord)
        → Map.lookup h s.records ≡ some r
        → includes hs h ≡ true
        → r.in_flight ≡ 0)
    → Inv s
    → IsIdle provider generation hs s
    → IsIdle provider generation [] (notify on_revoke hs s).leases
unfolding notify run step
notify-IsIdle on_revoke provider generation [] s returns idle v i = i
notify-IsIdle on_revoke provider generation (h ∷ hs) s returns idle v i =
    elim (Option-cases (Map.lookup h s.records)) [
      | inl missing ↦
          rw (missing, notify)
            (notify-IsIdle on_revoke provider generation hs s returns
              (λ j x e m. idle j x e (ground arith)) v
              (skipped-IsIdle provider generation h hs s missing i))
      | inr (r, found) ↦
          let t = record s { records = Map.remove h s.records } in
          let unused = idle h r found (ground (arith, nat_beq_iff h h)) in
          let path : t ≡ run s (on_revoke r.revoker (sealed h) s).0 =
            sym (ap (run s) (returns s h r found) ∙ release_idle s h r v found unused) in
          rw (found, notify)
            (subst (λ w. IsIdle provider generation [] (notify on_revoke hs w).leases) path
              (notify-IsIdle on_revoke provider generation hs t returns
                (λ j x. simp map_laws λ e m. idle j x (ground arith) (ground arith))
                (removed-Inv s h v) (removed-IsIdle provider generation h hs s i)))
    ]

pending_for-lookup :
    (provider : String) (generation : ℕ) (m : Map ℕ LeaseRecord) (h : ℕ)
    → includes (pending_for provider generation m) h ≡ true
    → Map.lookup h m ≢ none
unfolding pending_for Map.lookup
pending_for-lookup provider generation [] h listed = cc
pending_for-lookup provider generation ((i, x) ∷ m) h listed =
    ground (arith, pending_for-lookup provider generation m h, nat_beq_iff i h)

lent-pending_for :
    (provider : String) (generation : ℕ) (m : Map ℕ LeaseRecord) (h : ℕ) (r : LeaseRecord)
    → Distinct m
    → includes (pending_for provider generation m) h ≡ true
    → Map.lookup h m ≡ some r
    → lent_by provider generation r ≡ true
unfolding pending_for Map.lookup
lent-pending_for provider generation [] h r d listed found = absurd (cc)
lent-pending_for provider generation ((i, x) ∷ m) h r (new, d) listed found =
    elim (Bool-cases (i == h)) [
      | inl same ↦
          let absent = subst (λ j. Map.lookup j m ≡ none) ((nat_beq_iff i h).0 same) new in
          ground (arith, pending_for-lookup provider generation m h)
      | inr other ↦ ground (arith, lent-pending_for provider generation m h r d)
    ]

-- A provider with no call in flight whose consumers return what they are told to is revoked: the
-- revocation succeeds.
pub revoke_returned :
    (on_revoke : OnRevoke) (s : Leases) (provider : String) (generation : ℕ)
    → Inv s
    → ReturnsAtOnce on_revoke
    → ((h : ℕ) (r : LeaseRecord)
        → Map.lookup h s.records ≡ some r
        → lent_by provider generation r ≡ true
        → r.in_flight ≡ 0)
    → (revoke_provider on_revoke s provider generation).1 ≡ all_returned
unfolding revoke_provider has_outstanding_for
revoke_returned on_revoke s provider generation v returns idle =
    let hs = pending_for provider generation s.records in
    let i =
      notify-IsIdle on_revoke provider generation hs s returns
        (λ h r e m.
          idle h r e (lent-pending_for provider generation s.records h r v.records_distinct m e))
        v (record { unused = idle; listed = listed-pending_for provider generation s.records }) in
    let t = (notify on_revoke hs s).leases in
    elim (Bool-cases (Map.some_value (lent_by provider generation) t.records)) [
      | inr none_left ↦ ground arith
      | inl left ↦
          let (h, r, found, lent) =
            lookup-some_value (lent_by provider generation) t.records
              (notify-Inv on_revoke hs s v).records_distinct left in
          absurd (cc (i.listed h r found lent))
    ]
