-- ===== src/Host/Steps.antt =====
-- ts/src/core/host.ts: the steps on one instance, and `start` past its check, keep a predicate that
-- follows the rule.
use u.Base.{
  ℕ, suc, zero, ◌≡◌, refl, ◌⊎◌, String, Bool, true, false, Option, none, some, List, [], ◌∷◌,
  string_key, All, Result, ok, err, RackStatus, Bool-cases, Option-cases, inl, inr, get_elem?,
}
use u.Base.Map
use u.Base.Map.{Map}
use u.Capability.{CapEntry}
use u.Json.{Document}
use u.Events.{Budget}
use u.Registry.{withdrawable}
use u.Order.{PlanResult, fine, refuse}
use u.Host.{
  InstanceRecord, inits, starts, stops, destroys, notices, drains, Rack, Code, run_in_callback,
  drop_deferred_unload,
}
use u.Host.Batch.{
  Done, destroy_record, discard_all, init_instance, register_stored, register_for, register_pending,
  started, start_instance, withdrawn, withdraw_caps, withdraw_own, rollback_instance, rollback_all,
  destroy_created, init_all, unwind_one, unwind, drained, start_all, is_created, reverse, pick,
  picked, run_plan, and_start, start_batch, keys,
}
use u.Host.Rule.{Changes, Holds, modify_same, modify_change, run_in_callback-Holds}

pub Result-cases : (r : Result (Unit {0})) → (r ≡ ok tt) ⊎ ((e : RackStatus) × (r ≡ err e))
Result-cases (ok tt) = inl refl
Result-cases (err e) = inr (e, refl)

module _ {P : Map String InstanceRecord → ℕ → Type 0} {Q : String → Type 0} (changes : Changes P Q)
    (code : Code) where
  abbrev H : Rack → Type 0
  H s = Holds P s

  pub destroy_record-Holds : (s : Rack) (q : String) → Q q → H s → H (destroy_record code s q)
  unfolding destroy_record drop_deferred_unload
  destroy_record-Holds s q may h =
      changes.gone _ _ q (run_in_callback-Holds changes.steady code s (destroys q) h) may

  pub discard_all-Holds : (s : Rack) (ps : List String) → All Q ps → H s → H (discard_all code s ps)
  unfolding discard_all
  discard_all-Holds s [] may h = h
  discard_all-Holds s (q ∷ ps) (may, rest) h =
      discard_all-Holds (destroy_record code s q) ps rest (destroy_record-Holds s q may h)

  pub init_instance-Holds : (s : Rack) (q : String) → Q q → H s → H (init_instance code s q).0
  unfolding init_instance
  init_instance-Holds s q may h = elim (Bool-cases (run_in_callback code s (inits q)).1) [
    | inl threw ↦
        rw (threw, init_instance) (run_in_callback-Holds changes.steady code s (inits q) h)
    | inr quiet ↦
        rw (quiet, init_instance)
          (modify_change changes _ q (run_in_callback code s (inits q)).0 may (λ r. refl)
            (run_in_callback-Holds changes.steady code s (inits q) h))
  ]

  register_stored-Holds :
      (s : Rack) (q : String) (e : Result CapEntry) → H s → H (register_stored code s q e).0
  register_stored-Holds s q (err e) h = h
  register_stored-Holds s q (ok e) h = run_in_callback-Holds changes.steady code _ (notices q) h

  register_for-Holds :
      (s : Rack) (q : String) (r : InstanceRecord) (caps : Option Document)
      → H s
      → H (register_for code s q r caps).0
  register_for-Holds s q r none h = h
  register_for-Holds s q r (some caps) h = register_stored-Holds s q _ h

  register_pending-Holds : (s : Rack) (q : String) → H s → H (register_pending code s q).0
  unfolding register_pending
  register_pending-Holds s q h = elim (Option-cases (Map.lookup q s.instances)) [
    | inl missing ↦ rw (missing, register_pending) h
    | inr (r, found) ↦ rw (found, register_pending) (register_for-Holds s q r r.pending_caps h)
  ]

  started-Holds : (q : String) (s : Rack) (threw : Bool) → Q q → H s → H (started code q s threw).0
  started-Holds q s true may h = h
  started-Holds q s false may h =
      register_pending-Holds _ q (modify_change changes _ q s may (λ r. refl) h)

  start_instance-Holds : (s : Rack) (q : String) → Q q → H s → H (start_instance code s q).0
  unfolding start_instance
  start_instance-Holds s q may h =
      modify_same changes.steady _ q _ (λ r. refl) (λ r. refl)
        (started-Holds q _ _ may (
          run_in_callback-Holds changes.steady code _ (starts q)
            (modify_same changes.steady _ q s (λ r. refl) (λ r. refl) h)))

  withdrawn-Holds : (s : Rack) (q : String) (e : Option CapEntry) → H s → H (withdrawn code s q e)
  withdrawn-Holds s q none h = h
  withdrawn-Holds s q (some e) h = run_in_callback-Holds changes.steady code _ (notices q) h

  pub withdraw_caps-Holds : (s : Rack) (q : String) (g : ℕ) → H s → H (withdraw_caps code s q g)
  unfolding withdraw_caps
  withdraw_caps-Holds s q g h = withdrawn-Holds s q (withdrawable s.table q g) h

  withdraw_own-Holds : (s : Rack) (q : String) → H s → H (withdraw_own code s q)
  unfolding withdraw_own
  withdraw_own-Holds s q h = elim (Option-cases (Map.lookup q s.instances)) [
    | inl missing ↦ rw (missing, withdraw_own) h
    | inr (r, found) ↦ rw (found, withdraw_own) (withdraw_caps-Holds s q r.generation h)
  ]

  pub rollback_instance-Holds :
      (s : Rack) (w : Bool) (q : String) → Q q → H s → H (rollback_instance code s w q)
  unfolding rollback_instance
  rollback_instance-Holds s true q may h =
      destroy_record-Holds _ q may
        (run_in_callback-Holds changes.steady code _ (stops q) (withdraw_own-Holds s q h))
  rollback_instance-Holds s false q may h =
      destroy_record-Holds _ q may (run_in_callback-Holds changes.steady code s (stops q) h)

  pub rollback_all-Holds :
      (s : Rack) (ps : List String) → All Q ps → H s → H (rollback_all code s ps)
  unfolding rollback_all
  rollback_all-Holds s [] may h = h
  rollback_all-Holds s (q ∷ ps) (may, rest) h =
      rollback_all-Holds (rollback_instance code s false q) ps rest
        (rollback_instance-Holds s false q may h)

  pub destroy_created-Holds :
      (s : Rack) (ps : List String) → All Q ps → H s → H (destroy_created code s ps)
  unfolding destroy_created
  destroy_created-Holds s [] may h = h
  destroy_created-Holds s (q ∷ ps) (may, rest) h =
      elim (Bool-cases (is_created (Map.lookup q s.instances))) [
        | inl new ↦
            rw (new, destroy_created)
              (destroy_created-Holds (destroy_record code s q) ps rest
                (destroy_record-Holds s q may h))
        | inr old ↦ rw (old, destroy_created) (destroy_created-Holds s ps rest h)
      ]

  init_all-Holds :
      (plan done : List String) (s : Rack) (ps : List String)
      → All Q plan
      → All Q done
      → All Q ps
      → H s
      → H (init_all code plan done s ps).0
  unfolding init_all
  init_all-Holds plan done s [] all d o h = h
  init_all-Holds plan done s (q ∷ ps) all d (may, rest) h =
      elim (Result-cases (init_instance code s q).1) [
        | inl good ↦
            rw (good, init_all)
              (init_all-Holds plan (q ∷ done) (init_instance code s q).0 ps all (may, d) rest
                (init_instance-Holds s q may h))
        | inr (e, failing) ↦
            rw (failing, init_all)
              (destroy_created-Holds _ plan all
                (rollback_all-Holds _ done d (init_instance-Holds s q may h)))
      ]

  pub unwind_one-Holds :
      (s : Rack) (q : String) (r : Option InstanceRecord) → Q q → H s → H (unwind_one code s q r)
  unwind_one-Holds s q none may h = h
  unwind_one-Holds s q (some r) may h = elim (Bool-cases (is_created (some r))) [
    | inl new ↦ rw (new, unwind_one) (destroy_record-Holds s q may h)
    | inr old ↦ rw (old, unwind_one) (rollback_instance-Holds s true q may h)
  ]

  pub unwind-Holds : (s : Rack) (ps : List String) → All Q ps → H s → H (unwind code s ps)
  unfolding unwind
  unwind-Holds s [] may h = h
  unwind-Holds s (q ∷ ps) (may, rest) h =
      unwind-Holds (unwind_one code s q (Map.lookup q s.instances)) ps rest
        (unwind_one-Holds s q _ may h)

  reverse-All : (ps done : List String) → All Q ps → All Q done → All Q (reverse ps done)
  reverse-All [] done o d = d
  reverse-All (q ∷ ps) done (may, o) d = reverse-All ps (q ∷ done) o (may, d)

  pub drained-Holds : (budget : Budget) (s : Rack) → H s → H (drained code budget s)
  unfolding drained
  drained-Holds budget s h = run_in_callback-Holds changes.steady code _ drains h

  pub start_all-Holds :
      (budget : Budget) (plan : List String) (s : Rack) (ps : List String)
      → All Q plan
      → All Q ps
      → H s
      → H (start_all code budget plan s ps).0
  unfolding start_all
  start_all-Holds budget plan s [] all o h = h
  start_all-Holds budget plan s (q ∷ ps) all (may, rest) h =
      elim (Result-cases (start_instance code s q).1) [
        | inl good ↦
            rw (good, start_all)
              (start_all-Holds budget plan (drained code budget (start_instance code s q).0) ps all
                rest (drained-Holds budget _ (start_instance-Holds s q may h)))
        | inr (e, failing) ↦
            rw (failing, start_all)
              (unwind-Holds _ (reverse plan []) (reverse-All plan [] all tt)
                (start_instance-Holds s q may h))
      ]

  picked-All :
      (ids ps : List String) (i : ℕ) → All Q ids → All Q ps → All Q (picked (get_elem? ids i) ps)
  picked-All [] ps i all o = o
  picked-All (q ∷ ids) ps zero (may, all) o = (may, o)
  picked-All (q ∷ ids) ps (suc i) (may, all) o = picked-All ids ps i all o

  pick-All : (ids : List String) (is : List ℕ) → All Q ids → All Q (pick ids is)
  pick-All ids [] all = tt
  pick-All ids (i ∷ is) all = picked-All ids (pick ids is) i all (pick-All ids is all)

  and_start-Holds :
      (budget : Budget) (plan : List String) (d : Done)
      → All Q plan
      → H d.0
      → H (and_start code budget plan d).0
  and_start-Holds budget plan (t, err e) all h = h
  and_start-Holds budget plan (t, ok v) all h = start_all-Holds budget plan t plan all all h

  run_plan-Holds :
      (budget : Budget) (s : Rack) (ids : List String) (order : PlanResult (List ℕ))
      → All Q ids
      → H s
      → H (run_plan code budget s ids order).0
  run_plan-Holds budget s ids (refuse e) all h = discard_all-Holds s ids all h
  run_plan-Holds budget s ids (fine order) all h =
      let plan = pick ids order in
      let every = pick-All ids order all in
      and_start-Holds budget plan (init_all code plan [] s plan) every
        (init_all-Holds plan [] s plan every tt every h)

  pub start_batch-Holds :
      (budget : Budget) (s : Rack) (m : Map String InstanceRecord)
      → All Q (keys m)
      → H s
      → H (start_batch code budget s m).0
  unfolding start_batch
  start_batch-Holds budget s [] all h = h
  start_batch-Holds budget s (r ∷ rs) all h = run_plan-Holds budget s (keys (r ∷ rs)) _ all h
