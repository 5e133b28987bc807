-- ===== src/Host/Undone.antt =====
-- ts/src/core/host.ts: what a batch that fails leaves of its instances.
use u.Base.{
  ℕ, suc, ◌≡◌, refl, sym, subst, ap, ◌∙◌, ◌⊎◌, ◌<◌, String, Bool, true, false, ◌||◌, Option, none,
  some, List, [], ◌∷◌, string_key, nat_key, ltb, lt→ltb, ◌==◌, includes, length, get_elem?,
  if◌then◌else◌, ok, err, RackStatus, arith, Bool-cases, inl, inr,
}
use u.Base.Map
use u.Base.Map.{Map, lookup-insert, lookup-remove}
use u.Events.{Budget}
use u.Order.{PlanResult, fine, refuse}
use u.Order.Schedule.{plan_order}
use u.Order.Sound.{plan_order_once}
use u.Host.{InstanceState, InstanceRecord, inits, Rack, Code, run_in_callback}
use u.Host.Batch.{
  Done, destroy_record, discard_all, init_instance, start_instance, rollback_instance, rollback_all,
  destroy_created, init_all, unwind_one, unwind, drained, start_all, is_created, reverse, pick,
  picked, run_plan, and_start, start_batch, pending, keys, nodes, initialized_ids,
}
use u.Host.Rule.{run_in_callback-Holds}
use u.Host.Steps.{Result-cases, init_instance-Holds, rollback_all-Holds}
use u.Host.Unwind.{
  IsOut, IsWaiting, waiting-Waits, discard_all-IsOut, rollback_all-IsOut, unwind-IsOut,
  destroy_created-IsOut, others,
}

module _ (code : Code) (p : String) where
  -- Where a step fails, the instance is out of the table.
  abbrev OutIfErr : Done → Type 0
  OutIfErr d = (e : RackStatus) → d.1 ≡ err e → IsOut code p d.0

  failed_init_waits :
      (s : Rack) (q : String) (e : RackStatus)
      → (init_instance code s q).1 ≡ err e
      → IsWaiting code p s
      → IsWaiting code p (init_instance code s q).0
  unfolding init_instance
  failed_init_waits s q e failing waits = elim (Bool-cases (run_in_callback code s (inits q)).1) [
    | inl threw ↦
        rw (threw, init_instance)
          (run_in_callback-Holds (waiting-Waits p).steady code s (inits q) waits)
    | inr quiet ↦ absurd (returned (run_in_callback code s (inits q)).1 quiet failing)
  ]
    where
      returned : (b : Bool) → b ≡ false → u.Host.Batch.reported b ≡ err e → ⊥
      returned false quiet bad = cc
      returned true quiet bad = cc

  init_all-OutIfErr :
      (plan done : List String) (s : Rack) (ps : List String)
      → includes plan p ≡ true
      → (includes done p ≡ true) ⊎ IsWaiting code p s
      → OutIfErr (init_all code plan done s ps)
  unfolding init_all
  init_all-OutIfErr plan done s [] inside either = λ e bad. absurd (cc)
  init_all-OutIfErr plan done s (q ∷ ps) inside either =
      elim (Result-cases (init_instance code s q).1) [
        | inl good ↦
            rw (good, init_all)
              (init_all-OutIfErr plan (q ∷ done) (init_instance code s q).0 ps inside (next either))
        | inr (e, failing) ↦
            rw (failing, init_all)
              λ f same.
                destroy_created-IsOut code p (rollback_all code (init_instance code s q).0 done)
                  plan inside (after_it e failing either)
      ]
    where
      next :
          (includes done p ≡ true) ⊎ IsWaiting code p s
          → (includes (q ∷ done) p ≡ true) ⊎ IsWaiting code p (init_instance code s q).0
      next (inl h) = inl (ground arith)
      next (inr waits) = elim (Bool-cases (q == p)) [
        | inl hit ↦ inl (ground arith)
        | inr miss ↦ inr (init_instance-Holds (waiting-Waits p) code s q miss waits)
      ]

      after_it :
          (e : RackStatus)
          → (init_instance code s q).1 ≡ err e
          → (includes done p ≡ true) ⊎ IsWaiting code p s
          → IsOut code p (rollback_all code (init_instance code s q).0 done)
            ⊎ IsWaiting code p (rollback_all code (init_instance code s q).0 done)
      after_it e failing (inl h) = inl (rollback_all-IsOut code p (init_instance code s q).0 done h)
      after_it e failing (inr waits) = elim (Bool-cases (includes done p)) [
        | inl h ↦ inl (rollback_all-IsOut code p (init_instance code s q).0 done h)
        | inr away ↦ inr (
            rollback_all-Holds (waiting-Waits p) code (init_instance code s q).0 done
              (others code p done away) (failed_init_waits s q e failing waits))
      ]

  reverse-includes :
      (ps done : List String)
      → (includes ps p || includes done p) ≡ true
      → includes (reverse ps done) p ≡ true
  reverse-includes [] done h = h
  reverse-includes (q ∷ ps) done h = reverse-includes ps (q ∷ done) (ground arith)

  start_all-OutIfErr :
      (budget : Budget) (plan : List String) (s : Rack) (ps : List String)
      → includes plan p ≡ true
      → OutIfErr (start_all code budget plan s ps)
  unfolding start_all
  start_all-OutIfErr budget plan s [] inside = λ e bad. absurd (cc)
  start_all-OutIfErr budget plan s (q ∷ ps) inside =
      elim (Result-cases (start_instance code s q).1) [
        | inl good ↦
            rw (good, start_all)
              (start_all-OutIfErr budget plan (drained code budget (start_instance code s q).0) ps
                inside)
        | inr (e, failing) ↦
            rw (failing, start_all)
              λ f same.
                unwind-IsOut code p (start_instance code s q).0 (reverse plan [])
                  (reverse-includes plan [] (ground arith))
      ]

  and_start-OutIfErr :
      (budget : Budget) (plan : List String) (d : Done)
      → includes plan p ≡ true
      → OutIfErr d
      → OutIfErr (and_start code budget plan d)
  and_start-OutIfErr budget plan (s, err e) inside out = out
  and_start-OutIfErr budget plan (s, ok v) inside out = start_all-OutIfErr budget plan s plan inside

  picked-includes :
      (o : Option String) (ps : List String)
      → (o ≡ some p) ⊎ (includes ps p ≡ true)
      → includes (picked o ps) p ≡ true
  picked-includes none ps (inl here) = absurd (cc)
  picked-includes none ps (inr there) = there
  picked-includes (some q) ps (inl here) =
      let same : q ≡ p = cc in rw ((string_key.same_iff q p).1 same) refl
  picked-includes (some q) ps (inr there) = ground arith

  pick-includes :
      (ids : List String) (is : List ℕ) (i : ℕ)
      → get_elem? ids i ≡ some p
      → includes is i ≡ true
      → includes (pick ids is) p ≡ true
  pick-includes ids [] i at h = absurd (cc)
  pick-includes ids (j ∷ is) i at h = elim (Bool-cases (j == i)) [
    | inl hit ↦
        picked-includes (get_elem? ids j) (pick ids is)
          (inl (subst (λ k. get_elem? ids k ≡ some p) (sym ((nat_key.same_iff j i).0 hit)) at))
    | inr miss ↦
        picked-includes (get_elem? ids j) (pick ids is)
          (inr (pick-includes ids is i at (ground arith)))
  ]

  place_of :
      (ids : List String)
      → includes ids p ≡ true
      → (i : ℕ) × (get_elem? ids i ≡ some p) × (i < length ids)
  place_of [] h = absurd (cc)
  place_of (q ∷ ids) h = elim (Bool-cases (q == p)) [
    | inl hit ↦ (0, ap some ((string_key.same_iff q p).0 hit), omega arith)
    | inr miss ↦ let (i, at, low) = place_of ids (ground arith) in (suc i, at, omega arith)
  ]

  run_plan-OutIfErr :
      (budget : Budget) (s : Rack) (ids : List String) (order : PlanResult (List ℕ))
      → IsWaiting code p s
      → includes ids p ≡ true
      → ((is : List ℕ) → order ≡ fine is → (i : ℕ) → i < length ids → includes is i ≡ true)
      → OutIfErr (run_plan code budget s ids order)
  run_plan-OutIfErr budget s ids (refuse e) waits inside covers =
      λ f same. discard_all-IsOut code p s ids inside
  run_plan-OutIfErr budget s ids (fine order) waits inside covers =
      let (i, at, low) = place_of ids inside in
      let plan = pick ids order in
      let planned = pick-includes ids order i at (covers order refl i low) in
      and_start-OutIfErr budget plan (init_all code plan [] s plan) planned
        (init_all-OutIfErr plan [] s plan planned (inr waits))

  abbrev created_at : Bool → InstanceRecord → Map String InstanceRecord → Bool
  created_at b r m = is_created (if b then some r else Map.lookup p m)

  pending-includes :
      (m : Map String InstanceRecord)
      → is_created (Map.lookup p m) ≡ true
      → includes (keys (pending m)) p ≡ true
  unfolding pending Map.lookup
  pending-includes [] h = absurd (cc)
  pending-includes ((q, r) ∷ m) h = elim (Bool-cases (q == p)) [
    | inl hit ↦ rw (subst (λ b. created_at b r m ≡ true) hit h, hit, pending) refl
    | inr miss ↦ elim (Bool-cases (is_created (some r))) [
      | inl new ↦
          rw (new, miss, pending) (pending-includes m (subst (λ b. created_at b r m ≡ true) miss h))
      | inr old ↦
          rw (old, pending) (pending-includes m (subst (λ b. created_at b r m ≡ true) miss h))
    ]
  ]

length-nodes : (m : Map String InstanceRecord) → length (nodes m) ≡ length (keys m)
length-nodes [] = refl
length-nodes ((p, r) ∷ m) = ap suc (length-nodes m)

order-cases :
    (o : PlanResult (List ℕ)) (n : ℕ)
    → ((is : List ℕ) → o ≡ fine is → (i : ℕ) → includes is i ≡ ltb i n)
    → (is : List ℕ) → o ≡ fine is
    → (i : ℕ) → i < n
    → includes is i ≡ true
order-cases o n each is planned i low = each is planned i ∙ lt→ltb i n low

start_batch-OutIfErr :
    (code : Code) (budget : Budget) (s : Rack) (p : String) (m : Map String InstanceRecord)
    → is_created (Map.lookup p s.instances) ≡ true
    → includes (keys m) p ≡ true
    → OutIfErr code p (start_batch code budget s m)
unfolding start_batch
start_batch-OutIfErr code budget s p [] waits inside = absurd (cc)
start_batch-OutIfErr code budget s p (r ∷ rs) waits inside =
    let order = plan_order (nodes (r ∷ rs)) (initialized_ids s.instances) in
    run_plan-OutIfErr code p budget s (keys (r ∷ rs)) order waits inside λ is planned i low.
      order-cases order (length (keys (r ∷ rs)))
        (λ js also j.
          (plan_order_once (nodes (r ∷ rs)) (initialized_ids s.instances) js also j).1
          ∙ ap (ltb j) (length-nodes (r ∷ rs)))
        is planned i low

-- A batch that fails, in its plan, in an init or in a start, leaves none of the instances that waited
-- for it in the table, whatever the code of the plugins does.
pub failed_batch_undone :
    (code : Code) (budget : Budget) (s : Rack) (p : String) (e : RackStatus)
    → is_created (Map.lookup p s.instances) ≡ true
    → (start_batch code budget s (pending s.instances)).1 ≡ err e
    → Map.lookup p (start_batch code budget s (pending s.instances)).0.instances ≡ none
failed_batch_undone code budget s p e waits failing =
    start_batch-OutIfErr code budget s p (pending s.instances) waits
      (pending-includes code p s.instances waits) e failing
