-- ===== src/Host/Quiet.antt =====
-- ts/src/core/host.ts: the protocol calls `stop` once nothing of the plugin is lent or in use.
use u.Base.{
  ℕ, ◌≡◌, refl, subst, ap, ◌∙◌, String, Bool, true, false, not, ◌&&◌, Option, none, some, List, [],
  ◌∷◌, nat_key, string_key, ltb, ◌==◌, all, if◌then◌else◌, arith, Bool-cases, Option-cases, inl,
  inr,
}
use u.Base.Map
use u.Base.Map.{Map, lookup-insert}
use u.Capability.{CapEntry}
use u.Registry.{withdrawable}
use u.Lease.{has_outstanding_for}
use u.Host.{
  InstanceState, created, initialized, active, revoking, faulted, InstanceRecord, Callback, stops,
  destroys, revokes, notices, Entered, Rack, Code, Action, modify, perform, perform_all,
  unload_later, queue_deferred_unload, drop_deferred_unload, entering, run_in_callback, logged,
  owner, instance_of, acquires_lease, releases_lease, begins_call, ends_call, uses_bus, asks_unload,
  publishes_caps, invokes, settles, set_state, begin_invoke, end_invoke,
}
use u.Host.Batch.{destroy_record, withdrawn, withdraw_caps, let_go}
use u.Host.Unload.{stopped, asked_back, take_back, unload_from, run_unload_protocol, calls_of}
use u.Host.Rule.{Steady, run_in_callback-Holds}

-- A `stop` is called with nothing lent and no call in flight.
abbrev pub quiet_stop : Entered → Bool
quiet_stop e = elim e.callback [ stops p ↦ not e.lent && e.calls == 0 | _ ↦ true ]

abbrev pub stops_quietly : Rack → Bool
stops_quietly s = all quiet_stop s.entered

modify_entered :
    (f : InstanceRecord → InstanceRecord) (q : String) (s : Rack)
    → (modify f q s).entered ≡ s.entered
unfolding modify
modify_entered f q s = elim (Option-cases (Map.lookup q s.instances)) [
  | inl missing ↦ rw (missing, modify) refl
  | inr (r, found) ↦ rw (found, modify) refl
]

begin_invoke_entered :
    (q : String) (g : ℕ) (o : Option InstanceRecord) (s : Rack)
    → (begin_invoke q g o s).entered ≡ s.entered
begin_invoke_entered q g none s = refl
begin_invoke_entered q g (some r) s = elim (Bool-cases r.has_invoke) [
  | inr without_ ↦ rw without_ refl
  | inl with_ ↦ rw with_ (modify_entered _ q _)
]

end_invoke_entered :
    (q : String) (g : ℕ) (o : Option (List (String × ℕ))) (s : Rack)
    → (end_invoke q g o s).entered ≡ s.entered
end_invoke_entered q g none s = refl
end_invoke_entered q g (some rest) s = modify_entered _ q _

perform_entered : (s : Rack) (a : Action) → (perform s a).entered ≡ s.entered
unfolding perform unload_later queue_deferred_unload
perform_entered s (acquires_lease consumer plug_id range revoker) = refl
perform_entered s (releases_lease credential consumer) = refl
perform_entered s (begins_call credential consumer) = refl
perform_entered s (ends_call guard_id) = refl
perform_entered s (uses_bus input) = refl
perform_entered s (asks_unload plug_id) = ground arith
perform_entered s (publishes_caps plug_id caps) = modify_entered _ plug_id s
perform_entered s (invokes plug_id generation) = begin_invoke_entered plug_id generation _ s
perform_entered s (settles plug_id generation) = end_invoke_entered plug_id generation _ s

perform_all_entered : (s : Rack) (as_ : List Action) → (perform_all s as_).entered ≡ s.entered
unfolding perform_all
perform_all_entered s [] = refl
perform_all_entered s (a ∷ as_) = perform_all_entered (perform s a) as_ ∙ perform_entered s a

-- The instance `q`, if it is there, is of generation `g`.
abbrev AtGeneration : String → ℕ → Map String InstanceRecord → ℕ → Type 0
AtGeneration q g m n = (r : InstanceRecord) → Map.lookup q m ≡ some r → r.generation ≡ g

module _ (code : Code) (q : String) (g : ℕ) where
  run_entered :
      (s : Rack) (c : Callback)
      → (run_in_callback code s c).0.entered
        ≡ logged c s.leases (owner c) (instance_of (owner c) s.instances) ∷ s.entered
  unfolding run_in_callback
  run_entered s c = perform_all_entered (entering s c) (code (entering s c) c).0

  abbrev Sure : Rack → Type 0
  Sure s = (stops_quietly s ≡ true) × AtGeneration q g s.instances s.next_generation

  replaced_at :
      (m : Map String InstanceRecord) (n : ℕ) (p : String) (r t : InstanceRecord)
      → AtGeneration q g m n
      → Map.lookup p m ≡ some r
      → t.generation ≡ r.generation
      → AtGeneration q g (Map.insert p t m) n
  replaced_at m n p r t at found generations u seen = elim (Bool-cases (p == q)) [
    | inl hit ↦ went_in m p r t u at found generations hit (moved m p t u hit seen)
    | inr miss ↦ at u (
        subst (λ b. (if b then some t else Map.lookup q m) ≡ some u) miss
          (subst (λ o. o ≡ some u) (lookup-insert p q t m) seen))
  ]
    where
      moved :
          (m : Map String InstanceRecord) (p : String) (t u : InstanceRecord)
          → (p == q) ≡ true
          → Map.lookup q (Map.insert p t m) ≡ some u
          → t ≡ u
      moved m p t u hit seen = cc (
          subst (λ b. (if b then some t else Map.lookup q m) ≡ some u) hit
            (subst (λ o. o ≡ some u) (lookup-insert p q t m) seen))

      went_in :
          (m : Map String InstanceRecord) (p : String) (r t u : InstanceRecord)
          → ((x : InstanceRecord) → Map.lookup q m ≡ some x → x.generation ≡ g)
          → Map.lookup p m ≡ some r
          → t.generation ≡ r.generation
          → (p == q) ≡ true
          → t ≡ u
          → u.generation ≡ g
      went_in m p r t u at found generations hit it =
          subst (λ x. x.generation ≡ g) it
            (generations
              ∙ at r (subst (λ k. Map.lookup k m ≡ some r) ((string_key.same_iff p q).0 hit) found))

  at_generation : Steady (AtGeneration q g)
  at_generation = record {
    same = λ m n p r t at found states generations. replaced_at m n p r t at found generations;
  }

  logged_callback :
      (s : Rack) (c : Callback)
      → (logged c s.leases (owner c) (instance_of (owner c) s.instances)).callback ≡ c
  logged_callback s c = of (owner c) (instance_of (owner c) s.instances)
    where
      of : (o : Option String) (r : Option InstanceRecord) → (logged c s.leases o r).callback ≡ c
      of none r = refl
      of (some p) none = refl
      of (some p) (some r) = refl

  -- A callback that is no `stop`, or is one that is in order.
  run_Sure :
      (s : Rack) (c : Callback)
      → quiet_stop (logged c s.leases (owner c) (instance_of (owner c) s.instances)) ≡ true
      → Sure s
      → Sure (run_in_callback code s c).0
  run_Sure s c fit (quiet, at) =
      (rw (run_entered s c, fit) quiet, run_in_callback-Holds at_generation code s c at)

  other_Sure :
      (s : Rack) (c : Callback)
      → ((e : Entered) → e.callback ≡ c → quiet_stop e ≡ true)
      → Sure s
      → Sure (run_in_callback code s c).0
  other_Sure s c no_stop sure =
      run_Sure s c
        (no_stop (logged c s.leases (owner c) (instance_of (owner c) s.instances))
          (logged_callback s c))
        sure

  -- `destroy` at the end is no `stop`.
  destroy_record_quiet : (s : Rack) → Sure s → stops_quietly (destroy_record code s q) ≡ true
  unfolding destroy_record drop_deferred_unload
  destroy_record_quiet s sure = (other_Sure s (destroys q) (λ e is. rw is refl) sure).0

  stop_fits :
      (leases : _) (o : Option InstanceRecord)
      → ((r : InstanceRecord) → o ≡ some r → r.generation ≡ g)
      → has_outstanding_for leases q g ≡ false
      → ltb 0 (calls_of o) ≡ false
      → quiet_stop (logged (stops q) leases (some q) o) ≡ true
  stop_fits leases none at lent calls = refl
  stop_fits leases (some r) at lent calls = rw (at r refl, lent) (ground arith)

  stopped_quiet : (d : Rack × Bool) → Sure d.0 → stops_quietly (stopped code q d).0 ≡ true
  stopped_quiet (s, true) (quiet, at) = rw (modify_entered _ q s) quiet
  stopped_quiet (s, false) sure = destroy_record_quiet (let_go q s) sure

  asked_back_quiet :
      (s : Rack) (lent : Bool)
      → has_outstanding_for s.leases q g ≡ lent
      → Sure s
      → stops_quietly (asked_back code q s lent).0 ≡ true
  asked_back_quiet s true some_lent (quiet, at) = rw (modify_entered _ q s) quiet
  asked_back_quiet s false none_lent (quiet, at) =
      elim (Bool-cases (ltb 0 (calls_of (Map.lookup q s.instances)))) [
        | inl calls ↦ rw (calls, asked_back) quiet
        | inr idle ↦
            rw (idle, asked_back)
              (stopped_quiet (run_in_callback code s (stops q)) (
                run_Sure s (stops q)
                  (stop_fits s.leases (Map.lookup q s.instances) at none_lent idle) (quiet, at)))
      ]

  withdrawn-Sure : (s : Rack) (e : Option CapEntry) → Sure s → Sure (withdrawn code s q e)
  withdrawn-Sure s none sure = sure
  withdrawn-Sure s (some e) sure = other_Sure _ (notices q) (λ e is. rw is refl) sure

  take_back_quiet : (s : Rack) → Sure s → stops_quietly (take_back code q g s).0 ≡ true
  unfolding take_back withdraw_caps
  take_back_quiet s sure = asked_back_quiet _ _ refl (
      other_Sure _ (revokes q _) (λ e is. rw is refl)
        (withdrawn-Sure s (withdrawable s.table q g) sure))

  revoking_Sure :
      (s : Rack) (r : InstanceRecord)
      → Map.lookup q s.instances ≡ some r
      → Sure s
      → Sure (set_state revoking q s)
  unfolding modify
  revoking_Sure s r found (quiet, at) =
      rw (found, modify)
        (
          quiet,
          replaced_at s.instances s.next_generation q r (record r { state = revoking }) at found
              refl,
        )

  unload_from_quiet :
      (s : Rack) (r : InstanceRecord) (state : InstanceState)
      → Map.lookup q s.instances ≡ some r
      → Sure s
      → stops_quietly (unload_from code q s state g).0 ≡ true
  unload_from_quiet s r faulted found sure = sure.0
  unload_from_quiet s r created found sure = destroy_record_quiet s sure
  unload_from_quiet s r initialized found sure = take_back_quiet _ (revoking_Sure s r found sure)
  unload_from_quiet s r active found sure = take_back_quiet _ (revoking_Sure s r found sure)
  unload_from_quiet s r revoking found sure = take_back_quiet _ (revoking_Sure s r found sure)

-- If every `stop` so far was called with no lease on the generation of its plugin outstanding and no
-- call on the plugin in flight, then the protocol calls `stop` in no other case, whatever the code
-- of the plugins does meanwhile.
pub run_unload_protocol_quiet :
    (code : Code) (s : Rack) (q : String)
    → stops_quietly s ≡ true
    → stops_quietly (run_unload_protocol code s q).0 ≡ true
unfolding run_unload_protocol drop_deferred_unload
run_unload_protocol_quiet code s q quiet = elim (Option-cases (Map.lookup q s.instances)) [
  | inl missing ↦ rw (missing, run_unload_protocol, drop_deferred_unload) quiet
  | inr (r, found) ↦
      rw (found, run_unload_protocol, drop_deferred_unload)
        (unload_from_quiet code q r.generation (drop_deferred_unload q s) r r.state found
          (quiet, itself r found))
]
  where
    itself :
        (r : InstanceRecord)
        → Map.lookup q s.instances ≡ some r
        → AtGeneration q r.generation s.instances s.next_generation
    itself r found u seen = its_generation u r (cc)
      where
        its_generation : (u r : InstanceRecord) → u ≡ r → u.generation ≡ r.generation
        its_generation u r same = ap (λ x. x.generation) same
