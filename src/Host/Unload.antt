-- ===== src/Host/Unload.antt =====
-- ts/src/core/host.ts: the protocol that takes one instance out, and the queue of requests for it.
use u.Base.{
  ℕ, String, Bool, true, false, not, Option, none, some, List, [], ◌∷◌, nat_key, string_key, ltb,
  includes, if◌then◌else◌, ok, err, not_found, busy, failed, invalid_state,
}
use u.Base.Map
use u.Base.Map.{Map}
use u.Lease.{pending_for, has_outstanding_for}
use u.Events.{Budget}
use u.Order.{sort_by}
use u.Host.{
  InstanceState, created, revoking, faulted, InstanceRecord, stops, revokes, Rack, Code, set_state,
  run_in_callback, drop_deferred_unload, queue_deferred_unload, is_some,
}
use u.Host.Batch.{Done, destroy_record, withdraw_caps, let_go, drained}

-- The record that the host holds on to, as it is now.
abbrev pub calls_of : Option InstanceRecord → ℕ
calls_of none = 0
calls_of (some r) = r.in_flight

abbrev pub requeued : String → Done → Rack
requeued plug_id (s, ok v) = s
requeued plug_id (s, err busy) = queue_deferred_unload plug_id s
requeued plug_id (s, err e) = drop_deferred_unload plug_id s

-- -1 is below every ordinal.
abbrev pub ordinal_less : Option ℕ → Option ℕ → Bool
ordinal_less none none = false
ordinal_less none (some j) = true
ordinal_less (some i) none = false
ordinal_less (some i) (some j) = ltb i j

abbrev pub plan_before : InstanceRecord → InstanceRecord → Bool
plan_before r q = ordinal_less r.plan_ordinal q.plan_ordinal

abbrev pub records : Map String InstanceRecord → List InstanceRecord
records [] = []
records ((p, r) ∷ m) = r ∷ records m

abbrev pub ids : List InstanceRecord → List String
ids [] = []
ids (r ∷ rs) = r.desc.plug_id ∷ ids rs

unfoldable pub reverse_plan : Rack → List String
reverse_plan s = ids (sort_by (λ r q. plan_before q r) (records s.instances))

module _ (code : Code) where
  -- `stop` has returned or thrown.
  abbrev pub stopped : String → Rack × Bool → Done
  stopped plug_id (s, true) = (set_state faulted plug_id s, err failed)
  stopped plug_id (s, false) = (destroy_record code (let_go plug_id s) plug_id, ok tt)

  -- The leases are asked back: some are still lent, or none.
  abbrev pub asked_back : String → Rack → Bool → Done
  asked_back plug_id s true = (set_state faulted plug_id s, err failed)
  asked_back plug_id s false =
      if ltb 0 (calls_of (Map.lookup plug_id s.instances))
      then (s, err busy)
      else stopped plug_id (run_in_callback code s (stops plug_id))

  unfoldable pub take_back : String → ℕ → Rack → Done
  take_back plug_id generation s =
      let t = withdraw_caps code s plug_id generation in
      let v =
        (run_in_callback code t
          (revokes plug_id (pending_for plug_id generation t.leases.records))).0 in
      asked_back plug_id v (has_outstanding_for v.leases plug_id generation)

  abbrev pub unload_from : String → Rack → InstanceState → ℕ → Done
  unload_from plug_id s faulted generation = (s, err invalid_state)
  unload_from plug_id s created generation = (destroy_record code s plug_id, ok tt)
  unload_from plug_id s _ generation = take_back plug_id generation (set_state revoking plug_id s)

  abbrev pub unload_record : String → Rack → Option InstanceRecord → Done
  unload_record plug_id s none = (s, err not_found)
  unload_record plug_id s (some r) = unload_from plug_id s r.state r.generation

  unfoldable pub run_unload_protocol : Rack → String → Done
  run_unload_protocol s plug_id =
      let t = drop_deferred_unload plug_id s in
      unload_record plug_id t (Map.lookup plug_id t.instances)

  unfoldable pub unload : Rack → String → Done
  unload s plug_id =
      if s.shutting_down
      then (s, err invalid_state)
      else if not (is_some (Map.lookup plug_id s.instances))
      then (s, err not_found)
      else if ltb 0 s.callback_depth
      then (queue_deferred_unload plug_id s, ok tt)
      else run_unload_protocol s plug_id

  -- One round of the loop of `poll`.
  unfoldable pub unload_queued : Rack → String → Rack
  unload_queued s plug_id =
      if not (includes s.deferred_unloads plug_id)
      then s
      else if not (is_some (Map.lookup plug_id s.instances))
      then drop_deferred_unload plug_id s
      else requeued plug_id (run_unload_protocol s plug_id)

  unfoldable pub unload_all_queued : Rack → List String → Rack
  unload_all_queued s [] = s
  unload_all_queued s (p ∷ ps) = unload_all_queued (unload_queued s p) ps

  unfoldable pub poll : Budget → Rack → Done
  poll budget s =
      if ltb 0 s.callback_depth
      then (s, err busy)
      else (let t = drained code budget s in
          (drained code budget (unload_all_queued t t.deferred_unloads), ok tt))

  -- The failures are reported and the loop goes on.
  unfoldable pub unload_each : Rack → List String → Rack
  unload_each s [] = s
  unload_each s (p ∷ ps) = unload_each (run_unload_protocol s p).0 ps

  unfoldable pub shutdown : Rack → Done
  shutdown s =
      if s.shutting_down then (s, ok tt) else if ltb 0 s.callback_depth then (s, err busy) else (
        unload_each (record s { shutting_down = true; deferred_unloads = [] }) (reverse_plan s),
        ok tt,
      )
