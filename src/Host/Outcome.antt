-- ===== src/Host/Outcome.antt =====
-- ts/src/core/host.ts: what the protocol of an unload leaves where it is run, and a load that
-- fails.
use u.Base.{
  ℕ, ◌≡◌, refl, sym, subst, ap, ◌∙◌, ◌+◌, String, Bool, true, false, not, Option, none, some, List,
  [], ◌∷◌, string_key, ltb, ◌==◌, if◌then◌else◌, Result, ok, err, failed, arith, Bool-cases,
  Option-cases, inl, inr,
}
use u.Base.Map
use u.Base.Map.{lookup-insert, lookup-remove}
use u.Events.{Budget}
use u.Host.{
  InstanceState, created, initialized, active, revoking, faulted, InstanceRecord, RackPlugin, stops,
  Rack, Code, run_in_callback, drop_deferred_unload, normalize_descriptor, fresh, PluginDescriptor,
  create_record,
}
use u.Host.Batch.{Done, destroy_record, discard_all, let_go, start_pending, materialize}
use u.Host.Unload.{
  stopped, asked_back, take_back, unload_from, unload_record, run_unload_protocol, calls_of,
}
use u.Host.Entry.{assert_entry_open, load, load_record, start}

module _ (code : Code) (q : String) where
  -- The instance is gone where the result is that of a call which returned.
  abbrev Gone : Done → Type 0
  Gone d = d.1 ≡ ok tt → Map.lookup q d.0.instances ≡ none

  pub destroy_record-gone : (s : Rack) → Map.lookup q (destroy_record code s q).instances ≡ none
  unfolding destroy_record drop_deferred_unload
  destroy_record-gone s = rw (lookup-remove, (string_key.same_iff q q).1 refl) refl

  stopped-Gone : (d : Rack × Bool) → Gone (stopped code q d)
  stopped-Gone (s, true) bad = absurd (cc)
  stopped-Gone (s, false) good = destroy_record-gone (let_go q s)

  asked_back-Gone : (s : Rack) (lent : Bool) → Gone (asked_back code q s lent)
  asked_back-Gone s true bad = absurd (cc)
  asked_back-Gone s false good = of_calls (ltb 0 (calls_of (Map.lookup q s.instances))) good
    where
      of_calls :
          (b : Bool)
          → Gone (
              if b then (s, err u.Base.busy) else stopped code q (run_in_callback code s (stops q)))
      of_calls true bad = absurd (cc)
      of_calls false good = stopped-Gone (run_in_callback code s (stops q)) good

  unload_from-Gone :
      (s : Rack) (state : InstanceState) (g : ℕ) → Gone (unload_from code q s state g)
  unfolding take_back
  unload_from-Gone s faulted g bad = absurd (cc)
  unload_from-Gone s created g good = destroy_record-gone s
  unload_from-Gone s initialized g good = asked_back-Gone _ _ good
  unload_from-Gone s active g good = asked_back-Gone _ _ good
  unload_from-Gone s revoking g good = asked_back-Gone _ _ good

  unload_record-Gone : (s : Rack) (r : Option InstanceRecord) → Gone (unload_record code q s r)
  unload_record-Gone s none bad = absurd (cc)
  unload_record-Gone s (some r) good = unload_from-Gone s r.state r.generation good

-- Where the protocol returns ok, the instance is gone from the table.
pub run_unload_protocol-gone :
    (code : Code) (s : Rack) (q : String)
    → (run_unload_protocol code s q).1 ≡ ok tt
    → Map.lookup q (run_unload_protocol code s q).0.instances ≡ none
unfolding run_unload_protocol
run_unload_protocol-gone code s q good =
    let t = drop_deferred_unload q s in unload_record-Gone code q t (Map.lookup q t.instances) good

-- A load of a new plugin, on an open rack whose first staged factory throws, fails, and leaves the
-- record that it made in the table, `created`.
pub load_left_behind :
    (code : Code) (budget : Budget) (s : Rack) (path : String) (plugin : RackPlugin)
    (desc : PluginDescriptor) (fs : List (Option RackPlugin))
    → s.shutting_down ≡ false
    → ltb 0 s.callback_depth ≡ false
    → normalize_descriptor plugin.desc ≡ ok desc
    → Map.lookup desc.plug_id s.instances ≡ none
    → let (t, result) =
        load code budget (record s { staged_factories = none ∷ fs }) path (ok (some plugin)) in
      (result ≡ err failed)
      × (Map.lookup desc.plug_id t.instances
          ≡ some (fresh plugin desc (some path) (s.next_generation + 1)))
unfolding load load_record start start_pending assert_entry_open create_record materialize
    discard_all
load_left_behind code budget s path plugin desc fs up idle read new =
    rw
      (
        up,
        idle,
        read,
        new,
        start,
        assert_entry_open,
        idle,
        lookup-insert,
        (string_key.same_iff desc.plug_id desc.plug_id).1 refl,
      )
      (refl, refl)
