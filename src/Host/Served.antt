-- ===== src/Host/Served.antt =====
-- ts/src/core/host.ts: the entry points of the rack keep a predicate that follows the rule, so that
-- it holds after every list of requests.
use u.Base.{
  ℕ, ◌≡◌, refl, subst, ◌⊎◌, ◌+◌, String, true, not, Option, none, some, List, [], ◌∷◌, ◌++◌,
  string_key, All, Result, ok, err, RackStatus, busy, >>=-eq-ok, guard->>, arith, Option-cases, inl,
  inr,
}
use u.Base.Map
use u.Base.Map.{Map}
use u.Events.{Budget}
use u.Host.{
  InstanceRecord, RackPlugin, Rack, Code, drop_deferred_unload, queue_deferred_unload,
  create_record, normalize_descriptor, or_else, max, is_some, fresh, PluginDescriptor,
}
use u.Host.Batch.{pending, and_batch, Done, materialize, start_pending, drained}
use u.Host.Unload.{
  run_unload_protocol, unload, requeued, unload_queued, unload_all_queued, poll, unload_each,
  shutdown, reverse_plan,
}
use u.Host.Entry.{
  Loaded, Discovery, unreadable, file, assert_entry_open, when_open, add, load_record, start,
  then_start, load, then_load, reload_from, reload_record, reload, discover_all, booted, boot,
  Request, recorded, serve_all, adds, starts_all, boots, loads, reloads, unloads, polls, shuts_down,
  elapses, serve,
}
use u.Host.Rule.{perform_all-Holds, Rule, Holds}
use u.Host.Taken.{unload_from-Holds}
use u.Host.Steps.{discard_all-Holds, drained-Holds, start_batch-Holds}

-- What a call of `create_record` that returns has done.
create_record-eq-ok :
    (s : Rack) (plugin : RackPlugin) (path : Option String) (g : Option ℕ) {t : Rack} {p : String}
    → create_record s plugin path g ≡ ok (t, p)
    → (desc : PluginDescriptor) × (Map.lookup desc.plug_id s.instances ≡ none)
      × (t.instances
          ≡ Map.insert desc.plug_id
              (fresh plugin desc path (or_else g (s.next_generation + 1)))
              s.instances)
      × (t.next_generation ≡ max s.next_generation (or_else g (s.next_generation + 1)))
      × (p ≡ desc.plug_id)
unfolding create_record
create_record-eq-ok s plugin path g returned =
    let (desc, read, rest) = >>=-eq-ok (normalize_descriptor plugin.desc) _ returned in
    let (new, last) = guard->> (not (is_some (Map.lookup desc.plug_id s.instances))) _ _ rest in
    (desc, absent _ new, cc, cc, cc)
  where
    absent : (o : Option InstanceRecord) → not (is_some o) ≡ true → o ≡ none
    absent none h = refl
    absent (some r) h = absurd (cc)

made-cases :
    (r : Result (Rack × String))
    → ((e : RackStatus) × (r ≡ err e)) ⊎ ((t : Rack) × (p : String) × (r ≡ ok (t, p)))
made-cases (err e) = inl (e, refl)
made-cases (ok (t, p)) = inr (t, p, refl)

module _ {P : Map String InstanceRecord → ℕ → Type 0} {Q : String → Type 0} (rule : Rule P Q)
    (code : Code) where
  abbrev H : Rack → Type 0
  H s = Holds P s

  append-All : (ps : List String) (p : String) → All Q ps → Q p → All Q (ps ++ p ∷ [])
  append-All [] p all may = (may, tt)
  append-All (q ∷ ps) p (first, all) may = (first, append-All ps p all may)

  -- A record that is made under the next generation, and that the host may take out again.
  create_record-Holds :
      (s : Rack) (n : ℕ) (plugin : RackPlugin) (path : Option String) (g : Option ℕ) {t : Rack}
      {p : String}
      → P s.instances n
      → or_else g (s.next_generation + 1) ≡ n + 1
      → max s.next_generation (or_else g (s.next_generation + 1)) ≡ n + 1
      → create_record s plugin path g ≡ ok (t, p)
      → H t × Q p
  create_record-Holds s n plugin path g h this most returned =
      let (desc, new, m, last, id) = create_record-eq-ok s plugin path g returned in
      (
        rw (m, last, most)
            (rule.make s.instances n desc.plug_id
              (fresh plugin desc path (or_else g (s.next_generation + 1))) h new this),
        rw id (rule.unknown s.instances n desc.plug_id h new),
      )

  materialize-Holds :
      (made : List String) (s : Rack) (fs : List (Option RackPlugin))
      → All Q made
      → H s
      → H (materialize code s made fs).0
  unfolding materialize
  materialize-Holds made s [] all h = h
  materialize-Holds made s (none ∷ fs) all h = discard_all-Holds rule.changes code s made all h
  materialize-Holds made s (some plugin ∷ fs) all h =
      elim (made-cases (create_record s plugin none none)) [
        | inl (e, failing) ↦
            rw (failing, materialize) (discard_all-Holds rule.changes code s made all h)
        | inr (t, p, good) ↦
            let (kept, may) =
              create_record-Holds s s.next_generation plugin none none h refl (ground arith) good in
            rw (good, materialize)
              (materialize-Holds (made ++ p ∷ []) t fs (append-All made p all may) kept)
      ]

  and_batch-Holds : (budget : Budget) (d : Done) → H d.0 → H (and_batch code budget d).0
  and_batch-Holds budget (s, err e) h = h
  and_batch-Holds budget (s, ok v) h =
      start_batch-Holds rule.changes code budget s (pending s.instances)
        (rule.waiting _ s.next_generation h) h

  start-Holds : (budget : Budget) (s : Rack) → H s → H (start code budget s).0
  unfolding start start_pending assert_entry_open
  start-Holds budget s h = ground (
    arith,
    and_batch-Holds budget
        (materialize code (record s { staged_factories = [] }) [] s.staged_factories)
        (materialize-Holds [] (record s { staged_factories = [] }) s.staged_factories tt h),
  )

  run_unload_protocol-Holds : (s : Rack) (q : String) → H s → H (run_unload_protocol code s q).0
  unfolding run_unload_protocol drop_deferred_unload
  run_unload_protocol-Holds s q h = elim (Option-cases (Map.lookup q s.instances)) [
    | inl missing ↦ rw (missing, run_unload_protocol, drop_deferred_unload) h
    | inr (r, found) ↦
        rw (found, run_unload_protocol, drop_deferred_unload)
          (unload_from-Holds rule.changes code q (drop_deferred_unload q s) r.state r.generation
            (rule.known s.instances s.next_generation q r h found) h)
  ]

  unload-Holds : (s : Rack) (q : String) → H s → H (unload code s q).0
  unfolding unload queue_deferred_unload
  unload-Holds s q h = ground (arith, run_unload_protocol-Holds s q h)

  requeued-Holds : (q : String) (d : Done) → H d.0 → H (requeued q d)
  unfolding queue_deferred_unload drop_deferred_unload
  requeued-Holds q (s, ok v) h = h
  requeued-Holds q (s, err e) h = elim e as (λ k. H (requeued q (s, err k))) [
    | busy ↦ ground arith
    | _ ↦ h
  ]

  unload_queued-Holds : (s : Rack) (q : String) → H s → H (unload_queued code s q)
  unfolding unload_queued drop_deferred_unload
  unload_queued-Holds s q h =
      ground
        (arith, requeued-Holds q (run_unload_protocol code s q) (run_unload_protocol-Holds s q h))

  unload_all_queued-Holds : (s : Rack) (ps : List String) → H s → H (unload_all_queued code s ps)
  unfolding unload_all_queued
  unload_all_queued-Holds s [] h = h
  unload_all_queued-Holds s (q ∷ ps) h =
      unload_all_queued-Holds (unload_queued code s q) ps (unload_queued-Holds s q h)

  poll-Holds : (budget : Budget) (s : Rack) → H s → H (poll code budget s).0
  unfolding poll
  poll-Holds budget s h =
      let t = drained code budget s in
      let u = unload_all_queued code t t.deferred_unloads in
      ground (
        arith,
        drained-Holds rule.changes code budget u (
            unload_all_queued-Holds t t.deferred_unloads
              (drained-Holds rule.changes code budget s h)),
      )

  unload_each-Holds : (s : Rack) (ps : List String) → H s → H (unload_each code s ps)
  unfolding unload_each
  unload_each-Holds s [] h = h
  unload_each-Holds s (q ∷ ps) h =
      unload_each-Holds (run_unload_protocol code s q).0 ps (run_unload_protocol-Holds s q h)

  shutdown-Holds : (s : Rack) → H s → H (shutdown code s).0
  unfolding shutdown
  shutdown-Holds s h = ground (
    arith,
    unload_each-Holds (record s { shutting_down = true; deferred_unloads = [] }) (reverse_plan s) h,
  )

  -- What a load leaves, and of what it makes.
  abbrev Loads : Rack × Result String → Type 0
  Loads (t, r) = H t × ((p : String) → r ≡ ok p → Q p)

  recorded-Loads :
      (s : Rack) (r : Result (Rack × String))
      → ((t : Rack) (p : String) → r ≡ ok (t, p) → H t × Q p)
      → H s
      → Loads (recorded s r)
  recorded-Loads s (err e) made h = (h, λ p bad. absurd (cc))
  recorded-Loads s (ok (t, p)) made h =
      let (kept, may) = made t p refl in (kept, λ q same. subst Q (same_id p q same) may)
    where
      same_id : (p q : String) → (ok p) ≡ (ok q) → p ≡ q
      same_id p q e = cc

  load_record-Loads :
      (s : Rack) (path : String) (loaded : Loaded) → H s → Loads (load_record s path loaded)
  unfolding load_record
  load_record-Loads s path (err e) h = (h, λ p bad. absurd (cc))
  load_record-Loads s path (ok none) h =
      (rule.skip s.instances s.next_generation h, λ p bad. absurd (cc))
  load_record-Loads s path (ok (some plugin)) h =
      let u = record s { next_generation = s.next_generation + 1 } in
      recorded-Loads u (create_record u plugin (some path) (some u.next_generation))
        (λ t p good.
          create_record-Holds u s.next_generation plugin (some path) (some u.next_generation) h refl
            (ground arith) good)
        (rule.skip s.instances s.next_generation h)

  then_start-Holds :
      (budget : Budget) (d : Rack × Result String) → H d.0 → H (then_start code budget d).0
  then_start-Holds budget (s, err e) h = h
  then_start-Holds budget (s, ok p) h = start-Holds budget s h

  then_load-Holds :
      (budget : Budget) (path : String) (loaded : Loaded) (d : Done)
      → H d.0
      → H (then_load code budget path loaded d).0
  then_load-Holds budget path loaded (s, err e) h = h
  then_load-Holds budget path loaded (s, ok v) h =
      then_start-Holds budget (load_record s path loaded) (load_record-Loads s path loaded h).0

  reload_record-Holds :
      (budget : Budget) (s : Rack) (q : String) (loaded : Loaded) (r : Option InstanceRecord)
      → H s
      → H (reload_record code budget s q loaded r).0
  reload_record-Holds budget s q loaded none h = h
  reload_record-Holds budget s q loaded (some r) h = by_path r.source_path
    where
      by_path : (path : Option String) → H (reload_from code budget s q loaded path).0
      by_path none = h
      by_path (some path) =
          then_load-Holds budget path loaded (run_unload_protocol code s q)
            (run_unload_protocol-Holds s q h)

  discovered-cases :
      (d : Rack × Result String)
      → ((e : RackStatus) × (d.1 ≡ err e)) ⊎ ((p : String) × (d.1 ≡ ok p))
  discovered-cases (t, err e) = inl (e, refl)
  discovered-cases (t, ok p) = inr (p, refl)

  discover_all-Holds :
      (budget : Budget) (made : List String) (s : Rack) (ds : List Discovery)
      → All Q made
      → H s
      → H (discover_all code budget s made ds).0
  unfolding discover_all
  discover_all-Holds budget made s [] all h = h
  discover_all-Holds budget made s (unreadable e ∷ ds) all h =
      discard_all-Holds rule.changes code s made all h
  discover_all-Holds budget made s (file path loaded ∷ ds) all h =
      let (kept, may) = load_record-Loads s path loaded h in
      elim (discovered-cases (load_record s path loaded)) [
        | inl (e, failing) ↦
            rw (failing, discover_all) (discard_all-Holds rule.changes code _ made all kept)
        | inr (p, good) ↦
            rw (good, discover_all)
              (discover_all-Holds budget (made ++ p ∷ []) (load_record s path loaded).0 ds
                (append-All made p all (may p good)) kept)
      ]

  booted-Holds : (budget : Budget) (d : Done) → H d.0 → H (booted code budget d).0
  booted-Holds budget (s, err e) h = h
  booted-Holds budget (s, ok v) h = start-Holds budget s h

  when_open-Holds :
      (s : Rack) (body : Done) (allowed : Result (Unit {0}))
      → H s
      → H body.0
      → H (when_open s body allowed).0
  when_open-Holds s body (err e) h b = h
  when_open-Holds s body (ok v) h b = b

  serve-Holds : (budget : Budget) (s : Rack) (r : Request) → H s → H (serve code budget s r).0
  unfolding serve add load reload boot
  serve-Holds budget s (adds create) h = when_open-Holds s _ _ h h
  serve-Holds budget s starts_all h = start-Holds budget s h
  serve-Holds budget s (boots found) h = when_open-Holds s _ _ h (
      booted-Holds budget (discover_all code budget s [] found)
        (discover_all-Holds budget [] s found tt h))
  serve-Holds budget s (loads path loaded) h =
      when_open-Holds s _ _ h
        (then_start-Holds budget (load_record s path loaded) (load_record-Loads s path loaded h).0)
  serve-Holds budget s (reloads q loaded) h =
      when_open-Holds s _ _ h (reload_record-Holds budget s q loaded (Map.lookup q s.instances) h)
  serve-Holds budget s (unloads q) h = unload-Holds s q h
  serve-Holds budget s polls h = poll-Holds budget s h
  serve-Holds budget s shuts_down h = shutdown-Holds s h
  serve-Holds budget s (elapses actions) h = perform_all-Holds rule.changes.steady s actions h

  pub serve_all-Holds :
      (budget : Budget) (s : Rack) (rs : List Request) → H s → H (serve_all code budget s rs)
  unfolding serve_all
  serve_all-Holds budget s [] h = h
  serve_all-Holds budget s (r ∷ rs) h =
      serve_all-Holds budget (serve code budget s r).0 rs (serve-Holds budget s r h)
