-- ===== src/Registry/Reentry.antt =====
-- A sink that changes the registry from within a delivery: the change overtakes the fact.
use u.Base.{
  ℕ, zero, suc, ◌≡◌, refl, ap, ◌∙◌, subst, String, true, none, some, List, [], ◌∷◌, nat_key,
  string_key, ok, >>=-eq-ok, arith,
}
use u.Base.Map
use u.Base.Map.{Map, lookup-insert, lookup-remove}
use u.Json.{Document}
use u.Capability.{CapEntry, CapEvent}
use u.Registry.{
  WatchRecord, Registry, available_event, withdrawn_event, register_entry, stored_in, register,
  withdrawable, withdraw, is_active, advance,
}
use u.Registry.View.{known}
use u.Registry.Sync.{heard}

-- The rounds of the loops, from the top frame on.
abbrev pub deliver_rounds : ℕ → Registry → List (ℕ × CapEvent) → Registry × List (ℕ × CapEvent)
deliver_rounds zero s log = (s, log)
deliver_rounds (suc n) s log = deliver_rounds n (advance s).0 (heard (advance s).1 log)

-- A sink that is told of a plugin withdraws it, by what it was told.
abbrev pub overtaken : Registry → CapEntry → Registry × List (ℕ × CapEvent)
overtaken s e =
    let first = advance s in
    deliver_rounds 5 (withdraw first.0 e.plug_id e.generation) (heard first.1 [])

abbrev idle_registry : Map String CapEntry → Map ℕ WatchRecord → ℕ → ℕ → ℕ → Registry
idle_registry table records next a b = record {
  table = table;
  records = records;
  watchers = a ∷ b ∷ [];
  next_record = next;
  frames = [];
}

own_entry :
    (table : Map String CapEntry) (e : CapEntry)
    → withdrawable (Map.insert e.plug_id e table) e.plug_id e.generation ≡ some e
unfolding withdrawable
own_entry table e =
    let found : Map.lookup e.plug_id (Map.insert e.plug_id e table) ≡ some e =
      lookup-insert e.plug_id e.plug_id e table
      ∙ rw ((string_key.same_iff e.plug_id e.plug_id).1 refl) refl in
    ground (arith, nat_key.same_iff e.generation e.generation)

overtaken_lem :
    (table : Map String CapEntry) (records : Map ℕ WatchRecord) (next a b : ℕ) (e : CapEntry)
    → is_active (Map.lookup a records) ≡ true
    → is_active (Map.lookup b records) ≡ true
    → overtaken (stored_in (idle_registry table records next a b) e) e ≡ (
      idle_registry (Map.remove e.plug_id (Map.insert e.plug_id e table)) records next a b,
      (b, available_event e)
          ∷ (b, withdrawn_event e)
          ∷ (a, withdrawn_event e)
          ∷ (a, available_event e)
          ∷ [],
    )
unfolding advance withdraw
overtaken_lem table records next a b e active_a active_b =
    rw (own_entry table e, active_a, active_b) refl

-- Of two active watchers, the first withdraws a plugin from within the delivery of its registration:
-- once all is delivered, the plugin is not in the table, and the second watcher has been told last
-- that it is available.
pub withdrawal_overtakes :
    (table : Map String CapEntry) (records : Map ℕ WatchRecord) (next a b : ℕ) (entry : Document)
    (t : Registry)
    → is_active (Map.lookup a records) ≡ true
    → is_active (Map.lookup b records) ≡ true
    → register
        (record {
          table = table;
          records = records;
          watchers = a ∷ b ∷ [];
          next_record = next;
          frames = [];
        })
        entry
      ≡ ok t
    → (e : CapEntry) × (Map.lookup e.plug_id t.table ≡ some e)
      × ((overtaken t e).0.frames ≡ [])
      × (Map.lookup e.plug_id (overtaken t e).0.table ≡ none)
      × (known b (overtaken t e).1 e.plug_id ≡ some (e.version, e.caps))
unfolding register advance withdraw
withdrawal_overtakes table records next a b entry t active_a active_b h =
    let s : Registry = idle_registry table records next a b in
    let (e, kept, h1) = >>=-eq-ok (register_entry table entry) _ h in
    let same : stored_in s e ≡ t = ground arith in
    subst
      (λ t.
        (e : CapEntry) × (Map.lookup e.plug_id t.table ≡ some e)
        × ((overtaken t e).0.frames ≡ [])
        × (Map.lookup e.plug_id (overtaken t e).0.table ≡ none)
        × (known b (overtaken t e).1 e.plug_id ≡ some (e.version, e.caps)))
      same
      (
        e,
        lookup-insert e.plug_id e.plug_id e table
            ∙ rw ((string_key.same_iff e.plug_id e.plug_id).1 refl) refl,
        ap (λ (r : Registry × List (ℕ × CapEvent)). r.0.frames) (done e),
        ap (λ (r : Registry × List (ℕ × CapEvent)). Map.lookup e.plug_id r.0.table) (done e)
            ∙ lookup-remove e.plug_id e.plug_id (Map.insert e.plug_id e table)
            ∙ rw ((string_key.same_iff e.plug_id e.plug_id).1 refl) refl,
        ap (λ (r : Registry × List (ℕ × CapEvent)). known b r.1 e.plug_id) (done e)
            ∙ rw ((nat_key.same_iff b b).1 refl, (string_key.same_iff e.plug_id e.plug_id).1 refl)
                refl,
      )
  where
    done :
        (e : CapEntry)
        → overtaken (stored_in (idle_registry table records next a b) e) e ≡ (
          idle_registry (Map.remove e.plug_id (Map.insert e.plug_id e table)) records next a b,
          (b, available_event e)
              ∷ (b, withdrawn_event e)
              ∷ (a, withdrawn_event e)
              ∷ (a, available_event e)
              ∷ [],
        )
    done e = overtaken_lem table records next a b e active_a active_b
