-- ===== src/Registry/Change.antt =====
-- Registrations and withdrawals keep the watchers in step with the table.
use u.Base.{
  ℕ, ◌≡◌, sym, ap, subst, ◌∙◌, String, true, some, List, [], ◌∷◌, ◌++◌, nat_key, string_key,
  if◌then◌else◌, ◌==◌, includes, Unique, ok, >>=-eq-ok, Bool-cases, Option-cases, inl, inr, arith,
}
use u.Base.Map
use u.Base.Map.{Map, Distinct, lookup-insert, lookup-remove, insert-Distinct, remove-Distinct}
use u.Json.{Document}
use u.Capability.{CapEntry, CapEvent}
use u.Registry.{
  notifying, Registry, available_event, withdrawn_event, register_entry, stored_in, register,
  withdrawable, withdrawn_from, withdraw,
}
use u.Registry.View.{
  learn, learn_all, table_view, known, learn_all-ext, Keyed, insert-view, remove-view, insert-Keyed,
  remove-Keyed, lookup-Keyed,
}
use u.Registry.Sync.{arriving, pending, IsSynced}

-- A change of the table, told to all.
changed-IsSynced :
    (s : Registry) (log : List (ℕ × CapEvent)) (m : Map String CapEntry) (e : CapEvent)
    → s.frames ≡ []
    → Keyed m
    → Distinct m
    → ((p : String) → table_view m p ≡ learn e (table_view s.table) p)
    → IsSynced s log
    → IsSynced (record s { table = m; frames = notifying s.watchers e ∷ s.frames }) log
changed-IsSynced s log m e idle keyed distinct change inv = record {
  keyed = keyed;
  distinct = distinct;
  unheard = inv.unheard;
  below = inv.below;
  unique = inv.unique;
  frames_ok =
      ((subst Unique all_joined inv.unique, λ k h. inv.below k (joined k h)), inv.frames_ok);
  synced = λ w p h active.
      let told : includes s.watchers w ≡ true = ap (λ l. includes l w) (sym all_joined) ∙ h in
      let none_pending = ap (λ f. pending f w) idle in
      let before : (q : String) → known w log q ≡ table_view s.table q =
        λ q. sym (ap (λ l. learn_all l (known w log) q) none_pending) ∙ inv.synced w q h active in
      ap (λ b. learn_all (if b then e ∷ pending s.frames w else pending s.frames w) (known w log) p)
        told
      ∙ ap (λ l. learn_all l (learn e (known w log)) p) none_pending
      ∙ learn_all-ext (e ∷ []) (known w log) (table_view s.table) before p
      ∙ sym (change p);
}
  where
    all_joined : arriving s.frames ++ s.watchers ≡ s.watchers
    all_joined = ap (λ f. arriving f ++ s.watchers) idle

    joined :
        (k : ℕ) → includes s.watchers k ≡ true → includes (arriving s.frames ++ s.watchers) k ≡ true
    joined k h = ap (λ l. includes l k) all_joined ∙ h

pub register-IsSynced :
    (s t : Registry) (log : List (ℕ × CapEvent)) (entry : Document)
    → s.frames ≡ []
    → register s entry ≡ ok t
    → IsSynced s log
    → IsSynced t log
unfolding register register_entry
register-IsSynced s t log entry idle h inv =
    let (e, kept, h1) = >>=-eq-ok (register_entry s.table entry) _ h in
    let same : stored_in s e ≡ t = ground arith in
    subst (λ x. IsSynced x log) same
      (changed-IsSynced s log (Map.insert e.plug_id e s.table) (available_event e) idle
        (insert-Keyed e s.table inv.keyed) (insert-Distinct e.plug_id e s.table inv.distinct)
        (insert-view e s.table) inv)

pub withdrawable-found :
    (m : Map String CapEntry) (plug_id : String) (generation : ℕ) (e : CapEntry)
    → withdrawable m plug_id generation ≡ some e
    → (Map.lookup plug_id m ≡ some e) × (e.generation ≡ generation)
unfolding withdrawable
withdrawable-found m plug_id generation e h = elim (Option-cases (Map.lookup plug_id m)) [
  | inl free ↦ absurd (ground arith)
  | inr (f, found) ↦ elim (Bool-cases (f.generation == generation)) [
    | inl hit ↦
        let same : f ≡ e = ground arith in
        (
          found ∙ ap some same,
          ap (λ (x : CapEntry). x.generation) (sym same)
              ∙ (nat_key.same_iff f.generation generation).0 hit,
        )
    | inr miss ↦ absurd (ground arith)
  ]
]

pub withdraw-IsSynced :
    (s : Registry) (log : List (ℕ × CapEvent)) (plug_id : String) (generation : ℕ)
    → s.frames ≡ []
    → IsSynced s log
    → IsSynced (withdraw s plug_id generation) log
unfolding withdraw
withdraw-IsSynced s log plug_id generation idle inv =
    elim (Option-cases (withdrawable s.table plug_id generation)) [
      | inl none_ ↦ subst (λ o. IsSynced (withdrawn_from s plug_id o) log) (sym none_) inv
      | inr (e, h) ↦
          let (found, on) = withdrawable-found s.table plug_id generation e h in
          subst (λ o. IsSynced (withdrawn_from s plug_id o) log) (sym h)
            (changed-IsSynced s log (Map.remove plug_id s.table) (withdrawn_event e) idle
              (remove-Keyed plug_id s.table inv.keyed)
              (remove-Distinct plug_id s.table inv.distinct)
              (λ p.
                remove-view e plug_id s.table p (lookup-Keyed plug_id e s.table inv.keyed found))
              inv)
    ]
