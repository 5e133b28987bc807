-- ===== src/Host/Rule.antt =====
-- ts/src/core/host.ts: what a predicate on the table of the instances and the last generation has to
-- withstand to hold throughout, and that the code which the host awaits keeps such a predicate.
use u.Base.{
  ℕ, ◌≡◌, ◌⊎◌, ◌+◌, String, none, some, List, [], ◌∷◌, string_key, All, arith, Option-cases,
  Bool-cases, Option, ◌-◌, inl, inr,
}
use u.Base.Map
use u.Base.Map.{Map}
use u.Host.{
  faulted, InstanceRecord, Callback, Rack, Code, Action, modify, perform, perform_all,
  run_in_callback, announce, unload_later, queue_deferred_unload, entering, acquires_lease,
  releases_lease, begins_call, ends_call, uses_bus, asks_unload, publishes_caps, invokes, settles,
  count_call, uncount_call, begin_invoke, end_invoke, closed, resolve_provider,
}
use u.Host.Batch.{pending, keys}

pub record Steady (P : Map String InstanceRecord → ℕ → Type 0) : Type 0 where
  pub same :
      (m : Map String InstanceRecord) (n : ℕ) (q : String) (r t : InstanceRecord)
      → P m n
      → Map.lookup q m ≡ some r
      → t.state ≡ r.state
      → t.generation ≡ r.generation
      → P (Map.insert q t m) n

-- `Q` holds of the instances that the host may change or take out; the others it leaves alone.
pub record Changes (P : Map String InstanceRecord → ℕ → Type 0) (Q : String → Type 0) : Type 0 where
  pub steady : Steady P
  pub change :
      (m : Map String InstanceRecord) (n : ℕ) (q : String) (r t : InstanceRecord)
      → P m n
      → Q q
      → Map.lookup q m ≡ some r
      → t.generation ≡ r.generation
      → P (Map.insert q t m) n
  pub gone :
      (m : Map String InstanceRecord) (n : ℕ) (q : String) → P m n → Q q → P (Map.remove q m) n

-- And that holds on where a record is made.
pub record Rule (P : Map String InstanceRecord → ℕ → Type 0) (Q : String → Type 0) : Type 0 where
  pub changes : Changes P Q
  pub skip : (m : Map String InstanceRecord) (n : ℕ) → P m n → P m (n + 1)
  pub make :
      (m : Map String InstanceRecord) (n : ℕ) (q : String) (t : InstanceRecord)
      → P m n
      → Map.lookup q m ≡ none
      → t.generation ≡ n + 1
      → P (Map.insert q t m) (n + 1)
  pub unknown :
      (m : Map String InstanceRecord) (n : ℕ) (q : String) → P m n → Map.lookup q m ≡ none → Q q
  pub waiting : (m : Map String InstanceRecord) (n : ℕ) → P m n → All Q (keys (pending m))
  pub known :
      (m : Map String InstanceRecord) (n : ℕ) (q : String) (r : InstanceRecord)
      → P m n
      → Map.lookup q m ≡ some r
      → (r.state ≡ faulted) ⊎ Q q

abbrev pub Holds : (Map String InstanceRecord → ℕ → Type 0) → Rack → Type 0
Holds P s = P s.instances s.next_generation

module _ {P : Map String InstanceRecord → ℕ → Type 0} (steady : Steady P) where
  pub modify_same :
      (f : InstanceRecord → InstanceRecord) (q : String) (s : Rack)
      → ((r : InstanceRecord) → (f r).state ≡ r.state)
      → ((r : InstanceRecord) → (f r).generation ≡ r.generation)
      → Holds P s
      → Holds P (modify f q s)
  unfolding modify
  modify_same f q s states generations h = elim (Option-cases (Map.lookup q s.instances)) [
    | inl missing ↦ rw (missing, modify) h
    | inr (r, found) ↦
        rw (found, modify)
          (steady.same s.instances s.next_generation q r (f r) h found (states r) (generations r))
  ]

  begin_invoke-Holds :
      (q : String) (g : ℕ) (o : Option InstanceRecord) (s : Rack)
      → Holds P s
      → Holds P (begin_invoke q g o s)
  begin_invoke-Holds q g none s h = h
  begin_invoke-Holds q g (some r) s h = elim (Bool-cases r.has_invoke) [
    | inr without_ ↦ rw without_ h
    | inl with_ ↦ rw with_ (
        modify_same (count_call g) q
          (record s {
            callback_depth = s.callback_depth + 1;
            open_invokes = (q, g) ∷ s.open_invokes;
          })
          (λ r. ground arith) (λ r. ground arith) h)
  ]

  end_invoke-Holds :
      (q : String) (g : ℕ) (o : Option (List (String × ℕ))) (s : Rack)
      → Holds P s
      → Holds P (end_invoke q g o s)
  end_invoke-Holds q g none s h = h
  end_invoke-Holds q g (some rest) s h =
      modify_same (uncount_call g) q
        (record s { callback_depth = s.callback_depth - 1; open_invokes = rest })
        (λ r. ground arith) (λ r. ground arith) h

  perform-Holds : (s : Rack) (a : Action) → Holds P s → Holds P (perform s a)
  unfolding perform unload_later queue_deferred_unload announce
  perform-Holds s (acquires_lease consumer plug_id range revoker) h = h
  perform-Holds s (releases_lease credential consumer) h = h
  perform-Holds s (begins_call credential consumer) h = h
  perform-Holds s (ends_call guard_id) h = h
  perform-Holds s (uses_bus input) h = h
  perform-Holds s (asks_unload plug_id) h = ground arith
  perform-Holds s (publishes_caps plug_id caps) h =
      modify_same (announce caps) plug_id s (λ r. ground arith) (λ r. ground arith) h
  perform-Holds s (invokes plug_id generation) h =
      begin_invoke-Holds plug_id generation (resolve_provider s plug_id generation) s h
  perform-Holds s (settles plug_id generation) h =
      end_invoke-Holds plug_id generation (closed plug_id generation s.open_invokes) s h

  pub perform_all-Holds : (s : Rack) (as_ : List Action) → Holds P s → Holds P (perform_all s as_)
  unfolding perform_all
  perform_all-Holds s [] h = h
  perform_all-Holds s (a ∷ as_) h = perform_all-Holds (perform s a) as_ (perform-Holds s a h)

  pub run_in_callback-Holds :
      (code : Code) (s : Rack) (c : Callback) → Holds P s → Holds P (run_in_callback code s c).0
  unfolding run_in_callback
  run_in_callback-Holds code s c h = perform_all-Holds (entering s c) (code (entering s c) c).0 h

module _ {P : Map String InstanceRecord → ℕ → Type 0} {Q : String → Type 0}
    (changes : Changes P Q) where
  pub modify_change :
      (f : InstanceRecord → InstanceRecord) (q : String) (s : Rack)
      → Q q
      → ((r : InstanceRecord) → (f r).generation ≡ r.generation)
      → Holds P s
      → Holds P (modify f q s)
  unfolding modify
  modify_change f q s may generations h = elim (Option-cases (Map.lookup q s.instances)) [
    | inl missing ↦ rw (missing, modify) h
    | inr (r, found) ↦
        rw (found, modify)
          (changes.change s.instances s.next_generation q r (f r) h may found (generations r))
  ]
