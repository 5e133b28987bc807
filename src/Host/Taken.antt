-- ===== src/Host/Taken.antt =====
-- ts/src/core/host.ts: the protocol of an unload keeps a predicate on the table that withstands the
-- changes of the instance that is unloaded.
use u.Base.{
  ℕ, ◌≡◌, refl, ◌⊎◌, String, Bool, true, false, string_key, ltb, Bool-cases, Option-cases, inl, inr,
}
use u.Base.Map
use u.Base.Map.{Map, lookup-insert, lookup-remove}
use u.Host.{
  InstanceState, created, initialized, active, revoking, faulted, InstanceRecord, stops, Rack, Code,
  run_in_callback, drop_deferred_unload,
}
use u.Host.Batch.{let_go}
use u.Host.Unload.{stopped, asked_back, take_back, unload_from, run_unload_protocol, calls_of}
use u.Host.Rule.{Changes, Holds, modify_change, run_in_callback-Holds}
use u.Host.Steps.{destroy_record-Holds, withdraw_caps-Holds}

module _ {P : Map String InstanceRecord → ℕ → Type 0} {Q : String → Type 0} (changes : Changes P Q)
    (code : Code) where
  abbrev H : Rack → Type 0
  H s = Holds P s

  stopped-Holds : (q : String) (d : Rack × Bool) → Q q → H d.0 → H (stopped code q d).0
  stopped-Holds q (s, true) may h = modify_change changes _ q s may (λ r. refl) h
  stopped-Holds q (s, false) may h = destroy_record-Holds changes code (let_go q s) q may h

  asked_back-Holds :
      (q : String) (s : Rack) (lent : Bool) → Q q → H s → H (asked_back code q s lent).0
  asked_back-Holds q s true may h = modify_change changes _ q s may (λ r. refl) h
  asked_back-Holds q s false may h =
      elim (Bool-cases (ltb 0 (calls_of (Map.lookup q s.instances)))) [
        | inl calls ↦ rw (calls, asked_back) h
        | inr quiet ↦
            rw (quiet, asked_back)
              (stopped-Holds q (run_in_callback code s (stops q)) may
                (run_in_callback-Holds changes.steady code s (stops q) h))
      ]

  take_back-Holds : (q : String) (g : ℕ) (s : Rack) → Q q → H s → H (take_back code q g s).0
  unfolding take_back
  take_back-Holds q g s may h =
      asked_back-Holds q _ _ may
        (run_in_callback-Holds changes.steady code _ _ (withdraw_caps-Holds changes code s q g h))

  pub unload_from-Holds :
      (q : String) (s : Rack) (state : InstanceState) (g : ℕ)
      → (state ≡ faulted) ⊎ Q q
      → H s
      → H (unload_from code q s state g).0
  unload_from-Holds q s faulted g may h = h
  unload_from-Holds q s created g (inr may) h = destroy_record-Holds changes code s q may h
  unload_from-Holds q s created g (inl bad) h = absurd (cc)
  unload_from-Holds q s initialized g (inr may) h =
      take_back-Holds q g _ may (modify_change changes _ q s may (λ r. refl) h)
  unload_from-Holds q s initialized g (inl bad) h = absurd (cc)
  unload_from-Holds q s active g (inr may) h =
      take_back-Holds q g _ may (modify_change changes _ q s may (λ r. refl) h)
  unload_from-Holds q s active g (inl bad) h = absurd (cc)
  unload_from-Holds q s revoking g (inr may) h =
      take_back-Holds q g _ may (modify_change changes _ q s may (λ r. refl) h)
  unload_from-Holds q s revoking g (inl bad) h = absurd (cc)

  pub run_unload_protocol-Holds :
      (s : Rack) (q : String) → Q q → H s → H (run_unload_protocol code s q).0
  unfolding run_unload_protocol drop_deferred_unload
  run_unload_protocol-Holds s q may h = elim (Option-cases (Map.lookup q s.instances)) [
    | inl missing ↦ rw (missing, run_unload_protocol, drop_deferred_unload) h
    | inr (r, found) ↦
        rw (found, run_unload_protocol, drop_deferred_unload)
          (unload_from-Holds q (drop_deferred_unload q s) r.state r.generation (inr may) h)
  ]
