-- ===== src/Host/Answer.antt =====
-- ts/src/core/host.ts: what an unload that returns ok has come to.
use u.Base.{
  ℕ, ◌≡◌, refl, sym, subst, ap, ◌∙◌, ◌⊎◌, ◌<◌, String, true, false, Option, none, List, [], ◌∷◌,
  ◌++◌, string_key, ltb, ◌==◌, includes, ok, arith, Bool-cases, inl, inr,
}
use u.Base.Map
use u.Base.Map.{Map, lookup-insert, lookup-remove}
use u.Host.{InstanceState, Rack, Code, queue_deferred_unload, is_some}
use u.Host.Batch.{Done}
use u.Host.Unload.{run_unload_protocol, unload}
use u.Host.Rule.{Changes}
use u.Host.Quarantine.{standing, Other, lookup_as}
use u.Host.Taken.{run_unload_protocol-Holds}
use u.Host.Outcome.{run_unload_protocol-gone}

-- An instance other than the one that is unloaded keeps its state and its generation.
stands_still :
    (p : String) (o : Option (InstanceState × ℕ))
    → Changes (λ m n. standing (Map.lookup p m) ≡ o) (Other p)
stands_still p o = record {
  steady = record {
    same = λ m n q r t h found states generations. elim (Bool-cases (q == p)) [
      | inl hit ↦
          rw (lookup-insert, hit, states, generations)
            (subst (λ i. standing i ≡ o) (lookup_as q p hit m found) h)
      | inr miss ↦ rw (lookup-insert, miss) h
    ];
  };
  change = λ m n q r t h other found generations. rw (lookup-insert, other) h;
  gone = λ m n q h other. rw (lookup-remove, other) h;
}

includes-append : (q : String) (ps : List String) → includes (ps ++ q ∷ []) q ≡ true
includes-append q [] = ground (arith, string_key.same_iff q q)
includes-append q (p ∷ ps) = ground (arith, includes-append q ps)

queued-includes :
    (q : String) (s : Rack) → includes (queue_deferred_unload q s).deferred_unloads q ≡ true
unfolding queue_deferred_unload
queued-includes q s = elim (Bool-cases (includes s.deferred_unloads q)) [
  | inl there ↦ rw (there, queue_deferred_unload) there
  | inr new ↦ rw (new, queue_deferred_unload) (includes-append q s.deferred_unloads)
]

queued-instances : (q : String) (s : Rack) → (queue_deferred_unload q s).instances ≡ s.instances
unfolding queue_deferred_unload
queued-instances q s = ground arith

-- The two branches of an unload that may return.
unload-branches :
    (code : Code) (s : Rack) (q : String)
    → (unload code s q).1 ≡ ok tt
    → ((0 < s.callback_depth)
        × (is_some (Map.lookup q s.instances) ≡ true)
        × (unload code s q ≡ (queue_deferred_unload q s, ok tt)))
      ⊎ ((s.callback_depth ≡ 0) × (unload code s q ≡ run_unload_protocol code s q))
unfolding unload
unload-branches code s q good = elim (Bool-cases s.shutting_down) [
  | inl down ↦ absurd (ground arith)
  | inr up ↦ elim (Bool-cases (is_some (Map.lookup q s.instances))) [
    | inr unknown ↦ absurd (ground arith)
    | inl known ↦ elim (Bool-cases (ltb 0 s.callback_depth)) [
      | inl within ↦ inl (ground arith, known, ground arith)
      | inr outside ↦ inr (ground arith, ground arith)
    ]
  ]
]

-- Done at once, or queued for the next poll.
abbrev pub TakenOut : String → Rack → Rack → Type 0
TakenOut q s t = (s.callback_depth ≡ 0) × (Map.lookup q t.instances ≡ none)

abbrev pub Queued : String → Rack → Rack → Type 0
Queued q s t =
    (0 < s.callback_depth)
    × (t.instances ≡ s.instances)
    × (is_some (Map.lookup q t.instances) ≡ true)
    × (includes t.deferred_unloads q ≡ true)

-- An unload that returns ok has been made from outside of every callback, and then the instance is
-- gone from the table, whatever the code of the plugins does meanwhile; or from within one, and then
-- the table is as before, the instance in it, and its id is in the queue. Either way another
-- instance keeps its state and its generation, or stays away.
pub unload_answers :
    (code : Code) (s : Rack) (q p : String)
    → (q == p) ≡ false
    → (unload code s q).1 ≡ ok tt
    → (TakenOut q s (unload code s q).0 ⊎ Queued q s (unload code s q).0)
      × (standing (Map.lookup p (unload code s q).0.instances)
          ≡ standing (Map.lookup p s.instances))
unfolding unload
unload_answers code s q p other good = elim (unload-branches code s q good) [
  | inl (within, known, same) ↦ rw same (
    inr (within, queued-instances q s, rw (queued-instances q s) known, queued-includes q s),
    rw (queued-instances q s) refl,
  )
  | inr (outside, same) ↦ rw same (
    inl (outside, run_unload_protocol-gone code s q (ap (λ (d : Done). d.1) (sym same) ∙ good)),
    run_unload_protocol-Holds (stands_still p (standing (Map.lookup p s.instances))) code s q other
        refl,
  )
]
