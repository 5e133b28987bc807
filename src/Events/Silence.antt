-- ===== src/Events/Silence.antt =====
-- `unsubscribeAll`: an owner that is revoked is not called again.
use u.Base.{
  ℕ, ◌≡◌, refl, ap, sym, ◌∙◌, String, Bool, true, false, not, Option, none, some, List, [], ◌∷◌,
  nat_key, string_key, ◌==◌, ltb, Result, ok, err, Bool-cases, inl, inr, arith, all,
}
use u.Base.Map
use u.Base.Map.{
  Map, Distinct, when, lookup-insert, lookup-remove, lookup-retain, insert-Distinct,
  remove-Distinct, retain-Distinct,
}
use u.Events.{
  SubscriptionRecord, QueuedEvent, Bus, Pass, Budget, pass_limit, subscribe, unsubscribe,
  unsubscribe_all, publish, Output, called,
}
use u.Events.Drain.{
  draining, drain, next_event, next_sink, slice, advance, advance_pass, settled, settle,
  settle_pass, Input, subscribes, unsubscribes, unsubscribes_all, publishes, drains, advances,
  settles, after_subscribe, after_publish, step, run,
}
use u.Events.Facts.{IsPublished, publish-IsPublished, IsSubscribed, subscribe-IsSubscribed}
use u.Events.{create_event_bus, Bound}
use u.Events.Delivery.{IsBus}
use u.Events.Live.{when-some, called-live, step-IsBus, run-IsBus, create_event_bus-IsBus}

pub record NotOwned (owner : String) (s : Bus) : Type 0 where
  pub other_owner :
      (t : ℕ) (r : SubscriptionRecord)
      → Map.lookup t s.subscriptions ≡ some r
      → (r.owner_id == owner) ≡ false

-- Whether an input may subscribe for the owner.
abbrev pub subscribes_for : String → Input → Bool
subscribes_for owner (subscribes name sink (some o)) = o == owner
subscribes_for owner _ = false

abbrev Same : Bus → Bus × List Output → Type 0
Same s next = next.0.subscriptions ≡ s.subscriptions

slice-Same :
    (s : Bus) (p : Pass) (awaiting : Bool) (tokens : List ℕ) → Same s (slice s p awaiting tokens)
slice-Same s p true tokens = refl
slice-Same s p false [] = in_event s.queue
  where
    in_event : (queue : List QueuedEvent) → Same s (next_event s p queue)
    in_event [] = refl
    in_event (e ∷ queue) = elim (Bool-cases (ltb p.delivered p.limit)) [
      | inl more ↦ rw more refl
      | inr over ↦ rw over refl
    ]
slice-Same s p false (token ∷ tokens) = in_sink p.event (Map.lookup token s.subscriptions)
  where
    in_sink :
        (e : Option QueuedEvent) (r : Option SubscriptionRecord)
        → Same s (next_sink s p token tokens e r)
    in_sink none none = refl
    in_sink none (some r) = refl
    in_sink (some e) none = refl
    in_sink (some e) (some r) = refl

advance_pass-Same : (s : Bus) (pass : Option Pass) → Same s (advance_pass s pass)
advance_pass-Same s none = refl
advance_pass-Same s (some p) = slice-Same s p p.awaiting p.tokens

settle_pass-Same : (s : Bus) (threw : Bool) (pass : Option Pass) → Same s (settle_pass s threw pass)
settle_pass-Same s threw none = refl
settle_pass-Same s threw (some p) = go p.awaiting
  where
    go : (a : Bool) → Same s (settled s threw p a)
    go false = refl
    go true = refl

drain-Same : (s : Bus) (budget : Budget) → Same s (drain s budget)
unfolding drain
drain-Same s budget = elim (Bool-cases (draining s)) [
  | inl busy ↦ rw busy refl
  | inr free ↦ elim (Bool-cases (pass_limit budget == 0)) [
    | inl empty ↦ rw (free, empty) refl
    | inr more ↦ rw (free, more) refl
  ]
]

same-NotOwned :
    (owner : String) (s next : Bus)
    → next.subscriptions ≡ s.subscriptions
    → NotOwned owner s
    → NotOwned owner next
same-NotOwned owner s next same free = record {
  other_owner = λ t r found. free.other_owner t r (ap (Map.lookup t) (sym same) ∙ found);
}

after_subscribe-NotOwned :
    (owner : String) (s : Bus) (r : Result (Bus × ℕ)) (o : Option String)
    → ((next : Bus) (token : ℕ) → r ≡ ok (next, token) → IsSubscribed s next o)
    → ((p : String) → o ≡ some p → (p == owner) ≡ false)
    → NotOwned owner s
    → NotOwned owner (after_subscribe s r).0
after_subscribe-NotOwned owner s (err status) o h other free = free
after_subscribe-NotOwned owner s (ok (next, token)) o h other free = record { other_owner = at }
  where
    done : IsSubscribed s next o
    done = h next token refl

    at :
        (t : ℕ) (q : SubscriptionRecord)
        → Map.lookup t next.subscriptions ≡ some q
        → (q.owner_id == owner) ≡ false
    at t q found =
        let there = ap (λ n. Map.lookup t n.subscriptions) (sym done.result) ∙ found in
        elim (Bool-cases (s.next_token == t)) [
          | inl hit ↦
              let one : done.record_ ≡ q =
                ground (arith, lookup-insert s.next_token t done.record_ s.subscriptions) in
              ap (λ x. x.owner_id == owner) (sym one) ∙ other done.record_.owner_id done.owned
          | inr miss ↦
              free.other_owner t q
                (ground (arith, lookup-insert s.next_token t done.record_ s.subscriptions))
        ]

after_publish-NotOwned :
    (owner : String) (s : Bus) (r : Result (Bus × QueuedEvent))
    → ((next : Bus) (e : QueuedEvent) → r ≡ ok (next, e) → IsPublished s next e)
    → NotOwned owner s
    → NotOwned owner (after_publish s r).0
after_publish-NotOwned owner s (err status) h free = free
after_publish-NotOwned owner s (ok (next, e)) h free =
    same-NotOwned owner s next (ap (λ n. n.subscriptions) (h next e refl).result) free

subscribes_other :
    (owner : String) (name : Option String) (sink : Option ℕ) (o : Option String) (p : String)
    → subscribes_for owner (subscribes name sink o) ≡ false
    → o ≡ some p
    → (p == owner) ≡ false
subscribes_other owner name sink none p h same = absurd (cc)
subscribes_other owner name sink (some q) p h same =
    let one : q ≡ p = ground arith in ap (λ x. x == owner) (sym one) ∙ h

step-NotOwned :
    (owner : String) (s : Bus) (i : Input)
    → Distinct s.subscriptions
    → subscribes_for owner i ≡ false
    → NotOwned owner s
    → NotOwned owner (step s i).0
unfolding step advance settle unsubscribe unsubscribe_all
step-NotOwned owner s (subscribes name sink o) d h free =
    after_subscribe-NotOwned owner s (subscribe s name sink o) o
      (λ next token e. subscribe-IsSubscribed s next name sink o token e)
      (λ p same. subscribes_other owner name sink o p h same) free
step-NotOwned owner s (unsubscribes token) d h free = record {
  other_owner =
      λ t r found. free.other_owner t r (ground (arith, lookup-remove token t s.subscriptions));
}
step-NotOwned owner s (unsubscribes_all other) d h free = record {
  other_owner = λ t r found. free.other_owner t r (
      when-some (λ q. not (q.owner_id == other)) (Map.lookup t s.subscriptions) r
        (sym (lookup-retain (λ q. not (q.owner_id == other)) t s.subscriptions d) ∙ found));
}
step-NotOwned owner s (publishes name payload) d h free =
    after_publish-NotOwned owner s (publish s name payload)
      (λ next e g. publish-IsPublished s next name payload e g) free
step-NotOwned owner s (drains budget) d h free =
    same-NotOwned owner s (drain s budget).0 (drain-Same s budget) free
step-NotOwned owner s advances d h free =
    same-NotOwned owner s (advance_pass s s.pass).0 (advance_pass-Same s s.pass) free
step-NotOwned owner s (settles threw) d h free =
    same-NotOwned owner s (settle_pass s threw s.pass).0 (settle_pass-Same s threw s.pass) free

run-NotOwned :
    (owner : String) (s : Bus) (is : List Input)
    → IsBus s
    → all (λ i. not (subscribes_for owner i)) is ≡ true
    → NotOwned owner s
    → NotOwned owner (run s is).0
unfolding run
run-NotOwned owner s [] inv h free = free
run-NotOwned owner s (i ∷ is) inv h free =
    run-NotOwned owner (step s i).0 is (step-IsBus s i inv) (ground arith)
      (step-NotOwned owner s i inv.distinct (ground arith) free)

unsubscribe_all-NotOwned :
    (owner : String) (s : Bus) → Distinct s.subscriptions → NotOwned owner (unsubscribe_all s owner)
unfolding unsubscribe_all
unsubscribe_all-NotOwned owner s d = record {
  other_owner = λ t r found.
      passes r (Map.lookup t s.subscriptions)
        (sym (lookup-retain (λ q. not (q.owner_id == owner)) t s.subscriptions d) ∙ found);
}
  where
    passes :
        (r : SubscriptionRecord) (o : Option SubscriptionRecord)
        → when (λ q. not (q.owner_id == owner)) o ≡ some r
        → (r.owner_id == owner) ≡ false
    passes r none h = absurd (cc)
    passes r (some q) h = elim (Bool-cases (q.owner_id == owner)) [
      | inl mine ↦ absurd (ground arith)
      | inr other ↦
          let one : q ≡ r = ground arith in ap (λ x. x.owner_id == owner) (sym one) ∙ other
    ]

-- After `unsubscribeAll` for an owner, and until a subscription for that owner is made again, no
-- pass calls a sink of the owner: not one that was running at the time either.
pub revoked_silent :
    (capacity payload_limit : Option Bound) (handler : Option Bool) (s : Bus)
    (before after : List Input) (owner : String) (t : ℕ) (r : SubscriptionRecord) (e : QueuedEvent)
    → create_event_bus capacity payload_limit handler ≡ ok s
    → all (λ i. not (subscribes_for owner i)) after ≡ true
    → (advance (run (unsubscribe_all (run s before).0 owner) after).0).1 ≡ called t r e ∷ []
    → (r.owner_id == owner) ≡ false
unfolding advance step
revoked_silent capacity payload_limit handler s before after owner t r e created h call =
    let old = (run s before).0 in
    let inv =
      run-IsBus s before (create_event_bus-IsBus capacity payload_limit handler s created) in
    let start = unsubscribe_all old owner in
    let now = (run start after).0 in
    let inv_start = step-IsBus old (unsubscribes_all owner) inv in
    let inv_now = run-IsBus start after inv_start in
    let live = called-live now now.pass t r e inv_now.pass_ok call in
    (run-NotOwned owner start after inv_start h
        (unsubscribe_all-NotOwned owner old inv.distinct)).other_owner
      t r live.0
