-- ===== src/Events/Live.antt =====
-- What a bus keeps through all histories, and whom it calls.
use u.Base.{
  ℕ, suc, ◌≡◌, refl, ap, subst, sym, ◌∙◌, ◌≤◌, String, Bool, true, false, not, Option, none, some,
  List, [], ◌∷◌, ◌++◌, nat_key, string_key, ◌==◌, ltb, length, length-append, includes, Result, ok,
  err, >>=-eq-ok, guard->>, invalid_argument, Bool-cases, inl, inr, arith, All,
}
use u.Base.Map
use u.Base.Map.{
  Map, Distinct, when, lookup-insert, lookup-remove, lookup-retain, insert-Distinct,
  remove-Distinct, retain-Distinct,
}
use u.Events.{
  SubscriptionRecord, QueuedEvent, Bus, Pass, subscribe, unsubscribe, unsubscribe_all, publish,
  called,
}
use u.Events.Drain.{
  next_event, next_sink, slice, advance, advance_pass, settle, Input, subscribes, unsubscribes,
  unsubscribes_all, publishes, drains, advances, settles, after_subscribe, after_publish, step, run,
}
use u.Events.Facts.{
  IsPublishable, IsPublished, publish-IsPublished, IsSubscribed, subscribe-IsSubscribed,
}
use u.Events.{
  create_event_bus, Bound, assert_positive_integer, empty_bus, bound_or, default_capacity,
  default_payload_limit, is_handler, present,
}
use u.Events.Delivery.{
  PassOk, IsBus, subscribed-IsBus, advance_pass-IsBus, settle_pass-IsBus, drain-IsBus,
}

All-concat {ℓ κ} :
    {A : Type ℓ} (P : A → Type κ) (xs : List A) (x : A) → All P xs → P x → All P (xs ++ x ∷ [])
All-concat P [] x all p = (p, tt)
All-concat P (y ∷ ys) x all p = (all.0, All-concat P ys x all.1 p)

published-IsBus : (s next : Bus) (e : QueuedEvent) → IsPublished s next e → IsBus s → IsBus next
published-IsBus s next e done inv = subst IsBus (sym done.result) (record {
  fits = ground (arith, done.fits, length-append s.queue (e ∷ []));
  queued = All-concat (IsPublishable s.payload_limit) s.queue e inv.queued done.publishable;
  distinct = inv.distinct;
  fresh = inv.fresh;
  pass_ok = inv.pass_ok;
})

subscribed_result :
    (s next : Bus) (owner : Option String) → IsSubscribed s next owner → IsBus s → IsBus next
subscribed_result s next owner done inv =
    let r = done.record_ in
    subst IsBus (sym done.result) (
      subscribed-IsBus s (Map.insert s.next_token r s.subscriptions) (suc s.next_token)
        (insert-Distinct s.next_token r s.subscriptions inv.distinct)
        (λ t q found. ground (arith, lookup-insert s.next_token t r s.subscriptions, inv.fresh t q))
        (λ t q old found. ground (arith, lookup-insert s.next_token t r s.subscriptions))
        (omega arith) inv)

after_publish-IsBus :
    (s : Bus) (r : Result (Bus × QueuedEvent))
    → ((next : Bus) (e : QueuedEvent) → r ≡ ok (next, e) → IsPublished s next e)
    → IsBus s
    → IsBus (after_publish s r).0
after_publish-IsBus s (err status) h inv = inv
after_publish-IsBus s (ok (next, e)) h inv = published-IsBus s next e (h next e refl) inv

after_subscribe-IsBus :
    (s : Bus) (r : Result (Bus × ℕ)) (owner : Option String)
    → ((next : Bus) (token : ℕ) → r ≡ ok (next, token) → IsSubscribed s next owner)
    → IsBus s
    → IsBus (after_subscribe s r).0
after_subscribe-IsBus s (err status) owner h inv = inv
after_subscribe-IsBus s (ok (next, token)) owner h inv =
    subscribed_result s next owner (h next token refl) inv

pub when-some :
    (p : SubscriptionRecord → Bool) (o : Option SubscriptionRecord) (r : SubscriptionRecord)
    → when p o ≡ some r
    → o ≡ some r
when-some p none r h = h
when-some p (some q) r h = elim (Bool-cases (p q)) [
  | inl pass ↦ ground arith
  | inr fail ↦ absurd (ground arith)
]

pub step-IsBus : (s : Bus) (i : Input) → IsBus s → IsBus (step s i).0
unfolding step advance settle unsubscribe unsubscribe_all
step-IsBus s (subscribes name sink owner) inv =
    after_subscribe-IsBus s (subscribe s name sink owner) owner
      (λ next token h. subscribe-IsSubscribed s next name sink owner token h) inv
step-IsBus s (unsubscribes token) inv =
    subscribed-IsBus s (Map.remove token s.subscriptions) s.next_token
      (remove-Distinct token s.subscriptions inv.distinct)
      (λ t r found. ground (arith, lookup-remove token t s.subscriptions, inv.fresh t r))
      (λ t r old found. ground (arith, lookup-remove token t s.subscriptions)) (omega arith) inv
step-IsBus s (unsubscribes_all owner) inv =
    let p : SubscriptionRecord → Bool = λ r. not (r.owner_id == owner) in
    subscribed-IsBus s (Map.retain p s.subscriptions) s.next_token
      (retain-Distinct p s.subscriptions inv.distinct)
      (λ t r found. inv.fresh t r (kept p t r found)) (λ t r old found. kept p t r found)
      (omega arith) inv
  where
    kept :
        (p : SubscriptionRecord → Bool) (t : ℕ) (r : SubscriptionRecord)
        → Map.lookup t (Map.retain p s.subscriptions) ≡ some r
        → Map.lookup t s.subscriptions ≡ some r
    kept p t r found =
        when-some p (Map.lookup t s.subscriptions) r
          (sym (lookup-retain p t s.subscriptions inv.distinct) ∙ found)
step-IsBus s (publishes name payload) inv =
    after_publish-IsBus s (publish s name payload)
      (λ next e h. publish-IsPublished s next name payload e h) inv
step-IsBus s (drains budget) inv = drain-IsBus s budget inv
step-IsBus s advances inv = advance_pass-IsBus s s.pass inv.pass_ok inv
step-IsBus s (settles threw) inv = settle_pass-IsBus s threw s.pass inv.pass_ok inv

pub run-IsBus : (s : Bus) (is : List Input) → IsBus s → IsBus (run s is).0
unfolding run
run-IsBus s [] inv = inv
run-IsBus s (i ∷ is) inv = run-IsBus (step s i).0 is (step-IsBus s i inv)

pub create_event_bus-IsBus :
    (capacity payload_limit : Option Bound) (handler : Option Bool) (s : Bus)
    → create_event_bus capacity payload_limit handler ≡ ok s
    → IsBus s
unfolding create_event_bus Map.lookup
create_event_bus-IsBus capacity payload_limit handler s h =
    let (c, first, h1) =
      >>=-eq-ok (assert_positive_integer (bound_or capacity default_capacity)) _ h in
    let (l, second, h2) =
      >>=-eq-ok (assert_positive_integer (bound_or payload_limit default_payload_limit)) _ h1 in
    let (allowed, h3) = guard->> (is_handler handler) invalid_argument _ h2 in
    let same : empty_bus c l (present handler) ≡ s = ground arith in
    subst IsBus same (record {
      fits = omega arith;
      queued = tt;
      distinct = tt;
      fresh = λ t r found. absurd (ground arith);
      pass_ok = tt;
    })

pub called-live :
    (s : Bus) (pass : Option Pass) (t : ℕ) (r : SubscriptionRecord) (e : QueuedEvent)
    → PassOk s.subscriptions s.next_token pass
    → (advance_pass s pass).1 ≡ called t r e ∷ []
    → (Map.lookup t s.subscriptions ≡ some r) × (r.name ≡ e.name)
called-live s none t r e ok_ h = absurd (ground arith)
called-live s (some p) t r e ok_ h = in_slice p.awaiting p.tokens refl h
  where
    in_event :
        (queue : List QueuedEvent)
        → (next_event s p queue).1 ≡ called t r e ∷ []
        → (Map.lookup t s.subscriptions ≡ some r) × (r.name ≡ e.name)
    in_event [] g = absurd (ground arith)
    in_event (f ∷ queue) g = elim (Bool-cases (ltb p.delivered p.limit)) [
      | inl more ↦ absurd (ground arith)
      | inr over ↦ absurd (ground arith)
    ]

    in_sink :
        (token : ℕ) (tokens : List ℕ) (f : Option QueuedEvent) (q : Option SubscriptionRecord)
        → p.tokens ≡ token ∷ tokens
        → p.event ≡ f
        → Map.lookup token s.subscriptions ≡ q
        → (next_sink s p token tokens f q).1 ≡ called t r e ∷ []
        → (Map.lookup t s.subscriptions ≡ some r) × (r.name ≡ e.name)
    in_sink token tokens none none listed at found g = absurd (ground arith)
    in_sink token tokens none (some q) listed at found g = absurd (ground arith)
    in_sink token tokens (some f) none listed at found g = absurd (ground arith)
    in_sink token tokens (some f) (some q) listed at found g =
        let one : token ≡ t = ground arith in
        let two : q ≡ r = ground arith in
        let three : f ≡ e = ground arith in
        let there : includes p.tokens token ≡ true =
          ap (λ x. includes x token) listed ∙ ground arith in
        let named = ok_.matching token q f there found at in
        (
          ap (λ x. Map.lookup x s.subscriptions) (sym one) ∙ found ∙ ap some two,
          ap (λ x. x.name) (sym two) ∙ named ∙ ap (λ x. x.name) three,
        )

    in_slice :
        (awaiting : Bool) (tokens : List ℕ)
        → p.tokens ≡ tokens
        → (slice s p awaiting tokens).1 ≡ called t r e ∷ []
        → (Map.lookup t s.subscriptions ≡ some r) × (r.name ≡ e.name)
    in_slice true tokens listed g = absurd (ground arith)
    in_slice false [] listed g = in_event s.queue g
    in_slice false (token ∷ tokens) listed g =
        in_sink token tokens p.event (Map.lookup token s.subscriptions) listed refl refl g

-- On a bus that was created, after any interleaving of calls, passes and sinks, a pass that calls a
-- sink does so for a subscription that is in the table at that moment, and that names the event.
pub called_live :
    (capacity payload_limit : Option Bound) (handler : Option Bool) (s : Bus) (is : List Input)
    (t : ℕ) (r : SubscriptionRecord) (e : QueuedEvent)
    → create_event_bus capacity payload_limit handler ≡ ok s
    → (advance (run s is).0).1 ≡ called t r e ∷ []
    → (Map.lookup t (run s is).0.subscriptions ≡ some r) × (r.name ≡ e.name)
unfolding advance
called_live capacity payload_limit handler s is t r e created h =
    let now = (run s is).0 in
    let inv = run-IsBus s is (create_event_bus-IsBus capacity payload_limit handler s created) in
    called-live now now.pass t r e inv.pass_ok h

-- On a bus that was created, after any interleaving of calls, passes and sinks, the queue is within
-- its capacity, and every event in it has a name, not a reserved one, and a payload that is a JSON
-- value within the limit.
pub queue_bounded :
    (capacity payload_limit : Option Bound) (handler : Option Bool) (s : Bus) (is : List Input)
    → create_event_bus capacity payload_limit handler ≡ ok s
    → (length (run s is).0.queue ≤ (run s is).0.capacity)
      × All (IsPublishable (run s is).0.payload_limit) (run s is).0.queue
queue_bounded capacity payload_limit handler s is created =
    let inv = run-IsBus s is (create_event_bus-IsBus capacity payload_limit handler s created) in
    (inv.fits, inv.queued)
