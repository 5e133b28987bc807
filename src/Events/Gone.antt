-- ===== src/Events/Gone.antt =====
-- ts/src/core/events.ts: a subscription that is gone does not come back, since tokens are not used
-- twice.
use u.Base.{
  ℕ, ◌<◌, ◌≡◌, refl, ap, ◌∙◌, String, Bool, true, false, not, Option, none, some, List, [], ◌∷◌,
  nat_key, string_key, ◌==◌, ltb, Result, ok, err, Bool-cases, inl, inr, arith,
}
use u.Base.Map
use u.Base.Map.{Map, Distinct, when, lookup-insert, lookup-remove, lookup-retain}
use u.Events.{
  SubscriptionRecord, QueuedEvent, Bus, Pass, Budget, pass_limit, subscribe, unsubscribe,
  unsubscribe_all, publish, Output,
}
use u.Events.Drain.{
  draining, drain, next_event, next_sink, slice, advance, advance_pass, settled, settle,
  settle_pass, Input, subscribes, unsubscribes, unsubscribes_all, publishes, drains, advances,
  settles, after_subscribe, after_publish, step, run,
}
use u.Events.Facts.{IsPublished, publish-IsPublished, IsSubscribed, subscribe-IsSubscribed}
use u.Events.Delivery.{IsBus}
use u.Events.Live.{step-IsBus}

-- A token that was given out, of a subscription that is no longer there.
abbrev pub Absent : ℕ → Bus → Type 0
Absent k s = (k < s.next_token) × (Map.lookup k s.subscriptions ≡ none)

module _ (k : ℕ) where
  abbrev Stays : Bus → Bus × List Output → Type 0
  Stays s next = Absent k s → Absent k next.0

  slice-Stays :
      (s : Bus) (p : Pass) (awaiting : Bool) (tokens : List ℕ) → Stays s (slice s p awaiting tokens)
  slice-Stays s p true tokens gone = gone
  slice-Stays s p false [] gone = in_event s.queue
    where
      in_event : (queue : List QueuedEvent) → Absent k (next_event s p queue).0
      in_event [] = gone
      in_event (e ∷ queue) = elim (Bool-cases (ltb p.delivered p.limit)) [
        | inl more ↦ rw more gone
        | inr over ↦ rw over gone
      ]
  slice-Stays s p false (token ∷ tokens) gone = in_sink p.event (Map.lookup token s.subscriptions)
    where
      in_sink :
          (e : Option QueuedEvent) (r : Option SubscriptionRecord)
          → Absent k (next_sink s p token tokens e r).0
      in_sink none none = gone
      in_sink none (some r) = gone
      in_sink (some e) none = gone
      in_sink (some e) (some r) = gone

  advance_pass-Stays : (s : Bus) (pass : Option Pass) → Stays s (advance_pass s pass)
  advance_pass-Stays s none gone = gone
  advance_pass-Stays s (some p) gone = slice-Stays s p p.awaiting p.tokens gone

  settle_pass-Stays :
      (s : Bus) (threw : Bool) (pass : Option Pass) → Stays s (settle_pass s threw pass)
  settle_pass-Stays s threw none gone = gone
  settle_pass-Stays s threw (some p) gone = go p.awaiting
    where
      go : (a : Bool) → Absent k (settled s threw p a).0
      go false = gone
      go true = gone

  drain-Stays : (s : Bus) (budget : Budget) → Stays s (drain s budget)
  unfolding drain
  drain-Stays s budget gone = elim (Bool-cases (draining s)) [
    | inl busy ↦ rw (busy, drain) gone
    | inr free ↦ elim (Bool-cases (pass_limit budget == 0)) [
      | inl empty ↦ rw (free, empty, drain) gone
      | inr more ↦ rw (free, more, drain) gone
    ]
  ]

  after_subscribe-Stays :
      (s : Bus) (r : Result (Bus × ℕ)) (o : Option String)
      → ((next : Bus) (token : ℕ) → r ≡ ok (next, token) → IsSubscribed s next o)
      → Stays s (after_subscribe s r)
  after_subscribe-Stays s (err status) o h gone = gone
  after_subscribe-Stays s (ok (next, token)) o h gone =
      let done = h next token refl in
      let (given, missing) = gone in
      (
        ground (arith, ap (λ n. n.next_token) done.result),
        ap (λ n. Map.lookup k n.subscriptions) done.result
            ∙ lookup-insert s.next_token k done.record_ s.subscriptions
            ∙ ground arith,
      )

  after_publish-Stays :
      (s : Bus) (r : Result (Bus × QueuedEvent))
      → ((next : Bus) (e : QueuedEvent) → r ≡ ok (next, e) → IsPublished s next e)
      → Stays s (after_publish s r)
  after_publish-Stays s (err status) h gone = gone
  after_publish-Stays s (ok (next, e)) h gone =
      let same = (h next e refl).result in
      let (given, missing) = gone in
      (
        ground (arith, ap (λ n. n.next_token) same),
        ap (λ n. Map.lookup k n.subscriptions) same ∙ missing,
      )

  pub step-Stays : (s : Bus) (i : Input) → Distinct s.subscriptions → Stays s (step s i)
  unfolding step advance settle unsubscribe unsubscribe_all
  step-Stays s (subscribes name sink owner) d gone =
      after_subscribe-Stays s (subscribe s name sink owner) owner
        (λ next token e. subscribe-IsSubscribed s next name sink owner token e) gone
  step-Stays s (unsubscribes token) d (given, missing) =
      (given, lookup-remove token k s.subscriptions ∙ ground arith)
  step-Stays s (unsubscribes_all owner) d (given, missing) = (
    given,
    lookup-retain (λ q. not (q.owner_id == owner)) k s.subscriptions d
        ∙ ap (when (λ q. not (q.owner_id == owner))) missing,
  )
  step-Stays s (publishes name payload) d gone =
      after_publish-Stays s (publish s name payload)
        (λ next e g. publish-IsPublished s next name payload e g) gone
  step-Stays s (drains budget) d gone = drain-Stays s budget gone
  step-Stays s advances d gone = advance_pass-Stays s s.pass gone
  step-Stays s (settles threw) d gone = settle_pass-Stays s threw s.pass gone

  pub run-Stays : (s : Bus) (is : List Input) → IsBus s → Absent k s → Absent k (run s is).0
  unfolding run
  run-Stays s [] inv gone = gone
  run-Stays s (i ∷ is) inv gone =
      run-Stays (step s i).0 is (step-IsBus s i inv) (step-Stays s i inv.distinct gone)
