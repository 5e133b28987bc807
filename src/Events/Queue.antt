-- ===== src/Events/Queue.antt =====
-- The order of events, and the bounds of the queue.
use u.Base.{
  ℕ, ◌≡◌, refl, ap, sym, ◌∙◌, Bool, true, false, ◌&&◌, Option, none, some, List, [], ◌∷◌, ◌++◌,
  nat_key, string_key, ◌==◌, ltb, Result, ok, err, Bool-cases, inl, inr,
}
use mathlib.Core.List.{append_assoc, append-nil}
use u.Base.Map
use u.Events.{
  SubscriptionRecord, QueuedEvent, Bus, Pass, Budget, pass_limit, subscribe, unsubscribe,
  unsubscribe_all, publish, Output, accepted, dequeued, called, reported, drained,
}
use u.Events.Drain.{
  draining, drain, next_event, next_sink, slice, advance, advance_pass, settled, settle,
  settle_pass, Input, subscribes, unsubscribes, unsubscribes_all, publishes, drains, advances,
  settles, after_subscribe, after_publish, step, run,
}
use u.Events.Facts.{IsPublished, publish-IsPublished, subscribe-IsSubscribed}

abbrev pub published_of : List Output → List QueuedEvent
published_of [] = []
published_of (accepted e ∷ out) = e ∷ published_of out
published_of (_ ∷ out) = published_of out

abbrev pub dequeued_of : List Output → List QueuedEvent
dequeued_of [] = []
dequeued_of (dequeued e ∷ out) = e ∷ dequeued_of out
dequeued_of (_ ∷ out) = dequeued_of out

-- What is queued and published is what is dequeued and left.
abbrev pub InOrder : Bus → Bus × List Output → Type 0
InOrder s next = s.queue ++ published_of next.1 ≡ dequeued_of next.1 ++ next.0.queue

next_event-InOrder :
    (s : Bus) (p : Pass) (queue : List QueuedEvent)
    → s.queue ≡ queue
    → InOrder s (next_event s p queue)
next_event-InOrder s p [] h = append-nil s.queue
next_event-InOrder s p (e ∷ queue) h = elim (Bool-cases (ltb p.delivered p.limit)) [
  | inl more ↦ rw more (append-nil s.queue ∙ h)
  | inr over ↦ rw over (append-nil s.queue)
]

next_sink-InOrder :
    (s : Bus) (p : Pass) (token : ℕ) (tokens : List ℕ) (e : Option QueuedEvent)
    (r : Option SubscriptionRecord)
    → InOrder s (next_sink s p token tokens e r)
next_sink-InOrder s p token tokens none none = append-nil s.queue
next_sink-InOrder s p token tokens none (some r) = append-nil s.queue
next_sink-InOrder s p token tokens (some e) none = append-nil s.queue
next_sink-InOrder s p token tokens (some e) (some r) = append-nil s.queue

slice-InOrder :
    (s : Bus) (p : Pass) (awaiting : Bool) (tokens : List ℕ) → InOrder s (slice s p awaiting tokens)
slice-InOrder s p true tokens = append-nil s.queue
slice-InOrder s p false [] = next_event-InOrder s p s.queue refl
slice-InOrder s p false (token ∷ tokens) =
    next_sink-InOrder s p token tokens p.event (Map.lookup token s.subscriptions)

advance_pass-InOrder : (s : Bus) (pass : Option Pass) → InOrder s (advance_pass s pass)
advance_pass-InOrder s none = append-nil s.queue
advance_pass-InOrder s (some p) = slice-InOrder s p p.awaiting p.tokens

drain-InOrder : (s : Bus) (budget : Budget) → InOrder s (drain s budget)
unfolding drain
drain-InOrder s budget = elim (Bool-cases (draining s)) [
  | inl busy ↦ rw busy (append-nil s.queue)
  | inr free ↦ elim (Bool-cases (pass_limit budget == 0)) [
    | inl empty ↦ rw (free, empty) (append-nil s.queue)
    | inr some_ ↦ rw (free, some_) (append-nil s.queue)
  ]
]

settled-InOrder : (s : Bus) (threw : Bool) (p : Pass) (a : Bool) → InOrder s (settled s threw p a)
settled-InOrder s threw p false = append-nil s.queue
settled-InOrder s threw p true = elim (Bool-cases (threw && s.has_handler)) [
  | inl told ↦ rw told (append-nil s.queue)
  | inr untold ↦ rw untold (append-nil s.queue)
]

settle_pass-InOrder :
    (s : Bus) (threw : Bool) (pass : Option Pass) → InOrder s (settle_pass s threw pass)
settle_pass-InOrder s threw none = append-nil s.queue
settle_pass-InOrder s threw (some p) = settled-InOrder s threw p p.awaiting

after_subscribe-InOrder :
    (s : Bus) (r : Result (Bus × ℕ))
    → ((next : Bus) (token : ℕ) → r ≡ ok (next, token) → next.queue ≡ s.queue)
    → InOrder s (after_subscribe s r)
after_subscribe-InOrder s (err status) h = append-nil s.queue
after_subscribe-InOrder s (ok (next, token)) h = append-nil s.queue ∙ sym (h next token refl)

after_publish-InOrder :
    (s : Bus) (r : Result (Bus × QueuedEvent))
    → ((next : Bus) (e : QueuedEvent) → r ≡ ok (next, e) → IsPublished s next e)
    → InOrder s (after_publish s r)
after_publish-InOrder s (err status) h = append-nil s.queue
after_publish-InOrder s (ok (next, e)) h = sym (ap (λ n. n.queue) (h next e refl).result)

step-InOrder : (s : Bus) (i : Input) → InOrder s (step s i)
unfolding step advance settle unsubscribe unsubscribe_all
step-InOrder s (subscribes name sink owner) =
    after_subscribe-InOrder s (subscribe s name sink owner) λ next token h.
      ap (λ n. n.queue) (subscribe-IsSubscribed s next name sink owner token h).result
step-InOrder s (unsubscribes token) = append-nil s.queue
step-InOrder s (unsubscribes_all owner) = append-nil s.queue
step-InOrder s (publishes name payload) =
    after_publish-InOrder s (publish s name payload)
      λ next e h. publish-IsPublished s next name payload e h
step-InOrder s (drains budget) = drain-InOrder s budget
step-InOrder s advances = advance_pass-InOrder s s.pass
step-InOrder s (settles threw) = settle_pass-InOrder s threw s.pass

published_of-append :
    (xs ys : List Output) → published_of (xs ++ ys) ≡ published_of xs ++ published_of ys
published_of-append [] ys = refl
published_of-append (accepted e ∷ xs) ys = ap (λ r. e ∷ r) (published_of-append xs ys)
published_of-append (dequeued e ∷ xs) ys = published_of-append xs ys
published_of-append (called t r e ∷ xs) ys = published_of-append xs ys
published_of-append (reported ∷ xs) ys = published_of-append xs ys
published_of-append (drained n ∷ xs) ys = published_of-append xs ys

pub dequeued_of-append :
    (xs ys : List Output) → dequeued_of (xs ++ ys) ≡ dequeued_of xs ++ dequeued_of ys
dequeued_of-append [] ys = refl
dequeued_of-append (accepted e ∷ xs) ys = dequeued_of-append xs ys
dequeued_of-append (dequeued e ∷ xs) ys = ap (λ r. e ∷ r) (dequeued_of-append xs ys)
dequeued_of-append (called t r e ∷ xs) ys = dequeued_of-append xs ys
dequeued_of-append (reported ∷ xs) ys = dequeued_of-append xs ys
dequeued_of-append (drained n ∷ xs) ys = dequeued_of-append xs ys

pub run-InOrder : (s : Bus) (is : List Input) → InOrder s (run s is)
unfolding run
run-InOrder s [] = append-nil s.queue
run-InOrder s (i ∷ is) =
    let now = step s i in
    let later = run now.0 is in
    ap (λ x. s.queue ++ x) (published_of-append now.1 later.1)
    ∙ sym (append_assoc s.queue (published_of now.1) (published_of later.1))
    ∙ ap (λ x. x ++ published_of later.1) (step-InOrder s i)
    ∙ append_assoc (dequeued_of now.1) now.0.queue (published_of later.1)
    ∙ ap (λ x. dequeued_of now.1 ++ x) (run-InOrder now.0 is)
    ∙ sym (append_assoc (dequeued_of now.1) (dequeued_of later.1) later.0.queue)
    ∙ ap (λ x. x ++ later.0.queue) (sym (dequeued_of-append now.1 later.1))

-- Under any interleaving of publications, passes, sinks and subscriptions on a bus that began with
-- an empty queue, the events that were dequeued, and then those still queued, are those that were
-- published, each once and in the order of publication.
pub events_in_order :
    (s : Bus) (is : List Input)
    → s.queue ≡ []
    → dequeued_of (run s is).1 ++ (run s is).0.queue ≡ published_of (run s is).1
events_in_order s is empty = sym (run-InOrder s is) ∙ ap (λ q. q ++ published_of (run s is).1) empty
