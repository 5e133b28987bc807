-- ===== src/Events/Once.antt =====
-- ts/src/core/events.ts: each event is delivered once to each of the subscriptions to its name.
use u.Base.{
  ℕ, ◌<◌, ◌≡◌, refl, ap, subst, sym, ◌∙◌, ◌⊎◌, Bool, true, Option, none, some, List, [], ◌∷◌, ◌++◌,
  includes, >>=-eq-ok, guard->>, invalid_argument, if◌then◌else◌, nat_key, string_key, ◌==◌, ok,
  Bool-cases, inl, inr, arith,
}
use u.Base.Map
use u.Base.Map.{Map, Distinct}
use u.Events.{
  SubscriptionRecord, QueuedEvent, Bus, Pass, tokens_for, Output, accepted, dequeued, called,
  reported, drained, create_event_bus, Bound, assert_positive_integer, bound_or, default_capacity,
  default_payload_limit, is_handler, present, empty_bus,
}
use u.Events.Drain.{advance, Input, advances, step, run}
use u.Events.Queue.{published_of, dequeued_of, dequeued_of-append, run-InOrder}
use u.Events.Delivery.{PassOk, IsBus}
use u.Events.Live.{step-IsBus, run-IsBus, create_event_bus-IsBus}
use u.Events.Owed.{calls_of, owed, owed_by, Passing, step-Moves}
use u.Events.Taken.{subscribed_to, tokens_for-unnamed, tokens_for-named, Taken, advance-Taken}
use u.Events.Gone.{step-Stays, run-Stays}

-- Whether a pass has sinks left to call for its event.
abbrev pub tokens_left : Bus → List ℕ
tokens_left s = elim s.pass [ none ↦ [] | some p ↦ p.tokens ]

calls_of-append :
    (k : ℕ) (xs ys : List Output) → calls_of k (xs ++ ys) ≡ calls_of k xs ++ calls_of k ys
calls_of-append k [] ys = refl
calls_of-append k (accepted e ∷ xs) ys = calls_of-append k xs ys
calls_of-append k (dequeued e ∷ xs) ys = calls_of-append k xs ys
calls_of-append k (called t r e ∷ xs) ys = elim (Bool-cases (t == k)) [
  | inl hit ↦ rw hit (ap (λ l. e ∷ l) (calls_of-append k xs ys))
  | inr miss ↦ rw miss (calls_of-append k xs ys)
]
calls_of-append k (reported ∷ xs) ys = calls_of-append k xs ys
calls_of-append k (drained n ∷ xs) ys = calls_of-append k xs ys

empty_append : (xs ys : List QueuedEvent) → xs ++ ys ≡ [] → (xs ≡ []) × (ys ≡ [])
empty_append [] ys h = (refl, h)
empty_append (x ∷ xs) ys h = absurd (cc)

owed-includes :
    (e : QueuedEvent) (k : ℕ) (ts : List ℕ) → owed e k ts ≡ e ∷ [] → includes ts k ≡ true
owed-includes e k [] h = absurd (cc)
owed-includes e k (t ∷ ts) h = elim (Bool-cases (t == k)) [
  | inl hit ↦ rw hit refl
  | inr miss ↦ let rest = owed-includes e k ts (ground arith) in rw miss rest
]

due-given :
    (e : QueuedEvent) (k n : ℕ) (m : Map ℕ SubscriptionRecord) (pass : Option Pass)
    → PassOk m n pass
    → owed_by e k pass ≡ e ∷ []
    → k < n
due-given e k n m none ok_ h = absurd (cc)
due-given e k n m (some p) ok_ h = ok_.known k (owed-includes e k p.tokens h)

module _ (e : QueuedEvent) (k : ℕ) where
  run-silent :
      (s : Bus) (is : List Input)
      → Passing e s.pass
      → dequeued_of (run s is).1 ≡ []
      → owed_by e k s.pass ≡ []
      → calls_of k (run s is).1 ≡ []
  unfolding run
  run-silent s [] passing none_ nothing = refl
  run-silent s (i ∷ is) passing none_ nothing =
      let now = step s i in
      let later = run now.0 is in
      let (first, rest) =
        empty_append (dequeued_of now.1) (dequeued_of later.1)
          (sym (dequeued_of-append now.1 later.1) ∙ none_) in
      let moves = step-Moves e k s i passing first in
      let (silent, still) = moves.idle nothing in
      calls_of-append k now.1 later.1
      ∙ ap (λ l. l ++ calls_of k later.1) silent
      ∙ run-silent now.0 is moves.passing rest still

  -- The call is made, or the subscription is gone at the end.
  abbrev pub Delivered : Bus × List Output → Type 0
  Delivered last =
      (calls_of k last.1 ≡ e ∷ [])
      ⊎ ((calls_of k last.1 ≡ []) × (Map.lookup k last.0.subscriptions ≡ none))

  before_silent :
      (t : Bus) (xs ys : List Output)
      → calls_of k xs ≡ []
      → Delivered (t, ys)
      → Delivered (t, xs ++ ys)
  before_silent t xs ys silent (inl made) =
      inl (calls_of-append k xs ys ∙ ap (λ l. l ++ calls_of k ys) silent ∙ made)
  before_silent t xs ys silent (inr (unmade, gone)) =
      inr (calls_of-append k xs ys ∙ ap (λ l. l ++ calls_of k ys) silent ∙ unmade, gone)

  run-due :
      (s : Bus) (is : List Input)
      → IsBus s
      → Passing e s.pass
      → dequeued_of (run s is).1 ≡ []
      → owed_by e k (run s is).0.pass ≡ []
      → owed_by e k s.pass ≡ e ∷ []
      → Delivered (run s is)
  unfolding run
  run-due s [] inv passing none_ over due = absurd (cc)
  run-due s (i ∷ is) inv passing none_ over due =
      let now = step s i in
      let later = run now.0 is in
      let (first, rest) =
        empty_append (dequeued_of now.1) (dequeued_of later.1)
          (sym (dequeued_of-append now.1 later.1) ∙ none_) in
      let moves = step-Moves e k s i passing first in
      elim (moves.due due) [
        | inl (silent, still) ↦
            before_silent later.0 now.1 later.1 silent
              (run-due now.0 is (step-IsBus s i inv) moves.passing rest over still)
        | inr (inl (made, settled_)) ↦ inl (
            calls_of-append k now.1 later.1
            ∙ ap (λ l. l ++ calls_of k later.1) made
            ∙ ap (λ l. e ∷ l) (run-silent now.0 is moves.passing rest settled_))
        | inr (inr (silent, dropped, missing)) ↦
            let given = due-given e k s.next_token s.subscriptions s.pass inv.pass_ok due in
            inr (
              calls_of-append k now.1 later.1
                  ∙ ap (λ l. l ++ calls_of k later.1) silent
                  ∙ run-silent now.0 is moves.passing rest dropped,
              (run-Stays k now.0 is (step-IsBus s i inv)
                  (step-Stays k s i inv.distinct (given, missing))).1,
            )
      ]

create_event_bus_queue :
    (capacity payload_limit : Option Bound) (handler : Option Bool) (s : Bus)
    → create_event_bus capacity payload_limit handler ≡ ok s
    → s.queue ≡ []
unfolding create_event_bus
create_event_bus_queue capacity payload_limit handler s created =
    let (c, e₁, h₁) =
      >>=-eq-ok (assert_positive_integer (bound_or capacity default_capacity)) _ created in
    let (l, e₂, h₂) =
      >>=-eq-ok (assert_positive_integer (bound_or payload_limit default_payload_limit)) _ h₁ in
    let (e₃, h₃) = guard->> (is_handler handler) invalid_argument _ h₂ in
    let made : empty_bus c l (present handler) ≡ s = ground arith in ap (λ b. b.queue) (sym made)

none_left : (e : QueuedEvent) (k : ℕ) (s : Bus) → tokens_left s ≡ [] → owed_by e k s.pass ≡ []
none_left e k s h = by_pass s.pass h
  where
    by_pass : (o : Option Pass) → elim o [ none ↦ [] | some p ↦ p.tokens ] ≡ [] → owed_by e k o ≡ []
    by_pass none g = refl
    by_pass (some p) g = ap (owed e k) g

-- What the subscription of a token is called with, as the event is taken.
abbrev pub expected : QueuedEvent → ℕ → Bus → List QueuedEvent
expected e k s = if subscribed_to e.name k s then e ∷ [] else []

owed_run :
    (e : QueuedEvent) (k : ℕ) (now taken : Bus) (during : List Input)
    → Taken e now taken
    → IsBus now
    → IsBus taken
    → dequeued_of (run taken during).1 ≡ []
    → tokens_left (run taken during).0 ≡ []
    → (calls_of k (run taken during).1 ≡ expected e k now)
      ⊎ ((calls_of k (run taken during).1 ≡ [])
          × (Map.lookup k (run taken during).0.subscriptions ≡ none))
owed_run e k now taken during took inv inv_taken none_ over =
    let m = now.subscriptions in
    let passing : Passing e taken.pass = subst (Passing e) (sym took.running) (inl took.event) in
    let owes : owed_by e k taken.pass ≡ owed e k (tokens_for e.name m) =
      ap (owed_by e k) took.running ∙ ap (owed e k) took.tokens in
    elim (Bool-cases (subscribed_to e.name k now)) [
      | inl there ↦ rw there (
          run-due e k taken during inv_taken passing none_ (none_left e k (run taken during).0 over)
            (owes ∙ tokens_for-named e k m inv.distinct there))
      | inr other ↦ rw other (
          inl (
            run-silent e k taken during passing none_
              (owes ∙ tokens_for-unnamed e k m inv.distinct other)))
    ]

-- On a bus that was created, after any inputs, let a pass take the event e, and let any inputs
-- follow that take no further event and leave the pass with nothing to call. Then e is the event
-- published next after those taken before it, and those still queued follow it in the order of
-- publication. Each token is called just once, with e, if it was subscribed to the name of e when e
-- was taken, and otherwise not at all; or it is not called and its subscription is gone at the end.
pub delivered_once :
    (capacity payload_limit : Option Bound) (handler : Option Bool) (s : Bus)
    (before during : List Input) (e : QueuedEvent) (k : ℕ)
    → create_event_bus capacity payload_limit handler ≡ ok s
    → (advance (run s before).0).1 ≡ dequeued e ∷ []
    → dequeued_of (run (advance (run s before).0).0 during).1 ≡ []
    → tokens_left (run (advance (run s before).0).0 during).0 ≡ []
    → let now = (run s before).0 in
      let last = run (advance now).0 during in
      (published_of (run s before).1 ≡ dequeued_of (run s before).1 ++ e ∷ (advance now).0.queue)
      × ((calls_of k last.1 ≡ expected e k now)
          ⊎ ((calls_of k last.1 ≡ []) × (Map.lookup k last.0.subscriptions ≡ none)))
unfolding step
delivered_once capacity payload_limit handler s before during e k created took none_ over =
    let now = (run s before).0 in
    let inv =
      run-IsBus s before (create_event_bus-IsBus capacity payload_limit handler s created) in
    let taken = advance-Taken e now took in
    let empty = create_event_bus_queue capacity payload_limit handler s created in
    (
      ap (λ q. q ++ published_of (run s before).1) (sym empty)
          ∙ run-InOrder s before
          ∙ ap (λ q. dequeued_of (run s before).1 ++ q) taken.queue,
      owed_run e k now (advance now).0 during taken inv (step-IsBus now advances inv) none_ over,
    )
