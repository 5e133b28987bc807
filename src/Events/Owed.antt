-- ===== src/Events/Owed.antt =====
-- What a pass still owes to the subscription of one token, from one event to the next.
use u.Base.{
  ℕ, ◌≡◌, refl, ap, subst, sym, ◌∙◌, ◌⊎◌, Bool, true, false, ◌&&◌, Option, none, some, List, [],
  ◌∷◌, nat_key, string_key, ◌==◌, ltb, if◌then◌else◌, Result, ok, err, Bool-cases, inl, inr, arith,
}
use u.Base.Map
use u.Base.Map.{Map, Distinct}
use u.Events.{
  SubscriptionRecord, QueuedEvent, Bus, Pass, Budget, pass_limit, subscribe, unsubscribe,
  unsubscribe_all, publish, Output, accepted, called, reported, drained,
}
use u.Events.Drain.{
  draining, drain, next_event, next_sink, slice, advance, advance_pass, settled, settle,
  settle_pass, Input, subscribes, unsubscribes, unsubscribes_all, publishes, drains, advances,
  settles, after_subscribe, after_publish, step,
}
use u.Events.Facts.{publish-IsPublished, subscribe-IsSubscribed}
use u.Events.Queue.{dequeued_of}

-- The events with which the subscription of a token was called.
abbrev pub calls_of : ℕ → List Output → List QueuedEvent
calls_of k [] = []
calls_of k (called t r e ∷ out) = if t == k then e ∷ calls_of k out else calls_of k out
calls_of k (_ ∷ out) = calls_of k out

abbrev pub owed : QueuedEvent → ℕ → List ℕ → List QueuedEvent
owed e k [] = []
owed e k (t ∷ ts) = if t == k then e ∷ owed e k ts else owed e k ts

abbrev pub owed_by : QueuedEvent → ℕ → Option Pass → List QueuedEvent
owed_by e k none = []
owed_by e k (some p) = owed e k p.tokens

-- A pass that delivers the event, or has none to call.
abbrev pub Passing : QueuedEvent → Option Pass → Type 0
Passing e none = Unit
Passing e (some p) = (p.event ≡ some e) ⊎ (p.tokens ≡ [])

-- A call that was due stays so, is made, or is dropped with its subscription.
abbrev Progress : QueuedEvent → ℕ → Bus → Bus × List Output → Type 0
Progress e k s next =
    ((calls_of k next.1 ≡ []) × (owed_by e k next.0.pass ≡ e ∷ []))
    ⊎ (((calls_of k next.1 ≡ e ∷ []) × (owed_by e k next.0.pass ≡ []))
        ⊎ ((calls_of k next.1 ≡ [])
            × (owed_by e k next.0.pass ≡ [])
            × (Map.lookup k s.subscriptions ≡ none)))

pub record Moves (e : QueuedEvent) (k : ℕ) (s : Bus) (next : Bus × List Output) : Type 0 where
  pub passing : Passing e next.0.pass
  pub idle : owed_by e k s.pass ≡ [] → (calls_of k next.1 ≡ []) × (owed_by e k next.0.pass ≡ [])
  pub due : owed_by e k s.pass ≡ e ∷ [] → Progress e k s next

module _ (e : QueuedEvent) (k : ℕ) where
  quiet-Moves :
      (s : Bus) (next : Bus × List Output)
      → Passing e next.0.pass
      → calls_of k next.1 ≡ []
      → owed_by e k next.0.pass ≡ owed_by e k s.pass
      → Moves e k s next
  quiet-Moves s next passing silent same = record {
    passing = passing;
    idle = λ h. (silent, same ∙ h);
    due = λ h. inl (silent, same ∙ h);
  }

  next_event-Moves :
      (s : Bus) (p : Pass) (queue : List QueuedEvent)
      → owed_by e k s.pass ≡ []
      → dequeued_of (next_event s p queue).1 ≡ []
      → Moves e k s (next_event s p queue)
  next_event-Moves s p [] nothing h = quiet-Moves s (next_event s p []) tt refl (sym nothing)
  next_event-Moves s p (f ∷ queue) nothing h = elim (Bool-cases (ltb p.delivered p.limit)) [
    | inl more ↦ absurd (ground arith)
    | inr over ↦
        rw over
          (quiet-Moves s (record s { pass = none }, drained p.delivered ∷ []) tt refl (sym nothing))
  ]

  owed-next :
      (s : Bus) (p : Pass) (token : ℕ) (tokens : List ℕ)
      → s.pass ≡ some p
      → p.tokens ≡ token ∷ tokens
      → owed_by e k s.pass ≡ (if token == k then e ∷ owed e k tokens else owed e k tokens)
  owed-next s p token tokens at listed = ap (owed_by e k) at ∙ ap (owed e k) listed

  only_one : (l : List QueuedEvent) → (e ∷ l) ≡ e ∷ [] → l ≡ []
  only_one l h = cc

  next_sink-Moves :
      (s : Bus) (p : Pass) (token : ℕ) (tokens : List ℕ) (r : Option SubscriptionRecord)
      → s.pass ≡ some p
      → p.tokens ≡ token ∷ tokens
      → p.event ≡ some e
      → Map.lookup token s.subscriptions ≡ r
      → Moves e k s (next_sink s p token tokens (some e) r)
  next_sink-Moves s p token tokens (some r) at listed event found =
      let now = owed-next s p token tokens at listed in
      elim (Bool-cases (token == k)) [
        | inl hit ↦
            let one : owed_by e k s.pass ≡ e ∷ owed e k tokens = ground arith in
            record {
              passing = inl event;
              idle = λ h. absurd (cc);
              due = λ h. inr (inl (rw hit refl, only_one (owed e k tokens) (sym one ∙ h)));
            }
        | inr miss ↦
            let same : owed_by e k s.pass ≡ owed e k tokens = ground arith in
            record {
              passing = inl event;
              idle = λ h. (rw miss refl, sym same ∙ h);
              due = λ h. inl (rw miss refl, sym same ∙ h);
            }
      ]
  next_sink-Moves s p token tokens none at listed event found =
      let now = owed-next s p token tokens at listed in
      elim (Bool-cases (token == k)) [
        | inl hit ↦
            let one : owed_by e k s.pass ≡ e ∷ owed e k tokens = ground arith in
            record {
              passing = inl event;
              idle = λ h. absurd (cc);
              due = λ h. inr (
                  inr (
                    refl,
                    only_one (owed e k tokens) (sym one ∙ h),
                    subst (λ t. Map.lookup t s.subscriptions ≡ none)
                        ((nat_key.same_iff token k).0 hit) found,
                  ));
            }
        | inr miss ↦
            let same : owed_by e k s.pass ≡ owed e k tokens = ground arith in
            record {
              passing = inl event;
              idle = λ h. (refl, sym same ∙ h);
              due = λ h. inl (refl, sym same ∙ h);
            }
      ]

  slice-Moves :
      (s : Bus) (p : Pass) (awaiting : Bool) (tokens : List ℕ)
      → s.pass ≡ some p
      → p.tokens ≡ tokens
      → Passing e (some p)
      → dequeued_of (slice s p awaiting tokens).1 ≡ []
      → Moves e k s (slice s p awaiting tokens)
  slice-Moves s p true tokens at listed passing h =
      quiet-Moves s (s, []) (subst (Passing e) (sym at) passing) refl refl
  slice-Moves s p false [] at listed passing h =
      next_event-Moves s p s.queue (ap (owed_by e k) at ∙ ap (owed e k) listed) h
  slice-Moves s p false (token ∷ tokens) at listed (inr none_) h = absurd (cc)
  slice-Moves s p false (token ∷ tokens) at listed (inl event) h =
      subst (λ f. Moves e k s (next_sink s p token tokens f (Map.lookup token s.subscriptions)))
        (sym event)
        (next_sink-Moves s p token tokens (Map.lookup token s.subscriptions) at listed event refl)

  advance_pass-Moves :
      (s : Bus) (pass : Option Pass)
      → s.pass ≡ pass
      → Passing e pass
      → dequeued_of (advance_pass s pass).1 ≡ []
      → Moves e k s (advance_pass s pass)
  advance_pass-Moves s none at passing h =
      quiet-Moves s (s, []) (subst (Passing e) (sym at) passing) refl refl
  advance_pass-Moves s (some p) at passing h = slice-Moves s p p.awaiting p.tokens at refl passing h

  reported_calls : (b : Bool) → calls_of k (if b then reported ∷ [] else []) ≡ []
  reported_calls true = refl
  reported_calls false = refl

  settled-Moves :
      (s : Bus) (threw : Bool) (p : Pass) (a : Bool)
      → s.pass ≡ some p
      → Passing e (some p)
      → Moves e k s (settled s threw p a)
  settled-Moves s threw p false at passing =
      quiet-Moves s (s, []) (subst (Passing e) (sym at) passing) refl refl
  settled-Moves s threw p true at passing =
      quiet-Moves s (settled s threw p true) passing (reported_calls (threw && s.has_handler))
        (ap (owed_by e k) (sym at))

  settle_pass-Moves :
      (s : Bus) (threw : Bool) (pass : Option Pass)
      → s.pass ≡ pass
      → Passing e pass
      → Moves e k s (settle_pass s threw pass)
  settle_pass-Moves s threw none at passing =
      quiet-Moves s (s, []) (subst (Passing e) (sym at) passing) refl refl
  settle_pass-Moves s threw (some p) at passing = settled-Moves s threw p p.awaiting at passing

  not_draining : (s : Bus) → draining s ≡ false → s.pass ≡ none
  not_draining s h = by_pass s.pass h
    where
      by_pass : (o : Option Pass) → elim o [ none ↦ false | some p ↦ true ] ≡ false → o ≡ none
      by_pass none h = refl
      by_pass (some p) h = absurd (cc)

  drain-Moves : (s : Bus) (budget : Budget) → Passing e s.pass → Moves e k s (drain s budget)
  unfolding drain
  drain-Moves s budget passing = elim (Bool-cases (draining s)) [
    | inl busy ↦ rw (busy, drain) (quiet-Moves s (s, drained 0 ∷ []) passing refl refl)
    | inr free ↦ elim (Bool-cases (pass_limit budget == 0)) [
      | inl empty ↦ rw (free, empty, drain) (quiet-Moves s (s, drained 0 ∷ []) passing refl refl)
      | inr more ↦
          let silent : owed_by e k s.pass ≡ [] = ap (owed_by e k) (not_draining s free) in
          rw (free, more, drain) (quiet-Moves s _ (inr refl) refl (sym silent))
    ]
  ]

  after_subscribe-Moves :
      (s : Bus) (r : Result (Bus × ℕ))
      → ((next : Bus) (token : ℕ) → r ≡ ok (next, token) → next.pass ≡ s.pass)
      → Passing e s.pass
      → Moves e k s (after_subscribe s r)
  after_subscribe-Moves s (err status) h passing = quiet-Moves s (s, []) passing refl refl
  after_subscribe-Moves s (ok (next, token)) h passing =
      let same = h next token refl in
      quiet-Moves s (next, []) (subst (Passing e) (sym same) passing) refl (ap (owed_by e k) same)

  after_publish-Moves :
      (s : Bus) (r : Result (Bus × QueuedEvent))
      → ((next : Bus) (f : QueuedEvent) → r ≡ ok (next, f) → next.pass ≡ s.pass)
      → Passing e s.pass
      → Moves e k s (after_publish s r)
  after_publish-Moves s (err status) h passing = quiet-Moves s (s, []) passing refl refl
  after_publish-Moves s (ok (next, f)) h passing =
      let same = h next f refl in
      quiet-Moves s (next, accepted f ∷ []) (subst (Passing e) (sym same) passing) refl
        (ap (owed_by e k) same)

  -- A step that takes no further event.
  pub step-Moves :
      (s : Bus) (i : Input)
      → Passing e s.pass
      → dequeued_of (step s i).1 ≡ []
      → Moves e k s (step s i)
  unfolding step advance settle unsubscribe unsubscribe_all
  step-Moves s (subscribes name sink owner) passing h =
      after_subscribe-Moves s (subscribe s name sink owner)
        (λ next token made.
          ap (λ n. n.pass) (subscribe-IsSubscribed s next name sink owner token made).result)
        passing
  step-Moves s (unsubscribes token) passing h =
      quiet-Moves s (unsubscribe s token, []) passing refl refl
  step-Moves s (unsubscribes_all owner) passing h =
      quiet-Moves s (unsubscribe_all s owner, []) passing refl refl
  step-Moves s (publishes name payload) passing h =
      after_publish-Moves s (publish s name payload)
        (λ next f made. ap (λ n. n.pass) (publish-IsPublished s next name payload f made).result)
        passing
  step-Moves s (drains budget) passing h = drain-Moves s budget passing
  step-Moves s advances passing h = advance_pass-Moves s s.pass refl passing h
  step-Moves s (settles threw) passing h = settle_pass-Moves s threw s.pass refl passing
