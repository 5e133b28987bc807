-- ===== src/Events/Taken.antt =====
-- ts/src/core/events.ts: what `drain` sets out to do with the event that it takes.
use u.Base.{
  ℕ, suc, ◌≡◌, refl, ap, subst, ◌∙◌, String, Bool, true, false, Option, none, some, List, [], ◌∷◌,
  nat_key, string_key, ◌==◌, ltb, Bool-cases, inl, inr, arith,
}
use u.Base.Map
use u.Base.Map.{Map, Distinct}
use u.Events.{SubscriptionRecord, QueuedEvent, Bus, Pass, tokens_for, dequeued}
use u.Events.Drain.{next_event, next_sink, slice, advance, advance_pass}
use u.Events.Owed.{owed}

abbrev pub named_by : String → Option SubscriptionRecord → Bool
named_by name none = false
named_by name (some r) = r.name == name

-- Whether the subscription of a token is there, and to the name.
abbrev pub subscribed_to : String → ℕ → Bus → Bool
subscribed_to name k s = named_by name (Map.lookup k s.subscriptions)

pub tokens_for-unnamed :
    (e : QueuedEvent) (k : ℕ) (m : Map ℕ SubscriptionRecord)
    → Distinct m
    → named_by e.name (Map.lookup k m) ≡ false
    → owed e k (tokens_for e.name m) ≡ []
unfolding tokens_for Map.lookup
tokens_for-unnamed e k [] d h = refl
tokens_for-unnamed e k ((t, r) ∷ m) (new, d) h = elim (Bool-cases (t == k)) [
  | inl hit ↦
      let gone = subst (λ x. Map.lookup x m ≡ none) ((nat_key.same_iff t k).0 hit) new in
      let rest = tokens_for-unnamed e k m d (ap (named_by e.name) gone) in
      elim (Bool-cases (r.name == e.name)) [
        | inl named ↦ absurd (ground arith)
        | inr other ↦ rw other rest
      ]
  | inr miss ↦
      let rest = tokens_for-unnamed e k m d (ground arith) in
      elim (Bool-cases (r.name == e.name)) [
        | inl named ↦ rw (named, miss) rest
        | inr other ↦ rw other rest
      ]
]

pub tokens_for-named :
    (e : QueuedEvent) (k : ℕ) (m : Map ℕ SubscriptionRecord)
    → Distinct m
    → named_by e.name (Map.lookup k m) ≡ true
    → owed e k (tokens_for e.name m) ≡ e ∷ []
unfolding tokens_for Map.lookup
tokens_for-named e k [] d h = absurd (cc)
tokens_for-named e k ((t, r) ∷ m) (new, d) h = elim (Bool-cases (t == k)) [
  | inl hit ↦
      let gone = subst (λ x. Map.lookup x m ≡ none) ((nat_key.same_iff t k).0 hit) new in
      let rest = tokens_for-unnamed e k m d (ap (named_by e.name) gone) in
      elim (Bool-cases (r.name == e.name)) [
        | inl named ↦ rw (named, hit) (ap (λ l. e ∷ l) rest)
        | inr other ↦ absurd (ground arith)
      ]
  | inr miss ↦
      let rest = tokens_for-named e k m d (ground arith) in
      elim (Bool-cases (r.name == e.name)) [
        | inl named ↦ rw (named, miss) rest
        | inr other ↦ rw other rest
      ]
]

-- What `advance` has done where it took an event.
pub record Taken (e : QueuedEvent) (s next : Bus) : Type 0 where
  pub pass : Pass
  pub queue : s.queue ≡ e ∷ next.queue
  pub running : next.pass ≡ some pass
  pub event : pass.event ≡ some e
  pub tokens : pass.tokens ≡ tokens_for e.name s.subscriptions

pub advance-Taken :
    (e : QueuedEvent) (s : Bus) → (advance s).1 ≡ dequeued e ∷ [] → Taken e s (advance s).0
unfolding advance
advance-Taken e s h = by_pass s.pass h
  where
    by_event :
        (p : Pass) (queue : List QueuedEvent)
        → s.queue ≡ queue
        → (next_event s p queue).1 ≡ dequeued e ∷ []
        → Taken e s (next_event s p queue).0
    by_event p [] at g = absurd (ground arith)
    by_event p (f ∷ queue) at g = elim (Bool-cases (ltb p.delivered p.limit)) [
      | inr over ↦ absurd (ground arith)
      | inl more ↦
          let one : f ≡ e = ground arith in
          rw more (record {
            pass = record p {
              delivered = suc p.delivered;
              event = some f;
              tokens = tokens_for f.name s.subscriptions;
            };
            queue = at ∙ ap (λ x. x ∷ queue) one;
            running = refl;
            event = ap some one;
            tokens = ap (λ (x : QueuedEvent). tokens_for x.name s.subscriptions) one;
          })
    ]

    by_sink :
        (p : Pass) (token : ℕ) (tokens : List ℕ) (f : Option QueuedEvent)
        (r : Option SubscriptionRecord)
        → (next_sink s p token tokens f r).1 ≡ dequeued e ∷ []
        → Taken e s (next_sink s p token tokens f r).0
    by_sink p token tokens none none g = absurd (ground arith)
    by_sink p token tokens none (some r) g = absurd (ground arith)
    by_sink p token tokens (some f) none g = absurd (ground arith)
    by_sink p token tokens (some f) (some r) g = absurd (ground arith)

    by_slice :
        (p : Pass) (awaiting : Bool) (tokens : List ℕ)
        → (slice s p awaiting tokens).1 ≡ dequeued e ∷ []
        → Taken e s (slice s p awaiting tokens).0
    by_slice p true tokens g = absurd (ground arith)
    by_slice p false [] g = by_event p s.queue refl g
    by_slice p false (token ∷ tokens) g =
        by_sink p token tokens p.event (Map.lookup token s.subscriptions) g

    by_pass :
        (pass : Option Pass)
        → (advance_pass s pass).1 ≡ dequeued e ∷ []
        → Taken e s (advance_pass s pass).0
    by_pass none g = absurd (ground arith)
    by_pass (some p) g = by_slice p p.awaiting p.tokens g
