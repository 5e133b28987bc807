-- ===== src/Events/Delivery.antt =====
-- The invariant of a bus, and that its passes keep it.
use u.Base.{
  ℕ, ◌≡◌, refl, ap, subst, sym, ◌∙◌, ◌<◌, ◌≤◌, String, Bool, true, false, Option, none, some, List,
  [], ◌∷◌, nat_key, string_key, ◌==◌, ltb, length, includes, Bool-cases, inl, inr, arith, All,
}
use u.Base.Map
use u.Base.Map.{
  Map, Distinct, lookup-insert, lookup-remove, lookup-retain, insert-Distinct, remove-Distinct,
  retain-Distinct,
}
use u.Events.{SubscriptionRecord, QueuedEvent, Bus, Pass, Budget, pass_limit, tokens_for}
use u.Events.Drain.{
  draining, drain, next_event, next_sink, slice, advance_pass, settled, settle_pass,
}
use u.Events.Facts.{IsPublishable}

-- The tokens that a pass still has to call are those of subscriptions to its event, if they are left.
pub record IsPass (subscriptions : Map ℕ SubscriptionRecord) (next_token : ℕ) (p : Pass)
    : Type 0 where
  pub within : p.delivered ≤ p.limit
  pub known : (t : ℕ) → includes p.tokens t ≡ true → t < next_token
  pub matching :
      (t : ℕ) (r : SubscriptionRecord) (e : QueuedEvent)
      → includes p.tokens t ≡ true
      → Map.lookup t subscriptions ≡ some r
      → p.event ≡ some e
      → r.name ≡ e.name

abbrev pub PassOk : Map ℕ SubscriptionRecord → ℕ → Option Pass → Type 0
PassOk subscriptions next_token none = Unit
PassOk subscriptions next_token (some p) = IsPass subscriptions next_token p

pub record IsBus (s : Bus) : Type 0 where
  pub fits : length s.queue ≤ s.capacity
  pub queued : All (IsPublishable s.payload_limit) s.queue
  pub distinct : Distinct s.subscriptions
  pub fresh :
      (t : ℕ) (r : SubscriptionRecord) → Map.lookup t s.subscriptions ≡ some r → t < s.next_token
  pub pass_ok : PassOk s.subscriptions s.next_token s.pass

narrow-PassOk :
    (old new : Map ℕ SubscriptionRecord) (m n : ℕ) (pass : Option Pass)
    → ((t : ℕ) (r : SubscriptionRecord)
        → t < m
        → Map.lookup t new ≡ some r
        → Map.lookup t old ≡ some r)
    → m ≤ n
    → PassOk old m pass
    → PassOk new n pass
narrow-PassOk old new m n none same le ok_ = tt
narrow-PassOk old new m n (some p) same le ok_ = record {
  within = ok_.within;
  known = λ t h. ground (arith, ok_.known t);
  matching = λ t r e h there at. ok_.matching t r e h (same t r (ok_.known t h) there) at;
}

-- Subscriptions may be taken out, and added under new tokens.
pub subscribed-IsBus :
    (s : Bus) (new : Map ℕ SubscriptionRecord) (n : ℕ)
    → Distinct new
    → ((t : ℕ) (r : SubscriptionRecord) → Map.lookup t new ≡ some r → t < n)
    → ((t : ℕ) (r : SubscriptionRecord)
        → t < s.next_token
        → Map.lookup t new ≡ some r
        → Map.lookup t s.subscriptions ≡ some r)
    → s.next_token ≤ n
    → IsBus s
    → IsBus (record s { subscriptions = new; next_token = n })
subscribed-IsBus s new n distinct fresh same le inv = record {
  fits = inv.fits;
  queued = inv.queued;
  distinct = distinct;
  fresh = fresh;
  pass_ok = narrow-PassOk s.subscriptions new s.next_token n s.pass same le inv.pass_ok;
}

passed-IsBus :
    (s : Bus) (pass : Option Pass)
    → PassOk s.subscriptions s.next_token pass
    → IsBus s
    → IsBus (record s { pass = pass })
passed-IsBus s pass ok_ inv = record {
  fits = inv.fits;
  queued = inv.queued;
  distinct = inv.distinct;
  fresh = inv.fresh;
  pass_ok = ok_;
}

pub tokens_for-lookup :
    (name : String) (m : Map ℕ SubscriptionRecord) (t : ℕ)
    → Distinct m
    → includes (tokens_for name m) t ≡ true
    → (r : SubscriptionRecord) × (Map.lookup t m ≡ some r) × (r.name ≡ name)
unfolding tokens_for Map.lookup
tokens_for-lookup name [] t d h = absurd (ground arith)
tokens_for-lookup name ((token, r) ∷ m) t (new, d) h = elim (Bool-cases (token == t)) [
  | inl hit ↦ elim (Bool-cases (r.name == name)) [
    | inl named ↦ (r, rw hit refl, (string_key.same_iff r.name name).0 named)
    | inr other ↦
        let (q, there, same) = tokens_for-lookup name m t d (ground arith) in
        let gone = subst (λ x. Map.lookup x m ≡ none) ((nat_key.same_iff token t).0 hit) new in
        absurd (cc)
  ]
  | inr miss ↦
      let rest = tokens_for-lookup name m t d (ground arith) in (rest.0, rw miss rest.1, rest.2)
]

next_event-IsBus :
    (s : Bus) (p : Pass) (queue : List QueuedEvent)
    → s.queue ≡ queue
    → IsBus s
    → IsBus (next_event s p queue).0
next_event-IsBus s p [] h inv = passed-IsBus s none tt inv
next_event-IsBus s p (e ∷ queue) h inv = elim (Bool-cases (ltb p.delivered p.limit)) [
  | inl more ↦ rw more (record {
    fits = ground (arith, inv.fits, ap length h);
    queued = (subst (All (IsPublishable s.payload_limit)) h inv.queued).1;
    distinct = inv.distinct;
    fresh = inv.fresh;
    pass_ok = record {
      within = ground arith;
      known = λ t there.
          let (r, found, same) = tokens_for-lookup e.name s.subscriptions t inv.distinct there in
          inv.fresh t r found;
      matching = λ t r f there found at.
          let (q, first, same) = tokens_for-lookup e.name s.subscriptions t inv.distinct there in
          let one : q ≡ r = ground arith in
          let two : e ≡ f = ground arith in
          ap (λ x. x.name) (sym one) ∙ same ∙ ap (λ x. x.name) two;
    };
  })
  | inr over ↦ rw over (passed-IsBus s none tt inv)
]

next_sink-IsBus :
    (s : Bus) (p : Pass) (token : ℕ) (tokens : List ℕ) (e : Option QueuedEvent)
    (r : Option SubscriptionRecord)
    → p.tokens ≡ token ∷ tokens
    → IsPass s.subscriptions s.next_token p
    → IsBus s
    → IsBus (next_sink s p token tokens e r).0
next_sink-IsBus s p token tokens e r h ok_ inv = go e r
  where
    left : (t : ℕ) → includes tokens t ≡ true → includes p.tokens t ≡ true
    left t there = ap (λ x. includes x t) h ∙ ground arith

    rest :
        (a : Bool)
        → IsPass s.subscriptions s.next_token (record p { tokens = tokens; awaiting = a })
    rest a = record {
      within = ok_.within;
      known = λ t there. ok_.known t (left t there);
      matching = λ t q f there found at. ok_.matching t q f (left t there) found at;
    }

    go :
        (e : Option QueuedEvent) (r : Option SubscriptionRecord)
        → IsBus (next_sink s p token tokens e r).0
    go none none = passed-IsBus s (some (record p { tokens = tokens })) (rest p.awaiting) inv
    go none (some r) = passed-IsBus s (some (record p { tokens = tokens })) (rest p.awaiting) inv
    go (some e) none = passed-IsBus s (some (record p { tokens = tokens })) (rest p.awaiting) inv
    go (some e) (some r) =
        passed-IsBus s (some (record p { tokens = tokens; awaiting = true })) (rest true) inv

slice-IsBus :
    (s : Bus) (p : Pass) (awaiting : Bool) (tokens : List ℕ)
    → p.tokens ≡ tokens
    → IsPass s.subscriptions s.next_token p
    → IsBus s
    → IsBus (slice s p awaiting tokens).0
slice-IsBus s p true tokens h ok_ inv = inv
slice-IsBus s p false [] h ok_ inv = next_event-IsBus s p s.queue refl inv
slice-IsBus s p false (token ∷ tokens) h ok_ inv =
    next_sink-IsBus s p token tokens p.event (Map.lookup token s.subscriptions) h ok_ inv

pub advance_pass-IsBus :
    (s : Bus) (pass : Option Pass)
    → PassOk s.subscriptions s.next_token pass
    → IsBus s
    → IsBus (advance_pass s pass).0
advance_pass-IsBus s none ok_ inv = inv
advance_pass-IsBus s (some p) ok_ inv = slice-IsBus s p p.awaiting p.tokens refl ok_ inv

pub settle_pass-IsBus :
    (s : Bus) (threw : Bool) (pass : Option Pass)
    → PassOk s.subscriptions s.next_token pass
    → IsBus s
    → IsBus (settle_pass s threw pass).0
settle_pass-IsBus s threw none ok_ inv = inv
settle_pass-IsBus s threw (some p) ok_ inv = go p.awaiting
  where
    go : (a : Bool) → IsBus (settled s threw p a).0
    go false = inv
    go true =
        passed-IsBus s (some (record p { awaiting = false }))
          (record { within = ok_.within; known = ok_.known; matching = ok_.matching }) inv

pub drain-IsBus : (s : Bus) (budget : Budget) → IsBus s → IsBus (drain s budget).0
unfolding drain
drain-IsBus s budget inv = elim (Bool-cases (draining s)) [
  | inl busy ↦ rw busy inv
  | inr free ↦ elim (Bool-cases (pass_limit budget == 0)) [
    | inl empty ↦ rw (free, empty) inv
    | inr more ↦
        rw (free, more)
          (passed-IsBus s
            (some (record {
              limit = pass_limit budget;
              delivered = 0;
              event = none;
              tokens = [];
              awaiting = false;
            }))
            (record {
              within = omega arith;
              known = λ t h. ground arith;
              matching = λ t r e h found at. absurd (ground arith);
            })
            inv)
  ]
]
