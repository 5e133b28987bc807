-- ===== src/Events/Facts.antt =====
-- What a call of the bus that did not throw has passed and changed.
use u.Base.{
  ℕ, suc, ◌≡◌, refl, subst, ◌<◌, String, true, false, not, Option, none, some, [], ◌∷◌, ◌++◌,
  nat_key, string_key, ◌==◌, ltb, leb, length, Bool-cases, inl, inr, ok, RackStatus, >>=-eq-ok,
  guard->>, invalid_argument, limit_exceeded, arith,
}
use u.Base.Map
use u.Json.{Document, is_json_value, estimate_json_bytes}
use u.Lease.{or_throw}
use u.Events.{SubscriptionRecord, QueuedEvent, Bus, non_empty, starts_with, subscribe, publish}

pub or_throw-ok :
    {A : Type 0} (o : Option A) (e : RackStatus) (a : A) → or_throw o e ≡ ok a → o ≡ some a
or_throw-ok none e a h = absurd (cc)
or_throw-ok (some b) e a h = ground arith

-- An event that may be queued.
pub record IsPublishable (limit : ℕ) (e : QueuedEvent) : Type 0 where
  pub named : (e.name == "") ≡ false
  pub unreserved : starts_with "u42." e.name ≡ false
  pub json : is_json_value e.payload ≡ true
  pub small : ltb limit (estimate_json_bytes e.payload) ≡ false

pub record IsPublished (s next : Bus) (e : QueuedEvent) : Type 0 where
  pub fits : length s.queue < s.capacity
  pub publishable : IsPublishable s.payload_limit e
  pub result : next ≡ record s { queue = s.queue ++ e ∷ [] }

non_empty-some : (name : Option String) (s : String) → non_empty name ≡ some s → (s == "") ≡ false
non_empty-some none s h = absurd (cc)
non_empty-some (some t) s h = elim (Bool-cases (t == "")) [
  | inl empty ↦ absurd (ground arith)
  | inr full ↦ ground arith
]

pub publish-IsPublished :
    (s next : Bus) (name : Option String) (payload : Document) (e : QueuedEvent)
    → publish s name payload ≡ ok (next, e)
    → IsPublished s next e
unfolding publish
publish-IsPublished s next name payload e h =
    let (text, named, h1) = >>=-eq-ok (or_throw (non_empty name) invalid_argument) _ h in
    let (unreserved, h2) = guard->> (not (starts_with "u42." text)) invalid_argument _ h1 in
    let (json, h3) = guard->> (is_json_value payload) invalid_argument _ h2 in
    let (small, h4) =
      guard->> (not (ltb s.payload_limit (estimate_json_bytes payload))) limit_exceeded _ h3 in
    let (fits, h5) = guard->> (not (leb s.capacity (length s.queue))) limit_exceeded _ h4 in
    let event : QueuedEvent = record { name = text; payload = payload } in
    let queued : Bus = record s { queue = s.queue ++ event ∷ [] } in
    let one : queued ≡ next = ground arith in
    let two : event ≡ e = ground arith in
    subst (IsPublished s next) two (
      subst (λ n. IsPublished s n event) one
        (record {
          fits = ground arith;
          publishable = record {
            named =
                non_empty-some name text (or_throw-ok (non_empty name) invalid_argument text named);
            unreserved = ground arith;
            json = json;
            small = ground arith;
          };
          result = refl;
        }))

-- What a subscription is: a fresh token, and the owner that was given.
pub record IsSubscribed (s next : Bus) (owner_id : Option String) : Type 0 where
  pub record_ : SubscriptionRecord
  pub owned : owner_id ≡ some record_.owner_id
  pub result : next ≡ record s {
    subscriptions = Map.insert s.next_token record_ s.subscriptions;
    next_token = suc s.next_token;
  }

non_empty-same : (name : Option String) (s : String) → non_empty name ≡ some s → name ≡ some s
non_empty-same none s h = absurd (cc)
non_empty-same (some t) s h = elim (Bool-cases (t == "")) [
  | inl empty ↦ absurd (ground arith)
  | inr full ↦ ground arith
]

pub subscribe-IsSubscribed :
    (s next : Bus) (name : Option String) (sink : Option ℕ) (owner_id : Option String) (token : ℕ)
    → subscribe s name sink owner_id ≡ ok (next, token)
    → IsSubscribed s next owner_id
unfolding subscribe
subscribe-IsSubscribed s next name sink owner_id token h =
    let (text, named, h1) = >>=-eq-ok (or_throw (non_empty name) invalid_argument) _ h in
    let (receiver, received, h2) = >>=-eq-ok (or_throw sink invalid_argument) _ h1 in
    let (owner, owned, h3) = >>=-eq-ok (or_throw (non_empty owner_id) invalid_argument) _ h2 in
    let r : SubscriptionRecord = record { name = text; sink = receiver; owner_id = owner } in
    let added : Bus = record s {
      subscriptions = Map.insert s.next_token r s.subscriptions;
      next_token = suc s.next_token;
    } in
    let same : added ≡ next = ground arith in
    subst (λ n. IsSubscribed s n owner_id) same
      (record {
        record_ = r;
        owned =
            non_empty-same owner_id owner
              (or_throw-ok (non_empty owner_id) invalid_argument owner owned);
        result = refl;
      })
