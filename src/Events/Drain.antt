-- ===== src/Events/Drain.antt =====
-- `drain` and `deliver`, and the histories of a bus.
use u.Base.{
  ℕ, suc, String, Bool, true, false, ◌&&◌, Option, none, some, List, [], ◌∷◌, ◌++◌, nat_key, ◌==◌,
  ltb, if◌then◌else◌, Result, ok, err,
}
use u.Base.Map
use u.Json.{Document}
use u.Events.{
  SubscriptionRecord, QueuedEvent, Pass, Bus, Budget, pass_limit, tokens_for, Output, accepted,
  dequeued, called, reported, drained, subscribe, unsubscribe, unsubscribe_all, publish,
}

abbrev pub draining : Bus → Bool
draining s = elim s.pass [ none ↦ false | some p ↦ true ]

-- The code of `drain` up to the loop: where it answers at once, the answer.
unfoldable pub drain : Bus → Budget → Bus × List Output
drain s budget =
    if draining s
    then (s, drained 0 ∷ [])
    else if pass_limit budget == 0
    then (s, drained 0 ∷ [])
    else (
      record s {
        pass = some (record {
          limit = pass_limit budget;
          delivered = 0;
          event = none;
          tokens = [];
          awaiting = false;
        });
      },
      [],
    )

abbrev pub finish : Bus → Pass → Bus × List Output
finish s p = (record s { pass = none }, drained p.delivered ∷ [])

-- The head of the loop of `drain`, and the snapshot of `deliver`.
abbrev pub next_event : Bus → Pass → List QueuedEvent → Bus × List Output
next_event s p [] = finish s p
next_event s p (entry ∷ queue) =
    if ltb p.delivered p.limit
    then (
      record s {
        queue = queue;
        pass = some (record p {
          delivered = suc p.delivered;
          event = some entry;
          tokens = tokens_for entry.name s.subscriptions;
        });
      },
      dequeued entry ∷ [],
    )
    else finish s p

-- One round of the loop of `deliver`.
abbrev pub next_sink :
    Bus → Pass → ℕ → List ℕ → Option QueuedEvent → Option SubscriptionRecord → Bus × List Output
next_sink s p token tokens (some e) (some r) = (
  record s { pass = some (record p { tokens = tokens; awaiting = true }) },
  called token r e ∷ [],
)
next_sink s p token tokens _ _ = (record s { pass = some (record p { tokens = tokens }) }, [])

abbrev pub slice : Bus → Pass → Bool → List ℕ → Bus × List Output
slice s p true tokens = (s, [])
slice s p false [] = next_event s p s.queue
slice s p false (token ∷ tokens) =
    next_sink s p token tokens p.event (Map.lookup token s.subscriptions)

abbrev pub advance_pass : Bus → Option Pass → Bus × List Output
advance_pass s none = (s, [])
advance_pass s (some p) = slice s p p.awaiting p.tokens

-- A part of the pass without an `await` inside: other calls of the bus may come between any two.
unfoldable pub advance : Bus → Bus × List Output
unfolding tokens_for
advance s = advance_pass s s.pass

abbrev pub settled : Bus → Bool → Pass → Bool → Bus × List Output
settled s threw p false = (s, [])
settled s threw p true = (
  record s { pass = some (record p { awaiting = false }) },
  if threw && s.has_handler then reported ∷ [] else [],
)

abbrev pub settle_pass : Bus → Bool → Option Pass → Bus × List Output
settle_pass s threw none = (s, [])
settle_pass s threw (some p) = settled s threw p p.awaiting

-- The sink that is awaited returns or throws.
unfoldable pub settle : Bus → Bool → Bus × List Output
settle s threw = settle_pass s threw s.pass

pub data Input : Type 0 where
  subscribes : Option String → Option ℕ → Option String → Input
  unsubscribes : ℕ → Input
  unsubscribes_all : String → Input
  publishes : Option String → Document → Input
  drains : Budget → Input
  advances : Input
  settles : Bool → Input

abbrev pub after_subscribe : Bus → Result (Bus × ℕ) → Bus × List Output
after_subscribe s (err status) = (s, [])
after_subscribe s (ok (next, token)) = (next, [])

abbrev pub after_publish : Bus → Result (Bus × QueuedEvent) → Bus × List Output
after_publish s (err status) = (s, [])
after_publish s (ok (next, e)) = (next, accepted e ∷ [])

unfoldable pub step : Bus → Input → Bus × List Output
step s (subscribes name sink owner) = after_subscribe s (subscribe s name sink owner)
step s (unsubscribes token) = (unsubscribe s token, [])
step s (unsubscribes_all owner) = (unsubscribe_all s owner, [])
step s (publishes name payload) = after_publish s (publish s name payload)
step s (drains budget) = drain s budget
step s advances = advance s
step s (settles threw) = settle s threw

unfoldable pub run : Bus → List Input → Bus × List Output
run s [] = (s, [])
run s (i ∷ is) = let now = step s i in let later = run now.0 is in (later.0, now.1 ++ later.1)
