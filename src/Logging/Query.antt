-- ===== src/Logging/Query.antt =====
-- ts/src/plugins/logging/index.ts: what the device answers from, and what becomes of its lines.
use u.Base.{
  ℕ, suc, zero, ◌≡◌, ◌<◌, refl, sym, ap, subst, ◌∙◌, ◌-◌, String, Bool, true, false, not, ◌&&◌,
  Option, none, some, List, [], ◌∷◌, ◌++◌, ltb, keep, length, if◌then◌else◌, Result, ok, err, arith,
  Bool-cases, inl, inr, ◌⊎◌,
}
use u.Base.Int.{ℤ}
use u.Json.{Document, JsNumber, nat, is_safe_integer}
use u.Logging.{LogEntryDoc, LogRing, new_ring, entries}
use u.Logging.Newest.{drop, newest}
use u.Logging.Ring.{push_all, ring_keeps_newest}
use u.Logging.Device.{
  Device, Query, create_with_deps, device_with, resolve_capacity, resolve_file_path, read_entry,
  handle_log, dispatch_sinks, stored, read_query, fits, window, handle_query,
}

abbrev pub Log : Type 0
Log = Document × ℤ

abbrev pub after_log : Device → Result Device → Device
after_log s (err e) = s
after_log s (ok t) = t

-- The device after calls of `log`, each at its time.
unfoldable pub log_all : Device → List Log → Device
log_all s [] = s
log_all s ((args, now) ∷ logs) = log_all (after_log s (handle_log s args now)) logs

abbrev pub and_entry : Result LogEntryDoc → List LogEntryDoc → List LogEntryDoc
and_entry (err e) rest = rest
and_entry (ok entry) rest = entry ∷ rest

-- The entries of the calls that were accepted.
abbrev pub accepted_logs : List Log → List LogEntryDoc
accepted_logs [] = []
accepted_logs ((args, now) ∷ logs) = and_entry (read_entry args now) (accepted_logs logs)

pub entry-cases :
    (r : Result LogEntryDoc)
    → ((e : u.Base.RackStatus) × (r ≡ err e)) ⊎ ((x : LogEntryDoc) × (r ≡ ok x))
entry-cases (err e) = inl (e, refl)
entry-cases (ok x) = inr (x, refl)

log_all_ring :
    (s : Device) (logs : List Log) → (log_all s logs).ring ≡ push_all (accepted_logs logs) s.ring
unfolding log_all push_all handle_log dispatch_sinks
log_all_ring s [] = refl
log_all_ring s ((args, now) ∷ logs) = elim (entry-cases (read_entry args now)) [
  | inl (e, refused) ↦ rw (refused, log_all) (log_all_ring s logs)
  | inr (x, read) ↦ rw (read, log_all) (log_all_ring (dispatch_sinks x (stored x s)) logs)
]

resolve_capacity_positive : (env : Option JsNumber) → 0 < resolve_capacity env
unfolding resolve_capacity
resolve_capacity_positive none = omega arith
resolve_capacity_positive (some (nat zero)) = omega arith
resolve_capacity_positive (some (nat (suc n))) = ground arith
resolve_capacity_positive (some (u.Json.neg n)) = omega arith
resolve_capacity_positive (some u.Json.fraction) = omega arith
resolve_capacity_positive (some u.Json.non_finite) = omega arith

pub create_with_deps-eq-some :
    (ring_env : Option JsNumber) (file_env : Option String) (s : Device)
    → create_with_deps ring_env file_env ≡ some s
    → (ring : LogRing LogEntryDoc) × (new_ring (resolve_capacity ring_env) ≡ some ring)
      × (device_with ring (resolve_file_path file_env) ≡ s)
unfolding create_with_deps
create_with_deps-eq-some ring_env file_env s made =
    by_ring (new_ring (resolve_capacity ring_env)) made
  where
    by_ring :
        (o : Option (LogRing LogEntryDoc))
        → elim o [ none ↦ none | some ring ↦ some (device_with ring (resolve_file_path file_env)) ]
          ≡ some s
        → (ring : LogRing LogEntryDoc) × (o ≡ some ring)
          × (device_with ring (resolve_file_path file_env) ≡ s)
    by_ring none bad = absurd (cc)
    by_ring (some ring) good = (ring, refl, cc)

create_with_deps_ring :
    (ring_env : Option JsNumber) (file_env : Option String) (s : Device)
    → create_with_deps ring_env file_env ≡ some s
    → new_ring (resolve_capacity ring_env) ≡ some s.ring
create_with_deps_ring ring_env file_env s made =
    let (ring, good, same) = create_with_deps-eq-some ring_env file_env s made in
    good ∙ ap (λ (d : Device). some d.ring) same

window-newest :
    (earlier : ℤ → JsNumber → Bool) (q : Query) (held : List LogEntryDoc)
    → window earlier q held ≡ (record {
      found = newest q.limit (keep (fits earlier q) held);
      total = length (keep (fits earlier q) held);
    })
unfolding window
window-newest earlier q held =
    ap
      (λ n. record {
        found = drop n (keep (fits earlier q) held);
        total = length (keep (fits earlier q) held);
      })
      (limited q.limit (length (keep (fits earlier q) held)))
  where
    limited : (limit total : ℕ) → (if ltb limit total then total - limit else 0) ≡ total - limit
    limited limit total = ground arith

-- A query of well-formed args, after calls of `log` on a new device that could be made, returns of the newest accepted
-- entries, as many as the capacity allows, those that fit, and of those the newest up to the limit,
-- with the number that fit.
pub query_finds_newest :
    (earlier : ℤ → JsNumber → Bool) (ring_env : Option JsNumber) (file_env : Option String)
    (s : Device) (logs : List Log) (args : Document) (q : Query)
    → create_with_deps ring_env file_env ≡ some s
    → read_query args ≡ ok q
    → let matched =
        keep (fits earlier q) (newest (resolve_capacity ring_env) (accepted_logs logs)) in
      handle_query earlier (log_all s logs) args
      ≡ ok (record { found = newest q.limit matched; total = length matched })
unfolding handle_query
query_finds_newest earlier ring_env file_env s logs args q made read = rw read (
    ap ok (
      ap (window earlier q) (
        ap entries (log_all_ring s logs)
        ∙ ring_keeps_newest (resolve_capacity ring_env) s.ring (accepted_logs logs)
            (resolve_capacity_positive ring_env) (create_with_deps_ring ring_env file_env s made))
      ∙ window-newest earlier q (newest (resolve_capacity ring_env) (accepted_logs logs))))
