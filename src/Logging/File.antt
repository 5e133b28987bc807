-- ===== src/Logging/File.antt =====
-- ts/src/plugins/logging/index.ts: the lines of the file sink, whose appends follow each other and
-- may fail.
use mathlib.Core.List.{append_assoc}
use u.Base.{
  some, subst, String, ◌≡◌, refl, sym, ap, ◌∙◌, Bool, true, false, Option, List, [], ◌∷◌, ◌++◌,
  Bool-cases, inl, inr, ◌⊎◌,
}
use u.Base.Int.{ℤ}
use u.Json.{Document, JsNumber}
use u.Logging.{LogEntryDoc, LogRing}
use u.Logging.Device.{
  Device, create_with_deps, read_entry, handle_log, dispatch_sinks, stored, settle_append,
  start_device, begin_stop, end_stop, device_with, resolve_file_path, is_set,
}
use u.Logging.Query.{after_log, entry-cases, create_with_deps-eq-some}

-- What happens to a device: `start`, a call of `log`, the end of an append, the two parts of `stop`.
pub data Event : Type 0 where
  logs_entry : Document → ℤ → Event
  settles_append : Bool → Event
  starts begins_stop ends_stop : Event

-- `stop` awaits the chain before it comes to its end.
abbrev pub stop_after : List LogEntryDoc → Device → Device
stop_after [] s = end_stop s
stop_after (line ∷ rest) s = s

unfoldable pub happen : Device → Event → Device
happen s (logs_entry args now) = after_log s (handle_log s args now)
happen s (settles_append fails) = settle_append fails s
happen s starts = start_device s
happen s begins_stop = begin_stop s
happen s ends_stop = stop_after s.file_chain s

unfoldable pub happen_all : Device → List Event → Device
happen_all s [] = s
happen_all s (e ∷ es) = happen_all (happen s e) es

-- The lines of the file are the first of the console's; while the file is on, those missing wait.
pub record IsOrdered (s : Device) : Type 0 where
  pub missing : List LogEntryDoc
  pub split : s.console ≡ s.file ++ missing
  pub waiting : s.file_enabled ≡ true → (missing ≡ s.file_chain) × (is_set s.file_path ≡ true)

dispatch-IsOrdered :
    (x : LogEntryDoc) (s : Device) → IsOrdered s → IsOrdered (dispatch_sinks x (stored x s))
unfolding dispatch_sinks
dispatch-IsOrdered x s v = record {
  missing = v.missing ++ x ∷ [];
  split = ap (λ l. l ++ x ∷ []) v.split ∙ append_assoc s.file v.missing (x ∷ []);
  waiting =
      λ on. let (same, path) = v.waiting on in (rw (on, path) (ap (λ l. l ++ x ∷ []) same), path);
}

log-IsOrdered :
    (s : Device) (args : Document) (now : ℤ)
    → IsOrdered s
    → IsOrdered (after_log s (handle_log s args now))
unfolding handle_log
log-IsOrdered s args now v = elim (entry-cases (read_entry args now)) [
  | inl (e, refused) ↦ rw (refused, handle_log) v
  | inr (x, read) ↦ rw (read, handle_log) (dispatch-IsOrdered x s v)
]

chain-cases :
    (l : List LogEntryDoc)
    → (l ≡ []) ⊎ ((line : LogEntryDoc) × (rest : List LogEntryDoc) × (l ≡ line ∷ rest))
chain-cases [] = inl refl
chain-cases (line ∷ rest) = inr (line, rest, refl)

turned_off :
    (s : Device) (rest : List LogEntryDoc)
    → IsOrdered s
    → IsOrdered (record s { file_enabled = false; file_chain = rest })
turned_off s rest v = record { missing = v.missing; split = v.split; waiting = λ on. absurd (cc) }

appended :
    (s : Device) (line : LogEntryDoc) (rest : List LogEntryDoc)
    → s.file_chain ≡ line ∷ rest
    → s.file_enabled ≡ true
    → IsOrdered s
    → IsOrdered (record s { file_enabled = true; file_chain = rest; file = s.file ++ line ∷ [] })
appended s line rest chain on v =
    let (same, path) = v.waiting on in
    record {
      missing = rest;
      split =
          v.split
          ∙ ap (λ l. s.file ++ l) (same ∙ chain)
          ∙ sym (append_assoc s.file (line ∷ []) rest);
      waiting = λ still. (refl, path);
    }

settle-IsOrdered : (fails : Bool) (s : Device) → IsOrdered s → IsOrdered (settle_append fails s)
unfolding settle_append
settle-IsOrdered fails s v = elim (chain-cases s.file_chain) [
  | inl empty ↦ rw (empty, settle_append) v
  | inr (line, rest, chain) ↦ elim (Bool-cases s.file_enabled) [
    | inr disabled ↦ rw (chain, disabled, settle_append) (turned_off s rest v)
    | inl on ↦ elim (Bool-cases fails) [
      | inl failing ↦ rw (chain, on, failing, settle_append) (turned_off s rest v)
      | inr good ↦ rw (chain, on, good, settle_append) (appended s line rest chain on v)
    ]
  ]
]

stop-IsOrdered :
    (chain : List LogEntryDoc) (s : Device) → IsOrdered s → IsOrdered (stop_after chain s)
unfolding end_stop
stop-IsOrdered [] s v = record { missing = v.missing; split = v.split; waiting = λ on. absurd (cc) }
stop-IsOrdered (line ∷ rest) s v = v

happen-IsOrdered : (s : Device) (e : Event) → IsOrdered s → IsOrdered (happen s e)
unfolding happen start_device begin_stop
happen-IsOrdered s (logs_entry args now) v = log-IsOrdered s args now v
happen-IsOrdered s (settles_append fails) v = settle-IsOrdered fails s v
happen-IsOrdered s starts v = record { missing = v.missing; split = v.split; waiting = v.waiting }
happen-IsOrdered s begins_stop v = record {
  missing = v.missing;
  split = v.split;
  waiting = v.waiting;
}
happen-IsOrdered s ends_stop v = stop-IsOrdered s.file_chain s v

new-IsOrdered :
    (ring : LogRing LogEntryDoc) (file_path : Option String)
    → IsOrdered (device_with ring file_path)
new-IsOrdered ring file_path = record { missing = []; split = refl; waiting = λ on. (refl, on) }

happen_all-IsOrdered : (s : Device) (es : List Event) → IsOrdered s → IsOrdered (happen_all s es)
unfolding happen_all
happen_all-IsOrdered s [] v = v
happen_all-IsOrdered s (e ∷ es) v = happen_all-IsOrdered (happen s e) es (happen-IsOrdered s e v)

-- Whatever is logged and whichever appends fail, the file of a device holds the first lines of those
-- offered to the console, in their order, and while its sink is on the lines that it misses are those
-- that wait.
pub file-IsOrdered :
    (ring_env : Option JsNumber) (file_env : Option String) (s : Device) (es : List Event)
    → create_with_deps ring_env file_env ≡ some s
    → IsOrdered (happen_all s es)
file-IsOrdered ring_env file_env s es made =
    let (ring, good, same) = create_with_deps-eq-some ring_env file_env s made in
    happen_all-IsOrdered s es
      (subst IsOrdered same (new-IsOrdered ring (resolve_file_path file_env)))
