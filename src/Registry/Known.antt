-- ===== src/Registry/Known.antt =====
-- What watchers know when nothing is being delivered.
use u.Base.{
  ℕ, ◌≡◌, sym, ap, subst, ◌∙◌, String, true, Option, none, some, List, [], ◌++◌, nat_key,
  string_key, includes, ok, arith,
}
use u.Base.Map
use u.Base.Map.{Map, Distinct, lookup-insert, lookup-remove, insert-Distinct, remove-Distinct}
use u.Capability.{CapEvent}
use u.Registry.{Registry, watched_by, watch, is_active, advance}
use u.Registry.View.{learn_all, table_view, known}
use u.Registry.Sync.{
  Reach, start, registers, withdraws, watches, unsubscribes, advances, arriving, pending, IsSynced,
  start-IsSynced,
}
use u.Registry.Change.{register-IsSynced, withdraw-IsSynced}
use u.Registry.Arrive.{watched-IsSynced, unsubscribe-IsSynced}
use u.Registry.Deliver.{advance_frames-IsSynced}

watch-IsSynced :
    (s t : Registry) (log : List (ℕ × CapEvent)) (sink : Option ℕ) (watcher_id : String)
    → watch s sink watcher_id ≡ ok t
    → IsSynced s log
    → IsSynced t log
unfolding watch
watch-IsSynced s t log none watcher_id h inv = absurd (ground arith)
watch-IsSynced s t log (some sink) watcher_id h inv =
    let same : watched_by s sink watcher_id ≡ t = ground arith in
    subst (λ x. IsSynced x log) same (watched-IsSynced s log sink watcher_id inv)

Reach-IsSynced : {s : Registry} {log : List (ℕ × CapEvent)} → Reach s log → IsSynced s log
unfolding advance
Reach-IsSynced start = start-IsSynced
Reach-IsSynced (registers {s} {log} entry t r idle h) =
    register-IsSynced s t log entry idle h (Reach-IsSynced r)
Reach-IsSynced (withdraws {s} {log} plug_id generation r idle) =
    withdraw-IsSynced s log plug_id generation idle (Reach-IsSynced r)
Reach-IsSynced (watches {s} {log} sink watcher_id t r h) =
    watch-IsSynced s t log sink watcher_id h (Reach-IsSynced r)
Reach-IsSynced (unsubscribes {s} {log} w r) = unsubscribe-IsSynced s log w (Reach-IsSynced r)
Reach-IsSynced (advances {s} {log} r) =
    let inv = Reach-IsSynced r in advance_frames-IsSynced s log s.frames inv inv

-- Whatever watches come and go, also from within deliveries: where sinks do not register or withdraw
-- from within them, a watcher that has joined and is active knows, once all is delivered, exactly what
-- is in the table: of each id the version and the methods, or that there are none.
pub watchers_know_table :
    (s : Registry) (log : List (ℕ × CapEvent)) (w : ℕ) (p : String)
    → Reach s log
    → s.frames ≡ []
    → includes s.watchers w ≡ true
    → is_active (Map.lookup w s.records) ≡ true
    → known w log p ≡ table_view s.table p
watchers_know_table s log w p r idle joined active =
    let inv = Reach-IsSynced r in
    ap (λ f. learn_all (pending f w) (known w log) p) (sym idle)
    ∙ inv.synced w p (ap (λ f. includes (arriving f ++ s.watchers) w) idle ∙ joined) active
