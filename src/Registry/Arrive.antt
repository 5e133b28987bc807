-- ===== src/Registry/Arrive.antt =====
-- New watches, and watches that end, keep the watchers in step with the table.
use u.Base.{
  ℕ, suc, ◌≡◌, ◌≤◌, refl, sym, ap, subst, ◌∙◌, String, true, false, Option, none, some, List, [],
  ◌∷◌, ◌++◌, nat_key, string_key, if◌then◌else◌, ◌==◌, includes, includes-append, Bool-cases, inl,
  inr, All, arith,
}
use mathlib.Core.List.{append-nil}
use u.Base.Map
use u.Base.Map.{Map, Distinct, lookup-insert, lookup-remove, insert-Distinct, remove-Distinct}
use u.Capability.{CapEvent}
use u.Registry.{
  WatchRecord, Frame, notifying, snapshotting, Registry, current_events, watched_by, silenced,
  unsubscribe, is_active,
}
use u.Registry.View.{
  nothing_known, learn_all, table_view, known, learn_all-ext, current_events-view,
}
use u.Registry.Sync.{arriving, pending, FrameOk, IsSynced}

-- Frames hold only numbers that were given.
frames_ok-le : (m n : ℕ) (fs : List Frame) → m ≤ n → All (FrameOk m) fs → All (FrameOk n) fs
frames_ok-le m n [] le all = tt
frames_ok-le m n (notifying ws e ∷ fs) le all =
    ((all.0.0, λ k h. ground (arith, all.0.1 k)), frames_ok-le m n fs le all.1)
frames_ok-le m n (snapshotting w es ∷ fs) le all = (tt, frames_ok-le m n fs le all.1)

-- A number that was not given is not pending.
pending-fresh :
    (n : ℕ) (fs : List Frame)
    → All (FrameOk n) fs
    → includes (arriving fs) n ≡ false
    → pending fs n ≡ []
pending-fresh n [] all new = refl
pending-fresh n (notifying ws e ∷ fs) all new = elim (Bool-cases (includes ws n)) [
  | inl there ↦ absurd (ground (arith, all.0.1 n))
  | inr absent ↦ rw absent (pending-fresh n fs all.1 new)
]
pending-fresh n (snapshotting w es ∷ fs) all new = ground (arith, pending-fresh n fs all.1)

pub watched-IsSynced :
    (s : Registry) (log : List (ℕ × CapEvent)) (sink : ℕ) (watcher_id : String)
    → IsSynced s log
    → IsSynced (watched_by s sink watcher_id) log
watched-IsSynced s log sink watcher_id inv = record {
  keyed = inv.keyed;
  distinct = inv.distinct;
  unheard = λ w p h. inv.unheard w p (omega arith);
  below = λ w h. ground (arith, inv.below w);
  unique = (new, inv.unique);
  frames_ok = (tt, frames_ok-le n (suc n) s.frames (omega arith) inv.frames_ok);
  synced = λ w p h active. elim (Bool-cases (n == w)) [
    | inl hit ↦
        subst
          (λ x.
            learn_all (pending (snapshotting n (current_events s.table) ∷ s.frames) x) (known x log)
              p
            ≡ table_view s.table p)
          ((nat_key.same_iff n w).0 hit) (first p)
    | inr miss ↦
        ap
          (λ b.
            learn_all
              (if b then current_events s.table ++ pending s.frames w else pending s.frames w)
              (known w log) p)
          miss
        ∙ inv.synced w p (ground arith) (
            ap is_active (
              sym (
                lookup-insert n w (record { watcher_id = watcher_id; sink = sink; active = true })
                  s.records
                ∙ ap
                    (λ b.
                      if b
                      then some (record { watcher_id = watcher_id; sink = sink; active = true })
                      else Map.lookup w s.records)
                    miss))
            ∙ active)
  ];
}
  where
    n : ℕ
    n = s.next_record

    new : includes (arriving s.frames ++ s.watchers) n ≡ false
    new = elim (Bool-cases (includes (arriving s.frames ++ s.watchers) n)) [
      | inl there ↦ absurd (ground (arith, inv.below n))
      | inr absent ↦ absent
    ]

    first :
        (p : String)
        → learn_all (pending (snapshotting n (current_events s.table) ∷ s.frames) n) (known n log) p
          ≡ table_view s.table p
    first p =
        let events = current_events s.table in
        ap
          (λ b.
            learn_all (if b then events ++ pending s.frames n else pending s.frames n) (known n log)
              p)
          ((nat_key.same_iff n n).1 refl)
        ∙ ap (λ l. learn_all (events ++ l) (known n log) p)
            (pending-fresh n s.frames inv.frames_ok
              (ground (arith, new, includes-append (arriving s.frames) s.watchers n)))
        ∙ ap (λ l. learn_all l (known n log) p) (append-nil events)
        ∙ learn_all-ext events (known n log) nothing_known (λ q. inv.unheard n q (omega arith)) p
        ∙ current_events-view s.table p inv.keyed inv.distinct

silenced-active :
    (u w : ℕ) (o : Option WatchRecord) (records : Map ℕ WatchRecord)
    → Map.lookup u records ≡ o
    → is_active (Map.lookup w (silenced u o records)) ≡ true
    → is_active (Map.lookup w records) ≡ true
silenced-active u w none records h active = active
silenced-active u w (some r) records h active = elim (Bool-cases (u == w)) [
  | inl hit ↦ absurd (ground (arith, lookup-insert u w (record r { active = false }) records))
  | inr miss ↦ ground (arith, lookup-insert u w (record r { active = false }) records)
]

pub unsubscribe-IsSynced :
    (s : Registry) (log : List (ℕ × CapEvent)) (w : ℕ)
    → IsSynced s log
    → IsSynced (unsubscribe s w) log
unfolding unsubscribe
unsubscribe-IsSynced s log u inv = record {
  keyed = inv.keyed;
  distinct = inv.distinct;
  unheard = inv.unheard;
  below = inv.below;
  unique = inv.unique;
  frames_ok = inv.frames_ok;
  synced = λ w p h active.
      inv.synced w p h (silenced-active u w (Map.lookup u s.records) s.records refl active);
}
