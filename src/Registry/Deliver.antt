-- ===== src/Registry/Deliver.antt =====
-- Deliveries keep the watchers in step with the table.
use u.Base.{
  ℕ, ◌≡◌, ◌≤◌, refl, sym, ap, subst, ◌∙◌, String, true, false, ◌||◌, none, some, List, [], ◌∷◌,
  ◌++◌, nat_key, string_key, if◌then◌else◌, ◌==◌, includes, includes-append, Unique, Unique-concat,
  Bool-cases, inl, inr, arith,
}
use mathlib.Core.List.{append_assoc}
use u.Base.Map
use u.Base.Map.{Map, Distinct, lookup-insert, lookup-remove, insert-Distinct, remove-Distinct}
use u.Capability.{CapEvent}
use u.Registry.{Frame, notifying, snapshotting, Registry, is_active, advance_frames}
use u.Registry.View.{learn, learn_all, table_view, known}
use u.Registry.Sync.{heard, arriving, pending, IsSynced}

abbrev Framed : Registry → List Frame → List (ℕ × CapEvent) → Type 0
Framed s fs log = IsSynced (record s { frames = fs }) log

notified-IsSynced :
    (s : Registry) (log : List (ℕ × CapEvent)) (w : ℕ) (ws : List ℕ) (e : CapEvent)
    (fs : List Frame)
    → Framed s (notifying (w ∷ ws) e ∷ fs) log
    → Framed s
        (notifying ws e ∷ fs)
        (heard (if is_active (Map.lookup w s.records) then some (w, e) else none) log)
notified-IsSynced s log w ws e fs inv = elim (Bool-cases (is_active (Map.lookup w s.records))) [
  | inr idle ↦
      subst (λ b. Framed s (notifying ws e ∷ fs) (heard (if b then some (w, e) else none) log))
        (sym idle)
        (kept log inv.unheard (λ u p h active. elim (Bool-cases (w == u)) [
          | inl hit ↦ absurd (
              cc (
                idle,
                ap (λ x. is_active (Map.lookup x s.records)) ((nat_key.same_iff w u).0 hit),
                active,
              ))
          | inr miss ↦ other u p miss (inv.synced u p h active)
        ]))
  | inl active_ ↦
      subst (λ b. Framed s (notifying ws e ∷ fs) (heard (if b then some (w, e) else none) log))
        (sym active_)
        (kept ((w, e) ∷ log) (λ u p h. ground (arith, inv.unheard u p h, inv.frames_ok.0.1 w))
          (λ u p h active. elim (Bool-cases (w == u)) [
            | inl hit ↦ rw hit (told u p hit (inv.synced u p h active))
            | inr miss ↦ rw miss (other u p miss (inv.synced u p h active))
          ]))
]
  where
    absent : (u : ℕ) → (w == u) ≡ true → includes ws u ≡ false
    absent u hit =
        subst (λ x. includes ws x ≡ false) ((nat_key.same_iff w u).0 hit) inv.frames_ok.0.0.0

    other :
        (u : ℕ) (p : String)
        → (w == u) ≡ false
        → learn_all (pending (notifying (w ∷ ws) e ∷ fs) u) (known u log) p ≡ table_view s.table p
        → learn_all (pending (notifying ws e ∷ fs) u) (known u log) p ≡ table_view s.table p
    other u p miss before =
        ap
          (λ b.
            learn_all (if b || includes ws u then e ∷ pending fs u else pending fs u) (known u log)
              p)
          (sym miss)
        ∙ before

    told :
        (u : ℕ) (p : String)
        → (w == u) ≡ true
        → learn_all (pending (notifying (w ∷ ws) e ∷ fs) u) (known u log) p ≡ table_view s.table p
        → learn_all (pending (notifying ws e ∷ fs) u) (learn e (known u log)) p
          ≡ table_view s.table p
    told u p hit before =
        ap (λ b. learn_all (if b then e ∷ pending fs u else pending fs u) (learn e (known u log)) p)
          (absent u hit)
        ∙ ap
            (λ b.
              learn_all (if b || includes ws u then e ∷ pending fs u else pending fs u)
                (known u log) p)
            (sym hit)
        ∙ before

    kept :
        (log' : List (ℕ × CapEvent))
        → ((u : ℕ) (p : String) → s.next_record ≤ u → known u log' p ≡ none)
        → ((u : ℕ) (p : String)
            → includes (arriving fs ++ s.watchers) u ≡ true
            → is_active (Map.lookup u s.records) ≡ true
            → learn_all (pending (notifying ws e ∷ fs) u) (known u log') p ≡ table_view s.table p)
        → Framed s (notifying ws e ∷ fs) log'
    kept log' unheard synced = record {
      keyed = inv.keyed;
      distinct = inv.distinct;
      unheard = unheard;
      below = inv.below;
      unique = inv.unique;
      frames_ok =
          ((inv.frames_ok.0.0.1, λ k h. inv.frames_ok.0.1 k (ground arith)), inv.frames_ok.1);
      synced = synced;
    }

told-IsSynced :
    (s : Registry) (log : List (ℕ × CapEvent)) (w : ℕ) (e : CapEvent) (es : List CapEvent)
    (fs : List Frame)
    → Framed s (snapshotting w (e ∷ es) ∷ fs) log
    → Framed s (snapshotting w es ∷ fs) ((w, e) ∷ log)
told-IsSynced s log w e es fs inv = record {
  keyed = inv.keyed;
  distinct = inv.distinct;
  unheard = λ u p h. ground (arith, inv.unheard u p h, inv.below w);
  below = inv.below;
  unique = inv.unique;
  frames_ok = inv.frames_ok;
  synced = λ u p h active. elim (Bool-cases (w == u)) [
    | inl hit ↦
        let before = inv.synced u p h active in
        rw hit (
          ap (λ b. learn_all (if b then (e ∷ es) ++ pending fs u else pending fs u) (known u log) p)
            (sym hit)
          ∙ before)
    | inr miss ↦
        let before = inv.synced u p h active in
        rw miss (
          ap (λ b. learn_all (if b then (e ∷ es) ++ pending fs u else pending fs u) (known u log) p)
            (sym miss)
          ∙ before)
  ];
}

joined-IsSynced :
    (s : Registry) (log : List (ℕ × CapEvent)) (w : ℕ) (fs : List Frame)
    → Framed s (snapshotting w [] ∷ fs) log
    → IsSynced (record s { frames = fs; watchers = s.watchers ++ w ∷ [] }) log
joined-IsSynced s log w fs inv = record {
  keyed = inv.keyed;
  distinct = inv.distinct;
  unheard = inv.unheard;
  below = λ u h. inv.below u (same u ∙ h);
  unique =
      subst Unique (append_assoc (arriving fs) s.watchers (w ∷ []))
        (Unique-concat (arriving fs ++ s.watchers) w inv.unique.1 inv.unique.0);
  frames_ok = inv.frames_ok.1;
  synced = λ u p h active.
      ap (λ l. learn_all l (known u log) p) (left u) ∙ inv.synced u p (same u ∙ h) active;
}
  where
    same :
        (u : ℕ)
        → includes (w ∷ (arriving fs ++ s.watchers)) u
          ≡ includes (arriving fs ++ (s.watchers ++ w ∷ [])) u
    same u = ground (
      arith,
      includes-append (arriving fs) s.watchers u,
      includes-append (arriving fs) (s.watchers ++ w ∷ []) u,
      includes-append s.watchers (w ∷ []) u,
    )

    left : (u : ℕ) → pending fs u ≡ pending (snapshotting w [] ∷ fs) u
    left u = elim (Bool-cases (w == u)) [ inl hit ↦ rw hit refl | inr miss ↦ rw miss refl ]

popped-IsSynced :
    (s : Registry) (log : List (ℕ × CapEvent)) (e : CapEvent) (fs : List Frame)
    → Framed s (notifying [] e ∷ fs) log
    → Framed s fs log
popped-IsSynced s log e fs inv = record {
  keyed = inv.keyed;
  distinct = inv.distinct;
  unheard = inv.unheard;
  below = inv.below;
  unique = inv.unique;
  frames_ok = inv.frames_ok.1;
  synced = inv.synced;
}

pub advance_frames-IsSynced :
    (s : Registry) (log : List (ℕ × CapEvent)) (fs : List Frame)
    → IsSynced s log
    → Framed s fs log
    → IsSynced (advance_frames s fs).0 (heard (advance_frames s fs).1 log)
advance_frames-IsSynced s log [] whole inv = whole
advance_frames-IsSynced s log (notifying [] e ∷ fs) whole inv = popped-IsSynced s log e fs inv
advance_frames-IsSynced s log (notifying (w ∷ ws) e ∷ fs) whole inv =
    notified-IsSynced s log w ws e fs inv
advance_frames-IsSynced s log (snapshotting w [] ∷ fs) whole inv = joined-IsSynced s log w fs inv
advance_frames-IsSynced s log (snapshotting w (e ∷ es) ∷ fs) whole inv =
    told-IsSynced s log w e es fs inv
