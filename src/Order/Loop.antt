-- ===== src/Order/Loop.antt =====
-- The `while` loop of `schedule`: its invariant, that it ends, and what it ends in.
use u.Base.{
  ℕ, zero, suc, ◌+◌, ◌-◌, ◌<◌, ◌≤◌, ◌≡◌, refl, sym, subst, ◌∙◌, Bool, true, false, not, ◌&&◌, ◌||◌,
  List, [], ◌∷◌, ◌++◌, nat_key, ◌==◌, includes, get_or, length, if◌then◌else◌, Unique,
  Unique-concat, includes-append, Unique-length-le, length-append, inl, inr, Bool-cases, some,
  arith,
}
use u.Order.Schedule.{best_position, splice_one, relax, plan_loop}
use u.Order.Relax.{
  relax-indegree, relax-ready, relax-Unique, best_position-bound, includes-get_or,
  includes-splice_one, splice_one-Unique,
}
use u.Order.Kahn.{open_by, open_by-done, open_by-zero, precedes, precedes-append, precedes-concat}

module _ (lists : List (List ℕ)) (n : ℕ) where
  -- Between two rounds.
  pub record IsKahn (ready plan ds : List ℕ) : Type 0 where
    pub counts : (v : ℕ) → get_or ds v 0 ≡ open_by (includes plan) lists v
    pub planned_zero : (v : ℕ) → includes plan v ≡ true → get_or ds v 0 ≡ 0
    pub ready_zero : (v : ℕ) → includes ready v ≡ true → get_or ds v 0 ≡ 0
    pub ready_new : (v : ℕ) → includes ready v ≡ true → includes plan v ≡ false
    pub ready_unique : Unique ready
    pub plan_unique : Unique plan
    pub ready_below : (v : ℕ) → includes ready v ≡ true → v < n
    pub plan_below : (v : ℕ) → includes plan v ≡ true → v < n
    pub ordered :
        (u v : ℕ)
        → includes plan v ≡ true
        → includes (get_or lists u []) v ≡ true
        → precedes plan u v ≡ true

  module _ (lists_unique : (u : ℕ) → Unique (get_or lists u []))
      (lists_below : (u v : ℕ) → includes (get_or lists u []) v ≡ true → v < n) where
    -- A ready node is planned.
    pub round-IsKahn :
        (at : ℕ) (ready plan ds : List ℕ)
        → at < length ready
        → IsKahn ready plan ds
        → (let k = get_or ready at 0 in
            let out = relax (get_or lists k []) (splice_one at ready) ds in
            IsKahn out.0 (plan ++ k ∷ []) out.1)
    round-IsKahn at ready plan ds h inv = record {
      counts = λ v. ground (
        arith,
        inv.counts v,
        lowered v,
        open_by-done (includes plan) (includes (plan ++ k ∷ [])) k lists v k_new (λ i. planned i),
      );
      planned_zero = λ v t. ground (arith, planned v, lowered v, inv.planned_zero v, k_zero_at v);
      ready_zero = λ v t. ground (arith, lowered v, raised v, left v, inv.ready_zero v);
      ready_new = λ v t.
          ground
            (arith, planned v, raised v, left v, inv.ready_new v, inv.planned_zero v, k_zero_at v);
      ready_unique =
          relax-Unique (get_or lists k []) (splice_one at ready) ds (lists_unique k)
            (splice_one-Unique ready at inv.ready_unique h)
            (λ w t. inv.ready_zero w (ground (arith, left w)));
      plan_unique = Unique-concat plan k inv.plan_unique k_new;
      ready_below = λ v t. ground (arith, raised v, left v, inv.ready_below v, lists_below k v);
      plan_below = λ v t. ground (arith, planned v, inv.plan_below v, k_below v);
      ordered = λ u v t e. elim (Bool-cases (includes plan v)) [
        | inl old ↦ precedes-append plan (k ∷ []) u v (inv.ordered u v old e)
        | inr new ↦ last u v new t e
      ];
    }
      where
        k : ℕ
        k = get_or ready at 0

        there : includes ready k ≡ true
        there = includes-get_or ready at h

        k_new : includes plan k ≡ false
        k_new = inv.ready_new k there

        planned : (v : ℕ) → includes (plan ++ k ∷ []) v ≡ (includes plan v || k == v)
        planned v = ground (arith, includes-append plan (k ∷ []) v)

        lowered :
            (v : ℕ)
            → get_or (relax (get_or lists k []) (splice_one at ready) ds).1 v 0
              ≡ get_or ds v 0 - (if includes (get_or lists k []) v then 1 else 0)
        lowered v = relax-indegree (get_or lists k []) (splice_one at ready) ds v (lists_unique k)

        raised :
            (v : ℕ)
            → includes (relax (get_or lists k []) (splice_one at ready) ds).0 v ≡ (
                includes (splice_one at ready) v
                || (includes (get_or lists k []) v && get_or ds v 0 == 1))
        raised v = relax-ready (get_or lists k []) (splice_one at ready) ds v (lists_unique k)

        left : (v : ℕ) → includes (splice_one at ready) v ≡ (includes ready v && not (k == v))
        left v = includes-splice_one ready at v inv.ready_unique h

        k_zero_at : (v : ℕ) → k == v ≡ true → get_or ds v 0 ≡ 0
        k_zero_at v t =
            subst (λ w. get_or ds w 0 ≡ 0) ((nat_key.same_iff k v).0 t) (inv.ready_zero k there)

        k_below : (v : ℕ) → k == v ≡ true → v < n
        k_below v t = subst (λ w. w < n) ((nat_key.same_iff k v).0 t) (inv.ready_below k there)

        last :
            (u v : ℕ)
            → includes plan v ≡ false
            → includes (plan ++ k ∷ []) v ≡ true
            → includes (get_or lists u []) v ≡ true
            → precedes (plan ++ k ∷ []) u v ≡ true
        last u v new t e =
            let hit : k == v ≡ true = ground (arith, planned v) in
            let same = (nat_key.same_iff k v).0 hit in
            let zero_open = sym (inv.counts v) ∙ k_zero_at v hit in
            subst (λ w. precedes (plan ++ w ∷ []) u v ≡ true) (sym same)
              (precedes-concat plan u v (open_by-zero (includes plan) lists u v zero_open e) new)

    -- What the loop returns.
    pub plan_loop-IsKahn :
        (earlier : ℕ → ℕ → Bool) (fuel : ℕ) (ready plan ds : List ℕ)
        → n ≤ fuel + length plan
        → IsKahn ready plan ds
        → (out : List ℕ × List ℕ) × (plan_loop earlier lists fuel ready plan ds ≡ some out)
          × IsKahn [] out.0 out.1
    unfolding plan_loop
    plan_loop-IsKahn earlier fuel [] plan ds enough inv = ((plan, ds), refl, inv)
    plan_loop-IsKahn earlier zero (r ∷ ready) plan ds enough inv =
        let more =
          Unique-length-le n (r ∷ plan) (inv.ready_new r (ground arith), inv.plan_unique)
            λ v h. ground (arith, inv.plan_below v, inv.ready_below v) in
        absurd (ground arith)
    plan_loop-IsKahn earlier (suc fuel) (r ∷ ready) plan ds enough inv =
        let at = best_position earlier r 0 1 ready in
        let k = get_or (r ∷ ready) at 0 in
        let out = relax (get_or lists k []) (splice_one at (r ∷ ready)) ds in
        plan_loop-IsKahn earlier fuel out.0 (plan ++ k ∷ []) out.1
          (ground (arith, length-append plan (k ∷ [])))
          (round-IsKahn at (r ∷ ready) plan ds
            (ground (arith, best_position-bound earlier r 0 1 ready)) inv)
