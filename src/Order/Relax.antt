-- ===== src/Order/Relax.antt =====
-- What the inner loops of `schedule` do to the ready nodes and the indegrees.
use u.Base.{
  ℕ, zero, suc, ◌+◌, ◌-◌, ◌<◌, ◌≡◌, refl, Bool, true, not, ◌&&◌, ◌||◌, List, [], ◌∷◌, ◌++◌, nat_key,
  ◌==◌, includes, get_or, set, length, if◌then◌else◌, Unique, Unique-concat, includes-append, arith,
}
use u.Order.Schedule.{best_position, splice_one, relax}

pub get_or-decrement :
    (ds : List ℕ) (v w : ℕ)
    → get_or (set ds v (get_or ds v 0 - 1)) w 0 ≡ get_or ds w 0 - (if v == w then 1 else 0)
get_or-decrement [] v w = ground arith
get_or-decrement (d ∷ ds) zero zero = refl
get_or-decrement (d ∷ ds) zero (suc w) = ground arith
get_or-decrement (d ∷ ds) (suc v) zero = ground arith
get_or-decrement (d ∷ ds) (suc v) (suc w) = ground (arith, get_or-decrement ds v w)

-- Each successor loses one.
pub relax-indegree :
    (vs ready ds : List ℕ) (w : ℕ)
    → Unique vs
    → get_or (relax vs ready ds).1 w 0 ≡ get_or ds w 0 - (if includes vs w then 1 else 0)
unfolding relax
relax-indegree [] ready ds w u = ground arith
relax-indegree (v ∷ vs) ready ds w (first, u) = ground (
  arith,
  relax-indegree vs (if get_or ds v 0 == 1 then ready ++ v ∷ [] else ready)
      (set ds v (get_or ds v 0 - 1)) w u,
  get_or-decrement ds v w,
)

-- The ready nodes are those that were ready, and the successors that had one predecessor left.
pub relax-ready :
    (vs ready ds : List ℕ) (w : ℕ)
    → Unique vs
    → includes (relax vs ready ds).0 w ≡ (includes ready w || (includes vs w && get_or ds w 0 == 1))
unfolding relax
relax-ready [] ready ds w u = ground arith
relax-ready (v ∷ vs) ready ds w (first, u) = ground (
  arith,
  relax-ready vs (if get_or ds v 0 == 1 then ready ++ v ∷ [] else ready)
      (set ds v (get_or ds v 0 - 1)) w u,
  get_or-decrement ds v w,
  includes-append ready (v ∷ []) w,
)

-- No node becomes ready twice.
pub relax-Unique :
    (vs ready ds : List ℕ)
    → Unique vs
    → Unique ready
    → ((w : ℕ) → includes ready w ≡ true → get_or ds w 0 ≡ 0)
    → Unique (relax vs ready ds).0
unfolding relax
relax-Unique [] ready ds u r zeros = r
relax-Unique (v ∷ vs) ready ds (first, u) r zeros =
    relax-Unique vs (if get_or ds v 0 == 1 then ready ++ v ∷ [] else ready)
      (set ds v (get_or ds v 0 - 1)) u (ground (arith, Unique-concat ready v r, zeros v))
      λ w h. ground (arith, get_or-decrement ds v w, includes-append ready (v ∷ []) w, zeros w)

pub best_position-bound :
    (earlier : ℕ → ℕ → Bool) (best best_at at : ℕ) (cs : List ℕ)
    → best_at < at
    → best_position earlier best best_at at cs < at + length cs
unfolding best_position
best_position-bound earlier best best_at at [] h = ground arith
best_position-bound earlier best best_at at (c ∷ cs) h = ground (
  arith,
  best_position-bound earlier (if earlier c best then c else best)
      (if earlier c best then at else best_at) (suc at) cs,
)

pub includes-get_or : (xs : List ℕ) (i : ℕ) → i < length xs → includes xs (get_or xs i 0) ≡ true
includes-get_or [] i h = ground arith
includes-get_or (x ∷ xs) zero h = ground arith
includes-get_or (x ∷ xs) (suc i) h = ground (arith, includes-get_or xs i)

pub includes-splice_one :
    (xs : List ℕ) (i w : ℕ)
    → Unique xs
    → i < length xs
    → includes (splice_one i xs) w ≡ (includes xs w && not (get_or xs i 0 == w))
includes-splice_one [] i w u h = ground arith
includes-splice_one (x ∷ xs) zero w (first, u) h = ground arith
includes-splice_one (x ∷ xs) (suc i) w (first, u) h =
    ground (arith, includes-splice_one xs i w u, includes-get_or xs i)

pub splice_one-Unique : (xs : List ℕ) (i : ℕ) → Unique xs → i < length xs → Unique (splice_one i xs)
splice_one-Unique [] i u h = u
splice_one-Unique (x ∷ xs) zero (first, u) h = u
splice_one-Unique (x ∷ xs) (suc i) (first, u) h =
    ground (arith, includes-splice_one xs i x u, splice_one-Unique xs i u)

pub splice_one-length :
    (xs : List ℕ) (i : ℕ) → i < length xs → length xs ≡ suc (length (splice_one i xs))
splice_one-length [] i h = ground arith
splice_one-length (x ∷ xs) zero h = refl
splice_one-length (x ∷ xs) (suc i) h = ground (arith, splice_one-length xs i)
