-- ===== src/Logging/Ring.antt =====
-- ts/src/plugins/logging/index.ts: the ring is the list of the newest entries.
use mathlib.Core.List.{append_assoc, append-nil}
use native.Mathlib.Nat.{mod-lt, mod-eq_of_lt}
use u.Base.{
  ◌^◌, ltb, Bool-cases, inl, inr, some, subst, ℕ, suc, zero, ◌≡◌, ◌≢◌, ◌≤◌, ◌<◌, refl, sym, ap,
  subst, ◌∙◌, ◌+◌, ◌-◌, ◌%◌, Bool, true, false, Option, none, some, List, [], ◌∷◌, ◌++◌, nat_key,
  ltb, ltb→lt, nat_beq_iff, ◌==◌, length, length-set, get_elem?, set, if◌then◌else◌, arith,
  Bool-cases, Option-cases, inl, inr,
}
use u.Logging.{
  LogRing, blank, blank_ring, new_ring, push, slot, and_more, collect, read_at, entries,
}
use u.Logging.Places.{
  plus_zero, zero_plus, plus_one, not_same, get_elem?-set, places_apart, next_place, whole_round,
}
use u.Logging.Loop.{collect-same, collect-last, collect-shift, length-collect}
use u.Logging.Newest.{drop, newest, newest-newest}

module _ {ℓ} {A : Type ℓ} where
  unfoldable pub push_all : List A → LogRing A → LogRing A
  push_all [] s = s
  push_all (e ∷ es) s = push_all es (push e s)

  pub record IsRing (s : LogRing A) : Type ℓ where
    pub positive : 0 < s.capacity
    pub sized : length s.slots ≡ s.capacity
    pub head_low : s.head < s.capacity
    pub count_low : s.count ≤ s.capacity
    pub full : (j : ℕ) → j < s.count → (a : A) × (read_at s j ≡ some a)

  -- What stands at a place after one was written.
  written :
      (slots : List (Option A)) (w p : ℕ) (e : A)
      → w < length slots
      → slot (get_elem? (set slots w (some e)) p)
        ≡ (if w == p then some e else slot (get_elem? slots p))
  written slots w p e low =
      rw (get_elem?-set slots w p (some e) low)
        (elim (Bool-cases (w == p)) [ inl hit ↦ rw hit refl | inr miss ↦ rw miss refl ])

  written_here :
      (slots : List (Option A)) (w p : ℕ) (e : A)
      → w < length slots
      → p ≡ w
      → slot (get_elem? (set slots w (some e)) p) ≡ some e
  written_here slots w p e low same =
      written slots w p e low
      ∙ ap (λ b. if b then some e else slot (get_elem? slots p)) ((nat_beq_iff w p).1 (sym same))

  written_there :
      (slots : List (Option A)) (w p : ℕ) (e : A)
      → w < length slots
      → p ≢ w
      → slot (get_elem? (set slots w (some e)) p) ≡ slot (get_elem? slots p)
  written_there slots w p e low other =
      written slots w p e low
      ∙ ap (λ b. if b then some e else slot (get_elem? slots p)) (not_same w p other)

module _ {ℓ} {A : Type ℓ} where
  module _ (s : LogRing A) (e : A) (v : IsRing s) where
    abbrev w : ℕ
    w = (s.head + s.count) % s.capacity

    w_low : w < length s.slots
    w_low = subst (λ n. w < n) (sym v.sized) (mod-lt (s.head + s.count) v.positive)

    abbrev room : LogRing A
    room = record s { slots = set s.slots w (some e); count = s.count + 1 }

    abbrev turned : LogRing A
    turned = record s { slots = set s.slots w (some e); head = (s.head + 1) % s.capacity }

    room_before : s.count < s.capacity → (j : ℕ) → j < s.count → read_at room j ≡ read_at s j
    room_before short j low =
        written_there s.slots w ((s.head + j) % s.capacity) e w_low
          (places_apart s.head j s.count s.capacity v.head_low low short)

    room_last : read_at room s.count ≡ some e
    room_last = written_here s.slots w w e w_low refl

    w_head : s.count ≡ s.capacity → w ≡ s.head
    w_head all_used =
        ap (λ n. (s.head + n) % s.capacity) all_used ∙ whole_round s.head s.capacity v.head_low

    head_place : (s.head + 0) % s.capacity ≡ s.head
    head_place = ap (λ n. n % s.capacity) (plus_zero s.head) ∙ mod-eq_of_lt v.head_low

    turned_before :
        s.count ≡ s.capacity → (j : ℕ) → j + 1 < s.capacity → read_at turned j ≡ read_at s (j + 1)
    turned_before all_used j low =
        ap (λ p. slot (get_elem? (set s.slots w (some e)) p))
          (next_place s.head j s.capacity v.head_low (omega arith))
        ∙ written_there s.slots w ((s.head + (j + 1)) % s.capacity) e w_low λ same.
          places_apart s.head 0 (j + 1) s.capacity v.head_low (omega arith) low
            (head_place ∙ sym (w_head all_used) ∙ sym same)

    turned_last : s.count ≡ s.capacity → (j : ℕ) → j + 1 ≡ s.capacity → read_at turned j ≡ some e
    turned_last all_used j high =
        written_here s.slots w (((s.head + 1) % s.capacity + j) % s.capacity) e w_low (
          next_place s.head j s.capacity v.head_low (omega arith)
          ∙ ap (λ n. (s.head + n) % s.capacity) (high ∙ sym all_used))

    entries-room : s.count < s.capacity → entries room ≡ entries s ++ e ∷ []
    unfolding entries
    entries-room short =
        ap (collect (read_at room) 0) (plus_one s.count)
        ∙ collect-last (read_at room) 0 s.count e
            (subst (λ k. read_at room k ≡ some e) (sym (zero_plus s.count)) room_last)
        ∙ ap (λ l. l ++ e ∷ [])
            (collect-same (read_at room) (read_at s) 0 s.count
              λ j from low. room_before short j (omega arith))

    entries-turned :
        s.count ≡ s.capacity
        → (m : ℕ) → s.capacity ≡ suc m
        → (a : A) × (rest : List A) × (entries s ≡ a ∷ rest) × (entries turned ≡ rest ++ e ∷ [])
    unfolding entries collect
    entries-turned all_used m is =
        let (a, at) = v.full 0 (omega arith) in
        let rest = collect (read_at s) 1 m in
        let later : (j : ℕ) → 0 ≤ j → j < 0 + m → read_at turned j ≡ read_at s (suc j) =
          λ j from low. turned_before all_used j (omega arith) ∙ ap (read_at s) (plus_one j) in
        (
          a,
          rest,
          ap (collect (read_at s) 0) (all_used ∙ is) ∙ ap (λ o. and_more o rest) at,
          ap (collect (read_at turned) 0) (all_used ∙ is)
              ∙ collect-last (read_at turned) 0 m e (
                  subst (λ k. read_at turned k ≡ some e) (sym (zero_plus m))
                    (turned_last all_used m (omega arith)))
              ∙ ap (λ l. l ++ e ∷ [])
                  (collect-same (read_at turned) (λ j. read_at s (suc j)) 0 m later
                    ∙ collect-shift (read_at s) (λ j. read_at s (suc j)) 0 m λ j. refl),
        )

    room-IsRing : s.count < s.capacity → IsRing room
    room-IsRing short = record {
      positive = v.positive;
      sized = length-set s.slots w (some e) ∙ v.sized;
      head_low = v.head_low;
      count_low = omega arith;
      full = λ j low. elim (Bool-cases (ltb j s.count)) [
        | inl old ↦
            let (a, at) = v.full j (ltb→lt j s.count old) in
            (a, room_before short j (ltb→lt j s.count old) ∙ at)
        | inr new ↦ (e, subst (λ k. read_at room k ≡ some e) (ground arith) room_last)
      ];
    }

    turned-IsRing : s.count ≡ s.capacity → IsRing turned
    turned-IsRing all_used = record {
      positive = v.positive;
      sized = length-set s.slots w (some e) ∙ v.sized;
      head_low = mod-lt (s.head + 1) v.positive;
      count_low = v.count_low;
      full = λ j low. elim (Bool-cases (ltb (j + 1) s.capacity)) [
        | inl old ↦
            let (a, at) = v.full (j + 1) (ground arith) in
            (a, turned_before all_used j (ltb→lt (j + 1) s.capacity old) ∙ at)
        | inr new ↦ (e, turned_last all_used j (ground arith))
      ];
    }

module _ {ℓ} {A : Type ℓ} where
  length-entries : (s : LogRing A) → IsRing s → length (entries s) ≡ s.count
  unfolding entries
  length-entries s v = length-collect (read_at s) 0 s.count λ j from low. v.full j (omega arith)

  newest-all : (c : ℕ) (xs : List A) → length xs ≤ c → newest c xs ≡ xs
  newest-all c xs few = ap (λ n. drop n xs) (none_over (length xs) c few)
    where
      none_over : (n c : ℕ) → n ≤ c → n - c ≡ 0
      none_over n c few = omega arith

  length-one_more : (xs : List A) (e : A) → length (xs ++ e ∷ []) ≡ length xs + 1
  length-one_more xs e = ground (arith, u.Base.length-append xs (e ∷ []))

  -- What a push does, whichever branch it takes.
  push-Pushed :
      (e : A) (s : LogRing A)
      → IsRing s
      → IsRing (push e s)
        × (entries (push e s) ≡ newest s.capacity (entries s ++ e ∷ []))
        × ((push e s).capacity ≡ s.capacity)
  unfolding push
  push-Pushed e s v = elim (Bool-cases (s.count == s.capacity)) [
    | inl hit ↦
        let all_used = (nat_beq_iff s.count s.capacity).0 hit in
        rw (hit, push) (turned-IsRing s e v all_used, oldest_out all_used, refl)
    | inr miss ↦
        rw (miss, push)
          (
            room-IsRing s e v (short miss),
            entries-room s e v (short miss)
                ∙ sym (
                    newest-all s.capacity (entries s ++ e ∷ []) (
                      ground
                        (arith, length-one_more (entries s) e, length-entries s v, short miss))),
            refl,
          )
  ]
    where
      short : (s.count == s.capacity) ≡ false → s.count < s.capacity
      short miss = ground (arith, v.count_low)

      one_over : s.count ≡ s.capacity → 1 ≡ length (entries s ++ e ∷ []) - s.capacity
      one_over all_used = ground (arith, length-one_more (entries s) e, length-entries s v)

      oldest_out :
          s.count ≡ s.capacity → entries (turned s e v) ≡ newest s.capacity (entries s ++ e ∷ [])
      oldest_out all_used =
          let (a, rest, before, now) =
            entries-turned s e v all_used (s.capacity - 1) (ground (arith, v.positive)) in
          now
          ∙ sym (ap (λ l. drop 1 (l ++ e ∷ [])) before)
          ∙ ap (λ n. drop n (entries s ++ e ∷ [])) (one_over all_used)

  blank_ring-IsRing : (c : ℕ) → 0 < c → IsRing (blank_ring {A = A} c)
  blank_ring-IsRing c some_room = record {
    positive = some_room;
    sized = length-blank c;
    head_low = some_room;
    count_low = omega arith;
    full = λ j low. absurd (none_below j low);
  }
    where
      length-blank : (n : ℕ) → length (blank {A = A} n) ≡ n
      length-blank zero = refl
      length-blank (suc n) = ap suc (length-blank n)

      none_below : (j : ℕ) → j < 0 → ⊥
      none_below j low = omega arith

  push_all-entries :
      (es : List A) (s : LogRing A)
      → IsRing s
      → entries (push_all es s) ≡ newest s.capacity (entries s ++ es)
  unfolding push_all
  push_all-entries [] s v = sym (
      ap (newest s.capacity) (append-nil (entries s))
      ∙ newest-all s.capacity (entries s) (ground (arith, length-entries s v, v.count_low)))
  push_all-entries (e ∷ es) s v =
      let (w, now, same) = push-Pushed e s v in
      push_all-entries es (push e s) w
      ∙ ap (λ c. newest c (entries (push e s) ++ es)) same
      ∙ ap (λ l. newest s.capacity (l ++ es)) now
      ∙ newest-newest s.capacity (entries s ++ e ∷ []) es
      ∙ ap (newest s.capacity) (append_assoc (entries s) (e ∷ []) es)

pub new_ring-eq-some {ℓ} :
    {A : Type ℓ} (capacity : ℕ) (ring : LogRing A)
    → new_ring capacity ≡ some ring
    → blank_ring capacity ≡ ring
unfolding new_ring
new_ring-eq-some capacity ring made = elim (Bool-cases (ltb capacity (2 ^ 32))) [
  | inl fits ↦ ground arith
  | inr large ↦ absurd (ground arith)
]

-- A ring that could be made, of at least one place, and was given entries one by one returns the newest of them, as many
-- as it has places, the oldest first.
pub ring_keeps_newest {ℓ} :
    {A : Type ℓ} (capacity : ℕ) (ring : LogRing A) (es : List A)
    → 0 < capacity
    → new_ring capacity ≡ some ring
    → entries (push_all es ring) ≡ newest capacity es
unfolding entries collect
ring_keeps_newest capacity ring es some_room made =
    subst (λ r. entries (push_all es r) ≡ newest capacity es) (new_ring-eq-some capacity ring made)
      (push_all-entries es (blank_ring capacity) (blank_ring-IsRing capacity some_room))
