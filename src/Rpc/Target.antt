-- ===== src/Rpc/Target.antt =====
-- ts/src/plugins/rpc/index.ts: the name of a target, `<plugId>.<methodName>`.
use Prim.Native.Char.{Char}
use u.Base.{
  ◌⊎◌, ◌≡◌, refl, sym, ap, subst, ◌∙◌, ◌↔◌, String, Bool, true, false, ◌||◌, Option, none, some,
  string_key, ◌==◌, if◌then◌else◌, arith, Bool-cases, inl, inr,
}
use u.Json.{string}
use u.Rpc.{is_dot, after_first, split_last, both_sides, read_target}

unfoldable pub append : String → String → String
append String.[] t = t
append (String.◌∷◌ c s) t = String.◌∷◌ c (append s t)

-- The text that names a method of a plugin.
abbrev pub dotted : String → String → String
dotted plug_id method_name = append plug_id (append "." method_name)

abbrev pub has_dot : String → Bool
has_dot String.[] = false
has_dot (String.◌∷◌ c s) = is_dot c || has_dot s

split_last-none : (s : String) → has_dot s ≡ false → split_last s ≡ none
unfolding split_last
split_last-none String.[] h = refl
split_last-none (String.◌∷◌ c s) h = rw (split_last-none s (ground arith)) (ground arith)

abbrev when_cut : Bool → String → String → Option (String × String)
when_cut b p n = if b then some (p, n) else none

after_first-none :
    (c : Char) (s : String) (o : Option (String × String))
    → after_first c s o ≡ none
    → (o ≡ none) × (is_dot c ≡ false)
after_first-none c s (some (before, behind)) h = absurd (cc)
after_first-none c s none h = elim (Bool-cases (is_dot c)) [
  | inl hit ↦ absurd (cc (subst (λ b. when_cut b "" s ≡ none) hit h))
  | inr miss ↦ (refl, miss)
]

none-split_last : (s : String) → split_last s ≡ none → has_dot s ≡ false
unfolding split_last
none-split_last String.[] h = refl
none-split_last (String.◌∷◌ c s) h =
    let (rest, miss) = after_first-none c s (split_last s) h in
    rw (miss, none-split_last s rest) refl

-- Where a text is cut, its first character stands before the dot or is it.
after_first-some :
    (c : Char) (s : String) (o : Option (String × String)) (p n : String)
    → after_first c s o ≡ some (p, n)
    → ((q : String) × (o ≡ some (q, n)) × (p ≡ String.◌∷◌ c q))
      ⊎ ((o ≡ none) × (is_dot c ≡ true) × (p ≡ "") × (n ≡ s))
after_first-some c s (some (before, behind)) p n h = inl (before, cc, cc)
after_first-some c s none p n h = elim (Bool-cases (is_dot c)) [
  | inl hit ↦
      let same : when_cut true "" s ≡ some (p, n) =
        subst (λ b. when_cut b "" s ≡ some (p, n)) hit h in
      inr (refl, hit, cc, cc)
  | inr miss ↦ absurd (cc (subst (λ b. when_cut b "" s ≡ some (p, n)) miss h))
]

split_last-dotted :
    (s p n : String) → split_last s ≡ some (p, n) → (s ≡ dotted p n) × (has_dot n ≡ false)
unfolding split_last append
split_last-dotted String.[] p n h = absurd (cc)
split_last-dotted (String.◌∷◌ c s) p n h = elim (after_first-some c s (split_last s) p n h) [
  | inl (q, rest, is) ↦
      let (same, plain) = split_last-dotted s q n rest in
      (ap (String.◌∷◌ c) same ∙ ap (λ x. dotted x n) (sym is), plain)
  | inr (rest, hit, is, behind) ↦ (
    ap (λ d. append d s) ((string_key.same_iff (String.◌∷◌ c String.[]) ".").0 hit)
        ∙ ap (λ x. dotted x s) (sym is)
        ∙ ap (dotted p) (sym behind),
    subst (λ x. has_dot x ≡ false) (sym behind) (none-split_last s rest),
  )
]

dotted-split_last : (p n : String) → has_dot n ≡ false → split_last (dotted p n) ≡ some (p, n)
unfolding split_last append
dotted-split_last String.[] n h = rw (split_last-none n h) refl
dotted-split_last (String.◌∷◌ c p) n h = rw (dotted-split_last p n h) refl

-- Whether a text names both sides.
abbrev pub IsTarget : String → String → Type 0
IsTarget p n = ((p == "") ≡ false) × ((n == "") ≡ false) × (has_dot n ≡ false)

both_sides-some :
    (o : Option (String × String)) (p n : String)
    → both_sides o ≡ some (p, n)
    → (o ≡ some (p, n)) × ((p == "") ≡ false) × ((n == "") ≡ false)
both_sides-some none p n h = absurd (cc)
both_sides-some (some (b, a)) p n h = elim (Bool-cases (b == "" || a == "")) [
  | inl empty ↦
      absurd (cc (subst (λ t. (if t then none else when_cut true b a) ≡ some (p, n)) empty h))
  | inr sides ↦
      same_sides b a p n sides
        (subst (λ t. (if t then none else when_cut true b a) ≡ some (p, n)) sides h)
]
  where
    same_sides :
        (b a p n : String)
        → (b == "" || a == "") ≡ false
        → when_cut true b a ≡ some (p, n)
        → (when_cut true b a ≡ some (p, n)) × ((p == "") ≡ false) × ((n == "") ≡ false)
    same_sides b a p n sides same = (
      same,
      subst (λ x. (x == "") ≡ false) (first_same b a p n same) (ground arith),
      subst (λ x. (x == "") ≡ false) (last_same b a p n same) (ground arith),
    )
      where
        first_same : (b a p n : String) → when_cut true b a ≡ some (p, n) → b ≡ p
        first_same b a p n same = cc

        last_same : (b a p n : String) → when_cut true b a ≡ some (p, n) → a ≡ n
        last_same b a p n same = cc

-- A text is read as a plugin and a method exactly where it is the two with a dot between them, neither
-- is empty, and the name of the method has no dot.
pub read_target_iff :
    (s p n : String) → (read_target (string s) ≡ some (p, n)) ↔ ((s ≡ dotted p n) × IsTarget p n)
unfolding read_target
read_target_iff s p n = (
  λ read.
      let (cut, some_plugin, some_method) = both_sides-some (split_last s) p n read in
      let (same, plain) = split_last-dotted s p n cut in (same, (some_plugin, some_method, plain)),
  λ (same, (some_plugin, some_method, plain)).
      ap (λ t. both_sides (split_last t)) same
      ∙ ap both_sides (dotted-split_last p n plain)
      ∙ rw (some_plugin, some_method) refl,
)
