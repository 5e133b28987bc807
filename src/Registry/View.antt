-- ===== src/Registry/View.antt =====
-- What a watcher knows: for each id, the version and the methods that it was last told, if it was
-- told that there are any. The same view of the table, and of a snapshot of it.
use u.Base.{
  ℕ, ◌≡◌, refl, sym, ap, subst, ◌∙◌, String, false, Option, none, some, List, [], ◌∷◌, map, nat_key,
  string_key, if◌then◌else◌, ◌==◌, Bool-cases, inl, inr, All, arith,
}
use u.Base.Map
use u.Base.Map.{Map, Distinct, lookup-insert, lookup-remove}
use u.Version.{PluginVersion}
use u.Capability.{CapEntry, CapEvent, CapsDesc}
use u.Order.{insert_by, sort_by}
use u.Registry.{available_event, withdrawn_event, entries, event_less, current_events}

abbrev pub View : Type 0
View = String → Option (PluginVersion × CapsDesc)

abbrev pub nothing_known : View
nothing_known p = none

abbrev pub fact_of : CapEvent → Option (PluginVersion × CapsDesc)
fact_of e = if e.available then some (e.version, e.capabilities) else none

abbrev pub learn : CapEvent → View → View
learn e v p = if e.plug_id == p then fact_of e else v p

abbrev pub learn_all : List CapEvent → View → View
learn_all [] v = v
learn_all (e ∷ es) v = learn_all es (learn e v)

abbrev pub entry_fact : Option CapEntry → Option (PluginVersion × CapsDesc)
entry_fact none = none
entry_fact (some e) = some (e.version, e.caps)

abbrev pub table_view : Map String CapEntry → View
table_view table p = entry_fact (Map.lookup p table)

-- What a watcher knows after deliveries, the last of them first.
abbrev pub known : ℕ → List (ℕ × CapEvent) → View
known w [] = nothing_known
known w ((u, e) ∷ log) = if u == w then learn e (known w log) else known w log

pub learn_all-ext :
    (es : List CapEvent) (v u : View)
    → ((p : String) → v p ≡ u p)
    → (p : String) → learn_all es v p ≡ learn_all es u p
learn_all-ext [] v u h p = h p
learn_all-ext (e ∷ es) v u h p =
    learn_all-ext es (learn e v) (learn e u) (λ q. ground (arith, h q)) p

learn-learn :
    (a b : CapEvent) (v : View) (p : String)
    → (a.plug_id == b.plug_id) ≡ false
    → learn a (learn b v) p ≡ learn b (learn a v) p
learn-learn a b v p h = ground (
  arith,
  string_key.same_iff a.plug_id p,
  string_key.same_iff b.plug_id p,
  string_key.same_iff a.plug_id b.plug_id,
)

-- Entries stand under their own ids.
abbrev pub Keyed : Map String CapEntry → Type 0
Keyed = All (λ (f : String × CapEntry). f.1.plug_id ≡ f.0)

-- No fact is about the id.
abbrev Apart : String → List CapEvent → Type 0
Apart p = All (λ (e : CapEvent). (p == e.plug_id) ≡ false)

insert_by-Apart :
    (p : String) (e : CapEvent) (es : List CapEvent)
    → (p == e.plug_id) ≡ false
    → Apart p es
    → Apart p (insert_by event_less e es)
insert_by-Apart p e [] h a = (h, tt)
insert_by-Apart p e (f ∷ es) h a = elim (Bool-cases (event_less f e)) [
  | inl less ↦ rw less (a.0, insert_by-Apart p e es h a.1)
  | inr more ↦ rw more (h, a)
]

sort_by-Apart : (p : String) (es : List CapEvent) → Apart p es → Apart p (sort_by event_less es)
sort_by-Apart p [] a = tt
sort_by-Apart p (e ∷ es) a =
    insert_by-Apart p e (sort_by event_less es) a.0 (sort_by-Apart p es a.1)

-- The place of a fact among others does not matter.
learn_all-insert_by :
    (e : CapEvent) (es : List CapEvent) (v : View) (p : String)
    → Apart e.plug_id es
    → learn_all (insert_by event_less e es) v p ≡ learn_all (e ∷ es) v p
learn_all-insert_by e [] v p a = refl
learn_all-insert_by e (f ∷ es) v p a = elim (Bool-cases (event_less f e)) [
  | inl less ↦ rw less (
      learn_all-insert_by e es (learn f v) p a.1
      ∙ learn_all-ext es (learn e (learn f v)) (learn f (learn e v)) (λ q. learn-learn e f v q a.0)
          p)
  | inr more ↦ rw more refl
]

entries-Apart :
    (k : String) (m : Map String CapEntry)
    → Keyed m
    → Map.lookup k m ≡ none
    → Apart k (map available_event (entries m))
unfolding Map.lookup
entries-Apart k [] keyed h = tt
entries-Apart k ((j, e) ∷ m) keyed h = elim (Bool-cases (j == k)) [
  | inl hit ↦ absurd (ground arith)
  | inr miss ↦ (
    ap (λ x. k == x) keyed.0 ∙ ground (arith, string_key.same_iff j k, string_key.same_iff k j),
    entries-Apart k m keyed.1 (ground arith),
  )
]

abbrev over :
    Option CapEntry → Option (PluginVersion × CapsDesc) → Option (PluginVersion × CapsDesc)
over none x = x
over (some e) x = some (e.version, e.caps)

current_events-over :
    (m : Map String CapEntry) (v : View) (p : String)
    → Keyed m
    → Distinct m
    → learn_all (current_events m) v p ≡ over (Map.lookup p m) (v p)
unfolding current_events Map.lookup
current_events-over [] v p keyed d = refl
current_events-over ((k, e) ∷ m) v p keyed (new, d) =
    let events = map available_event (entries m) in
    let here : Apart e.plug_id events =
      subst (λ x. Apart x events) (sym keyed.0) (entries-Apart k m keyed.1 new) in
    let at : (e.plug_id == p) ≡ (k == p) = ap (λ x. x == p) keyed.0 in
    learn_all-insert_by (available_event e) (sort_by event_less events) v p
      (sort_by-Apart e.plug_id events here)
    ∙ current_events-over m (learn (available_event e) v) p keyed.1 d
    ∙ elim (Bool-cases (k == p)) [
      | inl hit ↦
          let gone : Map.lookup p m ≡ none =
            subst (λ x. Map.lookup x m ≡ none) ((string_key.same_iff k p).0 hit) new in
          rw (gone, at, hit) refl
      | inr miss ↦ rw (at, miss) refl
    ]

-- A snapshot tells all of the table.
pub current_events-view :
    (m : Map String CapEntry) (p : String)
    → Keyed m
    → Distinct m
    → learn_all (current_events m) nothing_known p ≡ table_view m p
current_events-view m p keyed d =
    current_events-over m nothing_known p keyed d ∙ done (Map.lookup p m)
  where
    done : (o : Option CapEntry) → over o none ≡ entry_fact o
    done none = refl
    done (some e) = refl

-- What a registration and a withdrawal tell is what they do to the table.
pub insert-view :
    (e : CapEntry) (m : Map String CapEntry) (p : String)
    → table_view (Map.insert e.plug_id e m) p ≡ learn (available_event e) (table_view m) p
insert-view e m p = ap entry_fact (lookup-insert e.plug_id p e m) ∙ ground arith

pub remove-view :
    (e : CapEntry) (k : String) (m : Map String CapEntry) (p : String)
    → e.plug_id ≡ k
    → table_view (Map.remove k m) p ≡ learn (withdrawn_event e) (table_view m) p
remove-view e k m p same =
    ap entry_fact (lookup-remove k p m)
    ∙ ap (λ x. entry_fact (if x == p then none else Map.lookup p m)) (sym same)
    ∙ ground arith

pub insert-Keyed :
    (e : CapEntry) (m : Map String CapEntry) → Keyed m → Keyed (Map.insert e.plug_id e m)
unfolding Map.insert
insert-Keyed e [] keyed = (refl, tt)
insert-Keyed e ((j, f) ∷ m) keyed = elim (Bool-cases (j == e.plug_id)) [
  | inl hit ↦ rw hit (sym ((string_key.same_iff j e.plug_id).0 hit), keyed.1)
  | inr miss ↦ rw miss (keyed.0, insert-Keyed e m keyed.1)
]

pub remove-Keyed : (k : String) (m : Map String CapEntry) → Keyed m → Keyed (Map.remove k m)
unfolding Map.remove
remove-Keyed k [] keyed = tt
remove-Keyed k ((j, f) ∷ m) keyed = elim (Bool-cases (j == k)) [
  | inl hit ↦ rw hit (remove-Keyed k m keyed.1)
  | inr miss ↦ rw miss (keyed.0, remove-Keyed k m keyed.1)
]

pub lookup-Keyed :
    (k : String) (e : CapEntry) (m : Map String CapEntry)
    → Keyed m
    → Map.lookup k m ≡ some e
    → e.plug_id ≡ k
unfolding Map.lookup
lookup-Keyed k e [] keyed h = absurd (cc)
lookup-Keyed k e ((j, f) ∷ m) keyed h = elim (Bool-cases (j == k)) [
  | inl hit ↦
      let same : f ≡ e = ground arith in
      ap (λ (x : CapEntry). x.plug_id) (sym same) ∙ keyed.0 ∙ (string_key.same_iff j k).0 hit
  | inr miss ↦ lookup-Keyed k e m keyed.1 (ground arith)
]
