-- ===== src/Watch/Events/Collapse.antt =====
-- What a collapsed batch has for each path.
use valv.Base.{
  ◌≡◌, refl, ◌==◌, list_eq, ℕ, ◌+◌, Bool, true, false, ◌||◌, List, [], ◌∷◌, Option, none, some,
  is_some, if◌then◌else◌, arith, inl, inr, Bool-cases,
}
use valv.Watch.Events.{
  AbsPath, component_eq, FsEvent, create, modify, path_of, event_at, insert_event, collapse_event,
  collapse_all, insert_by_components, sort_by_components, collapse_events,
}

-- How many elements pass a test.
abbrev pub count : (FsEvent → Bool) → List FsEvent → ℕ
count test [] = 0
count test (e ∷ es) = (if test e then 1 else 0) + count test es

abbrev pub touches : AbsPath → FsEvent → Bool
touches p e = path_of e == p

abbrev pub creates : AbsPath → FsEvent → Bool
creates p (create q) = q == p
creates p (modify q) = false

abbrev pub some_of : (FsEvent → Bool) → List FsEvent → Bool
some_of test [] = false
some_of test (e ∷ es) = test e || some_of test es

abbrev pub one_if : Bool → ℕ
one_if b = if b then 1 else 0

-- The order in which a map gives its values loses none and makes none.
abbrev pub KeepsCounts : (List FsEvent → List FsEvent) → Type 0
KeepsCounts order =
    (test : FsEvent → Bool) (es : List FsEvent) → count test (order es) ≡ count test es

abbrev is_create : Option FsEvent → Bool
is_create (some (create p)) = true
is_create (some (modify p)) = false
is_create none = false

abbrev Distinct : List FsEvent → Type 0
Distinct [] = Unit
Distinct (e ∷ es) = (event_at (path_of e) es ≡ none) × Distinct es

event_at-insert :
    (p : AbsPath) (e : FsEvent) (es : List FsEvent)
    → event_at p (insert_event e es) ≡ (if path_of e == p then some e else event_at p es)
unfolding event_at insert_event
event_at-insert p e [] = refl
event_at-insert p e (f ∷ es) = ground (arith, event_at-insert p e es)

insert-Distinct : (e : FsEvent) (es : List FsEvent) → Distinct es → Distinct (insert_event e es)
unfolding event_at insert_event
insert-Distinct e [] d = (refl, tt)
insert-Distinct e (f ∷ es) d = elim (Bool-cases (path_of f == path_of e)) [
  | inl same ↦ ground arith
  | inr other ↦ ground (arith, event_at-insert (path_of f) e es, insert-Distinct e es)
]

event_at-path :
    (p : AbsPath) (es : List FsEvent) (e : FsEvent) → event_at p es ≡ some e → path_of e ≡ p
unfolding event_at
event_at-path p [] e h = ground arith
event_at-path p (f ∷ es) e h = ground (arith, event_at-path p es e)

absent-counts :
    (p : AbsPath) (es : List FsEvent)
    → event_at p es ≡ none
    → (count (touches p) es ≡ 0) × (count (creates p) es ≡ 0)
unfolding event_at
absent-counts p [] h = (refl, refl)
absent-counts p (create q ∷ es) h = ground (arith, absent-counts p es)
absent-counts p (modify q ∷ es) h = ground (arith, absent-counts p es)

Distinct-counts :
    (p : AbsPath) (es : List FsEvent)
    → Distinct es
    → (count (touches p) es ≡ one_if (is_some (event_at p es)))
      × (count (creates p) es ≡ one_if (is_create (event_at p es)))
unfolding event_at
Distinct-counts p [] d = (refl, refl)
Distinct-counts p (create q ∷ es) d = ground (arith, Distinct-counts p es, absent-counts p es)
Distinct-counts p (modify q ∷ es) d = ground (arith, Distinct-counts p es, absent-counts p es)

collapse-Distinct : (e : FsEvent) (es : List FsEvent) → Distinct es → Distinct (collapse_event e es)
unfolding collapse_event
collapse-Distinct (create p) es d = insert-Distinct (create p) es d
collapse-Distinct (modify p) es d = ground (arith, insert-Distinct (modify p) es d)

event_at-collapse :
    (p : AbsPath) (e : FsEvent) (es : List FsEvent)
    → (is_some (event_at p (collapse_event e es)) ≡ (touches p e || is_some (event_at p es)))
      × (is_create (event_at p (collapse_event e es)) ≡ (creates p e || is_create (event_at p es)))
unfolding collapse_event
event_at-collapse p (create q) es = ground (arith, event_at-insert p (create q) es)
event_at-collapse p (modify q) es = ground (arith, event_at-insert p (modify q) es)

event_at-collapse_all :
    (p : AbsPath) (es collapsed : List FsEvent)
    → (is_some (event_at p (collapse_all es collapsed))
        ≡ (some_of (touches p) es || is_some (event_at p collapsed)))
      × (is_create (event_at p (collapse_all es collapsed))
          ≡ (some_of (creates p) es || is_create (event_at p collapsed)))
unfolding collapse_all
event_at-collapse_all p [] collapsed = (refl, refl)
event_at-collapse_all p (e ∷ es) collapsed = ground (
  arith,
  event_at-collapse p e collapsed,
  event_at-collapse_all p es (collapse_event e collapsed),
)

collapse_all-Distinct :
    (es collapsed : List FsEvent) → Distinct collapsed → Distinct (collapse_all es collapsed)
unfolding collapse_all
collapse_all-Distinct [] collapsed d = d
collapse_all-Distinct (e ∷ es) collapsed d =
    collapse_all-Distinct es (collapse_event e collapsed) (collapse-Distinct e collapsed d)

insert_by_components-count :
    (test : FsEvent → Bool) (e : FsEvent) (es : List FsEvent)
    → count test (insert_by_components e es) ≡ one_if (test e) + count test es
unfolding insert_by_components
insert_by_components-count test e [] = refl
insert_by_components-count test e (f ∷ es) = ground (arith, insert_by_components-count test e es)

sort-count :
    (test : FsEvent → Bool) (es : List FsEvent) → count test (sort_by_components es) ≡ count test es
unfolding sort_by_components
sort-count test [] = refl
sort-count test (e ∷ es) =
    omega (arith, insert_by_components-count test e (sort_by_components es), sort-count test es)

-- In whatever order the map gives its events, a collapsed batch has one event for a path if the batch
-- had any, and none otherwise, and that event is a create exactly if the batch had a create of the path.
pub collapse-OnePerPath :
    (order : List FsEvent → List FsEvent) (events : List FsEvent) (p : AbsPath)
    → KeepsCounts order
    → (count (touches p) (collapse_events order events) ≡ one_if (some_of (touches p) events))
      × (count (creates p) (collapse_events order events) ≡ one_if (some_of (creates p) events))
unfolding collapse_events event_at
collapse-OnePerPath order events p keeps =
    let all = collapse_all events [] in
    let tests = event_at-collapse_all p events [] in
    let counts = Distinct-counts p all (collapse_all-Distinct events [] tt) in
    ground (
      arith,
      tests,
      counts,
      sort-count (touches p) (order all),
      sort-count (creates p) (order all),
      keeps (touches p) all,
      keeps (creates p) all,
    )
