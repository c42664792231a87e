-- ===== src/Watch/Events/Parents.antt =====
-- The order of a collapsed batch.
use valv.Base.{ℕ, ◌≤◌, length, List, [], ◌∷◌, All, arith}
use valv.Watch.Events.{
  FsEvent, path_of, insert_by_components, sort_by_components, collapse_all, collapse_events,
}

-- Each event's path is no longer than those of the events after it.
abbrev pub ParentsFirst : List FsEvent → Type 0
ParentsFirst [] = Unit
ParentsFirst (e ∷ es) = All (λ f. length (path_of e) ≤ length (path_of f)) es × ParentsFirst es

insert-All :
    (n : ℕ) (e : FsEvent) (es : List FsEvent)
    → n ≤ length (path_of e)
    → All (λ f. n ≤ length (path_of f)) es
    → All (λ f. n ≤ length (path_of f)) (insert_by_components e es)
unfolding insert_by_components
insert-All n e [] h a = (h, tt)
insert-All n e (f ∷ es) h a = ground (arith, insert-All n e es)

weaken-All :
    (m n : ℕ) (es : List FsEvent)
    → m ≤ n
    → All (λ f. n ≤ length (path_of f)) es
    → All (λ f. m ≤ length (path_of f)) es
weaken-All m n [] h a = tt
weaken-All m n (e ∷ es) h a = ground (arith, weaken-All m n es)

insert-ParentsFirst :
    (e : FsEvent) (es : List FsEvent) → ParentsFirst es → ParentsFirst (insert_by_components e es)
unfolding insert_by_components
insert-ParentsFirst e [] h = (tt, tt)
insert-ParentsFirst e (f ∷ es) h = ground (
  arith,
  insert-ParentsFirst e es,
  insert-All (length (path_of f)) e es,
  weaken-All (length (path_of e)) (length (path_of f)) es,
)

sort-ParentsFirst : (es : List FsEvent) → ParentsFirst (sort_by_components es)
unfolding sort_by_components
sort-ParentsFirst [] = tt
sort-ParentsFirst (e ∷ es) = insert-ParentsFirst e (sort_by_components es) (sort-ParentsFirst es)

-- In whatever order the map gives its events, a path of a collapsed batch has no more components than
-- the paths after it, so that the event of a folder stands before those of the entries below it.
pub collapse-ParentsFirst :
    (order : List FsEvent → List FsEvent) (events : List FsEvent)
    → ParentsFirst (collapse_events order events)
unfolding collapse_events
collapse-ParentsFirst order events = sort-ParentsFirst (order (collapse_all events []))
