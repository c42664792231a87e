-- ===== src/Watch/Events.antt =====
-- The events of crates/valv-sync/src/watch/mod.rs: how a notification of the notify crate becomes an
-- event of the watcher, and how a batch is collapsed.
pub mod Collapse
pub mod Parents
use mathlib.Core.Option
use mathlib.Core.Logic.{dite}
use valv.Base.{
  arith, ◌≡◌, String, ◌==◌, Eq, string_eq, nat_eq, option_eq, list_eq, ap, ℕ, leb, length, Bool,
  true, false, not, ◌&&◌, List, [], ◌∷◌, Option, none, some, is_some, if◌then◌else◌,
}
use valv.Daemon.Paths.{Component, root_dir, cur_dir, parent_dir, normal}

-- An absolute path by its components.
abbrev pub AbsPath : Type 0
AbsPath = List Component

-- A component by its number and its name.
abbrev rank : Component → ℕ
rank root_dir = 0
rank cur_dir = 1
rank parent_dir = 2
rank (normal s) = 3

abbrev name_of : Component → Option String
name_of (normal s) = some s
name_of root_dir = none
name_of cur_dir = none
name_of parent_dir = none

pub by_parts : (c d : Component) → rank c ≡ rank d → name_of c ≡ name_of d → c ≡ d
by_parts root_dir d r n = ground arith
by_parts cur_dir d r n = ground arith
by_parts parent_dir d r n = ground arith
by_parts (normal s) d r n = ground arith

component_dec : Discrete Component
component_dec c d =
    dite (nat_eq.dec (rank c) (rank d))
      (λ r.
        dite (option_eq.dec (name_of c) (name_of d)) (λ n. yes (by_parts c d r n))
          (λ n. no (λ p. n (ap name_of p))))
      (λ r. no (λ p. r (ap rank p)))

instance unfoldable pub component_eq : Eq Component
unfolding component_dec nat_eq option_eq string_eq
component_eq = record { dec = component_dec }

pub data FsEvent : Type 0 where
  create : AbsPath → FsEvent
  modify : AbsPath → FsEvent

pub data WatchSignal : Type 0 where
  event : FsEvent → WatchSignal
  dirty : WatchSignal

-- `notify::EventKind`, as far as the match below tells the kinds apart.
pub data EventKind : Type 0 where
  create modify_data modify_name modify_metadata modify_any remove other access any : EventKind

pub record NotifyEvent : Type 0 where
  pub kind : EventKind
  pub paths : List AbsPath
  pub need_rescan : Bool

-- `paths.into_iter().next().map(..)`.
abbrev first_path : (AbsPath → FsEvent) → List AbsPath → Option WatchSignal
first_path f [] = none
first_path f (p ∷ ps) = some (event (f p))

abbrev map_kind : EventKind → List AbsPath → (need_rescan : Bool) → Option WatchSignal
map_kind EventKind.create paths need_rescan = first_path create paths
map_kind modify_data paths need_rescan = first_path modify paths
map_kind modify_name paths need_rescan = some dirty
map_kind modify_metadata paths need_rescan = none
map_kind modify_any paths need_rescan = some dirty
map_kind remove paths need_rescan = some dirty
map_kind other paths need_rescan = if need_rescan then some dirty else none
map_kind access paths need_rescan = none
map_kind any paths need_rescan = none

unfoldable pub map_notify_event : NotifyEvent → Option WatchSignal
map_notify_event e = map_kind e.kind e.paths e.need_rescan

unfoldable pub should_mark_suppressed_during_pause :
    (user_paused materializing : Bool) → Option WatchSignal → Bool
should_mark_suppressed_during_pause user_paused materializing mapped =
    user_paused && not materializing && is_some mapped

abbrev pub path_of : FsEvent → AbsPath
path_of (create p) = p
path_of (modify p) = p

-- The map of the source, whose keys are the paths of its events.
unfoldable pub event_at : AbsPath → List FsEvent → Option FsEvent
event_at p [] = none
event_at p (e ∷ es) = if path_of e == p then some e else event_at p es

unfoldable pub insert_event : FsEvent → List FsEvent → List FsEvent
insert_event e [] = e ∷ []
insert_event e (f ∷ es) = if path_of f == path_of e then e ∷ es else f ∷ insert_event e es

abbrev pub unless_created : AbsPath → Option FsEvent → List FsEvent → List FsEvent
unless_created p (some (create q)) collapsed = collapsed
unless_created p (some (modify q)) collapsed = insert_event (modify p) collapsed
unless_created p none collapsed = insert_event (modify p) collapsed

unfoldable pub collapse_event : FsEvent → List FsEvent → List FsEvent
unfolding event_at insert_event
collapse_event (create p) collapsed = insert_event (create p) collapsed
collapse_event (modify p) collapsed = unless_created p (event_at p collapsed) collapsed

-- The first loop of `collapse_events`.
unfoldable pub collapse_all : List FsEvent → (collapsed : List FsEvent) → List FsEvent
unfolding collapse_event
collapse_all [] collapsed = collapsed
collapse_all (e ∷ es) collapsed = collapse_all es (collapse_event e collapsed)

-- `sort_by_key` on the number of components, a stable sort.
unfoldable pub insert_by_components : FsEvent → List FsEvent → List FsEvent
insert_by_components e [] = e ∷ []
insert_by_components e (f ∷ es) =
    if leb (length (path_of e)) (length (path_of f))
    then e ∷ f ∷ es
    else f ∷ insert_by_components e es

unfoldable pub sort_by_components : List FsEvent → List FsEvent
unfolding insert_by_components
sort_by_components [] = []
sort_by_components (e ∷ es) = insert_by_components e (sort_by_components es)

-- `into_values` gives the events of the map in an order of its own, which is a parameter.
unfoldable pub collapse_events : (order : List FsEvent → List FsEvent) → List FsEvent → List FsEvent
unfolding collapse_all sort_by_components
collapse_events order events = sort_by_components (order (collapse_all events []))
