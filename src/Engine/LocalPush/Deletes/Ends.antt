-- ===== src/Engine/LocalPush/Deletes/Ends.antt =====
-- In a finite tree the delete sweep comes to its end.
use valv.Base.{
  ◌≡◌, refl, ap, ◌∙◌, String, ◌==◌, string_eq, ℕ, zero, suc, ◌≤◌, ◌<◌, Bool, true, false, List, [],
  ◌∷◌, ◌++◌, Option, none, some, arith, Bool-cases, Option-cases, inl, inr,
}
use mathlib.Core.Path.{subst}
use valv.Base.Exec.{Exec, ◌>>◌, resume}
use valv.Base.Result.{Result, ok, err}
use valv.Errors.{Error, out_of_fuel, is_update_required}
use valv.Http.{Reply}
use valv.Json.{Json}
use valv.Persistence.Db.{Db}
use valv.Protocol.{SubmitOpRequest, SubmitOpResponse, applied, superseded, conflict_copy, conflict}
use valv.Engine.LocalPush.State.{
  LocalPath, Push, ensure_not_update_required, propagate_update_required, count_error,
}
use valv.Engine.LocalPush.Deletes.{
  MirrorNode, children_of, check_children, and_also, go_on, version_is_local, has_local_version,
  descendants_are_local, folder_descendant_files_are_local, should_delete, is_deferred,
  after_delete, delete_missing, enter_child, visit_child, visit_children, sweep, take_front,
  seed_of, sweep_from, live_mirror_nodes, submit_deletes_for_missing,
}
use valv.Engine.LocalPush.Deletes.Safe.{ensure-same}
use valv.Engine.LocalPush.Deletes.Weight.{
  ids_weight, queue_weight, FiniteTree, check_children-weight, visit_children-weight,
}
use valv.Engine.LocalPush.Deletes.Fuel.{deletes-fuel}

-- The fuel has run out, which is no error of the source.
abbrev pub ran_out : {A : Type 0} → Result Error A → Bool
ran_out (err out_of_fuel) = true
ran_out _ = false

bind-ends :
    {A B : Type 0} (r : Result Error A × Push) (k : A → Exec Push Error B)
    → ran_out r.0 ≡ false
    → ((a : A) → ran_out (k a r.1).0 ≡ false)
    → ran_out (resume r.0 k r.1).0 ≡ false
bind-ends (ok a, s) k h f = f a
bind-ends (err e, s) k h f = h

ensure-ends : (p : Push) → ran_out (ensure_not_update_required p).0 ≡ false
unfolding ensure_not_update_required
ensure-ends p = elim (Option-cases p.update_required_flag) [
  | inl e ↦ rw e refl
  | inr (b, e) ↦ elim (Bool-cases b) [
    | inl q ↦ rw (e ∙ ap some q) refl
    | inr q ↦ rw (e ∙ ap some q) refl
  ]
]

propagate-ends : (e : Error) (p : Push) → ran_out (propagate_update_required e p).0 ≡ false
unfolding propagate_update_required
propagate-ends e p = elim (Option-cases (is_update_required e)) [
  | inl q ↦ rw q refl
  | inr (u, q) ↦ rw q refl
]

version_is_local-ends :
    (J : Json) (version_id : Option String) (db : Db)
    → ran_out (version_is_local J version_id db) ≡ false
unfolding has_local_version
version_is_local-ends J none db = refl
version_is_local-ends J (some id) db = ground arith

and_also-ends :
    (r : Result Error Bool) (rest : Result Error (Option (List String)))
    → ran_out r ≡ false
    → ran_out rest ≡ false
    → ran_out (and_also r rest) ≡ false
and_also-ends (err e) rest h f = h
and_also-ends (ok false) rest h f = refl
and_also-ends (ok true) rest h f = f

check_children-ends :
    (J : Json) (db : Db) (children : List MirrorNode) (queue : List String)
    → ran_out (check_children J db children queue) ≡ false
unfolding check_children
check_children-ends J db [] queue = refl
check_children-ends J db (child ∷ t) queue =
    let skip = check_children-ends J db t queue in
    elim (Bool-cases (child.node_type == "folder")) [
      | inl q ↦ rw q (check_children-ends J db t (queue ++ (child.node_id ∷ [])))
      | inr q ↦ elim (Bool-cases (child.node_type == "file")) [
        | inl r ↦ rw q (
            rw r (
              and_also-ends (version_is_local J child.current_version_id db) _
                (version_is_local-ends J child.current_version_id db) skip))
        | inr r ↦ rw q (rw r skip)
      ]
    ]

go_on-ends :
    (r : Result Error (Option (List String))) (f : List String → Result Error Bool)
    → ran_out r ≡ false
    → ((q : List String) → r ≡ ok (some q) → ran_out (f q) ≡ false)
    → ran_out (go_on r f) ≡ false
go_on-ends (err e) f h g = h
go_on-ends (ok none) f h g = refl
go_on-ends (ok (some q)) f h g = g q refl

module _ (size : String → ℕ) (J : Json) (nodes : List MirrorNode)
    (finite : FiniteTree size nodes) where
  descendants-ends :
      (db : Db) (k : ℕ) (queue : List String)
      → ids_weight size queue < k
      → ran_out (descendants_are_local k J db nodes queue) ≡ false
  unfolding descendants_are_local ids_weight
  descendants-ends db zero queue h = absurd (omega arith)
  descendants-ends db (suc k) [] h = refl
  descendants-ends db (suc k) (id ∷ rest) h =
      go_on-ends (check_children J db (children_of nodes id) rest) _
        (check_children-ends J db (children_of nodes id) rest)
        (λ q e.
          let weight = check_children-weight size J db (children_of nodes id) rest q e in
          let less = finite id in descendants-ends db k q (omega arith))

  module _ (bound : ℕ) (bounded : (id : String) → size id ≤ bound) (k : ℕ)
      (enough : suc bound < k) where
    should_delete-ends :
        (node : MirrorNode) (db : Db) → ran_out (should_delete k J nodes node db) ≡ false
    unfolding should_delete folder_descendant_files_are_local ids_weight
    should_delete-ends node db = elim (Bool-cases (node.node_type == "folder")) [
      | inl t ↦
          let less = bounded node.node_id in
          rw t (descendants-ends db k (node.node_id ∷ []) (omega arith))
      | inr t ↦ elim (Bool-cases (node.node_type == "file")) [
        | inl f ↦ rw t (rw f (version_is_local-ends J node.current_version_id db))
        | inr f ↦ rw t (rw f refl)
      ]
    ]

    module _ (backend : SubmitOpRequest → Reply J.Value) (now : String) (exists : LocalPath → Bool)
        (folder_id : String) where
      after_delete-ends :
          (node : MirrorNode) (r : Result Error SubmitOpResponse) (p : Push)
          → ran_out (after_delete k J backend now exists folder_id nodes node r p).0 ≡ false
      after_delete-ends node (ok (applied seq m)) p = refl
      after_delete-ends node (ok (superseded seq)) p = refl
      after_delete-ends node (ok (conflict_copy seq m v)) p = refl
      after_delete-ends node (ok (conflict m seq b c)) p = refl
      after_delete-ends node (err e) p =
          bind-ends (propagate_update_required e p) (λ u. count_error e) (propagate-ends e p)
            (λ u. refl)

      delete_missing-ends :
          (node : MirrorNode) (p : Push)
          → ran_out (delete_missing k J backend now exists folder_id nodes node p).0 ≡ false
      unfolding delete_missing
      delete_missing-ends node p = decided (should_delete k J nodes node p.db) refl
        where
          decided :
              (r : Result Error Bool)
              → should_delete k J nodes node p.db ≡ r
              → ran_out (delete_missing k J backend now exists folder_id nodes node p).0 ≡ false
          decided (err e) q = rw q (subst (λ r. ran_out r ≡ false) q (should_delete-ends node p.db))
          decided (ok false) q = rw q refl
          decided (ok true) q = rw q (after_delete-ends node _ _)

      enter_child-ends :
          (path : LocalPath) (node : MirrorNode) (p : Push)
          → ran_out (enter_child k J backend now exists folder_id nodes path node p).0 ≡ false
      unfolding enter_child
      enter_child-ends path node p = elim (Bool-cases (exists path)) [
        | inl t ↦ rw t refl
        | inr t ↦ rw t (delete_missing-ends node _)
      ]

      visit_child-ends :
          (path : LocalPath) (node : MirrorNode) (p : Push)
          → ran_out (visit_child k J backend now exists folder_id nodes path node p).0 ≡ false
      unfolding visit_child
      visit_child-ends path node p =
          let p' = (ensure_not_update_required p).1 in
          bind-ends (ensure_not_update_required p) _ (ensure-ends p) (λ a.
            elim (Bool-cases (is_deferred node.node_id p'.deferred_delete_node_ids)) [
              | inl t ↦ rw t refl
              | inr t ↦ rw t (enter_child-ends (path ++ (node.name ∷ [])) node p')
            ])

      visit_children-ends :
          (path : LocalPath) (children : List MirrorNode) (p : Push)
          → ran_out (visit_children k J backend now exists folder_id nodes path children p).0
            ≡ false
      unfolding visit_children
      visit_children-ends path [] p = refl
      visit_children-ends path (node ∷ t) p =
          bind-ends (visit_child k J backend now exists folder_id nodes path node p)
            (λ u. visit_children k J backend now exists folder_id nodes path t)
            (visit_child-ends path node p) (λ a. visit_children-ends path t _)

      take_front-ends :
          (body : LocalPath × String → Exec Push Error Unit) (queue : List (LocalPath × String))
          (p : Push)
          → ((front : LocalPath × String) (rest : List (LocalPath × String))
              → queue ≡ front ∷ rest
              → ran_out (body front (record p { queue = rest })).0 ≡ false)
          → ran_out (take_front body queue p).0 ≡ false
      take_front-ends body [] p h = refl
      take_front-ends body (front ∷ rest) p h = h front rest refl

      sweep-ends :
          (n : ℕ) (p : Push)
          → queue_weight size p.queue < n
          → ran_out (sweep k J backend now exists folder_id nodes n p).0 ≡ false
      unfolding sweep queue_weight
      sweep-ends zero p h = absurd (omega arith)
      sweep-ends (suc n) p h =
          take_front-ends
            (λ front.
              visit_children k J backend now exists folder_id nodes front.0
                (children_of nodes front.1)
              >> sweep k J backend now exists folder_id nodes n)
            p.queue p
            (λ front rest e.
              let children = children_of nodes front.1 in
              let p' = record p { queue = rest } in
              let visited =
                visit_children k J backend now exists folder_id nodes front.0 children p' in
              let weight = ap (queue_weight size) e in
              let added =
                visit_children-weight size k J backend now exists folder_id nodes front.0 children
                  p' in
              let less = finite front.1 in
              bind-ends visited (λ u. sweep k J backend now exists folder_id nodes n)
                (visit_children-ends front.0 children p')
                (λ u. sweep-ends n visited.1 (omega arith)))

      sweep_from-ends :
          (scope_node_id : Option String) (seed : Option MirrorNode) (p : Push)
          → ran_out (sweep_from k J backend now exists folder_id scope_node_id nodes seed p).0
            ≡ false
      unfolding queue_weight
      sweep_from-ends scope_node_id none p = refl
      sweep_from-ends scope_node_id (some seed) p =
          let less = bounded seed.node_id in
          sweep-ends k (record p { queue = ([], seed.node_id) ∷ [] }) (omega arith)

sweep-started :
    (size : String → ℕ) (bound k : ℕ) (J : Json) (backend : SubmitOpRequest → Reply J.Value)
    (now : String) (exists : LocalPath → Bool) (folder_id : String) (scope_node_id : Option String)
    (p : Push)
    → FiniteTree size (live_mirror_nodes folder_id p.db)
    → ((id : String) → size id ≤ bound)
    → suc bound < k
    → ran_out (submit_deletes_for_missing k J backend now exists folder_id scope_node_id p).0
      ≡ false
unfolding submit_deletes_for_missing
sweep-started size bound k J backend now exists folder_id scope_node_id p finite bounded a =
    let nodes = live_mirror_nodes folder_id p.db in
    let same = ensure-same p in
    bind-ends (ensure_not_update_required p) _ (ensure-ends p) (λ u. rw same (
      sweep_from-ends size J nodes finite bound bounded k a backend now exists folder_id
        scope_node_id (seed_of scope_node_id nodes) p))

-- Where no node of the mirror's tree has more than `bound` nodes below it, a delete sweep with any fuel
-- greater than `bound + 1` does not run out of it, whatever the backend answers, and any two such
-- amounts give the same sweep: the same result, requests and state.
pub deletes-ends :
    (size : String → ℕ) (bound j k : ℕ) (J : Json) (backend : SubmitOpRequest → Reply J.Value)
    (now : String) (exists : LocalPath → Bool) (folder_id : String) (scope_node_id : Option String)
    (p : Push)
    → FiniteTree size (live_mirror_nodes folder_id p.db)
    → ((id : String) → size id ≤ bound)
    → suc bound < j
    → suc bound < k
    → (ran_out (submit_deletes_for_missing j J backend now exists folder_id scope_node_id p).0
        ≡ false)
      × (submit_deletes_for_missing j J backend now exists folder_id scope_node_id p
          ≡ submit_deletes_for_missing k J backend now exists folder_id scope_node_id p)
deletes-ends size bound j k J backend now exists folder_id scope_node_id p finite bounded a b = (
  sweep-started size bound j J backend now exists folder_id scope_node_id p finite bounded a,
  deletes-fuel size bound j k J backend now exists folder_id scope_node_id p finite bounded a b,
)
