-- ===== src/Engine/LocalPush/Deletes/Weight.antt =====
-- How far the delete sweep has to go in a finite tree.
use valv.Base.{
  ◌≡◌, ap, ◌∙◌, String, string_eq, ℕ, suc, ◌+◌, ◌≤◌, Bool, List, [], ◌∷◌, ◌++◌, Option, some, arith,
  Bool-cases, inl, inr, Option-cases,
}
use mathlib.Core.Path.{subst}
use valv.Base.Exec.{bind-holds}
use valv.Base.Result.{Result, ok, err, Result-cases}
use valv.Errors.{Error, is_update_required}
use valv.Http.{Reply}
use valv.Json.{Json}
use valv.Persistence.Db.{Db}
use valv.Protocol.{SubmitOpRequest, SubmitOpResponse, applied, superseded, conflict_copy, conflict}
use valv.Engine.LocalPush.State.{
  LocalPath, Push, ensure_not_update_required, propagate_update_required, count_error,
}
use valv.Engine.LocalPush.Deletes.{
  MirrorNode, children_of, check_children, should_delete, is_deferred, after_delete, delete_missing,
  enter_child, visit_child, visit_children,
}
use valv.Engine.LocalPush.Deletes.Safe.{ensure-same}

module _ (size : String → ℕ) where
  -- The nodes, with as many as `size` says below each.
  unfoldable pub below : List MirrorNode → ℕ
  below [] = 0
  below (n ∷ t) = suc (size n.node_id) + below t

  unfoldable pub ids_weight : List String → ℕ
  ids_weight [] = 0
  ids_weight (id ∷ t) = suc (size id) + ids_weight t

  unfoldable pub queue_weight : List (LocalPath × String) → ℕ
  queue_weight [] = 0
  queue_weight ((path, id) ∷ t) = suc (size id) + queue_weight t

  -- No node has more below it than `size` says. A tree with a cycle of parents has no such size.
  abbrev pub FiniteTree : List MirrorNode → Type 0
  FiniteTree nodes = (id : String) → below (children_of nodes id) ≤ size id

  ids_weight-append :
      (q : List String) (id : String) → ids_weight (q ++ (id ∷ [])) ≡ ids_weight q + suc (size id)
  unfolding ids_weight
  ids_weight-append [] id = omega arith
  ids_weight-append (i ∷ t) id = rw (ids_weight-append t id) (omega arith)

  queue_weight-append :
      (q : List (LocalPath × String)) (path : LocalPath) (id : String)
      → queue_weight (q ++ ((path, id) ∷ [])) ≡ queue_weight q + suc (size id)
  unfolding queue_weight
  queue_weight-append [] path id = omega arith
  queue_weight-append ((p, i) ∷ t) path id = rw (queue_weight-append t path id) (omega arith)

  pub check_children-weight :
      (J : Json) (db : Db) (children : List MirrorNode) (queue found : List String)
      → check_children J db children queue ≡ ok (some found)
      → ids_weight found ≤ ids_weight queue + below children
  unfolding check_children below
  check_children-weight J db [] queue found h =
      subst (λ q. ids_weight q ≤ ids_weight queue + 0) (same h) (omega arith)
    where
      same :
          ◌≡◌ {A = Result Error (Option (List String))} (ok (some queue)) (ok (some found))
          → queue ≡ found
      same q = ground (arith, q)
  check_children-weight J db (child ∷ t) queue found h = ground (
    arith,
    h,
    check_children-weight J db t (queue ++ (child.node_id ∷ [])) found,
    check_children-weight J db t queue found,
    ids_weight-append queue child.node_id,
  )

  module _ (fuel : ℕ) (J : Json) (backend : SubmitOpRequest → Reply J.Value) (now : String)
      (exists : LocalPath → Bool) (folder_id : String) (nodes : List MirrorNode) (bound : ℕ) where
    abbrev Within : Push → Type 0
    Within p = queue_weight p.queue ≤ bound

    propagate-Within : (e : Error) (p : Push) → Within p → Within (propagate_update_required e p).1
    unfolding propagate_update_required
    propagate-Within e p h = elim (Option-cases (is_update_required e)) [
      | inl q ↦ rw q h
      | inr (u, q) ↦ rw q h
    ]

    after_delete-Within :
        (node : MirrorNode) (r : Result Error SubmitOpResponse) (p : Push)
        → Within p
        → Within (after_delete fuel J backend now exists folder_id nodes node r p).1
    after_delete-Within node (ok (applied seq m)) p h = h
    after_delete-Within node (ok (superseded seq)) p h = h
    after_delete-Within node (ok (conflict_copy seq m v)) p h = h
    after_delete-Within node (ok (conflict m seq b c)) p h = h
    after_delete-Within node (err e) p h =
        bind-holds Within (propagate_update_required e) (λ u. count_error e) p
          (propagate-Within e p h) (λ a q. propagate-Within e p h)

    delete_missing-Within :
        (node : MirrorNode) (p : Push)
        → Within p
        → Within (delete_missing fuel J backend now exists folder_id nodes node p).1
    unfolding delete_missing
    delete_missing-Within node p h = elim (Result-cases (should_delete fuel J nodes node p.db)) [
      | inl (e, q) ↦ rw q h
      | inr (b, q) ↦ elim (Bool-cases b) [
        | inr t ↦ rw (q ∙ ap ok t) h
        | inl t ↦ rw (q ∙ ap ok t) (after_delete-Within node _ _ h)
      ]
    ]

    enter_child-Within :
        (path : LocalPath) (node : MirrorNode) (p : Push)
        → queue_weight p.queue + suc (size node.node_id) ≤ bound
        → Within (enter_child fuel J backend now exists folder_id nodes path node p).1
    unfolding enter_child
    enter_child-Within path node p h =
        let appended = queue_weight-append p.queue path node.node_id in
        elim (Bool-cases (exists path)) [
          | inl t ↦ rw t (omega arith)
          | inr t ↦ rw t (delete_missing-Within node _ (omega arith))
        ]

  module _ (fuel : ℕ) (J : Json) (backend : SubmitOpRequest → Reply J.Value) (now : String)
      (exists : LocalPath → Bool) (folder_id : String) (nodes : List MirrorNode) where
    visit_child-weight :
        (path : LocalPath) (node : MirrorNode) (p : Push)
        → queue_weight (visit_child fuel J backend now exists folder_id nodes path node p).1.queue
          ≤ queue_weight p.queue + suc (size node.node_id)
    unfolding visit_child
    visit_child-weight path node p =
        let bound = queue_weight p.queue + suc (size node.node_id) in
        let p' = (ensure_not_update_required p).1 in
        let same = ap (λ q. queue_weight q.queue) (ensure-same p) in
        bind-holds (λ q. queue_weight q.queue ≤ bound) ensure_not_update_required _ p
          (rw same (omega arith))
          (λ a q. elim (Bool-cases (is_deferred node.node_id p'.deferred_delete_node_ids)) [
            | inl t ↦ rw t (rw same (omega arith))
            | inr t ↦ rw t (
                enter_child-Within fuel J backend now exists folder_id nodes bound
                  (path ++ (node.name ∷ [])) node p' (rw same (omega arith)))
          ])

    pub visit_children-weight :
        (path : LocalPath) (children : List MirrorNode) (p : Push)
        → queue_weight
            (visit_children fuel J backend now exists folder_id nodes path children p).1.queue
          ≤ queue_weight p.queue + below children
    unfolding visit_children below
    visit_children-weight path [] p = omega arith
    visit_children-weight path (node ∷ t) p =
        let first = visit_child-weight path node p in
        bind-holds (λ q. queue_weight q.queue ≤ queue_weight p.queue + below (node ∷ t))
          (visit_child fuel J backend now exists folder_id nodes path node) _ p (omega arith)
          (λ a q.
            let rest =
              visit_children-weight path t
                (visit_child fuel J backend now exists folder_id nodes path node p).1 in
            omega arith)
