-- ===== src/Engine/LocalPush/Deletes/Fuel.antt =====
-- In a finite tree the fuel of the delete sweep makes no difference.
use valv.Base.{
  ◌≡◌, refl, ap, String, ◌==◌, string_eq, ℕ, zero, suc, ◌≤◌, ◌<◌, Bool, List, [], ◌∷◌, ◌++◌, Option,
  none, some, arith, Bool-cases, inl, inr,
}
use mathlib.Core.Path.{subst}
use valv.Base.Exec.{Exec, ◌>>◌, resume}
use valv.Base.Result.{Result, ok, err}
use valv.Errors.{Error}
use valv.Http.{Reply}
use valv.Json.{Json}
use valv.Persistence.Db.{Db}
use valv.Protocol.{SubmitOpRequest}
use valv.Engine.LocalPush.State.{LocalPath, Push, ensure_not_update_required}
use valv.Engine.LocalPush.Deletes.{
  MirrorNode, children_of, check_children, go_on, descendants_are_local,
  folder_descendant_files_are_local, should_delete, is_deferred, delete_missing, enter_child,
  visit_child, visit_children, sweep, take_front, seed_of, sweep_from, live_mirror_nodes,
  submit_deletes_for_missing,
}
use valv.Engine.LocalPush.Deletes.Safe.{ensure-same}
use valv.Engine.LocalPush.Deletes.Weight.{
  ids_weight, queue_weight, FiniteTree, check_children-weight, visit_children-weight,
}

go_on-same :
    (r : Result Error (Option (List String))) (f g : List String → Result Error Bool)
    → ((q : List String) → r ≡ ok (some q) → f q ≡ g q)
    → go_on r f ≡ go_on r g
go_on-same (err e) f g h = refl
go_on-same (ok none) f g h = refl
go_on-same (ok (some q)) f g h = h q refl

resume-same :
    {A B : Type 0} (r : Result Error A × Push) (k l : A → Exec Push Error B)
    → ((a : A) → k a r.1 ≡ l a r.1)
    → resume r.0 k r.1 ≡ resume r.0 l r.1
resume-same (ok a, s) k l f = f a
resume-same (err e, s) k l f = refl

-- Two actions that agree at a state, with continuations that agree after the first.
bind-same :
    {A B : Type 0} (r r' : Result Error A × Push) (k l : A → Exec Push Error B)
    → r ≡ r'
    → ((a : A) → k a r.1 ≡ l a r.1)
    → resume r.0 k r.1 ≡ resume r'.0 l r'.1
bind-same r r' k l h f = subst (λ x. resume r.0 k r.1 ≡ resume x.0 l x.1) h (resume-same r k l f)

module _ (size : String → ℕ) (J : Json) (nodes : List MirrorNode)
    (finite : FiniteTree size nodes) where
  descendants-fuel :
      (db : Db) (j k : ℕ) (queue : List String)
      → ids_weight size queue < j
      → ids_weight size queue < k
      → descendants_are_local j J db nodes queue ≡ descendants_are_local k J db nodes queue
  unfolding descendants_are_local ids_weight
  descendants-fuel db zero k queue h i = absurd (omega arith)
  descendants-fuel db (suc j) zero queue h i = absurd (omega arith)
  descendants-fuel db (suc j) (suc k) [] h i = refl
  descendants-fuel db (suc j) (suc k) (id ∷ rest) h i =
      go_on-same (check_children J db (children_of nodes id) rest) _ _ (λ q e.
        let weight = check_children-weight size J db (children_of nodes id) rest q e in
        let less = finite id in descendants-fuel db j k q (omega arith) (omega arith))

  module _ (bound : ℕ) (bounded : (id : String) → size id ≤ bound) (j k : ℕ)
      (enough_j : suc bound < j) (enough_k : suc bound < k) where
    should_delete-fuel :
        (node : MirrorNode) (db : Db)
        → should_delete j J nodes node db ≡ should_delete k J nodes node db
    unfolding should_delete folder_descendant_files_are_local ids_weight
    should_delete-fuel node db = elim (Bool-cases (node.node_type == "folder")) [
      | inl t ↦
          let less = bounded node.node_id in
          rw t (descendants-fuel db j k (node.node_id ∷ []) (omega arith) (omega arith))
      | inr t ↦ rw t refl
    ]

    module _ (backend : SubmitOpRequest → Reply J.Value) (now : String) (exists : LocalPath → Bool)
        (folder_id : String) where
      delete_missing-fuel :
          (node : MirrorNode) (p : Push)
          → delete_missing j J backend now exists folder_id nodes node p
            ≡ delete_missing k J backend now exists folder_id nodes node p
      unfolding delete_missing
      delete_missing-fuel node p = rw (should_delete-fuel node p.db) refl

      enter_child-fuel :
          (path : LocalPath) (node : MirrorNode) (p : Push)
          → enter_child j J backend now exists folder_id nodes path node p
            ≡ enter_child k J backend now exists folder_id nodes path node p
      unfolding enter_child
      enter_child-fuel path node p = elim (Bool-cases (exists path)) [
        | inl t ↦ rw t refl
        | inr t ↦ rw t (delete_missing-fuel node _)
      ]

      visit_child-fuel :
          (path : LocalPath) (node : MirrorNode) (p : Push)
          → visit_child j J backend now exists folder_id nodes path node p
            ≡ visit_child k J backend now exists folder_id nodes path node p
      unfolding visit_child
      visit_child-fuel path node p =
          let p' = (ensure_not_update_required p).1 in
          bind-same (ensure_not_update_required p) _ _ _ refl (λ a.
            elim (Bool-cases (is_deferred node.node_id p'.deferred_delete_node_ids)) [
              | inl t ↦ rw t refl
              | inr t ↦ rw t (enter_child-fuel (path ++ (node.name ∷ [])) node p')
            ])

      visit_children-fuel :
          (path : LocalPath) (children : List MirrorNode) (p : Push)
          → visit_children j J backend now exists folder_id nodes path children p
            ≡ visit_children k J backend now exists folder_id nodes path children p
      unfolding visit_children
      visit_children-fuel path [] p = refl
      visit_children-fuel path (node ∷ t) p =
          bind-same _ _ _ _ (visit_child-fuel path node p) (λ a. visit_children-fuel path t _)

      take_front-same :
          (f g : LocalPath × String → Exec Push Error Unit) (queue : List (LocalPath × String))
          (p : Push)
          → ((front : LocalPath × String) (rest : List (LocalPath × String))
              → queue ≡ front ∷ rest
              → f front (record p { queue = rest }) ≡ g front (record p { queue = rest }))
          → take_front f queue p ≡ take_front g queue p
      take_front-same f g [] p h = refl
      take_front-same f g (front ∷ rest) p h = h front rest refl

      abbrev sweep_round : (fuel rounds : ℕ) → LocalPath × String → Exec Push Error Unit
      sweep_round fuel rounds front =
          visit_children fuel J backend now exists folder_id nodes front.0
            (children_of nodes front.1)
          >> sweep fuel J backend now exists folder_id nodes rounds

      sweep-fuel :
          (m n : ℕ) (p : Push)
          → queue_weight size p.queue < m
          → queue_weight size p.queue < n
          → sweep j J backend now exists folder_id nodes m p
            ≡ sweep k J backend now exists folder_id nodes n p
      unfolding sweep queue_weight
      sweep-fuel zero n p h i = absurd (omega arith)
      sweep-fuel (suc m) zero p h i = absurd (omega arith)
      sweep-fuel (suc m) (suc n) p h i =
          take_front-same (sweep_round j m) (sweep_round k n) p.queue p (λ front rest e.
            let children = children_of nodes front.1 in
            let p' = record p { queue = rest } in
            let visited =
              visit_children j J backend now exists folder_id nodes front.0 children p' in
            let weight = ap (queue_weight size) e in
            let added =
              visit_children-weight size j J backend now exists folder_id nodes front.0 children
                p' in
            let less = finite front.1 in
            bind-same visited _ (λ u. sweep j J backend now exists folder_id nodes m)
              (λ u. sweep k J backend now exists folder_id nodes n)
              (visit_children-fuel front.0 children p')
              (λ u. sweep-fuel m n visited.1 (omega arith) (omega arith)))

      sweep_from-fuel :
          (scope_node_id : Option String) (seed : Option MirrorNode) (p : Push)
          → sweep_from j J backend now exists folder_id scope_node_id nodes seed p
            ≡ sweep_from k J backend now exists folder_id scope_node_id nodes seed p
      unfolding queue_weight
      sweep_from-fuel scope_node_id none p = refl
      sweep_from-fuel scope_node_id (some seed) p =
          let less = bounded seed.node_id in
          sweep-fuel j k (record p { queue = ([], seed.node_id) ∷ [] }) (omega arith) (omega arith)

-- Where no node of the mirror's tree has more than `bound` nodes below it, any two amounts of fuel that
-- are greater than `bound + 1` give the same sweep: the same result, requests and state.
pub deletes-fuel :
    (size : String → ℕ) (bound j k : ℕ) (J : Json) (backend : SubmitOpRequest → Reply J.Value)
    (now : String) (exists : LocalPath → Bool) (folder_id : String) (scope_node_id : Option String)
    (p : Push)
    → FiniteTree size (live_mirror_nodes folder_id p.db)
    → ((id : String) → size id ≤ bound)
    → suc bound < j
    → suc bound < k
    → submit_deletes_for_missing j J backend now exists folder_id scope_node_id p
      ≡ submit_deletes_for_missing k J backend now exists folder_id scope_node_id p
unfolding submit_deletes_for_missing
deletes-fuel size bound j k J backend now exists folder_id scope_node_id p finite bounded a b =
    let nodes = live_mirror_nodes folder_id p.db in
    let same = ensure-same p in
    bind-same (ensure_not_update_required p) _ _ _ refl (λ u. rw same (
      sweep_from-fuel size J nodes finite bound bounded j k a b backend now exists folder_id
        scope_node_id (seed_of scope_node_id nodes) p))
