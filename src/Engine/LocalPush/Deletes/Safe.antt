-- ===== src/Engine/LocalPush/Deletes/Safe.antt =====
-- What the delete sweep asks the backend to delete.
use valv.Base.{
  ◌≡◌, refl, sym, ap, ◌∙◌, String, ℕ, zero, suc, Bool, true, false, List, [], ◌∷◌, ◌++◌, some, All,
  inl, inr, Bool-cases, Option-cases,
}
use valv.Base.Members.{In, All-weaken, All-In, All-append}
use valv.Base.Exec.{Exec, ◌>>◌, bind-holds}
use valv.Base.Result.{Result, ok, err, Result-cases}
use valv.Errors.{Error, is_update_required}
use valv.Http.{Reply}
use valv.Json.{Json}
use valv.Persistence.Db.{Db}
use valv.Persistence.Nodes.{mark_deleted}
use valv.Protocol.{
  SubmitOpRequest, delete, SubmitOpResponse, applied, superseded, conflict_copy, conflict,
}
use valv.Engine.LocalPush.State.{
  LocalPath, Push, ensure_not_update_required, propagate_update_required, count_error,
}
use valv.Engine.LocalPush.Deletes.{
  MirrorNode, children_of, should_delete, is_deferred, after_delete, delete_missing, enter_child,
  visit_child, visit_children, sweep, take_front,
}

pub ensure-same : (p : Push) → (ensure_not_update_required p).1 ≡ p
unfolding ensure_not_update_required
ensure-same p = elim (Option-cases p.update_required_flag) [
  | inl e ↦ rw e refl
  | inr (b, e) ↦ elim (Bool-cases b) [
    | inl q ↦ rw (e ∙ ap some q) refl
    | inr q ↦ rw (e ∙ ap some q) refl
  ]
]

-- Where the mirror's tree has a node: the root of the mount at the empty path, and a child below
-- its parent, under its name.
pub data At (nodes : List MirrorNode) (root : String) : LocalPath → String → Type 0 where
  root : At nodes root [] root
  below :
      (path : LocalPath) (parent_id : String) (node : MirrorNode)
      → At nodes root path parent_id
      → In node (children_of nodes parent_id)
      → At nodes root (path ++ (node.name ∷ [])) node.node_id

module _ (fuel : ℕ) (J : Json) (exists : LocalPath → Bool) (nodes : List MirrorNode) (root : String)
    (start : Push) where
  -- A request that deletes a node of the tree, below the root, which no failed move has deferred,
  -- which is not on disk, and which the tables of versions and chunks allow to delete.
  pub data Deletes : SubmitOpRequest → Type 0 where
    deletes :
        (path : LocalPath) (parent_id : String) (node : MirrorNode) (db : Db)
        → At nodes root path parent_id
        → In node (children_of nodes parent_id)
        → is_deferred node.node_id start.deferred_delete_node_ids ≡ false
        → exists (path ++ (node.name ∷ [])) ≡ false
        → db.versions ≡ start.db.versions
        → db.uploaded_chunks ≡ start.db.uploaded_chunks
        → should_delete fuel J nodes node db ≡ ok true
        → Deletes (delete node.node_id node.server_seq)

  -- The requests sent since the start.
  pub data Sent : List SubmitOpRequest → Type 0 where
    started : Sent start.submitted
    sent : (r : SubmitOpRequest) (rs : List SubmitOpRequest) → Deletes r → Sent rs → Sent (r ∷ rs)

  -- What holds of the state at every step of the sweep.
  abbrev pub Safe : Push → Type 0
  Safe p =
      (p.db.versions ≡ start.db.versions)
      × (p.db.uploaded_chunks ≡ start.db.uploaded_chunks)
      × (p.deferred_delete_node_ids ≡ start.deferred_delete_node_ids)
      × All (λ q. At nodes root q.0 q.1) p.queue
      × Sent p.submitted

  ensure-Safe : (p : Push) → Safe p → Safe (ensure_not_update_required p).1
  ensure-Safe p s = rw (ensure-same p) s

  propagate-Safe : (e : Error) (p : Push) → Safe p → Safe (propagate_update_required e p).1
  unfolding propagate_update_required
  propagate-Safe e p s = elim (Option-cases (is_update_required e)) [
    | inl q ↦ rw q s
    | inr (u, q) ↦ rw q s
  ]

  module _ (backend : SubmitOpRequest → Reply J.Value) (now folder_id : String) where
    after_delete-Safe :
        (node : MirrorNode) (r : Result Error SubmitOpResponse) (p : Push)
        → Safe p
        → Safe (after_delete fuel J backend now exists folder_id nodes node r p).1
    unfolding mark_deleted
    after_delete-Safe node (ok (applied seq m)) p s = s
    after_delete-Safe node (ok (superseded seq)) p s = s
    after_delete-Safe node (ok (conflict_copy seq m v)) p s = s
    after_delete-Safe node (ok (conflict m seq b c)) p s = s
    after_delete-Safe node (err e) p s =
        bind-holds Safe (propagate_update_required e) (λ u. count_error e) p (propagate-Safe e p s)
          (λ a q. propagate-Safe e p s)

    delete_missing-Safe :
        (path : LocalPath) (parent_id : String) (node : MirrorNode) (p : Push)
        → At nodes root path parent_id
        → In node (children_of nodes parent_id)
        → is_deferred node.node_id p.deferred_delete_node_ids ≡ false
        → exists (path ++ (node.name ∷ [])) ≡ false
        → Safe p
        → Safe (delete_missing fuel J backend now exists folder_id nodes node p).1
    unfolding delete_missing
    delete_missing-Safe path parent_id node p a i d x s =
        elim (Result-cases (should_delete fuel J nodes node p.db)) [
          | inl (e, q) ↦ rw q s
          | inr (b, q) ↦ elim (Bool-cases b) [
            | inr t ↦ rw (q ∙ ap ok t) s
            | inl t ↦ rw (q ∙ ap ok t) (
                after_delete-Safe node _ _ (
                  s.0,
                  s.1,
                  s.2,
                  s.3,
                  sent _ _
                      (deletes path parent_id node p.db a i (rw (sym s.2) d) x s.0 s.1
                        (q ∙ ap ok t))
                      s.4,
                ))
          ]
        ]

    -- What the loop over the children knows of each of them.
    abbrev Child : LocalPath → String → MirrorNode → Type 0
    Child path parent_id node = At nodes root path parent_id × In node (children_of nodes parent_id)

    enter_child-Safe :
        (path : LocalPath) (parent_id : String) (node : MirrorNode) (p : Push)
        → Child path parent_id node
        → is_deferred node.node_id p.deferred_delete_node_ids ≡ false
        → Safe p
        → Safe
            (enter_child fuel J backend now exists folder_id nodes
              (path ++ (node.name ∷ []))
              node
              p).1
    unfolding enter_child
    enter_child-Safe path parent_id node p c d s =
        let at_child = below path parent_id node c.0 c.1 in
        let queue_at = All-append _ p.queue _ s.3 (at_child, tt) in
        elim (Bool-cases (exists (path ++ (node.name ∷ [])))) [
          | inl t ↦ rw t (s.0, s.1, s.2, queue_at, s.4)
          | inr t ↦
              rw t (
                delete_missing-Safe path parent_id node _ c.0 c.1 d t
                  (s.0, s.1, s.2, queue_at, s.4))
        ]

    visit_child-Safe :
        (path : LocalPath) (parent_id : String) (node : MirrorNode) (p : Push)
        → Child path parent_id node
        → Safe p
        → Safe (visit_child fuel J backend now exists folder_id nodes path node p).1
    unfolding visit_child
    visit_child-Safe path parent_id node p c s =
        let p' = (ensure_not_update_required p).1 in
        let s' = ensure-Safe p s in
        bind-holds Safe ensure_not_update_required _ p s' (λ a q.
          elim (Bool-cases (is_deferred node.node_id p'.deferred_delete_node_ids)) [
            | inl t ↦ rw t s'
            | inr t ↦ rw t (enter_child-Safe path parent_id node p' c t s')
          ])

    visit_children-Safe :
        (path : LocalPath) (parent_id : String) (children : List MirrorNode) (p : Push)
        → All (Child path parent_id) children
        → Safe p
        → Safe (visit_children fuel J backend now exists folder_id nodes path children p).1
    unfolding visit_children
    visit_children-Safe path parent_id [] p c s = s
    visit_children-Safe path parent_id (node ∷ t) p (c, cs) s =
        bind-holds Safe (visit_child fuel J backend now exists folder_id nodes path node) _ p
          (visit_child-Safe path parent_id node p c s)
          (λ a q.
            visit_children-Safe path parent_id t _ cs (visit_child-Safe path parent_id node p c s))

    take_front-Safe :
        (body : LocalPath × String → Exec Push Error Unit) (queue : List (LocalPath × String))
        (p : Push)
        → All (λ q. At nodes root q.0 q.1) queue
        → Safe p
        → ((front : LocalPath × String) (p' : Push)
            → At nodes root front.0 front.1
            → Safe p'
            → Safe (body front p').1)
        → Safe (take_front body queue p).1
    take_front-Safe body [] p a s f = s
    take_front-Safe body (front ∷ rest) p (a, rest_at) s f =
        f front _ a (s.0, s.1, s.2, rest_at, s.4)

    children-Child :
        (path : LocalPath) (parent_id : String)
        → At nodes root path parent_id
        → All (Child path parent_id) (children_of nodes parent_id)
    children-Child path parent_id a =
        All-weaken _ (Child path parent_id) (children_of nodes parent_id) (λ n i. (a, i))
          (All-In (children_of nodes parent_id))

    pub sweep-Safe :
        (k : ℕ) (p : Push) → Safe p → Safe (sweep fuel J backend now exists folder_id nodes k p).1
    unfolding sweep
    sweep-Safe zero p s = s
    sweep-Safe (suc k) p s =
        take_front-Safe
          (λ front.
            visit_children fuel J backend now exists folder_id nodes front.0
              (children_of nodes front.1)
            >> sweep fuel J backend now exists folder_id nodes k)
          p.queue p s.3 s
          (λ front p' a s'.
            let visited =
              visit_children-Safe front.0 front.1 (children_of nodes front.1) p'
                (children-Child front.0 front.1 a) s' in
            bind-holds Safe
              (visit_children fuel J backend now exists folder_id nodes front.0
                (children_of nodes front.1))
              (λ u. sweep fuel J backend now exists folder_id nodes k) p' visited
              (λ u q. sweep-Safe k _ visited))
