-- ===== src/Engine/LocalPush/Walk/Requests.antt =====
-- What the steps of the walk may send and put on the queue.
use valv.Base.{
  ◌≡◌, refl, String, ◌==◌, string_eq, Bool, true, false, List, [], ◌∷◌, ◌++◌, Option, none, some,
  arith, Bool-cases, Option-cases, inl, inr,
}
use valv.Base.Exec.{◌>>=◌, ◌>>◌, pure, bind-holds}
use valv.Base.Result.{Result, ok, err, Result-cases}
use valv.Errors.{Error, is_update_required}
use valv.Http.{Reply}
use valv.Json.{Json}
use valv.Persistence.Db.{LocalNode}
use valv.Persistence.Nodes.{column_is}
use valv.Protocol.{
  NodeType, file, folder, SubmitOpRequest, create, rename, move, delete, new_version,
  SubmitOpResponse, applied, conflict_copy, superseded, conflict,
}
use valv.Engine.LocalPush.State.{LocalPath, Push, propagate_update_required, count_skipped}
use valv.Engine.LocalPush.Moves.{
  after_move, submit_move, after_rename, submit_rename, finish_move, enqueue, process_candidate,
  store_node, rename_unless,
}

-- Not a deletion.
abbrev pub NotDelete : SubmitOpRequest → Type 0
NotDelete (delete _ _) = ⊥
NotDelete (create _) = Unit
NotDelete (rename _ _ _) = Unit
NotDelete (move _ _ _) = Unit
NotDelete (new_version _ _ _) = Unit

-- A predicate on the queue and on what was sent.
abbrev pub OnRun : Type 1
OnRun = List (LocalPath × String) → List SubmitOpRequest → Type 0

-- `before` holds until the one entry at hand is put on the queue, if it is a folder, and `after` from
-- then on.
pub record Allows (kind : NodeType) (abs_path : LocalPath) (before after : OnRun) : Type 0 where
  pub weaken : (q : List (LocalPath × String)) (s : List SubmitOpRequest) → before q s → after q s
  pub send :
      (q : List (LocalPath × String)) (s : List SubmitOpRequest) (r : SubmitOpRequest)
      → NotDelete r
      → before q s
      → before q (r ∷ s)
  pub enter :
      kind ≡ folder
      → (q : List (LocalPath × String)) (s : List SubmitOpRequest) (node_id : String) → before q s
      → after (q ++ ((abs_path, node_id) ∷ [])) s

pub propagate-OnRun :
    (before : OnRun) (e : Error) (p : Push)
    → before p.queue p.submitted
    → before (propagate_update_required e p).1.queue (propagate_update_required e p).1.submitted
unfolding propagate_update_required
propagate-OnRun before e p h = elim (Option-cases (is_update_required e)) [
  | inl q ↦ rw q h
  | inr (u, q) ↦ rw q h
]

module _ (exists : LocalPath → Bool) (folder_id : String) (scope_node_id : Option String)
    (abs_path : LocalPath) (parent_node_id name : String) (J : Json)
    (backend : SubmitOpRequest → Reply J.Value) (before after : OnRun) where
  abbrev Before : Push → Type 0
  Before p = before p.queue p.submitted

  abbrev After : Push → Type 0
  After p = after p.queue p.submitted

  module _ (kind : NodeType) (allows : Allows kind abs_path before after) where
    after_move-Before :
        (node : LocalNode) (r : Result Error SubmitOpResponse) (p : Push)
        → Before p
        → Before
            (after_move exists folder_id scope_node_id abs_path parent_node_id name kind J backend
              node r p).1
    after_move-Before node (ok (applied seq m)) p h = h
    after_move-Before node (ok (superseded seq)) p h = h
    after_move-Before node (ok (conflict_copy seq m v)) p h = h
    after_move-Before node (ok (conflict m seq b c)) p h = h
    after_move-Before node (err e) p h =
        bind-holds Before (propagate_update_required e) _ p (propagate-OnRun before e p h)
          (λ a q. propagate-OnRun before e p h)

    submit_move-Before :
        (node : LocalNode) (p : Push)
        → Before p
        → Before
            (submit_move exists folder_id scope_node_id abs_path parent_node_id name kind J backend
              node p).1
    unfolding submit_move
    submit_move-Before node p h = elim (Bool-cases (column_is node.parent_id parent_node_id)) [
      | inl q ↦ rw q h
      | inr q ↦ rw q (after_move-Before node _ _ (allows.send _ _ _ tt h))
    ]

    after_rename-Before :
        (node : LocalNode) (r : Result Error SubmitOpResponse) (p : Push)
        → Before p
        → Before
            (after_rename exists folder_id scope_node_id abs_path parent_node_id name kind J backend
              node r p).1
    after_rename-Before node (ok (applied seq m)) p h = h
    after_rename-Before node (ok (superseded seq)) p h = h
    after_rename-Before node (ok (conflict_copy seq m v)) p h = h
    after_rename-Before node (ok (conflict m seq b c)) p h = h
    after_rename-Before node (err e) p h =
        let h' = propagate-OnRun before e p h in
        bind-holds Before (propagate_update_required e) _ p h'
          (λ a q. bind-holds Before (store_node node) _ _ h' (λ b t. h'))

    submit_rename-Before :
        (node : LocalNode) (p : Push)
        → Before p
        → Before
            (submit_rename exists folder_id scope_node_id abs_path parent_node_id name kind J
              backend node p).1
    unfolding submit_rename
    submit_rename-Before node p h = elim (Bool-cases (node.name == name)) [
      | inl q ↦ rw q h
      | inr q ↦ rw q (after_rename-Before node _ _ (allows.send _ _ _ tt h))
    ]

    rename_unless-Before :
        (node : Option LocalNode) (p : Push)
        → Before p
        → Before
            (rename_unless exists folder_id scope_node_id abs_path parent_node_id name kind J
              backend node p).1
    rename_unless-Before none p h = h
    rename_unless-Before (some node) p h = submit_rename-Before node p h

  enqueue-After :
      (kind : NodeType) (node_id : String) (p : Push)
      → Allows kind abs_path before after
      → Before p
      → After
          (enqueue exists folder_id scope_node_id abs_path parent_node_id name kind J backend kind
            node_id p).1
  enqueue-After file node_id p allows h = allows.weaken _ _ h
  enqueue-After folder node_id p allows h = allows.enter refl _ _ node_id h

  module _ (kind : NodeType) (allows : Allows kind abs_path before after) where
    finish_move-After :
        (node : Option LocalNode) (p : Push)
        → Before p
        → After
            (finish_move exists folder_id scope_node_id abs_path parent_node_id name kind J backend
              node p).1
    unfolding finish_move
    finish_move-After none p h = allows.weaken _ _ h
    finish_move-After (some node) p h =
        bind-holds After (store_node node) _ p (allows.weaken _ _ h) (λ a q.
          let q' = (store_node node p).1 in
          let h' = enqueue-After kind node.node_id q' allows h in
          bind-holds After
            (enqueue exists folder_id scope_node_id abs_path parent_node_id name kind J backend kind
              node.node_id)
            _ q' h' (λ b t. h'))

    process_candidate-After :
        (node : LocalNode) (p : Push)
        → Before p
        → After
            (process_candidate exists folder_id scope_node_id abs_path parent_node_id name kind J
              backend
              (some node)
              p).1
    process_candidate-After node p h =
        let moved =
          submit_move exists folder_id scope_node_id abs_path parent_node_id name kind J backend
            node in
        let renamed =
          rename_unless exists folder_id scope_node_id abs_path parent_node_id name kind J
            backend in
        let h' = submit_move-Before kind allows node p h in
        let both =
          bind-holds Before moved renamed p h' (λ a q. rename_unless-Before kind allows a _ h') in
        bind-holds After (moved >>= renamed) _ p (allows.weaken _ _ both)
          (λ b t. finish_move-After b _ both)

    finish_move-taken :
        (node : Option LocalNode) (p : Push)
        → ¬ (
            (finish_move exists folder_id scope_node_id abs_path parent_node_id name kind J backend
              node p).0
            ≡ ok false)
    unfolding finish_move
    finish_move-taken none p h = ground arith
    finish_move-taken (some node) p h = elim (Result-cases (store_node node p).0) [
      | inl (e, q) ↦ ground (arith, rw q at h)
      | inr (u, q) ↦ enqueued kind _ (rw q at h)
    ]
      where
        enqueued :
            (kind' : NodeType) (q : Push)
            → ¬ (
                ((enqueue exists folder_id scope_node_id abs_path parent_node_id name kind J backend
                      kind' node.node_id
                    >> (count_skipped >> pure true))
                  q).0
                ≡ ok false)
        enqueued file q h' = ground (arith, h')
        enqueued folder q h' = ground (arith, h')

    candidate-taken :
        (node : LocalNode) (p : Push)
        → ¬ (
            (process_candidate exists folder_id scope_node_id abs_path parent_node_id name kind J
              backend
              (some node)
              p).0
            ≡ ok false)
    candidate-taken node p h =
        let moved =
          submit_move exists folder_id scope_node_id abs_path parent_node_id name kind J backend
            node in
        let renamed =
          rename_unless exists folder_id scope_node_id abs_path parent_node_id name kind J
            backend in
        elim (Result-cases ((moved >>= renamed) p).0) [
          | inl (e, q) ↦ ground (arith, rw q at h)
          | inr (b, q) ↦ finish_move-taken b _ (rw q at h)
        ]

    pub taken-After :
        (node : Option LocalNode) (p : Push)
        → Before p
        → After
            (process_candidate exists folder_id scope_node_id abs_path parent_node_id name kind J
              backend node p).1
          × ((process_candidate exists folder_id scope_node_id abs_path parent_node_id name kind J
                  backend node p).0
                ≡ ok false
              → Before
                  (process_candidate exists folder_id scope_node_id abs_path parent_node_id name
                    kind J backend node p).1)
    taken-After none p h = (allows.weaken _ _ h, λ t. h)
    taken-After (some node) p h =
        (process_candidate-After node p h, λ t. elim (candidate-taken node p t) [ ])
