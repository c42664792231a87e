-- ===== src/Daemon/Paths/RoundTrip.antt =====
-- The names of a node that a path leads to are those of the path.
use valv.Base.{
  ◌≡◌, refl, sym, ap, ◌∙◌, String, ◌==◌, string_eq, ℕ, suc, ◌+◌, ◌-◌, ◌<◌, ◌||◌, length, Bool, true,
  false, ◌&&◌, List, [], ◌∷◌, ◌++◌, Option, none, some, arith, Option-cases, Bool-cases, inl, inr,
}
use mathlib.Core.Path.{subst}
use valv.Base.Members.{some-injective}
use valv.Persistence.Db.{Db, LocalNode}
use valv.Persistence.Nodes.{
  get_node, get_node_by_parent_and_name, parent_matches, column_is, is_null,
}
use valv.Persistence.Nodes.Laws.{NodeIdsUnique}
use valv.Sql.{select_first, row_of, NodupKeys}
use valv.Engine.LocalPush.Moves.{is_scope}
use valv.Daemon.Paths.{Component, normal, descend, step_out, node_names}

-- A row that a SELECT finds passes its test, and is the row of its key.
first-row_of :
    {R : Type 0} (key : R → String) (p : R → Bool) (t : List R) (r : R)
    → NodupKeys key t
    → select_first p t ≡ some r
    → (p r ≡ true) × (row_of key (key r) t ≡ some r)
unfolding select_first
first-row_of key p [] r u h = ground (arith, h)
first-row_of key p (s ∷ t) r u h = elim (Bool-cases (p s)) [
  | inl q ↦
      let same = some-injective s r (rw q at h) in
      subst (λ x. (p x ≡ true) × (row_of key (key x) (s ∷ t) ≡ some x)) same (q, ground arith)
  | inr q ↦
      let rest = first-row_of key p t r u.1 (rw q at h) in (rest.0, ground (arith, rest.1, u.0))
]

column_is-≡ : (o : Option String) (s : String) → column_is o s ≡ true → o ≡ some s
column_is-≡ none s h = ground (arith, h)
column_is-≡ (some t) s h = ground (arith, h)

-- The rounds that the walk takes for the names, and more.
abbrev steps : List String → ℕ → ℕ
steps [] k = k
steps (s ∷ t) k = steps t (suc k)

steps-length : (names : List String) (k : ℕ) → steps names k ≡ length names + k
steps-length [] k = omega arith
steps-length (s ∷ t) k = omega (arith, steps-length t (suc k))

abbrev pub normals : List String → List Component
normals [] = []
normals (s ∷ t) = normal s ∷ normals t

module _ (normalize : String → List Component) (db : Db) (folder_id : String)
    (scope_node_id : Option String) (unique : NodeIdsUnique db) where
  child-facts :
      (parent_id name : String) (m : LocalNode)
      → get_node_by_parent_and_name folder_id (some parent_id) name db ≡ some m
      → (m.parent_id ≡ some parent_id) × (m.name ≡ name) × (get_node m.node_id db ≡ some m)
  unfolding get_node_by_parent_and_name get_node
  child-facts parent_id name m h =
      let found =
        first-row_of (λ n. n.node_id)
          (λ n.
            n.folder_id == folder_id
            && parent_matches (some parent_id) n
            && n.name == name
            && is_null n.deleted_at)
          db.nodes m unique h in
      let parts = split_four found.0 in
      (column_is-≡ m.parent_id parent_id parts.0, parts.1, found.1)
    where
      split_four :
          (m.folder_id == folder_id
              && column_is m.parent_id parent_id
              && m.name == name
              && is_null m.deleted_at)
            ≡ true
          → (column_is m.parent_id parent_id ≡ true) × (m.name ≡ name)
      split_four k = ground (arith, k)

  -- No node on the way to `names` from `current` is the scope of the mount.
  abbrev pub BelowScope : List String → LocalNode → Type 0
  BelowScope [] current = Unit
  BelowScope (name ∷ rest) current =
      (m : LocalNode)
      → get_node_by_parent_and_name folder_id (some current.node_id) name db ≡ some m
      → (is_scope scope_node_id m.node_id ≡ false) × BelowScope rest m

  step_up :
      (m : LocalNode) (parent_id : String) (segments : List String) (fuel : ℕ)
      → is_scope scope_node_id m.node_id ≡ false
      → m.parent_id ≡ some parent_id
      → get_node m.node_id db ≡ some m
      → node_names normalize db (suc fuel) scope_node_id m.node_id segments
        ≡ node_names normalize db fuel scope_node_id parent_id (m.name ∷ segments)
  unfolding node_names
  step_up m parent_id segments fuel scope parent found = rw found (
      rw scope (
        ap
          (λ o.
            step_out normalize db m o
              (λ p. node_names normalize db fuel scope_node_id p (m.name ∷ segments)) segments)
          parent))

  top_stops :
      (k : ℕ) (segments : List String) (top : LocalNode)
      → get_node top.node_id db ≡ some top
      → (is_scope scope_node_id top.node_id || is_null top.parent_id) ≡ true
      → node_names normalize db (suc k) scope_node_id top.node_id segments ≡ some segments
  unfolding node_names
  top_stops k segments top found stop = elim (Bool-cases (is_scope scope_node_id top.node_id)) [
    | inl q ↦ rw found (rw q refl)
    | inr q ↦ rw found (rw q (no_parent top.parent_id (rw q at stop)))
  ]
    where
      no_parent :
          (o : Option String)
          → is_null o ≡ true
          → step_out normalize db top o
              (λ p. node_names normalize db k scope_node_id p (top.name ∷ segments))
              segments
            ≡ some segments
      no_parent none h = refl
      no_parent (some p) h = ground (arith, h)

  walk-back :
      (names : List String) (current n : LocalNode) (segments : List String) (fuel : ℕ)
      → BelowScope names current
      → descend normalize db folder_id (normals names) current ≡ some n
      → node_names normalize db (steps names fuel) scope_node_id n.node_id segments
        ≡ node_names normalize db fuel scope_node_id current.node_id (names ++ segments)
  unfolding descend
  walk-back [] current n segments fuel b h =
      ap (λ x. node_names normalize db fuel scope_node_id x.node_id segments)
        (sym (some-injective current n h))
  walk-back (name ∷ rest) current n segments fuel b h =
      elim (Option-cases (get_node_by_parent_and_name folder_id (some current.node_id) name db)) [
        | inl q ↦ ground (arith, rw q at h)
        | inr (m, q) ↦
            let facts = child-facts current.node_id name m q in
            walk-back rest m n segments (suc fuel) (b m q).1 (rw q at h)
            ∙ step_up m current.node_id (rest ++ segments) fuel (b m q).0 facts.0 facts.2
            ∙ ap
                (λ s.
                  node_names normalize db fuel scope_node_id current.node_id
                    (s ∷ (rest ++ segments)))
                facts.1
      ]

  -- If a path leads from the top of a mount to a node, the walk from the node back to the top finds the
  -- names of the path, once it has a round for each name and one more. The top is the scope of the mount
  -- or a root, and the scope is not met below it.
  pub names-descend :
      (names : List String) (top n : LocalNode) (fuel : ℕ)
      → get_node top.node_id db ≡ some top
      → (is_scope scope_node_id top.node_id || is_null top.parent_id) ≡ true
      → BelowScope names top
      → length names < fuel
      → descend normalize db folder_id (normals names) top ≡ some n
      → node_names normalize db fuel scope_node_id n.node_id [] ≡ some names
  names-descend names top n fuel found stop b less h =
      let k = fuel - suc (length names) in
      let enough = steps-length names (suc k) in
      subst (λ f. node_names normalize db f scope_node_id n.node_id [] ≡ some names)
        (enough ∙ counted)
        (walk-back names top n [] (suc k) b h ∙ at_top k (names ++ []) ∙ ap some (append_nil names))
    where
      counted : length names + suc (fuel - suc (length names)) ≡ fuel
      counted = omega (arith, less)

      append_nil : (l : List String) → l ++ [] ≡ l
      append_nil [] = refl
      append_nil (a ∷ l) = ap (λ t. a ∷ t) (append_nil l)

      at_top :
          (k : ℕ) (segments : List String)
          → node_names normalize db (suc k) scope_node_id top.node_id segments ≡ some segments
      at_top k segments = top_stops k segments top found stop
