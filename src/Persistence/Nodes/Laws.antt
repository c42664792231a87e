-- ===== src/Persistence/Nodes/Laws.antt =====
-- What the statements on `nodes` do to the row of one node, and that node ids stay unique.
use mathlib.Core.Option
use valv.Base.{
  ◌≡◌, refl, String, ◌==◌, string_eq, true, Option, none, some, Bool-cases, inl, inr, if◌then◌else◌,
  arith,
}
use valv.Persistence.Db.{LocalNode, Db}
use valv.Persistence.Nodes.{
  get_node, update_node, upsert_node, node_type_ok, inserted_row, updated_row,
}
use valv.Sql.{NodupKeys}
use valv.Sql.Laws.{
  row_of-update, row_of-upsert, row_of-key, update_absent, update-NodupKeys, upsert-NodupKeys,
}

-- The primary key of `nodes`.
abbrev pub NodeIdsUnique : Db → Type 0
NodeIdsUnique db = NodupKeys (λ (n : LocalNode). n.node_id) db.nodes

pub get_node-id : (k : String) (db : Db) (n : LocalNode) → get_node k db ≡ some n → n.node_id ≡ k
unfolding get_node
get_node-id k db n h = row_of-key (λ (m : LocalNode). m.node_id) k db.nodes n h

pub get_node-update_node :
    (j k : String) (f : LocalNode → LocalNode) (db : Db)
    → ((n : LocalNode) → (f n).node_id ≡ n.node_id)
    → get_node k (update_node j f db)
      ≡ (if j == k then Option.map f (get_node k db) else get_node k db)
unfolding get_node
get_node-update_node j k f db h = row_of-update (λ (n : LocalNode). n.node_id) j k f db.nodes h

-- The row that an upsert leaves: the push cache of an old row survives, all else is new.
abbrev pub upserted : LocalNode → Option LocalNode → LocalNode
upserted node none = inserted_row node
upserted node (some old) = updated_row node old

pub get_node-upsert_node :
    (node : LocalNode) (k : String) (db : Db)
    → node_type_ok node ≡ true
    → get_node k (upsert_node node db).1
      ≡ (if node.node_id == k then some (upserted node (get_node k db)) else get_node k db)
unfolding get_node upsert_node
get_node-upsert_node node k db h = ground (
  arith,
  row_of-upsert (λ (n : LocalNode). n.node_id) (updated_row node) (inserted_row node) k db.nodes
      (λ s. refl),
)

pub update_node_absent :
    (k : String) (f : LocalNode → LocalNode) (db : Db)
    → get_node k db ≡ none
    → update_node k f db ≡ db
unfolding get_node
update_node_absent k f db h = rw (update_absent (λ (n : LocalNode). n.node_id) k f db.nodes h)

pub update_node-NodeIdsUnique :
    (k : String) (f : LocalNode → LocalNode) (db : Db)
    → ((n : LocalNode) → (f n).node_id ≡ n.node_id)
    → NodeIdsUnique db
    → NodeIdsUnique (update_node k f db)
update_node-NodeIdsUnique k f db h u =
    update-NodupKeys (λ (n : LocalNode). n.node_id) k f db.nodes h u

pub upsert_node-NodeIdsUnique :
    (node : LocalNode) (db : Db) → NodeIdsUnique db → NodeIdsUnique (upsert_node node db).1
unfolding upsert_node
upsert_node-NodeIdsUnique node db u = elim (Bool-cases (node_type_ok node)) [
  | inl e ↦ rw e (
      upsert-NodupKeys (λ (n : LocalNode). n.node_id) (updated_row node) (inserted_row node)
        db.nodes (λ s. refl) u)
  | inr e ↦ rw e u
]
