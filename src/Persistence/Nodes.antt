-- ===== src/Persistence/Nodes.antt =====
-- crates/valv-sync/src/persistence/nodes.rs: the `nodes` table.
pub mod Laws
use Prim.Native.String.{compare}
use text.Mathlib.Text.{is_lt}
use valv.Base.{
  String, ◌==◌, string_eq, ℕ, zero, suc, ℤ, ltb_ℤ, Bool, true, false, ◌&&◌, ◌||◌, Option, none,
  some, List, [], ◌∷◌, length, if◌then◌else◌,
}
use valv.Base.Exec.{Exec, raise, pure, modify}
use valv.Errors.{Error, constraint}
use valv.Persistence.Db.{LocalNode, Db}
use valv.Sql.{select_first, select_all, update, upsert, row_of}

unfoldable pub get_node : String → Db → Option LocalNode
get_node node_id db = row_of (λ n. n.node_id) node_id db.nodes

-- A comparison of a column that may be NULL with a value, and `IS NULL`.
abbrev pub column_is : Option String → String → Bool
column_is none s = false
column_is (some t) s = t == s

abbrev pub is_null : Option String → Bool
is_null none = true
is_null (some t) = false

-- The WHERE clause on the parent: `parent_id = ?` or `parent_id IS NULL`.
abbrev pub parent_matches : Option String → LocalNode → Bool
parent_matches (some parent_id) n = column_is n.parent_id parent_id
parent_matches none n = is_null n.parent_id

unfoldable pub get_node_by_parent_and_name : String → Option String → String → Db → Option LocalNode
get_node_by_parent_and_name folder_id parent_id name db =
    select_first
      (λ n.
        n.folder_id == folder_id
        && parent_matches parent_id n
        && n.name == name
        && is_null n.deleted_at)
      db.nodes

-- ORDER BY server_seq ASC: an insertion sort, so rows of one number keep their order.
unfoldable pub insert_by_seq : LocalNode → List LocalNode → List LocalNode
insert_by_seq n [] = n ∷ []
insert_by_seq n (m ∷ t) =
    if ltb_ℤ m.server_seq n.server_seq then m ∷ insert_by_seq n t else n ∷ m ∷ t

unfoldable pub order_by_seq : List LocalNode → List LocalNode
unfolding insert_by_seq
order_by_seq [] = []
order_by_seq (n ∷ t) = insert_by_seq n (order_by_seq t)

unfoldable pub head? : List LocalNode → Option LocalNode
head? [] = none
head? (n ∷ t) = some n

unfoldable pub get_root_node : String → Db → Option LocalNode
unfolding order_by_seq head?
get_root_node folder_id db = head? (
    order_by_seq (
      select_all (λ n. n.folder_id == folder_id && is_null n.parent_id && is_null n.deleted_at)
        db.nodes))

-- CHECK (node_type IN ('file', 'folder')).
abbrev pub node_type_ok : LocalNode → Bool
node_type_ok n = n.node_type == "file" || n.node_type == "folder"

-- The INSERT names no push-cache column, so a new row has NULL there, and an updated one keeps its own.
abbrev pub inserted_row : LocalNode → LocalNode
inserted_row node = record node { pushed_size_bytes = none; pushed_mtime_nanos = none }

abbrev pub updated_row : LocalNode → LocalNode → LocalNode
updated_row node old = record node {
  pushed_size_bytes = old.pushed_size_bytes;
  pushed_mtime_nanos = old.pushed_mtime_nanos;
}

unfoldable pub upsert_node : LocalNode → Exec Db Error Unit
upsert_node node db =
    if node_type_ok node
    then modify
        (λ d. record d {
          nodes =
              upsert (λ n. n.node_id == node.node_id) (updated_row node) (inserted_row node)
                d.nodes;
        })
        db
    else raise constraint db

-- An UPDATE of the row of one node.
abbrev pub update_node : String → (LocalNode → LocalNode) → Db → Db
update_node node_id f db = record db { nodes = update (λ n. n.node_id == node_id) f db.nodes }

-- `now` is `Utc::now().to_rfc3339()`.
unfoldable pub mark_deleted : (now : String) → String → ℤ → Db → Db
mark_deleted now node_id server_seq =
    update_node node_id (λ n. record n { deleted_at = some now; server_seq = server_seq })

-- ORDER BY name ASC, in SQLite's BINARY collation.
unfoldable pub insert_by_name : LocalNode → List LocalNode → List LocalNode
insert_by_name n [] = n ∷ []
insert_by_name n (m ∷ t) =
    if is_lt (compare m.name n.name) then m ∷ insert_by_name n t else n ∷ m ∷ t

unfoldable pub order_by_name : List LocalNode → List LocalNode
unfolding insert_by_name
order_by_name [] = []
order_by_name (n ∷ t) = insert_by_name n (order_by_name t)

-- LIMIT and OFFSET.
unfoldable pub limit_rows : ℕ → List LocalNode → List LocalNode
limit_rows zero t = []
limit_rows (suc k) [] = []
limit_rows (suc k) (n ∷ t) = n ∷ limit_rows k t

unfoldable pub offset_rows : ℕ → List LocalNode → List LocalNode
offset_rows zero t = t
offset_rows (suc k) [] = []
offset_rows (suc k) (n ∷ t) = offset_rows k t

-- The page of the children that are not deleted, and how many there are in all.
unfoldable pub list_children : Option String → String → ℕ → ℕ → Db → List LocalNode × ℕ
unfolding order_by_name limit_rows offset_rows
list_children parent folder_id offset limit db =
    let children =
      select_all (λ n. n.folder_id == folder_id && parent_matches parent n && is_null n.deleted_at)
        db.nodes in
    (limit_rows limit (offset_rows offset (order_by_name children)), length children)

unfoldable pub list_changed_since : String → ℤ → Db → List LocalNode
unfolding order_by_seq
list_changed_since folder_id since_seq db =
    order_by_seq
      (select_all (λ n. n.folder_id == folder_id && ltb_ℤ since_seq n.server_seq) db.nodes)

unfoldable pub update_pushed_cache : String → ℕ → ℤ → Db → Db
update_pushed_cache node_id size_bytes mtime_nanos =
    update_node node_id
      (λ n. record n { pushed_size_bytes = some size_bytes; pushed_mtime_nanos = some mtime_nanos })
