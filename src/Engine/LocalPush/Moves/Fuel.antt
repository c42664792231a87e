-- ===== src/Engine/LocalPush/Moves/Fuel.antt =====
-- Without a cycle of parents the fuel of the walk up the mirror's tree makes no difference.
use valv.Base.{◌≡◌, String, string_eq, ℕ, ◌<◌, List, some}
use valv.Base.Members.{In}
use valv.Persistence.Db.{Db, LocalNode}
use valv.Sql.{row_of}

-- The parent of a row stands higher than the row. A cycle of parents has no such depth.
abbrev pub Descends : (depth : LocalNode → ℕ) → List LocalNode → Type 0
Descends depth by_id =
    (n parent : LocalNode) (parent_id : String)
    → In n by_id
    → n.parent_id ≡ some parent_id
    → row_of (λ r. r.node_id) parent_id by_id ≡ some parent
    → depth parent < depth n
