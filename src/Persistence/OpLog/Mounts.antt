-- ===== src/Persistence/OpLog/Mounts.antt =====
-- The log of operations does not touch the mounts.
use valv.Base.{◌≡◌, String, arith}
use valv.Json.{Json}
use valv.Persistence.Db.{Db}
use valv.Persistence.Nodes.{upsert_node, mark_deleted}
use valv.Persistence.Versions.{upsert_version}
use valv.Persistence.OpLog.{
  Entry, apply_op_log_entry, apply_create, apply_rename, apply_move, apply_delete,
  apply_new_version, dispatch,
}

module _ (J : Json) (entry : Entry J) (db : Db) where
  create-mounts : (apply_create J entry db).1.mounts ≡ db.mounts
  unfolding apply_create upsert_node
  create-mounts = ground arith

  new_version-mounts : (apply_new_version J entry db).1.mounts ≡ db.mounts
  unfolding apply_new_version upsert_version
  new_version-mounts = ground arith

  pub mounts-apply : (now : String) → (apply_op_log_entry J now entry db).1.mounts ≡ db.mounts
  unfolding apply_op_log_entry dispatch apply_rename apply_move apply_delete mark_deleted
  mounts-apply now = ground (arith, create-mounts, new_version-mounts)
