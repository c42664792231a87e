-- ===== src/Persistence/Db.antt =====
-- The tables of crates/valv-sync/src/persistence/schema.sql, and the rows of each.
use valv.Base.{String, ℕ, ℤ, Bool, Option, List}

pub record LocalNode : Type 0 where
  pub node_id : String
  pub folder_id : String
  pub parent_id : Option String
  pub name : String
  pub node_type : String
  pub current_version_id : Option String
  pub server_seq : ℤ
  pub deleted_at : Option String
  pub pushed_size_bytes : Option ℕ
  pub pushed_mtime_nanos : Option ℤ

pub record LocalMount : Type 0 where
  pub path : String
  pub folder_id : String
  pub grant_id : Option String
  pub scope_node_id : Option String
  pub mount_token : Option String
  pub cursor : ℤ
  pub can_write : Bool
  pub name : Option String

pub record LocalVersion : Type 0 where
  pub version_id : String
  pub node_id : String
  pub folder_id : String
  pub content_hash : String
  pub size_bytes : ℕ
  pub manifest_json : String

-- A row of `versions` has one column more than the struct.
pub record VersionRow : Type 0 where
  pub version : LocalVersion
  pub content_materialized_at : Option String

pub record ChunkRow : Type 0 where
  pub chunk_hash : String
  pub size_bytes : ℕ

pub record Db : Type 0 where
  pub mounts : List LocalMount
  pub nodes : List LocalNode
  pub versions : List VersionRow
  pub uploaded_chunks : List ChunkRow
