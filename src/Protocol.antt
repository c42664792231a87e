-- ===== src/Protocol.antt =====
-- crates/valv-sync/src/protocol/sync.rs: the messages between a device and the backend.
use valv.Base.{String, ℕ, ℤ, Bool, Option, List}

pub data NodeType : Type 0 where
  file folder : NodeType

pub record CreatePayload : Type 0 where
  pub node_id : String
  pub parent_id : String
  pub name : String
  pub node_type : NodeType

pub record ChunkRef : Type 0 where
  pub chunk_hash : String
  pub offset : ℕ
  pub length : ℕ

pub record NewVersionPayload : Type 0 where
  pub version_id : String
  pub content_hash : String
  pub size_bytes : ℕ
  pub manifest : List ChunkRef
  pub force_conflict_copy : Bool

pub record ConflictManifest : Type 0 where
  pub version_id : String
  pub content_hash : String
  pub size_bytes : ℕ
  pub manifest : List ChunkRef

-- The one-field payloads of a rename and a move are that field; a delete's payload is empty.
pub data SubmitOpRequest : Type 0 where
  create : CreatePayload → SubmitOpRequest
  rename : (node_id : String) (based_on_seq : ℤ) (new_name : String) → SubmitOpRequest
  move : (node_id : String) (based_on_seq : ℤ) (new_parent_id : String) → SubmitOpRequest
  delete : (node_id : String) (based_on_seq : ℤ) → SubmitOpRequest
  new_version : (node_id : String) (based_on_seq : ℤ) → NewVersionPayload → SubmitOpRequest

pub data SubmitOpResponse : Type 0 where
  applied : (server_seq : ℤ) (node_id : String) → SubmitOpResponse
  conflict_copy : (server_seq : ℤ) (node_id conflict_version_id : String) → SubmitOpResponse
  superseded : (current_seq : ℤ) → SubmitOpResponse
  conflict :
      (node_id : String) (current_server_seq : ℤ)
      → Option ConflictManifest
      → ConflictManifest
      → SubmitOpResponse

unfoldable pub result_str : SubmitOpResponse → String
result_str (applied _ _) = "applied"
result_str (conflict_copy _ _ _) = "conflict_copy"
result_str (superseded _) = "superseded"
result_str (conflict _ _ _ _) = "conflict"

-- `op_payload` is a `serde_json::Value`, which is a parameter.
pub record OpLogEntry (Value : Type 0) : Type 0 where
  pub server_seq : ℤ
  pub node_id : String
  pub op_type : String
  pub op_payload : Value
  pub actor_device_id : String
  pub applied_at : String

pub record DeltaPullResponse (Value : Type 0) : Type 0 where
  pub ops : List (OpLogEntry Value)
  pub up_to_seq : ℤ

pub record NodeSnapshot : Type 0 where
  pub node_id : String
  pub parent_id : Option String
  pub name : String
  pub node_type : NodeType
  pub current_version_id : Option String
  pub server_seq : ℤ
  pub deleted_at : Option String

pub record FolderTreeResponse : Type 0 where
  pub nodes : List NodeSnapshot
  pub up_to_seq : ℤ

pub record WsPushNotification : Type 0 where
  pub folder_id : String
  pub server_seq : ℤ
