-- ===== src/Json.antt =====
-- What the program uses of serde and serde_json: field access on a `serde_json::Value`, and the
-- derived readers of the payload structs of crates/valv-sync/src/persistence/mod.rs. The crates
-- are not part of the repository, so they are a parameter.
use valv.Base.{◌≡◌, String, ℕ, Bool, true, Option, some, List}
use valv.Protocol.{NodeType, ChunkRef, SubmitOpResponse, result_str}

-- The private structs of persistence/mod.rs, which `op_payload` is read at.
pub record CreatePayload : Type 0 where
  pub parent_id : String
  pub name : String
  pub node_type : NodeType
  pub folder_id : Option String

pub record NewVersionPayload : Type 0 where
  pub version_id : String
  pub content_hash : String
  pub size_bytes : ℕ
  pub manifest : List ChunkRef
  pub is_conflict_copy : Option Bool

-- `none` is a value that does not have the struct's shape. A one-field struct is its field.
pub record Json : Type 1 where
  pub Value : Type 0
  pub get_str : Value → String → Option String
  pub get_bool : Value → String → Option Bool
  pub from_create : Value → Option CreatePayload
  pub from_rename : Value → Option String
  pub from_move : Value → Option String
  pub from_new_version : Value → Option NewVersionPayload
  pub from_submit_response : Value → Option SubmitOpResponse
  pub manifest_to_string : List ChunkRef → String
  pub manifest_from_string : String → Option (List ChunkRef)
  pub is_object : Value → Bool

-- On an object, a derived reader takes each string field from the key of its name.
pub record ReadsFields (J : Json) : Type 0 where
  pub create_name :
      (v : J.Value) (p : CreatePayload)
      → J.is_object v ≡ true
      → J.from_create v ≡ some p
      → J.get_str v "name" ≡ some p.name
  pub create_parent :
      (v : J.Value) (p : CreatePayload)
      → J.is_object v ≡ true
      → J.from_create v ≡ some p
      → J.get_str v "parent_id" ≡ some p.parent_id
  pub rename_name :
      (v : J.Value) (s : String)
      → J.is_object v ≡ true
      → J.from_rename v ≡ some s
      → J.get_str v "new_name" ≡ some s
  pub move_parent :
      (v : J.Value) (s : String)
      → J.is_object v ≡ true
      → J.from_move v ≡ some s
      → J.get_str v "new_parent_id" ≡ some s
  -- `SubmitOpResponse` is tagged by the key "result".
  pub response_tag :
      (v : J.Value) (r : SubmitOpResponse)
      → J.is_object v ≡ true
      → J.from_submit_response v ≡ some r
      → J.get_str v "result" ≡ some (result_str r)
