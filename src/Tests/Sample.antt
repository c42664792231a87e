-- ===== src/Tests/Sample.antt =====
-- The data of the tests: JSON objects with string fields, and a mirror of two folders.
use valv.Base.{
  String, ◌==◌, string_eq, option_eq, ℕ, pos, true, Option, none, some, List, [], ◌∷◌,
  if◌then◌else◌, arith,
}
use valv.Json.{Json, ReadsFields, CreatePayload, NewVersionPayload}
use valv.Persistence.Db.{LocalNode, LocalMount, Db}
use valv.Persistence.OpLog.{Entry}
use valv.Protocol.{NodeType, file, folder, superseded, result_str}

abbrev pub Fields : Type 0
Fields = List (String × String)

abbrev pub field : Fields → String → Option String
field [] k = none
field ((j, s) ∷ t) k = if j == k then some s else field t k

abbrev read_type : Option String → Option NodeType
read_type none = none
read_type (some s) = if s == "file" then some file else if s == "folder" then some folder else none

abbrev join_create :
    Option String → Option String → Option NodeType → Option String → Option CreatePayload
join_create (some p) (some n) (some t) f =
    some (record { parent_id = p; name = n; node_type = t; folder_id = f })
join_create _ _ _ _ = none

abbrev join_version : Option String → Option String → Option String → Option NewVersionPayload
join_version (some v) (some h) c = some (record {
  version_id = v;
  content_hash = h;
  size_bytes = 3;
  manifest = [];
  is_conflict_copy = if c == some "true" then some true else none;
})
join_version _ _ _ = none

-- A reader of objects whose fields are all strings.
abbrev pub sample_json : Json
sample_json = record {
  Value = Fields;
  get_str = field;
  get_bool = λ v k. if field v k == some "true" then some true else none;
  from_create = λ v.
      join_create (field v "parent_id") (field v "name") (read_type (field v "type"))
        (field v "folder_id");
  from_rename = λ v. field v "new_name";
  from_move = λ v. field v "new_parent_id";
  from_new_version = λ v.
      join_version (field v "version_id") (field v "content_hash") (field v "is_conflict_copy");
  from_submit_response =
      λ v. if field v "result" == some "superseded" then some (superseded (pos 9)) else none;
  manifest_to_string = λ m. "[]";
  manifest_from_string = λ s. some [];
  is_object = λ v. true;
}

pub sample_json-ReadsFields : ReadsFields sample_json
unfolding result_str
sample_json-ReadsFields = record {
  create_name = λ v p o e. ground arith;
  create_parent = λ v p o e. ground arith;
  rename_name = λ v s o e. e;
  move_parent = λ v s o e. e;
  response_tag = λ v r o e. ground arith;
}

abbrev pub node : String → String → Option String → String → ℕ → LocalNode
node id f parent name seq = record {
  node_id = id;
  folder_id = f;
  parent_id = parent;
  name = name;
  node_type = "file";
  current_version_id = none;
  server_seq = pos seq;
  deleted_at = none;
  pushed_size_bytes = none;
  pushed_mtime_nanos = none;
}

abbrev pub mount : LocalMount
mount = record {
  path = "/sync";
  folder_id = "folder-1";
  grant_id = none;
  scope_node_id = none;
  mount_token = none;
  cursor = pos 5;
  can_write = true;
  name = none;
}

abbrev pub mirror : Db
mirror = record {
  mounts = mount ∷ [];
  nodes =
      node "root" "folder-1" none "" 0
      ∷ node "n1" "folder-1" (some "root") "a.txt" 5
      ∷ node "other" "folder-2" none "b.txt" 3
      ∷ [];
  versions = [];
  uploaded_chunks = [];
}

abbrev pub op : String → String → ℕ → Fields → Entry sample_json
op op_type id seq payload = record {
  server_seq = pos seq;
  node_id = id;
  op_type = op_type;
  op_payload = payload;
  actor_device_id = "d1";
  applied_at = "2026-06-28T00:00:00Z";
}

abbrev pub rename_op : Entry sample_json
rename_op = op "rename" "n1" 7 (("new_name", "b.txt") ∷ [])
