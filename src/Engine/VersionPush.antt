-- ===== src/Engine/VersionPush.antt =====
-- `upload_then_submit_new_version` of crates/valv-sync/src/sync_engine/op_submit.rs, on a device's
-- mirror and the folder of the file.
pub mod Keeps
use valv.Base.{String, ◌<>◌, ℕ, ℤ, ◌+◌, false, List, [], ◌∷◌, map, Option, none, some}
use valv.Base.Exec.{Exec, pure, lift, ◌>>=◌, ◌>>◌}
use valv.Base.Result.{Result, ok, err}
use valv.Errors.{Error}
use valv.Http.{Reply}
use valv.Json.{Json}
use valv.Persistence.Db.{Db}
use valv.Protocol.{
  ChunkRef, NewVersionPayload, SubmitOpRequest, new_version, SubmitOpResponse, applied,
  conflict_copy, superseded, conflict,
}
use valv.Storage.Batch.{BatchRequest, BatchResponse}
use valv.Storage.Chunking.{Bytes, Chunk, chunk_ref, chunk_file}
use valv.Storage.Upload.{upload_chunks}
use valv.Engine.ConflictCopy.{Dir, materialize_conflict_copy}
use valv.Engine.OpSubmit.{submit_op, apply_submitted_new_version}

pub record Device : Type 0 where
  pub db : Db
  pub dir : Dir

-- What runs on one of the two.
abbrev pub on_db : {A : Type 0} → Exec Db Error A → Exec Device Error A
on_db m d = let (r, db) = m d.db in (r, record d { db = db })

abbrev pub on_dir : {A : Type 0} → Exec Dir Error A → Exec Device Error A
on_dir m d = let (r, dir) = m d.dir in (r, record d { dir = dir })

-- What is outside the program: the JSON library, the hash functions, FastCDC, two fresh UUIDs, and the
-- replies of the backend and of the object store.
pub record Outside : Type 1 where
  pub json : Json
  pub digest : Bytes → String
  pub digest_text : String → String
  pub cut_points : Bytes → List (ℕ × ℕ)
  pub new_uuid : String
  pub new_node_id : String
  pub submit : SubmitOpRequest → Reply json.Value
  pub send_batch : BatchRequest → Reply BatchResponse
  pub put : (href : String) → List (String × String) → Bytes → Result Error Unit

-- The hashes, one after the other, as the hasher takes them.
unfoldable pub joined_hashes : List ChunkRef → String
joined_hashes [] = ""
joined_hashes (c ∷ cs) = c.chunk_hash <> joined_hashes cs

unfoldable pub total_length : List Chunk → ℕ
total_length [] = 0
total_length (c ∷ cs) = c.length + total_length cs

module _ (O : Outside) where
  unfoldable pub manifest_content_hash : List ChunkRef → String
  unfolding joined_hashes
  manifest_content_hash manifest = O.digest_text (joined_hashes manifest)

  unfoldable pub version_request :
      (node_id : String) (based_on_seq : ℤ) → List Chunk → SubmitOpRequest
  unfolding manifest_content_hash total_length
  version_request node_id based_on_seq chunks =
      let manifest = map chunk_ref chunks in
      new_version node_id based_on_seq (record {
        version_id = O.new_uuid;
        content_hash = manifest_content_hash manifest;
        size_bytes = total_length chunks;
        manifest = manifest;
        force_conflict_copy = false;
      })

  abbrev pub copy_if_conflict :
      (name : Option String) (device_name date : String) → SubmitOpResponse → Exec Device Error Unit
  copy_if_conflict name device_name date (conflict_copy _ _ _) =
      on_dir (materialize_conflict_copy name device_name date) >> pure tt
  copy_if_conflict name device_name date (applied _ _) = pure tt
  copy_if_conflict name device_name date (superseded _) = pure tt
  copy_if_conflict name device_name date (conflict _ _ _ _) = pure tt

  -- `fs::read` of the path.
  abbrev pub read_file : Option String → Dir → Option Bytes
  read_file none dir = none
  read_file (some name) dir = dir name

  -- From `apply_submitted_new_version` on.
  unfoldable pub take_answer :
      (folder_id node_id : String) (name : Option String) (device_name date : String)
      → SubmitOpRequest
      → SubmitOpResponse
      → Exec Device Error SubmitOpResponse
  take_answer folder_id node_id name device_name date req response = do
    on_db (apply_submitted_new_version O.json folder_id node_id req response)
    copy_if_conflict name device_name date response
    pure response

  -- From `upload_chunks` on.
  unfoldable pub push_chunks :
      (folder_id node_id : String) (based_on_seq : ℤ) (name : Option String)
      (device_name date : String)
      → List Chunk
      → Exec Device Error SubmitOpResponse
  unfolding version_request take_answer
  push_chunks folder_id node_id based_on_seq name device_name date chunks = do
    on_db (upload_chunks O.put O.send_batch chunks)
    let req = version_request node_id based_on_seq chunks
    response ← lift (submit_op O.json folder_id (O.submit req))
    take_answer folder_id node_id name device_name date req response

  unfoldable pub upload_then_submit_new_version :
      (folder_id node_id : String) (based_on_seq : ℤ) (name : Option String)
      (device_name date : String)
      → Exec Device Error SubmitOpResponse
  unfolding push_chunks chunk_file
  upload_then_submit_new_version folder_id node_id based_on_seq name device_name date = do
    chunks ← λ d. (chunk_file O.digest O.cut_points (read_file name d.dir), d)
    push_chunks folder_id node_id based_on_seq name device_name date chunks
