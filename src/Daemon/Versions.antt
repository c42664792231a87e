-- ===== src/Daemon/Versions.antt =====
-- The download of a version to a path of the mount, of crates/valvd/src/tasks.rs.
pub mod Atomic
pub mod Verified
use valv.Base.{
  String, ◌<>◌, ◌==◌, string_eq, nat_eq, ℕ, length, Bool, true, false, List, [], ◌∷◌, ◌++◌, Option,
  none, some, if◌then◌else◌,
}
use valv.Base.Exec.{Exec, pure, raise, lift, modify, ◌>>=◌, ◌>>◌}
use valv.Base.Result.{Result, ok, err, ok_or}
use valv.Errors.{
  Error, no_file_name, no_token, version_not_found, content_hash_mismatch, content_size_mismatch,
}
use valv.Http.{Reply}
use valv.Persistence.Db.{Db}
use valv.Persistence.Versions.{upsert_version, mark_content_materialized}
use valv.Persistence.Chunks.{mark_uploaded}
use valv.Protocol.{ChunkRef}
use valv.Sql.{row_of}
use valv.Storage.Batch.{read_reply}
use valv.Storage.Chunking.{Bytes}
use valv.Storage.Download.{download_chunks}
use valv.Engine.LocalPush.State.{LocalPath}
use valv.Engine.VersionPush.{Outside, manifest_content_hash}
use valv.Daemon.Disk.{Disk, create_dir_all, write_file, rename, remove_file, split_path}

pub record RemoteVersion : Type 0 where
  pub version_id : String
  pub content_hash : String
  pub size_bytes : ℕ
  pub manifest : List ChunkRef

-- The mirror, and the files of the mount.
pub record Site : Type 0 where
  pub db : Db
  pub disk : Disk

abbrev pub on_disk : {A : Type 0} → Exec Disk Error A → Exec Site Error A
on_disk m s = let (r, disk) = m s.disk in (r, record s { disk = disk })

abbrev pub on_db : (Db → Db) → Exec Site Error Unit
on_db f = modify (λ s. record s { db = f s.db })

-- What is outside the daemon: the replies of the backend and of the object store, whether the mount has
-- a token, the name and the time that a download uses, and the writes that fail part of the way.
pub record Backend : Type 1 where
  pub outside : Outside
  pub get : (href : String) → Reply Bytes
  pub versions_of : (node_id : String) → Reply (List RemoteVersion)
  pub has_token : Bool
  pub temp_suffix : String
  pub now : String
  pub write_fault : LocalPath → Option Bytes

-- The rename takes the place of the old file only when the new one is complete. The root of the mount
-- is a folder, over which no file is renamed.
module _ (fault : LocalPath → Option Bytes) (temp_suffix : String) where
  abbrev pub temp_path : LocalPath → String → LocalPath
  temp_path dir name = dir ++ (("." <> (name <> (".valv-tmp-" <> temp_suffix))) ∷ [])

  -- The closure of the function.
  abbrev pub write_and_rename : (temp path : LocalPath) → Bytes → Exec Disk Error Unit
  write_and_rename temp path bytes = write_file (fault temp) temp bytes >> rename temp path

  -- A failure to remove the file is ignored.
  abbrev pub remove_after : (temp : LocalPath) → Result Error Unit → Exec Disk Error Unit
  remove_after temp (ok u) = pure tt
  remove_after temp (err e) = λ d. (err e, (remove_file temp d).1)

  abbrev pub replace_file : Option (LocalPath × String) → LocalPath → Bytes → Exec Disk Error Unit
  replace_file none path bytes = raise no_file_name
  replace_file (some (dir, name)) path bytes = do
    create_dir_all dir
    λ d.
        let (written, d') = write_and_rename (temp_path dir name) path bytes d in
        remove_after (temp_path dir name) written d'

  unfoldable pub write_atomic : LocalPath → Bytes → Exec Disk Error Unit
  unfolding create_dir_all write_file rename remove_file split_path
  write_atomic path bytes = replace_file (split_path path) path bytes

module _ (B : Backend) (folder_id : String) where
  abbrev pub find_version :
      (node_id version_id : String) → Result Error (List RemoteVersion) → Result Error RemoteVersion
  find_version node_id version_id (err e) = err e
  find_version node_id version_id (ok versions) =
      ok_or (row_of (λ v. v.version_id) version_id versions) (version_not_found version_id node_id)

  unfoldable pub fetch_remote_version : (node_id version_id : String) → Result Error RemoteVersion
  fetch_remote_version node_id version_id =
      if B.has_token
      then find_version node_id version_id (read_reply (B.versions_of node_id))
      else err no_token

  -- The two checks at the end of the function.
  abbrev pub check_version : RemoteVersion → Bytes → Result Error (RemoteVersion × Bytes)
  check_version version bytes =
      if manifest_content_hash B.outside version.manifest == version.content_hash
      then if length bytes == version.size_bytes
        then ok (version, bytes)
        else err (content_size_mismatch version.version_id)
      else err (content_hash_mismatch version.version_id)

  abbrev pub check_bytes : RemoteVersion → Result Error Bytes → Result Error (RemoteVersion × Bytes)
  check_bytes version (err e) = err e
  check_bytes version (ok bytes) = check_version version bytes

  abbrev pub download_version : Result Error RemoteVersion → Result Error (RemoteVersion × Bytes)
  download_version (err e) = err e
  download_version (ok version) =
      check_bytes version
        (download_chunks B.outside.digest B.get B.outside.send_batch version.manifest)

  unfoldable pub download_verified_version :
      (node_id version_id : String) → Result Error (RemoteVersion × Bytes)
  unfolding fetch_remote_version download_chunks manifest_content_hash
  download_verified_version node_id version_id =
      download_version (fetch_remote_version node_id version_id)

  abbrev pub mark_all : List ChunkRef → Db → Db
  mark_all [] db = db
  mark_all (c ∷ cs) db = mark_all cs (mark_uploaded c.chunk_hash c.length db)

  unfoldable pub persist_version_metadata : (node_id : String) → RemoteVersion → Db → Db
  unfolding upsert_version mark_uploaded
  persist_version_metadata node_id version db = mark_all version.manifest (
      upsert_version
        (record {
          version_id = version.version_id;
          node_id = node_id;
          folder_id = folder_id;
          content_hash = version.content_hash;
          size_bytes = version.size_bytes;
          manifest_json = B.outside.json.manifest_to_string version.manifest;
        })
        db)

  unfoldable pub persist_materialized_version : (node_id : String) → RemoteVersion → Db → Db
  unfolding persist_version_metadata mark_content_materialized
  persist_materialized_version node_id version db =
      mark_content_materialized B.now version.version_id
        (persist_version_metadata node_id version db)

  unfoldable pub download_and_store_version : (node_id version_id : String) → Exec Site Error Bytes
  unfolding download_verified_version persist_version_metadata
  download_and_store_version node_id version_id = do
    found ← lift (download_verified_version node_id version_id)
    on_db (persist_version_metadata node_id found.0)
    pure found.1

  abbrev pub write_version :
      (node_id : String) → LocalPath → RemoteVersion × Bytes → Exec Site Error Unit
  write_version node_id path (version, bytes) = do
    on_disk (write_atomic B.write_fault B.temp_suffix path bytes)
    on_db (persist_materialized_version node_id version)

  unfoldable pub materialize_version :
      (node_id version_id : String) → LocalPath → Exec Site Error Unit
  unfolding download_verified_version write_atomic persist_materialized_version
  materialize_version node_id version_id path =
      lift (download_verified_version node_id version_id) >>= write_version node_id path
