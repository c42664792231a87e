-- ===== src/Engine/LocalPush/Existing.antt =====
-- `process_existing_file` of crates/valv-sync/src/sync_engine/local_push.rs: a file that the mirror
-- knows is submitted as a new version if it changed.
pub mod Counts
use mathlib.Core.Option
use valv.Base.{
  String, ◌==◌, string_eq, nat_eq, ℕ, suc, ℤ, leb_ℤ, Bool, true, false, ◌&&◌, Option, none, some,
  List, map, if◌then◌else◌,
}
use valv.Base.Exec.{Exec, pure, modify, ◌>>=◌, ◌>>◌}
use valv.Base.Result.{Result, ok, err}
use valv.Errors.{Error}
use valv.Persistence.Db.{LocalNode, LocalVersion}
use valv.Persistence.Nodes.{update_pushed_cache}
use valv.Persistence.Versions.{get_version}
use valv.Protocol.{SubmitOpResponse}
use valv.Storage.Chunking.{Bytes, Chunk, chunk_ref, chunk_file}
use valv.Engine.ConflictCopy.{Dir}
use valv.Engine.VersionPush.{Device, Outside, manifest_content_hash, upload_then_submit_new_version}
use valv.Engine.LocalPush.State.{
  Push, PushSummary, count_error, count_skipped, propagate_update_required,
  ensure_not_update_required,
}

-- The run, and the folder that has the file.
pub record FilePush : Type 0 where
  pub push : Push
  pub dir : Dir

abbrev pub on_push : {A : Type 0} → Exec Push Error A → Exec FilePush Error A
on_push m f = let (r, push) = m f.push in (r, record f { push = push })

-- The match on a result of `upload_then_submit_new_version`, whatever it is.
abbrev pub push_version :
    Exec Device Error SubmitOpResponse → Exec FilePush Error (Result Error SubmitOpResponse)
push_version m f =
    let (r, d) = m (record { db = f.push.db; dir = f.dir }) in
    (ok r, record { push = record f.push { db = d.db }; dir = d.dir })

abbrev pub count_failure : Exec Push Error Unit
count_failure =
    modify (λ p. record p { summary = record p.summary { errors = suc p.summary.errors } })

abbrev pub count_version : Exec Push Error Unit
count_version = modify (λ p. record p {
  summary = record p.summary { versions_submitted = suc p.summary.versions_submitted };
})

-- `warm_push_cache`, which ignores a failure.
abbrev pub warm_push_cache : String → ℕ → ℤ → Exec Push Error Unit
warm_push_cache node_id size_bytes mtime_nanos =
    modify (λ p. record p { db = update_pushed_cache node_id size_bytes mtime_nanos p.db })

abbrev pub size_is : Option ℕ → ℕ → Bool
size_is none size = false
size_is (some n) size = n == size

abbrev pub mtime_is : Option ℤ → ℤ → Bool
mtime_is none mtime = false
mtime_is (some n) mtime = leb_ℤ n mtime && leb_ℤ mtime n

-- `stat` is what `stat_push_signature` gives, `none` for an error.
module _ (O : Outside) (folder_id : String) (node : LocalNode) (name device_name date : String)
    (stat : Option (ℕ × ℤ)) where
  abbrev hash_of_chunks : Result Error (List Chunk) → Result Error String
  hash_of_chunks (err e) = err e
  hash_of_chunks (ok chunks) = ok (manifest_content_hash O (map chunk_ref chunks))

  unfoldable pub file_content_hash : Option Bytes → Result Error String
  unfolding chunk_file manifest_content_hash
  file_content_hash content = hash_of_chunks (chunk_file O.digest O.cut_points content)

  abbrev pub after_push : ℕ → ℤ → Result Error SubmitOpResponse → Exec Push Error Unit
  after_push size mtime (ok response) = count_version >> warm_push_cache node.node_id size mtime
  after_push size mtime (err error) = propagate_update_required error >> count_error error

  unfoldable pub submit_changed : ℕ → ℤ → Exec FilePush Error Unit
  unfolding upload_then_submit_new_version propagate_update_required
  submit_changed size mtime = do
    result ← push_version (
        upload_then_submit_new_version O folder_id node.node_id node.server_seq (some name)
          device_name date)
    on_push (after_push size mtime result)

  -- The match on `file_content_hash`.
  unfoldable pub compare_hash :
      ℕ → ℤ → (stored : String) → Result Error String → Exec FilePush Error Unit
  unfolding submit_changed
  compare_hash size mtime stored (err error) = on_push count_failure
  compare_hash size mtime stored (ok content_hash) =
      if content_hash == stored
      then on_push (count_skipped >> warm_push_cache node.node_id size mtime)
      else submit_changed size mtime

  unfoldable pub compare_version : ℕ → ℤ → Option LocalVersion → Exec FilePush Error Unit
  unfolding compare_hash file_content_hash
  compare_version size mtime none = λ f. submit_changed size mtime f
  compare_version size mtime (some version) = λ f.
      if version.size_bytes == size
      then compare_hash size mtime version.content_hash (file_content_hash (f.dir name)) f
      else submit_changed size mtime f

  abbrev pub check_file : Option (ℕ × ℤ) → Exec FilePush Error Unit
  check_file none = on_push count_failure
  check_file (some (size, mtime)) =
      if size_is node.pushed_size_bytes size && mtime_is node.pushed_mtime_nanos mtime
      then on_push count_skipped
      else λ f.
          compare_version size mtime
            (get_version (Option.get_or node.current_version_id "") f.push.db) f

  unfoldable pub process_existing_file : Exec FilePush Error Unit
  unfolding ensure_not_update_required compare_version
  process_existing_file = on_push ensure_not_update_required >> check_file stat
