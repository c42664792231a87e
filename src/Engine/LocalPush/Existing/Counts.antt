-- ===== src/Engine/LocalPush/Existing/Counts.antt =====
-- Each file is counted once.
use valv.Base.{
  ◌≡◌, ap, ◌∙◌, String, ◌==◌, string_eq, nat_eq, ℕ, ℤ, suc, ◌+◌, ◌&&◌, Option, none, some, arith,
  Bool-cases, Option-cases, inl, inr,
}
use valv.Base.Exec.{Exec}
use valv.Base.Result.{Result, ok, err, Result-cases}
use valv.Errors.{Error, is_update_required}
use valv.Persistence.Db.{LocalNode, LocalVersion}
use valv.Engine.VersionPush.{Outside, upload_then_submit_new_version}
use valv.Engine.LocalPush.State.{
  propagate_update_required, ensure_not_update_required, record_push_error,
}
use valv.Engine.LocalPush.Deletes.Safe.{ensure-same}
use valv.Engine.LocalPush.Existing.{
  size_is, mtime_is, FilePush, on_push, submit_changed, compare_hash, compare_version,
  process_existing_file, check_file, push_version, after_push,
}

-- The files that the summary has an outcome of.
abbrev pub counted : FilePush → ℕ
counted f = f.push.summary.skipped + f.push.summary.versions_submitted + f.push.summary.errors

-- A step that, if it succeeds, counts one file.
abbrev CountsOne : Exec FilePush Error Unit → Type 0
CountsOne m = (f : FilePush) → (m f).0 ≡ ok tt → counted (m f).1 ≡ suc (counted f)

module _ (O : Outside) (folder_id : String) (node : LocalNode) (name device_name date : String)
    (stat : Option (ℕ × ℤ)) where
  after_push-CountsOne :
      (size : ℕ) (mtime : ℤ) (r : Result Error _)
      → CountsOne (on_push (after_push O folder_id node name device_name date stat size mtime r))
  unfolding propagate_update_required record_push_error
  after_push-CountsOne size mtime (ok response) f h = omega arith
  after_push-CountsOne size mtime (err e) f h = elim (Option-cases (is_update_required e)) [
    | inr (u, q) ↦ ground (arith, q)
    | inl q ↦ ground (arith, q)
  ]

  submit_changed-CountsOne :
      (size : ℕ) (mtime : ℤ)
      → CountsOne (submit_changed O folder_id node name device_name date stat size mtime)
  unfolding submit_changed
  submit_changed-CountsOne size mtime f h =
      let m =
        upload_then_submit_new_version O folder_id node.node_id node.server_seq (some name)
          device_name date in
      after_push-CountsOne size mtime _ (push_version m f).1 h

  compare_hash-CountsOne :
      (size : ℕ) (mtime : ℤ) (stored : String) (r : Result Error String)
      → CountsOne (compare_hash O folder_id node name device_name date stat size mtime stored r)
  unfolding compare_hash
  compare_hash-CountsOne size mtime stored (err e) f h = omega arith
  compare_hash-CountsOne size mtime stored (ok hash) f h = elim (Bool-cases (hash == stored)) [
    | inl q ↦ rw q (omega arith)
    | inr q ↦ rw q (submit_changed-CountsOne size mtime f (rw q at h))
  ]

  compare_version-CountsOne :
      (size : ℕ) (mtime : ℤ) (version : Option LocalVersion)
      → CountsOne (compare_version O folder_id node name device_name date stat size mtime version)
  unfolding compare_version
  compare_version-CountsOne size mtime none f h = submit_changed-CountsOne size mtime f h
  compare_version-CountsOne size mtime (some v) f h = elim (Bool-cases (v.size_bytes == size)) [
    | inl q ↦ rw q (compare_hash-CountsOne size mtime v.content_hash _ f (rw q at h))
    | inr q ↦ rw q (submit_changed-CountsOne size mtime f (rw q at h))
  ]

  check_file-CountsOne :
      (found : Option (ℕ × ℤ))
      → CountsOne (check_file O folder_id node name device_name date stat found)
  check_file-CountsOne none f h = omega arith
  check_file-CountsOne (some (size, mtime)) f h =
      elim (Bool-cases
        (size_is node.pushed_size_bytes size && mtime_is node.pushed_mtime_nanos mtime)) [
          | inl q ↦ rw q (omega arith)
          | inr q ↦ rw q (compare_version-CountsOne size mtime _ f (rw q at h))
        ]

  -- A call that succeeds counts its file exactly once, as skipped, as a version or as an error.
  pub existing-CountsOne :
      (f : FilePush)
      → (process_existing_file O folder_id node name device_name date stat f).0 ≡ ok tt
      → counted (process_existing_file O folder_id node name device_name date stat f).1
        ≡ suc (counted f)
  unfolding process_existing_file
  existing-CountsOne f h = elim (Result-cases (ensure_not_update_required f.push).0) [
    | inl (e, q) ↦ ground (arith, q)
    | inr (u, q) ↦
        rw q (check_file-CountsOne stat _ (rw q at h))
        ∙ ap (λ p. suc (counted (record f { push = p }))) (ensure-same f.push)
  ]
