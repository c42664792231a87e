-- ===== src/Engine/VersionPush/Keeps.antt =====
-- A push of a version keeps the files of the device.
use valv.Base.{◌≡◌, String, ℤ, List, Option, some, inl, inr}
use valv.Base.Exec.{Exec, lift, ◌>>=◌, ◌>>◌, pure}
use valv.Base.Result.{Result-cases}
use valv.Errors.{Error}
use valv.Protocol.{SubmitOpRequest, SubmitOpResponse, applied, conflict_copy, superseded, conflict}
use valv.Storage.Chunking.{Bytes, Chunk, chunk_file}
use valv.Storage.Upload.{upload_chunks}
use valv.Engine.ConflictCopy.{materialize_conflict_copy}
use valv.Engine.ConflictCopy.Disambiguate.{materialize-keeps}
use valv.Engine.OpSubmit.{submit_op, apply_submitted_new_version}
use valv.Engine.VersionPush.{
  Device, Outside, on_db, on_dir, version_request, read_file, copy_if_conflict,
  upload_then_submit_new_version, take_answer, push_chunks,
}

-- A step after which every file is there, with its content.
abbrev pub KeepsFiles : {A : Type 0} → Exec Device Error A → Type 0
KeepsFiles m =
    (d : Device) (k : String) (bytes : Bytes) → d.dir k ≡ some bytes → (m d).1.dir k ≡ some bytes

pub bind-KeepsFiles :
    {A B : Type 0} (m : Exec Device Error A) (f : A → Exec Device Error B)
    → KeepsFiles m
    → ((a : A) → KeepsFiles (f a))
    → KeepsFiles (m >>= f)
bind-KeepsFiles m f h g d k bytes e = elim (Result-cases (m d).0) [
  | inl (x, q) ↦ rw q (h d k bytes e)
  | inr (a, q) ↦ rw q (g a (m d).1 k bytes (h d k bytes e))
]

copy_if_conflict-KeepsFiles :
    (O : Outside) (name : Option String) (device_name date : String) (response : SubmitOpResponse)
    → KeepsFiles (copy_if_conflict O name device_name date response)
copy_if_conflict-KeepsFiles O name device_name date (applied _ _) = λ d k bytes e. e
copy_if_conflict-KeepsFiles O name device_name date (superseded _) = λ d k bytes e. e
copy_if_conflict-KeepsFiles O name device_name date (conflict _ _ _ _) = λ d k bytes e. e
copy_if_conflict-KeepsFiles O name device_name date (conflict_copy _ _ _) =
    bind-KeepsFiles (on_dir (materialize_conflict_copy name device_name date)) (λ _. pure tt)
      (λ d k bytes e. materialize-keeps name device_name date k d.dir bytes e) (λ a d k bytes e. e)

module _ (O : Outside) (folder_id node_id : String) (based_on_seq : ℤ) (name : Option String)
    (device_name date : String) where
  take_answer-KeepsFiles :
      (req : SubmitOpRequest) (response : SubmitOpResponse)
      → KeepsFiles (take_answer O folder_id node_id name device_name date req response)
  unfolding take_answer
  take_answer-KeepsFiles req response =
      bind-KeepsFiles (on_db (apply_submitted_new_version O.json folder_id node_id req response))
        (λ u. copy_if_conflict O name device_name date response >> pure response) (λ d k bytes e. e)
        (λ u.
          bind-KeepsFiles (copy_if_conflict O name device_name date response) (λ v. pure response)
            (copy_if_conflict-KeepsFiles O name device_name date response) (λ v d k bytes e. e))

  push_chunks-KeepsFiles :
      (chunks : List Chunk)
      → KeepsFiles (push_chunks O folder_id node_id based_on_seq name device_name date chunks)
  unfolding push_chunks
  push_chunks-KeepsFiles chunks =
      let req = version_request O node_id based_on_seq chunks in
      let answer = take_answer O folder_id node_id name device_name date req in
      bind-KeepsFiles (on_db (upload_chunks O.put O.send_batch chunks))
        (λ u. lift (submit_op O.json folder_id (O.submit req)) >>= answer) (λ d k bytes e. e)
        (λ u.
          bind-KeepsFiles (lift (submit_op O.json folder_id (O.submit req))) answer
            (λ d k bytes e. e) (take_answer-KeepsFiles req))

-- Whatever the store and the backend answer, and also when the push fails on the way, every file of
-- the folder is still there with its content.
pub push-KeepsFiles :
    (O : Outside) (folder_id node_id : String) (based_on_seq : ℤ) (name : Option String)
    (device_name date : String)
    → KeepsFiles
        (upload_then_submit_new_version O folder_id node_id based_on_seq name device_name date)
unfolding upload_then_submit_new_version
push-KeepsFiles O folder_id node_id based_on_seq name device_name date =
    bind-KeepsFiles (λ d. (chunk_file O.digest O.cut_points (read_file O name d.dir), d))
      (push_chunks O folder_id node_id based_on_seq name device_name date) (λ d k bytes e. e)
      (push_chunks-KeepsFiles O folder_id node_id based_on_seq name device_name date)
