-- ===== src/Watch/Handle/Sent.antt =====
-- What the watcher sends for the content of a file.
use mathlib.Core.Path.{subst}
use valv.Base.{
  ◌≡◌, ◌⊎◌, ◌∙◌, refl, sym, ◌==◌, string_eq, String, ℕ, ℤ, Bool, true, false, ◌||◌, List, [], ◌∷◌,
  map, All, Option, none, some, ap, arith, inl, inr, Bool-cases,
}
use valv.Base.Members.{All-weaken}
use valv.Base.Result.{Result, ok, Result-cases}
use valv.Errors.{Error}
use valv.Persistence.Chunks.{is_uploaded, mark_uploaded}
use valv.Persistence.Db.{Db}
use valv.Persistence.Nodes.{update_pushed_cache}
use valv.Persistence.Versions.{upsert_version}
use valv.Protocol.{
  SubmitOpRequest, create, rename, move, delete, new_version, SubmitOpResponse, applied,
  conflict_copy, superseded, conflict,
}
use valv.Storage.Chunking.{Chunk, chunk_ref, chunk_file}
use valv.Storage.Marks.{mark-is_uploaded}
use valv.Storage.Upload.{pending_chunks}
use valv.Engine.OpSubmit.{submit_op, apply_submitted_new_version, store_version}
use valv.Engine.VersionPush.{Outside, manifest_content_hash, total_length, version_request}
use valv.Watch.Events.{AbsPath}
use valv.Watch.Handle.{
  Watched, Stat, content_at, is_current, keep_signature, mark_pending, upload_pending_chunks,
  copy_beside, store_answer, submit_version, upload_file_new_version,
}

abbrev has_hash : String → List Chunk → Bool
has_hash k [] = false
has_hash k (c ∷ cs) = c.hash == k || has_hash k cs

mark_pending-is_uploaded :
    (k : String) (cs : List Chunk) (db : Db)
    → is_uploaded k (mark_pending cs db) ≡ (has_hash k cs || is_uploaded k db)
unfolding mark_pending
mark_pending-is_uploaded k [] db = refl
mark_pending-is_uploaded k (c ∷ cs) db = ground (
  arith,
  mark_pending-is_uploaded k cs (mark_uploaded c.hash c.length db),
  mark-is_uploaded c.hash k c.length db,
)

is_uploaded-rows :
    (k : String) (db db' : Db)
    → db'.uploaded_chunks ≡ db.uploaded_chunks
    → is_uploaded k db' ≡ is_uploaded k db
unfolding is_uploaded
is_uploaded-rows k db db' h = rw h refl

abbrev Covered : Db → List Chunk → Chunk → Type 0
Covered db cs c = (has_hash c.hash (pending_chunks cs db) || is_uploaded c.hash db) ≡ true

pending_chunks-Covered : (cs : List Chunk) (db : Db) → All (Covered db cs) cs
unfolding pending_chunks
pending_chunks-Covered [] db = tt
pending_chunks-Covered (c ∷ cs) db = (
  ground arith,
  All-weaken (Covered db cs) (Covered db (c ∷ cs)) cs (λ d h. ground (arith, h))
      (pending_chunks-Covered cs db),
)

mark_pending-covers :
    (cs : List Chunk) (db : Db)
    → All (λ c. is_uploaded c.hash (mark_pending (pending_chunks cs db) db) ≡ true) cs
mark_pending-covers cs db =
    All-weaken (Covered db cs)
      (λ c. is_uploaded c.hash (mark_pending (pending_chunks cs db) db) ≡ true) cs
      (λ c h. mark_pending-is_uploaded c.hash (pending_chunks cs db) db ∙ h)
      (pending_chunks-Covered cs db)

-- The rows of the uploaded chunks stay when an answer is stored.
apply-uploaded_chunks :
    (O : Outside) (folder_id node_id : String) (req : SubmitOpRequest) (response : SubmitOpResponse)
    (db : Db)
    → (apply_submitted_new_version O.json folder_id node_id req response db).1.uploaded_chunks
      ≡ db.uploaded_chunks
unfolding apply_submitted_new_version store_version upsert_version
apply-uploaded_chunks O folder_id node_id (new_version _ _ _) (applied _ _) db = refl
apply-uploaded_chunks O folder_id node_id (new_version _ _ _) (conflict_copy _ _ _) db = refl
apply-uploaded_chunks O folder_id node_id (new_version _ _ _) (superseded _) db = refl
apply-uploaded_chunks O folder_id node_id (new_version _ _ _) (conflict _ _ _ _) db = refl
apply-uploaded_chunks O folder_id node_id (create _) response db = ground arith
apply-uploaded_chunks O folder_id node_id (rename _ _ _) response db = ground arith
apply-uploaded_chunks O folder_id node_id (move _ _ _) response db = ground arith
apply-uploaded_chunks O folder_id node_id (delete _ _) response db = ground arith

keep_signature-uploaded_chunks :
    (node_id : String) (size_bytes : ℕ) (m : Option ℤ) (response : SubmitOpResponse) (db : Db)
    → (keep_signature node_id size_bytes m response db).uploaded_chunks ≡ db.uploaded_chunks
unfolding update_pushed_cache
keep_signature-uploaded_chunks node_id size_bytes none response db = refl
keep_signature-uploaded_chunks node_id size_bytes (some m) (applied _ _) db = refl
keep_signature-uploaded_chunks node_id size_bytes (some m) (conflict_copy _ _ _) db = refl
keep_signature-uploaded_chunks node_id size_bytes (some m) (superseded _) db = refl
keep_signature-uploaded_chunks node_id size_bytes (some m) (conflict _ _ _ _) db = refl

module _ (O : Outside) (S : Stat) (mount_path : AbsPath) (folder_id device_name date : String)
    (node_id : String) (path : AbsPath) where
  copy_beside-frame :
      (response : SubmitOpResponse) (w : Watched)
      → ((copy_beside O S mount_path folder_id device_name date path response w).1.db ≡ w.db)
        × ((copy_beside O S mount_path folder_id device_name date path response w).1.sent ≡ w.sent)
  copy_beside-frame (applied _ _) w = (refl, refl)
  copy_beside-frame (superseded _) w = (refl, refl)
  copy_beside-frame (conflict _ _ _ _) w = (refl, refl)
  copy_beside-frame (conflict_copy _ _ _) w = ground arith

  store_answer-frame :
      (size_bytes : ℕ) (req : SubmitOpRequest) (response : SubmitOpResponse) (w : Watched)
      → ((store_answer O S mount_path folder_id device_name date node_id path size_bytes req
            response w).1.db.uploaded_chunks
          ≡ w.db.uploaded_chunks)
        × ((store_answer O S mount_path folder_id device_name date node_id path size_bytes req
              response w).1.sent
            ≡ w.sent)
  unfolding store_answer
  store_answer-frame size_bytes req response w =
      let stored = apply_submitted_new_version O.json folder_id node_id req response w.db in
      let kept = keep_signature node_id size_bytes (S.mtime path) response stored.1 in
      ground (
        arith,
        Result-cases stored.0,
        apply-uploaded_chunks O folder_id node_id req response w.db,
        keep_signature-uploaded_chunks node_id size_bytes (S.mtime path) response stored.1,
        copy_beside-frame response (record w { db = kept }),
      )

  -- After a submission every chunk of the file is marked, whether or not its answer could be stored.
  abbrev pub Submitted : (based_on_seq : ℤ) → List Chunk → Watched → Watched → Type 0
  Submitted based_on_seq chunks w w' =
      (w'.sent ≡ version_request O node_id based_on_seq chunks ∷ w.sent)
      × All (λ c. is_uploaded c.hash w'.db ≡ true) chunks

  submit_version-rows :
      (based_on_seq : ℤ) (chunks : List Chunk) (w : Watched)
      → (submit_version O S mount_path folder_id device_name date node_id based_on_seq path chunks
          w).0
        ≡ ok tt
      → ((submit_version O S mount_path folder_id device_name date node_id based_on_seq path chunks
            w).1.sent
          ≡ version_request O node_id based_on_seq chunks ∷ w.sent)
        × ((submit_version O S mount_path folder_id device_name date node_id based_on_seq path
              chunks w).1.db.uploaded_chunks
            ≡ (mark_pending (pending_chunks chunks w.db) w.db).uploaded_chunks)
  unfolding submit_version
  submit_version-rows based_on_seq chunks w h =
      let pending = pending_chunks chunks w.db in
      let req = version_request O node_id based_on_seq chunks in
      let w' = record w { db = mark_pending pending w.db; sent = req ∷ w.sent } in
      elim (Result-cases (upload_pending_chunks O pending)) [
        | inl (x, q) ↦ ground (arith, q, h)
        | inr (u, q) ↦ elim (Result-cases (submit_op O.json folder_id (O.submit req))) [
          | inl (x, s) ↦ ground (arith, q, s, h)
          | inr (response, s) ↦
              ground (arith, q, s, store_answer-frame (total_length chunks) req response w')
        ]
      ]

  submit_version-Submitted :
      (based_on_seq : ℤ) (chunks : List Chunk) (w : Watched)
      → (submit_version O S mount_path folder_id device_name date node_id based_on_seq path chunks
          w).0
        ≡ ok tt
      → Submitted based_on_seq chunks w
          (submit_version O S mount_path folder_id device_name date node_id based_on_seq path chunks
            w).1
  submit_version-Submitted based_on_seq chunks w h =
      let db' =
        (submit_version O S mount_path folder_id device_name date node_id based_on_seq path chunks
          w).1.db in
      let rows = submit_version-rows based_on_seq chunks w h in
      let marked = mark_pending (pending_chunks chunks w.db) w.db in
      (
        rows.0,
        All-weaken (λ c. is_uploaded c.hash marked ≡ true) (λ c. is_uploaded c.hash db' ≡ true)
            chunks (λ c m. is_uploaded-rows c.hash marked db' rows.1 ∙ m)
            (mark_pending-covers chunks w.db),
      )

  -- When the content of a file is uploaded and that succeeds, either the mirror's current version of
  -- the node has the same size and hash, and then nothing is sent and nothing changes, or it has not,
  -- and then one new version is sent, and every chunk of the file is marked as uploaded.
  pub upload-OnlyChanged :
      (based_on_seq : ℤ) (chunks : List Chunk) (w : Watched)
      → chunk_file O.digest O.cut_points (content_at path w) ≡ ok chunks
      → (upload_file_new_version O S mount_path folder_id device_name date node_id based_on_seq path
          w).0
        ≡ ok tt
      → ((is_current node_id
              (total_length chunks)
              (manifest_content_hash O (map chunk_ref chunks))
              w.db
            ≡ true)
          × ((upload_file_new_version O S mount_path folder_id device_name date node_id based_on_seq
                path w).1
              ≡ w))
        ⊎ ((is_current node_id
                (total_length chunks)
                (manifest_content_hash O (map chunk_ref chunks))
                w.db
              ≡ false)
            × Submitted based_on_seq chunks w
                (upload_file_new_version O S mount_path folder_id device_name date node_id
                  based_on_seq path w).1)
  unfolding upload_file_new_version
  upload-OnlyChanged based_on_seq chunks w c h =
      let submit =
        submit_version O S mount_path folder_id device_name date node_id based_on_seq path chunks in
      elim (Bool-cases (
        is_current node_id (total_length chunks) (manifest_content_hash O (map chunk_ref chunks))
          w.db)) [
            | inl same ↦ inl (same, ground (arith, c, same))
            | inr differs ↦
                let taken : upload_file_new_version O S mount_path folder_id device_name date
                      node_id based_on_seq path w
                    ≡ submit w =
                  rw (c, differs) refl in
                inr (
                  differs,
                  subst
                      (λ (r : Result Error (Unit {0}) × Watched).
                        Submitted based_on_seq chunks w r.1)
                      (sym taken)
                      (submit_version-Submitted based_on_seq chunks w
                        (sym (ap (λ (r : Result Error (Unit {0}) × Watched). r.0) taken) ∙ h)),
                )
          ]
