-- ===== src/Daemon/Versions/Verified.antt =====
-- What a download to the mount leaves.
use valv.Base.{
  ◌≡◌, refl, sym, String, ◌==◌, string_eq, nat_eq, length, true, false, ◌&&◌, List, [], ◌∷◌, Option,
  none, some, is_some, or, arith, inl, inr, Bool-cases, Option-cases,
}
use mathlib.Core.Path.{subst}
use valv.Base.Result.{Result, ok, err, Result-cases, ok-injective}
use valv.Base.Members.{In}
use valv.Errors.{Error}
use valv.Persistence.Db.{Db, VersionRow, LocalVersion}
use valv.Persistence.Versions.{
  version_key, upsert_version, mark_content_materialized, has_materialized_content_for_version,
}
use valv.Persistence.Chunks.{mark_uploaded}
use valv.Protocol.{ChunkRef}
use valv.Sql.{select_first, row_of, update, upsert}
use valv.Sql.Laws.{row_of-key, row_of-In}
use valv.Storage.Batch.{read_reply}
use valv.Storage.Chunking.{Bytes}
use valv.Storage.Download.{download_chunks}
use valv.Engine.LocalPush.State.{LocalPath}
use valv.Engine.VersionPush.{manifest_content_hash}
use valv.Daemon.Disk.{regular, entry_at, split_path, same_path}
use valv.Daemon.Versions.{
  Site, Backend, RemoteVersion, fetch_remote_version, check_version, check_bytes, find_version,
  download_version, download_verified_version, materialize_version, persist_materialized_version,
  persist_version_metadata, mark_all, temp_path, write_atomic,
}
use valv.Daemon.Versions.Atomic.{written-Target, write_atomic-AllOrNothing}

module _ (B : Backend) (folder_id : String) where
  -- What the daemon has checked of the version that the backend lists for the node, and its bytes.
  abbrev pub Verified : (node_id version_id : String) → RemoteVersion × Bytes → Type 0
  Verified node_id version_id (version, bytes) =
      (version.version_id ≡ version_id)
      × ((versions : List RemoteVersion) × (read_reply (B.versions_of node_id) ≡ ok versions)
          × In version versions)
      × (manifest_content_hash B.outside version.manifest ≡ version.content_hash)
      × (length bytes ≡ version.size_bytes)
      × (download_chunks B.outside.digest B.get B.outside.send_batch version.manifest ≡ ok bytes)

  checked :
      (version : RemoteVersion) (bytes : Bytes) (found : RemoteVersion × Bytes)
      → check_version B folder_id version bytes ≡ ok found
      → ((version, bytes) ≡ found)
        × (manifest_content_hash B.outside version.manifest ≡ version.content_hash)
        × (length bytes ≡ version.size_bytes)
  checked version bytes found h =
      let hash_of = manifest_content_hash B.outside version.manifest in
      elim (Bool-cases (hash_of == version.content_hash)) [
        | inr q ↦ ground (arith, rw q at h)
        | inl q ↦
            let h' = rw q at h in
            elim (Bool-cases (length bytes == version.size_bytes)) [
              | inr t ↦ ground (arith, rw t at h')
              | inl t ↦ (
                ok-injective (version, bytes) found (rw t at h'),
                ground (arith, q),
                ground (arith, t),
              )
            ]
      ]

  -- The version has the id, and the backend lists it for the node.
  abbrev IsListed : (node_id version_id : String) → RemoteVersion → Type 0
  IsListed node_id version_id version =
      (version.version_id ≡ version_id)
      × ((versions : List RemoteVersion) × (read_reply (B.versions_of node_id) ≡ ok versions)
          × In version versions)

  bytes-Verified :
      (node_id version_id : String) (version : RemoteVersion) (r : Result Error Bytes)
      (found : RemoteVersion × Bytes)
      → IsListed node_id version_id version
      → download_chunks B.outside.digest B.get B.outside.send_batch version.manifest ≡ r
      → check_bytes B folder_id version r ≡ ok found
      → Verified node_id version_id found
  bytes-Verified node_id version_id version (err e) found listed d h = ground (arith, h)
  bytes-Verified node_id version_id version (ok bytes) found listed d h =
      let facts = checked version bytes found h in
      subst (Verified node_id version_id) facts.0 (listed.0, listed.1, facts.1, facts.2, d)

  version-Verified :
      (node_id version_id : String) (r : Result Error RemoteVersion) (found : RemoteVersion × Bytes)
      → ((version : RemoteVersion) → r ≡ ok version → IsListed node_id version_id version)
      → download_version B folder_id r ≡ ok found
      → Verified node_id version_id found
  version-Verified node_id version_id (err e) found listed h = ground (arith, h)
  version-Verified node_id version_id (ok version) found listed h =
      bytes-Verified node_id version_id version _ found (listed version refl) refl h

  find_version-IsListed :
      (node_id version_id : String) (r : Result Error (List RemoteVersion))
      (version : RemoteVersion)
      → read_reply (B.versions_of node_id) ≡ r
      → find_version B folder_id node_id version_id r ≡ ok version
      → IsListed node_id version_id version
  find_version-IsListed node_id version_id (err e) version l h = ground (arith, h)
  find_version-IsListed node_id version_id (ok versions) version l h =
      elim (Option-cases (row_of (λ v. v.version_id) version_id versions)) [
        | inl q ↦ ground (arith, rw q at h)
        | inr (v, q) ↦ subst (IsListed node_id version_id) (ok-injective v version (rw q at h)) (
          row_of-key (λ x. x.version_id) version_id versions v q,
          (versions, l, row_of-In (λ x. x.version_id) version_id versions v q),
        )
      ]

  fetched-IsListed :
      (node_id version_id : String) (version : RemoteVersion)
      → fetch_remote_version B folder_id node_id version_id ≡ ok version
      → IsListed node_id version_id version
  unfolding fetch_remote_version
  fetched-IsListed node_id version_id version h = elim (Bool-cases B.has_token) [
    | inl q ↦ find_version-IsListed node_id version_id _ version refl (rw q at h)
    | inr q ↦ ground (arith, rw q at h)
  ]

  -- A download that succeeds is of the version that the backend lists under the id, the manifest has
  -- the hash that is listed, and the bytes have the size.
  pub downloaded-Verified :
      (node_id version_id : String) (found : RemoteVersion × Bytes)
      → download_verified_version B folder_id node_id version_id ≡ ok found
      → Verified node_id version_id found
  unfolding download_verified_version
  downloaded-Verified node_id version_id found h =
      version-Verified node_id version_id _ found (fetched-IsListed node_id version_id) h

upserted-present :
    (version : LocalVersion) (rows : List VersionRow)
    → is_some (
        row_of version_key version.version_id (
          upsert
            (λ r. version_key r == version.version_id)
            (λ old. record old { version = version })
            (record { version = version; content_materialized_at = none })
            rows))
      ≡ true
unfolding upsert select_first
upserted-present version [] = ground arith
upserted-present version (r ∷ rows) = ground (arith, upserted-present version rows)

or_some : (t : Option String) (now : String) → is_some (or t (some now)) ≡ true
or_some none now = refl
or_some (some t) now = refl

marked-materialized :
    (now id : String) (rows : List VersionRow)
    → is_some (row_of version_key id rows) ≡ true
    → is_some (
        select_first
          (λ r. version_key r == id && is_some r.content_materialized_at)
          (update
            (λ r. version_key r == id)
            (λ r. record r { content_materialized_at = or r.content_materialized_at (some now) })
            rows))
      ≡ true
unfolding update select_first
marked-materialized now id [] h = ground (arith, h)
marked-materialized now id (r ∷ rows) h =
    ground (arith, h, marked-materialized now id rows, or_some r.content_materialized_at now)

module _ (B : Backend) (folder_id : String) where
  mark_all-versions :
      (cs : List ChunkRef) (db : Db) → (mark_all B folder_id cs db).versions ≡ db.versions
  unfolding mark_uploaded
  mark_all-versions [] db = refl
  mark_all-versions (c ∷ cs) db = mark_all-versions cs (mark_uploaded c.chunk_hash c.length db)

  abbrev stored : (node_id : String) → RemoteVersion → LocalVersion
  stored node_id version = record {
    version_id = version.version_id;
    node_id = node_id;
    folder_id = folder_id;
    content_hash = version.content_hash;
    size_bytes = version.size_bytes;
    manifest_json = B.outside.json.manifest_to_string version.manifest;
  }

  persisted-materialized :
      (node_id : String) (version : RemoteVersion) (db : Db)
      → has_materialized_content_for_version version.version_id
          (persist_materialized_version B folder_id node_id version db)
        ≡ true
  unfolding persist_materialized_version persist_version_metadata mark_content_materialized
      has_materialized_content_for_version upsert_version
  persisted-materialized node_id version db = marked-materialized B.now version.version_id _ (
      subst (λ rows. is_some (row_of version_key version.version_id rows) ≡ true)
        (sym (mark_all-versions version.manifest (upsert_version (stored node_id version) db)))
        (upserted-present (stored node_id version) db.versions))

  -- When a version is materialized at a path with a name, where the temporary file has another one, the
  -- backend lists a version with its id for the node, the hash of that version's manifest and the size
  -- of the downloaded content are the ones that are listed, the file at the path has this content, and
  -- the mirror has the version marked as materialized.
  pub materialize-Stored :
      (node_id version_id : String) (path dir : LocalPath) (name : String) (s : Site)
      → split_path path ≡ some (dir, name)
      → same_path (temp_path B.write_fault B.temp_suffix dir name) path ≡ false
      → (materialize_version B folder_id node_id version_id path s).0 ≡ ok tt
      → (found : RemoteVersion × Bytes) × Verified B folder_id node_id version_id found
        × (entry_at path (materialize_version B folder_id node_id version_id path s).1.disk
            ≡ some (regular found.1))
        × (has_materialized_content_for_version version_id
              (materialize_version B folder_id node_id version_id path s).1.db
            ≡ true)
  unfolding materialize_version
  materialize-Stored node_id version_id path dir name s split n h =
      elim (Result-cases (download_verified_version B folder_id node_id version_id)) [
        | inl (e, q) ↦ ground (arith, rw q at h)
        | inr (found, q) ↦
            let h' = rw q at h in
            elim (Result-cases (write_atomic B.write_fault B.temp_suffix path found.1 s.disk).0) [
              | inl (e, t) ↦ ground (arith, rw t at h')
              | inr (u, t) ↦
                  let known = downloaded-Verified B folder_id node_id version_id found q in
                  let atomic =
                    write_atomic-AllOrNothing B.write_fault B.temp_suffix path dir name found.1
                      s.disk split n in
                  (
                    found,
                    known,
                    rw q (rw t (written-Target path found.1 s.disk _ t atomic.0)),
                    rw q (
                        rw t (
                          subst
                            (λ i.
                              has_materialized_content_for_version i
                                (persist_materialized_version B folder_id node_id found.0 s.db)
                              ≡ true)
                            known.0 (persisted-materialized node_id found.0 s.db))),
                  )
            ]
      ]
