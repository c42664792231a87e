-- ===== src/Storage/Marks.antt =====
-- Which chunks an upload marks.
use mathlib.Core.Option
use valv.Base.{
  ◌≡◌, refl, ℕ, String, ◌==◌, string_eq, Bool, false, ◌||◌, ◌&&◌, List, [], ◌∷◌, map, Option, none,
  some, is_some, arith, inl, inr, Option-cases,
}
use valv.Base.Result.{Result, ok, Result-cases}
use valv.Http.{Reply, body}
use valv.Persistence.Db.{Db, ChunkRow}
use valv.Persistence.Chunks.{is_uploaded, mark_uploaded}
use valv.Sql.{row_of, upsert, select_first}
use valv.Errors.{Error}
use valv.Storage.Batch.{
  BatchRequest, BatchResponse, BatchResponseObject, BatchAction, upload, post_batch, batch_request,
}
use valv.Storage.Chunking.{Bytes, Chunk}
use valv.Storage.Upload.{
  chunk_by_hash, upload_action, pending_chunks, put_chunk, upload_by_action, upload_object,
  upload_objects, upload_chunks, pending_object,
}

-- The batch response has an upload action for the chunk.
abbrev pub offered : String → List BatchResponseObject → Bool
offered hash [] = false
offered hash (o ∷ os) = (o.oid == hash && is_some (upload_action o)) || offered hash os

upsert-uploaded :
    (hash k : String) (n : ℕ) (t : List ChunkRow)
    → is_some (
        row_of
          (λ c. c.chunk_hash)
          k
          (upsert
            (λ c. c.chunk_hash == hash)
            (λ old. old)
            (record { chunk_hash = hash; size_bytes = n })
            t))
      ≡ (hash == k || is_some (row_of (λ c. c.chunk_hash) k t))
unfolding select_first upsert
upsert-uploaded hash k n [] = ground arith
upsert-uploaded hash k n (r ∷ t) = ground (arith, upsert-uploaded hash k n t)

pub mark-is_uploaded :
    (hash k : String) (n : ℕ) (db : Db)
    → is_uploaded k (mark_uploaded hash n db) ≡ (hash == k || is_uploaded k db)
unfolding is_uploaded mark_uploaded
mark-is_uploaded hash k n db = upsert-uploaded hash k n db.uploaded_chunks

chunk_by_hash-hash :
    (cs : List Chunk) (oid : String) (c : Chunk) → chunk_by_hash cs oid ≡ some c → c.hash ≡ oid
unfolding chunk_by_hash
chunk_by_hash-hash [] oid c h = ground arith
chunk_by_hash-hash (d ∷ cs) oid c h = ground (arith, chunk_by_hash-hash cs oid c)

module _ (put : (href : String) → List (String × String) → Bytes → Result Error Unit)
    (pending : List Chunk) where
  put_chunk-marks :
      (a : BatchAction) (oid : String) (db : Db) (k : String)
      → (put_chunk put a (chunk_by_hash pending oid) oid db).0 ≡ ok tt
      → is_uploaded k (put_chunk put a (chunk_by_hash pending oid) oid db).1
        ≡ (oid == k || is_uploaded k db)
  unfolding put_chunk
  put_chunk-marks a oid db k h = elim (Option-cases (chunk_by_hash pending oid)) [
    | inl e ↦ ground (arith, e)
    | inr (c, e) ↦ ground (
      arith,
      e,
      chunk_by_hash-hash pending oid c e,
      mark-is_uploaded c.hash k c.length db,
      Result-cases (put a.href (Option.get_or a.header []) c.content),
    )
  ]

  upload_by_action-marks :
      (o : BatchResponseObject) (action : Option BatchAction) (db : Db) (k : String)
      → (upload_by_action put pending o action db).0 ≡ ok tt
      → is_uploaded k (upload_by_action put pending o action db).1
        ≡ ((o.oid == k && is_some action) || is_uploaded k db)
  upload_by_action-marks o none db k h = ground arith
  upload_by_action-marks o (some a) db k h = ground (arith, put_chunk-marks a o.oid db k h)

  upload_object-marks :
      (o : BatchResponseObject) (db : Db) (k : String)
      → (upload_object put pending o db).0 ≡ ok tt
      → is_uploaded k (upload_object put pending o db).1
        ≡ ((o.oid == k && is_some (upload_action o)) || is_uploaded k db)
  unfolding upload_object
  upload_object-marks o db k h = elim (Option-cases o.error) [
    | inr (x, e) ↦ ground (arith, e)
    | inl e ↦ ground (arith, e, upload_by_action-marks o (upload_action o) db k)
  ]

  upload_objects-marks :
      (os : List BatchResponseObject) (db : Db) (k : String)
      → (upload_objects put pending os db).0 ≡ ok tt
      → is_uploaded k (upload_objects put pending os db).1 ≡ (offered k os || is_uploaded k db)
  unfolding upload_objects
  upload_objects-marks [] db k h = refl
  upload_objects-marks (o ∷ os) db k h = elim (Result-cases (upload_object put pending o db).0) [
    | inl (x, e) ↦ ground (arith, e)
    | inr (u, e) ↦ ground (
      arith,
      e,
      upload_object-marks o db k e,
      upload_objects-marks os (upload_object put pending o db).1 k,
    )
  ]

-- When an upload that had chunks to send succeeds, the chunks that are marked after it are those
-- that were marked before and those for which the store's answer had an upload action.
pub upload-marks :
    (put : (href : String) → List (String × String) → Bytes → Result Error Unit)
    (send : BatchRequest → Reply BatchResponse) (chunks : List Chunk) (c : Chunk) (cs : List Chunk)
    (response : BatchResponse) (db : Db) (k : String)
    → pending_chunks chunks db ≡ c ∷ cs
    → send (batch_request upload (map pending_object (c ∷ cs))) ≡ body response
    → (upload_chunks put send chunks db).0 ≡ ok tt
    → is_uploaded k (upload_chunks put send chunks db).1
      ≡ (offered k response.objects || is_uploaded k db)
unfolding upload_chunks post_batch
upload-marks put send chunks c cs response db k p r h =
    ground (arith, p, r, upload_objects-marks put (c ∷ cs) response.objects db k)
