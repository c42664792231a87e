-- ===== src/Storage/Upload.antt =====
-- `upload_chunks` of crates/valv-sync/src/storage/mod.rs.
use mathlib.Core.Option
use valv.Base.{String, ◌==◌, string_eq, List, [], ◌∷◌, map, Option, none, some, or, if◌then◌else◌}
use valv.Base.Result.{Result}
use valv.Base.Exec.{Exec, pure, raise, lift, modify, ◌>>=◌, ◌>>◌}
use valv.Errors.{Error, batch_object, unknown_oid}
use valv.Http.{Reply}
use valv.Persistence.Chunks.{mark_uploaded, is_uploaded}
use valv.Persistence.Db.{Db}
use valv.Storage.Batch.{
  BatchRequest, BatchRequestObject, BatchResponse, BatchResponseObject, BatchAction, upload,
  post_batch,
}
use valv.Storage.Chunking.{Bytes, Chunk}

-- `chunks_by_hash.get`.
unfoldable pub chunk_by_hash : List Chunk → String → Option Chunk
chunk_by_hash [] oid = none
chunk_by_hash (c ∷ cs) oid = or (chunk_by_hash cs oid) (if c.hash == oid then some c else none)

-- `object.actions.and_then(|actions| actions.upload)`.
abbrev pub upload_action : BatchResponseObject → Option BatchAction
upload_action o = elim o.actions [ none ↦ none | some a ↦ a.upload ]

-- The chunks that are not marked as uploaded.
unfoldable pub pending_chunks : List Chunk → Db → List Chunk
pending_chunks [] db = []
pending_chunks (c ∷ cs) db =
    let rest = pending_chunks cs db in if is_uploaded c.hash db then rest else c ∷ rest

abbrev pub pending_object : Chunk → BatchRequestObject
pending_object chunk = record { oid = chunk.hash; size = chunk.length }

module _ (put : (href : String) → List (String × String) → Bytes → Result Error Unit) where
  -- The body of the loop after `actions.upload`.
  unfoldable pub put_chunk : BatchAction → Option Chunk → String → Exec Db Error Unit
  put_chunk action none oid = raise (unknown_oid oid)
  put_chunk action (some c) oid = do
    lift (put action.href (Option.get_or action.header []) c.content)
    modify (mark_uploaded c.hash c.length)

  abbrev pub upload_by_action :
      List Chunk → BatchResponseObject → Option BatchAction → Exec Db Error Unit
  upload_by_action pending o none = pure tt
  upload_by_action pending o (some action) = put_chunk action (chunk_by_hash pending o.oid) o.oid

  unfoldable pub upload_object : List Chunk → BatchResponseObject → Exec Db Error Unit
  unfolding put_chunk chunk_by_hash
  upload_object pending o = elim o.error [
    | some e ↦ raise (batch_object o.oid e.message)
    | none ↦ upload_by_action pending o (upload_action o)
  ]

  unfoldable pub upload_objects : List Chunk → List BatchResponseObject → Exec Db Error Unit
  unfolding upload_object
  upload_objects pending [] = pure tt
  upload_objects pending (o ∷ os) = upload_object pending o >> upload_objects pending os

  abbrev pub upload_pending :
      (send : BatchRequest → Reply BatchResponse) → List Chunk → Exec Db Error Unit
  upload_pending send [] = pure tt
  upload_pending send (c ∷ cs) = do
    let pending = c ∷ cs
    response ← lift (post_batch send upload (map pending_object pending))
    upload_objects pending response.objects

  unfoldable pub upload_chunks :
      (send : BatchRequest → Reply BatchResponse) → List Chunk → Exec Db Error Unit
  unfolding pending_chunks upload_objects post_batch
  upload_chunks send chunks db = upload_pending send (pending_chunks chunks db) db
