-- ===== src/Storage/Download.antt =====
-- `download_chunks` of crates/valv-sync/src/storage/mod.rs.
use valv.Base.{
  String, ◌==◌, string_eq, leb, List, [], ◌∷◌, ◌++◌, map, Option, none, some, or, if◌then◌else◌,
}
use valv.Base.Result.{Result, ok, err, ok_or, ◌>>=◌}
use valv.Errors.{Error, batch_object, missing_oid, missing_action, hash_mismatch}
use valv.Http.{Reply}
use valv.Protocol.{ChunkRef}
use valv.Storage.Batch.{
  BatchRequest, BatchRequestObject, BatchResponse, BatchResponseObject, BatchAction, download,
  read_reply, post_batch,
}
use valv.Storage.Chunking.{Bytes}

-- `objects_by_hash.get`: of two objects with one oid the HashMap keeps the later.
unfoldable pub object_by_hash : List BatchResponseObject → String → Option BatchResponseObject
object_by_hash [] oid = none
object_by_hash (o ∷ os) oid = or (object_by_hash os oid) (if o.oid == oid then some o else none)

-- `sort_by_key(|chunk| chunk.offset)`, which is stable.
unfoldable pub insert_by_offset : ChunkRef → List ChunkRef → List ChunkRef
insert_by_offset r [] = r ∷ []
insert_by_offset r (s ∷ t) =
    let rest = insert_by_offset r t in if leb r.offset s.offset then r ∷ s ∷ t else s ∷ rest

unfoldable pub sort_by_offset : List ChunkRef → List ChunkRef
unfolding insert_by_offset
sort_by_offset [] = []
sort_by_offset (r ∷ t) = insert_by_offset r (sort_by_offset t)

abbrev pub request_object : ChunkRef → BatchRequestObject
request_object r = record { oid = r.chunk_hash; size = r.length }

-- `object.actions.as_ref().and_then(|actions| actions.download.as_ref())`.
abbrev pub download_action : BatchResponseObject → Option BatchAction
download_action o = elim o.actions [ none ↦ none | some a ↦ a.download ]

module _ (digest : Bytes → String) (get : (href : String) → Reply Bytes) where
  abbrev pub check_hash : (oid expected : String) → Bytes → Result Error Bytes
  check_hash oid expected bytes =
      if digest bytes == expected then ok bytes else err (hash_mismatch oid expected (digest bytes))

  abbrev pub get_object : ChunkRef → BatchResponseObject → Result Error Bytes
  get_object r o = elim o.error [
    | some e ↦ err (batch_object o.oid e.message)
    | none ↦ ok_or (download_action o) (missing_action o.oid) >>= λ a.
        read_reply (get a.href) >>= check_hash o.oid r.chunk_hash
  ]

  -- The bytes of one chunk.
  unfoldable pub fetch_chunk : List BatchResponseObject → ChunkRef → Result Error Bytes
  unfolding object_by_hash
  fetch_chunk objects r =
      ok_or (object_by_hash objects r.chunk_hash) (missing_oid r.chunk_hash) >>= get_object r

  unfoldable pub fetch_all : List BatchResponseObject → Bytes → List ChunkRef → Result Error Bytes
  unfolding fetch_chunk
  fetch_all objects bytes [] = ok bytes
  fetch_all objects bytes (r ∷ rs) =
      fetch_chunk objects r >>= λ piece. fetch_all objects (bytes ++ piece) rs

  unfoldable pub download_chunks :
      (send : BatchRequest → Reply BatchResponse) → List ChunkRef → Result Error Bytes
  unfolding sort_by_offset fetch_all post_batch
  download_chunks send chunk_refs =
      let refs = sort_by_offset chunk_refs in
      post_batch send download (map request_object refs) >>= λ response.
      fetch_all response.objects [] refs
