-- ===== src/Storage/Verified.antt =====
-- What a download returns is made of pieces that have the hashes that were asked for.
use valv.Base.{◌≡◌, String, string_eq, List, [], ◌∷◌, ◌++◌, map, arith, inl, inr}
use valv.Base.Result.{ok, Result-cases, ok-injective}
use valv.Http.{Reply}
use valv.Protocol.{ChunkRef}
use valv.Storage.Batch.{BatchRequest, BatchResponse, BatchResponseObject, download, post_batch}
use valv.Storage.Chunking.{Bytes}
use valv.Storage.Download.{
  object_by_hash, sort_by_offset, request_object, fetch_chunk, fetch_all, download_chunks,
}

-- `out` is `bytes` and then, for each entry in turn, a piece that has the entry's hash.
pub data Verified (digest : Bytes → String) : Bytes → List ChunkRef → Bytes → Type 0 where
  done : (bytes : Bytes) → Verified digest bytes [] bytes
  next :
      (bytes piece : Bytes) (r : ChunkRef) (rs : List ChunkRef) (out : Bytes)
      → digest piece ≡ r.chunk_hash
      → Verified digest (bytes ++ piece) rs out
      → Verified digest bytes (r ∷ rs) out

module _ (digest : Bytes → String) (get : (href : String) → Reply Bytes) where
  fetch_chunk-hash :
      (objects : List BatchResponseObject) (r : ChunkRef) (piece : Bytes)
      → fetch_chunk digest get objects r ≡ ok piece
      → digest piece ≡ r.chunk_hash
  unfolding fetch_chunk object_by_hash
  fetch_chunk-hash objects r piece h = ground (arith)

  fetch_all-Verified :
      (objects : List BatchResponseObject) (bytes : Bytes) (rs : List ChunkRef) (out : Bytes)
      → fetch_all digest get objects bytes rs ≡ ok out
      → Verified digest bytes rs out
  unfolding fetch_all
  fetch_all-Verified objects bytes [] out h = rw (ok-injective bytes out h) (done out)
  fetch_all-Verified objects bytes (r ∷ rs) out h =
      elim (Result-cases (fetch_chunk digest get objects r)) [
        | inl (e, q) ↦ ground (arith, q)
        | inr (piece, q) ↦
            next bytes piece r rs out (fetch_chunk-hash objects r piece q)
              (fetch_all-Verified objects (bytes ++ piece) rs out (rw q at h))
      ]

  -- What a download returns is, in the order of the offsets, one piece for each entry of the
  -- manifest, with the entry's hash.
  pub download-Verified :
      (send : BatchRequest → Reply BatchResponse) (refs : List ChunkRef) (out : Bytes)
      → download_chunks digest get send refs ≡ ok out
      → Verified digest [] (sort_by_offset refs) out
  unfolding download_chunks
  download-Verified send refs out h =
      elim (Result-cases (post_batch send download (map request_object (sort_by_offset refs)))) [
        | inl (e, q) ↦ ground (arith, q)
        | inr (response, q) ↦
            fetch_all-Verified response.objects [] (sort_by_offset refs) out (rw q at h)
      ]
