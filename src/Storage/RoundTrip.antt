-- ===== src/Storage/RoundTrip.antt =====
-- A file that is cut into chunks comes back from a store that serves them.
use mathlib.Core.List.{append_assoc, append-nil}
use valv.Base.{
  ◌≡◌, refl, sym, ap, ◌∙◌, ℕ, ◌+◌, String, string_eq, List, [], ◌∷◌, ◌++◌, map, length, All, Option,
  none, some, arith,
}
use valv.Base.Slices.{take, drop, take-drop, drop-drop, drop-length}
use valv.Base.Result.{ok, ok-injective}
use valv.Http.{Reply, body}
use valv.Protocol.{ChunkRef}
use valv.Storage.Batch.{
  BatchRequest, BatchResponse, BatchResponseObject, BatchAction, download, post_batch,
  batch_request,
}
use valv.Storage.Chunking.{Bytes, Chunk, chunk_at, chunk_file, chunk_ref}
use valv.Storage.Download.{
  object_by_hash, sort_by_offset, request_object, download_action, fetch_chunk, fetch_all,
  download_chunks,
}

-- Cut points from `offset` on that cover a source of `size` bytes without gap or overlap.
abbrev pub Tiles : (offset : ℕ) → List (ℕ × ℕ) → (size : ℕ) → Type 0
Tiles offset [] size = offset ≡ size
Tiles offset (c ∷ cs) size = (c.0 ≡ offset) × Tiles (offset + c.1) cs size

abbrev contents : List Chunk → Bytes
contents [] = []
contents (c ∷ cs) = c.content ++ contents cs

module _ (digest : Bytes → String) (get : (href : String) → Reply Bytes) where
  -- The store has an object with a download action, and gives these bytes at its address.
  abbrev ServesAction : Option BatchAction → Bytes → Type 0
  ServesAction none bytes = ⊥
  ServesAction (some a) bytes = get a.href ≡ body bytes

  abbrev ServesObject : Option BatchResponseObject → Bytes → Type 0
  ServesObject none bytes = ⊥
  ServesObject (some o) bytes = (o.error ≡ none) × ServesAction (download_action o) bytes

  abbrev pub Serves : List BatchResponseObject → Chunk → Type 0
  Serves objects c = ServesObject (object_by_hash objects c.hash) c.content

  fetch_chunk-Serves :
      (objects : List BatchResponseObject) (c : Chunk)
      → Serves objects c
      → digest c.content ≡ c.hash
      → fetch_chunk digest get objects (chunk_ref c) ≡ ok c.content
  unfolding fetch_chunk object_by_hash
  fetch_chunk-Serves objects c s h = ground (arith)

  fetch_all-Serves :
      (objects : List BatchResponseObject) (bytes : Bytes) (cs : List Chunk)
      → All (λ c. Serves objects c × (digest c.content ≡ c.hash)) cs
      → fetch_all digest get objects bytes (map chunk_ref cs) ≡ ok (bytes ++ contents cs)
  unfolding fetch_all
  fetch_all-Serves objects bytes [] s = ap ok (sym (append-nil bytes))
  fetch_all-Serves objects bytes (c ∷ cs) (s, rest) = rw (fetch_chunk-Serves objects c s.0 s.1) (
      fetch_all-Serves objects (bytes ++ c.content) cs rest
      ∙ ap ok (append_assoc bytes c.content (contents cs)))

module _ (digest : Bytes → String) (source : Bytes) where
  contents-Tiles :
      (offset : ℕ) (cuts : List (ℕ × ℕ))
      → Tiles offset cuts (length source)
      → contents (map (chunk_at digest source) cuts) ≡ drop offset source
  contents-Tiles offset [] t = sym (drop-length source) ∙ ap (λ k. drop k source) (sym t)
  contents-Tiles offset (c ∷ cuts) t = rw t.0 (
      ap (λ k. take c.1 (drop offset source) ++ k)
        (contents-Tiles (offset + c.1) cuts t.1 ∙ sym (drop-drop offset c.1 source))
      ∙ take-drop c.1 (drop offset source))

  sort-Tiles :
      (offset : ℕ) (cuts : List (ℕ × ℕ)) (size : ℕ)
      → Tiles offset cuts size
      → sort_by_offset (map chunk_ref (map (chunk_at digest source) cuts))
        ≡ map chunk_ref (map (chunk_at digest source) cuts)
  unfolding sort_by_offset
  sort-Tiles offset [] size t = refl
  sort-Tiles offset (c ∷ []) size t = refl
  sort-Tiles offset (c ∷ d ∷ cuts) size t =
      rw (sort-Tiles (offset + c.1) (d ∷ cuts) size t.1) (ground arith)

  hash-Tiles :
      (objects : List BatchResponseObject) (get : (href : String) → Reply Bytes)
      (cuts : List (ℕ × ℕ))
      → All (Serves digest get objects) (map (chunk_at digest source) cuts)
      → All
          (λ c. Serves digest get objects c × (digest c.content ≡ c.hash))
          (map (chunk_at digest source) cuts)
  hash-Tiles objects get [] s = tt
  hash-Tiles objects get (c ∷ cuts) (s, rest) = ((s, refl), hash-Tiles objects get cuts rest)

module _ (digest : Bytes → String) (get : (href : String) → Reply Bytes)
    (send : BatchRequest → Reply BatchResponse) (cut_points : Bytes → List (ℕ × ℕ)) where
  download-sorted :
      (refs : List ChunkRef) (response : BatchResponse)
      → sort_by_offset refs ≡ refs
      → send (batch_request download (map request_object refs)) ≡ body response
      → response.transfer ≡ "basic"
      → download_chunks digest get send refs ≡ fetch_all digest get response.objects [] refs
  unfolding download_chunks post_batch
  download-sorted refs response o r b = ground arith

  download-Tiles :
      (source : Bytes) (cuts : List (ℕ × ℕ)) (chunks : List Chunk) (response : BatchResponse)
      → map (chunk_at digest source) cuts ≡ chunks
      → Tiles 0 cuts (length source)
      → send (batch_request download (map request_object (map chunk_ref chunks))) ≡ body response
      → response.transfer ≡ "basic"
      → All (Serves digest get response.objects) chunks
      → download_chunks digest get send (map chunk_ref chunks) ≡ ok source
  unfolding drop
  download-Tiles source cuts chunks response e t r b s =
      download-sorted _ response (rw (← e) (sort-Tiles digest source 0 cuts (length source) t)) r b
      ∙ fetch_all-Serves digest get response.objects [] chunks
          (rw (← e) (hash-Tiles digest source response.objects get cuts (rw e s)))
      ∙ ap ok (rw (← e) (contents-Tiles digest source 0 cuts t))

  -- A file whose cut points cover it without gap or overlap, whose chunks are asked of a store that
  -- has each of them, comes back byte for byte.
  pub download-chunk_file :
      (source : Bytes) (chunks : List Chunk) (response : BatchResponse)
      → Tiles 0 (cut_points source) (length source)
      → chunk_file digest cut_points (some source) ≡ ok chunks
      → send (batch_request download (map request_object (map chunk_ref chunks))) ≡ body response
      → response.transfer ≡ "basic"
      → All (Serves digest get response.objects) chunks
      → download_chunks digest get send (map chunk_ref chunks) ≡ ok source
  unfolding chunk_file
  download-chunk_file [] chunks response t h r b s =
      download-Tiles [] [] chunks response (ok-injective [] chunks h) refl r b s
  download-chunk_file (x ∷ source) chunks response t h r b s =
      let cuts = cut_points (x ∷ source) in
      let cut = map (chunk_at digest (x ∷ source)) cuts in
      download-Tiles (x ∷ source) cuts chunks response (ok-injective cut chunks h) t r b s
