-- ===== src/Storage/Chunking.antt =====
-- crates/valv-sync/src/chunking/mod.rs: a file is cut into chunks. FastCDC and SHA-256 are crates,
-- so the cut points of a file and the hash of its bytes are parameters.
use valv.Base.{ℕ, String, List, [], ◌∷◌, map, Option, none, some}
use valv.Base.Slices.{take, drop}
use valv.Base.Result.{Result, ok, err}
use valv.Errors.{Error, io}
use valv.Protocol.{ChunkRef}

abbrev pub Bytes : Type 0
Bytes = List ℕ

-- The field `content` is the source's `data`, a reserved word here.
pub record Chunk : Type 0 where
  pub hash : String
  pub offset : ℕ
  pub length : ℕ
  pub content : Bytes

-- `source.slice(offset..offset + length)`, for a cut point within the source.
abbrev pub chunk_at : (digest : Bytes → String) → Bytes → ℕ × ℕ → Chunk
chunk_at digest source (offset, length) =
    let bytes = take length (drop offset source) in
    record { hash = digest bytes; offset = offset; length = length; content = bytes }

module _ (digest : Bytes → String) (cut_points : Bytes → List (ℕ × ℕ)) where
  -- What `fs::read` gives, `none` for an error.
  unfoldable pub chunk_file : Option Bytes → Result Error (List Chunk)
  chunk_file none = err io
  chunk_file (some []) = ok []
  chunk_file (some (b ∷ source)) = ok (map (chunk_at digest (b ∷ source)) (cut_points (b ∷ source)))

-- The manifest entry of a chunk, in `upload_then_submit_new_version`.
abbrev pub chunk_ref : Chunk → ChunkRef
chunk_ref c = record { chunk_hash = c.hash; offset = c.offset; length = c.length }
