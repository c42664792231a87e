-- ===== src/Persistence/Chunks.antt =====
-- crates/valv-sync/src/persistence/chunks.rs: the `uploaded_chunks` table.
use valv.Base.{String, ◌==◌, string_eq, ℕ, Bool, is_some}
use valv.Persistence.Db.{Db}
use valv.Sql.{upsert, row_of}

-- INSERT OR IGNORE: an old row stays as it is.
unfoldable pub mark_uploaded : (hash : String) (size_bytes : ℕ) → Db → Db
mark_uploaded hash size_bytes db = record db {
  uploaded_chunks =
      upsert (λ c. c.chunk_hash == hash) (λ old. old)
        (record { chunk_hash = hash; size_bytes = size_bytes }) db.uploaded_chunks;
}

-- `COUNT(*) > 0`.
unfoldable pub is_uploaded : String → Db → Bool
is_uploaded hash db = is_some (row_of (λ c. c.chunk_hash) hash db.uploaded_chunks)
