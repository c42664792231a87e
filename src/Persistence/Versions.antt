-- ===== src/Persistence/Versions.antt =====
-- crates/valv-sync/src/persistence/versions.rs: the `versions` table.
use mathlib.Core.Option
use valv.Base.{String, ◌==◌, string_eq, Bool, ◌&&◌, Option, none, some, is_some, or}
use valv.Persistence.Db.{LocalVersion, VersionRow, Db}
use valv.Sql.{select_first, update, upsert, row_of}

abbrev pub version_key : VersionRow → String
version_key r = r.version.version_id

-- The upsert leaves `content_materialized_at` as it was, NULL in a new row.
unfoldable pub upsert_version : LocalVersion → Db → Db
upsert_version version db = record db {
  versions =
      upsert (λ r. version_key r == version.version_id) (λ old. record old { version = version })
        (record { version = version; content_materialized_at = none }) db.versions;
}

unfoldable pub get_version : String → Db → Option LocalVersion
get_version version_id db =
    Option.map (λ (r : VersionRow). r.version) (row_of version_key version_id db.versions)

unfoldable pub has_any_version_for_node : String → Db → Bool
has_any_version_for_node node_id db =
    is_some (select_first (λ r. r.version.node_id == node_id) db.versions)

unfoldable pub has_materialized_content_for_node : String → Db → Bool
has_materialized_content_for_node node_id db = is_some (
    select_first (λ r. r.version.node_id == node_id && is_some r.content_materialized_at)
      db.versions)

unfoldable pub has_materialized_content_for_version : String → Db → Bool
has_materialized_content_for_version version_id db = is_some (
    select_first (λ r. version_key r == version_id && is_some r.content_materialized_at)
      db.versions)

-- `now` is SQLite's `strftime(…, 'now')`; COALESCE keeps an earlier time.
unfoldable pub mark_content_materialized : (now : String) → String → Db → Db
mark_content_materialized now version_id db = record db {
  versions =
      update (λ r. version_key r == version_id)
        (λ r. record r { content_materialized_at = or r.content_materialized_at (some now) })
        db.versions;
}
