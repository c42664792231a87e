-- ===== src/Persistence/Mounts/Laws.antt =====
-- Cursors, and the constraints of the `mounts` table.
use valv.Base.{◌≡◌, refl, String, ◌==◌, string_eq, Bool, if◌then◌else◌, arith, ℤ, is_some, ◌&&◌}
use valv.Persistence.Db.{LocalMount, Db}
use valv.Persistence.Mounts.{set_cursor, get_cursor}
use valv.Sql.{row_of}
use valv.Sql.Laws.{row_of-update}

abbrev pub is_mounted : String → Db → Bool
is_mounted f db = is_some (row_of (λ (m : LocalMount). m.folder_id) f db.mounts)

pub get_cursor-set_cursor :
    (f g : String) (seq : ℤ) (db : Db)
    → get_cursor g (set_cursor f seq db)
      ≡ (if f == g && is_mounted g db then seq else get_cursor g db)
unfolding get_cursor set_cursor
get_cursor-set_cursor f g seq db = ground (
  arith,
  row_of-update (λ (m : LocalMount). m.folder_id) f g (λ m. record m { cursor = seq }) db.mounts
      (λ r. refl),
)

pub is_mounted-set_cursor :
    (f g : String) (seq : ℤ) (db : Db) → is_mounted g (set_cursor f seq db) ≡ is_mounted g db
unfolding set_cursor
is_mounted-set_cursor f g seq db = ground (
  arith,
  row_of-update (λ (m : LocalMount). m.folder_id) f g (λ m. record m { cursor = seq }) db.mounts
      (λ r. refl),
)

-- Both are read off the table of mounts.
pub get_cursor-mounts :
    (f : String) (a b : Db) → a.mounts ≡ b.mounts → get_cursor f a ≡ get_cursor f b
unfolding get_cursor
get_cursor-mounts f a b h = rw h

pub is_mounted-mounts :
    (f : String) (a b : Db) → a.mounts ≡ b.mounts → is_mounted f a ≡ is_mounted f b
is_mounted-mounts f a b h = rw h
