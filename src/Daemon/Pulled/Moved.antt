-- ===== src/Daemon/Pulled/Moved.antt =====
-- A file that is pulled as renamed or moved.
use valv.Base.{◌≡◌, ap, ◌∙◌, String, true, false, List, ℕ, Option, none, inl, inr}
use valv.Base.Exec.{◌>>◌}
use valv.Base.Result.{Result, ok, err, Result-cases}
use valv.Errors.{Error}
use valv.Storage.Chunking.{Bytes}
use valv.Persistence.Db.{LocalNode}
use valv.Engine.DeltaPull.{PulledNode}
use valv.Engine.LocalPush.State.{LocalPath}
use valv.Daemon.Disk.{Disk, regular, exists, same_path, entry_at, rename, split_path}
use valv.Daemon.Disk.Frame.{Renamed, rename-Renamed}
use valv.Daemon.Versions.{Site, Backend}
use valv.Daemon.Pulled.{create_parent, move_on_disk}
use valv.Daemon.Pulled.Keeps.{HasFile, create_parent-HasFile}

abbrev Place : (old_path new_path : LocalPath) → Bytes → Result Error Unit → Disk → Type 0
Place old_path new_path bytes (ok u) d = HasFile new_path bytes d × (entry_at old_path d ≡ none)
Place old_path new_path bytes (err e) d = HasFile old_path bytes d

-- The file is at the new path and nothing at the old one after a success, it is at the old one after
-- a failure, and every file at
-- another path is there with its content.
abbrev pub Moved :
    (old_path new_path : LocalPath) → Bytes → Disk → Result Error Unit → Disk → Type 0
Moved old_path new_path bytes d r d' =
    Place old_path new_path bytes r d'
    × ((q : LocalPath) (content : Bytes)
        → same_path old_path q ≡ false
        → same_path new_path q ≡ false
        → HasFile q content d
        → HasFile q content d')

Renamed-Moved :
    (old_path new_path : LocalPath) (bytes : Bytes) (d d' : Disk) (r : Result Error Unit × Disk)
    → HasFile old_path bytes d'
    → ((q : LocalPath) (content : Bytes) → HasFile q content d → HasFile q content d')
    → Renamed old_path new_path (regular bytes) d' r
    → Moved old_path new_path bytes d r.0 r.1
Renamed-Moved old_path new_path bytes d d' (ok u, e) at_old kept h =
    ((h.0, h.2), λ q content o n has. h.1 q o n ∙ kept q content has)
Renamed-Moved old_path new_path bytes d d' (err f, e) at_old kept h =
    (ap (entry_at old_path) h ∙ at_old, λ q content o n has. ap (entry_at q) h ∙ kept q content has)

parent_then_rename-Moved :
    (parts : Option (LocalPath × String)) (old_path new_path : LocalPath) (bytes : Bytes) (d : Disk)
    → same_path old_path new_path ≡ false
    → HasFile old_path bytes d
    → Moved old_path new_path bytes d
        ((create_parent parts >> rename old_path new_path) d).0
        ((create_parent parts >> rename old_path new_path) d).1
parent_then_rename-Moved parts old_path new_path bytes d n h =
    let at_old = create_parent-HasFile parts old_path bytes d h in
    elim (Result-cases (create_parent parts d).0) [
      | inl (e, q) ↦ rw q (at_old, λ k c o m has. create_parent-HasFile parts k c d has)
      | inr (u, q) ↦ rw q (
          Renamed-Moved old_path new_path bytes d (create_parent parts d).1 _ at_old
            (λ k c has. create_parent-HasFile parts k c d has)
            (rename-Renamed old_path new_path bytes (create_parent parts d).1 n at_old))
    ]

-- A pulled rename or move of a file that is on disk at its old path puts it with its content at the new
-- path and leaves nothing at the old one, or fails and leaves it there. It takes no other file away but
-- one at the new path.
pub move_on_disk-Moved :
    (fuel : ℕ) (B : Backend) (folder_id : String) (scope_node_id : Option String)
    (device_id : String) (nodes_by_id : List LocalNode) (pulled : PulledNode)
    (old_path new_path : LocalPath) (bytes : Bytes) (s : Site)
    → same_path old_path new_path ≡ false
    → exists old_path s.disk ≡ true
    → HasFile old_path bytes s.disk
    → Moved old_path new_path bytes s.disk
        (move_on_disk fuel B folder_id scope_node_id device_id nodes_by_id pulled old_path new_path
          s).0
        (move_on_disk fuel B folder_id scope_node_id device_id nodes_by_id pulled old_path new_path
          s).1.disk
unfolding move_on_disk
move_on_disk-Moved fuel B folder_id scope_node_id device_id nodes_by_id pulled old_path new_path
      bytes s n present h =
    rw n (
      rw present
        (parent_then_rename-Moved (split_path new_path) old_path new_path bytes s.disk n h))
