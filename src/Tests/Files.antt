-- ===== src/Tests/Files.antt =====
-- A store of chunks and a folder of files, small ones.
use valv.Base.{
  ◌≡◌, refl, String, ◌==◌, string_eq, ℕ, pos, false, none, some, List, [], ◌∷◌, map, if◌then◌else◌,
}
use valv.Base.Result.{Result, ok}
use valv.Base.Slices.{take, drop}
use valv.Base.Text.{split_file_name, rsplit_at_dot}
use valv.Errors.{Error}
use valv.Engine.ConflictCopy.{
  Dir, materialize_conflict_copy, disambiguate_conflict_path, conflict_name, first_free,
}
use valv.Engine.ConflictCopy.Disambiguate.{Adds, conflict_copy-Adds}
use valv.Engine.VersionPush.{Outside, Device, upload_then_submit_new_version}
use valv.Engine.VersionPush.Keeps.{push-KeepsFiles}
use valv.Http.{Reply, body}
use valv.Persistence.Chunks.{is_uploaded, mark_uploaded}
use valv.Sql.{select_first, upsert}
use valv.Storage.Batch.{BatchResponse, BatchResponseObject, BatchAction, batch_request, post_batch}
use valv.Storage.Chunking.{Bytes, Chunk, chunk_at, chunk_file, chunk_ref}
use valv.Storage.Download.{
  download_chunks, fetch_chunk, fetch_all, object_by_hash, sort_by_offset, insert_by_offset,
}
use valv.Storage.Marks.{upload-marks}
use valv.Storage.RoundTrip.{download-chunk_file}
use valv.Storage.Upload.{
  upload_chunks, upload_objects, upload_object, put_chunk, chunk_by_hash, pending_chunks,
}
use valv.Storage.Verified.{Verified, download-Verified}
use valv.Tests.Sample.{sample_json, mirror}

program : Unit {0}
unfolding string_eq chunk_file take drop download_chunks fetch_chunk fetch_all object_by_hash
    sort_by_offset insert_by_offset post_batch batch_request upload_chunks upload_objects
    upload_object put_chunk chunk_by_hash pending_chunks is_uploaded mark_uploaded select_first
    upsert
program = tt

-- A hash that tells the two chunks of the sample file apart.
abbrev pub digest : Bytes → String
digest [] = "empty"
digest (b ∷ []) = "one"
digest (b ∷ c ∷ t) = "more"

abbrev cut_points : Bytes → List (ℕ × ℕ)
cut_points source = (0, 2) ∷ (2, 1) ∷ []

abbrev pub source : Bytes
source = 7 ∷ 8 ∷ 9 ∷ []

abbrev pub get : String → Reply Bytes
get href = if href == "/more" then body (7 ∷ 8 ∷ []) else body (9 ∷ [])

abbrev action : String → BatchAction
action href = record { href = href; header = none; expires_in = none }

abbrev downloadable : String → String → BatchResponseObject
downloadable oid href = record {
  oid = oid;
  size = 1;
  actions = some (record { upload = none; download = some (action href) });
  error = none;
}

abbrev pub download_response : BatchResponse
download_response = record {
  transfer = "basic";
  objects = downloadable "one" "/one" ∷ downloadable "more" "/more" ∷ [];
}

abbrev pub chunks : List Chunk
chunks = chunk_at digest source (0, 2) ∷ chunk_at digest source (2, 1) ∷ []

download-chunk_file_example :
    download_chunks digest get (λ _. body download_response) (map chunk_ref chunks) ≡ ok source
unfolding program
download-chunk_file_example =
    download-chunk_file digest get (λ _. body download_response) cut_points source chunks
      download_response (refl, (refl, refl)) refl refl refl ((refl, refl), ((refl, refl), tt))

download-Verified_example : Verified digest [] (sort_by_offset (map chunk_ref chunks)) source
unfolding program
download-Verified_example =
    download-Verified digest get (λ _. body download_response) (map chunk_ref chunks) source refl

-- The store has the first chunk already, and asks for the second only.
abbrev upload_response : BatchResponse
upload_response = record {
  transfer = "basic";
  objects =
      record { oid = "more"; size = 2; actions = none; error = none }
      ∷ record {
        oid = "one";
        size = 1;
        actions = some (record { upload = some (action "/put"); download = none });
        error = none;
      }
      ∷ [];
}

abbrev put : String → List (String × String) → Bytes → Result Error Unit
put href headers bytes = ok tt

upload-marks_example :
    is_uploaded "more" (upload_chunks put (λ _. body upload_response) chunks mirror).1 ≡ false
unfolding program
upload-marks_example =
    upload-marks put (λ _. body upload_response) chunks (chunk_at digest source (0, 2))
      (chunk_at digest source (2, 1) ∷ []) upload_response mirror "more" refl refl refl

files_program : Unit {0}
unfolding string_eq materialize_conflict_copy disambiguate_conflict_path first_free conflict_name
    split_file_name rsplit_at_dot
files_program = tt

abbrev dir : Dir
dir name = if name == "report.md" then some source else none

conflict_copy-Adds_example :
    Adds "report (conflicted copy, mac, 2026-06-27).md"
      (some source)
      dir
      (materialize_conflict_copy (some "report.md") "mac" "2026-06-27" dir).1
unfolding files_program
conflict_copy-Adds_example =
    conflict_copy-Adds "report.md" "mac" "2026-06-27" "report (conflicted copy, mac, 2026-06-27).md"
      dir refl

-- A folder in which every name is taken.
abbrev full : Dir
full name = some []

abbrev pub outside : Outside
outside = record {
  json = sample_json;
  digest = digest;
  digest_text = λ s. s;
  cut_points = cut_points;
  new_uuid = "v2";
  new_node_id = "n2";
  submit = λ r. body (("result", "superseded") ∷ []);
  send_batch = λ r. body upload_response;
  put = put;
}

abbrev device : Device
device = record { db = mirror; dir = dir }

push-KeepsFiles_example :
    (upload_then_submit_new_version outside "folder-1" "n1"
        (pos 5)
        (some "report.md")
        "mac"
        "2026-06-27"
        device).1.dir
      "report.md"
    ≡ some source
unfolding files_program
push-KeepsFiles_example =
    push-KeepsFiles outside "folder-1" "n1" (pos 5) (some "report.md") "mac" "2026-06-27" device
      "report.md" source refl
