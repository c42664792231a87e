-- ===== src/Tests/Push.antt =====
-- A push run on the sample mirror, where the file of one node is gone.
use valv.Base.{◌≡◌, refl, string_eq, nat_eq, pos, Bool, false, none, some, [], ◌∷◌}
use valv.Engine.LocalPush.State.{LocalPath, Push, ensure_not_update_required}
use valv.Engine.LocalPush.Deletes.{
  mirror_node, live_mirror_nodes, submit_deletes_for_missing, sweep, visit_children, visit_child,
  enter_child, delete_missing, should_delete, has_local_version, all_uploaded, children_of,
}
use valv.Engine.LocalPush.Deletes.Safe.{Sent}
use valv.Engine.LocalPush.Deletes.Sent.{deletes-Sent}
use valv.Engine.LocalPush.Moves.{
  find_missing_move_candidate, is_candidate, local_node_abs_path, walk_up, node_type_str,
}
use valv.Engine.OpSubmit.{submit_op, parse_submit_op_response_body, parse_result}
use valv.Engine.LocalPush.Existing.{
  FilePush, process_existing_file, compare_version, compare_hash, file_content_hash,
}
use valv.Engine.VersionPush.{Outside, manifest_content_hash}
use valv.Storage.Chunking.{chunk_file}
use valv.Base.Result.{ok}
use valv.Http.{Reply, failed, body}
use valv.Json.{Json}
use valv.Persistence.Db.{Db, LocalNode}
use valv.Persistence.Nodes.{get_node, mark_deleted}
use valv.Persistence.Versions.{get_version}
use valv.Protocol.{SubmitOpRequest, delete, applied}
use valv.Sql.{select_first, select_all, update}
use valv.Tests.Sample.{Fields, sample_json, mirror, node}

program : Unit {0}
unfolding string_eq select_first select_all update get_node get_version mark_deleted
    submit_deletes_for_missing sweep visit_children visit_child enter_child delete_missing
    should_delete has_local_version all_uploaded children_of live_mirror_nodes
    ensure_not_update_required submit_op parse_submit_op_response_body parse_result
    find_missing_move_candidate is_candidate local_node_abs_path walk_up node_type_str
program = tt

file_program : Unit {0}
unfolding string_eq nat_eq select_first get_version ensure_not_update_required process_existing_file
    compare_version compare_hash file_content_hash chunk_file manifest_content_hash
file_program = tt

-- Every answer is that the operation was applied as entry 9.
abbrev pub json : Json
json = record sample_json {
  get_str = λ v k. some "applied";
  from_submit_response = λ v. some (applied (pos 9) "n1");
}

abbrev pub backend : SubmitOpRequest → Reply Fields
backend req = body []

abbrev pub n1 : LocalNode
n1 = record (node "n1" "folder-1" (some "root") "a.txt" 5) { current_version_id = some "v1" }

abbrev pub db : Db
db = record mirror {
  nodes = node "root" "folder-1" none "" 0 ∷ n1 ∷ [];
  versions =
      record {
        version = record {
          version_id = "v1";
          node_id = "n1";
          folder_id = "folder-1";
          content_hash = "h";
          size_bytes = 0;
          manifest_json = "[]";
        };
        content_materialized_at = none;
      }
      ∷ [];
}

abbrev pub no_file : LocalPath → Bool
no_file path = false

abbrev pub start : Push
start = record {
  db = db;
  summary = record {
    creates_submitted = 0;
    versions_submitted = 0;
    deletes_submitted = 0;
    skipped = 0;
    errors = 0;
    forbidden = false;
  };
  update_required_flag = none;
  queue = [];
  deferred_delete_node_ids = [];
  submitted = [];
}

deleted :
    (submit_deletes_for_missing 5 json backend "t" no_file "folder-1" none start).1.submitted
    ≡ delete "n1" (pos 5) ∷ []
unfolding program
deleted = refl

deletes-Sent_example :
    Sent 5 json no_file
      (live_mirror_nodes "folder-1" db)
      "root"
      start
      (submit_deletes_for_missing 5 json backend "t" no_file "folder-1" none start).1.submitted
unfolding program
deletes-Sent_example =
    deletes-Sent 5 json backend "t" no_file "folder-1" none start
      (mirror_node (node "root" "folder-1" none "" 0)) refl

-- The sample file with an unchanged content.
abbrev pub outside : Outside
outside = record {
  json = json;
  digest = λ b. "";
  digest_text = λ t. "h";
  cut_points = λ b. [];
  new_uuid = "v2";
  new_node_id = "n2";
  submit = backend;
  send_batch = λ r. failed;
  put = λ href headers b. ok tt;
}

abbrev files : FilePush
files = record { push = start; dir = λ name. some [] }

-- A mirror that has the root only.
abbrev bare : FilePush
bare = record {
  push = record start { db = record mirror { nodes = node "root" "folder-1" none "" 0 ∷ [] } };
  dir = λ name. none;
}
