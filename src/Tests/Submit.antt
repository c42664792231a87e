-- ===== src/Tests/Submit.antt =====
-- Answers to submitted operations, on the sample mirror.
use mathlib.Core.Option
use text.Mathlib.TextEquality.{eq_iff}
use valv.Base.{◌≡◌, refl, ◌≢◌, ◌↔◌, String, string_eq, pos, false, none, some, [], ◌∷◌, arith}
use valv.Base.Result.{ok}
use valv.Engine.OpSubmit.{parse_submit_op_response_body, apply_submitted_new_version, store_version}
use valv.Engine.OpSubmit.Parse.{parse-ok_iff}
use valv.Engine.OpSubmit.Echo.{echo_ignored, conflict_copy-hides, answered}
use valv.Persistence.Db.{LocalNode, Db}
use valv.Persistence.Nodes.{get_node}
use valv.Persistence.OpLog.{apply_op_log_entry, Entry}
use valv.Persistence.Versions.{upsert_version}
use valv.Protocol.{NewVersionPayload, superseded, applied, conflict_copy}
use valv.Sql.{select_first, update, upsert}
use valv.Tests.Sample.{Fields, sample_json, sample_json-ReadsFields, mirror, node, op}

program : Unit {0}
unfolding string_eq get_node apply_op_log_entry select_first update upsert upsert_version
    apply_submitted_new_version store_version
program = tt

abbrev answer_body : Fields
answer_body = ("result", "superseded") ∷ []

parse-ok_iff_example :
    (parse_submit_op_response_body sample_json answer_body ≡ ok (superseded (pos 9)))
    ↔ (sample_json.from_submit_response answer_body ≡ some (superseded (pos 9)))
parse-ok_iff_example =
    parse-ok_iff sample_json sample_json-ReadsFields answer_body refl (superseded (pos 9))

abbrev version : NewVersionPayload
version = record {
  version_id = "v2";
  content_hash = "h2";
  size_bytes = 4;
  manifest = [];
  force_conflict_copy = false;
}

-- The mirror once the version was applied as entry 9, or kept as a conflict copy.
abbrev after_applied : Db
after_applied = answered sample_json "folder-1" "n1" (pos 5) version (applied (pos 9) "n1") mirror

abbrev after_conflict : Db
after_conflict =
    answered sample_json "folder-1" "n1" (pos 5) version (conflict_copy (pos 9) "n1" "v3") mirror

-- The entry of another device's version, which came first.
abbrev winner : Entry sample_json
winner = op "new_version" "n1" 8 (("version_id", "w") ∷ ("content_hash", "hw") ∷ [])

not_create : ◌≢◌ {A = String} "new_version" "create"
not_create = ground (arith, eq_iff "new_version" "create")

echo_ignored_example :
    apply_op_log_entry sample_json "t" winner after_applied
    ≡ (ok (get_node "n1" after_applied), after_applied)
unfolding program
echo_ignored_example =
    echo_ignored sample_json "folder-1" "n1" (pos 5) version (applied (pos 9) "n1") mirror
      (node "n1" "folder-1" (some "root") "a.txt" 5) (pos 9) winner "t" refl refl (omega arith) refl
      not_create

conflict_copy-hides_example :
    Option.map
      (λ (r : LocalNode). r.current_version_id)
      (get_node "n1" (apply_op_log_entry sample_json "t" winner after_conflict).1)
    ≡ some none
unfolding program
conflict_copy-hides_example =
    conflict_copy-hides sample_json "folder-1" "n1" (pos 5) version "n1" "v3" "t" (pos 9) mirror
      (node "n1" "folder-1" (some "root") "a.txt" 5) winner refl (omega arith) refl not_create
