-- ===== src/Engine/LocalPush/State.antt =====
-- The state of a push run, and what every step of it does with an error.
use valv.Base.{String, string_eq, ℕ, suc, Bool, true, List, ◌∷◌, Option, none, some, if◌then◌else◌}
use valv.Base.Exec.{Exec, pure, modify}
use valv.Base.Result.{Result, ok, err}
use valv.Errors.{Error, update_required, UpdateRequired, is_update_required, mount_already_halted}
use valv.Http.{Reply}
use valv.Json.{Json}
use valv.Persistence.Db.{Db}
use valv.Protocol.{SubmitOpRequest, SubmitOpResponse}
use valv.Engine.OpSubmit.{is_op_forbidden, submit_op}

abbrev pub LocalPath : Type 0
LocalPath = List String

pub record PushSummary : Type 0 where
  pub creates_submitted : ℕ
  pub versions_submitted : ℕ
  pub deletes_submitted : ℕ
  pub skipped : ℕ
  pub errors : ℕ
  pub forbidden : Bool

-- `update_required_flag` is `none` in a run without one. `submitted` is what `send_op` below sent,
-- the last request first.
pub record Push : Type 0 where
  pub db : Db
  pub summary : PushSummary
  pub update_required_flag : Option Bool
  pub queue : List (LocalPath × String)
  pub deferred_delete_node_ids : List String
  pub submitted : List SubmitOpRequest

unfoldable pub record_push_error : Error → PushSummary → PushSummary
unfolding is_op_forbidden
record_push_error error summary =
    if is_op_forbidden error
    then record summary { errors = suc summary.errors; forbidden = true }
    else record summary { errors = suc summary.errors }

abbrev pub count_error : Error → Exec Push Error Unit
count_error error = modify (λ p. record p { summary = record_push_error error p.summary })

abbrev pub count_skipped : Exec Push Error Unit
count_skipped =
    modify (λ p. record p { summary = record p.summary { skipped = suc p.summary.skipped } })

unfoldable pub ensure_not_update_required : Exec Push Error Unit
unfolding mount_already_halted
ensure_not_update_required p = elim p.update_required_flag [
  | none ↦ (ok tt, p)
  | some flag ↦ if flag then (err (update_required mount_already_halted), p) else (ok tt, p)
]

-- `flag.store(true)`, if there is a flag.
abbrev raise_flag : Option Bool → Option Bool
raise_flag none = none
raise_flag (some flag) = some true

abbrev halt_for : Option UpdateRequired → Exec Push Error Unit
halt_for none = pure tt
halt_for (some u) = λ p.
    (err (update_required u), record p { update_required_flag = raise_flag p.update_required_flag })

unfoldable pub propagate_update_required : Error → Exec Push Error Unit
unfolding is_update_required
propagate_update_required error = halt_for (is_update_required error)

module _ (J : Json) (backend : SubmitOpRequest → Reply J.Value) where
  -- A call of `submit_op`: its result is a value here, since every caller matches on it.
  abbrev pub send_op : String → SubmitOpRequest → Exec Push Error (Result Error SubmitOpResponse)
  send_op folder_id req p =
      (ok (submit_op J folder_id (backend req)), record p { submitted = req ∷ p.submitted })
