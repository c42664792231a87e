-- ===== src/Storage/Batch.antt =====
-- crates/valv-sync/src/protocol/http.rs: the batch messages, and `post_batch` of
-- crates/valv-sync/src/storage/mod.rs.
use valv.Base.{ℕ, String, ◌==◌, string_eq, List, Option, if◌then◌else◌}
use valv.Base.Result.{Result, ok, err, ◌>>=◌}
use valv.Errors.{Error, http_status, transport, decode, unsupported_transfer}
use valv.Http.{Reply, failed, upgrade_required, gone, status, unreadable, body}

pub data BatchOperation : Type 0 where
  upload download : BatchOperation

pub record BatchRequestObject : Type 0 where
  pub oid : String
  pub size : ℕ

pub record BatchRequest : Type 0 where
  pub operation : BatchOperation
  pub transfer : String
  pub objects : List BatchRequestObject

unfoldable pub batch_request : BatchOperation → List BatchRequestObject → BatchRequest
batch_request operation objects = record {
  operation = operation;
  transfer = "basic";
  objects = objects;
}

pub record BatchAction : Type 0 where
  pub href : String
  pub header : Option (List (String × String))
  pub expires_in : Option ℕ

pub record BatchActions : Type 0 where
  pub upload : Option BatchAction
  pub download : Option BatchAction

pub record BatchObjectError : Type 0 where
  pub code : ℕ
  pub message : String

pub record BatchResponseObject : Type 0 where
  pub oid : String
  pub size : ℕ
  pub actions : Option BatchActions
  pub error : Option BatchObjectError

pub record BatchResponse : Type 0 where
  pub transfer : String
  pub objects : List BatchResponseObject

-- `send()?.error_for_status()?` and the reading of the body.
abbrev pub read_reply : {A : Type 0} → Reply A → Result Error A
read_reply failed = err transport
read_reply (upgrade_required b) = err (http_status 426)
read_reply gone = err (http_status 410)
read_reply (status s) = err (http_status s)
read_reply unreadable = err decode
read_reply (body a) = ok a

abbrev pub check_transfer : BatchResponse → Result Error BatchResponse
check_transfer batch =
    if batch.transfer == "basic" then ok batch else err (unsupported_transfer batch.transfer)

-- `send` is the POST to `objects/batch`.
unfoldable pub post_batch :
    (send : BatchRequest → Reply BatchResponse)
    → BatchOperation
    → List BatchRequestObject
    → Result Error BatchResponse
unfolding batch_request
post_batch send operation objects =
    read_reply (send (batch_request operation objects)) >>= check_transfer
