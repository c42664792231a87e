-- ===== src/Engine/OpSubmit/Parse.antt =====
-- Which bodies of a reply to a submission are read, and which ask for an update.
use valv.Base.{◌≡◌, ◌↔◌, string_eq, true, some, arith}
use valv.Base.Result.{ok}
use valv.Json.{Json, ReadsFields}
use valv.Protocol.{SubmitOpResponse, result_str}
use valv.Engine.OpSubmit.{is_known_result, parse_submit_op_response_body}

result_str-known : (r : SubmitOpResponse) → is_known_result (result_str r) ≡ true
unfolding result_str
result_str-known r = ground arith

module _ (J : Json) (reads : ReadsFields J) (v : J.Value) (obj : J.is_object v ≡ true) where
  -- A body that is an object is read as a response exactly if the response type can be read from
  -- it: the test of the tag refuses none of the results that the type knows.
  pub parse-ok_iff :
      (r : SubmitOpResponse)
      → (parse_submit_op_response_body J v ≡ ok r) ↔ (J.from_submit_response v ≡ some r)
  unfolding parse_submit_op_response_body
  parse-ok_iff r =
      (λ h. ground arith, λ h. ground (arith, reads.response_tag v r obj h, result_str-known r))
