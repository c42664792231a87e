-- ===== src/Http.antt =====
-- A reply to a request, as far as the program looks at it. The HTTP client is outside the repository.
use valv.Base.{ℕ, Option}
use valv.Errors.{ProtocolTooOldBody}

-- What a request comes back with: no response, a status that the program looks at, another status
-- that is an error, a body that is not the JSON it should be, or the JSON.
pub data Reply (A : Type 0) : Type 0 where
  failed : Reply A
  upgrade_required : Option ProtocolTooOldBody → Reply A
  gone : Reply A
  status : ℕ → Reply A
  unreadable : Reply A
  body : A → Reply A
