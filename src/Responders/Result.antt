-- ===== src/Responders/Result.antt =====
-- include/service_response_result.h and src/service_response_result.cpp.
use bserver.Base.{Bool, false, not}
use bserver.Message.{Status, done}

pub record ServiceResponseResult : Type 0 where
  pub status : Status
  pub is_async : Bool

-- The constructor.
abbrev pub service_response_result : ServiceResponseResult
service_response_result = record { status = done; is_async = false }

unfoldable pub set_status : Status → ServiceResponseResult → ServiceResponseResult
set_status s r = record r { status = s }

unfoldable pub set_async : Bool → ServiceResponseResult → ServiceResponseResult
set_async b r = record r { is_async = b }

unfoldable pub set_sync : Bool → ServiceResponseResult → ServiceResponseResult
set_sync b r = record r { is_async = not b }

unfoldable pub is_sync : ServiceResponseResult → Bool
is_sync r = not r.is_async
