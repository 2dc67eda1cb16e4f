-- ===== src/Responders/Service.antt =====
-- httpclient/server_service_responser.cpp and include/group_service_request_responser.h, whose `parser`
-- is the same but for the handler of the payload.
use bserver.Base.{
  ℕ, Bool, true, false, List, [], ◌&&◌, Bytes, Option, none, some, ◌==◌, if◌then◌else◌,
}
use bserver.Message.{Status, done, failed}
use bserver.Http.{HttpRequest}
use bserver.Proto.{Env, ServiceRequest, ServiceResponse}
use bserver.Responders.Result.{ServiceResponseResult, service_response_result, is_sync}
use bserver.Responders.Package.{package_parser}
use bserver.Responders.GroupResponser.{group_parser}
use bserver.Responders.Python.{python_parser}

-- `parser` of a handler: from the bytes and what `response` holds.
abbrev pub Parser : Type 0
Parser = Bytes → Bytes → ServiceResponseResult × Bytes × List HttpRequest

abbrev pub is_done : Status → Bool
is_done done = true
is_done failed = false

abbrev pub service_type_server : ℕ
service_type_server = 600

-- The answer that wraps the answer of the handler.
unfoldable pub service_answer : ServiceRequest → Status → Bytes → ServiceResponse
service_answer sr status payload = record {
  sessid = sr.sessid;
  service_type = sr.service_type;
  sn = sr.sn;
  status = some status;
  payload = payload;
}

-- What follows the call of the handler.
unfoldable pub wrap :
    Env
    → ServiceRequest
    → Bytes
    → ServiceResponseResult × Bytes × List HttpRequest
    → ServiceResponseResult × Bytes × List HttpRequest
unfolding service_answer is_sync
wrap env sr response (res, package_response, calls) =
    if is_done res.status && is_sync res
    then (res, env.serialize_response (service_answer sr res.status package_response), calls)
    else (res, response, calls)

unfoldable pub handle_payload :
    Env
    → Parser
    → ServiceRequest
    → Bytes
    → Option Bytes
    → ServiceResponseResult × Bytes × List HttpRequest
unfolding wrap
handle_payload env task sr response none = (service_response_result, response, [])
handle_payload env task sr response (some payload) = wrap env sr response (task payload [])

-- `parser`, with the handler of the payload.
unfoldable pub service_parser : Env → Parser → Parser
unfolding handle_payload
service_parser env task bytes response = elim (env.parse_request bytes) [
  | none ↦ (service_response_result, response, [])
  | some sr ↦
      if sr.service_type == service_type_server
      then handle_payload env task sr response sr.payload
      else (service_response_result, response, [])
]

abbrev no_calls : ServiceResponseResult × Bytes → ServiceResponseResult × Bytes × List HttpRequest
no_calls (res, s) = (res, s, [])

unfoldable pub server_service_parser : Env → Parser
server_service_parser env = service_parser env (package_parser env)

unfoldable pub group_service_parser : Env → Parser
group_service_parser env = service_parser env (λ s r. no_calls (group_parser env s r))

unfoldable pub python_service_parser : Env → Parser
python_service_parser env = service_parser env (λ s r. no_calls (python_parser env s r))
