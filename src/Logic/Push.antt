-- ===== src/Logic/Push.antt =====
-- src/service_request_json_data.cpp and httpclient/server_service_response_responser.cpp: the answer of a
-- public service is sent to every session of its client, through the servers that hold them.
use bserver.Base.{
  ◌+◌, ◌%◌, ◌^◌, true, ◌||◌, List, [], ◌∷◌, ◌++◌, Bytes, text, none, some, is_empty, length,
  if◌then◌else◌,
}
use bserver.Message.{MessageFormat, message_format, packed}
use bserver.Proto.{Env, public_service, ServiceResponse}
use bserver.Responders.Result.{ServiceResponseResult, service_response_result, set_async}
use bserver.World.{World}
use bserver.Logic.Dispatch.{dispatch_to_server}

-- A member that is missing, or is no string, reads as the empty text.
unfoldable pub text_member : Env → Bytes → Bytes → Bytes
text_member env document key = elim (env.json_string_member document key) [ none ↦ [] | some s ↦ s ]

unfoldable pub cid : Env → Bytes → Bytes
unfolding text_member
cid env document = text_member env document (text "cid")

unfoldable pub service_id : Env → Bytes → Bytes
unfolding text_member
service_id env document = text_member env document (text "service_id")

unfoldable pub service_data : Env → Bytes → Bytes
unfolding text_member
service_data env document = text_member env document (text "data")

unfoldable pub push_response : Env → Bytes → Bytes → ServiceResponse
unfolding cid service_id service_data
push_response env document sessid = record {
  sessid = sessid;
  service_type = 600;
  sn = env.uuid;
  status = none;
  payload = env.serialize_packet (record {
    type = 26;
    body =
        public_service (cid env document) (service_id env document) 0 (service_data env document);
  });
}

unfoldable pub push_message : Env → Bytes → Bytes → MessageFormat
unfolding push_response packed message_format
push_message env document sessid =
    let out = env.serialize_response (push_response env document sessid) in
    packed (record { magic = 0; len = (12 + length out) % 2 ^ 32; cmd = 6667 }) out
      (message_format env.junk)

-- The loop over the sessions of the client.
unfoldable pub push_all : Env → Bytes → List (Bytes × Bytes) → World → World
unfolding push_message
push_all env document [] w = w
push_all env document ((sessid, server_addr) ∷ rest) w =
    push_all env document rest
      (dispatch_to_server (text "server:" ++ server_addr) (push_message env document sessid) w)

-- `parser` of server_service_response_responser, in a worker whose cache of sessions opened:
-- `get_session` of include/session_task.h uses the pointer to the cache without a test, and what a
-- worker without one does is undefined.
unfoldable pub push_parser : Env → Bytes → World → ServiceResponseResult × World
unfolding push_all set_async cid service_id service_data
push_parser env document w =
    let res = set_async true service_response_result in
    if is_empty (cid env document)
      || is_empty (service_id env document)
      || is_empty (service_data env document)
    then (res, w)
    else (res, push_all env document (env.sessions_of (cid env document)) w)
