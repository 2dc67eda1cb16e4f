-- ===== src/Responders/Answers.antt =====
-- What comes back for a request, over httpclient/, embeded_python/ and the group handlers.
use bserver.Base.{
  ℕ, ◌+◌, ◌≡◌, ◌≢◌, ◌⊎◌, inl, inr, refl, true, false, [], ◌∷◌, ◌||◌, Bytes, none, some, is_empty,
  length, ◌==◌, if◌then◌else◌, arith,
}
use bserver.Message.{done, failed}
use bserver.Proto.{Env, ServicePacket, ServiceRequest}
use bserver.Responders.Result.{service_response_result}
use bserver.Responders.Package.{handle_packet, package_parser}
use bserver.Responders.Groups.{find_near, find_by_city}
use bserver.Responders.GroupResponser.{group_parser}
use bserver.Responders.Service.{
  service_answer, service_parser, server_service_parser, service_type_server,
}

-- The type of the answer to a packet, 0 if the packet asks for nothing that is offered.
abbrev pub answer_type : ℕ → ℕ
answer_type t = if t == 21 || t == 23 || t == 25 || t == 27 || t == 29 then t + 1 else 0

-- A packet that asks for a page makes one HTTP request, any other none.
abbrev pub http_calls : ℕ → ℕ
http_calls t = if t == 21 || t == 23 || t == 25 then 1 else 0

-- The type of an answer is that of its packet and one, or 0 if the type is not known; only replies, new
-- topics and public services make an HTTP request, and they make one.
pub handle_packet-type :
    (env : Env) (packet : ServicePacket)
    → ((handle_packet env packet).0.type ≡ answer_type packet.type)
      × (length (handle_packet env packet).2 ≡ http_calls packet.type)
unfolding handle_packet
handle_packet-type env packet = (ground arith, ground arith)

-- `group_responser` refuses whatever it is given, since no type is both 27 and 29.
pub group_parser_refuses :
    (env : Env) (bytes response : Bytes)
    → ((group_parser env bytes response).0.status ≡ failed)
      × ((group_parser env bytes response).1 ≡ response)
unfolding group_parser
group_parser_refuses env bytes response = ground arith

abbrev pub FailedSearch : Env → ServicePacket → Type 0
FailedSearch env packet =
    ((packet.type ≡ 27) × ((find_near env.mongo packet.group_lbs_near_request).error ≢ []))
    ⊎ ((packet.type ≡ 29)
        × ((find_by_city env.mongo packet.group_city_request.city packet.group_city_request.start
              packet.group_city_request.limit).error
            ≢ []))

is_empty-false : (s : Bytes) → s ≢ [] → is_empty s ≡ false
is_empty-false [] h = absurd (h refl)
is_empty-false (c ∷ s) h = refl

failed_search :
    (env : Env) (packet : ServicePacket)
    → FailedSearch env packet
    → (handle_packet env packet).1 ≡ false
unfolding handle_packet find_near find_by_city
failed_search env packet (inl (t, e)) = ground (arith, is_empty-false _ e)
failed_search env packet (inr (t, e)) = ground (arith, is_empty-false _ e)

failed_package :
    (env : Env) (s response : Bytes) (packet : ServicePacket)
    → env.parse_packet s ≡ some packet
    → (handle_packet env packet).1 ≡ false
    → (package_parser env s response).0.status ≡ failed
unfolding package_parser
failed_package env s response packet e f = ground arith

-- A search that fails makes an answer that says so, and yet the handler gives none: what `response` held
-- is left, whatever the error was. The result says -1.
pub FailedSearch-unanswered :
    (env : Env) (bytes response : Bytes) (sr : ServiceRequest) (payload : Bytes)
    (packet : ServicePacket)
    → env.parse_request bytes ≡ some sr
    → sr.service_type ≡ service_type_server
    → sr.payload ≡ some payload
    → env.parse_packet payload ≡ some packet
    → FailedSearch env packet
    → ((server_service_parser env bytes response).0.status ≡ failed)
      × ((server_service_parser env bytes response).1 ≡ response)
unfolding server_service_parser service_parser
FailedSearch-unanswered env bytes response sr payload packet a b c d e =
    ground (arith, failed_package env payload [] packet d (failed_search env packet e))

-- A request for a server whose payload is a packet, and whose search, if it is one, does not fail, is
-- answered: session, number and type of the request, status 0, and the answer to the packet.
pub server_service_answers :
    (env : Env) (bytes response : Bytes) (sr : ServiceRequest) (payload : Bytes)
    (packet : ServicePacket)
    → env.parse_request bytes ≡ some sr
    → sr.service_type ≡ service_type_server
    → sr.payload ≡ some payload
    → env.parse_packet payload ≡ some packet
    → (handle_packet env packet).1 ≡ true
    → server_service_parser env bytes response ≡ (
      service_response_result,
      env.serialize_response
          (service_answer sr done (env.serialize_packet (handle_packet env packet).0)),
      (handle_packet env packet).2,
    )
unfolding server_service_parser service_parser package_parser
server_service_answers env bytes response sr payload packet a b c d e = ground arith

-- A payload that is no packet is answered too, with status 0 and an empty payload.
pub unreadable_packet_answered :
    (env : Env) (bytes response : Bytes) (sr : ServiceRequest) (payload : Bytes)
    → env.parse_request bytes ≡ some sr
    → sr.service_type ≡ service_type_server
    → sr.payload ≡ some payload
    → env.parse_packet payload ≡ none
    → server_service_parser env bytes response
      ≡ (service_response_result, env.serialize_response (service_answer sr done []), [])
unfolding server_service_parser service_parser package_parser
unreadable_packet_answered env bytes response sr payload a b c d = ground arith
