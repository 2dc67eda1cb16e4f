-- ===== src/Responders/Package.antt =====
-- httpclient/service_package_responser.cpp: a packet becomes an HTTP request, or a search for groups.
-- Beside its result each function gives the HTTP requests that it made.
use bserver.Base.{
  Bool, true, List, [], ◌∷◌, ◌++◌, Bytes, text, none, some, is_empty, ◌==◌, if◌then◌else◌,
}
use bserver.Message.{failed}
use bserver.Http.{
  HttpRequest, CurlBase, curl_base, init_json_header, add_header, post, get, post_request,
  get_request,
}
use bserver.Proto.{Env, PacketResponse, no_packet, reply, post_topic, public_service, ServicePacket}
use bserver.Responders.Result.{ServiceResponseResult, service_response_result, set_status}
use bserver.Responders.Groups.{parser_group_near_request, parser_group_city_request}

-- The URL of a reply and of a new topic differ in one word.
unfoldable pub topic_url : (domain id word sign v platform device_id : Bytes) → Bytes
topic_url domain id word sign v platform device_id =
    domain
    ++ (text "/"
        ++ (id
            ++ (word
                ++ (text "sign="
                    ++ (sign
                        ++ (text "&v="
                            ++ (v
                                ++ (text "&platform="
                                    ++ (platform ++ (text "&device_id=" ++ device_id))))))))))

-- The headers of a request: those of JSON, and the authorization if there is one.
unfoldable pub request_headers : Bytes → CurlBase
unfolding curl_base init_json_header add_header
request_headers authorization =
    add_header
      (if is_empty authorization then [] else (text "Authorization:" ++ authorization) ∷ [])
      (init_json_header curl_base)

-- The HTTP request of the three `do_…` functions, a GET exactly if there is nothing to send.
unfoldable pub http_request : Bytes → Bytes → Bytes → HttpRequest
unfolding request_headers post_request get_request
http_request url authorization request_data =
    if is_empty request_data
    then get_request url
    else post_request (request_headers authorization) url request_data

-- What the server answers; the code is only logged.
unfoldable pub http_answer : Env → Bytes → Bytes → Bytes → Bytes
unfolding request_headers post get
http_answer env url authorization request_data =
    if is_empty request_data
    then (get env.perform url []).1
    else (post env.perform (request_headers authorization) url request_data []).1

unfoldable pub do_reply_request : Env → ServicePacket → PacketResponse × List HttpRequest
unfolding topic_url http_request http_answer
do_reply_request env packet =
    let rr = packet.reply_request in
    let url =
      topic_url env.domains.reply_domain rr.topic_id (text "/reviews?") rr.sign rr.v rr.platform
        rr.device_id in
    (
      record {
        type = 22;
        body = reply rr.cid rr.type (http_answer env url rr.authorization rr.json);
      },
      http_request url rr.authorization rr.json ∷ [],
    )

unfoldable pub do_post_topic_request : Env → ServicePacket → PacketResponse × List HttpRequest
unfolding topic_url http_request http_answer
do_post_topic_request env packet =
    let ptr = packet.post_topic_request in
    let url =
      topic_url env.domains.post_topic_domain ptr.forum_id (text "/topics?") ptr.sign ptr.v
        ptr.platform ptr.device_id in
    (
      record {
        type = 24;
        body = post_topic ptr.cid ptr.type (http_answer env url ptr.authorization ptr.json);
      },
      http_request url ptr.authorization ptr.json ∷ [],
    )

-- `service_request_json_data::to_service_request`
unfoldable pub to_service_request : Env → (cid service_id service_data : Bytes) → Bytes
to_service_request env cid service_id service_data =
    env.encode_members
      ((text "service_id", service_id) ∷ (text "cid", cid) ∷ (text "data", service_data) ∷ [])

-- `authorization` is empty here: nothing sets it.
unfoldable pub do_public_service_request : Env → ServicePacket → PacketResponse × List HttpRequest
unfolding http_request http_answer to_service_request
do_public_service_request env packet =
    let psr = packet.public_service_request in
    let url = env.domains.robot_domain in
    let request_data = to_service_request env psr.cid psr.service_id psr.json in
    (
      record {
        type = 26;
        body = public_service psr.cid psr.service_id env.now (http_answer env url [] request_data);
      },
      http_request url [] request_data ∷ [],
    )

-- A search, its flag, and no HTTP request.
abbrev searched : PacketResponse × Bool × Bytes → PacketResponse × Bool × List HttpRequest
searched (answer, ok, error) = (answer, ok, [])

abbrev asked : PacketResponse × List HttpRequest → PacketResponse × Bool × List HttpRequest
asked (answer, calls) = (answer, true, calls)

-- The branches of `parser` on the type of the packet.
unfoldable pub handle_packet : Env → ServicePacket → PacketResponse × Bool × List HttpRequest
unfolding do_reply_request do_post_topic_request do_public_service_request parser_group_near_request
    parser_group_city_request
handle_packet env packet =
    if packet.type == 21
    then asked (do_reply_request env packet)
    else if packet.type == 23
    then asked (do_post_topic_request env packet)
    else if packet.type == 25
    then asked (do_public_service_request env packet)
    else if packet.type == 27
    then searched (parser_group_near_request env packet)
    else if packet.type == 29
    then searched (parser_group_city_request env packet)
    else (no_packet, true, [])

-- `service_package_responser::parser`: the result, what it makes of `response`, the HTTP requests.
unfoldable pub package_parser :
    Env → Bytes → Bytes → ServiceResponseResult × Bytes × List HttpRequest
unfolding set_status
package_parser env bytes response = elim (env.parse_packet bytes) [
  | none ↦ (service_response_result, response, [])
  | some packet ↦
      (let (answer, ok, calls) = handle_packet env packet in
        (
          if ok then service_response_result else set_status failed service_response_result,
          env.serialize_packet answer,
          calls,
        ))
]
