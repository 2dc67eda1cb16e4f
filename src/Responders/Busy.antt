-- ===== src/Responders/Busy.antt =====
-- httpclient/service_package_busy_responser.cpp: the answer of a server whose queue is too long.
use bserver.Base.{Bytes, text, none, some, ◌==◌, if◌then◌else◌}
use bserver.Proto.{Env, PacketResponse, no_packet, reply, post_topic, ServicePacket}
use bserver.Responders.Result.{ServiceResponseResult, service_response_result}

abbrev pub busy_json : Bytes
busy_json = text "{\"error\":\"system service in busy\", \"code\":1010}"

-- The URL and the data that the function also builds are only logged.
unfoldable pub busy_answer : ServicePacket → PacketResponse
busy_answer packet =
    if packet.type == 21
    then record {
      type = 22;
      body = reply packet.reply_request.cid packet.reply_request.type busy_json;
    }
    else if packet.type == 23
    then record {
      type = 24;
      body = post_topic packet.post_topic_request.cid packet.post_topic_request.type busy_json;
    }
    else no_packet

unfoldable pub busy_parser : Env → Bytes → Bytes → ServiceResponseResult × Bytes
unfolding busy_answer
busy_parser env bytes response = elim (env.parse_packet bytes) [
  | none ↦ (service_response_result, response)
  | some packet ↦ (service_response_result, env.serialize_packet (busy_answer packet))
]
