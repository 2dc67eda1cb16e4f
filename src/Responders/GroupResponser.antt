-- ===== src/Responders/GroupResponser.antt =====
-- src/group_responser.cpp: the handler of searches for groups alone, with its own `parser_group_…`
-- functions, and `response`, which does nothing.
use bserver.Base.{
  Bool, true, false, not, ◌||◌, [], Bytes, none, some, is_empty, ◌==◌, ◌≡◌, refl, if◌then◌else◌,
}
use bserver.Message.{done, failed}
use bserver.Proto.{Env, PacketResponse, no_packet, group_near, group_city, ServicePacket}
use bserver.Responders.Result.{ServiceResponseResult, service_response_result, set_status}
use bserver.Responders.Groups
use bserver.Responders.Groups.{find_near, find_by_city}

-- The answer, the returned flag, and the error text.
unfoldable pub parser_group_near_request : Env → ServicePacket → PacketResponse × Bool × Bytes
unfolding find_near
parser_group_near_request env packet =
    let q = packet.group_lbs_near_request in
    let f = find_near env.mongo q in
    if is_empty f.error
    then (record { type = 28; body = group_near q.cid done f.json }, true, f.error)
    else (record { type = 28; body = group_near q.cid failed f.error }, false, f.error)

unfoldable pub parser_group_city_request : Env → ServicePacket → PacketResponse × Bool × Bytes
unfolding find_by_city
parser_group_city_request env packet =
    let q = packet.group_city_request in
    let f = find_by_city env.mongo q.city q.start q.limit in
    if is_empty f.error
    then (record { type = 30; body = group_city q.cid done f.json }, true, f.error)
    else (record { type = 30; body = group_city q.cid failed f.error }, false, f.error)

-- Both classes search alike.
pub parser_group_near_request_same :
    (env : Env) (packet : ServicePacket)
    → parser_group_near_request env packet ≡ Groups.parser_group_near_request env packet
unfolding parser_group_near_request Groups.parser_group_near_request
parser_group_near_request_same env packet = refl

pub parser_group_city_request_same :
    (env : Env) (packet : ServicePacket)
    → parser_group_city_request env packet ≡ Groups.parser_group_city_request env packet
unfolding parser_group_city_request Groups.parser_group_city_request
parser_group_city_request_same env packet = refl

-- What follows the test of the type in `parser`.
unfoldable pub group_search : Env → ServicePacket → PacketResponse × Bool × Bytes
unfolding parser_group_near_request parser_group_city_request
group_search env packet =
    if packet.type == 27
    then parser_group_near_request env packet
    else if packet.type == 29
    then parser_group_city_request env packet
    else (no_packet, true, [])

-- `group_responser::parser`: the result and what it makes of `response`.
unfoldable pub parse_packet_as_group : Env → ServicePacket → Bytes → ServiceResponseResult × Bytes
unfolding group_search set_status
parse_packet_as_group env packet response =
    if not (packet.type == 27) || not (packet.type == 29)
    then (set_status failed service_response_result, response)
    else (let (answer, ok, error) = group_search env packet in
        (
          if ok then service_response_result else set_status failed service_response_result,
          env.serialize_packet answer,
        ))

unfoldable pub group_parser : Env → Bytes → Bytes → ServiceResponseResult × Bytes
unfolding parse_packet_as_group set_status
group_parser env bytes response = elim (env.parse_packet bytes) [
  | none ↦ (set_status failed service_response_result, response)
  | some packet ↦ parse_packet_as_group env packet response
]
