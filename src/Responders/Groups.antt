-- ===== src/Responders/Groups.antt =====
-- The searches for groups: `find_near` and `find_by_city` of include/session_task.h and the two
-- `parser_group_…` functions of httpclient/service_package_responser.cpp.
use bserver.Base.{
  ℕ, Bool, true, false, [], ◌++◌, Bytes, text, Option, none, some, is_empty, if◌then◌else◌,
}
use bserver.Message.{done, failed}
use bserver.Proto.{
  Env, Found, MongoClient, PacketResponse, group_near, group_city, ServicePacket,
  GroupLbsNearRequest,
}

-- With no connection to the database the text says so and the error stays empty.
abbrev pub no_connection : Found
no_connection = record { json = text "{\"error\":\"connetion error\"}"; error = [] }

unfoldable pub find_near : Option MongoClient → GroupLbsNearRequest → Found
find_near none q = no_connection
find_near (some c) q = c.find_near (text "group_talk") q

unfoldable pub find_by_city : Option MongoClient → Bytes → ℕ → ℕ → Found
find_by_city none match start limit = no_connection
find_by_city (some c) match start limit =
    c.find_by_condition (text "{\"city\":\"" ++ (match ++ text "\"}")) start limit

-- The answer, the returned flag, and the error text.
unfoldable pub parser_group_near_request : Env → ServicePacket → PacketResponse × Bool × Bytes
unfolding find_near
parser_group_near_request env packet =
    let q = packet.group_lbs_near_request in
    let f = find_near env.mongo q in
    if is_empty f.error
    then (record { type = 28; body = group_near q.cid done f.json }, true, f.error)
    else (record { type = 28; body = group_near q.cid failed f.error }, false, f.error)

unfoldable pub parser_group_city_request : Env → ServicePacket → PacketResponse × Bool × Bytes
unfolding find_by_city
parser_group_city_request env packet =
    let q = packet.group_city_request in
    let f = find_by_city env.mongo q.city q.start q.limit in
    if is_empty f.error
    then (record { type = 30; body = group_city q.cid done f.json }, true, f.error)
    else (record { type = 30; body = group_city q.cid failed f.error }, false, f.error)
