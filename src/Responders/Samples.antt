-- ===== src/Responders/Samples.antt =====
-- An environment in which a request is the text of its number, for runs of the handlers.
use bserver.Base.{ℕ, [], ◌∷◌, ◌++◌, Bytes, text, Option, none, some}
use bserver.Proto.{Env, ServiceRequest, ServicePacket, MongoClient, returned}

-- The type of the packet is the first byte.
abbrev pub packet_of : ℕ → ServicePacket
packet_of t = record {
  type = t;
  reply_request = record {
    cid = text "c";
    type = text "t";
    topic_id = text "9";
    sign = text "s";
    v = text "1";
    platform = text "p";
    device_id = text "d";
    authorization = text "key";
    json = text "{}";
  };
  post_topic_request = record {
    cid = text "c";
    type = text "t";
    forum_id = text "9";
    sign = text "s";
    v = text "1";
    platform = text "p";
    device_id = text "d";
    authorization = text "key";
    json = text "{}";
  };
  public_service_request = record { cid = text "c"; service_id = text "i"; json = text "{}" };
  group_lbs_near_request = record {
    lat = 1;
    long = 2;
    cid = text "c";
    start = 0;
    limit = 10;
    max_distance = 100;
  };
  group_city_request = record { start = 0; limit = 10; city = text "x"; cid = text "c" };
  python_core_request = record {
    cid = text "c";
    json_request = text "{}";
    module_name = text "m";
    function_name = text "f";
  };
}

abbrev pub parse_packet : Bytes → Option ServicePacket
parse_packet [] = none
parse_packet (t ∷ s) = some (packet_of t)

-- The whole text is the payload.
abbrev pub parse_request : Bytes → Option ServiceRequest
parse_request s =
    some (record { sessid = text "u"; service_type = 600; sn = text "n"; payload = some s })

abbrev failing_search : MongoClient
failing_search = record {
  find_near = λ collection q. record { json = []; error = text "down" };
  find_by_condition = λ condition start limit. record { json = []; error = text "down" };
}

abbrev pub sample : Env
sample = record {
  parse_request = parse_request;
  parse_packet = parse_packet;
  serialize_response = λ r. r.sessid ++ r.payload;
  serialize_packet = λ p. p.type ∷ [];
  perform = λ r. some (0, text "{}");
  mongo = some failing_search;
  python = λ root module_name function_name json. returned json;
  encode_members = λ members. text "{}";
  json_string_member = λ document key. some key;
  sessions_of = λ cid. (text "u", text "a:80") ∷ [];
  uuid = text "n";
  now = 5;
  domains = record {
    reply_domain = text "http://r";
    post_topic_domain = text "http://p";
    robot_domain = text "http://b";
    python_root = text "/py";
  };
  junk = record { magic = 1; len = 2; cmd = 3 };
}
