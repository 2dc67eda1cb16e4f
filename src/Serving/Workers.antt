-- ===== src/Serving/Workers.antt =====
-- What each worker has of its own: `init_cache_map` and `get_session` of src/session_task.cpp and
-- include/session_task.h, and `work` of src/task_base.cpp with both.
use bserver.Base.{
  ℕ, ◌≡◌, refl, ap, ◌∙◌, ◌⊎◌, inl, inr, Bool, true, List, [], ◌∷◌, Bytes, Option, none, some, ◌==◌,
  if◌then◌else◌,
}
use bserver.Message.{done}
use bserver.Config.Action.{Configwrap}
use bserver.Proto.{
  Env, MongoClient, ServiceRequest, ServicePacket, PacketResponse, group_near, group_city,
}
use bserver.Responders.Result.{service_response_result}
use bserver.Responders.Groups.{
  no_connection, find_near, find_by_city, parser_group_near_request, parser_group_city_request,
}
use bserver.Responders.Package.{handle_packet}
use bserver.Responders.Service.{server_service_parser, service_answer, service_type_server}
use bserver.Responders.Answers.{server_service_answers}
use bserver.Serving.{serve_rounds}
use bserver.World.{World}

-- The cache of sessions that ZooKeeper knows, of a library: the sessions of a client.
abbrev pub SessCache : Type 0
SessCache = (cid : Bytes) → List (Bytes × Bytes)

-- Both libraries: `init` of the cache, and `connect` with the password that the code has.
pub record Stores : Type 0 where
  pub opens_sessions : (path bak : Bytes) → Option SessCache
  pub connect : (hosts : List (Bytes × ℕ)) → Option MongoClient

-- The two pointers of a thread.
pub record Caches : Type 0 where
  pub sess_cache : Option SessCache
  pub mongo_client_cache : Option MongoClient

unfoldable pub connect_mongo : Stores → List (Bytes × ℕ) → Option MongoClient
connect_mongo out [] = none
connect_mongo out (h ∷ hosts) = out.connect (h ∷ hosts)

unfoldable pub init_cache_map : Stores → Configwrap → Caches
unfolding connect_mongo
init_cache_map out c = record {
  sess_cache = out.opens_sessions c.session_path c.session_path_bak;
  mongo_client_cache = connect_mongo out c.hosts;
}

-- `none` follows a null pointer.
unfoldable pub get_session : Caches → (cid : Bytes) → Option (List (Bytes × Bytes))
get_session caches cid = elim caches.sess_cache [ none ↦ none | some cache ↦ some (cache cid) ]

-- What the handlers find in this thread.
unfoldable pub worker_env : Env → Caches → Env
worker_env env caches = record env { mongo = caches.mongo_client_cache }

-- `work` as it starts in a thread.
unfoldable pub work : Stores → Configwrap → Env → (limit : ℕ) → Bool → (turns : ℕ) → World → World
unfolding worker_env init_cache_map
work out c env limit process turns w =
    serve_rounds (worker_env env (init_cache_map out c)) limit process turns w

-- The answer to a search, with the text of a missing connection.
unfoldable pub unconnected_answer : ServicePacket → PacketResponse
unconnected_answer packet =
    if packet.type == 27
    then record {
      type = 28;
      body = group_near packet.group_lbs_near_request.cid done no_connection.json;
    }
    else record {
      type = 30;
      body = group_city packet.group_city_request.cid done no_connection.json;
    }

handle_packet-unconnected :
    (env : Env) (packet : ServicePacket)
    → env.mongo ≡ none
    → (packet.type ≡ 27) ⊎ (packet.type ≡ 29)
    → handle_packet env packet ≡ (unconnected_answer packet, true, [])
unfolding handle_packet unconnected_answer parser_group_near_request parser_group_city_request
    find_near find_by_city
handle_packet-unconnected env packet m (inl t) = rw (t, m) refl
handle_packet-unconnected env packet m (inr t) = rw (t, m) refl

connect_mongo-unconnected :
    (out : Stores) (hosts : List (Bytes × ℕ))
    → (hosts ≡ []) ⊎ (out.connect hosts ≡ none)
    → connect_mongo out hosts ≡ none
unfolding connect_mongo
connect_mongo-unconnected out [] h = refl
connect_mongo-unconnected out (x ∷ hosts) (inl e) = absurd (cc)
connect_mongo-unconnected out (x ∷ hosts) (inr e) = e

-- In a worker to which no host of the database is configured, or whose connection failed, every search
-- of a request for a server is answered with status 0, as one that found something: the text of the
-- missing connection stands where the result would.
pub unconnected_search_answered :
    (out : Stores) (c : Configwrap) (base : Env) (bytes response : Bytes) (sr : ServiceRequest)
    (payload : Bytes) (packet : ServicePacket)
    → (c.hosts ≡ []) ⊎ (out.connect c.hosts ≡ none)
    → base.parse_request bytes ≡ some sr
    → sr.service_type ≡ service_type_server
    → sr.payload ≡ some payload
    → base.parse_packet payload ≡ some packet
    → (packet.type ≡ 27) ⊎ (packet.type ≡ 29)
    → server_service_parser (worker_env base (init_cache_map out c)) bytes response ≡ (
      service_response_result,
      base.serialize_response
          (service_answer sr done (base.serialize_packet (unconnected_answer packet))),
      [],
    )
unfolding worker_env init_cache_map
unconnected_search_answered out c base bytes response sr payload packet h r t p q kind =
    let env = worker_env base (init_cache_map out c) in
    let e = handle_packet-unconnected env packet (connect_mongo-unconnected out c.hosts h) kind in
    server_service_answers env bytes response sr payload packet r t p q (ap (λ x. x.1) e)
    ∙ rw e refl
