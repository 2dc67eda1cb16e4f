-- ===== src/Proto.antt =====
-- The protobuf messages of proto/connect_server.proto and proto/ServicePacket.proto as far as the
-- handlers use them, and what the handlers call outside this program. The generated parsers and
-- serialisers are parameters. A field that was not sent reads as its default, as the accessors do;
-- `int32`, `int64` and `double` fields are bit patterns that are only passed on.
use bserver.Base.{ℕ, List, Bytes, Option}
use bserver.Message.{Head, Status}
use bserver.Http.{Perform}

pub record ServiceRequest : Type 0 where
  pub sessid : Bytes
  pub service_type : ℕ
  pub sn : Bytes
  pub payload : Option Bytes

-- `status` and `payload` as far as they were set.
pub record ServiceResponse : Type 0 where
  pub sessid : Bytes
  pub service_type : ℕ
  pub sn : Bytes
  pub status : Option Status
  pub payload : Bytes

pub record ReplyRequest : Type 0 where
  pub cid : Bytes
  pub type : Bytes
  pub topic_id : Bytes
  pub sign : Bytes
  pub v : Bytes
  pub platform : Bytes
  pub device_id : Bytes
  pub authorization : Bytes
  pub json : Bytes

pub record PostTopicRequest : Type 0 where
  pub cid : Bytes
  pub type : Bytes
  pub forum_id : Bytes
  pub sign : Bytes
  pub v : Bytes
  pub platform : Bytes
  pub device_id : Bytes
  pub authorization : Bytes
  pub json : Bytes

pub record PublicServiceRequest : Type 0 where
  pub cid : Bytes
  pub service_id : Bytes
  pub json : Bytes

pub record GroupLbsNearRequest : Type 0 where
  pub lat : ℕ
  pub long : ℕ
  pub cid : Bytes
  pub start : ℕ
  pub limit : ℕ
  pub max_distance : ℕ

pub record GroupCityRequest : Type 0 where
  pub start : ℕ
  pub limit : ℕ
  pub city : Bytes
  pub cid : Bytes

pub record PythonCoreRequest : Type 0 where
  pub cid : Bytes
  pub json_request : Bytes
  pub module_name : Bytes
  pub function_name : Bytes

-- A packet as it was received.
pub record ServicePacket : Type 0 where
  pub type : ℕ
  pub reply_request : ReplyRequest
  pub post_topic_request : PostTopicRequest
  pub public_service_request : PublicServiceRequest
  pub group_lbs_near_request : GroupLbsNearRequest
  pub group_city_request : GroupCityRequest
  pub python_core_request : PythonCoreRequest

-- The part of an answer that a handler fills in, `empty` where it fills in none.
pub data ResponseBody : Type 0 where
  empty : ResponseBody
  reply : (cid type json : Bytes) → ResponseBody
  post_topic : (cid type json : Bytes) → ResponseBody
  public_service : (cid service_id : Bytes) (time : ℕ) (json : Bytes) → ResponseBody
  group_near : (cid : Bytes) (status : Status) (json : Bytes) → ResponseBody
  group_city : (cid : Bytes) (status : Status) (json : Bytes) → ResponseBody
  python_core : (cid : Bytes) (status : ℕ) (json : Bytes) → ResponseBody

-- An answer; its type is 0 until it is set.
pub record PacketResponse : Type 0 where
  pub type : ℕ
  pub body : ResponseBody

abbrev pub no_packet : PacketResponse
no_packet = record { type = 0; body = empty }

-- What a script gives: its result, or the text of the exception that it threw.
pub data PythonResult : Type 0 where
  returned : Bytes → PythonResult
  threw : Bytes → PythonResult

-- What a search of the database gives: a text, and an error, empty if there is none.
pub record Found : Type 0 where
  pub json : Bytes
  pub error : Bytes

-- `group_mongo_client`, of a library, once it is connected.
pub record MongoClient : Type 0 where
  pub find_near : (collection : Bytes) (q : GroupLbsNearRequest) → Found
  pub find_by_condition : (condition : Bytes) (start limit : ℕ) → Found

-- The settings of configwrap that handlers read.
pub record Domains : Type 0 where
  pub reply_domain : Bytes
  pub post_topic_domain : Bytes
  pub robot_domain : Bytes
  pub python_root : Bytes

-- What a handler finds outside the program during one task: generated code, libcurl, MongoDB, the
-- interpreter, the JSON library, the cache of sessions, UUIDs, the clock, and the words that an
-- uninitialised header holds. `json_string_member` is the member of that name, if the document is an
-- object that has it and it is a string, and `encode_members` the text of an object with these
-- strings. `sessions_of` are the sessions of a client, by id, each with the address of its server, in
-- the cache of a worker that could open it.
pub record Env : Type 0 where
  pub parse_request : Bytes → Option ServiceRequest
  pub parse_packet : Bytes → Option ServicePacket
  pub serialize_response : ServiceResponse → Bytes
  pub serialize_packet : PacketResponse → Bytes
  pub perform : Perform
  pub mongo : Option MongoClient
  pub python : (root module_name function_name json : Bytes) → PythonResult
  pub encode_members : List (Bytes × Bytes) → Bytes
  pub json_string_member : (document key : Bytes) → Option Bytes
  pub sessions_of : (cid : Bytes) → List (Bytes × Bytes)
  pub uuid : Bytes
  pub now : ℕ
  pub domains : Domains
  pub junk : Head
