-- ===== src/Logic/Standard.antt =====
-- src/task_responser.cpp: what every handler has before it overrides it, which no command reaches, and the
-- two Base64 functions, which nothing calls. The iterators of boost are parameters.
use bserver.Base.{
  ℕ, ◌-◌, ◌%◌, ◌≡◌, suc, ap, ◌∙◌, ◌⊎◌, Bool, false, not, [], ◌∷◌, ◌++◌, Bytes, Option, none, some,
  is_empty, length, replicate, if◌then◌else◌, arith,
}
use bserver.Message.{Head}
use bserver.Proto.{Env, ServiceRequest, ServiceResponse}
use bserver.Responders.Result.{ServiceResponseResult, service_response_result}
use bserver.Peers
use bserver.Session.{write}
use bserver.World.{World, update}
use bserver.Logic.Dispatch.{answer_message, client_response}

-- The payload that an accessor gives.
abbrev payload_of : Option Bytes → Bytes
payload_of none = []
payload_of (some payload) = payload

-- The answer of `task_responser::parser`: the request, with no status.
unfoldable pub standard_answer : ServiceRequest → ServiceResponse
standard_answer sr = record {
  sessid = sr.sessid;
  service_type = sr.service_type;
  sn = sr.sn;
  status = none;
  payload = payload_of sr.payload;
}

-- What `ParseFromString` returns is not looked at; `left` is what a parse that fails leaves in the request.
unfoldable pub standard_parser :
    Env → (left : Bytes → ServiceRequest) → Bytes → ServiceResponseResult × Bytes
unfolding standard_answer
standard_parser env left bytes = elim (env.parse_request bytes) [
  | none ↦ (service_response_result, env.serialize_response (standard_answer (left bytes)))
  | some sr ↦ (service_response_result, env.serialize_response (standard_answer sr))
]

-- The iterators: six bits of the text for each byte, and back, which may throw.
pub record Base64 : Type 0 where
  pub encode6 : Bytes → Bytes
  pub decode8 : Bytes → Option Bytes

-- `Base64Encode` and `Base64Decode`: `output` after the call, and what is returned.
unfoldable pub base64_encode : Base64 → (input output : Bytes) → Bytes × Bool
base64_encode b input output =
    let result = b.encode6 input ++ replicate ((3 - length input % 3) % 3) b'=' in
    (result, not (is_empty result))

unfoldable pub base64_decode : Base64 → (input output : Bytes) → Bytes × Bool
base64_decode b input output = elim (b.decode8 input) [
  | none ↦ (output, false)
  | some result ↦ (result, not (is_empty result))
]

client_response_found :
    (env : Env) (c : ℕ) (id : Bytes) (h : Head) (body : Bytes) (w : World) (k : ℕ)
    → Peers.get (c ∷ id) w.peers ≡ some k
    → client_response env (c ∷ id) h body w ≡ record w {
      sessions = update w.sessions k (write (answer_message env h body) (w.sessions k));
      send_count = suc w.send_count;
    }
unfolding client_response
client_response_found env c id h body w k e = ground arith

standard_parser_answers :
    (env : Env) (left : Bytes → ServiceRequest) (bytes : Bytes) (sr : ServiceRequest)
    → env.parse_request bytes ≡ some sr
    → (standard_parser env left bytes).1 ≡ env.serialize_response (standard_answer sr)
unfolding standard_parser
standard_parser_answers env left bytes sr e = ground arith

-- A handler that overrides neither member sends a request back as an answer without a status, to the
-- connection of a client that is registered under the name with which it came in.
pub standard_parser-client_response :
    (env : Env) (left : Bytes → ServiceRequest) (c : ℕ) (id : Bytes) (h : Head) (bytes : Bytes)
    (w : World) (sr : ServiceRequest) (k : ℕ)
    → env.parse_request bytes ≡ some sr
    → Peers.get (c ∷ id) w.peers ≡ some k
    → client_response env (c ∷ id) h (standard_parser env left bytes).1 w ≡ record w {
      sessions = update w.sessions k (
          write
            (answer_message env h (env.serialize_response (standard_answer sr)))
            (w.sessions k));
      send_count = suc w.send_count;
    }
standard_parser-client_response env left c id h bytes w sr k parsed found =
    ap (λ body. client_response env (c ∷ id) h body w)
      (standard_parser_answers env left bytes sr parsed)
    ∙ client_response_found env c id h (env.serialize_response (standard_answer sr)) w k found

-- Where `Base64Decode` returns true, its output is what the iterators give, and not empty; where it returns
-- false, its output is empty or as it was.
pub base64_decode_lem :
    (b : Base64) (input output : Bytes)
    → let (decoded, ok) = base64_decode b input output in
      if ok
      then (b.decode8 input ≡ some decoded) × (is_empty decoded ≡ false)
      else (decoded ≡ output)
      ⊎ (decoded ≡ [])
unfolding base64_decode
base64_decode_lem b input output = ground arith
