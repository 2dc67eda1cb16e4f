-- ===== src/Responders/Python.antt =====
-- embeded_python/python_func_service_responser.cpp and .h: a packet becomes a call of a script.
pub mod Clean
use bserver.Base.{
  ℕ, zero, suc, ◌-◌, Bool, true, false, not, List, [], ◌∷◌, ◌++◌, Bytes, text, Option, none, some,
  length, starts_with, ◌==◌, if◌then◌else◌,
}
use bserver.Proto.{
  Env, PacketResponse, ResponseBody, python_core, PythonResult, returned, threw, ServicePacket,
}
use bserver.Responders.Result.{ServiceResponseResult, service_response_result}

-- `replace_all` from a position on: `skip` bytes of a match are still to be passed over. The search
-- goes on behind what was put in, so that is not looked at again.
unfoldable pub replace_from : ℕ → Bytes → Bytes → Bytes → Bytes
replace_from skip src dst [] = []
replace_from (suc skip) src dst (c ∷ s) = replace_from skip src dst s
replace_from zero src dst (c ∷ s) =
    let replaced = dst ++ replace_from (length src - 1) src dst s in
    let kept = c ∷ replace_from zero src dst s in if starts_with src (c ∷ s) then replaced else kept

-- For a text `src` that is not empty.
unfoldable pub replace_all : Bytes → Bytes → Bytes → Bytes
unfolding replace_from
replace_all str src dst = replace_from 0 src dst str

-- The text of an exception without line ends.
unfoldable pub one_line : Bytes → Bytes
unfolding replace_all
one_line error = replace_all (replace_all error (13 ∷ []) []) (10 ∷ []) []

unfoldable pub python_answer : Bytes → PythonResult → PacketResponse
unfolding one_line
python_answer cid (returned json) = record { type = 32; body = python_core cid 1 json }
python_answer cid (threw error) = record {
  type = 32;
  body =
      python_core cid 0
        (text "{\"error\":\"service exception!\", \"code\":\"" ++ (one_line error ++ text "\"}"));
}

unfoldable pub python_parser : Env → Bytes → Bytes → ServiceResponseResult × Bytes
unfolding python_answer
python_parser env bytes response = elim (env.parse_packet bytes) [
  | none ↦ (service_response_result, response)
  | some packet ↦
      if not (packet.type == 31)
      then (service_response_result, response)
      else (let q = packet.python_core_request in
          (
            service_response_result,
            env.serialize_packet (
                python_answer q.cid (
                  env.python env.domains.python_root q.module_name q.function_name q.json_request)),
          ))
]
