-- ===== src/Serving/Unanswered.antt =====
-- Requests to src/logic_deal_processing.cpp whose handler gives nothing: they get an empty answer.
use bserver.Base.{ℕ, suc, ◌≡◌, refl, ◌∙◌, ap, false, [], ◌∷◌, Bytes, some, arith}
use bserver.Message.{Head, message_format, packed}
use bserver.Session.{write}
use bserver.Peers.Client.{fix_get}
use bserver.Proto.{Env, ServiceRequest, ServicePacket}
use bserver.Responders.Service.{service_type_server, group_service_parser, service_parser}
use bserver.Responders.GroupResponser.{group_parser}
use bserver.Responders.Answers.{FailedSearch, FailedSearch-unanswered}
use bserver.World.{World, update}
use bserver.Logic.{do_work, responser_of, run_responser}
use bserver.Logic.Dispatch.{server_response, answer_message}
use bserver.Logic.Replies.{server_response_found}
use bserver.Serving.Rounds.{do_work_200}

-- The world after a frame with this command and no body went into the write queue of a connection and
-- was counted.
abbrev pub sent_empty : Env → ℕ → Head → (cmd : ℕ) → World → World
sent_empty env k h cmd w = record w {
  sessions =
      update w.sessions k
        (write (packed (record h { cmd = cmd }) [] (message_format env.junk)) (w.sessions k));
  send_count = suc w.send_count;
}

-- A service request (200) over a connection in the registry of servers, whose search fails with an error
-- text: an empty frame with the command 201 goes into the write queue of that connection and is
-- counted. The text is in no frame, and nothing else changes.
pub do_work-FailedSearch :
    (env : Env) (c : ℕ) (id : Bytes) (h : Head) (bytes : Bytes) (w : World) (k : ℕ)
    (sr : ServiceRequest) (payload : Bytes) (packet : ServicePacket)
    → h.cmd ≡ 200
    → fix_get (c ∷ id) w.clients ≡ some k
    → env.parse_request bytes ≡ some sr
    → sr.service_type ≡ service_type_server
    → sr.payload ≡ some payload
    → env.parse_packet payload ≡ some packet
    → FailedSearch env packet
    → do_work env (c ∷ id) h bytes w ≡ sent_empty env k h 201 w
unfolding answer_message
do_work-FailedSearch env c id h bytes w k sr payload packet e f p t q g s =
    do_work_200 env (c ∷ id) h bytes w e
    ∙ ap (λ (body : Bytes). server_response env (c ∷ id) h body w)
        (FailedSearch-unanswered env bytes [] sr payload packet p t q g s).1
    ∙ server_response_found env c id h [] w k f
    ∙ (rw e refl)

group_response :
    (env : Env) (bytes : Bytes)
    → ((group_service_parser env bytes []).0.is_async ≡ false)
      × ((group_service_parser env bytes []).1 ≡ [])
unfolding group_service_parser service_parser group_parser
group_response env bytes = ground arith

-- Every request to the handler of group searches (7818) over a connection in the registry of servers,
-- whatever it asks for: an empty frame with the command 7819 goes into the write queue of that
-- connection and is counted. Nothing else changes.
pub do_work_group :
    (env : Env) (c : ℕ) (id : Bytes) (h : Head) (bytes : Bytes) (w : World) (k : ℕ)
    → h.cmd ≡ 7818
    → fix_get (c ∷ id) w.clients ≡ some k
    → do_work env (c ∷ id) h bytes w ≡ sent_empty env k h 7819 w
unfolding do_work responser_of run_responser answer_message
do_work_group env c id h bytes w k e f =
    let (sync, body) = group_response env bytes in
    ground (arith, sync, body, server_response_found env c id h [] w k f)
