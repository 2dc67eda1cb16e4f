-- ===== src/Logic/Replies.antt =====
-- What `do_work` of src/logic_deal_processing.cpp does to the connections.
use bserver.Base.{
  ℕ, suc, ◌≡◌, ◌≢◌, refl, ap, ◌∙◌, inl, inr, true, [], ◌∷◌, Bytes, none, some, Option-cases, arith,
}
use bserver.Message.{Head, done, message_format, packed}
use bserver.Session.{write}
use bserver.Peers.Client.{fix_get}
use bserver.Proto.{Env, ServiceRequest, ServicePacket}
use bserver.Responders.Package.{handle_packet}
use bserver.Responders.Service.{
  service_answer, server_service_parser, service_type_server, group_service_parser,
  python_service_parser,
}
use bserver.Responders.Answers.{server_service_answers}
use bserver.World.{World, update}
use bserver.Logic.Dispatch.{answer_message, server_response}
use bserver.Logic.{do_work, Responser, responser_of, run_responser}

pub server_response_found :
    (env : Env) (c : ℕ) (id : Bytes) (h : Head) (body : Bytes) (w : World) (k : ℕ)
    → fix_get (c ∷ id) w.clients ≡ some k
    → server_response env (c ∷ id) h body w ≡ record w {
      sessions = update w.sessions k (write (answer_message env h body) (w.sessions k));
      send_count = suc w.send_count;
    }
unfolding server_response
server_response_found env c id h body w k e = ground arith

answer_message_of_200 :
    (env : Env) (h : Head) (body : Bytes)
    → h.cmd ≡ 200
    → answer_message env h body ≡ packed (record h { cmd = 201 }) body (message_format env.junk)
unfolding answer_message
answer_message_of_200 env h body e = rw e refl

-- A service request (200) that came over a connection in the registry of servers, and is answered: the
-- answer goes into the write queue of that connection, framed with the command 201, and is counted.
-- Nothing else changes.
pub service_request_served :
    (env : Env) (c : ℕ) (id : Bytes) (h : Head) (bytes : Bytes) (w : World) (k : ℕ)
    (sr : ServiceRequest) (payload : Bytes) (packet : ServicePacket)
    → h.cmd ≡ 200
    → fix_get (c ∷ id) w.clients ≡ some k
    → env.parse_request bytes ≡ some sr
    → sr.service_type ≡ service_type_server
    → sr.payload ≡ some payload
    → env.parse_packet payload ≡ some packet
    → (handle_packet env packet).1 ≡ true
    → let answer =
        env.serialize_response
          (service_answer sr done (env.serialize_packet (handle_packet env packet).0)) in
      do_work env (c ∷ id) h bytes w ≡ record w {
        sessions = update w.sessions k (
            write
              (packed (record h { cmd = 201 }) answer (message_format env.junk))
              (w.sessions k));
        send_count = suc w.send_count;
      }
unfolding do_work responser_of run_responser
service_request_served env c id h bytes w k sr payload packet e f p t q g s =
    let answer =
      env.serialize_response
        (service_answer sr done (env.serialize_packet (handle_packet env packet).0)) in
    ground (
      arith,
      server_service_answers env bytes [] sr payload packet p t q g s,
      server_response_found env c id h answer w k f,
      answer_message_of_200 env h answer e,
    )

-- A task that an overloaded queue marked with 1010 gets no answer: nothing changes at all.
pub busy_unanswered :
    (env : Env) (id : Bytes) (h : Head) (bytes : Bytes) (w : World)
    → h.cmd ≡ 1010
    → do_work env id h bytes w ≡ w
unfolding do_work responser_of run_responser
busy_unanswered env id h bytes w e = ground arith

abbrev SameBut : ℕ → World → World → Type 0
SameBut k w w' =
    (w'.sessions k ≡ w.sessions k)
    × (w'.peers ≡ w.peers)
    × (w'.clients ≡ w.clients)
    × (w'.queue ≡ w.queue)

server_response-SameBut :
    (env : Env) (id : Bytes) (h : Head) (w : World) (k : ℕ)
    → fix_get id w.clients ≢ some k
    → (body : Bytes) → SameBut k w (server_response env id h body w)
unfolding server_response
server_response-SameBut env id h w k f body = ground arith

run_responser-SameBut :
    (env : Env) (r : Responser) (id : Bytes) (h : Head) (bytes : Bytes) (w : World) (k : ℕ)
    → r ≢ Responser.server_service_response
    → ((body : Bytes) → SameBut k w (server_response env id h body w))
    → SameBut k w (run_responser env r id h bytes w)
unfolding run_responser
run_responser-SameBut env Responser.server_service id h bytes w k n s =
    ground (arith, s (server_service_parser env bytes []).1)
run_responser-SameBut env Responser.server_service_response id h bytes w k n s = absurd (n refl)
run_responser-SameBut env Responser.group_service id h bytes w k n s =
    ground (arith, s (group_service_parser env bytes []).1)
run_responser-SameBut env Responser.python_service id h bytes w k n s =
    ground (arith, s (python_service_parser env bytes []).1)
run_responser-SameBut env Responser.package_busy id h bytes w k n s = ground arith

responser_of-push :
    (cmd : ℕ) → cmd ≢ 6666 → responser_of cmd ≢ some Responser.server_service_response
unfolding responser_of
responser_of-push cmd e f = ground arith

do_work_unknown :
    (env : Env) (id : Bytes) (h : Head) (bytes : Bytes) (w : World)
    → responser_of h.cmd ≡ none
    → do_work env id h bytes w ≡ w
unfolding do_work
do_work_unknown env id h bytes w e = rw (e, do_work)

do_work_known :
    (env : Env) (id : Bytes) (h : Head) (bytes : Bytes) (w : World) (r : Responser)
    → responser_of h.cmd ≡ some r
    → do_work env id h bytes w ≡ run_responser env r id h bytes w
unfolding do_work
do_work_known env id h bytes w r e = rw (e, do_work)

-- Every task but the push of a service answer (6666) leaves all sessions alone but the one that the
-- registry of servers has for the connection that it came from, and leaves both registries and the
-- queue as they were.
pub do_work_confined :
    (env : Env) (id : Bytes) (h : Head) (bytes : Bytes) (w : World) (k : ℕ)
    → h.cmd ≢ 6666
    → fix_get id w.clients ≢ some k
    → let w' = do_work env id h bytes w in
      (w'.sessions k ≡ w.sessions k)
      × (w'.peers ≡ w.peers)
      × (w'.clients ≡ w.clients)
      × (w'.queue ≡ w.queue)
do_work_confined env id h bytes w k e f = elim (Option-cases (responser_of h.cmd)) [
  | inl unknown ↦ rw (do_work_unknown env id h bytes w unknown) (refl, refl, refl, refl)
  | inr (r, known) ↦ rw (do_work_known env id h bytes w r known) (
      run_responser-SameBut env r id h bytes w k
        (λ p. responser_of-push h.cmd e (known ∙ ap some p))
        (server_response-SameBut env id h w k f))
]
