-- ===== src/Serving/Tests.antt =====
-- A run of two frames through the server, from the bytes that come in to the answer.
use bserver.Base.{
  ℕ, map, All, false, none, ◌+◌, ◌≡◌, refl, inl, inr, List, [], ◌∷◌, ◌++◌, Bytes, text, some,
  bytes_eq, length, true, arith,
}
use bserver.Base.Maps.{lookup, insert}
use bserver.Message.{Head, MessageFormat, meet_head, payload, done}
use bserver.Session.{Session, new_session, wire, for_head}
use bserver.Session.Framing.{stream, sent_requests}
use bserver.Tasks.{TaskBase, Task, task_base, push, try_pop, task_of}
use bserver.Serving.Crew.{
  Crew, crew, come, take_up, finish, Reach, comes, tries, finishes, here, next, replies,
}
use bserver.Serving.Worked.{IsTaskOf, finished_tasks}
use bserver.Serving.Shared.{IsQuiet, crew_serves}
use mathlib.Core.List.{Perm}
use bserver.Tasks.Order.{content, contents_of}
use bserver.Peers
use bserver.Peers.Client.{no_clients, fix_set, fix_get}
use bserver.Responders.Samples.{sample}
use bserver.World.{World}
use bserver.Serving.{receive, serve_rounds}
use bserver.Serving.Rounds.{answers}
use bserver.Serving.Answered.{stream_answered}
use bserver.Serving.Workers.{
  Stores, init_cache_map, worker_env, unconnected_answer, unconnected_search_answered,
}
use bserver.Config.Action.{configwrap}
use bserver.Proto.{ServiceRequest}
use bserver.Responders.Result.{service_response_result}
use bserver.Responders.Samples.{packet_of}
use bserver.Responders.Service.{server_service_parser, service_answer}

abbrev zero_head : Head
zero_head = record { magic = 0; len = 0; cmd = 0 }

-- Session 5, which waits for a header.
abbrev session_5 : Session
session_5 =
    let s = new_session zero_head in
    record s {
      reading = for_head;
      read_msg = record s.read_msg { remote_id = text "server:a:80:0" };
    }

abbrev world : World
world = record {
  peers = [];
  clients = (fix_set (text "server:a:80") (text "server:a:80:0") (some 5) no_clients).1;
  sessions = λ k. session_5;
  queue = task_base;
  send_count = 1;
  rand = λ n. n;
  rand_calls = 0;
}

-- A service request, and the answer to a keepalive.
abbrev frames : List (Head × Bytes)
frames =
    (record { magic = 7; len = 0; cmd = 200 }, 21 ∷ [])
    ∷ (record { magic = 0; len = 0; cmd = 1 }, [])
    ∷ []

idle_5 : (world.sessions 5).reading ≡ for_head
unfolding new_session
idle_5 = refl

found_5 : fix_get (text "server:a:80:0") world.clients ≡ some 5
unfolding fix_get Peers.get fix_set lookup insert bytes_eq
found_5 = refl

one_request : length (sent_requests (text "server:a:80:0") frames) ≡ 1
unfolding sent_requests
one_request = refl

stream_answered_example :
    let rs = sent_requests (text "server:a:80:0") frames in
    let w' = receive 4 5 (stream frames) world in
    let u = serve_rounds sample 10 true (length rs) w' in
    ((u.sessions 5).write_msgs ≡ (world.sessions 5).write_msgs ++ answers sample rs)
    × (u.queue ≡ task_base)
    × (u.send_count ≡ 1 + length rs)
stream_answered_example =
    stream_answered sample 10 b's' (text "erver:a:80:0") 5 frames world
      ((omega arith, omega arith, inl refl), ((omega arith, omega arith, inr refl), tt)) idle_5 refl
      found_5 refl (omega (arith, one_request))

-- No connection succeeds.
abbrev unreachable : Stores
unreachable = record { opens_sessions = λ path bak. none; connect = λ hosts. none }

abbrev request_27 : ServiceRequest
request_27 = record {
  sessid = text "u";
  service_type = 600;
  sn = text "n";
  payload = some (27 ∷ []);
}

unconnected_search_answered_example :
    server_service_parser
      (worker_env sample (init_cache_map unreachable (configwrap 4 0)))
      (27 ∷ [])
      []
    ≡ (
      service_response_result,
      sample.serialize_response (
          service_answer request_27 done
            (sample.serialize_packet (unconnected_answer (packet_of 27)))),
      [],
    )
unconnected_search_answered_example =
    unconnected_search_answered unreachable (configwrap 4 0) sample (27 ∷ []) [] request_27
      (27 ∷ []) (packet_of 27) (inr refl) refl refl refl refl (inl refl)

-- A service request that came over the connection of session 5.
abbrev request_message : ℕ → MessageFormat
request_message n = record {
  head = [];
  body = n ∷ [];
  body_length = 1;
  magic = 0;
  len = 13;
  cmd = 200;
  remote_id = text "server:a:80:0";
  server_id = [];
}

abbrev task : ℕ → Task
task n = record {
  bytes = n ∷ [];
  head = record { magic = 0; len = 13; cmd = 200 };
  id = text "server:a:80:0";
}

abbrev one_waits : TaskBase
one_waits = record { deque = request_message 27 ∷ []; stop = false }

abbrev two_pushed : Crew
two_pushed = come (request_message 27) (come (request_message 21) (crew world))

abbrev two_taken : Crew
two_taken = take_up (task 27) task_base (take_up (task 21) one_waits two_pushed)

-- Two workers take a request each, and the second is ready first.
abbrev second_ready : Crew
second_ready = finish sample (task 27) (task 21 ∷ []) two_taken

pops_21 : try_pop 10 two_pushed.world.queue ≡ some (task 21, one_waits)
unfolding try_pop task_base push task_of meet_head payload come crew
pops_21 = refl

pops_27 : try_pop 10 one_waits ≡ some (task 27, task_base)
unfolding try_pop task_base task_of meet_head payload
pops_27 = refl

second_ready_reached : Reach 10 5 (crew world) second_ready
unfolding take_up come crew
second_ready_reached =
    let pushed = next (next here (comes (request_message 21))) (comes (request_message 27)) in
    next
      (next (next pushed (tries (task 21) one_waits pops_21)) (tries (task 27) task_base pops_27))
      (finishes sample (task 21 ∷ []) (task 27) [] refl)

nothing_written : IsQuiet (world.sessions 5)
unfolding new_session
nothing_written = (refl, refl, refl)

crew_serves_example :
    Perm
      (map content (finished_tasks second_ready)
        ++ map content second_ready.serving
        ++ map contents_of second_ready.world.queue.deque)
      (map contents_of second_ready.pushed)
    × (second_ready.sent ++ map wire (second_ready.world.sessions 5).write_msgs
        ≡ map wire (replies second_ready.finished))
    × (second_ready.world.send_count ≡ 1 + length (replies second_ready.finished))
    × All (IsTaskOf (text "server:a:80:0")) (finished_tasks second_ready)
unfolding finish take_up come crew meet_head
crew_serves_example =
    crew_serves 10 world b's' (text "erver:a:80:0") 5 second_ready refl found_5 nothing_written
      second_ready_reached ((refl, refl), ((refl, refl), tt))
