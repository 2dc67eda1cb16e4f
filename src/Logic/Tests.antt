-- ===== src/Logic/Tests.antt =====
-- Runs of `do_work` of src/logic_deal_processing.cpp.
use bserver.Base.{
  ◌+◌, true, is_empty, ◌||◌, ◌⊎◌, ℕ, ◌≡◌, refl, false, [], ◌∷◌, Bytes, text, some, decimal,
  bytes_eq, arith,
}
use bserver.Base.Maps.{lookup, insert}
use bserver.Message.{Head, done, message_format, packed}
use bserver.Session.{new_session, write}
use bserver.Peers
use bserver.Peers.Client.{no_clients, fix_set, fix_get, name}
use bserver.Responders.Samples.{sample, packet_of}
use bserver.Responders.Package.{handle_packet}
use bserver.Responders.Service.{service_answer}
use bserver.Proto.{ServiceRequest}
use bserver.Peers.Pick.{Reach, here, next, connects}
use bserver.Logic.Push.{push_parser, cid, service_id, service_data}
use bserver.Logic.Pushed.{Delivered, push_parser_delivers}
use bserver.World.{World, update}
use bserver.Logic.{do_work}
use bserver.Logic.Replies.{service_request_served, do_work_confined}

abbrev server_a : Bytes
server_a = text "server:a:80"

-- One connection, session 5.
abbrev world : World
world = record {
  peers = [];
  clients = (fix_set server_a (name server_a 0) (some 5) no_clients).1;
  sessions = λ k. new_session (record { magic = 0; len = 0; cmd = 0 });
  queue = record { deque = []; stop = false };
  send_count = 1;
  rand = λ n. n;
  rand_calls = 0;
}

abbrev head_of : ℕ → Head
head_of c = record { magic = 7; len = 13; cmd = c }

abbrev request : ServiceRequest
request = record { sessid = text "u"; service_type = 600; sn = text "n"; payload = some (21 ∷ []) }

found_at_5 : fix_get (text "server:a:80:0") world.clients ≡ some 5
unfolding fix_get Peers.get fix_set name decimal lookup insert bytes_eq
found_at_5 = refl

service_request_served_example :
    do_work sample (text "server:a:80:0") (head_of 200) (21 ∷ []) world ≡ record world {
      sessions = update world.sessions 5 (
          write
            (packed
              (head_of 201)
              (sample.serialize_response (
                service_answer request done
                  (sample.serialize_packet (handle_packet sample (packet_of 21)).0)))
              (message_format sample.junk))
            (world.sessions 5));
      send_count = 2;
    }
unfolding handle_packet
service_request_served_example =
    service_request_served sample b's' (text "erver:a:80:0") (head_of 200) (21 ∷ []) world 5 request
      (21 ∷ []) (packet_of 21) refl found_at_5 refl refl refl refl refl

do_work_confined_example :
    let w' = do_work sample (text "server:a:80:0") (head_of 8000) (31 ∷ []) world in
    (w'.sessions 4 ≡ world.sessions 4)
    × (w'.peers ≡ world.peers)
    × (w'.clients ≡ world.clients)
    × (w'.queue ≡ world.queue)
do_work_confined_example =
    do_work_confined sample (text "server:a:80:0") (head_of 8000) (31 ∷ []) world 4
      (λ e. absurd (omega arith)) (λ e. absurd (ground (arith, found_at_5)))

server_connects : Reach no_clients world.clients
server_connects = next here (connects server_a 0 5)

push_parser_delivers_example :
    let w' = (push_parser sample (text "{}") world).1 in
    let l = sample.sessions_of (cid sample (text "{}")) in
    let missing =
      is_empty (cid sample (text "{}"))
      || is_empty (service_id sample (text "{}"))
      || is_empty (service_data sample (text "{}")) in
    ((missing ≡ true) × (w' ≡ world))
    ⊎ ((missing ≡ false)
        × (n : ℕ) × Delivered sample (text "{}") world.clients l world.sessions w'.sessions n
        × (w'.send_count ≡ world.send_count + n))
push_parser_delivers_example = push_parser_delivers sample (text "{}") world server_connects
