-- ===== src/Logic/Dispatch.antt =====
-- src/task_responser.cpp: how an answer reaches a connection.
use bserver.Base.{ℕ, suc, ◌+◌, ◌%◌, ◌^◌, List, [], ◌∷◌, Bytes, none, some, is_empty, if◌then◌else◌}
use bserver.Message.{Head, MessageFormat, message_format, packed}
use bserver.Peers
use bserver.Peers.{SessionPtr}
use bserver.Peers.Client
use bserver.Proto.{Env}
use bserver.World.{World, write_to, count_send}

-- Write to a session that was found, and count it.
unfoldable pub write_found : SessionPtr → MessageFormat → World → World
unfolding write_to count_send
write_found none m w = w
write_found (some h) m w = count_send (write_to h m w)

-- `get` calls `rand()` only if it has a choice.
abbrev pub used_rand : List Bytes → ℕ → ℕ
used_rand [] n = n
used_rand (k ∷ l) n = suc n

unfoldable pub dispatch_to_server : Bytes → MessageFormat → World → World
unfolding write_found
dispatch_to_server server_id m w =
    if is_empty server_id
    then w
    else (let (p, clients) = Client.get (w.rand w.rand_calls) server_id w.clients in
        write_found p m (record w {
          clients = clients;
          rand_calls = used_rand (Client.listed server_id w.clients) w.rand_calls;
        }))

unfoldable pub fix_dispatch_to_server : Bytes → MessageFormat → World → World
unfolding write_found
fix_dispatch_to_server server_id m w =
    if is_empty server_id then w else write_found (Client.fix_get server_id w.clients) m w

unfoldable pub dispatch_to_client : Bytes → MessageFormat → World → World
unfolding write_found
dispatch_to_client server_id m w =
    if is_empty server_id then w else write_found (Peers.get server_id w.peers) m w

-- The header of an answer: `hh.cmd++`, on a 32-bit word.
unfoldable pub next_cmd : Head → Head
next_cmd h = record h { cmd = (h.cmd + 1) % 2 ^ 32 }

unfoldable pub answer_message : Env → Head → Bytes → MessageFormat
unfolding next_cmd packed message_format
answer_message env h body = packed (next_cmd h) body (message_format env.junk)

-- `task_responser::response`
unfoldable pub client_response : Env → Bytes → Head → Bytes → World → World
unfolding dispatch_to_client answer_message
client_response env id h body w = dispatch_to_client id (answer_message env h body) w

-- `response` of server_service_responser and group_service_request_responser.
unfoldable pub server_response : Env → Bytes → Head → Bytes → World → World
unfolding fix_dispatch_to_server answer_message
server_response env id h body w = fix_dispatch_to_server id (answer_message env h body) w
