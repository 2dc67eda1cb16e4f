-- ===== src/Peering/Heart.antt =====
-- src/heart_task_thread.cpp: a round of the heartbeat over the servers of the configuration.
use bserver.Base.{ℕ, List, [], ◌∷◌, ◌++◌, Bytes, text, none, some}
use bserver.Message.{MessageFormat, message_format, packed}
use bserver.Peers.Client
use bserver.Config.{ServerMap}
use bserver.Peering.Loops.{for_servers}
use bserver.Peering.{Outside, Net, post_write, connect_to}

-- `h.len` is not set, and `encode_header` does not read it.
unfoldable pub keepalive : Outside → MessageFormat
keepalive out =
    packed (record { magic = 0; len = out.junk.len; cmd = 0 }) [] (message_format out.junk)

-- The branch for a name without a session, given the parts of the name of the server.
unfoldable pub connect_parts : Outside → List Bytes → Bytes → Net → Net
connect_parts out (a ∷ b ∷ c ∷ []) fix_id net =
    connect_to out (a ++ (text ":" ++ (b ++ (text ":" ++ c)))) fix_id net
connect_parts out _ fix_id net = net

unfoldable pub beat : Outside → Bytes → ℕ → Net → Net
unfolding keepalive connect_parts
beat out id i net = elim (Client.fix_get (Client.name id i) net.clients) [
  | some h ↦ post_write h (keepalive out) net
  | none ↦ connect_parts out (out.split id) (Client.name id i) net
]

-- One pass over the map of servers.
unfoldable pub heart_round : Outside → (connect_count : ℕ) → ServerMap → Net → Net
unfolding beat
heart_round out connect_count servers net = for_servers (beat out) connect_count servers net
