-- ===== src/Peering/Callback.antt =====
-- The connections that src/configwrap.cpp opens: at the start, and when the list of servers changes.
-- Where the name of a server has not three parts, the log line reads the second and the third part;
-- the names that `server_name` makes have them.
use bserver.Base.{ℕ, List, [], ◌∷◌, Bytes, Option, none, some}
use bserver.Peers.Client
use bserver.Config.{ServCfg, ServerMap, flush_servers}
use bserver.Peering.{Outside, Net, connect_named}
use bserver.Peering.Heart.{connect_parts}
use bserver.Peering.Loops.{for_servers}

-- One turn of the inner loop of `servlist_callback`.
unfoldable pub connect_missing : Outside → Bytes → ℕ → Net → Net
unfolding connect_parts
connect_missing out id i net = elim (Client.fix_get (Client.name id i) net.clients) [
  | some h ↦ net
  | none ↦ connect_parts out (out.split id) (Client.name id i) net
]

-- `servlist_callback`, given the list of servers: `none` is -1, where nothing changes.
unfoldable pub servlist_callback :
    Outside → (connect_count : ℕ) → List ServCfg → ServerMap → Net → Option (ServerMap × Net)
unfolding flush_servers connect_missing
servlist_callback out connect_count cs servers net = elim (flush_servers cs servers) [
  | none ↦ none
  | some new ↦ some (new, for_servers (connect_missing out) connect_count new net)
]

-- One turn of the inner loop of `init_server_connection`, given the parts of the name.
unfoldable pub connect_first : Outside → (connect_count : ℕ) → List Bytes → Net → Net
unfolding connect_named
connect_first out connect_count (a ∷ b ∷ c ∷ []) net = connect_named out connect_count net
connect_first out connect_count _ net = net

unfoldable pub init_server_connection : Outside → (connect_count : ℕ) → ServerMap → Net → Net
unfolding connect_first
init_server_connection out connect_count servers net =
    for_servers (λ id i. connect_first out connect_count (out.split id)) connect_count servers net
