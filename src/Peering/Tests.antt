-- ===== src/Peering/Tests.antt =====
-- Runs of the heartbeat of src/heart_task_thread.cpp and of src/client_session.cpp.
use mathlib.Core.List.{Mem}
use bserver.Base.{
  List, ℕ, ◌≡◌, refl, false, [], ◌∷◌, Bytes, text, decimal, bytes_eq, none, some, arith,
}
use bserver.Base.Maps.{lookup, insert}
use bserver.Message.{MessageFormat}
use bserver.Session.{Session, new_session}
use bserver.Peers
use bserver.Peers.Client
use bserver.Peers.Client.{no_clients, fix_get, name}
use bserver.Config.{ServCfg, ServerMap, nat_key, server_name}
use bserver.Config.Servers.{first_server}
use bserver.Peering.Callback.{servlist_callback, init_server_connection}
use bserver.Peering.Reload.{servlist_callback_lem}
use bserver.Peering.{Outside, Net, connect_to, client_on_close}
use bserver.Peering.Heart.{heart_round, keepalive}
use bserver.Peering.Registered.{stale_close_lem}
use bserver.Peering.Held.{heart_round_lem}
use bserver.Peering.Aborted.{Resolver, heart_turn, heart_turn_stops}
use bserver.Peering.Beginning.{init_server_connection-heart_round}

abbrev server_a : Bytes
server_a = text "server:a:80"

-- Every name is that of server_a, and no connection fails.
abbrev outside : Outside
outside = record {
  split = λ id. text "server" ∷ text "a" ∷ text "80" ∷ [];
  refused = λ h. false;
  remote = λ h. (text "a", 80);
  serialize_register = λ t. t ∷ [];
  junk = record { magic = 0; len = 0; cmd = 0 };
}

-- Session 5 is connected to the server.
abbrev net : Net
net = record {
  clients = (Client.fix_set server_a (name server_a 0) (some 5) no_clients).1;
  sessions = λ h. new_session (record { magic = 0; len = 0; cmd = 0 });
  next_session = 6;
  posted = [];
  pool = record { size = 2; next_io_service = 0 };
}

abbrev servers : ServerMap
servers = (1, server_a) ∷ []

server_listed : lookup 1 servers ≡ some server_a
unfolding lookup
server_listed = refl

heart_round_lem_example :
    (h : ℕ) × (fix_get (name server_a 1) (heart_round outside 2 servers net).clients ≡ some h)
heart_round_lem_example =
    heart_round_lem outside 2 servers net 1 1 server_a (text "server") (text "a") (text "80")
      (λ h. refl) server_listed refl (omega arith)

abbrev listed_servers : List ServCfg
listed_servers = record { id = 1; ipaddr = text "a"; port = 80 } ∷ []

first_listed : first_server 1 listed_servers ≡ some server_a
unfolding first_server server_name decimal
first_listed = refl

servlist_callback_lem_example :
    (new : ServerMap) × (after : Net) × (servlist_callback outside 2 listed_servers [] net
      ≡ some (new, after))
    × (lookup 1 new ≡ some server_a)
    × (h : ℕ) × (fix_get (name server_a 1) after.clients ≡ some h)
servlist_callback_lem_example =
    servlist_callback_lem outside 2 listed_servers [] net 1 1 server_a (text "server") (text "a")
      (text "80") (λ h. refl) first_listed refl (omega arith)

abbrev old : Session
old = record (net.sessions 5) { id = text "server:a:80:0"; server_id = server_a }

stale_close_lem_example :
    (fix_get (text "server:a:80:0") (connect_to outside server_a (text "server:a:80:0") net).clients
      ≡ some 6)
    × (fix_get
          (text "server:a:80:0")
          (client_on_close outside false old
            (connect_to outside server_a (text "server:a:80:0") net)).clients
        ≡ none)
stale_close_lem_example =
    stale_close_lem outside server_a (text "server:a:80:0") net old refl refl refl refl

abbrev server_b : Bytes
server_b = text "server:b:80"

abbrev finds_none : Resolver
finds_none host port = false

missing_b : fix_get (name server_b 0) (heart_turn outside finds_none 2 [] net).clients ≡ none
unfolding heart_turn fix_get Peers.get Client.fix_set name decimal lookup insert bytes_eq
missing_b = refl

heart_turn_stops_example :
    heart_turn outside finds_none 2 ((0, server_b) ∷ servers) net
    ≡ heart_turn outside finds_none 2 ((0, server_b) ∷ []) net
heart_turn_stops_example =
    heart_turn_stops outside finds_none (text "server") (text "a") (text "80") server_b refl refl 1
      0 [] servers net missing_b

init_server_connection-heart_round_example :
    let start = init_server_connection outside 2 servers (record net { clients = no_clients }) in
    ((h : ℕ) × (fix_get (name server_a 1) start.clients ≡ some h)
      × Mem {A = ℕ × MessageFormat}
          (h, keepalive outside)
          (heart_round outside 2 servers start).posted)
    × ((heart_round outside 2 servers start).next_session ≡ start.next_session)
unfolding decimal
init_server_connection-heart_round_example =
    init_server_connection-heart_round outside 2 80 1 1 (text "a") (text "server") (text "a")
      (text "80") (record net { clients = no_clients }) (λ h. refl) (λ h. refl) refl refl
      (omega arith)
