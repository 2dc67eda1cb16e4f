-- ===== src/Peers/Tests.antt =====
-- Runs of src/peer_handle_map.cpp: two connections to one server, and a hole in the numbering.
use bserver.Base.{
  ◌≤◌, ◌<◌, ◌≡◌, ◌≢◌, ◌⊎◌, refl, List, [], ◌∷◌, Bytes, text, none, some, bytes_eq, bytes_lt,
  decimal, contains,
}
use bserver.Base.Maps.{bytes_key, lookup, insert, erase}
use bserver.Peers.{SessionPtr, find_matched}
use bserver.Peers
use bserver.Peers.Server.{Event, opens, closes, run, last_opened, get-run}
use bserver.Peers.Client
use bserver.Peers.Client.{ClientMap, no_clients, name, fix_set, fix_get}
use bserver.Peers.Registry.{Agree, Agree-no_clients, fix_set-Agree, remove-Agree}
use bserver.Peers.Pick.{connects, here, next, Finds, get-Finds}
use bserver.Peers.Filled.{Filled}
use bserver.Peers.Holes.{set_lem}

abbrev server_a : Bytes
server_a = text "server:a:80"

abbrev one : ClientMap
one = (fix_set server_a (name server_a 0) (some 5) no_clients).1

abbrev two : ClientMap
two = (fix_set server_a (name server_a 1) (some 6) one).1

abbrev history : List Event
history =
    opens (text "client:x") (some 1)
    ∷ opens (text "client:y") (some 2)
    ∷ closes (text "client:x")
    ∷ []

get-run_example :
    Peers.get (text "client:x") (run history [])
    ≡ last_opened (text "client:x") history (Peers.get (text "client:x") [])
get-run_example = get-run (text "client:x") history []

get-Finds_example : Finds server_a two (Client.get 3 server_a two).0
get-Finds_example =
    get-Finds two 3 server_a (next (next here (connects server_a 0 5)) (connects server_a 1 6))

two-Agree : Agree two
two-Agree = fix_set-Agree one server_a 1 (fix_set-Agree no_clients server_a 0 Agree-no_clients 5) 6

-- Connection 0 has closed, 1 is left.
abbrev hole : ClientMap
hole = Client.remove server_a (name server_a 0) two

hole-Agree : Agree hole
hole-Agree = remove-Agree two server_a 0 two-Agree

-- The new session 7 is saved under the number 0, and the name with number 1 is listed twice.
hole_filled :
    ((Client.set 3 server_a (some 7) hole).0 ≡ name server_a 0)
    × (Client.listed server_a (Client.set 3 server_a (some 7) hole).1
        ≡ name server_a 1 ∷ name server_a 1 ∷ [])
unfolding Client.set Client.listed Client.index Client.enter Client.relist Client.fill_hole
    Client.remove fix_set name decimal lookup insert erase find_matched contains bytes_lt bytes_eq
hole_filled = (refl, refl)

set_lem_example :
    let count = find_matched server_a hole.map in
    let taken = name server_a count in
    let r = Client.set 3 server_a (some 7) hole in
    ((3 ≤ count) × (r.0 ≡ []) × (r.1 ≡ hole))
    ⊎ ((count < 3)
          × (fix_get taken hole ≡ none)
          × (r.0 ≡ taken)
          × Agree r.1
          × (fix_get taken r.1 ≡ some 7)
        ⊎ (count < 3) × (fix_get taken hole ≢ none) × Filled server_a count 7 hole r)
set_lem_example = set_lem 3 7 server_a hole hole-Agree

abbrev longer : ClientMap
longer = (fix_set (text "server:a:8080") (name (text "server:a:8080") 0) (some 5) no_clients).1
