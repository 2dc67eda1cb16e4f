-- ===== src/Acceptor/Tests.antt =====
-- A run of src/peer_handle_server.cpp: two connections come in, and the first closes.
use bserver.Base.{
  ◌≡◌, refl, true, false, List, [], ◌∷◌, text, decimal, none, some, bytes_eq, bytes_lt,
}
use bserver.Base.Maps.{lookup, insert, erase}
use bserver.Message.{Head}
use bserver.Peers
use bserver.Peering.{server_open, server_on_close}
use bserver.Acceptor.{Event, accepts, writes_done, run, peer_handle_server}
use bserver.Acceptor.Registered.{Registered, any_throws, run-Registered}
use bserver.Pool.{IoServiceProvide}
use bserver.Session

abbrev junk : Head
junk = record { magic = 0; len = 0; cmd = 0 }

abbrev pool : IoServiceProvide
pool = record { size = 2; next_io_service = 0 }

abbrev two_come_one_goes : List Event
two_come_one_goes =
    accepts false (some (text "a", 1))
    ∷ accepts true none
    ∷ accepts false (some (text "b", 2))
    ∷ writes_done true 0
    ∷ []

second_stays :
    Peers.get (text "client:b:2") (run junk two_come_one_goes (peer_handle_server junk pool)).peers
    ≡ some 2
unfolding run peer_handle_server Peers.get Peers.set Peers.remove server_open server_on_close lookup
    insert erase bytes_eq decimal Session.handle_write Session.new_session Session.start bytes_lt
second_stays = refl

first_gone :
    Peers.get (text "client:a:1") (run junk two_come_one_goes (peer_handle_server junk pool)).peers
    ≡ none
unfolding run peer_handle_server Peers.get Peers.set Peers.remove server_open server_on_close lookup
    insert erase bytes_eq decimal Session.handle_write Session.new_session Session.start bytes_lt
first_gone = refl

-- The first connection is closed before its address is asked for, and the second is not accepted.
abbrev gone_before_open : List Event
gone_before_open = accepts false none ∷ accepts false (some (text "b", 2)) ∷ []

ends_the_process : (run junk gone_before_open (peer_handle_server junk pool)).terminated ≡ true
unfolding run peer_handle_server
ends_the_process = refl

run-Registered_example :
    let p = run junk two_come_one_goes (peer_handle_server junk pool) in
    Registered p × (p.terminated ≡ any_throws two_come_one_goes)
run-Registered_example = run-Registered junk pool two_come_one_goes
