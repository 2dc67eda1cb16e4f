-- ===== src/Peering/Beginning.antt =====
-- The start of src/configwrap.cpp followed by the first round of src/heart_task_thread.cpp.
use mathlib.Core.List.{Mem}
use bserver.Base.{
  ℕ, zero, suc, ◌+◌, ◌<◌, ◌≤◌, ◌≡◌, refl, ap, ◌∙◌, [], ◌∷◌, Bytes, false, some, arith,
}
use bserver.Base.Maps.{lookup}
use bserver.Message.{MessageFormat}
use bserver.Peers.Client.{no_clients, name, fix_get}
use bserver.Config.{ServerMap, nat_key}
use bserver.Peering.Callback.{init_server_connection}
use bserver.Peering.Heart.{beat, heart_round, keepalive}
use bserver.Peering.Loops.{for_names, for_servers}
use bserver.Peering.Opened.{remote_name, init_server_connection_lem}
use bserver.Peering.Posts.{heart_round_sends}
use bserver.Peering.{Outside, Net, post_write}

beat_of_held :
    (out : Outside) (id : Bytes) (i h : ℕ) (net : Net)
    → fix_get (name id i) net.clients ≡ some h
    → beat out id i net ≡ post_write h (keepalive out) net
unfolding beat
beat_of_held out id i h net e = rw (beat, e) refl

-- Where each name has a session, the loop over the names makes none.
names_held :
    (out : Outside) (id : Bytes) (rounds i : ℕ) (net : Net)
    → ((j : ℕ) → i ≤ j → j < rounds + i → (h : ℕ) × (fix_get (name id j) net.clients ≡ some h))
    → (for_names (beat out id) rounds i net).next_session ≡ net.next_session
unfolding for_names post_write
names_held out id zero i net held = refl
names_held out id (suc rounds) i net held =
    let (h, e) = held i (omega arith) (omega arith) in
    ap (λ n. (for_names (beat out id) rounds (suc i) n).next_session)
      (beat_of_held out id i h net e)
    ∙ names_held out id rounds (suc i) (post_write h (keepalive out) net)
        (λ j low high. held j (omega arith) (omega arith))

-- After a start with one server, named by the address by which all its connections are accepted, the
-- first round of the heartbeat posts a keepalive to the session of every one of the `connect_count`
-- names, and makes no connection.
pub init_server_connection-heart_round :
    (out : Outside) (count port k i : ℕ) (a x y z : Bytes) (net : Net)
    → ((h : ℕ) → out.refused h ≡ false)
    → ((h : ℕ) → out.remote h ≡ (a, port))
    → out.split (remote_name a port) ≡ x ∷ y ∷ z ∷ []
    → net.clients ≡ no_clients
    → i < count
    → let servers : ServerMap = (k, remote_name a port) ∷ [] in
      let start = init_server_connection out count servers net in
      ((h : ℕ) × (fix_get (name (remote_name a port) i) start.clients ≡ some h)
        × Mem {A = ℕ × MessageFormat}
            (h, keepalive out)
            (heart_round out count servers start).posted)
      × ((heart_round out count servers start).next_session ≡ start.next_session)
unfolding heart_round for_servers lookup
init_server_connection-heart_round out count port k i a x y z net up remote parts fresh less =
    let id = remote_name a port in
    let servers : ServerMap = (k, id) ∷ [] in
    let start = init_server_connection out count servers net in
    let held : (j : ℕ) → j < count → (h : ℕ) × (fix_get (name id j) start.clients ≡ some h) =
      λ j below.
        init_server_connection_lem out count port a up remote id x y z parts k j net fresh below in
    let (h, found) = held i less in
    (
      (h, found, heart_round_sends out count servers start k i h id (ground arith) less found),
      names_held out id count 0 start (λ j low high. held j (omega arith)),
    )
