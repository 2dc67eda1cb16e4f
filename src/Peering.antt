-- ===== src/Peering.antt =====
-- src/client_session.cpp, src/server_session.cpp and src/peer_handle_client.cpp: how a connection enters
-- its registry, leaves it, and is registered with the server at its other end. The name resolver and
-- `connect` of boost, and protobuf, are parameters. The name that
-- `client_session` keeps as its `server_id_` is the field of that name of a session.
pub mod Loops
pub mod Heart
pub mod Registered
pub mod Held
pub mod Posts
pub mod Opened
pub mod Beginning
pub mod Aborted
pub mod Callback
pub mod Reload
mod Tests
use bserver.Base.{
  ℕ, suc, ◌+◌, ◌%◌, ◌^◌, Bool, true, false, not, ◌&&◌, List, [], ◌∷◌, ◌++◌, Bytes, text, decimal,
  is_empty, some, length, if◌then◌else◌,
}
use bserver.Message.{Head, MessageFormat, Status, done, failed, message_format, packed}
use bserver.Session
use bserver.Session.{Session, Effect, push_task, on_close, new_session}
use bserver.Peers
use bserver.Peers.{PeerMap}
use bserver.Peers.Client
use bserver.Peers.Client.{ClientMap}
use bserver.Pool.{IoServiceProvide, get_io_service}
use bserver.World.{update}

-- `split` at colons; whether `connect` fails for the session of a number,
-- and the address and port of the other end else; `SerializeToString` of a
-- SvRegRequest with the service type; the words that a constructor leaves as they are.
pub record Outside : Type 0 where
  pub split : Bytes → List Bytes
  pub refused : ℕ → Bool
  pub remote : ℕ → Bytes × ℕ
  pub serialize_register : ℕ → Bytes
  pub junk : Head

-- The registry, the sessions behind the handles and the next handle, the calls of `write` posted to
-- an `io_service`, and the pool of these.
pub record Net : Type 0 where
  pub clients : ClientMap
  pub sessions : ℕ → Session
  pub next_session : ℕ
  pub posted : List (ℕ × MessageFormat)
  pub pool : IoServiceProvide

unfoldable pub post_write : ℕ → MessageFormat → Net → Net
post_write h m net = record net { posted = net.posted ++ ((h, m) ∷ []) }

-- The ids of the message that the session reads.
unfoldable pub mark_read : Session → Session
mark_read s = record s {
  read_msg = record s.read_msg { remote_id = s.id; server_id = s.server_id };
}

-- `client_session::open` without a fixed id, given the address of the other end.
unfoldable pub open_named :
    (connect_count : ℕ) (address : Bytes) (port h : ℕ)
    → Session
    → ClientMap
    → Status × Session × ClientMap
unfolding mark_read
open_named connect_count address port h s m =
    let server_id = text "server:" ++ (address ++ (text ":" ++ decimal port)) in
    let (id, m') = Client.set connect_count server_id (some h) m in
    let s' = record s { server_id = server_id; id = id } in
    if is_empty id then (failed, s', m') else (done, mark_read s', m')

-- `client_session::open` with a fixed id.
unfoldable pub open_fixed : ℕ → Session → ClientMap → Status × ClientMap
open_fixed h s m = Client.fix_set s.server_id s.id (some h) m

-- `client_session::on_close` without reconnection: `is_auto_reconnect_` is false in every session that
-- `peer_handle_client` makes.
unfoldable pub leave : Session → ClientMap → ClientMap
leave s m = Client.remove s.server_id s.id m

-- The calls of `on_close` among what a handler did.
unfoldable pub run_effects : List Effect → Session → ClientMap → ClientMap
unfolding leave
run_effects [] s m = m
run_effects (push_task t ∷ es) s m = run_effects es s m
run_effects (on_close ∷ es) s m = run_effects es s (leave s m)

unfoldable pub handle_connect_fix_id :
    (error : Bool) (server_id remote_id : Bytes) (h : ℕ)
    → Session
    → ClientMap
    → Status × Session × ClientMap
unfolding mark_read open_fixed run_effects
handle_connect_fix_id error server_id remote_id h s m =
    let t = mark_read (record s { id = remote_id; server_id = server_id }) in
    let (opened, m') = open_fixed h t m in
    let (res, u, es) = Session.handle_connect t error (λ v. (v, opened)) in
    (res, u, run_effects es u (if error then m else m'))

-- `peer_handle_client::registe`, given `conected_`.
unfoldable pub registe : Outside → Status → ℕ → Net → Net
unfolding post_write
registe out failed h net = net
registe out done h net =
    let body = out.serialize_register 600 in
    post_write h
      (packed (record { magic = 0; len = (12 + length body) % 2 ^ 32; cmd = 300 }) body
        (message_format out.junk))
      net

-- A new `peer_handle_client` with a fixed id, on the next `io_service`, and its `registe`.
unfoldable pub connect_to : Outside → (server_id fix_id : Bytes) → Net → Net
unfolding handle_connect_fix_id registe
connect_to out server_id fix_id net =
    let h = net.next_session in
    let (res, s, m) =
      handle_connect_fix_id (out.refused h) server_id fix_id h (new_session out.junk) net.clients in
    registe out res h (record net {
      clients = m;
      sessions = update net.sessions h s;
      next_session = suc h;
      pool = (get_io_service net.pool).1;
    })

-- `handle_connect` of a session without a fixed id.
unfoldable pub handle_connect_named :
    (error : Bool) (connect_count : ℕ) (address : Bytes) (port h : ℕ)
    → Session
    → ClientMap
    → Status × Session × ClientMap
unfolding open_named run_effects
handle_connect_named error connect_count address port h s m =
    let (opened, t, m') = open_named connect_count address port h s m in
    let (res, u, es) = Session.handle_connect s error (λ v. (t, opened)) in
    (res, u, run_effects es u (if error then m else m'))

-- A new `peer_handle_client` without a fixed id, on the next `io_service`, and its `registe`.
unfoldable pub connect_named : Outside → (connect_count : ℕ) → Net → Net
unfolding handle_connect_named registe
connect_named out connect_count net =
    let h = net.next_session in
    let (address, port) = out.remote h in
    let (res, s, m) =
      handle_connect_named (out.refused h) connect_count address port h (new_session out.junk)
        net.clients in
    registe out res h (record net {
      clients = m;
      sessions = update net.sessions h s;
      next_session = suc h;
      pool = (get_io_service net.pool).1;
    })

unfoldable pub reconnect : Outside → List Bytes → (server_id fix_id : Bytes) → Net → Net
unfolding connect_to
reconnect out (a ∷ b ∷ c ∷ []) server_id fix_id net = connect_to out server_id fix_id net
reconnect out _ server_id fix_id net = net

-- `client_session::on_close`.
unfoldable pub client_on_close : Outside → (is_auto_reconnect : Bool) → Session → Net → Net
unfolding leave reconnect
client_on_close out is_auto_reconnect s net =
    let left = record net { clients = leave s net.clients } in
    if is_auto_reconnect && (not (is_empty s.server_id) && not (is_empty s.id))
    then reconnect out (out.split s.server_id) s.server_id s.id left
    else left

-- `server_session::open`, given the address of the other end, and `session_base::on_close`.
unfoldable pub server_open : (address : Bytes) (port h : ℕ) → Session → PeerMap → Session × PeerMap
server_open address port h s m =
    let id = text "client:" ++ (address ++ (text ":" ++ decimal port)) in
    (
      record s { id = id; read_msg = record s.read_msg { remote_id = id } },
      (Peers.set id (some h) m).1,
    )

unfoldable pub server_on_close : Session → PeerMap → PeerMap
server_on_close s m = Peers.remove s.id m
