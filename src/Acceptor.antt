-- ===== src/Acceptor.antt =====
-- src/peer_handle_server.cpp and src/server_session.cpp: connections are accepted one after another,
-- enter the registry of clients, and leave it when they close. The sockets of boost are left out: an
-- event says what came of an operation. Tasks that a session pushes are the matter of Serving.
pub mod Names
pub mod Registered
mod Tests
use bserver.Base.{
  ℕ, suc, Bool, true, false, List, [], ◌∷◌, Bytes, Option, none, some, if◌then◌else◌,
}
use bserver.Message.{Head, MessageFormat, done, fill_head, fill_body}
use bserver.Session
use bserver.Session.{
  Session, Effect, push_task, on_close, new_session, write, handle_write, handle_read_header,
  handle_read_body,
}
use bserver.Peers.{PeerMap}
use bserver.Peering.{server_open, server_on_close}
use bserver.Pool.{IoServiceProvide, get_io_service}
use bserver.World.{update}

-- `pending` is the session of the `async_accept` that waits. `terminated`: an exception left a handler of
-- the server, and with it a thread of `run`, which ends the process.
pub record PeerHandleServer : Type 0 where
  pub peers : PeerMap
  pub sessions : ℕ → Session
  pub next_session : ℕ
  pub pending : Option ℕ
  pub terminated : Bool
  pub pool : IoServiceProvide

-- The calls of `on_close` among what a handler of a `server_session` did.
unfoldable pub run_effects : List Effect → Session → PeerMap → PeerMap
run_effects [] s m = m
run_effects (push_task t ∷ es) s m = run_effects es s m
run_effects (on_close ∷ es) s m = run_effects es s (server_on_close s m)

-- What a handler made of the session of a handle, and what it did.
unfoldable pub handled : ℕ → Session × List Effect → PeerHandleServer → PeerHandleServer
unfolding run_effects
handled h (s, es) p = record p {
  sessions = update p.sessions h s;
  peers = run_effects es s p.peers;
}

unfoldable pub start_accept : Head → PeerHandleServer → PeerHandleServer
start_accept junk p = record p {
  sessions = update p.sessions p.next_session (new_session junk);
  next_session = suc p.next_session;
  pending = some p.next_session;
  pool = (get_io_service p.pool).1;
}

-- `start` of the session `h`, which was accepted from an address.
unfoldable pub start_session :
    (h : ℕ) (address : Bytes) (port : ℕ) → PeerHandleServer → PeerHandleServer
unfolding handled
start_session h address port p =
    let (s, m) = server_open address port h (p.sessions h) p.peers in
    handled h (Session.start s done) (record p { peers = m })

-- `remote` is what `remote_endpoint()` returns in `open`; it throws where the other end is gone already,
-- and then the handler is left before it accepts again.
unfoldable pub handle_accept :
    Head
    → (h : ℕ) (error : Bool) (remote : Option (Bytes × ℕ)) → PeerHandleServer
    → PeerHandleServer
unfolding start_accept start_session
handle_accept junk h true remote p = start_accept junk p
handle_accept junk h false none p = record p { terminated = true }
handle_accept junk h false (some (address, port)) p =
    start_accept junk (start_session h address port p)

-- The `async_accept` that waits completes: its session goes to the handler.
unfoldable pub complete_accept :
    Head → (error : Bool) (remote : Option (Bytes × ℕ)) → PeerHandleServer → PeerHandleServer
unfolding handle_accept
complete_accept junk error remote p = elim p.pending [
  | none ↦ p
  | some h ↦ handle_accept junk h error remote (record p { pending = none })
]

abbrev pub before_accept : Head → IoServiceProvide → PeerHandleServer
before_accept junk pool = record {
  peers = [];
  sessions = λ h. new_session junk;
  next_session = 0;
  pending = none;
  terminated = false;
  pool = pool;
}

-- The constructor, which starts to accept.
unfoldable pub peer_handle_server : Head → IoServiceProvide → PeerHandleServer
unfolding start_accept
peer_handle_server junk pool = start_accept junk (before_accept junk pool)

-- What may happen next: an accept completes; a read, with its bytes, or a write of a session
-- completes; a message is written to a session.
pub data Event : Type 0 where
  accepts : (error : Bool) (remote : Option (Bytes × ℕ)) → Event
  reads_header : (error : Bool) (h : ℕ) (bytes : Bytes) → Event
  reads_body : (error : Bool) (h : ℕ) (bytes : Bytes) → Event
  writes_done : (error : Bool) (h : ℕ) → Event
  writes : (h : ℕ) (m : MessageFormat) → Event

-- The session, with the bytes that a read put into its message.
abbrev pub with_head : Bytes → Session → Session
with_head bytes s = record s { read_msg = fill_head bytes s.read_msg }

abbrev pub with_body : Bytes → Session → Session
with_body bytes s = record s { read_msg = fill_body bytes s.read_msg }

unfoldable pub happens : Head → Event → PeerHandleServer → PeerHandleServer
unfolding complete_accept handled
happens junk (accepts error remote) p = complete_accept junk error remote p
happens junk (reads_header error h bytes) p =
    handled h (handle_read_header error (with_head bytes (p.sessions h))) p
happens junk (reads_body error h bytes) p =
    handled h (handle_read_body error (with_body bytes (p.sessions h))) p
happens junk (writes_done error h) p = handled h (handle_write error (p.sessions h)) p
happens junk (writes h m) p = handled h (write m (p.sessions h), []) p

-- Nothing happens any more once the process has ended.
unfoldable pub step : Head → Event → PeerHandleServer → PeerHandleServer
unfolding happens
step junk e p = if p.terminated then p else happens junk e p

unfoldable pub run : Head → List Event → PeerHandleServer → PeerHandleServer
unfolding step
run junk [] p = p
run junk (e ∷ es) p = run junk es (step junk e p)
