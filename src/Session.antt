-- ===== src/Session.antt =====
-- include/session_base.h and src/session_base.cpp: a connection, its reads and its writes.
-- The asynchronous operations of boost::asio are state here: `reading` is the read that waits for
-- bytes, `writing` are the buffers handed to `async_write` whose completion has not been seen. Their
-- completions are calls of the three handlers. `connected_` is set and never read.
pub mod Writes
pub mod Stall
pub mod Reads
pub mod FrameReads
pub mod Framing
mod Tests
use bserver.Base.{ℕ, Bool, true, false, List, [], ◌∷◌, ◌++◌, Bytes, take, ◌==◌, if◌then◌else◌}
use bserver.Message.{
  Head, MessageFormat, Status, done, failed, message_head_length, message_format, total_length,
  meet_head, decode_header,
}

-- The operation that `async_read` is to complete.
pub data Waiting : Type 0 where
  for_head : Waiting
  for_body : ℕ → Waiting
  no_read : Waiting

pub record Session : Type 0 where
  pub read_msg : MessageFormat
  pub write_msgs : List MessageFormat
  pub id : Bytes
  pub server_id : Bytes
  pub connected : Bool
  pub inter_lock : Bool
  pub is_shut : Bool
  pub reading : Waiting
  pub writing : List Bytes

-- What a handler does outside the session: `push` of the task queue, and `on_close`.
pub data Effect : Type 0 where
  push_task : MessageFormat → Effect
  on_close : Effect

-- A session after its constructor; `junk` is what the members of `read_msg_` happen to hold.
unfoldable pub new_session : Head → Session
unfolding message_format
new_session junk = record {
  read_msg = message_format junk;
  write_msgs = [];
  id = [];
  server_id = [];
  connected = false;
  inter_lock = false;
  is_shut = false;
  reading = no_read;
  writing = [];
}

-- The bytes of `boost::asio::buffer(m.body().data(), m.length())`.
unfoldable pub wire : MessageFormat → Bytes
unfolding total_length
wire m = take (total_length m) m.body

unfoldable pub close : Session → Session × List Effect
close s = (record s { is_shut = true }, on_close ∷ [])

-- `start`, given the session after `open` and its status.
unfoldable pub start : Session → Status → Session × List Effect
unfolding close
start s failed = close s
start s done = (record s { connected = true; reading = for_head }, [])

-- `handle_connect`, given the error flag and what `open` makes of the session.
unfoldable pub handle_connect :
    Session → Bool → (Session → Session × Status) → Status × Session × List Effect
unfolding start close
handle_connect s error open_as =
    if error
    then (let (t, es) = close s in (failed, t, es))
    else (let (t, status) = open_as s in let (u, es) = start t status in (done, u, es))

-- `async_write` of the first message of the queue.
unfoldable pub write_front : List MessageFormat → Session → Session
unfolding wire
write_front [] s = s
write_front (m ∷ ms) s = record s { writing = s.writing ++ (wire m ∷ []) }

-- What `inter_guard_lock` returns, and the session after it.
unfoldable pub inter_guard_lock : Session → Bool × Session
inter_guard_lock s = if s.inter_lock then (false, s) else (true, record s { inter_lock = true })

unfoldable pub inter_guard_release : Session → Session
inter_guard_release s = record s { inter_lock = false }

unfoldable pub write : MessageFormat → Session → Session
unfolding write_front inter_guard_lock
write m s =
    let queued = record s { write_msgs = s.write_msgs ++ (m ∷ []) } in
    if queued.inter_lock
    then queued
    else (let (locked, t) = inter_guard_lock queued in
        if locked then write_front t.write_msgs t else t)

abbrev pop_front : List MessageFormat → List MessageFormat
pop_front [] = []
pop_front (m ∷ ms) = ms

-- The rest of `handle_write`, once the first message is off the queue.
unfoldable pub write_next : List MessageFormat → Session → Session
unfolding write_front inter_guard_release
write_next [] s = inter_guard_release (record s { write_msgs = [] })
write_next (m ∷ ms) s = write_front (m ∷ ms) (record s { write_msgs = m ∷ ms })

unfoldable pub handle_write : Bool → Session → Session × List Effect
unfolding write_next close
handle_write error s = if error then close s else (write_next (pop_front s.write_msgs) s, [])

-- `do_head` of both kinds of session; `after_header_get` is empty.
unfoldable pub do_head : Session → Status × Session
unfolding decode_header
do_head s = let (res, h, m) = decode_header s.read_msg in (res, record s { read_msg = m })

-- `after_body_get` of the logic: an answer to a keepalive is dropped.
unfoldable pub after_body_get : MessageFormat → List Effect
unfolding meet_head
after_body_get m = if (meet_head m).cmd == 1 then [] else push_task m ∷ []

-- `do_body` returns 0, so the reader goes on to the next header.
unfoldable pub handle_read_body : Bool → Session → Session × List Effect
unfolding after_body_get close
handle_read_body error s =
    if error then close s else (record s { reading = for_head }, after_body_get s.read_msg)

-- What follows `do_head`.
unfoldable pub after_head : Status → Session → Session × List Effect
unfolding handle_read_body close
after_head failed s = close s
after_head done s =
    if s.read_msg.body_length == 0
    then handle_read_body false s
    else (record s { reading = for_body s.read_msg.body_length }, [])

unfoldable pub handle_read_header : Bool → Session → Session × List Effect
unfolding do_head after_head close
handle_read_header error s =
    if error then close s else (let (res, t) = do_head s in after_head res t)
