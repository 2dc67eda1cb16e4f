-- ===== src/Session/Tests.antt =====
-- Runs of src/session_base.cpp: two frames read, and messages written.
use bserver.Base.{◌≤◌, ◌≡◌, refl, true, false, List, [], ◌∷◌, ◌++◌, map, Bytes, text, length, arith}
use bserver.Message.{Head, MessageFormat, message_format, packed}
use bserver.Session
use bserver.Session.{Session, new_session, start, wire, for_head, Effect, on_close}
use bserver.Session.Reads.{feed}
use bserver.Session.Framing.{stream, sent_requests, feed-stream, Handed}
use bserver.Session.Writes.{Link, new_link, writes, write_fails, Reach, here, next, writes_in_order}
use bserver.Session.Stall.{queue_drains, failed_write_stalls}

abbrev junk : Head
junk = record { magic = 1; len = 2; cmd = 3 }

-- A request, an answer to a keepalive, and a frame with no body.
abbrev frames : List (Head × Bytes)
frames =
    (record { magic = 7; len = 0; cmd = 200 }, text "hi")
    ∷ (record { magic = 0; len = 0; cmd = 1 }, [])
    ∷ (record { magic = 9; len = 0; cmd = 8000 }, [])
    ∷ []

open_session : Session
unfolding new_session
open_session = record (new_session junk) { reading = for_head }

feed-stream_example :
    Handed open_session (1 ∷ 2 ∷ []) frames (feed 6 open_session (stream frames ++ (1 ∷ 2 ∷ [])))
unfolding open_session
feed-stream_example =
    feed-stream frames 6 open_session (1 ∷ 2 ∷ []) (omega arith) refl (omega arith) (omega arith)

two_requests : length (sent_requests [] frames) ≡ 2
unfolding sent_requests
two_requests = refl

abbrev hello : MessageFormat
unfolding packed message_format
hello = packed (record { magic = 7; len = 0; cmd = 201 }) (text "hi") (message_format junk)

abbrev one_written : Link
one_written = record {
  session = Session.write hello (new_session junk);
  sent = [];
  submitted = hello ∷ [];
  broken = false;
}

path_to_one_written : Reach (new_link junk) one_written
path_to_one_written = next here (writes hello)

writes_in_order_example :
    (one_written.sent ++ map wire one_written.session.write_msgs ≡ map wire one_written.submitted)
    × (length one_written.session.writing ≤ 1)
writes_in_order_example = writes_in_order junk one_written path_to_one_written

queue_drains_example :
    (d : Link) × Reach one_written d
    × (d.session.write_msgs ≡ [])
    × (d.sent ≡ map wire one_written.submitted)
queue_drains_example = queue_drains junk one_written path_to_one_written refl

abbrev failed_once : Link
failed_once = record one_written {
  session = (Session.handle_write true (record one_written.session { writing = [] })).0;
  broken = true;
}

path_to_failed_once : Reach (new_link junk) failed_once
unfolding Session.write new_session
path_to_failed_once = next path_to_one_written (write_fails (wire hello) [] refl)

abbrev written_after : Link
written_after = record failed_once {
  session = Session.write hello failed_once.session;
  submitted = hello ∷ hello ∷ [];
}

failed_write_stalls_example :
    (written_after.sent ≡ failed_once.sent) × (written_after.session.writing ≡ [])
failed_write_stalls_example =
    failed_write_stalls junk failed_once written_after path_to_failed_once refl
      (next here (writes hello))
