-- ===== src/Acceptor/Names.antt =====
-- No handler of src/session_base.cpp changes the name of its session.
use bserver.Base.{◌≡◌, refl, ◌∙◌, Bool, true, false, List, [], ◌∷◌, ◌++◌, arith}
use bserver.Message.{MessageFormat, Status, done, failed}
use bserver.Session
use bserver.Session.{
  Session, Effect, push_task, on_close, new_session, write, write_front, write_next, handle_write,
  handle_read_header, handle_read_body, after_head, do_head,
}

id-write_front : (ms : List MessageFormat) (s : Session) → (write_front ms s).id ≡ s.id
unfolding write_front
id-write_front [] s = refl
id-write_front (m ∷ ms) s = refl

pub id-write : (m : MessageFormat) (s : Session) → (write m s).id ≡ s.id
unfolding write
id-write m s = ground (
  arith,
  id-write_front (s.write_msgs ++ (m ∷ []))
      (record s { write_msgs = s.write_msgs ++ (m ∷ []); inter_lock = true }),
)

id-write_next : (ms : List MessageFormat) (s : Session) → (write_next ms s).id ≡ s.id
unfolding write_next write_front
id-write_next [] s = refl
id-write_next (m ∷ ms) s = refl

pub id-handle_write : (error : Bool) (s : Session) → (handle_write error s).0.id ≡ s.id
unfolding handle_write Session.close
id-handle_write true s = refl
id-handle_write false s = id-write_next _ s

pub id-handle_read_body : (error : Bool) (s : Session) → (handle_read_body error s).0.id ≡ s.id
unfolding handle_read_body Session.close
id-handle_read_body true s = refl
id-handle_read_body false s = refl

id-after_head : (r : Status) (s : Session) → (after_head r s).0.id ≡ s.id
unfolding after_head Session.close
id-after_head failed s = refl
id-after_head done s = ground (arith, id-handle_read_body false s)

id-do_head : (s : Session) → (do_head s).1.id ≡ s.id
unfolding do_head
id-do_head s = refl

pub id-handle_read_header : (error : Bool) (s : Session) → (handle_read_header error s).0.id ≡ s.id
unfolding handle_read_header Session.close
id-handle_read_header true s = refl
id-handle_read_header false s = id-after_head (do_head s).0 (do_head s).1 ∙ id-do_head s
