-- ===== src/Session/Reads.antt =====
-- The reads of src/session_base.cpp over a stream of bytes: each `async_read` completes when the bytes
-- that it asks for have come.
use bserver.Base.{
  ℕ, zero, suc, Bool, true, false, List, [], ◌∷◌, ◌++◌, Bytes, Option, none, some, length, take,
  drop, leb, if◌then◌else◌,
}
use bserver.Message.{Head, message_head_length, meet_head, fill_head, fill_body, payload}
use bserver.Session.{
  Session, Waiting, for_head, for_body, no_read, Effect, push_task, on_close, handle_read_header,
  handle_read_body,
}

-- One completion of the read that waits, `none` if the bytes are not there.
unfoldable pub complete_read : Waiting → Session → Bytes → Option ((Session × List Effect) × Bytes)
complete_read no_read s bs = none
complete_read for_head s bs =
    if leb message_head_length (length bs)
    then some (
      handle_read_header false (record s {
        reading = no_read;
        read_msg = fill_head (take message_head_length bs) s.read_msg;
      }),
      drop message_head_length bs,
    )
    else none
complete_read (for_body n) s bs =
    if leb n (length bs)
    then some (
      handle_read_body false
          (record s { reading = no_read; read_msg = fill_body (take n bs) s.read_msg }),
      drop n bs,
    )
    else none

-- All completions that the bytes allow, with the bytes that are left and what the handlers did.
unfoldable pub feed : ℕ → Session → Bytes → Session × Bytes × List Effect
feed zero s bs = (s, bs, [])
feed (suc f) s bs = elim (complete_read s.reading s bs) [
  | none ↦ (s, bs, [])
  | some ((t, es), more) ↦ (let (u, rest, fs) = feed f t more in (u, rest, es ++ fs))
]

-- A request as the task queue hands it to a worker.
pub record Request : Type 0 where
  pub head : Head
  pub bytes : Bytes
  pub id : Bytes

unfoldable pub requests : List Effect → List Request
requests [] = []
requests (push_task m ∷ es) =
    record { head = meet_head m; bytes = payload m; id = m.remote_id } ∷ requests es
requests (on_close ∷ es) = requests es

-- Whether one of the handlers closed the session.
unfoldable pub closes : List Effect → Bool
closes [] = false
closes (push_task m ∷ es) = closes es
closes (on_close ∷ es) = true
