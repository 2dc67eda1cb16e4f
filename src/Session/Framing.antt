-- ===== src/Session/Framing.antt =====
-- A stream of frames comes out of the reader of src/session_base.cpp as the requests that were sent.
use bserver.Base.{
  false, if◌then◌else◌, ◌==◌, ℕ, zero, suc, ◌*◌, ◌≤◌, ◌<◌, ◌≡◌, refl, ◌∙◌, List, [], ◌∷◌, ◌++◌,
  append_assoc, Bytes, none, length, All, ◌==◌, if◌then◌else◌, arith,
}
use bserver.Message.{Head, MessageFormat, message_head_length, fill_body}
use bserver.Message.Frame.{sent_head, header_bytes, payload-fill_body}
use bserver.Session.{Session, for_head, Effect, push_task, on_close, after_body_get}
use bserver.Session.Reads.{complete_read, feed, Request, requests, closes}
use bserver.Session.FrameReads.{IsFrame, half_read, whole_read, prepend, feed-frame}

-- The bytes of the frames that the peer sends, one after another.
unfoldable pub stream : List (Head × Bytes) → Bytes
stream [] = []
stream ((h, body) ∷ ms) = header_bytes h body ++ (body ++ stream ms)

-- What a worker is to see of them: all but the answers to keepalives.
unfoldable pub sent_requests : Bytes → List (Head × Bytes) → List Request
sent_requests id [] = []
sent_requests id ((h, body) ∷ ms) =
    let rest = sent_requests id ms in
    if h.cmd == 1 then rest else record { head = sent_head h body; bytes = body; id = id } ∷ rest

requests-append : (es fs : List Effect) → requests (es ++ fs) ≡ requests es ++ requests fs
unfolding requests
requests-append [] fs = refl
requests-append (push_task m ∷ es) fs = rw (requests-append es fs)
requests-append (on_close ∷ es) fs = requests-append es fs

requests-frame :
    (s : Session) (h : Head) (body : Bytes) (ms : List (Head × Bytes)) (es : List Effect)
    → requests es ≡ sent_requests s.read_msg.remote_id ms
    → requests (after_body_get (whole_read s h body).read_msg ++ es)
      ≡ sent_requests s.read_msg.remote_id ((h, body) ∷ ms)
unfolding requests sent_requests after_body_get whole_read half_read fill_body
requests-frame s h body ms es e = ground (arith, payload-fill_body body (half_read s h body))

closes-frame : (m : MessageFormat) (es : List Effect) → closes (after_body_get m ++ es) ≡ closes es
unfolding closes after_body_get
closes-frame m es = ground arith

-- The reader waits for a header, with `rest` as the bytes that it could not use yet, and has handed
-- on the requests of `ms` without closing,
-- and the messages to write are the same.
abbrev pub Handed : Session → Bytes → List (Head × Bytes) → Session × Bytes × List Effect → Type 0
Handed s rest ms (t, left, es) =
    (t.reading ≡ for_head)
    × (t.is_shut ≡ s.is_shut)
    × (t.write_msgs ≡ s.write_msgs)
    × (left ≡ rest)
    × (closes es ≡ false)
    × (requests es ≡ sent_requests s.read_msg.remote_id ms)

feed-rest :
    (n : ℕ) (s : Session) (rest : Bytes)
    → s.reading ≡ for_head
    → length rest < message_head_length
    → feed n s rest ≡ (s, rest, [])
unfolding feed
feed-rest zero s rest e h = refl
feed-rest (suc n) s rest e h = ground (arith, short)
  where
    short : complete_read for_head s rest ≡ none
    short = unfold complete_read in ground arith

prepend-Handed :
    (s : Session) (h : Head) (body rest : Bytes) (ms : List (Head × Bytes))
    (r : Session × Bytes × List Effect)
    → Handed (whole_read s h body) rest ms r
    → Handed s rest ((h, body) ∷ ms) (prepend (after_body_get (whole_read s h body).read_msg) r)
prepend-Handed s h body rest ms (t, left, es) (a, b, x, c, o, d) = (
  a,
  b ∙ (unfold whole_read in refl),
  x ∙ (unfold whole_read in refl),
  c,
  closes-frame (whole_read s h body).read_msg es ∙ o,
  requests-frame s h body ms es (d ∙ (unfold whole_read half_read fill_body in refl)),
)

pub regroup : (a b c d : Bytes) → (a ++ (b ++ c)) ++ d ≡ a ++ (b ++ (c ++ d))
regroup a b c d = simp append_assoc

-- Frames that come in one after another, followed by part of a header, are handed on one by one: the
-- reader ends where it began, still open and with the same messages to write, and the requests are
-- those sent, without keepalive answers.
pub feed-stream :
    (ms : List (Head × Bytes)) (n : ℕ) (s : Session) (rest : Bytes)
    → All IsFrame ms
    → s.reading ≡ for_head
    → length rest < message_head_length
    → 2 * length ms ≤ n
    → Handed s rest ms (feed n s (stream ms ++ rest))
unfolding stream sent_requests requests closes
feed-stream [] n s rest ok e short h =
    rw (feed-rest n s rest e short) (e, refl, refl, refl, refl, refl)
feed-stream ((h, body) ∷ ms) n s rest (w, ok) e short k =
    let more = stream ms ++ rest in
    let (m, room, step) = feed-frame body n s h more w e (omega arith) in
    rw (regroup (header_bytes h body) body (stream ms) rest, step)
      (prepend-Handed s h body rest ms (feed m (whole_read s h body) more) (
        feed-stream ms m (whole_read s h body) rest ok (unfold whole_read in refl) short
          (omega arith)))
