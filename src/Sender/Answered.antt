-- ===== src/Sender/Answered.antt =====
-- The senders of include/system_tool.h against a server whose answers can be read, and what the reader of
-- src/session_base.cpp makes of their requests.
use bserver.Base.{
  ℕ, zero, suc, ◌+◌, ◌*◌, ◌^◌, ◌≤◌, ◌<◌, ◌≡◌, refl, sym, ap, ◌∙◌, true, false, List, [], ◌∷◌, ◌++◌,
  append-nil, append_assoc, Bytes, length, length-append, take, take-length, drop, drop-append, All,
  ltb, arith,
}
use bserver.Message.{Head, MessageFormat, max_body_length, message_format, packed, resize}
use bserver.Message.Frame.{
  header_bytes, length-header_bytes, body-packed, length-packed, length-resize, decode-header_bytes,
}
use bserver.Session.{Session, wire, for_head}
use bserver.Session.Framing.{regroup, stream, feed-stream, Handed}
use bserver.Session.FrameReads.{IsFrame, take-length_of, drop-length_of}
use bserver.Session.Reads.{feed}
use bserver.Sender.{
  Tool, Socket, Ending, closed, next, write_request, read_body, read_answer, exchanges, connected,
  loop_content, test_send_loop,
}

-- The frames of a sender's requests.
abbrev pub request_head : Tool → ℕ → Head
request_head tool cmd = record { magic = 0; len = tool.junk.len; cmd = cmd }

unfoldable pub request_frames :
    Tool → (cmd : ℕ) → (ℕ → Bytes) → (rounds i : ℕ) → List (Head × Bytes)
request_frames tool cmd content zero i = []
request_frames tool cmd content (suc rounds) i =
    (request_head tool cmd, content i) ∷ request_frames tool cmd content rounds (suc i)

wire-packed :
    (h : Head) (body : Bytes) (m : MessageFormat)
    → wire (packed h body m) ≡ header_bytes h body ++ body
unfolding wire
wire-packed h body m =
    ap (λ n. take n (packed h body m).body) (sym (length-packed h body m))
    ∙ take-length (packed h body m).body
    ∙ body-packed h body m

read_body-fits :
    (m : MessageFormat) (body more : Bytes) (s : Socket)
    → m.body_length ≡ length body
    → length m.body ≡ 12 + length body
    → read_body m (body ++ more) s ≡ next (record s { incoming = more; answered = suc s.answered })
unfolding read_body
read_body-fits m body more s a b = ground (arith, length-append body more, drop-append body more)

read_answer-frame :
    (tool : Tool) (s : Socket) (h : Head) (body more : Bytes)
    → IsFrame (h, body)
    → s.incoming ≡ header_bytes h body ++ (body ++ more)
    → read_answer tool s ≡ next (record s { incoming = more; answered = suc s.answered })
unfolding read_answer
read_answer-frame tool s h body more (w, fits) e =
    let e12 = length-header_bytes h body in
    let long : ltb (length s.incoming) 12 ≡ false =
      ground (arith, length-append (header_bytes h body) (body ++ more)) in
    let m : MessageFormat = record (message_format tool.junk) {
      head = header_bytes h body;
      body = resize (12 + length body) (message_format tool.junk).body;
      body_length = length body;
      magic = h.magic;
      len = 12 + length body;
      cmd = h.cmd;
    } in
    let front = ap (take 12) e ∙ take-length_of 12 (header_bytes h body) (body ++ more) e12 in
    let back = ap (drop 12) e ∙ drop-length_of 12 (header_bytes h body) (body ++ more) e12 in
    rw
      (read_answer, long, front, back, decode-header_bytes h body w fits (message_format tool.junk))
      (read_body-fits m body more s refl
        (length-resize (12 + length body) (message_format tool.junk).body))

-- What a socket is like after a number of rounds that were answered.
abbrev after : Tool → ℕ → (ℕ → Bytes) → (rounds i : ℕ) → (rest : Bytes) → Socket → Socket
after tool cmd content rounds i rest s = record s {
  sent = s.sent ++ stream (request_frames tool cmd content rounds i);
  incoming = rest;
  answered = s.answered + rounds;
}

pub socket_eq :
    {a b : Bytes} {m n : ℕ} (rest : Bytes)
    → a ≡ b
    → m ≡ n
    → ◌≡◌ {A = Ending × Socket}
        (closed, record { sent = a; incoming = rest; answered = m })
        (closed, record { sent = b; incoming = rest; answered = n })
socket_eq rest e f = cc

after-suc :
    (tool : Tool) (cmd : ℕ) (content : ℕ → Bytes) (rounds i : ℕ) (rest : Bytes) (s : Socket)
    → ◌≡◌ {A = Ending × Socket}
        (
          closed,
          after tool cmd content rounds
              (suc i)
              rest
              (record (write_request tool cmd (content i) s) { answered = suc s.answered }),
        )
        (closed, after tool cmd content (suc rounds) i rest s)
unfolding request_frames stream write_request
after-suc tool cmd content rounds i rest s =
    let h = request_head tool cmd in
    let frames = stream (request_frames tool cmd content rounds (suc i)) in
    socket_eq rest
      (ap (λ w. (s.sent ++ w) ++ frames) (wire-packed h (content i) (message_format tool.junk))
        ∙ append_assoc s.sent (header_bytes h (content i) ++ content i) frames
        ∙ ap (λ w. s.sent ++ w) (append_assoc (header_bytes h (content i)) (content i) frames))
      (omega arith)

pub exchanges-answered :
    (tool : Tool) (cmd : ℕ) (content : ℕ → Bytes) (answers : List (Head × Bytes)) (i : ℕ)
    (rest : Bytes) (s : Socket)
    → All IsFrame answers
    → s.incoming ≡ stream answers ++ rest
    → exchanges tool cmd content (length answers) i s
      ≡ (closed, after tool cmd content (length answers) i rest s)
unfolding exchanges request_frames stream write_request
exchanges-answered tool cmd content [] i rest s ok e = ground (arith, append-nil s.sent)
exchanges-answered tool cmd content ((h, body) ∷ answers) i rest s (one, ok) e =
    let more = stream answers ++ rest in
    let t = write_request tool cmd (content i) s in
    let grouped = e ∙ regroup (header_bytes h body) body (stream answers) rest in
    let u : Socket = record t { incoming = more; answered = suc s.answered } in
    rw (exchanges, read_answer-frame tool t h body more one grouped)
      (exchanges-answered tool cmd content answers (suc i) rest u ok refl
        ∙ after-suc tool cmd content (length answers) i rest s)

request_frames-IsFrame :
    (tool : Tool) (cmd : ℕ) (content : ℕ → Bytes) (rounds i : ℕ)
    → tool.junk.len < 2 ^ 32
    → cmd < 2 ^ 32
    → ((j : ℕ) → length (content j) ≤ max_body_length)
    → All IsFrame (request_frames tool cmd content rounds i)
unfolding request_frames
request_frames-IsFrame tool cmd content zero i len small fits = tt
request_frames-IsFrame tool cmd content (suc rounds) i len small fits = (
  (record { magic = omega arith; len = len; cmd = small }, fits i),
  request_frames-IsFrame tool cmd content rounds (suc i) len small fits,
)

length-request_frames :
    (tool : Tool) (cmd : ℕ) (content : ℕ → Bytes) (rounds i : ℕ)
    → length (request_frames tool cmd content rounds i) ≡ rounds
unfolding request_frames
length-request_frames tool cmd content zero i = refl
length-request_frames tool cmd content (suc rounds) i =
    ap suc (length-request_frames tool cmd content rounds (suc i))

module _ (tool : Tool) (cmd : ℕ) (content : ℕ → Bytes) (len : tool.junk.len < 2 ^ 32)
    (small : cmd < 2 ^ 32) (fits : (j : ℕ) → length (content j) ≤ max_body_length) where
  -- What the reader of a session makes of the requests of some rounds.
  requests-Handed :
      (rounds : ℕ) (s : Session)
      → s.reading ≡ for_head
      → Handed s []
          (request_frames tool cmd content rounds 0)
          (feed (2 * rounds) s (stream (request_frames tool cmd content rounds 0)))
  requests-Handed rounds s e =
      let frames = request_frames tool cmd content rounds 0 in
      let n = length-request_frames tool cmd content rounds 0 in
      rw (append-nil (stream frames)) at (
        feed-stream frames (2 * rounds) s []
          (request_frames-IsFrame tool cmd content rounds 0 len small fits) e (omega arith)
          (omega arith))

-- `test_send_loop` against a server that answers each request with a frame: it closes its socket after
-- `count` rounds, each counted, and leaves what comes after the answers unread. The reader of a session
-- that waits for a header hands on exactly its requests, in order and with nothing left over.
pub test_send_loop_served :
    (tool : Tool) (ip port content cid_prex : Bytes) (count i start num cmd : ℕ)
    (answers : List (Head × Bytes)) (rest : Bytes) (s : Session)
    → tool.junk.len < 2 ^ 32
    → cmd < 2 ^ 32
    → ((j : ℕ) → length (loop_content tool cid_prex start num j) ≤ max_body_length)
    → tool.connects ip port ≡ true
    → count < 2 ^ 31
    → length answers ≡ count
    → All IsFrame answers
    → s.reading ≡ for_head
    → let socket : Socket = record { sent = []; incoming = stream answers ++ rest; answered = 0 } in
      let (ending, after) =
        test_send_loop tool ip port content cid_prex count i start num cmd socket in
      (ending ≡ closed)
      × (after.answered ≡ count)
      × (after.incoming ≡ rest)
      × Handed s []
          (request_frames tool cmd (loop_content tool cid_prex start num) count 0)
          (feed (2 * count) s after.sent)
unfolding test_send_loop connected
test_send_loop_served tool ip port content cid_prex count i start num cmd answers rest s len small
      fits up few e ok waits =
    let text_of = loop_content tool cid_prex start num in
    let socket : Socket = record { sent = []; incoming = stream answers ++ rest; answered = 0 } in
    let done_all = exchanges-answered tool cmd text_of answers 0 rest socket ok refl in
    let below : ltb count (2 ^ 31) ≡ true = ground arith in
    rw (up, below, ← e)
      (rw done_all (
        refl,
        omega arith,
        refl,
        requests-Handed tool cmd text_of len small fits (length answers) s waits,
      ))
