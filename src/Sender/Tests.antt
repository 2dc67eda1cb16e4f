-- ===== src/Sender/Tests.antt =====
-- Runs of the senders of include/system_tool.h.
use bserver.Base.{
  ℕ, ◌+◌, ◌*◌, ◌/◌, ◌≤◌, ◌≡◌, ◌↔◌, refl, true, [], ◌∷◌, ◌++◌, Bytes, text, decimal, length,
  replicate, arith,
}
use bserver.Message.{Head, failed, decode_header, fill_head}
use bserver.Session.{Session, new_session, for_head}
use bserver.Session.Framing.{stream, Handed}
use bserver.Session.Reads.{feed}
use bserver.Sender.{
  Tool, Socket, closed, overran, ends, padding, base64_encode, read_answer, test_send_loop,
  loop_content, push_text,
}
use bserver.Sender.Answered.{request_frames, test_send_loop_served}
use bserver.Sender.Faults.{answer_header, read_answer-overruns}

-- Protobuf writes a zero byte; the iterators write as many bytes as they should.
abbrev tool : Tool
tool = record {
  encode6 = λ s. replicate ((8 * length s + 5) / 6) b'A';
  rand = λ k. k;
  connects = λ ip port. true;
  serialize_push_cache_request = λ cid. cid;
  serialize_request = λ payload. payload ++ (0 ∷ 7 ∷ []);
  junk = record { magic = 1; len = 2; cmd = 3 };
}

abbrev answer : Head × Bytes
answer = (record { magic = 0; len = 0; cmd = 9 }, 5 ∷ 6 ∷ [])

abbrev waiting_session : Session
waiting_session = record (new_session tool.junk) { reading = for_head }

abbrev socket : Bytes → Socket
socket incoming = record { sent = []; incoming = incoming; answered = 0 }

loop_short : (j : ℕ) → length (loop_content tool (text "u") 7 0 j) ≤ 1024 * 1024
unfolding loop_content push_text base64_encode padding decimal
loop_short j = omega arith

test_send_loop_served_example :
    let (ending, after) =
      test_send_loop tool
        (text "a")
        (text "80")
        (text "c")
        (text "u")
        2
        0
        7
        0
        200
        (socket (stream (answer ∷ answer ∷ []) ++ (1 ∷ []))) in
    (ending ≡ closed)
    × (after.answered ≡ 2)
    × (after.incoming ≡ 1 ∷ [])
    × Handed waiting_session []
        (request_frames tool 200 (loop_content tool (text "u") 7 0) 2 0)
        (feed (2 * 2) waiting_session after.sent)
test_send_loop_served_example =
    test_send_loop_served tool (text "a") (text "80") (text "c") (text "u") 2 0 7 0 200
      (answer ∷ answer ∷ []) (1 ∷ []) waiting_session (omega arith) (omega arith) loop_short refl
      (omega arith) refl ((omega arith, omega arith), ((omega arith, omega arith), tt)) refl

-- The length of the answer says 2 ^ 24.
abbrev large_answer : Bytes
large_answer = 0 ∷ 0 ∷ 0 ∷ 0 ∷ 1 ∷ 0 ∷ 0 ∷ 0 ∷ 0 ∷ 0 ∷ 0 ∷ 9 ∷ 5 ∷ []

large_answer_refused : (decode_header (answer_header tool (socket large_answer))).0 ≡ failed
unfolding decode_header fill_head
large_answer_refused = refl

read_answer-overruns_example :
    (read_answer tool (socket large_answer) ≡ ends overran (socket large_answer))
    ↔ ((decode_header (answer_header tool (socket large_answer))).0 ≡ failed)
read_answer-overruns_example = read_answer-overruns tool (socket large_answer) (omega arith)
