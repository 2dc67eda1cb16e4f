-- ===== src/Sender/Faults.antt =====
-- Where the senders of include/system_tool.h go wrong, and the padding of their Base64.
use bserver.Base.{
  ℕ, zero, suc, ◌+◌, ◌-◌, ◌*◌, ◌/◌, ◌%◌, ◌^◌, ◌≤◌, ◌<◌, ◌≡◌, ◌≢◌, ◌↔◌, ◌⊎◌, inl, inr, refl, ap, ◌∙◌,
  true, not, List, [], ◌∷◌, ◌++◌, Bytes, is_empty, length, length-append, length-replicate, take,
  drop, All, ◌==◌, arith,
}
use bserver.Message.{
  Head, MessageFormat, Status, done, failed, max_body_length, message_format, decode_header,
  fill_head,
}
use bserver.Message.{read_word, size_of_int}
use bserver.Message.Frame.{length-resize}
use bserver.Session.Framing.{stream}
use bserver.Session.FrameReads.{IsFrame}
use bserver.Sender.{
  Tool, Socket, closed, overran, ends, padding, base64_encode, read_body, read_answer, connected,
  c_str, service_content, size_rounds, test_send_service_request,
}
use bserver.Sender.Answered.{request_frames, exchanges-answered, socket_eq}

-- The header of an answer, as `decode_header` reads it.
abbrev pub answer_header : Tool → Socket → MessageFormat
answer_header tool s = fill_head (take 12 s.incoming) (message_format tool.junk)

decode_header-refused :
    (m : MessageFormat)
    → m.body ≡ []
    → (decode_header m).0 ≡ failed
    → (length (decode_header m).2.body ≡ 0) × (max_body_length < (decode_header m).2.body_length)
unfolding decode_header
decode_header-refused m e f = ground arith

decode_header-room :
    (m : MessageFormat)
    → (decode_header m).0 ≡ done
    → length (decode_header m).2.body ≡ 12 + (decode_header m).2.body_length
unfolding decode_header
decode_header-room m e =
    ground (arith, length-resize (12 + size_of_int (read_word (drop 4 m.head))) m.body)

Status-cases : (x : Status) → (x ≡ done) ⊎ (x ≡ failed)
Status-cases done = inl refl
Status-cases failed = inr refl

length-drop : (n : ℕ) (s : Bytes) → length (drop n s) ≡ length s - n
length-drop zero s = omega arith
length-drop (suc n) [] = omega arith
length-drop (suc n) (c ∷ s) = omega (arith, length-drop n s)

is_empty-length : (s : Bytes) → is_empty s ≡ (length s == 0)
is_empty-length [] = refl
is_empty-length (c ∷ s) = ground arith

-- A sender writes behind the end of the buffer for an answer exactly when `decode_header` refuses the
-- header of the answer, if anything follows that header: nobody looks at what `decode_header` returns.
pub read_answer-overruns :
    (tool : Tool) (s : Socket)
    → 12 < length s.incoming
    → (read_answer tool s ≡ ends overran s) ↔ ((decode_header (answer_header tool s)).0 ≡ failed)
unfolding read_answer read_body fill_head message_format
read_answer-overruns tool s more =
    let m = answer_header tool s in
    let follows = length-drop 12 s.incoming in
    elim (Status-cases (decode_header m).0) [
      | inl taken ↦
          ((λ e. absurd (ground (arith, decode_header-room m taken))), (λ f. absurd (ground arith)))
      | inr refused ↦ ((λ e. refused), (λ f. ground (arith, decode_header-refused m refl refused)))
    ]

c_str-cut : (a b : Bytes) → All (λ c. c ≢ 0) a → c_str (a ++ (0 ∷ b)) ≡ a
unfolding c_str
c_str-cut [] b h = refl
c_str-cut (c ∷ a) b (n, h) = ground (arith, c_str-cut a b h)

-- The request of `test_send_service_request` is cut at its first zero byte, although protobuf writes such
-- bytes: a server that answers every round is sent the part before it, `count` times.
pub test_send_service_request_cut :
    (tool : Tool) (ip port content cid_prex a b : Bytes) (count i cmd : ℕ)
    (answers : List (Head × Bytes)) (rest : Bytes)
    → service_content tool cid_prex ≡ a ++ (0 ∷ b)
    → All (λ c. c ≢ 0) a
    → tool.connects ip port ≡ true
    → count < 2 ^ 31
    → length answers ≡ count
    → All IsFrame answers
    → let socket : Socket = record { sent = []; incoming = stream answers ++ rest; answered = 0 } in
      test_send_service_request tool ip port content cid_prex count i cmd socket ≡ (
        closed,
        record {
          sent = stream (request_frames tool cmd (λ _. a) count 0);
          incoming = rest;
          answered = count;
        },
      )
unfolding test_send_service_request connected
test_send_service_request_cut tool ip port content cid_prex a b count i cmd answers rest e nonzero
      up few n ok =
    let socket : Socket = record { sent = []; incoming = stream answers ++ rest; answered = 0 } in
    let cut : c_str (service_content tool cid_prex) ≡ a = ap c_str e ∙ c_str-cut a b nonzero in
    let rounds : size_rounds count ≡ count = unfold size_rounds in ground arith in
    rw (up, rounds, cut, ← n)
      (exchanges-answered tool cmd (λ _. a) answers 0 rest socket ok refl
        ∙ socket_eq rest refl (omega arith))

-- Where the iterators give six bits of the input for each byte, rounded up, the output of `Base64Encode` is
-- a multiple of four bytes long, with two bytes of padding at most, and what it returns says whether the
-- input was empty.
pub base64_encode-blocks :
    (tool : Tool) (input : Bytes)
    → length (tool.encode6 input) ≡ (8 * length input + 5) / 6
    → (length (base64_encode tool input).0 % 4 ≡ 0)
      × (length (padding input) ≤ 2)
      × ((base64_encode tool input).1 ≡ not (is_empty input))
unfolding base64_encode padding
base64_encode-blocks tool input e =
    let pad = (3 - length input % 3) % 3 in
    let padded = length-append (tool.encode6 input) (padding input) in
    let count : length (padding input) ≡ pad = length-replicate pad b'=' in
    (
      omega arith,
      omega arith,
      ground (arith, is_empty-length (tool.encode6 input ++ padding input), is_empty-length input),
    )
