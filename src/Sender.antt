-- ===== src/Sender.antt =====
-- include/system_tool.h: the senders with which a server is tried out. Each connects, sends requests one
-- after another and reads an answer to each. The iterators of boost for Base64, `split`, `atoi`, protobuf,
-- `rand` and the sockets are parameters; an `int` is a 32-bit pattern.
pub mod Answered
pub mod Faults
pub mod Lines
mod Tests
use bserver.Base.{
  ℕ, zero, suc, ◌+◌, ◌-◌, ◌%◌, ◌^◌, Bool, true, false, not, ◌&&◌, List, [], ◌∷◌, ◌++◌, Bytes, text,
  is_empty, take, drop, length, replicate, ltb, ◌==◌, if◌then◌else◌,
}
use bserver.JsonPush.{int_text}
use bserver.Message.{
  Head, MessageFormat, message_head_length, message_format, decode_header, packed, fill_head,
}
use bserver.Session.{wire}

-- `encode6` are the iterators: six bits of the text for each byte. `rand` is what the calls of a thread
-- return, one after another; `junk` the words that a header is not given.
pub record Tool : Type 0 where
  pub encode6 : Bytes → Bytes
  pub rand : ℕ → ℕ
  pub connects : (ip port : Bytes) → Bool
  pub serialize_push_cache_request : (cid : Bytes) → Bytes
  pub serialize_request : (payload : Bytes) → Bytes
  pub junk : Head

unfoldable pub padding : Bytes → Bytes
padding input = replicate ((3 - length input % 3) % 3) b'='

-- `Base64Encode`: the output, and what it returns.
unfoldable pub base64_encode : Tool → Bytes → Bytes × Bool
unfolding padding
base64_encode tool input =
    let output = tool.encode6 input ++ padding input in (output, not (is_empty output))

-- A socket: what was sent, what is still to come in before the other end closes, and how often
-- `test_add_count` was called.
pub record Socket : Type 0 where
  pub sent : Bytes
  pub incoming : Bytes
  pub answered : ℕ

-- A sender has closed its socket, was left by an exception, or has written behind the end of a buffer.
pub data Ending : Type 0 where
  closed threw overran : Ending

pub data Round : Type 0 where
  next : Socket → Round
  ends : Ending → Socket → Round

-- The request of a round: the header is not given its length.
unfoldable pub write_request : Tool → (cmd : ℕ) → (content : Bytes) → Socket → Socket
unfolding wire packed
write_request tool cmd content s =
    let h : Head = record { magic = 0; len = tool.junk.len; cmd = cmd } in
    record s { sent = s.sent ++ wire (packed h content (message_format tool.junk)) }

-- `read` into the buffer of the body, whether or not the header was taken.
unfoldable pub read_body : MessageFormat → (rest : Bytes) → Socket → Round
read_body m rest s =
    if ltb (length m.body) m.body_length && ltb (length m.body) (length rest)
    then ends overran s
    else if ltb (length rest) m.body_length
    then ends threw s
    else next (record s { incoming = drop m.body_length rest; answered = suc s.answered })

unfoldable pub read_answer : Tool → Socket → Round
unfolding read_body
read_answer tool s =
    if ltb (length s.incoming) message_head_length
    then ends threw s
    else (let (status, h, m) =
          decode_header (fill_head (take 12 s.incoming) (message_format tool.junk)) in
        read_body m (drop 12 s.incoming) s)

-- The loop of a sender: `rounds` are left, from `i` on.
unfoldable pub exchanges :
    Tool → (cmd : ℕ) → (content : ℕ → Bytes) → (rounds i : ℕ) → Socket → Ending × Socket
unfolding write_request read_answer
exchanges tool cmd content zero i s = (closed, s)
exchanges tool cmd content (suc rounds) i s =
    elim (read_answer tool (write_request tool cmd (content i) s)) [
      | next t ↦ exchanges tool cmd content rounds (suc i) t
      | ends e t ↦ (e, t)
    ]

unfoldable pub connected :
    Tool → (ip port : Bytes) → (Socket → Ending × Socket) → Socket → Ending × Socket
connected tool ip port f s = if tool.connects ip port then f s else (threw, s)

abbrev pub positive : ℕ → Bool
positive n = ltb 0 n && ltb n (2 ^ 31)

-- How often `for(int i = 0; i < n; ++i)` runs.
abbrev pub int_rounds : ℕ → ℕ
int_rounds n = if ltb n (2 ^ 31) then n else 0

unfoldable pub random_num : Tool → (call count : ℕ) → ℕ
random_num tool call count = tool.rand call % count

-- The text of a push request, with the type and the data as they are written.
unfoldable pub push_text : (type cid content : Bytes) → Bytes
push_text type cid content =
    text "{\"type\":10, \"push_req\":{\"cid\":\""
    ++ (cid
        ++ (text "\",\"type\":"
            ++ (type
                ++ (text ",\"msgid\":123456789,\"expiry\":1234,\"data\":\""
                    ++ (content ++ text "\"}}")))))

-- The request of a round of `test_send_loop`. Its own `content` hides the parameter.
unfoldable pub loop_content : Tool → (cid_prex : Bytes) → (start num i : ℕ) → Bytes
unfolding base64_encode push_text random_num
loop_content tool cid_prex start num i =
    let n = if positive num then (start + random_num tool i num) % 2 ^ 32 else start in
    push_text (text "200") (cid_prex ++ int_text n)
      (base64_encode tool (text "{\"type\":\"test\"}")).0

unfoldable pub test_send_loop :
    Tool
    → (ip port content cid_prex : Bytes) → (count i start num cmd : ℕ) → Socket
    → Ending × Socket
unfolding loop_content connected exchanges
test_send_loop tool ip port content cid_prex count i start num cmd =
    connected tool ip port
      (exchanges tool cmd (loop_content tool cid_prex start num) (int_rounds count) 0)

-- The request of `test_send_specify`, the same in every round.
unfoldable pub specify_content : Tool → (content cid_prex : Bytes) → (i : ℕ) → Bytes
unfolding base64_encode push_text
specify_content tool content cid_prex i =
    let message =
      text "{\"title\":\"test"
      ++ (int_text i
          ++ (text "\",\"type\":\"6\", \"url\":\"http://www.baidu.com\", \"content\":\""
              ++ (content ++ (int_text i ++ text "\"}")))) in
    push_text (text "100") cid_prex (base64_encode tool message).0

unfoldable pub test_send_specify :
    Tool → (ip port content cid_prex : Bytes) → (count i cmd : ℕ) → Socket → Ending × Socket
unfolding specify_content connected exchanges
test_send_specify tool ip port content cid_prex count i cmd =
    connected tool ip port
      (exchanges tool cmd (λ _. specify_content tool content cid_prex i) (int_rounds count) 0)

-- A `std::string` that is made of `c_str()`: up to the first zero.
unfoldable pub c_str : Bytes → Bytes
c_str [] = []
c_str (c ∷ s) = let rest = c_str s in if c == 0 then [] else c ∷ rest

unfoldable pub service_content : Tool → (cid_prex : Bytes) → Bytes
service_content tool cid_prex = tool.serialize_request (tool.serialize_push_cache_request cid_prex)

-- The counter of this loop is a `size_t`, so that a negative count becomes large.
unfoldable pub size_rounds : ℕ → ℕ
size_rounds n = if ltb n (2 ^ 31) then n else 2 ^ 64 - 2 ^ 32 + n

unfoldable pub test_send_service_request :
    Tool → (ip port content cid_prex : Bytes) → (count i cmd : ℕ) → Socket → Ending × Socket
unfolding service_content connected exchanges c_str size_rounds
test_send_service_request tool ip port content cid_prex count i cmd =
    connected tool ip port
      (exchanges tool cmd (λ _. c_str (service_content tool cid_prex)) (size_rounds count) 0)
