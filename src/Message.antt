-- ===== src/Message.antt =====
-- include/msg_head.h, include/message_format.h and src/message_format.cpp: the frame of every message,
-- a header of three 32-bit words in network order and a body.
-- A word is its bit pattern, a number below 2 ^ 32; a `size_t` is a number below 2 ^ 64.
mod Words
pub mod Frame
mod Tests
unfoldable pub use Words.*
use bserver.Base.{
  ℕ, ◌+◌, ◌-◌, ◌*◌, ◌%◌, ◌^◌, List, [], ◌∷◌, ◌++◌, ◌||◌, Bytes, text, length, take, drop, replicate,
  ltb, if◌then◌else◌,
}

pub record Head : Type 0 where
  pub magic : ℕ
  pub len : ℕ
  pub cmd : ℕ

pub record MessageFormat : Type 0 where
  pub head : Bytes
  pub body : Bytes
  pub body_length : ℕ
  pub magic : ℕ
  pub len : ℕ
  pub cmd : ℕ
  pub remote_id : Bytes
  pub server_id : Bytes

-- What the members of `message_format` that return an `int` return: 0 or -1.
pub data Status : Type 0 where
  done failed : Status

abbrev pub message_head_length : ℕ
message_head_length = 12

abbrev pub max_body_length : ℕ
max_body_length = 1024 * 1024

-- `std::vector::resize`
unfoldable pub resize : ℕ → Bytes → Bytes
resize n s = take n (s ++ replicate n 0)

-- The constructor leaves the three words as the memory has them: `junk`.
unfoldable pub message_format : Head → MessageFormat
unfolding resize
message_format junk = record {
  head = resize 12 [];
  body = [];
  body_length = 0;
  magic = junk.magic;
  len = junk.len;
  cmd = junk.cmd;
  remote_id = [];
  server_id = [];
}

-- The member function `length()`.
unfoldable pub total_length : MessageFormat → ℕ
total_length m = message_head_length + m.body_length

unfoldable pub meet_head : MessageFormat → Head
meet_head m = record { magic = m.magic; len = m.len; cmd = m.cmd }

unfoldable pub decode_header : MessageFormat → Status × Head × MessageFormat
unfolding read_word size_of_int resize
decode_header m =
    let magic = read_word m.head in
    let len = read_word (drop 4 m.head) in
    let cmd = read_word (drop 8 m.head) in
    let size = size_of_int len in
    let m' = record m { magic = magic; len = len; cmd = cmd; body_length = size } in
    let h : Head = record { magic = magic; len = len; cmd = cmd } in
    if ltb size 0 || ltb max_body_length size
    then (failed, h, m')
    else (done, h, record m' { body = resize (message_head_length + size) m.body })

unfoldable pub encode_header : Head → Bytes → MessageFormat → MessageFormat
unfolding word_bytes
encode_header h body m = record m {
  body_length = length body;
  head =
      word_bytes h.magic
      ++ (word_bytes ((message_head_length + length body) % 2 ^ 32) ++ word_bytes h.cmd);
  body = body;
}

unfoldable pub body_combine : MessageFormat → MessageFormat
body_combine m = record m { body = m.head ++ m.body }

unfoldable pub flush : MessageFormat → MessageFormat
flush m = record m { body_length = 0 }

-- A message as every sender builds it, `encode_header` and then `body_combine`.
unfoldable pub packed : Head → Bytes → MessageFormat → MessageFormat
unfolding encode_header body_combine
packed h body m = body_combine (encode_header h body m)

-- `async_read` into `head_`, and into the first bytes of `body_`.
unfoldable pub fill_head : Bytes → MessageFormat → MessageFormat
fill_head s m = record m { head = s }

unfoldable pub fill_body : Bytes → MessageFormat → MessageFormat
fill_body s m = record m { body = s ++ drop (length s) m.body }

-- What `task_base` reads of a message: `body_length` bytes from the front of `body_`.
unfoldable pub payload : MessageFormat → Bytes
payload m = take m.body_length m.body
