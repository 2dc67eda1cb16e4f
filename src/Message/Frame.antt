-- ===== src/Message/Frame.antt =====
-- What a message looks like on the wire, and which headers a reader takes.
use bserver.Base.{
  ℕ, ◌+◌, ◌%◌, ◌^◌, ◌<◌, ◌≤◌, ◌≡◌, ◌↔◌, refl, ◌++◌, Bytes, length, drop, replicate, length-append,
  length-replicate, take-append, length-take_of_le, arith,
}
use bserver.Message.Words.{
  word_bytes, read_word, size_of_int, read_word-word_bytes, size_of_int_small,
}
use bserver.Message.{
  Head, MessageFormat, done, message_head_length, max_body_length, resize, total_length,
  decode_header, packed, fill_head, fill_body, payload,
}

-- The three words of a header are 32-bit patterns.
pub record IsHead (h : Head) : Type 0 where
  pub magic : h.magic < 2 ^ 32
  pub len : h.len < 2 ^ 32
  pub cmd : h.cmd < 2 ^ 32

-- The header that arrives when `h` is sent with a body: the length is the frame's, not `h.len`.
abbrev pub sent_head : Head → Bytes → Head
sent_head h body = record h { len = message_head_length + length body }

pub header_bytes : Head → Bytes → Bytes
header_bytes h body =
    word_bytes h.magic
    ++ (word_bytes ((message_head_length + length body) % 2 ^ 32) ++ word_bytes h.cmd)

pub length-header_bytes : (h : Head) (body : Bytes) → length (header_bytes h body) ≡ 12
unfolding header_bytes word_bytes
length-header_bytes h body = refl

pub body-packed :
    (h : Head) (body : Bytes) (m : MessageFormat)
    → (packed h body m).body ≡ header_bytes h body ++ body
unfolding packed header_bytes
body-packed h body m = refl

-- The three words that a reader takes from the bytes of a header.
module _ (h : Head) (body : Bytes) (w : IsHead h) (small : length body ≤ max_body_length) where
  read-magic : read_word (header_bytes h body) ≡ h.magic
  unfolding header_bytes
  read-magic = read_word-word_bytes h.magic _ w.magic

  read-len : read_word (drop 4 (header_bytes h body)) ≡ message_head_length + length body
  unfolding header_bytes word_bytes read_word
  read-len = omega arith

  read-cmd : read_word (drop 8 (header_bytes h body)) ≡ h.cmd
  unfolding header_bytes word_bytes read_word
  read-cmd = omega (arith, w.cmd)

  read-size : size_of_int (read_word (drop 4 (header_bytes h body))) ≡ length body
  read-size = rw read-len (size_of_int_small (length body) (omega arith))

  pub decode-header_bytes :
      (m : MessageFormat)
      → decode_header (fill_head (header_bytes h body) m) ≡ (
        done,
        sent_head h body,
        record m {
          head = header_bytes h body;
          body = resize (message_head_length + length body) m.body;
          body_length = length body;
          magic = h.magic;
          len = message_head_length + length body;
          cmd = h.cmd;
        },
      )
  unfolding decode_header fill_head
  decode-header_bytes m = ground (arith, read-magic, read-len, read-cmd, read-size)

-- A reader takes a header exactly when its length, read as a signed number, is that of a header and
-- a body of at most a megabyte.
pub decode_header_iff :
    (m : MessageFormat)
    → read_word (drop 4 m.head) < 2 ^ 32
    → ((decode_header m).0 ≡ done)
      ↔ ((12 ≤ read_word (drop 4 m.head)) × (read_word (drop 4 m.head) ≤ 12 + max_body_length))
unfolding decode_header size_of_int
decode_header_iff m w = ground arith

pub length-resize : (n : ℕ) (s : Bytes) → length (resize n s) ≡ n
unfolding resize
length-resize n s =
    length-take_of_le n (s ++ replicate n 0)
      (omega (arith, length-append s (replicate n 0), length-replicate n (◌+◌ 0 0)))

-- After a header that was taken, the buffer of the body holds a frame, and the body fits the limit.
pub decode_header_fits :
    (m : MessageFormat)
    → (decode_header m).0 ≡ done
    → (length (decode_header m).2.body ≡ total_length (decode_header m).2)
      × ((decode_header m).2.body_length ≤ max_body_length)
unfolding decode_header total_length
decode_header_fits m h =
    ground (arith, length-resize (12 + size_of_int (read_word (drop 4 m.head))) m.body)

-- The bytes that `async_write` takes from a packed message are the frame, neither more nor fewer.
pub length-packed :
    (h : Head) (body : Bytes) (m : MessageFormat)
    → length (packed h body m).body ≡ total_length (packed h body m)
unfolding packed total_length word_bytes
length-packed h body m = omega arith

-- The reader hands on the body that arrived.
pub payload-fill_body :
    (s : Bytes) (m : MessageFormat) → length s ≡ m.body_length → payload (fill_body s m) ≡ s
unfolding payload fill_body
payload-fill_body s m e = rw (← e) (take-append s (drop (length s) m.body))
