-- ===== src/Message/Tests.antt =====
-- Runs of include/message_format.h and src/message_format.cpp on small frames.
use bserver.Base.{◌+◌, ◌≤◌, ◌≡◌, ◌↔◌, refl, [], ◌∷◌, text, drop, arith}
use bserver.Message.{
  Head, MessageFormat, done, failed, max_body_length, message_format, decode_header, packed,
  fill_head, fill_body, payload, read_word,
}
use bserver.Message.Frame.{header_bytes, decode_header_iff, payload-fill_body}

abbrev junk : Head
junk = record { magic = 1; len = 2; cmd = 3 }

abbrev request : Head
request = record { magic = 7; len = 0; cmd = 200 }

abbrev reader : MessageFormat
unfolding message_format
reader = message_format junk

frame_of_hi :
    (packed request (text "hi") (message_format junk)).body
    ≡ 0 ∷ 0 ∷ 0 ∷ 7 ∷ 0 ∷ 0 ∷ 0 ∷ 14 ∷ 0 ∷ 0 ∷ 0 ∷ 200 ∷ 104 ∷ 105 ∷ []
unfolding packed
frame_of_hi = refl

-- A header whose length is -1.
abbrev negative : MessageFormat
negative =
    fill_head (0 ∷ 0 ∷ 0 ∷ 0 ∷ 255 ∷ 255 ∷ 255 ∷ 255 ∷ 0 ∷ 0 ∷ 0 ∷ 1 ∷ []) (message_format junk)

negative_refused : (decode_header negative).0 ≡ failed
unfolding decode_header fill_head
negative_refused = refl

decode_header_iff_example : ((decode_header negative).0 ≡ done) ↔ (
    (12 ≤ read_word (drop 4 negative.head))
    × (read_word (drop 4 negative.head) ≤ 12 + max_body_length))
decode_header_iff_example = decode_header_iff negative (unfold fill_head read_word in omega arith)

accepted : MessageFormat
accepted = fill_head (header_bytes request (text "hi")) (message_format junk)

payload-fill_body_example :
    payload (fill_body (text "hi") (record (message_format junk) { body_length = 2 })) ≡ text "hi"
payload-fill_body_example =
    payload-fill_body (text "hi") (record (message_format junk) { body_length = 2 }) refl
