-- ===== src/JsonPush.antt =====
-- src/json_parser.cpp, include/json_push_packet.h and src/json_push_packet.cpp: push packets as JSON.
-- jsoncpp is a parameter. `value["key"]` of a value that is not const enters a null under a key that is
-- missing. An exception of the library that the code does not catch is `none`.
use bserver.Base.{
  ℕ, zero, suc, ◌-◌, ◌%◌, ◌^◌, Bool, not, ◌||◌, List, [], ◌∷◌, Bytes, text, decimal, Option, none,
  some, ltb, ◌==◌, if◌then◌else◌,
}

-- `index` is the member, or null, with the value afterwards; `element` is `value[i]`. An `int` and an
-- `unsigned` is a 32-bit pattern.
pub record Json : Type 1 where
  pub Value : Type 0
  pub null : Value
  pub of_int : ℕ → Value
  pub of_unsigned : ℕ → Value
  pub of_text : Bytes → Value
  pub is_null : Value → Bool
  pub is_object : Value → Bool
  pub is_array : Value → Bool
  pub is_int : Value → Bool
  pub is_string : Value → Bool
  pub size : Value → ℕ
  pub element : Value → ℕ → Value
  pub index : Value → Bytes → Value × Value
  pub get : Value → Bytes → Value → Value
  pub set : Value → Bytes → Value → Value
  pub as_int : Value → Option ℕ
  pub as_unsigned : Value → Option ℕ
  pub as_string : Value → Option Bytes
  pub parse : Bytes → Option Value
  pub write : Value → Option Bytes

infixl 5 ◌>>=◌
abbrev pub ◌>>=◌ {ℓ κ} : {A : Type ℓ} {B : Type κ} → Option A → (A → Option B) → Option B
none >>= f = none
some a >>= f = f a

-- `std::string` of an `int`, which `lexical_cast` prints with its sign.
abbrev pub int_text : ℕ → Bytes
int_text n = if ltb n (2 ^ 31) then decimal n else b'-' ∷ decimal (2 ^ 32 - n)

-- -1 as an `int64_t`.
abbrev pub minus_one : ℕ
minus_one = 2 ^ 64 - 1

module _ (j : Json) where
  open j use {Value}

  -- `json_parser::decode`: the value, `none` for -1. Exceptions of the parser are caught.
  unfoldable pub decode : Bytes → Option Value
  decode json = elim (j.parse json) [
    | none ↦ none
    | some v ↦ if j.is_null v || not (j.is_object v) then none else some v
  ]

  -- `json_parser::encode`, which catches exceptions.
  unfoldable pub encode : Value → Bytes
  encode v = elim (j.write v) [ none ↦ [] | some s ↦ s ]

  pub record JsonPushPacket : Type 0 where
    pub value : Value
    pub packet_type : ℕ
    pub device_id : ℕ
    pub sn : Bytes
    pub pt_helper : Value

  -- A field of `init_packet_type`: the member if it has the kind, else what the packet holds.
  unfoldable pub read_member :
      {A : Type 0}
      → (Value → Bool)
      → (Value → Option A)
      → (missing : Value) → Bytes
      → A
      → Value
      → Option (A × Value)
  read_member has_kind convert missing key old v =
      let (m, v') = j.index v key in
      if has_kind m then (do a ← convert (j.get v' key missing); some (a, v')) else some (old, v')

  -- The packet's part under `push_req` or `push_resp`, by its type.
  unfoldable pub choose_helper : JsonPushPacket → JsonPushPacket
  choose_helper p =
      if p.packet_type == 10
      then (let (m, v) = j.index p.value (text "push_req") in record p { pt_helper = m; value = v })
      else if p.packet_type == 11
      then (let (m, v) = j.index p.value (text "push_resp") in
          record p { pt_helper = m; value = v })
      else p

  unfoldable pub init_packet_type : JsonPushPacket → Option JsonPushPacket
  unfolding read_member choose_helper
  init_packet_type p = do
    (t, v1) ← read_member j.is_int j.as_int (j.of_int 0) (text "type") p.packet_type p.value
    (d, v2) ← read_member j.is_int j.as_int (j.of_int 1) (text "device") p.device_id v1
    (s, v3) ← read_member j.is_string j.as_string (j.of_text []) (text "sn") p.sn v2
    some (choose_helper (record p { packet_type = t; device_id = d; sn = s; value = v3 }))

  -- The constructor; `value_` is null where nothing was parsed.
  unfoldable pub json_push_packet : Bytes → Option JsonPushPacket
  unfolding decode init_packet_type
  json_push_packet json =
      let empty : JsonPushPacket = record {
        value = j.null;
        packet_type = 0;
        device_id = 1;
        sn = [];
        pt_helper = j.null;
      } in
      elim (decode json) [
        | none ↦ some empty
        | some v ↦ init_packet_type (record empty { value = v })
      ]

  -- The loop over an array of clients: `rounds` are left, from `i` on.
  unfoldable pub elements : Value → (rounds i : ℕ) → Option (List Bytes)
  elements v zero i = some []
  elements v (suc n) i = do
    s ← j.as_string (j.element v i)
    rest ← elements v n (suc i)
    some (s ∷ rest)

  -- The members that read `pt_helper_` give their result, and the value as they leave it.
  unfoldable pub cid : Value → Option (List Bytes × Value)
  unfolding elements
  cid helper =
      if j.size helper == 0
      then some ([], helper)
      else (let (m, helper') = j.index helper (text "cid") in
          if j.is_array m then (do cids ← elements m (j.size m) 0; some (cids, helper')) else (do
            s ← j.as_string (j.get helper' (text "cid") (j.of_text []))
            some (s ∷ [], helper')))

  unfoldable pub type : Value → Option (Bytes × Value)
  type helper =
      if j.size helper == 0
      then some ([], helper)
      else (let (m, helper') = j.index helper (text "type") in
          if j.is_string m
          then (do s ← j.as_string (j.get helper' (text "type") (j.of_text [])); some (s, helper'))
          else if j.is_int m
          then (do
            n ← j.as_int (j.get helper' (text "type") (j.of_int 0))
            some (int_text n, helper'))
          else some ([], helper'))

  -- `msgid` and `expiry`.
  unfoldable pub unsigned_member : Bytes → Value → Option ℕ
  unsigned_member key helper =
      if j.size helper == 0 then some minus_one else j.as_unsigned (j.get helper key (j.of_int 0))

  unfoldable pub msgid : Value → Option ℕ
  unfolding unsigned_member
  msgid helper = unsigned_member (text "msgid") helper

  unfoldable pub expiry : Value → Option ℕ
  unfolding unsigned_member
  expiry helper = unsigned_member (text "expiry") helper

  unfoldable pub push_data : Value → Option Bytes
  push_data helper =
      if j.size helper == 0
      then some []
      else j.as_string (j.get helper (text "data") (j.of_text []))

  -- The value that `to_push_packet_response` writes.
  unfoldable pub response_value : (cid type : Bytes) (msgid : ℕ) → Value
  response_value cid type msgid =
      let r1 = j.set j.null (text "cid") (j.of_text cid) in
      let r2 = j.set r1 (text "type") (j.of_text type) in
      let r3 = j.set r2 (text "msgid") (j.of_unsigned (msgid % 2 ^ 32)) in
      j.set (j.set j.null (text "type") (j.of_int 11)) (text "push_resp") r3

  unfoldable pub to_push_packet_response : (cid type : Bytes) (msgid : ℕ) → Bytes
  unfolding encode response_value
  to_push_packet_response cid type msgid = encode (response_value cid type msgid)
