-- ===== src/Network/Frames.antt =====
-- A message on its way: the headers of outputmessage.h, `onSendMessage` and `onRecvMessage` of protocol.cpp, and what
-- connection.cpp does with the bytes that arrive. The sockets, timers and locks are the network library's.
pub mod Parts
pub mod Sending
pub mod Receiving
pub mod Arrival
pub mod RoundTrip
mod Examples
use odirion_mmoserver.Base.{
  ℕ, ◌+◌, ◌-◌, ◌^◌, Bool, true, false, not, ◌&&◌, ◌||◌, Option, none, some, List, ltb, leb, ◌==◌,
  if◌then◌else◌, u16, length, take, drop,
}
use odirion_mmoserver.Base.Int.{ℤ, pos, negsuc}
use odirion_mmoserver.Base.Bytes.{to_le, read_at, write_at}
use odirion_mmoserver.Network.Message.{
  NetworkMessage, M, max_size, get, skip_bytes, set_length, decode_header,
}
use odirion_mmoserver.Network.Xtea.{xtea_encrypt, xtea_decrypt}
use odirion_mmoserver.Network.Checksum.{adler_checksum}

pub record OutputMessage : Type 0 where
  pub message : NetworkMessage
  pub output_buffer_start : ℕ

-- `add_header<T>`, where `n` is the size of `T`; below the buffer the assertion fails.
unfoldable pub add_header : ℕ → ℕ → OutputMessage → Option OutputMessage
add_header n v o =
    let start = o.output_buffer_start - n in
    if ltb o.output_buffer_start n
    then none
    else elim (write_at o.message.buffer start (to_le n v)) [
      | none ↦ none
      | some b ↦ some (record {
        message = record o.message { buffer = b; len = u16 (o.message.len + n) };
        output_buffer_start = start;
      })
    ]

-- `writeMessageLength`.
unfoldable pub write_message_length : OutputMessage → Option OutputMessage
write_message_length o = add_header 2 o.message.len o

-- The bytes from `getOutputBuffer` on.
unfoldable pub output : OutputMessage → Option (List ℕ)
output o = read_at o.message.buffer o.output_buffer_start o.message.len

-- `addCryptoHeader`.
unfoldable pub add_crypto_header : Bool → OutputMessage → Option OutputMessage
add_crypto_header true o = elim (output o) [
  | none ↦ none
  | some bytes ↦ elim (add_header 4 (adler_checksum bytes) o) [
    | none ↦ none
    | some o' ↦ write_message_length o'
  ]
]
add_crypto_header false o = write_message_length o

-- What a protocol is set to.
pub record Protocol : Type 0 where
  pub raw_messages : Bool
  pub encryption_enabled : Bool
  pub checksum_enabled : Bool
  pub key : List ℕ

-- `XTEA_encrypt` on an output message.
unfoldable pub encrypt_output : List ℕ → OutputMessage → Option OutputMessage
encrypt_output k o = elim (xtea_encrypt k o.output_buffer_start o.message) [
  | none ↦ none
  | some (_, m) ↦ some (record o { message = m })
]

-- `onSendMessage`.
unfoldable pub on_send_message : Protocol → OutputMessage → Option OutputMessage
on_send_message p o = if p.raw_messages then some o else elim (write_message_length o) [
  | none ↦ none
  | some o1 ↦ if not p.encryption_enabled then some o1 else elim (encrypt_output p.key o1) [
    | none ↦ none
    | some o2 ↦ add_crypto_header p.checksum_enabled o2
  ]
]

-- `getBodyBuffer` sets the position.
unfoldable pub at_body : NetworkMessage → NetworkMessage
at_body m = record m { position = 2 }

-- `parseHeader`: the size of the body, or 0 where the connection is closed. The limit on packets in a second
-- is the caller's.
unfoldable pub parse_header : M ℕ
parse_header m = elim (decode_header m) [
  | none ↦ none
  | some (size, m') ↦
      if size == 0 || leb (max_size - 16) size
      then some (0, m')
      else some (size, at_body (set_length (size + 2) m'))
]

-- The sum of the bytes behind the four that may hold it, 0 where there are none.
unfoldable pub body_checksum : NetworkMessage → Option ℕ
body_checksum m =
    if leb m.len (m.position + 4)
    then some 0
    else elim (read_at m.buffer (m.position + 4) (m.len - (m.position + 4))) [
      | none ↦ none
      | some bytes ↦ some (adler_checksum bytes)
    ]

-- The step of `parsePacket` on the checksum: whether it was there; if not, the position is as before.
unfoldable pub check_checksum : M Bool
check_checksum m = elim (body_checksum m) [
  | none ↦ none
  | some checksum ↦ elim (get 4 m) [
    | none ↦ none
    | some (recv_checksum, m') ↦
        if recv_checksum == checksum
        then some (true, m')
        else elim (skip_bytes (negsuc 3) m') [ none ↦ none | some (_, m'') ↦ some (false, m'') ]
  ]
]

-- `onRecvMessage`: whether the packet is parsed, and the message then.
unfoldable pub on_recv_message : Protocol → M Bool
on_recv_message p m = if p.encryption_enabled then xtea_decrypt p.key m else some (true, m)

-- What arrives: the two bytes of the header are read to the buffer, then the body, which the connection waits for.
unfoldable pub receive : Protocol → List ℕ → M Bool
receive p incoming m = elim (write_at m.buffer 0 (take 2 incoming)) [
  | none ↦ none
  | some b ↦ elim (parse_header (record m { buffer = b })) [
    | none ↦ none
    | some (size, m1) ↦
        if size == 0
        then some (false, m1)
        else elim (write_at m1.buffer m1.position (take size (drop 2 incoming))) [
          | none ↦ none
          | some b' ↦ elim (check_checksum (record m1 { buffer = b' })) [
            | none ↦ none
            | some (_, m2) ↦ on_recv_message p m2
          ]
        ]
  ]
]
