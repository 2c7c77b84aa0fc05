-- ===== src/Network/Frames/Receiving.antt =====
-- What the connection and `onRecvMessage` make of a frame that arrives.
use mathlib.Core.List.{append_assoc}
use odirion_mmoserver.Base.{
  ℕ, ◌+◌, ◌-◌, ◌/◌, ◌%◌, ◌^◌, ◌≤◌, ◌<◌, ◌≡◌, refl, sym, ◌∙◌, Bool, true, false, ◌||◌, some, List,
  [], ◌++◌, arith, ltb, leb, ◌==◌, u16, sub32, bit_and, bit_or, ◌<<<◌, length, length-append,
  ==_refl,
}
use odirion_mmoserver.Base.Bits.{bit_and-seven, bit_or-shifted}
use odirion_mmoserver.Base.Bytes.{
  to_le, from_le, length-to_le, read_at, read_at_parts, from_le_two, from_le_four,
}
use odirion_mmoserver.Network.Message.{
  NetworkMessage, max_size, can_read, fetch, get, pure, set_length, decode_header,
}
use odirion_mmoserver.Network.Message.Buffer.{>>=-eq-some}
use odirion_mmoserver.Network.Xtea.{decrypt_round, crypt_blocks, turns, xtea_decrypt}
use odirion_mmoserver.Network.Xtea.Buffers.{sum_start}
use odirion_mmoserver.Network.Checksum.{adler_checksum}
use odirion_mmoserver.Network.Checksum.Reference.{adler_checksum-lt}
use odirion_mmoserver.Network.Frames.{at_body, parse_header, body_checksum, check_checksum}
use odirion_mmoserver.Network.Frames.Parts.{message_of}

fetch-parts :
    (n v len position : ℕ) (overrun : Bool) (pre post : List ℕ)
    → length pre ≡ position
    → position + n < 2 ^ 16
    → fetch n (message_of len position overrun (pre ++ (to_le n v ++ post)))
      ≡ some (to_le n v, message_of len (position + n) overrun (pre ++ (to_le n v ++ post)))
unfolding fetch
fetch-parts n v len position overrun pre post hp small =
    let r = read_at_parts pre (to_le n v) post position n hp (length-to_le n v) in
    let next : u16 (position + n) ≡ position + n = omega (arith, small) in
    rw (r, fetch) (rw next refl)

can_read-fits :
    (m : NetworkMessage) (n : ℕ)
    → (m.position + n ≤ m.len + 8) × (m.position + n < max_size)
    → can_read m n ≡ true
unfolding can_read
can_read-fits m n h = ground (arith, h.0, h.1)

-- `get` where the value stands at the position.
pub get-parts :
    (n v len position : ℕ) (overrun : Bool) (pre post : List ℕ)
    → length pre ≡ position
    → from_le (to_le n v) ≡ v
    → position + n < 2 ^ 16
    → can_read (message_of len position overrun (pre ++ (to_le n v ++ post))) n ≡ true
    → get n (message_of len position overrun (pre ++ (to_le n v ++ post)))
      ≡ some (v, message_of len (position + n) overrun (pre ++ (to_le n v ++ post)))
unfolding get
get-parts n v len position overrun pre post hp hv small can =
    let m = message_of len position overrun (pre ++ (to_le n v ++ post)) in
    let f = fetch-parts n v len position overrun pre post hp small in
    rw (can, get) (>>=-eq-some (fetch n) (λ bs. pure (from_le bs)) m f ∙ rw hv refl)

-- The two bytes of a size.
decode_header-parts :
    (size len position : ℕ) (overrun : Bool) (post : List ℕ)
    → size < 2 ^ 16
    → decode_header (message_of len position overrun (to_le 2 size ++ post))
      ≡ some (size, message_of size position overrun (to_le 2 size ++ post))
unfolding decode_header to_le
decode_header-parts size len position overrun post small =
    let r = read_at_parts [] (to_le 2 size) post 0 2 refl refl in
    let joined : bit_or (size % 256) ((size / 256 % 256) <<< 8) ≡ size =
      bit_or-shifted 8 (size % 256) (size / 256 % 256) (omega arith) ∙ omega (arith, small) in
    let same : u16 size ≡ size = omega (arith, small) in
    rw (r, decode_header) (rw (joined, same) refl)

pub parse_header-parts :
    (size len position : ℕ) (overrun : Bool) (post : List ℕ)
    → 0 < size
    → size < max_size - 16
    → parse_header (message_of len position overrun (to_le 2 size ++ post))
      ≡ some (size, message_of (size + 2) 2 overrun (to_le 2 size ++ post))
unfolding parse_header at_body set_length
parse_header-parts size len position overrun post some_size small =
    let d = decode_header-parts size len position overrun post (omega (arith, small)) in
    let open_still : (size == 0 || leb (max_size - 16) size) ≡ false =
      ground (arith, some_size, small) in
    let same : u16 (size + 2) ≡ size + 2 = omega (arith, small) in
    rw (d, parse_header) (rw (open_still, same) refl)

-- The sum that was sent is found before the bytes that it was computed from.
pub check_checksum-parts :
    (overrun : Bool) (header cs post : List ℕ)
    → length header ≡ 2
    → 0 < length cs
    → length cs + 16 < max_size
    → check_checksum (
        message_of
          (length cs + 6)
          2
          overrun
          (header ++ (to_le 4 (adler_checksum cs) ++ (cs ++ post))))
      ≡ some (
        true,
        message_of
            (length cs + 6)
            6
            overrun
            (header ++ (to_le 4 (adler_checksum cs) ++ (cs ++ post))),
      )
unfolding check_checksum body_checksum
check_checksum-parts overrun header cs post hh some_bytes small =
    let sum : ℕ = adler_checksum cs in
    let six : length (header ++ to_le 4 sum) ≡ 6 =
      omega (arith, length-append header (to_le 4 sum), length-to_le 4 sum) in
    let long : leb (length cs + 6) (2 + 4) ≡ false = ground (arith, some_bytes) in
    let left : length cs + 6 - (2 + 4) ≡ length cs = omega arith in
    let r : read_at (header ++ (to_le 4 sum ++ (cs ++ post))) (2 + 4) (length cs) ≡ some cs =
      rw (sym (append_assoc header (to_le 4 sum) (cs ++ post)))
        (read_at_parts (header ++ to_le 4 sum) cs post 6 (length cs) six refl) in
    let g =
      get-parts 4 sum (length cs + 6) 2 overrun header (cs ++ post) hh
        (from_le_four sum (adler_checksum-lt cs)) (omega arith)
        (can_read-fits _ 4 (omega arith, omega (arith, small))) in
    let m = message_of (length cs + 6) 2 overrun (header ++ (to_le 4 sum ++ (cs ++ post))) in
    let computed : body_checksum m ≡ some sum = rw (long, body_checksum) (rw left (rw r refl)) in
    rw (computed, check_checksum) (rw g (rw (==_refl sum) refl))

-- A body that was padded and encrypted is decrypted where it stands, and its length is that of the body again.
pub xtea_decrypt-parts :
    (k : List ℕ) (n len : ℕ) (overrun : Bool) (pre cs ws post : List ℕ)
    → length pre ≡ 6
    → len % 8 ≡ 0
    → n + 2 ≤ len
    → 0 < len
    → len + 16 < max_size
    → crypt_blocks (decrypt_round k) sum_start (turns len) 6 (pre ++ (cs ++ post))
      ≡ some (pre ++ ((to_le 2 n ++ ws) ++ post))
    → xtea_decrypt k (message_of (len + 6) 6 overrun (pre ++ (cs ++ post)))
      ≡ some (true, message_of n 8 overrun (pre ++ ((to_le 2 n ++ ws) ++ post)))
unfolding xtea_decrypt set_length
xtea_decrypt-parts k n len overrun pre cs ws post six eights fits some_bytes small d =
    let whole : (bit_and (sub32 (len + 6) 6) 7 == 0) ≡ true =
      rw (bit_and-seven (sub32 (len + 6) 6)) (ground (arith, eights, small)) in
    let blocks : len + 6 - 6 ≡ len = omega arith in
    let g =
      get-parts 2 n (len + 6) 6 overrun pre (ws ++ post) six
        (from_le_two n (omega (arith, fits, small))) (omega arith)
        (can_read-fits _ 2 (omega arith, omega arith)) in
    let enough : ltb (len + 6) (n + 8) ≡ false = ground (arith, fits) in
    let same : u16 n ≡ n = omega (arith, fits, small) in
    let joined = append_assoc (to_le 2 n) ws post in
    rw (whole, xtea_decrypt) (rw blocks (rw d (rw joined (rw g (rw (enough, same) refl)))))
