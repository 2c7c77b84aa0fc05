-- ===== src/Network/Frames/Arrival.antt =====
-- A frame on its way through `parseHeader` and `parsePacket`.
use mathlib.Core.List.{append_assoc, append-nil}
use odirion_mmoserver.Base.{
  ℕ, ◌+◌, ◌<◌, ◌≡◌, refl, sym, ap, subst, ◌∙◌, Bool, true, false, some, List, [], ◌++◌, arith, ◌==◌,
  length, take, drop, length-append, length-drop, take-append-drop, take-append_eq, drop-append_eq,
}
use odirion_mmoserver.Base.Bytes.{to_le, length-to_le, write_at, write_at_parts, length-take_le}
use odirion_mmoserver.Network.Message.{NetworkMessage, max_size, max_body_length}
use odirion_mmoserver.Network.Checksum.{adler_checksum}
use odirion_mmoserver.Network.Frames.{
  Protocol, check_checksum, parse_header, on_recv_message, receive,
}
use odirion_mmoserver.Network.Frames.Parts.{message_of}
use odirion_mmoserver.Network.Frames.Sending.{encrypting, frame}
use odirion_mmoserver.Network.Frames.Receiving.{parse_header-parts, check_checksum-parts}

receive-steps :
    (p : Protocol) (size : ℕ) (incoming buffer : List ℕ) (m m1 m2 m3 : NetworkMessage)
    → write_at m.buffer 0 (take 2 incoming) ≡ some buffer
    → parse_header (record m { buffer = buffer }) ≡ some (size, m1)
    → 0 < size
    → (buffer' : List ℕ)
    → write_at m1.buffer m1.position (take size (drop 2 incoming)) ≡ some buffer'
    → check_checksum (record m1 { buffer = buffer' }) ≡ some (true, m2)
    → on_recv_message p m2 ≡ some (true, m3)
    → receive p incoming m ≡ some (true, m3)
unfolding receive
receive-steps p size incoming buffer m m1 m2 m3 e1 e2 some_size buffer' e3 e4 e5 =
    let go_on : (size == 0) ≡ false = ground (arith, some_size) in
    rw (e1, receive) (rw e2 (rw go_on (rw e3 (rw e4 e5))))

-- What stands before the encrypted bytes of a frame, and what of the buffer behind it.
abbrev pub headers : List ℕ → List ℕ
headers cs = to_le 2 (length cs + 4) ++ to_le 4 (adler_checksum cs)

abbrev pub behind : List ℕ → List ℕ → List ℕ
behind cs buffer = drop (length cs + 4) (drop 2 buffer)

pub length-headers : (cs : List ℕ) → length (headers cs) ≡ 6
length-headers cs = omega (
  arith,
  length-append (to_le 2 (length cs + 4)) (to_le 4 (adler_checksum cs)),
  length-to_le 2 (length cs + 4),
  length-to_le 4 (adler_checksum cs),
)

take_all : (n : ℕ) (xs : List ℕ) → length xs ≡ n → take n xs ≡ xs
take_all n xs h = subst (λ t. take n t ≡ xs) (append-nil xs) (take-append_eq n xs [] h)

-- A frame that arrives is taken apart; what is encrypted in it goes to the protocol.
pub receive-frame :
    (k : List ℕ) (len position : ℕ) (overrun : Bool) (cs buffer : List ℕ)
    → length buffer ≡ max_size
    → 0 < length cs
    → length cs + 16 < max_body_length
    → (m3 : NetworkMessage)
    → on_recv_message
        (encrypting k)
        (message_of (length cs + 6) 6 overrun (headers cs ++ (cs ++ behind cs buffer)))
      ≡ some (true, m3)
    → receive (encrypting k) (frame cs) (message_of len position overrun buffer) ≡ some (true, m3)
receive-frame k len position overrun cs buffer size some_bytes small m3 on =
    let n : ℕ = length cs + 4 in
    let header : List ℕ = to_le 2 n in
    let tail : List ℕ = to_le 4 (adler_checksum cs) ++ cs in
    let two : length header ≡ 2 = length-to_le 2 n in
    let rest : List ℕ = drop 2 buffer in
    let tail_length : length tail ≡ n =
      omega (
        arith,
        length-append (to_le 4 (adler_checksum cs)) cs,
        length-to_le 4 (adler_checksum cs),
      ) in
    let e1 : write_at buffer 0 (take 2 (frame cs)) ≡ some (header ++ rest) =
      rw (take-append_eq 2 header tail two) (
        subst (λ b. write_at b 0 header ≡ some (header ++ rest)) (take-append-drop 2 buffer)
          (write_at_parts [] (take 2 buffer) rest header 0 refl
            (length-take_le 2 buffer (omega (arith, size)) ∙ sym two))) in
    let e2 = parse_header-parts n len position overrun rest (omega arith) (omega (arith, small)) in
    let e3 : write_at (header ++ rest) 2 (take n (drop 2 (frame cs)))
        ≡ some (header ++ (tail ++ behind cs buffer)) =
      rw (drop-append_eq 2 header tail two, take_all n tail tail_length)
        (subst (λ b. write_at (header ++ b) 2 tail ≡ some (header ++ (tail ++ behind cs buffer)))
          (take-append-drop n rest)
          (write_at_parts header (take n rest) (drop n rest) tail 2 two (
            length-take_le n rest (omega (arith, size, small, length-drop 2 buffer))
            ∙ sym tail_length))) in
    let e4 =
      check_checksum-parts overrun header cs (behind cs buffer) two some_bytes
        (omega (arith, small)) in
    let six : n + 2 ≡ length cs + 6 = omega arith in
    let parts : headers cs ++ (cs ++ behind cs buffer) ≡ header ++ (tail ++ behind cs buffer) =
      append_assoc header (to_le 4 (adler_checksum cs)) (cs ++ behind cs buffer)
      ∙ ap (◌++◌ header) (sym (append_assoc (to_le 4 (adler_checksum cs)) cs (behind cs buffer))) in
    let parts' : header ++ (to_le 4 (adler_checksum cs) ++ (cs ++ behind cs buffer))
        ≡ header ++ (tail ++ behind cs buffer) =
      ap (◌++◌ header) (sym (append_assoc (to_le 4 (adler_checksum cs)) cs (behind cs buffer))) in
    let checked : check_checksum
          (message_of (n + 2) 2 overrun (header ++ (tail ++ behind cs buffer)))
        ≡ some (true, message_of (length cs + 6) 6 overrun (header ++ (tail ++ behind cs buffer))) =
      subst
        (λ l.
          check_checksum (message_of l 2 overrun (header ++ (tail ++ behind cs buffer)))
          ≡ some
              (true, message_of (length cs + 6) 6 overrun (header ++ (tail ++ behind cs buffer))))
        (sym six)
        (subst
          (λ b.
            check_checksum (message_of (length cs + 6) 2 overrun b)
            ≡ some (true, message_of (length cs + 6) 6 overrun b))
          parts' e4) in
    let handed : on_recv_message (encrypting k)
          (message_of (length cs + 6) 6 overrun (header ++ (tail ++ behind cs buffer)))
        ≡ some (true, m3) =
      subst
        (λ b.
          on_recv_message (encrypting k) (message_of (length cs + 6) 6 overrun b) ≡ some (true, m3))
        parts on in
    receive-steps (encrypting k) n (frame cs) (header ++ rest)
      (message_of len position overrun buffer) (message_of (n + 2) 2 overrun (header ++ rest))
      (message_of (length cs + 6) 6 overrun (header ++ (tail ++ behind cs buffer))) m3 e1 e2
      (omega arith) (header ++ (tail ++ behind cs buffer)) e3 checked handed
