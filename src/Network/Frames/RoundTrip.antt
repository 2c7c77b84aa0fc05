-- ===== src/Network/Frames/RoundTrip.antt =====
-- A message that is sent with encryption and checksum is received as it was.
use mathlib.Core.List.{append_assoc}
use odirion_mmoserver.Base.{
  ℕ, ◌+◌, ◌<◌, ◌≡◌, refl, sym, ap, subst, ◌∙◌, Bool, true, Option, some, List, [], ◌++◌, arith,
  length, take, drop, replicate, length-append, length-drop, take-append-drop, All-take, All-drop,
}
use odirion_mmoserver.Base.Bytes.{
  IsBytes, to_le, length-to_le, read_at, read_at_parts, length-take_le,
}
use odirion_mmoserver.Network.Message.{NetworkMessage, max_size, max_body_length}
use odirion_mmoserver.Network.Message.Buffer.{IsBuffer}
use odirion_mmoserver.Network.Xtea.{decrypt_round, crypt_blocks, turns}
use odirion_mmoserver.Network.Xtea.Buffers.{sum_start}
use odirion_mmoserver.Network.Frames.{
  OutputMessage, output, Protocol, on_send_message, on_recv_message, receive,
}
use odirion_mmoserver.Network.Frames.Parts.{
  message_of, output_of, output-parts, padding, pad-Restores, padding-mod, padding-lt,
}
use odirion_mmoserver.Network.Frames.Sending.{
  encrypting, frame, inner, inner-IsBytes, cipher, length-cipher, on_send_message-frame,
}
use odirion_mmoserver.Network.Frames.Receiving.{xtea_decrypt-parts}
use odirion_mmoserver.Network.Frames.Arrival.{headers, behind, length-headers, receive-frame}

-- What a message holds from the start of its body on.
abbrev pub body_of : NetworkMessage → Option (List ℕ)
body_of m = read_at m.buffer 8 m.len

-- The message is sent as some bytes, and who receives them parses a message with the same body.
pub record IsDelivered (p : Protocol) (m q : NetworkMessage) : Type 0 where
  pub sent : OutputMessage
  pub bytes : List ℕ
  pub received : NetworkMessage
  pub sends : on_send_message p (output_of 8 m) ≡ some sent
  pub puts_out : output sent ≡ some bytes
  pub receives : receive p bytes q ≡ some (true, received)
  pub at_start : received.position ≡ 8
  pub same_length : received.len ≡ m.len
  pub same_body : body_of received ≡ body_of m

same_message :
    (m : NetworkMessage) {n : ℕ} {buffer : List ℕ}
    → n ≡ m.len
    → m.position ≡ 8 + m.len
    → buffer ≡ m.buffer
    → message_of n (8 + n) m.overrun buffer ≡ m
same_message m e at_end whole =
    λ i. message_of (e i) ((ap (λ j. 8 + j) e ∙ sym at_end) i) m.overrun (whole i)

module _ (k body : List ℕ) (overrun : Bool) (bytes : IsBytes body) (q : NetworkMessage) where
  abbrev cs : List ℕ
  cs = cipher k body overrun bytes

  abbrev padding_bytes : List ℕ
  padding_bytes = replicate (padding (length (inner body))) 0x33

  -- The body is read where the frame was decrypted.
  abbrev received : NetworkMessage
  received =
      message_of (length body) 8 q.overrun
        (headers cs ++ ((to_le 2 (length body) ++ (body ++ padding_bytes)) ++ behind cs q.buffer))

  decrypts :
      crypt_blocks
        (decrypt_round k)
        sum_start
        (turns (length cs))
        6
        (headers cs ++ (cs ++ behind cs q.buffer))
      ≡ some
          (headers cs ++ ((to_le 2 (length body) ++ (body ++ padding_bytes)) ++ behind cs q.buffer))
  decrypts =
      let r = pad-Restores k (inner body) (inner-IsBytes body bytes) in
      subst
        (λ t.
          crypt_blocks (decrypt_round k) sum_start t 6 (headers cs ++ (cs ++ behind cs q.buffer))
          ≡ some (
              headers cs
              ++ ((to_le 2 (length body) ++ (body ++ padding_bytes)) ++ behind cs q.buffer)))
        (ap turns (sym r.same_length))
        (r.decrypts (headers cs) (behind cs q.buffer) 6 (length-headers cs)
          ∙ ap (λ w. some (headers cs ++ (w ++ behind cs q.buffer)))
              (append_assoc (to_le 2 (length body)) body padding_bytes))

  body_of-received : body_of received ≡ some body
  body_of-received =
      let n : ℕ = length body in
      let pre : List ℕ = headers cs ++ to_le 2 n in
      let post : List ℕ = padding_bytes ++ behind cs q.buffer in
      let eight : length pre ≡ 8 =
        omega
          (arith, length-append (headers cs) (to_le 2 n), length-headers cs, length-to_le 2 n) in
      let parts : pre ++ (body ++ post) ≡ received.buffer =
        append_assoc (headers cs) (to_le 2 n) (body ++ post)
        ∙ ap (λ t. headers cs ++ (to_le 2 n ++ t))
            (sym (append_assoc body padding_bytes (behind cs q.buffer)))
        ∙ ap (◌++◌ (headers cs))
            (sym (append_assoc (to_le 2 n) (body ++ padding_bytes) (behind cs q.buffer))) in
      subst (λ b. read_at b 8 n ≡ some body) parts (read_at_parts pre body post 8 n eight refl)

  receive-received :
      IsBuffer q
      → length body + 32 < max_body_length
      → receive (encrypting k) (frame cs) q ≡ some (true, received)
  unfolding on_recv_message
  receive-received size small =
      let n : ℕ = length body in
      let c = length-cipher k body overrun bytes in
      let less = padding-lt (n + 2) in
      receive-frame k q.len q.position q.overrun cs q.buffer size (omega (arith, c))
        (omega (arith, c, small, less)) received
        (xtea_decrypt-parts k n (length cs) q.overrun (headers cs) cs (body ++ padding_bytes)
          (behind cs q.buffer) (length-headers cs) (omega (arith, c, padding-mod (n + 2)))
          (omega (arith, c)) (omega (arith, c)) (omega (arith, c, small, less)) decrypts)

  module _ (a b c rest : List ℕ) (ha : length a ≡ 2) (hb : length b ≡ 4) (hc : length c ≡ 2) where
    delivered :
        length (a ++ (b ++ (c ++ (body ++ rest)))) ≡ max_size
        → IsBuffer q
        → length body + 32 < max_body_length
        → IsDelivered
            (encrypting k)
            (message_of (length body) (8 + length body) overrun (a ++ (b ++ (c ++ (body ++ rest)))))
            q
    delivered size size' small = record {
      sent = output_of 0 (
          message_of (length (frame cs)) (8 + length body) overrun
            (frame cs ++ drop (padding (length body + 2)) rest));
      bytes = frame cs;
      received = received;
      sends =
          on_send_message-frame k body overrun bytes a b c rest ha hb hc size
            (omega (arith, small));
      puts_out =
          output-parts (8 + length body) overrun (length (frame cs)) [] (frame cs)
            (drop (padding (length body + 2)) rest) refl;
      receives = receive-received size' small;
      at_start = refl;
      same_length = refl;
      same_body = body_of-received ∙ sym sent_body;
    }
      where
        sent_body : read_at (a ++ (b ++ (c ++ (body ++ rest)))) 8 (length body) ≡ some body
        sent_body =
            let eight : length (a ++ (b ++ c)) ≡ 8 =
              omega (arith, length-append a (b ++ c), length-append b c) in
            let parts : (a ++ (b ++ c)) ++ (body ++ rest) ≡ a ++ (b ++ (c ++ (body ++ rest))) =
              append_assoc a (b ++ c) (body ++ rest)
              ∙ ap (◌++◌ a) (append_assoc b c (body ++ rest)) in
            subst (λ t. read_at t 8 (length body) ≡ some body) parts
              (read_at_parts (a ++ (b ++ c)) body rest 8 (length body) eight refl)

-- A message whose body ends at its position and leaves 32 bytes of the buffer, which holds bytes, is delivered by a protocol
-- that encrypts and adds the checksum: what `onSendMessage` puts out, the connection at the other end with any buffer and
-- the same key receives as a message with the same body.
pub on_send_message-IsDelivered :
    (k : List ℕ) (m q : NetworkMessage)
    → IsBuffer m
    → IsBuffer q
    → IsBytes m.buffer
    → m.position ≡ 8 + m.len
    → m.len + 32 < max_body_length
    → IsDelivered (encrypting k) m q
on_send_message-IsDelivered k m q size size' bytes at_end small =
    let d1 : List ℕ = drop 2 m.buffer in
    let d2 : List ℕ = drop 4 d1 in
    let d3 : List ℕ = drop 2 d2 in
    let body : List ℕ = take m.len d3 in
    let rest : List ℕ = drop m.len d3 in
    let l1 = length-drop 2 m.buffer in
    let l2 = length-drop 4 d1 in
    let l3 = length-drop 2 d2 in
    let n : length body ≡ m.len =
      length-take_le m.len d3 (omega (arith, size, small, l1, l2, l3)) in
    let whole : take 2 m.buffer ++ (take 4 d1 ++ (take 2 d2 ++ (body ++ rest))) ≡ m.buffer =
      rw (take-append-drop m.len d3, take-append-drop 2 d2, take-append-drop 4 d1)
        (take-append-drop 2 m.buffer) in
    let P : ℕ → Type 0 = λ v. v < 256 in
    let body_bytes : IsBytes body =
      All-take P m.len d3 (All-drop P 2 d2 (All-drop P 4 d1 (All-drop P 2 m.buffer bytes))) in
    let same : message_of (length body) (8 + length body) m.overrun
          (take 2 m.buffer ++ (take 4 d1 ++ (take 2 d2 ++ (body ++ rest))))
        ≡ m =
      same_message m n at_end whole in
    subst (λ x. IsDelivered (encrypting k) x q) same
      (delivered k body m.overrun body_bytes q (take 2 m.buffer) (take 4 d1) (take 2 d2) rest
        (length-take_le 2 m.buffer (omega (arith, size)))
        (length-take_le 4 d1 (omega (arith, size, l1)))
        (length-take_le 2 d2 (omega (arith, size, l1, l2))) (ap length whole ∙ size) size'
        (omega (arith, n, small)))
