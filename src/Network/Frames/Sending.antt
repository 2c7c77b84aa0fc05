-- ===== src/Network/Frames/Sending.antt =====
-- What `onSendMessage` makes of a message with a body.
use mathlib.Core.List.{append_assoc}
use odirion_mmoserver.Base.{
  ℕ, ◌+◌, ◌^◌, ◌<◌, ◌≡◌, refl, sym, ap, ◌∙◌, Bool, true, false, some, List, [], ◌++◌, arith, u16,
  length, drop, length-append, All-append,
}
use odirion_mmoserver.Base.Bytes.{IsBytes, to_le, length-to_le, to_le-IsBytes, read_at_parts}
use odirion_mmoserver.Network.Message.{max_size, max_body_length}
use odirion_mmoserver.Network.Checksum.{adler_checksum}
use odirion_mmoserver.Network.Frames.{
  OutputMessage, write_message_length, output, add_crypto_header, Protocol, encrypt_output,
  on_send_message,
}
use odirion_mmoserver.Network.Frames.Parts.{
  message_of, output_of, same_output, add_header-parts, padding, pad, length-pad, padding-lt,
  pad-Restores, encrypt_output-parts,
}

-- The bytes of a frame: its length, the checksum, and what is encrypted.
abbrev pub frame : List ℕ → List ℕ
frame cs = to_le 2 (length cs + 4) ++ (to_le 4 (adler_checksum cs) ++ cs)

pub length-frame : (cs : List ℕ) → length (frame cs) ≡ length cs + 6
length-frame cs = omega (
  arith,
  length-append (to_le 2 (length cs + 4)) (to_le 4 (adler_checksum cs) ++ cs),
  length-append (to_le 4 (adler_checksum cs)) cs,
  length-to_le 2 (length cs + 4),
  length-to_le 4 (adler_checksum cs),
)

module _ (position : ℕ) (overrun : Bool) (a b cs rest : List ℕ) (ha : length a ≡ 2)
    (hb : length b ≡ 4) where
  add_crypto_header-parts :
      length cs + 4 < 2 ^ 16
      → add_crypto_header true
          (output_of 6 (message_of (length cs) position overrun (a ++ (b ++ (cs ++ rest)))))
        ≡ some (output_of 0 (message_of (u16 (length cs + 6)) position overrun (frame cs ++ rest)))
  unfolding add_crypto_header write_message_length output
  add_crypto_header-parts small =
      let checksum : ℕ = adler_checksum cs in
      let n : ℕ = u16 (length cs + 4) in
      let six : length (a ++ b) ≡ 6 = omega (arith, length-append a b) in
      let out : output
            (output_of 6 (message_of (length cs) position overrun (a ++ (b ++ (cs ++ rest)))))
          ≡ some cs =
        rw (sym (append_assoc a b (cs ++ rest)))
          (read_at_parts (a ++ b) cs rest 6 (length cs) six refl) in
      let h4 =
        add_header-parts position overrun 4 checksum 6 (length cs) a b (cs ++ rest) (omega arith)
          hb in
      let h2 =
        add_header-parts position overrun 2 n (length a) n [] a (to_le 4 checksum ++ (cs ++ rest))
          (omega arith) ha in
      let short : n ≡ length cs + 4 = omega arith in
      let same_length : u16 (n + 2) ≡ u16 (length cs + 6) = omega arith in
      let same_buffer : to_le 2 (length cs + 4) ++ (to_le 4 checksum ++ (cs ++ rest))
          ≡ frame cs ++ rest =
        sym (
          append_assoc (to_le 2 (length cs + 4)) (to_le 4 checksum ++ cs) rest
          ∙ ap (◌++◌ (to_le 2 (length cs + 4))) (append_assoc (to_le 4 checksum) cs rest)) in
      rw (out, add_crypto_header) (rw h4 (h2 ∙ rw (same_length, short, same_buffer) refl))

-- A protocol past its handshake.
abbrev pub encrypting : List ℕ → Protocol
encrypting k = record {
  raw_messages = false;
  encryption_enabled = true;
  checksum_enabled = true;
  key = k;
}

on_send_message-steps :
    (k : List ℕ) (o0 o1 o2 o3 : OutputMessage)
    → write_message_length o0 ≡ some o1
    → encrypt_output k o1 ≡ some o2
    → add_crypto_header true o2 ≡ some o3
    → on_send_message (encrypting k) o0 ≡ some o3
unfolding on_send_message
on_send_message-steps k o0 o1 o2 o3 e1 e2 e3 = rw e1 (rw e2 e3)

-- The length of the body and the body, which are encrypted together.
abbrev pub inner : List ℕ → List ℕ
inner body = to_le 2 (length body) ++ body

pub inner-IsBytes : (body : List ℕ) → IsBytes body → IsBytes (inner body)
inner-IsBytes body h =
    All-append (λ v. v < 256) (to_le 2 (length body)) body (to_le-IsBytes 2 (length body)) h

pub length-inner : (body : List ℕ) → length (inner body) ≡ length body + 2
length-inner body =
    omega (arith, length-append (to_le 2 (length body)) body, length-to_le 2 (length body))

module _ (k body : List ℕ) (overrun : Bool) (bytes : IsBytes body) where
  -- What the body is encrypted to.
  abbrev pub cipher : List ℕ
  cipher = (pad-Restores k (inner body) (inner-IsBytes body bytes)).cs

  pub length-cipher : length cipher ≡ length body + 2 + padding (length body + 2)
  length-cipher =
      (pad-Restores k (inner body) (inner-IsBytes body bytes)).same_length
      ∙ length-pad (inner body)
      ∙ rw (length-inner body) refl

  module _ (a b c rest : List ℕ) (ha : length a ≡ 2) (hb : length b ≡ 4) (hc : length c ≡ 2) where
    six : length (a ++ b) ≡ 6
    six = omega (arith, length-append a b)

    -- The message with its first header, and encrypted.
    abbrev headed : OutputMessage
    headed = output_of (length (a ++ b)) (
        message_of (length (inner body)) (length (a ++ b) + length (inner body)) overrun
          ((a ++ b) ++ (inner body ++ rest)))

    abbrev scrambled : OutputMessage
    scrambled = output_of (length (a ++ b)) (
        message_of (length (pad (inner body))) (length (a ++ b) + length (inner body)) overrun
          ((a ++ b) ++ (cipher ++ drop (padding (length (inner body))) rest)))

    at_end : length (a ++ b) + length (inner body) ≡ 8 + length body
    at_end = omega (arith, six, length-inner body)

    write_message_length-headed :
        length body + 16 < max_body_length
        → write_message_length (
            output_of 8 (
              message_of
                (length body)
                (8 + length body)
                overrun
                (a ++ (b ++ (c ++ (body ++ rest))))))
          ≡ some headed
    unfolding write_message_length
    write_message_length-headed small =
        let n : ℕ = length body in
        let h =
          add_header-parts (8 + n) overrun 2 n 8 n (a ++ b) c (body ++ rest) (omega (arith, six))
            hc in
        let same_length : length (inner body) ≡ u16 (n + 2) =
          omega (arith, small, length-inner body) in
        let same_buffer : inner body ++ rest ≡ to_le 2 n ++ (body ++ rest) =
          append_assoc (to_le 2 n) body rest in
        rw (at_end, same_buffer, same_length, sym (append_assoc a b (c ++ (body ++ rest)))) h

    add_crypto_header-frame :
        length body + 16 < max_body_length
        → add_crypto_header true scrambled
          ≡ some (
              output_of 0 (
                message_of
                  (length (frame cipher))
                  (8 + length body)
                  overrun
                  (frame cipher ++ drop (padding (length body + 2)) rest)))
    add_crypto_header-frame small =
        let rest' : List ℕ = drop (padding (length body + 2)) rest in
        let less = padding-lt (length body + 2) in
        let h =
          add_crypto_header-parts (8 + length body) overrun a b cipher rest' ha hb
            (omega (arith, small, length-cipher, less)) in
        let same_rest : drop (padding (length (inner body))) rest ≡ rest' =
          ap (λ j. drop (padding j) rest) (length-inner body) in
        let before : scrambled
            ≡ output_of 6 (
                message_of (length cipher) (8 + length body) overrun
                  (a ++ (b ++ (cipher ++ rest')))) =
          same_output six (sym (pad-Restores k (inner body) (inner-IsBytes body bytes)).same_length)
            at_end
            (append_assoc a b (cipher ++ drop (padding (length (inner body))) rest)
              ∙ ap (λ t. a ++ (b ++ (cipher ++ t))) same_rest) in
        let after : u16 (length cipher + 6) ≡ length (frame cipher) =
          omega (arith, small, length-cipher, less, length-frame cipher) in
        ap (add_crypto_header true) before
        ∙ h
        ∙ ap
            (λ n.
              some (output_of 0 (message_of n (8 + length body) overrun (frame cipher ++ rest'))))
            after

    pub on_send_message-frame :
        length (a ++ (b ++ (c ++ (body ++ rest)))) ≡ max_size
        → length body + 16 < max_body_length
        → on_send_message (encrypting k) (
            output_of 8 (
              message_of
                (length body)
                (8 + length body)
                overrun
                (a ++ (b ++ (c ++ (body ++ rest))))))
          ≡ some (
              output_of 0 (
                message_of
                  (length (frame cipher))
                  (8 + length body)
                  overrun
                  (frame cipher ++ drop (padding (length body + 2)) rest)))
    on_send_message-frame size small =
        let lengths : length ((a ++ b) ++ (inner body ++ rest)) ≡ max_size = omega (
          arith,
          size,
          six,
          length-append (a ++ b) (inner body ++ rest),
          length-append (inner body) rest,
          length-inner body,
          length-append a (b ++ (c ++ (body ++ rest))),
          length-append b (c ++ (body ++ rest)),
          length-append c (body ++ rest),
          length-append body rest,
        ) in
        on_send_message-steps k _ headed scrambled _ (write_message_length-headed small)
          (encrypt_output-parts k overrun (a ++ b) (inner body) rest (inner-IsBytes body bytes)
            lengths (omega (arith, small, at_end)))
          (add_crypto_header-frame small)
